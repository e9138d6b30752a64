-- ===== src/Tests/Traffic.antt =====
-- One task that sends a datagram, step by step.
use rl_rust_client.Common.{refl, arith, [], ◌∷◌}
use rl_rust_client.Error.{IoResult}
use rl_rust_client.Client.Servers.{v4}
use rl_rust_client.Traffic.{
  ready, holding, no_traffic, failures, store_counter, after_exchange, sent_adds, snapshot,
}
use rl_rust_client.Traffic.Steps.{
  load, exchange, exchange_fails, sent_event, event_adds, System, start, Step, call, run, Reach,
  started, stepped,
}
use rl_rust_client.Traffic.Steps.Invariant.{IsSystem, Reach-IsSystem}
use rl_rust_client.Traffic.Steps.Refines.{Shows, snapshot-AtRest}

-- A send of 100 bytes of which 99 are taken: it is a failure.
abbrev test_call : System
test_call = record {
  counters = no_traffic;
  tasks = ready ((failures, 1) ∷ []) ∷ [];
  asked = sent_event 100 (v4 1 80) (IoResult.sent 99) ∷ [];
  committed = [];
}

abbrev test_loaded : System
test_loaded = record {
  counters = no_traffic;
  tasks = holding 7 failures 1 [] ∷ [];
  asked = test_call.asked;
  committed = [];
}

abbrev test_retried : System
test_retried = record {
  counters = no_traffic;
  tasks = holding 0 failures 1 [] ∷ [];
  asked = test_call.asked;
  committed = [];
}

abbrev test_done : System
test_done = record {
  counters = store_counter no_traffic failures 1;
  tasks = ready [] ∷ [];
  asked = test_call.asked;
  committed = (failures, 1) ∷ [];
}

test_called : Step start test_call
unfolding event_adds sent_adds
test_called = call start (sent_event 100 (v4 1 80) (IoResult.sent 99))

-- The first exchange fails on a value that was never there, and the second one succeeds.
test-Reach : Reach test_retried
test-Reach =
    stepped test_loaded test_retried
      (stepped test_call test_loaded (stepped start test_call started test_called)
        (run no_traffic no_traffic [] [] _ _ _ [] [] (load no_traffic failures 1 7 [])))
      (run no_traffic no_traffic [] [] _ _ _ [] [] (exchange_fails no_traffic failures 1 7 0 []))

test-Reach_done : Reach test_done
unfolding after_exchange
test-Reach_done = stepped test_retried test_done test-Reach (
    run no_traffic (store_counter no_traffic failures 1) [] [] _ _ _ [] ((failures, 1) ∷ [])
      (exchange no_traffic failures 1 0 [] refl))

Reach-IsSystem_example : IsSystem test_done
Reach-IsSystem_example = Reach-IsSystem test_done test-Reach_done

snapshot-AtRest_example : Shows (snapshot test_done.counters) test_done.asked
snapshot-AtRest_example = snapshot-AtRest test_done test-Reach_done (refl, tt) (omega arith, tt)
