-- ===== src/Tests/Router.antt =====
-- The router of responses, and the steering of the source port.
use rl_rust_client.Common.{
  ℕ, zero, suc, ◌+◌, ◌<◌, ◌≡◌, ◌≢◌, refl, sym, ◌∙◌, arith, List, [], ◌∷◌, ◌++◌, replicate, Bool,
  Bool-cases, ap, subst, ◌==◌, if◌then◌else◌, true, false, inl, inr, Result, ok, err, Ensures,
  ensures_ok, ensures_err,
}
use rl_rust_client.Error.{CoreError, io, addr_in_use}
use rl_rust_client.Common.Bytes.{slice, u16_at, index, array_at, to_array}
use rl_rust_client.Client.Response.{peek_request_id}
use rl_rust_client.Client.Servers.{v4}
use rl_rust_client.Client.Check.{local_grant}
use rl_rust_client.Tests.Packets.{plain_packet}
use rl_rust_client.Client.Router.{
  Uuid, ResponsePacket, Turn, registers, drops, arrives, sends, run, no_requests,
}
use rl_rust_client.Client.Router.Routing.{contents}
use rl_rust_client.Client.Router.Open.{routed}
use rl_rust_client.Client.Router.Lifecycle.{run-contents}
use rl_rust_client.Client.Steering.Feedback.{ignores_feedback, Steering, Host, rebind}
use rl_rust_client.Client.Steering.Feedback.Rebind.{IsHost, Outcome, rebind-Outcome}
use rl_rust_client.Client.Steering.Feedback.Tasks.{
  SteeringTask, idle, using, waiting, draining, owning, returned, reads, writes, applies, NoneOf,
  update, Move, Shared, no_feedback, store_pending, take_pending, rebind_sockets, System, begin,
  advise, store, lock, load_true, write, swap_true, replace, Step, pick, Reach, start, later,
}
use rl_rust_client.Client.Steering.Feedback.Exclusive.{Step-steering}
use rl_rust_client.Client.Steering.Feedback.Served.{IsCounted, returned_lt}

abbrev test_id : Uuid
test_id = replicate 16 7

abbrev test_response : ResponsePacket
test_response = record { bytes = plain_packet 5; addr = v4 1 80 }

abbrev other_response : ResponsePacket
other_response = record { bytes = replicate 28 8; addr = v4 1 80 }

abbrev test_turns : List Turn
test_turns =
    registers (replicate 16 8) ∷ (arrives test_response ∷ (arrives other_response ∷ (sends ∷ [])))

routed_response : routed test_id test_turns ≡ test_response ∷ []
unfolding routed peek_request_id slice u16_at index array_at to_array
routed_response = refl

run-contents_example :
    contents
      (run no_requests
        ([] ++ (registers test_id ∷ (test_turns ++ (drops test_id ∷ (registers test_id ∷ []))))))
      (run no_requests []).channels
    ≡ routed test_id test_turns
run-contents_example =
    run-contents [] test_id test_turns (registers test_id ∷ []) (refl, (tt, (tt, (tt, tt))))

-- Sockets that are their port. The system binds every port but that of the current sockets.
abbrev test_bind : ℕ → Result CoreError ℕ
test_bind port = if port == 60000 then err (io (record { kind = addr_in_use })) else ok port

abbrev test_host : Host ℕ
test_host = record { bind = test_bind; port_of = λ port. ok port; acknowledged = ok tt }

abbrev test_steering : Steering ℕ
test_steering = (no_feedback {Sockets = ℕ} 60000).steering

ok_inj : {a b : ℕ} (x y : Result CoreError ℕ) → x ≡ ok a → y ≡ ok b → x ≡ y → a ≡ b
ok_inj x y e h same = cc

asked_port : (port socket : ℕ) → test_bind port ≡ ok socket → socket ≡ port
asked_port port socket = elim (Bool-cases (port == 60000)) [
  | inl e ↦ rw e (λ h. absurd (cc))
  | inr e ↦ rw e (λ h. sym (ok_inj _ _ refl refl h))
]

test_host-IsHost : IsHost test_host test_steering
test_host-IsHost = record {
  bind_returns = bind_returns;
  port_returns = λ socket. ensures_ok tt;
  ack_returns = ensures_ok tt;
  asked = λ port socket _ e. ap ok (asked_port port socket e);
  exclusive = λ port socket e h. taken port socket (sym (ok_inj _ _ refl refl e)) h;
}
  where
    bind_returns : (port : ℕ) → Ensures (λ _. Unit {0}) (test_bind port)
    bind_returns port = elim (Bool-cases (port == 60000)) [
      | inl e ↦ rw e ensures_err
      | inr e ↦ rw e (ensures_ok tt)
    ]

    taken : (port socket : ℕ) → port ≡ 60000 → test_bind port ≢ ok socket
    taken port socket e = rw e (λ h. absurd (cc))

rebind-Outcome_example :
    Outcome test_host test_steering (rebind test_host test_steering)
    × ((rebind test_host test_steering).0.stats.feedback_zero_count ≡ 0 + 1)
rebind-Outcome_example = rebind-Outcome test_host test_steering test_host-IsHost (inl refl)

-- A system in which at most one task has begun.
record Alone (m : Shared ℕ) (task : SteeringTask) : Type 0 where
  system : System ℕ
  reach : Reach 60000 system
  is_at : system.tasks 0 ≡ task
  is_shared : system.shared ≡ m
  others : (j : ℕ) → 0 ≢ j → system.tasks j ≡ idle

alone-NoneOf :
    (kind : SteeringTask → Bool) (tasks : ℕ → SteeringTask)
    → kind (tasks 0) ≡ false
    → kind idle ≡ false
    → ((j : ℕ) → 0 ≢ j → tasks j ≡ idle)
    → NoneOf kind tasks
alone-NoneOf kind tasks here there others zero = here
alone-NoneOf kind tasks here there others (suc j) = ap kind (others (suc j) (omega arith)) ∙ there

update_other :
    (tasks : ℕ → SteeringTask) (task : SteeringTask) (j : ℕ)
    → 0 ≢ j
    → update tasks 0 task j ≡ tasks j
unfolding update
update_other tasks task j other = let e : (0 == j) ≡ false = ground arith in rw e refl

abbrev go :
    {m m' : Shared ℕ} {task task' : SteeringTask}
    → Alone m task
    → ((tasks : ℕ → SteeringTask)
        → ((kind : SteeringTask → Bool) → kind task ≡ false → kind idle ≡ false → NoneOf kind tasks)
        → Move tasks m task m' task')
    → Alone m' task'
unfolding update
go {m = m} {m' = m'} {task = task} {task' = task'} a move = record {
  system = record { shared = m'; tasks = update a.system.tasks 0 task' };
  reach = later a.system _ a.reach (
      pick 0 m' task' (
        subst (λ p. Move a.system.tasks a.system.shared p m' task') (sym a.is_at)
          (subst (λ n. Move a.system.tasks n task m' task') (sym a.is_shared)
            (move a.system.tasks λ kind here there.
              alone-NoneOf kind a.system.tasks (ap kind a.is_at ∙ here) there a.others))));
  is_at = refl;
  is_shared = refl;
  others = λ j other. update_other a.system.tasks task' j other ∙ a.others j other;
}

abbrev at_first : Alone (no_feedback 60000) idle
at_first = record {
  system = record { shared = no_feedback 60000; tasks = λ _. idle };
  reach = start;
  is_at = refl;
  is_shared = refl;
  others = λ j other. refl;
}

abbrev reading : Alone (no_feedback 60000) using
unfolding writes
reading = go at_first λ tasks none. begin (no_feedback 60000) (none writes refl refl)

-- The store, the locks and the rebind of one feedback.
abbrev shared_stored : Shared ℕ
shared_stored = store_pending (no_feedback 60000)

abbrev has_stored : Alone shared_stored (waiting 0)
unfolding ignores_feedback
has_stored =
    go (go reading λ tasks none. advise (no_feedback 60000) true false local_grant refl)
      λ tasks none. store (no_feedback 60000)

abbrev has_locked : Alone shared_stored (draining 0)
unfolding applies
has_locked =
    go (go has_stored λ tasks none. lock shared_stored 0 (none applies refl refl))
      λ tasks none. load_true shared_stored 0 refl

abbrev has_drained : Alone shared_stored (owning 0)
unfolding reads writes
has_drained =
    go has_locked λ tasks none. write shared_stored 0 (none reads refl refl) (none writes refl refl)

abbrev has_rebound : Alone (rebind_sockets test_host (take_pending shared_stored)) (returned 0)
has_rebound =
    go (go has_drained λ tasks none. swap_true shared_stored 0 refl)
      λ tasks none. replace (take_pending shared_stored) 0 test_host

returned_lt_example :
    (0 < has_rebound.system.shared.ended + has_rebound.system.shared.dropped)
    × IsCounted has_rebound.system.shared
returned_lt_example = returned_lt 60000 has_rebound.system 0 0 has_rebound.reach has_rebound.is_at

-- A second request begins while the first one uses the sockets.
abbrev both_reading : System ℕ
both_reading = record {
  shared = reading.system.shared;
  tasks = update reading.system.tasks 1 using;
}

second_begins : Step reading.system both_reading
unfolding writes
second_begins = pick 1 reading.system.shared using (
    subst (λ p. Move reading.system.tasks reading.system.shared p reading.system.shared using)
      (sym (reading.others 1 (omega arith)))
      (begin reading.system.shared
        (alone-NoneOf writes reading.system.tasks (ap writes reading.is_at) refl reading.others)))

Step-steering_example : both_reading.shared.steering ≡ reading.system.shared.steering
unfolding reads
Step-steering_example =
    Step-steering 60000 reading.system both_reading 0 reading.reach (ap reads reading.is_at)
      second_begins
