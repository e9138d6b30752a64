-- ===== src/Traffic/Steps.antt =====
-- The atomic steps of `TrafficCounters::add` in src/traffic.rs, by tasks that take turns in any order.
pub mod Documented
pub mod Exchange
pub mod Invariant
pub mod Refines
pub mod Totals
use rl_rust_client.Common.{ℕ, ◌+◌, ◌≡◌, List, [], ◌∷◌, ◌++◌, Bool}
use rl_rust_client.Error.{IoResult}
use rl_rust_client.Client.Servers.{SocketAddr}
use rl_rust_client.Traffic.{
  sent_adds, received_adds, TrafficCounters, no_traffic, saturating_add, store_counter,
  store_incomplete, Counter, Add, Task, ready, holding, flagging, after_exchange,
}

-- One step of a task, on the counters. The last argument is the call of `add` that it completes.
pub data TaskStep : TrafficCounters → Task → TrafficCounters → Task → List Add → Type 0 where
  load :
      (m : TrafficCounters) (c : Counter) (value previous : ℕ) (rest : List Add)
      → TaskStep m (ready ((c, value) ∷ rest)) m (holding previous c value rest) []
  exchange :
      (m : TrafficCounters) (c : Counter) (value previous : ℕ) (rest : List Add)
      → m.value c ≡ previous
      → TaskStep m
          (holding previous c value rest)
          (store_counter m c (saturating_add previous value))
          (after_exchange previous value rest)
          ((c, value) ∷ [])
  exchange_fails :
      (m : TrafficCounters) (c : Counter) (value previous actual : ℕ) (rest : List Add)
      → TaskStep m (holding previous c value rest) m (holding actual c value rest) []
  set_flag :
      (m : TrafficCounters) (rest : List Add)
      → TaskStep m (flagging rest) (store_incomplete m) (ready rest) []

-- A call of `sent` or of `received`, with its arguments.
pub data Event : Type 0 where
  sent_event : ℕ → SocketAddr → IoResult → Event
  received_event : ℕ → SocketAddr → Event

unfoldable pub event_adds : Event → List Add
event_adds (sent_event len peer result) = sent_adds len peer result
event_adds (received_event len peer) = received_adds len peer

unfoldable pub all_adds : List Event → List Add
all_adds [] = []
all_adds (event ∷ events) = event_adds event ++ all_adds events

-- The counters and the tasks. For the proofs, `asked` is the calls since the counters were made, and
-- `committed` is what was added.
pub record System : Type 0 where
  pub counters : TrafficCounters
  pub tasks : List Task
  pub asked : List Event
  pub committed : List Add

abbrev pub start : System
start = record { counters = no_traffic; tasks = []; asked = []; committed = [] }

-- A task that calls `sent` or `received`, and one task's step among the others.
pub data Step : System → System → Type 0 where
  call :
      (s : System) (event : Event)
      → Step s (record {
        counters = s.counters;
        tasks = ready (event_adds event) ∷ s.tasks;
        asked = event ∷ s.asked;
        committed = s.committed;
      })
  run :
      (m m' : TrafficCounters) (before after : List Task) (t t' : Task) (asked : List Event)
      (committed done : List Add)
      → TaskStep m t m' t' done
      → Step
          (record {
            counters = m;
            tasks = before ++ (t ∷ after);
            asked = asked;
            committed = committed;
          })
          (record {
            counters = m';
            tasks = before ++ (t' ∷ after);
            asked = asked;
            committed = done ++ committed;
          })

pub data Reach : System → Type 0 where
  started : Reach start
  stepped : (s s' : System) → Reach s → Step s s' → Reach s'
