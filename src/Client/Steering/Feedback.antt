-- ===== src/Client/Steering/Feedback.antt =====
-- `apply_steering_feedback` in src/client.rs. The first part is what its holder of the locks does, the
-- second cuts the function into its steps between the locks, which requests take in any order.
pub mod Tasks
pub mod Exclusive
pub mod Promise
pub mod Served
pub mod Walk
pub mod Rebind
use rl_rust_client.Common.{
  ◌≡◌, ℕ, ◌+◌, ◌-◌, ◌%◌, ◌^◌, Bool, true, false, not, ◌||◌, ◌==◌, if◌then◌else◌, Option, none, some,
  Result, ok, err, panic, ◌>>=◌, ◌>>◌, bail,
}
use rl_rust_client.Error.{CoreError}
use rl_rust_client.Client.Response.{RateLimitResult}
use rl_rust_client.Client.Steering.{Bind, bind_next_steering_socket}

-- The early return: nothing to apply.
unfoldable pub ignores_feedback : Bool → Bool → RateLimitResult → Bool
ignores_feedback key_steering_feedback ignore_steering_feedback result =
    not key_steering_feedback || (result.steering_feedback || ignore_steering_feedback)

-- `SteeringStats`
pub record SteeringStats : Type 0 where
  pub feedback_zero_count : ℕ
  pub port_changes : ℕ
  pub last_port : Option ℕ
  pub next_port : ℕ

-- The statistics with the socket and its epoch.
pub record Steering (Sockets : Type 0) : Type 0 where
  pub stats : SteeringStats
  pub socket : Sockets
  pub epoch : ℕ

-- `stats.last_port != Some(actual_port)`
abbrev pub is_new_port : Option ℕ → ℕ → Bool
is_new_port none port = true
is_new_port (some last) port = not (last == port)

-- What the system says: the bind of both families on a port, the port of the sockets, and whether the
-- router acknowledges the new epoch, or has stopped.
pub record Host (Sockets : Type 0) : Type 0 where
  pub bind : Bind Sockets
  pub port_of : Sockets → Result CoreError ℕ
  pub acknowledged : Result CoreError (Unit {0})

module _ {Sockets : Type 0} where
  -- The steps that may fail, each with the state that it leaves.
  abbrev pub count_feedback : Steering Sockets → Steering Sockets
  count_feedback s = record {
    stats = record {
      feedback_zero_count = s.stats.feedback_zero_count + 1;
      port_changes = s.stats.port_changes;
      last_port = s.stats.last_port;
      next_port = s.stats.next_port;
    };
    socket = s.socket;
    epoch = s.epoch;
  }

  abbrev pub plan_port : Steering Sockets → ℕ → Steering Sockets
  plan_port s next_port = record {
    stats = record {
      feedback_zero_count = s.stats.feedback_zero_count;
      port_changes = s.stats.port_changes;
      last_port = s.stats.last_port;
      next_port = next_port;
    };
    socket = s.socket;
    epoch = s.epoch;
  }

  abbrev pub replace_socket : Steering Sockets → Sockets → Steering Sockets
  replace_socket s socket = record {
    stats = s.stats;
    socket = socket;
    epoch = (s.epoch + 1) % 2 ^ 64;
  }

  abbrev pub note_port : Steering Sockets → ℕ → Steering Sockets
  note_port s actual_port = record {
    stats = record {
      feedback_zero_count = s.stats.feedback_zero_count;
      port_changes =
          s.stats.port_changes + (if is_new_port s.stats.last_port actual_port then 1 else 0);
      last_port = some actual_port;
      next_port = s.stats.next_port;
    };
    socket = s.socket;
    epoch = s.epoch;
  }

  -- An error leaves the state of the steps before it.
  abbrev pub or_stop :
      {A : Type 0}
      → Steering Sockets
      → Result CoreError A
      → (A → Steering Sockets × Result CoreError (Unit {0}))
      → Steering Sockets × Result CoreError (Unit {0})
  or_stop s (ok a) f = f a
  or_stop s (err e) f = (s, err e)
  or_stop s panic f = (s, panic)

  -- From the lock of the statistics to the end.
  unfoldable pub rebind :
      Host Sockets → Steering Sockets → Steering Sockets × Result CoreError (Unit {0})
  rebind host s =
      let counted = count_feedback s in
      or_stop counted (host.port_of s.socket) λ current_port.
        or_stop counted (bind_next_steering_socket host.bind counted.stats.next_port current_port)
          λ bound.
            let replaced = replace_socket (plan_port counted bound.1) bound.0 in
            or_stop replaced (host.port_of replaced.socket) λ actual_port.
              or_stop replaced host.acknowledged λ _. (note_port replaced actual_port, ok tt)

  -- What a rebind leaves that is dropped at an await: at the lock of the statistics, at the read of the
  -- sockets, at the locks before their replacement, or at the acknowledgement behind it.
  pub data Interrupted (host : Host Sockets) (s : Steering Sockets)
      : Steering Sockets → Type 0 where
    at_stats : Interrupted host s s
    at_read : Interrupted host s (count_feedback s)
    at_replace :
        (current : ℕ) (bound : Sockets × ℕ)
        → host.port_of s.socket ≡ ok current
        → bind_next_steering_socket host.bind s.stats.next_port current ≡ ok bound
        → Interrupted host s (plan_port (count_feedback s) bound.1)
    at_acknowledge :
        (current actual : ℕ) (bound : Sockets × ℕ)
        → host.port_of s.socket ≡ ok current
        → bind_next_steering_socket host.bind s.stats.next_port current ≡ ok bound
        → host.port_of bound.0 ≡ ok actual
        → Interrupted host s (replace_socket (plan_port (count_feedback s) bound.1) bound.0)
