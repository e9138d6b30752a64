-- ===== src/Client/Steering/Feedback/Tasks.antt =====
-- The steps of requests and of `apply_steering_feedback` in src/client.rs between the locks and the
-- awaits, by tasks that take turns in any order.
use rl_rust_client.Common.{ℕ, ◌+◌, ◌≡◌, Bool, true, false, ◌==◌, if◌then◌else◌, none}
use rl_rust_client.Client.Response.{RateLimitResult}
use rl_rust_client.Client.Steering.Feedback.{ignores_feedback, Steering, Host, rebind, Interrupted}

-- Where a task is. From the store on, the number is how many feedbacks were taken up before it.
pub data SteeringTask : Type 0 where
  idle : SteeringTask
  using : SteeringTask
  advised : SteeringTask
  waiting : ℕ → SteeringTask
  checking : ℕ → SteeringTask
  draining : ℕ → SteeringTask
  owning : ℕ → SteeringTask
  rebinding : ℕ → SteeringTask
  returned : ℕ → SteeringTask

-- The tasks with the read guard of `request_activity`, those with its write guard, those with
-- `steering_apply_lock`, and those that have taken a feedback up and not ended.
unfoldable pub reads : SteeringTask → Bool
reads using = true
reads _ = false

unfoldable pub writes : SteeringTask → Bool
writes (owning n) = true
writes (rebinding n) = true
writes _ = false

unfoldable pub applies : SteeringTask → Bool
applies (checking n) = true
applies (draining n) = true
applies (owning n) = true
applies (rebinding n) = true
applies _ = false

unfoldable pub rebinds : SteeringTask → Bool
rebinds (rebinding n) = true
rebinds _ = false

-- No task is of that kind.
abbrev pub NoneOf : (SteeringTask → Bool) → (ℕ → SteeringTask) → Type 0
NoneOf kind tasks = (j : ℕ) → kind (tasks j) ≡ false

unfoldable pub update : (ℕ → SteeringTask) → ℕ → SteeringTask → ℕ → SteeringTask
update tasks i task j = if i == j then task else tasks j

-- `steering_pending`, and what only the holder of all the locks changes. For the proofs: how often the
-- flag was taken, and how many of the rebinds behind it have ended, and were dropped.
pub record Shared (Sockets : Type 0) : Type 0 where
  pub pending : Bool
  pub taken : ℕ
  pub ended : ℕ
  pub dropped : ℕ
  pub steering : Steering Sockets

pub record System (Sockets : Type 0) : Type 0 where
  pub shared : Shared Sockets
  pub tasks : ℕ → SteeringTask

module _ {Sockets : Type 0} where
  abbrev pub store_pending : Shared Sockets → Shared Sockets
  store_pending m = record {
    pending = true;
    taken = m.taken;
    ended = m.ended;
    dropped = m.dropped;
    steering = m.steering;
  }

  abbrev pub take_pending : Shared Sockets → Shared Sockets
  take_pending m = record {
    pending = false;
    taken = m.taken + 1;
    ended = m.ended;
    dropped = m.dropped;
    steering = m.steering;
  }

  abbrev pub rebind_sockets : Host Sockets → Shared Sockets → Shared Sockets
  rebind_sockets host m = record {
    pending = m.pending;
    taken = m.taken;
    ended = m.ended + 1;
    dropped = m.dropped;
    steering = (rebind host m.steering).0;
  }

  abbrev pub drop_rebind : Steering Sockets → Shared Sockets → Shared Sockets
  drop_rebind left m = record {
    pending = m.pending;
    taken = m.taken;
    ended = m.ended;
    dropped = m.dropped + 1;
    steering = left;
  }

  -- A task's next step among the others. A lock is given when no task holds it in a way that
  -- excludes it, and a task that is dropped at an await gives up the locks that it has.
  pub data Move (tasks : ℕ → SteeringTask)
      : Shared Sockets → SteeringTask → Shared Sockets → SteeringTask → Type 0 where
    begin : (m : Shared Sockets) → NoneOf writes tasks → Move tasks m idle m using
    finish : (m : Shared Sockets) → Move tasks m using m idle
    advise :
        (m : Shared Sockets) (key ignore : Bool) (result : RateLimitResult)
        → ignores_feedback key ignore result ≡ false
        → Move tasks m using m advised
    store : (m : Shared Sockets) → Move tasks m advised (store_pending m) (waiting m.taken)
    lock :
        (m : Shared Sockets) (n : ℕ)
        → NoneOf applies tasks
        → Move tasks m (waiting n) m (checking n)
    load_false :
        (m : Shared Sockets) (n : ℕ) → m.pending ≡ false → Move tasks m (checking n) m (returned n)
    load_true :
        (m : Shared Sockets) (n : ℕ) → m.pending ≡ true → Move tasks m (checking n) m (draining n)
    write :
        (m : Shared Sockets) (n : ℕ)
        → NoneOf reads tasks
        → NoneOf writes tasks
        → Move tasks m (draining n) m (owning n)
    swap_false :
        (m : Shared Sockets) (n : ℕ) → m.pending ≡ false → Move tasks m (owning n) m (returned n)
    swap_true :
        (m : Shared Sockets) (n : ℕ)
        → m.pending ≡ true
        → Move tasks m (owning n) (take_pending m) (rebinding n)
    replace :
        (m : Shared Sockets) (n : ℕ) (host : Host Sockets)
        → Move tasks m (rebinding n) (rebind_sockets host m) (returned n)
    drop_waiting : (m : Shared Sockets) (n : ℕ) → Move tasks m (waiting n) m idle
    drop_rebinding :
        (m : Shared Sockets) (n : ℕ) (host : Host Sockets) (left : Steering Sockets)
        → Interrupted host m.steering left
        → Move tasks m (rebinding n) (drop_rebind left m) idle
    drop_draining : (m : Shared Sockets) (n : ℕ) → Move tasks m (draining n) m idle
    leave : (m : Shared Sockets) (n : ℕ) → Move tasks m (returned n) m idle

  -- What `new` makes, on its sockets.
  abbrev pub no_feedback : Sockets → Shared Sockets
  no_feedback socket = record {
    pending = false;
    taken = 0;
    ended = 0;
    dropped = 0;
    steering = record {
      stats = record { feedback_zero_count = 0; port_changes = 0; last_port = none; next_port = 0 };
      socket = socket;
      epoch = 0;
    };
  }

  pub data Step (s : System Sockets) : System Sockets → Type 0 where
    pick :
        (i : ℕ) (m : Shared Sockets) (task : SteeringTask)
        → Move s.tasks s.shared (s.tasks i) m task
        → Step s (record { shared = m; tasks = update s.tasks i task })

  pub data Reach (socket : Sockets) : System Sockets → Type 0 where
    start : Reach socket (record { shared = no_feedback socket; tasks = λ _. idle })
    later : (s t : System Sockets) → Reach socket s → Step s t → Reach socket t
