-- ===== src/Client/Steering/Feedback/Promise.antt =====
-- What the flag and the counts promise to each call of `apply_steering_feedback` of src/client.rs.
use rl_rust_client.Common.{ℕ, ◌+◌, ◌≤◌, ◌<◌, ◌≡◌, arith, refl, true, false, ◌⊎◌, inl, inr}
use rl_rust_client.Client.Steering.Feedback.Rebind.{rebind_counts}
use rl_rust_client.Client.Steering.Feedback.Tasks.{
  SteeringTask, idle, using, advised, waiting, checking, draining, owning, rebinding, returned,
  applies, rebinds, Shared, Move, begin, finish, advise, store, lock, load_false, load_true, write,
  swap_false, swap_true, replace, drop_rebinding, drop_waiting, drop_draining, leave,
}
use rl_rust_client.Client.Steering.Feedback.Exclusive.{true-false}

module _ {Sockets : Type 0} where
  -- The rebinds that are over.
  abbrev pub over : Shared Sockets → ℕ
  over m = m.ended + m.dropped

  -- The flag is up for a feedback, or one was taken up since its store.
  abbrev pub Pends : Shared Sockets → ℕ → Type 0
  Pends m n = (n ≤ m.taken) × ((m.pending ≡ true) ⊎ (n < m.taken))

  abbrev pub Promise : Shared Sockets → SteeringTask → Type 0
  Promise m (waiting n) = Pends m n
  Promise m (checking n) = Pends m n
  Promise m (draining n) = Pends m n
  Promise m (owning n) = Pends m n
  Promise m (rebinding n) = n < m.taken
  Promise m (returned n) = n < over m
  Promise m _ = Unit {0}

  -- How the shared values change.
  pub record Later (m m' : Shared Sockets) : Type 0 where
    pub taken_le : m.taken ≤ m'.taken
    pub over_le : over m ≤ over m'
    pub kept : m.pending ≡ true → (m'.pending ≡ true) ⊎ (m.taken < m'.taken)

  same-Later : (m : Shared Sockets) → Later m m
  same-Later m = record { taken_le = omega arith; over_le = omega arith; kept = λ e. inl e }

  pub Move-Later :
      {tasks : ℕ → SteeringTask} {m m' : Shared Sockets} {p p' : SteeringTask}
      → Move tasks m p m' p'
      → Later m m'
  Move-Later (begin m free) = same-Later m
  Move-Later (finish m) = same-Later m
  Move-Later (advise m key ignore result h) = same-Later m
  Move-Later (store m) = record {
    taken_le = omega arith;
    over_le = omega arith;
    kept = λ e. inl refl;
  }
  Move-Later (lock m n free) = same-Later m
  Move-Later (load_false m n h) = same-Later m
  Move-Later (load_true m n h) = same-Later m
  Move-Later (write m n free others) = same-Later m
  Move-Later (swap_false m n h) = same-Later m
  Move-Later (swap_true m n h) = record {
    taken_le = omega arith;
    over_le = omega arith;
    kept = λ e. inr (omega arith);
  }
  Move-Later (replace m n host) = record {
    taken_le = omega arith;
    over_le = omega arith;
    kept = λ e. inl e;
  }
  Move-Later (drop_rebinding m n host left h) = record {
    taken_le = omega arith;
    over_le = omega arith;
    kept = λ e. inl e;
  }
  Move-Later (drop_waiting m n) = same-Later m
  Move-Later (drop_draining m n) = same-Later m
  Move-Later (leave m n) = same-Later m

  Pends-Later : (m m' : Shared Sockets) (n : ℕ) → Later m m' → Pends m n → Pends m' n
  Pends-Later m m' n v (le, inr h) = let l = v.taken_le in (omega arith, inr (omega arith))
  Pends-Later m m' n v (le, inl e) =
      let l = v.taken_le in
      elim (v.kept e) [ inl e' ↦ (omega arith, inl e') | inr h ↦ (omega arith, inr (omega arith)) ]

  pub Promise-Later :
      (m m' : Shared Sockets) (task : SteeringTask) → Later m m' → Promise m task → Promise m' task
  Promise-Later m m' (waiting n) v h = Pends-Later m m' n v h
  Promise-Later m m' (checking n) v h = Pends-Later m m' n v h
  Promise-Later m m' (draining n) v h = Pends-Later m m' n v h
  Promise-Later m m' (owning n) v h = Pends-Later m m' n v h
  Promise-Later m m' (rebinding n) v h = let l = v.taken_le in omega arith
  Promise-Later m m' (returned n) v h = let l = v.over_le in omega arith
  Promise-Later m m' idle v h = tt
  Promise-Later m m' using v h = tt
  Promise-Later m m' advised v h = tt

  -- The flag is down: another has taken the feedback up, and is over.
  Pends-over :
      (m : Shared Sockets) (n : ℕ) → Pends m n → m.pending ≡ false → m.taken ≡ over m → n < over m
  Pends-over m n (le, inl up) down e = absurd (true-false up down)
  Pends-over m n (le, inr h) down e = omega arith

  -- A task's own move, while it is the only one to apply.
  pub Move-Promise :
      {tasks : ℕ → SteeringTask} {m m' : Shared Sockets} {p p' : SteeringTask}
      → Promise m p
      → (applies p ≡ true → rebinds p ≡ false → m.taken ≡ over m)
      → (rebinds p ≡ true → m.taken ≡ over m + 1)
      → Move tasks m p m' p'
      → Promise m' p'
  unfolding applies rebinds
  Move-Promise h rest busy (begin m free) = tt
  Move-Promise h rest busy (finish m) = tt
  Move-Promise h rest busy (advise m key ignore result e) = tt
  Move-Promise h rest busy (store m) = (omega arith, inl refl)
  Move-Promise h rest busy (lock m n free) = h
  Move-Promise h rest busy (load_false m n e) = Pends-over m n h e (rest refl refl)
  Move-Promise h rest busy (load_true m n e) = h
  Move-Promise h rest busy (write m n free others) = h
  Move-Promise h rest busy (swap_false m n e) = Pends-over m n h e (rest refl refl)
  Move-Promise h rest busy (swap_true m n e) = let le = h.0 in omega arith
  Move-Promise h rest busy (replace m n host) =
      let counted = rebind_counts host m.steering in let one = busy refl in omega arith
  Move-Promise h rest busy (drop_rebinding m n host left e) = tt
  Move-Promise h rest busy (drop_waiting m n) = tt
  Move-Promise h rest busy (drop_draining m n) = tt
  Move-Promise h rest busy (leave m n) = tt
