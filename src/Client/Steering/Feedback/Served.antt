-- ===== src/Client/Steering/Feedback/Served.antt =====
-- What a call of `apply_steering_feedback` of src/client.rs waits for.
use rl_rust_client.Common.{
  ℕ, ◌+◌, ◌==◌, ==_iff, if◌then◌else◌, ◌≤◌, ◌<◌, ◌≡◌, ◌≢◌, arith, refl, sym, ◌∙◌, subst, true,
  false, Bool-cases, ◌⊎◌, inl, inr,
}
use rl_rust_client.Client.Steering.Feedback.{
  Steering, Host, Interrupted, at_stats, at_read, at_replace, at_acknowledge,
}
use rl_rust_client.Client.Steering.Feedback.Rebind.{rebind_counts}
use rl_rust_client.Client.Steering.Feedback.Tasks.{
  drop_rebind, SteeringTask, idle, using, advised, waiting, checking, draining, owning, rebinding,
  returned, applies, rebinds, NoneOf, update, Shared, System, Move, begin, finish, advise, store,
  lock, load_false, load_true, write, swap_false, swap_true, replace, drop_rebinding, drop_waiting,
  drop_draining, leave, pick, Reach, start, later,
}
use rl_rust_client.Client.Steering.Feedback.Exclusive.{
  update-elim, true-false, IsExclusive, Reach-IsExclusive,
}
use rl_rust_client.Client.Steering.Feedback.Promise.{
  over, Promise, Move-Later, Promise-Later, Move-Promise,
}

rebinds-applies : (task : SteeringTask) → rebinds task ≡ true → applies task ≡ true
unfolding rebinds applies
rebinds-applies (rebinding n) e = refl
rebinds-applies idle e = absurd (cc)
rebinds-applies using e = absurd (cc)
rebinds-applies advised e = absurd (cc)
rebinds-applies (waiting n) e = absurd (cc)
rebinds-applies (checking n) e = refl
rebinds-applies (draining n) e = refl
rebinds-applies (owning n) e = refl
rebinds-applies (returned n) e = absurd (cc)

-- While a task applies and has not taken the feedback up, none has.
alone :
    (tasks : ℕ → SteeringTask) (i : ℕ)
    → IsExclusive tasks
    → applies (tasks i) ≡ true
    → rebinds (tasks i) ≡ false
    → NoneOf rebinds tasks
alone tasks i v e h j = elim (Bool-cases (rebinds (tasks j))) [
  | inr free ↦ free
  | inl there ↦
      let same = v.one_applies j i (rebinds-applies (tasks j) there) e in
      absurd (true-false (subst (λ k. rebinds (tasks k) ≡ true) same there) h)
]

-- The others' rebind, beside a task that applies.
not_beside :
    (tasks : ℕ → SteeringTask) (i j : ℕ)
    → IsExclusive tasks
    → applies (tasks i) ≡ true
    → i ≢ j
    → rebinds (tasks j) ≡ true
    → ⊥
not_beside tasks i j v e other there = other (v.one_applies i j e (rebinds-applies (tasks j) there))

module _ {Sockets : Type 0} where
  -- What is taken up is over, but for the one that goes on.
  record IsServed (m : Shared Sockets) (tasks : ℕ → SteeringTask) : Type 0 where
    promised : (j : ℕ) → Promise m (tasks j)
    resting : NoneOf rebinds tasks → m.taken ≡ over m
    busy : (j : ℕ) → rebinds (tasks j) ≡ true → m.taken ≡ over m + 1

  -- How a move counts: not, or the feedback is taken up, or a rebind is over.
  Change : Shared Sockets → SteeringTask → Shared Sockets → SteeringTask → Type 0
  Change m p m' p' =
      ((m'.taken ≡ m.taken) × (over m' ≡ over m) × (rebinds p' ≡ rebinds p))
      ⊎ (((applies p ≡ true)
            × (rebinds p ≡ false)
            × (rebinds p' ≡ true)
            × (m'.taken ≡ m.taken + 1)
            × (over m' ≡ over m))
          ⊎ ((rebinds p ≡ true)
              × (rebinds p' ≡ false)
              × (m'.taken ≡ m.taken)
              × (over m' ≡ over m + 1)))

  Move-Change :
      {tasks : ℕ → SteeringTask} {m m' : Shared Sockets} {p p' : SteeringTask}
      → Move tasks m p m' p'
      → Change m p m' p'
  unfolding Change applies rebinds
  Move-Change (begin m free) = inl (refl, refl, refl)
  Move-Change (finish m) = inl (refl, refl, refl)
  Move-Change (advise m key ignore result h) = inl (refl, refl, refl)
  Move-Change (store m) = inl (refl, refl, refl)
  Move-Change (lock m n free) = inl (refl, refl, refl)
  Move-Change (load_false m n h) = inl (refl, refl, refl)
  Move-Change (load_true m n h) = inl (refl, refl, refl)
  Move-Change (write m n free others) = inl (refl, refl, refl)
  Move-Change (swap_false m n h) = inl (refl, refl, refl)
  Move-Change (swap_true m n h) = inr (inl (refl, refl, refl, refl, refl))
  Move-Change (replace m n host) = inr (inr (refl, refl, refl, omega arith))
  Move-Change (drop_rebinding m n host left h) = inr (inr (refl, refl, refl, omega arith))
  Move-Change (drop_waiting m n) = inl (refl, refl, refl)
  Move-Change (drop_draining m n) = inl (refl, refl, refl)
  Move-Change (leave m n) = inl (refl, refl, refl)

  module _ (m m' : Shared Sockets) (tasks : ℕ → SteeringTask) (i : ℕ) (task : SteeringTask)
      (v : IsExclusive tasks) (served : IsServed m tasks) where
    new_at : NoneOf rebinds (update tasks i task) → rebinds task ≡ false
    unfolding update
    new_at none_new =
        let e : (i == i) ≡ true = ground arith in
        subst (λ b. rebinds (if b then task else tasks i) ≡ false) e (none_new i)

    old_at : NoneOf rebinds (update tasks i task) → (j : ℕ) → i ≢ j → rebinds (tasks j) ≡ false
    unfolding update
    old_at none_new j other =
        let e : (i == j) ≡ false = ground arith in
        subst (λ b. rebinds (if b then task else tasks j) ≡ false) e (none_new j)

    all_old :
        NoneOf rebinds (update tasks i task) → rebinds (tasks i) ≡ false → NoneOf rebinds tasks
    all_old none_new here j = elim (Bool-cases (i == j)) [
      | inl e ↦ subst (λ k. rebinds (tasks k) ≡ false) ((==_iff i j).0 e) here
      | inr e ↦ old_at none_new j (ground arith)
    ]

    Change-resting :
        Change m (tasks i) m' task → NoneOf rebinds (update tasks i task) → m'.taken ≡ over m'
    unfolding Change
    Change-resting (inl (t, e, r)) free =
        let rest = served.resting (all_old free (sym r ∙ new_at free)) in omega arith
    Change-resting (inr (inl (a, f, r, t, e))) free = absurd (true-false r (new_at free))
    Change-resting (inr (inr (r, f, t, e))) free = let one = served.busy i r in omega arith

    Change-busy :
        Change m (tasks i) m' task
        → (j : ℕ) → rebinds (update tasks i task j) ≡ true
        → m'.taken ≡ over m' + 1
    unfolding Change
    Change-busy (inl (t, e, r)) =
        update-elim (λ _ p. rebinds p ≡ true → m'.taken ≡ over m' + 1) tasks i task
          (λ h. let one = served.busy i (sym r ∙ h) in omega arith)
          (λ j _ h. let one = served.busy j h in omega arith)
    Change-busy (inr (inl (a, f, r, t, e))) =
        update-elim (λ _ p. rebinds p ≡ true → m'.taken ≡ over m' + 1) tasks i task
          (λ h. let rest = served.resting (alone tasks i v a f) in omega arith)
          (λ j other h. absurd (not_beside tasks i j v a other h))
    Change-busy (inr (inr (r, f, t, e))) =
        update-elim (λ _ p. rebinds p ≡ true → m'.taken ≡ over m' + 1) tasks i task
          (λ h. absurd (true-false h f))
          (λ j other h. absurd (not_beside tasks i j v (rebinds-applies (tasks i) r) other h))

    Move-IsServed : Move tasks m (tasks i) m' task → IsServed m' (update tasks i task)
    Move-IsServed move = record {
      promised =
          update-elim (λ _ p. Promise m' p) tasks i task
            (Move-Promise (served.promised i) (λ a f. served.resting (alone tasks i v a f))
              (served.busy i) move)
            (λ j _. Promise-Later m m' (tasks j) (Move-Later move) (served.promised j));
      resting = Change-resting (Move-Change move);
      busy = Change-busy (Move-Change move);
    }

  Reach-IsServed :
      {socket : Sockets} {s : System Sockets} → Reach socket s → IsServed s.shared s.tasks
  unfolding rebinds
  Reach-IsServed start = record {
    promised = λ j. tt;
    resting = λ _. refl;
    busy = λ j e. absurd (true-false e refl);
  }
  Reach-IsServed (later s t reach (pick i m task move)) =
      Move-IsServed s.shared m s.tasks i task (Reach-IsExclusive reach) (Reach-IsServed reach) move

  -- The feedbacks that are counted: those of the rebinds that have ended, and of some that were dropped.
  pub record IsCounted (m : Shared Sockets) : Type 0 where
    pub all_ended : m.ended ≤ m.steering.stats.feedback_zero_count
    pub no_others : m.steering.stats.feedback_zero_count ≤ m.ended + m.dropped

  drop-IsCounted :
      (m : Shared Sockets) (host : Host Sockets) (left : Steering Sockets)
      → Interrupted host m.steering left
      → IsCounted m
      → IsCounted (drop_rebind left m)
  drop-IsCounted m host _ at_stats v =
      let l = v.all_ended in
      let r = v.no_others in record { all_ended = omega arith; no_others = omega arith }
  drop-IsCounted m host _ at_read v =
      let l = v.all_ended in
      let r = v.no_others in record { all_ended = omega arith; no_others = omega arith }
  drop-IsCounted m host _ (at_replace current bound e h) v =
      let l = v.all_ended in
      let r = v.no_others in record { all_ended = omega arith; no_others = omega arith }
  drop-IsCounted m host _ (at_acknowledge current actual bound e h k) v =
      let l = v.all_ended in
      let r = v.no_others in record { all_ended = omega arith; no_others = omega arith }

  Move-IsCounted :
      {tasks : ℕ → SteeringTask} {m m' : Shared Sockets} {p p' : SteeringTask}
      → Move tasks m p m' p'
      → IsCounted m
      → IsCounted m'
  Move-IsCounted (begin m free) v = v
  Move-IsCounted (finish m) v = v
  Move-IsCounted (advise m key ignore result h) v = v
  Move-IsCounted (store m) v = record { all_ended = v.all_ended; no_others = v.no_others }
  Move-IsCounted (lock m n free) v = v
  Move-IsCounted (load_false m n h) v = v
  Move-IsCounted (load_true m n h) v = v
  Move-IsCounted (write m n free others) v = v
  Move-IsCounted (swap_false m n h) v = v
  Move-IsCounted (swap_true m n h) v = record { all_ended = v.all_ended; no_others = v.no_others }
  Move-IsCounted (replace m n host) v =
      let counted = rebind_counts host m.steering in
      let l = v.all_ended in
      let r = v.no_others in record { all_ended = omega arith; no_others = omega arith }
  Move-IsCounted (drop_rebinding m n host left h) v = drop-IsCounted m host left h v
  Move-IsCounted (drop_waiting m n) v = v
  Move-IsCounted (drop_draining m n) v = v
  Move-IsCounted (leave m n) v = v

  Reach-IsCounted : {socket : Sockets} {s : System Sockets} → Reach socket s → IsCounted s.shared
  Reach-IsCounted start = record { all_ended = omega arith; no_others = omega arith }
  Reach-IsCounted (later s t reach (pick i m task move)) =
      Move-IsCounted move (Reach-IsCounted reach)

  -- In every system that the steps of tasks reach from a new client, in any order, drops at the awaits
  -- included: when a call that set the flag returns, whichever way, more rebinds have ended or were
  -- dropped than had begun when it set the flag. So one that began behind its store has ended, or was
  -- dropped. The feedback count holds all that have ended, and none besides these and dropped ones.
  pub returned_lt :
      (socket : Sockets) (s : System Sockets) (i begun : ℕ)
      → Reach socket s
      → s.tasks i ≡ returned begun
      → (begun < s.shared.ended + s.shared.dropped) × IsCounted s.shared
  returned_lt socket s i begun reach e =
      (subst (Promise s.shared) e ((Reach-IsServed reach).promised i), Reach-IsCounted reach)
