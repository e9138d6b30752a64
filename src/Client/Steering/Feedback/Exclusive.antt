-- ===== src/Client/Steering/Feedback/Exclusive.antt =====
-- The locks around the sockets of src/client.rs: `request_activity` and `steering_apply_lock`.
use rl_rust_client.Common.{
  ℕ, ◌≡◌, ◌≢◌, arith, refl, sym, subst, Bool, true, false, ◌==◌, ==_iff, Bool-cases, ◌⊎◌, inl, inr,
}
use rl_rust_client.Client.Steering.Feedback.Tasks.{
  SteeringTask, idle, using, advised, waiting, checking, draining, owning, rebinding, returned,
  reads, writes, applies, NoneOf, update, Shared, System, Move, begin, finish, advise, store, lock,
  load_false, load_true, write, swap_false, swap_true, replace, drop_rebinding, drop_waiting,
  drop_draining, leave, Step, pick, Reach, start, later,
}

-- What holds of the new task and of the others holds of all.
pub update-elim :
    (P : ℕ → SteeringTask → Type 0) (tasks : ℕ → SteeringTask) (i : ℕ) (task : SteeringTask)
    → P i task
    → ((j : ℕ) → i ≢ j → P j (tasks j))
    → (j : ℕ) → P j (update tasks i task j)
unfolding update
update-elim P tasks i task new old j = elim (Bool-cases (i == j)) [
  | inl e ↦ rw e (subst (λ k. P k task) ((==_iff i j).0 e) new)
  | inr e ↦ rw e (old j (ground arith))
]

pub true-false : {b : Bool} → b ≡ true → b ≡ false → ⊥
true-false e h = absurd (cc)

-- One task at most is about to apply a feedback, and none that owns the sockets is beside a reader.
pub record IsExclusive (tasks : ℕ → SteeringTask) : Type 0 where
  pub one_applies : (i j : ℕ) → applies (tasks i) ≡ true → applies (tasks j) ≡ true → i ≡ j
  pub no_reader : (i j : ℕ) → writes (tasks i) ≡ true → reads (tasks j) ≡ true → ⊥

writes_not_reads : (task : SteeringTask) → writes task ≡ true → reads task ≡ true → ⊥
unfolding writes reads
writes_not_reads using e h = absurd (cc)
writes_not_reads (owning n) e h = absurd (cc)
writes_not_reads (rebinding n) e h = absurd (cc)
writes_not_reads idle e h = absurd (cc)
writes_not_reads advised e h = absurd (cc)
writes_not_reads (waiting n) e h = absurd (cc)
writes_not_reads (checking n) e h = absurd (cc)
writes_not_reads (draining n) e h = absurd (cc)
writes_not_reads (returned n) e h = absurd (cc)

module _ {Sockets : Type 0} where
  Move-applies :
      {tasks : ℕ → SteeringTask} {m m' : Shared Sockets} {p p' : SteeringTask}
      → Move tasks m p m' p'
      → applies p' ≡ true
      → (applies p ≡ true) ⊎ NoneOf applies tasks
  unfolding applies
  Move-applies (begin m free) e = absurd (cc)
  Move-applies (finish m) e = absurd (cc)
  Move-applies (advise m key ignore result h) e = absurd (cc)
  Move-applies (store m) e = absurd (cc)
  Move-applies (lock m n free) e = inr free
  Move-applies (load_false m n h) e = absurd (cc)
  Move-applies (load_true m n h) e = inl refl
  Move-applies (write m n free others) e = inl refl
  Move-applies (swap_false m n h) e = absurd (cc)
  Move-applies (swap_true m n h) e = inl refl
  Move-applies (replace m n host) e = absurd (cc)
  Move-applies (drop_rebinding m n host left h) e = absurd (cc)
  Move-applies (drop_waiting m n) e = absurd (cc)
  Move-applies (drop_draining m n) e = absurd (cc)
  Move-applies (leave m n) e = absurd (cc)

  Move-writes :
      {tasks : ℕ → SteeringTask} {m m' : Shared Sockets} {p p' : SteeringTask}
      → Move tasks m p m' p'
      → writes p' ≡ true
      → (writes p ≡ true) ⊎ NoneOf reads tasks
  unfolding writes
  Move-writes (begin m free) e = absurd (cc)
  Move-writes (finish m) e = absurd (cc)
  Move-writes (advise m key ignore result h) e = absurd (cc)
  Move-writes (store m) e = absurd (cc)
  Move-writes (lock m n free) e = absurd (cc)
  Move-writes (load_false m n h) e = absurd (cc)
  Move-writes (load_true m n h) e = absurd (cc)
  Move-writes (write m n free others) e = inr free
  Move-writes (swap_false m n h) e = absurd (cc)
  Move-writes (swap_true m n h) e = inl refl
  Move-writes (replace m n host) e = absurd (cc)
  Move-writes (drop_rebinding m n host left h) e = absurd (cc)
  Move-writes (drop_waiting m n) e = absurd (cc)
  Move-writes (drop_draining m n) e = absurd (cc)
  Move-writes (leave m n) e = absurd (cc)

  Move-reads :
      {tasks : ℕ → SteeringTask} {m m' : Shared Sockets} {p p' : SteeringTask}
      → Move tasks m p m' p'
      → reads p' ≡ true
      → NoneOf writes tasks
  unfolding reads
  Move-reads (begin m free) e = free
  Move-reads (finish m) e = absurd (cc)
  Move-reads (advise m key ignore result h) e = absurd (cc)
  Move-reads (store m) e = absurd (cc)
  Move-reads (lock m n free) e = absurd (cc)
  Move-reads (load_false m n h) e = absurd (cc)
  Move-reads (load_true m n h) e = absurd (cc)
  Move-reads (write m n free others) e = absurd (cc)
  Move-reads (swap_false m n h) e = absurd (cc)
  Move-reads (swap_true m n h) e = absurd (cc)
  Move-reads (replace m n host) e = absurd (cc)
  Move-reads (drop_rebinding m n host left h) e = absurd (cc)
  Move-reads (drop_waiting m n) e = absurd (cc)
  Move-reads (drop_draining m n) e = absurd (cc)
  Move-reads (leave m n) e = absurd (cc)

  -- Only a task that owns the sockets changes them.
  Move-steering :
      {tasks : ℕ → SteeringTask} {m m' : Shared Sockets} {p p' : SteeringTask}
      → Move tasks m p m' p'
      → (m'.steering ≡ m.steering) ⊎ (writes p ≡ true)
  unfolding writes
  Move-steering (begin m free) = inl refl
  Move-steering (finish m) = inl refl
  Move-steering (advise m key ignore result h) = inl refl
  Move-steering (store m) = inl refl
  Move-steering (lock m n free) = inl refl
  Move-steering (load_false m n h) = inl refl
  Move-steering (load_true m n h) = inl refl
  Move-steering (write m n free others) = inl refl
  Move-steering (swap_false m n h) = inl refl
  Move-steering (swap_true m n h) = inl refl
  Move-steering (replace m n host) = inr refl
  Move-steering (drop_rebinding m n host left h) = inr refl
  Move-steering (drop_waiting m n) = inl refl
  Move-steering (drop_draining m n) = inl refl
  Move-steering (leave m n) = inl refl

  update-one_applies :
      {tasks : ℕ → SteeringTask} {m m' : Shared Sockets} {task : SteeringTask} (i : ℕ)
      → IsExclusive tasks
      → Move tasks m (tasks i) m' task
      → applies task ≡ true
      → (j : ℕ) → applies (tasks j) ≡ true
      → i ≡ j
  update-one_applies {tasks = tasks} i v move e j h = elim (Move-applies move e) [
    | inl before ↦ v.one_applies i j before h
    | inr free ↦ absurd (true-false h (free j))
  ]

  update-no_reader :
      {tasks : ℕ → SteeringTask} {m m' : Shared Sockets} {task : SteeringTask} (i : ℕ)
      → IsExclusive tasks
      → Move tasks m (tasks i) m' task
      → writes task ≡ true
      → (j : ℕ) → reads (tasks j) ≡ true
      → ⊥
  update-no_reader {tasks = tasks} i v move e j h = elim (Move-writes move e) [
    | inl before ↦ v.no_reader i j before h
    | inr free ↦ true-false h (free j)
  ]

  Move-IsExclusive :
      {tasks : ℕ → SteeringTask} {m m' : Shared Sockets} {task : SteeringTask} (i : ℕ)
      → IsExclusive tasks
      → Move tasks m (tasks i) m' task
      → IsExclusive (update tasks i task)
  Move-IsExclusive {tasks = tasks} {task = task} i v move = record {
    one_applies =
        update-elim
          (λ j p. (k : ℕ) → applies p ≡ true → applies (update tasks i task k) ≡ true → j ≡ k) tasks
          i task
          (update-elim (λ k q. applies task ≡ true → applies q ≡ true → i ≡ k) tasks i task
            (λ e h. refl) (λ k _ e h. update-one_applies i v move e k h))
          (λ j _.
            update-elim (λ k q. applies (tasks j) ≡ true → applies q ≡ true → j ≡ k) tasks i task
              (λ e h. sym (update-one_applies i v move h j e)) (λ k _ e h. v.one_applies j k e h));
    no_reader =
        update-elim (λ j p. (k : ℕ) → writes p ≡ true → reads (update tasks i task k) ≡ true → ⊥)
          tasks i task
          (update-elim (λ k q. writes task ≡ true → reads q ≡ true → ⊥) tasks i task
            (λ e h. writes_not_reads task e h) (λ k _ e h. update-no_reader i v move e k h))
          (λ j _.
            update-elim (λ k q. writes (tasks j) ≡ true → reads q ≡ true → ⊥) tasks i task
              (λ e h. true-false e (Move-reads move h j)) (λ k _ e h. v.no_reader j k e h));
  }

  pub Reach-IsExclusive :
      {socket : Sockets} {s : System Sockets} → Reach socket s → IsExclusive s.tasks
  unfolding applies writes
  Reach-IsExclusive start = record {
    one_applies = λ i j e h. absurd (true-false e refl);
    no_reader = λ i j e h. true-false e refl;
  }
  Reach-IsExclusive (later s t reach (pick i m task move)) =
      Move-IsExclusive i (Reach-IsExclusive reach) move

  -- In every system that the steps of tasks reach from a new client: while a request uses the
  -- sockets, no step of any task replaces them, nor their epoch or the statistics of the steering.
  pub Step-steering :
      (socket : Sockets) (s t : System Sockets) (i : ℕ)
      → Reach socket s
      → reads (s.tasks i) ≡ true
      → Step s t
      → t.shared.steering ≡ s.shared.steering
  Step-steering socket s _ i reach e (pick j m task move) = elim (Move-steering move) [
    | inl same ↦ same
    | inr h ↦ absurd ((Reach-IsExclusive reach).no_reader j i h e)
  ]
