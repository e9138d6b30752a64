-- ===== src/Traffic/Steps/Exchange.antt =====
-- One atomic step of `TrafficCounters::add` in src/traffic.rs, and the sums of what was added.
use rl_rust_client.Common.{
  ℕ, ◌+◌, ◌≡◌, ◌⊎◌, inl, inr, refl, sym, ap, ◌∙◌, subst, arith, List, [], ◌∷◌, ◌++◌, Bool, true,
  false, ◌||◌, ltb, ==_refl, Bool-cases,
}
use rl_rust_client.Traffic.{
  TrafficCounters, Counter, counter_index, Add, u64_max, same_counter, saturating_add, overflows,
  store_counter, store_incomplete, Task, holding, after_exchange,
}
use rl_rust_client.Traffic.Steps.{TaskStep, load, exchange, exchange_fails, set_flag}
use rl_rust_client.Traffic.Steps.Totals.{
  total, pending, same_counter_lem, saturated, saturated_add, overflows_sum, sum_overflows,
  is_flagging,
}

-- Some counter's sum does not fit.
abbrev pub Overflowed : List Add → Type 0
Overflowed committed = (c : Counter) × (ltb u64_max (total c committed) ≡ true)

-- One task's step: how its part of the state changes.
pub record IsTaskStep (m m' : TrafficCounters) (t t' : Task) (committed done : List Add)
    : Type 0 where
  pub new_values : (c : Counter) → m'.value c ≡ saturated (total c (done ++ committed))
  pub moved : (c : Counter) → total c done + total c (pending t') ≡ total c (pending t)
  pub new_sound :
      (m'.flag || is_flagging t') ≡ true
      → ((m.flag || is_flagging t) ≡ true) ⊎ Overflowed (done ++ committed)
  pub new_noticed :
      Overflowed (done ++ committed) → Overflowed committed ⊎ ((m'.flag || is_flagging t') ≡ true)
  pub flag_stays : (m.flag || is_flagging t) ≡ true → (m'.flag || is_flagging t') ≡ true

or_true : (b : Bool) → (b || true) ≡ true
or_true true = refl
or_true false = refl

or_left : (b c : Bool) → (b || false) ≡ true → (b || c) ≡ true
or_left true c h = refl
or_left false c h = absurd (cc)

or_cases : (b c : Bool) → (b || c) ≡ true → (b || false ≡ true) ⊎ (c ≡ true)
or_cases true c h = inl refl
or_cases false c h = inr h

-- The sums after one more commit.
more_same :
    (c d : Counter) (value : ℕ) (committed : List Add)
    → same_counter c d ≡ true
    → total d ((c, value) ∷ committed) ≡ value + total d committed
unfolding total
more_same c d value committed e = rw e refl

more_other :
    (c d : Counter) (value : ℕ) (committed : List Add)
    → same_counter c d ≡ false
    → total d ((c, value) ∷ committed) ≡ total d committed
unfolding total
more_other c d value committed e = rw e (omega arith)

pending_after :
    (previous value : ℕ) (rest : List Add) → pending (after_exchange previous value rest) ≡ rest
unfolding pending after_exchange
pending_after previous value rest = elim (Bool-cases (overflows previous value)) [
  | inl e ↦ rw e refl
  | inr e ↦ rw e refl
]

flagging_after :
    (previous value : ℕ) (rest : List Add)
    → is_flagging (after_exchange previous value rest) ≡ overflows previous value
unfolding after_exchange
flagging_after previous value rest = elim (Bool-cases (overflows previous value)) [
  | inl e ↦ rw e refl
  | inr e ↦ rw e refl
]

module _ (m : TrafficCounters) (c : Counter) (value : ℕ) (rest committed : List Add)
    (values : (d : Counter) → m.value d ≡ saturated (total d committed)) where
  stored :
      (d : Counter)
      → (store_counter m c (saturating_add (m.value c) value)).value d
        ≡ saturated (total d ((c, value) ∷ committed))
  unfolding store_counter
  stored d = elim (Bool-cases (same_counter c d)) [
    | inl e ↦
        rw (e, more_same c d value committed e)
          (ap (λ x. saturating_add (m.value x) value) (same_counter_lem c d e)
            ∙ ap (λ n. saturating_add n value) (values d)
            ∙ saturated_add (total d committed) value)
    | inr e ↦ rw (e, more_other c d value committed e) (values d)
  ]

  overflow_commits : overflows (m.value c) value ≡ true → Overflowed ((c, value) ∷ committed)
  overflow_commits h = (
    c,
    rw (more_same c c value committed (==_refl (counter_index c))) (
        sum_overflows (total c committed) value
          (subst (λ p. overflows p value ≡ true) (values c) h)),
  )

  commit_overflows :
      Overflowed ((c, value) ∷ committed)
      → Overflowed committed ⊎ (overflows (m.value c) value ≡ true)
  commit_overflows (d, over) = elim (Bool-cases (ltb u64_max (total d committed))) [
    | inl before ↦ inl (d, before)
    | inr fits ↦ elim (Bool-cases (same_counter c d)) [
      | inl e ↦ inr (
          subst (λ x. overflows (m.value x) value ≡ true) (sym (same_counter_lem c d e))
            (subst (λ p. overflows p value ≡ true) (sym (values d))
              (overflows_sum (total d committed) value
                (subst (λ n. ltb u64_max n ≡ true) (more_same c d value committed e) over) fits)))
      | inr e ↦ inl (d, subst (λ n. ltb u64_max n ≡ true) (more_other c d value committed e) over)
    ]
  ]

  exchange_step :
      IsTaskStep m
        (store_counter m c (saturating_add (m.value c) value))
        (holding (m.value c) c value rest)
        (after_exchange (m.value c) value rest)
        committed
        ((c, value) ∷ [])
  unfolding pending total store_counter
  exchange_step = record {
    new_values = stored;
    moved = λ d. rw (pending_after (m.value c) value rest) (omega arith);
    new_sound = λ e. elim (or_cases m.flag _ e) [
      | inl old ↦ inl old
      | inr new ↦ inr (overflow_commits (sym (flagging_after (m.value c) value rest) ∙ new))
    ];
    new_noticed = λ o. elim (commit_overflows o) [
      | inl before ↦ inl before
      | inr new ↦ inr (rw (flagging_after (m.value c) value rest) (rw new (or_true m.flag)))
    ];
    flag_stays = λ e. or_left m.flag _ e;
  }

pub task_step :
    (m m' : TrafficCounters) (t t' : Task) (committed done : List Add)
    → ((c : Counter) → m.value c ≡ saturated (total c committed))
    → TaskStep m t m' t' done
    → IsTaskStep m m' t t' committed done
unfolding pending total store_incomplete
task_step _ _ _ _ committed _ values (load m c value previous rest) = record {
  new_values = values;
  moved = λ d. omega arith;
  new_sound = λ e. inl e;
  new_noticed = λ o. inl o;
  flag_stays = λ e. e;
}
task_step _ _ _ _ committed _ values (exchange_fails m c value previous actual rest) = record {
  new_values = values;
  moved = λ d. omega arith;
  new_sound = λ e. inl e;
  new_noticed = λ o. inl o;
  flag_stays = λ e. e;
}
task_step _ _ _ _ committed _ values (set_flag m rest) = record {
  new_values = values;
  moved = λ d. omega arith;
  new_sound = λ e. inl (or_true m.flag);
  new_noticed = λ o. inl o;
  flag_stays = λ e. refl;
}
task_step _ _ _ _ committed _ values (exchange m c value previous rest found) =
    subst
      (λ p.
        IsTaskStep m (store_counter m c (saturating_add p value)) (holding p c value rest)
          (after_exchange p value rest) committed ((c, value) ∷ []))
      found (exchange_step m c value rest committed values)
