-- ===== src/Traffic/Steps/Invariant.antt =====
-- What holds of the counters of src/traffic.rs between the atomic steps of the tasks.
use rl_rust_client.Common.{
  ◌+◌, ◌≡◌, ◌↔◌, ◌⊎◌, inl, inr, refl, arith, List, ◌∷◌, ◌++◌, Bool, true, ◌||◌, ltb→lt, lt→ltb,
}
use rl_rust_client.Traffic.{TrafficCounters, Counter, Add, u64_max, Task}
use rl_rust_client.Traffic.Steps.{
  System, Step, call, run, Event, event_adds, all_adds, Reach, started, stepped,
}
use rl_rust_client.Traffic.Steps.Totals.{
  total, pending, pending_total, total-append, pending_total-append, saturated, is_flagging,
  any_flagging, any_flagging-append,
}
use rl_rust_client.Traffic.Steps.Exchange.{Overflowed, IsTaskStep, task_step}

-- Each counter holds the sum of what was committed, nothing that was asked is lost, and the flag, or
-- a task about to set it, is there exactly if a sum does not fit.
pub record IsTraffic (m : TrafficCounters) (tasks : List Task) (asked : List Event)
    (committed : List Add) : Type 0 where
  pub values : (c : Counter) → m.value c ≡ saturated (total c committed)
  pub kept : (c : Counter) → total c committed + pending_total c tasks ≡ total c (all_adds asked)
  pub sound : (m.flag || any_flagging tasks) ≡ true → Overflowed committed
  pub noticed : Overflowed committed → (m.flag || any_flagging tasks) ≡ true

abbrev pub IsSystem : System → Type 0
IsSystem s = IsTraffic s.counters s.tasks s.asked s.committed

-- The tasks around the one that steps.
middle_flag :
    (flag : Bool) (before after : List Task) (t : Task)
    → ((flag || any_flagging (before ++ (t ∷ after))) ≡ true)
      ↔ (((flag || is_flagging t) ≡ true) ⊎ ((any_flagging before || any_flagging after) ≡ true))
unfolding any_flagging
middle_flag flag before after t = ground (arith, any_flagging-append before (t ∷ after))

run_step :
    (m m' : TrafficCounters) (before after : List Task) (t t' : Task) (asked : List Event)
    (committed done : List Add)
    → IsTraffic m (before ++ (t ∷ after)) asked committed
    → IsTaskStep m m' t t' committed done
    → IsTraffic m' (before ++ (t' ∷ after)) asked (done ++ committed)
unfolding pending_total
run_step m m' before after t t' asked committed done v w = record {
  values = w.new_values;
  kept = λ c. omega (
    arith,
    v.kept c,
    w.moved c,
    total-append c done committed,
    pending_total-append c before (t ∷ after),
    pending_total-append c before (t' ∷ after),
  );
  sound = λ e. elim ((middle_flag m'.flag before after t').0 e) [
    | inl here ↦ elim (w.new_sound here) [
      | inl old ↦ grown (v.sound ((middle_flag m.flag before after t).1 (inl old)))
      | inr new ↦ new
    ]
    | inr others ↦ grown (v.sound ((middle_flag m.flag before after t).1 (inr others)))
  ];
  noticed = λ o. (middle_flag m'.flag before after t').1 (elim (w.new_noticed o) [
    | inl old ↦ elim ((middle_flag m.flag before after t).0 (v.noticed old)) [
      | inl here ↦ inl (w.flag_stays here)
      | inr others ↦ inr others
    ]
    | inr new ↦ inl new
  ]);
}
  where
    grown : Overflowed committed → Overflowed (done ++ committed)
    grown (c, over) =
        (c, lt→ltb u64_max _ (omega (arith, ltb→lt u64_max _ over, total-append c done committed)))

system_step : (s s' : System) → IsSystem s → Step s s' → IsSystem s'
unfolding pending_total pending any_flagging all_adds
system_step _ _ v (call s event) = record {
  values = v.values;
  kept = λ c. omega (arith, v.kept c, total-append c (event_adds event) (all_adds s.asked));
  sound = v.sound;
  noticed = v.noticed;
}
system_step _ _ v (run m m' before after t t' asked committed done step) =
    run_step m m' before after t t' asked committed done v
      (task_step m m' t t' committed done v.values step)

-- However the tasks take turns, and whatever their loads answer: between two steps each counter is
-- the sum of the calls of `add` that were committed, cut at 2^64 - 1; these and the calls that are left
-- are what was asked for; and `incomplete` is set, or about to be, if and only if a sum was cut.
pub Reach-IsSystem : (s : System) → Reach s → IsSystem s
unfolding total any_flagging pending_total all_adds
Reach-IsSystem _ started = record {
  values = λ c. refl;
  kept = λ c. refl;
  sound = λ e. absurd (cc);
  noticed = λ (c, over). absurd (cc);
}
Reach-IsSystem _ (stepped s s' reach step) = system_step s s' (Reach-IsSystem s reach) step
