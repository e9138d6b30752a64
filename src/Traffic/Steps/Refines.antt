-- ===== src/Traffic/Steps/Refines.antt =====
-- The snapshot of src/traffic.rs at rest.
use rl_rust_client.Common.{
  ℕ, ◌+◌, ◌≡◌, ◌↔◌, refl, sym, ap, ◌∙◌, subst, arith, List, [], ◌∷◌, All, Bool, true, false, ◌||◌,
  ltb,
}
use rl_rust_client.Traffic.{
  TrafficDirection, TrafficStats, Direction, outgoing, incoming, datagrams_of, payload_bytes_of,
  ip_bytes_of, failures, Counter, Add, u64_max, snapshot, Task, ready,
}
use rl_rust_client.Traffic.Steps.{System, Event, all_adds, Reach}
use rl_rust_client.Traffic.Steps.Totals.{total, pending_total, pending, any_flagging, saturated}
use rl_rust_client.Traffic.Steps.Exchange.{Overflowed}
use rl_rust_client.Traffic.Steps.Invariant.{Reach-IsSystem}
use rl_rust_client.Traffic.Steps.Documented.{FitsEvent, documented, documented_lem}

-- No task has anything left to do.
abbrev pub AtRest : List Task → Type 0
AtRest [] = Unit
AtRest (t ∷ tasks) = (t ≡ ready []) × AtRest tasks

rest_lem :
    (tasks : List Task)
    → AtRest tasks
    → (any_flagging tasks ≡ false) × ((c : Counter) → pending_total c tasks ≡ 0)
unfolding any_flagging pending_total pending total
rest_lem [] h = (refl, λ c. refl)
rest_lem (t ∷ tasks) (ht, h) =
    let (no_flag, none_left) = rest_lem tasks h in
    (rw (ht, no_flag) refl, λ c. rw (ht, none_left c) (at_rest c))
  where
    at_rest : (c : Counter) → total c (pending (ready [])) + 0 ≡ 0
    at_rest c = refl

flag_only : (b c : Bool) → c ≡ false → (b || c) ≡ true → b ≡ true
flag_only b c h e = ground arith

-- At rest, the flag is set if and only if a counter's sum does not fit.
cut_lem :
    (asked : List Event) (committed : List Add)
    → All FitsEvent asked
    → ((c : Counter) → total c committed ≡ total c (all_adds asked))
    → Overflowed committed ↔ ((c : Counter) × (ltb u64_max (documented c asked) ≡ true))
cut_lem asked committed fits same = (
  λ (c, over). (c, subst (λ n. ltb u64_max n ≡ true) (same c ∙ documented_lem c asked fits) over),
  λ (c, over).
      (c, subst (λ n. ltb u64_max n ≡ true) (sym (same c ∙ documented_lem c asked fits)) over),
)

-- What `snapshot` is documented to show after `events`, by the counters.
abbrev pub Shows : TrafficStats → List Event → Type 0
Shows stats events =
    (stats.sent ≡ direction outgoing)
    × (stats.received ≡ direction incoming)
    × (stats.send_failures ≡ counted failures)
    × ((stats.incomplete ≡ true) ↔ ((c : Counter) × (ltb u64_max (documented c events) ≡ true)))
  where
    counted : Counter → ℕ
    counted c = saturated (documented c events)

    direction : Direction → TrafficDirection
    direction d = record {
      datagrams = counted (datagrams_of d);
      payload_bytes = counted (payload_bytes_of d);
      ip_bytes = counted (ip_bytes_of d);
    }

-- However calls of `sent` and `received` run beside each other: once every task has done its calls,
-- `snapshot` shows, for each direction, the number of datagrams, of their bytes and of these with
-- their headers, and the number of the sends that failed, each cut at 2^64 - 1; and `incomplete` is set
-- if and only if one was cut. Datagrams are taken to be shorter than 2^32 bytes.
pub snapshot-AtRest :
    (s : System)
    → Reach s
    → AtRest s.tasks
    → All FitsEvent s.asked
    → Shows (snapshot s.counters) s.asked
unfolding snapshot
snapshot-AtRest s reach rest fits =
    let v = Reach-IsSystem s reach in
    let (no_flag, none_left) = rest_lem s.tasks rest in
    let same : (c : Counter) → total c s.committed ≡ total c (all_adds s.asked) =
      λ c. omega (arith, v.kept c, none_left c) in
    let value : (c : Counter) → s.counters.value c ≡ saturated (documented c s.asked) =
      λ c. v.values c ∙ ap saturated (same c ∙ documented_lem c s.asked fits) in
    let (cut, uncut) = cut_lem s.asked s.committed fits same in
    (
      rw
          (
            value (datagrams_of outgoing),
            value (payload_bytes_of outgoing),
            value (ip_bytes_of outgoing),
          )
          refl,
      rw
          (
            value (datagrams_of incoming),
            value (payload_bytes_of incoming),
            value (ip_bytes_of incoming),
          )
          refl,
      value failures,
      (
        λ e. cut (v.sound (rw (e) refl)),
        λ o. flag_only s.counters.flag _ no_flag (v.noticed (uncut o)),
      ),
    )
