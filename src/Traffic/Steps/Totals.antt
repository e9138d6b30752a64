-- ===== src/Traffic/Steps/Totals.antt =====
-- The sums of what the calls of `add` in src/traffic.rs add to each counter.
use rl_rust_client.Common.{
  ℕ, ◌+◌, ◌||◌, ◌≡◌, refl, sym, ap, ◌∙◌, arith, List, [], ◌∷◌, ◌++◌, Bool, true, false, ltb, ◌==◌,
  ==_iff, if◌then◌else◌,
}
use rl_rust_client.Traffic.{
  Counter, Add, outgoing, incoming, datagrams_of, payload_bytes_of, ip_bytes_of, failures,
  counter_index, same_counter, u64_max, saturating_add, overflows, Task, ready, holding, flagging,
}

-- What calls add to the counter `c`, without a bound.
unfoldable pub total : Counter → List Add → ℕ
total c [] = 0
total c ((d, value) ∷ adds) = (if same_counter d c then value else 0) + total c adds

-- What is left to add by a task, and by all.
unfoldable pub pending : Task → List Add
pending (ready adds) = adds
pending (holding previous c value rest) = (c, value) ∷ rest
pending (flagging rest) = rest

unfoldable pub pending_total : Counter → List Task → ℕ
pending_total c [] = 0
pending_total c (t ∷ tasks) = total c (pending t) + pending_total c tasks

pub total-append : (c : Counter) (xs ys : List Add) → total c (xs ++ ys) ≡ total c xs + total c ys
unfolding total
total-append c [] ys = omega arith
total-append c ((d, value) ∷ xs) ys = omega (arith, total-append c xs ys)

pub pending_total-append :
    (c : Counter) (xs ys : List Task)
    → pending_total c (xs ++ ys) ≡ pending_total c xs + pending_total c ys
unfolding pending_total
pending_total-append c [] ys = omega arith
pending_total-append c (t ∷ xs) ys = omega (arith, pending_total-append c xs ys)

-- The counter of an index.
abbrev counter_at : ℕ → Counter
counter_at i =
    if i == 0
    then datagrams_of outgoing
    else if i == 1
    then payload_bytes_of outgoing
    else if i == 2
    then ip_bytes_of outgoing
    else if i == 3
    then datagrams_of incoming
    else if i == 4
    then payload_bytes_of incoming
    else if i == 5
    then ip_bytes_of incoming
    else failures

counter_back : (c : Counter) → counter_at (counter_index c) ≡ c
counter_back (datagrams_of outgoing) = refl
counter_back (payload_bytes_of outgoing) = refl
counter_back (ip_bytes_of outgoing) = refl
counter_back (datagrams_of incoming) = refl
counter_back (payload_bytes_of incoming) = refl
counter_back (ip_bytes_of incoming) = refl
counter_back failures = refl

pub same_counter_lem : (c d : Counter) → same_counter c d ≡ true → c ≡ d
same_counter_lem c d h =
    sym (counter_back c)
    ∙ ap counter_at ((==_iff (counter_index c) (counter_index d)).0 h)
    ∙ counter_back d

-- A sum as a 64-bit counter that stops at its largest value holds it.
abbrev pub saturated : ℕ → ℕ
saturated n = if ltb u64_max n then u64_max else n

pub saturated_add : (n v : ℕ) → saturating_add (saturated n) v ≡ saturated (v + n)
saturated_add n v = ground arith

-- An exchange finds an overflow where the sum is past the bound, if it was not before.
pub overflows_sum :
    (n v : ℕ)
    → ltb u64_max (v + n) ≡ true
    → ltb u64_max n ≡ false
    → overflows (saturated n) v ≡ true
overflows_sum n v h k = ground arith

pub sum_overflows : (n v : ℕ) → overflows (saturated n) v ≡ true → ltb u64_max (v + n) ≡ true
sum_overflows n v h = ground arith

-- Whether a task is about to set the flag.
abbrev pub is_flagging : Task → Bool
is_flagging (flagging rest) = true
is_flagging _ = false

unfoldable pub any_flagging : List Task → Bool
any_flagging [] = false
any_flagging (t ∷ tasks) = is_flagging t || any_flagging tasks

pub any_flagging-append :
    (xs ys : List Task) → any_flagging (xs ++ ys) ≡ (any_flagging xs || any_flagging ys)
unfolding any_flagging
any_flagging-append [] ys = refl
any_flagging-append (t ∷ xs) ys = ground (arith, any_flagging-append xs ys)
