-- ===== src/Client/Steering/Ports.antt =====
-- The ports that the loop of `bind_next_steering_socket` in src/client.rs gets to.
use rl_rust_client.Common.{
  ℕ, zero, suc, ◌+◌, ◌-◌, ◌≤◌, ◌<◌, ◌≡◌, refl, sym, ap, ◌∙◌, subst, arith, false, leb, ltb, ◌&&◌,
  ◌==◌, ◌⊎◌, if◌then◌else◌, Option, none, some, Result, ok, err, Bool-cases, inl, inr,
}
use rl_rust_client.Error.{CoreError, IoError, addr_in_use, io}
use rl_rust_client.Client.Steering.{
  steering_port_min, steering_port_count, next_steering_port, Bind, bind_from,
  bind_next_steering_socket,
}

-- A port of the dynamic range.
abbrev pub IsSteeringPort : ℕ → Type 0
IsSteeringPort port = (steering_port_min ≤ port) × (port ≤ 65_535)

-- The error for a port that is taken.
abbrev pub in_use : CoreError
in_use = io (record { kind = addr_in_use })

-- The candidate after some turns.
abbrev after : ℕ → ℕ → ℕ
after zero port = port
after (suc turns) port = after turns (next_steering_port port)

next_port : (port : ℕ) → IsSteeringPort port → port < 65_535 → next_steering_port port ≡ port + 1
unfolding next_steering_port
next_port port (l, h) k = ground arith

next_wraps : next_steering_port 65_535 ≡ steering_port_min
unfolding next_steering_port
next_wraps = refl

after-up :
    (turns port : ℕ) → IsSteeringPort port → port + turns ≤ 65_535 → after turns port ≡ port + turns
after-up zero port p k = omega arith
after-up (suc turns) port (l, h) k =
    rw (next_port port (l, h) (omega arith))
      (after-up turns (port + 1) (omega arith, omega arith) (omega arith) ∙ omega arith)

after_add : (n m port : ℕ) → after (n + m) port ≡ after m (after n port)
after_add zero m port = ap (λ k. after k port) zero_add
  where
    zero_add : 0 + m ≡ m
    zero_add = omega arith
after_add (suc n) m port = ap (λ k. after k port) suc_add ∙ after_add n m (next_steering_port port)
  where
    suc_add : suc n + m ≡ suc (n + m)
    suc_add = omega arith

top : (from : ℕ) → from ≤ 65_535 → from + (65_535 - from) ≡ 65_535
top from h = omega arith

bottom : (to : ℕ) → steering_port_min ≤ to → steering_port_min + (to - steering_port_min) ≡ to
bottom to h = omega arith

-- Every port is reached in fewer turns than there are ports.
reaches :
    (from to : ℕ)
    → IsSteeringPort from
    → IsSteeringPort to
    → (turns : ℕ) × (turns < steering_port_count) × (after turns from ≡ to)
reaches from to (l, h) (l', h') = elim (Bool-cases (leb from to)) [
  | inl e ↦ (to - from, omega arith, after-up (to - from) from (l, h) (ground arith) ∙ ground arith)
  | inr e ↦
      let up = 65_535 - from in
      let more = to - steering_port_min in
      let greater : to < from = ground arith in
      (
        up + suc more,
        omega arith,
        after_add up (suc more) from
            ∙ ap (λ port. after more (next_steering_port port))
                (after-up up from (l, h) (omega arith) ∙ top from h)
            ∙ ap (after more) next_wraps
            ∙ after-up more steering_port_min (omega arith, omega arith) (omega arith)
            ∙ bottom to l',
      )
]

pub next_inside : (port : ℕ) → IsSteeringPort (next_steering_port port)
unfolding next_steering_port
next_inside port = elim (Bool-cases (leb steering_port_min port && ltb port 65_535)) [
  | inl e ↦ rw e (ground arith, ground arith)
  | inr e ↦ rw e (omega arith, omega arith)
]

pub first_inside :
    (next current : ℕ)
    → (next ≡ 0) ⊎ IsSteeringPort next
    → IsSteeringPort (if next == 0 then next_steering_port current else next)
first_inside next current (inl z) = rw z (next_inside current)
first_inside next current (inr (l, h)) =
    let positive : (next == 0) ≡ false = ground arith in rw positive (l, h)

module _ {Sockets : Type 0} (bind : Bind Sockets) where
  -- A bind that works, or fails because the port is taken, for every port.
  abbrev pub OnlyInUse : Type 0
  OnlyInUse = (port : ℕ) → ((s : Sockets) × (bind port ≡ ok s)) ⊎ (bind port ≡ err in_use)

  -- The sockets are those of a port that the system binds, and the port to try next is behind it.
  abbrev pub IsBound : Result CoreError (Sockets × ℕ) → Type 0
  IsBound r =
      (port : ℕ) × (s : Sockets) × (bind port ≡ ok s) × (r ≡ ok (s, next_steering_port port))

  bind_from-IsBound :
      (only : OnlyInUse) (turns left port : ℕ) (last : Option IoError) (free : Sockets)
      → turns < left
      → bind (after turns port) ≡ ok free
      → IsBound (bind_from bind left port last)
  unfolding bind_from
  bind_from-IsBound only turns zero port last free h e = absurd (omega arith)
  bind_from-IsBound only zero (suc left) port last free h e = (port, free, e, rw e refl)
  bind_from-IsBound only (suc turns) (suc left) port last free h e = elim (only port) [
    | inl (s, b) ↦ (port, s, b, rw b refl)
    | inr b ↦ rw b (
        bind_from-IsBound only turns left (next_steering_port port)
          (some (record { kind = addr_in_use })) free (omega arith) e)
  ]

-- If the only failure is that a port is taken, and some port of the dynamic range is free, then the
-- steering returns the sockets of a port that the system binds, and the port behind it. The client's
-- current port is any, and the port to begin with is none (0) or one of the range.
pub bind_next_steering_socket-IsBound :
    {Sockets : Type 0} (bind : Bind Sockets) (next current port : ℕ) (free : Sockets)
    → OnlyInUse bind
    → IsSteeringPort port
    → bind port ≡ ok free
    → (next ≡ 0) ⊎ IsSteeringPort next
    → IsBound bind (bind_next_steering_socket bind next current)
unfolding bind_next_steering_socket
bind_next_steering_socket-IsBound bind next current port free only inside e start =
    let first = if next == 0 then next_steering_port current else next in
    let (turns, few, ends) = reaches first port (first_inside next current start) inside in
    bind_from-IsBound bind only turns steering_port_count first none free few
      (subst (λ p. bind p ≡ ok free) (sym ends) e)
