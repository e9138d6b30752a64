-- ===== src/Client/Router/Invariant.antt =====
-- The map and the channels of the requests of src/client.rs, whatever turns are taken.
use rl_rust_client.Common.{
  some_inj, ℕ, ◌≤◌, ◌<◌, ◌≡◌, refl, sym, ap, ◌∙◌, subst, arith, List, [], ◌∷◌, ◌++◌, Bool, false,
  ◌==◌, if◌then◌else◌, Bool-cases, inl, inr, Option, none, some, Option-cases,
}
use rl_rust_client.Client.Router.{
  Uuid, ResponsePacket, same_id, get, Router, register, unregister, find_sender, route_id, hold,
  receive, send_held, forward, Turn, registers, drops, arrives, sends, turn, run,
}
use rl_rust_client.Client.Router.Routing.{
  same_id_lem, get-remove_sub, held_for, contents, contents-forward, held_by, contents-hold,
}

-- Channels are entered by one id each, and those to come are empty.
pub record IsRouter (r : Router) : Type 0 where
  pub low : (id : Uuid) (c : ℕ) → get r.inflight id ≡ some c → c < r.channels
  pub distinct :
      (id other : Uuid) (c : ℕ)
      → get r.inflight id ≡ some c
      → get r.inflight other ≡ some c
      → id ≡ other
  pub unused : (c : ℕ) → r.channels ≤ c → contents r c ≡ []

-- What a packet adds to a channel.
pub received :
    (r : Router) (packet : ResponsePacket) (c : ℕ)
    → contents (receive (forward r) packet) c
      ≡ contents r c
        ++ held_for c (held_by packet (find_sender (forward r).inflight (route_id packet)))
unfolding receive
received r packet c =
    let (same, no_held) = contents-forward r c in
    (contents-hold (forward r) packet (find_sender (forward r).inflight (route_id packet)) c
      no_held).0
    ∙ ap
        (λ l. l ++ held_for c (held_by packet (find_sender (forward r).inflight (route_id packet))))
        same

-- Sending and receiving leave the map and the number of channels.
pub forward_map :
    (r : Router) → ((forward r).inflight ≡ r.inflight) × ((forward r).channels ≡ r.channels)
unfolding forward
forward_map r = by_held r.held
  where
    by_held :
        (o : Option (ℕ × ResponsePacket))
        → ((send_held r o).inflight ≡ r.inflight) × ((send_held r o).channels ≡ r.channels)
    by_held none = (refl, refl)
    by_held (some h) = (refl, refl)

hold_map :
    (r : Router) (packet : ResponsePacket) (o : Option ℕ)
    → ((hold r packet o).inflight ≡ r.inflight) × ((hold r packet o).channels ≡ r.channels)
hold_map r packet none = (refl, refl)
hold_map r packet (some channel) = (refl, refl)

pub receive_map :
    (r : Router) (packet : ResponsePacket)
    → ((receive (forward r) packet).inflight ≡ r.inflight)
      × ((receive (forward r) packet).channels ≡ r.channels)
unfolding receive
receive_map r packet =
    let (m, n) = forward_map r in
    let (m', n') =
      hold_map (forward r) packet (find_sender (forward r).inflight (route_id packet)) in
    (m' ∙ m, n' ∙ n)

-- A router with the same map and channels, and the same contents where no channel is entered.
same_shape :
    (r s : Router)
    → s.inflight ≡ r.inflight
    → s.channels ≡ r.channels
    → ((c : ℕ) → r.channels ≤ c → contents s c ≡ [])
    → IsRouter r
    → IsRouter s
same_shape r s m n empty v = record {
  low = λ id c e. subst (λ k. c < k) (sym n) (v.low id c (subst (λ x. get x id ≡ some c) m e));
  distinct = λ id other c e e'.
      v.distinct id other c (subst (λ x. get x id ≡ some c) m e)
        (subst (λ x. get x other ≡ some c) m e');
  unused = λ c h. empty c (subst (λ k. k ≤ c) n h);
}

-- The sender that is found is that of a channel that is entered.
not_found :
    (r : Router) (packet : ResponsePacket) (o : Option Uuid) (c : ℕ)
    → IsRouter r
    → r.channels ≤ c
    → held_for c (held_by packet (find_sender r.inflight o)) ≡ []
not_found r packet none c v h = refl
not_found r packet (some id) c v h = elim (Option-cases (get r.inflight id)) [
  | inl e ↦ rw e refl
  | inr (d, e) ↦
      let below = v.low id d e in
      let apart : (c == d) ≡ false = ground arith in rw e (rw apart refl)
]

pub registered_get :
    (r : Router) (id other : Uuid)
    → get (register r id).inflight other
      ≡ (if same_id id other then some r.channels else get r.inflight other)
unfolding register get
registered_get r id other = refl

pub register-IsRouter : (r : Router) (id : Uuid) → IsRouter r → IsRouter (register r id)
unfolding register get contents
register-IsRouter r id v = record {
  low = λ other c e. elim (Bool-cases (same_id id other)) [
    | inl h ↦
        let new = some_inj r.channels c (subst (λ b. pick b other ≡ some c) h e) in omega arith
    | inr h ↦ let old = v.low other c (subst (λ b. pick b other ≡ some c) h e) in omega arith
  ];
  distinct = λ a b c e e'. elim (Bool-cases (same_id id a)) [
    | inl h ↦ elim (Bool-cases (same_id id b)) [
      | inl k ↦ sym (same_id_lem id a h) ∙ same_id_lem id b k
      | inr k ↦
          let new = some_inj r.channels c (subst (λ x. pick x a ≡ some c) h e) in
          let old = v.low b c (subst (λ x. pick x b ≡ some c) k e') in
          absurd (omega (arith, new, old))
    ]
    | inr h ↦ elim (Bool-cases (same_id id b)) [
      | inl k ↦
          let new = some_inj r.channels c (subst (λ x. pick x b ≡ some c) k e') in
          let old = v.low a c (subst (λ x. pick x a ≡ some c) h e) in
          absurd (omega (arith, new, old))
      | inr k ↦
          v.distinct a b c (subst (λ x. pick x a ≡ some c) h e)
            (subst (λ x. pick x b ≡ some c) k e')
    ]
  ];
  unused = λ c h. v.unused c (omega arith);
}
  where
    pick : Bool → Uuid → Option ℕ
    pick b other = if b then some r.channels else get r.inflight other

pub unregister-IsRouter : (r : Router) (id : Uuid) → IsRouter r → IsRouter (unregister r id)
unfolding unregister contents
unregister-IsRouter r id v = record {
  low = λ other c e. v.low other c (get-remove_sub r.inflight id other c e);
  distinct = λ a b c e e'.
      v.distinct a b c (get-remove_sub r.inflight id a c e) (get-remove_sub r.inflight id b c e');
  unused = v.unused;
}

pub turn-IsRouter : (r : Router) (t : Turn) → IsRouter r → IsRouter (turn r t)
unfolding turn
turn-IsRouter r (registers id) v = register-IsRouter r id v
turn-IsRouter r (drops id) v = unregister-IsRouter r id v
turn-IsRouter r sends v =
    let (m, n) = forward_map r in
    same_shape r (forward r) m n (λ c h. (contents-forward r c).0 ∙ v.unused c h) v
turn-IsRouter r (arrives packet) v =
    let (m, n) = receive_map r packet in
    let (m', n') = forward_map r in
    same_shape r (receive (forward r) packet) m n
      (λ c h.
        received r packet c ∙ rw (v.unused c h, m') (not_found r packet (route_id packet) c v h))
      v

pub run-IsRouter : (turns : List Turn) (r : Router) → IsRouter r → IsRouter (run r turns)
unfolding run
run-IsRouter [] r v = v
run-IsRouter (t ∷ turns) r v = run-IsRouter turns (turn r t) (turn-IsRouter r t v)
