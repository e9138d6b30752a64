-- ===== src/Client/Router/Closed.antt =====
-- A channel of src/client.rs whose request has dropped its registration.
use rl_rust_client.Common.{
  some_inj, ℕ, ◌<◌, ◌≡◌, ◌≢◌, refl, sym, ap, ◌∙◌, subst, arith, List, [], ◌∷◌, ◌++◌, ◌==◌, ==_iff,
  if◌then◌else◌, Bool-cases, inl, inr, Option, none, some, Option-cases,
}
use rl_rust_client.Client.Router.{
  Uuid, ResponsePacket, same_id, get, Router, register, unregister, find_sender, route_id, Turn,
  registers, drops, arrives, sends, turn, run,
}
use rl_rust_client.Client.Router.Routing.{
  get-remove, get-remove_sub, none_some, held_for, contents, contents-forward, held_by,
}
use mathlib.Core.List.{append-nil}
use rl_rust_client.Client.Router.Invariant.{
  IsRouter, received, forward_map, receive_map, registered_get,
}
use rl_rust_client.Client.Router.Open.{contents-register, contents-unregister}

register_low : (r : Router) (id : Uuid) (c : ℕ) → c < r.channels → c < (register r id).channels
unfolding register
register_low r id c h = omega arith

unregister_low : (r : Router) (id : Uuid) (c : ℕ) → c < r.channels → c < (unregister r id).channels
unfolding unregister
unregister_low r id c h = h

unregister_sub :
    (r : Router) (id other : Uuid) (c : ℕ)
    → get (unregister r id).inflight other ≡ some c
    → get r.inflight other ≡ some c
unfolding unregister
unregister_sub r id other c h = get-remove_sub r.inflight id other c h

unregister_gone : (r : Router) (id : Uuid) → get (unregister r id).inflight id ≡ none
unfolding unregister
unregister_gone r id = get-remove r.inflight id

-- A channel that no id enters any more.
abbrev pub IsClosed : Router → ℕ → Type 0
IsClosed r c = (c < r.channels) × ((id : Uuid) → get r.inflight id ≢ some c)

not_sent :
    (r : Router) (c : ℕ) (packet : ResponsePacket) (o : Option Uuid)
    → IsClosed r c
    → held_for c (held_by packet (find_sender r.inflight o)) ≡ []
not_sent r c packet none h = refl
not_sent r c packet (some id) (low, closed) = elim (Option-cases (get r.inflight id)) [
  | inl e ↦ rw e refl
  | inr (d, e) ↦ elim (Bool-cases (c == d)) [
    | inl k ↦ absurd (closed id (e ∙ ap some (sym ((==_iff c d).0 k))))
    | inr k ↦ rw e (rw k refl)
  ]
]

turn-IsClosed :
    (r : Router) (c : ℕ) (t : Turn)
    → IsClosed r c
    → IsClosed (turn r t) c × (contents (turn r t) c ≡ contents r c)
unfolding turn
turn-IsClosed r c (registers id) (low, closed) = (
  (register_low r id c low, λ other e. still_closed other (sym (registered_get r id other) ∙ e)),
  contents-register r id c,
)
  where
    still_closed :
        (other : Uuid)
        → ¬ ((if same_id id other then some r.channels else get r.inflight other) ≡ some c)
    still_closed other e = elim (Bool-cases (same_id id other)) [
      | inl k ↦
          let new =
            some_inj r.channels c
              (subst (λ b. (if b then some r.channels else get r.inflight other) ≡ some c) k e) in
          absurd (omega (arith, low, new))
      | inr k ↦
          closed other
            (subst (λ b. (if b then some r.channels else get r.inflight other) ≡ some c) k e)
    ]
turn-IsClosed r c (drops id) (low, closed) = (
  (unregister_low r id c low, λ other e. closed other (unregister_sub r id other c e)),
  contents-unregister r id c,
)
turn-IsClosed r c sends (low, closed) =
    let (m, n) = forward_map r in
    (
      (
        subst (λ k. c < k) (sym n) low,
        λ other e. closed other (subst (λ x. get x other ≡ some c) m e),
      ),
      (contents-forward r c).0,
    )
turn-IsClosed r c (arrives packet) (low, closed) =
    let (m, n) = receive_map r packet in
    (
      (
        subst (λ k. c < k) (sym n) low,
        λ other e. closed other (subst (λ x. get x other ≡ some c) m e),
      ),
      received r packet c
          ∙ ap (λ x. contents r c ++ held_for c (held_by packet (find_sender x (route_id packet))))
              (forward_map r).0
          ∙ ap (λ l. contents r c ++ l) (not_sent r c packet (route_id packet) (low, closed))
          ∙ append-nil (contents r c),
    )

pub run_closed :
    (turns : List Turn) (r : Router) (c : ℕ)
    → IsClosed r c
    → contents (run r turns) c ≡ contents r c
unfolding run
run_closed [] r c h = refl
run_closed (t ∷ turns) r c h =
    let (still, same) = turn-IsClosed r c t h in run_closed turns (turn r t) c still ∙ same

pub drop-IsClosed :
    (r : Router) (id : Uuid) (c : ℕ)
    → IsRouter r
    → get r.inflight id ≡ some c
    → IsClosed (unregister r id) c
drop-IsClosed r id c v e = (
  unregister_low r id c (v.low id c e),
  λ other h.
      let same = v.distinct other id c (unregister_sub r id other c h) e in
      none_some c (
        sym (unregister_gone r id) ∙ subst (λ x. get (unregister r id).inflight x ≡ some c) same h),
)
