-- ===== src/Client/Router/Open.antt =====
-- The channel of a request of src/client.rs while the request is registered.
use rl_rust_client.Common.{
  ℕ, ◌≡◌, refl, sym, ap, ◌∙◌, subst, List, [], ◌∷◌, ◌++◌, All, Bool, true, false, ◌==◌, ==_iff,
  ==_refl, if◌then◌else◌, Bool-cases, inl, inr, Option, none, some, Option-cases,
}
use rl_rust_client.Client.Router.{
  Uuid, ResponsePacket, same_id, get, Router, register, unregister, find_sender, route_id, Turn,
  registers, drops, arrives, sends, turn, run,
}
use rl_rust_client.Client.Router.Routing.{
  same_id_refl, same_id_lem, get-remove_other, held_for, contents, contents-forward, held_by,
}
use mathlib.Core.List.{append-nil, append_assoc}
use rl_rust_client.Client.Router.Invariant.{
  IsRouter, received, forward_map, receive_map, turn-IsRouter, registered_get,
}

-- The turns that are not about the registration of `id`.
abbrev pub IsOther : Uuid → Turn → Type 0
IsOther id (registers other) = same_id other id ≡ false
IsOther id (drops other) = same_id other id ≡ false
IsOther id (arrives packet) = Unit
IsOther id sends = Unit

abbrev pub is_for : Uuid → Option Uuid → Bool
is_for id none = false
is_for id (some other) = same_id other id

-- The packets among the turns that carry `id`, in order.
unfoldable pub routed : Uuid → List Turn → List ResponsePacket
routed id [] = []
routed id (arrives packet ∷ turns) =
    let rest = routed id turns in if is_for id (route_id packet) then packet ∷ rest else rest
routed id (registers other ∷ turns) = routed id turns
routed id (drops other ∷ turns) = routed id turns
routed id (sends ∷ turns) = routed id turns

true-false : ¬ (true ≡ false)
true-false h = absurd (cc)

-- Where the packet of a turn goes: into the channel of its id, and no other.
goes_to :
    (r : Router) (id : Uuid) (c : ℕ) (packet : ResponsePacket) (o : Option Uuid)
    → IsRouter r
    → get r.inflight id ≡ some c
    → held_for c (held_by packet (find_sender r.inflight o))
      ≡ (if is_for id o then packet ∷ [] else [])
goes_to r id c packet none v e = refl
goes_to r id c packet (some other) v e = elim (Bool-cases (same_id other id)) [
  | inl h ↦
      let found : get r.inflight other ≡ some c =
        subst (λ x. get r.inflight x ≡ some c) (sym (same_id_lem other id h)) e in
      rw (h, found) (rw (==_refl c) refl)
  | inr h ↦ elim (Option-cases (get r.inflight other)) [
    | inl none_there ↦ rw (h, none_there) refl
    | inr (d, found) ↦
        let apart : (c == d) ≡ false = other_channel d found h in rw (h, found) (rw apart refl)
  ]
]
  where
    clash : ¬ (same_id id id ≡ false)
    clash h = true-false (sym (same_id_refl id) ∙ h)

    other_channel :
        (d : ℕ) → get r.inflight other ≡ some d → same_id other id ≡ false → (c == d) ≡ false
    other_channel d found h = elim (Bool-cases (c == d)) [
      | inl k ↦
          let same = v.distinct id other c e (found ∙ ap some (sym ((==_iff c d).0 k))) in
          absurd (clash (subst (λ x. same_id x id ≡ false) (sym same) h))
      | inr k ↦ k
    ]

pub contents-register : (r : Router) (id : Uuid) (c : ℕ) → contents (register r id) c ≡ contents r c
unfolding register contents
contents-register r id c = refl

pub contents-unregister :
    (r : Router) (id : Uuid) (c : ℕ) → contents (unregister r id) c ≡ contents r c
unfolding unregister contents
contents-unregister r id c = refl

get-unregister :
    (r : Router) (id other : Uuid)
    → same_id id other ≡ false
    → get (unregister r id).inflight other ≡ get r.inflight other
unfolding unregister
get-unregister r id other h = get-remove_other r.inflight id other h

-- One turn that is not about the registration: the registration stays, and the packet is routed.
turn-routed :
    (r : Router) (id : Uuid) (c : ℕ) (t : Turn)
    → IsRouter r
    → get r.inflight id ≡ some c
    → IsOther id t
    → (get (turn r t).inflight id ≡ some c)
      × (contents (turn r t) c ≡ contents r c ++ routed id (t ∷ []))
unfolding turn routed
turn-routed r id c (registers other) v e h = (
  registered_get r other id ∙ rw h e,
  contents-register r other c ∙ sym (append-nil (contents r c)),
)
turn-routed r id c (drops other) v e h = (
  get-unregister r other id h ∙ e,
  contents-unregister r other c ∙ sym (append-nil (contents r c)),
)
turn-routed r id c sends v e h = (
  ap (λ m. get m id) (forward_map r).0 ∙ e,
  (contents-forward r c).0 ∙ sym (append-nil (contents r c)),
)
turn-routed r id c (arrives packet) v e h = (
  ap (λ m. get m id) (receive_map r packet).0 ∙ e,
  received r packet c
      ∙ ap (λ m. contents r c ++ held_for c (held_by packet (find_sender m (route_id packet))))
          (forward_map r).0
      ∙ ap (λ l. contents r c ++ l) (goes_to r id c packet (route_id packet) v e),
)

routed_cons :
    (id : Uuid) (t : Turn) (turns : List Turn)
    → routed id (t ∷ []) ++ routed id turns ≡ routed id (t ∷ turns)
unfolding routed
routed_cons id (registers other) turns = refl
routed_cons id (drops other) turns = refl
routed_cons id sends turns = refl
routed_cons id (arrives packet) turns = elim (Bool-cases (is_for id (route_id packet))) [
  | inl e ↦ rw e refl
  | inr e ↦ rw e refl
]

pub run-routed :
    (turns : List Turn) (r : Router) (id : Uuid) (c : ℕ)
    → IsRouter r
    → get r.inflight id ≡ some c
    → All (IsOther id) turns
    → (get (run r turns).inflight id ≡ some c)
      × (contents (run r turns) c ≡ contents r c ++ routed id turns)
unfolding run routed
run-routed [] r id c v e h = (e, sym (append-nil (contents r c)))
run-routed (t ∷ turns) r id c v e (ht, h) =
    let (there, here) = turn-routed r id c t v e ht in
    let (end, rest) = run-routed turns (turn r t) id c (turn-IsRouter r t v) there h in
    (
      end,
      rest
          ∙ ap (λ l. l ++ routed id turns) here
          ∙ append_assoc (contents r c) (routed id (t ∷ [])) (routed id turns)
          ∙ ap (λ l. contents r c ++ l) (routed_cons id t turns),
    )
