-- ===== src/Client/Router/Routing.antt =====
-- The map of the requests in src/client.rs, and where the router sends by it.
use rl_rust_client.Common.{
  ℕ, ◌≡◌, refl, sym, ap, ◌∙◌, subst, List, [], ◌∷◌, ◌++◌, true, false, and_true, ◌==◌, ==_iff,
  ==_refl, if◌then◌else◌, Bool-cases, inl, inr, Option, none, some,
}
use rl_rust_client.Client.Router.{
  Uuid, ResponsePacket, same_id, InflightMap, get, remove, Router, hold, send_held, forward,
}
use mathlib.Core.List.{append-nil}

pub same_id_refl : (id : Uuid) → same_id id id ≡ true
same_id_refl [] = refl
same_id_refl (x ∷ xs) = rw (==_refl x) (same_id_refl xs)

pub same_id_lem : (xs ys : Uuid) → same_id xs ys ≡ true → xs ≡ ys
same_id_lem [] [] h = refl
same_id_lem [] (y ∷ ys) h = absurd (cc)
same_id_lem (x ∷ xs) [] h = absurd (cc)
same_id_lem (x ∷ xs) (y ∷ ys) h =
    let (here, rest) = and_true (x == y) (same_id xs ys) h in
    ap (λ a. a ∷ xs) ((==_iff x y).0 here) ∙ ap (λ l. y ∷ l) (same_id_lem xs ys rest)

-- A removed id is not there, and the others are as before.
pub get-remove : (m : InflightMap) (id : Uuid) → get (remove m id) id ≡ none
unfolding get remove
get-remove [] id = refl
get-remove ((x, c) ∷ m) id = elim (Bool-cases (same_id x id)) [
  | inl e ↦ rw e (get-remove m id)
  | inr e ↦ rw e (rw e (get-remove m id))
]

pub get-remove_other :
    (m : InflightMap) (id other : Uuid)
    → same_id id other ≡ false
    → get (remove m id) other ≡ get m other
unfolding get remove
get-remove_other [] id other h = refl
get-remove_other ((x, c) ∷ m) id other h = elim (Bool-cases (same_id x id)) [
  | inl e ↦
      let away : same_id x other ≡ false =
        subst (λ y. same_id y other ≡ false) (sym (same_id_lem x id e)) h in
      rw e (rw away (get-remove_other m id other h))
  | inr e ↦ rw e (ap (λ o. if same_id x other then some c else o) (get-remove_other m id other h))
]

pub none_some : (c : ℕ) → ¬ (none ≡ some c)
none_some c h = absurd (cc)

pub get-remove_sub :
    (m : InflightMap) (id other : Uuid) (c : ℕ)
    → get (remove m id) other ≡ some c
    → get m other ≡ some c
get-remove_sub m id other c h = elim (Bool-cases (same_id id other)) [
  | inl e ↦
      absurd (no_entry (subst (λ y. get (remove m id) y ≡ some c) (sym (same_id_lem id other e)) h))
  | inr e ↦ sym (get-remove_other m id other e) ∙ h
]
  where
    no_entry : ¬ (get (remove m id) id ≡ some c)
    no_entry h = none_some c (sym (get-remove m id) ∙ h)

-- What is in a channel, or on its way into it.
abbrev pub held_for : ℕ → Option (ℕ × ResponsePacket) → List ResponsePacket
held_for c none = []
held_for c (some (channel, packet)) = if c == channel then packet ∷ [] else []

unfoldable pub contents : Router → ℕ → List ResponsePacket
contents r c = r.queue c ++ held_for c r.held

pub contents-forward :
    (r : Router) (c : ℕ) → (contents (forward r) c ≡ contents r c) × ((forward r).held ≡ none)
unfolding contents forward
contents-forward r c = by_held r.held refl
  where
    by_held :
        (o : Option (ℕ × ResponsePacket))
        → r.held ≡ o
        → ((send_held r o).queue c ++ held_for c (send_held r o).held
            ≡ r.queue c ++ held_for c r.held)
          × ((send_held r o).held ≡ none)
    by_held none e = (refl, e)
    by_held (some (channel, packet)) e = elim (Bool-cases (c == channel)) [
      | inl h ↦ (rw (e, h) (append-nil _), refl)
      | inr h ↦ (rw (e, h) refl, refl)
    ]

abbrev pub held_by : ResponsePacket → Option ℕ → Option (ℕ × ResponsePacket)
held_by packet none = none
held_by packet (some channel) = some (channel, packet)

-- The router keeps no packet that goes nowhere.
pub contents-hold :
    (r : Router) (packet : ResponsePacket) (o : Option ℕ) (c : ℕ)
    → r.held ≡ none
    → (contents (hold r packet o) c ≡ contents r c ++ (held_for c (held_by packet o)))
      × ((hold r packet o).held ≡ held_by packet o)
unfolding contents
contents-hold r packet none c h = (sym (append-nil _), h)
contents-hold r packet (some channel) c h = (rw (h, append-nil (r.queue c)) refl, refl)
