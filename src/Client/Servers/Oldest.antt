-- ===== src/Client/Servers/Oldest.antt =====
-- The oldest server among those of a `HashSet` in src/client.rs, which is iterated in any order.
use rl_rust_client.Common.{
  ℕ, ◌≤◌, ◌≡◌, refl, sym, ap, ◌∙◌, subst, arith, List, [], ◌∷◌, All, Bool, true, false, ◌||◌, ◌==◌,
  ==_refl, ==_iff, Bool-cases, inl, inr, ◌⊎◌, some,
}
use rl_rust_client.Client.Servers.{has_id, is_older, oldest_from, oldest_server_id}
use rl_rust_client.Client.Servers.Age.{oldest_from-le}

-- The lists of one set: each in some order, perhaps with repetitions.
abbrev pub SameSet : List ℕ → List ℕ → Type 0
SameSet ids ids' = (id : ℕ) → has_id ids id ≡ has_id ids' id

or_true : (b : Bool) → (b || true) ≡ true
or_true true = refl
or_true false = refl

has_id-cons : (x id : ℕ) (ids : List ℕ) → has_id ids id ≡ true → has_id (x ∷ ids) id ≡ true
unfolding has_id
has_id-cons x id ids h = rw h (or_true (x == id))

has_id_first : (x : ℕ) (ids : List ℕ) → has_id (x ∷ ids) x ≡ true
unfolding has_id
has_id_first x ids = rw (==_refl x) refl

has_id_one : (x y : ℕ) (ids : List ℕ) → has_id (x ∷ ids) y ≡ true → (x ≡ y) ⊎ (has_id ids y ≡ true)
unfolding has_id
has_id_one x y ids h = elim (Bool-cases (x == y)) [
  | inl e ↦ inl ((==_iff x y).0 e)
  | inr e ↦ inr (subst (λ b. (b || has_id ids y) ≡ true) e h)
]

-- The oldest one is in the list.
oldest_from-has_id : (best : ℕ) (ids : List ℕ) → has_id (best ∷ ids) (oldest_from best ids) ≡ true
unfolding oldest_from
oldest_from-has_id best [] = has_id_first best []
oldest_from-has_id best (id ∷ ids) = elim (Bool-cases (is_older id best)) [
  | inl e ↦ rw e (has_id-cons best (oldest_from id ids) (id ∷ ids) (oldest_from-has_id id ids))
  | inr e ↦ rw e (skip (oldest_from-has_id best ids))
]
  where
    skip :
        has_id (best ∷ ids) (oldest_from best ids) ≡ true
        → has_id (best ∷ (id ∷ ids)) (oldest_from best ids) ≡ true
    skip h = elim (has_id_one best (oldest_from best ids) ids h) [
      | inl e ↦ subst (λ y. has_id (best ∷ (id ∷ ids)) y ≡ true) e (has_id_first best (id ∷ ids))
      | inr k ↦
          has_id-cons best (oldest_from best ids) (id ∷ ids)
            (has_id-cons id (oldest_from best ids) ids k)
    ]

-- A lower bound of the elements.
All-has_id : (P : ℕ → Type 0) (ids : List ℕ) (id : ℕ) → All P ids → has_id ids id ≡ true → P id
unfolding has_id
All-has_id P [] id h e = absurd (cc)
All-has_id P (x ∷ ids) id (hx, h) e = elim (has_id_one x id ids e) [
  | inl same ↦ subst P same hx
  | inr k ↦ All-has_id P ids id h k
]

oldest_le :
    (best : ℕ) (ids : List ℕ) (id : ℕ) → has_id (best ∷ ids) id ≡ true → oldest_from best ids ≤ id
oldest_le best ids id =
    All-has_id (λ y. oldest_from best ids ≤ y) (best ∷ ids) id (oldest_from-le best ids)

pub not_empty : (id : ℕ) (ids : List ℕ) → SameSet [] (id ∷ ids) → ⊥
unfolding has_id
not_empty id ids h = clash (h id ∙ has_id_first id ids)
  where
    clash : false ≡ true → ⊥
    clash e = absurd (cc)

pub oldest_server_id-SameSet :
    (ids ids' : List ℕ) → SameSet ids ids' → oldest_server_id ids ≡ oldest_server_id ids'
unfolding oldest_server_id
oldest_server_id-SameSet [] [] h = refl
oldest_server_id-SameSet [] (y ∷ ys) h = absurd (not_empty y ys h)
oldest_server_id-SameSet (x ∷ xs) [] h = absurd (not_empty x xs (λ id. sym (h id)))
oldest_server_id-SameSet (x ∷ xs) (y ∷ ys) h =
    let l = oldest_le x xs (oldest_from y ys) (h (oldest_from y ys) ∙ oldest_from-has_id y ys) in
    let r =
      oldest_le y ys (oldest_from x xs) (sym (h (oldest_from x xs)) ∙ oldest_from-has_id x xs) in
    ap some (omega (arith, l, r))
