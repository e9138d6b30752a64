-- ===== src/PublicClient/Domain/Split.antt =====
-- The parts of a name in src/public_client.rs: `split` and what puts the parts together again.
use rl_rust_client.Common.{
  ℕ, ◌<◌, ◌≡◌, refl, ap, ◌∙◌, arith, List, [], ◌∷◌, ◌++◌, length, All, false, ◌==◌, ==_refl, ==_iff,
  Bool-cases, inl, inr,
}
use rl_rust_client.PublicClient.Domain.{in_front, split}

-- The labels with a dot between each two.
abbrev pub join : List (List ℕ) → List ℕ
join [] = []
join (label ∷ []) = label
join (label ∷ (next ∷ labels)) = label ++ (b'.' ∷ join (next ∷ labels))

-- `split` and `join`.
join-in_front :
    (x : ℕ) (parts : List (List ℕ)) → 0 < length parts → join (in_front x parts) ≡ x ∷ join parts
join-in_front x [] h = absurd (omega arith)
join-in_front x (part ∷ []) h = refl
join-in_front x (part ∷ (next ∷ parts)) h = refl

length-in_front : (x : ℕ) (parts : List (List ℕ)) → 0 < length (in_front x parts)
length-in_front x [] = omega arith
length-in_front x (part ∷ parts) = omega arith

pub length-split : (c : ℕ) (xs : List ℕ) → 0 < length (split c xs)
unfolding split
length-split c [] = omega arith
length-split c (x ∷ xs) = elim (Bool-cases (x == c)) [
  | inl e ↦ rw e (omega arith)
  | inr e ↦ rw e (length-in_front x (split c xs))
]

join_empty : (parts : List (List ℕ)) → 0 < length parts → join ([] ∷ parts) ≡ b'.' ∷ join parts
join_empty [] h = absurd (omega arith)
join_empty (part ∷ parts) h = refl

pub join-split : (xs : List ℕ) → join (split b'.' xs) ≡ xs
unfolding split
join-split [] = refl
join-split (x ∷ xs) = elim (Bool-cases (x == b'.')) [
  | inl e ↦ rw e (
      join_empty (split b'.' xs) (length-split b'.' xs)
      ∙ rw (join-split xs, (==_iff x b'.').0 e) refl)
  | inr e ↦
      rw e
        (join-in_front x (split b'.' xs) (length-split b'.' xs) ∙ ap (λ l. x ∷ l) (join-split xs))
]

-- A text without the separator is one part, and stands before the first separator.
abbrev pub Without : ℕ → List ℕ → Type 0
Without c = All (λ x. (x == c) ≡ false)

split_one : (c : ℕ) (part : List ℕ) → Without c part → split c part ≡ part ∷ []
unfolding split
split_one c [] h = refl
split_one c (x ∷ part) (hx, h) = rw (hx, split_one c part h) refl

split_more :
    (c : ℕ) (part xs : List ℕ) → Without c part → split c (part ++ (c ∷ xs)) ≡ part ∷ split c xs
unfolding split
split_more c [] xs h = rw (==_refl c) refl
split_more c (x ∷ part) xs (hx, h) = rw (hx, split_more c part xs h) refl

pub split-join :
    (labels : List (List ℕ))
    → 0 < length labels
    → All (Without b'.') labels
    → split b'.' (join labels) ≡ labels
split-join [] some_labels h = absurd (omega arith)
split-join (label ∷ []) some_labels (h, _) = split_one b'.' label h
split-join (label ∷ (next ∷ labels)) some_labels (h, hs) =
    split_more b'.' label (join (next ∷ labels)) h
    ∙ ap (λ l. label ∷ l) (split-join (next ∷ labels) (omega arith) hs)
