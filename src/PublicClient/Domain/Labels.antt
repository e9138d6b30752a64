-- ===== src/PublicClient/Domain/Labels.antt =====
-- What `valid_dns_name` of src/public_client.rs accepts.
use rl_rust_client.Common.{
  ℕ, ◌≤◌, ◌<◌, ◌≡◌, ◌↔◌, refl, sym, ◌∙◌, subst, arith, List, [], ◌∷◌, ◌++◌, length, length-append,
  All, all, Bool, true, false, ◌||◌, and_true, ltb, ◌==◌, le→ltb-false, if◌then◌else◌,
}
use rl_rust_client.PublicClient.Domain.Split.{join, Without, join-split, split-join, length-split}
use rl_rust_client.PublicClient.Domain.{starts_with, ends_with, split, valid_label, valid_dns_name}
use rl_rust_client.PublicClient.Domain.Label.{
  IsLabelByte, IsLabel, valid_label-IsLabel, valid_label_lem, ends_with-append,
}

no_dot : (b : ℕ) → IsLabelByte b → (b == b'.') ≡ false
no_dot b h = ground arith

no_dots : (xs : List ℕ) → All IsLabelByte xs → Without b'.' xs
no_dots [] h = tt
no_dots (x ∷ xs) (hx, h) = (no_dot x hx, no_dots xs h)

All-no_dots : (labels : List (List ℕ)) → All IsLabel labels → All (Without b'.') labels
All-no_dots [] h = tt
All-no_dots (label ∷ labels) (v, h) = (no_dots label v.label_bytes, All-no_dots labels h)

starts_with-append :
    (c : ℕ) (xs ys : List ℕ) → 0 < length xs → starts_with c (xs ++ ys) ≡ starts_with c xs
starts_with-append c [] ys h = absurd (omega arith)
starts_with-append c (x ∷ xs) ys h = refl

starts_with-Without : (c : ℕ) (xs : List ℕ) → Without c xs → starts_with c xs ≡ false
starts_with-Without c [] h = refl
starts_with-Without c (x ∷ xs) (hx, h) = hx

ends_with-Without : (c : ℕ) (xs : List ℕ) → Without c xs → ends_with c xs ≡ false
ends_with-Without c [] h = refl
ends_with-Without c (x ∷ []) (hx, h) = hx
ends_with-Without c (x ∷ (y ∷ ys)) (hx, h) = ends_with-Without c (y ∷ ys) h

-- A name of one label or more starts and ends with no dot.
join_starts :
    (labels : List (List ℕ))
    → All IsLabel labels
    → 0 < length labels
    → (starts_with b'.' (join labels) ≡ false) × (0 < length (join labels))
join_starts [] h some_labels = absurd (omega arith)
join_starts (label ∷ []) (v, h) some_labels =
    (starts_with-Without b'.' label (no_dots label v.label_bytes), v.some_bytes)
join_starts (label ∷ (next ∷ labels)) (v, h) some_labels =
    let rest = b'.' ∷ join (next ∷ labels) in
    let some_bytes = v.some_bytes in
    (
      starts_with-append b'.' label rest some_bytes
          ∙ starts_with-Without b'.' label (no_dots label v.label_bytes),
      omega (arith, length-append label rest),
    )

ends_with_more :
    (c : ℕ) (xs ys : List ℕ) → 0 < length ys → ends_with c (xs ++ (c ∷ ys)) ≡ ends_with c ys
ends_with_more c xs [] h = absurd (omega arith)
ends_with_more c xs (y ∷ ys) h = ends_with-append c c xs (y ∷ ys)

join_ends :
    (labels : List (List ℕ))
    → All IsLabel labels
    → 0 < length labels
    → ends_with b'.' (join labels) ≡ false
join_ends [] h some_labels = absurd (omega arith)
join_ends (label ∷ []) (v, h) some_labels =
    ends_with-Without b'.' label (no_dots label v.label_bytes)
join_ends (label ∷ (next ∷ labels)) (v, h) some_labels =
    ends_with_more b'.' label (join (next ∷ labels)) (join_starts (next ∷ labels) h (omega arith)).1
    ∙ join_ends (next ∷ labels) h (omega arith)

all_valid : (labels : List (List ℕ)) → all valid_label labels ≡ true → All IsLabel labels
all_valid [] h = tt
all_valid (label ∷ labels) h =
    let (here, rest) = and_true (valid_label label) (all valid_label labels) h in
    (valid_label-IsLabel label here, all_valid labels rest)

valid_all : (labels : List (List ℕ)) → All IsLabel labels → all valid_label labels ≡ true
valid_all [] h = refl
valid_all (label ∷ labels) (v, h) = rw (valid_label_lem label v, valid_all labels h) refl

tested : (b : Bool) (c : Bool) → (if b then false else c) ≡ true → (b ≡ false) × (c ≡ true)
tested true c h = absurd (cc)
tested false c h = (refl, h)

valid_join :
    (labels : List (List ℕ))
    → 0 < length labels
    → All IsLabel labels
    → length (join labels) ≤ 253
    → valid_dns_name (join labels) ≡ true
unfolding valid_dns_name
valid_join labels some_labels valid short =
    let (starts, some_bytes) = join_starts labels valid some_labels in
    let nonempty : (length (join labels) == 0) ≡ false = ground arith in
    rw
      (
        nonempty,
        le→ltb-false 253 (length (join labels)) short,
        starts,
        join_ends labels valid some_labels,
        split-join labels some_labels (All-no_dots labels valid),
      )
      (valid_all labels valid)

-- `valid_dns_name` accepts exactly the names of 253 bytes at most that are one label or more with a
-- dot between each two, where a label is 1 to 63 letters, digits and hyphens with no hyphen at
-- either end.
pub valid_dns_name_iff :
    (domain : List ℕ)
    → (valid_dns_name domain ≡ true) ↔ (
        (labels : List (List ℕ)) × (0 < length labels)
        × All IsLabel labels
        × (join labels ≡ domain)
        × (length domain ≤ 253))
unfolding valid_dns_name
valid_dns_name_iff domain = (
  λ h.
      let (shape, labels) =
        tested
          (length domain == 0
            || (ltb 253 (length domain) || (starts_with b'.' domain || ends_with b'.' domain)))
          _ h in
      (
        split b'.' domain,
        length-split b'.' domain,
        all_valid (split b'.' domain) labels,
        join-split domain,
        ground arith,
      ),
  λ (labels, some_labels, valid, same, short).
      subst (λ d. valid_dns_name d ≡ true) same
        (valid_join labels some_labels valid (subst (λ d. length d ≤ 253) (sym same) short)),
)
