-- ===== src/Client/Targets/Labels.antt =====
-- The labels that `parse_server_id_from_target` of src/client.rs reads.
use rl_rust_client.Common.{
  ℕ, ◌-◌, ◌^◌, ◌<◌, ◌≡◌, ◌↔◌, ◌⊎◌, inl, inr, refl, sym, ◌∙◌, ap, subst, arith, [], ◌∷◌, ◌++◌, map,
  Bool-cases, true, false, ltb, ◌==◌, if◌then◌else◌, le→ltb-false, some,
}
use rl_rust_client.ApiKey.Bech32.{Text, is_ascii_uppercase, to_ascii_lowercase}
use rl_rust_client.ApiKey.Codec.{strip_prefix}
use rl_rust_client.Client.Targets.{
  keep_front, trim_end, first_part, digits_value, parse_decimal, decimal_id,
  parse_server_id_from_target,
}
use rl_rust_client.Client.Targets.Decimal.{
  Undotted, decimal_value, IsDecimal, Digits-plain, digits_value-decimal_value, IsDecimal-tested,
  parse_decimal-IsDecimal,
}

-- What ends the first label: the end of the name, or a dot.
abbrev pub EndsLabel : Text → Type 0
EndsLabel rest = (rest ≡ []) ⊎ ((others : Text) × (rest ≡ b'.' ∷ others))

-- The first label is `s-` or `S-` and the decimal of the id, which has 64 bits.
pub record IsServerTarget (target : Text) (id : ℕ) : Type 0 where
  pub letter : ℕ
  pub digits : Text
  pub rest : Text
  pub is_target : target ≡ letter ∷ (b'-' ∷ (digits ++ rest))
  pub is_letter : (letter ≡ 115) ⊎ (letter ≡ 83)
  pub is_decimal : IsDecimal digits
  pub is_end : EndsLabel rest
  pub fits : id < 2 ^ 64
  pub is_id : id ≡ decimal_value digits

-- Only dots are trimmed, and what is trimmed begins with a dot.
first_part-keep_front :
    (x : ℕ) (ys : Text)
    → first_part b'.' (keep_front b'.' x ys) ≡ (if x == b'.' then [] else x ∷ first_part b'.' ys)
first_part-keep_front x [] = elim (Bool-cases (x == b'.')) [
  | inl e ↦ rw e refl
  | inr e ↦ rw e (rw e refl)
]
first_part-keep_front x (y ∷ ys) = refl

-- Trimming the dots at the end leaves the first label.
first_part-trim_end : (xs : Text) → first_part b'.' (trim_end b'.' xs) ≡ first_part b'.' xs
first_part-trim_end [] = refl
first_part-trim_end (x ∷ xs) =
    first_part-keep_front x (trim_end b'.' xs)
    ∙ ap (λ label. if x == b'.' then [] else x ∷ label) (first_part-trim_end xs)

first_part-end :
    (label rest : Text) → Undotted label → EndsLabel rest → first_part b'.' (label ++ rest) ≡ label
first_part-end [] rest h (inl e) = subst (λ r. first_part b'.' r ≡ []) (sym e) refl
first_part-end [] rest h (inr (others, e)) = subst (λ r. first_part b'.' r ≡ []) (sym e) refl
first_part-end (c ∷ label) rest (hc, h) e = rw (hc, first_part-end label rest h e) refl

first_part-EndsLabel :
    (xs : Text) → (rest : Text) × (xs ≡ first_part b'.' xs ++ rest) × EndsLabel rest
first_part-EndsLabel [] = ([], refl, inl refl)
first_part-EndsLabel (x ∷ xs) =
    let (rest, e, ends) = first_part-EndsLabel xs in
    elim (Bool-cases (x == b'.')) [
      | inl dot ↦ (x ∷ xs, rw dot refl, inr (xs, ap (λ c. c ∷ xs) (ground arith)))
      | inr other ↦ (rest, rw other (ap (λ l. x ∷ l) e), ends)
    ]

letter_cases : (c : ℕ) → (to_ascii_lowercase c == b's') ≡ true → (c ≡ 115) ⊎ (c ≡ 83)
letter_cases c e = elim (Bool-cases (is_ascii_uppercase c)) [
  | inl capital ↦ inr (ground arith)
  | inr small ↦ inl (ground arith)
]

dash : (c : ℕ) → (to_ascii_lowercase c == b'-') ≡ true → c ≡ b'-'
dash c e = ground arith

-- A label that has an id.
label_front :
    (label : Text) (id : ℕ)
    → decimal_id (strip_prefix (b's' ∷ b'-' ∷ []) (map to_ascii_lowercase label)) ≡ some id
    → (letter : ℕ) × (digits : Text) × (label ≡ letter ∷ (b'-' ∷ digits))
      × ((letter ≡ 115) ⊎ (letter ≡ 83))
      × (parse_decimal (map to_ascii_lowercase digits) ≡ some id)
label_front [] id = λ e. absurd (cc)
label_front (a ∷ []) id = elim (Bool-cases (to_ascii_lowercase a == b's')) [
  | inl ha ↦ rw ha (λ e. absurd (cc))
  | inr ha ↦ rw ha (λ e. absurd (cc))
]
label_front (a ∷ (b ∷ ds)) id = elim (Bool-cases (to_ascii_lowercase a == b's')) [
  | inr ha ↦ rw ha (λ e. absurd (cc))
  | inl ha ↦ elim (Bool-cases (to_ascii_lowercase b == b'-')) [
    | inr hb ↦ rw (ha, hb) (λ e. absurd (cc))
    | inl hb ↦ rw (ha, hb) (λ e. (a, ds, ap (λ c. a ∷ (c ∷ ds)) (dash b hb), letter_cases a ha, e))
  ]
]

-- A target of a server has its id, whatever follows the label.
IsServerTarget-parse :
    (target : Text) (id : ℕ)
    → IsServerTarget target id
    → parse_server_id_from_target target ≡ some id
unfolding parse_server_id_from_target parse_decimal
IsServerTarget-parse target id v =
    let (digits, nonempty, no_zeros) = IsDecimal-tested v.digits v.is_decimal in
    let (undotted, same, are_digits) = Digits-plain v.digits digits in
    let letter : (v.letter == b'.') ≡ false = elim v.is_letter [
      | inl e ↦ ground arith
      | inr e ↦ ground arith
    ] in
    let lower : to_ascii_lowercase v.letter ≡ b's' = elim v.is_letter [
      | inl e ↦ ground arith
      | inr e ↦ ground arith
    ] in
    let value : digits_value 0 v.digits ≡ id =
      digits_value-decimal_value 0 v.digits ∙ omega (arith, v.is_id) in
    let fits : ltb (2 ^ 64 - 1) (digits_value 0 v.digits) ≡ false =
      rw value (le→ltb-false (2 ^ 64 - 1) id (omega (arith, v.fits))) in
    rw
      (
        v.is_target,
        first_part-trim_end (v.letter ∷ (b'-' ∷ (v.digits ++ v.rest))),
        first_part-end (v.letter ∷ (b'-' ∷ v.digits)) v.rest (letter, (refl, undotted)) v.is_end,
        lower,
        same,
        nonempty,
        no_zeros,
        are_digits,
        fits,
        value,
      )
      refl

-- A target with an id is one of a server.
parse-IsServerTarget :
    (target : Text) (id : ℕ)
    → parse_server_id_from_target target ≡ some id
    → IsServerTarget target id
unfolding parse_server_id_from_target
parse-IsServerTarget target id e =
    let (rest, split, ends) = first_part-EndsLabel target in
    let (letter, digits, front, is_letter, parsed) = label_front (first_part b'.' target) id (
      subst (λ l. decimal_id (strip_prefix (b's' ∷ b'-' ∷ []) (map to_ascii_lowercase l)) ≡ some id)
        (first_part-trim_end target) e) in
    let (is_decimal, fits, is_id) = parse_decimal-IsDecimal digits id parsed in
    record {
      letter = letter;
      digits = digits;
      rest = rest;
      is_target = split ∙ ap (λ l. l ++ rest) front;
      is_letter = is_letter;
      is_decimal = is_decimal;
      is_end = ends;
      fits = fits;
      is_id = is_id;
    }

-- A target has an id exactly if its first label is `s-` or `S-` and the id in decimal, without zeros in
-- front, and the id is below 2^64. What follows the label does not matter. So a target has none whose
-- label has another prefix, no digits, zeros in front, other characters or too large a number.
pub parse_server_id_from_target_lem :
    (target : Text) (id : ℕ)
    → (parse_server_id_from_target target ≡ some id) ↔ IsServerTarget target id
parse_server_id_from_target_lem target id =
    (parse-IsServerTarget target id, IsServerTarget-parse target id)
