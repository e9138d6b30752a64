-- ===== src/Client/Targets/Decimal.antt =====
-- The decimal that `parse_server_id_from_target` of src/client.rs reads in a label.
use rl_rust_client.Common.{
  some_inj, ℕ, suc, ◌+◌, ◌-◌, ◌*◌, ◌^◌, ◌<◌, ◌≤◌, ◌≡◌, ◌⊎◌, inl, inr, refl, sym, ◌∙◌, subst, arith,
  [], ◌∷◌, map, length, all, All, Bool, true, false, not, ◌&&◌, and_true, ltb, ◌==◌, if◌then◌else◌,
  ltb-false→le, Option, none, some,
}
use native.Mathlib.Nat.{pow-suc}
use rl_rust_client.ApiKey.Bech32.{Text, is_ascii_uppercase, to_ascii_lowercase}
use rl_rust_client.Client.Targets.{is_ascii_digit, digits_value, starts_with_zero, parse_decimal}

-- The digits of ASCII, and the number that a text of them is in decimal.
abbrev pub Digits : Text → Type 0
Digits = All (λ c. (48 ≤ c) × (c ≤ 57))

abbrev pub decimal_value : Text → ℕ
decimal_value [] = 0
decimal_value (c ∷ cs) = (c - 48) * 10 ^ length cs + decimal_value cs

-- A number is a digit, or digits of which the first one is not zero.
abbrev pub IsDecimal : Text → Type 0
IsDecimal [] = ⊥
IsDecimal (c ∷ cs) = Digits (c ∷ cs) × ((cs ≡ []) ⊎ (48 < c))

abbrev pub Undotted : Text → Type 0
Undotted = All (λ c. (c == b'.') ≡ false)

-- The digits are no capitals and no dots.
pub Digits-plain :
    (digits : Text)
    → Digits digits
    → Undotted digits
      × (map to_ascii_lowercase digits ≡ digits)
      × (all is_ascii_digit digits ≡ true)
Digits-plain [] h = (tt, refl, refl)
Digits-plain (c ∷ digits) ((from, to), h) =
    let (undotted, same, are_digits) = Digits-plain digits h in
    let no_dot : (c == b'.') ≡ false = ground arith in
    let no_capital : is_ascii_uppercase c ≡ false = ground arith in
    let digit : is_ascii_digit c ≡ true = ground arith in
    ((no_dot, undotted), rw (no_capital, same) refl, rw (digit, are_digits) refl)

-- What is a digit in lower case is one.
lower-Digits : (cs : Text) → all is_ascii_digit (map to_ascii_lowercase cs) ≡ true → Digits cs
lower-Digits [] h = tt
lower-Digits (c ∷ cs) h =
    let (here, rest) =
      and_true (is_ascii_digit (to_ascii_lowercase c))
        (all is_ascii_digit (map to_ascii_lowercase cs)) h in
    (bounds here, lower-Digits cs rest)
  where
    bounds : is_ascii_digit (to_ascii_lowercase c) ≡ true → (48 ≤ c) × (c ≤ 57)
    bounds e = (ground arith, ground arith)

shift : (acc d n v : ℕ) → (acc * 10 + d) * 10 ^ n + v ≡ acc * 10 ^ suc n + (d * 10 ^ n + v)
shift acc d n v = rw (pow-suc 10 n) (powers (10 ^ n))
  where
    powers : (p : ℕ) → (acc * 10 + d) * p + v ≡ acc * (p * 10) + (d * p + v)
    powers p = omega arith

pub digits_value-decimal_value :
    (acc : ℕ) (cs : Text) → digits_value acc cs ≡ acc * 10 ^ length cs + decimal_value cs
digits_value-decimal_value acc [] = omega arith
digits_value-decimal_value acc (c ∷ cs) =
    digits_value-decimal_value (acc * 10 + (c - 48)) cs
    ∙ shift acc (c - 48) (length cs) (decimal_value cs)

if_none :
    (test : Bool) (rest : Option ℕ) (id : ℕ)
    → (if test then none else rest) ≡ some id
    → (test ≡ false) × (rest ≡ some id)
if_none true rest id e = absurd (cc)
if_none false rest id e = (refl, e)

-- The tests that a text passes which has an id.
parse_decimal-some :
    (cs : Text) (id : ℕ)
    → parse_decimal cs ≡ some id
    → ((length cs == 0) ≡ false)
      × ((ltb 1 (length cs) && starts_with_zero cs) ≡ false)
      × (not (all is_ascii_digit cs) ≡ false)
      × (ltb (2 ^ 64 - 1) (digits_value 0 cs) ≡ false)
      × (digits_value 0 cs ≡ id)
unfolding parse_decimal
parse_decimal-some cs id e =
    let (nonempty, e₁) = if_none (length cs == 0) _ id e in
    let (no_zeros, e₂) = if_none (ltb 1 (length cs) && starts_with_zero cs) _ id e₁ in
    let (are_digits, e₃) = if_none (not (all is_ascii_digit cs)) _ id e₂ in
    let (fits, e₄) = if_none (ltb (2 ^ 64 - 1) (digits_value 0 cs)) _ id e₃ in
    (nonempty, no_zeros, are_digits, fits, some_inj (digits_value 0 cs) id e₄)

tested-IsDecimal :
    (cs : Text)
    → Digits cs
    → (length cs == 0) ≡ false
    → (ltb 1 (length cs) && starts_with_zero cs) ≡ false
    → IsDecimal cs
tested-IsDecimal [] h nonempty no_zeros = absurd (cc)
tested-IsDecimal (c ∷ []) h nonempty no_zeros = (h, inl refl)
tested-IsDecimal (c ∷ (d ∷ ds)) ((from, to), h) nonempty no_zeros =
    let long : ltb 1 (length (c ∷ (d ∷ ds))) ≡ true = ground arith in
    (((from, to), h), inr (ground arith))

pub IsDecimal-tested :
    (cs : Text)
    → IsDecimal cs
    → Digits cs × ((length cs == 0) ≡ false) × ((ltb 1 (length cs) && starts_with_zero cs) ≡ false)
IsDecimal-tested [] h = absurd h
IsDecimal-tested (c ∷ cs) (h, inl e) =
    (h, ground arith, subst (λ l. (ltb 1 (length (c ∷ l)) && (c == b'0')) ≡ false) (sym e) refl)
IsDecimal-tested (c ∷ cs) (h, inr big) =
    let other : (c == b'0') ≡ false = ground arith in (h, ground arith, ground arith)

-- A text whose lower case has an id is a decimal of it.
pub parse_decimal-IsDecimal :
    (cs : Text) (id : ℕ)
    → parse_decimal (map to_ascii_lowercase cs) ≡ some id
    → IsDecimal cs × (id < 2 ^ 64) × (id ≡ decimal_value cs)
parse_decimal-IsDecimal cs id e =
    let (_, _, are_digits, _, _) = parse_decimal-some (map to_ascii_lowercase cs) id e in
    let digits = lower-Digits cs (ground arith) in
    let (_, same, _) = Digits-plain cs digits in
    let (nonempty, no_zeros, _, fits, is_id) =
      parse_decimal-some cs id (subst (λ l. parse_decimal l ≡ some id) same e) in
    (
      tested-IsDecimal cs digits nonempty no_zeros,
      below is_id fits,
      sym is_id ∙ digits_value-decimal_value 0 cs ∙ omega arith,
    )
  where
    below : {n : ℕ} → n ≡ id → ltb (2 ^ 64 - 1) n ≡ false → id < 2 ^ 64
    below {n} e h = let le = ltb-false→le (2 ^ 64 - 1) n h in omega arith
