-- ===== src/ApiKey/Bech32/Chars.antt =====
-- The characters of the bech32 texts of src/api_key_codec.rs: case, the separator, the values.
use rl_rust_client.Common.{
  ℕ, zero, suc, ◌<◌, ◌≡◌, refl, sym, ap, subst, arith, List, [], ◌∷◌, ◌++◌, map, length, All, all,
  Bool, true, false, not, ◌&&◌, and_true, ◌==◌, ==_iff, Bool-cases, inl, inr, Option, none, some,
  ok,
}
use rl_rust_client.ApiKey.Bech32.{
  Text, char_to_value, value_to_char, is_printable, is_ascii_uppercase, to_ascii_lowercase, any,
  rfind, values_of, chars_of,
}

-- A check of every number below a bound, by evaluation.
abbrev every : ℕ → (ℕ → Bool) → Bool
every zero p = true
every (suc n) p = p n && every n p

pub and_false : (b : Bool) → (b && false) ≡ false
and_false true = refl
and_false false = refl

not-true : (b : Bool) → not b ≡ true → b ≡ false
not-true true h = absurd (cc)
not-true false h = refl

every_lem : (n : ℕ) (p : ℕ → Bool) (x : ℕ) → every n p ≡ true → x < n → p x ≡ true
every_lem zero p x h l = absurd (omega arith)
every_lem (suc n) p x h l =
    let (here, rest) = and_true (p n) (every n p) h in
    elim (Bool-cases (x == n)) [
      | inl e ↦ subst (λ k. p k ≡ true) (sym ((==_iff x n).0 e)) here
      | inr e ↦ every_lem n p x rest (ground arith)
    ]

-- A character of the data part: no separator, printable, no capital.
abbrev pub IsDataChar : ℕ → Type 0
IsDataChar c = ((c == b'1') ≡ false) × (is_printable c ≡ true) × (is_ascii_uppercase c ≡ false)

abbrev is_value : Option ℕ → ℕ → Bool
is_value none v = false
is_value (some x) v = x == v

abbrev check_char : Option ℕ → ℕ → Bool
check_char none v = false
check_char (some c) v =
    is_value (char_to_value c) v
    && (not (c == b'1') && (is_printable c && not (is_ascii_uppercase c)))

table : every 32 (λ v. check_char (value_to_char v) v) ≡ true
unfolding char_to_value value_to_char
table = refl

is_value_lem : (o : Option ℕ) (v : ℕ) → is_value o v ≡ true → o ≡ some v
is_value_lem none v h = absurd (cc)
is_value_lem (some x) v h = ap some ((==_iff x v).0 h)

abbrev Coded : ℕ → Type 0
Coded v = (c : ℕ) × (value_to_char v ≡ some c) × (char_to_value c ≡ some v) × IsDataChar c

Coded-from : (o : Option ℕ) (v : ℕ) → value_to_char v ≡ o → check_char o v ≡ true → Coded v
Coded-from none v e h = absurd (cc)
Coded-from (some c) v e h =
    let (same, r) = and_true (is_value (char_to_value c) v) _ h in
    let (sep, r') = and_true (not (c == b'1')) _ r in
    let (print, upper) = and_true (is_printable c) _ r' in
    (
      c,
      e,
      is_value_lem (char_to_value c) v same,
      (not-true (c == b'1') sep, print, not-true (is_ascii_uppercase c) upper),
    )

coded : (v : ℕ) → v < 32 → Coded v
coded v h =
    Coded-from (value_to_char v) v refl
      (every_lem 32 (λ v. check_char (value_to_char v) v) v table h)

-- The characters of values below 32 are there, and stand for the values.
pub chars_of_lem :
    (vs : List ℕ)
    → All (λ v. v < 32) vs
    → (cs : Text) × (chars_of vs ≡ ok cs)
      × (values_of cs ≡ ok vs)
      × (length cs ≡ length vs)
      × All IsDataChar cs
chars_of_lem [] h = ([], refl, refl, refl, tt)
chars_of_lem (v ∷ vs) (hv, h) =
    let (c, char, value, good) = coded v hv in
    let (cs, made, back, len, all_good) = chars_of_lem vs h in
    (c ∷ cs, rw (char, made) refl, rw (value, back) refl, ap suc len, (good, all_good))

-- Lower case and the separator.
lower_printable : (c : ℕ) → is_printable c ≡ true → is_printable (to_ascii_lowercase c) ≡ true
lower_printable c h = ground arith

lower_no_capital : (c : ℕ) → is_ascii_uppercase (to_ascii_lowercase c) ≡ false
lower_no_capital c = ground arith

no_capital_lower : (c : ℕ) → is_ascii_uppercase c ≡ false → to_ascii_lowercase c ≡ c
no_capital_lower c h = rw h

-- What the decoder asks of each character of the text, and what it leaves as it is.
abbrev pub IsPlain : ℕ → Type 0
IsPlain c = (is_printable c ≡ true) × (is_ascii_uppercase c ≡ false)

pub lower-IsPlain :
    (hrp : Text) → all is_printable hrp ≡ true → All IsPlain (map to_ascii_lowercase hrp)
lower-IsPlain [] h = tt
lower-IsPlain (c ∷ cs) h =
    let (here, rest) = and_true (is_printable c) (all is_printable cs) h in
    ((lower_printable c here, lower_no_capital c), lower-IsPlain cs rest)

pub data-IsPlain : (cs : Text) → All IsDataChar cs → All IsPlain cs
data-IsPlain [] h = tt
data-IsPlain (c ∷ cs) ((sep, print, upper), h) = ((print, upper), data-IsPlain cs h)

pub All-append : (P : ℕ → Type 0) (xs ys : Text) → All P xs → All P ys → All P (xs ++ ys)
All-append P [] ys h k = k
All-append P (x ∷ xs) ys (hx, h) k = (hx, All-append P xs ys h k)

pub plain_text :
    (cs : Text)
    → All IsPlain cs
    → (all is_printable cs ≡ true)
      × (any is_ascii_uppercase cs ≡ false)
      × (map to_ascii_lowercase cs ≡ cs)
plain_text [] h = (refl, refl, refl)
plain_text (c ∷ cs) ((print, upper), h) =
    let (all_print, no_upper, same) = plain_text cs h in
    (
      rw (print, all_print) refl,
      rw (upper, no_upper) refl,
      rw (no_capital_lower c upper, same) refl,
    )

pub rfind-none : (cs : Text) → All IsDataChar cs → rfind b'1' cs ≡ none
rfind-none [] h = refl
rfind-none (c ∷ cs) ((sep, print, upper), h) = rw (rfind-none cs h, sep) refl

pub rfind-append :
    (pre cs : Text) → rfind b'1' cs ≡ none → rfind b'1' (pre ++ (b'1' ∷ cs)) ≡ some (length pre)
rfind-append [] cs h = rw h refl
rfind-append (c ∷ pre) cs h = rw (rfind-append pre cs h) refl
