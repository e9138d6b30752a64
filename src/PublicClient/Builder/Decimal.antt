-- ===== src/PublicClient/Builder/Decimal.antt =====
-- The decimal digits in the default service domain of src/public_client.rs.
use rl_rust_client.Common.{
  ℕ, zero, suc, ◌+◌, ◌*◌, ◌/◌, ◌%◌, ◌-◌, ◌^◌, ◌≤◌, ◌<◌, ◌≡◌, refl, arith, [], ◌∷◌, ◌++◌, length,
  length-append, All, Bool-cases, inl, inr, ltb, false,
}
use rl_rust_client.ApiKey.Bech32.{Text}
use rl_rust_client.Client.Targets.{digits_value}
use rl_rust_client.PublicClient.Domain.{ends_with}
use rl_rust_client.PublicClient.Domain.Label.{IsLabelByte}
use rl_rust_client.PublicClient.Builder.{decimal_digits, display_u64}

-- A decimal digit.
abbrev pub IsDigit : ℕ → Type 0
IsDigit c = (b'0' ≤ c) × (c ≤ b'9')

All-append_one : (P : ℕ → Type 0) (xs : Text) (c : ℕ) → All P xs → P c → All P (xs ++ (c ∷ []))
All-append_one P [] c h hc = (hc, tt)
All-append_one P (x ∷ xs) c (hx, h) hc = (hx, All-append_one P xs c h hc)

-- Either there is one digit, or there are some in front.
decimal_digits-cases :
    (P : Text → Type 0) (more n : ℕ)
    → (n < 10 → P ((b'0' + n) ∷ []))
    → (10 ≤ n → P (decimal_digits more (n / 10) ++ ((b'0' + n % 10) ∷ [])))
    → P (decimal_digits (suc more) n)
unfolding decimal_digits
decimal_digits-cases P more n one several = elim (Bool-cases (ltb n 10)) [
  | inl e ↦ rw e (one (ground arith))
  | inr e ↦ rw e (several (ground arith))
]

decimal_digits-IsDigit : (more n : ℕ) → All IsDigit (decimal_digits more n)
unfolding decimal_digits
decimal_digits-IsDigit zero n = tt
decimal_digits-IsDigit (suc more) n =
    decimal_digits-cases (All IsDigit) more n (λ h. ((omega arith, omega arith), tt))
      (λ h.
        All-append_one IsDigit (decimal_digits more (n / 10)) (b'0' + n % 10)
          (decimal_digits-IsDigit more (n / 10)) (omega arith, omega arith))

pub length-decimal_digits : (more n : ℕ) → length (decimal_digits more n) ≤ more
unfolding decimal_digits
length-decimal_digits zero n = omega arith
length-decimal_digits (suc more) n =
    decimal_digits-cases (λ l. length l ≤ suc more) more n (λ h. omega arith)
      (λ h.
        let front = length-decimal_digits more (n / 10) in
        omega (arith, length-append (decimal_digits more (n / 10)) ((b'0' + n % 10) ∷ [])))

pub length-decimal_digits_positive : (more n : ℕ) → 0 < length (decimal_digits (suc more) n)
length-decimal_digits_positive more n =
    decimal_digits-cases (λ l. 0 < length l) more n (λ h. omega arith)
      (λ h. omega (arith, length-append (decimal_digits more (n / 10)) ((b'0' + n % 10) ∷ [])))

All-label : (xs : Text) → All IsDigit xs → All IsLabelByte xs
All-label [] h = tt
All-label (x ∷ xs) (hx, h) = (inl hx, All-label xs h)

pub display_u64-labels : (n : ℕ) → All IsLabelByte (display_u64 n)
unfolding display_u64
display_u64-labels n = All-label (decimal_digits 20 n) (decimal_digits-IsDigit 20 n)

no_hyphen_last : (xs : Text) → All IsDigit xs → ends_with b'-' xs ≡ false
no_hyphen_last [] h = refl
no_hyphen_last (x ∷ []) (hx, h) = let low = hx.0 in ground arith
no_hyphen_last (x ∷ (y ∷ ys)) (hx, h) = no_hyphen_last (y ∷ ys) h

pub ends_with-display_u64 : (n : ℕ) → ends_with b'-' (display_u64 n) ≡ false
unfolding display_u64
ends_with-display_u64 n = no_hyphen_last (decimal_digits 20 n) (decimal_digits-IsDigit 20 n)

digits_value-append :
    (acc : ℕ) (xs : Text) (c : ℕ)
    → digits_value acc (xs ++ (c ∷ [])) ≡ digits_value acc xs * 10 + (c - b'0')
digits_value-append acc [] c = refl
digits_value-append acc (x ∷ xs) c = digits_value-append (acc * 10 + (x - b'0')) xs c

digits_value-decimal_digits :
    (more n : ℕ) → n < 10 ^ more → digits_value 0 (decimal_digits more n) ≡ n
unfolding decimal_digits
digits_value-decimal_digits zero n h = omega arith
digits_value-decimal_digits (suc more) n h =
    decimal_digits-cases (λ l. digits_value 0 l ≡ n) more n (λ k. omega arith)
      (λ k.
        let front = digits_value-decimal_digits more (n / 10) (omega arith) in
        omega (arith, digits_value-append 0 (decimal_digits more (n / 10)) (b'0' + n % 10)))

pub digits_value-display_u64 : (n : ℕ) → n < 2 ^ 64 → digits_value 0 (display_u64 n) ≡ n
unfolding display_u64
digits_value-display_u64 n h = digits_value-decimal_digits 20 n (omega arith)
