-- ===== src/ApiKey/Bech32/Bits.antt =====
-- `convert_bits` of src/api_key_codec.rs from bytes to groups of 5 bits and back.
use rl_rust_client.Common.{
  ℕ, ◌+◌, ◌-◌, ◌*◌, ◌/◌, ◌%◌, ◌^◌, ◌<◌, ◌≡◌, refl, ap, arith, List, [], ◌∷◌, ◌++◌, All, Bool, true,
  false, ltb, leb, ◌==◌, Bool-cases, inl, inr, Result, ok, ◌>>=◌, Result-cases,
}
use rl_rust_client.Common.Bytes.{IsByte}
use rl_rust_client.ApiKey.Bech32.{
  DecodeError, drain, shift_in, convert_from, finish_bits, convert_bits,
}
use mathlib.Core.List.{append_assoc}

-- The loop and what follows it, from any `acc` and `bits`.
abbrev pub run : ℕ → ℕ → Bool → ℕ → ℕ → List ℕ → Result DecodeError (List ℕ)
run from_bits to_bits pad acc bits values = do
  (out, acc', bits') ← convert_from from_bits to_bits acc bits values
  finish_bits from_bits to_bits pad out acc' bits'

finish_bits-append :
    (f t : ℕ) (pad : Bool) (pre out : List ℕ) (acc bits : ℕ)
    → finish_bits f t pad (pre ++ out) acc bits
      ≡ (finish_bits f t pad out acc bits >>= λ l. ok (pre ++ l))
finish_bits-append f t true pre out acc bits = elim (Bool-cases (ltb 0 bits)) [
  | inl e ↦ rw e (ap ok (append_assoc pre out _))
  | inr e ↦ rw e
]
finish_bits-append f t false pre out acc bits = elim (Bool-cases (leb f bits)) [
  | inl e ↦ rw e
  | inr e ↦ elim (Bool-cases (acc * 2 ^ (t - bits) % 2 ^ t == 0)) [
    | inl z ↦ rw (e, z)
    | inr z ↦ rw (e, z)
  ]
]

-- One value of the loop.
run-step :
    (f t : ℕ) (pad : Bool) (acc bits v : ℕ) (vs : List ℕ)
    → (v / 2 ^ f == 0) ≡ true
    → let acc' = shift_in f t acc v in
      let drained = drain (bits + f) t acc' (bits + f) in
      run f t pad acc bits (v ∷ vs) ≡ (run f t pad acc' drained.1 vs >>= λ l. ok (drained.0 ++ l))
run-step f t pad acc bits v vs fits =
    let acc' = shift_in f t acc v in
    let drained = drain (bits + f) t acc' (bits + f) in
    elim (Result-cases (convert_from f t acc' drained.1 vs)) [
      | inl ((out, a, b), e) ↦ rw (fits, e) (finish_bits-append f t pad drained.0 out a b)
      | inr (inl (x, e)) ↦ rw (fits, e)
      | inr (inr e) ↦ rw (fits, e)
    ]

-- The pending bits of the two directions after each byte: `dec + enc` is 0 or 8.
data Phase : Type 0 where
  p0 p3 p1 p4 p2 : Phase

abbrev enc : Phase → ℕ
enc p0 = 0
enc p3 = 3
enc p1 = 1
enc p4 = 4
enc p2 = 2

abbrev dec : Phase → ℕ
dec p0 = 0
dec p3 = 5
dec p1 = 7
dec p4 = 4
dec p2 = 6

-- What the decoder will give: the byte that is pending in both, then the bytes that are left.
abbrev expected : Phase → ℕ → ℕ → List ℕ → List ℕ
expected p0 acc accd bs = bs
expected p3 acc accd bs = (accd % 32 * 8 + acc % 8) ∷ bs
expected p1 acc accd bs = (accd % 128 * 2 + acc % 2) ∷ bs
expected p4 acc accd bs = (accd % 16 * 16 + acc % 16) ∷ bs
expected p2 acc accd bs = (accd % 64 * 4 + acc % 4) ∷ bs

abbrev Trip : Phase → ℕ → ℕ → List ℕ → Type 0
Trip s acc accd bs =
    (gs : List ℕ) × (run 8 5 true acc (enc s) bs ≡ ok gs)
    × (run 5 8 false accd (dec s) gs ≡ ok (expected s acc accd bs))

byte_fits : (b : ℕ) → b < 256 → (b / 256 == 0) ≡ true
byte_fits b h = ground arith

digit_fits : (x : ℕ) → (x % 32 / 32 == 0) ≡ true
digit_fits x = ground arith

no_rest : (x : ℕ) → x % 256 ≡ 0 → (x % 256 == 0) ≡ true
no_rest x h = ground arith

trip : (s : Phase) (acc accd : ℕ) (bs : List ℕ) → All IsByte bs → Trip s acc accd bs
trip p0 acc accd [] h = ([], refl, rw (no_rest (accd * 256) (omega arith)))
trip p0 acc accd (b ∷ bs) (hb, h) =
    let acc' = shift_in 8 5 acc b in
    let g = acc' / 8 % 32 in
    let accd' = shift_in 5 8 accd g in
    let (gs, e, d) = trip p3 acc' accd' bs h in
    let same : accd' % 32 * 8 + acc' % 8 ≡ b = omega arith in
    (
      g ∷ gs,
      rw (run-step 8 5 true acc 0 b bs (byte_fits b hb), e),
      rw (run-step 5 8 false accd 0 g gs (digit_fits (acc' / 8)), d, same),
    )
trip p3 acc accd [] h =
    let g = acc * 4 % 32 in
    let accd₁ = shift_in 5 8 accd g in
    let byte : accd₁ / 4 % 256 ≡ accd % 32 * 8 + acc % 8 = omega arith in
    (g ∷ [], refl, rw (digit_fits (acc * 4), no_rest (accd₁ * 64) (omega arith), byte))
trip p3 acc accd (b ∷ bs) (hb, h) =
    let acc' = shift_in 8 5 acc b in
    let g₁ = acc' / 64 % 32 in
    let g₂ = acc' / 2 % 32 in
    let accd₁ = shift_in 5 8 accd g₁ in
    let accd₂ = shift_in 5 8 accd₁ g₂ in
    let (gs, e, d) = trip p1 acc' accd₂ bs h in
    let byte : accd₁ / 4 % 256 ≡ accd % 32 * 8 + acc % 8 = omega arith in
    let same : accd₂ % 128 * 2 + acc' % 2 ≡ b = omega arith in
    (
      g₁ ∷ g₂ ∷ gs,
      rw (run-step 8 5 true acc 3 b bs (byte_fits b hb), e),
      rw (
        run-step 5 8 false accd 5 g₁ (g₂ ∷ gs) (digit_fits (acc' / 64)),
        run-step 5 8 false accd₁ 2 g₂ gs (digit_fits (acc' / 2)),
        d,
        byte,
        same,
      ),
    )
trip p1 acc accd [] h =
    let g = acc * 16 % 32 in
    let accd₁ = shift_in 5 8 accd g in
    let byte : accd₁ / 16 % 256 ≡ accd % 128 * 2 + acc % 2 = omega arith in
    (g ∷ [], refl, rw (digit_fits (acc * 16), no_rest (accd₁ * 16) (omega arith), byte))
trip p1 acc accd (b ∷ bs) (hb, h) =
    let acc' = shift_in 8 5 acc b in
    let g = acc' / 16 % 32 in
    let accd₁ = shift_in 5 8 accd g in
    let (gs, e, d) = trip p4 acc' accd₁ bs h in
    let byte : accd₁ / 16 % 256 ≡ accd % 128 * 2 + acc % 2 = omega arith in
    let same : accd₁ % 16 * 16 + acc' % 16 ≡ b = omega arith in
    (
      g ∷ gs,
      rw (run-step 8 5 true acc 1 b bs (byte_fits b hb), e),
      rw (run-step 5 8 false accd 7 g gs (digit_fits (acc' / 16)), d, byte, same),
    )
trip p4 acc accd [] h =
    let g = acc * 2 % 32 in
    let accd₁ = shift_in 5 8 accd g in
    let byte : accd₁ / 2 % 256 ≡ accd % 16 * 16 + acc % 16 = omega arith in
    (g ∷ [], refl, rw (digit_fits (acc * 2), no_rest (accd₁ * 128) (omega arith), byte))
trip p4 acc accd (b ∷ bs) (hb, h) =
    let acc' = shift_in 8 5 acc b in
    let g₁ = acc' / 128 % 32 in
    let g₂ = acc' / 4 % 32 in
    let accd₁ = shift_in 5 8 accd g₁ in
    let accd₂ = shift_in 5 8 accd₁ g₂ in
    let (gs, e, d) = trip p2 acc' accd₂ bs h in
    let byte : accd₁ / 2 % 256 ≡ accd % 16 * 16 + acc % 16 = omega arith in
    let same : accd₂ % 64 * 4 + acc' % 4 ≡ b = omega arith in
    (
      g₁ ∷ g₂ ∷ gs,
      rw (run-step 8 5 true acc 4 b bs (byte_fits b hb), e),
      rw (
        run-step 5 8 false accd 4 g₁ (g₂ ∷ gs) (digit_fits (acc' / 128)),
        run-step 5 8 false accd₁ 1 g₂ gs (digit_fits (acc' / 4)),
        d,
        byte,
        same,
      ),
    )
trip p2 acc accd [] h =
    let g = acc * 8 % 32 in
    let accd₁ = shift_in 5 8 accd g in
    let byte : accd₁ / 8 % 256 ≡ accd % 64 * 4 + acc % 4 = omega arith in
    (g ∷ [], refl, rw (digit_fits (acc * 8), no_rest (accd₁ * 32) (omega arith), byte))
trip p2 acc accd (b ∷ bs) (hb, h) =
    let acc' = shift_in 8 5 acc b in
    let g₁ = acc' / 32 % 32 in
    let g₂ = acc' / 1 % 32 in
    let accd₁ = shift_in 5 8 accd g₁ in
    let accd₂ = shift_in 5 8 accd₁ g₂ in
    let (gs, e, d) = trip p0 acc' accd₂ bs h in
    let byte : accd₁ / 8 % 256 ≡ accd % 64 * 4 + acc % 4 = omega arith in
    let same : accd₂ / 1 % 256 ≡ b = omega arith in
    (
      g₁ ∷ g₂ ∷ gs,
      rw (run-step 8 5 true acc 2 b bs (byte_fits b hb), e),
      rw (
        run-step 5 8 false accd 6 g₁ (g₂ ∷ gs) (digit_fits (acc' / 32)),
        run-step 5 8 false accd₁ 3 g₂ gs (digit_fits (acc' / 1)),
        d,
        byte,
        same,
      ),
    )

-- Bytes that are cut into groups of 5 bits, with padding, and put together again, without it, are
-- the same bytes: neither direction fails.
pub convert_bits_twice :
    (bytes : List ℕ)
    → All IsByte bytes
    → (groups : List ℕ) × (convert_bits bytes 8 5 true ≡ ok groups)
      × (convert_bits groups 5 8 false ≡ ok bytes)
unfolding convert_bits
convert_bits_twice bytes h = trip p0 0 0 bytes h
