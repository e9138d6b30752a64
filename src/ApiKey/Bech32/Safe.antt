-- ===== src/ApiKey/Bech32/Safe.antt =====
-- `bech32_decode` of src/api_key_codec.rs at any text.
use rl_rust_client.Common.{
  ℕ, suc, ◌+◌, ◌-◌, ◌≤◌, ◌<◌, ◌≡◌, refl, ap, arith, List, [], ◌∷◌, map, length, all, All, Bool,
  true, false, not, ◌&&◌, ltb, ◌==◌, if◌then◌else◌, ltb-false→le, Option, none, some, ok, bail,
  ◌>>=◌, ◌>>◌, Option-cases, inl, inr, Ensures, ensures_ok, ensures_err, Ensures-bind, Ensures-bail,
  Ensures-map,
}
use rl_rust_client.Common.Bytes.{IsByte, slice, Ensures-slice}
use rl_rust_client.ApiKey.Bech32.{
  Text, checksum_failed, is_printable, is_ascii_lowercase, is_ascii_uppercase, to_ascii_lowercase,
  any, rfind, values_of, char_to_value, convert_bits, verify_checksum, bech32_decode,
}
use rl_rust_client.ApiKey.Bech32.Digits.{convert_bits-AreBelow}

found_bound :
    (xs : Text) (b : Bool) (o : Option ℕ)
    → ((j : ℕ) → o ≡ some j → j < length xs)
    → (i : ℕ) → elim o [ some j ↦ some (suc j) | none ↦ if b then some 0 else none ] ≡ some i
    → i < suc (length xs)
found_bound xs b (some j) k i h = let below = k j refl in grind arith
found_bound xs true none k i h = grind arith
found_bound xs false none k i h = absurd (cc)

rfind_bound : (c : ℕ) (xs : Text) (i : ℕ) → rfind c xs ≡ some i → i < length xs
rfind_bound c [] i h = absurd (cc)
rfind_bound c (x ∷ xs) i h = found_bound xs (x == c) (rfind c xs) (rfind_bound c xs) i h

length-values_of : (cs : Text) → Ensures (λ vs. length vs ≡ length cs) (values_of cs)
length-values_of [] = ensures_ok refl
length-values_of (c ∷ cs) = elim (Option-cases (char_to_value c)) [
  | inl e ↦ rw e ensures_err
  | inr (v, e) ↦ rw e (
      Ensures-bind (values_of cs) _
        (Ensures-map (λ vs len. ensures_ok (ap suc len)) (length-values_of cs)))
]

abbrev pub HasBytes : Text × List ℕ → Type 0
HasBytes r = All IsByte r.1

-- The payload is read where six values are there, those of the checksum.
decoded_values :
    (hrp : Text) (values : List ℕ)
    → 6 ≤ length values
    → Ensures HasBytes (do
      bail (not (verify_checksum hrp values)) checksum_failed
      payload5 ← slice values 0 (length values - 6)
      payload ← convert_bits payload5 5 8 false
      ok (hrp, payload))
decoded_values hrp values six = Ensures-bail (not (verify_checksum hrp values)) _ _ λ e.
    Ensures-slice values 0 (length values - 6) _ (omega arith) (omega arith) λ payload5 len.
      Ensures-bind (convert_bits payload5 5 8 false) _
        (Ensures-map (λ payload bytes. ensures_ok bytes) (convert_bits-AreBelow payload5 5 8 false))

-- The decoder takes slices in bounds, and the payload is bytes.
pub bech32_decode-AreBytes : (addr : Text) → Ensures HasBytes (bech32_decode addr)
unfolding bech32_decode
bech32_decode-AreBytes addr =
    let s = map to_ascii_lowercase addr in
    Ensures-bail (length addr == 0) _ _ λ e1. Ensures-bail (not (all is_printable addr)) _ _ λ e2.
      Ensures-bail (any is_ascii_lowercase addr && any is_ascii_uppercase addr) _ _ λ e3.
        elim (Option-cases (rfind b'1' s)) [
          | inl e ↦ rw e ensures_err
          | inr (pos, e) ↦
              let inside = rfind_bound b'1' s pos e in
              rw e (
                Ensures-bail (ltb pos 1) _ _ λ e4.
                  Ensures-bail (ltb (length s - pos - 1) 6) _ _ λ e5.
                    let six = ltb-false→le (length s - pos - 1) 6 e5 in
                    Ensures-slice s 0 pos _ (omega arith) (omega arith) λ hrp hrp_len.
                      Ensures-slice s (pos + 1) (length s) _ (omega arith) (omega arith)
                        λ rest rest_len. Ensures-bind (values_of rest) _ (
                          Ensures-map (λ values len. decoded_values hrp values (omega arith))
                            (length-values_of rest)))
        ]
