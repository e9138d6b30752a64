-- ===== src/ApiKey/Bech32/Digits.antt =====
-- The sizes of the numbers that `convert_bits` and `create_checksum` of src/api_key_codec.rs make.
use rl_rust_client.Common.{
  ℕ, zero, suc, ◌+◌, ◌-◌, ◌*◌, ◌/◌, ◌%◌, ◌^◌, ◌<◌, ◌≡◌, refl, arith, List, [], ◌∷◌, length, All,
  Bool, true, false, not, ltb, leb, ◌==◌, Bool-cases, inl, inr, Ensures, ensures_ok, Ensures-bind,
  Ensures-bail, Ensures-map,
}
use rl_rust_client.ApiKey.Bech32.{
  Text, drain, shift_in, convert_from, finish_bits, convert_bits, create_checksum, checksum_digits,
}
use native.Mathlib.Nat.{one-le-pow}
use rl_rust_client.ApiKey.Bech32.Chars.{All-append}

-- The groups that `convert_bits` cuts have `to_bits` bits.
abbrev pub AreBelow : ℕ → List ℕ → Type 0
AreBelow n = All (λ v. v < n)

cut_small : (x n : ℕ) → x % 2 ^ n < 2 ^ n
cut_small x n = let some_pow = one-le-pow n 2 (omega arith) in omega arith

drain_small : (fuel to_bits acc bits : ℕ) → AreBelow (2 ^ to_bits) (drain fuel to_bits acc bits).0
drain_small zero to_bits acc bits = tt
drain_small (suc fuel) to_bits acc bits = elim (Bool-cases (leb to_bits bits)) [
  | inl e ↦ rw e (cut_small _ to_bits, drain_small fuel to_bits acc (bits - to_bits))
  | inr e ↦ rw e tt
]

convert_from_small :
    (from_bits to_bits acc bits : ℕ) (values : List ℕ)
    → Ensures (λ r. AreBelow (2 ^ to_bits) r.0) (convert_from from_bits to_bits acc bits values)
convert_from_small from_bits to_bits acc bits [] = ensures_ok tt
convert_from_small from_bits to_bits acc bits (v ∷ values) =
    Ensures-bail (not (v / 2 ^ from_bits == 0)) _ _ λ e.
      let acc' = shift_in from_bits to_bits acc v in
      let drained = drain (bits + from_bits) to_bits acc' (bits + from_bits) in
      Ensures-bind (convert_from from_bits to_bits acc' drained.1 values) _ (
        Ensures-map
          (λ r small. ensures_ok (
            All-append (λ x. x < 2 ^ to_bits) drained.0 r.0
              (drain_small (bits + from_bits) to_bits acc' (bits + from_bits)) small))
          (convert_from_small from_bits to_bits acc' drained.1 values))

finish_bits_small :
    (from_bits to_bits : ℕ) (pad : Bool) (out : List ℕ) (acc bits : ℕ)
    → AreBelow (2 ^ to_bits) out
    → Ensures (AreBelow (2 ^ to_bits)) (finish_bits from_bits to_bits pad out acc bits)
finish_bits_small from_bits to_bits true out acc bits small = elim (Bool-cases (ltb 0 bits)) [
  | inl e ↦
      rw e (ensures_ok (All-append (λ x. x < 2 ^ to_bits) out _ small (cut_small _ to_bits, tt)))
  | inr e ↦ rw e (ensures_ok small)
]
finish_bits_small from_bits to_bits false out acc bits small =
    Ensures-bail (leb from_bits bits) _ _ λ e.
      Ensures-bail (not (acc * 2 ^ (to_bits - bits) % 2 ^ to_bits == 0)) _ _ λ e'. ensures_ok small

pub convert_bits-AreBelow :
    (values : List ℕ) (from_bits to_bits : ℕ) (pad : Bool)
    → Ensures (AreBelow (2 ^ to_bits)) (convert_bits values from_bits to_bits pad)
unfolding convert_bits
convert_bits-AreBelow values from_bits to_bits pad =
    Ensures-bind (convert_from from_bits to_bits 0 0 values) _ (
      Ensures-map (λ r small. finish_bits_small from_bits to_bits pad r.0 r.1 r.2 small)
        (convert_from_small from_bits to_bits 0 0 values))

checksum_small : (pm : ℕ) → AreBelow 32 (checksum_digits pm)
checksum_small pm =
    (omega arith, (omega arith, (omega arith, (omega arith, (omega arith, (omega arith, tt))))))

pub create_checksum-AreBelow :
    (hrp : Text) (values : List ℕ) → AreBelow 32 (create_checksum hrp values)
unfolding create_checksum
create_checksum-AreBelow hrp values = checksum_small _

pub length-create_checksum :
    (hrp : Text) (values : List ℕ) → length (create_checksum hrp values) ≡ 6
unfolding create_checksum
length-create_checksum hrp values = refl
