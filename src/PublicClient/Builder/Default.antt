-- ===== src/PublicClient/Builder/Default.antt =====
-- The service domains that the builder of src/public_client.rs holds.
use rl_rust_client.Common.{
  ℕ, ◌≤◌, ◌<◌, ◌≡◌, refl, sym, ap, ◌∙◌, arith, [], ◌∷◌, ◌++◌, length, length-append, true, false,
}
use rl_rust_client.ApiKey.Bech32.{Text}
use rl_rust_client.PublicClient.Domain.{ends_with, valid_label, valid_dns_name}
use rl_rust_client.PublicClient.Domain.Label.{IsLabel, valid_label-IsLabel, ends_with-append}
use rl_rust_client.PublicClient.Domain.Labels.{valid_dns_name_iff}
use rl_rust_client.PublicClient.Builder.{display_u64, default_domain}
use rl_rust_client.PublicClient.Builder.Decimal.{
  length-decimal_digits, length-decimal_digits_positive, display_u64-labels, ends_with-display_u64,
}

abbrev second_label : Text
second_label = b'p' ∷ b'0' ∷ []

abbrev third_label : Text
third_label = b'r' ∷ b'a' ∷ b't' ∷ b'e' ∷ b'l' ∷ b'i' ∷ b'm' ∷ b'i' ∷ b't' ∷ b'l' ∷ b'y' ∷ []

abbrev last_label : Text
last_label = b'c' ∷ b'o' ∷ b'm' ∷ []

second-IsLabel : IsLabel second_label
unfolding valid_label
second-IsLabel = valid_label-IsLabel second_label refl

third-IsLabel : IsLabel third_label
unfolding valid_label
third-IsLabel = valid_label-IsLabel third_label refl

last-IsLabel : IsLabel last_label
unfolding valid_label
last-IsLabel = valid_label-IsLabel last_label refl

abbrev key_label : ℕ → Text
key_label key_id = b'c' ∷ b'-' ∷ display_u64 key_id

display_u64_bounds : (n : ℕ) → (0 < length (display_u64 n)) × (length (display_u64 n) ≤ 20)
unfolding display_u64
display_u64_bounds n = (length-decimal_digits_positive 19 n, length-decimal_digits 20 n)

-- Behind a text with some bytes, the end is that of the text.
ends_behind : (xs ys : Text) → 0 < length ys → ends_with b'-' (xs ++ ys) ≡ ends_with b'-' ys
ends_behind xs [] h = absurd (omega arith)
ends_behind xs (y ∷ ys) h = ends_with-append b'-' y xs ys

key-IsLabel : (key_id : ℕ) → IsLabel (key_label key_id)
key-IsLabel key_id =
    let (some_digits, few) = display_u64_bounds key_id in
    record {
      some_bytes = omega arith;
      few_bytes = omega arith;
      label_bytes = (ground arith, (ground arith, display_u64-labels key_id));
      no_leading = λ rest e. absurd (cc);
      no_trailing = λ front e. clash (
          sym (
            ends_behind (b'c' ∷ b'-' ∷ []) (display_u64 key_id) some_digits
            ∙ ends_with-display_u64 key_id)
          ∙ ap (ends_with b'-') e
          ∙ ends_with-append b'-' b'-' front []);
    }
  where
    clash : false ≡ true → ⊥
    clash e = absurd (cc)

pub valid_dns_name-default : (key_id : ℕ) → valid_dns_name (default_domain key_id) ≡ true
unfolding default_domain
valid_dns_name-default key_id =
    let (some_digits, few) = display_u64_bounds key_id in
    (valid_dns_name_iff (default_domain key_id)).1 (
      key_label key_id ∷ (second_label ∷ (third_label ∷ (last_label ∷ []))),
      omega arith,
      (key-IsLabel key_id, (second-IsLabel, (third-IsLabel, (last-IsLabel, tt)))),
      refl,
      omega (arith, length-append (key_label key_id) _),
    )
