-- ===== src/PublicClient/Domain.antt =====
-- `valid_dns_name` in src/public_client.rs, and the service domains that the builder takes. A name is
-- its bytes.
pub mod Label
pub mod Labels
pub mod Split
use rl_rust_client.Common.{
  ℕ, zero, suc, ◌+◌, ◌-◌, ◌*◌, ◌/◌, ◌%◌, ◌^◌, List, [], ◌∷◌, ◌++◌, length, all, Bool, true, false,
  not, ◌&&◌, ◌||◌, ltb, leb, ◌==◌, if◌then◌else◌,
}

-- `starts_with` and `ends_with` at one character.
abbrev pub starts_with : ℕ → List ℕ → Bool
starts_with c [] = false
starts_with c (x ∷ xs) = x == c

abbrev pub ends_with : ℕ → List ℕ → Bool
ends_with c [] = false
ends_with c (x ∷ []) = x == c
ends_with c (x ∷ (y ∷ ys)) = ends_with c (y ∷ ys)

-- `split(c)`: the parts between the separators.
abbrev pub in_front : ℕ → List (List ℕ) → List (List ℕ)
in_front x [] = (x ∷ []) ∷ []
in_front x (part ∷ parts) = (x ∷ part) ∷ parts

unfoldable pub split : ℕ → List ℕ → List (List ℕ)
split c [] = [] ∷ []
split c (x ∷ xs) = let rest = split c xs in if x == c then [] ∷ rest else in_front x rest

abbrev pub is_ascii_alphanumeric : ℕ → Bool
is_ascii_alphanumeric b =
    leb b'0' b && leb b b'9' || (leb b'A' b && leb b b'Z' || leb b'a' b && leb b b'z')

abbrev pub is_label_byte : ℕ → Bool
is_label_byte b = is_ascii_alphanumeric b || b == b'-'

-- The test on the parts of the name.
unfoldable pub valid_label : List ℕ → Bool
valid_label label =
    not (length label == 0)
    && (leb (length label) 63
        && (not (starts_with b'-' label)
            && (not (ends_with b'-' label) && all is_label_byte label)))

unfoldable pub valid_dns_name : List ℕ → Bool
valid_dns_name domain =
    if length domain == 0
      || (ltb 253 (length domain) || (starts_with b'.' domain || ends_with b'.' domain))
    then false
    else all valid_label (split b'.' domain)
