-- ===== src/PublicClient/Domain/Label.antt =====
-- `valid_label`, the test of one part of a name in `valid_dns_name` of src/public_client.rs.
use rl_rust_client.Common.{
  ℕ, ◌≤◌, ◌<◌, ◌≡◌, ◌≢◌, ◌↔◌, refl, ap, ◌∙◌, arith, List, [], ◌∷◌, ◌++◌, length, All, all, Bool,
  true, false, not, and_true, leb, ◌==◌, ==_refl, ==_iff, leb→le, le→leb, ◌⊎◌,
}
use rl_rust_client.PublicClient.Domain.{starts_with, ends_with, is_label_byte, valid_label}

-- A letter, a digit or a hyphen.
abbrev pub IsLabelByte : ℕ → Type 0
IsLabelByte b =
    ((b'0' ≤ b) × (b ≤ b'9'))
    ⊎ (((b'A' ≤ b) × (b ≤ b'Z')) ⊎ (((b'a' ≤ b) × (b ≤ b'z')) ⊎ (b ≡ b'-')))

-- A label of a host name: up to 63 letters, digits and hyphens, with no hyphen at either end.
pub record IsLabel (label : List ℕ) : Type 0 where
  pub some_bytes : 0 < length label
  pub few_bytes : length label ≤ 63
  pub label_bytes : All IsLabelByte label
  pub no_leading : (rest : List ℕ) → label ≢ b'-' ∷ rest
  pub no_trailing : (front : List ℕ) → label ≢ front ++ (b'-' ∷ [])

-- Tests and what they test.
iff_all :
    (p : ℕ → Bool) (P : ℕ → Type 0) (xs : List ℕ)
    → ((x : ℕ) → (p x ≡ true) ↔ P x)
    → (all p xs ≡ true) ↔ All P xs
iff_all p P [] h = (λ _. tt, λ _. refl)
iff_all p P (x ∷ xs) h = (
  λ e. let (here, rest) = and_true (p x) (all p xs) e in ((h x).0 here, (iff_all p P xs h).0 rest),
  λ (hx, hs). rw ((h x).1 hx, (iff_all p P xs h).1 hs) refl,
)

is_label_byte_iff : (b : ℕ) → (is_label_byte b ≡ true) ↔ IsLabelByte b
is_label_byte_iff b = ground arith

pub starts_with-cons : (c : ℕ) (xs : List ℕ) → starts_with c (c ∷ xs) ≡ true
starts_with-cons c xs = ==_refl c

starts_with_tail :
    (c : ℕ) (xs : List ℕ) → starts_with c xs ≡ true → (rest : List ℕ) × (xs ≡ c ∷ rest)
starts_with_tail c [] h = absurd (cc)
starts_with_tail c (x ∷ xs) h = (xs, ap (λ y. y ∷ xs) ((==_iff x c).0 h))

-- The end of a text is that of what it ends with.
pub ends_with-append :
    (c y : ℕ) (xs ys : List ℕ) → ends_with c (xs ++ (y ∷ ys)) ≡ ends_with c (y ∷ ys)
ends_with-append c y [] ys = refl
ends_with-append c y (x ∷ []) ys = refl
ends_with-append c y (x ∷ (z ∷ xs)) ys = ends_with-append c y (z ∷ xs) ys

ends_with_front :
    (c : ℕ) (xs : List ℕ) → ends_with c xs ≡ true → (front : List ℕ) × (xs ≡ front ++ (c ∷ []))
ends_with_front c [] h = absurd (cc)
ends_with_front c (x ∷ []) h = ([], ap (λ y. y ∷ []) ((==_iff x c).0 h))
ends_with_front c (x ∷ (y ∷ ys)) h =
    let (front, e) = ends_with_front c (y ∷ ys) h in (x ∷ front, ap (λ l. x ∷ l) e)

from_not : (b : Bool) → not b ≡ true → b ≡ false
from_not true h = absurd (cc)
from_not false h = refl

to_not : (b : Bool) → ¬ (b ≡ true) → not b ≡ true
to_not true h = absurd (h refl)
to_not false h = refl

no_clash : (b : Bool) → b ≡ false → ¬ (b ≡ true)
no_clash b h k = absurd (cc)

pub valid_label-IsLabel : (label : List ℕ) → valid_label label ≡ true → IsLabel label
unfolding valid_label
valid_label-IsLabel label h =
    let (some_bytes, h1) = and_true (not (length label == 0)) _ h in
    let (few, h2) = and_true (leb (length label) 63) _ h1 in
    let (front, h3) = and_true (not (starts_with b'-' label)) _ h2 in
    let (back, good) = and_true (not (ends_with b'-' label)) _ h3 in
    record {
      some_bytes = ground arith;
      few_bytes = leb→le (length label) 63 few;
      label_bytes = (iff_all is_label_byte IsLabelByte label is_label_byte_iff).0 good;
      no_leading = λ rest e.
          no_clash (starts_with b'-' label) (from_not _ front)
            (ap (starts_with b'-') e ∙ starts_with-cons b'-' rest);
      no_trailing = λ pre e.
          no_clash (ends_with b'-' label) (from_not _ back)
            (ap (ends_with b'-') e ∙ ends_with-append b'-' b'-' pre []);
    }

pub valid_label_lem : (label : List ℕ) → IsLabel label → valid_label label ≡ true
unfolding valid_label
valid_label_lem label v =
    let some_bytes : (length label == 0) ≡ false = (let pos = v.some_bytes in ground arith) in
    rw
      (
        some_bytes,
        le→leb (length label) 63 v.few_bytes,
        to_not (starts_with b'-' label)
            (λ e. let (rest, same) = starts_with_tail b'-' label e in v.no_leading rest same),
        to_not (ends_with b'-' label)
            (λ e. let (pre, same) = ends_with_front b'-' label e in v.no_trailing pre same),
      )
      ((iff_all is_label_byte IsLabelByte label is_label_byte_iff).1 v.label_bytes)
