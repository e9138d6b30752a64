-- ===== src/Common/Bytes/Copy.antt =====
-- Slices, indexing and `copy_from_slice`. Each panics out of bounds, as Rust does.
use Prim.Native.Nat.{ℕ, zero, suc, ◌+◌, ◌-◌, ◌≤◌, ◌<◌}
use mathlib.Core.Path.{◌≡◌, refl, ap, ◌∙◌}
use mathlib.Core.Bool.{◌&&◌}
use mathlib.Core.Option.{none, some}
use mathlib.Core.List.{List, [], ◌∷◌, ◌++◌, append_assoc}
use native.Mathlib.Omega.{arith}
use rl_rust_client.Common.Tests.{leb, ltb, ◌==◌, le→leb, ==_iff, ==_refl, if◌then◌else◌}
use rl_rust_client.Common.Lists.{
  length, take, drop, get_elem?, length-take, length-drop, length-append, take-append, drop-append,
  drop-drop,
}
use rl_rust_client.Common.Bytes.Endian.{from_le_bytes}
use rl_rust_client.Common.Results.{
  Result, ok, panic, ◌>>=◌, Ensures, Returns, ensures_ok, Ensures-bind,
}

pub length-slice :
    (xs : List ℕ) (a b : ℕ) → b ≤ length xs → length (take (b - a) (drop a xs)) ≡ b - a
length-slice xs a b h = omega (arith, length-take (b - a) (drop a xs), length-drop a xs)

pub take-drop-take :
    (k : ℕ) (xs : List ℕ) (a n : ℕ) → a + n ≤ k → take n (drop a (take k xs)) ≡ take n (drop a xs)
take-drop-take zero xs a zero h = refl
take-drop-take zero xs a (suc n) h = absurd (omega arith)
take-drop-take (suc k) [] a n h = refl
take-drop-take (suc k) (x ∷ xs) zero zero h = refl
take-drop-take (suc k) (x ∷ xs) zero (suc n) h =
    ap (λ l. x ∷ l) (take-drop-take k xs zero n (omega arith))
take-drop-take (suc k) (x ∷ xs) (suc a) n h = take-drop-take k xs a n (omega arith)

copied :
    (done src rest : List ℕ) (a b : ℕ)
    → length done ≡ a
    → a + length src ≡ b
    → take a (done ++ rest) ++ (src ++ drop b (done ++ rest))
      ≡ (done ++ src) ++ drop (length src) rest
copied done src rest a b ha hb = rw (
  take-append a done rest ha,
  ← hb,
  ← drop-drop (length src) a (done ++ rest),
  drop-append a done rest ha,
  append_assoc,
)

module _ {E : Type 0} where
  -- `xs[i]`
  unfoldable pub index : List ℕ → ℕ → Result E ℕ
  index xs i = elim (get_elem? xs i) [ none ↦ panic | some x ↦ ok x ]

  -- `&xs[a..b]`
  unfoldable pub slice : List ℕ → ℕ → ℕ → Result E (List ℕ)
  slice xs a b = if leb a b && leb b (length xs) then ok (take (b - a) (drop a xs)) else panic

  -- `&xs[a..]`
  unfoldable pub slice_from : List ℕ → ℕ → Result E (List ℕ)
  slice_from xs a = if leb a (length xs) then ok (drop a xs) else panic

  -- `xs.try_into().unwrap()` at an array of `n` bytes.
  unfoldable pub to_array : ℕ → List ℕ → Result E (List ℕ)
  to_array n xs = if length xs == n then ok xs else panic

  -- `buf[a..b].copy_from_slice(src)`, with the buffer that results.
  unfoldable pub copy_range : List ℕ → ℕ → ℕ → List ℕ → Result E (List ℕ)
  copy_range buf a b src =
      if leb a b && leb b (length buf) && length src == b - a
      then ok (take a buf ++ (src ++ drop b buf))
      else panic

  pub slice_lem :
      (xs : List ℕ) (a b : ℕ) → a ≤ b → b ≤ length xs → slice xs a b ≡ ok (take (b - a) (drop a xs))
  unfolding slice
  slice_lem xs a b h k = rw (le→leb a b h, le→leb b (length xs) k)

  pub slice_from_lem : (xs : List ℕ) (a : ℕ) → a ≤ length xs → slice_from xs a ≡ ok (drop a xs)
  unfolding slice_from
  slice_from_lem xs a h = rw (le→leb a (length xs) h)

  pub to_array_lem : (n : ℕ) (xs : List ℕ) → length xs ≡ n → to_array n xs ≡ ok xs
  unfolding to_array
  to_array_lem n xs h = rw h (rw (==_refl n))

  -- A slice of a string that is cut there: `pre`, the slice, `post`.
  pub slice-append :
      (pre mid post : List ℕ) (a b : ℕ)
      → length pre ≡ a
      → a + length mid ≡ b
      → slice (pre ++ (mid ++ post)) a b ≡ ok mid
  slice-append pre mid post a b ha hb =
      slice_lem _ a b (omega arith)
        (omega (arith, length-append {0} pre (mid ++ post), length-append {0} mid post))
      ∙ rw (drop-append a pre (mid ++ post) ha) (ap ok (take-append (b - a) mid post (omega arith)))

  -- `index` finds the next byte after a prefix.
  pub index_lem :
      (pre : List ℕ) (x : ℕ) (post : List ℕ) → index (pre ++ (x ∷ post)) (length pre) ≡ ok x
  unfolding index
  index_lem [] x post = refl
  index_lem (p ∷ pre) x post = index_lem pre x post

  pub index_next :
      (pre : List ℕ) (x y : ℕ) (post : List ℕ)
      → index (pre ++ (x ∷ (y ∷ post))) (length pre + 1) ≡ ok y
  unfolding index
  index_next [] x y post = refl
  index_next (p ∷ pre) x y post =
      ap (λ i. index (p ∷ (pre ++ (x ∷ (y ∷ post)))) i) {x = suc (length pre) + 1}
        {y = suc (length pre + 1)} (omega arith)
      ∙ index_next pre x y post

  -- In bounds nothing panics: the rules for code that reads on.
  pub Ensures-index :
      {B : Type 0} {P : B → Type 0} (xs : List ℕ) (i : ℕ) (f : ℕ → Result E B)
      → i < length xs
      → ((x : ℕ) → Ensures P (f x))
      → Ensures P (index xs i >>= f)
  unfolding index
  Ensures-index [] i f h k = absurd (omega arith)
  Ensures-index (x ∷ xs) zero f h k = k x
  Ensures-index (x ∷ xs) (suc i) f h k = Ensures-index xs i f (omega arith) k

  pub Ensures-slice :
      {B : Type 0} {P : B → Type 0} (xs : List ℕ) (a b : ℕ) (f : List ℕ → Result E B)
      → a ≤ b
      → b ≤ length xs
      → ((ys : List ℕ) → length ys ≡ b - a → Ensures P (f ys))
      → Ensures P (slice xs a b >>= f)
  Ensures-slice xs a b f h k g = rw (slice_lem xs a b h k) (g _ (length-slice xs a b k))

  pub Ensures-slice_from :
      {B : Type 0} {P : B → Type 0} (xs : List ℕ) (a : ℕ) (f : List ℕ → Result E B)
      → a ≤ length xs
      → ((ys : List ℕ) → length ys ≡ length xs - a → Ensures P (f ys))
      → Ensures P (slice_from xs a >>= f)
  Ensures-slice_from xs a f h g = rw (slice_from_lem xs a h) (g _ (length-drop a xs))

  pub Ensures-to_array :
      {B : Type 0} {P : B → Type 0} (n : ℕ) (xs : List ℕ) (f : List ℕ → Result E B)
      → length xs ≡ n
      → Ensures P (f xs)
      → Ensures P (to_array n xs >>= f)
  Ensures-to_array n xs f h g = rw (to_array_lem n xs h) g

  pub Returns-slice_from : (xs : List ℕ) (a : ℕ) → a ≤ length xs → Returns (slice_from xs a)
  Returns-slice_from xs a h = rw (slice_from_lem xs a h) (ensures_ok tt)

  -- Writing the next bytes of a buffer that is written up to `done`.
  pub copy_range-next :
      (done src rest : List ℕ) (a b : ℕ)
      → length done ≡ a
      → a + length src ≡ b
      → length src ≤ length rest
      → copy_range (done ++ rest) a b src ≡ ok ((done ++ src) ++ drop (length src) rest)
  unfolding copy_range
  copy_range-next done src rest a b ha hb h =
      rw
        (
          le→leb a b (omega arith),
          le→leb b (length (done ++ rest)) (omega (arith, length-append {0} done rest)),
          (==_iff (length src) (b - a)).1 (omega arith),
        )
        (ap ok (copied done src rest a b ha hb))

  -- `buf[i] = x`, with the buffer that results.
  unfoldable pub store : List ℕ → ℕ → ℕ → Result E (List ℕ)
  store buf i x = if ltb i (length buf) then ok (take i buf ++ (x ∷ drop (suc i) buf)) else panic

  -- `xs[a..b]` as an array of `n` bytes, and as an unsigned integer of that width.
  unfoldable pub array_at : ℕ → List ℕ → ℕ → ℕ → Result E (List ℕ)
  array_at n xs a b = do ys ← slice xs a b; to_array n ys

  unfoldable pub uint_at : ℕ → List ℕ → ℕ → ℕ → Result E ℕ
  uint_at n xs a b = do ys ← array_at n xs a b; ok (from_le_bytes ys)

  -- `u16::from_le_bytes([xs[i], xs[j]])`
  unfoldable pub u16_at : List ℕ → ℕ → ℕ → Result E ℕ
  u16_at xs i j = do low ← index xs i; high ← index xs j; ok (from_le_bytes (low ∷ high ∷ []))

  pub Ensures-u16 :
      {B : Type 0} {P : B → Type 0} (xs : List ℕ) (i j : ℕ) (f : ℕ → Result E B)
      → i < length xs
      → j < length xs
      → ((x : ℕ) → Ensures P (f x))
      → Ensures P (u16_at xs i j >>= f)
  unfolding u16_at
  Ensures-u16 xs i j f hi hj k =
      Ensures-bind (u16_at xs i j) f
        (Ensures-index xs i _ hi (λ low. Ensures-index xs j _ hj (λ high. ensures_ok (k _))))

  pub Ensures-array :
      {B : Type 0} {P : B → Type 0} (n : ℕ) (xs : List ℕ) (a b : ℕ) (f : List ℕ → Result E B)
      → a + n ≡ b
      → b ≤ length xs
      → ((ys : List ℕ) → Ensures P (f ys))
      → Ensures P (array_at n xs a b >>= f)
  unfolding array_at
  Ensures-array n xs a b f w h k = Ensures-bind (array_at n xs a b) f (
      Ensures-slice xs a b _ (omega arith) h
        (λ ys len. rw (to_array_lem n ys (omega arith)) (ensures_ok (k ys))))

  pub Ensures-uint :
      {B : Type 0} {P : B → Type 0} (n : ℕ) (xs : List ℕ) (a b : ℕ) (f : ℕ → Result E B)
      → a + n ≡ b
      → b ≤ length xs
      → ((x : ℕ) → Ensures P (f x))
      → Ensures P (uint_at n xs a b >>= f)
  unfolding uint_at
  Ensures-uint n xs a b f w h k =
      Ensures-bind (uint_at n xs a b) f (Ensures-array n xs a b _ w h (λ ys. ensures_ok (k _)))

  pub Returns-u16 :
      (xs : List ℕ) (i j : ℕ) → i < length xs → j < length xs → Returns (u16_at xs i j)
  unfolding u16_at
  Returns-u16 xs i j hi hj =
      Ensures-index xs i _ hi (λ low. Ensures-index xs j _ hj (λ high. ensures_ok tt))

  -- The values that are read in bounds.
  pub array_at_lem :
      (n : ℕ) (xs : List ℕ) (a b : ℕ)
      → a + n ≡ b
      → b ≤ length xs
      → array_at n xs a b ≡ ok (take n (drop a xs))
  unfolding array_at
  array_at_lem n xs a b w h =
      let wide : b - a ≡ n = omega arith in
      rw (slice_lem xs a b (omega arith) h, wide)
        (to_array_lem n _ (omega (arith, length-take n (drop a xs), length-drop a xs)))

  pub uint_at_lem :
      (n : ℕ) (xs : List ℕ) (a b : ℕ)
      → a + n ≡ b
      → b ≤ length xs
      → uint_at n xs a b ≡ ok (from_le_bytes (take n (drop a xs)))
  unfolding uint_at
  uint_at_lem n xs a b w h = rw (array_at_lem n xs a b w h)
