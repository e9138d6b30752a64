-- ===== src/Common/Bytes/Layout.antt =====
-- Fields of fixed widths that are written one behind the other, and read back.
use Prim.Native.Nat.{ℕ, ◌+◌, ◌/◌, ◌%◌, ◌≤◌}
use mathlib.Core.Path.{◌≡◌, refl, ap, ◌∙◌}
use mathlib.Core.List.{List, [], ◌∷◌, ◌++◌, append_assoc}
use native.Mathlib.Omega.{arith}
use native.Mathlib.Numerals.{add-one}
use rl_rust_client.Common.Lists.{length, drop, length-drop, length-append, drop-drop}
use rl_rust_client.Common.Bytes.Endian.{
  to_le_bytes, IsUint, length-to_le_bytes, from_le_bytes-to_le_bytes,
}
use rl_rust_client.Common.Results.{Result, ok, ◌>>=◌}
use rl_rust_client.Common.Bytes.Copy.{
  index, copy_range, store, array_at, uint_at, u16_at, copy_range-next, slice-append, to_array_lem,
  index_lem, index_next,
}

-- Fields of known widths, written one behind the other from position `a` on.
abbrev pub Fields : Type 0
Fields = List (ℕ × List ℕ)

abbrev pub HaveWidths : Fields → Type 0
HaveWidths [] = Unit
HaveWidths ((n, src) ∷ fields) = (length src ≡ n) × HaveWidths fields

abbrev pub width : Fields → ℕ
width [] = 0
width ((n, src) ∷ fields) = n + width fields

abbrev pub contents : Fields → List ℕ → List ℕ
contents [] rest = rest
contents ((n, src) ∷ fields) rest = src ++ contents fields rest

module _ {E : Type 0} where
  abbrev pub write_fields : ℕ → Fields → List ℕ → Result E (List ℕ)
  write_fields a [] buf = ok buf
  write_fields a ((n, src) ∷ fields) buf = do
    buf' ← copy_range buf a (a + n) src
    write_fields (a + n) fields buf'

module _ {E : Type 0} where
  pub store-copy_range :
      (buf : List ℕ) (i x : ℕ)
      → ◌≡◌ {A = Result E (List ℕ)} (store buf i x) (copy_range buf i (i + 1) (x ∷ []))
  unfolding store copy_range
  store-copy_range buf i x = rw add-one (ground arith)

  write_fields_from :
      (fields : Fields) (a : ℕ) (done rest : List ℕ)
      → length done ≡ a
      → HaveWidths fields
      → width fields ≤ length rest
      → write_fields {E = E} a fields (done ++ rest)
        ≡ ok (done ++ contents fields (drop (width fields) rest))
  write_fields_from [] a done rest h w k = refl
  write_fields_from ((n, src) ∷ fields) a done rest h (hn, w) k =
      ap (λ m. m >>= write_fields (a + n) fields)
        (copy_range-next done src rest a (a + n) h (omega arith) (omega arith))
      ∙ write_fields_from fields (a + n) (done ++ src) (drop (length src) rest)
          (omega (arith, length-append {0} done src)) w
          (omega (arith, length-drop (length src) rest))
      ∙ rw (hn, drop-drop (width fields) n rest, append_assoc)

  pub write_fields_lem :
      (fields : Fields) (buf : List ℕ)
      → HaveWidths fields
      → width fields ≤ length buf
      → write_fields {E = E} 0 fields buf ≡ ok (contents fields (drop (width fields) buf))
  write_fields_lem fields buf w k = write_fields_from fields 0 [] buf refl w k

pub contents-append :
    (fields : Fields) (rest : List ℕ) → contents fields [] ++ rest ≡ contents fields rest
contents-append [] rest = refl
contents-append ((n, src) ∷ fields) rest =
    append_assoc src (contents fields []) rest ∙ ap (λ l. src ++ l) (contents-append fields rest)

pub length-contents :
    (fields : Fields) (rest : List ℕ)
    → HaveWidths fields
    → length (contents fields rest) ≡ width fields + length rest
length-contents [] rest h = omega arith
length-contents ((n, src) ∷ fields) rest (hn, h) =
    omega (arith, length-append {0} src (contents fields rest), length-contents fields rest h)

length-before : (before : Fields) → HaveWidths before → length (contents before []) ≡ width before
length-before before widths = omega (arith, length-contents before [] widths)

-- Reading a field back, behind the fields before it.
module _ {E : Type 0} (before : Fields) (widths : HaveWidths before) where
  pub array_at-contents :
      (n : ℕ) (src tail : List ℕ)
      → length src ≡ n
      → array_at {E = E} n (contents before (src ++ tail)) (width before) (width before + n)
        ≡ ok src
  unfolding array_at
  array_at-contents n src tail h =
      rw
        (
          ← contents-append before (src ++ tail),
          slice-append {E = E} (contents before []) src tail (width before) (width before + n)
              (length-before before widths) (omega arith),
        )
        (to_array_lem n src h)

  pub uint_at-contents :
      (n x : ℕ) (tail : List ℕ)
      → IsUint n x
      → uint_at {E = E} n
          (contents before (to_le_bytes n x ++ tail))
          (width before)
          (width before + n)
        ≡ ok x
  unfolding uint_at
  uint_at-contents n x tail h =
      rw (array_at-contents n (to_le_bytes n x) tail (length-to_le_bytes n x))
        (ap ok (from_le_bytes-to_le_bytes n x h))

  pub index-contents :
      (x : ℕ) (tail : List ℕ) → index {E = E} (contents before (x ∷ tail)) (width before) ≡ ok x
  index-contents x tail =
      rw (← contents-append before (x ∷ tail), ← length-before before widths)
        (index_lem (contents before []) x tail)

  index-contents_next :
      (x y : ℕ) (tail : List ℕ)
      → index {E = E} (contents before (x ∷ (y ∷ tail))) (width before + 1) ≡ ok y
  index-contents_next x y tail =
      rw (← contents-append before (x ∷ (y ∷ tail)), ← length-before before widths)
        (index_next (contents before []) x y tail)

  pub u16_at-contents :
      (x : ℕ) (tail : List ℕ)
      → IsUint 2 x
      → u16_at {E = E} (contents before (to_le_bytes 2 x ++ tail)) (width before) (width before + 1)
        ≡ ok x
  unfolding u16_at
  u16_at-contents x tail h =
      rw
        (
          index-contents (x % 256) (x / 256 % 256 ∷ tail),
          index-contents_next (x % 256) (x / 256 % 256) tail,
        )
        (ap ok (from_le_bytes-to_le_bytes 2 x h))
