-- ===== src/ApiKey/Bech32/Checksum.antt =====
-- The checksum of src/api_key_codec.rs: `polymod` is linear over exclusive or.
use rl_rust_client.Common.{
  ℕ, ◌+◌, ◌*◌, ◌/◌, ◌%◌, ◌^◌, ◌<◌, ◌≡◌, refl, sym, ap, ◌∙◌, arith, List, [], ◌∷◌, ◌++◌, map, All,
  true, ◌==◌, if◌then◌else◌, Bool-cases, inl, inr, ◌⊎◌,
}
use rl_rust_client.Common.Xor.{
  zero-xor, xor-zero, xor_assoc, xor_comm, xor_self, xor_cancel, xor_swap, xor_scale, xor_low,
  xor_half_pow, xor_odd,
}
use rl_rust_client.ApiKey.Bech32.{
  Text, hrp_expand, generators, add_generators, polymod_step, polymod_from, polymod,
  verify_checksum, checksum_digits, create_checksum,
}
use Prim.Native.Nat.{bit_xor, differ}
use mathlib.Core.List.{append_assoc}
use native.Mathlib.Nat.{zero-div}

-- What one generator does to the checksum.
abbrev select : ℕ → ℕ → ℕ → ℕ
select x g chk = if x == 0 then chk else bit_xor chk g

two : (x : ℕ) → (x % 2 ≡ 0) ⊎ (x % 2 ≡ 1)
two x = elim (Bool-cases (x % 2 == 0)) [ inl e ↦ inl (ground arith) | inr e ↦ inr (ground arith) ]

select-xor :
    (x y g c d : ℕ)
    → select (differ (x % 2) (y % 2)) g (bit_xor c d)
      ≡ bit_xor (select (x % 2) g c) (select (y % 2) g d)
select-xor x y g c d = elim (two x) [
  | inl p ↦ elim (two y) [ inl q ↦ rw (p, q) | inr q ↦ rw (p, q) (xor_assoc c d g) ]
  | inr p ↦ elim (two y) [
    | inl q ↦ rw (p, q) (xor_assoc c d g ∙ ap (bit_xor c) (xor_comm d g) ∙ sym (xor_assoc c g d))
    | inr q ↦
        rw (p, q)
          (sym (xor-zero (bit_xor c d))
            ∙ ap (bit_xor (bit_xor c d)) (sym (xor_self g))
            ∙ xor_swap c d g g)
  ]
]

add_generators-xor :
    (gs : List ℕ) (i a b c d : ℕ)
    → add_generators (bit_xor a b) i gs (bit_xor c d)
      ≡ bit_xor (add_generators a i gs c) (add_generators b i gs d)
unfolding add_generators
add_generators-xor [] i a b c d = refl
add_generators-xor (g ∷ gs) i a b c d =
    rw
      (
        xor_half_pow i a b,
        xor_odd (a / 2 ^ i) (b / 2 ^ i),
        select-xor (a / 2 ^ i) (b / 2 ^ i) g c d,
      )
      (add_generators-xor gs (i + 1) a b (select (a / 2 ^ i % 2) g c) (select (b / 2 ^ i % 2) g d))

xor_lt30 : (a b : ℕ) → a < 2 ^ 30 → b < 2 ^ 30 → bit_xor a b < 2 ^ 30
xor_lt30 a b h k =
    let a0 : a / 2 ^ 30 ≡ 0 = omega arith in
    let b0 : b / 2 ^ 30 ≡ 0 = omega arith in
    let half : bit_xor a b / 2 ^ 30 ≡ 0 = xor_half_pow 30 a b ∙ rw (a0, b0) refl in omega arith

xor_lt25 : (a b : ℕ) → a < 2 ^ 25 → b < 2 ^ 25 → bit_xor a b < 2 ^ 25
xor_lt25 a b h k =
    let a0 : a / 2 ^ 25 ≡ 0 = omega arith in
    let b0 : b / 2 ^ 25 ≡ 0 = omega arith in
    let half : bit_xor a b / 2 ^ 25 ≡ 0 = xor_half_pow 25 a b ∙ rw (a0, b0) refl in omega arith

xor_mod25 : (a b : ℕ) → bit_xor a b % 2 ^ 25 ≡ bit_xor (a % 2 ^ 25) (b % 2 ^ 25)
xor_mod25 a b =
    let ah = a / 2 ^ 25 in
    let bh = b / 2 ^ 25 in
    let al = a % 2 ^ 25 in
    let bl = b % 2 ^ 25 in
    let a_cut : a ≡ bit_xor (ah * 2 ^ 25) al = omega (arith, xor_low 25 ah al (omega arith)) in
    let b_cut : b ≡ bit_xor (bh * 2 ^ 25) bl = omega (arith, xor_low 25 bh bl (omega arith)) in
    let small : bit_xor al bl < 2 ^ 25 = xor_lt25 al bl (omega arith) (omega arith) in
    let whole : bit_xor a b ≡ bit_xor ah bh * 2 ^ 25 + bit_xor al bl =
      ap (λ z. bit_xor z b) a_cut
      ∙ ap (bit_xor (bit_xor (ah * 2 ^ 25) al)) b_cut
      ∙ xor_swap (ah * 2 ^ 25) al (bh * 2 ^ 25) bl
      ∙ ap (λ z. bit_xor z (bit_xor al bl)) (xor_scale 25 ah bh)
      ∙ xor_low 25 (bit_xor ah bh) (bit_xor al bl) small in
    omega (arith, whole, small)

polymod_step-xor :
    (p q v w : ℕ)
    → polymod_step (bit_xor p q) (bit_xor v w) ≡ bit_xor (polymod_step p v) (polymod_step q w)
unfolding polymod_step
polymod_step-xor p q v w =
    let ph = p / 2 ^ 25 in
    let qh = q / 2 ^ 25 in
    let pl = p % 2 ^ 25 in
    let ql = q % 2 ^ 25 in
    let low : bit_xor p q % 2 ^ 25 * 2 ^ 5 ≡ bit_xor (pl * 2 ^ 5) (ql * 2 ^ 5) =
      ap (λ z. z * 2 ^ 5) (xor_mod25 p q) ∙ sym (xor_scale 5 pl ql) in
    ap (λ b. add_generators b 0 generators (bit_xor (bit_xor p q % 2 ^ 25 * 2 ^ 5) (bit_xor v w)))
      (xor_half_pow 25 p q)
    ∙ ap (λ c. add_generators (bit_xor ph qh) 0 generators (bit_xor c (bit_xor v w))) low
    ∙ ap (add_generators (bit_xor ph qh) 0 generators) (xor_swap (pl * 2 ^ 5) (ql * 2 ^ 5) v w)
    ∙ add_generators-xor generators 0 ph qh (bit_xor (pl * 2 ^ 5) v) (bit_xor (ql * 2 ^ 5) w)

no_generators : (gs : List ℕ) (i chk : ℕ) → add_generators 0 i gs chk ≡ chk
unfolding add_generators
no_generators [] i chk = refl
no_generators (g ∷ gs) i chk = rw (zero_digit i) (no_generators gs (i + 1) chk)
  where
    zero_digit : (i : ℕ) → (0 / 2 ^ i % 2 == 0) ≡ true
    zero_digit i = rw (zero-div (2 ^ i)) refl

-- Below the top digit a step only shifts.
polymod_step-small : (h v : ℕ) → h < 2 ^ 25 → v < 32 → polymod_step h v ≡ h * 32 + v
unfolding polymod_step
polymod_step-small h v small digit =
    let top : h / 2 ^ 25 ≡ 0 = omega arith in
    let low : h % 2 ^ 25 ≡ h = omega arith in
    ap (λ b. add_generators b 0 generators (bit_xor (h % 2 ^ 25 * 2 ^ 5) v)) top
    ∙ no_generators generators 0 (bit_xor (h % 2 ^ 25 * 2 ^ 5) v)
    ∙ ap (λ l. bit_xor (l * 2 ^ 5) v) low
    ∙ xor_low 5 h v digit

-- Digits that are read as one number, which stays small enough on the way.
abbrev horner : ℕ → List ℕ → ℕ
horner h [] = h
horner h (c ∷ cs) = horner (h * 32 + c) cs

abbrev Fits : ℕ → List ℕ → Type 0
Fits h [] = Unit
Fits h (c ∷ cs) = (h < 2 ^ 25) × (c < 32) × Fits (h * 32 + c) cs

polymod_from-digits :
    (s h : ℕ) (cs : List ℕ)
    → Fits h cs
    → polymod_from (bit_xor s h) cs ≡ bit_xor (polymod_from s (map (λ c. 0) cs)) (horner h cs)
unfolding polymod_from
polymod_from-digits s h [] fits = refl
polymod_from-digits s h (c ∷ cs) (small, digit, fits) =
    ap (λ k. polymod_from k cs)
      (ap (polymod_step (bit_xor s h)) (sym (zero-xor c))
        ∙ polymod_step-xor s h 0 c
        ∙ ap (bit_xor (polymod_step s 0)) (polymod_step-small h c small digit))
    ∙ polymod_from-digits (polymod_step s 0) (h * 32 + c) cs fits

polymod_from-append :
    (chk : ℕ) (xs ys : List ℕ) → polymod_from chk (xs ++ ys) ≡ polymod_from (polymod_from chk xs) ys
unfolding polymod_from
polymod_from-append chk [] ys = refl
polymod_from-append chk (x ∷ xs) ys = polymod_from-append (polymod_step chk x) xs ys

add_generators_lt :
    (gs : List ℕ) (b i chk : ℕ)
    → All (λ g. g < 2 ^ 30) gs
    → chk < 2 ^ 30
    → add_generators b i gs chk < 2 ^ 30
unfolding add_generators
add_generators_lt [] b i chk hs h = h
add_generators_lt (g ∷ gs) b i chk (hg, hs) h = elim (Bool-cases (b / 2 ^ i % 2 == 0)) [
  | inl e ↦ rw e (add_generators_lt gs b (i + 1) chk hs h)
  | inr e ↦ rw e (add_generators_lt gs b (i + 1) (bit_xor chk g) hs (xor_lt30 chk g h hg))
]

polymod_step_lt : (chk v : ℕ) → v < 2 ^ 30 → polymod_step chk v < 2 ^ 30
unfolding polymod_step
polymod_step_lt chk v h =
    add_generators_lt generators (chk / 2 ^ 25) 0 (bit_xor (chk % 2 ^ 25 * 2 ^ 5) v)
      (omega arith, (omega arith, (omega arith, (omega arith, (omega arith, tt)))))
      (xor_lt30 (chk % 2 ^ 25 * 2 ^ 5) v (omega arith) h)

abbrev zeros : List ℕ
zeros = 0 ∷ 0 ∷ 0 ∷ 0 ∷ 0 ∷ 0 ∷ []

zeros_lt : (chk : ℕ) → polymod_from chk zeros < 2 ^ 30
unfolding polymod_from
zeros_lt chk = polymod_step_lt _ 0 (omega arith)

-- Six digits of 5 bits hold a number of 30 bits.
digits_horner : (pm : ℕ) → pm < 2 ^ 30 → horner 0 (checksum_digits pm) ≡ pm
digits_horner pm h = omega arith

digits_fit : (pm : ℕ) → pm < 2 ^ 30 → Fits 0 (checksum_digits pm)
digits_fit pm h = (
  omega arith,
  omega arith,
  (
    omega arith,
    omega arith,
    (
      omega arith,
      omega arith,
      (omega arith, omega arith, (omega arith, omega arith, (omega arith, omega arith, tt))),
    ),
  ),
)

-- Whatever the prefix and the values, the checksum that is created for them is accepted.
pub verify_checksum-create_checksum :
    (hrp : Text) (values : List ℕ)
    → verify_checksum hrp (values ++ create_checksum hrp values) ≡ true
unfolding verify_checksum create_checksum polymod
verify_checksum-create_checksum hrp values =
    let front = hrp_expand hrp ++ values in
    let s = polymod_from 1 front in
    let pm₀ = polymod_from s zeros in
    let pm = bit_xor pm₀ 1 in
    let made : polymod_from 1 (hrp_expand hrp ++ (values ++ zeros)) ≡ pm₀ =
      ap (polymod_from 1) (sym (append_assoc (hrp_expand hrp) values zeros))
      ∙ polymod_from-append 1 front zeros in
    let small : pm < 2 ^ 30 = xor_lt30 pm₀ 1 (zeros_lt s) (omega arith) in
    let cs = checksum_digits pm in
    let one : polymod_from 1 (hrp_expand hrp ++ (values ++ cs)) ≡ 1 =
      ap (polymod_from 1) (sym (append_assoc (hrp_expand hrp) values cs))
      ∙ polymod_from-append 1 front cs
      ∙ ap (λ k. polymod_from k cs) (sym (xor-zero s))
      ∙ polymod_from-digits s 0 cs (digits_fit pm small)
      ∙ ap (bit_xor pm₀) (digits_horner pm small)
      ∙ xor_cancel pm₀ 1 in
    rw (made, one) refl
