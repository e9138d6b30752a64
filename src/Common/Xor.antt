-- ===== src/Common/Xor.antt =====
-- Exclusive or of numbers: the laws by which a checksum is linear.
use Prim.Native.Nat.{
  ℕ, zero, suc, ◌+◌, ◌*◌, ◌/◌, ◌%◌, ◌^◌, ◌≤◌, ◌<◌, bit_xor, digits, differ, bit_xor-bitwise,
}
use mathlib.Core.Path.{◌≡◌, refl, sym, ap, ◌∙◌}
use mathlib.Core.Logic.{◌⊎◌, inl, inr}
use native.Mathlib.Omega.{arith}
use native.Mathlib.Nat.{pow-zero, pow-suc, div-div-eq-div-mul}
use rl_rust_client.Common.Tests.{◌==◌, Bool-cases}

-- The digits from the lowest on do not depend on the fuel, if there is enough of it.
enough : (n m a b : ℕ) → a ≤ n → a ≤ m → digits (λ c. c) differ n a b ≡ digits (λ c. c) differ m a b
enough zero zero a b p q = refl
enough zero (suc m) zero b p q = refl
enough zero (suc m) (suc a) b p q = absurd (omega arith)
enough (suc n) zero zero b p q = refl
enough (suc n) zero (suc a) b p q = absurd (omega arith)
enough (suc n) (suc m) zero b p q = refl
enough (suc n) (suc m) (suc a) b p q =
    ap (λ k. k * 2 + differ (suc a % 2) (b % 2))
      (enough n m (suc a / 2) (b / 2) (omega arith) (omega arith))

pub zero-xor : (b : ℕ) → bit_xor 0 b ≡ b
zero-xor b = bit_xor-bitwise 0 b

zero-differ : (y : ℕ) → differ 0 y ≡ y
zero-differ y = refl

pub xor_digit : (a b : ℕ) → bit_xor a b ≡ bit_xor (a / 2) (b / 2) * 2 + differ (a % 2) (b % 2)
xor_digit zero b = omega (arith, zero-xor b, zero-xor (b / 2), zero-differ (b % 2))
xor_digit (suc a) b = omega (
  arith,
  bit_xor-bitwise (suc a) b,
  bit_xor-bitwise (suc a / 2) (b / 2),
  enough a (suc a / 2) (suc a / 2) (b / 2) (omega arith) (omega arith),
)

two : (x : ℕ) → (x % 2 ≡ 0) ⊎ (x % 2 ≡ 1)
two x = elim (Bool-cases (x % 2 == 0)) [ inl e ↦ inl (ground arith) | inr e ↦ inr (ground arith) ]

differ_lt : (a b : ℕ) → differ (a % 2) (b % 2) < 2
differ_lt a b = elim (two a) [
  | inl p ↦ elim (two b) [ inl q ↦ rw (p, q) (omega arith) | inr q ↦ rw (p, q) (omega arith) ]
  | inr p ↦ elim (two b) [ inl q ↦ rw (p, q) (omega arith) | inr q ↦ rw (p, q) (omega arith) ]
]

differ_comm : (a b : ℕ) → differ (a % 2) (b % 2) ≡ differ (b % 2) (a % 2)
differ_comm a b = elim (two a) [
  | inl p ↦ elim (two b) [ inl q ↦ rw (p, q) | inr q ↦ rw (p, q) ]
  | inr p ↦ elim (two b) [ inl q ↦ rw (p, q) | inr q ↦ rw (p, q) ]
]

differ_self : (a : ℕ) → differ (a % 2) (a % 2) ≡ 0
differ_self a = elim (two a) [ inl p ↦ rw p | inr p ↦ rw p ]

differ_assoc :
    (a b c : ℕ) → differ (differ (a % 2) (b % 2)) (c % 2) ≡ differ (a % 2) (differ (b % 2) (c % 2))
differ_assoc a b c = elim (two a) [
  | inl p ↦ elim (two b) [
    | inl q ↦ elim (two c) [ inl r ↦ rw (p, q, r) | inr r ↦ rw (p, q, r) ]
    | inr q ↦ elim (two c) [ inl r ↦ rw (p, q, r) | inr r ↦ rw (p, q, r) ]
  ]
  | inr p ↦ elim (two b) [
    | inl q ↦ elim (two c) [ inl r ↦ rw (p, q, r) | inr r ↦ rw (p, q, r) ]
    | inr q ↦ elim (two c) [ inl r ↦ rw (p, q, r) | inr r ↦ rw (p, q, r) ]
  ]
]

pub xor_half : (a b : ℕ) → bit_xor a b / 2 ≡ bit_xor (a / 2) (b / 2)
xor_half a b = omega (arith, xor_digit a b, differ_lt a b)

pub xor_odd : (a b : ℕ) → bit_xor a b % 2 ≡ differ (a % 2) (b % 2)
xor_odd a b = omega (arith, xor_digit a b, differ_lt a b)

-- Numbers with the same lowest digit and the same other digits.
same_digits : (x y : ℕ) → x / 2 ≡ y / 2 → x % 2 ≡ y % 2 → x ≡ y
same_digits x y p q = omega arith

comm_below : (n a b : ℕ) → a ≤ n → b ≤ n → bit_xor a b ≡ bit_xor b a
comm_below zero a b p q =
    let a0 : a ≡ 0 = omega arith in let b0 : b ≡ 0 = omega arith in rw (a0, b0)
comm_below (suc n) a b p q =
    same_digits (bit_xor a b) (bit_xor b a)
      (rw (xor_half a b, xor_half b a) (comm_below n (a / 2) (b / 2) (omega arith) (omega arith)))
      (rw (xor_odd a b, xor_odd b a) (differ_comm a b))

pub xor_comm : (a b : ℕ) → bit_xor a b ≡ bit_xor b a
xor_comm a b = comm_below (a + b) a b (omega arith) (omega arith)

assoc_below :
    (n a b c : ℕ) → a ≤ n → b ≤ n → c ≤ n → bit_xor (bit_xor a b) c ≡ bit_xor a (bit_xor b c)
assoc_below zero a b c p q r =
    let a0 : a ≡ 0 = omega arith in
    let b0 : b ≡ 0 = omega arith in let c0 : c ≡ 0 = omega arith in rw (a0, b0, c0)
assoc_below (suc n) a b c p q r =
    same_digits (bit_xor (bit_xor a b) c) (bit_xor a (bit_xor b c))
      (rw (xor_half (bit_xor a b) c, xor_half a (bit_xor b c), xor_half a b, xor_half b c)
        (assoc_below n (a / 2) (b / 2) (c / 2) (omega arith) (omega arith) (omega arith)))
      (rw (xor_odd (bit_xor a b) c, xor_odd a (bit_xor b c), xor_odd a b, xor_odd b c)
        (differ_assoc a b c))

pub xor_assoc : (a b c : ℕ) → bit_xor (bit_xor a b) c ≡ bit_xor a (bit_xor b c)
xor_assoc a b c = assoc_below (a + b + c) a b c (omega arith) (omega arith) (omega arith)

self_below : (n a : ℕ) → a ≤ n → bit_xor a a ≡ 0
self_below zero a p = let a0 : a ≡ 0 = omega arith in rw a0
self_below (suc n) a p =
    omega (arith, xor_digit a a, differ_self a, self_below n (a / 2) (omega arith))

pub xor_self : (a : ℕ) → bit_xor a a ≡ 0
xor_self a = self_below a a (omega arith)

pub xor-zero : (a : ℕ) → bit_xor a 0 ≡ a
xor-zero a = xor_comm a 0 ∙ zero-xor a

pub xor_cancel : (a b : ℕ) → bit_xor a (bit_xor a b) ≡ b
xor_cancel a b = sym (xor_assoc a a b) ∙ ap (λ z. bit_xor z b) (xor_self a) ∙ zero-xor b

-- The sum of two xors is the xor of the sums.
pub xor_swap :
    (a b c d : ℕ) → bit_xor (bit_xor a b) (bit_xor c d) ≡ bit_xor (bit_xor a c) (bit_xor b d)
xor_swap a b c d =
    xor_assoc a b (bit_xor c d)
    ∙ ap (bit_xor a)
        (sym (xor_assoc b c d) ∙ ap (λ z. bit_xor z d) (xor_comm b c) ∙ xor_assoc c b d)
    ∙ sym (xor_assoc a c (bit_xor b d))

twice_half : (a : ℕ) → (a * 2) / 2 ≡ a
twice_half a = omega arith

twice_even : (a : ℕ) → (a * 2) % 2 ≡ 0
twice_even a = omega arith

pub xor_twice : (a b : ℕ) → bit_xor (a * 2) (b * 2) ≡ bit_xor a b * 2
xor_twice a b =
    xor_digit (a * 2) (b * 2)
    ∙ rw (twice_half a, twice_half b, twice_even a, twice_even b) (omega arith)

-- Shifting, and adding below the lowest digit that is set.
pub xor_scale : (k a b : ℕ) → bit_xor (a * 2 ^ k) (b * 2 ^ k) ≡ bit_xor a b * 2 ^ k
xor_scale zero a b = rw (pow-zero, times_one a, times_one b, times_one (bit_xor a b))
  where
    times_one : (x : ℕ) → x * 1 ≡ x
    times_one x = omega arith
xor_scale (suc k) a b =
    rw (pow-suc 2 k, ← shift a k, ← shift b k, ← shift (bit_xor a b) k)
      (xor_twice (a * 2 ^ k) (b * 2 ^ k) ∙ ap (λ z. z * 2) (xor_scale k a b))
  where
    shift : (x j : ℕ) → x * 2 ^ j * 2 ≡ x * (2 ^ j * 2)
    shift x j = grind arith

pub xor_low : (k a c : ℕ) → c < 2 ^ k → bit_xor (a * 2 ^ k) c ≡ a * 2 ^ k + c
xor_low zero a c h =
    let c0 : c ≡ 0 = omega (arith, pow-zero 2) in rw c0 (xor-zero (a * 2 ^ 0) ∙ omega arith)
xor_low (suc k) a c h =
    rw (pow-suc 2 k, ← shift a k)
      (xor_digit (a * 2 ^ k * 2) c
        ∙ rw (twice_half (a * 2 ^ k), twice_even (a * 2 ^ k), xor_low k a (c / 2) (half h))
            (omega (arith, zero-differ (c % 2))))
  where
    shift : (x j : ℕ) → x * 2 ^ j * 2 ≡ x * (2 ^ j * 2)
    shift x j = grind arith

    half : c < 2 ^ suc k → c / 2 < 2 ^ k
    half h = omega (arith, pow-suc 2 k)

pub xor_half_pow : (k a b : ℕ) → bit_xor a b / 2 ^ k ≡ bit_xor (a / 2 ^ k) (b / 2 ^ k)
xor_half_pow zero a b = rw (pow-zero, whole a, whole b, whole (bit_xor a b))
  where
    whole : (x : ℕ) → x / 1 ≡ x
    whole x = omega arith
xor_half_pow (suc k) a b =
    rw
      (
        pow-suc 2 k,
        ← div-div-eq-div-mul (bit_xor a b) (2 ^ k) 2,
        ← div-div-eq-div-mul a (2 ^ k) 2,
        ← div-div-eq-div-mul b (2 ^ k) 2,
        xor_half_pow k a b,
      )
      (xor_half (a / 2 ^ k) (b / 2 ^ k))
