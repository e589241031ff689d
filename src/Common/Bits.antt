-- ===== src/Common/Bits.antt =====
-- `&` with a field of ones and `|` of disjoint fields, as arithmetic, at every width.
use Prim.Native.Nat.{
  ℕ, zero, suc, ◌+◌, ◌-◌, ◌*◌, ◌/◌, ◌%◌, ◌^◌, ◌≤◌, ◌<◌, min, max, digits, bitwise, bit_and, bit_or,
  bit_and-bitwise, bit_or-bitwise,
}
use mathlib.Core.Path.{◌≡◌, refl, ap, sym, ◌∙◌}
use native.Mathlib.Nat.{le_refl, pow-suc, one-le-pow, mul_comm, div-div-eq-div-mul}
use native.Mathlib.Omega.{arith}

module _ (z : ℕ → ℕ) (f : ℕ → ℕ → ℕ) where
  digits_enough : (n m a b : ℕ) → a ≤ n → a ≤ m → digits z f n a b ≡ digits z f m a b
  digits_enough zero zero a b p q = refl
  digits_enough zero (suc m) zero b p q = refl
  digits_enough zero (suc m) (suc a) b p q = absurd (omega arith)
  digits_enough (suc n) zero zero b p q = refl
  digits_enough (suc n) zero (suc a) b p q = absurd (omega arith)
  digits_enough (suc n) (suc m) zero b p q = refl
  digits_enough (suc n) (suc m) (suc a) b p q =
      rw (digits_enough n m (suc a / 2) (b / 2) (omega arith) (omega arith))

  bitwise_low :
      (a b : ℕ)
      → bitwise z f (suc a) b ≡ bitwise z f (suc a / 2) (b / 2) * 2 + f (suc a % 2) (b % 2)
  bitwise_low a b =
      omega (arith, digits_enough a (suc a / 2) (suc a / 2) (b / 2) (omega arith) (le_refl _))

bit_or_low : (a b : ℕ) → bit_or a b ≡ bit_or (a / 2) (b / 2) * 2 + max (a % 2) (b % 2)
bit_or_low zero b = simp bit_or-bitwise (omega arith)
bit_or_low (suc a) b = simp bit_or-bitwise (bitwise_low (λ y. y) max a b)

bit_and_low : (a b : ℕ) → bit_and a b ≡ bit_and (a / 2) (b / 2) * 2 + min (a % 2) (b % 2)
bit_and_low zero b = simp bit_and-bitwise (omega arith)
bit_and_low (suc a) b = simp bit_and-bitwise (bitwise_low (λ y. 0) min a b)

bit_and-zero_below : (n a : ℕ) → a ≤ n → bit_and a 0 ≡ 0
bit_and-zero_below n zero h = refl
bit_and-zero_below zero (suc a) h = absurd (omega arith)
bit_and-zero_below (suc n) (suc a) h =
    omega (arith, bit_and_low (suc a) 0, bit_and-zero_below n (suc a / 2) (omega arith))

pub bit_and-zero : (a : ℕ) → bit_and a 0 ≡ 0
bit_and-zero a = bit_and-zero_below a a (le_refl _)

bit_or-zero_below : (n a : ℕ) → a ≤ n → bit_or a 0 ≡ a
bit_or-zero_below n zero h = refl
bit_or-zero_below zero (suc a) h = absurd (omega arith)
bit_or-zero_below (suc n) (suc a) h =
    omega (arith, bit_or_low (suc a) 0, bit_or-zero_below n (suc a / 2) (omega arith))

pub bit_or-zero : (a : ℕ) → bit_or a 0 ≡ a
bit_or-zero a = bit_or-zero_below a a (le_refl _)

double_shift : (q k : ℕ) → q * 2 ^ suc k ≡ 2 * (q * 2 ^ k)
double_shift q k = omega (arith, ap (λ (t : ℕ). q * t) (pow-suc 2 k))

-- A field above bit `k` and one of `k` bits do not meet, so `|` adds them.
pub bit_or_disjoint : (k q r : ℕ) → r < 2 ^ k → bit_or (q * 2 ^ k) r ≡ q * 2 ^ k + r
bit_or_disjoint zero q r fits = ground (arith, bit_or-zero q)
bit_or_disjoint (suc k) q r fits = ground (
  arith,
  bit_or_low (q * 2 ^ suc k) r,
  double_shift q k,
  bit_or_disjoint k q (r / 2) (omega arith),
)

bit_and_ones_split : (k q r : ℕ) → r < 2 ^ k → bit_and (q * 2 ^ k + r) (2 ^ k - 1) ≡ r
bit_and_ones_split zero q r fits = rw bit_and-zero (omega arith)
bit_and_ones_split (suc k) q r fits = ground (
  arith,
  bit_and_low (q * 2 ^ suc k + r) (2 ^ suc k - 1),
  double_shift q k,
  pow-suc 2 k,
  bit_and_ones_split k q (r / 2) (omega arith),
)

-- A mask of `k` ones keeps the remainder by `2 ^ k`.
pub bit_and_ones : (k a : ℕ) → bit_and a (2 ^ k - 1) ≡ a % 2 ^ k
bit_and_ones k a = ground (arith, one-le-pow k 2, bit_and_ones_split k (a / 2 ^ k) (a % 2 ^ k))

-- A mask shifted by one bit reads the number shifted by one bit.
bit_and_double : (a m : ℕ) → bit_and a (m * 2) ≡ bit_and (a / 2) m * 2
bit_and_double a m = ground (arith, bit_and_low a (m * 2))

div_double_shift : (a s : ℕ) → a / 2 ^ suc s ≡ a / 2 / 2 ^ s
div_double_shift a s =
    ap (λ t. a / t) (pow-suc 2 s ∙ mul_comm (2 ^ s) 2) ∙ sym (div-div-eq-div-mul a 2 (2 ^ s))

-- The masks of the page-table code: ten, twelve and `s` low zero bits.
pub bit_and_shift : (s a m : ℕ) → bit_and a (m * 2 ^ s) ≡ bit_and (a / 2 ^ s) m * 2 ^ s
bit_and_shift zero a m = ground arith
bit_and_shift (suc s) a m = ground (
  arith,
  double_shift m s,
  div_double_shift a s,
  bit_and_double a (m * 2 ^ s),
  bit_and_shift s (a / 2) m,
  double_shift (bit_and (a / 2 / 2 ^ s) m) s,
)

-- A mask of one bit keeps that bit or nothing.
pub bit_and-power : (s a : ℕ) → bit_and a (2 ^ s) ≡ a / 2 ^ s % 2 * 2 ^ s
bit_and-power s a =
    let one : bit_and (a / 2 ^ s) 1 ≡ a / 2 ^ s % 2 = bit_and_ones 1 (a / 2 ^ s) in
    ap (bit_and a) (omega arith) ∙ bit_and_shift s a 1 ∙ ap (λ x. x * 2 ^ s) one

le-bit_or_below : (n a b : ℕ) → b ≤ n → b ≤ bit_or a b
le-bit_or_below n a zero h = omega arith
le-bit_or_below zero a (suc b) h = absurd (omega arith)
le-bit_or_below (suc n) a (suc b) h =
    ground (arith, bit_or_low a (suc b), le-bit_or_below n (a / 2) (suc b / 2) (omega arith))

pub le-bit_or : (a b : ℕ) → b ≤ bit_or a b
le-bit_or a b = le-bit_or_below b a b (le_refl _)
