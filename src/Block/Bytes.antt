-- ===== src/Block/Bytes.antt =====
-- Byte arrays, as the memcpy calls of src/device/page.h see them, and the little-endian values
-- of the accesses by type.
use ventus_driver.Common.{
  ℕ, zero, suc, ◌+◌, ◌-◌, ◌*◌, ◌/◌, ◌%◌, ◌^◌, ◌<◌, ◌≡◌, refl, ap, ◌∙◌, sym, ◌&&◌, arith, ltb, leb,
  Bool-cases, inl, inr, if◌then◌else◌,
}
use mathlib.Core.Path.{fun_ext}
use native.Mathlib.Nat.{pow-suc, mul_comm, div-div-eq-div-mul, div-add-mod}

-- The byte at each offset. Accesses are bounded by the array's length, which its owner keeps.
abbrev pub Buffer : Type 0
Buffer = ℕ → ℕ

-- `n` bytes of `source` copied to `base`.
abbrev pub splice : Buffer → ℕ → ℕ → Buffer → Buffer
splice f base n source = λ i. if leb base i && ltb i (base + n) then source (i - base) else f i

unfoldable pub from_bytes : ℕ → Buffer → ℕ
from_bytes zero f = 0
from_bytes (suc n) f = f 0 + 256 * from_bytes n (λ i. f (suc i))

unfoldable pub to_bytes : ℕ → Buffer
to_bytes v i = v / 256 ^ i % 256

pub from_bytes_ext :
    (n : ℕ) (f g : Buffer) → ((i : ℕ) → i < n → f i ≡ g i) → from_bytes n f ≡ from_bytes n g
unfolding from_bytes
from_bytes_ext zero f g h = refl
from_bytes_ext (suc n) f g h = omega (
  arith,
  h 0 (omega arith),
  from_bytes_ext n (λ i. f (suc i)) (λ i. g (suc i)) (λ i k. h (suc i) (omega arith)),
)

pub from_bytes-lt : (n : ℕ) (f : Buffer) → ((i : ℕ) → i < n → f i < 256) → from_bytes n f < 256 ^ n
unfolding from_bytes
from_bytes-lt zero f h = omega arith
from_bytes-lt (suc n) f h = omega (
  arith,
  h 0 (omega arith),
  from_bytes-lt n (λ i. f (suc i)) (λ i k. h (suc i) (omega arith)),
  pow-suc 256 n,
)

to_bytes-suc : (v i : ℕ) → to_bytes v (suc i) ≡ to_bytes (v / 256) i
unfolding to_bytes
to_bytes-suc v i =
    ap (λ t. t % 256)
      (ap (λ t. v / t) (pow-suc 256 i ∙ mul_comm (256 ^ i) 256)
        ∙ sym (div-div-eq-div-mul v 256 (256 ^ i)))

low_byte : (v : ℕ) → to_bytes v 0 ≡ v % 256
unfolding to_bytes
low_byte v = omega arith

mod-mul_split : (v p : ℕ) → v % (p * 256) ≡ v % 256 + 256 * (v / 256 % p)
mod-mul_split v p = omega (
  arith,
  div-add-mod v (p * 256),
  div-add-mod (v / 256) p,
  ap (λ (t : ℕ). p * t) (ap (λ (t : ℕ). v / t) (mul_comm p 256) ∙ sym (div-div-eq-div-mul v 256 p)),
)

-- Reading back the first `n` bytes of a value gives it modulo `256 ^ n`.
pub from_bytes-to_bytes : (n v : ℕ) → from_bytes n (to_bytes v) ≡ v % 256 ^ n
unfolding from_bytes
from_bytes-to_bytes zero v = omega arith
from_bytes-to_bytes (suc n) v = omega (
  arith,
  low_byte v,
  from_bytes_ext n (λ i. to_bytes v (suc i)) (to_bytes (v / 256)) (λ i k. to_bytes-suc v i),
  from_bytes-to_bytes n (v / 256),
  mod-mul_split v (256 ^ n),
  ap (λ (t : ℕ). v % t) (pow-suc 256 n),
)

-- A copy depends on the bytes that are copied.
pub splice_ext :
    (out : Buffer) (n : ℕ) (f g : Buffer)
    → ((i : ℕ) → i < n → f i ≡ g i)
    → splice out 0 n f ≡ splice out 0 n g
splice_ext out n f g h = fun_ext λ i. elim (Bool-cases (ltb i n)) [
  | inl near ↦ ground (arith, near, h i)
  | inr far ↦ ground (arith, far)
]
