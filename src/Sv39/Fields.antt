-- ===== src/Sv39/Fields.antt =====
-- The masks and shifts of src/device/sv39.h as arithmetic, and what an address's fields mean.
use ventus_driver.Common.{
  ℕ, ◌+◌, ◌-◌, ◌*◌, ◌/◌, ◌%◌, ◌^◌, ◌<◌, ◌≤◌, ◌≡◌, ◌↔◌, ◌⊎◌, true, arith, bit_and,
}
use ventus_driver.Common.Bits.{bit_and_ones, bit_and_shift, bit_or_disjoint}
use ventus_driver.Sv39.{
  page_size, va_extract, va_check, pte_to_pa, set_pte, va_lower_ceil, va_upper_floor,
}

pub va_extract-zero : (va : ℕ) → va_extract va 0 ≡ va / 2 ^ 30 % 512
unfolding va_extract
va_extract-zero va = bit_and_ones 9 (va / 2 ^ 30)

pub va_extract-one : (va : ℕ) → va_extract va 1 ≡ va / 2 ^ 21 % 512
unfolding va_extract
va_extract-one va = bit_and_ones 9 (va / 2 ^ 21)

pub va_extract_two : (va : ℕ) → va_extract va 2 ≡ va / 2 ^ 12 % 512
unfolding va_extract
va_extract_two va = bit_and_ones 9 (va / 2 ^ 12)

-- The three indices and the offset in the page are exactly the low 39 bits of the address.
pub va_extract_digits :
    (va : ℕ)
    → ((va_extract va 0 * 512 + va_extract va 1) * 512 + va_extract va 2) * page_size
        + va % page_size
      ≡ va % 2 ^ 39
va_extract_digits va = omega (arith, va_extract-zero va, va_extract-one va, va_extract_two va)

-- Every index stays inside a table of 512 entries, at whatever level.
pub va_extract-lt : (va level : ℕ) → va_extract va level < 512
unfolding va_extract
va_extract-lt va level = ground (
  arith,
  bit_and_ones 9 (va / 2 ^ 30),
  bit_and_ones 9 (va / 2 ^ 21),
  bit_and_ones 9 (va / 2 ^ 12),
)

-- The check passes exactly on the two canonical halves of the address space.
pub va_check_iff : (va : ℕ) → (va_check va ≡ true) ↔ ((va < va_lower_ceil) ⊎ (va_upper_floor ≤ va))
unfolding va_check
va_check_iff va = (λ h. ground arith, λ h. ground arith)

pub pte_to_pa_lem : (pte : ℕ) → pte_to_pa pte ≡ pte / 1024 % 2 ^ 44 * page_size
unfolding pte_to_pa
pte_to_pa_lem pte = omega (arith, bit_and_shift 10 pte (2 ^ 44 - 1), bit_and_ones 44 (pte / 2 ^ 10))

pub set_pte_lem :
    (pa mods : ℕ) → mods < 1024 → set_pte pa mods ≡ pa / page_size % 2 ^ 44 * 1024 + mods
unfolding set_pte
set_pte_lem pa mods h = rw kept (bit_or_disjoint 10 (pa / 2 ^ 12 % 2 ^ 44) mods h)
  where
    kept : bit_and pa 0x00fffffffffff000 / 2 ^ 2 ≡ pa / 2 ^ 12 % 2 ^ 44 * 2 ^ 10
    kept = omega (arith, bit_and_shift 12 pa (2 ^ 44 - 1), bit_and_ones 44 (pa / 2 ^ 12))
