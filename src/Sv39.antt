-- ===== src/Sv39.antt =====
-- src/device/sv39.h: the constants of the SV39 paging scheme, and how virtual addresses and
-- page-table entries are taken apart and put together. Addresses and entries are uint64_t.
pub mod Fields
pub mod RoundTrip
mod Examples
use ventus_driver.Common.{
  ℕ, ◌+◌, ◌*◌, ◌/◌, ◌^◌, Bool, true, false, ◌&&◌, bit_and, bit_or, ltb, leb, ◌==◌, if◌then◌else◌,
}

abbrev pub max_phy_range : ℕ
max_phy_range = 2 ^ 56

abbrev pub page_size : ℕ
page_size = 2 ^ 12

abbrev pub va_lower_ceil : ℕ
va_lower_ceil = 0x0000004000000000

abbrev pub va_upper_floor : ℕ
va_upper_floor = 0xffffffc000000000

-- The flag bits of an entry.
abbrev pub flag_v : ℕ
flag_v = 1

abbrev pub flag_r : ℕ
flag_r = 2

abbrev pub flag_w : ℕ
flag_w = 4

abbrev pub flag_x : ℕ
flag_x = 8

-- The index into the table of a level.
unfoldable pub va_extract : ℕ → ℕ → ℕ
va_extract va level =
    if level == 0
    then bit_and (va / 2 ^ 30) 0x1ff
    else if level == 1
    then bit_and (va / 2 ^ 21) 0x1ff
    else bit_and (va / 2 ^ 12) 0x1ff

pub va_check : ℕ → Bool
va_check va = if leb va_lower_ceil va && ltb va va_upper_floor then false else true

-- The shift left cannot pass bit 56, so it does not wrap.
unfoldable pub pte_to_pa : ℕ → ℕ
pte_to_pa pte = bit_and pte 0x003ffffffffffc00 * 2 ^ 2

unfoldable pub set_pte : ℕ → ℕ → ℕ
set_pte pa mods = bit_or (bit_and pa 0x00fffffffffff000 / 2 ^ 2) mods
