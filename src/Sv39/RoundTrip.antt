-- ===== src/Sv39/RoundTrip.antt =====
-- Page-table entries of src/device/sv39.h put together and read back.
use ventus_driver.Common.{ℕ, ◌*◌, ◌/◌, ◌%◌, ◌^◌, ◌<◌, ◌≡◌, arith, bit_and}
use ventus_driver.Common.Bits.{bit_and_ones}
use ventus_driver.Sv39.{page_size, max_phy_range, pte_to_pa, set_pte, flag_v}
use ventus_driver.Sv39.Fields.{pte_to_pa_lem, set_pte_lem}

-- Of a physical address below 2^56 an entry keeps the page, whatever its ten flag bits are; the
-- flags are the entry's low ten bits.
pub pte_to_pa-set_pte :
    (pa mods : ℕ)
    → pa < max_phy_range
    → mods < 1024
    → (pte_to_pa (set_pte pa mods) ≡ pa / page_size * page_size) × (set_pte pa mods % 1024 ≡ mods)
pte_to_pa-set_pte pa mods h k =
    omega (arith, set_pte_lem pa mods k, pte_to_pa_lem (set_pte pa mods))

-- The other way round, an entry below 2^54 is rebuilt from its address and flags.
pub set_pte-pte_to_pa : (pte : ℕ) → pte < 2 ^ 54 → set_pte (pte_to_pa pte) (pte % 1024) ≡ pte
set_pte-pte_to_pa pte h = omega (arith, set_pte_lem (pte_to_pa pte) (pte % 1024), pte_to_pa_lem pte)

-- An address that an entry names is a page's, below the end of physical memory.
pub pte_to_pa_range : (pte : ℕ) → (pte_to_pa pte % page_size ≡ 0) × (pte_to_pa pte < max_phy_range)
pte_to_pa_range pte = omega (arith, pte_to_pa_lem pte)

-- The valid bit of an entry with an odd flag word is set.
pub set_pte_valid : (pa mods : ℕ) → mods < 1024 → bit_and (set_pte pa mods) flag_v ≡ mods % 2
set_pte_valid pa mods h = omega (arith, set_pte_lem pa mods h, bit_and_ones 1 (set_pte pa mods))

pub set_pte-lt : (pa mods : ℕ) → mods < 1024 → set_pte pa mods < 2 ^ 64
set_pte-lt pa mods h = omega (arith, set_pte_lem pa mods h)
