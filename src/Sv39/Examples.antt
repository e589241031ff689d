-- ===== src/Sv39/Examples.antt =====
-- Instances and tests for src/device/sv39.h.
use ventus_driver.Common.{◌+◌, ◌*◌, ◌/◌, ◌%◌, ◌^◌, ◌≡◌, refl, arith, true, false}
use ventus_driver.Sv39.{page_size, va_extract, pte_to_pa, set_pte, va_check}
use ventus_driver.Sv39.Fields.{va_extract_digits}
use ventus_driver.Sv39.RoundTrip.{pte_to_pa-set_pte, set_pte-pte_to_pa}

va_extract_digits_example :
    ((va_extract 0x60001234 0 * 512 + va_extract 0x60001234 1) * 512 + va_extract 0x60001234 2)
        * page_size
      + 0x60001234 % page_size
    ≡ 0x60001234 % 2 ^ 39
va_extract_digits_example = va_extract_digits 0x60001234

va_extract_at_rwdata :
    (va_extract 0x60001234 0 ≡ 1) × (va_extract 0x60001234 1 ≡ 256) × (va_extract 0x60001234 2 ≡ 1)
unfolding va_extract
va_extract_at_rwdata = (refl, refl, refl)

va_check_edges :
    (va_check 0x3fffffffff ≡ true)
    × (va_check 0x4000000000 ≡ false)
    × (va_check 0xffffffc000000000 ≡ true)
unfolding va_check
va_check_edges = (refl, refl, refl)

pte_to_pa-set_pte_example :
    (pte_to_pa (set_pte 0x20001000 15) ≡ 0x20001000 / page_size * page_size)
    × (set_pte 0x20001000 15 % 1024 ≡ 15)
pte_to_pa-set_pte_example = pte_to_pa-set_pte 0x20001000 15 (omega arith) (omega arith)

set_pte-pte_to_pa_example : set_pte (pte_to_pa 0x800040f) (0x800040f % 1024) ≡ 0x800040f
set_pte-pte_to_pa_example = set_pte-pte_to_pa 0x800040f (omega arith)
