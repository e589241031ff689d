-- ===== src/Memory/Translate.antt =====
-- Memory::convert of src/device/memory.h on mapped pages.
use ventus_driver.Common.{
  ℕ, ◌+◌, ◌*◌, ◌/◌, ◌%◌, ◌^◌, ◌<◌, ◌≡◌, arith, ap, ◌∙◌, sym, subst, some, ◌==◌, if◌then◌else◌,
  bit_and, bit_or,
}
use ventus_driver.Common.Bits.{bit_and_ones, bit_or_disjoint}
use ventus_driver.Sv39.{page_size, va_extract, pte_to_pa}
use ventus_driver.Sv39.Fields.{va_extract-lt, va_extract-zero, va_extract-one, va_extract_two}
use ventus_driver.Sv39.RoundTrip.{pte_to_pa_range}
use ventus_driver.PhysicalMemory.{PhysicalMemory}
use ventus_driver.Memory.Tables.{Role, top, entry, IsValid, Tables, table1, table2, leaf, Mapped}
use ventus_driver.Memory.Tables.Walks.{root-IsTable, table1-IsTable, table2-IsTable}
use ventus_driver.Memory.Descend.{read64-entry}
use ventus_driver.Memory.{convert}

-- The page and the offset of an address, put together by `|`.
pub page_or_offset :
    (pa v : ℕ) → pa % page_size ≡ 0 → bit_or pa (bit_and v 0xfff) ≡ pa + v % page_size
page_or_offset pa v al =
    let whole : pa ≡ pa / 2 ^ 12 * 2 ^ 12 = omega arith in
    let offset = bit_and_ones 12 v in
    ap (bit_or pa) offset
    ∙ ap (λ x. bit_or x (v % 2 ^ 12)) whole
    ∙ bit_or_disjoint 12 (pa / 2 ^ 12) (v % 2 ^ 12) (omega arith)
    ∙ ap (λ x. x + v % 2 ^ 12) (sym whole)

module _ {role : ℕ → Role} {pm : PhysicalMemory} (ts : Tables role pm) (root v pa : ℕ)
    (is_root : role root ≡ top) (m : Mapped pm root v pa) where
  convert_steps : convert pm root v ≡ some (if pa == 0 then 0 else bit_or pa (bit_and v 0xfff))
  unfolding convert
  convert_steps =
      let t1 = table1-IsTable ts root v is_root m.valid0 in
      let t2 = table2-IsTable ts root v is_root m.valid0 m.valid1 in
      let r0 =
        read64-entry pm root (va_extract v 0) ts.well (root-IsTable ts root v is_root)
          (va_extract-lt v 0) in
      let r1 = read64-entry pm (table1 pm root v) (va_extract v 1) ts.well t1 (va_extract-lt v 1) in
      let r2 = read64-entry pm (table2 pm root v) (va_extract v 2) ts.well t2 (va_extract-lt v 2) in
      ground (arith, r0, r1, r2, t1.positive, t2.positive, m.page)

  -- On well-formed tables `convert` leads an address that a root maps to a page other than 0 to the
  -- byte of the page at the same offset.
  pub convert-Mapped : 0 < pa → convert pm root v ≡ some (pa + v % page_size)
  convert-Mapped pos =
      let al : pa % page_size ≡ 0 = omega (arith, pte_to_pa_range (leaf pm root v), m.page) in
      convert_steps ∙ ground (arith, page_or_offset pa v al)

Mapped_indices :
    (pm : PhysicalMemory) (root va u pa : ℕ)
    → va_extract va 0 ≡ va_extract u 0
    → va_extract va 1 ≡ va_extract u 1
    → va_extract va 2 ≡ va_extract u 2
    → Mapped pm root va pa
    → Mapped pm root u pa
Mapped_indices pm root va u pa e0 e1 e2 m =
    let f0 = ap (entry pm root) e0 in
    let f1 =
      ap (λ t. entry pm t (va_extract va 1)) (ap pte_to_pa f0)
      ∙ ap (entry pm (table1 pm root u)) e1 in
    let f2 =
      ap (λ t. entry pm t (va_extract va 2)) (ap pte_to_pa f1)
      ∙ ap (entry pm (table2 pm root u)) e2 in
    record {
      valid0 = subst IsValid f0 m.valid0;
      valid1 = subst IsValid f1 m.valid1;
      valid2 = subst IsValid f2 m.valid2;
      page = sym (ap pte_to_pa f2) ∙ m.page;
    }

-- Mapping depends on the page alone.
pub Mapped_offset :
    (pm : PhysicalMemory) (root va pa off : ℕ)
    → va % page_size ≡ 0
    → off < page_size
    → Mapped pm root va pa
    → Mapped pm root (va + off) pa
Mapped_offset pm root va pa off al l m =
    let e0 : va_extract va 0 ≡ va_extract (va + off) 0 =
      omega (arith, va_extract-zero va, va_extract-zero (va + off)) in
    let e1 : va_extract va 1 ≡ va_extract (va + off) 1 =
      omega (arith, va_extract-one va, va_extract-one (va + off)) in
    let e2 : va_extract va 2 ≡ va_extract (va + off) 2 =
      omega (arith, va_extract_two va, va_extract_two (va + off)) in
    Mapped_indices pm root va (va + off) pa e0 e1 e2 m
