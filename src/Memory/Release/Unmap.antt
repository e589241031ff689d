-- ===== src/Memory/Release/Unmap.antt =====
-- Memory::release of src/device/memory.h on an address that is mapped.
use ventus_driver.Common.{
  ℕ, ◌+◌, ◌*◌, ◌%◌, ◌<◌, ◌≤◌, ◌≡◌, ◌⊎◌, ◌≢◌, refl, arith, ap, ◌∙◌, sym, subst, false, some, Status,
  done, get_elem?, erase_at,
}
use ventus_driver.Sv39.{page_size, va_extract, pte_to_pa}
use ventus_driver.Sv39.Fields.{va_extract-lt}
use ventus_driver.Block.{Block, contains}
use ventus_driver.PhysicalMemory.{PhysicalMemory, at, reserved_size, remove, length}
use ventus_driver.PhysicalMemory.Order.{stop}
use ventus_driver.PhysicalMemory.Erase.{Holds}
use ventus_driver.PhysicalMemory.Remove.{removed_at, remove_held, erased_IsWellFormed}
use ventus_driver.PhysicalMemory.Freed.{
  length_held, freed_word, freed_backed, freed_here, IsRange-held,
}
use ventus_driver.PhysicalMemory.Words.{backed}
use ventus_driver.Memory.Tables.{
  Role, top, plain, entry, IsValid, IsTable, Tables, table1, table2, Mapped,
}
use ventus_driver.Memory.Tables.Link.{inner-ne-plain}
use ventus_driver.Memory.Tables.Walks.{table1_role, table2_role}
use ventus_driver.Memory.Translate.{convert-Mapped}
use ventus_driver.Memory.Release.{release, release_loop}
use ventus_driver.Memory.{convert}

-- The block at a position of the list, which the iterator does not stand at.
pub record Released (pm : PhysicalMemory) (addr i : ℕ) (b : Block) : Type 0 where
  pub here : get_elem? pm.blocks i ≡ some b
  pub holds : Holds addr b
  pub free : reserved_size ≤ addr
  pub in_range : addr < pm.max_range
  pub apart : pm.cursor ≢ at i

-- No table lies in a block.
abbrev pub HoldsNoTable : (ℕ → Role) → Block → Type 0
HoldsNoTable role b = (t : ℕ) → role t ≢ plain → (t + page_size ≤ b.addr) ⊎ (stop b ≤ t)

module _ {role : ℕ → Role} {pm : PhysicalMemory} (ts : Tables role pm) (addr i : ℕ) {b : Block}
    (r : Released pm addr i b) (clear : HoldsNoTable role b) where
  abbrev after : PhysicalMemory
  after = (removed_at pm i).1

  outside : (t k : ℕ) → role t ≢ plain → k < 512 → contains b (t + k * 8) ≡ false
  outside t k h l = ground (arith, clear t h, IsRange-held pm ts.well i r.here)

  kept_slot : (t k : ℕ) → role t ≢ plain → k < 512 → entry after t k ≡ entry pm t k
  kept_slot t k h l = freed_word pm ts.well addr i r.here r.holds (t + k * 8) (outside t k h l)

  released-IsTable : (t : ℕ) → role t ≢ plain → IsTable after t
  released-IsTable t h =
      let old = ts.table t h in
      record {
        aligned = old.aligned;
        positive = old.positive;
        in_range = old.in_range;
        backs = λ k l.
            freed_backed pm ts.well addr i r.here r.holds (t + k * 8) (outside t k h l)
            ∙ old.backs k l;
      }

  released-Tables : Tables role after
  released-Tables = record {
    well = erased_IsWellFormed pm addr i b ts.well r.free r.in_range r.here r.holds r.apart;
    table = released-IsTable;
    links = λ t k inner l v.
        let e = kept_slot t k (inner-ne-plain (role t) inner) l in
        ap (λ x. role (pte_to_pa x)) e ∙ ts.links t k inner l (subst IsValid e v);
  }

  released-Mapped : (root u q : ℕ) → role root ≡ top → Mapped pm root u q → Mapped after root u q
  released-Mapped root u q is_root m =
      let role1 = table1_role ts root u is_root m.valid0 in
      let role2 = table2_role ts root u is_root m.valid0 m.valid1 in
      let e0 = kept_slot root (va_extract u 0) (λ f. absurd (cc)) (va_extract-lt u 0) in
      let e1 =
        ap (λ t. entry after t (va_extract u 1)) (ap pte_to_pa e0)
        ∙ kept_slot (table1 pm root u) (va_extract u 1) (λ f. absurd (cc)) (va_extract-lt u 1) in
      let e2 =
        ap (λ t. entry after t (va_extract u 2)) (ap pte_to_pa e1)
        ∙ kept_slot (table2 pm root u) (va_extract u 2) (λ f. absurd (cc)) (va_extract-lt u 2) in
      record {
        valid0 = subst IsValid (sym e0) m.valid0;
        valid1 = subst IsValid (sym e1) m.valid1;
        valid2 = subst IsValid (sym e2) m.valid2;
        page = ap pte_to_pa e2 ∙ m.page;
      }

release_steps :
    (pm : PhysicalMemory) (root v p : ℕ)
    → convert pm root v ≡ some p
    → 0 < length pm p
    → release pm root v ≡ some (done, (remove pm p).1)
unfolding release release_loop
release_steps pm root v p e pos = ground arith

-- On well-formed tables, `release` of a mapped address between the reserved blocks, whose block holds
-- no table and is not where the iterator stands, removes that block, whatever its length: the blocks
-- that are left are the others, with their bytes and in their order. The tables stay well formed, and so
-- does every mapping. The address still converts into the block, though no page is there any more.
pub release_lem :
    (role : ℕ → Role) (pm : PhysicalMemory) (root v pa i : ℕ) (b : Block)
    → Tables role pm
    → role root ≡ top
    → Mapped pm root v pa
    → Released pm (pa + v % page_size) i b
    → HoldsNoTable role b
    → (pm' : PhysicalMemory) × (release pm root v ≡ some (done, pm'))
      × (pm'.blocks ≡ erase_at i pm.blocks)
      × Tables role pm'
      × ((a : ℕ) → Holds a b → backed pm' a ≡ false)
      × ((t u q : ℕ) → role t ≡ top → Mapped pm t u q → Mapped pm' t u q)
      × (convert pm' root v ≡ some (pa + v % page_size))
release_lem role pm root v pa i b ts is_root m r clear =
    let addr = pa + v % page_size in
    let pos : 0 < pa = omega (arith, r.free) in
    let found = convert-Mapped ts root v pa is_root m pos in
    let size = length_held pm ts.well addr i r.here r.holds in
    let range = IsRange-held pm ts.well i r.here in
    let tables = released-Tables ts addr i r clear in
    let stays = released-Mapped ts addr i r clear in
    (
      (removed_at pm i).1,
      release_steps pm root v addr found (omega (arith, size, range))
          ∙ ap (λ (t : Status × PhysicalMemory). some (done, t.1))
              (remove_held pm addr i ts.well r.here r.holds),
      refl,
      tables,
      freed_here pm ts.well addr i r.here r.holds,
      stays,
      convert-Mapped tables root v pa is_root (stays root v pa is_root m) pos,
    )
