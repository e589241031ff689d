-- ===== src/Memory/MapPage.antt =====
-- Level 2 of a round of Memory::allocate in src/device/memory.h.
use ventus_driver.Common.{
  ℕ, ◌+◌, ◌*◌, ◌%◌, ◌^◌, ◌<◌, ◌≡◌, refl, ◌⊎◌, ◌≢◌, arith, ap, ◌∙◌, some, ◌==◌, if◌then◌else◌,
  bit_or,
}
use native.Mathlib.Decide.{ℕ_discrete}
use ventus_driver.Sv39.{page_size, va_extract, pte_to_pa, set_pte, flag_v, flag_r, flag_w, flag_x}
use ventus_driver.Sv39.Fields.{va_extract-lt}
use ventus_driver.Sv39.RoundTrip.{pte_to_pa-set_pte, set_pte_valid, set_pte-lt}
use ventus_driver.PhysicalMemory.{PhysicalMemory}
use ventus_driver.PhysicalMemory.Words.{
  word, poked, write_value-poked, poked-IsWellFormed, word-poked, backed-poked,
}
use ventus_driver.Memory.Tables.{
  Role, top, entry, IsValid, below, IsTable, Tables, table1, table2, leaf, Mapped, Unmapped, stops0,
  stops1, stops2, Grows, Grows-refl,
}
use ventus_driver.Memory.Tables.Walks.{table2-IsTable}
use ventus_driver.Memory.Tables.Leaf.{SamePage, SetsLeaf, leaf-Grows, Mapped_leaf, Unmapped-leaf}
use ventus_driver.Memory.Descend.{read64-entry, slot_lem, IsTable-word, valid_bit}
use ventus_driver.Memory.{write64, map_page}

-- The flags of a page: R | W | X | V.
abbrev page_flags : ℕ
page_flags = bit_or (bit_or (bit_or flag_r flag_w) flag_x) flag_v

-- A mapped address is not unmapped.
pub not-Mapped-Unmapped :
    {pm : PhysicalMemory} {root va pa : ℕ} → Mapped pm root va pa → ¬ Unmapped pm root va
not-Mapped-Unmapped m (stops0 z) = omega (arith, m.valid0)
not-Mapped-Unmapped m (stops1 v z) = omega (arith, m.valid1)
not-Mapped-Unmapped m (stops2 v v' z) = omega (arith, m.valid2)

-- What a call of `map_page` for `va` comes to.
pub record PageMapped (role : ℕ → Role) (pm pm' : PhysicalMemory) (root va pa : ℕ) : Type 0 where
  pub grows : Grows role pm role pm'
  pub target : ℕ
  pub mapped : Mapped pm' root va target
  pub as_asked : Unmapped pm root va → target ≡ pa
  pub apart :
      (r u : ℕ) → role r ≡ top → (r ≢ root) ⊎ (¬ SamePage va u) → Unmapped pm r u → Unmapped pm' r u

module _ (role : ℕ → Role) (pm : PhysicalMemory) (ts : Tables role pm) (root va pa last : ℕ)
    (is_root : role root ≡ top) (v0 : IsValid (entry pm root (va_extract va 0)))
    (v1 : IsValid (entry pm (table1 pm root va) (va_extract va 1))) (aligned : pa % page_size ≡ 0)
    (in_range : pa < 2 ^ 56) (uncached : va_extract va 2 ≢ last) where
  abbrev t2 : ℕ
  t2 = table2 pm root va

  abbrev i2 : ℕ
  i2 = va_extract va 2

  t2-IsTable : IsTable pm t2
  t2-IsTable = table2-IsTable ts root va is_root v0 v1

  map_page_valid : IsValid (leaf pm root va) → map_page pm t2 i2 last pa ≡ some pm
  unfolding map_page
  map_page_valid v = ground (
    arith,
    read64-entry pm t2 i2 ts.well t2-IsTable (va_extract-lt va 2),
    valid_bit (leaf pm root va),
  )

  abbrev leaf_pm : PhysicalMemory
  leaf_pm = poked pm (t2 + i2 * 8) (set_pte pa page_flags)

  map_page_invalid : leaf pm root va % 2 ≡ 0 → map_page pm t2 i2 last pa ≡ some leaf_pm
  unfolding map_page
  map_page_invalid z =
      let stored =
        ap (λ a. write64 pm a (set_pte pa page_flags))
          (slot_lem t2 i2 t2-IsTable (va_extract-lt va 2))
        ∙ write_value-poked pm ts.well (t2 + i2 * 8)
            (IsTable-word t2 i2 t2-IsTable (va_extract-lt va 2)) (set_pte pa page_flags) in
      ground (
        arith,
        read64-entry pm t2 i2 ts.well t2-IsTable (va_extract-lt va 2),
        valid_bit (leaf pm root va),
        stored,
      )

  leaf_word :
      (x : ℕ)
      → x % 8 ≡ 0
      → word leaf_pm x ≡ (if x == t2 + i2 * 8 then set_pte pa page_flags else word pm x)
  leaf_word x al = ground (
    arith,
    t2-IsTable.backs i2 (va_extract-lt va 2),
    word-poked pm ts.well (t2 + i2 * 8) (IsTable-word t2 i2 t2-IsTable (va_extract-lt va 2))
        (set_pte pa page_flags) x (set_pte-lt pa page_flags (omega arith)) al,
  )

  sets_leaf : leaf pm root va % 2 ≡ 0 → SetsLeaf role pm leaf_pm root va
  sets_leaf z = record {
    tables = ts;
    is_root = is_root;
    valid0 = v0;
    valid1 = v1;
    invalid = z;
    well =
        poked-IsWellFormed pm ts.well (t2 + i2 * 8)
          (IsTable-word t2 i2 t2-IsTable (va_extract-lt va 2)) (set_pte pa page_flags);
    more_backed = λ a h.
        backed-poked pm ts.well (t2 + i2 * 8) (IsTable-word t2 i2 t2-IsTable (va_extract-lt va 2))
          (set_pte pa page_flags) a
        ∙ h;
    others = λ a al apart. ground (arith, leaf_word a al);
  }

  new_leaf : entry leaf_pm t2 i2 ≡ set_pte pa page_flags
  new_leaf =
      ground (arith, leaf_word (t2 + i2 * 8) (IsTable-word t2 i2 t2-IsTable (va_extract-lt va 2)).0)

  new-IsValid : IsValid (entry leaf_pm t2 i2)
  new-IsValid = omega (
    arith,
    new_leaf,
    set_pte_valid pa page_flags (omega arith),
    valid_bit (set_pte pa page_flags),
  )

  new_page : below leaf_pm t2 i2 ≡ pa
  new_page =
      ap pte_to_pa new_leaf
      ∙ omega (arith, pte_to_pa-set_pte pa page_flags in_range (omega arith), aligned)

  pub map_page-PageMapped :
      (pm' : PhysicalMemory) × (map_page pm t2 i2 last pa ≡ some pm')
      × PageMapped role pm pm' root va pa
  map_page-PageMapped = elim (ℕ_discrete (leaf pm root va % 2) 1) [
    | yes v ↦
        let mapped : Mapped pm root va (pte_to_pa (leaf pm root va)) = record {
          valid0 = v0;
          valid1 = v1;
          valid2 = v;
          page = refl;
        } in
        (
          pm,
          map_page_valid v,
          record {
            grows = Grows-refl role pm ts;
            target = pte_to_pa (leaf pm root va);
            mapped = mapped;
            as_asked = λ u. absurd (not-Mapped-Unmapped mapped u);
            apart = λ r u e differs h. h;
          },
        )
    | no h ↦
        let z : leaf pm root va % 2 ≡ 0 = omega arith in
        let l = sets_leaf z in
        (
          leaf_pm,
          map_page_invalid z,
          record {
            grows = leaf-Grows l;
            target = below leaf_pm t2 i2;
            mapped = Mapped_leaf l new-IsValid;
            as_asked = λ u. new_page;
            apart = Unmapped-leaf l;
          },
        )
  ]
