-- ===== src/Memory/Tables/Leaf.antt =====
-- An entry of level 2 that was not valid is set, as in level 2 of Memory::allocate in
-- src/device/memory.h.
use ventus_driver.Common.{
  ℕ, ◌+◌, ◌*◌, ◌%◌, ◌<◌, ◌≡◌, refl, ◌⊎◌, inl, inr, ◌≢◌, arith, ap, ◌∙◌, sym, subst, true,
}
use native.Mathlib.Decide.{ℕ_discrete}
use ventus_driver.Sv39.{va_extract, pte_to_pa}
use ventus_driver.Sv39.Fields.{va_extract-lt}
use ventus_driver.PhysicalMemory.{PhysicalMemory}
use ventus_driver.PhysicalMemory.Invariant.{IsWellFormed}
use ventus_driver.PhysicalMemory.Words.{word, backed}
use ventus_driver.Memory.Tables.{
  Role, top, plain, middle, bottom, IsInner, child, entry, IsValid, below, IsTable, Tables, table1,
  table2, leaf, Mapped, Unmapped, stops0, stops1, stops2, Grows, entry_apart,
}
use ventus_driver.Memory.Tables.Link.{inner-ne-plain}
use ventus_driver.Memory.Tables.Walks.{
  root-IsTable, table1_role, table1-IsTable, table2_role, table2-IsTable, same0, same1, same_table1,
  same_table2,
}

-- Two addresses have the same three indices.
abbrev pub SamePage : ℕ → ℕ → Type 0
SamePage va u =
    (va_extract u 0 ≡ va_extract va 0)
    × (va_extract u 1 ≡ va_extract va 1)
    × (va_extract u 2 ≡ va_extract va 2)

root_of : Role → ℕ
root_of top = 0
root_of plain = 0
root_of (middle r i) = r
root_of (bottom r i j) = r

first_of_role : Role → ℕ
first_of_role top = 0
first_of_role plain = 0
first_of_role (middle r i) = i
first_of_role (bottom r i j) = i

second_of_role : Role → ℕ
second_of_role top = 0
second_of_role plain = 0
second_of_role (middle r i) = 0
second_of_role (bottom r i j) = j

bottom_parts :
    {r r' i i' j j' : ℕ} → bottom r i j ≡ bottom r' i' j' → (r ≡ r') × (i ≡ i') × (j ≡ j')
unfolding root_of first_of_role second_of_role
bottom_parts e = (ap root_of e, ap first_of_role e, ap second_of_role e)

-- The entry of level 2 for `va` under `root` takes a value.
pub record SetsLeaf (role : ℕ → Role) (pm pm' : PhysicalMemory) (root va : ℕ) : Type 0 where
  pub tables : Tables role pm
  pub is_root : role root ≡ top
  pub valid0 : IsValid (entry pm root (va_extract va 0))
  pub valid1 : IsValid (entry pm (table1 pm root va) (va_extract va 1))
  pub invalid : leaf pm root va % 2 ≡ 0
  pub well : IsWellFormed pm'
  pub more_backed : (a : ℕ) → backed pm a ≡ true → backed pm' a ≡ true
  pub others :
      (a : ℕ) → a % 8 ≡ 0 → a ≢ table2 pm root va + va_extract va 2 * 8 → word pm' a ≡ word pm a

module _ {role : ℕ → Role} {pm pm' : PhysicalMemory} {root va : ℕ}
    (l : SetsLeaf role pm pm' root va) where
  t_role : role (table2 pm root va) ≡ bottom root (va_extract va 0) (va_extract va 1)
  t_role = table2_role l.tables root va l.is_root l.valid0 l.valid1

  t-IsTable : IsTable pm (table2 pm root va)
  t-IsTable = table2-IsTable l.tables root va l.is_root l.valid0 l.valid1

  inner_apart : (u : ℕ) → IsInner (role u) → u ≢ table2 pm root va
  inner_apart u h e = subst IsInner (ap role e ∙ t_role) h

  other_entry :
      (u j : ℕ)
      → IsTable pm u
      → j < 512
      → (u ≢ table2 pm root va) ⊎ (j ≢ va_extract va 2)
      → entry pm' u j ≡ entry pm u j
  other_entry u j h k apart = l.others (u + j * 8) (omega (arith, h.aligned)) λ e.
      let same =
        entry_apart u (table2 pm root va) j (va_extract va 2) h.aligned t-IsTable.aligned k
          (va_extract-lt va 2) e in
      elim apart [ inl f ↦ f same.0 | inr f ↦ f same.1 ]

  leaf_links :
      (u j : ℕ)
      → IsInner (role u)
      → j < 512
      → IsValid (entry pm' u j)
      → role (below pm' u j) ≡ child (role u) u j
  leaf_links u j inner k v =
      let h = l.tables.table u (inner-ne-plain (role u) inner) in
      let same = other_entry u j h k (inl (inner_apart u inner)) in
      ap (λ e. role (pte_to_pa e)) same ∙ l.tables.links u j inner k (subst IsValid same v)

  kept-IsTable : (u : ℕ) → IsTable pm u → IsTable pm' u
  kept-IsTable u h = record {
    aligned = h.aligned;
    positive = h.positive;
    in_range = h.in_range;
    backs = λ j k. l.more_backed _ (h.backs j k);
  }

  pub leaf-Grows : Grows role pm role pm'
  leaf-Grows = record {
    tables = record {
      well = l.well;
      table = λ u h. kept-IsTable u (l.tables.table u h);
      links = leaf_links;
    };
    keeps = λ a al v.
        l.others a al (λ e. absurd (omega (arith, l.invalid, v, ap (λ (x : ℕ). word pm x) e)));
    roles = λ u h. refl;
    more_backed = l.more_backed;
    same_role = λ a h. refl;
  }

  -- The walk for `va` goes the same way and ends in the new entry.
  pub leaf_now : leaf pm' root va ≡ entry pm' (table2 pm root va) (va_extract va 2)
  leaf_now =
      ap (λ u. entry pm' u (va_extract va 2))
        (same_table2 l.tables leaf-Grows root va l.is_root l.valid0 l.valid1)

  pub Mapped_leaf :
      IsValid (entry pm' (table2 pm root va) (va_extract va 2))
      → Mapped pm' root va (below pm' (table2 pm root va) (va_extract va 2))
  Mapped_leaf v = record {
    valid0 = subst IsValid (sym (same0 l.tables leaf-Grows root va l.is_root l.valid0)) l.valid0;
    valid1 =
        subst IsValid (sym (same1 l.tables leaf-Grows root va l.is_root l.valid0 l.valid1))
          l.valid1;
    valid2 = subst IsValid (sym leaf_now) v;
    page = ap pte_to_pa leaf_now;
  }

  module _ (r u : ℕ) (top_role : role r ≡ top) (differs : (r ≢ root) ⊎ (¬ SamePage va u)) where
    leaf_apart :
        (v0 : IsValid (entry pm r (va_extract u 0)))
        → IsValid (entry pm (table1 pm r u) (va_extract u 1))
        → (table2 pm r u ≢ table2 pm root va) ⊎ (va_extract u 2 ≢ va_extract va 2)
    leaf_apart v0 v1 = elim (ℕ_discrete (va_extract u 2) (va_extract va 2)) [
      | no h ↦ inr h
      | yes e2 ↦ inl λ e.
          let roles = sym (table2_role l.tables r u top_role v0 v1) ∙ ap role e ∙ t_role in
          elim differs [
            | inl h ↦ h ((bottom_parts roles).0)
            | inr h ↦ h ((bottom_parts roles).1, (bottom_parts roles).2, e2)
          ]
    ]

  -- Every other unmapped address stays unmapped.
  pub Unmapped-leaf :
      (r u : ℕ) → role r ≡ top → (r ≢ root) ⊎ (¬ SamePage va u) → Unmapped pm r u → Unmapped pm' r u
  Unmapped-leaf r u top_role differs (stops0 z) = stops0 (
      omega (
        arith,
        other_entry r (va_extract u 0) (root-IsTable l.tables r u top_role) (va_extract-lt u 0)
            (inl (inner_apart r (subst IsInner (sym top_role) tt))),
        z,
      ))
  Unmapped-leaf r u top_role differs (stops1 v0 z) =
      let g = leaf-Grows in
      let inner = subst IsInner (sym (table1_role l.tables r u top_role v0)) tt in
      let same =
        ap (λ t. entry pm' t (va_extract u 1)) (same_table1 l.tables g r u top_role v0)
        ∙ other_entry (table1 pm r u) (va_extract u 1) (table1-IsTable l.tables r u top_role v0)
            (va_extract-lt u 1) (inl (inner_apart (table1 pm r u) inner)) in
      stops1 (subst IsValid (sym (same0 l.tables g r u top_role v0)) v0) (omega (arith, same, z))
  Unmapped-leaf r u top_role differs (stops2 v0 v1 z) =
      let g = leaf-Grows in
      let same =
        ap (λ t. entry pm' t (va_extract u 2)) (same_table2 l.tables g r u top_role v0 v1)
        ∙ other_entry (table2 pm r u) (va_extract u 2) (table2-IsTable l.tables r u top_role v0 v1)
            (va_extract-lt u 2) (leaf_apart r u top_role differs v0 v1) in
      stops2 (subst IsValid (sym (same0 l.tables g r u top_role v0)) v0)
        (subst IsValid (sym (same1 l.tables g r u top_role v0 v1)) v1) (omega (arith, same, z))
