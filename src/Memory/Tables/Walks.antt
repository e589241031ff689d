-- ===== src/Memory/Tables/Walks.antt =====
-- Walks in page tables that grow, as Memory::allocate of src/device/memory.h makes them: mapped
-- addresses keep their page, and a new table maps nothing.
use ventus_driver.Common.{
  ℕ, ◌+◌, ◌*◌, ◌%◌, ◌<◌, ◌≡◌, ◌⊎◌, inl, inr, arith, ap, ap₂, ◌∙◌, sym, subst,
}
use native.Mathlib.Decide.{ℕ_discrete}
use ventus_driver.Sv39.{va_extract, pte_to_pa}
use ventus_driver.Sv39.Fields.{va_extract-lt}
use ventus_driver.PhysicalMemory.{PhysicalMemory}
use ventus_driver.Memory.Tables.{
  Role, top, middle, bottom, IsInner, child, entry, IsValid, below, IsTable, Tables, table1, table2,
  leaf, Mapped, Unmapped, stops0, stops1, stops2, Grows,
}
use ventus_driver.Memory.Tables.Link.{Links, link-Grows, fresh_entry, other_entry}

-- The tables of a walk through valid entries have the roles of their places.
module _ {role : ℕ → Role} {pm : PhysicalMemory} (ts : Tables role pm) (r va : ℕ)
    (root : role r ≡ top) where
  pub root-IsTable : IsTable pm r
  root-IsTable = ts.table r (λ e. absurd (cc))

  pub table1_role :
      IsValid (entry pm r (va_extract va 0)) → role (table1 pm r va) ≡ middle r (va_extract va 0)
  table1_role v =
      ts.links r (va_extract va 0) (subst IsInner (sym root) tt) (va_extract-lt va 0) v
      ∙ ap (λ q. child q r (va_extract va 0)) root

  pub table1-IsTable : IsValid (entry pm r (va_extract va 0)) → IsTable pm (table1 pm r va)
  table1-IsTable v = let e = table1_role v in ts.table (table1 pm r va) (λ f. absurd (cc))

  pub table2_role :
      IsValid (entry pm r (va_extract va 0))
      → IsValid (entry pm (table1 pm r va) (va_extract va 1))
      → role (table2 pm r va) ≡ bottom r (va_extract va 0) (va_extract va 1)
  table2_role v v' =
      let e = table1_role v in
      ts.links (table1 pm r va) (va_extract va 1) (subst IsInner (sym e) tt) (va_extract-lt va 1) v'
      ∙ ap (λ q. child q (table1 pm r va) (va_extract va 1)) e

  pub table2-IsTable :
      IsValid (entry pm r (va_extract va 0))
      → IsValid (entry pm (table1 pm r va) (va_extract va 1))
      → IsTable pm (table2 pm r va)
  table2-IsTable v v' = let e = table2_role v v' in ts.table (table2 pm r va) (λ f. absurd (cc))

module _ {role role' : ℕ → Role} {pm pm' : PhysicalMemory} (ts : Tables role pm)
    (g : Grows role pm role' pm') where
  pub kept_entry : (t i : ℕ) → IsTable pm t → IsValid (entry pm t i) → entry pm' t i ≡ entry pm t i
  kept_entry t i h v = g.keeps (t + i * 8) (omega (arith, h.aligned)) v

  module _ (r va : ℕ) (root : role r ≡ top) (v0 : IsValid (entry pm r (va_extract va 0))) where
    pub same0 : entry pm' r (va_extract va 0) ≡ entry pm r (va_extract va 0)
    same0 = kept_entry r (va_extract va 0) (root-IsTable ts r va root) v0

    pub same_table1 : table1 pm' r va ≡ table1 pm r va
    same_table1 = ap pte_to_pa same0

    module _ (v1 : IsValid (entry pm (table1 pm r va) (va_extract va 1))) where
      pub same1 :
          entry pm' (table1 pm' r va) (va_extract va 1)
          ≡ entry pm (table1 pm r va) (va_extract va 1)
      same1 =
          ap (λ t. entry pm' t (va_extract va 1)) same_table1
          ∙ kept_entry (table1 pm r va) (va_extract va 1) (table1-IsTable ts r va root v0) v1

      pub same_table2 : table2 pm' r va ≡ table2 pm r va
      same_table2 = ap pte_to_pa same1

  -- A mapped address keeps its page.
  pub Mapped-Grows : (r va pa : ℕ) → role r ≡ top → Mapped pm r va pa → Mapped pm' r va pa
  Mapped-Grows r va pa root m =
      let e0 = same0 r va root m.valid0 in
      let e1 = same1 r va root m.valid0 m.valid1 in
      let e2 =
        ap (λ t. entry pm' t (va_extract va 2)) (same_table2 r va root m.valid0 m.valid1)
        ∙ kept_entry (table2 pm r va) (va_extract va 2)
            (table2-IsTable ts r va root m.valid0 m.valid1) m.valid2 in
      record {
        valid0 = subst IsValid (sym e0) m.valid0;
        valid1 = subst IsValid (sym e1) m.valid1;
        valid2 = subst IsValid (sym e2) m.valid2;
        page = ap pte_to_pa e2 ∙ m.page;
      }

module _ {role : ℕ → Role} {pm pm' : PhysicalMemory} {t i p : ℕ} (l : Links role pm pm' t i p) where
  -- An entry of a table after a link: the new one, or as before.
  entry_after :
      (u j : ℕ) → IsTable pm u → j < 512 → ((u ≡ t) × (j ≡ i)) ⊎ (entry pm' u j ≡ entry pm u j)
  entry_after u j h k = elim (ℕ_discrete u t) [
    | no a ↦ inr (other_entry l u j h.aligned k (inl a))
    | yes e ↦ elim (ℕ_discrete j i) [
      | no a ↦ inr (other_entry l u j h.aligned k (inr a))
      | yes f ↦ inl (e, f)
    ]
  ]

  new_entry : (u j : ℕ) → u ≡ t → j ≡ i → IsValid (entry pm' u j) × (below pm' u j ≡ p)
  new_entry u j e f =
      let same = ap₂ (entry pm') e f in
      (subst IsValid (sym same) l.linked, ap pte_to_pa same ∙ l.names)

  module _ (r va : ℕ) (root : role r ≡ top) where
    after0 : entry pm r (va_extract va 0) % 2 ≡ 0 → Unmapped pm' r va
    after0 z =
        elim (entry_after r (va_extract va 0) (root-IsTable l.tables r va root)
          (va_extract-lt va 0)) [
            | inr e ↦ stops0 (omega (arith, e))
            | inl (e, f) ↦
                let (v, b) = new_entry r (va_extract va 0) e f in
                let zero1 =
                  ap (λ t. entry pm' t (va_extract va 1)) b
                  ∙ fresh_entry l (va_extract va 1) (va_extract-lt va 1) in
                stops1 v (omega (arith, zero1))
          ]

    module _ (v0 : IsValid (entry pm r (va_extract va 0))) where
      after1 : entry pm (table1 pm r va) (va_extract va 1) % 2 ≡ 0 → Unmapped pm' r va
      after1 z =
          let g = link-Grows l in
          let kept0 = subst IsValid (sym (same0 l.tables g r va root v0)) v0 in
          let moved =
            ap (λ u. entry pm' u (va_extract va 1)) (same_table1 l.tables g r va root v0) in
          elim (entry_after (table1 pm r va) (va_extract va 1)
            (table1-IsTable l.tables r va root v0) (va_extract-lt va 1)) [
              | inr e ↦ stops1 kept0 (omega (arith, moved, e))
              | inl (e, f) ↦
                  let (v, b) = new_entry (table1 pm r va) (va_extract va 1) e f in
                  let zero2 =
                    ap (λ u. entry pm' u (va_extract va 2)) (ap pte_to_pa moved ∙ b)
                    ∙ fresh_entry l (va_extract va 2) (va_extract-lt va 2) in
                  stops2 kept0 (subst IsValid (sym moved) v) (omega (arith, zero2))
            ]

      after2 :
          IsValid (entry pm (table1 pm r va) (va_extract va 1))
          → leaf pm r va % 2 ≡ 0
          → Unmapped pm' r va
      after2 v1 z =
          let g = link-Grows l in
          let u = table2 pm r va in
          let role2 = table2_role l.tables r va root v0 v1 in
          let away = λ (e : u ≡ t). subst IsInner (sym (ap role e) ∙ role2) l.inner in
          let kept =
            ap (λ u. entry pm' u (va_extract va 2)) (same_table2 l.tables g r va root v0 v1)
            ∙ other_entry l u (va_extract va 2) (table2-IsTable l.tables r va root v0 v1).aligned
                (va_extract-lt va 2) (inl away) in
          stops2 (subst IsValid (sym (same0 l.tables g r va root v0)) v0)
            (subst IsValid (sym (same1 l.tables g r va root v0 v1)) v1) (omega (arith, kept, z))

  -- An unmapped address stays unmapped.
  pub Unmapped-link : (r va : ℕ) → role r ≡ top → Unmapped pm r va → Unmapped pm' r va
  Unmapped-link r va root (stops0 z) = after0 r va root z
  Unmapped-link r va root (stops1 v0 z) = after1 r va root v0 z
  Unmapped-link r va root (stops2 v0 v1 z) = after2 r va root v0 v1 z
