-- ===== src/Memory/Fresh.antt =====
-- Fresh blocks under page tables, and Memory::create_root_pt of src/device/memory.h.
use ventus_driver.Common.{
  ℕ, ◌+◌, ◌*◌, ◌%◌, ◌^◌, ◌<◌, ◌≤◌, ◌≡◌, refl, ◌⊎◌, inl, inr, ◌≢◌, arith, ap, ◌∙◌, sym, subst, true,
  false, some, done,
}
use mathlib.Core.Bool.{false≢true}
use native.Mathlib.Decide.{ℕ_discrete}
use ventus_driver.Sv39.{page_size, va_extract, pte_to_pa}
use ventus_driver.Sv39.Fields.{va_extract-lt}
use ventus_driver.Block.{create}
use ventus_driver.PhysicalMemory.{PhysicalMemory, insert, usable}
use ventus_driver.PhysicalMemory.Invariant.{IsWellFormed}
use ventus_driver.PhysicalMemory.Words.{IsFresh, backed, usable-IsFresh}
use ventus_driver.Memory.Tables.{
  Role, top, plain, IsInner, child, entry, IsValid, below, IsTable, Tables, table1, table2,
  Unmapped, stops0, stops1, stops2, Grows,
}
use ventus_driver.Memory.Descend.{plain_or}
use ventus_driver.Memory.Tables.Link.{child-ne-plain, assign, assign_other}
use ventus_driver.Memory.{create_root_pt}

-- Memory with the same words and no less backing holds the same tables.
module _ {pm pm' : PhysicalMemory} {p n : ℕ} (fresh : IsFresh pm pm' p n) where
  same_entry : (t i : ℕ) → entry pm' t i ≡ entry pm t i
  same_entry t i = fresh.same_words (t + i * 8)

  pub IsTable-fresh : (t : ℕ) → IsTable pm t → IsTable pm' t
  IsTable-fresh t h = record {
    aligned = h.aligned;
    positive = h.positive;
    in_range = h.in_range;
    backs = λ i k. fresh.more_backed (t + i * 8) (h.backs i k);
  }

  pub Tables-fresh : (role : ℕ → Role) → Tables role pm → Tables role pm'
  Tables-fresh role ts = record {
    well = fresh.well;
    table = λ t h. IsTable-fresh t (ts.table t h);
    links = λ t i inner k v.
        let e = same_entry t i in
        ap (λ x. role (pte_to_pa x)) e ∙ ts.links t i inner k (subst IsValid e v);
  }

  pub Grows-fresh : (role : ℕ → Role) → Tables role pm → Grows role pm role pm'
  Grows-fresh role ts = record {
    tables = Tables-fresh role ts;
    keeps = λ a al v. fresh.same_words a;
    roles = λ t h. refl;
    more_backed = fresh.more_backed;
    same_role = λ a h. refl;
  }

  pub Unmapped-fresh : (r va : ℕ) → Unmapped pm r va → Unmapped pm' r va
  Unmapped-fresh r va u = elim u [
    | stops0 z ↦ stops0 (omega (arith, same_entry r (va_extract va 0), z))
    | stops1 v0 z ↦ stops1 (subst IsValid (sym e0) v0) (omega (arith, e1, z))
    | stops2 v0 v1 z ↦
        stops2 (subst IsValid (sym e0) v0) (subst IsValid (sym e1) v1) (omega (arith, e2, z))
  ]
    where
      e0 : entry pm' r (va_extract va 0) ≡ entry pm r (va_extract va 0)
      e0 = same_entry r (va_extract va 0)

      e1 :
          entry pm' (table1 pm' r va) (va_extract va 1)
          ≡ entry pm (table1 pm r va) (va_extract va 1)
      e1 =
          ap (λ t. entry pm' t (va_extract va 1)) (ap pte_to_pa e0)
          ∙ same_entry (table1 pm r va) (va_extract va 1)

      e2 :
          entry pm' (table2 pm' r va) (va_extract va 2)
          ≡ entry pm (table2 pm r va) (va_extract va 2)
      e2 =
          ap (λ t. entry pm' t (va_extract va 2)) (ap pte_to_pa e1)
          ∙ same_entry (table2 pm r va) (va_extract va 2)

-- `usable` and `insert` at a size in whole pages.
pub usable_pages :
    (pm : PhysicalMemory) (n : ℕ)
    → IsWellFormed pm
    → 0 < n
    → n ≤ 2 ^ 56
    → n % page_size ≡ 0
    → (p : ℕ) × (usable pm n ≡ some p)
      × ((p ≡ 0)
          ⊎ ((pm' : PhysicalMemory) × (insert pm (create p n true) ≡ some (done, pm'))
              × IsFresh pm pm' p n))
usable_pages pm n w pos small whole =
    let (p, e, room) = usable-IsFresh pm n w pos small in
    (
      p,
      e,
      subst
          (λ m.
            (p ≡ 0)
            ⊎ ((pm' : PhysicalMemory) × (insert pm (create p m true) ≡ some (done, pm'))
                × IsFresh pm pm' p m))
          (omega arith) room,
    )

-- Tables are backed: what is free has no role.
pub free-plain :
    {role : ℕ → Role} {pm : PhysicalMemory} (a : ℕ)
    → Tables role pm
    → backed pm a ≡ false
    → role a ≡ plain
free-plain {role} {pm} a ts free = elim (plain_or (role a)) [
  | inl e ↦ e
  | inr h ↦
      let held : backed pm (a + 0 * 8) ≡ true = (ts.table a h).backs 0 (omega arith) in
      absurd (false≢true (sym free ∙ ap (backed pm) (omega arith) ∙ held))
]

-- A fresh page, of no role before, becomes a root table.
module _ {role : ℕ → Role} {pm pm' : PhysicalMemory} {p : ℕ} (ts : Tables role pm)
    (fresh : IsFresh pm pm' p page_size) where
  fresh_plain : role p ≡ plain
  fresh_plain = free-plain p ts (fresh.was_free p (omega arith) (omega arith))

  fresh-IsTable : IsTable pm' p
  fresh-IsTable = record {
    aligned = fresh.aligned;
    positive = fresh.positive;
    in_range = omega (arith, fresh.in_range);
    backs = λ i k. fresh.block_backed (p + i * 8) (omega arith) (omega arith);
  }

  fresh_zero : (i : ℕ) → i < 512 → entry pm' p i ≡ 0
  fresh_zero i k = same_entry fresh p i ∙ fresh.was_zero (p + i * 8) (omega arith) (omega arith)

  root_links :
      (t i : ℕ)
      → IsInner (assign role p top t)
      → i < 512
      → IsValid (entry pm' t i)
      → assign role p top (below pm' t i) ≡ child (assign role p top t) t i
  root_links t i inner k v = elim (ℕ_discrete t p) [
    | yes e ↦ absurd (omega (arith, v, ap (λ (x : ℕ). entry pm' x i) e, fresh_zero i k))
    | no apart ↦
        let other = assign_other role p top t apart in
        let inner' = subst IsInner other inner in
        let old = (Tables-fresh fresh role ts).links t i inner' k v in
        assign_other role p top (below pm' t i)
          (λ e. child-ne-plain (role t) t i inner' (sym old ∙ ap role e ∙ fresh_plain))
        ∙ old
        ∙ sym (ap (λ r. child r t i) other)
  ]

  root_tables : (t : ℕ) → assign role p top t ≢ plain → IsTable pm' t
  root_tables t h = elim (ℕ_discrete t p) [
    | yes e ↦ subst (IsTable pm') (sym e) fresh-IsTable
    | no apart ↦ IsTable-fresh fresh t (ts.table t (λ e. h (assign_other role p top t apart ∙ e)))
  ]

  root-Grows : Grows role pm (assign role p top) pm'
  root-Grows = record {
    tables = record { well = fresh.well; table = root_tables; links = root_links };
    keeps = λ a al v. fresh.same_words a;
    roles = λ t h. assign_other role p top t (λ e. h (ap role e ∙ fresh_plain));
    more_backed = fresh.more_backed;
    same_role = λ a h. assign_other role p top a (λ e.
        false≢true
          (sym (fresh.was_free p (omega arith) (omega arith)) ∙ ap (backed pm) (sym e) ∙ h));
  }

root_full :
    (pm : PhysicalMemory) (p : ℕ)
    → usable pm page_size ≡ some p
    → p ≡ 0
    → create_root_pt pm ≡ some (0, pm)
unfolding create_root_pt
root_full pm p e z = ground arith

root_made :
    (pm pm' : PhysicalMemory) (p : ℕ)
    → usable pm page_size ≡ some p
    → 0 < p
    → insert pm (create p page_size true) ≡ some (done, pm')
    → create_root_pt pm ≡ some (p, pm')
unfolding create_root_pt
root_made pm pm' p e pos f = ground arith

-- `create_root_pt` on well-formed tables either finds no page and changes nothing, or returns a new
-- root table that maps nothing; the tables that were there keep their place and their entries.
pub create_root_pt_lem :
    (role : ℕ → Role) (pm : PhysicalMemory)
    → Tables role pm
    → (create_root_pt pm ≡ some (0, pm))
      ⊎ ((root : ℕ) × (pm' : PhysicalMemory) × (create_root_pt pm ≡ some (root, pm'))
          × (0 < root)
          × Grows role pm (assign role root top) pm'
          × ((va : ℕ) → Unmapped pm' root va))
create_root_pt_lem role pm ts =
    let (p, e, room) =
      usable_pages pm page_size ts.well (omega arith) (omega arith) (omega arith) in
    elim room [
      | inl z ↦ inl (root_full pm p e z)
      | inr (pm', inserted, fresh) ↦ inr (
        p,
        pm',
        root_made pm pm' p e fresh.positive inserted,
        fresh.positive,
        root-Grows ts fresh,
        λ va. stops0 (omega (arith, fresh_zero ts fresh (va_extract va 0) (va_extract-lt va 0))),
      )
    ]
