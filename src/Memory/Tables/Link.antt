-- ===== src/Memory/Tables/Link.antt =====
-- A fresh, zeroed page becomes the table of an entry that was not valid, as in levels 0 and 1 of
-- Memory::allocate in src/device/memory.h.
use ventus_driver.Common.{
  false, ℕ, ◌+◌, ◌*◌, ◌%◌, ◌<◌, ◌≡◌, ◌⊎◌, inl, inr, ◌≢◌, true, arith, ap, ap₂, ◌∙◌, sym, subst,
  ◌==◌, if◌then◌else◌,
}
use mathlib.Core.Bool.{false≢true}
use native.Mathlib.Decide.{ℕ_discrete}
use ventus_driver.Sv39.{page_size, pte_to_pa}
use ventus_driver.PhysicalMemory.{PhysicalMemory}
use ventus_driver.PhysicalMemory.Invariant.{IsWellFormed}
use ventus_driver.PhysicalMemory.Words.{word, backed}
use ventus_driver.Memory.Tables.{
  Role, top, plain, middle, bottom, IsInner, child, entry, IsValid, below, IsTable, Tables, Grows,
  entry_apart,
}

pub record Links (role : ℕ → Role) (pm pm' : PhysicalMemory) (t i p : ℕ) : Type 0 where
  pub tables : Tables role pm
  pub inner : IsInner (role t)
  pub index : i < 512
  pub invalid : entry pm t i % 2 ≡ 0
  pub well : IsWellFormed pm'
  pub more_backed : (a : ℕ) → backed pm a ≡ true → backed pm' a ≡ true
  pub fresh : IsTable pm' p
  pub unused : role p ≡ plain
  pub was_free : backed pm p ≡ false
  pub zeroed : (j : ℕ) → j < 512 → entry pm p j ≡ 0
  pub linked : IsValid (entry pm' t i)
  pub names : below pm' t i ≡ p
  pub others : (a : ℕ) → a % 8 ≡ 0 → a ≢ t + i * 8 → word pm' a ≡ word pm a

abbrev pub assign : (ℕ → Role) → ℕ → Role → ℕ → Role
assign role p r x = if x == p then r else role x

pub assign_same : (role : ℕ → Role) (p : ℕ) (r : Role) → assign role p r p ≡ r
assign_same role p r = ground arith

pub assign_other : (role : ℕ → Role) (p : ℕ) (r : Role) (x : ℕ) → x ≢ p → assign role p r x ≡ role x
assign_other role p r x h = ground arith

pub inner-ne-plain : (r : Role) → IsInner r → r ≢ plain
inner-ne-plain top h e = cc
inner-ne-plain plain h e = h
inner-ne-plain (middle r i) h e = cc
inner-ne-plain (bottom r i j) h e = h

pub child-ne-plain : (r : Role) (u j : ℕ) → IsInner r → child r u j ≢ plain
child-ne-plain top u j h e = cc
child-ne-plain plain u j h e = h
child-ne-plain (middle r k) u j h e = cc
child-ne-plain (bottom r k k') u j h e = h

-- A table one level down is itself no inner table of the level above, nor the same page.
module _ {role : ℕ → Role} {pm pm' : PhysicalMemory} {t i p : ℕ} (l : Links role pm pm' t i p) where
  abbrev pub role' : ℕ → Role
  role' = assign role p (child (role t) t i)

  t-ne-p : t ≢ p
  t-ne-p e = inner-ne-plain (role t) l.inner (ap role e ∙ l.unused)

  t-IsTable : IsTable pm t
  t-IsTable = l.tables.table t (inner-ne-plain (role t) l.inner)

  kept-IsTable : (u : ℕ) → IsTable pm u → IsTable pm' u
  kept-IsTable u h = record {
    aligned = h.aligned;
    positive = h.positive;
    in_range = h.in_range;
    backs = λ j k. l.more_backed _ (h.backs j k);
  }

  tables_kept : (u : ℕ) → role' u ≢ plain → IsTable pm' u
  tables_kept u h = elim (ℕ_discrete u p) [
    | yes e ↦ subst (IsTable pm') (sym e) l.fresh
    | no e ↦ kept-IsTable u (l.tables.table u (λ q. h (assign_other role p _ u e ∙ q)))
  ]

  pub fresh_entry : (j : ℕ) → j < 512 → entry pm' p j ≡ 0
  fresh_entry j k =
      l.others (p + j * 8) (omega (arith, l.fresh.aligned))
        (λ e. t-ne-p (sym (entry_apart p t j i l.fresh.aligned t-IsTable.aligned k l.index e).0))
      ∙ l.zeroed j k

  pub other_entry :
      (u j : ℕ) → u % page_size ≡ 0 → j < 512 → (u ≢ t) ⊎ (j ≢ i) → entry pm' u j ≡ entry pm u j
  other_entry u j al k apart = l.others (u + j * 8) (omega arith) λ e.
      let same = entry_apart u t j i al t-IsTable.aligned k l.index e in
      elim apart [ inl h ↦ h same.0 | inr h ↦ h same.1 ]

  linked_here : (u j : ℕ) → u ≡ t → j ≡ i → u ≢ p → role' (below pm' u j) ≡ child (role' u) u j
  linked_here u j e f apart =
      ap role' (ap₂ (below pm') e f ∙ l.names)
      ∙ assign_same role p (child (role t) t i)
      ∙ sym (
          ap (λ r. child r u j) (assign_other role p _ u apart)
          ∙ ap₂ (λ x y. child (role x) x y) e f)

  linked_there :
      (u j : ℕ)
      → u ≢ p
      → (u ≢ t) ⊎ (j ≢ i)
      → IsInner (role u)
      → j < 512
      → IsValid (entry pm' u j)
      → role' (below pm' u j) ≡ child (role' u) u j
  linked_there u j apart differ inner k v =
      let table = l.tables.table u (inner-ne-plain (role u) inner) in
      let same = other_entry u j table.aligned k differ in
      let old = l.tables.links u j inner k (subst IsValid same v) in
      ap (λ e. role' (pte_to_pa e)) same
      ∙ assign_other role p _ (below pm u j)
          (λ e. child-ne-plain (role u) u j inner (sym old ∙ ap role e ∙ l.unused))
      ∙ old
      ∙ sym (ap (λ r. child r u j) (assign_other role p _ u apart))

  links_kept :
      (u j : ℕ)
      → IsInner (role' u)
      → j < 512
      → IsValid (entry pm' u j)
      → role' (below pm' u j) ≡ child (role' u) u j
  links_kept u j inner k v = elim (ℕ_discrete u p) [
    | yes e ↦ absurd (omega (arith, v, fresh_entry j k, ap (λ (x : ℕ). entry pm' x j) e))
    | no apart ↦
        let inner' = subst IsInner (assign_other role p _ u apart) inner in
        elim (ℕ_discrete u t) [
          | no h ↦ linked_there u j apart (inl h) inner' k v
          | yes e ↦ elim (ℕ_discrete j i) [
            | yes f ↦ linked_here u j e f apart
            | no h ↦ linked_there u j apart (inr h) inner' k v
          ]
        ]
  ]

  -- The tables stay a tree, and no valid entry changes.
  pub link-Grows : Grows role pm role' pm'
  link-Grows = record {
    tables = record { well = l.well; table = tables_kept; links = links_kept };
    keeps = λ a al v.
        l.others a al (λ e. absurd (omega (arith, l.invalid, v, ap (λ (x : ℕ). word pm x) e)));
    roles = λ u h. assign_other role p _ u (λ e. h (ap role e ∙ l.unused));
    more_backed = l.more_backed;
    same_role = λ a h.
        assign_other role p _ a (λ e. false≢true (sym l.was_free ∙ ap (backed pm) (sym e) ∙ h));
  }
