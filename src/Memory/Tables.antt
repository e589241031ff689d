-- ===== src/Memory/Tables.antt =====
-- The page tables of src/device/memory.h as a tree: which pages of a PhysicalMemory are tables of
-- which level, and what a walk from a root meets.
pub mod Link
pub mod Walks
pub mod Leaf
use ventus_driver.Common.{
  ℕ, zero, suc, ◌+◌, ◌-◌, ◌*◌, ◌%◌, ◌^◌, ◌≤◌, ◌<◌, ◌≡◌, refl, ◌⊎◌, inl, inr, ◌≢◌, Bool, true, false,
  arith, ap, ◌∙◌, sym, subst, ◌==◌, if◌then◌else◌, u64, ==_iff,
}
use ventus_driver.Sv39.{page_size, va_extract, pte_to_pa}
use ventus_driver.PhysicalMemory.{PhysicalMemory}
use ventus_driver.PhysicalMemory.Invariant.{IsWellFormed}
use ventus_driver.PhysicalMemory.Words.{word, backed}

-- What a page is used for: a root table, the table of a root's entry, the table of an entry of
-- that, or something else.
pub data Role : Type 0 where
  top plain : Role
  middle : ℕ → ℕ → Role
  bottom : ℕ → ℕ → ℕ → Role

abbrev pub IsInner : Role → Type 0
IsInner top = Unit {0}
IsInner plain = ⊥
IsInner (middle r i) = Unit {0}
IsInner (bottom r i j) = ⊥

-- The role of the table that entry `i` of table `t` names.
abbrev pub child : Role → ℕ → ℕ → Role
child top t i = middle t i
child plain t i = plain
child (middle r i) t j = bottom r i j
child (bottom r i j) t k = plain

abbrev pub entry : PhysicalMemory → ℕ → ℕ → ℕ
entry pm t i = word pm (t + i * 8)

abbrev pub IsValid : ℕ → Type 0
IsValid pte = pte % 2 ≡ 1

-- The table or page that an entry names.
abbrev pub below : PhysicalMemory → ℕ → ℕ → ℕ
below pm t i = pte_to_pa (entry pm t i)

pub record IsTable (pm : PhysicalMemory) (t : ℕ) : Type 0 where
  pub aligned : t % page_size ≡ 0
  pub positive : 0 < t
  pub in_range : t < 2 ^ 56
  pub backs : (i : ℕ) → i < 512 → backed pm (t + i * 8) ≡ true

-- The roles fit the memory: tables can be written, and a valid entry names the table of its place.
pub record Tables (role : ℕ → Role) (pm : PhysicalMemory) : Type 0 where
  pub well : IsWellFormed pm
  pub table : (t : ℕ) → role t ≢ plain → IsTable pm t
  pub links :
      (t i : ℕ)
      → IsInner (role t)
      → i < 512
      → IsValid (entry pm t i)
      → role (below pm t i) ≡ child (role t) t i

abbrev pub table1 : PhysicalMemory → ℕ → ℕ → ℕ
table1 pm root va = below pm root (va_extract va 0)

abbrev pub table2 : PhysicalMemory → ℕ → ℕ → ℕ
table2 pm root va = below pm (table1 pm root va) (va_extract va 1)

abbrev pub leaf : PhysicalMemory → ℕ → ℕ → ℕ
leaf pm root va = entry pm (table2 pm root va) (va_extract va 2)

-- The walk for an address goes through valid entries down to level 2, whose entry names a page.
pub record Mapped (pm : PhysicalMemory) (root va pa : ℕ) : Type 0 where
  pub valid0 : IsValid (entry pm root (va_extract va 0))
  pub valid1 : IsValid (entry pm (table1 pm root va) (va_extract va 1))
  pub valid2 : IsValid (leaf pm root va)
  pub page : pte_to_pa (leaf pm root va) ≡ pa

-- The walk meets an entry that is not valid.
pub data Unmapped (pm : PhysicalMemory) (root va : ℕ) : Type 0 where
  stops0 : entry pm root (va_extract va 0) % 2 ≡ 0 → Unmapped pm root va
  stops1 :
      IsValid (entry pm root (va_extract va 0))
      → entry pm (table1 pm root va) (va_extract va 1) % 2 ≡ 0
      → Unmapped pm root va
  stops2 :
      IsValid (entry pm root (va_extract va 0))
      → IsValid (entry pm (table1 pm root va) (va_extract va 1))
      → leaf pm root va % 2 ≡ 0
      → Unmapped pm root va

-- Valid entries stay as they are, tables keep their roles, and so does all that is backed, which stays
-- so.
pub record Grows (role : ℕ → Role) (pm : PhysicalMemory) (role' : ℕ → Role) (pm' : PhysicalMemory)
    : Type 0 where
  pub tables : Tables role' pm'
  pub keeps : (a : ℕ) → a % 8 ≡ 0 → IsValid (word pm a) → word pm' a ≡ word pm a
  pub roles : (t : ℕ) → role t ≢ plain → role' t ≡ role t
  pub more_backed : (a : ℕ) → backed pm a ≡ true → backed pm' a ≡ true
  pub same_role : (a : ℕ) → backed pm a ≡ true → role' a ≡ role a

pub Grows-refl : (role : ℕ → Role) (pm : PhysicalMemory) → Tables role pm → Grows role pm role pm
Grows-refl role pm ts = record {
  tables = ts;
  keeps = λ a al v. refl;
  roles = λ t h. refl;
  more_backed = λ a h. h;
  same_role = λ a h. refl;
}

pub Grows-trans :
    {role role' role'' : ℕ → Role} {pm pm' pm'' : PhysicalMemory}
    → Grows role pm role' pm'
    → Grows role' pm' role'' pm''
    → Grows role pm role'' pm''
Grows-trans {role} {role'} {role''} {pm} {pm'} g h = record {
  tables = h.tables;
  keeps = λ a al v. let e = g.keeps a al v in h.keeps a al (subst IsValid (sym e) v) ∙ e;
  roles = λ t p. let e = g.roles t p in h.roles t (λ q. p (sym e ∙ q)) ∙ e;
  more_backed = λ a k. h.more_backed a (g.more_backed a k);
  same_role = λ a k. h.same_role a (g.more_backed a k) ∙ g.same_role a k;
}

-- An address in a root's table is a multiple of 8, and so on down the walk.
module _ {role : ℕ → Role} {pm : PhysicalMemory} (ts : Tables role pm) where
  pub entry_aligned : (t i : ℕ) → role t ≢ plain → (t + i * 8) % 8 ≡ 0
  entry_aligned t i h = omega (arith, (ts.table t h).aligned)

-- Tables that differ share no entry.
pub entry_apart :
    (t u i j : ℕ)
    → t % page_size ≡ 0
    → u % page_size ≡ 0
    → i < 512
    → j < 512
    → t + i * 8 ≡ u + j * 8
    → (t ≡ u) × (i ≡ j)
entry_apart t u i j al al' h k e = omega arith
