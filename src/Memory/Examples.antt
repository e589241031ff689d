-- ===== src/Memory/Examples.antt =====
-- Instances for class Memory of src/device/memory.h: the first root table of a memory of 768 MiB,
-- and an allocation of two pages under it.
pub mod Sample
use ventus_driver.Common.{
  ℕ, zero, suc, ◌+◌, ◌-◌, ◌*◌, ◌/◌, ◌%◌, ◌^◌, ◌<◌, ◌≤◌, ◌≡◌, ◌≢◌, refl, arith, ◌⊎◌, inl, inr, List,
  [], ◌∷◌, Option, none, some, Status, done, failed, true, false, ◌∙◌, sym, subst,
}
use ventus_driver.Sv39.{page_size, va_extract, set_pte, pte_to_pa}
use ventus_driver.PhysicalMemory.Data.Peek.{peek}
use ventus_driver.PhysicalMemory.Data.{read_value, write_value}
use ventus_driver.Block.{create, round_up}
use ventus_driver.PhysicalMemory.{PhysicalMemory, init, at, usable, insert, scan_down, scan_up}
use ventus_driver.PhysicalMemory.Invariant.{init-IsWellFormed}
use ventus_driver.Memory.Tables.{Role, top, plain, Tables, IsTable, Unmapped, Mapped, Grows}
use ventus_driver.Memory.Tables.Link.{assign}
use ventus_driver.Memory.Fresh.{create_root_pt_lem}
use ventus_driver.Memory.Translate.{convert-Mapped}
use ventus_driver.Memory.Mapping.{Outcome, OthersApart, allocate-Outcome}
use ventus_driver.Memory.{
  create_root_pt, allocate, allocate_loop, allocate_round, descend, map_page, convert,
}

abbrev pub no_roles : ℕ → Role
no_roles = λ t. plain

abbrev boot : PhysicalMemory
boot = init 0x30000000

boot-Tables : Tables no_roles boot
boot-Tables = record {
  well = init-IsWellFormed 0x30000000 (omega arith);
  table = λ t h. absurd (h refl);
  links = λ t i inner k v. absurd inner;
}

create_root_pt_lem_example :
    (create_root_pt boot ≡ some (0, boot))
    ⊎ ((root : ℕ) × (pm' : PhysicalMemory) × (create_root_pt boot ≡ some (root, pm'))
        × (0 < root)
        × Grows no_roles boot (assign no_roles root top) pm'
        × ((va : ℕ) → Unmapped pm' root va))
create_root_pt_lem_example = create_root_pt_lem no_roles boot boot-Tables

abbrev pub root_at : ℕ
root_at = 0x20000000

abbrev pub rooted : PhysicalMemory
rooted = record {
  max_range = 0x30000000;
  blocks = create 0 0x20000000 false ∷ create root_at 4096 true ∷ create 0x30000000 4096 false ∷ [];
  cursor = at 2;
}

rooted_made : create_root_pt boot ≡ some (root_at, rooted)
unfolding create_root_pt init usable insert scan_down scan_up create
rooted_made = refl

abbrev pub roles : ℕ → Role
roles = assign no_roles root_at top

-- The memory that `create_root_pt` returned has well-formed tables under its root.
abbrev RootTables : Option (ℕ × PhysicalMemory) → Type 0
RootTables none = Unit {0}
RootTables (some (root, pm)) = Tables (assign no_roles root top) pm

pub rooted-Tables : Tables roles rooted
rooted-Tables = elim (create_root_pt_lem no_roles boot boot-Tables) [
  | inl e ↦ absurd (cc (rooted_made, e))
  | inr (root, pm', e, pos, g, un) ↦ subst RootTables (sym e ∙ rooted_made) g.tables
]

abbrev two_pages : Option (ℕ × PhysicalMemory)
two_pages = allocate rooted root_at 0x40000000 5000

result : Option (ℕ × PhysicalMemory) → ℕ
result none = 0
result (some r) = r.0

two_pages_at : result two_pages ≡ 0x20001000
unfolding result allocate allocate_loop init usable insert scan_down scan_up create allocate_round
    descend va_extract read_value write_value set_pte map_page
two_pages_at = refl

first-Outcome :
    (p : ℕ) × (pm' : PhysicalMemory) × (role' : ℕ → Role) × (allocate rooted root_at 0x40000000 5000
      ≡ some (p, pm'))
    × Grows roles rooted role' pm'
    × OthersApart roles rooted pm' root_at 0x40000000 (round_up 5000 / page_size)
    × Outcome rooted pm' role' root_at 0x40000000 5000 p
first-Outcome =
    allocate-Outcome roles rooted root_at 0x40000000 5000 rooted-Tables refl refl (omega arith)
      (omega arith) (omega arith)

abbrev memory_of : Option (ℕ × PhysicalMemory) → PhysicalMemory
memory_of none = rooted
memory_of (some r) = r.1

-- The memory after the allocation.
abbrev mapped : PhysicalMemory
mapped = memory_of two_pages

mapped-Tables : (role' : ℕ → Role) × Tables role' mapped × (role' root_at ≡ top)
mapped-Tables =
    let (p, pm', role', e, g, apart, out) = first-Outcome in
    (
      role',
      subst (λ o. Tables role' (memory_of o)) (sym e) g.tables,
      g.roles root_at (λ f. absurd (cc)),
    )

allocate-Outcome_example :
    (p : ℕ) × (pm' : PhysicalMemory) × (role' : ℕ → Role) × (allocate rooted root_at 0x40000000 5000
      ≡ some (p, pm'))
    × Grows roles rooted role' pm'
    × OthersApart roles rooted pm' root_at 0x40000000 (round_up 5000 / page_size)
    × Outcome rooted pm' role' root_at 0x40000000 5000 p
allocate-Outcome_example =
    allocate-Outcome roles rooted root_at 0x40000000 5000 rooted-Tables refl refl (omega arith)
      (omega arith) (omega arith)

second_page-Mapped : Mapped mapped root_at 0x40001234 0x20002000
unfolding allocate allocate_loop init usable insert scan_down scan_up create allocate_round descend
    va_extract read_value write_value set_pte map_page peek pte_to_pa
second_page-Mapped = record { valid0 = refl; valid1 = refl; valid2 = refl; page = refl }

convert-Mapped_example :
    convert mapped root_at 0x40001234 ≡ some (0x20002000 + 0x40001234 % page_size)
convert-Mapped_example =
    convert-Mapped mapped-Tables.1 root_at 0x40001234 0x20002000 mapped-Tables.2 second_page-Mapped
      (omega arith)
