-- ===== src/Memory/Examples/Sample.antt =====
-- A sample for class Memory of src/device/memory.h: three tables that lead one virtual page to one
-- physical page.
use ventus_driver.Common.{
  ℕ, ◌+◌, ◌*◌, ◌%◌, ◌<◌, ◌≤◌, ◌≡◌, ◌≢◌, refl, arith, ◌⊎◌, [], ◌∷◌, none, some, done, true, false,
  erase_at, ◌∙◌, sym, subst, ap, if◌then◌else◌, ◌==◌,
}
use native.Mathlib.Decide.{ℕ_discrete}
use mathlib.Core.Path.{subst₂}
use ventus_driver.Sv39.{page_size, va_extract, pte_to_pa}
use ventus_driver.Block.{Block, zeroed}
use ventus_driver.PhysicalMemory.{PhysicalMemory, at}
use ventus_driver.PhysicalMemory.Invariant.{IsWellFormed}
use ventus_driver.PhysicalMemory.Data.Peek.{peek, backed_at, word_of_zeroed}
use ventus_driver.PhysicalMemory.Words.{
  word, backed, poked, poked-IsWellFormed, word-poked, backed-poked,
}
use ventus_driver.PhysicalMemory.Data.Poke.{poke}
use ventus_driver.PhysicalMemory.Erase.{Holds}
use ventus_driver.Memory.Tables.{
  Role, top, plain, middle, bottom, IsInner, child, entry, IsValid, below, IsTable, Tables, Mapped,
}
use ventus_driver.Memory.Release.Unmap.{Released, HoldsNoTable, release_lem}
use ventus_driver.Memory.Release.{release}
use ventus_driver.Memory.{convert}
use ventus_driver.Memory.Contents.{InPage}
use ventus_driver.Memory.Transfer.{read_virt-write_virt}
use ventus_driver.Memory.Access.{read_virt, write_virt}
use ventus_driver.Block.Bytes.{splice}
use ventus_driver.PhysicalMemory.Data.Ranges.{spans}
use ventus_driver.PhysicalMemory.Data.Arrays.{filled}

abbrev page_of : ℕ → Block
page_of a = record { addr = a; size = 4096; pages = some (zeroed 4096) }

abbrev fence : ℕ → ℕ → Block
fence a n = record { addr = a; size = n; pages = none }

abbrev level0_at : ℕ
level0_at = 0x20000000

abbrev level1_at : ℕ
level1_at = 0x20001000

abbrev level2_at : ℕ
level2_at = 0x20002000

abbrev data_at : ℕ
data_at = 0x20003000

abbrev blank : PhysicalMemory
blank = record {
  max_range = 0x30000000;
  blocks =
      fence 0 0x20000000
      ∷ page_of 0x20000000
      ∷ page_of 0x20001000
      ∷ page_of 0x20002000
      ∷ page_of 0x20003000
      ∷ fence 0x30000000 4096
      ∷ [];
  cursor = at 1;
}

blank-IsWellFormed : IsWellFormed blank
blank-IsWellFormed = record {
  limit = omega arith;
  limit_pages = omega arith;
  order = omega arith;
  low = (refl, refl, refl);
  high = (refl, refl, refl);
  frames = (
    (refl, refl, tt),
    (
      (refl, refl, omega arith),
      (
        (refl, refl, omega arith),
        ((refl, refl, omega arith), ((refl, refl, omega arith), ((refl, refl, tt), tt))),
      ),
    ),
  );
  points = omega arith;
}

blank-word : (a : ℕ) → word blank a ≡ 0
unfolding peek
blank-word a = grind (arith, word_of_zeroed)

blank-backed : (a : ℕ) → level0_at ≤ a → a < 0x20004000 → backed blank a ≡ true
unfolding backed_at
blank-backed a h k = ground arith

-- The entries: for the table of level 1, that of level 2, and the page.
abbrev linked0 : PhysicalMemory
linked0 = poked blank 0x20000008 0x8000401

abbrev linked1 : PhysicalMemory
linked1 = poked linked0 0x20001000 0x8000801

abbrev pub sample : PhysicalMemory
sample = poked linked1 0x20002000 0x8000c0f

linked0-IsWellFormed : IsWellFormed linked0
linked0-IsWellFormed =
    poked-IsWellFormed blank blank-IsWellFormed 0x20000008 (omega arith) 0x8000401

linked1-IsWellFormed : IsWellFormed linked1
linked1-IsWellFormed =
    poked-IsWellFormed linked0 linked0-IsWellFormed 0x20001000 (omega arith) 0x8000801

sample-IsWellFormed : IsWellFormed sample
sample-IsWellFormed =
    poked-IsWellFormed linked1 linked1-IsWellFormed 0x20002000 (omega arith) 0x8000c0f

linked0-backed : (a : ℕ) → backed linked0 a ≡ backed blank a
linked0-backed a = backed-poked blank blank-IsWellFormed 0x20000008 (omega arith) 0x8000401 a

linked1-backed : (a : ℕ) → backed linked1 a ≡ backed blank a
linked1-backed a =
    backed-poked linked0 linked0-IsWellFormed 0x20001000 (omega arith) 0x8000801 a
    ∙ linked0-backed a

sample-backed : (a : ℕ) → backed sample a ≡ backed blank a
sample-backed a =
    backed-poked linked1 linked1-IsWellFormed 0x20002000 (omega arith) 0x8000c0f a
    ∙ linked1-backed a

linked0-word : (x : ℕ) → x % 8 ≡ 0 → word linked0 x ≡ (if x == 0x20000008 then 0x8000401 else 0)
linked0-word x al =
    let step =
      word-poked blank blank-IsWellFormed 0x20000008 (omega arith) 0x8000401 x (omega arith) al in
    let held = blank-backed 0x20000008 (omega arith) (omega arith) in
    step ∙ rw (held, blank-word x) (ground arith)

linked1-word :
    (x : ℕ)
    → x % 8 ≡ 0
    → word linked1 x
      ≡ (if x == 0x20001000 then 0x8000801 else if x == 0x20000008 then 0x8000401 else 0)
linked1-word x al =
    let step =
      word-poked linked0 linked0-IsWellFormed 0x20001000 (omega arith) 0x8000801 x (omega arith)
        al in
    let held = linked0-backed 0x20001000 ∙ blank-backed 0x20001000 (omega arith) (omega arith) in
    step ∙ rw (held, linked0-word x al) (ground arith)

sample-word :
    (x : ℕ)
    → x % 8 ≡ 0
    → word sample x ≡ (
        if x == 0x20002000
        then 0x8000c0f
        else if x == 0x20001000
        then 0x8000801
        else if x == 0x20000008
        then 0x8000401
        else 0)
sample-word x al =
    let step =
      word-poked linked1 linked1-IsWellFormed 0x20002000 (omega arith) 0x8000c0f x (omega arith)
        al in
    let held = linked1-backed 0x20002000 ∙ blank-backed 0x20002000 (omega arith) (omega arith) in
    step ∙ rw (held, linked1-word x al) (ground arith)

abbrev pub sample_roles : ℕ → Role
sample_roles t =
    if t == 0x20002000
    then bottom 0x20000000 1 0
    else if t == 0x20001000
    then middle 0x20000000 1
    else if t == 0x20000000
    then top
    else plain

is_a_table :
    (t : ℕ) → sample_roles t ≢ plain → (t ≡ 0x20002000) ⊎ (t ≡ 0x20001000) ⊎ (t ≡ 0x20000000)
is_a_table t h = ground arith

sample-IsTable : (t : ℕ) → sample_roles t ≢ plain → IsTable sample t
sample-IsTable t h =
    let cases = is_a_table t h in
    record {
      aligned = omega arith;
      positive = omega arith;
      in_range = omega arith;
      backs =
          λ i k. sample-backed (t + i * 8) ∙ blank-backed (t + i * 8) (omega arith) (omega arith);
    }

no_other : (t : ℕ) → t ≢ 0x20000000 → t ≢ 0x20001000 → IsInner (sample_roles t) → ⊥
no_other t h k inner = ground arith

root_entry : entry sample 0x20000000 1 ≡ 0x8000401
root_entry = sample-word 0x20000008 refl

middle_entry : entry sample 0x20001000 0 ≡ 0x8000801
middle_entry = sample-word 0x20001000 refl

bottom_entry : entry sample 0x20002000 0 ≡ 0x8000c0f
bottom_entry = sample-word 0x20002000 refl

root_below : below sample 0x20000000 1 ≡ 0x20001000
unfolding pte_to_pa
root_below = ap pte_to_pa root_entry

middle_below : below sample 0x20001000 0 ≡ 0x20002000
unfolding pte_to_pa
middle_below = ap pte_to_pa middle_entry

-- The other entries of the inner tables are 0.
root_only : (i : ℕ) → i < 512 → IsValid (entry sample 0x20000000 i) → i ≡ 1
root_only i k v = ground (arith, sample-word (0x20000000 + i * 8) (omega arith))

middle_only : (i : ℕ) → i < 512 → IsValid (entry sample 0x20001000 i) → i ≡ 0
middle_only i k v = ground (arith, sample-word (0x20001000 + i * 8) (omega arith))

abbrev LinksAt : ℕ → ℕ → Type 0
LinksAt t i = sample_roles (below sample t i) ≡ child (sample_roles t) t i

sample_links :
    (t i : ℕ) → IsInner (sample_roles t) → i < 512 → IsValid (entry sample t i) → LinksAt t i
sample_links t i inner k v = elim (ℕ_discrete t 0x20000000) [
  | yes e ↦
      let only = root_only i k (subst (λ x. IsValid (entry sample x i)) e v) in
      subst₂ LinksAt (sym e) (sym only) (ap sample_roles root_below)
  | no h ↦ elim (ℕ_discrete t 0x20001000) [
    | yes e ↦
        let only = middle_only i k (subst (λ x. IsValid (entry sample x i)) e v) in
        subst₂ LinksAt (sym e) (sym only) (ap sample_roles middle_below)
    | no h' ↦ absurd (no_other t h h' inner)
  ]
]

pub sample-Tables : Tables sample_roles sample
sample-Tables = record { well = sample-IsWellFormed; table = sample-IsTable; links = sample_links }

pub sample-Mapped : Mapped sample 0x20000000 0x40000234 0x20003000
unfolding va_extract pte_to_pa
sample-Mapped =
    let e1 = ap (λ t. entry sample t 0) root_below ∙ middle_entry in
    let e2 =
      ap (λ t. entry sample t 0) (ap (λ t. below sample t 0) root_below ∙ middle_below)
      ∙ bottom_entry in
    record {
      valid0 = ap (λ w. w % 2) root_entry;
      valid1 = ap (λ w. w % 2) e1;
      valid2 = ap (λ w. w % 2) e2;
      page = ap pte_to_pa e2;
    }

sample-Released : Released sample 0x20003234 4 (page_of 0x20003000)
unfolding poke
sample-Released = record {
  here = refl;
  holds = (omega arith, omega arith);
  free = omega arith;
  in_range = omega arith;
  apart = λ e. absurd (cc);
}

sample-HoldsNoTable : HoldsNoTable sample_roles (page_of 0x20003000)
sample-HoldsNoTable t h = omega (arith, is_a_table t h)

release_lem_example :
    (pm' : PhysicalMemory) × (release sample 0x20000000 0x40000234 ≡ some (done, pm'))
    × (pm'.blocks ≡ erase_at 4 sample.blocks)
    × Tables sample_roles pm'
    × ((a : ℕ) → Holds a (page_of 0x20003000) → backed pm' a ≡ false)
    × ((t u q : ℕ) → sample_roles t ≡ top → Mapped sample t u q → Mapped pm' t u q)
    × (convert pm' 0x20000000 0x40000234 ≡ some (0x20003000 + 0x40000234 % page_size))
release_lem_example =
    release_lem sample_roles sample 0x20000000 0x40000234 0x20003000 4 (page_of 0x20003000)
      sample-Tables refl sample-Mapped sample-Released sample-HoldsNoTable

pub sample-InPage : InPage sample_roles 0x20003000 0x20003234 100
sample-InPage = record {
  aligned = refl;
  data_page = refl;
  low = omega arith;
  high = omega arith;
  small = omega arith;
}

pub sample-spans : spans sample.blocks 0x20003234 100 ≡ true
unfolding spans poke
sample-spans = refl

read_virt-write_virt_example :
    (write_virt sample 0x20000000 0x40000234 100 (λ i. i)
      ≡ some (done, filled sample 0x20003234 100 (λ i. i)))
    × Tables sample_roles (filled sample 0x20003234 100 (λ i. i))
    × Mapped (filled sample 0x20003234 100 (λ i. i)) 0x20000000 0x40000234 0x20003000
    × (read_virt (filled sample 0x20003234 100 (λ i. i)) 0x20000000 0x40000234 100 (λ i. 7)
        ≡ some (done, splice (λ i. 7) 0 100 (λ i. i)))
read_virt-write_virt_example =
    read_virt-write_virt sample-Tables 0x20000000 0x40000234 0x20003000 100 refl sample-Mapped
      (omega arith) (omega arith) sample-InPage sample-spans (omega arith) (λ i. i) (λ i. 7)
