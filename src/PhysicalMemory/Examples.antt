-- ===== src/PhysicalMemory/Examples.antt =====
-- Instances and tests for class PhysicalMemory of src/device/page.h, on a memory of 768 MiB with
-- one page in use.
use ventus_driver.Common.{
  ℕ, zero, suc, ◌≤◌, ◌≡◌, ◌≢◌, refl, arith, ◌⊎◌, inl, inr, [], ◌∷◌, none, some, done, failed, true,
  All, get_elem?, insert_at, erase_at,
}
use ventus_driver.Block.{Block, create, zeroed, round_up}
use ventus_driver.PhysicalMemory.Order.{rank, Clear}
use ventus_driver.PhysicalMemory.Invariant.{IsWellFormed, init-IsWellFormed}
use ventus_driver.PhysicalMemory.Insert.{insert_lem}
use ventus_driver.PhysicalMemory.Reserve.{with_block, insert-IsWellFormed}
use ventus_driver.PhysicalMemory.Search.{FirstGap, usable_lem}
use ventus_driver.PhysicalMemory.Erase.{Holds}
use ventus_driver.PhysicalMemory.Remove.{remove_lem, remove_dangles, remove-IsWellFormed}
use ventus_driver.PhysicalMemory.Words.{backed, IsWordAddr, read-write_value}
use ventus_driver.PhysicalMemory.Data.{read_value, write_value}
use ventus_driver.PhysicalMemory.Data.Peek.{backed_at}
use ventus_driver.PhysicalMemory.{
  PhysicalMemory, at, init, insert, scan_down, scan_up, remove, usable, reserved_size,
  cursor_after_erase,
}

abbrev page_at : ℕ → Block
page_at a = record { addr = a; size = 4096; pages = some (zeroed 4096) }

abbrev reserved : ℕ → ℕ → Block
reserved a n = record { addr = a; size = n; pages = none }

abbrev one_page : PhysicalMemory
one_page = record {
  max_range = 0x30000000;
  blocks = reserved 0 0x20000000 ∷ page_at 0x20000000 ∷ reserved 0x30000000 4096 ∷ [];
  cursor = at 2;
}

-- As the constructor and one allocation of a page leave it.
one_page_made :
    (usable (init 0x30000000) 4096 ≡ some 0x20000000)
    × (insert (init 0x30000000) (create 0x20000000 4096 true) ≡ some (done, one_page))
unfolding usable init insert scan_down scan_up create
one_page_made = (refl, refl)

one_page-IsWellFormed : IsWellFormed one_page
one_page-IsWellFormed = record {
  limit = omega arith;
  limit_pages = omega arith;
  order = omega arith;
  low = (refl, refl, refl);
  high = (refl, refl, refl);
  frames = ((refl, refl, tt), ((refl, refl, omega arith), ((refl, refl, tt), tt)));
  points = omega arith;
}

init-IsWellFormed_example : IsWellFormed (init 0x30000000)
init-IsWellFormed_example = init-IsWellFormed 0x30000000 (omega arith)

abbrev second : Block
second = page_at 0x20001000

second-Clear : Clear second one_page.blocks
second-Clear = (inl (omega arith), (inl (omega arith), (inr (omega arith), tt)))

rank-second : rank second one_page.blocks ≡ 2
unfolding rank
rank-second = refl

insert_lem_example :
    (k : ℕ) × (insert one_page second
      ≡ some (
        done,
        record one_page {
          blocks = insert_at (rank second one_page.blocks) second one_page.blocks;
          cursor = at k;
        },
      ))
    × (k ≤ 3)
insert_lem_example =
    insert_lem one_page second 2 refl (omega arith) one_page-IsWellFormed.order (omega arith)
      second-Clear (omega (arith, rank-second)) (omega (arith, rank-second))

insert-IsWellFormed_example :
    (k : ℕ) × (insert one_page second ≡ some (done, with_block one_page second k))
    × IsWellFormed (with_block one_page second k)
insert-IsWellFormed_example =
    insert-IsWellFormed one_page second one_page-IsWellFormed (omega arith) (omega arith)
      (omega arith) second-Clear (refl, refl, omega arith)

usable_lem_example :
    (p : ℕ) × (usable one_page 5000 ≡ some p)
    × FirstGap reserved_size 0x30000000 one_page.blocks (round_up 5000) p
usable_lem_example = usable_lem one_page 5000 one_page-IsWellFormed (omega arith) (omega arith)

remove_lem_example :
    ((i : ℕ) × (b : Block) × (get_elem? one_page.blocks i ≡ some b)
      × Holds 0x20000800 b
      × (remove one_page 0x20000800 ≡ (
        done,
        record one_page {
          blocks = erase_at i one_page.blocks;
          cursor = cursor_after_erase i one_page.cursor;
        },
      )))
    ⊎ (All (λ b. ¬ Holds 0x20000800 b) one_page.blocks
        × (remove one_page 0x20000800 ≡ (failed, one_page)))
remove_lem_example = remove_lem one_page 0x20000800 one_page-IsWellFormed

abbrev at_page : PhysicalMemory
at_page = record one_page { cursor = at 1 }

at_page-IsWellFormed : IsWellFormed at_page
at_page-IsWellFormed = record {
  limit = omega arith;
  limit_pages = omega arith;
  order = omega arith;
  low = (refl, refl, refl);
  high = (refl, refl, refl);
  frames = ((refl, refl, tt), ((refl, refl, omega arith), ((refl, refl, tt), tt)));
  points = omega arith;
}

remove_dangles_example :
    ((remove at_page 0x20000000).0 ≡ done)
    × ((blk : Block) → insert (remove at_page 0x20000000).1 blk ≡ none)
remove_dangles_example =
    remove_dangles at_page 0x20000000 1 (page_at 0x20000000) at_page-IsWellFormed refl
      (omega arith, omega arith) refl

only_page :
    (i : ℕ) (b : Block)
    → get_elem? one_page.blocks i ≡ some b
    → Holds 0x20000000 b
    → one_page.cursor ≢ at i
only_page zero b e h q = cc
only_page (suc zero) b e h q = absurd (ground (arith, q))
only_page (suc (suc zero)) b e h q = absurd (ground (arith, e, h))
only_page (suc (suc (suc i))) b e h q = absurd (cc)

remove-IsWellFormed_example : IsWellFormed (remove one_page 0x20000000).1
remove-IsWellFormed_example =
    remove-IsWellFormed one_page 0x20000000 one_page-IsWellFormed (omega arith) (omega arith)
      only_page

backed_page : backed one_page 0x20000008 ≡ true
unfolding backed_at
backed_page = refl

read-write_value_example :
    (pm' : PhysicalMemory) × (write_value 8 one_page 0x20000008 77 ≡ some (done, pm'))
    × IsWellFormed pm'
    × (read_value 8 pm' 0x20000008 ≡ some 77)
    × ((x : ℕ) → IsWordAddr x → x ≢ 0x20000008 → read_value 8 pm' x ≡ read_value 8 one_page x)
read-write_value_example =
    read-write_value one_page 0x20000008 77 one_page-IsWellFormed (omega arith) (omega arith)
      backed_page
