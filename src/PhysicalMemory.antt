-- ===== src/PhysicalMemory.antt =====
-- src/device/page.h, class PhysicalMemory: the ordered list of blocks that are in use, with an
-- iterator that insertions start from. `none` is a step with no defined meaning in C++, such as
-- reading through an iterator whose node was erased. Messages by printf are left out.
pub mod Order
pub mod Invariant
pub mod Insert
pub mod Search
pub mod Words
pub mod Reserve
pub mod Erase
pub mod Remove
pub mod Freed
pub mod Data
mod Examples
use ventus_driver.Common.{
  ℕ, zero, suc, ◌+◌, ◌-◌, ◌*◌, ◌/◌, ◌^◌, ◌≤◌, Bool, true, false, Option, none, some, List, [], ◌∷◌,
  ltb, leb, ◌==◌, if◌then◌else◌, ◌>>=◌, u64, sub64, Status, done, failed, get_elem?, drop,
  insert_at, erase_at,
}
use ventus_driver.Sv39.{page_size, max_phy_range}
use ventus_driver.Block.{
  Block, create, copy, end, precedes, succeeds, succeeds_pos, contains, round_up,
}

-- `m_current_block_`: the node at a position, or one past the last, which is `end()`. An iterator
-- to an erased node is `dangling`.
pub data Cursor : Type 0 where
  at : ℕ → Cursor
  dangling : Cursor

pub record PhysicalMemory : Type 0 where
  pub max_range : ℕ
  pub blocks : List Block
  pub cursor : Cursor

-- The first block keeps the addresses below 0x20000000 from use, the second those from the end of
-- the range on.
abbrev pub reserved_size : ℕ
reserved_size = 0x20000000

unfoldable pub init : ℕ → PhysicalMemory
unfolding create
init range =
    let range' = if leb range max_phy_range then range else max_phy_range in
    let max_range = round_up range' in
    record {
      max_range = max_range;
      blocks = create 0 reserved_size false ∷ create max_range page_size false ∷ [];
      cursor = at 0;
    }

copy_blocks : List Block → Option (List Block)
copy_blocks [] = some []
copy_blocks (b ∷ bs) = do let rest = copy_blocks bs; c ← copy b; cs ← rest; some (c ∷ cs)

-- The copy constructor. Of an empty list it leaves `m_max_range_` unset, hence `none`.
unfoldable pub copy_memory : PhysicalMemory → Option PhysicalMemory
unfolding copy_blocks copy
copy_memory p = elim p.blocks [
  | [] ↦ none
  | b ∷ bs ↦ copy_blocks (b ∷ bs) >>= λ copies.
      some (record { max_range = p.max_range; blocks = copies; cursor = at 0 })
]

-- Where a scan from the cursor stops: at a position, at `begin()`, or by reading at `end()`.
pub data Scan : Type 0 where
  found : ℕ → Scan
  exhausted fault : Scan

-- `while (m_current_block_ != begin()) { m_current_block_--; if (*m_current_block_ < blk) … }`
unfoldable pub scan_down : List Block → Block → ℕ → Scan
scan_down blocks blk zero = exhausted
scan_down blocks blk (suc i) = elim (get_elem? blocks i) [
  | none ↦ fault
  | some b ↦ let rest = scan_down blocks blk i in if precedes b blk then found i else rest
]

-- `while (m_current_block_ != end()) { m_current_block_++; if (*m_current_block_ > blk) … }` over
-- the blocks behind the cursor: past the last one it reads at `end()`.
unfoldable pub scan_up : List Block → Block → ℕ → Scan
scan_up [] blk i = fault
scan_up (b ∷ bs) blk i = if succeeds b blk then found i else scan_up bs blk (suc i)

insert_below : PhysicalMemory → Block → Scan → Option (Status × PhysicalMemory)
insert_below pm blk (found i) =
    some (done, record pm { blocks = insert_at (suc i) blk pm.blocks; cursor = at i })
insert_below pm blk exhausted = some (failed, record pm { cursor = at 0 })
insert_below pm blk fault = none

-- The new node stands before the cursor's, which moves up by one position.
insert_above : PhysicalMemory → Block → Scan → Option (Status × PhysicalMemory)
insert_above pm blk (found i) =
    some (done, record pm { blocks = insert_at i blk pm.blocks; cursor = at (suc i) })
insert_above pm blk exhausted = some (failed, pm)
insert_above pm blk fault = none

insert_from : PhysicalMemory → Block → ℕ → Option (Status × PhysicalMemory)
unfolding insert_below insert_above
insert_from pm blk i = elim (get_elem? pm.blocks i) [
  | none ↦ none
  | some current ↦
      if succeeds current blk
      then insert_below pm blk (scan_down pm.blocks blk i)
      else if precedes current blk
      then insert_above pm blk (scan_up (drop (suc i) pm.blocks) blk (suc i))
      else some (failed, pm)
]

unfoldable pub insert : PhysicalMemory → Block → Option (Status × PhysicalMemory)
unfolding insert_from
insert pm blk = elim pm.cursor [ dangling ↦ none | at i ↦ insert_from pm blk i ]

-- The position of the node that `remove` erases.
pub remove_scan : List Block → ℕ → ℕ → Option ℕ
remove_scan [] addr i = none
remove_scan (b ∷ bs) addr i =
    if contains b addr
    then some i
    else if succeeds_pos b addr
    then none
    else remove_scan bs addr (suc i)

-- Iterators to other nodes stay good when a node is erased.
abbrev pub cursor_after_erase : ℕ → Cursor → Cursor
cursor_after_erase i dangling = dangling
cursor_after_erase i (at k) = if k == i then dangling else if ltb i k then at (k - 1) else at k

unfoldable pub remove : PhysicalMemory → ℕ → Status × PhysicalMemory
unfolding remove_scan
remove pm addr = elim (remove_scan pm.blocks addr 0) [
  | none ↦ (failed, pm)
  | some i ↦
      (done, record pm { blocks = erase_at i pm.blocks; cursor = cursor_after_erase i pm.cursor })
]

-- The loop of `usable`, with the limit, the candidate and the rounded size.
pub usable_scan : ℕ → ℕ → List Block → ℕ → ℕ
usable_scan max size [] candidate = 0
usable_scan max size (b ∷ []) candidate = 0
usable_scan max size (b ∷ c ∷ bs) candidate =
    let candidate' = if leb candidate (end b) then end b else candidate in
    let rest = usable_scan max size (c ∷ bs) candidate' in
    if succeeds_pos c (sub64 (u64 (candidate' + size)) 1)
    then if leb (u64 (candidate' + size)) max then candidate' else 0
    else rest

-- `std::next(begin())` of an empty list has no defined meaning.
unfoldable pub usable : PhysicalMemory → ℕ → Option ℕ
unfolding usable_scan
usable pm size = elim pm.blocks [
  | [] ↦ none
  | b ∷ bs ↦ some (usable_scan pm.max_range (round_up size) (b ∷ bs) 0)
]

pub length_scan : List Block → ℕ → ℕ
length_scan [] addr = 0
length_scan (b ∷ bs) addr = if contains b addr then b.size else length_scan bs addr

-- `PhysicalMemory::length`: the size of the block that holds an address, 0 if none does.
unfoldable pub length : PhysicalMemory → ℕ → ℕ
unfolding length_scan
length pm addr = length_scan pm.blocks addr
