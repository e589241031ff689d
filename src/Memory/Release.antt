-- ===== src/Memory/Release.antt =====
-- Memory::release, clean_pt and clean_task of src/device/memory.h.
pub mod Unmap
use Prim.Native.Nat.{zero}
use ventus_driver.Common.{
  ℕ, suc, ◌+◌, ◌/◌, ◌^◌, Bool, true, false, Option, none, some, ◌==◌, if◌then◌else◌, ◌>>=◌, u64,
  bit_and, Status, done, failed,
}
use ventus_driver.Sv39.{page_size, flag_v, va_extract, pte_to_pa}
use ventus_driver.PhysicalMemory.{PhysicalMemory, remove, length}
use ventus_driver.Memory.{read64, write64, slot, convert}

-- The loop of `release`, over the rounds that are left: it clears the entries of level 2. The
-- indices of levels 0 and 1 are those of `v_addr` in every round.
pub release_loop : ℕ → PhysicalMemory → ℕ → ℕ → ℕ → Option PhysicalMemory
unfolding pte_to_pa
release_loop zero pm root v_addr iter = some pm
release_loop (suc rounds) pm root v_addr iter =
    read64 pm (slot root (va_extract v_addr 0)) >>= λ pte0.
    read64 pm (slot (pte_to_pa pte0) (va_extract v_addr 1)) >>= λ pte1.
    write64 pm (slot (pte_to_pa pte1) (va_extract (u64 (v_addr + iter)) 2)) 0 >>= λ (s, pm').
    release_loop rounds pm' root v_addr (iter + page_size)

-- `uint64_t length = 0`, which nothing sets.
abbrev pub release_length : ℕ
release_length = 0

pub release : PhysicalMemory → ℕ → ℕ → Option (Status × PhysicalMemory)
unfolding convert length remove release_loop
release pm root v_addr = convert pm root v_addr >>= λ p_addr.
    if length pm p_addr == 0
    then some (failed, pm)
    else (release_loop (release_length / page_size) (remove pm p_addr).1 root v_addr 0 >>= λ pm'.
        some (done, pm'))

-- Whether the entry at an address is valid.
pub valid_at : PhysicalMemory → ℕ → Option Bool
valid_at pm addr = read64 pm addr >>= λ pte. some (if bit_and pte flag_v == 0 then false else true)

pub table_at : PhysicalMemory → ℕ → Option ℕ
unfolding pte_to_pa
table_at pm addr = read64 pm addr >>= λ pte. some (pte_to_pa pte)

-- The entries of a table: `PageSize / sizeof(uint64_t)`.
abbrev pub entries : ℕ
entries = 512

-- The loops run over the offsets from `it` on, `left` of them. This one leaves at the first valid
-- entry.
pub table_is_empty : ℕ → PhysicalMemory → ℕ → ℕ → Option Bool
unfolding valid_at
table_is_empty zero pm table it = some true
table_is_empty (suc left) pm table it =
    let rest = table_is_empty left pm table (it + 8) in
    valid_at pm (u64 (table + it)) >>= λ valid. if valid then some false else rest

-- One entry of a level 1 table in `clean_pt`; the flag says that no table was kept so far.
clean_middle_entry : PhysicalMemory → ℕ → Bool → Option (Bool × PhysicalMemory)
unfolding valid_at table_at table_is_empty remove
clean_middle_entry pm addr empty = valid_at pm addr >>= λ valid.
    if valid
    then (table_at pm addr >>= λ table2. table_is_empty entries pm table2 0 >>= λ unused.
        if unused
        then (write64 (remove pm table2).1 addr 0 >>= λ (s, pm'). some (empty, pm'))
        else some (false, pm))
    else some (empty, pm)

clean_middle : ℕ → PhysicalMemory → ℕ → ℕ → Bool → Option (Bool × PhysicalMemory)
unfolding clean_middle_entry
clean_middle zero pm table it empty = some (empty, pm)
clean_middle (suc left) pm table it empty =
    clean_middle_entry pm (u64 (table + it)) empty >>= λ (empty', pm').
    clean_middle left pm' table (it + 8) empty'

clean_root_entry : PhysicalMemory → ℕ → Option PhysicalMemory
unfolding valid_at table_at clean_middle remove
clean_root_entry pm addr = valid_at pm addr >>= λ valid.
    if valid
    then (table_at pm addr >>= λ table1. clean_middle entries pm table1 0 true >>= λ (unused, pm').
        if unused
        then (write64 (remove pm' table1).1 addr 0 >>= λ (s, pm''). some pm'')
        else some pm')
    else some pm

clean_root : ℕ → PhysicalMemory → ℕ → ℕ → Option PhysicalMemory
unfolding clean_root_entry
clean_root zero pm root it = some pm
clean_root (suc left) pm root it =
    clean_root_entry pm (u64 (root + it)) >>= λ pm'. clean_root left pm' root (it + 8)

-- `clean_pt` gives back the tables that hold no valid entry, but the root. It returns 0.
unfoldable pub clean_pt : PhysicalMemory → ℕ → Option (ℕ × PhysicalMemory)
unfolding clean_root
clean_pt pm root = clean_root entries pm root 0 >>= λ pm'. some (0, pm')

-- The three loops of `clean_task`.
drop_pages : ℕ → PhysicalMemory → ℕ → ℕ → Option PhysicalMemory
unfolding valid_at table_at remove
drop_pages zero pm table it = some pm
drop_pages (suc left) pm table it = valid_at pm (u64 (table + it)) >>= λ valid.
    (if valid
      then (table_at pm (u64 (table + it)) >>= λ page. some (remove pm page).1)
      else some pm)
    >>= λ pm'. drop_pages left pm' table (it + 8)

drop_bottoms : ℕ → PhysicalMemory → ℕ → ℕ → Option PhysicalMemory
unfolding valid_at table_at drop_pages remove
drop_bottoms zero pm table it = some pm
drop_bottoms (suc left) pm table it = valid_at pm (u64 (table + it)) >>= λ valid.
    (if valid
      then (table_at pm (u64 (table + it)) >>= λ table2.
          drop_pages entries pm table2 0 >>= λ pm'. some (remove pm' table2).1)
      else some pm)
    >>= λ pm'. drop_bottoms left pm' table (it + 8)

drop_middles : ℕ → PhysicalMemory → ℕ → ℕ → Option PhysicalMemory
unfolding valid_at table_at drop_bottoms remove
drop_middles zero pm table it = some pm
drop_middles (suc left) pm table it = valid_at pm (u64 (table + it)) >>= λ valid.
    (if valid
      then (table_at pm (u64 (table + it)) >>= λ table1.
          drop_bottoms entries pm table1 0 >>= λ pm'. some (remove pm' table1).1)
      else some pm)
    >>= λ pm'. drop_middles left pm' table (it + 8)

-- `clean_task` gives back all pages of a task, its tables and its root. It returns 0.
unfoldable pub clean_task : PhysicalMemory → ℕ → Option (ℕ × PhysicalMemory)
unfolding drop_middles remove
clean_task pm root = drop_middles entries pm root 0 >>= λ pm'. some (0, (remove pm' root).1)
