-- ===== src/Memory.antt =====
-- src/device/memory.h, class Memory: SV39 page tables in a PhysicalMemory. An operation takes the
-- memory and returns it; `none` is a step with no defined meaning in C++.
pub mod Tables
pub mod Level
pub mod MapPage
pub mod Round
pub mod Allocate
pub mod Descend
pub mod Translate
pub mod Fresh
pub mod Mapping
pub mod Release
pub mod Access
pub mod Contents
pub mod Transfer
pub mod Examples
use ventus_driver.Common.{
  ℕ, zero, suc, ◌+◌, ◌-◌, ◌*◌, ◌/◌, ◌%◌, ◌^◌, Bool, true, false, Option, none, some, ◌==◌,
  if◌then◌else◌, ◌>>=◌, u64, bit_and, bit_or, Status, done, failed,
}
use ventus_driver.Sv39.{page_size, flag_v, flag_r, flag_w, flag_x, va_extract, pte_to_pa, set_pte}
use ventus_driver.Block.{create, round_up}
use ventus_driver.PhysicalMemory.{PhysicalMemory, init, insert, usable}
use ventus_driver.PhysicalMemory.Data.{read_value, write_value}

-- The constructor: `m_pm_` is a PhysicalMemory of the range.
unfoldable pub new : ℕ → PhysicalMemory
unfolding init
new max_range = init max_range

-- `read_value<uint64_t>` and `write_value<uint64_t>`.
abbrev pub read64 : PhysicalMemory → ℕ → Option ℕ
read64 = read_value 8

abbrev pub write64 : PhysicalMemory → ℕ → ℕ → Option (Status × PhysicalMemory)
write64 = write_value 8

pub create_root_pt : PhysicalMemory → Option (ℕ × PhysicalMemory)
create_root_pt pm = usable pm page_size >>= λ root.
    if root == 0
    then some (0, pm)
    else (insert pm (create root page_size true) >>= λ (s, pm'). some (root, pm'))

-- The entry of a table at an index.
abbrev pub slot : ℕ → ℕ → ℕ
slot table index = u64 (table + index * 8)

-- How one step of the walk in `allocate` ends: with the table of the next level, or with no room
-- for a new table, on which `allocate` returns 0.
pub data Walk : Type 0 where
  next : ℕ → PhysicalMemory → Walk
  full : PhysicalMemory → Walk

-- A new table for an entry, or `failed` where no page is free.
pub make_table : PhysicalMemory → ℕ → Option (Status × PhysicalMemory)
make_table pm entry = usable pm page_size >>= λ table.
    if table == 0
    then some (failed, pm)
    else (insert pm (create table page_size true) >>= λ (s, pm1).
        write64 pm1 entry (set_pte table flag_v) >>= λ (s', pm2). some (done, pm2))

pub prepare : PhysicalMemory → ℕ → Option (Status × PhysicalMemory)
unfolding make_table
prepare pm entry = read64 pm entry >>= λ pte.
    if bit_and pte flag_v == 0 then make_table pm entry else some (done, pm)

descend_to : ℕ → Status × PhysicalMemory → Option Walk
unfolding pte_to_pa
descend_to entry (failed, pm) = some (full pm)
descend_to entry (done, pm) = read64 pm entry >>= λ pte. some (next (pte_to_pa pte) pm)

-- Levels 0 and 1 of `allocate`: `last` is the index of the round before.
pub descend : PhysicalMemory → ℕ → ℕ → ℕ → Option Walk
unfolding descend_to prepare
descend pm table index last =
    (if index == last then some (done, pm) else prepare pm (slot table index))
    >>= descend_to (slot table index)

-- Level 2 of `allocate`: an entry that is valid already stays.
pub map_page : PhysicalMemory → ℕ → ℕ → ℕ → ℕ → Option PhysicalMemory
unfolding set_pte
map_page pm table index last pa =
    if index == last
    then some pm
    else (read64 pm (slot table index) >>= λ pte.
        if bit_and pte flag_v == 0
        then (write64 pm (slot table index)
              (set_pte pa (bit_or (bit_or (bit_or flag_r flag_w) flag_x) flag_v))
            >>= λ (s, pm'). some pm')
        else some pm)

-- The indices of the round before, `pt_idx`; at first `~0ull`.
pub record Indices : Type 0 where
  pub level0 : ℕ
  pub level1 : ℕ
  pub level2 : ℕ

abbrev pub unset : Indices
unset = record { level0 = 2 ^ 64 - 1; level1 = 2 ^ 64 - 1; level2 = 2 ^ 64 - 1 }

abbrev pub indices_of : ℕ → Indices
indices_of va = record {
  level0 = va_extract va 0;
  level1 = va_extract va 1;
  level2 = va_extract va 2;
}

-- One round of the loop at the virtual page `va`, mapped to `pa`; `none` inside is the return of 0.
pub allocate_round : PhysicalMemory → ℕ → ℕ → ℕ → Indices → Option (Bool × PhysicalMemory)
allocate_round pm root va pa last = descend pm root (va_extract va 0) last.level0 >>= elim [
  | full pm1 ↦ some (false, pm1)
  | next table1 pm1 ↦ descend pm1 table1 (va_extract va 1) last.level1 >>= elim [
    | full pm2 ↦ some (false, pm2)
    | next table2 pm2 ↦
        map_page pm2 table2 (va_extract va 2) last.level2 pa >>= λ pm3. some (true, pm3)
  ]
]

-- The loop, over the rounds that are left.
pub allocate_loop : ℕ → PhysicalMemory → ℕ → ℕ → ℕ → ℕ → Indices → Option (ℕ × PhysicalMemory)
allocate_loop zero pm root v_addr p_addr iter last = some (p_addr, pm)
allocate_loop (suc rounds) pm root v_addr p_addr iter last =
    let va = u64 (v_addr + iter) in
    allocate_round pm root va (u64 (p_addr + iter)) last >>= λ (mapped, pm'). elim mapped [
      | false ↦ some (0, pm')
      | true ↦ allocate_loop rounds pm' root v_addr p_addr (iter + page_size) (indices_of va)
    ]

allocate_from : ℕ → ℕ → ℕ → ℕ → Status × PhysicalMemory → Option (ℕ × PhysicalMemory)
allocate_from root v_addr p_addr length (failed, pm) = some (0, pm)
allocate_from root v_addr p_addr length (done, pm) =
    allocate_loop (length / page_size) pm root v_addr p_addr 0 unset

pub allocate : PhysicalMemory → ℕ → ℕ → ℕ → Option (ℕ × PhysicalMemory)
unfolding allocate_from
allocate pm root v_addr size =
    let length = round_up size in
    usable pm length >>= λ p_addr.
    if p_addr == 0
    then some (0, pm)
    else (insert pm (create p_addr length true) >>= allocate_from root v_addr p_addr length)

-- From a virtual to a physical address, 0 if there is none. An entry counts by its address alone.
unfoldable pub convert : PhysicalMemory → ℕ → ℕ → Option ℕ
unfolding va_extract pte_to_pa
convert pm root v_addr = read64 pm (slot root (va_extract v_addr 0)) >>= λ pte0.
    let table1 = pte_to_pa pte0 in
    if table1 == 0
    then some 0
    else (read64 pm (slot table1 (va_extract v_addr 1)) >>= λ pte1.
        let table2 = pte_to_pa pte1 in
        if table2 == 0
        then some 0
        else (read64 pm (slot table2 (va_extract v_addr 2)) >>= λ pte2.
            let p_addr = pte_to_pa pte2 in
            some (if p_addr == 0 then 0 else bit_or p_addr (bit_and v_addr 0xfff))))
