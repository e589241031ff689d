-- ===== src/Block.antt =====
-- src/device/page.h, classes Page and Block: a range of physical addresses with the bytes that
-- back it. A block that only reserves its range has no pages. Addresses and sizes are uint64_t.
pub mod Bytes
pub mod Access
mod Examples
use ventus_driver.Common.{
  ℕ, ◌+◌, ◌-◌, ◌*◌, ◌/◌, ◌≤◌, min, Bool, true, false, ◌&&◌, Option, none, some, ltb, leb,
  if◌then◌else◌, ◌>>=◌, u64, sub64, Status, done, failed,
}
use ventus_driver.Sv39.{page_size}
use Bytes.{Buffer, splice}

-- `capacity` is the length of the array `m_data_`, and `bytes` what it holds.
pub record Page : Type 0 where
  pub capacity : ℕ
  pub bytes : Buffer

pub record Block : Type 0 where
  pub addr : ℕ
  pub size : ℕ
  pub pages : Option Page

-- `(size + PageSize - 1) / PageSize * PageSize`, as the constructors and `usable` compute it.
abbrev pub round_up : ℕ → ℕ
round_up size = u64 (size + page_size - 1) / page_size * page_size

-- `new uint8_t[size]()`: zeroed.
abbrev pub zeroed : ℕ → Page
zeroed size = record { capacity = size; bytes = λ i. 0 }

unfoldable pub create : ℕ → ℕ → Bool → Block
create addr size create_pages = record {
  addr = addr;
  size = size;
  pages = if create_pages then some (zeroed (round_up size)) else none;
}

-- A copy from outside the array has no defined meaning: `none`.
copy_page : ℕ → Page → Option Page
copy_page size p =
    if leb size p.capacity
    then some (record { capacity = size; bytes = splice (λ i. 0) 0 size p.bytes })
    else none

-- The copy constructor. The move constructor and the move assignment keep the value.
unfoldable pub copy : Block → Option Block
unfolding copy_page
copy b = elim b.pages [
  | none ↦ some (record b { pages = none })
  | some p ↦ copy_page (round_up b.size) p >>= λ q. some (record b { pages = some q })
]

abbrev pub end : Block → ℕ
end b = u64 (b.addr + b.size)

-- `operator<`, `operator>` between blocks, and `operator<`, `operator>`, `operator==` against a
-- position.
abbrev pub precedes : Block → Block → Bool
precedes b other = leb (end b) other.addr

abbrev pub succeeds : Block → Block → Bool
succeeds b other = leb (end other) b.addr

abbrev pub precedes_pos : Block → ℕ → Bool
precedes_pos b pos = leb (end b) pos

abbrev pub succeeds_pos : Block → ℕ → Bool
succeeds_pos b pos = ltb pos b.addr

abbrev pub contains : Block → ℕ → Bool
contains b pos = leb b.addr pos && ltb pos (end b)

abbrev pub is_empty : Block → Bool
is_empty b = elim b.pages [ none ↦ true | some p ↦ false ]

-- `memcpy` into or out of the array; outside it, or with no array, there is no defined meaning.
store : Block → ℕ → ℕ → Buffer → Option Block
store b base n source = elim b.pages [
  | none ↦ none
  | some p ↦
      if leb (base + n) p.capacity
      then some (record b { pages = some (record p { bytes = splice p.bytes base n source }) })
      else none
]

load : Block → ℕ → ℕ → Buffer → Option Buffer
load b base n out = elim b.pages [
  | none ↦ none
  | some p ↦
      if leb (base + n) p.capacity then some (splice out 0 n (λ i. p.bytes (base + i))) else none
]

unfoldable pub write : Block → ℕ → ℕ → Buffer → Option (Status × Block)
unfolding store
write b base length source =
    if ltb b.size (u64 (base + length))
    then some (failed, b)
    else store b base (min length (sub64 b.size base)) source >>= λ b'. some (done, b')

unfoldable pub read : Block → ℕ → ℕ → Buffer → Option (Status × Buffer)
unfolding load
read b base length out =
    if ltb b.size (u64 (base + length))
    then some (failed, out)
    else load b base (min length (sub64 b.size base)) out >>= λ out'. some (done, out')
