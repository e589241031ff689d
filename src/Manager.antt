-- ===== src/Manager.antt =====
-- src/driver.h, namespace addr: the virtual addresses of the buffers of each context, in three
-- segments. A context's doubly linked list of items is a List from its head on, and a pointer to an
-- item is its position. VT_ERROR throws, so that `none` is an exception, after which the manager is
-- what it was; `vaddr` points to a variable, whose value is returned. A BUF_TYPE is one of its three
-- enumerators: the default case of the switch over it is not modelled.
pub mod Layout
pub mod Gap
pub mod Alloc
pub mod Place
pub mod Contexts
pub mod Attach
mod Examples
use ventus_driver.Common.{
  ℕ, zero, suc, ◌+◌, ◌-◌, ◌*◌, ◌/◌, ◌^◌, Bool, true, false, ◌&&◌, ◌||◌, Option, none, some, List,
  [], ◌∷◌, ltb, leb, ◌==◌, bit_and, if◌then◌else◌, ◌>>=◌, u64, insert_at, get_elem?,
}

-- `aligned_size` of src/device/processor.h, for a power of two.
pub aligned_size : ℕ → ℕ → ℕ
aligned_size size align_block =
    bit_and (u64 (size + align_block - 1)) (2 ^ 64 - 1 - (align_block - 1))

abbrev pub block_size : ℕ
block_size = 64

abbrev pub page_bytes : ℕ
page_bytes = 4096

-- `paddr` is not set by the constructor.
pub record Item : Type 0 where
  pub krl_id : ℕ
  pub task_id : ℕ
  pub vaddr : ℕ
  pub paddr : Option ℕ
  pub size : ℕ

pub data BufferType : Type 0 where
  read_write read_only kernel_mem : BufferType

abbrev pub global_mem_base : ℕ
global_mem_base = 0x40000000

abbrev pub global_mem_size : ℕ
global_mem_size = 0x40000000

abbrev pub ro_data_base : ℕ
ro_data_base = global_mem_base

abbrev pub rw_data_base : ℕ
rw_data_base = 0x60000000

abbrev pub buf_para_base : ℕ
buf_para_base = 0x80000000

-- `m_cxt_mem_`, by context.
pub record Manager : Type 0 where
  pub contexts : List (ℕ × List Item)

-- `krl_lst_` is empty: nothing adds to it.
abbrev pub empty_manager : Manager
empty_manager = record { contexts = [] }

abbrev pub new_item : ℕ → ℕ → ℕ → ℕ → Item
new_item kernel_id context_id vaddr size = record {
  krl_id = kernel_id;
  task_id = context_id;
  vaddr = vaddr;
  paddr = none;
  size = size;
}

-- `m_cxt_mem_.at`.
unfoldable pub lookup : List (ℕ × List Item) → ℕ → Option (List Item)
lookup [] id = none
lookup ((k, items) ∷ cs) id = if k == id then some items else lookup cs id

pub update : List (ℕ × List Item) → ℕ → List Item → List (ℕ × List Item)
update [] id items = []
update ((k, old) ∷ cs) id items = if k == id then (k, items) ∷ cs else (k, old) ∷ update cs id items

pub erase : List (ℕ × List Item) → ℕ → List (ℕ × List Item)
erase [] id = []
erase ((k, items) ∷ cs) id = if k == id then erase cs id else (k, items) ∷ erase cs id

unfoldable pub find_context_id : Manager → ℕ → Bool
unfolding lookup
find_context_id m id = elim (lookup m.contexts id) [ none ↦ false | some items ↦ true ]

unfoldable pub create_new_context : Manager → ℕ → Option Manager
unfolding find_context_id
create_new_context m id =
    if find_context_id m id then none else some (record { contexts = (id, []) ∷ m.contexts })

-- Where `allocVaddr` leaves `rootItem`, the address for the new item, and the successor.
pub record Spot : Type 0 where
  pub root : ℕ
  pub vaddr : ℕ
  pub succ : Option Item

-- The first page behind an item.
pub behind : Item → ℕ
unfolding aligned_size
behind it = aligned_size (u64 (it.vaddr + it.size)) page_bytes

-- The loops that look for a gap in front of the successor, while the item is below a limit.
pub follow : ℕ → ℕ → Item → List Item → ℕ → Spot
unfolding behind
follow limit size it [] i = record { root = i; vaddr = behind it; succ = none }
follow limit size it (s ∷ items) i =
    let rest = follow limit size s items (suc i) in
    if ltb it.vaddr limit && ltb s.vaddr (u64 (behind it + size))
    then rest
    else record { root = i; vaddr = behind it; succ = some s }

-- The loops that go to the first item from a limit on, or to the last one.
pub data Reach : Type 0 where
  reached : ℕ → Item → List Item → Reach
  ended : ℕ → Reach

pub reach : ℕ → Item → List Item → ℕ → Reach
reach limit it [] i = if ltb it.vaddr limit then ended i else reached i it []
reach limit it (s ∷ items) i =
    let rest = reach limit s items (suc i) in
    if ltb it.vaddr limit then rest else reached i it (s ∷ items)

abbrev from_on : ℕ → Option Item → Bool
from_on limit none = true
from_on limit (some s) = leb limit s.vaddr

abbrev has_none : Option Item → Bool
has_none none = true
has_none (some s) = false

pub place_read_only : Item → List Item → ℕ → Option Spot
unfolding follow
place_read_only head items size =
    if head.vaddr == ro_data_base
    then (let spot = follow rw_data_base size head items 0 in
        if from_on rw_data_base spot.succ && ltb rw_data_base (u64 (spot.vaddr + size))
        then none
        else some spot)
    else some (record { root = 0; vaddr = ro_data_base; succ = get_elem? items 0 })

-- The end of the cases READ_WRITE and KERNEL_MEM; `base` is the address if there is no item in the
-- segment or behind it.
pub place_behind : ℕ → ℕ → ℕ → Reach → Option Spot
unfolding follow
place_behind base limit size (ended i) = some (record { root = i; vaddr = base; succ = none })
place_behind base limit size (reached i it items) =
    let spot = follow limit size it items i in
    if has_none spot.succ && ltb limit (u64 (spot.vaddr + size)) then none else some spot

pub place_read_write : Item → List Item → ℕ → Option Spot
unfolding place_behind reach
place_read_write head items size =
    place_behind rw_data_base buf_para_base size
      (if head.vaddr == ro_data_base then reach rw_data_base head items 0 else reached 0 head items)

pub place_kernel_mem : Item → List Item → ℕ → Option Spot
unfolding place_behind reach
place_kernel_mem head items size =
    place_behind buf_para_base (buf_para_base + global_mem_size / 2) size (
      if (head.vaddr == ro_data_base) || (head.vaddr == rw_data_base)
      then reach buf_para_base head items 0
      else reached 0 head items)

pub alloc_vaddr : BufferType → Item → List Item → ℕ → Option Spot
unfolding place_read_only place_read_write place_kernel_mem
alloc_vaddr read_only = place_read_only
alloc_vaddr read_write = place_read_write
alloc_vaddr kernel_mem = place_kernel_mem

-- The new item stands behind the root item, or at the head.
pub insert_new_item : List Item → Spot → Item → List Item
insert_new_item items spot it =
    if (it.vaddr == ro_data_base)
      && elim (get_elem? items spot.root) [ none ↦ false | some r ↦ r.vaddr == rw_data_base ]
    then it ∷ items
    else insert_at (suc spot.root) it items

-- The start of the segment; a buffer has less than half of the global memory.
abbrev pub segment_base : BufferType → ℕ
segment_base read_only = ro_data_base
segment_base read_write = rw_data_base
segment_base kernel_mem = buf_para_base

abbrev pub segment_room : ℕ
segment_room = 0x20000000

-- The items of a context with one more, and its address.
pub add_item : BufferType → ℕ → ℕ → ℕ → List Item → Option (ℕ × List Item)
unfolding alloc_vaddr insert_new_item
add_item type context_id kernel_id size [] =
    some (segment_base type, new_item kernel_id context_id (segment_base type) size ∷ [])
add_item type context_id kernel_id size (head ∷ items) =
    alloc_vaddr type head items size >>= λ spot. some (
      spot.vaddr,
      insert_new_item (head ∷ items) spot (new_item kernel_id context_id spot.vaddr size),
    )

pub alloc_memory : Manager → ℕ → ℕ → ℕ → BufferType → Option (ℕ × Manager)
unfolding lookup update add_item aligned_size
alloc_memory m context_id kernel_id size type =
    let rounded = aligned_size size block_size in
    if size == 0
    then none
    else (lookup m.contexts context_id >>= λ items.
        if ltb rounded segment_room
        then (add_item type context_id kernel_id rounded items >>= λ (vaddr, items').
            some (vaddr, record { contexts = update m.contexts context_id items' }))
        else none)

holds_vaddr : List Item → ℕ → Bool
holds_vaddr [] vaddr = false
holds_vaddr (it ∷ items) vaddr = if it.vaddr == vaddr then true else holds_vaddr items vaddr

-- `releaseMemory` unlinks the item, and then drops its whole context.
pub release_memory : Manager → ℕ → ℕ → Option Manager
unfolding lookup holds_vaddr erase
release_memory m context_id vaddr = lookup m.contexts context_id >>= λ items.
    if holds_vaddr items vaddr
    then some (record { contexts = erase m.contexts context_id })
    else none

attach : List Item → ℕ → ℕ → Option (List Item)
attach [] vaddr paddr = none
attach (it ∷ items) vaddr paddr =
    let rest = attach items vaddr paddr in
    if it.vaddr == vaddr
    then some (record it { paddr = some paddr } ∷ items)
    else (rest >>= λ items'. some (it ∷ items'))

unfoldable pub attach_paddr : Manager → ℕ → ℕ → ℕ → Option Manager
unfolding lookup attach update
attach_paddr m context_id vaddr paddr = lookup m.contexts context_id >>= λ items.
    attach items vaddr paddr >>= λ items'.
    some (record { contexts = update m.contexts context_id items' })

-- What a search by physical address meets: an item, none, or one whose address is not set.
pub data Found : Type 0 where
  at_vaddr : ℕ → Found
  not_there unset_paddr : Found

find_item : List Item → ℕ → Found
find_item [] paddr = not_there
find_item (it ∷ items) paddr =
    let rest = find_item items paddr in
    elim it.paddr [ none ↦ unset_paddr | some p ↦ if p == paddr then at_vaddr it.vaddr else rest ]

-- `findVaByPa`, which throws on an unknown context.
unfoldable pub find_va_by_pa : Manager → ℕ → ℕ → Option Found
unfolding lookup find_item
find_va_by_pa m context_id paddr =
    lookup m.contexts context_id >>= λ items. some (find_item items paddr)
