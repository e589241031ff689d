-- ===== src/Driver/Alloc.antt =====
-- Driver::alloc_local_mem of src/driver.h: virtual addresses, physical pages, and the tables between them.
use ventus_driver.Common.{
  ℕ, zero, suc, ◌+◌, ◌*◌, ◌%◌, ◌^◌, ◌≤◌, ◌<◌, ◌≡◌, refl, ◌⊎◌, inl, inr, some, List, ◌∙◌, arith,
}
use ventus_driver.Sv39.{page_size}
use ventus_driver.Block.{round_up}
use ventus_driver.PhysicalMemory.{PhysicalMemory}
use ventus_driver.Memory.{allocate, convert}
use ventus_driver.Memory.Tables.{Role, top, Tables, Unmapped, Grows, Grows-refl}
use ventus_driver.Memory.Mapping.{IsTaken, Outcome, allocate-Outcome}
use ventus_driver.Manager.{Manager, Item, BufferType, alloc_memory, lookup, segment_base}
use ventus_driver.Manager.Place.{HasRoom}
use ventus_driver.Manager.Contexts.{IsOrdered, Placed, alloc_memory_lem}
use ventus_driver.Manager.Attach.{Placed-page, attach_paddr-Placed, segment_base-bounds}
use ventus_driver.Processor.Ports.{Device}
use ventus_driver.Driver.{Driver, Context, returned, thrown, with_ram}
use ventus_driver.Driver.Maps.{find}
use ventus_driver.Driver.Buffers.{alloc_local_mem}
use ventus_driver.Driver.Attach.{with_mng, enters, no_address, no_pages, with_pages}

module _ {D : Device} where
  -- What `alloc_local_mem` makes: an address in its segment, away from the buffers of the context, and
  -- pages behind it.
  pub record Buffered (d : Driver D) (role : ℕ → Role) (size p : ℕ) (type : BufferType)
      (task_id : ℕ) (c : Context) (items : List Item) : Type 0 where
    pub v : ℕ
    pub paddr : ℕ
    pub d' : Driver D
    pub returns : alloc_local_mem d size (some p) type task_id task_id ≡ returned d' (0, v)
    pub mng : Manager
    pub placed : Placed d.addr_mng task_id task_id size type items v mng
    pub role' : ℕ → Role
    pub grows : Grows role d.processor.ram role' d'.processor.ram
    pub taken : IsTaken d.processor.ram d'.processor.ram role' paddr (round_up size)
    pub converts :
        (j off : ℕ)
        → j * page_size < size
        → off < page_size
        → Unmapped d.processor.ram c.root (v + j * page_size)
        → convert d'.processor.ram c.root (v + j * page_size + off)
          ≡ some (paddr + j * page_size + off)
    pub contexts : d'.contexts ≡ d.contexts

  -- How it fails: what was mapped stays mapped.
  pub record Refused (d : Driver D) (role : ℕ → Role) (size p : ℕ) (type : BufferType) (task_id : ℕ)
      : Type 0 where
    pub d' : Driver D
    pub throws : alloc_local_mem d size (some p) type task_id task_id ≡ thrown d'
    pub role' : ℕ → Role
    pub grows : Grows role d.processor.ram role' d'.processor.ram
    pub contexts : d'.contexts ≡ d.contexts

  module _ (d : Driver D) (role : ℕ → Role) (size p : ℕ) (type : BufferType) (task_id : ℕ)
      (c : Context) (items : List Item) (ts : Tables role d.processor.ram)
      (found : find d.contexts task_id ≡ some c) (is_root : role c.root ≡ top)
      (ordered : IsOrdered d.addr_mng) (known : lookup d.addr_mng.contexts task_id ≡ some items)
      (room : HasRoom type items) (pos : 0 < size) (small : size < 2 ^ 30) where
    page_room :
        (v : ℕ) (mng : Manager)
        → Placed d.addr_mng task_id task_id size type items v mng
        → (v % page_size ≡ 0) × (0 < v) × (v + round_up size ≤ 2 ^ 39)
    page_room v mng placed =
        let (al, low, high) = Placed-page placed in
        let top = segment_base-bounds type in (al, segment_pos type v low, omega arith)
      where
        segment_pos : (type : BufferType) (v : ℕ) → segment_base type ≤ v → 0 < v
        segment_pos BufferType.read_only v h = omega arith
        segment_pos BufferType.read_write v h = omega arith
        segment_pos BufferType.kernel_mem v h = omega arith

    refused :
        (v : ℕ) (mng : Manager) (pm : PhysicalMemory) (role' : ℕ → Role)
        → alloc_memory d.addr_mng task_id task_id size type ≡ some (v, mng)
        → allocate d.processor.ram c.root v size ≡ some (0, pm)
        → Grows role d.processor.ram role' pm
        → Refused d role size p type task_id
    refused v mng pm role' e made g = record {
      d' = with_ram (with_mng d mng) pm;
      throws =
          enters d size p type task_id task_id c v mng found pos e
          ∙ no_pages (with_mng d mng) c v size task_id task_id pm made;
      role' = role';
      grows = g;
      contexts = refl;
    }

    buffered :
        (v : ℕ) (mng : Manager) (paddr : ℕ) (pm : PhysicalMemory) (role' : ℕ → Role)
        → alloc_memory d.addr_mng task_id task_id size type ≡ some (v, mng)
        → Placed d.addr_mng task_id task_id size type items v mng
        → allocate d.processor.ram c.root v size ≡ some (paddr, pm)
        → 0 < v
        → 0 < paddr
        → Grows role d.processor.ram role' pm
        → Outcome d.processor.ram pm role' c.root v size paddr
        → Buffered d role size p type task_id c items
    buffered v mng paddr pm role' e placed made posv posp g (inl z) = absurd (omega arith)
    buffered v mng paddr pm role' e placed made posv posp g (inr (aligned, taken, converts)) =
        let (mng', f, others) = attach_paddr-Placed placed paddr in
        record {
          v = v;
          paddr = paddr;
          d' = with_mng (with_ram (with_mng d mng) pm) mng';
          returns =
              enters d size p type task_id task_id c v mng found pos e
              ∙ with_pages (with_mng d mng) c v size task_id task_id paddr pm mng' made posp posv f;
          mng = mng;
          placed = placed;
          role' = role';
          grows = g;
          taken = taken;
          converts = converts;
          contexts = refl;
        }

    with_outcome :
        (v : ℕ) (mng : Manager) (paddr : ℕ) (pm : PhysicalMemory) (role' : ℕ → Role)
        → alloc_memory d.addr_mng task_id task_id size type ≡ some (v, mng)
        → Placed d.addr_mng task_id task_id size type items v mng
        → allocate d.processor.ram c.root v size ≡ some (paddr, pm)
        → 0 < v
        → Grows role d.processor.ram role' pm
        → Outcome d.processor.ram pm role' c.root v size paddr
        → Refused d role size p type task_id ⊎ Buffered d role size p type task_id c items
    with_outcome v mng zero pm role' e placed made posv g o = inl (refused v mng pm role' e made g)
    with_outcome v mng (suc paddr) pm role' e placed made posv g o =
        inr (buffered v mng (suc paddr) pm role' e placed made posv (omega arith) g o)

    with_address :
        (v : ℕ) (mng : Manager)
        → alloc_memory d.addr_mng task_id task_id size type ≡ some (v, mng)
        → Placed d.addr_mng task_id task_id size type items v mng
        → Refused d role size p type task_id ⊎ Buffered d role size p type task_id c items
    with_address v mng e placed =
        let (al, posv, fits) = page_room v mng placed in
        let (paddr, pm, role', made, g, others, outcome) =
          allocate-Outcome role d.processor.ram c.root v size ts is_root al pos (omega arith)
            fits in
        with_outcome v mng paddr pm role' e placed made posv g outcome

    -- For a kernel of the task's own number and a size from 1 to below 2^30, in a context on well-formed
    -- tables whose buffers stand in order and leave room for the type: for READ_WRITE none stands at or
    -- above BUF_PARA_BASE, for READ_ONLY the first stands below it, and KERNEL_MEM asks for nothing. Then
    -- `alloc_local_mem` is defined: it returns 0 and an address, or it throws. The address has its
    -- segment's room and is away from the context's other buffers, and leads, page by page where no page
    -- was mapped before, to one run of physical memory, which was free before, is in the memory now and
    -- holds no table. Either way every valid entry stays.
    pub alloc_local_mem_lem :
        Refused d role size p type task_id ⊎ Buffered d role size p type task_id c items
    alloc_local_mem_lem =
        elim (alloc_memory_lem d.addr_mng task_id task_id size type items ordered known room
          (omega arith)) [
            | inl e ↦ inl (record {
              d' = d;
              throws = no_address d size p type task_id task_id c found e;
              role' = role;
              grows = Grows-refl role d.processor.ram ts;
              contexts = refl;
            })
            | inr (v, mng, e, placed) ↦ with_address v mng e placed
          ]
