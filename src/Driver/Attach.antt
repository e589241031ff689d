-- ===== src/Driver/Attach.antt =====
-- The steps of Driver::alloc_local_mem in src/driver.h, and the context that it attaches pages to.
use ventus_driver.Common.{
  ℕ, ◌<◌, ◌≡◌, refl, inl, inr, false, none, some, ◌==◌, arith, Bool-cases, Option-cases,
}
use ventus_driver.PhysicalMemory.{PhysicalMemory}
use ventus_driver.Memory.{allocate}
use ventus_driver.Manager.{Manager, BufferType, alloc_memory, attach_paddr, lookup}
use ventus_driver.Manager.Attach.{alloc_memory-absent}
use ventus_driver.Processor.Ports.{Device}
use ventus_driver.Driver.{Driver, Context, returned, thrown, with_ram, returns_value}
use ventus_driver.Driver.Maps.{find}
use ventus_driver.Driver.Buffers.{alloc_local_mem, alloc_pages}

module _ {D : Device} where
  abbrev pub with_mng : Driver D → Manager → Driver D
  with_mng d mng = record d { addr_mng = mng }

  pub enters :
      (d : Driver D) (size : ℕ) (p : ℕ) (type : BufferType) (task_id kernel_id : ℕ) (c : Context)
      (v : ℕ) (mng : Manager)
      → find d.contexts task_id ≡ some c
      → 0 < size
      → alloc_memory d.addr_mng task_id kernel_id size type ≡ some (v, mng)
      → alloc_local_mem d size (some p) type task_id kernel_id
        ≡ alloc_pages (with_mng d mng) c v size task_id kernel_id
  unfolding alloc_local_mem
  enters d size p type task_id kernel_id c v mng e pos f =
      let some_size : (size == 0) ≡ false = ground arith in
      rw (alloc_local_mem, e, some_size, f) refl

  pub no_address :
      (d : Driver D) (size : ℕ) (p : ℕ) (type : BufferType) (task_id kernel_id : ℕ) (c : Context)
      → find d.contexts task_id ≡ some c
      → alloc_memory d.addr_mng task_id kernel_id size type ≡ none
      → alloc_local_mem d size (some p) type task_id kernel_id ≡ thrown d
  unfolding alloc_local_mem
  no_address d size p type task_id kernel_id c e f = elim (Bool-cases (size == 0)) [
    | inl z ↦ rw (alloc_local_mem, e, z) refl
    | inr z ↦ rw (alloc_local_mem, e, z, f) refl
  ]

  pub no_pages :
      (d : Driver D) (c : Context) (v size task_id kernel_id : ℕ) (pm : PhysicalMemory)
      → allocate d.processor.ram c.root v size ≡ some (0, pm)
      → alloc_pages d c v size task_id kernel_id ≡ thrown (with_ram d pm)
  unfolding alloc_pages
  no_pages d c v size task_id kernel_id pm e = rw (alloc_pages, e) refl

  pub with_pages :
      (d : Driver D) (c : Context) (v size task_id kernel_id paddr : ℕ) (pm : PhysicalMemory)
      (mng : Manager)
      → allocate d.processor.ram c.root v size ≡ some (paddr, pm)
      → 0 < paddr
      → 0 < v
      → attach_paddr d.addr_mng kernel_id v paddr ≡ some mng
      → alloc_pages d c v size task_id kernel_id ≡ returned (with_mng (with_ram d pm) mng) (0, v)
  unfolding alloc_pages
  with_pages d c v size task_id kernel_id paddr pm mng e pos posv f =
      let some_page : (paddr == 0) ≡ false = ground arith in
      let some_addr : (v == 0) ≡ false = ground arith in
      rw (alloc_pages, e, some_page, f, some_addr) refl

  not_attached :
      (d : Driver D) (c : Context) (v size task_id kernel_id : ℕ)
      → lookup d.addr_mng.contexts kernel_id ≡ none
      → returns_value (alloc_pages d c v size task_id kernel_id) ≡ false
  unfolding alloc_pages attach_paddr
  not_attached d c v size task_id kernel_id h =
      elim (Option-cases (allocate d.processor.ram c.root v size)) [
        | inl e ↦ rw (alloc_pages, e) refl
        | inr ((paddr, pm), e) ↦ elim (Bool-cases (paddr == 0)) [
          | inl z ↦ rw (alloc_pages, e, z) refl
          | inr z ↦ rw (alloc_pages, e, z, attach_paddr, h) refl
        ]
      ]

  -- `attachPaddr` is called with the task as the kernel and the kernel as the context. Where the
  -- addresses have no context of the kernel's number, `alloc_local_mem` does not return, whatever the
  -- task.
  pub alloc_local_mem-swapped :
      (d : Driver D) (size p : ℕ) (type : BufferType) (task_id kernel_id : ℕ)
      → lookup d.addr_mng.contexts kernel_id ≡ none
      → returns_value (alloc_local_mem d size (some p) type task_id kernel_id) ≡ false
  unfolding alloc_local_mem
  alloc_local_mem-swapped d size p type task_id kernel_id h =
      elim (Option-cases (find d.contexts task_id)) [
        | inl e ↦ rw (alloc_local_mem, e) refl
        | inr (c, e) ↦ elim (Option-cases (alloc_memory d.addr_mng task_id kernel_id size type)) [
          | inl f ↦ rw (no_address d size p type task_id kernel_id c e f) refl
          | inr ((v, mng), f) ↦ elim (Bool-cases (size == 0)) [
            | inl z ↦ rw (alloc_local_mem, e, z) refl
            | inr z ↦ rw (enters d size p type task_id kernel_id c v mng e (ground (arith, z)) f) (
                not_attached (with_mng d mng) c v size task_id kernel_id
                  (alloc_memory-absent d.addr_mng mng task_id kernel_id size v kernel_id type f h))
          ]
        ]
      ]
