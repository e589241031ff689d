-- ===== src/Driver/Buffers.antt =====
-- Driver of src/driver.h: contexts with their root tables, and the buffers of a kernel. A pointer of
-- the caller is `none` where it is null.
use ventus_driver.Common.{
  ℕ, Bool, true, false, ◌||◌, Option, none, some, ◌==◌, if◌then◌else◌, Status, done, failed,
}
use ventus_driver.Block.Bytes.{Buffer}
use ventus_driver.Memory.{create_root_pt, allocate}
use ventus_driver.Memory.Access.{read_virt, write_virt}
use ventus_driver.Memory.Release.{release}
use ventus_driver.Manager.{
  BufferType, create_new_context, alloc_memory, release_memory, attach_paddr, find_context_id,
}
use ventus_driver.Processor.Ports.{Device}
use ventus_driver.Driver.{
  Driver, Context, new_context, Result, returned, thrown, defined, or_throw, with_ram,
}
use ventus_driver.Driver.Maps.{find, emplace, erase}

abbrev pub is_null {ℓ} : {A : Type ℓ} → Option A → Bool
is_null none = true
is_null (some a) = false

-- 0 for a status of success, and else an exception.
abbrev pub checked {ℓ κ} : {S : Type ℓ} {A : Type κ} → S → Status → A → Result S A
checked s done a = returned s a
checked s failed a = thrown s

module _ {D : Device} where
  abbrev pub add_context : Driver D → ℕ → ℕ → Driver D
  add_context d task_id root = record d {
    contexts = emplace d.contexts task_id (record (new_context task_id) { root = root });
  }

  -- The address of the root is looked for after the context is there. 0 means success.
  unfoldable pub create_device_mem : Driver D → ℕ → Result (Driver D) ℕ
  unfolding find emplace
  create_device_mem d task_id = elim (find d.contexts task_id) [
    | some c ↦ thrown d
    | none ↦ or_throw d (create_new_context d.addr_mng task_id) (λ mng.
        defined (create_root_pt d.processor.ram) (λ (root, pm).
          returned (add_context (with_ram (record d { addr_mng = mng }) pm) task_id root)
            (if root == 0 then 1 else 0)))
  ]

  -- A context that is there is refused; one that is not is erased.
  unfoldable pub delete_device_mem : Driver D → ℕ → Result (Driver D) ℕ
  unfolding find erase
  delete_device_mem d task_id = elim (find d.contexts task_id) [
    | some c ↦ thrown d
    | none ↦ returned (record d { contexts = erase d.contexts task_id }) 0
  ]

  -- The physical pages of a new buffer. `attachPaddr` takes the kernel first, and then the context.
  unfoldable pub alloc_pages : Driver D → Context → ℕ → ℕ → ℕ → ℕ → Result (Driver D) (ℕ × ℕ)
  alloc_pages d c vaddr size task_id kernel_id =
      defined (allocate d.processor.ram c.root vaddr size) (λ (paddr, pm).
        let d' = with_ram d pm in
        if paddr == 0
        then thrown d'
        else or_throw d' (attach_paddr d'.addr_mng kernel_id vaddr paddr)
            (λ mng. returned (record d' { addr_mng = mng }) ((if vaddr == 0 then 1 else 0), vaddr)))

  -- The result, and the address that is stored through the pointer.
  unfoldable pub alloc_local_mem :
      Driver D → ℕ → Option ℕ → BufferType → ℕ → ℕ → Result (Driver D) (ℕ × ℕ)
  unfolding find alloc_pages
  alloc_local_mem d size vaddr type task_id kernel_id = elim (find d.contexts task_id) [
    | none ↦ thrown d
    | some c ↦
        if (size == 0) || is_null vaddr
        then thrown d
        else or_throw d (alloc_memory d.addr_mng task_id kernel_id size type)
            (λ (v, mng). alloc_pages (record d { addr_mng = mng }) c v size task_id kernel_id)
  ]

  release_pages : Driver D → ℕ → ℕ → Result (Driver D) ℕ
  unfolding find
  release_pages d vaddr task_id =
      defined (find d.contexts task_id) (λ c.
        defined (release d.processor.ram c.root vaddr) (λ (s, pm). checked (with_ram d pm) s 0))

  unfoldable pub free_local_mem : Driver D → ℕ → Option ℕ → ℕ → ℕ → Result (Driver D) ℕ
  unfolding release_pages
  free_local_mem d size none task_id kernel_id = thrown d
  free_local_mem d size (some vaddr) task_id kernel_id =
      if (size == 0) || (if find_context_id d.addr_mng task_id then false else true)
      then thrown d
      else or_throw d (release_memory d.addr_mng task_id vaddr)
          (λ mng. release_pages (record d { addr_mng = mng }) vaddr task_id)

  unfoldable pub upload : Driver D → ℕ → Option Buffer → ℕ → ℕ → ℕ → Result (Driver D) ℕ
  unfolding find
  upload d dev_vaddr none size task_id kernel_id = thrown d
  upload d dev_vaddr (some src) size task_id kernel_id = elim (find d.contexts task_id) [
    | none ↦ thrown d
    | some c ↦
        if size == 0
        then thrown d
        else defined (write_virt d.processor.ram c.root dev_vaddr size src)
            (λ (s, pm). checked (with_ram d pm) s 0)
  ]

  -- The result, and the buffer of the caller.
  unfoldable pub download :
      Driver D → ℕ → Option Buffer → ℕ → ℕ → ℕ → Result (Driver D) (ℕ × Buffer)
  unfolding find
  download d dev_vaddr none size task_id kernel_id = thrown d
  download d dev_vaddr (some dst) size task_id kernel_id = elim (find d.contexts task_id) [
    | none ↦ thrown d
    | some c ↦
        if size == 0
        then thrown d
        else defined (read_virt d.processor.ram c.root dev_vaddr size dst)
            (λ (s, out). checked d s (0, out))
  ]
