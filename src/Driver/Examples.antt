-- ===== src/Driver/Examples.antt =====
-- Instances and tests for class Driver of src/driver.h, with one context on a memory of 768 MiB.
use ventus_driver.Common.{
  ℕ, ◌*◌, ◌≤◌, ◌≡◌, ◌≢◌, refl, ◌⊎◌, inl, inr, false, none, some, [], ◌∷◌, ◌==◌, arith, Bool-cases,
  subst, u64,
}
use ventus_driver.Memory.Examples.{rooted, roles, root_at, rooted-Tables}
use ventus_driver.Memory.Examples.Sample.{
  sample, sample_roles, sample-Tables, sample-Mapped, sample-InPage, sample-spans,
}
use ventus_driver.Memory.Tables.{Tables}
use ventus_driver.Block.Bytes.{splice}
use ventus_driver.Driver.Copy.{download-upload}
use ventus_driver.Manager.{read_write, lookup}
use ventus_driver.Manager.Layout.{Spaced}
use ventus_driver.Manager.Place.{StartsAtBase}
use ventus_driver.Manager.Contexts.{IsOrdered}
use ventus_driver.Processor.Examples.{counter, first, no_port}
use ventus_driver.Driver.{
  Codes, Driver, Context, Kernel, unfinish, finish, returned, thrown, unfinished, context_finished,
  returns_value,
}
use ventus_driver.Driver.Maps.{find, assign}
use ventus_driver.Driver.Buffers.{delete_device_mem, alloc_local_mem, upload, download}
use ventus_driver.Driver.Kernels.{Meta, wg_id, start, shift_left}
use ventus_driver.Driver.Reports.{
  take_report, wait, all_context_finished, execute_all_kernel, blocks_finished, context_of,
  kernel_of, block_of,
}
use ventus_driver.Driver.Contexts.{delete_device_mem-keeps, execute_all_kernel-unfinished}
use ventus_driver.Driver.Alloc.{Buffered, Refused, alloc_local_mem_lem}
use ventus_driver.Driver.Attach.{alloc_local_mem-swapped}
use ventus_driver.Driver.Blocks.{Leaves, wait-other, start-few}

abbrev idle_context : Context
idle_context = record { ctx_id = 0; krl_list = []; root = root_at }

abbrev pub host : Driver counter
host = record {
  processor = record (first 8) { ram = rooted };
  finished_kernels = [];
  addr_mng = record { contexts = (0, []) ∷ [] };
  contexts = (0, idle_context) ∷ [];
}

host-IsOrdered : IsOrdered host.addr_mng
unfolding lookup
host-IsOrdered id items e = elim (Bool-cases (0 == id)) [
  | inl h ↦
      let only : [] ≡ items = ground (arith, e, h) in
      subst (λ xs. Spaced 0x40000000 xs × StartsAtBase xs) only (tt, tt)
  | inr h ↦ absurd (ground (arith, e, h))
]

delete_device_mem-keeps_example :
    ((delete_device_mem host 0 ≡ thrown host) × (find host.contexts 0 ≢ none))
    ⊎ ((delete_device_mem host 0 ≡ returned host 0) × (find host.contexts 0 ≡ none))
delete_device_mem-keeps_example = delete_device_mem-keeps host 0

execute_all_kernel-unfinished_example :
    (all_context_finished 9 host ≡ none) × (execute_all_kernel 9 host ≡ unfinished)
unfolding context_finished
execute_all_kernel-unfinished_example =
    execute_all_kernel-unfinished 9 host 0 idle_context [] refl refl

alloc_local_mem_lem_example :
    Refused host roles 5000 0 read_write 0 ⊎ Buffered host roles 5000 0 read_write 0 idle_context []
unfolding find lookup
alloc_local_mem_lem_example =
    alloc_local_mem_lem host roles 5000 0 read_write 0 idle_context [] rooted-Tables refl refl
      host-IsOrdered refl tt (omega arith) (omega arith)

alloc_local_mem-swapped_example :
    returns_value (alloc_local_mem host 5000 (some 0) read_write 0 3) ≡ false
unfolding lookup
alloc_local_mem-swapped_example = alloc_local_mem-swapped host 5000 0 read_write 0 3 refl

wait-other_example : Leaves (λ d'. find d'.contexts 7 ≡ find host.contexts 7) (wait host 1)
wait-other_example = wait-other 7 (omega arith) (omega arith) host 1

abbrev meta : Meta
meta = record {
  kernel_id = 0;
  kernel_size_0 = 5;
  kernel_size_1 = 5;
  kernel_size_2 = 5;
  wf_size = 8;
  wg_size = 2;
  base_addr = 0;
  lds_size = 0;
  pds_size = 0;
  sgpr_usage = 0;
  vgpr_usage = 0;
  pds_base_addr = 0;
}

start-few_example : Codes (λ (a : ℕ). (u64 (5 * 5 * 5) ≤ 64)) (start 100 no_port host 0 meta)
start-few_example = start-few 100 no_port host 0 meta

-- The numbers of the blocks of kernel 0 in context 0 are all 0, and that of block 0 of kernel 1 is read
-- back as block 0 of kernel 0.
block_numbers :
    (wg_id 0 0 0 ≡ some 0)
    × (wg_id 0 0 5 ≡ some 0)
    × (wg_id 1 0 0 ≡ some 4096)
    × (kernel_of 4096 ≡ 0)
    × (block_of 4096 ≡ 0)
    × (context_of 4096 ≡ 0)
unfolding wg_id shift_left
block_numbers = (refl, refl, refl, refl, refl, refl)

abbrev running_kernel : Kernel
running_kernel = record { blk_list = (0, unfinish) ∷ []; state = unfinish }

abbrev done_kernel : Kernel
done_kernel = record { blk_list = (0, finish) ∷ []; state = finish }

-- A report of the only block of kernel 0 finishes the kernel.
kernel_finishes :
    take_report
      (record host {
        contexts = (0, record idle_context { krl_list = (0, running_kernel) ∷ [] }) ∷ [];
      })
      0
    ≡ some (record host {
      contexts = (0, record idle_context { krl_list = (0, done_kernel) ∷ [] }) ∷ [];
      finished_kernels = 0 ∷ [];
    })
unfolding take_report find assign blocks_finished
kernel_finishes = refl

-- A host whose context leads one page of addresses to a page.
abbrev mapped_host : Driver counter
mapped_host = record host {
  processor = record (first 8) { ram = sample };
  contexts = (0, record idle_context { root = 0x20000000 }) ∷ [];
}

download-upload_example :
    (d' : Driver counter) × (upload mapped_host 0x40000234 (some (λ i. i)) 100 0 0 ≡ returned d' 0)
    × Tables sample_roles d'.processor.ram
    × (download d' 0x40000234 (some (λ i. 7)) 100 0 0
        ≡ returned d' (0, splice (λ i. 7) 0 100 (λ i. i)))
unfolding find
download-upload_example =
    download-upload {role = sample_roles} mapped_host (record idle_context { root = 0x20000000 })
      0x40000234 0x20003000 100 0 (λ i. i) (λ i. 7) sample-Tables refl refl sample-Mapped
      (omega arith) (omega arith) sample-InPage sample-spans (omega arith) 0 0
