-- ===== src/Api.antt =====
-- src/ventus.cc, the C functions of include/ventus.h. A handle is `none` where it is null. VT_ERROR throws,
-- so that the `return -1` behind it is not reached; the result is that of the driver, and an exception
-- leaves these functions. A buffer's type is one of the three enumerators.
pub mod Copy
pub mod Upload
pub mod Kernel
mod Examples
use ventus_driver.Common.{
  ℕ, ◌+◌, ◌-◌, ◌%◌, ◌^◌, ◌<◌, ltb, ◌≡◌, refl, Bool, true, false, ◌||◌, Option, none, some, ◌==◌,
  if◌then◌else◌,
}
use ventus_driver.Block.Bytes.{Buffer}
use ventus_driver.Manager.{BufferType}
use ventus_driver.MemController.{MemController}
use ventus_driver.Processor.Ports.{Device, Inputs, HostPort}
use ventus_driver.Processor.{num_thread}
use ventus_driver.Driver.{Driver, new_driver, Result, returned, thrown, undefined, unfinished, ◌|>◌}
use ventus_driver.Driver.Buffers.{
  create_device_mem, delete_device_mem, alloc_local_mem, free_local_mem, upload, download, is_null,
}
use ventus_driver.Driver.Kernels.{Meta, start}
use ventus_driver.Driver.Reports.{wait}

-- Of processor.h: IMPLEMENTATION_ID, NUM_CTA and NUM_WARP.
abbrev pub implementation_id : ℕ
implementation_id = 0

abbrev pub num_cta : ℕ
num_cta = 2

abbrev pub num_warp : ℕ
num_warp = 4

-- VT_CAPS_VERSION, VT_CAPS_MAX_CORES, VT_CAPS_MAX_WARPS and VT_CAPS_MAX_THREADS.
abbrev pub caps_version : ℕ
caps_version = 0x0

abbrev pub caps_max_cores : ℕ
caps_max_cores = 0x1

abbrev pub caps_max_warps : ℕ
caps_max_warps = 0x2

abbrev pub caps_max_threads : ℕ
caps_max_threads = 0x3

-- The value stored, or none for an exception.
pub capability : ℕ → Option ℕ
capability caps_id =
    if caps_id == caps_version
    then some implementation_id
    else if caps_id == caps_max_cores
    then some num_cta
    else if caps_id == caps_max_warps
    then some num_warp
    else if caps_id == caps_max_threads
    then some num_thread
    else none

-- 0 or an exception, and what is stored through `value`; a null `value` may not be stored to.
pub vt_dev_caps : Bool → ℕ → Option ℕ → Result (Option ℕ) ℕ
unfolding capability
vt_dev_caps false caps_id value = thrown value
vt_dev_caps true caps_id value = elim (capability caps_id) [
  | none ↦ thrown value
  | some v ↦ if is_null value then undefined else returned (some v) 0
]

-- A uint64_t that is passed on as an int, which is then a number of 64 bits again.
pub int_arg : ℕ → ℕ
int_arg n = let low = n % 2 ^ 32 in if ltb low (2 ^ 31) then low else low + (2 ^ 64 - 2 ^ 32)

module _ {D : Device} where
  -- A call on a handle, which may not be null.
  abbrev pub on {κ} :
      {A : Type κ}
      → Option (Driver D)
      → (Driver D → Result (Driver D) A)
      → Result (Option (Driver D)) A
  on none call = thrown none
  on (some d) call = elim (call d) [
    | returned d' a ↦ returned (some d') a
    | thrown d' ↦ thrown (some d')
    | undefined ↦ undefined
    | unfinished ↦ unfinished
  ]

  abbrev pub on_sized {κ} :
      {A : Type κ}
      → ℕ
      → Option (Driver D)
      → (Driver D → Result (Driver D) A)
      → Result (Option (Driver D)) A
  on_sized size h call = if size == 0 then thrown h else on h call

  pub vt_root_mem_alloc : Option (Driver D) → ℕ → Result (Option (Driver D)) ℕ
  unfolding create_device_mem
  vt_root_mem_alloc h task_id = on h (λ d. create_device_mem d task_id)

  pub vt_root_mem_free : Option (Driver D) → ℕ → Result (Option (Driver D)) ℕ
  unfolding delete_device_mem
  vt_root_mem_free h task_id = on h (λ d. delete_device_mem d task_id)

  -- A new driver, on a device, ports and a controller as they are made, with context 0. What the
  -- creation of the context returns is dropped.
  pub vt_set_device : Bool → D.State → Inputs → MemController → Result (Option (Driver D)) ℕ
  unfolding vt_root_mem_alloc
  vt_set_device false s ports m = thrown none
  vt_set_device true s ports m =
      vt_root_mem_alloc (some (new_driver s ports m)) 0 |> λ h r. returned h 0

  -- The argument points to the handle, and is deleted as if it were the handle.
  pub vt_release : Bool → Option (Driver D) → Result (Option (Driver D)) ℕ
  vt_release false h = thrown h
  vt_release true h = undefined

  pub vt_malloc :
      Option (Driver D) → ℕ → Option ℕ → BufferType → ℕ → ℕ → Result (Option (Driver D)) (ℕ × ℕ)
  unfolding alloc_local_mem
  vt_malloc h size vaddr type task_id kernel_id =
      on_sized size h (λ d. alloc_local_mem d size vaddr type task_id kernel_id)

  pub vt_free : Option (Driver D) → ℕ → Option ℕ → ℕ → ℕ → Result (Option (Driver D)) ℕ
  unfolding free_local_mem
  vt_free h size vaddr task_id kernel_id =
      on_sized size h (λ d. free_local_mem d size vaddr task_id kernel_id)

  pub vt_copy_to_dev :
      Option (Driver D) → ℕ → Option Buffer → ℕ → ℕ → ℕ → Result (Option (Driver D)) ℕ
  unfolding upload
  vt_copy_to_dev h dev_vaddr src size task_id kernel_id =
      on_sized size h (λ d. upload d dev_vaddr src size task_id kernel_id)

  pub vt_copy_from_dev :
      Option (Driver D) → ℕ → Option Buffer → ℕ → ℕ → ℕ → Result (Option (Driver D)) (ℕ × Buffer)
  unfolding download
  vt_copy_from_dev h dev_vaddr dst size task_id kernel_id =
      on_sized size h (λ d. download d dev_vaddr dst size task_id kernel_id)

  -- What the function ends with after a copy: `unreachable` throws.
  abbrev pub unreachable {κ} : {A : Type κ} → Option (Driver D) → A → Result (Option (Driver D)) ℕ
  unreachable h a = thrown h

  -- 0 copies to the device, 1 from it. The buffer of the caller is at the other address.
  pub vt_memcopy :
      Option (Driver D) → ℕ → Option Buffer → ℕ → ℕ → ℕ → ℕ → Result (Option (Driver D)) ℕ
  unfolding vt_copy_to_dev vt_copy_from_dev
  vt_memcopy h dev_vaddr host size task_id kernel_id type =
      if type == 1
      then (vt_copy_from_dev h dev_vaddr host size task_id kernel_id |> unreachable)
      else if type == 0
      then (vt_copy_to_dev h dev_vaddr host size task_id kernel_id |> unreachable)
      else thrown h

  -- The results of the driver are dropped.
  pub vt_start : ℕ → HostPort → Option (Driver D) → Meta → ℕ → Result (Option (Driver D)) ℕ
  unfolding start int_arg
  vt_start fuel old h m task_id =
      on h (λ d. start fuel old d (int_arg task_id) m) |> λ h' r. returned h' 0

  pub vt_ready_wait : Option (Driver D) → ℕ → Result (Option (Driver D)) ℕ
  unfolding wait
  vt_ready_wait h timeout = on h (λ d. wait d timeout) |> λ h' r. returned h' 0
