-- ===== src/Driver/Kernels.antt =====
-- Driver of src/driver.h: the start of a kernel, block by block, and the wait for blocks that the GPU
-- has finished.
use ventus_driver.Common.{
  ℕ, zero, suc, ◌*◌, ◌%◌, ◌^◌, Option, none, some, [], ◌∷◌, leb, if◌then◌else◌, ◌>>=◌, u64, bit_or,
}
use ventus_driver.Processor.Ports.{Device, HostPort}
use ventus_driver.Processor.{Outcome, accepted, run}
use ventus_driver.Driver.{
  Driver, Context, Kernel, unfinish, Result, returned, thrown, undefined, unfinished, ◌|>◌, defined,
}
use ventus_driver.Driver.Maps.{find, emplace, assign}

-- `krl::Meta`.
pub record Meta : Type 0 where
  pub kernel_id : ℕ
  pub kernel_size_0 : ℕ
  pub kernel_size_1 : ℕ
  pub kernel_size_2 : ℕ
  pub wf_size : ℕ
  pub wg_size : ℕ
  pub base_addr : ℕ
  pub lds_size : ℕ
  pub pds_size : ℕ
  pub sgpr_usage : ℕ
  pub vgpr_usage : ℕ
  pub pds_base_addr : ℕ

abbrev u32 : ℕ → ℕ
u32 n = n % 2 ^ 32

-- The ports as they are set before the loop; `wg_id` is not.
pub first_port : Meta → HostPort → HostPort
first_port m old = record {
  wg_id = old.wg_id;
  num_wf = u32 m.wg_size;
  wf_size = u32 m.wf_size;
  start_pc = 0x80000000;
  vgpr_size_total = u32 (m.wg_size * m.vgpr_usage);
  sgpr_size_total = u32 (m.wg_size * m.sgpr_usage);
  lds_size_total = u32 m.lds_size;
  gds_size_total = 0;
  vgpr_size_per_wf = u32 m.vgpr_usage;
  sgpr_size_per_wf = u32 m.sgpr_usage;
  gds_baseaddr = 0;
  pds_baseaddr = u32 m.pds_base_addr;
  csr_knl = u32 m.base_addr;
  kernel_size_3d_0 = u32 m.kernel_size_0;
  kernel_size_3d_1 = u32 m.kernel_size_1;
  kernel_size_3d_2 = u32 m.kernel_size_2;
}

-- The ports of a block: all but `wg_id` are set to constants, those of the kernel among them.
pub block_port : ℕ → HostPort → HostPort
block_port wg_id h = record h {
  wg_id = wg_id;
  num_wf = 2;
  wf_size = 0x8;
  kernel_size_3d_0 = 0;
  kernel_size_3d_1 = 0;
  kernel_size_3d_2 = 0;
  vgpr_size_total = 0x040;
  sgpr_size_total = 0x040;
  gds_size_total = 0;
  vgpr_size_per_wf = 0x020;
  sgpr_size_per_wf = 0x020;
  start_pc = 0x80000000;
  pds_baseaddr = 0x80001000;
  csr_knl = 0x80023000;
  lds_size_total = 0x80;
  gds_baseaddr = 0x00000000;
}

-- `<<` of a uint64_t: no meaning from 64 places on.
unfoldable pub shift_left : ℕ → ℕ → Option ℕ
shift_left a n = if leb 64 n then none else some (u64 (a * 2 ^ n))

-- Bits of a number: log2 of MAX_CONTEXT and MAX_KERNEL, of `NUM_SM * MAX_BLOCK_PER_SM`, and of NUM_SM.
abbrev pub context_bits : ℕ
context_bits = 2

abbrev pub kernel_bits : ℕ
kernel_bits = 2

abbrev pub block_bits : ℕ
block_bits = 6

abbrev pub sm_bits : ℕ
sm_bits = 1

-- `host_req_wg_id` of block `i`: the `|` binds weaker than `<<`, and two of them stand in the count of a
-- shift.
unfoldable pub wg_id : ℕ → ℕ → ℕ → Option ℕ
wg_id kernel_id task_id i = shift_left kernel_id context_bits >>= λ a.
    shift_left (bit_or a task_id) (bit_or kernel_bits kernel_id) >>= λ b.
    shift_left b (bit_or block_bits i) >>= λ c. some (u32 (u32 c * 2 ^ sm_bits))

abbrev pub new_kernel : ℕ → Kernel
new_kernel id = record { blk_list = (id, unfinish) ∷ []; state = unfinish }

module _ {D : Device} where
  abbrev pub record_block : Driver D → ℕ → Context → ℕ → ℕ → Driver D
  record_block d task_id c kernel_id id = record d {
    contexts =
        assign d.contexts task_id
          (record c { krl_list = emplace c.krl_list kernel_id (new_kernel id) });
  }

  -- One block: the processor runs it, and it is entered in the list of its kernel.
  unfoldable pub start_block : ℕ → Driver D → ℕ → ℕ → ℕ → HostPort → Result (Driver D) HostPort
  unfolding block_port
  start_block fuel d task_id kernel_id i port = defined (wg_id kernel_id task_id i) (λ id.
      defined (find d.contexts task_id) (λ c.
        let port' = block_port id port in
        elim (run fuel c.root port' d.processor) [
          | Outcome.undefined ↦ undefined
          | Outcome.unfinished ↦ unfinished
          | accepted p ↦
              returned (record_block (record d { processor = p }) task_id c kernel_id id) port'
        ]))

  unfoldable pub start_blocks : ℕ → ℕ → Driver D → ℕ → ℕ → ℕ → HostPort → Result (Driver D) ℕ
  unfolding start_block
  start_blocks fuel zero d task_id kernel_id i port = returned d 0
  start_blocks fuel (suc left) d task_id kernel_id i port =
      start_block fuel d task_id kernel_id i port |> λ d' port'.
      start_blocks fuel left d' task_id kernel_id (suc i) port'

  -- `fuel` bounds the ticks until the GPU takes a block; `old` is the port's memory as it is made.
  unfoldable pub start : ℕ → HostPort → Driver D → ℕ → Meta → Result (Driver D) ℕ
  unfolding start_blocks first_port
  start fuel old d task_id m = elim (find d.contexts task_id) [
    | none ↦ thrown d
    | some c ↦
        let wg_num = u64 (m.kernel_size_0 * m.kernel_size_1 * m.kernel_size_2) in
        start_blocks fuel wg_num d task_id m.kernel_id 0 (first_port m old)
  ]
