-- ===== src/Processor/Examples.antt =====
-- Instances and tests for class Processor of src/device/processor.h, with a GPU that counts its
-- evaluations, takes a block from the fourth on, and reports the count.
use ventus_driver.Common.{ℕ, suc, ◌≡◌, refl, [], ◌∷◌, none, some, true, ltb, if◌then◌else◌}
use ventus_driver.PhysicalMemory.{init}
use ventus_driver.PhysicalMemory.Data.{read_value, read_blocks}
use ventus_driver.Sv39.{va_extract, pte_to_pa}
use ventus_driver.Memory.{convert}
use ventus_driver.Block.{create}
use ventus_driver.MemController.{MemController, Request, Response, construct}
use ventus_driver.MemController
use ventus_driver.Processor.Ports.{Device, Inputs, Outputs, HostPort}
use ventus_driver.Processor.{
  Processor, boot, accepted, undefined, run, last_tick, eval, tick, ticks, wait, run_loop, outputs,
  get_ram_bits_port, finished_block,
}
use ventus_driver.Processor.Run.{Ended, run_loop-Ended}
use ventus_driver.Processor.Boot.{boot-overruns}

abbrev pub counted : ℕ → Outputs
counted n = record {
  host_req_ready = if ltb n 4 then 0 else 1;
  host_rsp_valid = 1;
  wf_done_wg_id = n;
  out_a_address = 0;
  out_a_opcode = 4;
  out_a_source = 0;
  out_a_mask = 0;
  out_a_data = λ i. 0;
  out_a_valid = 0;
  out_d_ready = 1;
}

abbrev pub counter : Device
counter = record { State = ℕ; eval = λ i n. suc n; outputs = counted }

abbrev pub no_port : HostPort
no_port = record {
  wg_id = 0;
  num_wf = 0;
  wf_size = 0;
  start_pc = 0;
  vgpr_size_total = 0;
  sgpr_size_total = 0;
  lds_size_total = 0;
  gds_size_total = 0;
  vgpr_size_per_wf = 0;
  sgpr_size_per_wf = 0;
  gds_baseaddr = 0;
  pds_baseaddr = 0;
  csr_knl = 0;
  kernel_size_3d_0 = 0;
  kernel_size_3d_1 = 0;
  kernel_size_3d_2 = 0;
}

abbrev pub ports : Inputs
ports = record {
  clock = true;
  host = no_port;
  host_req_valid = 1;
  host_rsp_ready = 1;
  out_a_ready = 0;
  out_d_opcode = 0;
  out_d_size = 0;
  out_d_source = 0;
  out_d_data = λ i. 0;
  out_d_valid = 0;
}

-- A controller whose channels have `n` words.
abbrev pub controller : ℕ → MemController
controller n = record {
  req = record {
    opcode = 0;
    size = 0;
    source = 0;
    address = 0;
    mask = 0;
    ready = 0;
    valid = 0;
    words = n;
    contents = λ i. 0;
  };
  rsp = record {
    opcode = 0;
    size = 0;
    source = 0;
    ready = 0;
    valid = 0;
    words = n;
    contents = λ i. 0;
  };
  buffer = λ i. 0;
  default_delay = 0;
  time_remain = 0;
  in_rsp = 0;
  rw = 0;
  num = 8;
  req_valid = 0;
  rsp_ready = 0;
  req_ready = 0;
  rsp_valid = 0;
  addr = 0;
  size = 0;
  source = 0;
  mask = 0;
}

abbrev pub first : ℕ → Processor counter
first n = record {
  ram = init 0x30000000;
  device = 0;
  ports = ports;
  root = 0x20000000;
  mem_ctrl = controller n;
  finished = [];
}

boot-overruns_example :
    (tick (boot counter 0 ports (controller 8)) ≡ none)
    × ((n : ℕ) → wait (suc n) (boot counter 0 ports (controller 8)) ≡ none)
    × ((fuel root : ℕ) (h : HostPort)
        → run (suc fuel) root h (boot counter 0 ports (controller 8)) ≡ undefined)
boot-overruns_example = boot-overruns counter 0 ports (controller 8)

-- The wait has a result, with the report of the tick.
waited : (q : Processor counter) × (wait 1 (first 8) ≡ some (2 ∷ [], q))
unfolding wait ticks tick eval get_ram_bits_port outputs finished_block convert init create
    read_value read_blocks va_extract pte_to_pa MemController.eval MemController.serve
    MemController.take_request
waited = (_, refl)

-- The GPU is ready after two ticks, and the loop ends.
taken : (r : Processor counter) × (run_loop 5 (first 8) ≡ accepted r)
unfolding run_loop last_tick tick eval get_ram_bits_port outputs convert init create read_value
    read_blocks va_extract pte_to_pa MemController.eval MemController.serve
    MemController.take_request
taken = (_, refl)

run_loop-Ended_example : Ended 5 (first 8)
run_loop-Ended_example = run_loop-Ended 5 (first 8)
