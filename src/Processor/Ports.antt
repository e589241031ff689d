-- ===== src/Processor/Ports.antt =====
-- The ports of the GPU that src/device/processor.h reads and writes, and host_port_t of
-- include/ventus.h.
use ventus_driver.Common.{ℕ, Bool}
use ventus_driver.Block.Bytes.{Buffer}

pub record HostPort : Type 0 where
  pub wg_id : ℕ
  pub num_wf : ℕ
  pub wf_size : ℕ
  pub start_pc : ℕ
  pub vgpr_size_total : ℕ
  pub sgpr_size_total : ℕ
  pub lds_size_total : ℕ
  pub gds_size_total : ℕ
  pub vgpr_size_per_wf : ℕ
  pub sgpr_size_per_wf : ℕ
  pub gds_baseaddr : ℕ
  pub pds_baseaddr : ℕ
  pub csr_knl : ℕ
  pub kernel_size_3d_0 : ℕ
  pub kernel_size_3d_1 : ℕ
  pub kernel_size_3d_2 : ℕ

-- The ports the driver sets.
pub record Inputs : Type 0 where
  pub clock : Bool
  pub host : HostPort
  pub host_req_valid : ℕ
  pub host_rsp_ready : ℕ
  pub out_a_ready : ℕ
  pub out_d_opcode : ℕ
  pub out_d_size : ℕ
  pub out_d_source : ℕ
  pub out_d_data : Buffer
  pub out_d_valid : ℕ

-- The ports the GPU sets.
pub record Outputs : Type 0 where
  pub host_req_ready : ℕ
  pub host_rsp_valid : ℕ
  pub wf_done_wg_id : ℕ
  pub out_a_address : ℕ
  pub out_a_opcode : ℕ
  pub out_a_source : ℕ
  pub out_a_mask : ℕ
  pub out_a_data : Buffer
  pub out_a_valid : ℕ
  pub out_d_ready : ℕ

-- The generated class: its `eval`, and the ports it shows in a state.
pub record Device : Type 1 where
  pub State : Type 0
  pub eval : Inputs → State → State
  pub outputs : State → Outputs
