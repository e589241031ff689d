-- ===== src/Processor.antt =====
-- src/device/processor.h, class Processor: the generated model of the GPU, its memory, and the
-- controller between them. The GPU is a parameter: `eval` of VGPGPU_top takes the ports that the driver
-- sets, and what it shows is read from its state. What a port keeps of a value that is wider is left to
-- the GPU. The time of the Verilator context is left out, since nothing reads it. `m_ram_` is never null
-- after the constructor. `none` is a step with no defined meaning.
pub mod Ports
pub mod Clock
pub mod Run
pub mod Serve
pub mod Boot
pub mod Examples
use ventus_driver.Common.{
  ℕ, zero, suc, ◌+◌, ◌*◌, ◌%◌, ◌^◌, Bool, true, false, Option, none, some, List, [], ◌∷◌, ◌++◌, ltb,
  ◌==◌, if◌then◌else◌, ◌>>=◌,
}
use ventus_driver.Block.Bytes.{Buffer, splice}
use ventus_driver.PhysicalMemory.{PhysicalMemory}
use ventus_driver.Memory.{new, convert}
use ventus_driver.MemController.{MemController, Request, Response, construct}
use ventus_driver.MemController
use Ports.{HostPort, Inputs, Outputs, Device}

abbrev pub ram_range : ℕ
ram_range = 4096 * 1024 * 1024

abbrev pub num_thread : ℕ
num_thread = 8

-- The GPU's state, and the ports that the driver has set.
pub record Processor (D : Device) : Type 0 where
  pub ram : PhysicalMemory
  pub device : D.State
  pub ports : Inputs
  pub root : ℕ
  pub mem_ctrl : MemController
  pub finished : List ℕ

-- The constructor, on a device and a controller's memory as they are made.
unfoldable pub boot : (D : Device) → D.State → Inputs → MemController → Processor D
unfolding new construct
boot D s ports m = record {
  ram = new ram_range;
  device = s;
  ports = ports;
  root = 0x20000000;
  mem_ctrl = construct num_thread m;
  finished = [];
}

-- The request that the GPU shows, at a physical address. The size is taken from the opcode's port.
abbrev pub request_from : Outputs → ℕ → Request → Request
request_from o address r = record {
  opcode = o.out_a_opcode % 2 ^ 8;
  size = o.out_a_opcode % 2 ^ 32;
  source = o.out_a_source % 2 ^ 32;
  address = address % 2 ^ 32;
  mask = o.out_a_mask % 2 ^ 32;
  ready = r.ready;
  valid = o.out_a_valid % 2 ^ 8;
  words = r.words;
  contents = splice r.contents 0 num_thread (λ i. o.out_a_data i % 2 ^ 32);
}

abbrev pub response_to : Outputs → Response → Response
response_to o r = record r { ready = o.out_d_ready % 2 ^ 8 }

-- The ports after the controller's channels are shown to the GPU.
abbrev pub show_channels : Request → Response → Inputs → Inputs
show_channels q r i = record i {
  out_a_ready = q.ready;
  out_d_opcode = r.opcode;
  out_d_size = r.size;
  out_d_source = r.source;
  out_d_data = splice i.out_d_data 0 num_thread r.contents;
  out_d_valid = r.valid;
}

-- How the loop of `run` ends within its fuel.
pub data Outcome (D : Device) : Type 0 where
  accepted : Processor D → Outcome D
  undefined : Outcome D
  unfinished : Outcome D

module _ {D : Device} where
  pub outputs : Processor D → Outputs
  outputs p = D.outputs p.device

  abbrev pub connect : Processor D → Outputs → ℕ → Processor D
  connect p o address =
      let q = request_from o address p.mem_ctrl.req in
      let r = response_to o p.mem_ctrl.rsp in
      record p {
        mem_ctrl = record p.mem_ctrl { req = q; rsp = r };
        ports = show_channels q r p.ports;
      }

  -- At high clock. The arrays of the channels are accessed up to `num_thread`.
  unfoldable pub get_ram_bits_port : Processor D → Option (Processor D)
  unfolding outputs
  get_ram_bits_port p =
      let o = outputs p in
      if p.ports.clock
      then (convert p.ram p.root o.out_a_address >>= λ address.
          if ltb p.mem_ctrl.req.words num_thread
          then none
          else if ltb p.mem_ctrl.rsp.words num_thread
          then none
          else some (connect p o address))
      else some p

  abbrev pub toggle : Processor D → Processor D
  toggle p =
      let ports' = record p.ports { clock = if p.ports.clock then false else true } in
      record p { ports = ports'; device = D.eval ports' p.device }

  unfoldable pub eval : Processor D → Option (Processor D)
  unfolding get_ram_bits_port MemController.eval
  eval p = get_ram_bits_port p >>= λ p1.
      let p2 = toggle p1 in
      MemController.eval p2.ports.clock p2.mem_ctrl p2.ram >>= λ (m, ram').
      some (record p2 { mem_ctrl = m; ram = ram' })

  -- A block that the GPU reports is queued, as an int, which is kept modulo `2 ^ 32`.
  abbrev pub collect : Processor D → Processor D
  collect p =
      let o = D.outputs p.device in
      if o.host_rsp_valid == 0
      then p
      else record p { finished = p.finished ++ (o.wf_done_wg_id % 2 ^ 32 ∷ []) }

  unfoldable pub tick : Processor D → Option (Processor D)
  unfolding eval
  tick p = eval p >>= λ p1. eval p1 >>= λ p2. some (collect p2)

  unfoldable pub ticks : ℕ → Processor D → Option (Processor D)
  ticks zero p = some p
  ticks (suc n) p = tick p >>= ticks n

  unfoldable pub finished_block : Processor D → List ℕ × Processor D
  finished_block p = (p.finished, record p { finished = [] })

  -- The counter is an int: a wait for more cycles than one holds has no meaning.
  unfoldable pub wait : ℕ → Processor D → Option (List ℕ × Processor D)
  unfolding ticks finished_block
  wait cycle p =
      if ltb 0x7fffffff cycle then none else (ticks cycle p >>= λ p'. some (finished_block p'))

  abbrev pub deassert : Processor D → Processor D
  deassert p = record p { ports = record p.ports { host_req_valid = 0 } }

  -- The tick after the GPU was ready, and the end of the loop.
  last_tick : Processor D → Outcome D
  last_tick p = elim (tick p) [ none ↦ undefined | some p' ↦ accepted (deassert p') ]

  unfoldable pub run_loop : ℕ → Processor D → Outcome D
  unfolding last_tick
  run_loop zero p = unfinished
  run_loop (suc fuel) p = elim (tick p) [
    | none ↦ undefined
    | some p' ↦ elim ((outputs p').host_req_ready == 1) [
      | true ↦ last_tick p'
      | false ↦ run_loop fuel p'
    ]
  ]

  abbrev pub request_run : HostPort → Processor D → Processor D
  request_run h p = record p {
    ports = record p.ports { host = h; host_req_valid = 1; host_rsp_ready = 1 };
  }

  -- The clock is brought to high before the ports are set.
  unfoldable pub run : ℕ → ℕ → HostPort → Processor D → Outcome D
  unfolding eval run_loop
  run fuel root input_sig p =
      let p0 = record p { root = root } in
      elim (if p0.ports.clock then some p0 else eval p0) [
        | none ↦ undefined
        | some p1 ↦ run_loop fuel (request_run input_sig p1)
      ]
