-- ===== src/Processor/Serve.antt =====
-- Processor::eval of src/device/processor.h at high clock: the request that the GPU shows reaches the
-- controller at the address that `convert` gives it.
use ventus_driver.Common.{
  ℕ, ◌%◌, ◌^◌, ◌≡◌, ◌<◌, ◌⊎◌, true, false, none, some, Bool-cases, ◌>>=◌, ap, arith, Option-cases,
  inl, inr, ltb,
}
use ventus_driver.PhysicalMemory.Invariant.{IsWellFormed}
use ventus_driver.PhysicalMemory.{PhysicalMemory}
use ventus_driver.Memory.{convert}
use ventus_driver.MemController.{MemController, Request}
use ventus_driver.MemController
use ventus_driver.MemController.Phases.{
  Phase, offered, next_phase, next_memory, Running, Holds, Supports, Evaluated,
}
use ventus_driver.MemController.Refines.{eval-Refined}
use ventus_driver.MemController.Schedule.{drive-Holds, drive-Running}
use ventus_driver.Processor.Ports.{Device}
use ventus_driver.Processor.{
  Processor, outputs, get_ram_bits_port, eval, connect, toggle, num_thread, request_from,
}

-- Whether a channel's array is shorter than the words that the loops over it run to.
abbrev pub IsShort : {D : Device} → Processor D → Type 0
IsShort p = (p.mem_ctrl.req.words < num_thread) ⊎ (p.mem_ctrl.rsp.words < num_thread)

module _ {D : Device} (p : Processor D) where
  past_the_end : p.ports.clock ≡ true → IsShort p → get_ram_bits_port p ≡ none
  unfolding get_ram_bits_port
  past_the_end high short = elim (Option-cases (convert p.ram p.root (outputs p).out_a_address)) [
    | inl e ↦ rw (high, e)
    | inr (a, e) ↦ elim (Bool-cases (ltb p.mem_ctrl.req.words num_thread)) [
      | inl past ↦ rw (high, e, past)
      | inr fits ↦
          let past : ltb p.mem_ctrl.rsp.words num_thread ≡ true = ground (arith, short, fits) in
          rw (high, e, fits, past)
    ]
  ]

  -- At high clock `eval` goes past the end of a short array, whatever the GPU shows.
  pub eval_short : p.ports.clock ≡ true → IsShort p → eval p ≡ none
  unfolding eval
  eval_short high short =
      ap
        (λ o. o >>= λ p1.
          MemController.eval (toggle p1).ports.clock p1.mem_ctrl p1.ram >>= λ (m, ram').
          some (record (toggle p1) { mem_ctrl = m; ram = ram' }))
        (past_the_end high short)

module _ {D : Device} (p : Processor D) (address : ℕ) (now : Phase) where
  -- The request as the controller receives it.
  abbrev pub received : Request
  received = request_from (outputs p) address p.mem_ctrl.req

  abbrev pub taking : ℕ
  taking = (outputs p).out_d_ready % 2 ^ 8

  -- A processor at high clock whose controller is in a phase.
  pub record Serving : Type 0 where
    pub high : p.ports.clock ≡ true
    pub well : IsWellFormed p.ram
    pub running : Running p.mem_ctrl
    pub threads : p.mem_ctrl.num ≡ num_thread
    pub holds : Holds p.mem_ctrl now
    pub found : convert p.ram p.root (outputs p).out_a_address ≡ some address
    pub supported : Supports now (offered received)

  pub record Served : Type 0 where
    pub q : Processor D
    pub evaluates : eval p ≡ some q
    pub low : q.ports.clock ≡ false
    pub well : IsWellFormed q.ram
    pub running : Running q.mem_ctrl
    pub holds : Holds q.mem_ctrl (next_phase now (offered received) taking)
    pub memory : next_memory num_thread now taking p.ram ≡ some q.ram
    pub device : q.device ≡ D.eval (toggle (connect p (outputs p) address)).ports p.device

  answered : Serving → Evaluated (connect p (outputs p) address).mem_ctrl p.ram now
  answered s =
      eval-Refined (connect p (outputs p) address).mem_ctrl p.ram now s.well
        (drive-Running received taking p.mem_ctrl s.running)
        (drive-Holds received taking p.mem_ctrl now s.holds) s.supported

  abbrev after : MemController → PhysicalMemory → Processor D
  after m ram = record (toggle (connect p (outputs p) address)) { mem_ctrl = m; ram = ram }
