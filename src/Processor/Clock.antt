-- ===== src/Processor/Clock.antt =====
-- The clock and the reports of src/device/processor.h: `eval`, `tick` and `wait`.
use ventus_driver.Common.{
  ℕ, zero, suc, ◌≡◌, Bool, true, false, none, some, List, [], ◌∷◌, ◌++◌, if◌then◌else◌, ◌==◌, ◌%◌,
  ◌^◌,
}
use ventus_driver.Processor.Ports.{Device}
use ventus_driver.Processor.{Processor, tick, outputs}
use ventus_driver.MemController

abbrev pub opposite : Bool → Bool
opposite b = if b then false else true

module _ {D : Device} where
  -- The signals that only `toggle` and `collect` change.
  record Same (p q : Processor D) : Type 0 where
    clock : q.ports.clock ≡ p.ports.clock
    finished : q.finished ≡ p.finished
    device : q.device ≡ p.device

  -- What `eval` leaves the host: the clock at its other level, and no report.
  record Toggled (p q : Processor D) : Type 0 where
    clock : q.ports.clock ≡ opposite p.ports.clock
    finished : q.finished ≡ p.finished

  -- The report that a processor shows, if it shows one.
  abbrev pub report : Processor D → List ℕ
  report p =
      if (D.outputs p.device).host_rsp_valid == 0
      then []
      else ((D.outputs p.device).wf_done_wg_id % 2 ^ 32 ∷ [])

  -- The reports of `n` ticks, in order.
  pub reports : ℕ → Processor D → List ℕ
  reports zero p = []
  reports (suc n) p = elim (tick p) [ none ↦ [] | some q ↦ report q ++ reports n q ]

  record Ticked (p q : Processor D) : Type 0 where
    clock : q.ports.clock ≡ p.ports.clock
    finished : q.finished ≡ p.finished ++ report q

  record Waited (n : ℕ) (p q : Processor D) : Type 0 where
    clock : q.ports.clock ≡ p.ports.clock
    finished : q.finished ≡ p.finished ++ reports n p
