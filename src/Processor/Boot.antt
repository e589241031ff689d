-- ===== src/Processor/Boot.antt =====
-- class Processor of src/device/processor.h as its constructor makes it: the loops over the channels of
-- MemController in src/device/memory.h go past the end of their arrays at the first high clock.
use ventus_driver.Common.{
  ℕ, suc, ◌≡◌, refl, true, false, Option, none, some, if◌then◌else◌, ap, ◌∙◌, inl, arith,
  Bool-cases, inr, ltb,
}
use ventus_driver.MemController.{MemController, construct, channel_words}
use ventus_driver.MemController
use ventus_driver.Processor.Ports.{Device, HostPort, Inputs}
use ventus_driver.Processor.{
  Processor, Outcome, undefined, boot, get_ram_bits_port, eval, tick, ticks, wait, run, run_loop,
  request_run, toggle,
}
use ventus_driver.Processor.Serve.{eval_short}

module _ {D : Device} where
  -- An `eval` at low clock, which leaves the channels' arrays alone.
  abbrev risen : Processor D → Processor D
  risen p = record (toggle p) { mem_ctrl = MemController.sample p.mem_ctrl }

  eval_rises : (p : Processor D) → p.ports.clock ≡ false → eval p ≡ some (risen p)
  unfolding eval get_ram_bits_port MemController.eval
  eval_rises p low = rw low

  eval_falls :
      (p : Processor D)
      → p.mem_ctrl.req.words ≡ channel_words
      → p.ports.clock ≡ true
      → eval p ≡ none
  eval_falls p two high = eval_short p high (inl (omega (arith, two)))

  risen-clock : (p : Processor D) → p.ports.clock ≡ false → (risen p).ports.clock ≡ true
  risen-clock p low = ap (λ b. if b then false else true) low

  tick_overruns : (p : Processor D) → p.mem_ctrl.req.words ≡ channel_words → tick p ≡ none
  unfolding tick
  tick_overruns p two = elim (Bool-cases p.ports.clock) [
    | inl high ↦ rw (eval_falls p two high)
    | inr low ↦ rw (eval_rises p low, eval_falls (risen p) two (risen-clock p low))
  ]

  wait_overruns :
      (n : ℕ) (p : Processor D) → p.mem_ctrl.req.words ≡ channel_words → wait (suc n) p ≡ none
  unfolding wait ticks
  wait_overruns n p two = elim (Bool-cases (ltb 0x7fffffff (suc n))) [
    | inl long ↦ rw long
    | inr short ↦ rw (short, tick_overruns p two)
  ]

  loop_overruns :
      (fuel : ℕ) (p : Processor D)
      → p.mem_ctrl.req.words ≡ channel_words
      → run_loop (suc fuel) p ≡ undefined
  unfolding run_loop
  loop_overruns fuel p two = rw (run_loop, tick_overruns p two)

  -- The loop, from a processor whose clock is high.
  abbrev enter : ℕ → HostPort → Option (Processor D) → Outcome D
  enter fuel h o = elim o [ none ↦ undefined | some p1 ↦ run_loop (suc fuel) (request_run h p1) ]

  run_overruns :
      (fuel root : ℕ) (h : HostPort) (p : Processor D)
      → p.mem_ctrl.req.words ≡ channel_words
      → run (suc fuel) root h p ≡ undefined
  unfolding run
  run_overruns fuel root h p two =
      let p0 = record p { root = root } in
      elim (Bool-cases p.ports.clock) [
        | inl high ↦
            ap (λ b. enter fuel h (if b then some p0 else eval p0)) high
            ∙ loop_overruns fuel (request_run h p0) two
        | inr low ↦
            ap (λ b. enter fuel h (if b then some p0 else eval p0)) low
            ∙ ap (enter fuel h) (eval_rises p0 low)
            ∙ loop_overruns fuel (request_run h (risen p0)) two
      ]

-- Of a processor that the constructor made, with any GPU, in any state, and whatever its memory held: the
-- first tick goes past the end of the request channel's array of 2 words, and so does every wait for at
-- least one cycle and every run that gets as far as the first round of its loop.
pub boot-overruns :
    (D : Device) (s : D.State) (ports : Inputs) (m : MemController)
    → (tick (boot D s ports m) ≡ none)
      × ((n : ℕ) → wait (suc n) (boot D s ports m) ≡ none)
      × ((fuel root : ℕ) (h : HostPort) → run (suc fuel) root h (boot D s ports m) ≡ undefined)
unfolding boot construct
boot-overruns D s ports m = (
  tick_overruns (boot D s ports m) refl,
  λ n. wait_overruns n (boot D s ports m) refl,
  λ fuel root h. run_overruns fuel root h (boot D s ports m) refl,
)
