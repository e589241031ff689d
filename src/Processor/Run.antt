-- ===== src/Processor/Run.antt =====
-- The loop of Processor::run in src/device/processor.h, which waits for the GPU to take a block.
use ventus_driver.Common.{
  ℕ, zero, suc, ◌<◌, ◌⊎◌, ◌≡◌, ◌≢◌, refl, true, false, Option, none, some, ◌==◌, ap, ◌∙◌,
  Bool-cases, Option-cases, inl, inr, arith,
}
use ventus_driver.Processor.Ports.{Device}
use ventus_driver.Processor.{
  Processor, Outcome, accepted, undefined, unfinished, tick, ticks, outputs, run_loop, last_tick,
  deassert,
}

module _ {D : Device} where
  -- The first `n` ticks have a meaning, and the GPU is ready after none of them.
  abbrev pub NotReady : ℕ → Processor D → Type 0
  NotReady n p =
      (j : ℕ)
      → j < n
      → (q : Processor D) × (ticks (suc j) p ≡ some q) × ((outputs q).host_req_ready ≢ 1)

  -- The GPU is ready after `k` ticks and one more, and after another one the processor is `r`.
  pub record Taken (p : Processor D) (k : ℕ) (r : Processor D) : Type 0 where
    pub q : Processor D
    pub reached : ticks (suc k) p ≡ some q
    pub ready : (outputs q).host_req_ready ≡ 1
    pub last : tick q ≡ some r

  -- How the loop ends on its fuel.
  pub data Ended (fuel : ℕ) (p : Processor D) : Type 0 where
    takes :
        (k : ℕ) (r : Processor D)
        → k < fuel
        → NotReady k p
        → Taken p k r
        → run_loop fuel p ≡ accepted (deassert r)
        → Ended fuel p
    fails :
        (k : ℕ)
        → k < fuel
        → NotReady k p
        → (ticks (suc k) p ≡ none) ⊎ (ticks (suc (suc k)) p ≡ none)
        → run_loop fuel p ≡ undefined
        → Ended fuel p
    waits : NotReady fuel p → run_loop fuel p ≡ unfinished → Ended fuel p

  ticks_step : (n : ℕ) (p p1 : Processor D) → tick p ≡ some p1 → ticks (suc n) p ≡ ticks n p1
  unfolding ticks
  ticks_step n p p1 e = rw e refl

  ticks_stop : (n : ℕ) (p : Processor D) → tick p ≡ none → ticks (suc n) p ≡ none
  unfolding ticks
  ticks_stop n p e = rw e refl

  Taken-earlier :
      (p p1 r : Processor D) (k : ℕ) → tick p ≡ some p1 → Taken p1 k r → Taken p (suc k) r
  Taken-earlier p p1 r k e t = record {
    q = t.q;
    reached = ticks_step (suc k) p p1 e ∙ t.reached;
    ready = t.ready;
    last = t.last;
  }

  abbrev turn : ℕ → Option (Processor D) → Outcome D
  turn fuel o = elim o [
    | none ↦ undefined
    | some p' ↦ elim ((outputs p').host_req_ready == 1) [
      | true ↦ last_tick p'
      | false ↦ run_loop fuel p'
    ]
  ]

  loop_taken :
      (fuel : ℕ) (p1 r : Processor D)
      → (outputs p1).host_req_ready ≡ 1
      → tick p1 ≡ some r
      → (elim ((outputs p1).host_req_ready == 1) [ true ↦ last_tick p1 | false ↦ run_loop fuel p1 ])
        ≡ accepted (deassert r)
  unfolding last_tick
  loop_taken fuel p1 r ready last =
      rw ready (ap (λ o. elim o [ none ↦ undefined | some p' ↦ accepted (deassert p') ]) last)

  loop_ready :
      (fuel : ℕ) (p p1 r : Processor D)
      → tick p ≡ some p1
      → (outputs p1).host_req_ready ≡ 1
      → tick p1 ≡ some r
      → run_loop (suc fuel) p ≡ accepted (deassert r)
  unfolding run_loop last_tick
  loop_ready fuel p p1 r e ready last = ap (turn fuel) e ∙ loop_taken fuel p1 r ready last

  loop_again :
      (fuel : ℕ) (p p1 : Processor D)
      → tick p ≡ some p1
      → ((outputs p1).host_req_ready == 1) ≡ false
      → run_loop (suc fuel) p ≡ run_loop fuel p1
  unfolding run_loop
  loop_again fuel p p1 e idle =
      ap (turn fuel) e ∙ ap (λ b. elim b [ true ↦ last_tick p1 | false ↦ run_loop fuel p1 ]) idle

  loop_fails : (fuel : ℕ) (p : Processor D) → tick p ≡ none → run_loop (suc fuel) p ≡ undefined
  unfolding run_loop
  loop_fails fuel p e = ap (turn fuel) e

  loop_ready_fails :
      (fuel : ℕ) (p p1 : Processor D)
      → tick p ≡ some p1
      → ((outputs p1).host_req_ready == 1) ≡ true
      → tick p1 ≡ none
      → run_loop (suc fuel) p ≡ undefined
  unfolding run_loop last_tick
  loop_ready_fails fuel p p1 e ready f =
      ap (turn fuel) e
      ∙ ap (λ b. elim b [ true ↦ last_tick p1 | false ↦ run_loop fuel p1 ]) ready
      ∙ ap (λ o. elim o [ none ↦ undefined | some p' ↦ accepted (deassert p') ]) f

  none_before : (p : Processor D) → NotReady 0 p
  none_before p j l = absurd (omega arith)

  NotReady-suc :
      (n : ℕ) (p p1 : Processor D)
      → tick p ≡ some p1
      → ((outputs p1).host_req_ready == 1) ≡ false
      → NotReady n p1
      → NotReady (suc n) p
  unfolding ticks
  NotReady-suc n p p1 e idle h zero l = (p1, ticks_step 0 p p1 e, ground (arith, idle))
  NotReady-suc n p p1 e idle h (suc j) l =
      let (q, f, w) = h j (omega arith) in (q, ticks_step (suc j) p p1 e ∙ f, w)

  loop_later :
      (fuel : ℕ) (p p1 : Processor D)
      → tick p ≡ some p1
      → ((outputs p1).host_req_ready == 1) ≡ false
      → Ended fuel p1
      → Ended (suc fuel) p
  loop_later fuel p p1 e idle (takes k r l h t done) =
      takes (suc k) r (omega arith) (NotReady-suc k p p1 e idle h) (Taken-earlier p p1 r k e t)
        (loop_again fuel p p1 e idle ∙ done)
  loop_later fuel p p1 e idle (fails k l h (inl stuck) done) =
      fails (suc k) (omega arith) (NotReady-suc k p p1 e idle h)
        (inl (ticks_step (suc k) p p1 e ∙ stuck)) (loop_again fuel p p1 e idle ∙ done)
  loop_later fuel p p1 e idle (fails k l h (inr stuck) done) =
      fails (suc k) (omega arith) (NotReady-suc k p p1 e idle h)
        (inr (ticks_step (suc (suc k)) p p1 e ∙ stuck)) (loop_again fuel p p1 e idle ∙ done)
  loop_later fuel p p1 e idle (waits h done) =
      waits (NotReady-suc fuel p p1 e idle h) (loop_again fuel p p1 e idle ∙ done)

  loop_now :
      (fuel : ℕ) (p p1 : Processor D)
      → tick p ≡ some p1
      → ((outputs p1).host_req_ready == 1) ≡ true
      → Ended (suc fuel) p
  unfolding ticks
  loop_now fuel p p1 e ready = elim (Option-cases (tick p1)) [
    | inl f ↦
        fails 0 (omega arith) (none_before p) (inr (ticks_step 1 p p1 e ∙ ticks_stop 0 p1 f))
          (loop_ready_fails fuel p p1 e ready f)
    | inr (r, f) ↦
        let one : (outputs p1).host_req_ready ≡ 1 = ground (arith, ready) in
        takes 0 r (omega arith) (none_before p)
          (record { q = p1; reached = ticks_step 0 p p1 e; ready = one; last = f })
          (loop_ready fuel p p1 r e one f)
  ]

  -- On any fuel the loop of run ends in one of three ways, from any processor. It ends with the request
  -- withdrawn one tick after the first tick at which the GPU is ready, which comes within the fuel. Or it
  -- has no meaning, since that tick or one up to it has none. Or the GPU is ready after none of as many
  -- ticks as there is fuel, and the loop would go on.
  pub run_loop-Ended : (fuel : ℕ) (p : Processor D) → Ended fuel p
  unfolding run_loop
  run_loop-Ended zero p = waits (none_before p) refl
  run_loop-Ended (suc fuel) p = elim (Option-cases (tick p)) [
    | inl e ↦ fails 0 (omega arith) (none_before p) (inl (ticks_stop 0 p e)) (loop_fails fuel p e)
    | inr (p1, e) ↦ elim (Bool-cases ((outputs p1).host_req_ready == 1)) [
      | inl ready ↦ loop_now fuel p p1 e ready
      | inr idle ↦ loop_later fuel p p1 e idle (run_loop-Ended fuel p1)
    ]
  ]
