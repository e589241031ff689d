-- ===== src/MemController/Safety.antt =====
-- What holds on every schedule of the controller of src/device/memory.h.
use ventus_driver.Common.{
  ℕ, ◌≤◌, ◌≡◌, refl, ◌⊎◌, inl, inr, false, none, some, List, [], ◌∙◌, sym, subst,
}
use mathlib.Core.Option.{some-injective}
use ventus_driver.PhysicalMemory.{PhysicalMemory}
use ventus_driver.PhysicalMemory.Invariant.{IsWellFormed}
use ventus_driver.MemController.{MemController, Request, eval, reset, sample}
use ventus_driver.MemController.Phases.{
  Evaluated, Transaction, Phase, Overruns, idle, offered, next_phase, next_memory, Running, Holds,
  Refined,
}
use ventus_driver.MemController.Refines.{eval-Refined, not_undefined}
use ventus_driver.MemController.Schedule.{
  Reached, Requests, Requests-kept, drive, drive-Holds, drive-Running, drives, falls, logged,
  next_log, replay, rises, sample-Holds, sample-Running, started, supported,
}

-- What holds between the steps of a run that began with `num` and `pm0`, in a phase with a log.
record Sound (num : ℕ) (pm0 : PhysicalMemory) (m : MemController) (pm : PhysicalMemory)
    (now : Phase) (log : List Transaction) : Type 0 where
  replayed : replay num log pm0 ≡ some pm
  counts : m.num ≡ num
  well : IsWellFormed pm
  running : Running m
  holds : Holds m now
  asked : Requests m.req

module _ (num : ℕ) (pm0 : PhysicalMemory) where
  drive-Sound :
      (r : Request) (ready : ℕ) (m : MemController) (pm : PhysicalMemory) (now : Phase)
      (log : List Transaction)
      → Requests r
      → Sound num pm0 m pm now log
      → Sound num pm0 (drive r ready m) pm now log
  drive-Sound r ready m pm now log a s = record {
    replayed = s.replayed;
    counts = s.counts;
    well = s.well;
    running = drive-Running r ready m s.running;
    holds = drive-Holds r ready m now s.holds;
    asked = a;
  }

  sample-Sound :
      (m : MemController) (pm : PhysicalMemory) (now : Phase) (log : List Transaction)
      → Sound num pm0 m pm now log
      → Sound num pm0 (sample m) pm now log
  sample-Sound m pm now log s = record {
    replayed = s.replayed;
    counts = s.counts;
    well = s.well;
    running = sample-Running m s.running;
    holds = sample-Holds m now s.holds;
    asked = s.asked;
  }

  evaluated :
      (m : MemController) (pm : PhysicalMemory) (now : Phase) (log : List Transaction)
      → Sound num pm0 m pm now log
      → Evaluated m pm now
  evaluated m pm now log s =
      eval-Refined m pm now s.well s.running s.holds (supported m now s.asked)

  fall-Sound :
      (m : MemController) (pm : PhysicalMemory) (now : Phase) (log : List Transaction)
      → Sound num pm0 m pm now log
      → (f : Refined m pm now)
      → Sound num pm0 f.m' f.pm'
          (next_phase now (offered m.req) m.rsp.ready)
          (next_log now m.rsp.ready log)
  fall-Sound m pm now log s f =
      let e : next_memory num now m.rsp.ready pm ≡ some f.pm' =
        subst (λ n. next_memory n now m.rsp.ready pm ≡ some f.pm') s.counts f.memory in
      record {
        replayed = logged num pm0 log pm f.pm' now m.rsp.ready s.replayed e;
        counts = f.same_num ∙ s.counts;
        well = f.well;
        running = f.running;
        holds = f.holds;
        asked = Requests-kept m.req f.m'.req f.same_valid f.same_request s.asked;
      }

-- A controller before it is reset: no delay is set, no request is offered yet, and one has at most the
-- 32 words that a mask has bits for.
pub record Fresh (first : MemController) : Type 0 where
  pub delay : first.default_delay ≡ 0
  pub few : first.num ≤ 32
  pub silent : first.req.valid ≡ 0

reset-Sound :
    (first : MemController) (pm : PhysicalMemory)
    → Fresh first
    → IsWellFormed pm
    → Sound first.num pm (reset first) pm idle []
unfolding reset
reset-Sound first pm h w = record {
  replayed = refl;
  counts = refl;
  well = w;
  running = record { delay = h.delay; timer = refl; few = h.few };
  holds = refl;
  asked = inl h.silent;
}

Reached-Sound :
    {first : MemController} {pm : PhysicalMemory} {m : MemController} {pm' : PhysicalMemory}
    {now : Phase} {log : List Transaction}
    → Fresh first
    → IsWellFormed pm
    → Reached first pm m pm' now log
    → Sound first.num pm m pm' now log
unfolding eval
Reached-Sound {first} {pm} h w started = reset-Sound first pm h w
Reached-Sound {first} {pm} h w (drives {m} {pm1} {now} {log} run r ready a) =
    drive-Sound first.num pm r ready m pm1 now log a (Reached-Sound h w run)
Reached-Sound {first} {pm} h w (rises {m} {pm1} {now} {log} run m' pm' e) =
    subst (λ x. Sound first.num pm x.0 x.1 now log) (some-injective _ _ e)
      (sample-Sound first.num pm m pm1 now log (Reached-Sound h w run))
Reached-Sound {first} {pm} h w (falls {m} {pm1} {now} {log} run m' pm' e) =
    let s = Reached-Sound h w run in
    let f = not_undefined m pm1 now m' pm' (evaluated first.num pm m pm1 now log s) e in
    subst
      (λ x.
        Sound first.num pm x.0 x.1 (next_phase now (offered m.req) m.rsp.ready)
          (next_log now m.rsp.ready log))
      (some-injective _ _ (sym f.evaluates ∙ e)) (fall-Sound first.num pm m pm1 now log s f)

-- On any schedule of the GPU's reads and writes of 32-bit addresses, of its `ready`, and of clock levels,
-- from a reset controller of at most 32 words with no delay set and no request offered yet, on a
-- well-formed memory: the memory is what the schedule's log of requests makes of it, one whole request
-- after the other, each as it was on the channel when it was taken; it stays well formed, and the
-- controller holds the request of the schedule's phase.
pub Reached-replay :
    {first : MemController} {pm : PhysicalMemory} {m : MemController} {pm' : PhysicalMemory}
    {now : Phase} {log : List Transaction}
    → Fresh first
    → IsWellFormed pm
    → Reached first pm m pm' now log
    → (replay first.num log pm ≡ some pm') × IsWellFormed pm' × Holds m now
Reached-replay h w r = let s = Reached-Sound h w r in (s.replayed, s.well, s.holds)

-- On any schedule of the GPU's reads and writes of 32-bit addresses, of its `ready`, and of clock levels,
-- from a reset controller of at most 32 words with no delay set and no request offered yet, on a
-- well-formed memory: the next `eval` at low clock has a meaning, unless the words of a write are offered
-- in an array that is shorter than a request, or those of a read go to one.
pub Reached-eval :
    {first : MemController} {pm : PhysicalMemory} {m : MemController} {pm' : PhysicalMemory}
    {now : Phase} {log : List Transaction}
    → Fresh first
    → IsWellFormed pm
    → Reached first pm m pm' now log
    → ((eval false m pm' ≡ none) × Overruns m now)
      ⊎ ((m2 : MemController) × (pm2 : PhysicalMemory) × (eval false m pm' ≡ some (m2, pm2)))
Reached-eval {first} {pm} {m} {pm'} {now} {log} h w r =
    elim (evaluated first.num pm m pm' now log (Reached-Sound h w r)) [
      | inl past ↦ inl past
      | inr f ↦ inr (f.m', f.pm', f.evaluates)
    ]
