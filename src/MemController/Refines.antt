-- ===== src/MemController/Refines.antt =====
-- `eval` of MemController in src/device/memory.h against its phases.
use ventus_driver.Common.{
  ◌≡◌, inl, inr, false, ◌||◌, some, sym, ◌∙◌, ◌==◌, arith, subst, Bool-cases,
}
use mathlib.Core.Option.{none-ne-some}
use ventus_driver.PhysicalMemory.{PhysicalMemory}
use ventus_driver.PhysicalMemory.Invariant.{IsWellFormed}
use ventus_driver.MemController.{MemController, Request, eval}
use ventus_driver.MemController.Phases.{
  Refined, Evaluated, Holds, Phase, Running, Supports, idle, offered, pending, request_of,
}
use ventus_driver.MemController.Waiting.{idle_empty, idle_offered}
use ventus_driver.MemController.Holding.{pending_reads, pending_waits, pending_writes}

offered_known :
    (r : Request) → ((r.valid == 0) || (r.ready == 0)) ≡ false → offered r ≡ some (request_of r)
offered_known r e = rw e

-- At low clock, a controller of at most 32 words, with no delay set or running, in one of the two phases,
-- that serves reads and writes of 32-bit addresses on a well-formed memory does what its phases say: one
-- request is taken at a time, carried out on the memory as the GPU takes the response, and answered by
-- it. Or `eval` has no meaning, and then the words of a write are offered in an array shorter than a
-- request, or those of a read go to one.
pub eval-Refined :
    (m : MemController) (pm : PhysicalMemory) (now : Phase)
    → IsWellFormed pm
    → Running m
    → Holds m now
    → Supports now (offered m.req)
    → Evaluated m pm now
eval-Refined m pm idle w r h ok = elim (Bool-cases ((m.req.valid == 0) || (m.req.ready == 0))) [
  | inl e ↦ inr (idle_empty m pm r w h e)
  | inr e ↦ idle_offered m pm r w h e (subst (Supports idle) (offered_known m.req e) ok)
]
eval-Refined m pm (pending t) w r h ok = elim (Bool-cases (m.rsp.ready == 0)) [
  | inl e ↦ inr (pending_waits m pm t r w h (ground (arith, e)))
  | inr e ↦ elim h.supported.kind [
    | inl store ↦ inr (pending_writes m pm t r w h store e)
    | inr load ↦ pending_reads m pm t r w h load e
  ]
]

-- Where `eval` has a result it did not go past the end.
pub not_undefined :
    (m : MemController) (pm : PhysicalMemory) (now : Phase) (m' : MemController)
    (pm' : PhysicalMemory)
    → Evaluated m pm now
    → eval false m pm ≡ some (m', pm')
    → Refined m pm now
not_undefined m pm now m' pm' (inl (fails, past)) e = absurd (none-ne-some _ (sym fails ∙ e))
not_undefined m pm now m' pm' (inr f) e = f
