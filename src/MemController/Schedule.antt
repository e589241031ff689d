-- ===== src/MemController/Schedule.antt =====
-- The controller of src/device/memory.h on a schedule of the GPU's moves and of clock levels.
use ventus_driver.Common.{
  ℕ, ◌≡◌, refl, ◌⊎◌, inl, inr, true, false, ◌||◌, Option, some, List, [], ◌∷◌, ◌==◌, if◌then◌else◌,
  ◌>>=◌, ◌∙◌, sym, subst, Bool-cases,
}
use ventus_driver.PhysicalMemory.{PhysicalMemory}
use ventus_driver.MemController.{MemController, Request, eval, reset, sample}
use ventus_driver.MemController.Phases.{
  Transaction, Phase, idle, pending, request_of, offered, next_phase, next_memory, Running,
  IsSupported, Holds, Supports,
}

-- What the GPU sets on the channels. It keeps to requests the controller supports.
abbrev pub drive : Request → ℕ → MemController → MemController
drive r ready m = record m {
  req = record r { ready = m.req.ready; words = m.req.words };
  rsp = record m.rsp { ready = ready };
}

abbrev pub Requests : Request → Type 0
Requests r = (r.valid ≡ 0) ⊎ IsSupported (request_of r)

-- The requests that are carried out, the last one first: one is added as its response is taken.
abbrev pub next_log : Phase → ℕ → List Transaction → List Transaction
next_log idle ready log = log
next_log (pending t) ready log = if ready == 0 then log else t ∷ log

-- The states a run from a reset controller reaches, with the phase and the log that the GPU's moves make:
-- a request is held from the low clock at which the channel offers it, as the channel shows it then.
pub data Reached (first : MemController) (pm : PhysicalMemory)
    : MemController → PhysicalMemory → Phase → List Transaction → Type 0 where
  started : Reached first pm (reset first) pm idle []
  drives :
      {m : MemController} {pm1 : PhysicalMemory} {now : Phase} {log : List Transaction}
      → Reached first pm m pm1 now log
      → (r : Request) (ready : ℕ) → Requests r
      → Reached first pm (drive r ready m) pm1 now log
  rises :
      {m : MemController} {pm1 : PhysicalMemory} {now : Phase} {log : List Transaction}
      → Reached first pm m pm1 now log
      → (m' : MemController) (pm' : PhysicalMemory) → eval true m pm1 ≡ some (m', pm')
      → Reached first pm m' pm' now log
  falls :
      {m : MemController} {pm1 : PhysicalMemory} {now : Phase} {log : List Transaction}
      → Reached first pm m pm1 now log
      → (m' : MemController) (pm' : PhysicalMemory) → eval false m pm1 ≡ some (m', pm')
      → Reached first pm m' pm'
          (next_phase now (offered m.req) m.rsp.ready)
          (next_log now m.rsp.ready log)

-- The memory after whole requests of `num` words, one after the other.
abbrev pub replay : ℕ → List Transaction → PhysicalMemory → Option PhysicalMemory
replay num [] pm = some pm
replay num (t ∷ ts) pm = replay num ts pm >>= λ pm'. next_memory num (pending t) 1 pm'

pub supported : (m : MemController) (now : Phase) → Requests m.req → Supports now (offered m.req)
supported m idle (inl e) = rw e tt
supported m idle (inr ok) = elim (Bool-cases ((m.req.valid == 0) || (m.req.ready == 0))) [
  | inl e ↦ rw e tt
  | inr e ↦ rw e ok
]
supported m (pending t) a = tt

pub sample-Holds : (m : MemController) (now : Phase) → Holds m now → Holds (sample m) now
sample-Holds m idle h = h
sample-Holds m (pending t) h = record {
  busy = h.busy;
  rw = h.rw;
  addr = h.addr;
  size = h.size;
  source = h.source;
  mask = h.mask;
  payload = h.payload;
  supported = h.supported;
  quiet = (h.quiet.0, h.quiet.0);
  inviting = (h.inviting.0, h.inviting.0);
}

next_memory_waits :
    (num ready : ℕ) (t : Transaction) (pm : PhysicalMemory)
    → (ready == 0) ≡ true
    → next_memory num (pending t) ready pm ≡ some pm
next_memory_waits num ready t pm e = rw e refl

next_memory_acts :
    (num ready : ℕ) (t : Transaction) (pm : PhysicalMemory)
    → (ready == 0) ≡ false
    → next_memory num (pending t) 1 pm ≡ next_memory num (pending t) ready pm
next_memory_acts num ready t pm e = rw e refl

-- A step of the memory is that of the log.
pub logged :
    (num : ℕ) (pm0 : PhysicalMemory) (log : List Transaction) (pm pm' : PhysicalMemory)
    (now : Phase) (ready : ℕ)
    → replay num log pm0 ≡ some pm
    → next_memory num now ready pm ≡ some pm'
    → replay num (next_log now ready log) pm0 ≡ some pm'
logged num pm0 log pm pm' idle ready e f = e ∙ f
logged num pm0 log pm pm' (pending t) ready e f = elim (Bool-cases (ready == 0)) [
  | inl waits ↦ rw (waits) (e ∙ sym (next_memory_waits num ready t pm waits) ∙ f)
  | inr acts ↦ rw (acts) (rw e (next_memory_acts num ready t pm acts ∙ f))
]

pub drive-Running :
    (r : Request) (ready : ℕ) (m : MemController) → Running m → Running (drive r ready m)
drive-Running r ready m h = record { delay = h.delay; timer = h.timer; few = h.few }

pub drive-Holds :
    (r : Request) (ready : ℕ) (m : MemController) (now : Phase)
    → Holds m now
    → Holds (drive r ready m) now
drive-Holds r ready m idle h = h
drive-Holds r ready m (pending t) h = record {
  busy = h.busy;
  rw = h.rw;
  addr = h.addr;
  size = h.size;
  source = h.source;
  mask = h.mask;
  payload = h.payload;
  supported = h.supported;
  quiet = h.quiet;
  inviting = h.inviting;
}

pub sample-Running : (m : MemController) → Running m → Running (sample m)
sample-Running m r = record { delay = r.delay; timer = r.timer; few = r.few }

pub Requests-kept :
    (old new : Request)
    → new.valid ≡ old.valid
    → request_of new ≡ request_of old
    → Requests old
    → Requests new
Requests-kept old new v e (inl quiet) = inl (v ∙ quiet)
Requests-kept old new v e (inr ok) = inr (subst IsSupported (sym e) ok)
