-- ===== src/MemController/Phases.antt =====
-- MemController of src/device/memory.h seen as a controller of two phases: waiting for a request, and
-- holding one until the GPU takes the response.
use ventus_driver.Common.{
  ℕ, ◌^◌, ◌≤◌, ◌<◌, ◌≡◌, ◌⊎◌, inl, inr, false, ◌||◌, Option, none, some, ◌==◌, if◌then◌else◌, ◌>>=◌,
}
use ventus_driver.Block.Bytes.{Buffer, to_bytes}
use ventus_driver.PhysicalMemory.{PhysicalMemory}
use ventus_driver.PhysicalMemory.Invariant.{IsWellFormed}
use ventus_driver.Memory.Access.{read_phy_array, write_phy_array}
use ventus_driver.MemController.{MemController, Request, Response, eval, serve}

-- A request as the controller keeps it.
pub record Transaction : Type 0 where
  pub opcode : ℕ
  pub address : ℕ
  pub size : ℕ
  pub source : ℕ
  pub mask : ℕ
  pub payload : Buffer

pub data Phase : Type 0 where
  idle : Phase
  pending : Transaction → Phase

-- The request on the channel, if there is one that the controller has agreed to take.
abbrev pub request_of : Request → Transaction
request_of r = record {
  opcode = r.opcode;
  address = r.address;
  size = r.size;
  source = r.source;
  mask = r.mask;
  payload = r.contents;
}

abbrev pub offered : Request → Option Transaction
offered r = if (r.valid == 0) || (r.ready == 0) then none else some (request_of r)

abbrev pub accept : Option Transaction → Phase
accept none = idle
accept (some t) = pending t

-- What the phases do: a request is taken as it is offered, and held until the response is taken.
abbrev pub next_phase : Phase → Option Transaction → ℕ → Phase
next_phase idle offer ready = accept offer
next_phase (pending t) offer ready = if ready == 0 then pending t else idle

-- What happens to the memory of `num` words at a time.
abbrev pub next_memory : ℕ → Phase → ℕ → PhysicalMemory → Option PhysicalMemory
next_memory num idle ready pm = some pm
next_memory num (pending t) ready pm =
    if ready == 0
    then some pm
    else if t.opcode == 0
    then (write_phy_array 4 pm t.address num t.payload (some (to_bytes t.mask)) >>= λ (s, pm').
        some pm')
    else some pm

-- The response channel after a response: `opcode` 1 and the words for a read, 0 for a write.
pub record Answers (num : ℕ) (t : Transaction) (pm : PhysicalMemory) (old new : Response)
    : Type 0 where
  pub valid : new.valid ≡ 1
  pub source : new.source ≡ t.source
  pub size : new.size ≡ t.size
  pub opcode : new.opcode ≡ (if t.opcode == 4 then 1 else 0)
  pub contents : some new.contents ≡ (
      if t.opcode == 4
      then (read_phy_array 4 pm t.address num old.contents none >>= λ (s, out). some out)
      else some old.contents)

abbrev pub Shows : ℕ → Phase → ℕ → PhysicalMemory → Response → Response → Type 0
Shows num idle ready pm old new = new.valid ≡ 0
Shows num (pending t) ready pm old new =
    if ready == 0 then new.valid ≡ 0 else Answers num t pm old new

-- No delay is set, and a request has at most the 32 words that a mask has bits for.
pub record Running (m : MemController) : Type 0 where
  pub delay : m.default_delay ≡ 0
  pub timer : m.time_remain ≡ 0
  pub few : m.num ≤ 32

-- A read or a write of a 32-bit address.
pub record IsSupported (t : Transaction) : Type 0 where
  pub kind : (t.opcode ≡ 0) ⊎ (t.opcode ≡ 4)
  pub reach : t.address < 2 ^ 32

pub record Keeps (m : MemController) (t : Transaction) : Type 0 where
  pub busy : m.in_rsp ≡ 1
  pub rw : m.rw ≡ t.opcode
  pub addr : m.addr ≡ t.address
  pub size : m.size ≡ t.size
  pub source : m.source ≡ t.source
  pub mask : m.mask ≡ t.mask
  pub payload : t.opcode ≡ 0 → (k : ℕ) → k < m.num → m.buffer k ≡ t.payload k
  pub supported : IsSupported t
  pub quiet : (m.rsp.valid ≡ 0) × (m.rsp_valid ≡ 0)
  pub inviting : (m.req.ready ≡ 1) × (m.req_ready ≡ 1)

-- The controller is in a phase.
abbrev pub Holds : MemController → Phase → Type 0
Holds m idle = m.in_rsp ≡ 0
Holds m (pending t) = Keeps m t

abbrev pub Supports : Phase → Option Transaction → Type 0
Supports idle none = Unit {0}
Supports idle (some t) = IsSupported t
Supports (pending t) offer = Unit {0}

-- The next `eval` at low clock copies the words of a write that is offered from an array that is too
-- short, or those of a read whose response is taken to one.
abbrev pub Overruns : MemController → Phase → Type 0
Overruns m idle =
    (((m.req.valid == 0) || (m.req.ready == 0)) ≡ false)
    × (m.req.opcode ≡ 0)
    × (m.req.words < m.num)
Overruns m (pending t) = ((m.rsp.ready == 0) ≡ false) × (t.opcode ≡ 4) × (m.rsp.words < m.num)

pub Overruns-short :
    (m : MemController) (now : Phase)
    → Overruns m now
    → (m.req.words < m.num) ⊎ (m.rsp.words < m.num)
Overruns-short m idle (offers, store, short) = inl short
Overruns-short m (pending t) (ready, load, short) = inr short

-- One `eval` at low clock, seen from the phases.
pub record Refined (m : MemController) (pm : PhysicalMemory) (now : Phase) : Type 0 where
  pub m' : MemController
  pub pm' : PhysicalMemory
  pub evaluates : eval false m pm ≡ some (m', pm')
  pub well : IsWellFormed pm'
  pub running : Running m'
  pub holds : Holds m' (next_phase now (offered m.req) m.rsp.ready)
  pub memory : next_memory m.num now m.rsp.ready pm ≡ some pm'
  pub shows : Shows m.num now m.rsp.ready pm m.rsp m'.rsp
  pub same_num : m'.num ≡ m.num
  pub same_valid : m'.req.valid ≡ m.req.valid
  pub same_request : request_of m'.req ≡ request_of m.req
  pub invites : m'.req.ready ≡ 1

-- One `eval` at low clock: it goes past the end of an array, or does as the phases say.
abbrev pub Evaluated : MemController → PhysicalMemory → Phase → Type 0
Evaluated m pm now = ((eval false m pm ≡ none) × Overruns m now) ⊎ Refined m pm now

pub eval_timed :
    (m : MemController) (pm : PhysicalMemory)
    → m.time_remain ≡ 0
    → eval false m pm ≡ serve (record m { rsp = record m.rsp { valid = 1 } }) pm
unfolding eval
eval_timed m pm timer = rw timer

pub eval_serves :
    (m : MemController) (pm : PhysicalMemory)
    → Running m
    → eval false m pm ≡ serve (record m { rsp = record m.rsp { valid = 1 } }) pm
eval_serves m pm r = eval_timed m pm r.timer
