-- ===== src/MemController/Examples.antt =====
-- Instances and tests for MemController of src/device/memory.h, on a memory with one page in use:
-- words are stored under a mask.
use ventus_driver.Common.{◌+◌, ◌≡◌, refl, arith, ◌⊎◌, inl, inr, [], ◌∷◌, none, some, false, ◌>>=◌}
use ventus_driver.Block.{zeroed}
use ventus_driver.Block.Bytes.{Buffer, to_bytes}
use ventus_driver.PhysicalMemory.{PhysicalMemory, at}
use ventus_driver.PhysicalMemory.Invariant.{IsWellFormed}
use ventus_driver.Memory.Access.{write_phy_array}
use ventus_driver.MemController.{
  MemController, Request, reset, eval, serve, take_request, take_words, respond, respond_read,
  respond_write,
}
use ventus_driver.MemController.Phases.{
  Evaluated, Holds, Overruns, idle, pending, Transaction, Running, request_of,
}
use ventus_driver.MemController.Refines.{eval-Refined}
use ventus_driver.MemController.Schedule.{Reached, started, drives, falls, drive, replay}
use ventus_driver.MemController.Safety.{Fresh, Reached-replay, Reached-eval}
use ventus_driver.MemController.Stale.{eval-stale, memory_of}

abbrev lone_page : PhysicalMemory
lone_page = record {
  max_range = 0x30000000;
  blocks =
      record { addr = 0; size = 0x20000000; pages = none }
      ∷ record { addr = 0x20000000; size = 4096; pages = some (zeroed 4096) }
      ∷ record { addr = 0x30000000; size = 4096; pages = none }
      ∷ [];
  cursor = at 2;
}

lone_page-IsWellFormed : IsWellFormed lone_page
lone_page-IsWellFormed = record {
  limit = omega arith;
  limit_pages = omega arith;
  order = omega arith;
  low = (refl, refl, refl);
  high = (refl, refl, refl);
  frames = ((refl, refl, tt), ((refl, refl, omega arith), ((refl, refl, tt), tt)));
  points = omega arith;
}

abbrev words : Buffer
words = λ k. 11 + k

abbrev store_request : Request
store_request = record {
  opcode = 0;
  size = 0;
  source = 5;
  address = 0x20000010;
  mask = 3;
  ready = 1;
  valid = 1;
  words = 2;
  contents = words;
}

-- A controller of eight words over channels of two, on memory that happens to be 0.
abbrev controller : MemController
controller = record {
  req = record store_request { ready = 0; valid = 0 };
  rsp = record {
    opcode = 0;
    size = 0;
    source = 0;
    ready = 0;
    valid = 0;
    words = 2;
    contents = λ k. 0;
  };
  buffer = λ k. 0;
  default_delay = 0;
  time_remain = 0;
  in_rsp = 0;
  rw = 0;
  num = 8;
  req_valid = 0;
  rsp_ready = 0;
  req_ready = 0;
  rsp_valid = 0;
  addr = 0;
  size = 0;
  source = 0;
  mask = 0;
}

abbrev holding : MemController
holding = record controller {
  req = store_request;
  rsp = record controller.rsp { ready = 1 };
  buffer = words;
  in_rsp = 1;
  addr = 0x20000010;
  source = 5;
  mask = 3;
  req_ready = 1;
}

holding-Running : Running holding
holding-Running = record { delay = refl; timer = refl; few = omega arith }

eval-Refined_example : Evaluated holding lone_page (pending (request_of store_request))
eval-Refined_example =
    eval-Refined holding lone_page (pending (request_of store_request)) lone_page-IsWellFormed
      holding-Running
      (record {
        busy = refl;
        rw = refl;
        addr = refl;
        size = refl;
        source = refl;
        mask = refl;
        payload = λ o k near. refl;
        supported = record { kind = inl refl; reach = omega arith };
        quiet = (refl, refl);
        inviting = (refl, refl);
      })
      tt

eval-stale_example :
    (m' : MemController) × (eval false (record holding { rw = 1 }) lone_page ≡ some (m', lone_page))
    × (m'.rsp.valid ≡ 1)
    × (memory_of (eval false m' lone_page) ≡ (
        write_phy_array 4 lone_page 0x20000010 8 words (some (to_bytes 3)) >>= λ (s, pm').
        some pm'))
eval-stale_example =
    eval-stale (record holding { rw = 1 }) lone_page refl (omega arith) refl refl refl refl

-- With channels of eight words the request is offered, invited, taken and carried out.
abbrev roomy : MemController
roomy = record controller {
  req = record controller.req { words = 8 };
  rsp = record controller.rsp { words = 8 };
}

roomy-Fresh : Fresh roomy
roomy-Fresh = record { delay = refl; few = omega arith; silent = refl }

offering : Reached roomy lone_page (drive store_request 1 (reset roomy)) lone_page idle []
unfolding reset
offering = drives started store_request 1 (inr (record { kind = inl refl; reach = omega arith }))

abbrev stored : Transaction
stored = record {
  opcode = 0;
  address = 0x20000010;
  size = 0;
  source = 5;
  mask = 3;
  payload = words;
}

run : (m : MemController) × (pm : PhysicalMemory) × Reached roomy lone_page m pm idle (stored ∷ [])
unfolding eval serve take_request take_words respond respond_read respond_write reset
run = (_, _, falls (falls (falls offering _ _ refl) _ _ refl) _ _ refl)

Reached-replay_example :
    (replay 8 (stored ∷ []) lone_page ≡ some run.1) × IsWellFormed run.1 × Holds run.0 idle
Reached-replay_example = Reached-replay roomy-Fresh lone_page-IsWellFormed run.2

Reached-eval_example :
    ((eval false run.0 run.1 ≡ none) × Overruns run.0 idle)
    ⊎ ((m2 : MemController) × (pm2 : PhysicalMemory) × (eval false run.0 run.1 ≡ some (m2, pm2)))
Reached-eval_example = Reached-eval roomy-Fresh lone_page-IsWellFormed run.2
