-- ===== src/MemController/Waiting.antt =====
-- `eval` of MemController in src/device/memory.h while it waits for a request.
use ventus_driver.Common.{
  ℕ, ◌<◌, ◌≡◌, refl, inl, inr, true, false, ◌||◌, none, some, ltb, Bool-cases, ◌==◌, arith, ◌∙◌,
}
use ventus_driver.Block.Bytes.{Buffer, splice}
use ventus_driver.PhysicalMemory.{PhysicalMemory}
use ventus_driver.PhysicalMemory.Invariant.{IsWellFormed}
use ventus_driver.MemController.{
  MemController, eval, serve, take_request, take_words, take_header, publish,
}
use ventus_driver.MemController.Phases.{
  Evaluated, IsSupported, Refined, Running, eval_serves, idle, request_of,
}

-- Waiting, with no request.
pub idle_empty :
    (m : MemController) (pm : PhysicalMemory)
    → Running m
    → IsWellFormed pm
    → m.in_rsp ≡ 0
    → ((m.req.valid == 0) || (m.req.ready == 0)) ≡ true
    → Refined m pm idle
unfolding serve take_request
idle_empty m pm r w quiet e = record {
  m' = publish (record m { rsp = record m.rsp { valid = 1 }; rsp_valid = 0; req_ready = 1 });
  pm' = pm;
  evaluates = eval_serves m pm r ∙ rw (quiet, e);
  well = w;
  running = record { delay = r.delay; timer = r.timer; few = r.few };
  holds = rw e quiet;
  memory = refl;
  shows = refl;
  same_num = refl;
  same_valid = refl;
  same_request = refl;
  invites = refl;
}

abbrev at_work : MemController → MemController
at_work m = record m { rsp = record m.rsp { valid = 1 }; rsp_valid = 0; req_ready = 1 }

abbrev with_words : MemController → MemController
with_words m = record m { buffer = splice m.buffer 0 m.num m.req.contents }

abbrev started : MemController → MemController
started m = record m { time_remain = m.default_delay }

idle_request :
    (m m1 : MemController) (pm : PhysicalMemory)
    → Running m
    → m.in_rsp ≡ 0
    → ((m.req.valid == 0) || (m.req.ready == 0)) ≡ false
    → take_words (take_header (at_work m)) ≡ some m1
    → eval false m pm ≡ some (publish (started m1), pm)
unfolding serve take_request take_words
idle_request m m1 pm r quiet e words = eval_serves m pm r ∙ rw (quiet, e, words)

words_taken :
    (m : MemController)
    → ltb m.req.words m.num ≡ false
    → m.req.opcode ≡ 0
    → take_words (take_header (at_work m)) ≡ some (with_words (take_header (at_work m)))
unfolding take_words
words_taken m room e = rw (e, room)

-- A write that is offered in an array that is too short.
idle_short :
    (m : MemController) (pm : PhysicalMemory)
    → Running m
    → m.in_rsp ≡ 0
    → ((m.req.valid == 0) || (m.req.ready == 0)) ≡ false
    → ltb m.req.words m.num ≡ true
    → m.req.opcode ≡ 0
    → eval false m pm ≡ none
unfolding serve take_request take_words
idle_short m pm r quiet e short store = eval_serves m pm r ∙ rw (quiet, e, store, short)

no_words :
    (m : MemController)
    → m.req.opcode ≡ 4
    → take_words (take_header (at_work m)) ≡ some (take_header (at_work m))
unfolding take_words
no_words m e = rw e

taken_with : MemController → Buffer → MemController
taken_with m b = publish (started (record (take_header (at_work m)) { buffer = b }))

idle_taken :
    (m : MemController) (pm : PhysicalMemory) (b : Buffer)
    → Running m
    → IsWellFormed pm
    → m.in_rsp ≡ 0
    → ((m.req.valid == 0) || (m.req.ready == 0)) ≡ false
    → IsSupported (request_of m.req)
    → take_words (take_header (at_work m)) ≡ some (record (take_header (at_work m)) { buffer = b })
    → (m.req.opcode ≡ 0 → (k : ℕ) → k < m.num → b k ≡ m.req.contents k)
    → Refined m pm idle
unfolding taken_with
idle_taken m pm b r w quiet e ok words same = record {
  m' = taken_with m b;
  pm' = pm;
  evaluates = idle_request m (record (take_header (at_work m)) { buffer = b }) pm r quiet e words;
  well = w;
  running = record { delay = r.delay; timer = r.delay; few = r.few };
  holds = rw e (record {
    busy = refl;
    rw = refl;
    addr = refl;
    size = refl;
    source = refl;
    mask = refl;
    payload = same;
    supported = ok;
    quiet = (refl, refl);
    inviting = (refl, refl);
  });
  memory = refl;
  shows = refl;
  same_num = refl;
  same_valid = refl;
  same_request = refl;
  invites = refl;
}

pub idle_offered :
    (m : MemController) (pm : PhysicalMemory)
    → Running m
    → IsWellFormed pm
    → m.in_rsp ≡ 0
    → ((m.req.valid == 0) || (m.req.ready == 0)) ≡ false
    → IsSupported (request_of m.req)
    → Evaluated m pm idle
idle_offered m pm r w quiet e ok = elim ok.kind [
  | inl store ↦ elim (Bool-cases (ltb m.req.words m.num)) [
    | inl short ↦ inl (idle_short m pm r quiet e short store, (e, store, ground (arith, short)))
    | inr room ↦ inr (
        idle_taken m pm (splice m.buffer 0 m.num m.req.contents) r w quiet e ok
          (words_taken m room store) (λ o k near. ground (arith, near)))
  ]
  | inr load ↦
      inr (
        idle_taken m pm m.buffer r w quiet e ok (no_words m load)
          (λ o k near. absurd (omega arith)))
]
