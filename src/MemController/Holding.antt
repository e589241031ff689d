-- ===== src/MemController/Holding.antt =====
-- `eval` of MemController in src/device/memory.h while it holds a request.
use ventus_driver.Common.{
  ℕ, ◌+◌, ◌*◌, ◌^◌, ◌<◌, ◌≡◌, ◌⊎◌, inl, inr, refl, true, false, Bool-cases, none, some, ltb, ◌==◌,
  ◌>>=◌, arith, ◌∙◌, sym, u64, done,
}
use ventus_driver.Block.Bytes.{Buffer, to_bytes}
use ventus_driver.PhysicalMemory.{PhysicalMemory}
use ventus_driver.PhysicalMemory.Data.{Access, missed, unbacked, denied, got, write_array}
use ventus_driver.PhysicalMemory.Invariant.{IsWellFormed}
use ventus_driver.PhysicalMemory.Data.Arrays.{write_array_ext, write_array-total, read_array-total}
use ventus_driver.PhysicalMemory.Data.Ranges.{read_blocks-Reads}
use ventus_driver.Memory.Access.{read_phy_array}
use ventus_driver.MemController.{
  MemController, Response, serve, respond, respond_read, respond_write, publish, overruns,
  read_words, head_response, end_response,
}
use ventus_driver.MemController.Phases.{
  Evaluated, Keeps, Refined, Running, Transaction, eval_serves, pending,
}

-- Holding a request that the GPU does not take the response of.
pub pending_waits :
    (m : MemController) (pm : PhysicalMemory) (t : Transaction)
    → Running m
    → IsWellFormed pm
    → Keeps m t
    → m.rsp.ready ≡ 0
    → Refined m pm (pending t)
unfolding serve respond
pending_waits m pm t r w h e = record {
  m' = publish (record m { rsp = record m.rsp { valid = 1 } });
  pm' = pm;
  evaluates = eval_serves m pm r ∙ rw (h.busy, e);
  well = w;
  running = record { delay = r.delay; timer = r.timer; few = r.few };
  holds = rw e (record {
    busy = h.busy;
    rw = h.rw;
    addr = h.addr;
    size = h.size;
    source = h.source;
    mask = h.mask;
    payload = h.payload;
    supported = h.supported;
    quiet = (h.quiet.1, h.quiet.1);
    inviting = (h.inviting.1, h.inviting.1);
  });
  memory = rw e refl;
  shows = rw e h.quiet.1;
  same_num = refl;
  same_valid = refl;
  same_request = refl;
  invites = h.inviting.1;
}

pub answered : MemController → ℕ → Buffer → MemController
answered m op out = publish (
    end_response (record m {
      rsp = record m.rsp {
        valid = 1;
        size = m.size;
        source = m.source;
        opcode = op;
        contents = out;
      };
      in_rsp = 0;
    }))

overruns-lt : (words num : ℕ) (x : Access) → overruns words num x ≡ true → words < num
unfolding overruns
overruns-lt words num missed h = absurd (ground (h, arith))
overruns-lt words num unbacked h = absurd (ground (h, arith))
overruns-lt words num denied h = absurd (ground (h, arith))
overruns-lt words num (got out) h = ground (arith, h)

read_words-total :
    (rsp : Response) (addr num : ℕ) (pm : PhysicalMemory)
    → IsWellFormed pm
    → addr < 2 ^ 32
    → num < 2 ^ 8
    → ((read_words rsp addr num pm ≡ none) × (rsp.words < num))
      ⊎ ((out : Buffer) × (read_words rsp addr num pm ≡ some out)
          × ((read_phy_array 4 pm addr num rsp.contents none >>= λ (s, out). some out) ≡ some out))
unfolding read_words read_phy_array
read_words-total rsp addr num pm w reach few =
    let small : addr + u64 (num * 4) < 2 ^ 64 = omega arith in
    let (x, e, answer) =
      read_blocks-Reads 0 pm.blocks addr (u64 (num * 4)) (λ i. 0) w.order w.frames small in
    let (out, f) = read_array-total pm addr num rsp.contents w (omega arith) in
    elim (Bool-cases (overruns rsp.words num x)) [
      | inl past ↦ inl (rw (e, past), overruns-lt rsp.words num x past)
      | inr fits ↦ inr (out, rw (e, fits, f), rw f)
    ]

served_read :
    (m : MemController) (pm : PhysicalMemory) (out : Buffer)
    → m.in_rsp ≡ 1
    → ((m.rsp.ready == 0) ≡ false)
    → m.rw ≡ 4
    → read_words (head_response (record m { rsp = record m.rsp { valid = 1 } })).rsp m.addr m.num pm
      ≡ some out
    → serve (record m { rsp = record m.rsp { valid = 1 } }) pm ≡ some (answered m 1 out, pm)
unfolding serve respond respond_read respond_write answered
served_read m pm out busy e load words = rw (busy, e, load, words)

served_short :
    (m : MemController) (pm : PhysicalMemory)
    → m.in_rsp ≡ 1
    → ((m.rsp.ready == 0) ≡ false)
    → m.rw ≡ 4
    → read_words (head_response (record m { rsp = record m.rsp { valid = 1 } })).rsp m.addr m.num pm
      ≡ none
    → serve (record m { rsp = record m.rsp { valid = 1 } }) pm ≡ none
unfolding serve respond respond_read
served_short m pm busy e load words = rw (busy, e, load, words)

served_write :
    (m : MemController) (pm pm' : PhysicalMemory)
    → m.in_rsp ≡ 1
    → ((m.rsp.ready == 0) ≡ false)
    → m.rw ≡ 0
    → ltb 32 m.num ≡ false
    → write_array 4 pm m.addr m.num m.buffer (some (to_bytes m.mask)) ≡ some (done, pm')
    → serve (record m { rsp = record m.rsp { valid = 1 } }) pm
      ≡ some (answered m 0 m.rsp.contents, pm')
unfolding serve respond respond_read respond_write answered
served_write m pm pm' busy e store few words = rw (busy, e, store, few, words)

read_served :
    (m : MemController) (pm : PhysicalMemory) (t : Transaction) (out : Buffer)
    → Running m
    → IsWellFormed pm
    → Keeps m t
    → t.opcode ≡ 4
    → ((m.rsp.ready == 0) ≡ false)
    → read_words (head_response (record m { rsp = record m.rsp { valid = 1 } })).rsp m.addr m.num pm
      ≡ some out
    → (read_phy_array 4 pm m.addr m.num m.rsp.contents none >>= λ (s, out). some out) ≡ some out
    → Refined m pm (pending t)
unfolding answered
read_served m pm t out r w h load e words known = record {
  m' = answered m 1 out;
  pm' = pm;
  evaluates = eval_serves m pm r ∙ served_read m pm out h.busy e (h.rw ∙ load) words;
  well = w;
  running = record { delay = r.delay; timer = r.timer; few = r.few };
  holds = rw e refl;
  memory = rw (e, load);
  shows = rw (e) (record {
    valid = refl;
    source = h.source;
    size = h.size;
    opcode = rw load;
    contents = rw (load) (sym known ∙ rw h.addr);
  });
  same_num = refl;
  same_valid = refl;
  same_request = refl;
  invites = refl;
}

-- A read whose response is taken.
pub pending_reads :
    (m : MemController) (pm : PhysicalMemory) (t : Transaction)
    → Running m
    → IsWellFormed pm
    → Keeps m t
    → t.opcode ≡ 4
    → ((m.rsp.ready == 0) ≡ false)
    → Evaluated m pm (pending t)
pending_reads m pm t r w h load e =
    elim (read_words-total (head_response (record m { rsp = record m.rsp { valid = 1 } })).rsp
      m.addr m.num pm w (rw h.addr h.supported.reach) (omega (arith, r.few))) [
        | inl (past, short) ↦
            inl
              (eval_serves m pm r ∙ served_short m pm h.busy e (h.rw ∙ load) past, (e, load, short))
        | inr (out, words, known) ↦ inr (read_served m pm t out r w h load e words known)
      ]

pub pending_writes :
    (m : MemController) (pm : PhysicalMemory) (t : Transaction)
    → Running m
    → IsWellFormed pm
    → Keeps m t
    → t.opcode ≡ 0
    → ((m.rsp.ready == 0) ≡ false)
    → Refined m pm (pending t)
unfolding answered
pending_writes m pm t r w h store e =
    let reach : t.address + m.num * 4 < 2 ^ 63 = omega (arith, h.supported.reach, r.few) in
    let (pm', f, w') = write_array-total pm t.address m.num t.payload (to_bytes t.mask) w reach in
    let words : write_array 4 pm m.addr m.num m.buffer (some (to_bytes m.mask)) ≡ some (done, pm') =
      rw (h.addr, h.mask)
        (write_array_ext 4 pm t.address m.num m.buffer t.payload (to_bytes t.mask) (h.payload store)
          ∙ f) in
    record {
      m' = answered m 0 m.rsp.contents;
      pm' = pm';
      evaluates =
          eval_serves m pm r
          ∙ served_write m pm pm' h.busy e (h.rw ∙ store) (ground (arith, r.few)) words;
      well = w';
      running = record { delay = r.delay; timer = r.timer; few = r.few };
      holds = rw e refl;
      memory = rw (e, store, f);
      shows = rw e (record {
        valid = refl;
        source = h.source;
        size = h.size;
        opcode = rw store;
        contents = rw store;
      });
      same_num = refl;
      same_valid = refl;
      same_request = refl;
      invites = refl;
    }
