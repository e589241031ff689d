-- ===== src/MemController/Stale.antt =====
-- MemController::eval of src/device/memory.h on a request that is neither a read nor a write.
use ventus_driver.Common.{
  ltb, ◌≤◌, ◌≡◌, refl, false, some, ◌==◌, ◌>>=◌, arith, ap, ◌∙◌, Option, Option-cases, inl, inr,
}
use ventus_driver.Block.Bytes.{to_bytes}
use ventus_driver.PhysicalMemory.{PhysicalMemory}
use ventus_driver.PhysicalMemory.Data.{write_array}
use ventus_driver.Memory.Access.{write_phy_array}
use ventus_driver.MemController.{
  MemController, eval, serve, respond, respond_read, respond_write, head_response, end_response,
  publish,
}
use ventus_driver.MemController.Phases.{eval_timed}

abbrev pub memory_of : Option (MemController × PhysicalMemory) → Option PhysicalMemory
memory_of r = r >>= λ (m, pm). some pm

unserved : MemController → MemController
unserved m = publish (end_response (head_response (record m { rsp = record m.rsp { valid = 1 } })))

serve-unserved :
    (m : MemController) (pm : PhysicalMemory)
    → m.in_rsp ≡ 1
    → (m.rw == 0) ≡ false
    → (m.rw == 4) ≡ false
    → (m.rsp.ready == 0) ≡ false
    → serve (record m { rsp = record m.rsp { valid = 1 } }) pm ≡ some (unserved m, pm)
unfolding serve respond respond_read respond_write unserved
serve-unserved m pm busy store load e = rw (busy, e, load, store)

serve-write :
    (m : MemController) (pm : PhysicalMemory)
    → m.in_rsp ≡ 1
    → m.rw ≡ 0
    → (m.rsp.ready == 0) ≡ false
    → ltb 32 m.num ≡ false
    → memory_of (serve (record m { rsp = record m.rsp { valid = 1 } }) pm) ≡ (
        write_phy_array 4 pm m.addr m.num m.buffer (some (to_bytes m.mask)) >>= λ (s, pm').
        some pm')
unfolding serve respond respond_read respond_write
serve-write m pm busy store e few =
    elim (Option-cases (write_array 4 pm m.addr m.num m.buffer (some (to_bytes m.mask)))) [
      | inl fails ↦ rw (busy, e, store, few, fails) refl
      | inr ((s, pm'), writes) ↦ rw (busy, e, store, few, writes) refl
    ]

-- A controller of at most 32 words that holds a request that is neither a read nor a write, and is not
-- in a delay: with the response taken, the request is answered but stays held, as a write, and with the
-- response taken again, the words left from an earlier write are stored at its address.
pub eval-stale :
    (m : MemController) (pm : PhysicalMemory)
    → m.time_remain ≡ 0
    → m.num ≤ 32
    → m.in_rsp ≡ 1
    → (m.rw == 0) ≡ false
    → (m.rw == 4) ≡ false
    → (m.rsp.ready == 0) ≡ false
    → (m' : MemController) × (eval false m pm ≡ some (m', pm))
      × (m'.rsp.valid ≡ 1)
      × (memory_of (eval false m' pm) ≡ (
          write_phy_array 4 pm m.addr m.num m.buffer (some (to_bytes m.mask)) >>= λ (s, pm').
          some pm'))
unfolding unserved
eval-stale m pm timer few busy store load e = (
  unserved m,
  eval_timed m pm timer ∙ serve-unserved m pm busy store load e,
  refl,
  ap memory_of (eval_timed (unserved m) pm timer)
      ∙ serve-write (unserved m) pm busy refl e (ground (arith, few)),
)
