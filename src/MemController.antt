-- ===== src/MemController.antt =====
-- src/device/memory.h, TLBundleA, TLBundleD and MemController: the channels between the GPU and its
-- memory, and the controller that serves one request at a time. `none` is an access outside of an
-- array, which has no defined meaning.
pub mod Phases
pub mod Waiting
pub mod Holding
pub mod Refines
pub mod Schedule
pub mod Safety
pub mod Stale
mod Examples
use ventus_driver.Common.{
  ℕ, ◌+◌, ◌-◌, ◌*◌, ◌%◌, ◌^◌, Bool, true, false, ◌||◌, Option, none, some, ltb, ◌==◌, if◌then◌else◌,
  ◌>>=◌, u64,
}
use ventus_driver.Block.Bytes.{Buffer, splice, to_bytes}
use ventus_driver.PhysicalMemory.{PhysicalMemory}
use ventus_driver.PhysicalMemory.Data.{
  Access, missed, unbacked, denied, got, read_blocks, read_array, write_array,
}
use ventus_driver.Memory.Access.{read_phy_array, write_phy_array}

-- The request channel. Its array holds `words` values; the GPU drives all fields but `ready`.
pub record Request : Type 0 where
  pub opcode : ℕ
  pub size : ℕ
  pub source : ℕ
  pub address : ℕ
  pub mask : ℕ
  pub ready : ℕ
  pub valid : ℕ
  pub words : ℕ
  pub contents : Buffer

-- The response channel. The GPU drives `ready`.
pub record Response : Type 0 where
  pub opcode : ℕ
  pub size : ℕ
  pub source : ℕ
  pub ready : ℕ
  pub valid : ℕ
  pub words : ℕ
  pub contents : Buffer

pub record MemController : Type 0 where
  pub req : Request
  pub rsp : Response
  pub buffer : Buffer
  pub default_delay : ℕ
  pub time_remain : ℕ
  pub in_rsp : ℕ
  pub rw : ℕ
  pub num : ℕ
  pub req_valid : ℕ
  pub rsp_ready : ℕ
  pub req_ready : ℕ
  pub rsp_valid : ℕ
  pub addr : ℕ
  pub size : ℕ
  pub source : ℕ
  pub mask : ℕ

-- The words of a channel's array, `TLBundleA(2)` and `TLBundleD(2)`.
abbrev pub channel_words : ℕ
channel_words = 2

-- The constructors, on memory with arbitrary contents: most fields are not set.
abbrev pub new_request : ℕ → Request → Request
new_request n old = record old { words = n }

abbrev pub new_response : ℕ → Response → Response
new_response n old = record old { words = n }

unfoldable pub construct : ℕ → MemController → MemController
construct num_thread old = record old {
  req = new_request channel_words old.req;
  rsp = new_response channel_words old.rsp;
  num = num_thread % 2 ^ 8;
  default_delay = 0;
}

pub reset : MemController → MemController
reset m = record m {
  rsp_valid = 0;
  req_ready = 0;
  req = record m.req { ready = 0 };
  rsp = record m.rsp { valid = 0; size = 0; opcode = 0; source = 0 };
  buffer = splice m.buffer 0 m.num (λ i. 0);
  time_remain = 0;
  rw = 0;
  in_rsp = 0;
}

-- At high clock the handshake signals are copied.
abbrev pub sample : MemController → MemController
sample m = record m {
  rsp_ready = m.rsp.ready;
  req_valid = m.req.valid;
  rsp_valid = m.rsp.valid;
  req_ready = m.req.ready;
}

abbrev pub count_down : MemController → MemController
count_down m = record m {
  req = record m.req { ready = 0 };
  rsp = record m.rsp { valid = 0 };
  time_remain = m.time_remain - 1;
}

-- Whether a read of `num` words copies past the end of an array of `words`.
overruns : ℕ → ℕ → Access → Bool
overruns words num missed = false
overruns words num unbacked = false
overruns words num denied = false
overruns words num (got out) = ltb words num

-- `read_phy<uint32_t>` into the array of the response channel.
pub read_words : Response → ℕ → ℕ → PhysicalMemory → Option Buffer
unfolding read_phy_array overruns
read_words rsp addr num pm = read_blocks pm.blocks addr (u64 (num * 4)) (λ i. 0) >>= λ a.
    if overruns rsp.words num a
    then none
    else (read_phy_array 4 pm addr num rsp.contents none >>= λ (s, out). some out)

-- The response to a read, `m_rw_ == 4`.
pub respond_read : MemController → PhysicalMemory → Option MemController
unfolding read_words
respond_read m pm =
    if m.rw == 4
    then (read_words m.rsp m.addr m.num pm >>= λ out.
        some (record m { rsp = record m.rsp { opcode = 1; contents = out }; in_rsp = 0 }))
    else some m

-- The response to a write, `m_rw_ == 0`, under the 32 bits of the mask, past which there is nothing to
-- read.
pub respond_write : MemController → PhysicalMemory → Option (MemController × PhysicalMemory)
unfolding to_bytes write_array
respond_write m pm =
    if m.rw == 0
    then if ltb 32 m.num
      then none
      else (write_phy_array 4 pm m.addr m.num m.buffer (some (to_bytes m.mask)) >>= λ (s, pm').
          some (record m { rsp = record m.rsp { opcode = 0 }; in_rsp = 0 }, pm'))
    else some (m, pm)

abbrev pub head_response : MemController → MemController
head_response m = record m { rsp = record m.rsp { size = m.size; source = m.source; opcode = 0 } }

abbrev pub end_response : MemController → MemController
end_response m = record m { rw = 0; rsp_valid = 1; req_ready = 1 }

pub respond : MemController → PhysicalMemory → Option (MemController × PhysicalMemory)
unfolding respond_read respond_write
respond m pm =
    if (m.rsp.ready == 0) || (m.rsp.valid == 0)
    then some (m, pm)
    else (respond_read (head_response m) pm >>= λ m1.
        respond_write m1 pm >>= λ (m2, pm'). some (end_response m2, pm'))

-- The words of a write request, for which the channel's array must be long enough.
pub take_words : MemController → Option MemController
take_words m =
    if m.rw == 0
    then (if ltb m.req.words m.num
        then none
        else some (record m { buffer = splice m.buffer 0 m.num m.req.contents }))
    else some m

abbrev pub take_header : MemController → MemController
take_header m = record m {
  rw = m.req.opcode;
  addr = m.req.address;
  size = m.req.size;
  source = m.req.source;
  mask = m.req.mask;
  in_rsp = 1;
}

unfoldable pub take_request : MemController → Option MemController
unfolding take_words
take_request m =
    let idle = record m { rsp_valid = 0; req_ready = 1 } in
    if (m.req.valid == 0) || (m.req.ready == 0)
    then some idle
    else (take_words (take_header idle) >>= λ m'.
        some (record m' { time_remain = m'.default_delay }))

-- What the channels show at the end.
abbrev pub publish : MemController → MemController
publish m = record m {
  rsp = record m.rsp { valid = m.rsp_valid };
  req = record m.req { ready = m.req_ready };
}

unfoldable pub serve : MemController → PhysicalMemory → Option (MemController × PhysicalMemory)
unfolding respond take_request
serve m pm =
    (if m.in_rsp == 0 then (take_request m >>= λ m'. some (m', pm)) else respond m pm)
    >>= λ (m', pm'). some (publish m', pm')

-- `eval` at a clock level.
unfoldable pub eval :
    Bool → MemController → PhysicalMemory → Option (MemController × PhysicalMemory)
unfolding serve
eval true m pm = some (sample m, pm)
eval false m pm =
    if m.time_remain == 0
    then serve (record m { rsp = record m.rsp { valid = 1 } }) pm
    else some (count_down m, pm)
