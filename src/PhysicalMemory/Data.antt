-- ===== src/PhysicalMemory/Data.antt =====
-- src/device/page.h, the reads and writes of class PhysicalMemory: bytes, single values by width,
-- and arrays of values under a mask. The values are little-endian, as on the hosts of the driver.
pub mod Peek
pub mod Poke
pub mod Ranges
pub mod Shape
pub mod Arrays
use Prim.Native.Nat.{zero}
use ventus_driver.Common.{
  ℕ, suc, ◌+◌, ◌-◌, ◌*◌, ◌/◌, ◌%◌, ◌^◌, ◌≤◌, Bool, true, false, ◌&&◌, Option, none, some, List, [],
  ◌∷◌, ltb, leb, ◌==◌, if◌then◌else◌, ◌>>=◌, u64, sub64, Status, done, failed, bit_and,
}
use ventus_driver.Block.{Block, end, is_empty}
use ventus_driver.Block
use ventus_driver.Block.Bytes.{Buffer, from_bytes, to_bytes, splice}
use ventus_driver.PhysicalMemory.{PhysicalMemory}

abbrev pub covers : Block → ℕ → ℕ → Bool
covers b addr n = leb b.addr addr && leb (u64 (addr + n)) (end b)

pub write_blocks : List Block → ℕ → ℕ → Buffer → Option (Status × List Block)
write_blocks [] addr n source = some (failed, [])
write_blocks (b ∷ bs) addr n source =
    let rest = write_blocks bs addr n source >>= λ (s, bs'). some (s, b ∷ bs') in
    if covers b addr n
    then if is_empty b
      then some (failed, b ∷ bs)
      else (Block.write b (sub64 addr b.addr) n source >>= λ (s, b'). some (done, b' ∷ bs))
    else rest

unfoldable pub write_data : PhysicalMemory → ℕ → ℕ → Buffer → Option (Status × PhysicalMemory)
unfolding write_blocks Block.write
write_data pm addr n source = write_blocks pm.blocks addr n source >>= λ (s, blocks').
    some (s, record pm { blocks = blocks' })

-- What the search for the block of an access ends in. After `denied` the caller is told that the
-- read succeeded, though nothing was copied.
pub data Access : Type 0 where
  missed unbacked denied : Access
  got : Buffer → Access

access_of : Status × Buffer → Access
access_of (done, out) = got out
access_of (failed, out) = denied

unfoldable pub read_blocks : List Block → ℕ → ℕ → Buffer → Option Access
unfolding access_of
read_blocks [] addr n out = some missed
read_blocks (b ∷ bs) addr n out =
    if covers b addr n
    then if is_empty b
      then some unbacked
      else (Block.read b (sub64 addr b.addr) n out >>= λ r. some (access_of r))
    else read_blocks bs addr n out

-- `read_data`: the status, and the output buffer.
abbrev pub data_of : Buffer → Access → Status × Buffer
data_of out missed = (failed, out)
data_of out unbacked = (failed, out)
data_of out denied = (done, out)
data_of out (got out') = (done, out')

unfoldable pub read_data : PhysicalMemory → ℕ → ℕ → Buffer → Option (Status × Buffer)
unfolding read_blocks Block.read
read_data pm addr n out = read_blocks pm.blocks addr n out >>= λ a. some (data_of out a)

-- `read_value<T>` at `width` bytes: 0 after a failure; its variable is not set after `denied`.
abbrev pub value_of : ℕ → Access → Option ℕ
value_of width missed = some 0
value_of width unbacked = some 0
value_of width denied = none
value_of width (got out) = some (from_bytes width out)

unfoldable pub read_value : ℕ → PhysicalMemory → ℕ → Option ℕ
unfolding read_blocks Block.read from_bytes
read_value width pm addr = read_blocks pm.blocks addr width (λ i. 0) >>= value_of width

unfoldable pub write_value : ℕ → PhysicalMemory → ℕ → ℕ → Option (Status × PhysicalMemory)
unfolding write_data to_bytes
write_value width pm addr value = write_data pm addr width (to_bytes value)

-- Bit `i` of a mask of bytes.
abbrev pub mask_bit : Buffer → ℕ → ℕ
mask_bit mask i = bit_and (mask (i / 8) / 2 ^ (i % 8)) 1

-- The elements from `i` on, `left` of them, whose mask bit is set are written one by one.
write_masked : ℕ → ℕ → PhysicalMemory → ℕ → Buffer → Buffer → ℕ → Option PhysicalMemory
unfolding write_value
write_masked width zero pm addr values mask i = some pm
write_masked width (suc left) pm addr values mask i =
    elim (if mask_bit mask i == 1
      then write_value width pm (u64 (addr + i * width)) (values i)
      else some (done, pm)) [
        | none ↦ none
        | some (s, pm') ↦ write_masked width left pm' addr values mask (suc i)
      ]

-- `write<T>`: with no mask the whole array at once. The status is 0 whatever happened.
unfoldable pub write_array :
    ℕ → PhysicalMemory → ℕ → ℕ → Buffer → Option Buffer → Option (Status × PhysicalMemory)
unfolding write_masked write_data
write_array width pm addr num values mask = elim mask [
  | none ↦
      write_data pm addr (u64 (num * width)) (λ i. to_bytes (values (i / width)) (i % width))
      >>= λ (s, pm'). some (done, pm')
  | some m ↦ write_masked width num pm addr values m 0 >>= λ pm'. some (done, pm')
]

masked : ℕ → Option Buffer → Buffer → Buffer
masked num none values = values
masked num (some m) values = λ i. if ltb i num && (mask_bit m i == 0) then 0 else values i

-- `read<T>`: the elements whose mask bit is clear are set to 0 after the read.
unfoldable pub read_array :
    ℕ → PhysicalMemory → ℕ → ℕ → Buffer → Option Buffer → Option (Status × Buffer)
unfolding read_data masked
read_array width pm addr num out mask =
    read_data pm addr (u64 (num * width)) (λ i. to_bytes (out (i / width)) (i % width))
    >>= λ (s, raw). some (done, masked num mask (λ i. from_bytes width (λ j. raw (i * width + j))))
