-- ===== src/Block/Examples.antt =====
-- Instances and tests for classes Page and Block of src/device/page.h.
use ventus_driver.Common.{ℕ, ◌^◌, ◌<◌, ◌≤◌, ◌≡◌, refl, arith, ◌-◌, ◌⊎◌, some, Status, done, true}
use ventus_driver.Block.Bytes.{Buffer, splice}
use ventus_driver.Block.Access.{IsBacked, write_safe, read-write}
use ventus_driver.Block.{Block, Page, write, read, create, zeroed}

abbrev sample : Block
sample = record { addr = 0x20000000; size = 4096; pages = some (zeroed 4096) }

sample_created : create 0x20000000 4096 true ≡ sample
unfolding create
sample_created = refl

sample-IsBacked : IsBacked sample (zeroed 4096)
sample-IsBacked = record { holds = refl; reaches = omega arith; fits = omega arith }

abbrev ones : Buffer
ones i = 1

write_safe_example :
    (s : Status) × (b' : Block) × (p' : Page) × (write sample 8 (2 ^ 64 - 8) ones ≡ some (s, b'))
    × IsBacked b' p'
    × (b'.addr ≡ 0x20000000)
    × (b'.size ≡ 4096)
    × (p'.capacity ≡ 4096)
    × ((i : ℕ) → (i < 8) ⊎ (4096 ≤ i) → p'.bytes i ≡ 0)
write_safe_example =
    write_safe sample (zeroed 4096) sample-IsBacked 8 (2 ^ 64 - 8) ones (omega arith) (omega arith)

read-write_example :
    (b' : Block) × (write sample 8 8 ones ≡ some (done, b'))
    × (read b' 8 8 (λ i. 0) ≡ some (done, splice (λ i. 0) 0 8 ones))
read-write_example = read-write sample (zeroed 4096) sample-IsBacked 8 8 ones (λ i. 0) (omega arith)
