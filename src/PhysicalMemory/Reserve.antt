-- ===== src/PhysicalMemory/Reserve.antt =====
-- A search by `usable` and the insertion of a block at its answer, as src/device/memory.h
-- combines them.
use ventus_driver.Common.{
  ℕ, ◌%◌, ◌≤◌, ◌<◌, ◌≡◌, refl, true, List, [], ◌∷◌, some, arith, insert_at, length-insert_at, done,
}
use ventus_driver.Sv39.{page_size}
use ventus_driver.Block.{Block, create}
use ventus_driver.PhysicalMemory.Order.{stop, IsRange, Clear, rank, Ordered-insert_at}
use ventus_driver.PhysicalMemory.Invariant.{
  IsWellFormed, IsFrame, PointsInto, rank-lt-length, rank-pos, All-insert_at, EndsAt-insert_at,
  StartsReserved-insert_at,
}
use ventus_driver.PhysicalMemory.Insert.{insert_lem}
use ventus_driver.PhysicalMemory.Search.{IsGap, range_of}
use ventus_driver.PhysicalMemory.{PhysicalMemory, Cursor, at, dangling, reserved_size, insert}

abbrev pub with_block : PhysicalMemory → Block → ℕ → PhysicalMemory
with_block pm blk k = record pm {
  blocks = insert_at (rank blk pm.blocks) blk pm.blocks;
  cursor = at k;
}

points_at : (n : ℕ) (c : Cursor) → PointsInto n c → (i : ℕ) × (c ≡ at i) × (i < n)
points_at n (at i) h = (i, refl, h)
points_at n dangling h = absurd h

-- On a well-formed memory a block of whole pages in free addresses, between the reserved ones, is
-- inserted at its place in the order, and the memory stays well formed.
pub insert-IsWellFormed :
    (pm : PhysicalMemory) (blk : Block)
    → IsWellFormed pm
    → 0 < blk.size
    → reserved_size ≤ blk.addr
    → stop blk ≤ pm.max_range
    → Clear blk pm.blocks
    → IsFrame blk
    → (k : ℕ) × (insert pm blk ≡ some (done, with_block pm blk k))
      × IsWellFormed (with_block pm blk k)
insert-IsWellFormed pm blk w pos low high clear frame =
    let (i, here, inside) = points_at _ _ w.points in
    let range : IsRange blk = (pos, omega (arith, w.limit)) in
    let above = rank-pos blk pm.blocks low w.low in
    let below =
      rank-lt-length pm.max_range blk pm.blocks pos high w.high (omega (arith, w.limit)) in
    let (k, done', fits) = insert_lem pm blk i here inside w.order range clear above below in
    (
      k,
      done',
      record {
        limit = w.limit;
        limit_pages = w.limit_pages;
        order = Ordered-insert_at blk range 0 pm.blocks (omega arith) w.order clear;
        low = StartsReserved-insert_at _ blk pm.blocks above w.low;
        high = EndsAt-insert_at pm.max_range _ blk pm.blocks below w.high;
        frames = All-insert_at IsFrame _ blk pm.blocks frame w.frames;
        points = omega (arith, length-insert_at (rank blk pm.blocks) blk pm.blocks);
      },
    )

pub Clear-of_range :
    (p n : ℕ) (b : Block) (bs : List Block)
    → b.addr ≡ p
    → b.size ≡ n
    → Clear (range_of p n) bs
    → Clear b bs
Clear-of_range p n b [] e f c = tt
Clear-of_range p n b (a ∷ bs) e f c = (ground arith, Clear-of_range p n b bs e f c.1)

-- A gap that `usable` names takes a new block with zeroed pages.
pub create_in_gap :
    (pm : PhysicalMemory) (n p : ℕ)
    → IsWellFormed pm
    → 0 < n
    → n % page_size ≡ 0
    → p % page_size ≡ 0
    → IsGap reserved_size pm.max_range pm.blocks n p
    → let blk = create p n true in
      (k : ℕ) × (insert pm blk ≡ some (done, with_block pm blk k))
      × IsWellFormed (with_block pm blk k)
unfolding create
create_in_gap pm n p w pos whole aligned gap =
    insert-IsWellFormed pm (create p n true) w pos gap.0 gap.1
      (Clear-of_range p n (create p n true) pm.blocks refl refl gap.2)
      (aligned, whole, omega (arith, gap.1, w.limit))
