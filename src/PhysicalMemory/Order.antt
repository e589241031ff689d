-- ===== src/PhysicalMemory/Order.antt =====
-- The order that src/device/page.h keeps the blocks of a PhysicalMemory in, and the place that a
-- new block has in it.
use ventus_driver.Common.{
  ℕ, zero, suc, ◌+◌, ◌^◌, ◌≤◌, ◌<◌, ◌≡◌, ◌⊎◌, inl, inr, true, List, [], ◌∷◌, some, arith,
  if◌then◌else◌, Bool-cases, length, get_elem?, insert_at, erase_at,
}
use ventus_driver.Block.{Block, precedes, succeeds}

-- The end of a block, without the wrap of uint64_t.
abbrev pub stop : Block → ℕ
stop b = b.addr + b.size

abbrev pub IsRange : Block → Type 0
IsRange b = (0 < b.size) × (stop b < 2 ^ 64)

-- From `lo` on the blocks stand in ascending order and do not overlap.
abbrev pub Ordered : ℕ → List Block → Type 0
Ordered lo [] = Unit {0}
Ordered lo (b ∷ bs) = (lo ≤ b.addr) × IsRange b × Ordered (stop b) bs

-- A block shares no address with any of the list.
abbrev pub Clear : Block → List Block → Type 0
Clear blk [] = Unit {0}
Clear blk (b ∷ bs) = ((stop b ≤ blk.addr) ⊎ (stop blk ≤ b.addr)) × Clear blk bs

-- How many blocks of the list stand before a block.
unfoldable pub rank : Block → List Block → ℕ
rank blk [] = 0
rank blk (b ∷ bs) = if precedes b blk then suc (rank blk bs) else 0

pub Ordered-mono : (lo hi : ℕ) (bs : List Block) → lo ≤ hi → Ordered hi bs → Ordered lo bs
Ordered-mono lo hi [] h o = tt
Ordered-mono lo hi (b ∷ bs) h o = (omega arith, o.1, o.2)

module _ (blk : Block) (range : IsRange blk) where
  pub precedes_below_rank :
      (bs : List Block) (i : ℕ) {b : Block}
      → get_elem? bs i ≡ some b
      → i < rank blk bs
      → precedes b blk ≡ true
  unfolding rank
  precedes_below_rank [] i e h = absurd (omega arith)
  precedes_below_rank (b ∷ bs) zero e h = ground arith
  precedes_below_rank (b ∷ bs) (suc i) e h = elim (Bool-cases (precedes b blk)) [
    | inl p ↦ precedes_below_rank bs i e (ground arith)
    | inr p ↦ absurd (ground arith)
  ]

  succeeds_past :
      (lo : ℕ) (bs : List Block) (i : ℕ) {b : Block}
      → Ordered lo bs
      → stop blk ≤ lo
      → get_elem? bs i ≡ some b
      → succeeds b blk ≡ true
  succeeds_past lo [] i o h e = absurd (cc)
  succeeds_past lo (b ∷ bs) zero o h e = ground arith
  succeeds_past lo (b ∷ bs) (suc i) o h e = succeeds_past (stop b) bs i o.2 (omega arith) e

  pub succeeds_from_rank :
      (lo : ℕ) (bs : List Block) (i : ℕ) {b : Block}
      → Ordered lo bs
      → Clear blk bs
      → get_elem? bs i ≡ some b
      → rank blk bs ≤ i
      → succeeds b blk ≡ true
  unfolding rank
  succeeds_from_rank lo [] i o c e h = absurd (cc)
  succeeds_from_rank lo (b ∷ bs) zero o c e h = ground arith
  succeeds_from_rank lo (b ∷ bs) (suc i) o c e h = elim (Bool-cases (precedes b blk)) [
    | inl p ↦ succeeds_from_rank (stop b) bs i o.2 c.1 e (ground arith)
    | inr p ↦ succeeds_past (stop b) bs i o.2 (ground arith) e
  ]

  pub rank-le-length : (bs : List Block) → rank blk bs ≤ length bs
  unfolding rank
  rank-le-length [] = omega arith
  rank-le-length (b ∷ bs) = ground (arith, rank-le-length bs)

  -- A block put in at its rank keeps the order.
  pub Ordered-insert_at :
      (lo : ℕ) (bs : List Block)
      → lo ≤ blk.addr
      → Ordered lo bs
      → Clear blk bs
      → Ordered lo (insert_at (rank blk bs) blk bs)
  unfolding rank
  Ordered-insert_at lo [] h o c = (h, range, tt)
  Ordered-insert_at lo (b ∷ bs) h o c = elim (Bool-cases (precedes b blk)) [
    | inl p ↦ rw p (o.0, o.1, Ordered-insert_at (stop b) bs (ground arith) o.2 c.1)
    | inr p ↦ rw p (h, range, (ground arith, o.1, o.2))
  ]

pub Ordered-erase_at : (lo i : ℕ) (bs : List Block) → Ordered lo bs → Ordered lo (erase_at i bs)
Ordered-erase_at lo i [] o = tt
Ordered-erase_at lo zero (b ∷ bs) o = Ordered-mono lo (stop b) bs (omega arith) o.2
Ordered-erase_at lo (suc i) (b ∷ bs) o = (o.0, o.1, Ordered-erase_at (stop b) i bs o.2)
