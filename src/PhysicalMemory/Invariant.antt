-- ===== src/PhysicalMemory/Invariant.antt =====
-- The state that the operations of PhysicalMemory in src/device/page.h keep: the two reserved
-- blocks at the ends, the order between, whole pages, arrays as long as their blocks.
use ventus_driver.Common.{
  ℕ, zero, suc, ◌%◌, ◌^◌, ◌≤◌, ◌<◌, ◌≡◌, List, [], ◌∷◌, Option, none, some, arith, length, All,
  insert_at,
}
use ventus_driver.Sv39.{page_size, max_phy_range}
use ventus_driver.Block.{Block, Page}
use ventus_driver.PhysicalMemory.Order.{stop, Ordered, rank}
use ventus_driver.PhysicalMemory.{PhysicalMemory, Cursor, at, dangling, reserved_size, init}

abbrev pub Backing : Option Page → ℕ → Type 0
Backing none n = Unit {0}
Backing (some p) n = n ≤ p.capacity

abbrev pub IsFrame : Block → Type 0
IsFrame b = (b.addr % page_size ≡ 0) × (b.size % page_size ≡ 0) × Backing b.pages b.size

abbrev pub StartsReserved : List Block → Type 0
StartsReserved [] = ⊥
StartsReserved (b ∷ bs) = (b.addr ≡ 0) × (b.size ≡ reserved_size) × (b.pages ≡ none)

abbrev pub EndsAt : ℕ → List Block → Type 0
EndsAt max [] = ⊥
EndsAt max (b ∷ []) = (b.addr ≡ max) × (b.size ≡ page_size) × (b.pages ≡ none)
EndsAt max (b ∷ c ∷ bs) = EndsAt max (c ∷ bs)

abbrev pub PointsInto : ℕ → Cursor → Type 0
PointsInto n (at k) = k < n
PointsInto n dangling = ⊥

pub record IsWellFormed (pm : PhysicalMemory) : Type 0 where
  pub limit : pm.max_range ≤ max_phy_range
  pub limit_pages : pm.max_range % page_size ≡ 0
  pub order : Ordered 0 pm.blocks
  pub low : StartsReserved pm.blocks
  pub high : EndsAt pm.max_range pm.blocks
  pub frames : All IsFrame pm.blocks
  pub points : PointsInto (length pm.blocks) pm.cursor

-- A fresh memory of any range from the reserved part up is well formed, capped at 2^56.
pub init-IsWellFormed : (range : ℕ) → reserved_size ≤ range → IsWellFormed (init range)
unfolding init
init-IsWellFormed range h = ground arith

pub EndsAt-limit :
    (max lo : ℕ) (b : Block) (bs : List Block)
    → Ordered lo (b ∷ bs)
    → EndsAt max (b ∷ bs)
    → b.addr ≤ max
EndsAt-limit max lo b [] o e = omega arith
EndsAt-limit max lo b (c ∷ bs) o e = omega (arith, EndsAt-limit max (stop b) c bs o.2 e)

-- What ends below the upper reserved block stands before it.
pub rank-lt-length :
    (max : ℕ) (blk : Block) (bs : List Block)
    → 0 < blk.size
    → stop blk ≤ max
    → EndsAt max bs
    → max < 2 ^ 63
    → rank blk bs < length bs
unfolding rank
rank-lt-length max blk [] pos h e k = absurd e
rank-lt-length max blk (b ∷ []) pos h e k = ground arith
rank-lt-length max blk (b ∷ c ∷ bs) pos h e k =
    ground (arith, rank-lt-length max blk (c ∷ bs) pos h e k)

pub rank-pos :
    (blk : Block) (bs : List Block) → reserved_size ≤ blk.addr → StartsReserved bs → 0 < rank blk bs
unfolding rank
rank-pos blk [] h s = absurd s
rank-pos blk (b ∷ bs) h s = ground arith

pub All-insert_at {ℓ} :
    (P : Block → Type ℓ) (i : ℕ) (blk : Block) (bs : List Block)
    → P blk
    → All P bs
    → All P (insert_at i blk bs)
All-insert_at P zero blk bs h a = (h, a)
All-insert_at P (suc i) blk [] h a = (h, tt)
All-insert_at P (suc i) blk (b ∷ bs) h a = (a.0, All-insert_at P i blk bs h a.1)

pub EndsAt-insert_at :
    (max i : ℕ) (blk : Block) (bs : List Block)
    → i < length bs
    → EndsAt max bs
    → EndsAt max (insert_at i blk bs)
EndsAt-insert_at max i blk [] h e = absurd e
EndsAt-insert_at max zero blk (b ∷ bs) h e = e
EndsAt-insert_at max (suc i) blk (b ∷ []) h e = absurd (omega arith)
EndsAt-insert_at max (suc zero) blk (b ∷ c ∷ bs) h e = e
EndsAt-insert_at max (suc (suc i)) blk (b ∷ c ∷ bs) h e =
    EndsAt-insert_at max (suc i) blk (c ∷ bs) (omega arith) e

pub StartsReserved-insert_at :
    (i : ℕ) (blk : Block) (bs : List Block)
    → 0 < i
    → StartsReserved bs
    → StartsReserved (insert_at i blk bs)
StartsReserved-insert_at zero blk bs h s = absurd (omega arith)
StartsReserved-insert_at (suc i) blk [] h s = absurd s
StartsReserved-insert_at (suc i) blk (b ∷ bs) h s = s
