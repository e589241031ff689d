-- ===== src/PhysicalMemory/Erase.antt =====
-- What erasing a node from the block list of src/device/page.h keeps of the memory's order.
use ventus_driver.Common.{
  ℕ, zero, suc, ◌-◌, ◌≤◌, ◌<◌, ◌≡◌, refl, List, [], ◌∷◌, some, arith, All, length, get_elem?,
  erase_at, ap, sym, subst, ◌≢◌,
}
use native.Mathlib.Decide.{ℕ_discrete, dec_lt}
use ventus_driver.Block.{Block}
use ventus_driver.PhysicalMemory.Order.{stop, Ordered}
use ventus_driver.PhysicalMemory.Invariant.{StartsReserved, EndsAt, PointsInto}
use ventus_driver.PhysicalMemory.{Cursor, at, dangling, reserved_size, cursor_after_erase}

abbrev pub Holds : ℕ → Block → Type 0
Holds addr b = (b.addr ≤ addr) × (addr < stop b)

above_lo :
    (lo : ℕ) (bs : List Block) (j : ℕ) {c : Block}
    → Ordered lo bs
    → get_elem? bs j ≡ some c
    → lo ≤ c.addr
above_lo lo [] j o e = absurd (cc)
above_lo lo (b ∷ bs) zero o e = ground (arith, o.0)
above_lo lo (b ∷ bs) (suc j) o e = omega (arith, o.0, above_lo (stop b) bs j o.2 e)

-- An address lies in one block at most.
pub held_once :
    (addr lo : ℕ) (bs : List Block) (i j : ℕ) {b c : Block}
    → Ordered lo bs
    → get_elem? bs i ≡ some b
    → get_elem? bs j ≡ some c
    → Holds addr b
    → Holds addr c
    → i ≡ j
held_once addr lo [] i j o e f h k = absurd (cc)
held_once addr lo (a ∷ bs) zero zero o e f h k = refl
held_once addr lo (a ∷ bs) zero (suc j) o e f h k =
    absurd (ground (arith, above_lo (stop a) bs j o.2 f))
held_once addr lo (a ∷ bs) (suc i) zero o e f h k =
    absurd (ground (arith, above_lo (stop a) bs i o.2 e))
held_once addr lo (a ∷ bs) (suc i) (suc j) o e f h k =
    ap suc (held_once addr (stop a) bs i j o.2 e f h k)

pub StartsReserved-erase_at :
    (i : ℕ) (bs : List Block) → 0 < i → StartsReserved bs → StartsReserved (erase_at i bs)
StartsReserved-erase_at i [] h s = s
StartsReserved-erase_at zero (b ∷ bs) h s = absurd (omega arith)
StartsReserved-erase_at (suc i) (b ∷ bs) h s = s

pub EndsAt-erase_at :
    (max i : ℕ) (bs : List Block) → suc i < length bs → EndsAt max bs → EndsAt max (erase_at i bs)
EndsAt-erase_at max i [] h e = e
EndsAt-erase_at max i (b ∷ []) h e = absurd (omega arith)
EndsAt-erase_at max zero (b ∷ c ∷ bs) h e = e
EndsAt-erase_at max (suc zero) (b ∷ c ∷ []) h e = absurd (omega arith)
EndsAt-erase_at max (suc zero) (b ∷ c ∷ d ∷ bs) h e = e
EndsAt-erase_at max (suc (suc i)) (b ∷ c ∷ bs) h e =
    EndsAt-erase_at max (suc i) (c ∷ bs) (omega arith) e

pub All-erase_at {ℓ} :
    (P : Block → Type ℓ) (i : ℕ) (bs : List Block) → All P bs → All P (erase_at i bs)
All-erase_at P i [] a = tt
All-erase_at P zero (b ∷ bs) a = a.1
All-erase_at P (suc i) (b ∷ bs) a = (a.0, All-erase_at P i bs a.1)

moved_down : (i k : ℕ) → i < k → cursor_after_erase i (at k) ≡ at (k - 1)
moved_down i k h = ground arith

kept_place : (i k : ℕ) → k ≢ i → ¬ (i < k) → cursor_after_erase i (at k) ≡ at k
kept_place i k h g = ground arith

pub PointsInto-erase :
    (n m i : ℕ) (c : Cursor)
    → suc m ≡ n
    → i < n
    → c ≢ at i
    → PointsInto n c
    → PointsInto m (cursor_after_erase i c)
PointsInto-erase n m i dangling e l apart h = absurd h
PointsInto-erase n m i (at k) e l apart h = elim (ℕ_discrete k i) [
  | yes same ↦ absurd (apart (ap at same))
  | no other ↦ elim (dec_lt i k) [
    | yes p ↦ subst (PointsInto m) (sym (moved_down i k p)) (omega arith)
    | no p ↦ subst (PointsInto m) (sym (kept_place i k other p)) (omega arith)
  ]
]

pub not_first :
    (addr : ℕ) (bs : List Block) (i : ℕ) {b : Block}
    → StartsReserved bs
    → get_elem? bs i ≡ some b
    → Holds addr b
    → reserved_size ≤ addr
    → 0 < i
not_first addr [] i s e h l = absurd s
not_first addr (b ∷ bs) zero s e h l = absurd (ground arith)
not_first addr (b ∷ bs) (suc i) s e h l = omega arith

pub not_last :
    (addr max : ℕ) (bs : List Block) (i : ℕ) {b : Block}
    → EndsAt max bs
    → get_elem? bs i ≡ some b
    → b.addr < max
    → suc i < length bs
not_last addr max [] i s e h = absurd s
not_last addr max (a ∷ []) zero s e h = absurd (ground arith)
not_last addr max (a ∷ []) (suc i) s e h = absurd (cc)
not_last addr max (a ∷ c ∷ bs) zero s e h = omega arith
not_last addr max (a ∷ c ∷ bs) (suc i) s e h = omega (arith, not_last addr max (c ∷ bs) i s e h)
