-- ===== src/PhysicalMemory/Freed.antt =====
-- The words of a PhysicalMemory of src/device/page.h after the removal of a block, and the length
-- of a block.
use ventus_driver.Common.{
  ℕ, zero, suc, ◌-◌, ◌<◌, ◌≡◌, refl, inl, inr, true, false, List, [], ◌∷◌, some, arith,
  if◌then◌else◌, Bool-cases, get_elem?, erase_at, ap,
}
use ventus_driver.Block.{Block, contains}
use ventus_driver.PhysicalMemory.Order.{stop, IsRange, Ordered}
use ventus_driver.PhysicalMemory.Invariant.{IsWellFormed}
use ventus_driver.PhysicalMemory.Erase.{Holds, held_once}
use ventus_driver.PhysicalMemory.Remove.{removed_at}
use ventus_driver.PhysicalMemory.Data.Peek.{peek, backed_at, word_of}
use ventus_driver.PhysicalMemory.Words.{word, backed}
use ventus_driver.PhysicalMemory.{PhysicalMemory, length, length_scan}

peek-erase_at :
    (bs : List Block) (i a : ℕ) {b : Block}
    → get_elem? bs i ≡ some b
    → contains b a ≡ false
    → peek (erase_at i bs) a ≡ peek bs a
unfolding peek
peek-erase_at [] i a e h = refl
peek-erase_at (c ∷ bs) zero a e h = ground arith
peek-erase_at (c ∷ bs) (suc i) a e h =
    ap (λ x. if contains c a then word_of c.pages (a - c.addr) else x) (peek-erase_at bs i a e h)

backed_at-erase_at :
    (bs : List Block) (i a : ℕ) {b : Block}
    → get_elem? bs i ≡ some b
    → contains b a ≡ false
    → backed_at (erase_at i bs) a ≡ backed_at bs a
unfolding backed_at
backed_at-erase_at [] i a e h = refl
backed_at-erase_at (c ∷ bs) zero a e h = ground arith
backed_at-erase_at (c ∷ bs) (suc i) a e h = rw (backed_at-erase_at bs i a e h)

backed_at_past :
    (lo : ℕ) (bs : List Block) (a : ℕ) → Ordered lo bs → a < lo → backed_at bs a ≡ false
unfolding backed_at
backed_at_past lo [] a o h = refl
backed_at_past lo (b ∷ bs) a o h =
    let apart : contains b a ≡ false = ground (arith, o.0) in
    rw apart (backed_at_past (stop b) bs a o.2 (omega (arith, o.0)))

freed_at :
    (lo : ℕ) (bs : List Block) (i a : ℕ) {b : Block}
    → Ordered lo bs
    → get_elem? bs i ≡ some b
    → Holds a b
    → backed_at (erase_at i bs) a ≡ false
unfolding backed_at
freed_at lo [] i a o e h = absurd (cc)
freed_at lo (c ∷ bs) zero a o e h = backed_at_past (stop c) bs a o.2 (ground (arith, h))
freed_at lo (c ∷ bs) (suc i) a o e h = elim (Bool-cases (contains c a)) [
  | inl p ↦ absurd (absurd_twice p)
  | inr p ↦ rw p (freed_at (stop c) bs i a o.2 e h)
]
  where
    absurd_twice : contains c a ≡ true → ⊥
    absurd_twice p =
        ground (arith, held_once a lo (c ∷ bs) 0 (suc i) o refl e (ground (arith, p, o.1)) h)

length_scan_held :
    (lo : ℕ) (bs : List Block) (i a : ℕ) {b : Block}
    → Ordered lo bs
    → get_elem? bs i ≡ some b
    → Holds a b
    → length_scan bs a ≡ b.size
unfolding length_scan
length_scan_held lo [] i a o e h = absurd (cc)
length_scan_held lo (c ∷ bs) zero a o e h = ground (arith, h)
length_scan_held lo (c ∷ bs) (suc i) a o e h = elim (Bool-cases (contains c a)) [
  | inl p ↦
      absurd (ground (arith, held_once a lo (c ∷ bs) 0 (suc i) o refl e (ground (arith, p, o.1)) h))
  | inr p ↦ rw p (length_scan_held (stop c) bs i a o.2 e h)
]

module _ (pm : PhysicalMemory) (w : IsWellFormed pm) (addr i : ℕ) {b : Block}
    (e : get_elem? pm.blocks i ≡ some b) (h : Holds addr b) where
  pub length_held : length pm addr ≡ b.size
  unfolding length
  length_held = length_scan_held 0 pm.blocks i addr w.order e h

  pub freed_word : (a : ℕ) → contains b a ≡ false → word (removed_at pm i).1 a ≡ word pm a
  freed_word a k = peek-erase_at pm.blocks i a e k

  pub freed_backed : (a : ℕ) → contains b a ≡ false → backed (removed_at pm i).1 a ≡ backed pm a
  freed_backed a k = backed_at-erase_at pm.blocks i a e k

  pub freed_here : (a : ℕ) → Holds a b → backed (removed_at pm i).1 a ≡ false
  freed_here a k = freed_at 0 pm.blocks i a w.order e k

IsRange-at :
    (lo : ℕ) (bs : List Block) (i : ℕ) {b : Block}
    → Ordered lo bs
    → get_elem? bs i ≡ some b
    → IsRange b
IsRange-at lo [] i o e = absurd (cc)
IsRange-at lo (c ∷ bs) zero o e = ground (arith, o.1)
IsRange-at lo (c ∷ bs) (suc i) o e = IsRange-at (stop c) bs i o.2 e

pub IsRange-held :
    (pm : PhysicalMemory) (w : IsWellFormed pm) (i : ℕ) {b : Block}
    → get_elem? pm.blocks i ≡ some b
    → IsRange b
IsRange-held pm w i e = IsRange-at 0 pm.blocks i w.order e
