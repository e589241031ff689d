-- ===== src/PhysicalMemory/Words.antt =====
-- What src/device/memory.h uses of a well-formed PhysicalMemory: its words, where they can be
-- written, and fresh blocks. The page-table code is verified against these laws.
use ventus_driver.Common.{
  ℕ, ◌+◌, ◌-◌, ◌%◌, ◌^◌, ◌≤◌, ◌<◌, ◌≡◌, refl, ◌⊎◌, inl, inr, Bool, true, false, ◌&&◌, some, arith,
  ◌==◌, if◌then◌else◌, done, failed, sym, ◌∙◌, ◌≢◌,
}
use ventus_driver.Sv39.{page_size}
use ventus_driver.Block.{create, round_up}
use ventus_driver.PhysicalMemory.Order.{IsRange, rank}
use ventus_driver.PhysicalMemory.Invariant.{IsWellFormed}
use ventus_driver.PhysicalMemory.Search.{IsGap, usable_lem}
use ventus_driver.PhysicalMemory.Reserve.{with_block, create_in_gap, Clear-of_range}
use ventus_driver.PhysicalMemory.Data.{read_value, write_value, write_data}
use ventus_driver.PhysicalMemory.Data.Peek.{
  peek, backed_at, read-peek, peek-insert_at, backed_at-insert_at, unheld, word_of_zeroed,
}
use ventus_driver.PhysicalMemory.Data.Poke.{
  poke, write-poke, peek-poke, backed_at-poke, Ordered-poke, IsFrame-poke, StartsReserved-poke,
  EndsAt-poke, length-poke,
}
use ventus_driver.PhysicalMemory.{PhysicalMemory, reserved_size, usable, insert}

abbrev pub word : PhysicalMemory → ℕ → ℕ
word pm a = peek pm.blocks a

abbrev pub backed : PhysicalMemory → ℕ → Bool
backed pm a = backed_at pm.blocks a

abbrev pub IsWordAddr : ℕ → Type 0
IsWordAddr a = (a % 8 ≡ 0) × (a < 2 ^ 63)

abbrev pub poked : PhysicalMemory → ℕ → ℕ → PhysicalMemory
poked pm a v = record pm { blocks = poke pm.blocks a v }

module _ (pm : PhysicalMemory) (w : IsWellFormed pm) (a : ℕ) (at_word : IsWordAddr a) where
  pub read_value-word : read_value 8 pm a ≡ some (word pm a)
  unfolding read_value
  read_value-word = read-peek 0 pm.blocks a w.order w.frames at_word.0 at_word.1

  pub write_value-poked :
      (v : ℕ) → write_value 8 pm a v ≡ some (if backed pm a then done else failed, poked pm a v)
  unfolding write_value write_data
  write_value-poked v = rw (write-poke 0 pm.blocks a v w.order w.frames at_word.0 at_word.1)

  pub poked-IsWellFormed : (v : ℕ) → IsWellFormed (poked pm a v)
  poked-IsWellFormed v = record {
    limit = w.limit;
    limit_pages = w.limit_pages;
    order = Ordered-poke 0 pm.blocks a v w.order;
    low = StartsReserved-poke pm.blocks a v w.low;
    high = EndsAt-poke pm.max_range pm.blocks a v w.high;
    frames = IsFrame-poke pm.blocks a v w.frames;
    points = rw (length-poke pm.blocks a v) w.points;
  }

  -- A value written where pages lie is the word there, and every other word stays.
  pub word-poked :
      (v x : ℕ)
      → v < 2 ^ 64
      → x % 8 ≡ 0
      → word (poked pm a v) x ≡ (if x == a && backed pm a then v else word pm x)
  word-poked v x small al = peek-poke 0 pm.blocks a v x w.order w.frames at_word.0 al small

  pub backed-poked : (v x : ℕ) → backed (poked pm a v) x ≡ backed pm x
  backed-poked v x = backed_at-poke pm.blocks a v x

-- A block of `n` bytes at `p` that was free before: it is backed, and no word changes.
pub record IsFresh (pm pm' : PhysicalMemory) (p n : ℕ) : Type 0 where
  pub well : IsWellFormed pm'
  pub positive : 0 < p
  pub aligned : p % page_size ≡ 0
  pub in_range : p + n ≤ 2 ^ 56
  pub same_words : (a : ℕ) → word pm' a ≡ word pm a
  pub more_backed : (a : ℕ) → backed pm a ≡ true → backed pm' a ≡ true
  pub block_backed : (a : ℕ) → p ≤ a → a < p + n → backed pm' a ≡ true
  pub was_zero : (a : ℕ) → p ≤ a → a < p + n → word pm a ≡ 0
  pub was_free : (a : ℕ) → p ≤ a → a < p + n → backed pm a ≡ false

IsFresh-in_gap :
    (pm : PhysicalMemory) (n p : ℕ)
    → IsWellFormed pm
    → 0 < n
    → n % page_size ≡ 0
    → p % page_size ≡ 0
    → IsGap reserved_size pm.max_range pm.blocks n p
    → (pm' : PhysicalMemory) × (insert pm (create p n true) ≡ some (done, pm')) × IsFresh pm pm' p n
unfolding create
IsFresh-in_gap pm n p w pos whole aligned gap =
    let blk = create p n true in
    let (k, e, well) = create_in_gap pm n p w pos whole aligned gap in
    let clear = Clear-of_range p n blk pm.blocks refl refl gap.2 in
    let range : IsRange blk = (pos, omega (arith, gap.1, w.limit)) in
    let free = λ (a : ℕ) (low : p ≤ a) (high : a < p + n).
      unheld blk 0 pm.blocks a range w.order clear (ground (arith, gap.1, w.limit)) in
    (
      with_block pm blk k,
      e,
      record {
        well = well;
        positive = omega (arith, gap.0);
        aligned = aligned;
        in_range = omega (arith, gap.1, w.limit);
        same_words = λ a.
            peek-insert_at blk range a (rank blk pm.blocks) 0 pm.blocks
              (word_of_zeroed (round_up n) (a - p)) w.order clear;
        more_backed = λ a h. ground (
          arith,
          backed_at-insert_at blk range a (rank blk pm.blocks) 0 pm.blocks refl w.order clear,
        );
        block_backed = λ a low high. ground (
          arith,
          gap.1,
          w.limit,
          backed_at-insert_at blk range a (rank blk pm.blocks) 0 pm.blocks refl w.order clear,
        );
        was_zero = λ a low high. (free a low high).0;
        was_free = λ a low high. (free a low high).1;
      },
    )

-- `usable` and then `insert`, the way memory.h gets memory: no room, or a fresh block.
pub usable-IsFresh :
    (pm : PhysicalMemory) (size : ℕ)
    → IsWellFormed pm
    → 0 < size
    → size ≤ 2 ^ 56
    → (p : ℕ) × (usable pm size ≡ some p)
      × ((p ≡ 0)
          ⊎ ((pm' : PhysicalMemory) × (insert pm (create p (round_up size) true) ≡ some (done, pm'))
              × IsFresh pm pm' p (round_up size)))
usable-IsFresh pm size w pos small =
    let (p, e, first) = usable_lem pm size w pos small in
    elim first [
      | inl (z, h) ↦ (p, e, inl z)
      | inr (al, gap, least) ↦
          (p, e, inr (IsFresh-in_gap pm (round_up size) p w (omega arith) (omega arith) al gap))
    ]

-- On a well-formed memory, a 64-bit value written at a multiple of 8 in backed memory is read back
-- there, every other word reads as before, and the memory stays well formed.
pub read-write_value :
    (pm : PhysicalMemory) (a v : ℕ)
    → IsWellFormed pm
    → IsWordAddr a
    → v < 2 ^ 64
    → backed pm a ≡ true
    → (pm' : PhysicalMemory) × (write_value 8 pm a v ≡ some (done, pm'))
      × IsWellFormed pm'
      × (read_value 8 pm' a ≡ some v)
      × ((x : ℕ) → IsWordAddr x → x ≢ a → read_value 8 pm' x ≡ read_value 8 pm x)
read-write_value pm a v w at_word small held =
    let w' = poked-IsWellFormed pm w a at_word v in
    let at_a = word-poked pm w a at_word v a small at_word.0 in
    (
      poked pm a v,
      write_value-poked pm w a at_word v ∙ ground (arith, held),
      w',
      read_value-word (poked pm a v) w' a at_word ∙ ground (arith, at_a, held),
      λ x al apart.
          read_value-word (poked pm a v) w' x al
          ∙ ground (arith, word-poked pm w a at_word v x small al.0)
          ∙ sym (read_value-word pm w x al),
    )
