-- ===== src/PhysicalMemory/Data/Peek.antt =====
-- A PhysicalMemory of src/device/page.h seen as 64-bit words at multiples of 8: what
-- `read_value<uint64_t>` answers at each.
use ventus_driver.Common.{
  ℕ, zero, suc, ◌+◌, ◌-◌, ◌%◌, ◌^◌, ◌≤◌, ◌<◌, ◌≡◌, refl, inl, inr, Bool, true, false, ◌||◌, List,
  [], ◌∷◌, Option, none, some, arith, if◌then◌else◌, Bool-cases, sub64, All, insert_at, ◌>>=◌,
  subst, ◌∙◌, sym,
}
use ventus_driver.Block.{Block, Page, contains, is_empty, end, zeroed}
use ventus_driver.Block
use ventus_driver.Block.Bytes.{from_bytes, from_bytes_ext, splice}
use ventus_driver.Block.Access.{IsBacked, read_inside}
use ventus_driver.PhysicalMemory.Order.{stop, IsRange, Ordered, Clear}
use ventus_driver.PhysicalMemory.Invariant.{IsFrame, Backing}
use ventus_driver.PhysicalMemory.Data.{covers, read_blocks, access_of, value_of, unbacked}

-- The word of a block at an address that it holds.
abbrev pub word_of : Option Page → ℕ → ℕ
word_of none base = 0
word_of (some p) base = from_bytes 8 (λ j. p.bytes (base + j))

unfoldable pub peek : List Block → ℕ → ℕ
peek [] a = 0
peek (b ∷ bs) a = if contains b a then word_of b.pages (a - b.addr) else peek bs a

-- Whether an address lies in a block with pages.
unfoldable pub backed_at : List Block → ℕ → Bool
backed_at [] a = false
backed_at (b ∷ bs) a = if contains b a then (if is_empty b then false else true) else backed_at bs a

-- Blocks are whole pages, so one that holds a multiple of 8 holds the word there.
pub covers_word :
    (b : Block) (a : ℕ)
    → IsRange b
    → IsFrame b
    → a % 8 ≡ 0
    → a < 2 ^ 63
    → covers b a 8 ≡ contains b a
covers_word b a r f al small = ground arith

word_read :
    (b : Block) (a : ℕ)
    → IsRange b
    → IsFrame b
    → a % 8 ≡ 0
    → contains b a ≡ true
    → (o : Option Page) → b.pages ≡ o
    → ((if is_empty b
          then some unbacked
          else (Block.read b (sub64 a b.addr) 8 (λ i. 0) >>= λ r. some (access_of r)))
        >>= value_of 8)
      ≡ some (word_of b.pages (a - b.addr))
unfolding access_of
word_read b a r f al held none e = rw (e, is_empty)
word_read b a r f al held (some p) e =
    let base : sub64 a b.addr ≡ a - b.addr = ground arith in
    let backed : IsBacked b p = record {
      holds = e;
      reaches = subst (λ o. Backing o b.size) e f.2;
      fits = r.1;
    } in
    let fits : a - b.addr + 8 ≤ b.size = ground arith in
    let answer = read_inside b p backed (a - b.addr) 8 fits (λ i. 0) in
    let same =
      from_bytes_ext 8 (splice (λ i. 0) 0 8 (λ i. p.bytes (a - b.addr + i)))
        (λ i. p.bytes (a - b.addr + i)) (λ i h. ground arith) in
    ground (arith, e, base, answer, same)

pub read-peek :
    (lo : ℕ) (bs : List Block) (a : ℕ)
    → Ordered lo bs
    → All IsFrame bs
    → a % 8 ≡ 0
    → a < 2 ^ 63
    → (read_blocks bs a 8 (λ i. 0) >>= value_of 8) ≡ some (peek bs a)
unfolding read_blocks peek
read-peek lo [] a o f al small = refl
read-peek lo (b ∷ bs) a o f al small = elim (Bool-cases (contains b a)) [
  | inl held ↦
      rw (covers_word b a o.1 f.0 al small, held) (word_read b a o.1 f.0 al held b.pages refl)
  | inr other ↦
      rw (covers_word b a o.1 f.0 al small, other) (read-peek (stop b) bs a o.2 f.1 al small)
]

pub unheld :
    (blk : Block) (lo : ℕ) (bs : List Block) (a : ℕ)
    → IsRange blk
    → Ordered lo bs
    → Clear blk bs
    → contains blk a ≡ true
    → (peek bs a ≡ 0) × (backed_at bs a ≡ false)
unfolding peek backed_at
unheld blk lo [] a r o c h = (refl, refl)
unheld blk lo (b ∷ bs) a r o c h =
    let rest = unheld blk (stop b) bs a r o.2 c.1 h in
    let apart : contains b a ≡ false = ground (arith, c.0) in (rw apart (rest.0), rw apart (rest.1))

module _ (blk : Block) (range : IsRange blk) (a : ℕ) where
  -- A block whose words are 0 at addresses that no other holds shows in no word: what is not held
  -- reads as 0 too.
  pub peek-insert_at :
      (i lo : ℕ) (bs : List Block)
      → word_of blk.pages (a - blk.addr) ≡ 0
      → Ordered lo bs
      → Clear blk bs
      → peek (insert_at i blk bs) a ≡ peek bs a
  unfolding peek
  peek-insert_at zero lo bs z o c = elim (Bool-cases (contains blk a)) [
    | inl held ↦ rw held (z ∙ sym (unheld blk lo bs a range o c held).0)
    | inr other ↦ rw other
  ]
  peek-insert_at (suc i) lo [] z o c = ground arith
  peek-insert_at (suc i) lo (b ∷ bs) z o c = rw (peek-insert_at i (stop b) bs z o.2 c.1)

  pub backed_at-insert_at :
      (i lo : ℕ) (bs : List Block)
      → is_empty blk ≡ false
      → Ordered lo bs
      → Clear blk bs
      → backed_at (insert_at i blk bs) a ≡ (contains blk a || backed_at bs a)
  unfolding backed_at
  backed_at-insert_at zero lo bs e o c = ground arith
  backed_at-insert_at (suc i) lo [] e o c = ground arith
  backed_at-insert_at (suc i) lo (b ∷ bs) e o c =
      ground (arith, backed_at-insert_at i (stop b) bs e o.2 c.1, c.0, o.1)

pub word_of_zeroed : (n base : ℕ) → word_of (some (zeroed n)) base ≡ 0
unfolding from_bytes
word_of_zeroed n base = refl
