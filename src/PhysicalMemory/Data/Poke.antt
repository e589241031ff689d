-- ===== src/PhysicalMemory/Data/Poke.antt =====
-- `write_value<uint64_t>` of src/device/page.h at multiples of 8, by its effect on every word.
use ventus_driver.Common.{
  ℕ, ◌+◌, ◌-◌, ◌%◌, ◌^◌, ◌≤◌, ◌<◌, ◌≡◌, refl, inl, inr, true, false, ◌&&◌, List, [], ◌∷◌, Option,
  none, some, arith, ◌==◌, if◌then◌else◌, Bool-cases, sub64, All, length, ◌>>=◌, Status, done,
  failed, subst, ◌∙◌,
}
use native.Mathlib.Decide.{ℕ_discrete}
use ventus_driver.Sv39.{page_size}
use ventus_driver.Block.{Block, Page, contains, is_empty, end}
use ventus_driver.Block
use ventus_driver.Block.Bytes.{to_bytes, from_bytes_ext, from_bytes-to_bytes, splice}
use ventus_driver.Block.Access.{IsBacked, write_inside}
use ventus_driver.PhysicalMemory.Order.{stop, IsRange, Ordered}
use ventus_driver.PhysicalMemory.Invariant.{IsFrame, Backing, StartsReserved, EndsAt}
use ventus_driver.PhysicalMemory.Data.{write_blocks}
use ventus_driver.PhysicalMemory.Data.Peek.{peek, backed_at, covers_word, word_of}

abbrev pub poke_page : Option Page → ℕ → ℕ → Option Page
poke_page none base v = none
poke_page (some p) base v = some (record p { bytes = splice p.bytes base 8 (to_bytes v) })

abbrev poke_block : Block → ℕ → ℕ → Block
poke_block b a v = record b { pages = poke_page b.pages (a - b.addr) v }

-- The blocks after a word is written; with no pages there, as before.
unfoldable pub poke : List Block → ℕ → ℕ → List Block
poke [] a v = []
poke (b ∷ bs) a v = if contains b a then poke_block b a v ∷ bs else b ∷ poke bs a v

poke_same : (b : Block) (a v : ℕ) → b.pages ≡ none → poke_block b a v ≡ b
poke_same b a v e = ground (arith, e)

word_write :
    (b : Block) (bs : List Block) (a v : ℕ)
    → IsRange b
    → IsFrame b
    → a % 8 ≡ 0
    → contains b a ≡ true
    → (o : Option Page) → b.pages ≡ o
    → ◌≡◌ {A = Option (Status × List Block)}
        (if◌then◌else◌ {A = Option (Status × List Block)}
          (is_empty b)
          (some (failed, b ∷ bs))
          (Block.write b (sub64 a b.addr) 8 (to_bytes v) >>= λ (s, b'). some (done, b' ∷ bs)))
        (some (if is_empty b then failed else done, poke_block b a v ∷ bs))
word_write b bs a v r f al held none e = ground (arith, e, poke_same b a v e)
word_write b bs a v r f al held (some p) e =
    let base : sub64 a b.addr ≡ a - b.addr = ground arith in
    let backed : IsBacked b p = record {
      holds = e;
      reaches = subst (λ o. Backing o b.size) e f.2;
      fits = r.1;
    } in
    let fits : a - b.addr + 8 ≤ b.size = ground arith in
    let answer = write_inside b p backed (a - b.addr) 8 fits (to_bytes v) in
    ground (arith, e, base, answer)

ends :
    (b : Block) (bs : List Block) (a v : ℕ)
    → ◌≡◌ {A = Option (Status × List Block)}
        (some (if is_empty b then failed else done, poke_block b a v ∷ bs))
        (some
          (if (if is_empty b then false else true) then done else failed, poke_block b a v ∷ bs))
ends b bs a v = ground arith

-- A write reports success exactly where pages lie, and does nothing elsewhere.
pub write-poke :
    (lo : ℕ) (bs : List Block) (a v : ℕ)
    → Ordered lo bs
    → All IsFrame bs
    → a % 8 ≡ 0
    → a < 2 ^ 63
    → write_blocks bs a 8 (to_bytes v) ≡ some (if backed_at bs a then done else failed, poke bs a v)
unfolding write_blocks backed_at poke
write-poke lo [] a v o f al small = refl
write-poke lo (b ∷ bs) a v o f al small = elim (Bool-cases (contains b a)) [
  | inl held ↦
      rw (covers_word b a o.1 f.0 al small, held)
        (word_write b bs a v o.1 f.0 al held b.pages refl ∙ ends b bs a v)
  | inr other ↦
      rw (covers_word b a o.1 f.0 al small, other)
        (ground (arith, write-poke (stop b) bs a v o.2 f.1 al small))
]

word_of_poke :
    (o : Option Page) (base i v : ℕ)
    → base % 8 ≡ 0
    → i % 8 ≡ 0
    → v < 2 ^ 64
    → word_of (poke_page o base v) i
      ≡ (if i == base then (elim o [ none ↦ 0 | some p ↦ v ]) else word_of o i)
word_of_poke none base i v al al' small = ground arith
word_of_poke (some p) base i v al al' small = elim (ℕ_discrete i base) [
  | yes same ↦
      let inside =
        from_bytes_ext 8 (λ j. splice p.bytes base 8 (to_bytes v) (i + j)) (to_bytes v)
          (λ j h. ground arith) in
      ground (arith, inside, from_bytes-to_bytes 8 v)
  | no other ↦
      let outside =
        from_bytes_ext 8 (λ j. splice p.bytes base 8 (to_bytes v) (i + j)) (λ j. p.bytes (i + j))
          (λ j h. ground arith) in
      ground (arith, outside)
]

word_of_poke_block :
    (o : Option Page) (addr a x v : ℕ)
    → addr ≤ a
    → addr ≤ x
    → addr % page_size ≡ 0
    → a % 8 ≡ 0
    → x % 8 ≡ 0
    → v < 2 ^ 64
    → word_of (poke_page o (a - addr) v) (x - addr) ≡ (
        if x == a && (if (elim o [ none ↦ true | some p ↦ false ]) then false else true)
        then v
        else word_of o (x - addr))
word_of_poke_block none addr a x v h k al al₁ al₂ small = ground arith
word_of_poke_block (some p) addr a x v h k al al₁ al₂ small =
    word_of_poke (some p) (a - addr) (x - addr) v (omega arith) (omega arith) small ∙ ground arith

-- Every word after a write: the one written, if pages lie there, and the others as before.
pub peek-poke :
    (lo : ℕ) (bs : List Block) (a v x : ℕ)
    → Ordered lo bs
    → All IsFrame bs
    → a % 8 ≡ 0
    → x % 8 ≡ 0
    → v < 2 ^ 64
    → peek (poke bs a v) x ≡ (if x == a && backed_at bs a then v else peek bs x)
unfolding peek poke backed_at
peek-poke lo [] a v x o f al al' small = ground arith
peek-poke lo (b ∷ bs) a v x o f al al' small = elim (Bool-cases (contains b a)) [
  | inl held ↦ elim (Bool-cases (contains b x)) [
    | inl here ↦
        rw (held, here)
          (word_of_poke_block b.pages b.addr a x v (ground arith) (ground arith) f.0.0 al al' small)
    | inr away ↦ let differ : (x == a) ≡ false = ground arith in rw (held, away, differ)
  ]
  | inr other ↦ elim (Bool-cases (contains b x)) [
    | inl here ↦ let differ : (x == a) ≡ false = ground arith in rw (other, here, differ)
    | inr away ↦ rw (other, away) (peek-poke (stop b) bs a v x o.2 f.1 al al' small)
  ]
]

pub backed_at-poke : (bs : List Block) (a v x : ℕ) → backed_at (poke bs a v) x ≡ backed_at bs x
unfolding backed_at poke
backed_at-poke [] a v x = refl
backed_at-poke (b ∷ bs) a v x = ground (arith, backed_at-poke bs a v x)

-- The ranges of the blocks stay, and with them all that the order says.
pub Ordered-poke : (lo : ℕ) (bs : List Block) (a v : ℕ) → Ordered lo bs → Ordered lo (poke bs a v)
unfolding poke
Ordered-poke lo [] a v o = tt
Ordered-poke lo (b ∷ bs) a v o = elim (Bool-cases (contains b a)) [
  | inl held ↦ rw held o
  | inr other ↦ rw other (o.0, o.1, Ordered-poke (stop b) bs a v o.2)
]

Backing-poke : (o : Option Page) (n base v : ℕ) → Backing o n → Backing (poke_page o base v) n
Backing-poke none n base v h = h
Backing-poke (some p) n base v h = h

pub IsFrame-poke : (bs : List Block) (a v : ℕ) → All IsFrame bs → All IsFrame (poke bs a v)
unfolding poke
IsFrame-poke [] a v f = tt
IsFrame-poke (b ∷ bs) a v f = elim (Bool-cases (contains b a)) [
  | inl held ↦ rw held ((f.0.0, f.0.1, Backing-poke b.pages b.size (a - b.addr) v f.0.2), f.1)
  | inr other ↦ rw other (f.0, IsFrame-poke bs a v f.1)
]

pub StartsReserved-poke :
    (bs : List Block) (a v : ℕ) → StartsReserved bs → StartsReserved (poke bs a v)
unfolding poke
StartsReserved-poke [] a v s = s
StartsReserved-poke (b ∷ bs) a v s = ground arith

EndsAt-cons : (max : ℕ) (b : Block) (bs : List Block) → EndsAt max bs → EndsAt max (b ∷ bs)
EndsAt-cons max b [] e = absurd e
EndsAt-cons max b (c ∷ bs) e = e

pub EndsAt-poke : (max : ℕ) (bs : List Block) (a v : ℕ) → EndsAt max bs → EndsAt max (poke bs a v)
unfolding poke
EndsAt-poke max [] a v e = e
EndsAt-poke max (b ∷ []) a v e = ground arith
EndsAt-poke max (b ∷ c ∷ bs) a v e = elim (Bool-cases (contains b a)) [
  | inl held ↦ rw held e
  | inr other ↦ rw other (EndsAt-cons max b (poke (c ∷ bs) a v) (EndsAt-poke max (c ∷ bs) a v e))
]

pub length-poke : (bs : List Block) (a v : ℕ) → length (poke bs a v) ≡ length bs
unfolding poke
length-poke [] a v = refl
length-poke (b ∷ bs) a v = ground (arith, length-poke bs a v)
