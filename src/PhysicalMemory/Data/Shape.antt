-- ===== src/PhysicalMemory/Data/Shape.antt =====
-- Block lists of src/device/page.h that differ in the bytes alone, as before and after a write.
use ventus_driver.Common.{
  ℕ, suc, ◌+◌, ◌-◌, ◌%◌, ◌^◌, ◌≤◌, ◌<◌, ◌≡◌, refl, inl, inr, Bool, true, false, List, [], ◌∷◌,
  Option, none, some, arith, Bool-cases, All, length, ◌∙◌, ap,
}
use ventus_driver.Sv39.{page_size}
use ventus_driver.Block.{Block, Page, contains, is_empty}
use ventus_driver.Block.Bytes.{Buffer, from_bytes, from_bytes_ext}
use ventus_driver.PhysicalMemory.{PhysicalMemory}
use ventus_driver.PhysicalMemory.Order.{stop, Ordered}
use ventus_driver.PhysicalMemory.Invariant.{IsFrame, Backing, StartsReserved, EndsAt, IsWellFormed}
use ventus_driver.PhysicalMemory.Data.{covers}
use ventus_driver.PhysicalMemory.Data.Peek.{peek, backed_at, word_of}
use ventus_driver.PhysicalMemory.Data.Ranges.{byte_of, byte_at, spans, fill, fill_page, spans_above}

abbrev pub SamePages : Option Page → Option Page → Type 0
SamePages none none = Unit {0}
SamePages none (some q) = ⊥
SamePages (some p) none = ⊥
SamePages (some p) (some q) = p.capacity ≡ q.capacity

abbrev pub Alike : List Block → List Block → Type 0
Alike [] [] = Unit {0}
Alike [] (c ∷ cs) = ⊥
Alike (b ∷ bs) [] = ⊥
Alike (b ∷ bs) (c ∷ cs) =
    (c.addr ≡ b.addr) × (c.size ≡ b.size) × SamePages b.pages c.pages × Alike bs cs

SamePages-refl : (o : Option Page) → SamePages o o
SamePages-refl none = tt
SamePages-refl (some p) = refl

Alike-refl : (bs : List Block) → Alike bs bs
Alike-refl [] = tt
Alike-refl (b ∷ bs) = (refl, refl, SamePages-refl b.pages, Alike-refl bs)

SamePages-fill :
    (o : Option Page) (base n : ℕ) (source : Buffer) → SamePages o (fill_page o base n source)
SamePages-fill none base n source = tt
SamePages-fill (some p) base n source = refl

pub fill-Alike : (bs : List Block) (a n : ℕ) (source : Buffer) → Alike bs (fill bs a n source)
unfolding fill
fill-Alike [] a n source = tt
fill-Alike (b ∷ bs) a n source = elim (Bool-cases (covers b a n)) [
  | inl c ↦ rw c (refl, refl, SamePages-fill b.pages (a - b.addr) n source, Alike-refl bs)
  | inr c ↦ rw c (refl, refl, SamePages-refl b.pages, fill-Alike bs a n source)
]

Ordered-Alike : (lo : ℕ) (bs cs : List Block) → Alike bs cs → Ordered lo bs → Ordered lo cs
Ordered-Alike lo [] [] s o = tt
Ordered-Alike lo [] (c ∷ cs) s o = absurd s
Ordered-Alike lo (b ∷ bs) [] s o = absurd s
Ordered-Alike lo (b ∷ bs) (c ∷ cs) s o =
    let same : stop c ≡ stop b = omega (arith, s.0, s.1) in
    (
      omega (arith, s.0, o.0),
      (omega (arith, s.1, o.1.0), omega (arith, same, o.1.1)),
      rw same (Ordered-Alike (stop b) bs cs s.3 o.2),
    )

Backing-Alike : (o o' : Option Page) (n : ℕ) → SamePages o o' → Backing o n → Backing o' n
Backing-Alike none none n s h = tt
Backing-Alike none (some q) n s h = absurd s
Backing-Alike (some p) none n s h = absurd s
Backing-Alike (some p) (some q) n s h = omega arith

IsFrame-Alike : (bs cs : List Block) → Alike bs cs → All IsFrame bs → All IsFrame cs
IsFrame-Alike [] [] s f = tt
IsFrame-Alike [] (c ∷ cs) s f = absurd s
IsFrame-Alike (b ∷ bs) [] s f = absurd s
IsFrame-Alike (b ∷ bs) (c ∷ cs) s f = (
  (
    omega (arith, s.0, f.0.0),
    omega (arith, s.1, f.0.1),
    rw s.1 (Backing-Alike b.pages c.pages b.size s.2 f.0.2),
  ),
  IsFrame-Alike bs cs s.3 f.1,
)

none_alike : (o o' : Option Page) → SamePages o o' → o ≡ none → o' ≡ none
none_alike none none s e = refl
none_alike none (some q) s e = absurd s
none_alike (some p) o' s e = cc

StartsReserved-Alike : (bs cs : List Block) → Alike bs cs → StartsReserved bs → StartsReserved cs
StartsReserved-Alike [] cs s h = absurd h
StartsReserved-Alike (b ∷ bs) [] s h = absurd s
StartsReserved-Alike (b ∷ bs) (c ∷ cs) s h =
    (s.0 ∙ h.0, s.1 ∙ h.1, none_alike b.pages c.pages s.2 h.2)

EndsAt-Alike : (max : ℕ) (bs cs : List Block) → Alike bs cs → EndsAt max bs → EndsAt max cs
EndsAt-Alike max [] cs s h = absurd h
EndsAt-Alike max (b ∷ bs) [] s h = absurd s
EndsAt-Alike max (b ∷ []) (c ∷ []) s h = (s.0 ∙ h.0, s.1 ∙ h.1, none_alike b.pages c.pages s.2 h.2)
EndsAt-Alike max (b ∷ []) (c ∷ d ∷ cs) s h = absurd s.3
EndsAt-Alike max (b ∷ b' ∷ bs) (c ∷ []) s h = absurd s.3
EndsAt-Alike max (b ∷ b' ∷ bs) (c ∷ c' ∷ cs) s h = EndsAt-Alike max (b' ∷ bs) (c' ∷ cs) s.3 h

length-Alike : (bs cs : List Block) → Alike bs cs → length cs ≡ length bs
length-Alike [] [] s = refl
length-Alike [] (c ∷ cs) s = absurd s
length-Alike (b ∷ bs) [] s = absurd s
length-Alike (b ∷ bs) (c ∷ cs) s = ap suc (length-Alike bs cs s.3)

pub IsWellFormed-Alike :
    (pm : PhysicalMemory) (cs : List Block)
    → Alike pm.blocks cs
    → IsWellFormed pm
    → IsWellFormed (record pm { blocks = cs })
IsWellFormed-Alike pm cs s w = record {
  limit = w.limit;
  limit_pages = w.limit_pages;
  order = Ordered-Alike 0 pm.blocks cs s w.order;
  low = StartsReserved-Alike pm.blocks cs s w.low;
  high = EndsAt-Alike pm.max_range pm.blocks cs s w.high;
  frames = IsFrame-Alike pm.blocks cs s w.frames;
  points = rw (length-Alike pm.blocks cs s) w.points;
}

empty_alike : (b c : Block) → SamePages b.pages c.pages → is_empty c ≡ is_empty b
empty_alike b c s = go b.pages c.pages s
  where
    go :
        (o o' : Option Page)
        → SamePages o o'
        → ◌≡◌ {A = Bool}
            (elim o' [ none ↦ true | some p ↦ false ])
            (elim o [ none ↦ true | some p ↦ false ])
    go none none s = refl
    go none (some q) s = absurd s
    go (some p) none s = absurd s
    go (some p) (some q) s = refl

pub backed_at-Alike : (bs cs : List Block) (a : ℕ) → Alike bs cs → backed_at cs a ≡ backed_at bs a
unfolding backed_at
backed_at-Alike [] [] a s = refl
backed_at-Alike [] (c ∷ cs) a s = absurd s
backed_at-Alike (b ∷ bs) [] a s = absurd s
backed_at-Alike (b ∷ bs) (c ∷ cs) a s =
    ground (arith, s.0, s.1, empty_alike b c s.2, backed_at-Alike bs cs a s.3)

pub spans-Alike : (bs cs : List Block) (a n : ℕ) → Alike bs cs → spans cs a n ≡ spans bs a n
unfolding spans
spans-Alike [] [] a n s = refl
spans-Alike [] (c ∷ cs) a n s = absurd s
spans-Alike (b ∷ bs) [] a n s = absurd s
spans-Alike (b ∷ bs) (c ∷ cs) a n s =
    ground (arith, s.0, s.1, empty_alike b c s.2, spans-Alike bs cs a n s.3)

-- A range inside a page that has pages is spanned.
pub backed-spans :
    (lo : ℕ) (bs : List Block) (page a n : ℕ)
    → Ordered lo bs
    → All IsFrame bs
    → page % page_size ≡ 0
    → 0 < n
    → a + n < 2 ^ 64
    → page ≤ a
    → a + n ≤ page + page_size
    → backed_at bs page ≡ true
    → spans bs a n ≡ true
unfolding spans backed_at
backed-spans lo [] page a n o f al pos small l h b = absurd (cc)
backed-spans lo (c ∷ bs) page a n o f al pos small l h b = elim (Bool-cases (contains c page)) [
  | inl held ↦
      let covered : covers c a n ≡ true = ground (arith, held, f.0.0, f.0.1, o.1) in
      rw covered (ground (arith, b, held))
  | inr away ↦
      let later =
        backed-spans (stop c) bs page a n o.2 f.1 al pos small l h (ground (arith, b, away)) in
      let apart : covers c a n ≡ false = ground (arith, spans_above (stop c) bs a n o.2 later) in
      rw apart later
]

word_bytes :
    (o : Option Page) (base : ℕ) → word_of o base ≡ from_bytes 8 (λ j. byte_of o (base + j))
unfolding from_bytes
word_bytes none base = refl
word_bytes (some p) base = refl

-- The word at a multiple of 8, by its bytes.
pub peek-byte_at :
    (lo : ℕ) (bs : List Block) (a : ℕ)
    → Ordered lo bs
    → All IsFrame bs
    → a % 8 ≡ 0
    → peek bs a ≡ from_bytes 8 (λ j. byte_at bs (a + j))
unfolding peek byte_at from_bytes
peek-byte_at lo [] a o f al = refl
peek-byte_at lo (b ∷ bs) a o f al = elim (Bool-cases (contains b a)) [
  | inl held ↦ rw held (
      word_bytes b.pages (a - b.addr)
      ∙ from_bytes_ext 8 (λ j. byte_of b.pages (a - b.addr + j)) (λ j. byte_at (b ∷ bs) (a + j))
          (λ j h.
            let here : contains b (a + j) ≡ true = ground (arith, held, f.0.0, f.0.1, o.1) in
            let same : a + j - b.addr ≡ a - b.addr + j = ground (arith, held) in rw (here, same)))
  | inr away ↦ rw away (
      peek-byte_at (stop b) bs a o.2 f.1 al
      ∙ from_bytes_ext 8 (λ j. byte_at bs (a + j)) (λ j. byte_at (b ∷ bs) (a + j))
          (λ j h.
            let apart : contains b (a + j) ≡ false = ground (arith, away, f.0.0, f.0.1, o.1) in
            rw apart))
]
