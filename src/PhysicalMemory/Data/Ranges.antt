-- ===== src/PhysicalMemory/Data/Ranges.antt =====
-- A PhysicalMemory of src/device/page.h seen as bytes: what `read_data` and `write_data` do to a range
-- of any length.
use ventus_driver.Common.{
  ℕ, ◌+◌, ◌-◌, ◌^◌, ◌≤◌, ◌<◌, ◌≡◌, refl, ◌⊎◌, inl, inr, Bool, true, false, ◌&&◌, List, [], ◌∷◌,
  Option, none, some, arith, leb, ltb, if◌then◌else◌, Bool-cases, sub64, All, done, failed, subst,
  ◌∙◌, sym, ap,
}
use ventus_driver.Block.{Block, Page, contains, is_empty}
use ventus_driver.Block.Bytes.{Buffer, splice, splice_ext}
use ventus_driver.Block.Access.{IsBacked, write_inside, read_inside}
use ventus_driver.PhysicalMemory.Order.{stop, IsRange, Ordered}
use ventus_driver.PhysicalMemory.Invariant.{IsFrame, Backing}
use ventus_driver.PhysicalMemory.Data.{
  covers, write_blocks, read_blocks, data_of, Access, got, missed, unbacked,
}

abbrev pub byte_of : Option Page → ℕ → ℕ
byte_of none base = 0
byte_of (some p) base = p.bytes base

unfoldable pub byte_at : List Block → ℕ → ℕ
byte_at [] a = 0
byte_at (b ∷ bs) a = if contains b a then byte_of b.pages (a - b.addr) else byte_at bs a

-- Whether the first block that covers a range has pages.
unfoldable pub spans : List Block → ℕ → ℕ → Bool
spans [] a n = false
spans (b ∷ bs) a n = if covers b a n then (if is_empty b then false else true) else spans bs a n

abbrev pub fill_page : Option Page → ℕ → ℕ → Buffer → Option Page
fill_page none base n source = none
fill_page (some p) base n source = some (record p { bytes = splice p.bytes base n source })

abbrev pub fill_block : Block → ℕ → ℕ → Buffer → Block
fill_block b a n source = record b { pages = fill_page b.pages (a - b.addr) n source }

-- The blocks after a range is written; with no pages there, as before.
unfoldable pub fill : List Block → ℕ → ℕ → Buffer → List Block
fill [] a n source = []
fill (b ∷ bs) a n source =
    if covers b a n then fill_block b a n source ∷ bs else b ∷ fill bs a n source

pub covers_bounds :
    (b : Block) (a n : ℕ)
    → IsRange b
    → a + n < 2 ^ 64
    → covers b a n ≡ true
    → (b.addr ≤ a) × (a + n ≤ stop b)
covers_bounds b a n r small c = ground arith

pub spans_above :
    (lo : ℕ) (bs : List Block) (a n : ℕ) → Ordered lo bs → spans bs a n ≡ true → lo ≤ a
unfolding spans
spans_above lo [] a n o s = absurd (cc)
spans_above lo (b ∷ bs) a n o s = elim (Bool-cases (covers b a n)) [
  | inl c ↦ ground (arith, o.0)
  | inr c ↦ omega (arith, o.0, spans_above (stop b) bs a n o.2 (ground (arith, c, s)))
]

-- What `read_blocks` answers on a range.
abbrev pub Reads : List Block → ℕ → ℕ → Buffer → Access → Type 0
Reads bs a n out x =
    ((spans bs a n ≡ true) × (x ≡ got (splice out 0 n (λ i. byte_at bs (a + i)))))
    ⊎ ((spans bs a n ≡ false) × (data_of out x ≡ (failed, out)))

module _ (b : Block) (bs : List Block) (a n : ℕ) (r : IsRange b) (f : IsFrame b)
    (small : a + n < 2 ^ 64) (c : covers b a n ≡ true) where
  IsBacked-block : (p : Page) → b.pages ≡ some p → IsBacked b p
  IsBacked-block p e = record {
    holds = e;
    reaches = subst (λ o. Backing o b.size) e f.2;
    fits = r.1;
  }

  offset : sub64 a b.addr ≡ a - b.addr
  offset = let (low, high) = covers_bounds b a n r small c in omega arith

  inside : a - b.addr + n ≤ b.size
  inside = let (low, high) = covers_bounds b a n r small c in omega arith

  byte_inside :
      (p : Page) (i : ℕ)
      → b.pages ≡ some p
      → i < n
      → byte_at (b ∷ bs) (a + i) ≡ p.bytes (a - b.addr + i)
  unfolding byte_at
  byte_inside p i e near =
      let (low, high) = covers_bounds b a n r small c in
      let held : contains b (a + i) ≡ true = ground (arith, near) in
      let same : a + i - b.addr ≡ a - b.addr + i = omega arith in rw (held, e, same)

  read_block :
      (out : Buffer) (o : Option Page)
      → b.pages ≡ o
      → (x : Access) × (read_blocks (b ∷ bs) a n out ≡ some x) × Reads (b ∷ bs) a n out x
  unfolding read_blocks spans
  read_block out none e = (unbacked, rw (c, e), inr (rw (c, e), refl))
  read_block out (some p) e =
      let answer = read_inside b p (IsBacked-block p e) (a - b.addr) n inside out in
      (
        got (splice out 0 n (λ i. p.bytes (a - b.addr + i))),
        ground (arith, c, e, offset, answer),
        inl (rw (c, e), ap got (splice_ext out n _ _ (λ i near. sym (byte_inside p i e near)))),
      )

  fill_same : (source : Buffer) → b.pages ≡ none → fill_block b a n source ≡ b
  fill_same source e = ground (arith, e)

  write_block :
      (source : Buffer) (o : Option Page)
      → b.pages ≡ o
      → write_blocks (b ∷ bs) a n source
        ≡ some (if spans (b ∷ bs) a n then done else failed, fill (b ∷ bs) a n source)
  unfolding write_blocks spans fill
  write_block source none e = ground (arith, c, e, fill_same source e)
  write_block source (some p) e =
      let answer = write_inside b p (IsBacked-block p e) (a - b.addr) n inside source in
      ground (arith, c, e, offset, answer)

byte_behind :
    (lo : ℕ) (b : Block) (bs : List Block) (a n i : ℕ)
    → Ordered lo (b ∷ bs)
    → spans bs a n ≡ true
    → byte_at (b ∷ bs) (a + i) ≡ byte_at bs (a + i)
unfolding byte_at
byte_behind lo b bs a n i o s =
    let above = spans_above (stop b) bs a n o.2 s in
    let apart : contains b (a + i) ≡ false = ground (arith, o.1) in rw apart

-- A read of a range answers its bytes where one block with pages covers it, and else fails.
pub read_blocks-Reads :
    (lo : ℕ) (bs : List Block) (a n : ℕ) (out : Buffer)
    → Ordered lo bs
    → All IsFrame bs
    → a + n < 2 ^ 64
    → (x : Access) × (read_blocks bs a n out ≡ some x) × Reads bs a n out x
unfolding read_blocks spans
read_blocks-Reads lo [] a n out o f small = (missed, refl, inr (refl, refl))
read_blocks-Reads lo (b ∷ bs) a n out o f small = elim (Bool-cases (covers b a n)) [
  | inl c ↦ read_block b bs a n o.1 f.0 small c out b.pages refl
  | inr c ↦
      let (x, e, answer) = read_blocks-Reads (stop b) bs a n out o.2 f.1 small in
      (
        x,
        rw c e,
        elim answer [
          | inl (s, h) ↦ inl (
            rw c s,
            h ∙ ap got (splice_ext out n _ _ (λ i near. sym (byte_behind lo b bs a n i o s))),
          )
          | inr (s, h) ↦ inr (rw c s, h)
        ],
      )
]

pub write-fill :
    (lo : ℕ) (bs : List Block) (a n : ℕ) (source : Buffer)
    → Ordered lo bs
    → All IsFrame bs
    → a + n < 2 ^ 64
    → write_blocks bs a n source ≡ some (if spans bs a n then done else failed, fill bs a n source)
unfolding write_blocks spans fill
write-fill lo [] a n source o f small = refl
write-fill lo (b ∷ bs) a n source o f small = elim (Bool-cases (covers b a n)) [
  | inl c ↦ write_block b bs a n o.1 f.0 small c source b.pages refl
  | inr c ↦ ground (arith, c, write-fill (stop b) bs a n source o.2 f.1 small)
]

byte_at_past : (lo : ℕ) (bs : List Block) (a : ℕ) → Ordered lo bs → a < lo → byte_at bs a ≡ 0
unfolding byte_at
byte_at_past lo [] a o h = refl
byte_at_past lo (b ∷ bs) a o h =
    let apart : contains b a ≡ false = ground (arith, o.0) in
    rw apart (byte_at_past (stop b) bs a o.2 (omega (arith, o.0)))

-- The same at addresses, for a block that begins at `addr`.
byte_of_fill_block :
    (o : Option Page) (addr a n x : ℕ) (source : Buffer)
    → addr ≤ a
    → addr ≤ x
    → byte_of (fill_page o (a - addr) n source) (x - addr) ≡ (
        if (if (elim o [ none ↦ true | some p ↦ false ]) then false else true)
          && (leb a x && ltb x (a + n))
        then source (x - a)
        else byte_of o (x - addr))
byte_of_fill_block none addr a n x source h k = refl
byte_of_fill_block (some p) addr a n x source h k =
    let e : x - addr - (a - addr) ≡ x - a = omega arith in rw e (ground arith)

-- Every byte after a write: those written, if pages lie there, and the others as before.
pub byte_at-fill :
    (lo : ℕ) (bs : List Block) (a n x : ℕ) (source : Buffer)
    → Ordered lo bs
    → a + n < 2 ^ 64
    → byte_at (fill bs a n source) x
      ≡ (if spans bs a n && (leb a x && ltb x (a + n)) then source (x - a) else byte_at bs x)
unfolding byte_at spans fill
byte_at-fill lo [] a n x source o small = refl
byte_at-fill lo (b ∷ bs) a n x source o small = elim (Bool-cases (covers b a n)) [
  | inl c ↦
      let (low, high) = covers_bounds b a n o.1 small c in
      elim (Bool-cases (contains b x)) [
        | inl held ↦
            rw (c, held) (byte_of_fill_block b.pages b.addr a n x source low (ground (arith, held)))
        | inr away ↦
            let outside : (leb a x && ltb x (a + n)) ≡ false = ground (arith, away) in
            rw (c, away) (ground (arith, outside))
      ]
  | inr c ↦ elim (Bool-cases (contains b x)) [
    | inl held ↦
        let outside : (spans bs a n && (leb a x && ltb x (a + n))) ≡ false =
          ground (arith, held, spans_above (stop b) bs a n o.2) in
        rw (c, held, outside)
    | inr away ↦ rw (c, away) (byte_at-fill (stop b) bs a n x source o.2 small)
  ]
]
