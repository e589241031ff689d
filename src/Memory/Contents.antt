-- ===== src/Memory/Contents.antt =====
-- What a write to a page of data leaves of the tables in src/device/memory.h.
use ventus_driver.Common.{
  ℕ, ◌+◌, ◌*◌, ◌%◌, ◌^◌, ◌≤◌, ◌<◌, ◌≡◌, ◌≢◌, refl, ◌⊎◌, false, ◌&&◌, arith, ap, ◌∙◌, sym, subst,
  leb, ltb,
}
use ventus_driver.Sv39.{page_size, va_extract, pte_to_pa}
use ventus_driver.Sv39.Fields.{va_extract-lt}
use ventus_driver.Block.Bytes.{Buffer, from_bytes_ext}
use ventus_driver.PhysicalMemory.{PhysicalMemory}
use ventus_driver.PhysicalMemory.Invariant.{IsWellFormed}
use ventus_driver.PhysicalMemory.Words.{word, backed}
use ventus_driver.PhysicalMemory.Data.Ranges.{byte_at, spans, fill, byte_at-fill}
use ventus_driver.PhysicalMemory.Data.Shape.{fill-Alike, backed_at-Alike, peek-byte_at}
use ventus_driver.PhysicalMemory.Data.Arrays.{filled, filled-IsWellFormed}
use ventus_driver.Memory.Tables.{
  Role, top, plain, IsInner, entry, IsValid, Tables, table1, table2, leaf, Mapped,
}
use ventus_driver.Memory.Tables.Walks.{table1_role, table2_role}

-- A word away from what is written.
word-filled :
    (pm : PhysicalMemory) (a n x : ℕ) (source : Buffer)
    → IsWellFormed pm
    → a + n < 2 ^ 64
    → x % 8 ≡ 0
    → (x + 8 ≤ a) ⊎ (a + n ≤ x)
    → word (filled pm a n source) x ≡ word pm x
word-filled pm a n x source w small al away =
    let w' = filled-IsWellFormed pm w a n small source in
    peek-byte_at 0 (fill pm.blocks a n source) x w'.order w'.frames al
    ∙ from_bytes_ext 8 (λ j. byte_at (fill pm.blocks a n source) (x + j))
        (λ j. byte_at pm.blocks (x + j))
        (λ j near.
          let outside : (spans pm.blocks a n && (leb a (x + j) && ltb (x + j) (a + n))) ≡ false =
            ground (arith, away, near) in
          byte_at-fill 0 pm.blocks a n (x + j) source w.order small ∙ rw outside refl)
    ∙ sym (peek-byte_at 0 pm.blocks x w.order w.frames al)

-- A write of `n` bytes at `a`, in a page of data.
pub record InPage (role : ℕ → Role) (pa a n : ℕ) : Type 0 where
  pub aligned : pa % page_size ≡ 0
  pub data_page : role pa ≡ plain
  pub low : pa ≤ a
  pub high : a + n ≤ pa + page_size
  pub small : pa < 2 ^ 56

module _ {role : ℕ → Role} {pm : PhysicalMemory} (ts : Tables role pm) (pa a n : ℕ)
    (p : InPage role pa a n) (source : Buffer) where
  abbrev pm' : PhysicalMemory
  pm' = filled pm a n source

  fits : a + n < 2 ^ 64
  fits = omega (arith, p.high, p.small)

  entry-filled : (t i : ℕ) → role t ≢ plain → i < 512 → entry pm' t i ≡ entry pm t i
  entry-filled t i h l =
      let table = ts.table t h in
      let other : t ≢ pa = λ e. h (ap role e ∙ p.data_page) in
      word-filled pm a n (t + i * 8) source ts.well fits (omega (arith, table.aligned))
        (omega (arith, table.aligned, p.aligned, p.low, p.high, other))

  backed-filled : (x : ℕ) → backed pm' x ≡ backed pm x
  backed-filled x =
      backed_at-Alike pm.blocks (fill pm.blocks a n source) x (fill-Alike pm.blocks a n source)

  -- A write to a page of data keeps the tables.
  pub Tables-filled : Tables role pm'
  Tables-filled = record {
    well = filled-IsWellFormed pm ts.well a n fits source;
    table = λ t h.
        let table = ts.table t h in
        record {
          aligned = table.aligned;
          positive = table.positive;
          in_range = table.in_range;
          backs = λ i l. backed-filled (t + i * 8) ∙ table.backs i l;
        };
    links = λ t i inner l v.
        let e = entry-filled t i (λ f. subst IsInner f inner) l in
        ap role (ap pte_to_pa e) ∙ ts.links t i inner l (subst IsValid e v);
  }

  module _ (root v : ℕ) (is_root : role root ≡ top) (m : Mapped pm root v pa) where
    same0 : entry pm' root (va_extract v 0) ≡ entry pm root (va_extract v 0)
    same0 = entry-filled root (va_extract v 0) (λ f. absurd (cc)) (va_extract-lt v 0)

    same1 :
        entry pm' (table1 pm' root v) (va_extract v 1)
        ≡ entry pm (table1 pm root v) (va_extract v 1)
    same1 =
        let e = table1_role ts root v is_root m.valid0 in
        ap (λ t. entry pm' t (va_extract v 1)) (ap pte_to_pa same0)
        ∙ entry-filled (table1 pm root v) (va_extract v 1) (λ f. absurd (cc)) (va_extract-lt v 1)

    same2 : leaf pm' root v ≡ leaf pm root v
    same2 =
        let e = table2_role ts root v is_root m.valid0 m.valid1 in
        ap (λ t. entry pm' t (va_extract v 2)) (ap pte_to_pa same1)
        ∙ entry-filled (table2 pm root v) (va_extract v 2) (λ f. absurd (cc)) (va_extract-lt v 2)

    -- So does an address that leads to the page.
    pub Mapped-filled : Mapped pm' root v pa
    Mapped-filled = record {
      valid0 = subst IsValid (sym same0) m.valid0;
      valid1 = subst IsValid (sym same1) m.valid1;
      valid2 = subst IsValid (sym same2) m.valid2;
      page = ap pte_to_pa same2 ∙ m.page;
    }
