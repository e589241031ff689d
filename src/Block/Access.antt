-- ===== src/Block/Access.antt =====
-- What Block::write and Block::read of src/device/page.h do to the bytes.
use ventus_driver.Common.{
  ℕ, ◌+◌, ◌-◌, ◌^◌, ◌<◌, ◌≤◌, ◌≡◌, refl, arith, some, ltb, ◌⊎◌, inl, inr, Bool-cases, ap, ◌∙◌,
  Status, done, failed, u64, sub64, min, le→ltb,
}
use mathlib.Core.Path.{fun_ext}
use ventus_driver.Block.Bytes.{Buffer, splice}
use ventus_driver.Block.{Block, Page, write, read}

-- The pages of a block reach to its end, which lies within 64 bits.
pub record IsBacked (b : Block) (p : Page) : Type 0 where
  pub holds : b.pages ≡ some p
  pub reaches : b.size ≤ p.capacity
  pub fits : b.addr + b.size < 2 ^ 64

-- A write of `n` bytes at `base`, by its effect.
abbrev pub written : Block → Page → ℕ → ℕ → Buffer → Block
written b p base n source = record b {
  pages = some (record p { bytes = splice p.bytes base n source });
}

module _ (b : Block) (p : Page) (backed : IsBacked b p) (base n : ℕ)
    (inside : base + n ≤ b.size) where
  amount : min n (sub64 b.size base) ≡ n
  amount = omega arith

  pub write_inside :
      (source : Buffer) → write b base n source ≡ some (done, written b p base n source)
  unfolding write
  write_inside source = ground (arith, backed.holds, backed.reaches, backed.fits)

  pub read_inside :
      (out : Buffer) → read b base n out ≡ some (done, splice out 0 n (λ i. p.bytes (base + i)))
  unfolding read
  read_inside out =
      rw (le→ltb b.size (u64 (base + n)) (omega arith), amount)
        (ground (arith, backed.holds, backed.reaches, backed.fits))

-- Whatever the length, also where the sum of base and length wraps past 64 bits, a write at a
-- base inside a backed block is defined, keeps the block's range and its array, and changes no
-- byte outside `base` up to the block's size.
pub write_safe :
    (b : Block) (p : Page)
    → IsBacked b p
    → (base length : ℕ) (source : Buffer) → base ≤ b.size
    → length < 2 ^ 64
    → (s : Status) × (b' : Block) × (p' : Page) × (write b base length source ≡ some (s, b'))
      × IsBacked b' p'
      × (b'.addr ≡ b.addr)
      × (b'.size ≡ b.size)
      × (p'.capacity ≡ p.capacity)
      × ((i : ℕ) → (i < base) ⊎ (b.size ≤ i) → p'.bytes i ≡ p.bytes i)
unfolding write
write_safe b p backed base length source inside range =
    elim (Bool-cases (ltb b.size (u64 (base + length)))) [
      | inl refused ↦ (failed, b, p, rw (refused, write), backed, refl, refl, refl, λ i h. refl)
      | inr accepted ↦ (
        done,
        written b p base (min length (b.size - base)) source,
        record p { bytes = splice p.bytes base (min length (b.size - base)) source },
        ground (arith, backed.holds, backed.reaches, backed.fits),
        record { holds = refl; reaches = backed.reaches; fits = backed.fits },
        refl,
        refl,
        refl,
        λ i h. ground arith,
      )
    ]

-- Bytes written inside a backed block are read back, and what the read does not cover of the
-- output buffer stays.
pub read-write :
    (b : Block) (p : Page)
    → IsBacked b p
    → (base n : ℕ) (source out : Buffer) → base + n ≤ b.size
    → (b' : Block) × (write b base n source ≡ some (done, b'))
      × (read b' base n out ≡ some (done, splice out 0 n source))
read-write b p backed base n source out inside =
    (written b p base n source, write_inside b p backed base n inside source, answer)
  where
    after : IsBacked (written b p base n source) (record p { bytes = splice p.bytes base n source })
    after = record { holds = refl; reaches = backed.reaches; fits = backed.fits }

    same : splice out 0 n (λ i. splice p.bytes base n source (base + i)) ≡ splice out 0 n source
    same = fun_ext λ i. ground arith

    answer : read (written b p base n source) base n out ≡ some (done, splice out 0 n source)
    answer =
        read_inside (written b p base n source) _ after base n inside out
        ∙ ap (λ f. some (done, f)) same
