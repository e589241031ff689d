-- ===== src/PhysicalMemory/Search.antt =====
-- PhysicalMemory::usable of src/device/page.h: the first gap between blocks that is long enough.
use ventus_driver.Common.{
  ℕ, ◌+◌, ◌%◌, ◌^◌, ◌≤◌, ◌<◌, ◌≡◌, refl, ◌⊎◌, inl, inr, List, [], ◌∷◌, none, some, arith, All, ◌↔◌,
  subst, sym,
}
use native.Mathlib.Decide.{dec_le}
use ventus_driver.Sv39.{page_size}
use ventus_driver.Block.{Block, round_up, end}
use ventus_driver.PhysicalMemory.Order.{stop, Ordered, Clear}
use ventus_driver.PhysicalMemory.Invariant.{
  IsWellFormed, IsFrame, StartsReserved, EndsAt, EndsAt-limit,
}
use ventus_driver.PhysicalMemory.{PhysicalMemory, reserved_size, usable, usable_scan}

-- `n` addresses from `p` on.
abbrev pub range_of : ℕ → ℕ → Block
range_of p n = record { addr = p; size = n; pages = none }

-- Room for `n` bytes at `p`, from `lo` up.
abbrev pub IsGap : ℕ → ℕ → List Block → ℕ → ℕ → Type 0
IsGap lo max bs n p = (lo ≤ p) × (p + n ≤ max) × Clear (range_of p n) bs

-- What a search from `lo` up answers: 0 if there is no gap, otherwise the lowest one.
abbrev pub FirstGap : ℕ → ℕ → List Block → ℕ → ℕ → Type 0
FirstGap lo max bs n p =
    ((p ≡ 0) × ((q : ℕ) → ¬ IsGap lo max bs n q))
    ⊎ ((p % page_size ≡ 0) × IsGap lo max bs n p × ((q : ℕ) → IsGap lo max bs n q → p ≤ q))

module _ (max n : ℕ) (small : max < 2 ^ 62) (pos : 0 < n) (size_small : n < 2 ^ 62) where
  -- A range that ends before the first of ordered blocks is clear of all of them.
  Clear-before : (p lo : ℕ) (bs : List Block) → Ordered lo bs → p + n ≤ lo → Clear (range_of p n) bs
  Clear-before p lo [] o h = tt
  Clear-before p lo (b ∷ bs) o h = (inr (omega arith), Clear-before p (stop b) bs o.2 (omega arith))

  -- Past the last block there is no room.
  no-IsGap_past :
      (b : Block) → stop b ≡ max + page_size → (q : ℕ) → ¬ IsGap (stop b) max (b ∷ []) n q
  no-IsGap_past b e q g = omega arith

  module _ (lo : ℕ) (b c : Block) (bs : List Block) (o : Ordered lo (b ∷ c ∷ bs))
      (top : c.addr ≤ max) where
    within : end b ≡ stop b
    within = omega arith

    scan_fits :
        (candidate : ℕ)
        → candidate ≤ stop b
        → stop b + n ≤ c.addr
        → usable_scan max n (b ∷ c ∷ bs) candidate ≡ stop b
    unfolding usable_scan
    scan_fits candidate h fits = ground (arith, within)

    scan_tight :
        (candidate : ℕ)
        → candidate ≤ stop b
        → c.addr < stop b + n
        → usable_scan max n (b ∷ c ∷ bs) candidate ≡ usable_scan max n (c ∷ bs) (stop b)
    unfolding usable_scan
    scan_tight candidate h tight = ground (arith, within)

    gap_here :
        stop b + n ≤ c.addr → stop b % page_size ≡ 0 → FirstGap (stop b) max (b ∷ c ∷ bs) n (stop b)
    gap_here h aligned = inr (
      aligned,
      (
        omega arith,
        omega arith,
        (inl (omega arith), Clear-before (stop b) c.addr (c ∷ bs) (omega arith, o.2.1, o.2.2) h),
      ),
      λ q g. g.0,
    )

    IsGap-behind :
        c.addr < stop b + n
        → (q : ℕ) → IsGap (stop b) max (b ∷ c ∷ bs) n q ↔ IsGap (stop c) max (c ∷ bs) n q
    IsGap-behind h q = (
      λ g. (ground (arith, g.0, g.2.1.0), g.1, g.2.1),
      λ g. (omega arith, g.1, (inl (omega arith), g.2)),
    )

    gap_behind :
        c.addr < stop b + n
        → (p : ℕ) → FirstGap (stop c) max (c ∷ bs) n p
        → FirstGap (stop b) max (b ∷ c ∷ bs) n p
    gap_behind h p (inl (e, none_fits)) = inl (e, λ q g. none_fits q ((IsGap-behind h q).0 g))
    gap_behind h p (inr (aligned, g, least)) =
        inr (aligned, (IsGap-behind h p).1 g, λ q g'. least q ((IsGap-behind h q).0 g'))

  scan_FirstGap :
      (lo candidate : ℕ) (b : Block) (bs : List Block)
      → Ordered lo (b ∷ bs)
      → All IsFrame (b ∷ bs)
      → EndsAt max (b ∷ bs)
      → candidate ≤ stop b
      → FirstGap (stop b) max (b ∷ bs) n (usable_scan max n (b ∷ bs) candidate)
  unfolding usable_scan
  scan_FirstGap lo candidate b [] o f e h = inl (refl, no-IsGap_past b (omega arith))
  scan_FirstGap lo candidate b (c ∷ bs) o f e h =
      let top = EndsAt-limit max (stop b) c bs o.2 e in
      let aligned : stop b % page_size ≡ 0 = omega (arith, f.0) in
      elim (dec_le (stop b + n) c.addr) [
        | yes fits ↦
            subst (FirstGap (stop b) max (b ∷ c ∷ bs) n)
              (sym (scan_fits lo b c bs o top candidate h fits))
              (gap_here lo b c bs o top fits aligned)
        | no tight ↦
            subst (FirstGap (stop b) max (b ∷ c ∷ bs) n)
              (sym (scan_tight lo b c bs o top candidate h (omega arith)))
              (gap_behind lo b c bs o top (omega arith) _
                (scan_FirstGap (stop b) (stop b) c bs o.2 f.1 e (omega arith)))
      ]

usable_cons :
    (pm : PhysicalMemory) (size : ℕ) (b : Block) (bs : List Block)
    → pm.blocks ≡ b ∷ bs
    → usable pm size ≡ some (usable_scan pm.max_range (round_up size) (b ∷ bs) 0)
unfolding usable
usable_cons pm size b bs e = rw (e, usable)

-- On a well-formed memory and for a size from 1 to 2^56, `usable` is defined and answers 0 exactly if no gap above the reserved
-- part and below the limit has room for the size in whole pages; otherwise it answers the lowest
-- such address, which is a page's.
pub usable_lem :
    (pm : PhysicalMemory) (size : ℕ)
    → IsWellFormed pm
    → 0 < size
    → size ≤ 2 ^ 56
    → (p : ℕ) × (usable pm size ≡ some p)
      × FirstGap reserved_size pm.max_range pm.blocks (round_up size) p
usable_lem pm size w pos small = go pm.blocks refl
  where
    go :
        (bs : List Block)
        → pm.blocks ≡ bs
        → (p : ℕ) × (usable pm size ≡ some p)
          × FirstGap reserved_size pm.max_range pm.blocks (round_up size) p
    go [] e = absurd (subst StartsReserved e w.low)
    go (b ∷ bs) e =
        let max = pm.max_range in
        let n = round_up size in
        let order = subst (Ordered 0) e w.order in
        let low = subst StartsReserved e w.low in
        let first =
          scan_FirstGap max n (omega (arith, w.limit)) (omega arith) (omega arith) 0 0 b bs order
            (subst (All IsFrame) e w.frames) (subst (EndsAt max) e w.high) (omega arith) in
        (
          usable_scan max n (b ∷ bs) 0,
          usable_cons pm size b bs e,
          subst (λ l. FirstGap reserved_size max l n (usable_scan max n (b ∷ bs) 0)) (sym e)
              (subst (λ lo. FirstGap lo max (b ∷ bs) n (usable_scan max n (b ∷ bs) 0))
                (omega (arith, low)) first),
        )
