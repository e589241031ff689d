-- ===== src/PhysicalMemory/Insert.antt =====
-- PhysicalMemory::insert of src/device/page.h, from whatever position the iterator has.
use ventus_driver.Common.{
  ℕ, zero, suc, ◌+◌, ◌-◌, ◌≤◌, ◌<◌, ◌≡◌, subst, true, false, List, [], ◌∷◌, some, arith, length,
  get_elem?, drop, insert_at, get_elem?_total, done,
}
use native.Mathlib.Decide.{dec_le}
use ventus_driver.Block.{Block, precedes, succeeds}
use ventus_driver.PhysicalMemory.Order.{
  stop, IsRange, Ordered, Clear, rank, precedes_below_rank, succeeds_from_rank,
}
use ventus_driver.PhysicalMemory.{PhysicalMemory, at, found, scan_down, scan_up, insert}

module _ (blk : Block) (range : IsRange blk) where
  not_both : (b : Block) → IsRange b → succeeds b blk ≡ true → precedes b blk ≡ false
  not_both b r h = ground arith

  not_both' : (b : Block) → IsRange b → precedes b blk ≡ true → succeeds b blk ≡ false
  not_both' b r h = ground arith

  Ordered-IsRange :
      (lo : ℕ) (bs : List Block) (i : ℕ) {b : Block}
      → Ordered lo bs
      → get_elem? bs i ≡ some b
      → IsRange b
  Ordered-IsRange lo [] i o e = absurd (cc)
  Ordered-IsRange lo (b ∷ bs) zero o e = ground (arith, o.1)
  Ordered-IsRange lo (b ∷ bs) (suc i) o e = Ordered-IsRange (stop b) bs i o.2 e

  scan_down_lem :
      (lo : ℕ) (bs : List Block) (i : ℕ)
      → Ordered lo bs
      → Clear blk bs
      → 0 < rank blk bs
      → rank blk bs ≤ i
      → i ≤ length bs
      → scan_down bs blk i ≡ found (rank blk bs - 1)
  unfolding scan_down
  scan_down_lem lo bs zero o c pos h l = absurd (omega arith)
  scan_down_lem lo bs (suc i) o c pos h l =
      let (b, e) = get_elem?_total i bs (omega arith) in
      ground (
        arith,
        e,
        scan_down_lem lo bs i o c pos,
        precedes_below_rank blk range bs i e,
        succeeds_from_rank blk range lo bs i o c e,
        not_both b (Ordered-IsRange lo bs i o e),
      )

  scan_up_lem :
      (lo : ℕ) (bs : List Block) (k i : ℕ)
      → Ordered lo bs
      → Clear blk bs
      → k ≤ rank blk bs
      → rank blk bs < length bs
      → scan_up (drop k bs) blk i ≡ found (i + (rank blk bs - k))
  unfolding scan_up rank
  scan_up_lem lo [] k i o c h l = absurd (omega arith)
  scan_up_lem lo (b ∷ bs) zero i o c h l =
      ground (arith, c.0, scan_up_lem (stop b) bs zero (suc i) o.2 c.1, not_both b o.1)
  scan_up_lem lo (b ∷ bs) (suc k) i o c h l = ground (arith, scan_up_lem (stop b) bs k i o.2 c.1)

abbrev placed : PhysicalMemory → Block → ℕ → ℕ → PhysicalMemory
placed pm blk j k = record pm { blocks = insert_at j blk pm.blocks; cursor = at k }

module _ (pm : PhysicalMemory) (blk : Block) (i : ℕ) (here : pm.cursor ≡ at i) (b : Block)
    (e : get_elem? pm.blocks i ≡ some b) where
  insert_downwards :
      (j r : ℕ)
      → succeeds b blk ≡ true
      → scan_down pm.blocks blk i ≡ found j
      → suc j ≡ r
      → insert pm blk ≡ some (done, placed pm blk r j)
  unfolding insert
  insert_downwards j r s f q =
      subst (λ r. insert pm blk ≡ some (done, placed pm blk r j)) q (ground arith)

  insert_upwards :
      (j r : ℕ)
      → precedes b blk ≡ true
      → succeeds b blk ≡ false
      → scan_up (drop (suc i) pm.blocks) blk (suc i) ≡ found j
      → j ≡ r
      → insert pm blk ≡ some (done, placed pm blk r (suc r))
  unfolding insert
  insert_upwards j r p s f q =
      subst (λ r. insert pm blk ≡ some (done, placed pm blk r (suc r))) q (ground arith)

-- On ordered blocks, with an iterator at one of them, a block that is not empty, does not reach
-- 2^64 and shares no address with the others, above the first and below the last of them, is
-- inserted at its place in the order: nothing else moves, and the iterator is in the list or at its
-- end.
pub insert_lem :
    (pm : PhysicalMemory) (blk : Block) (i : ℕ)
    → pm.cursor ≡ at i
    → i < length pm.blocks
    → Ordered 0 pm.blocks
    → IsRange blk
    → Clear blk pm.blocks
    → 0 < rank blk pm.blocks
    → rank blk pm.blocks < length pm.blocks
    → (k : ℕ) × (insert pm blk
        ≡ some (
          done,
          record pm { blocks = insert_at (rank blk pm.blocks) blk pm.blocks; cursor = at k },
        ))
      × (k ≤ length pm.blocks)
insert_lem pm blk i here inside o range c pos l =
    let (b, e) = get_elem?_total i pm.blocks inside in
    elim (dec_le (rank blk pm.blocks) i) [
      | yes below ↦ (
        rank blk pm.blocks - 1,
        insert_downwards pm blk i here b e _ _
            (succeeds_from_rank blk range 0 pm.blocks i o c e below)
            (scan_down_lem blk range 0 pm.blocks i o c pos below (omega arith)) (omega arith),
        omega arith,
      )
      | no above ↦
          let first = precedes_below_rank blk range pm.blocks i e (omega arith) in
          (
            suc (rank blk pm.blocks),
            insert_upwards pm blk i here b e _ _ first
                (not_both' blk range b (Ordered-IsRange blk range 0 pm.blocks i o e) first)
                (scan_up_lem blk range 0 pm.blocks (suc i) (suc i) o c (omega arith) l)
                (omega arith),
            omega arith,
          )
    ]
