-- ===== src/PhysicalMemory/Remove.antt =====
-- PhysicalMemory::remove of src/device/page.h, and what it leaves of the iterator.
use ventus_driver.Common.{
  ℕ, suc, ◌+◌, ◌≤◌, ◌<◌, ◌≡◌, refl, ◌⊎◌, inl, inr, List, [], ◌∷◌, Option, none, some, arith,
  Bool-cases, All, get_elem?, erase_at, length-erase_at, Status, done, failed, tests, ap, sym,
  subst, ◌∙◌, All-get_elem?, ◌≢◌,
}
use native.Mathlib.Nat.{zero-add}
use ventus_driver.Block.{Block, contains, succeeds_pos}
use ventus_driver.PhysicalMemory.Order.{stop, Ordered, Ordered-erase_at}
use ventus_driver.PhysicalMemory.Invariant.{IsWellFormed, IsFrame}
use ventus_driver.PhysicalMemory.Erase.{
  Holds, held_once, StartsReserved-erase_at, EndsAt-erase_at, All-erase_at, PointsInto-erase,
  not_first, not_last,
}
use ventus_driver.PhysicalMemory.{
  PhysicalMemory, at, dangling, reserved_size, remove, remove_scan, cursor_after_erase, insert,
}

-- What a search for the block of an address answers, with the first position.
abbrev pub Finds : ℕ → List Block → ℕ → Option ℕ → Type 0
Finds addr bs start r =
    ((i : ℕ) × (b : Block) × (get_elem? bs i ≡ some b) × Holds addr b × (r ≡ some (start + i)))
    ⊎ (All (λ b. ¬ Holds addr b) bs × (r ≡ none))

not_held_past :
    (addr lo : ℕ) (bs : List Block) → Ordered lo bs → addr < lo → All (λ b. ¬ Holds addr b) bs
not_held_past addr lo [] o h = tt
not_held_past addr lo (b ∷ bs) o h =
    (λ held. omega arith, not_held_past addr (stop b) bs o.2 (omega arith))

remove_scan-Finds :
    (addr lo : ℕ) (bs : List Block) (start : ℕ)
    → Ordered lo bs
    → Finds addr bs start (remove_scan bs addr start)
unfolding remove_scan
remove_scan-Finds addr lo [] start o = inr (tt, refl)
remove_scan-Finds addr lo (b ∷ bs) start o = elim (Bool-cases (contains b addr)) [
  | inl here ↦ inl (0, b, refl, ground arith, ground arith)
  | inr elsewhere ↦ elim (Bool-cases (succeeds_pos b addr)) [
    | inl past ↦ inr (
      (λ held. absurd (omega tests), not_held_past addr (stop b) bs o.2 (ground arith)),
      rw (elsewhere, past),
    )
    | inr behind ↦ elim (remove_scan-Finds addr (stop b) bs (suc start) o.2) [
      | inl (i, c, e, h, r) ↦
          inl (suc i, c, e, h, rw (elsewhere, behind, r) (ap some (omega arith)))
      | inr (h, r) ↦ inr ((λ held. ground arith, h), rw (elsewhere, behind, r))
    ]
  ]
]

abbrev pub removed_at : PhysicalMemory → ℕ → Status × PhysicalMemory
removed_at pm i =
    (done, record pm { blocks = erase_at i pm.blocks; cursor = cursor_after_erase i pm.cursor })

-- On a well-formed memory the early exit of the search misses nothing: `remove` erases the block that
-- holds the address, and refuses exactly when there is none, with nothing changed.
pub remove_lem :
    (pm : PhysicalMemory) (addr : ℕ)
    → IsWellFormed pm
    → ((i : ℕ) × (b : Block) × (get_elem? pm.blocks i ≡ some b)
        × Holds addr b
        × (remove pm addr ≡ (
          done,
          record pm { blocks = erase_at i pm.blocks; cursor = cursor_after_erase i pm.cursor },
        )))
      ⊎ (All (λ b. ¬ Holds addr b) pm.blocks × (remove pm addr ≡ (failed, pm)))
unfolding remove
remove_lem pm addr w = elim (remove_scan-Finds addr 0 pm.blocks 0 w.order) [
  | inl (i, b, e, h, r) ↦ inl (i, b, e, h, rw (r, remove, zero-add))
  | inr (h, r) ↦ inr (h, rw (r, remove) refl)
]

-- The same, where the block is known.
pub remove_held :
    (pm : PhysicalMemory) (addr i : ℕ) {b : Block}
    → IsWellFormed pm
    → get_elem? pm.blocks i ≡ some b
    → Holds addr b
    → remove pm addr ≡ removed_at pm i
remove_held pm addr i w e h = elim (remove_lem pm addr w) [
  | inl (j, c, f, k, r) ↦
      subst (λ j. remove pm addr ≡ removed_at pm j) (held_once addr 0 pm.blocks j i w.order f e k h)
        r
  | inr (unheld, r) ↦ absurd (All-get_elem? (λ b. ¬ Holds addr b) pm.blocks i unheld e h)
]

cursor_erased : (i : ℕ) → cursor_after_erase i (at i) ≡ dangling
cursor_erased i = ground arith

insert_dangling : (pm : PhysicalMemory) (blk : Block) → pm.cursor ≡ dangling → insert pm blk ≡ none
unfolding insert
insert_dangling pm blk e = rw (e, insert)

-- On a well-formed memory, erasing the block that the iterator stands at leaves it dangling, after which no insertion has a
-- defined meaning.
pub remove_dangles :
    (pm : PhysicalMemory) (addr i : ℕ) (b : Block)
    → IsWellFormed pm
    → get_elem? pm.blocks i ≡ some b
    → Holds addr b
    → pm.cursor ≡ at i
    → ((remove pm addr).0 ≡ done) × ((blk : Block) → insert (remove pm addr).1 blk ≡ none)
remove_dangles pm addr i b w e h here =
    let erased = remove_held pm addr i w e h in
    (
      ap (λ (t : Status × PhysicalMemory). t.0) erased,
      λ blk.
          subst (λ (t : Status × PhysicalMemory). insert t.1 blk ≡ none) (sym erased)
            (insert_dangling (removed_at pm i).1 blk
              (ap (cursor_after_erase i) here ∙ cursor_erased i)),
    )

pub erased_IsWellFormed :
    (pm : PhysicalMemory) (addr i : ℕ) (b : Block)
    → IsWellFormed pm
    → reserved_size ≤ addr
    → addr < pm.max_range
    → get_elem? pm.blocks i ≡ some b
    → Holds addr b
    → pm.cursor ≢ at i
    → IsWellFormed (removed_at pm i).1
erased_IsWellFormed pm addr i b w low high e h apart =
    let below = not_last addr pm.max_range pm.blocks i w.high e (omega (arith, h)) in
    record {
      limit = w.limit;
      limit_pages = w.limit_pages;
      order = Ordered-erase_at 0 i pm.blocks w.order;
      low = StartsReserved-erase_at i pm.blocks (not_first addr pm.blocks i w.low e h low) w.low;
      high = EndsAt-erase_at pm.max_range i pm.blocks below w.high;
      frames = All-erase_at IsFrame i pm.blocks w.frames;
      points =
          PointsInto-erase _ _ i pm.cursor (length-erase_at i pm.blocks (omega arith)) (omega arith)
            apart w.points;
    }

-- On a well-formed memory, the removal at an address between the reserved blocks whose block the
-- iterator does not stand at leaves a well-formed memory.
pub remove-IsWellFormed :
    (pm : PhysicalMemory) (addr : ℕ)
    → IsWellFormed pm
    → reserved_size ≤ addr
    → addr < pm.max_range
    → ((i : ℕ) (b : Block) → get_elem? pm.blocks i ≡ some b → Holds addr b → pm.cursor ≢ at i)
    → IsWellFormed (remove pm addr).1
remove-IsWellFormed pm addr w low high apart = elim (remove_lem pm addr w) [
  | inl (i, b, e, h, r) ↦
      subst (λ (t : Status × PhysicalMemory). IsWellFormed t.1) (sym r)
        (erased_IsWellFormed pm addr i b w low high e h (apart i b e h))
  | inr (unheld, r) ↦ subst (λ (t : Status × PhysicalMemory). IsWellFormed t.1) (sym r) w
]
