-- ===== src/Memory/Descend.antt =====
-- Levels 0 and 1 of a round of Memory::allocate in src/device/memory.h.
use ventus_driver.Common.{
  ℕ, ◌+◌, ◌*◌, ◌%◌, ◌<◌, ◌≡◌, refl, ◌⊎◌, inl, inr, ◌≢◌, arith, ap, ◌∙◌, sym, true, some, ◌==◌,
  if◌then◌else◌, bit_and, done, failed,
}
use mathlib.Core.Bool.{false≢true}
use native.Mathlib.Decide.{ℕ_discrete}
use ventus_driver.Common.Bits.{bit_and_ones}
use ventus_driver.Sv39.{page_size, pte_to_pa, set_pte, flag_v}
use ventus_driver.Sv39.RoundTrip.{pte_to_pa-set_pte, set_pte_valid, set_pte-lt}
use ventus_driver.Block.{create}
use ventus_driver.PhysicalMemory.{PhysicalMemory, insert, usable}
use ventus_driver.PhysicalMemory.Invariant.{IsWellFormed}
use ventus_driver.PhysicalMemory.Words.{
  word, backed, poked, IsWordAddr, read_value-word, write_value-poked, poked-IsWellFormed,
  word-poked, backed-poked, IsFresh, usable-IsFresh,
}
use ventus_driver.Memory.Tables.{
  Role, top, plain, middle, bottom, IsInner, child, entry, IsValid, IsTable, Tables, Unmapped,
  Grows, Grows-refl,
}
use ventus_driver.Memory.Tables.Link.{Links, link-Grows, assign, inner-ne-plain}
use ventus_driver.Memory.Tables.Walks.{Unmapped-link}
use ventus_driver.Memory.{slot, read64, write64, make_table, prepare}

pub IsTable-word : {pm : PhysicalMemory} (t i : ℕ) → IsTable pm t → i < 512 → IsWordAddr (t + i * 8)
IsTable-word t i h k = omega (arith, h.aligned, h.in_range)

pub slot_lem : {pm : PhysicalMemory} (t i : ℕ) → IsTable pm t → i < 512 → slot t i ≡ t + i * 8
slot_lem t i h k = omega (arith, h.in_range)

pub valid_bit : (pte : ℕ) → bit_and pte flag_v ≡ pte % 2
valid_bit pte = bit_and_ones 1 pte

pub read64-entry :
    (pm : PhysicalMemory) (t i : ℕ)
    → IsWellFormed pm
    → IsTable pm t
    → i < 512
    → read64 pm (slot t i) ≡ some (entry pm t i)
read64-entry pm t i w h k =
    ap (read64 pm) (slot_lem t i h k) ∙ read_value-word pm w (t + i * 8) (IsTable-word t i h k)

pub plain_or : (r : Role) → (r ≡ plain) ⊎ (r ≢ plain)
plain_or top = inr (λ e. cc)
plain_or plain = inl refl
plain_or (middle r i) = inr (λ e. cc)
plain_or (bottom r i j) = inr (λ e. cc)

-- What a call of `prepare` for entry `i` of table `t` may come to.
pub record Prepared (role : ℕ → Role) (pm pm' : PhysicalMemory) (t i : ℕ) : Type 0 where
  pub role' : ℕ → Role
  pub grows : Grows role pm role' pm'
  pub valid : IsValid (entry pm' t i)
  pub steady : (r va : ℕ) → role r ≡ top → Unmapped pm r va → Unmapped pm' r va

module _ (role : ℕ → Role) (pm : PhysicalMemory) (ts : Tables role pm) (t i : ℕ)
    (inner : IsInner (role t)) (k : i < 512) where
  table : IsTable pm t
  table = ts.table t (inner-ne-plain (role t) inner)

  prepare_valid : IsValid (entry pm t i) → prepare pm (slot t i) ≡ some (done, pm)
  unfolding prepare
  prepare_valid v = ground (arith, read64-entry pm t i ts.well table k, valid_bit (entry pm t i))

  prepare_invalid : entry pm t i % 2 ≡ 0 → prepare pm (slot t i) ≡ make_table pm (slot t i)
  unfolding prepare
  prepare_invalid v = ground (arith, read64-entry pm t i ts.well table k, valid_bit (entry pm t i))

  make_table_full :
      (p : ℕ) → usable pm page_size ≡ some p → p ≡ 0 → make_table pm (slot t i) ≡ some (failed, pm)
  unfolding make_table
  make_table_full p e z = ground arith

  module _ (p : ℕ) (pm1 : PhysicalMemory) (fresh : IsFresh pm pm1 p page_size)
      (z : entry pm t i % 2 ≡ 0) where
    abbrev linked_pm : PhysicalMemory
    linked_pm = poked pm1 (t + i * 8) (set_pte p flag_v)

    written :
        (x : ℕ)
        → x % 8 ≡ 0
        → word linked_pm x ≡ (if x == t + i * 8 then set_pte p flag_v else word pm x)
    written x al =
        let kept = fresh.same_words x in
        let old = fresh.more_backed (t + i * 8) (table.backs i k) in
        ground (
          arith,
          kept,
          old,
          word-poked pm1 fresh.well (t + i * 8) (IsTable-word t i table k) (set_pte p flag_v) x
              (set_pte-lt p flag_v (omega arith)) al,
        )

    make_table_fresh :
        usable pm page_size ≡ some p
        → insert pm (create p page_size true) ≡ some (done, pm1)
        → make_table pm (slot t i) ≡ some (done, linked_pm)
    unfolding make_table
    make_table_fresh e inserted =
        let stored =
          ap (λ a. write64 pm1 a (set_pte p flag_v)) (slot_lem t i table k)
          ∙ write_value-poked pm1 fresh.well (t + i * 8) (IsTable-word t i table k)
              (set_pte p flag_v) in
        ground (arith, e, inserted, stored, fresh.positive)

    link_word : entry linked_pm t i ≡ set_pte p flag_v
    link_word = ground (arith, written (t + i * 8) (IsTable-word t i table k).0)

    link_bit : set_pte p flag_v % 2 ≡ 1
    link_bit = omega (arith, set_pte_valid p flag_v (omega arith), valid_bit (set_pte p flag_v))

    link_page : pte_to_pa (set_pte p flag_v) ≡ p
    link_page = omega (
      arith,
      pte_to_pa-set_pte p flag_v (omega (arith, fresh.in_range)) (omega arith),
      fresh.aligned,
    )

    backed_linked : (a : ℕ) → backed pm a ≡ true → backed linked_pm a ≡ true
    backed_linked a h =
        backed-poked pm1 fresh.well (t + i * 8) (IsTable-word t i table k) (set_pte p flag_v) a
        ∙ fresh.more_backed a h

    fresh_backs : (j : ℕ) → j < 512 → backed linked_pm (p + j * 8) ≡ true
    fresh_backs j h =
        backed-poked pm1 fresh.well (t + i * 8) (IsTable-word t i table k) (set_pte p flag_v)
          (p + j * 8)
        ∙ fresh.block_backed (p + j * 8) (omega arith) (omega arith)

    fresh_unused : role p ≡ plain
    fresh_unused = elim (plain_or (role p)) [
      | inl e ↦ e
      | inr h ↦
          let held = (ts.table p h).backs 0 (omega arith) in
          absurd (false≢true (sym (fresh.was_free (p + 0 * 8) (omega arith) (omega arith)) ∙ held))
    ]

    make_Links : Links role pm linked_pm t i p
    make_Links = record {
      tables = ts;
      inner = inner;
      index = k;
      invalid = z;
      well =
          poked-IsWellFormed pm1 fresh.well (t + i * 8) (IsTable-word t i table k)
            (set_pte p flag_v);
      more_backed = backed_linked;
      fresh = record {
        aligned = fresh.aligned;
        positive = fresh.positive;
        in_range = omega (arith, fresh.in_range);
        backs = λ j h. fresh_backs j h;
      };
      unused = fresh_unused;
      was_free = fresh.was_free p (omega arith) (omega arith);
      zeroed = λ j h. fresh.was_zero (p + j * 8) (omega arith) (omega arith);
      linked = omega (arith, link_word, link_bit);
      names = ap pte_to_pa link_word ∙ link_page;
      others = λ a al apart. ground (arith, written a al);
    }

  -- `prepare` either finds no page and changes nothing, or makes the entry valid.
  pub prepare-Prepared :
      (prepare pm (slot t i) ≡ some (failed, pm))
      ⊎ ((pm' : PhysicalMemory) × (prepare pm (slot t i) ≡ some (done, pm'))
          × Prepared role pm pm' t i)
  prepare-Prepared = elim (ℕ_discrete (entry pm t i % 2) 1) [
    | yes v ↦ inr (
      pm,
      prepare_valid v,
      record { role' = role; grows = Grows-refl role pm ts; valid = v; steady = λ r va e u. u },
    )
    | no h ↦
        let z : entry pm t i % 2 ≡ 0 = omega arith in
        let (p, e, room) = usable-IsFresh pm page_size ts.well (omega arith) (omega arith) in
        elim room [
          | inl none_left ↦ inl (prepare_invalid z ∙ make_table_full p e none_left)
          | inr (pm1, inserted, fresh) ↦
              let l = make_Links p pm1 fresh z in
              inr (
                linked_pm p pm1 fresh z,
                prepare_invalid z ∙ make_table_fresh p pm1 fresh z e inserted,
                record {
                  role' = assign role p (child (role t) t i);
                  grows = link-Grows l;
                  valid = l.linked;
                  steady = Unmapped-link l;
                },
              )
        ]
  ]
