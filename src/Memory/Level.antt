-- ===== src/Memory/Level.antt =====
-- Levels 0 and 1 of a round of Memory::allocate in src/device/memory.h, with the index of the
-- round before.
use ventus_driver.Common.{ℕ, ◌<◌, ◌≡◌, ◌⊎◌, inl, inr, ◌≢◌, arith, ◌∙◌, sym, some, done, failed}
use native.Mathlib.Decide.{ℕ_discrete}
use ventus_driver.PhysicalMemory.{PhysicalMemory}
use ventus_driver.Memory.Tables.{Role, plain, IsInner, entry, IsValid, below, Tables, Grows-refl}
use ventus_driver.Memory.Tables.Link.{inner-ne-plain}
use ventus_driver.Memory.Descend.{Prepared, prepare-Prepared, read64-entry}
use ventus_driver.Memory.{slot, read64, prepare, descend, next, full}

descend_cached :
    (pm : PhysicalMemory) (t i last : ℕ)
    → i ≡ last
    → read64 pm (slot t i) ≡ some (entry pm t i)
    → descend pm t i last ≡ some (next (below pm t i) pm)
unfolding descend
descend_cached pm t i last e f = ground arith

descend_full :
    (pm : PhysicalMemory) (t i last : ℕ)
    → i ≢ last
    → prepare pm (slot t i) ≡ some (failed, pm)
    → descend pm t i last ≡ some (full pm)
unfolding descend
descend_full pm t i last h e = ground arith

descend_prepared :
    (pm pm' : PhysicalMemory) (t i last : ℕ)
    → i ≢ last
    → prepare pm (slot t i) ≡ some (done, pm')
    → read64 pm' (slot t i) ≡ some (entry pm' t i)
    → descend pm t i last ≡ some (next (below pm' t i) pm')
unfolding descend
descend_prepared pm pm' t i last h e f = ground arith

pub descend-Prepared :
    (role : ℕ → Role) (pm : PhysicalMemory) (ts : Tables role pm) (t i last : ℕ)
    (inner : IsInner (role t))
    → i < 512
    → (i ≡ last → IsValid (entry pm t i))
    → (descend pm t i last ≡ some (full pm))
      ⊎ ((pm' : PhysicalMemory) × (descend pm t i last ≡ some (next (below pm' t i) pm'))
          × Prepared role pm pm' t i)
descend-Prepared role pm ts t i last inner k cached = elim (ℕ_discrete i last) [
  | yes e ↦
      let v = cached e in
      inr (
        pm,
        descend_cached pm t i last e
            (read64-entry pm t i ts.well (ts.table t (inner-ne-plain (role t) inner)) k),
        record { role' = role; grows = Grows-refl role pm ts; valid = v; steady = λ r va e u. u },
      )
  | no h ↦ elim (prepare-Prepared role pm ts t i inner k) [
    | inl e ↦ inl (descend_full pm t i last h e)
    | inr (pm', e, q) ↦
        let here = inner-ne-plain (role t) inner in
        let there = λ (f : q.role' t ≡ plain). here (sym (q.grows.roles t here) ∙ f) in
        inr (
          pm',
          descend_prepared pm pm' t i last h e
              (read64-entry pm' t i q.grows.tables.well (q.grows.tables.table t there) k),
          q,
        )
  ]
]
