-- ===== src/Memory/Allocate.antt =====
-- The loop of Memory::allocate in src/device/memory.h, page after page.
use ventus_driver.Common.{
  ℕ, zero, suc, ◌+◌, ◌*◌, ◌%◌, ◌^◌, ◌<◌, ◌≤◌, ◌≡◌, refl, ◌⊎◌, inl, inr, ◌≢◌, arith, ap, ◌∙◌, sym,
  subst, Bool, true, false, some, u64,
}
use mathlib.Core.Path.{subst₂}
use native.Mathlib.Nat.{add_assoc}
use ventus_driver.Sv39.{page_size, va_extract}
use ventus_driver.Sv39.Fields.{
  va_extract-lt, va_extract-zero, va_extract-one, va_extract_two, va_extract_digits,
}
use ventus_driver.PhysicalMemory.{PhysicalMemory}
use ventus_driver.Memory.Tables.{
  Role, top, plain, entry, IsValid, Tables, table1, below, Mapped, Unmapped, Grows, Grows-refl,
  Grows-trans,
}
use ventus_driver.Memory.Tables.Walks.{Mapped-Grows}
use ventus_driver.Memory.Tables.Leaf.{SamePage}
use ventus_driver.Memory.Round.{CacheFits, Rounded, allocate_round-Rounded}
use ventus_driver.Memory.{allocate_round, allocate_loop, Indices, unset, indices_of}

-- Pages of the 39-bit space that have the same indices are the same.
pub SamePage-eq :
    (va u : ℕ)
    → va % page_size ≡ 0
    → u % page_size ≡ 0
    → va < 2 ^ 39
    → u < 2 ^ 39
    → SamePage va u
    → va ≡ u
SamePage-eq va u al al' h k (e0, e1, e2) =
    omega (arith, va_extract_digits va, va_extract_digits u, e0, e1, e2)

pub unset-CacheFits : (pm : PhysicalMemory) (root va : ℕ) → CacheFits pm root va unset
unset-CacheFits pm root va = record {
  fits0 = λ e. absurd (omega (arith, va_extract-lt va 0, e));
  fits1 = λ e. absurd (omega (arith, va_extract-lt va 1, e));
  fits2 = λ e. omega (arith, va_extract-lt va 2, e);
}

-- A page with the level-1 index of the page before has its level-0 index too.
next_first :
    (va : ℕ)
    → va_extract (va + page_size) 1 ≡ va_extract va 1
    → va_extract (va + page_size) 0 ≡ va_extract va 0
next_first va e = omega (
  arith,
  e,
  va_extract-one va,
  va_extract-one (va + page_size),
  va_extract-zero va,
  va_extract-zero (va + page_size),
)

next-CacheFits :
    (pm : PhysicalMemory) (root va target : ℕ)
    → Mapped pm root va target
    → CacheFits pm root (va + page_size) (indices_of va)
next-CacheFits pm root va target m = record {
  fits0 = λ e. subst (λ i. IsValid (entry pm root i)) (sym e) m.valid0;
  fits1 = λ e.
      let f = next_first va e in
      (
        subst (λ i. IsValid (entry pm root i)) (sym f) m.valid0,
        subst (λ i. IsValid (entry pm (table1 pm root (va + page_size)) i)) (sym e)
            (subst (λ i. IsValid (entry pm (below pm root i) (va_extract va 1))) (sym f) m.valid1),
      );
  fits2 = λ e. omega (arith, e, va_extract_two va, va_extract_two (va + page_size));
}

-- What a page of the range is mapped to in the end: where it was unmapped before, the page of the
-- new block at the same distance.
abbrev pub MapsPage : PhysicalMemory → PhysicalMemory → ℕ → ℕ → ℕ → Type 0
MapsPage pm pm' root va pa =
    (target : ℕ) × Mapped pm' root va target × (Unmapped pm root va → target ≡ pa)

pub record Looped (role : ℕ → Role) (pm pm' : PhysicalMemory) (root va pa rounds p r : ℕ)
    : Type 0 where
  pub role' : ℕ → Role
  pub grows : Grows role pm role' pm'
  pub apart :
      (t u : ℕ)
      → role t ≡ top
      → (t ≢ root) ⊎ ((j : ℕ) → j < rounds → ¬ SamePage (va + j * page_size) u)
      → Unmapped pm t u
      → Unmapped pm' t u
  pub success :
      (r ≡ 0)
      ⊎ ((r ≡ p)
          × ((j : ℕ) → j < rounds → MapsPage pm pm' root (va + j * page_size) (pa + j * page_size)))

MapsPage-at :
    {pm pm' : PhysicalMemory} {root va pa : ℕ} (va' pa' : ℕ)
    → va ≡ va'
    → pa ≡ pa'
    → MapsPage pm pm' root va pa
    → MapsPage pm pm' root va' pa'
MapsPage-at {pm} {pm'} {root} va' pa' e f m = subst₂ (MapsPage pm pm' root) e f m

pub top-ne-plain : {r : Role} → r ≡ top → r ≢ plain
top-ne-plain e f = cc

loop_done :
    (pm : PhysicalMemory) (root v p iter : ℕ) (last : Indices)
    → allocate_loop 0 pm root v p iter last ≡ some (p, pm)
unfolding allocate_loop
loop_done pm root v p iter last = refl

module _ (rounds : ℕ) (role : ℕ → Role) (pm pm1 : PhysicalMemory) (root v p iter : ℕ)
    (last : Indices) (is_root : role root ≡ top) (al : v % page_size ≡ 0)
    (al₂ : iter % page_size ≡ 0) (h : v + iter + suc rounds * page_size ≤ 2 ^ 39)
    (k : p + iter + suc rounds * page_size ≤ 2 ^ 56) where
  loop_stops :
      allocate_round pm root (v + iter) (p + iter) last ≡ some (false, pm1)
      → allocate_loop (suc rounds) pm root v p iter last ≡ some (0, pm1)
  unfolding allocate_loop
  loop_stops e =
      let in_range : u64 (v + iter) ≡ v + iter = omega arith in
      let in_range' : u64 (p + iter) ≡ p + iter = omega arith in rw (in_range, in_range', e)

  loop_goes_on :
      allocate_round pm root (v + iter) (p + iter) last ≡ some (true, pm1)
      → allocate_loop (suc rounds) pm root v p iter last
        ≡ allocate_loop rounds pm1 root v p (iter + page_size) (indices_of (v + iter))
  unfolding allocate_loop
  loop_goes_on e =
      let in_range : u64 (v + iter) ≡ v + iter = omega arith in
      let in_range' : u64 (p + iter) ≡ p + iter = omega arith in
      rw (in_range, in_range', e)
        (ap (λ x. allocate_loop rounds pm1 root v p (iter + page_size) (indices_of x)) in_range)

  module _ (q : Rounded role pm pm1 root (v + iter) (p + iter) true) (pm2 : PhysicalMemory) (r : ℕ)
      (ih : Looped q.role' pm1 pm2 root
        (v + (iter + page_size))
        (p + (iter + page_size))
        rounds
        p
        r) where
    top1 : (t : ℕ) → role t ≡ top → q.role' t ≡ top
    top1 t e = q.grows.roles t (top-ne-plain e) ∙ e

    page_of_round : MapsPage pm pm2 root (v + iter) (p + iter)
    page_of_round =
        let (target, m, want) = q.success refl in
        (
          target,
          Mapped-Grows q.grows.tables ih.grows root (v + iter) target (top1 root is_root) m,
          want,
        )

    later_page :
        (j : ℕ)
        → j < rounds
        → MapsPage pm1 pm2 root
            (v + (iter + page_size) + j * page_size)
            (p + (iter + page_size) + j * page_size)
        → MapsPage pm pm2 root
            (v + (iter + page_size) + j * page_size)
            (p + (iter + page_size) + j * page_size)
    later_page j l (target, m, want) =
        let u = v + (iter + page_size) + j * page_size in
        let differs = λ (e : SamePage (v + iter) u). absurd (
          omega (
            arith,
            SamePage-eq (v + iter) u (omega arith) (omega arith) (omega arith) (omega arith) e,
          )) in
        (target, m, λ un. want (q.apart root u is_root (inr differs) un))

    all_pages :
        ((j : ℕ)
          → j < rounds
          → MapsPage pm1 pm2 root
              (v + (iter + page_size) + j * page_size)
              (p + (iter + page_size) + j * page_size))
        → (j : ℕ) → j < suc rounds
        → MapsPage pm pm2 root (v + iter + j * page_size) (p + iter + j * page_size)
    all_pages f zero l = MapsPage-at _ _ (omega arith) (omega arith) page_of_round
    all_pages f (suc j) l =
        MapsPage-at _ _ (omega arith) (omega arith) (later_page j (omega arith) (f j (omega arith)))

    others_apart :
        (t u : ℕ)
        → (t ≢ root) ⊎ ((j : ℕ) → j < suc rounds → ¬ SamePage (v + iter + j * page_size) u)
        → ((t ≢ root) ⊎ (¬ SamePage (v + iter) u))
          × ((t ≢ root)
              ⊎ ((j : ℕ) → j < rounds → ¬ SamePage (v + (iter + page_size) + j * page_size) u))
    others_apart t u (inl d) = (inl d, inl d)
    others_apart t u (inr f) = (
      inr (subst (λ x. ¬ SamePage x u) (omega arith) (f 0 (omega arith))),
      inr λ j l. subst (λ x. ¬ SamePage x u) (omega arith) (f (suc j) (omega arith)),
    )

    combined : Looped role pm pm2 root (v + iter) (p + iter) (suc rounds) p r
    combined = record {
      role' = ih.role';
      grows = Grows-trans q.grows ih.grows;
      apart = λ t u e differs un.
          let (now, later) = others_apart t u differs in
          ih.apart t u (top1 t e) later (q.apart t u e now un);
      success = elim ih.success [ inl z ↦ inl z | inr (e, f) ↦ inr (e, all_pages f) ];
    }

first_apart :
    (t root va rounds u : ℕ)
    → (t ≢ root) ⊎ ((j : ℕ) → j < suc rounds → ¬ SamePage (va + j * page_size) u)
    → (t ≢ root) ⊎ (¬ SamePage va u)
first_apart t root va rounds u (inl d) = inl d
first_apart t root va rounds u (inr f) =
    inr (subst (λ x. ¬ SamePage x u) (omega arith) (f 0 (omega arith)))

abbrev LoopResult : ℕ → (ℕ → Role) → PhysicalMemory → ℕ → ℕ → ℕ → ℕ → Indices → Type 0
LoopResult rounds role pm root v p iter last =
    (r : ℕ) × (pm' : PhysicalMemory) × (allocate_loop rounds pm root v p iter last ≡ some (r, pm'))
    × Looped role pm pm' root (v + iter) (p + iter) rounds p r

-- A round, and then the rest of the loop.
loop_step :
    (rounds : ℕ) (role : ℕ → Role) (pm : PhysicalMemory) (root v p iter : ℕ) (last : Indices)
    → role root ≡ top
    → v % page_size ≡ 0
    → iter % page_size ≡ 0
    → v + iter + suc rounds * page_size ≤ 2 ^ 39
    → p + iter + suc rounds * page_size ≤ 2 ^ 56
    → ((role1 : ℕ → Role) (pm1 : PhysicalMemory) (last1 : Indices)
        → Tables role1 pm1
        → role1 root ≡ top
        → CacheFits pm1 root (v + (iter + page_size)) last1
        → LoopResult rounds role1 pm1 root v p (iter + page_size) last1)
    → (b : Bool) (pm1 : PhysicalMemory)
    → allocate_round pm root (v + iter) (p + iter) last ≡ some (b, pm1)
    → Rounded role pm pm1 root (v + iter) (p + iter) b
    → LoopResult (suc rounds) role pm root v p iter last
loop_step rounds role pm root v p iter last is_root al al₂ h k rest false pm1 e q = (
  0,
  pm1,
  loop_stops rounds role pm pm1 root v p iter last is_root al al₂ h k e,
  record {
    role' = q.role';
    grows = q.grows;
    apart = λ t u f differs un. q.apart t u f (first_apart t root (v + iter) rounds u differs) un;
    success = inl refl;
  },
)
loop_step rounds role pm root v p iter last is_root al al₂ h k rest true pm1 e q =
    let (target, m, want) = q.success refl in
    let fits =
      subst (λ x. CacheFits pm1 root x (indices_of (v + iter))) (add_assoc v iter page_size)
        (next-CacheFits pm1 root (v + iter) target m) in
    let (r, pm2, e', ih) =
      rest q.role' pm1 (indices_of (v + iter)) q.grows.tables
        (q.grows.roles root (top-ne-plain is_root) ∙ is_root) fits in
    (
      r,
      pm2,
      loop_goes_on rounds role pm pm1 root v p iter last is_root al al₂ h k e ∙ e',
      combined rounds role pm pm1 root v p iter last is_root al al₂ h k q pm2 r ih,
    )

pub allocate_loop-Looped :
    (rounds : ℕ) (role : ℕ → Role) (pm : PhysicalMemory) (root v p iter : ℕ) (last : Indices)
    → Tables role pm
    → role root ≡ top
    → v % page_size ≡ 0
    → p % page_size ≡ 0
    → iter % page_size ≡ 0
    → v + iter + rounds * page_size ≤ 2 ^ 39
    → p + iter + rounds * page_size ≤ 2 ^ 56
    → CacheFits pm root (v + iter) last
    → (r : ℕ) × (pm' : PhysicalMemory) × (allocate_loop rounds pm root v p iter last
        ≡ some (r, pm'))
      × Looped role pm pm' root (v + iter) (p + iter) rounds p r
allocate_loop-Looped zero role pm root v p iter last ts is_root al al₁ al₂ h k fits = (
  p,
  pm,
  loop_done pm root v p iter last,
  record {
    role' = role;
    grows = Grows-refl role pm ts;
    apart = λ t u e differs un. un;
    success = inr (refl, λ j l. absurd (omega arith));
  },
)
allocate_loop-Looped (suc rounds) role pm root v p iter last ts is_root al al₁ al₂ h k fits =
    let (b, pm1, e, q) =
      allocate_round-Rounded role pm ts root (v + iter) (p + iter) last is_root (omega arith)
        (omega arith) fits in
    loop_step rounds role pm root v p iter last is_root al al₂ h k
      (λ role1 pm1 last1 ts1 root1 fits1.
        allocate_loop-Looped rounds role1 pm1 root v p (iter + page_size) last1 ts1 root1 al al₁
          (omega arith) (omega arith) (omega arith) fits1)
      b pm1 e q
