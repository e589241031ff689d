-- ===== src/Memory/Mapping.antt =====
-- Memory::allocate of src/device/memory.h, and what Memory::convert answers afterwards.
use ventus_driver.Common.{
  ℕ, ◌+◌, ◌*◌, ◌/◌, ◌%◌, ◌^◌, ◌<◌, ◌≤◌, ◌≡◌, refl, ◌⊎◌, inl, inr, ◌≢◌, arith, ap, ◌∙◌, sym, subst,
  true, false, some, done,
}
use ventus_driver.Sv39.{page_size}
use ventus_driver.Block.{create, round_up}
use ventus_driver.PhysicalMemory.{PhysicalMemory, insert, usable}
use ventus_driver.PhysicalMemory.Words.{backed, IsFresh}
use ventus_driver.Memory.Tables.{
  Role, top, plain, Tables, Mapped, Unmapped, Grows, Grows-refl, Grows-trans,
}
use ventus_driver.Memory.Tables.Leaf.{SamePage}
use ventus_driver.Memory.Fresh.{Tables-fresh, Grows-fresh, Unmapped-fresh, free-plain, usable_pages}
use ventus_driver.Memory.Translate.{convert-Mapped, Mapped_offset}
use ventus_driver.Memory.Allocate.{
  MapsPage, Looped, allocate_loop-Looped, unset-CacheFits, top-ne-plain,
}
use ventus_driver.Memory.{allocate, allocate_loop, convert, unset}

-- A range that was free is in the memory, and no table of it.
abbrev pub IsTaken : PhysicalMemory → PhysicalMemory → (ℕ → Role) → ℕ → ℕ → Type 0
IsTaken pm pm' role' p n =
    (a : ℕ) → p ≤ a → a < p + n → (backed pm a ≡ false) × (backed pm' a ≡ true) × (role' a ≡ plain)

-- What a call of `allocate` that returned `p` comes to: 0 after a lack of pages, or a block that was
-- free and is taken now, which the unmapped pages of the range now lead to, byte by byte.
abbrev pub Outcome : PhysicalMemory → PhysicalMemory → (ℕ → Role) → ℕ → ℕ → ℕ → ℕ → Type 0
Outcome pm pm' role' root v size p =
    (p ≡ 0)
    ⊎ ((p % page_size ≡ 0)
        × IsTaken pm pm' role' p (round_up size)
        × ((j off : ℕ)
            → j * page_size < size
            → off < page_size
            → Unmapped pm root (v + j * page_size)
            → convert pm' root (v + j * page_size + off) ≡ some (p + j * page_size + off)))

-- Addresses of other pages and of other roots that led nowhere still do.
abbrev pub OthersApart : (ℕ → Role) → PhysicalMemory → PhysicalMemory → ℕ → ℕ → ℕ → Type 0
OthersApart role pm pm' root v rounds =
    (t u : ℕ)
    → role t ≡ top
    → (t ≢ root) ⊎ ((j : ℕ) → j < rounds → ¬ SamePage (v + j * page_size) u)
    → Unmapped pm t u
    → Unmapped pm' t u

allocate_full :
    (pm : PhysicalMemory) (root v size p : ℕ)
    → usable pm (round_up size) ≡ some p
    → p ≡ 0
    → allocate pm root v size ≡ some (0, pm)
unfolding allocate
allocate_full pm root v size p e z = ground arith

allocate_enters :
    (pm pm1 : PhysicalMemory) (root v size p : ℕ)
    → usable pm (round_up size) ≡ some p
    → 0 < p
    → insert pm (create p (round_up size) true) ≡ some (done, pm1)
    → allocate pm root v size ≡ allocate_loop (round_up size / page_size) pm1 root v p 0 unset
unfolding allocate
allocate_enters pm pm1 root v size p e pos f = ground arith

module _ (role : ℕ → Role) (pm : PhysicalMemory) (root v size : ℕ) (ts : Tables role pm)
    (is_root : role root ≡ top) (al : v % page_size ≡ 0) (pos : 0 < size) (small : size ≤ 2 ^ 39)
    (fits : v + round_up size ≤ 2 ^ 39) where
  abbrev rounds : ℕ
  rounds = round_up size / page_size

  module _ (p : ℕ) (pm1 pm2 : PhysicalMemory) (fresh : IsFresh pm pm1 p (round_up size)) (r : ℕ)
      (l : Looped role pm1 pm2 root (v + 0) (p + 0) rounds p r) where
    converts :
        ((j : ℕ)
          → j < rounds
          → MapsPage pm1 pm2 root (v + 0 + j * page_size) (p + 0 + j * page_size))
        → (j off : ℕ) → j * page_size < size
        → off < page_size
        → Unmapped pm root (v + j * page_size)
        → convert pm2 root (v + j * page_size + off) ≡ some (p + j * page_size + off)
    converts f j off jl ol un =
        let u = v + j * page_size in
        let at_u : v + 0 + j * page_size ≡ u = omega arith in
        let (target, m, want) = f j (omega arith) in
        let un1 = Unmapped-fresh fresh root u un in
        let e = want (subst (Unmapped pm1 root) (sym at_u) un1) in
        let m' =
          Mapped_offset pm2 root u target off (omega arith) ol
            (subst (λ x. Mapped pm2 root x target) at_u m) in
        let root2 = l.grows.roles root (top-ne-plain is_root) ∙ is_root in
        convert-Mapped l.grows.tables root (u + off) target root2 m'
          (omega (arith, e, fresh.positive))
        ∙ ap some (omega (arith, e))

    others_apart : OthersApart role pm pm2 root v rounds
    others_apart t u is_top a n =
        l.apart t u is_top
          (subst (λ x. (t ≢ root) ⊎ ((j : ℕ) → j < rounds → ¬ SamePage (x + j * page_size) u))
            (omega arith) a)
          (Unmapped-fresh fresh t u n)

    taken : IsTaken pm pm2 l.role' p (round_up size)
    taken a low high =
        let here = fresh.block_backed a low high in
        let free = fresh.was_free a low high in
        (free, l.grows.more_backed a here, l.grows.same_role a here ∙ free-plain a ts free)

    allocated-Outcome : Outcome pm pm2 l.role' root v size r
    allocated-Outcome = elim l.success [
      | inl z ↦ inl z
      | inr (e, f) ↦
          subst (Outcome pm pm2 l.role' root v size) (sym e)
            (inr (fresh.aligned, taken, converts f))
    ]

  -- `allocate` of a page-aligned range in the 39-bit space, on well-formed tables, is defined and
  -- terminates. It keeps the tables well formed and every valid entry as it is, and what was not mapped
  -- under another root or outside the range stays so. If it does not
  -- return 0, the result is the address of a block that was free before, is in the memory now and holds
  -- no table, and `convert` leads each byte of the range whose page was not mapped before to the byte at
  -- the same distance in the block.
  pub allocate-Outcome :
      (p : ℕ) × (pm' : PhysicalMemory) × (role' : ℕ → Role) × (allocate pm root v size
        ≡ some (p, pm'))
      × Grows role pm role' pm'
      × OthersApart role pm pm' root v rounds
      × Outcome pm pm' role' root v size p
  allocate-Outcome =
      let (p, e, room) =
        usable_pages pm (round_up size) ts.well (omega arith) (omega arith) (omega arith) in
      elim room [
        | inl z ↦ (
          0,
          pm,
          role,
          allocate_full pm root v size p e z,
          Grows-refl role pm ts,
          λ t u e a n. n,
          inl refl,
        )
        | inr (pm1, inserted, fresh) ↦
            let (r, pm2, e', l) =
              allocate_loop-Looped rounds role pm1 root v p 0 unset (Tables-fresh fresh role ts)
                is_root al fresh.aligned (omega arith) (omega arith) (omega (arith, fresh.in_range))
                (unset-CacheFits pm1 root (v + 0)) in
            (
              r,
              pm2,
              l.role',
              allocate_enters pm pm1 root v size p e fresh.positive inserted ∙ e',
              Grows-trans (Grows-fresh fresh role ts) l.grows,
              others_apart p pm1 pm2 fresh r l,
              allocated-Outcome p pm1 pm2 fresh r l,
            )
      ]
