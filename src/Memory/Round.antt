-- ===== src/Memory/Round.antt =====
-- One round of the loop in Memory::allocate of src/device/memory.h: one virtual page.
use ventus_driver.Common.{
  ℕ, ◌%◌, ◌^◌, ◌<◌, ◌≡◌, ◌⊎◌, inl, inr, ◌≢◌, ap, ◌∙◌, sym, subst, Bool, true, false, some,
}
use mathlib.Core.Bool.{false≢true}
use ventus_driver.Sv39.{page_size, va_extract}
use ventus_driver.Sv39.Fields.{va_extract-lt}
use ventus_driver.PhysicalMemory.{PhysicalMemory}
use ventus_driver.Memory.Tables.{
  Role, top, plain, IsInner, entry, IsValid, below, Tables, table1, Mapped, Unmapped, Grows,
  Grows-refl, Grows-trans,
}
use ventus_driver.Memory.Tables.Walks.{table1_role, same0, same1, same_table1}
use ventus_driver.Memory.Tables.Leaf.{SamePage}
use ventus_driver.Memory.Descend.{Prepared}
use ventus_driver.Memory.Level.{descend-Prepared}
use ventus_driver.Memory.MapPage.{map_page-PageMapped}
use ventus_driver.Memory.{descend, next, full, map_page, allocate_round, Indices}

-- The indices of the round before are those of entries that are valid, and level 2 differs.
pub record CacheFits (pm : PhysicalMemory) (root va : ℕ) (last : Indices) : Type 0 where
  pub fits0 : va_extract va 0 ≡ last.level0 → IsValid (entry pm root (va_extract va 0))
  pub fits1 :
      va_extract va 1 ≡ last.level1
      → IsValid (entry pm root (va_extract va 0))
        × IsValid (entry pm (table1 pm root va) (va_extract va 1))
  pub fits2 : va_extract va 2 ≢ last.level2

-- What a round for `va` comes to: the page is mapped, unless it was already to `pa`; or no page was
-- left for a table. In both cases other unmapped pages stay so.
pub record Rounded (role : ℕ → Role) (pm pm' : PhysicalMemory) (root va pa : ℕ) (mapped : Bool)
    : Type 0 where
  pub role' : ℕ → Role
  pub grows : Grows role pm role' pm'
  pub apart :
      (r u : ℕ) → role r ≡ top → (r ≢ root) ⊎ (¬ SamePage va u) → Unmapped pm r u → Unmapped pm' r u
  pub success :
      mapped ≡ true → (target : ℕ) × Mapped pm' root va target × (Unmapped pm root va → target ≡ pa)

module _ (pm : PhysicalMemory) (root va pa : ℕ) (last : Indices) where
  round_full0 :
      descend pm root (va_extract va 0) last.level0 ≡ some (full pm)
      → allocate_round pm root va pa last ≡ some (false, pm)
  unfolding allocate_round
  round_full0 e = rw (e, allocate_round)

  module _ (t1 : ℕ) (pm1 : PhysicalMemory)
      (e1 : descend pm root (va_extract va 0) last.level0 ≡ some (next t1 pm1)) where
    round_full1 :
        descend pm1 t1 (va_extract va 1) last.level1 ≡ some (full pm1)
        → allocate_round pm root va pa last ≡ some (false, pm1)
    unfolding allocate_round
    round_full1 e = rw (e1, allocate_round) (rw e)

    round_maps :
        (t2 : ℕ) (pm2 pm3 : PhysicalMemory)
        → descend pm1 t1 (va_extract va 1) last.level1 ≡ some (next t2 pm2)
        → map_page pm2 t2 (va_extract va 2) last.level2 pa ≡ some pm3
        → allocate_round pm root va pa last ≡ some (true, pm3)
    unfolding allocate_round
    round_maps t2 pm2 pm3 e2 e3 = rw (e1, allocate_round) (rw (e2, e3))

module _ (role : ℕ → Role) (pm : PhysicalMemory) (ts : Tables role pm) (root va pa : ℕ)
    (last : Indices) (is_root : role root ≡ top) (aligned : pa % page_size ≡ 0)
    (in_range : pa < 2 ^ 56) (fits : CacheFits pm root va last) where
  abbrev Result : Type 0
  Result =
      (b : Bool) × (pm' : PhysicalMemory) × (allocate_round pm root va pa last ≡ some (b, pm'))
      × Rounded role pm pm' root va pa b

  top-ne-plain : {r : Role} → r ≡ top → r ≢ plain
  top-ne-plain e f = cc

  -- The last level, where both tables are there.
  round_level2 :
      (pm1 pm2 : PhysicalMemory) (q1 : Prepared role pm pm1 root (va_extract va 0))
      → descend pm root (va_extract va 0) last.level0 ≡ some (next (table1 pm1 root va) pm1)
      → (q2 : Prepared q1.role' pm1 pm2 (table1 pm1 root va) (va_extract va 1))
      → descend pm1 (table1 pm1 root va) (va_extract va 1) last.level1
        ≡ some (next (below pm2 (table1 pm1 root va) (va_extract va 1)) pm2)
      → Result
  round_level2 pm1 pm2 q1 e1 q2 e2 =
      let top1 = q1.grows.roles root (top-ne-plain is_root) ∙ is_root in
      let top2 = q2.grows.roles root (top-ne-plain top1) ∙ top1 in
      let same_t1 = same_table1 q1.grows.tables q2.grows root va top1 q1.valid in
      let v0 =
        subst IsValid (sym (same0 q1.grows.tables q2.grows root va top1 q1.valid)) q1.valid in
      let v1 = subst (λ t. IsValid (entry pm2 t (va_extract va 1))) (sym same_t1) q2.valid in
      let (pm3, e3, m) =
        map_page-PageMapped q2.role' pm2 q2.grows.tables root va pa last.level2 top2 v0 v1 aligned
          in_range fits.fits2 in
      let same_t2 = ap (λ t. below pm2 t (va_extract va 1)) same_t1 in
      (
        true,
        pm3,
        round_maps pm root va pa last (table1 pm1 root va) pm1 e1 _ pm2 pm3 e2
            (subst (λ t. map_page pm2 t (va_extract va 2) last.level2 pa ≡ some pm3) same_t2 e3),
        record {
          role' = q2.role';
          grows = Grows-trans q1.grows (Grows-trans q2.grows m.grows);
          apart = λ r u e differs h.
              let r1 = q1.grows.roles r (top-ne-plain e) ∙ e in
              let r2 = q2.grows.roles r (top-ne-plain r1) ∙ r1 in
              m.apart r u r2 differs (q2.steady r u r1 (q1.steady r u e h));
          success = λ t. (
            m.target,
            m.mapped,
            λ h. m.as_asked (q2.steady root va top1 (q1.steady root va is_root h)),
          );
        },
      )

  round_level1 :
      (pm1 : PhysicalMemory) (q1 : Prepared role pm pm1 root (va_extract va 0))
      → descend pm root (va_extract va 0) last.level0 ≡ some (next (table1 pm1 root va) pm1)
      → Result
  round_level1 pm1 q1 e1 =
      let top1 = q1.grows.roles root (top-ne-plain is_root) ∙ is_root in
      let role1 = table1_role q1.grows.tables root va top1 q1.valid in
      let cached = λ (e : va_extract va 1 ≡ last.level1).
        let (v0, v1) = fits.fits1 e in
        subst IsValid (sym (same1 ts q1.grows root va is_root v0 v1)) v1 in
      elim (descend-Prepared q1.role' pm1 q1.grows.tables (table1 pm1 root va) (va_extract va 1)
        last.level1 (subst IsInner (sym role1) tt) (va_extract-lt va 1) cached) [
          | inl e2 ↦ (
            false,
            pm1,
            round_full1 pm root va pa last (table1 pm1 root va) pm1 e1 e2,
            record {
              role' = q1.role';
              grows = q1.grows;
              apart = λ r u e differs h. q1.steady r u e h;
              success = λ t. absurd (false≢true t);
            },
          )
          | inr (pm2, e2, q2) ↦ round_level2 pm1 pm2 q1 e1 q2 e2
        ]

  pub allocate_round-Rounded : Result
  allocate_round-Rounded =
      elim (descend-Prepared role pm ts root (va_extract va 0) last.level0
        (subst IsInner (sym is_root) tt) (va_extract-lt va 0) fits.fits0) [
          | inl e1 ↦ (
            false,
            pm,
            round_full0 pm root va pa last e1,
            record {
              role' = role;
              grows = Grows-refl role pm ts;
              apart = λ r u e differs h. h;
              success = λ t. absurd (false≢true t);
            },
          )
          | inr (pm1, e1, q1) ↦ round_level1 pm1 q1 e1
        ]
