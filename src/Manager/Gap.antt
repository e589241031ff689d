-- ===== src/Manager/Gap.antt =====
-- The searches of addr::Manager::allocVaddr of src/driver.h.
use ventus_driver.Common.{
  ℕ, suc, ◌+◌, ◌≤◌, ◌<◌, ◌≡◌, refl, ◌⊎◌, inl, inr, List, [], ◌∷◌, none, some, false, Bool-cases,
  ◌&&◌, ltb, if◌then◌else◌, arith, u64, All, get_elem?, drop, ap, subst, sym,
}
use ventus_driver.Manager.{Item, Spot, Reach, reached, ended, follow, reach, behind, segment_room}
use ventus_driver.Manager.Layout.{IsItem, behind_lem}

-- A spot behind the item at position `k` from `i` on, with room in front of the successor unless
-- the item reaches the limit.
pub record IsSpot (limit size : ℕ) (items : List Item) (i : ℕ) (spot : Spot) : Type 0 where
  pub k : ℕ
  pub item : Item
  pub here : get_elem? items k ≡ some item
  pub root : spot.root ≡ i + k
  pub vaddr : spot.vaddr ≡ behind item
  pub succ : spot.succ ≡ get_elem? items (suc k)
  pub room :
      (s : Item)
      → get_elem? items (suc k) ≡ some s
      → (spot.vaddr + size ≤ s.vaddr) ⊎ (limit ≤ item.vaddr)

pub follow-IsSpot :
    (limit size : ℕ) (it : Item) (items : List Item) (i : ℕ)
    → size ≤ segment_room
    → All IsItem (it ∷ items)
    → IsSpot limit size (it ∷ items) i (follow limit size it items i)
unfolding follow
follow-IsSpot limit size it [] i small a = record {
  k = 0;
  item = it;
  here = refl;
  root = omega arith;
  vaddr = refl;
  succ = refl;
  room = λ s e. absurd (cc);
}
follow-IsSpot limit size it (s ∷ items) i small a =
    elim (Bool-cases (ltb it.vaddr limit && ltb s.vaddr (u64 (behind it + size)))) [
      | inl on ↦
          let rest = follow-IsSpot limit size s items (suc i) small a.1 in
          subst (IsSpot limit size (it ∷ s ∷ items) i)
            (sym (
              ap
                (λ b.
                  if b
                  then follow limit size s items (suc i)
                  else record { root = i; vaddr = behind it; succ = some s })
                on))
            (record {
              k = suc rest.k;
              item = rest.item;
              here = rest.here;
              root = omega (arith, rest.root);
              vaddr = rest.vaddr;
              succ = rest.succ;
              room = rest.room;
            })
      | inr off ↦
          subst (IsSpot limit size (it ∷ s ∷ items) i)
            (sym (
              ap
                (λ b.
                  if b
                  then follow limit size s items (suc i)
                  else record { root = i; vaddr = behind it; succ = some s })
                off))
            (record {
              k = 0;
              item = it;
              here = refl;
              root = omega arith;
              vaddr = refl;
              succ = refl;
              room = λ c e. room_here c e off;
            })
    ]
  where
    room_here :
        (c : Item)
        → some s ≡ some c
        → (ltb it.vaddr limit && ltb s.vaddr (u64 (behind it + size))) ≡ false
        → (behind it + size ≤ c.vaddr) ⊎ (limit ≤ it.vaddr)
    room_here c e off = ground (arith, behind_lem it a.0, a.0.high)

-- Where a walk to the first item from the limit on ends.
abbrev pub Reaches : ℕ → List Item → ℕ → Reach → Type 0
Reaches limit items i (ended j) =
    (k : ℕ) × (r : Item) × (j ≡ i + k)
    × (get_elem? items k ≡ some r)
    × (get_elem? items (suc k) ≡ none)
    × (r.vaddr < limit)
Reaches limit items i (reached j r rest) =
    (k : ℕ) × (j ≡ i + k) × (drop k items ≡ r ∷ rest) × (limit ≤ r.vaddr)

further :
    (limit : ℕ) (it : Item) (items : List Item) (i : ℕ) (z : Reach)
    → Reaches limit items (suc i) z
    → Reaches limit (it ∷ items) i z
further limit it items i (ended j) (k, r, e, f, g, h) = (suc k, r, omega arith, f, g, h)
further limit it items i (reached j r rest) (k, e, f, h) = (suc k, omega arith, f, h)

pub reach-Reaches :
    (limit : ℕ) (it : Item) (items : List Item) (i : ℕ)
    → Reaches limit (it ∷ items) i (reach limit it items i)
unfolding reach
reach-Reaches limit it [] i = elim (Bool-cases (ltb it.vaddr limit)) [
  | inl on ↦ rw on (0, it, omega arith, refl, refl, ground arith)
  | inr off ↦ rw off (0, omega arith, refl, ground arith)
]
reach-Reaches limit it (s ∷ items) i = elim (Bool-cases (ltb it.vaddr limit)) [
  | inl on ↦ rw on (
      further limit it (s ∷ items) i (reach limit s items (suc i))
        (reach-Reaches limit s items (suc i)))
  | inr off ↦ rw off (0, omega arith, refl, ground arith)
]
