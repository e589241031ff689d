-- ===== src/Manager/Alloc.antt =====
-- addr::Manager::allocMemory and allocVaddr of src/driver.h.
use ventus_driver.Common.{
  ℕ, suc, ◌+◌, ◌*◌, ◌/◌, ◌%◌, ◌^◌, ◌≤◌, ◌<◌, ◌≡◌, refl, ◌⊎◌, inl, inr, List, ◌∷◌, Option, none,
  some, true, false, Bool-cases, Option-cases, ◌&&◌, ltb, leb, ◌==◌, if◌then◌else◌, arith, u64, All,
  get_elem?, drop, ap, ◌∙◌, subst, sym,
}
use ventus_driver.Manager.{
  Item, Spot, Reach, reached, ended, follow, ro_data_base, rw_data_base, segment_room,
  place_read_only, place_behind, from_on, has_none,
}
use ventus_driver.Manager.Layout.{
  IsItem, stop, Spaced, behind_lem, Spaced-All, All-at, All-drop, get_elem-drop, next_above,
  later_above,
}
use ventus_driver.Manager.Gap.{IsSpot, follow-IsSpot, Reaches}

-- A spot that a new item fits in.
pub record Fits (size : ℕ) (items : List Item) (spot : Spot) : Type 0 where
  pub item : Item
  pub here : get_elem? items spot.root ≡ some item
  pub after : stop item ≤ spot.vaddr
  pub aligned : spot.vaddr % 4096 ≡ 0
  pub room : (s : Item) → get_elem? items (suc spot.root) ≡ some s → spot.vaddr + size ≤ s.vaddr

-- What a search in a segment comes to: an exception, or a spot there.
abbrev pub Chosen : ℕ → ℕ → List Item → Option Spot → Type 0
Chosen base size items o =
    (o ≡ none)
    ⊎ ((spot : Spot) × (o ≡ some spot)
        × Fits size items spot
        × (base ≤ spot.vaddr)
        × (spot.vaddr + size ≤ base + segment_room))

module _ (items : List Item) (spaced : Spaced ro_data_base items) (base size : ℕ)
    (small : size ≤ segment_room) (pos : 0 < size) where
  module _ {limit k : ℕ} {r : Item} {rest : List Item} {spot : Spot} (e : drop k items ≡ r ∷ rest)
      (sp : IsSpot limit size (r ∷ rest) k spot) where
    at_root : get_elem? items spot.root ≡ some sp.item
    at_root =
        ap (get_elem? items) sp.root
        ∙ sym (get_elem-drop k sp.k items)
        ∙ ap (λ (xs : List Item). get_elem? xs sp.k) e
        ∙ sp.here

    at_next : get_elem? items (suc spot.root) ≡ spot.succ
    at_next =
        ap (get_elem? items) (omega (arith, sp.root))
        ∙ sym (get_elem-drop k (suc sp.k) items)
        ∙ ap (λ (xs : List Item). get_elem? xs (suc sp.k)) e
        ∙ sym sp.succ

    root_item : IsItem sp.item
    root_item = All-at IsItem items spot.root (Spaced-All ro_data_base items spaced) at_root

    -- The address is at most a page past the item.
    spot_place : spot.vaddr ≡ (stop sp.item + 4095) / 4096 * 4096
    spot_place = sp.vaddr ∙ behind_lem sp.item root_item

    spot_room :
        (s : Item) → spot.succ ≡ some s → (spot.vaddr + size ≤ s.vaddr) ⊎ (limit ≤ sp.item.vaddr)
    spot_room s f = sp.room s (sym sp.succ ∙ f)

    at_start : get_elem? items k ≡ some r
    at_start =
        ap (get_elem? items) (omega arith)
        ∙ sym (get_elem-drop k 0 items)
        ∙ ap (λ (xs : List Item). get_elem? xs 0) e

    spot_above : r.vaddr ≤ sp.item.vaddr
    spot_above =
        later_above ro_data_base items k spot.root spaced (omega (arith, sp.root)) at_start at_root

    spot-Fits : ((s : Item) → spot.succ ≡ some s → sp.item.vaddr < limit) → Fits size items spot
    spot-Fits below = record {
      item = sp.item;
      here = at_root;
      after = omega (arith, spot_place);
      aligned = omega (arith, spot_place);
      room = λ s f.
          let g = sym at_next ∙ f in
          elim (spot_room s g) [ inl h ↦ h | inr h ↦ absurd (omega (arith, below s g)) ];
    }

  -- The cases READ_WRITE and KERNEL_MEM, in a segment that holds the last items of the context.
  module _ (below : All (λ it. it.vaddr < base + segment_room) items)
      (apart : All (λ it. (stop it ≤ base) ⊎ (base ≤ it.vaddr)) items) (al : base % 4096 ≡ 0)
      (high : base + segment_room < 2 ^ 63) where
    behind-Chosen :
        (k : ℕ) (r : Item) (rest : List Item)
        → drop k items ≡ r ∷ rest
        → base ≤ r.vaddr
        → (spot : Spot) → IsSpot (base + segment_room) size (r ∷ rest) k spot
        → Chosen base size items (
            if has_none spot.succ && ltb (base + segment_room) (u64 (spot.vaddr + size))
            then none
            else some spot)
    behind-Chosen k r rest e h spot sp =
        let low =
          All-at (λ it. it.vaddr < base + segment_room) items spot.root below (at_root e sp) in
        let place = spot_place e sp in
        let start : base ≤ spot.vaddr = omega (arith, place, spot_above e sp) in
        let fits = spot-Fits e sp (λ s f. low) in
        let item = root_item e sp in
        let whole : u64 (spot.vaddr + size) ≡ spot.vaddr + size = omega (arith, place, item.high) in
        elim (Option-cases spot.succ) [
          | inl f ↦ elim (Bool-cases (ltb (base + segment_room) (u64 (spot.vaddr + size)))) [
            | inl over ↦ inl (rw (f, over))
            | inr under ↦ inr (spot, rw (f, under), fits, start, ground (arith, whole, under))
          ]
          | inr (s, f) ↦
              let next =
                All-at (λ it. it.vaddr < base + segment_room) items (suc spot.root) below
                  (at_next e sp ∙ f) in
              inr (spot, rw f, fits, start, omega (arith, next, fits.room s (at_next e sp ∙ f)))
        ]

    pub place_behind-Chosen :
        (z : Reach)
        → Reaches base items 0 z
        → Chosen base size items (place_behind base (base + segment_room) size z)
    unfolding place_behind
    place_behind-Chosen (ended j) (k, r, e, f, g, h) =
        let k_is : j ≡ k = omega arith in
        let here = ap (get_elem? items) k_is ∙ f in
        let gap = All-at (λ it. (stop it ≤ base) ⊎ (base ≤ it.vaddr)) items j apart here in
        inr (
          record { root = j; vaddr = base; succ = none },
          refl,
          record {
            item = r;
            here = here;
            after = omega arith;
            aligned = al;
            room = λ s f'. absurd (cc (g, f', ap (λ x. get_elem? items (suc x)) k_is));
          },
          omega arith,
          omega arith,
        )
    place_behind-Chosen (reached j r rest) (k, e, f, h) =
        let k_is : j ≡ k = omega arith in
        behind-Chosen j r rest (ap (λ x. drop x items) k_is ∙ f) h _ (
          follow-IsSpot (base + segment_room) size r rest j small (
            subst (All IsItem) (ap (λ x. drop x items) k_is ∙ f)
              (All-drop IsItem j items (Spaced-All ro_data_base items spaced))))

  -- The check of the case READ_ONLY leaves a spot below the next segment.
  read_only_room :
      {r : Item} {rest : List Item} {spot : Spot} (e : items ≡ r ∷ rest)
      (sp : IsSpot rw_data_base size (r ∷ rest) 0 spot)
      → (from_on rw_data_base spot.succ && ltb rw_data_base (u64 (spot.vaddr + size))) ≡ false
      → (sp.item.vaddr < rw_data_base) × (spot.vaddr + size ≤ rw_data_base)
  read_only_room {spot = spot} e sp o =
      let place = spot_place {k = 0} e sp in
      let item = root_item {k = 0} e sp in
      let whole : u64 (spot.vaddr + size) ≡ spot.vaddr + size = omega (arith, place, item.high) in
      let enough : (spot.vaddr + size ≤ rw_data_base)
          → (sp.item.vaddr < rw_data_base) × (spot.vaddr + size ≤ rw_data_base) =
        λ h. (omega (arith, place, item.positive), h) in
      elim (Option-cases spot.succ) [
        | inl f ↦ enough (ground (arith, whole, o, f))
        | inr (s, f) ↦
            let above =
              next_above ro_data_base items spot.root spaced (at_root {k = 0} e sp)
                (at_next {k = 0} e sp ∙ f) in
            elim (Bool-cases (leb rw_data_base s.vaddr)) [
              | inl far ↦ enough (ground (arith, whole, o, f, far))
              | inr near ↦
                  let low : s.vaddr < rw_data_base = ground (arith, near) in
                  (
                    omega (arith, above, low),
                    elim (spot_room {k = 0} e sp s f) [
                      | inl h ↦ omega (arith, h, low)
                      | inr h ↦ absurd (omega (arith, h, above, low))
                    ],
                  )
            ]
      ]

  -- The case READ_ONLY, where the first item is the first of its segment.
  pub read_only-Chosen :
      (head : Item) (rest : List Item)
      → items ≡ head ∷ rest
      → base ≡ ro_data_base
      → head.vaddr ≡ ro_data_base
      → Chosen base size items (place_read_only head rest size)
  unfolding place_read_only
  read_only-Chosen head rest e b h =
      let spot = follow rw_data_base size head rest 0 in
      let sp =
        follow-IsSpot rw_data_base size head rest 0 small
          (subst (All IsItem) e (Spaced-All ro_data_base items spaced)) in
      let place = spot_place {k = 0} e sp in
      let item = root_item {k = 0} e sp in
      let first : (head.vaddr == ro_data_base) ≡ true = ground arith in
      let over = from_on rw_data_base spot.succ && ltb rw_data_base (u64 (spot.vaddr + size)) in
      elim (Bool-cases over) [
        | inl o ↦ inl (rw (first, o))
        | inr o ↦
            let (below, upper) = read_only_room e sp o in
            let fits = spot-Fits {k = 0} e sp (λ s f. below) in
            inr (
              spot,
              rw (first, o),
              fits,
              omega (arith, b, place, item.low),
              omega (arith, b, upper),
            )
      ]
