-- ===== src/Manager/Place.antt =====
-- addr::Manager::allocVaddr and insertNewItem of src/driver.h: a new item in a context.
use ventus_driver.Common.{
  ℕ, suc, ◌+◌, ◌%◌, ◌≤◌, ◌<◌, ◌≡◌, refl, ◌⊎◌, inl, inr, List, [], ◌∷◌, none, some, true, false,
  Bool-cases, ◌||◌, ◌==◌, if◌then◌else◌, arith, All, insert_at, subst, sym,
}
use ventus_driver.Manager.{
  Item, Spot, reached, reach, BufferType, read_only, read_write, kernel_mem, ro_data_base,
  rw_data_base, buf_para_base, segment_room, segment_base, place_read_only, place_read_write,
  place_kernel_mem, alloc_vaddr, insert_new_item, new_item, add_item,
}
use ventus_driver.Manager.Layout.{
  IsItem, stop, Spaced, Spaced-All, All-at, All-map, Spaced-insert_at,
}
use ventus_driver.Manager.Gap.{Reaches, reach-Reaches}
use ventus_driver.Manager.Alloc.{Fits, Chosen, place_behind-Chosen, read_only-Chosen}

-- The first item stands at the start of a segment.
abbrev pub StartsAtBase : List Item → Type 0
StartsAtBase [] = Unit {0}
StartsAtBase (it ∷ items) =
    (it.vaddr ≡ ro_data_base) ⊎ (it.vaddr ≡ rw_data_base) ⊎ (it.vaddr ≡ buf_para_base)

-- What the items must be for a buffer of a type. With a kernel buffer at the head a READ_ONLY one
-- would stand out of order; a READ_WRITE one may come to lie over kernel buffers.
abbrev pub HasRoom : BufferType → List Item → Type 0
HasRoom read_only [] = Unit {0}
HasRoom read_only (it ∷ items) = it.vaddr < buf_para_base
HasRoom read_write items = All (λ it. it.vaddr < buf_para_base) items
HasRoom kernel_mem items = Unit {0}

-- A new item in a segment, and the items as they were.
pub record Added (base : ℕ) (items : List Item) (new : Item) (items' : List Item) : Type 0 where
  pub spaced : Spaced ro_data_base items'
  pub starts : StartsAtBase items'
  pub start : base ≤ new.vaddr
  pub finish : stop new ≤ base + segment_room
  pub k : ℕ
  pub inserted : items' ≡ insert_at k new items

segment-IsItem :
    (type : BufferType) (it : Item)
    → it.vaddr % 4096 ≡ 0
    → 0 < it.size
    → segment_base type ≤ it.vaddr
    → stop it ≤ segment_base type + segment_room
    → IsItem it
segment-IsItem type it al pos low high = record {
  aligned = al;
  positive = pos;
  low = go type low;
  apart_rw = rw_side type low high;
  apart_para = para_side type low high;
  high = top_of type high;
}
  where
    go : (t : BufferType) → segment_base t ≤ it.vaddr → ro_data_base ≤ it.vaddr
    go read_only l = omega arith
    go read_write l = omega arith
    go kernel_mem l = omega arith

    rw_side :
        (t : BufferType)
        → segment_base t ≤ it.vaddr
        → stop it ≤ segment_base t + segment_room
        → (stop it ≤ rw_data_base) ⊎ (rw_data_base ≤ it.vaddr)
    rw_side read_only l h = inl h
    rw_side read_write l h = inr l
    rw_side kernel_mem l h = inr (omega arith)

    para_side :
        (t : BufferType)
        → segment_base t ≤ it.vaddr
        → stop it ≤ segment_base t + segment_room
        → (stop it ≤ buf_para_base) ⊎ (buf_para_base ≤ it.vaddr)
    para_side read_only l h = inl (omega arith)
    para_side read_write l h = inl h
    para_side kernel_mem l h = inr l

    top_of :
        (t : BufferType)
        → stop it ≤ segment_base t + segment_room
        → stop it ≤ buf_para_base + segment_room
    top_of read_only h = omega arith
    top_of read_write h = omega arith
    top_of kernel_mem h = h

-- A buffer in the segment of a type, of which the manager makes an item in the items' context.
module _ (context_id kernel_id size : ℕ) (pos : 0 < size) (small : size ≤ segment_room) where
  abbrev made : ℕ → Item
  made vaddr = new_item kernel_id context_id vaddr size

  inserted-Added :
      (type : BufferType) (head : Item) (items : List Item) (spot : Spot)
      → Spaced ro_data_base (head ∷ items)
      → StartsAtBase (head ∷ items)
      → Fits size (head ∷ items) spot
      → segment_base type ≤ spot.vaddr
      → spot.vaddr + size ≤ segment_base type + segment_room
      → Added
          (segment_base type)
          (head ∷ items)
          (made spot.vaddr)
          (insert_new_item (head ∷ items) spot (made spot.vaddr))
  unfolding insert_new_item
  inserted-Added type head items spot s b f low high =
      let item =
        All-at IsItem (head ∷ items) spot.root (Spaced-All ro_data_base (head ∷ items) s) f.here in
      let later : (spot.vaddr == ro_data_base) ≡ false =
        ground (arith, f.after, item.low, item.positive) in
      let same : insert_new_item (head ∷ items) spot (made spot.vaddr)
          ≡ insert_at (suc spot.root) (made spot.vaddr) (head ∷ items) =
        rw later in
      subst (Added (segment_base type) (head ∷ items) (made spot.vaddr)) (sym same) (record {
        spaced =
            Spaced-insert_at ro_data_base (head ∷ items) spot.root (made spot.vaddr) s f.here
              f.after (segment-IsItem type (made spot.vaddr) f.aligned pos low high) f.room;
        starts = b;
        start = low;
        finish = high;
        k = suc spot.root;
        inserted = refl;
      })

  read_write-Chosen :
      (head : Item) (items : List Item)
      → Spaced ro_data_base (head ∷ items)
      → StartsAtBase (head ∷ items)
      → All (λ it. it.vaddr < buf_para_base) (head ∷ items)
      → Chosen rw_data_base size (head ∷ items) (place_read_write head items size)
  unfolding place_read_write
  read_write-Chosen head items s b below =
      place_behind-Chosen (head ∷ items) s rw_data_base size small pos below
        (All-map IsItem _ (head ∷ items) (λ it h. h.apart_rw)
          (Spaced-All ro_data_base (head ∷ items) s))
        refl (omega arith) _ start
    where
      start : Reaches rw_data_base (head ∷ items) 0 (
          if head.vaddr == ro_data_base
          then reach rw_data_base head items 0
          else reached 0 head items)
      start = elim (Bool-cases (head.vaddr == ro_data_base)) [
        | inl on ↦ rw on (reach-Reaches rw_data_base head items 0)
        | inr off ↦ rw off (0, omega arith, refl, ground (arith, b, off))
      ]

  kernel_mem-Chosen :
      (head : Item) (items : List Item)
      → Spaced ro_data_base (head ∷ items)
      → StartsAtBase (head ∷ items)
      → Chosen buf_para_base size (head ∷ items) (place_kernel_mem head items size)
  unfolding place_kernel_mem
  kernel_mem-Chosen head items s b =
      let all = Spaced-All ro_data_base (head ∷ items) s in
      place_behind-Chosen (head ∷ items) s buf_para_base size small pos
        (All-map IsItem _ (head ∷ items) (λ it h. omega (arith, h.high, h.positive)) all)
        (All-map IsItem _ (head ∷ items) (λ it h. h.apart_para) all) refl (omega arith) _ start
    where
      start : Reaches buf_para_base (head ∷ items) 0 (
          if (head.vaddr == ro_data_base) || (head.vaddr == rw_data_base)
          then reach buf_para_base head items 0
          else reached 0 head items)
      start = elim (Bool-cases ((head.vaddr == ro_data_base) || (head.vaddr == rw_data_base))) [
        | inl on ↦ rw on (reach-Reaches buf_para_base head items 0)
        | inr off ↦ rw off (0, omega arith, refl, ground (arith, b, off))
      ]

  -- What `allocMemory` makes of the items of a context.
  abbrev pub Outcome : BufferType → List Item → Type 0
  Outcome type items =
      (add_item type context_id kernel_id size items ≡ none)
      ⊎ ((vaddr : ℕ) × (items' : List Item) × (add_item type context_id kernel_id size items
            ≡ some (vaddr, items'))
          × Added (segment_base type) items (made vaddr) items')

  Chosen-Outcome :
      (type : BufferType) (head : Item) (items : List Item)
      → Spaced ro_data_base (head ∷ items)
      → StartsAtBase (head ∷ items)
      → Chosen (segment_base type) size (head ∷ items) (alloc_vaddr type head items size)
      → Outcome type (head ∷ items)
  unfolding add_item
  Chosen-Outcome type head items s b (inl e) = inl (rw e)
  Chosen-Outcome type head items s b (inr (spot, e, f, low, high)) = inr (
    spot.vaddr,
    insert_new_item (head ∷ items) spot (made spot.vaddr),
    rw e,
    inserted-Added type head items spot s b f low high,
  )

  first-IsItem : (type : BufferType) → IsItem (made (segment_base type))
  first-IsItem read_only = segment-IsItem read_only _ refl pos (omega arith) (omega arith)
  first-IsItem read_write = segment-IsItem read_write _ refl pos (omega arith) (omega arith)
  first-IsItem kernel_mem = segment-IsItem kernel_mem _ refl pos (omega arith) (omega arith)

  first_base : (type : BufferType) → StartsAtBase (made (segment_base type) ∷ [])
  first_base read_only = inl refl
  first_base read_write = inr (inl refl)
  first_base kernel_mem = inr (inr refl)

  first-Added :
      (type : BufferType)
      → Added (segment_base type) [] (made (segment_base type)) (made (segment_base type) ∷ [])
  first-Added type = record {
    spaced = ((first-IsItem type).low, first-IsItem type, tt);
    starts = first_base type;
    start = omega arith;
    finish = omega arith;
    k = 0;
    inserted = refl;
  }

  -- The first READ_ONLY buffer goes in front of the READ_WRITE ones.
  prepended-Outcome :
      (head : Item) (items : List Item)
      → Spaced ro_data_base (head ∷ items)
      → head.vaddr ≡ rw_data_base
      → Outcome read_only (head ∷ items)
  unfolding add_item alloc_vaddr place_read_only insert_new_item
  prepended-Outcome head items s e =
      let other : (head.vaddr == ro_data_base) ≡ false = ground arith in
      let here : (head.vaddr == rw_data_base) ≡ true = ground arith in
      inr (
        ro_data_base,
        made ro_data_base ∷ head ∷ items,
        rw (other, here),
        record {
          spaced = (
            omega arith,
            segment-IsItem read_only (made ro_data_base) refl pos (omega arith) (omega arith),
            (omega arith, s.1, s.2),
          );
          starts = inl refl;
          start = omega arith;
          finish = omega arith;
          k = 0;
          inserted = refl;
        },
      )

  -- A new buffer of a context whose items stand in order gets an address in the segment of its type,
  -- where it overlaps none of them, and the items stay and are in order with it; or there is an
  -- exception.
  pub add_item_lem :
      (type : BufferType) (items : List Item)
      → Spaced ro_data_base items
      → StartsAtBase items
      → HasRoom type items
      → Outcome type items
  unfolding add_item alloc_vaddr
  add_item_lem type [] s b r =
      inr (segment_base type, made (segment_base type) ∷ [], refl, first-Added type)
  add_item_lem read_only (head ∷ items) s (inl e) r =
      Chosen-Outcome read_only head items s (inl e)
        (read_only-Chosen (head ∷ items) s ro_data_base size small pos head items refl refl e)
  add_item_lem read_only (head ∷ items) s (inr (inl e)) r = prepended-Outcome head items s e
  add_item_lem read_only (head ∷ items) s (inr (inr e)) r = absurd (omega arith)
  add_item_lem read_write (head ∷ items) s b r =
      Chosen-Outcome read_write head items s b (read_write-Chosen head items s b r)
  add_item_lem kernel_mem (head ∷ items) s b r =
      Chosen-Outcome kernel_mem head items s b (kernel_mem-Chosen head items s b)
