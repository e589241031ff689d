-- ===== src/Manager/Contexts.antt =====
-- addr::Manager of src/driver.h: what allocMemory and releaseMemory do to the contexts.
use ventus_driver.Common.{
  ℕ, ◌+◌, ◌*◌, ◌/◌, ◌^◌, ◌≤◌, ◌<◌, ◌≡◌, ◌≢◌, refl, ◌⊎◌, inl, inr, List, [], ◌∷◌, none, some, false,
  Bool-cases, Option-cases, ltb, ◌==◌, if◌then◌else◌, arith, ap, ◌∙◌, subst, sym,
}
use native.Mathlib.Decide.{ℕ_discrete}
use ventus_driver.Manager.{
  Item, Manager, BufferType, segment_room, segment_base, ro_data_base, new_item, lookup, update,
  erase, alloc_memory, release_memory, holds_vaddr, find_context_id, aligned_size, block_size,
}
use ventus_driver.Manager.Layout.{Spaced, aligned_size_block}
use ventus_driver.Manager.Place.{StartsAtBase, HasRoom, Added, add_item_lem}

-- The items of every context stand in order.
abbrev pub IsOrdered : Manager → Type 0
IsOrdered m =
    (id : ℕ) (items : List Item)
    → lookup m.contexts id ≡ some items
    → Spaced ro_data_base items × StartsAtBase items

lookup-update :
    (cs : List (ℕ × List Item)) (id : ℕ) {old : List Item} (new : List Item)
    → lookup cs id ≡ some old
    → lookup (update cs id new) id ≡ some new
unfolding lookup update
lookup-update [] id new e = absurd (cc)
lookup-update ((k, items) ∷ cs) id {old = old} new e = elim (Bool-cases (k == id)) [
  | inl h ↦ rw (h, h)
  | inr h ↦ rw (h, h) (lookup-update cs id {old = old} new (ground (arith, e, h)))
]

pub lookup-update_other :
    (cs : List (ℕ × List Item)) (id j : ℕ) (new : List Item)
    → j ≢ id
    → lookup (update cs id new) j ≡ lookup cs j
unfolding lookup update
lookup-update_other [] id j new h = refl
lookup-update_other ((k, items) ∷ cs) id j new h = elim (Bool-cases (k == id)) [
  | inl e ↦ let f : (k == j) ≡ false = ground arith in rw (e, f)
  | inr e ↦ rw e (ap (λ x. if k == j then some items else x) (lookup-update_other cs id j new h))
]

lookup-erase : (cs : List (ℕ × List Item)) (id : ℕ) → lookup (erase cs id) id ≡ none
unfolding lookup erase
lookup-erase [] id = refl
lookup-erase ((k, items) ∷ cs) id = elim (Bool-cases (k == id)) [
  | inl e ↦ rw e (lookup-erase cs id)
  | inr e ↦ rw (e, e) (lookup-erase cs id)
]

lookup-erase_other :
    (cs : List (ℕ × List Item)) (id j : ℕ) → j ≢ id → lookup (erase cs id) j ≡ lookup cs j
unfolding lookup erase
lookup-erase_other [] id j h = refl
lookup-erase_other ((k, items) ∷ cs) id j h = elim (Bool-cases (k == id)) [
  | inl e ↦ let f : (k == j) ≡ false = ground arith in rw (e, f) (lookup-erase_other cs id j h)
  | inr e ↦ rw e (ap (λ x. if k == j then some items else x) (lookup-erase_other cs id j h))
]

-- A new state of the manager, with a buffer of a context placed.
pub record Placed (m : Manager) (context_id kernel_id size : ℕ) (type : BufferType)
    (items : List Item) (vaddr : ℕ) (m' : Manager) : Type 0 where
  pub ordered : IsOrdered m'
  pub items' : List Item
  pub now : lookup m'.contexts context_id ≡ some items'
  pub added :
      Added
        (segment_base type)
        items
        (new_item kernel_id context_id vaddr ((size + 63) / 64 * 64))
        items'
  pub others : (j : ℕ) → j ≢ context_id → lookup m'.contexts j ≡ lookup m.contexts j

IsOrdered-update :
    (m : Manager) (id : ℕ) (old new : List Item)
    → IsOrdered m
    → lookup m.contexts id ≡ some old
    → Spaced ro_data_base new
    → StartsAtBase new
    → IsOrdered (record { contexts = update m.contexts id new })
IsOrdered-update m id old new o e s b j items f = elim (ℕ_discrete j id) [
  | yes here ↦
      let g =
        sym (lookup-update m.contexts id new e)
        ∙ ap (lookup (update m.contexts id new)) (sym here)
        ∙ f in
      subst (λ (xs : List Item). Spaced ro_data_base xs × StartsAtBase xs) (cc g) (s, b)
  | no h ↦ o j items (sym (lookup-update_other m.contexts id j new h) ∙ f)
]

-- `allocMemory` of a size below 2^63, for a context whose items stand in order and leave room for the
-- type: for READ_WRITE no item stands at or above BUF_PARA_BASE, for READ_ONLY the first item stands
-- below it, and KERNEL_MEM asks for nothing. Either it throws, or the buffer, rounded up to blocks of 64
-- bytes, gets an address in its segment away from every other buffer of the context. All contexts are in
-- order again, and the others unchanged.
pub alloc_memory_lem :
    (m : Manager) (context_id kernel_id size : ℕ) (type : BufferType) (items : List Item)
    → IsOrdered m
    → lookup m.contexts context_id ≡ some items
    → HasRoom type items
    → size < 2 ^ 63
    → (alloc_memory m context_id kernel_id size type ≡ none)
      ⊎ ((vaddr : ℕ) × (m' : Manager) × (alloc_memory m context_id kernel_id size type
            ≡ some (vaddr, m'))
          × Placed m context_id kernel_id size type items vaddr m')
unfolding alloc_memory
alloc_memory_lem m context_id kernel_id size type items o e room small =
    elim (Bool-cases (size == 0)) [
      | inl z ↦ inl (rw z)
      | inr nz ↦ elim (Bool-cases (ltb (aligned_size size block_size) segment_room)) [
        | inr large ↦ inl (rw (nz, e, large))
        | inl fits ↦
            let rounded = aligned_size_block size small in
            let (s, b) = o context_id items e in
            let pos : 0 < aligned_size size block_size = ground (arith, rounded, nz) in
            let le : aligned_size size block_size ≤ segment_room = ground (arith, fits) in
            elim (add_item_lem context_id kernel_id (aligned_size size block_size) pos le type items
              s b room) [
                | inl none_is ↦ inl (rw (nz, e, fits, none_is))
                | inr (vaddr, items', made, a) ↦ inr (
                  vaddr,
                  record { contexts = update m.contexts context_id items' },
                  rw (nz, e, fits, made),
                  record {
                    ordered = IsOrdered-update m context_id items items' o e a.spaced a.starts;
                    items' = items';
                    now = lookup-update m.contexts context_id items' e;
                    added =
                        subst
                          (λ n.
                            Added (segment_base type) items (new_item kernel_id context_id vaddr n)
                              items')
                          rounded a;
                    others = λ j h. lookup-update_other m.contexts context_id j items' h;
                  },
                )
              ]
      ]
    ]

left_contexts :
    (m m' : Manager) (context_id vaddr : ℕ)
    → release_memory m context_id vaddr ≡ some m'
    → m'.contexts ≡ erase m.contexts context_id
unfolding release_memory
left_contexts m m' context_id vaddr e = elim (Option-cases (lookup m.contexts context_id)) [
  | inl f ↦ absurd (ground (arith, e, f))
  | inr (items, f) ↦ elim (Bool-cases (holds_vaddr items vaddr)) [
    | inl h ↦ ground (arith, e, f, h)
    | inr h ↦ absurd (ground (arith, e, f, h))
  ]
]

-- After `releaseMemory` of one buffer the whole context is gone, with every other buffer of it, and
-- an allocation for it throws. The other contexts are unchanged.
pub release_memory_lem :
    (m m' : Manager) (context_id vaddr : ℕ)
    → release_memory m context_id vaddr ≡ some m'
    → (find_context_id m' context_id ≡ false)
      × ((kernel_id size : ℕ) (type : BufferType)
          → alloc_memory m' context_id kernel_id size type ≡ none)
      × ((j : ℕ) → j ≢ context_id → lookup m'.contexts j ≡ lookup m.contexts j)
unfolding find_context_id alloc_memory
release_memory_lem m m' context_id vaddr e =
    let left = left_contexts m m' context_id vaddr e in
    let gone : lookup m'.contexts context_id ≡ none =
      ap (λ cs. lookup cs context_id) left ∙ lookup-erase m.contexts context_id in
    (
      rw (find_context_id, gone),
      λ kernel_id size type. elim (Bool-cases (size == 0)) [ inl z ↦ rw z | inr z ↦ rw (z, gone) ],
      λ j h. ap (λ cs. lookup cs j) left ∙ lookup-erase_other m.contexts context_id j h,
    )
