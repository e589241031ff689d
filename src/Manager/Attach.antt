-- ===== src/Manager/Attach.antt =====
-- Manager::attachPaddr of src/driver.h after an allocation of its buffer.
use ventus_driver.Common.{
  ℕ, zero, suc, ◌%◌, ◌*◌, ◌/◌, ◌+◌, ◌≡◌, ◌≢◌, ◌≤◌, refl, List, [], ◌∷◌, none, some, ◌==◌, All,
  insert_at, Bool-cases, inl, inr, ap, ◌∙◌, sym, subst, arith, true, Each, nothing, just, Each_some,
  Each-bind, Each-if, ltb,
}
use mathlib.Core.Option.{none-ne-some}
use ventus_driver.Manager.{
  Item, Manager, BufferType, read_write, read_only, kernel_mem, attach, attach_paddr, alloc_memory,
  add_item, aligned_size, block_size, lookup, update, segment_base, segment_room, new_item,
}
use ventus_driver.Manager.Layout.{IsItem, Spaced-All}
use ventus_driver.Manager.Contexts.{Placed, lookup-update_other}

All-inserted {ℓ} :
    (P : Item → Type ℓ) (k : ℕ) (new : Item) (items : List Item)
    → All P (insert_at k new items)
    → P new
All-inserted P zero new items a = a.0
All-inserted P (suc k) new [] a = a.0
All-inserted P (suc k) new (it ∷ items) a = All-inserted P k new items a.1

attach-next :
    (it : Item) (rest : List Item) (vaddr paddr : ℕ) (rest' : List Item)
    → attach rest vaddr paddr ≡ some rest'
    → (items' : List Item) × (attach (it ∷ rest) vaddr paddr ≡ some items')
unfolding attach
attach-next it rest vaddr paddr rest' e = elim (Bool-cases (it.vaddr == vaddr)) [
  | inl h ↦ (record it { paddr = some paddr } ∷ rest, rw (attach, h) refl)
  | inr h ↦ (it ∷ rest', rw (attach, h, e) refl)
]

attach-here :
    (it : Item) (rest : List Item) (paddr : ℕ)
    → attach (it ∷ rest) it.vaddr paddr ≡ some (record it { paddr = some paddr } ∷ rest)
unfolding attach
attach-here it rest paddr =
    let same : (it.vaddr == it.vaddr) ≡ true = ground arith in rw (attach, same) refl

attach-inserted :
    (k : ℕ) (new : Item) (items : List Item) (paddr : ℕ)
    → (items' : List Item) × (attach (insert_at k new items) new.vaddr paddr ≡ some items')
attach-inserted zero new items paddr = (_, attach-here new items paddr)
attach-inserted (suc k) new [] paddr = (_, attach-here new [] paddr)
attach-inserted (suc k) new (it ∷ items) paddr =
    let (items', e) = attach-inserted k new items paddr in
    attach-next it (insert_at k new items) new.vaddr paddr items' e

module _ {m m' : Manager} {context_id kernel_id size vaddr : ℕ} {type : BufferType}
    {items : List Item} (p : Placed m context_id kernel_id size type items vaddr m') where
  -- The address of a new buffer is on a page, below the end of the segments.
  pub Placed-page :
      (vaddr % 4096 ≡ 0)
      × (segment_base type ≤ vaddr)
      × (vaddr + (size + 63) / 64 * 64 ≤ segment_base type + segment_room)
  Placed-page =
      let all = Spaced-All _ p.items' p.added.spaced in
      let it = All-inserted IsItem p.added.k _ items (subst (All IsItem) p.added.inserted all) in
      (it.aligned, p.added.start, p.added.finish)

  -- The buffer is there to attach a physical address to.
  pub attach_paddr-Placed :
      (paddr : ℕ)
      → (m'' : Manager) × (attach_paddr m' context_id vaddr paddr ≡ some m'')
        × ((j : ℕ) → j ≢ context_id → lookup m''.contexts j ≡ lookup m.contexts j)
  unfolding attach_paddr
  attach_paddr-Placed paddr =
      let (items'', e) =
        attach-inserted p.added.k (new_item kernel_id context_id vaddr ((size + 63) / 64 * 64))
          items paddr in
      let e' = ap (λ xs. attach xs vaddr paddr) p.added.inserted ∙ e in
      (
        record { contexts = update m'.contexts context_id items'' },
        rw (attach_paddr, p.now, e') refl,
        λ j h. lookup-update_other m'.contexts context_id j items'' h ∙ p.others j h,
      )

pub segment_base-bounds : (type : BufferType) → segment_base type ≤ 0x80000000
segment_base-bounds read_only = omega arith
segment_base-bounds read_write = omega arith
segment_base-bounds kernel_mem = omega arith

lookup-update-none :
    (cs : List (ℕ × List Item)) (id j : ℕ) (new : List Item)
    → lookup cs j ≡ none
    → lookup (update cs id new) j ≡ none
unfolding lookup update
lookup-update-none [] id j new h = refl
lookup-update-none ((k, items) ∷ cs) id j new h = elim (Bool-cases (k == j)) [
  | inl e ↦ absurd (none-ne-some items (sym h ∙ rw (lookup, e) refl))
  | inr e ↦
      let rest : lookup cs j ≡ none = sym (rw (lookup, e) refl) ∙ h in
      elim (Bool-cases (k == id)) [
        | inl f ↦ rw (update, f) (rw (lookup, e) rest)
        | inr f ↦ rw (update, f) (rw (lookup, e) (lookup-update-none cs id j new rest))
      ]
]

-- An allocation makes no context.
pub alloc_memory-absent :
    (m m' : Manager) (context_id kernel_id size vaddr j : ℕ) (type : BufferType)
    → alloc_memory m context_id kernel_id size type ≡ some (vaddr, m')
    → lookup m.contexts j ≡ none
    → lookup m'.contexts j ≡ none
unfolding alloc_memory
alloc_memory-absent m m' context_id kernel_id size vaddr j type e h =
    Each_some {P = λ (r : ℕ × Manager). lookup r.1.contexts j ≡ none} (
      subst (Each (λ (r : ℕ × Manager). lookup r.1.contexts j ≡ none)) e (
        Each-if (size == 0) _ _ (λ z. nothing)
          (λ z. Each-bind (lookup m.contexts context_id) _ (λ items f.
            Each-if (ltb (aligned_size size block_size) segment_room) _ _
              (λ fits.
                Each-bind (add_item type context_id kernel_id (aligned_size size block_size) items)
                  _ (λ r g. just _ (lookup-update-none m.contexts context_id j r.1 h)))
              (λ large. nothing)))))
