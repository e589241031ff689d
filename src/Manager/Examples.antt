-- ===== src/Manager/Examples.antt =====
-- Instances and tests for addr::Manager of src/driver.h, on a context with two buffers.
use ventus_driver.Common.{
  ℕ, ◌≡◌, ◌≢◌, refl, ◌⊎◌, inl, inr, List, [], ◌∷◌, Option, none, some, false, Bool-cases, ◌==◌,
  ◌>>=◌, arith, subst,
}
use ventus_driver.Manager.{
  Item, Manager, BufferType, read_only, read_write, kernel_mem, empty_manager, lookup,
  create_new_context, alloc_memory, release_memory, find_context_id, follow, reach, aligned_size,
  ro_data_base,
}
use ventus_driver.Manager.Layout.{Spaced}
use ventus_driver.Manager.Place.{StartsAtBase}
use ventus_driver.Manager.Contexts.{IsOrdered, Placed, alloc_memory_lem, release_memory_lem}

abbrev buffer : ℕ → ℕ → Item
buffer vaddr size = record { krl_id = 0; task_id = 7; vaddr = vaddr; paddr = none; size = size }

abbrev buffers : List Item
buffers = buffer 0x40000000 64 ∷ buffer 0x60000000 4160 ∷ []

abbrev two_buffers : Manager
two_buffers = record { contexts = (7, buffers) ∷ [] }

vaddr_of : Option (ℕ × Manager) → ℕ
vaddr_of none = 0
vaddr_of (some r) = r.0

-- Two buffers one after the other, from a new context on.
two_buffers_made :
    (create_new_context empty_manager 7 >>= λ m.
    alloc_memory m 7 0 1 read_only >>= λ (a, m'). alloc_memory m' 7 0 4100 read_write)
    ≡ some (0x60000000, two_buffers)
unfolding create_new_context alloc_memory aligned_size lookup follow reach
two_buffers_made = refl

-- With a kernel buffer first, two READ_ONLY buffers get the same address.
same_address :
    (vaddr_of
        (alloc_memory (record { contexts = (7, buffer 0x80000000 64 ∷ []) ∷ [] }) 7 0 64 read_only)
      ≡ 0x40000000)
    × (vaddr_of (
          alloc_memory
            (record { contexts = (7, buffer 0x80000000 64 ∷ buffer 0x40000000 64 ∷ []) ∷ [] })
            7
            0
            64
            read_only)
        ≡ 0x40000000)
unfolding vaddr_of alloc_memory aligned_size lookup follow reach
same_address = (refl, refl)

buffers-Spaced : Spaced ro_data_base buffers
buffers-Spaced = (
  omega arith,
  record {
    aligned = refl;
    positive = omega arith;
    low = omega arith;
    apart_rw = inl (omega arith);
    apart_para = inl (omega arith);
    high = omega arith;
  },
  (
    omega arith,
    record {
      aligned = refl;
      positive = omega arith;
      low = omega arith;
      apart_rw = inr (omega arith);
      apart_para = inl (omega arith);
      high = omega arith;
    },
    tt,
  ),
)

two_buffers-IsOrdered : IsOrdered two_buffers
unfolding lookup
two_buffers-IsOrdered id items e = elim (Bool-cases (7 == id)) [
  | inl h ↦
      let only : buffers ≡ items = ground (arith, e, h) in
      subst (λ xs. Spaced ro_data_base xs × StartsAtBase xs) only (buffers-Spaced, inl refl)
  | inr h ↦ absurd (ground (arith, e, h))
]

alloc_memory_lem_example :
    (alloc_memory two_buffers 7 0 100 kernel_mem ≡ none)
    ⊎ ((vaddr : ℕ) × (m' : Manager) × (alloc_memory two_buffers 7 0 100 kernel_mem
          ≡ some (vaddr, m'))
        × Placed two_buffers 7 0 100 kernel_mem buffers vaddr m')
unfolding lookup
alloc_memory_lem_example =
    alloc_memory_lem two_buffers 7 0 100 kernel_mem buffers two_buffers-IsOrdered refl tt
      (omega arith)

release_memory_lem_example :
    (find_context_id (record { contexts = [] }) 7 ≡ false)
    × ((kernel_id size : ℕ) (type : BufferType)
        → alloc_memory (record { contexts = [] }) 7 kernel_id size type ≡ none)
    × ((j : ℕ) → j ≢ 7 → lookup [] j ≡ lookup two_buffers.contexts j)
unfolding release_memory
release_memory_lem_example =
    release_memory_lem two_buffers (record { contexts = [] }) 7 0x60000000 refl
