-- ===== src/Driver/Contexts.antt =====
-- Driver::create_device_mem, delete_device_mem and all_context_finished of src/driver.h.
use ventus_driver.Common.{
  ℕ, zero, suc, ◌≡◌, ◌≢◌, refl, ◌<◌, true, false, none, some, List, [], ◌∷◌, ltb, ◌==◌,
  if◌then◌else◌, ap, ◌∙◌, sym, arith, Bool-cases, Option-cases, ◌⊎◌, inl, inr,
}
use mathlib.Core.Option.{none-ne-some}
use ventus_driver.PhysicalMemory.{PhysicalMemory}
use ventus_driver.Memory.Tables.{Role, top, Tables, Grows, Unmapped}
use ventus_driver.Memory.Tables.Link.{assign}
use ventus_driver.Manager.{Manager, find_context_id, lookup}
use ventus_driver.Processor.Ports.{Device}
use ventus_driver.Driver.{
  Driver, Context, new_context, context_finished, Result, returned, thrown, with_ram,
}
use ventus_driver.Driver.Maps.{find, emplace, erase}
use ventus_driver.Driver.Buffers.{create_device_mem, delete_device_mem, add_context}
use ventus_driver.Driver.Reports.{all_context_finished, execute_all_kernel, execute_loop}

pub find-emplace {ℓ} :
    {A : Type ℓ} (m : List (ℕ × A)) (key : ℕ) (a : A)
    → find m key ≡ none
    → find (emplace m key a) key ≡ some a
unfolding find emplace
find-emplace [] key a h = ground arith
find-emplace ((k, old) ∷ m) key a h = elim (Bool-cases (k == key)) [
  | inl e ↦ absurd (none-ne-some old (sym h ∙ rw e refl))
  | inr e ↦ elim (Bool-cases (ltb key k)) [
    | inl l ↦ rw (e, l) (ground arith)
    | inr l ↦
        rw (e, l)
          (rw e (find-emplace m key a (ap (λ b. if b then some old else find m key) (sym e) ∙ h)))
  ]
]

pub find-emplace_other {ℓ} :
    {A : Type ℓ} (m : List (ℕ × A)) (key j : ℕ) (a : A)
    → j ≢ key
    → find (emplace m key a) j ≡ find m j
unfolding find emplace
find-emplace_other [] key j a h = let e : (key == j) ≡ false = ground arith in rw e refl
find-emplace_other ((k, old) ∷ m) key j a h = elim (Bool-cases (k == key)) [
  | inl e ↦ rw e refl
  | inr e ↦ elim (Bool-cases (ltb key k)) [
    | inl l ↦ let f : (key == j) ≡ false = ground arith in rw (e, l) (rw f refl)
    | inr l ↦ rw (e, l) (ap (λ o. if k == j then some old else o) (find-emplace_other m key j a h))
  ]
]

find-erase {ℓ} : {A : Type ℓ} (m : List (ℕ × A)) (key : ℕ) → find m key ≡ none → erase m key ≡ m
unfolding find erase
find-erase [] key h = refl
find-erase ((k, a) ∷ m) key h = elim (Bool-cases (k == key)) [
  | inl e ↦ absurd (none-ne-some a (sym h ∙ rw e refl))
  | inr e ↦ rw e (
      ap (λ r. (k, a) ∷ r)
        (find-erase m key (ap (λ b. if b then some a else find m key) (sym e) ∙ h)))
]

module _ {D : Device} where
  -- `delete_device_mem` removes no context: one that is there is refused, and for one that is not the
  -- contexts stay the same.
  pub delete_device_mem-keeps :
      (d : Driver D) (task_id : ℕ)
      → ((delete_device_mem d task_id ≡ thrown d) × (find d.contexts task_id ≢ none))
        ⊎ ((delete_device_mem d task_id ≡ returned d 0) × (find d.contexts task_id ≡ none))
  unfolding delete_device_mem
  delete_device_mem-keeps d task_id = elim (Option-cases (find d.contexts task_id)) [
    | inl e ↦ inr (
      rw (delete_device_mem, e)
          (ap (λ cs. returned (record d { contexts = cs }) 0) (find-erase d.contexts task_id e)),
      e,
    )
    | inr (c, e) ↦ inl (rw (delete_device_mem, e) refl, λ n. none-ne-some c (sym n ∙ e))
  ]

  -- What `create_device_mem` makes: a context with a root for the host, and one without buffers for the
  -- addresses; the others of both are as they were.
  pub record Created (d : Driver D) (role : ℕ → Role) (task_id : ℕ) : Type 0 where
    pub d' : Driver D
    pub root : ℕ
    pub makes : create_device_mem d task_id ≡ returned d' (if root == 0 then 1 else 0)
    pub context : find d'.contexts task_id ≡ some (record (new_context task_id) { root = root })
    pub others : (j : ℕ) → j ≢ task_id → find d'.contexts j ≡ find d.contexts j
    pub address : lookup d'.addr_mng.contexts task_id ≡ some []
    pub address_others :
        (j : ℕ) → j ≢ task_id → lookup d'.addr_mng.contexts j ≡ lookup d.addr_mng.contexts j
    pub page :
        ((root ≡ 0) × (d'.processor.ram ≡ d.processor.ram))
        ⊎ ((0 < root)
            × Grows role d.processor.ram (assign role root top) d'.processor.ram
            × ((va : ℕ) → Unmapped d'.processor.ram root va))

  module _ (d : Driver D) (role : ℕ → Role) (task_id : ℕ) (ts : Tables role d.processor.ram)
      (absent : find d.contexts task_id ≡ none)
      (unused : find_context_id d.addr_mng task_id ≡ false) where
    abbrev mng' : Manager
    mng' = record { contexts = (task_id, []) ∷ d.addr_mng.contexts }

    abbrev made : ℕ → PhysicalMemory → Driver D
    made root pm = add_context (with_ram (record d { addr_mng = mng' }) pm) task_id root

  -- While the first context has no unfinished kernel, `all_context_finished` does not end, whatever
  -- the rounds of its loop, and so `execute_all_kernel` does not either.
  pub execute_all_kernel-unfinished :
      (fuel : ℕ) (d : Driver D) (id : ℕ) (c : Context) (cs : List (ℕ × Context))
      → d.contexts ≡ (id, c) ∷ cs
      → context_finished c ≡ true
      → (all_context_finished fuel d ≡ none) × (execute_all_kernel fuel d ≡ Result.unfinished)
  unfolding execute_all_kernel execute_loop all_context_finished
  execute_all_kernel-unfinished fuel d id c cs e h =
      let loops = never_ends fuel in (loops, rw (execute_all_kernel, execute_loop, loops) refl)
    where
      never_ends : (fuel : ℕ) → all_context_finished fuel d ≡ none
      never_ends zero = refl
      never_ends (suc n) = rw (all_context_finished, e, h) (never_ends n)
