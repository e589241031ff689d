-- ===== src/Driver/Blocks.antt =====
-- The numbers of blocks in Driver::start and Driver::wait of src/driver.h.
use ventus_driver.Common.{
  ℕ, zero, suc, ◌+◌, ◌*◌, ◌/◌, ◌^◌, ◌≤◌, ◌<◌, ◌≡◌, ◌≢◌, refl, ◌⊎◌, inl, inr, false, Option, none,
  some, List, [], ◌∷◌, ◌==◌, if◌then◌else◌, ap, ◌∙◌, sym, subst, arith, Bool-cases, Option-cases,
  leb, bit_or, u64, Each, nothing, just, Each_some, Each-bind,
}
use ventus_driver.Common.Bits.{bit_and-power, le-bit_or}
use mathlib.Core.Option.{none-ne-some}
use ventus_driver.Processor.Ports.{Device, HostPort}
use ventus_driver.Processor
use ventus_driver.Driver.{
  Codes, code, threw, no_meaning, no_end, Driver, Result, returned, thrown, undefined, unfinished,
  ◌|>◌, defined, or_throw,
}
use ventus_driver.Driver.Maps.{find, assign}
use ventus_driver.Driver.Kernels.{
  Meta, shift_left, wg_id, start, start_blocks, start_block, first_port, block_bits, kernel_bits,
  context_bits,
}
use ventus_driver.Driver.Reports.{
  take_report, take_reports, wait, context_of, kernel_of, block_of, finish_block,
}

-- The numbers that are read from a report are all but one bit 0.
pub context_of-values : (r : ℕ) → (context_of r ≡ 0) ⊎ (context_of r ≡ 4)
context_of-values r = omega (arith, bit_and-power 2 (r / 2 ^ 9))

find-assign_other {ℓ} :
    {A : Type ℓ} (m : List (ℕ × A)) (key j : ℕ) (a : A)
    → j ≢ key
    → find (assign m key a) j ≡ find m j
unfolding find assign
find-assign_other [] key j a h = refl
find-assign_other ((k, old) ∷ m) key j a h = elim (Bool-cases (k == key)) [
  | inl e ↦ let f : (k == j) ≡ false = ground arith in rw e (rw f refl)
  | inr e ↦ rw e (ap (λ o. if k == j then some old else o) (find-assign_other m key j a h))
]

-- What holds of the state an operation leaves, by its result or by an exception.
pub data Leaves {ℓ κ μ} {S : Type ℓ} {A : Type κ} (P : S → Type μ)
    : Result S A → Type (ℓ ⊔ κ ⊔ μ) where
  returns : (s : S) (a : A) → P s → Leaves P (returned s a)
  throws : (s : S) → P s → Leaves P (thrown s)
  stops : Leaves P undefined
  goes_on : Leaves P unfinished

module _ {D : Device} (id : ℕ) (not0 : id ≢ 0) (not4 : id ≢ 4) where
  abbrev Same : Driver D → Driver D → Type 0
  Same d d' = find d'.contexts id ≡ find d.contexts id

  take_report-other : (d : Driver D) (r : ℕ) → Each (Same d) (take_report d r)
  unfolding take_report
  take_report-other d r = Each-bind (find d.contexts (context_of r)) _ (λ c e.
      Each-bind (find c.krl_list (kernel_of r)) _ (λ k f.
        Each-bind (find k.blk_list (block_of r)) _ (λ s g.
          just (finish_block d (context_of r) (kernel_of r) (block_of r) c k) (
            find-assign_other d.contexts (context_of r) id _ (elim (context_of-values r) [
              | inl z ↦ λ same. not0 (same ∙ z)
              | inr f ↦ λ same. not4 (same ∙ f)
            ])))))

  Leaves-after :
      (d d' : Driver D)
      → Same d d'
      → {x : Result (Driver D) ℕ} → Leaves (Same d') x
      → Leaves (Same d) x
  Leaves-after d d' e (returns s a h) = returns s a (h ∙ e)
  Leaves-after d d' e (throws s h) = throws s (h ∙ e)
  Leaves-after d d' e stops = stops
  Leaves-after d d' e goes_on = goes_on

  report_taken :
      (d : Driver D) (rs : List ℕ) {o : Option (Driver D)}
      → Each (Same d) o
      → ((d' : Driver D) → Leaves (Same d') (take_reports d' rs))
      → Leaves (Same d) (or_throw d o (λ d'. take_reports d' rs))
  report_taken d rs nothing rest = throws d refl
  report_taken d rs (just d' h) rest = Leaves-after d d' h (rest d')

  take_reports-other : (d : Driver D) (rs : List ℕ) → Leaves (Same d) (take_reports d rs)
  unfolding take_reports
  take_reports-other d [] = returns d 0 refl
  take_reports-other d (r ∷ rs) =
      report_taken d rs (take_report-other d r) (λ d'. take_reports-other d' rs)

  -- A wait changes no context but those of numbers 0 and 4, whether it returns or throws: the masks
  -- that take a report apart keep one bit of each number.
  pub wait-other : (d : Driver D) (time : ℕ) → Leaves (Same d) (wait d time)
  unfolding wait
  wait-other d time = go (Processor.wait time d.processor)
    where
      go :
          (o : Option (List ℕ × Processor.Processor D))
          → Leaves
              (Same d)
              (defined o (λ (reports, p). take_reports (record d { processor = p }) reports))
      go none = stops
      go (some (reports, p)) = take_reports-other (record d { processor = p }) reports

few_places : (i : ℕ) → leb 64 (bit_or block_bits i) ≡ false → i < 64
few_places i h = ground (arith, le-bit_or block_bits i)

places : (b i c : ℕ) → shift_left b (bit_or block_bits i) ≡ some c → i < 64
unfolding shift_left
places b i c g = elim (Bool-cases (leb 64 (bit_or block_bits i))) [
  | inl far ↦ absurd (none-ne-some c (sym (rw (shift_left, far) refl) ∙ g))
  | inr near ↦ few_places i near
]

wg_id_few : (k t i : ℕ) → Each (λ id. i < 64) (wg_id k t i)
unfolding wg_id
wg_id_few k t i = Each-bind (shift_left k context_bits) _ (λ a e.
    Each-bind (shift_left (bit_or a t) (bit_or kernel_bits k)) _
      (λ b f. Each-bind (shift_left b (bit_or block_bits i)) _ (λ c g. just _ (places b i c g))))

module _ {D : Device} where
  Codes-map :
      {P Q : Type 0}
      → (P → Q)
      → {r : Result (Driver D) ℕ} → Codes (λ (a : ℕ). P) r
      → Codes (λ (a : ℕ). Q) r
  Codes-map f (code s a h) = code s a (f h)
  Codes-map f (threw s) = threw s
  Codes-map f no_meaning = no_meaning
  Codes-map f no_end = no_end

  Codes-bind :
      {Q : Type 0} (r : Result (Driver D) HostPort) (k : Driver D → HostPort → Result (Driver D) ℕ)
      → ((d' : Driver D) (port : HostPort) → Codes (λ (a : ℕ). Q) (k d' port))
      → Codes (λ (a : ℕ). Q) (r |> k)
  Codes-bind (returned d' a) k h = h d' a
  Codes-bind (thrown d') k h = threw d'
  Codes-bind undefined k h = no_meaning
  Codes-bind unfinished k h = no_end

  start_block-places :
      (fuel : ℕ) (d : Driver D) (t k i : ℕ) (port : HostPort)
      → (start_block fuel d t k i port ≡ undefined) ⊎ (i < 64)
  unfolding start_block
  start_block-places fuel d t k i port = elim (Option-cases (wg_id k t i)) [
    | inl e ↦ inl (rw (start_block, e) refl)
    | inr (id, e) ↦ inr (Each_some (subst (Each (λ id. i < 64)) e (wg_id_few k t i)))
  ]

  start_blocks-few :
      (left fuel : ℕ) (d : Driver D) (t k i : ℕ) (port : HostPort)
      → Codes (λ (a : ℕ). ((left ≡ 0) ⊎ (i + left ≤ 64))) (start_blocks fuel left d t k i port)
  unfolding start_blocks
  start_blocks-few zero fuel d t k i port = code d 0 (inl refl)
  start_blocks-few (suc left) fuel d t k i port = elim (start_block-places fuel d t k i port) [
    | inl e ↦ rw (start_blocks, e) no_meaning
    | inr l ↦
        Codes-bind (start_block fuel d t k i port)
          (λ d' port'. start_blocks fuel left d' t k (suc i) port')
          (λ d' port'.
            Codes-map (λ h. further h l) (start_blocks-few left fuel d' t k (suc i) port'))
  ]
    where
      further : (left ≡ 0) ⊎ (suc i + left ≤ 64) → i < 64 → (suc left ≡ 0) ⊎ (i + suc left ≤ 64)
      further h l = omega arith

  -- A kernel of more than 64 blocks is not started to the end: the number of block 64 is a shift by 64
  -- places or more, which has no meaning.
  pub start-few :
      (fuel : ℕ) (old : HostPort) (d : Driver D) (task_id : ℕ) (m : Meta)
      → Codes
          (λ (a : ℕ). (u64 (m.kernel_size_0 * m.kernel_size_1 * m.kernel_size_2) ≤ 64))
          (start fuel old d task_id m)
  unfolding start
  start-few fuel old d task_id m = elim (Option-cases (find d.contexts task_id)) [
    | inl e ↦ rw (start, e) (threw d)
    | inr (c, e) ↦
        rw (start, e)
          (Codes-map (λ h. omega arith)
            (start_blocks-few (u64 (m.kernel_size_0 * m.kernel_size_1 * m.kernel_size_2)) fuel d
              task_id m.kernel_id 0 (first_port m old)))
  ]
