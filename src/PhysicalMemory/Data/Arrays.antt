-- ===== src/PhysicalMemory/Data/Arrays.antt =====
-- The accesses of src/device/page.h to ranges and arrays, on a well-formed memory: all are defined
-- and keep it well formed.
use ventus_driver.Common.{
  ℕ, zero, suc, ◌+◌, ◌*◌, ◌/◌, ◌%◌, ◌^◌, ◌≤◌, ◌<◌, ◌≡◌, refl, inl, inr, true, Option, none, some,
  arith, ◌==◌, if◌then◌else◌, Bool-cases, Option-cases, u64, ◌>>=◌, Status, done, failed, ◌∙◌, sym,
  ap,
}
use ventus_driver.Block.Bytes.{Buffer, splice, to_bytes, from_bytes}
use ventus_driver.PhysicalMemory.{PhysicalMemory}
use ventus_driver.PhysicalMemory.Invariant.{IsWellFormed}
use ventus_driver.PhysicalMemory.Data.{
  write_data, read_data, write_value, write_masked, write_array, read_array, mask_bit, data_of,
}
use ventus_driver.PhysicalMemory.Data.Ranges.{byte_at, spans, fill, read_blocks-Reads, write-fill}
use ventus_driver.PhysicalMemory.Data.Shape.{fill-Alike, IsWellFormed-Alike}

abbrev pub filled : PhysicalMemory → ℕ → ℕ → Buffer → PhysicalMemory
filled pm a n source = record pm { blocks = fill pm.blocks a n source }

module _ (pm : PhysicalMemory) (w : IsWellFormed pm) (a n : ℕ) (small : a + n < 2 ^ 64) where
  pub write_data-filled :
      (source : Buffer)
      → write_data pm a n source
        ≡ some (if spans pm.blocks a n then done else failed, filled pm a n source)
  unfolding write_data
  write_data-filled source = rw (write-fill 0 pm.blocks a n source w.order w.frames small)

  pub filled-IsWellFormed : (source : Buffer) → IsWellFormed (filled pm a n source)
  filled-IsWellFormed source =
      IsWellFormed-Alike pm (fill pm.blocks a n source) (fill-Alike pm.blocks a n source) w

  pub read_data-total :
      (out : Buffer) → (s : Status) × (out' : Buffer) × (read_data pm a n out ≡ some (s, out'))
  unfolding read_data
  read_data-total out =
      let (x, e, answer) = read_blocks-Reads 0 pm.blocks a n out w.order w.frames small in
      ((data_of out x).0, (data_of out x).1, rw e)

  pub read_data-spans :
      (out : Buffer)
      → spans pm.blocks a n ≡ true
      → read_data pm a n out ≡ some (done, splice out 0 n (λ i. byte_at pm.blocks (a + i)))
  unfolding read_data
  read_data-spans out s =
      let (x, e, answer) = read_blocks-Reads 0 pm.blocks a n out w.order w.frames small in
      elim answer [ inl (s', h) ↦ rw (e, h) | inr (s', h) ↦ absurd (cc) ]

-- One element of a masked write.
write_one : ℕ → PhysicalMemory → ℕ → Buffer → Buffer → ℕ → Option (Status × PhysicalMemory)
write_one width pm addr v mask i =
    if mask_bit mask i == 1
    then write_value width pm (u64 (addr + i * width)) (v i)
    else some (done, pm)

write_masked-none :
    (width left : ℕ) (pm : PhysicalMemory) (addr : ℕ) (v mask : Buffer) (i : ℕ)
    → write_one width pm addr v mask i ≡ none
    → write_masked width (suc left) pm addr v mask i ≡ none
unfolding write_masked write_one
write_masked-none width left pm addr v mask i e = rw (write_masked, e)

write_masked-some :
    (width left : ℕ) (pm : PhysicalMemory) (addr : ℕ) (v mask : Buffer) (i : ℕ) (s : Status)
    (pm' : PhysicalMemory)
    → write_one width pm addr v mask i ≡ some (s, pm')
    → write_masked width (suc left) pm addr v mask i
      ≡ write_masked width left pm' addr v mask (suc i)
unfolding write_masked write_one
write_masked-some width left pm addr v mask i s pm' e = rw (write_masked, e)

-- The values past the end of an array are not looked at.
write_masked_ext :
    (width left : ℕ) (pm : PhysicalMemory) (addr : ℕ) (v v' mask : Buffer) (i : ℕ)
    → ((k : ℕ) → i ≤ k → k < i + left → v k ≡ v' k)
    → write_masked width left pm addr v mask i ≡ write_masked width left pm addr v' mask i
unfolding write_masked write_one
write_masked_ext width zero pm addr v v' mask i h = refl
write_masked_ext width (suc left) pm addr v v' mask i h =
    let one : write_one width pm addr v mask i ≡ write_one width pm addr v' mask i =
      ap
        (λ x.
          if mask_bit mask i == 1
          then write_value width pm (u64 (addr + i * width)) x
          else some (done, pm))
        (h i (omega arith) (omega arith)) in
    elim (Option-cases (write_one width pm addr v' mask i)) [
      | inl e ↦
          write_masked-none width left pm addr v mask i (one ∙ e)
          ∙ sym (write_masked-none width left pm addr v' mask i e)
      | inr ((s, pm'), e) ↦
          write_masked-some width left pm addr v mask i s pm' (one ∙ e)
          ∙ write_masked_ext width left pm' addr v v' mask (suc i)
              (λ k l u. h k (omega arith) (omega arith))
          ∙ sym (write_masked-some width left pm addr v' mask i s pm' e)
    ]

write_one-total :
    (pm : PhysicalMemory) (addr : ℕ) (v mask : Buffer) (i : ℕ)
    → IsWellFormed pm
    → addr + i * 4 < 2 ^ 63
    → (s : Status) × (pm' : PhysicalMemory) × (write_one 4 pm addr v mask i ≡ some (s, pm'))
      × IsWellFormed pm'
unfolding write_one write_value
write_one-total pm addr v mask i w small = elim (Bool-cases (mask_bit mask i == 1)) [
  | inl on ↦
      let at_i : u64 (addr + i * 4) ≡ addr + i * 4 = omega arith in
      let bytes = to_bytes (v i) in
      (
        (if spans pm.blocks (addr + i * 4) 4 then done else failed),
        filled pm (addr + i * 4) 4 bytes,
        rw (on, at_i) (write_data-filled pm w (addr + i * 4) 4 (omega arith) bytes),
        filled-IsWellFormed pm w (addr + i * 4) 4 (omega arith) bytes,
      )
  | inr off ↦ (done, pm, rw off, w)
]

write_masked-total :
    (left : ℕ) (pm : PhysicalMemory) (addr : ℕ) (v mask : Buffer) (i : ℕ)
    → IsWellFormed pm
    → addr + (i + left) * 4 < 2 ^ 63
    → (pm' : PhysicalMemory) × (write_masked 4 left pm addr v mask i ≡ some pm') × IsWellFormed pm'
unfolding write_masked
write_masked-total zero pm addr v mask i w small = (pm, refl, w)
write_masked-total (suc left) pm addr v mask i w small =
    let (s, pm1, e, w1) = write_one-total pm addr v mask i w (omega arith) in
    let (pm', f, w') = write_masked-total left pm1 addr v mask (suc i) w1 (omega arith) in
    (pm', write_masked-some 4 left pm addr v mask i s pm1 e ∙ f, w')

pub write_array_ext :
    (width : ℕ) (pm : PhysicalMemory) (addr num : ℕ) (v v' mask : Buffer)
    → ((k : ℕ) → k < num → v k ≡ v' k)
    → write_array width pm addr num v (some mask) ≡ write_array width pm addr num v' (some mask)
unfolding write_array
write_array_ext width pm addr num v v' mask h =
    ap (λ r. r >>= λ pm'. some (done, pm'))
      (write_masked_ext width num pm addr v v' mask 0 (λ k l u. h k (omega arith)))

pub write_array-total :
    (pm : PhysicalMemory) (addr num : ℕ) (v mask : Buffer)
    → IsWellFormed pm
    → addr + num * 4 < 2 ^ 63
    → (pm' : PhysicalMemory) × (write_array 4 pm addr num v (some mask) ≡ some (done, pm'))
      × IsWellFormed pm'
unfolding write_array
write_array-total pm addr num v mask w small =
    let (pm', e, w') = write_masked-total num pm addr v mask 0 w (omega arith) in (pm', rw e, w')

read_array_known :
    (pm : PhysicalMemory) (addr num : ℕ) (out raw : Buffer) (s : Status)
    → read_data pm addr (u64 (num * 4)) (λ i. to_bytes (out (i / 4)) (i % 4)) ≡ some (s, raw)
    → read_array 4 pm addr num out none ≡ some (done, λ i. from_bytes 4 (λ j. raw (i * 4 + j)))
unfolding read_array
read_array_known pm addr num out raw s e = rw e

pub read_array-total :
    (pm : PhysicalMemory) (addr num : ℕ) (out : Buffer)
    → IsWellFormed pm
    → addr + num * 4 < 2 ^ 63
    → (out' : Buffer) × (read_array 4 pm addr num out none ≡ some (done, out'))
read_array-total pm addr num out w small =
    let (s, raw, e) =
      read_data-total pm w addr (u64 (num * 4)) (omega arith)
        (λ i. to_bytes (out (i / 4)) (i % 4)) in
    ((λ i. from_bytes 4 (λ j. raw (i * 4 + j))), read_array_known pm addr num out raw s e)
