-- ===== src/Api/Kernel.antt =====
-- vt_upload_kernel_bytes of src/ventus.cc reads past the end of its array of words.
use ventus_driver.Common.{
  ℕ, zero, suc, ◌+◌, ◌-◌, ◌*◌, ◌/◌, ◌%◌, ◌^◌, ◌≤◌, ◌<◌, ◌≡◌, ◌≢◌, refl, min, true, false, ◌||◌,
  Option, none, some, List, [], ltb, ◌==◌, if◌then◌else◌, arith, ap, subst, Bool-cases,
  Option-cases, inl, inr, length, Each, just, Each_some, Each-bind,
}
use ventus_driver.Processor.Ports.{Device}
use ventus_driver.Driver.{
  Codes, code, threw, no_meaning, no_end, Driver, Result, returned, thrown, undefined, unfinished,
  ◌|>◌,
}
use ventus_driver.Manager.{kernel_mem}
use ventus_driver.Api.{vt_malloc}
use ventus_driver.Api.Upload.{
  vt_upload_kernel_bytes, upload_chunks, upload_chunk, parse_words, stoul, substr, transfer_size,
  failure,
}

abbrev pub NonZero : ℕ → Type 0
NonZero n = n ≢ 0

parse_words-length :
    (left i : ℕ) (text : List ℕ) → Each (λ ws. length ws ≡ left) (parse_words left i text)
unfolding parse_words
parse_words-length zero i text = just [] refl
parse_words-length (suc left) i text = Each-bind (substr text (i * 8) 8) _ (λ sub e.
    Each-bind (stoul sub) _ (λ w f. Each-bind (parse_words left (suc i) text) _ (λ ws g. just _ (
      ap suc (
        Each_some
          (subst (Each (λ xs. length xs ≡ left)) g (parse_words-length left (suc i) text)))))))

module _ {D : Device} where
  Codes-then :
      {P : ℕ → Type 0} (r : Result (Option (Driver D)) ℕ)
      (k : Option (Driver D) → ℕ → Result (Option (Driver D)) ℕ)
      → Codes P r
      → ((h : Option (Driver D)) (n : ℕ) → P n → Codes NonZero (k h n))
      → Codes NonZero (r |> k)
  Codes-then r k (code s a p) f = f s a p
  Codes-then r k (threw s) f = threw s
  Codes-then r k no_meaning f = no_meaning
  Codes-then r k no_end f = no_end

  Codes-pair :
      (r : Result (Option (Driver D)) (ℕ × ℕ))
      (k : Option (Driver D) → ℕ × ℕ → Result (Option (Driver D)) ℕ)
      → ((h : Option (Driver D)) (a : ℕ × ℕ) → Codes NonZero (k h a))
      → Codes NonZero (r |> k)
  Codes-pair (returned h a) k f = f h a
  Codes-pair (thrown h) k f = threw h
  Codes-pair undefined k f = no_meaning
  Codes-pair unfinished k f = no_end

  anything : (r : Result (Option (Driver D)) ℕ) → Codes (λ n. Unit {0}) r
  anything (returned h n) = code h n tt
  anything (thrown h) = threw h
  anything undefined = no_meaning
  anything unfinished = no_end

  -- The last chunk ends past the words.
  last_chunk :
      (h : Option (Driver D)) (words : List ℕ) (offset n task_id : ℕ)
      → length words < offset + n
      → Codes NonZero (upload_chunk h words offset n task_id)
  unfolding upload_chunk
  last_chunk h words offset n task_id past =
      elim (Bool-cases (ltb (length words * 4) (offset * 4 + n))) [
        | inl e ↦ rw (upload_chunk, e) no_meaning
        | inr e ↦
            let beyond : ltb (length words) (offset + n) ≡ true = ground (arith, past) in
            rw (upload_chunk, e, beyond)
              (Codes-pair (vt_malloc h transfer_size (some 0) kernel_mem task_id 0) _ (λ h1 a.
                elim (Bool-cases (a.0 == 0)) [
                  | inl z ↦ rw z no_meaning
                  | inr z ↦ rw z (code h1 failure (omega arith))
                ]))
      ]

  abbrev next_chunk : ℕ → List ℕ → ℕ → ℕ → ℕ → Option (Driver D) → ℕ → Result (Option (Driver D)) ℕ
  next_chunk left words offset size task_id h1 err =
      if err == 0 then upload_chunks left h1 words offset size task_id else returned h1 err

  stops_on_error :
      (left : ℕ) (words : List ℕ) (offset size task_id : ℕ) (h : Option (Driver D)) (err : ℕ)
      → NonZero err
      → Codes NonZero (next_chunk left words offset size task_id h err)
  stops_on_error left words offset size task_id h err e =
      let some_error : (err == 0) ≡ false = ground arith in rw some_error (code h err e)

  chunks_fail :
      (left : ℕ) (h : Option (Driver D)) (words : List ℕ) (offset size task_id : ℕ)
      → length words < size
      → offset < size
      → size ≤ offset + left * transfer_size
      → Codes NonZero (upload_chunks left h words offset size task_id)
  unfolding upload_chunks
  chunks_fail zero h words offset size task_id few more enough = absurd (omega arith)
  chunks_fail (suc left) h words offset size task_id few more enough =
      elim (Bool-cases (ltb (offset + transfer_size) size)) [
        | inr e ↦
            let whole : min transfer_size (size - offset) ≡ size - offset = ground (arith, e) in
            rw (upload_chunks, whole)
              (Codes-then (upload_chunk h words offset (size - offset) task_id) _
                (last_chunk h words offset (size - offset) task_id (omega arith))
                (λ h1 err p.
                  stops_on_error left words (offset + (size - offset)) size task_id h1 err p))
        | inl e ↦
            let part : min transfer_size (size - offset) ≡ transfer_size = ground (arith, e) in
            rw (upload_chunks, part)
              (Codes-then (upload_chunk h words offset transfer_size task_id) _
                (anything (upload_chunk h words offset transfer_size task_id))
                (λ h1 err p. elim (Bool-cases (err == 0)) [
                  | inl z ↦ rw z (
                      chunks_fail left h1 words (offset + transfer_size) size task_id few
                        (ground (arith, e)) (omega arith))
                  | inr z ↦ rw z (code h1 err (ground (arith, z)))
                ]))
      ]

  -- `vt_upload_kernel_bytes` never returns 0: the last of its chunks ends past the words that it parsed,
  -- of which there are an eighth of the size at most.
  pub vt_upload_kernel_bytes-fails :
      (h : Option (Driver D)) (text : Option (List ℕ)) (size task_id : ℕ)
      → size < 2 ^ 64
      → Codes NonZero (vt_upload_kernel_bytes h text size task_id)
  unfolding vt_upload_kernel_bytes
  vt_upload_kernel_bytes-fails h none size task_id small = code h failure (omega arith)
  vt_upload_kernel_bytes-fails h (some text) size task_id small = elim (Bool-cases (size == 0)) [
    | inl z ↦ rw (vt_upload_kernel_bytes, z) (code h failure (omega arith))
    | inr z ↦ elim (Bool-cases ((num == 0) || ltb 0x7fffffff num)) [
      | inl bad ↦ rw (vt_upload_kernel_bytes, z, bad) no_meaning
      | inr good ↦ elim (Option-cases (parse_words num 0 text)) [
        | inl e ↦ rw (vt_upload_kernel_bytes, z, good, e) (threw h)
        | inr (words, e) ↦
            let count =
              Each_some (subst (Each (λ xs. length xs ≡ num)) e (parse_words-length num 0 text)) in
            rw (vt_upload_kernel_bytes, z, good, e)
              (chunks_fail ((size + (transfer_size - 1)) / transfer_size) h words 0 size task_id
                (ground (arith, count, z)) (ground (arith, z)) (omega arith))
      ]
    ]
  ]
    where
      num : ℕ
      num = size / 8 % 2 ^ 32
