-- ===== src/Api/Upload.antt =====
-- vt_upload_kernel_bytes of src/ventus.cc. The text is a std::string of less than 2 ^ 30 characters, by
-- their codes. An int result of -1 is kept modulo `2 ^ 32`, as are the words.
use ventus_driver.Common.{
  ℕ, zero, suc, ◌+◌, ◌-◌, ◌*◌, ◌/◌, ◌%◌, ◌^◌, min, Bool, true, false, ◌||◌, ◌&&◌, Option, none,
  some, List, [], ◌∷◌, ltb, leb, ◌==◌, if◌then◌else◌, ◌>>=◌, length, drop,
}
use ventus_driver.Block.Bytes.{Buffer, to_bytes}
use ventus_driver.Manager.{kernel_mem}
use ventus_driver.Processor.Ports.{Device}
use ventus_driver.Driver.{Driver, Result, returned, thrown, undefined, ◌|>◌}
use ventus_driver.Api.{vt_malloc, vt_copy_to_dev}

-- `isspace`.
is_space : ℕ → Bool
is_space c = (c == 32) || (leb 9 c && leb c 13)

-- The value of a hexadecimal digit.
digit_of : ℕ → Option ℕ
digit_of c =
    if leb 48 c && leb c 57
    then some (c - 48)
    else if leb 65 c && leb c 70
    then some (c - 55)
    else if leb 97 c && leb c 102
    then some (c - 87)
    else none

skip_spaces : List ℕ → List ℕ
skip_spaces [] = []
skip_spaces (c ∷ cs) = if is_space c then skip_spaces cs else c ∷ cs

-- The number that the digits from here on make, after `acc`.
digits_value : ℕ → List ℕ → ℕ
digits_value acc [] = acc
digits_value acc (c ∷ cs) = elim (digit_of c) [
  | none ↦ acc
  | some d ↦ digits_value (acc * 16 + d) cs
]

starts_with_digit : List ℕ → Bool
starts_with_digit [] = false
starts_with_digit (c ∷ cs) = elim (digit_of c) [ none ↦ false | some d ↦ true ]

-- `0x` or `0X` in front of a digit is left out.
strip_prefix : List ℕ → List ℕ
strip_prefix [] = []
strip_prefix (a ∷ []) = a ∷ []
strip_prefix (a ∷ x ∷ cs) =
    if (a == 48) && ((x == 120) || (x == 88)) && starts_with_digit cs then cs else a ∷ x ∷ cs

magnitude : List ℕ → Option ℕ
magnitude cs =
    if starts_with_digit (strip_prefix cs) then some (digits_value 0 (strip_prefix cs)) else none

signed : List ℕ → Option ℕ
signed [] = none
signed (c ∷ cs) =
    if c == 43
    then magnitude cs
    else if c == 45
    then (magnitude cs >>= λ m. some ((2 ^ 64 - m) % 2 ^ 64))
    else magnitude (c ∷ cs)

-- `std::stoul` in base 16, which throws where there is no number. Eight digits are in its range.
unfoldable pub stoul : List ℕ → Option ℕ
unfolding signed skip_spaces magnitude strip_prefix starts_with_digit digits_value digit_of is_space
stoul cs = signed (skip_spaces cs)

take : ℕ → List ℕ → List ℕ
take zero cs = []
take (suc n) [] = []
take (suc n) (c ∷ cs) = c ∷ take n cs

-- `substr`, which throws past the end.
pub substr : List ℕ → ℕ → ℕ → Option (List ℕ)
unfolding take
substr text pos n = if ltb (length text) pos then none else some (take n (drop pos text))

-- The words from `i` on, `left` of them, or none after an exception.
unfoldable pub parse_words : ℕ → ℕ → List ℕ → Option (List ℕ)
unfolding stoul substr
parse_words zero i text = some []
parse_words (suc left) i text = substr text (i * 8) 8 >>= λ sub.
    stoul sub >>= λ w. parse_words left (suc i) text >>= λ ws. some (w % 2 ^ 32 ∷ ws)

abbrev pub transfer_size : ℕ
transfer_size = 65536

abbrev pub failure : ℕ
failure = 2 ^ 32 - 1

pub word_at : List ℕ → ℕ → ℕ
word_at [] i = 0
word_at (w ∷ ws) zero = w
word_at (w ∷ ws) (suc i) = word_at ws i

-- The bytes of the words, from word `offset` on.
abbrev pub chunk_bytes : List ℕ → ℕ → Buffer
chunk_bytes words offset = λ i. to_bytes (word_at words (offset + i / 4)) (i % 4)

module _ {D : Device} where
  -- One chunk of `n` bytes: copied from the words, allocated, printed word by word, and uploaded. What
  -- lies past the words may not be read.
  unfoldable pub upload_chunk :
      Option (Driver D) → List ℕ → ℕ → ℕ → ℕ → Result (Option (Driver D)) ℕ
  unfolding word_at
  upload_chunk h words offset n task_id =
      if ltb (length words * 4) (offset * 4 + n)
      then undefined
      else (vt_malloc h transfer_size (some 0) kernel_mem task_id 0 |> λ h1 (err, addr).
          if err == 0
          then (if ltb (length words) (offset + n)
              then undefined
              else vt_copy_to_dev h1 addr (some (chunk_bytes words offset)) n task_id 0)
          else returned h1 failure)

  -- The loop, over the chunks that are left.
  unfoldable pub upload_chunks :
      ℕ → Option (Driver D) → List ℕ → ℕ → ℕ → ℕ → Result (Option (Driver D)) ℕ
  unfolding upload_chunk
  upload_chunks zero h words offset size task_id = returned h 0
  upload_chunks (suc left) h words offset size task_id =
      let n = min transfer_size (size - offset) in
      upload_chunk h words offset n task_id |> λ h1 err.
      if err == 0 then upload_chunks left h1 words (offset + n) size task_id else returned h1 err

  -- The number of words is an int, and an array of none, or of a negative number, has no meaning.
  unfoldable pub vt_upload_kernel_bytes :
      Option (Driver D) → Option (List ℕ) → ℕ → ℕ → Result (Option (Driver D)) ℕ
  unfolding upload_chunks parse_words
  vt_upload_kernel_bytes h none size task_id = returned h failure
  vt_upload_kernel_bytes h (some text) size task_id =
      if size == 0
      then returned h failure
      else let num = size / 8 % 2 ^ 32 in
        if (num == 0) || ltb 0x7fffffff num then undefined else elim (parse_words num 0 text) [
          | none ↦ thrown h
          | some words ↦
              upload_chunks ((size + (transfer_size - 1)) / transfer_size) h words 0 size task_id
        ]
