-- ===== src/Memory/Transfer.antt =====
-- Memory::write_virt and read_virt of src/device/memory.h inside one page.
use ventus_driver.Common.{
  ℕ, zero, suc, ◌+◌, ◌-◌, ◌*◌, ◌/◌, ◌%◌, ◌^◌, ◌≤◌, ◌<◌, ◌≡◌, refl, inl, inr, true, false, Option,
  some, arith, ap, ap₂, ◌∙◌, sym, ◌==◌, ◌>>=◌, u64, Bool-cases, Status, done, ◌&&◌, leb, ltb,
}
use ventus_driver.Common.Bits.{bit_and_shift, bit_and_ones}
use mathlib.Core.Path.{fun_ext}
use ventus_driver.Sv39.{page_size}
use ventus_driver.Block.Bytes.{Buffer, splice, splice_ext}
use ventus_driver.PhysicalMemory.{PhysicalMemory}
use ventus_driver.PhysicalMemory.Data.{write_data}
use ventus_driver.PhysicalMemory.Data.Ranges.{byte_at, spans, fill, byte_at-fill}
use ventus_driver.PhysicalMemory.Data.Shape.{fill-Alike, spans-Alike}
use ventus_driver.PhysicalMemory.Data.Arrays.{
  filled, filled-IsWellFormed, write_data-filled, read_data-spans,
}
use ventus_driver.Memory.{convert}
use ventus_driver.Memory.Access.{
  State, Action, Run, page_bits, finish_run, turn_page, act_loop, act_virt, read_run, write_run,
  read_virt, write_virt,
}
use ventus_driver.Memory.Tables.{Role, top, Tables, Mapped}
use ventus_driver.Memory.Translate.{convert-Mapped}
use ventus_driver.Memory.Contents.{InPage, Tables-filled, Mapped-filled}

page_bits_lem : (x : ℕ) → page_bits x ≡ x / 2 ^ 12 % 2 ^ 27 * 2 ^ 12
page_bits_lem x =
    bit_and_shift 12 x (2 ^ 27 - 1) ∙ ap (λ y. y * 2 ^ 12) (bit_and_ones 27 (x / 2 ^ 12))

module _ (action : Action) (root v : ℕ) where
  abbrev run_at : ℕ → ℕ → ℕ → Run
  run_at vpn len p = record { vpn = vpn; len = len; p_addr = p }

  -- The first turn finds the page, and no bytes before it.
  first_turn :
      (p : ℕ) (st : State)
      → turn_page action root v 0 (run_at 0 0 p) st
        ≡ some (run_at (page_bits (u64 (v + 0))) 0 p, st)
  unfolding turn_page finish_run
  first_turn p st = elim (Bool-cases (0 == page_bits (u64 (v + 0)))) [
    | inl e ↦ rw (turn_page, e) (ap (λ n. some (run_at n 0 p, st)) (ground (arith, e)))
    | inr e ↦ rw (turn_page, e) refl
  ]

  same_page :
      (it len p vpn : ℕ) (st : State)
      → page_bits (u64 (v + it)) ≡ vpn
      → turn_page action root v it (run_at vpn len p) st ≡ some (run_at vpn len p, st)
  unfolding turn_page
  same_page it len p vpn st e =
      let same : (vpn == page_bits (u64 (v + it))) ≡ true = ground (arith, e) in
      rw (turn_page, same) refl

  -- In one page the bytes gather in one run.
  act_loop-inside :
      (left it len p vpn n o : ℕ) (st : State)
      → ((k : ℕ) → it ≤ k → k < it + left → page_bits (u64 (v + k)) ≡ vpn)
      → 0 < p
      → n ≡ len + left
      → o ≡ it + left - n
      → act_loop left action root v it (run_at vpn len p) st
        ≡ (action p n o st >>= λ st'. some (done, st'))
  unfolding act_loop
  act_loop-inside zero it len p vpn n o st h pos e f =
      let same_len : len ≡ n = omega arith in
      let same_place : it - len ≡ o = omega arith in
      ap₂ (λ a b. action p a b st >>= λ st'. some (done, st')) same_len same_place
  act_loop-inside (suc left) it len p vpn n o st h pos e f =
      let some_page : (p == 0) ≡ false = ground arith in
      rw (act_loop, same_page it len p vpn st (h it (omega arith) (omega arith)), some_page)
        (act_loop-inside left (suc it) (suc len) p vpn n o st
          (λ k l u. h k (omega arith) (omega arith)) pos (omega arith) (omega arith))

  -- A range inside one page is one run.
  act_virt-inside :
      (size p : ℕ) (st : State)
      → convert st.0 root v ≡ some p
      → 0 < p
      → 0 < size
      → v % page_size + size ≤ page_size
      → v < 2 ^ 39
      → act_virt root v size action st ≡ (action p size 0 st >>= λ st'. some (done, st'))
  unfolding act_virt act_loop
  act_virt-inside zero p st e pos some_bytes fits low = absurd (omega arith)
  act_virt-inside (suc left) p st e pos some_bytes fits low =
      let some_page : (p == 0) ≡ false = ground arith in
      rw (act_virt, e, some_page)
        (rw (act_loop, first_turn p st, some_page)
          (act_loop-inside left 1 1 p (page_bits (u64 (v + 0))) (suc left) 0 st
            (λ k l u. page_bits_lem (u64 (v + k)) ∙ omega arith ∙ sym (page_bits_lem (u64 (v + 0))))
            pos (omega arith) (omega arith)))

module _ {role : ℕ → Role} {pm : PhysicalMemory} (ts : Tables role pm) (root v pa size : ℕ)
    (is_root : role root ≡ top) (m : Mapped pm root v pa) (pos : 0 < pa) (some_bytes : 0 < size)
    (page : InPage role pa (pa + v % page_size) size)
    (held : spans pm.blocks (pa + v % page_size) size ≡ true) (low : v < 2 ^ 39)
    (source : Buffer) where
  abbrev pub written : PhysicalMemory
  written = filled pm (pa + v % page_size) size source

  abbrev at_byte : ℕ
  at_byte = pa + v % page_size

  fits : at_byte + size < 2 ^ 64
  fits = omega (arith, page.high, page.small)

  in_page : v % page_size + size ≤ page_size
  in_page = omega (arith, page.high)

  from_start : (λ i. source (0 + i)) ≡ source
  from_start = fun_ext (λ i. ap source (omega arith))

  run_written : write_run at_byte size 0 (pm, source) ≡ some (written, source)
  unfolding write_run
  run_written =
      ap (λ b. write_data pm at_byte size b >>= λ (s, pm'). some (pm', source)) from_start
      ∙ ap (λ o. o >>= λ (s, pm'). some (pm', source))
          (write_data-filled pm ts.well at_byte size fits source)

  write_virt-inside : write_virt pm root v size source ≡ some (done, written)
  unfolding write_virt
  write_virt-inside =
      let e =
        act_virt-inside write_run root v size at_byte (pm, source)
          (convert-Mapped ts root v pa is_root m pos) (omega (arith, pos)) some_bytes in_page low in
      ap (λ (o : Option (Status × State)). o >>= λ (s, st). some (s, st.0))
        (e ∙ ap (λ (o : Option State). o >>= λ st'. some (done, st')) run_written)

  written_byte : (i : ℕ) → i < size → byte_at written.blocks (at_byte + i) ≡ source i
  written_byte i near =
      let here : (spans pm.blocks at_byte size
            && (leb at_byte (at_byte + i) && ltb (at_byte + i) (at_byte + size)))
          ≡ true =
        ground (arith, held, near) in
      let place : at_byte + i - at_byte ≡ i = omega arith in
      byte_at-fill 0 pm.blocks at_byte size (at_byte + i) source ts.well.order fits
      ∙ rw here (ap source place)

  still_held : spans written.blocks at_byte size ≡ true
  still_held =
      spans-Alike pm.blocks (fill pm.blocks at_byte size source) at_byte size
        (fill-Alike pm.blocks at_byte size source)
      ∙ held

  run_read :
      (out : Buffer)
      → read_run at_byte size 0 (written, out) ≡ some (written, splice out 0 size source)
  unfolding read_run
  run_read out =
      let bytes =
        read_data-spans written (filled-IsWellFormed pm ts.well at_byte size fits source) at_byte
          size fits (λ i. out (0 + i)) still_held in
      ap (λ (o : Option (Status × Buffer)). o >>= λ (s, got). some (written, splice out 0 size got))
        bytes
      ∙ ap (λ b. some (written, b)) (splice_ext out size _ source (λ i near. copied i near))
    where
      copied :
          (i : ℕ)
          → i < size
          → splice (λ j. out (0 + j)) 0 size (λ j. byte_at written.blocks (at_byte + j)) i
            ≡ source i
      copied i near =
          let inside : (leb 0 i && ltb i (0 + size)) ≡ true = ground (arith, near) in
          let place : i - 0 ≡ i = omega arith in
          rw inside (ap (λ x. byte_at written.blocks (at_byte + x)) place ∙ written_byte i near)

  read_virt-inside :
      (out : Buffer) → read_virt written root v size out ≡ some (done, splice out 0 size source)
  unfolding read_virt
  read_virt-inside out =
      let ts' = Tables-filled ts pa at_byte size page source in
      let m' = Mapped-filled ts pa at_byte size page source root v is_root m in
      let e =
        act_virt-inside read_run root v size at_byte (written, out)
          (convert-Mapped ts' root v pa is_root m' pos) (omega (arith, pos)) some_bytes in_page
          low in
      ap (λ (o : Option (Status × State)). o >>= λ (s, st). some (s, st.1))
        (e ∙ ap (λ (o : Option State). o >>= λ st'. some (done, st')) (run_read out))

  -- Bytes written by `write_virt` at a mapped address, inside a page of data, are what `read_virt` reads
  -- there, and the tables stay well formed.
  pub read_virt-write_virt :
      (out : Buffer)
      → (write_virt pm root v size source ≡ some (done, written))
        × Tables role written
        × Mapped written root v pa
        × (read_virt written root v size out ≡ some (done, splice out 0 size source))
  read_virt-write_virt out = (
    write_virt-inside,
    Tables-filled ts pa at_byte size page source,
    Mapped-filled ts pa at_byte size page source root v is_root m,
    read_virt-inside out,
  )
