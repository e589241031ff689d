-- ===== src/Driver/Reports.antt =====
-- Driver of src/driver.h: the wait for blocks that the GPU has finished, and the kernels and contexts
-- that they finish.
use ventus_driver.Common.{
  ℕ, zero, suc, ◌*◌, ◌/◌, ◌^◌, Bool, true, false, Option, none, some, List, [], ◌∷◌, ◌++◌,
  if◌then◌else◌, ◌>>=◌, bit_and, bit_or,
}
use ventus_driver.Processor.Ports.{Device}
use ventus_driver.Processor
use ventus_driver.Driver.{
  Driver, Context, Kernel, State, unfinish, finish, Result, returned, unfinished, ◌|>◌, defined,
  or_throw, context_finished,
}
use ventus_driver.Driver.Maps.{find, assign}
use ventus_driver.Driver.Kernels.{context_bits, kernel_bits, block_bits, sm_bits}

-- The numbers in a report: one bit of each is kept.
abbrev pub block_of : ℕ → ℕ
block_of report = bit_and (report / 2 ^ sm_bits) (2 ^ block_bits)

abbrev pub kernel_of : ℕ → ℕ
kernel_of report = bit_and (report / 2 ^ 7) (2 ^ kernel_bits)

abbrev pub context_of : ℕ → ℕ
context_of report = bit_and (report / 2 ^ 9) (2 ^ context_bits)

unfoldable pub blocks_finished : List (ℕ × State) → Bool
blocks_finished [] = true
blocks_finished ((id, s) ∷ bs) = elim s [ unfinish ↦ false | finish ↦ blocks_finished bs ]

-- A block of a kernel is finished; the last one finishes the kernel.
abbrev pub mark : Kernel → ℕ → Kernel
mark k block_id =
    let blk_list' = assign k.blk_list block_id finish in
    record k { blk_list = blk_list'; state = if blocks_finished blk_list' then finish else k.state }

abbrev pub run_delay : ℕ
run_delay = 100

module _ {D : Device} where
  abbrev pub finish_block : Driver D → ℕ → ℕ → ℕ → Context → Kernel → Driver D
  finish_block d context_id kernel_id block_id c k =
      let k' = mark k block_id in
      record d {
        contexts =
            assign d.contexts context_id (record c { krl_list = assign c.krl_list kernel_id k' });
        finished_kernels =
            if blocks_finished k'.blk_list
            then d.finished_kernels ++ (bit_or (context_id * 2 ^ context_bits) kernel_id ∷ [])
            else d.finished_kernels;
      }

  -- The driver after a report, or none for one that is of no block it knows.
  unfoldable pub take_report : Driver D → ℕ → Option (Driver D)
  unfolding blocks_finished
  take_report d report = find d.contexts (context_of report) >>= λ c.
      find c.krl_list (kernel_of report) >>= λ k. find k.blk_list (block_of report) >>= λ s.
      some (finish_block d (context_of report) (kernel_of report) (block_of report) c k)

  unfoldable pub take_reports : Driver D → List ℕ → Result (Driver D) ℕ
  unfolding take_report
  take_reports d [] = returned d 0
  take_reports d (r ∷ rs) = or_throw d (take_report d r) (λ d'. take_reports d' rs)

  -- The reports behind one that throws are lost: the queue is a copy.
  unfoldable pub wait : Driver D → ℕ → Result (Driver D) ℕ
  unfolding take_reports
  wait d time =
      defined (Processor.wait time d.processor)
        (λ (reports, p). take_reports (record d { processor = p }) reports)

  unfoldable pub get_finished_kernel : Driver D → List ℕ × Driver D
  get_finished_kernel d = (d.finished_kernels, record d { finished_kernels = [] })

  -- The loop over the contexts does not go on to the next one: it ends at the first context, if that
  -- has an unfinished kernel, and else only where there is none. `fuel` bounds its rounds.
  unfoldable pub all_context_finished : ℕ → Driver D → Option Bool
  all_context_finished zero d = none
  all_context_finished (suc fuel) d =
      let rest = all_context_finished fuel d in
      elim d.contexts [
        | [] ↦ some true
        | (id, c) ∷ cs ↦ if context_finished c then rest else some false
      ]

  -- The rounds that are left, and the kernels taken so far.
  unfoldable pub execute_loop : ℕ → ℕ → Driver D → List ℕ → Result (Driver D) (List ℕ)
  unfolding wait get_finished_kernel all_context_finished
  execute_loop fuel zero d tmp = returned d tmp
  execute_loop fuel (suc left) d tmp = elim (all_context_finished fuel d) [
    | none ↦ unfinished
    | some true ↦ returned d tmp
    | some false ↦
        let (taken, d1) = get_finished_kernel d in
        wait d1 run_delay |> λ d2 r. execute_loop fuel left d2 (tmp ++ taken)
  ]

  -- The counter ends the loop after 31 rounds.
  unfoldable pub execute_all_kernel : ℕ → Driver D → Result (Driver D) (List ℕ)
  unfolding execute_loop
  execute_all_kernel fuel d = execute_loop fuel 31 d []
