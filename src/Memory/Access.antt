-- ===== src/Memory/Access.antt =====
-- Memory::act_virt, read_virt, write_virt, read_phy and write_phy of src/device/memory.h: access to
-- memory by virtual addresses, page by page, and by physical ones.
use Prim.Native.Nat.{zero}
use ventus_driver.Common.{
  ℕ, suc, ◌+◌, ◌-◌, Option, some, ◌==◌, if◌then◌else◌, ◌>>=◌, u64, bit_and, Status, done, failed,
}
use ventus_driver.Block.Bytes.{Buffer, splice}
use ventus_driver.PhysicalMemory.{PhysicalMemory}
use ventus_driver.PhysicalMemory.Data.{
  read_data, write_data, read_value, write_value, read_array, write_array,
}
use ventus_driver.Memory.{convert}

-- The memory, and the buffer of the caller.
abbrev pub State : Type 0
State = PhysicalMemory × Buffer

-- What is done with a run of bytes: its physical address, its length, and its place in the buffer.
abbrev pub Action : Type 0
Action = ℕ → ℕ → ℕ → State → Option State

-- The locals of the loop: the page that is being walked through, the bytes seen of it, and the
-- physical address of the first of them.
pub record Run : Type 0 where
  pub vpn : ℕ
  pub len : ℕ
  pub p_addr : ℕ

abbrev pub page_bits : ℕ → ℕ
page_bits v = bit_and v 0x7ffffff000

-- The end of a run at offset `it`: the action, and the address of the next run.
unfoldable pub finish_run : Action → ℕ → ℕ → ℕ → Run → State → Option (ℕ × State)
unfolding convert
finish_run action root v_addr it run st =
    if run.len == 0
    then some (run.p_addr, st)
    else (action run.p_addr run.len (it - run.len) st >>= λ st'.
        convert st'.0 root (u64 (v_addr + it)) >>= λ p. some (p, st'))

unfoldable pub turn_page : Action → ℕ → ℕ → ℕ → Run → State → Option (Run × State)
unfolding finish_run
turn_page action root v_addr it run st =
    if run.vpn == page_bits (u64 (v_addr + it))
    then some (run, st)
    else (finish_run action root v_addr it run st >>= λ (p, st').
        some (record { vpn = page_bits (u64 (v_addr + it)); len = 0; p_addr = p }, st'))

-- The loop over the offsets from `it` on, `left` of them, and the action after it.
unfoldable pub act_loop : ℕ → Action → ℕ → ℕ → ℕ → Run → State → Option (Status × State)
unfolding turn_page
act_loop zero action root v_addr it run st =
    action run.p_addr run.len (it - run.len) st >>= λ st'. some (done, st')
act_loop (suc left) action root v_addr it run st =
    turn_page action root v_addr it run st >>= λ (run', st').
    let rest = act_loop left action root v_addr (suc it) (record run' { len = suc run'.len }) st' in
    if run'.p_addr == 0 then some (failed, st') else rest

unfoldable pub act_virt : ℕ → ℕ → ℕ → Action → State → Option (Status × State)
unfolding convert act_loop
act_virt root v_addr size action st = convert st.0 root v_addr >>= λ p.
    if p == 0
    then some (failed, st)
    else act_loop size action root v_addr 0 (record { vpn = 0; len = 0; p_addr = p }) st

-- The callbacks of `read_virt` and `write_virt`, which drop the status.
unfoldable pub read_run : Action
unfolding read_data
read_run addr len offset (pm, out) = read_data pm addr len (λ i. out (offset + i)) >>= λ (s, bytes).
    some (pm, splice out offset len bytes)

unfoldable pub write_run : Action
unfolding write_data
write_run addr len offset (pm, source) =
    write_data pm addr len (λ i. source (offset + i)) >>= λ (s, pm'). some (pm', source)

unfoldable pub read_virt : PhysicalMemory → ℕ → ℕ → ℕ → Buffer → Option (Status × Buffer)
unfolding act_virt read_run
read_virt pm root v_addr size out =
    act_virt root v_addr size read_run (pm, out) >>= λ (s, st). some (s, st.1)

unfoldable pub write_virt : PhysicalMemory → ℕ → ℕ → ℕ → Buffer → Option (Status × PhysicalMemory)
unfolding act_virt write_run
write_virt pm root v_addr size source =
    act_virt root v_addr size write_run (pm, source) >>= λ (s, st). some (s, st.0)

-- The physical accesses; `read_phy` reports success whatever happened.
unfoldable pub read_phy : PhysicalMemory → ℕ → ℕ → Buffer → Option (Status × Buffer)
unfolding read_data
read_phy pm p_addr length target =
    read_data pm p_addr length target >>= λ (s, out). some (done, out)

abbrev pub read_phy_value : ℕ → PhysicalMemory → ℕ → Option ℕ
read_phy_value = read_value

unfoldable pub read_phy_array :
    ℕ → PhysicalMemory → ℕ → ℕ → Buffer → Option Buffer → Option (Status × Buffer)
unfolding read_array
read_phy_array width pm p_addr num target mask =
    read_array width pm p_addr num target mask >>= λ (s, out). some (done, out)

abbrev pub write_phy : PhysicalMemory → ℕ → ℕ → Buffer → Option (Status × PhysicalMemory)
write_phy = write_data

abbrev pub write_phy_value : ℕ → PhysicalMemory → ℕ → ℕ → Option (Status × PhysicalMemory)
write_phy_value = write_value

abbrev pub write_phy_array :
    ℕ → PhysicalMemory → ℕ → ℕ → Buffer → Option Buffer → Option (Status × PhysicalMemory)
write_phy_array = write_array
