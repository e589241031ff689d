-- ===== src/Lib.antt =====
-- The driver of the Ventus GPGPU keeps the memory of the device in SV39 page tables and hands out
-- virtual addresses to the buffers of each context. The parts that are modelled, from below:
--
-- * src/device/sv39.h, class SV39: Sv39. VAextract, VAcheck, PTE2PA and SetPTE are va_extract, va_check,
--   pte_to_pa and set_pte.
-- * src/device/page.h, classes Page and Block: Block. A page array is a function from positions to
--   bytes with a capacity, and an access outside of it has no meaning (none).
-- * src/device/page.h, class PhysicalMemory: PhysicalMemory (constructors, insert, remove, usable, length)
--   and PhysicalMemory/Data (read_data, write_data, read_value, write_value, read, write). The
--   std::list of blocks is a List; m_current_block_ is a position, or dangling after its node was
--   erased. The child modules hold the order of the blocks (Order, Invariant), the operations' laws
--   (Insert, Reserve, Search, Erase, Remove, Freed), and memory as 64-bit words (Data/Peek,
--   Data/Poke, Words), which is all that the page tables are verified against, and as bytes
--   (Data/Ranges, Data/Shape, Data/Arrays).
-- * src/device/memory.h, class Memory: Memory (create_root_pt, allocate, convert), Memory/Access
--   (act_virt, read_virt, write_virt, read_phy, write_phy) and Memory/Release (release, clean_pt,
--   clean_task).
--   Memory/Tables sees the tables as a tree of roles; Level, Descend, MapPage, Round and Allocate follow
--   the loop of allocate; Fresh, Translate, Mapping and Release/Unmap state what comes out of it.
--   Contents and Transfer are about write_virt and read_virt.
-- * src/driver.h, namespace addr: Manager. A context's linked list of items is a List from its head
--   on, and m_cxt_mem_ an association list. Layout, Gap, Alloc and Place follow allocVaddr; Contexts
--   and Attach are about allocMemory, releaseMemory and attachPaddr.
-- * src/device/memory.h, TLBundleA, TLBundleD and class MemController: MemController. Phases is the controller
--   of two phases that Waiting, Holding and Refines hold eval against; Schedule has the steps of the
--   GPU and of the clock, and Safety what holds on all of them; Stale is about requests of other kinds.
-- * src/device/processor.h, class Processor: Processor, over the parameter Device for the generated class
--   VGPGPU_top (its eval, and the ports it shows in a state), and Processor/Ports for the ports and
--   host_port_t. Clock, Run and Serve are about wait, run and eval; Boot is about what the constructor makes.
-- * src/driver.h, class Driver with namespaces krl and ctx: Driver (state and results), Driver/Maps
--   (std::map), Driver/Buffers (create_device_mem, delete_device_mem, alloc_local_mem, free_local_mem,
--   upload, download), Driver/Kernels (start) and Driver/Reports (wait, get_finished_kernel,
--   execute_all_kernel, all_context_finished). Contexts, Attach, Alloc, Copy and Blocks state what they do.
-- * src/ventus.cc, the C functions of include/ventus.h: Api, one function each, and
--   Api/Upload for vt_upload_kernel_bytes. Api/Copy and Api/Kernel say where vt_memcopy and that end.
--
-- The parts build on each other: the C functions call Driver, which calls addr::Manager for addresses,
-- Memory for pages and Processor for blocks; Processor passes each request of the GPU through
-- Memory::convert to MemController, which reads and writes the PhysicalMemory.
-- Common holds what they share: uint64_t results with their wrap, the status of an operation, lists
-- with native positions, and bit operations.
--
-- State is passed on explicitly: an operation takes the memory and returns it. `none` is a step with no
-- defined meaning in C++, and in Manager an exception; the Driver has a result type that keeps the state an
-- exception leaves. Values are little-endian, as on the hosts of the driver. The loops over a list, over
-- the pages of a length that is known when they start, or over the 512 entries of a table are structural
-- recursion. Two loops have no bound in the code and run on fuel: the one of Processor::run, which ends
-- when the GPU is ready, and the one of Driver::all_context_finished, which does not advance. The
-- 31 rounds of execute_all_kernel are its own bound.
--
-- Not modelled: messages and logs (src/basic), the constructors that move ownership, the destructors,
-- the settings of the Verilator context, m_last_task_ of the
-- Driver, which nothing makes valid, a BUF_TYPE other than its three enumerators, and the generated test bench in rtl.
pub mod Common
pub mod Sv39
pub mod Block
pub mod PhysicalMemory
pub mod Memory
pub mod Manager
pub mod MemController
pub mod Processor
pub mod Driver
pub mod Api
