-- ===== src/Lib.antt =====
-- ZENEDGE, a kernel that runs jobs under resource contracts.
--
-- A job is a graph of steps with tensors (kernel/job/job_graph.c). The scheduler asks the graph for a
-- ready step, runs it and marks it completed. A job runs under a contract (kernel/contracts.c) that
-- charges processor time and memory against budgets and goes from OK to WARNED to SAFE_MODE as the
-- budgets are violated; a registry of contracts (kernel/api/contract_registry.c) lets the oracle
-- (kernel/api/oracle.c) answer for a job. A contract takes its pages through a portable layer
-- (kernel/zenedge_alloc.c) from the physical memory manager (kernel/mm/pmm.c), a bitmap of pages in
-- two NUMA nodes. All of them log to the flight recorder (kernel/trace/flightrec.c), a ring of events
-- stamped by the clock (kernel/time/time.c). Apart from jobs, the tuning engine
-- (kernel/engine/episode.c) tries a clock on a device for a while and keeps it or rolls it back.
-- A host shares memory with the kernel: rings of commands and responses with a doorbell
-- (kernel/ipc/ipc.c) and a heap of blobs (kernel/ipc/heap.c), laid out by kernel/ipc/ipc_proto.h.
-- The virtual memory manager (kernel/mm/vmm.c) keeps page directories and tables in pages of the
-- physical one.
-- The compiler divides 64-bit numbers by routines of kernel/lib/divdi3.c.
--
-- The files:
-- - Common and its children: the shared names, Boolean tests, lists as C arrays, words.
-- - Time: time.c. The counter is a sequence of readings, and each rdtsc takes the next one. Laws has
--   the conversions and the order of two readings.
-- - JobGraph: job_graph.c and .h, one function for each job_graph_* function, named without the
--   prefix; a loop over the arrays is a function on the list of steps or tensors. Lookup, Ready, Calls
--   and Reach are about what holds after every sequence of calls; Drive and its children about the loop
--   over next_ready and mark_completed; Duplicate about ids that are not unique; Memory about the
--   figures of tensors.
-- - FlightRec: flightrec.c, functions named without flightrec_. History relates the ring to the list
--   of the latest events, Spans and Stats what is computed from it.
-- - Bitmap: the bit operations of pmm.c on a list of bytes, with the number of bits as a parameter.
-- - Pmm: pmm.c. State is the statics, Boot pmm_init and its parts, Ops the operations, named without
--   pmm_, Runs pmm_alloc_pages; the array of two nodes is two fields. Nodes states the accounts, Alloc,
--   Free and Init what the operations do to them; Granted and Stuck are about
--   pmm_alloc_pages.
-- - Zalloc: zenedge_alloc.c, without zenedge_alloc.
-- - Contracts: contracts.c, contract_registry.c, oracle.c. An operation takes a contract and the layer
--   below and returns both; a System has the contracts that pointers lead to and the registry of
--   pointers. Grades is about the state machine, Pages and Release about pages, Registry about the
--   registry and the oracle, Admit about admission.
-- - Episode: engine/episode.c. The collector and the actuator are functions over the state of the
--   devices, and MockGpu is drivers/mock_gpu.c. Ends is about the number of ticks, Clock about the
--   rollback after a violation, Average about the decision by the average of the snapshots.
-- - Ipc: kernel/ipc. Ring is the header and the indices of every ring, with the entries as memory that
--   any index reads; Queue is its abstract view, Spsc the interleavings of two sides. State is
--   ipc_proto.h and the statics of ipc.c, Ops and Mesh the functions, named without ipc_. What Linux
--   does while the code waits is an argument. Commands, Responses, Exchange and Bounds are about the
--   operations. Heap and its children are heap.c, over memory as bytes by offset: Table frees and looks
--   up, Tensor has the tensors, Find, Runs, Alloc, Live, Keep, Calls, Scan and Init the proofs.
-- - Vmm: vmm.c, named without vmm_, over memory as bytes by physical address. Spaces makes and destroys
--   directories; Entry, Translate, Tree, Grow and Keep are about mapping, Kernel about the directory
--   that vmm_init leaves.
-- - Division: divdi3.c, named without the underscores. Long and Unsigned are about unsigned numbers,
--   Signed about two's complements.
-- - Strings: string.c and strtoul of libc.c, over memory as bytes by address; Laws is about what they
--   leave there.
--
-- Words: numbers are natural numbers, and u8, u16, u32, u64, sub32 and sub64 cut to a width where the
-- code's arithmetic wraps around. Loops over arrays are recursions on the list or on the number of
-- rounds that are left, so they need no fuel; the search of pmm_alloc_pages is given 2 ^ 32 rounds. The
-- scheduler's loop, drive, takes fuel; as many rounds as there are steps that are not completed are
-- enough. An episode's ticks are counted in the same way. The calls of pmm_alloc_pages at the two nodes
-- take fuel for their depth, and may need more than any. The interrupt handler's loop takes fuel for its
-- polls; one more than the responses are enough. The scan of the heap for a blob takes fuel for its
-- rounds: one for each block, and one more, is enough unless a header is wrong. The loops of strings
-- that end at a 0 take fuel for their rounds: one more than the length is enough for strlen.
--
-- Not modelled: text on the console, which every part writes; the calibration of the clock, port input
-- and output and assembly (kernel/arch, boot); the TLB, the kernel heap, processes, the WebAssembly
-- interpreter (kernel/lib/wasm3) and the host's tools (tools, bridge). The mesh table and the heap of
-- the shared memory are modelled apart, though their addresses overlap. Addresses of objects are not
-- modelled: the memory map of the boot loader is a list of entries, and the linker's symbols are
-- arguments.
pub mod Common
pub mod Time
pub mod JobGraph
pub mod FlightRec
pub mod Bitmap
pub mod Pmm
pub mod Zalloc
pub mod Contracts
pub mod Episode
pub mod Ipc
pub mod Vmm
pub mod Division
pub mod Strings
