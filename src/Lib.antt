-- ===== src/Lib.antt =====
-- A model of the dumboss kernel, and theorems on it.
--
-- The kernel's C code is in kern/ and lib/. This library follows its layout:
--   Base        what the parts share: results of calls, arrays, Boolean tests, bits of words
--   BitSet      lib/bitset.h, the sets of pages of the allocator
--   Memory      kern/memory.c, the buddy allocator of pages, and smallest_greater_power2
--   Text        lib/basics.h and lib/types.h, strings and the formatting of values
--   Paging      kern/page_tables.c, page tables of four levels
--   Tasks       kern/multitasking.c, the queue of tasks that cores share
--   Bump        lib/basics.h, an allocator that cores share
--   Bytes       lib/basics.h, memcpy and memset
--   Log         kern/__lib_impl__.c, what the kernel logs, and lib/sync.h, the mutex of the log
--   Descriptor  kern/descriptor_tables.c and kern/interrupts.c, the processor's tables
--
-- In each, the definitions of the code stand in the file of that name and in those that its first
-- lines name: Memory/Address, Freelist, Alloc, Release, Map, Entries and Init, Paging/Map,
-- Tasks/Queue, System and Workers, Descriptor/Gdt and Idt. The other files state what is right and
-- prove it: BitSet/Ones, Query and Update; Memory/Chain and Heap on one free list, Power, Search
-- and Choice on the choice of a block, Align, Blocks, Pieces and Split on what alloc_raw gives
-- back of it, Layout with the invariant of the heap, Handed, Allocate, Handout and Zeroed on how
-- alloc_raw and zeroed_pages keep it, Buddy, Added, Merge and Returned on how release_pages does,
-- Total and Validate on what validate_heap counts, Usability, Blank and Filled on how memory__init
-- fills the allocator, Roundtrip, Client, Holdings and Serving on callers; Text/Digits, Put, Print
-- and Format; Log/Serial and Lines; Log/Lock/Safety, Bump/Safety, Tasks/Safety and Search;
-- Bytes/Copied; Paging/Canonical, Entry, Walk, Apart, Descend, Grow and Grown;
-- Descriptor/Described. Each Tests runs the theorems on concrete values, and so do
-- Memory/SmallHeap, FiveHeap and Runs.
--
-- Memory stands on BitSet: a class keeps the bits of its buddies, and the allocator the bits of
-- its usable and free pages. Paging takes its tables from Memory, and gives them back to it;
-- Descriptor takes an interrupt stack from it.
--
-- Definitions keep the names of the C functions, without the prefix of the type, which is the
-- module: BitSet__get_all is BitSet.get_all. BitSet__set is set_bit and any__fmt is Text.fmt.
-- map_2MB_page is map_2mb_page. The state of a component is a record that a call takes and
-- returns. A call's result is a value, `panic` for a failed assertion, or `fault` for an access
-- outside an array. A pointer is the number of its address; NULL is 0. Bytes of strings, headers
-- of free blocks and entries of page tables are functions of their address, each seen apart from
-- the others. For headers and entries that holds where tables stand on pages that are not free, as
-- Paging/Apart states it and Paging/Grow keeps it. Words have their wrap-around where the code can
-- reach it. Lengths, counts and indices of type s64 are natural numbers where the code asserts or
-- relies on their sign; a count of pages is an integer where alloc_raw tests it.
--
-- Loops over a range recurse on the number of rounds left. The loops of alloc_raw over the classes
-- have one round for each class and one more, in which the search ends. map_region has a round for
-- each page and one more, as a round maps a page at least, and copy_mapping has its like. The walk
-- of validate_heap over a list, and region_size, which the code bounds by nothing, take fuel, and
-- give `fault` without it. The digits of a number have the 32 rounds that the buffer of the code
-- has room for.
--
-- Code that several cores run at once is a step relation: a record of the shared memory, the place
-- of each core in its call with the local variables that are live there, and one constructor for
-- each access to shared memory. A weak exchange may fail at any time. Tasks/Queue has the accesses
-- of enqueue_task and dequeue_task, Tasks/System lets any number of cores take them on one
-- worker's queue, in any order, while other queues draw identifiers; Tasks/Invariant keeps the
-- invariant access by access, and Tasks/Schedule runs cores in a given order to reach a state.
-- Bump does the same for Bump__bump_impl, where a core whose sum leaves the range of s64, which C
-- leaves undefined, stops there, and Log/Lock for the mutex and the bytes of the log.
-- Tasks/Workers has the loops over all workers, with what a call on one queue comes to as an
-- argument. The indices of a queue are s64 that only grow, and are not seen to overflow. The
-- fields sent, taken, given and lines are no memory of the kernel: they keep what has happened.
--
-- Not modelled: where memory__init places the bit sets, which overlap (the model takes them as
-- zeroed, each apart from the others), and what it does behind its first call of validate_heap:
-- the page table it makes of the calls in Paging, with its assertions, the next calls of
-- validate_heap and the making of InitAlloc; the start of a core in task_begin. Nor are machine
-- instructions, the port of the serial line, the loader's header kern/include/bootboot.h, the
-- floating point code under PRINTF_SUPPORT_FLOAT, which nothing defines, and the Go programs of
-- build/. Lines of the log are left out of the calls that write them.
pub mod Base
pub mod BitSet
pub mod Bump
pub mod Bytes
pub mod Descriptor
pub mod Log
pub mod Memory
pub mod Paging
pub mod Tasks
pub mod Text
