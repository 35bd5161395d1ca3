-- ===== src/Lib.antt =====
-- Verification of parts of the C runtime of this Common Lisp system (src/runtime).
--
-- The runtime gives compiled Lisp code its memory, its collector, its threads and its debugger.
-- Modelled are components of the collector and the debugger, and dynamic binding:
--
-- - TinyLock: runtime/tiny-lock.h, the lock of the collector's shared structures, with futexes.
--   Threads are interleaved at each access of the word; `Cmpxchg` is `cmpxchg`, whose weak
--   exchange may fail spuriously where `weak` is true; the constructors of `Move` and `Step` are
--   the accesses of `acquire_lock`, `release_lock` and `try_acquire_lock`. A sleeping thread may
--   return from `futex_wait` at any time, as the kernel allows. Any number of threads takes part.
-- - Hopscotch: runtime/hopscotch.c and .h, the table of pinned objects and of weak tables. The
--   arrays are lists of cells, values and hop masks, zero is an empty cell. `hopscotch_insert` is
--   `try_insert`, the search for a free cell with displacement, and `hopscotch_resize_up` when that
--   finds no room; the `retry` block is `place`, the search for a cell to move is `find_victim`, the
--   relocation is `move_victim`. Statistics are left out, and the functions that hash and compare
--   Lisp vectors are given, since they read the heap. Memory for a table is fresh and all zero; the
--   reserve that it comes from is in Hopscotch/Cache, and `hopscotch_reset` in Hopscotch/Reset.
-- - VarIo: runtime/var-io.c, integers of variable length in debug data: `read_var_integer`,
--   `skip_var_string`, `pack_varint`, `varint_unpack`, `skip_data_stream`.
-- - MarkRegion: runtime/mark-region.c and .h, with the page table of runtime/pmrgc-impl.h and the
--   regions of runtime/gencgc-alloc-region.h: `try_allocate_small` in the lines of a page, the
--   search of pages, also before the lock, and of runs of pages (MarkRegion/Pages), the sweep of the lines
--   (MarkRegion/Sweep). The line bytemap, the page table and the bitmaps are functions of the
--   index; memory itself, and its zeroing, is not part of the state.
-- - HeapSort: runtime/gc-common.c, `gc_heapsort_uwords` with its `sift_down` and `heapify`, on memory that
--   is a function of the index; a child whose number does not fit an `int` is a fault.
-- - Gencgc: runtime/gencgc.c with gencgc-impl.h and gc.h, the page table of the generational collector:
--   the search for pages `gc_find_freeish_pages`, large objects (Gencgc/Regions), the release of pages at
--   the end of `garbage_collect_generation` and the counts (Gencgc/Release), and the loop of
--   `collect_garbage` over the generations (Gencgc/Collection), with the assertions and the end of
--   `garbage_collect_generation`; the move of the survivors, which traces the heap, and the comparison
--   of ages in floating point are given. Locks, the bytes
--   of the memory and the release of memory to the system are not part of the state. A scan start is
--   an offset in bytes; SINGLE_OBJECT_FLAG in an argument is a Boolean of its own; sums of bytes stay
--   below 2 ^ 63; a call that reports an exhausted heap does not return.
-- - Suballocator: runtime/queue-suballocator.h, the blocks of the queues that the tracing threads
--   and the compactor use: `suballoc_allocate`, with the system's `os_allocate` as a parameter, and
--   `suballoc_release`. Addresses do not wrap around.
-- - DynBind: runtime/dynbind.c, dynamic binding: `bind_tls_cell` (`bind_variable` without threads),
--   `unbind` and `unbind_to_here`, on the value cells and the binding stack of a thread.
-- - ThreadPool: runtime/gc-thread-pool.c, `run_on_thread_pool` on the main thread and the loop of
--   `worker` on the others, interleaved at each access of a semaphore; `thread_pool_init` is the
--   initial state. The main thread's own call of the function is a step of its own.
-- - Threads: runtime/thread.c, the list of all threads (`link_thread`, `unlink_thread`) and the bin of
--   threads to use again (`get_recyclebin_item`, `put_recyclebin_item`). Each operation holds its lock.
-- - Variables: runtime/vars.c, the monitor's variables in two hash tables with chains. A pointer is a
--   number, the store maps it to a `struct var`; the links of a chain are a list of pointers.
--   `flush_vars` is the loops `sweep` and `restore`; `bind_obj` is the second half of `define_var`.
--   `sprintf("%d")` is given, and `malloc` does not fail and does not reuse memory.
-- - Parse: runtime/parse.c, the lines that the monitor reads: `skip_ws`, `parse_token` (which moves its
--   pointer: the text behind the token is returned), `string_to_long`, `parse_number`, `parse_addr`,
--   which looks names up in Variables. The test whether an address is in the heap is given.
-- - Search: runtime/search.c, the searches in brother trees (`brothertree_find_eql`, `_lesseql`,
--   `_greatereql`) and in sorted vectors (`bsearch_lesseql_uword` and its three relatives).
--
-- The configuration modelled is 64-bit Linux on x86-64, with threads and futexes. C integers are
-- natural numbers with the wrap-around of their width written out; an `int` is its 32-bit pattern.
-- Memory is a list of bytes or words. `Outcome` (Common) is the end of a call: a value, a call of
-- `lose` or a failed assertion, or a fault (an access out of bounds, an undefined shift). Loops
-- recur on the list that they walk or on fuel: `bsearch_algorithm` gives a round for each element
-- and one for the last test, `skip_data_stream` one for each byte and one more, `pack_loop` one for
-- each byte of its buffer, `place` one for each cell up to the free one, `probe_groups` one for each
-- group of a 32-bit mask, `resize_rounds` one for each doubling of an `int`, `small_rounds` one for
-- each line and one more, `large_rounds` one for each page and one more, `sweep_claims` likewise:
-- each round takes up at least one of these. `sift_down` has a round for each index up to its end,
-- `freeish_rounds` one for each page and one more, `collect_rounds` one for each generation.
--
-- Not modelled: the tracing of the heap and the layout of its objects, signal handling, core files, the
-- operating system layers and the interactive debugger.
pub mod Common
pub mod TinyLock
pub mod Hopscotch
pub mod VarIo
pub mod MarkRegion
pub mod HeapSort
pub mod Gencgc
pub mod Suballocator
pub mod DynBind
pub mod ThreadPool
pub mod Threads
pub mod Variables
pub mod Parse
pub mod Search
