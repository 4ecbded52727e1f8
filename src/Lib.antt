-- ===== src/Lib.antt =====
-- libpoireau: a sampling heap profiler that is loaded in front of the C library's allocator.
--
-- The program has three parts. src/shim.c defines `malloc`, `calloc`, `realloc` and `free`. Each
-- allocation first asks the sampler (src/sample.c, src/sample.h) whether to sample it: the sampler
-- counts the bytes down to a random threshold with exponential distribution. What is not sampled
-- goes to the underlying allocator. What is sampled goes to the tracking allocator
-- (src/tracked_alloc.c, src/tracked_alloc.h), which places every allocation at a multiple of 1 GB,
-- so that `free` and `realloc` can tell its pointers from all others, and passes a tracepoint.
--
-- The files:
--   Prelude, Word, Exec    tests and lemmas on numbers; 64-bit arithmetic with its wrap-around and
--                          the laws of the bit operations; runs that return or fail,
--                          and runs that search (Exec/Ends)
--   Kernel                 `mmap`, `munmap` and the memory, a parameter with its documented laws;
--                          Kernel/Regions is an instance that meets all of them
--   Probe                  the tracepoints (sys/sdt.h), recorded in the order they are passed
--   TrackedAlloc           src/tracked_alloc.c and src/tracked_alloc.h; the state `Tracker` is
--                          `alloc_id_counter`, `tracked_alloc_table` and `info_table` with the
--                          kernel's state. TrackedAlloc/Invariant has its invariant and the
--                          abstract map `view` from pointers to live allocations; Mapping, Get,
--                          Lookup, Resize, Put and Empty are about `aligned_mmap` and
--                          `aligned_munmap`, `tracked_alloc_get`, `tracked_alloc_p` and
--                          `tracked_alloc_info`, `tracked_alloc_resize`, `tracked_alloc_put`, and
--                          allocations of no bytes; RoundTrip about an allocation that is given
--                          back at once
--   TrackedAlloc/Tasks     the same functions under several threads: the life of each allocation is
--                          a task, and `advance` does its next atomic operation or system call.
--                          `Step` and `Reach` are the interleavings. Tasks/Invariant has what every
--                          task owns, Effect what one operation may do to the others, Own, Getting,
--                          Resizing, Putting and Advance go through the operations, and Safety
--                          and Alone have what follows for the clients
--   Sample                 src/sample.c and src/sample.h; the state `SampleState` is
--                          `struct sample_state`. Sample/Xoshiro and Inverse are about the
--                          generator, Request about `sample_request`, Draw about `sample_uniform`,
--                          Reset about `sample_request_reset`
--   Shim                   src/shim.c for one thread; the state `Process` is the state of the two
--                          other parts with the `base_` pointers and the flags of `init_shim`.
--                          Shim/Names has the functions that are looked up, with one call of
--                          `dlsym` each, which runs over the whole process, since it may enter the
--                          shim again. Init is about `init_shim`, Free, Malloc and Realloc about
--                          the entry points, First about the first calls of a thread and of the
--                          process, Copy, Reading and Prefix about `safe_copy`, Contents and Move
--                          about `sampled_realloc_from_tracked`, Release and Regular about
--                          `sampled_realloc_to_regular`, MoveIn and ToTracked about the end of
--                          `sampled_realloc`, which is `move_to_tracked` here
--   Shim/Patching          `init_shim` under several threads: `Program` has what they share and each
--                          thread's `started` with its calls in progress, which are two while
--                          `dlsym` enters the shim again; `proceed` does one access to a shared
--                          variable. Nesting, Order and Safety are about the order of the pointers,
--                          Progress about the end of a call, and Alone about a call that runs
--                          alone
--   Shim/Service           the four entry points together, for a program that calls them in any
--                          order. `Ledger` says which bytes belong to the underlying allocator,
--                          which blocks it gave out and which bytes it lent with them. Only that
--                          allocator knows its ledger: `Bookkeeping`, a parameter, says which ledger
--                          it keeps in a state of the memory, with the law that it keeps it in its
--                          own bytes, and `HostLaws` are the laws of the underlying `malloc`,
--                          `calloc`, `realloc` and `free` that speak of it. `Sound` ties it to the
--                          tracker, and `Since` says what may be lost since. Steps and Tracked are about the parts of a call, Given and
--                          Patched about its answers, Copies, Widen, Reallocs, FromTracked and Moves
--                          about the ways of `realloc`, and Mallocs, Frees and Calls have the promise
--                          of each entry point; Fresh is about a thread's first call. Client has
--                          the calls of a program and what it has in its hands, and History any
--                          sequence of them; Arena is an underlying allocator that meets the laws,
--                          reuses its memory and keeps its bookkeeping in it
-- The modules whose names end in Examples hold runs on concrete inputs.
--
-- C functions keep their names. An assertion that fails, an access outside a table, a call through
-- NULL and fuel that runs out are the values of `Failure`; a theorem that a run returns excludes
-- them all. A pointer is its address, and NULL is 0; `uint64_t` and `size_t` are numbers with
-- `% 2 ^ 64` written out.
-- A run of a whole function is that of one thread; in Tasks, an atomic operation or a system call
-- is one step (in Patching, an access to `done` or to a pointer), in any order that the threads
-- are scheduled in, with sequential consistency.
--
-- Fuel: the loops of the sampler end with probability 1 only, so their number of rounds is a
-- parameter, and a theorem either names the search that must succeed within it or says that the
-- fuel runs out. An entry point of the shim takes one unit of fuel for each time that it is entered
-- again, which is after the seeding of the generator and after the patching of the pointers; with
-- a seeded generator and patched pointers one unit is enough. The loop of `safe_copy` has one unit
-- for each byte of the request and one more, and every round copies at least one byte.
--
-- Parameters: the kernel, `getrandom`, the floating-point operations with `log`, the underlying
-- allocator, `dlsym`, `memcpy`, `malloc_usable_size` and `process_vm_readv`; in Patching, `dlsym`
-- finds the functions and may enter the shim. Not modelled: the entry points interleaved with each
-- other inside the shim, memory orders weaker than sequential consistency, the contents of the
-- tracer's events, the analysis scripts under scripts/, the tests under test/, and the vendored
-- sys/sdt.h.
pub mod Prelude
pub mod Word
pub mod Exec
pub mod Kernel
pub mod Probe
pub mod TrackedAlloc
pub mod Sample
pub mod Shim
