-- ===== src/Lib.antt =====
-- The shared data structures of sqkio, modelled and verified.
--
-- The program is a library for asynchronous servers: a lock-free ring (src/common/include/ring.hpp)
-- carries ready coroutines to the scheduler (src/core/core.hpp), pool allocators
-- (src/common/include/allocator.hpp, src/common/tlsf_allocator.cc) give coroutine frames their
-- memory, and a fabric layer (src/net/fabric/fabric.hpp) and a blob store (src/io/blob/blob.hpp)
-- resume coroutines when the network or the disk is done. This library models the ring, the pool
-- allocators, the scheduler, the awakers and the tasks of src/core/core.hpp, the event and
-- completion queues of the fabric layer with its `Info` and its constructors, and the waits of the
-- blob store.
--
-- Which file models what:
--   * Common and its children: tests on numbers, `&` and `|`, arithmetic of 32 bits. No code.
--   * Outcome: how a call ends: it returns, hangs or aborts.
--   * Queue: the abstract bounded first-in first-out queue that a ring promises.
--   * Align: the rounding at the top of src/common/include/ring.hpp: `sqk_combine32ms1b`,
--     `sqk_align32pow2`, `POWEROF2`, `SQK_ALIGN_FLOOR`, `SQK_ALIGN`.
--   * Ring: `RingSyncType`, the template arguments, `RingHeadTail`, the fields of `Ring`, `init`.
--   * Ring/Copy: `enqueue_elems_32`, `_64`, `_128` and `dequeue_elems_32`, `_64`, `_128`. Their
--     loops are functions on a cursor, which holds `i`, `idx` and the memory written; one body
--     serves all six, with the unrolling and the direction of the assignment as parameters.
--   * Ring/Elements: the overloads of `enqueue_elements` and `dequeue_elements`.
--   * Ring/Heads: `move_prod_head`, `move_cons_head`, `hts_head_wait`, both `update_tail`, and
--     `sqk_wait_until_equal_32`.
--   * Ring/Calls: `enqueue` and `dequeue` over those, in the modes ST, MT, HTS and RTS.
--   * Ring/Threads: `enqueue` and `dequeue` of `MpscRing` under several threads, one access of
--     shared memory at a time. Ring/Threads/Reach has the states that any order of accesses
--     reaches from a ring that `init` made, Ring/Threads/Invariant what holds in them.
--   * Ring/Hts: the same for a ring whose producers and consumers have the mode HTS, any number of
--     each.
--   * Ring/Create: `of` and `free`, with the allocator as a parameter.
--   * Slab: `SlabPoolAllocator` of src/common/include/allocator.hpp: `roundup`, `size2ind`,
--     `ptr2header`, `slab_alloc`, `slab_dealloc`; Slab/Operators: its `operator new` and `operator
--     delete`. Slab/Sound has the laws of the global `operator new` that it relies on, Slab/Reach
--     the sequences of calls.
--   * Tlsf: `TlsfPoolAllocator` of src/common/tlsf_allocator.cc, with `tlsf_malloc` and
--     `tlsf_free` as a parameter.
--   * Scheduler: `SQKScheduler` of src/core/core.hpp: `enqueue`, `stop` and `run`. What a resumed
--     coroutine does is a parameter. Scheduler/Returns is about how `run` ends.
--   * Awaker: `Awaker`, `CheckableAwaker`, their forms for `void`, and `SuspendYield`, with
--     `co_await` on each; `wake` enqueues into the scheduler. Awaker/Orders has the orders of
--     `co_await` and `wake`.
--   * Task: `Promise`, `MaybeSuspend`, `FinalSuspend`, `await_transform`, `resume_caller`, and the
--     `enqueue` of a task. `resume()` of a coroutine is `run` of the command `resume`. Task/Links
--     says how the frames hang together, Task/Sound what a call of `resume()` leaves, Task/Reach
--     the worlds that a program reaches, with any handle of the queue resumed, Task/Paths the
--     chains of waits in them, Task/Returned what a `co_await` of a task gives.
--   * Fabric/Events: `EventQueue::poll`, `PassiveEndpoint` and the connection part of `Endpoint`
--     in src/net/fabric/fabric.hpp; Fabric/Events/Reach has the states that they reach.
--   * Fabric/Completions: `CompletionQueue::poll`, and `send`, `recv`, `write`, `read` of
--     `Endpoint`.
--   * Fabric/Infos: `Info`: the lists of libfabric by address, the objects by who owns what.
--     Fabric/Infos/Owned has the states that a program reaches.
--   * Fabric/Resources: the constructors and destructors that open and close objects of libfabric,
--     with every answer of it.
--   * Blob: the calls of `Blob`, `BlobStore` and `BlobDev` in src/io/blob/blob.hpp; Blob/Setup:
--     `setup` of `BlobEnv`; Blob/Make: `make_blob` as a coroutine.
-- The state of a ring is the record `Ring`: the header's fields and the words behind it, a function
-- of the word's index, so that a write past an end shows. A word has 4, 8 or 16 bytes, as the copy
-- that the element size selects moves it. The caller's entry is a memory of its own: it is not
-- inside the ring. The state of a ring under threads is the record `Shared`, the ring and a history
-- that no access tests, and by thread where it stands, a `Pc`; `advance` is one access. An entry is
-- one slot there: what a copy does word by word is in Ring/Copy. The state of the slab allocator is
-- the record `Slab`: the global heap, the headers by address, and the free stacks of one thread.
-- The state of the coroutines is the record `World`: by frame, where it stands, its caller and its
-- result; the awakers; and the scheduler. A coroutine is a tree of its suspensions; what it
-- computes between two is a function of what it was given. What a read behind `destroy()` gives and
-- what a move leaves are the parameters `after_destroy` and `moved_from`. The fabric's states are
-- the records `Fabric` and `Transfers`: its maps, the objects and awakers by address, and the
-- scheduler. What libfabric and SPDK answer is an argument of each operation. Numbers of 32 bits
-- wrap as `add32` and `sub32` write it out.
--
-- Bounds and fuel: the loops of a copy get as much fuel as they have rounds and one more, which is
-- enough for every copy inside a ring. The loops on atomics get the caller's fuel; run by one
-- thread each of them ends in its first round, so any positive fuel is enough. The loop of `run`
-- gets a number of rounds; it has no end of its own but `stop`. The loops of `send` and `setup` get
-- a number of rounds too. The calls of `resume()` inside each other get a depth as an argument,
-- since coroutines may start each other without end.
--
-- A thread under Ring/Threads and Ring/Hts does its compare-exchange before the head has moved on
-- by 2^32 less the capacity since the thread read it (`IsTimely`), since the words of the ring are
-- alike after 2^32 moves.
--
-- Task/Reach starts with frames at their starts and without callers, and enqueues as tasks only
-- frames that have no caller: a task that another awaits is not handed to the scheduler as well.
-- Awakers may be woken at any time and any number of times, and any handle that the queue gives is
-- resumed. Task/Returned is about worlds whose frames are linked (`IsLinked` of Task/Links): there a
-- caller waits for the task that it has called, which a frame resumed twice need not do.
--
-- Not modelled: memory orders weaker than sequential consistency, and fences; threads on rings with
-- another pair of modes than `MpscRing` or HTS on both sides; the words of the header as bytes;
-- `memzone_.addr_`, which no code reads; logging; blocks that another thread frees; the use of a
-- destroyed frame's address for another coroutine; of the fabric layer the wrappers of attributes,
-- memory buffers and keys, and the address vector; of the blob store the functions that only pass a
-- call on to SPDK. src/common/tlsf is another project's code.
pub mod Common
pub mod Outcome
pub mod Align
pub mod Queue
pub mod Ring
pub mod Slab
pub mod Tlsf
pub mod Scheduler
pub mod Awaker
pub mod Task
pub mod Fabric
pub mod Blob
