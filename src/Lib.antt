-- ===== src/Lib.antt =====
-- shmspsc is a header-only, wait-free queue for one producer and one consumer in two processes, over
-- POSIX shared memory. `include/shmspsc/ShmSegment.h` owns a shared memory object and its mapping.
-- `include/shmspsc/ShmSpscQueue.h` puts a control block at offset 0 of it, with the geometry, a pid
-- slot for each role and two atomic indices, and the slots behind that; one slot is never used, so
-- that equal indices mean empty. Each process has a handle, with a private copy of the peer's index
-- that it refreshes only when it must. `src/common.h` and the two demo programs send checked messages
-- through the queue.
--
-- Which file models what:
--   Layout.antt     the control block and `bytesNeeded`; Layout/Bounds.antt its exactness. Layout/Fields.antt
--                   lays the members out for any cache line, Layout/Lines.antt says where they stand.
--   Ring.antt       `try_push`, `push_n`, `front`, `pop`, `try_pop`, `pop_n`, `size` and `empty`, each
--                   as one function on a handle and the shared memory, with the private copies of the
--                   indices and the 64-bit arithmetic. Below it: Index (the arithmetic round the ring),
--                   Window (the elements between two indices), Invariant, Single and Copies (one element, and
--                   the two `memcpy`), Batch and Unbatch (many elements), Refine and Observers.
--   Queue.antt      the bounded queue that the ring is to be, on lists.
--   Calls.antt      two handles on one ring and any sequence of whole calls; Calls/Refine.antt.
--   Spsc.antt       the same operations as two processes that take one shared access a step
--                   (Spsc/Step.antt). A release store appends to the history of its index; an acquire
--                   load returns any store that is not older than the last one seen, which is what
--                   coherence promises; the copies go one element a step on plain memory. Below it:
--                   Places and Runs (positions in the stream of elements, and their slots), Invariant,
--                   Produce, ProduceN, Fill, Consume and Drain (its preservation), Pending, Stores, Safety,
--                   Answers, Estimate, Ranks and Progress; Takeover has processes die and be replaced
--                   while the peer runs on.
--   Claim.antt      the pid slots: `processAlive`, the loop of `bind`, `peerAlive`. Claim/Run.antt is
--                   the loop left alone; Claim/Contest.antt has any number of handles contend, detach
--                   and crash, and Claim/Exclusive.antt the ownership that comes of it.
--   Owners.antt     Claim and Spsc joined: handles that contend for the producer's slot, and the queue that
--                   the one that is bound pushes into; Owners/Ready.antt and Owners/Safety.antt.
--                   Owners/Both.antt has handles contend for the consumer's slot as well, with Waiting,
--                   Invariant and Safety below it.
--   Segment.antt    `ShmSegment`, over a record of system calls; Segment/Laws.antt has what it relies on
--                   of them, Segment/Names.antt the names, Segment/Cleanup.antt what is left behind.
--   Attach.antt     handles: what `create` writes, `validate`, `bind`, `detach`, the moves and
--                   `waitForPeer`, with Geometry, Binding and Stale below it.
--   Connect.antt    `create` and `attach` whole, the destructor and the move assignment, over the segment's
--                   system calls and a clock. Below it: Ends (the deadline of the loop in `attach`), Sound
--                   (what it has checked), Fresh (the state that `create` leaves), Held, Cleanup and
--                   Made (what is left of descriptors, mappings and objects), and Moves.
--   Spin.antt       the spinning `push` and `pop`, with the two looks of a turn at the peer and at the
--                   queue in their order; Spin/Ends.antt and Spin/Drained.antt how they end.
--   Demo.antt       the messages of `src/common.h` and the loops of `src/demo_producer.cpp` and
--                   `src/demo_consumer.cpp`; Demo/Checks.antt and Demo/Stream.antt the count of errors.
--   Programs.antt   `main` of the two demo programs over Connect and Demo; Programs/Exit.antt how they end,
--                   Programs/Stream.antt their loops on the queue of Spsc.
--   Report.antt     `percentile`, `printLatency` and `clockOverheadNs` of `src/common.h`; Report/Sort.antt
--                   and Report/Rank.antt which samples they pick, Report/Clock.antt what the clock costs.
--   Throughput.antt `src/bench_throughput.cpp`; Throughput/Turns.antt and Throughput/Delivered.antt what its
--                   loops deliver; Throughput/Main.antt the runs of `main`.
--   Latency.antt    `src/bench_latency.cpp`; Latency/Phase.antt where the two processes stand to each other,
--                   Samples, Turns and Echoes what a turn does to that, Laps the whole run, Main the program.
--   Memory.antt     where a process accesses the memory of the segment, over Layout, Connect and Spsc: Made and
--                   Joined (the handles that `create` and `attach` return), Slots, Accesses (both
--                   processes while they run) and Handshake (`create` in one and `attach` in the other).
--   Base.antt       lists, words, tests and results that the others share.
--   Tests.antt      runs at concrete inputs.
--
-- The parts meet in the handle: `create` and `attach` fill it from the segment, `bind` sets its caches
-- from the control block (`IsBound`), and that is what the operations of the ring need (`IsWriter`,
-- `IsReader`, `IsFresh`).
--
-- Bounds. A segment is shorter than 2^63 bytes, since `ftruncate` takes a signed size, so a ring has
-- at most 2^63 slots (`IsRing.small`); index sums then stay below 2^64. Elements are values of any
-- type; Memory has the places of their bytes, and what the bytes say is not modelled, nor that `memcpy`
-- copies them.
--
-- Parameters. `kill` is a function from pids to its answer, the other system calls are the record
-- `Os`. Clock readings and what other processes leave in a pid slot are lists of observations, so a
-- loop is structural recursion; a run that goes on beyond its list is `none`, and the theorems on
-- termination give lists that suffice. The loop of `attach` runs on the system itself, on fuel: one for
-- each millisecond to the deadline, and one more, since each turn sleeps a millisecond.
--
-- Floating point: `percentile` multiplies in it, so its product is a parameter, any function. The rates
-- that the programs print are not modelled.
--
-- The loops of the programs are interleaved call by call in the benchmarks (what happens inside a call
-- is `Spsc`), and given by what the calls return in the demos. A schedule is a list of turns; the
-- theorems on termination say how often a turn of one process has to follow on one of the other.
--
-- Not modelled: the text of exceptions, printing and the parsing of arguments; signal handlers (the stop
-- flag is given at each turn); `fork`; the repository's tests and build files.
pub mod Base
pub mod Layout
pub mod Queue
pub mod Ring
pub mod Calls
pub mod Spsc
pub mod Claim
pub mod Owners
pub mod Segment
pub mod Attach
pub mod Connect
pub mod Spin
pub mod Demo
pub mod Programs
pub mod Report
pub mod Throughput
pub mod Latency
pub mod Memory
pub mod Tests
