-- ===== src/Lib.antt =====
-- A verification library for the libuv sources under Sources/SebbuCLibUV/src.
--
-- The program is an event loop. Handles (timers, streams, watchers) belong to a loop, which counts the
-- active ones to know when to stop; timers lie in a heap by their due time; queues are circular lists
-- of nodes inside other structures; strings and addresses are converted at the edges. The parts:
--
--   Base     shared names and lemmas: the libraries', passed on, lists measured and indexed by native
--            numbers (Base.Lists), Boolean tests (Base.Tests) and sublists (Base.Sublist).
--   Heap     heap-inl.h. The pointers between nodes are a tree, and a node's place in it a list of
--            crumbs, the way back to the root, as the parent pointers are. heap_insert walks the bits of
--            the path to the first free place; heap_remove puts the last node in place of the removed
--            one and moves it down and up. Walks that a NULL would stop return `none`.
--   Queue    queue.h. A memory of `next` and `prev` fields, and the statements of each function, write by
--            write, on it. Queue.Ring says that a list of nodes is linked to a head in both directions.
--   Handle   The macros of uv-common.h that start, stop, reference and unreference a handle and count
--            the active ones.
--   Timer    timer.c. The loop's state is a record with the store of timers, the heap of their numbers
--            and the ready queue of uv__run_timers; it uses Heap, Handle and, for the ready queue, a list
--            of nodes. A callback is a list of calls on timers, chosen from the state it is called in.
--   Pool     threadpool.c: the queues of requests and of slow requests. What a worker does between two
--            releases of the mutex is one function, and Pool.Reach has the steps of all threads as a
--            relation on states.
--   Watcher  loop-watcher.c of both platforms: idle, prepare and check handles. On Unix a run moves the
--            queue away; on Windows (Watcher.Windows) an iterator goes through a doubly linked list,
--            which is a list of handle numbers here. Watcher.Same compares the two.
--   Run      unix/core.c: uv_run with its phases, the timeout of the poll, pending callbacks, uv_close and
--            the closing of handles. It uses Timer for the time of the next timer. What the phases of
--            other components, the poll and callbacks do is a function of an event and the loop, and
--            the events are logged with the state they happen in. A failed assertion on a handle that
--            is closed sets `aborted`; elsewhere a function that may fail one returns `none`.
--   Io       unix/core.c: the watchers of file descriptors and the loop's table of them, a function from
--            the descriptor, with its growth (Io.Power) and its invariant (Io.Valid).
--   Stream   unix/stream.c: the write queue of a stream. A request has the buffers it has left; the
--            outcomes of the system calls that write are a function of their number. Stream.Api has
--            what a program calls, Stream.Valid the invariant, Stream.Destroy the end of a stream.
--   FdHash   win/fs-fd-hash-inl.h: the table of file descriptors, its groups as a list of functions from
--            the slot, with the map it implements in FdHash.Spec.
--   Barrier  thread-common.c: a barrier. What a thread does between two waits on the condition variable
--            is one function, and Barrier.Reach has the steps of all threads as a relation.
--   Text     strscpy.c and strtok.c.
--   Inet     inet.c for IPv4: inet_pton4 and inet_ntop4.
--   Utf8     idna.c: the UTF-8 decoder of the IDNA code.
--   Wtf8     idna.c for UTF-16 and WTF-8: the decoder, the lengths and both conversions.
-- Machine integers keep their wrap-around: a sum of uint64_t is `% 2 ^ 64`. A heap has less than 2^32
-- nodes, since `nelts` is an unsigned int. Loops are recursion on a list, on a tree or on fuel: the
-- paths of the heap get one unit for each binary digit, the first loop of uv__run_timers one for each
-- timer in the heap and one more, the second one for each timer in the ready queue and one more, the
-- worker of the thread pool two units, the loops over WTF-8 one for each byte, uv__write 33 rounds and
-- any more, a run of watchers or of pending callbacks one for each entry of the queue, and uv_run with
-- UV_RUN_DEFAULT what a measure of the program says. For each of these a theorem has the result that the
-- code reaches within that fuel.
--
-- Not modelled are memory allocation (uv__malloc is a parameter where a result depends on it), the
-- writes to the left, right and parent fields below the tree of a heap, system calls and what wraps
-- them, the condition variable of the thread pool, most of the Windows half of the library, and the copy
-- of the BSD trees (include/tree.h): they are effects of the system, or another project's code. The
-- reading and connecting of streams, the async wakeup, signals, IPv6 addresses and IDNA are left
-- out as well.
pub mod Barrier
pub mod Base
pub mod FdHash
pub mod Handle
pub mod Heap
pub mod Inet
pub mod Io
pub mod Pool
pub mod Queue
pub mod Run
pub mod Stream
pub mod Text
pub mod Timer
pub mod Utf8
pub mod Watcher
pub mod Wtf8
