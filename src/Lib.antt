-- ===== src/Lib.antt =====
-- slipstream_io: the io_uring engine of slipstreamIO, modelled from its C source.
--
-- The engine answers liburing's calls where the kernel has no io_uring. A ring takes submissions
-- (SQEs) into ops of its own pool, runs them in order on the submitter's thread, and hands their
-- completions (CQEs) back through a queue that the caller reads. What an op does to a descriptor is
-- a backend's business, behind `struct eng_backend`.
--
--   Abi.antt: the SQE and CQE as the engine reads them, opcodes, flags and errno numbers.
--   Ring.antt: `struct eng_op`, `struct slip_bufring`, `struct slip_ring` of
--     src/engine_internal.h. An op pointer is a slot number of `op_pool`, and a list threaded through
--     `next` is the list of its slots.
--   Completion.antt: op_alloc_locked, op_release, cq_avail, cq_room, post_locked,
--     drain_backlog_locked, backlog_locked, slip_engine_post and slip_engine_emit of
--     src/slipstream_engine.c. Completion/Window reads the queue as a list, Completion/Order and
--     Completion/Post say what each door adds, Completion/Owners counts who holds each op.
--   Fixed.antt: the fixed file table (slip_fixed_lookup, slip_fixed_install, slip_fixed_clear) and
--     slip_bufring_of.
--   Backend.antt: `struct eng_backend` as a record of operations on the ring and on whatever the
--     platform keeps, a parameter of the engine. Backend/Laws.antt: what the core relies on of it, on rings
--     whose ops have one holder each and whose parked ops know their places.
--   Engine.antt: g_rings, ring_of, complete, process_queue, msg_ring, settle_worker_ticket.
--     Engine/Heads and Engine/Queue are about its rounds and its loop, Engine/Chains says what linked
--     submissions are to answer and Engine/Chains/Refine that the queue answers so.
--   Setup.antt: slipstream_engine_setup and round_up_pow2. Enter.antt: slipstream_engine_enter, with
--     Enter/Submit about its submission loop, Enter/Wait about its wait loop and Enter/Owners about
--     the ops. Register.antt: slipstream_engine_register. Close.antt: slipstream_engine_mmap,
--     slipstream_engine_munmap and slipstream_engine_close. The Tests modules run them on small rings.
--   Posix.antt: the parked set of src/engine_posix.c (park, unpark), slip_posix_hand_to_worker and the
--     provided buffers (bufring_take, bufring_unget).
--   Posix/Sys.antt: the system calls that engine_posix.c makes, as operations on a world.
--   Posix/Try.antt, Posix/Multishot.antt, Posix/Socket.antt: slip_posix_try by opcode, the multishot
--     loops, connect and slip_posix_cmd_sock.
--   Posix/Worker.antt: slip_posix_run_blocking and a turn of worker_main.
--   Posix/Cancel.antt: cancel_matching with its three sweeps.
--   Posix/Execute.antt: slip_posix_execute and slip_posix_finish_ready over a readiness backend.
--   Epoll.antt, Epoll/Wait.antt: src/engine_epoll.c, such a backend, with its table by descriptor.
--   Select.antt: src/engine_select.c, such a backend, which keeps nothing between waits. Select/Backed puts
--     it together as the core sees it, against the laws of Backend/Laws.antt; Select/Inline is about the ops
--     that it finishes at once.
--   Inotify.antt, Inotify/Queue.antt, Inotify/Changes.antt, Inotify/Calls.antt: the kqueue arm of
--     src/slipstream_inotify.c.
--
-- A function that takes the ring's lock is one step of the model. `unsigned` arithmetic keeps its
-- wrap-around at 2 ^ 32, and so does `int next_wd` of an inotify instance, whose overflow C leaves open.
-- The loop of process_queue runs on fuel, a round for each op in the queue;
-- the scan of the fixed table runs as often as its range is long, as in the source; round_up_pow2 is
-- given 33 rounds, past which an `unsigned` that is shifted no longer changes. The wait loop of enter
-- may block for ever, as it may in the source, and takes a bound on its waits; with a deadline one is
-- enough.
--
-- Of the arms for several systems in engine_posix.c the Linux ones are modelled, with poll(2). A
-- multishot loop runs for at most the rounds it is given, since each of them asks the system again and
-- nothing in the source bounds them. The source's cancel gives up the lock for each op that it takes off the
-- worker's list: with CANCEL_ALL, a live worker and a named op on that list, what its pointer meets next is
-- up to the worker, and cancel_matching is `none` there.
--
-- Not modelled: the poke pipe, statx by fstatat and the select(2) arm of engine_posix.c; opening and
-- closing the epoll descriptor; the other platform backends (engine_kqueue.c,
-- engine_dispatch.c, engine_iocp.c); the Linux and the Windows arm of slipstream_inotify.c, of which the
-- first only passes calls on; the choice of a backend by name; and the wrappers for signals, temporary
-- files, system calls and threads beside the engine.
pub mod Base
pub mod Abi
pub mod Ring
pub mod Completion
pub mod Fixed
pub mod Backend
pub mod Engine
pub mod Setup
pub mod Enter
pub mod Register
pub mod Close
pub mod Posix
pub mod Select
pub mod Inotify
pub mod Epoll
