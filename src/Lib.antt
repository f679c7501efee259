-- ===== src/Lib.antt =====
-- A verification library for green-rs: libgreen, the M:N runtime that runs green tasks on a few
-- threads, and librustuv, its I/O library on libuv.
--
-- Parts, and how they interact. A scheduler (libgreen/src/sched.rs) runs on each thread of a pool. It
-- has a deque of green tasks (libgreen/src/task.rs) from which the others steal, a message queue
-- (libgreen/src/message_queue.rs) through which they send it tasks and wake it, and a place on a list
-- of sleepers (libgreen/src/sleeper_list.rs) that the pool shares. A green task owns its scheduler while it
-- runs, and a change of context hands the scheduler to the next task, which first runs the cleanup job
-- that the last one left: park it, enqueue it, block it or recycle its stack
-- (libgreen/src/stack.rs). The count of running tasks (`TaskState` in libgreen/src/lib.rs) tells the
-- pool when it may shut down. Each scheduler runs in the callbacks of an event loop, the basic one
-- (libgreen/src/basic.rs) or that of librustuv, and simple tasks (libgreen/src/simple.rs) start and end
-- a pool. In librustuv a task first goes to the event loop of the handle that it uses
-- (librustuv/src/homing.rs), through a queue of that loop (librustuv/src/queue.rs). There it asks for
-- access to the stream, which one task has at a time (librustuv/src/access.rs), sends a request to
-- libuv, and blocks until a callback reawakens it (librustuv/src/stream.rs, librustuv/src/udp.rs,
-- librustuv/src/tcp.rs) or the request times out (librustuv/src/timeout.rs).
--
-- Which file models which part:
-- - Stack.antt: `Stack` of libgreen/src/stack.rs; Stack/Pool.antt: `StackPool` and
--   `max_cached_stacks`. What mmap, mprotect and the environment answer are arguments.
-- - Context.antt: libgreen/src/context.rs; Context/Machine.antt: its `swap`, with the assembly of
--   libgreen/build/x86_64/_context.S.
-- - MessageQueue.antt: libgreen/src/message_queue.rs. A push of the lock-free queue below it has two
--   halves, between which a pop can find the queue inconsistent; both are operations here.
-- - SleeperList.antt: libgreen/src/sleeper_list.rs. TaskState.antt: `TaskState` of libgreen/src/lib.rs.
-- - Task.antt: `GreenTask` of libgreen/src/task.rs and libgreen/src/coroutine.rs; Task/Bounds.antt is
--   about the bounds of its stack.
-- - Sched/World.antt: the state of a scheduler, of its thread's local task and of the memory that the
--   threads share, and the monad of code that runs on that thread: a function from the state to a
--   fault or to an answer and the new state. Sched/Work.antt: `enqueue_task`, `find_work` and
--   `try_steals`. Sched/Routing.antt: `process_task`. Sched/Switch.antt: `change_task_context` and the
--   cleanup jobs. Sched/Loop.antt: `run_sched_once`. Sched/Green.antt: what green tasks call, in
--   libgreen/src/sched.rs and libgreen/src/task.rs. Sched/Logic.antt reasons about runs that return,
--   Sched/Ends.antt about runs that do, as that of an idle scheduler in Sched/Idle.antt;
--   Sched/Held.antt counts where a task is held, and its children follow the count through each
--   operation; Sched/Steals.antt and Sched/Sleep.antt are about stealing and sleeping.
-- - Pool.antt: `SchedPool` of libgreen/src/lib.rs, and how libgreen/src/sched.rs makes a scheduler;
--   Pool/Runs.antt: `run` and the spawners of libgreen/src/lib.rs;
--   Pool/Laws.antt is about whom a pool reaches.
-- - Sched/Bootstrap.antt: `bootstrap` and `run` of libgreen/src/sched.rs around an event loop, which is
--   a parameter. Basic.antt: `BasicLoop` of libgreen/src/basic.rs; Basic/Owners.antt: who has its
--   remote callbacks. Simple.antt: libgreen/src/simple.rs,
--   cut where another thread may come in; Simple/Wakes.antt has the two threads.
-- - TaskState/Shutdown.antt: the wait of `SchedPool::shutdown`, beside tasks that start and end.
-- - Uv/Access.antt: librustuv/src/access.rs. Uv/QueuePool.antt: librustuv/src/queue.rs.
--   Uv/Homing.antt: librustuv/src/homing.rs. Uv/EventLoop.antt: a thread's loop, in
--   librustuv/src/event_loop.rs. Uv/Block.antt: `block` and `wakeup` of librustuv/src/lib.rs.
-- - Uv/Timeout.antt: `AccessTimeout` of librustuv/src/timeout.rs; Uv/Timeout/Late.antt is about timeouts
--   that fire between a reawakening and the task's run. Uv/Timeout/Connect.antt: `ConnectCtx`.
--   Uv/Timeout/Accept.antt: `AcceptTimeout` and `Pusher`; its children follow one acceptor over time.
-- - Uv/Stream.antt: librustuv/src/stream.rs. Uv/Udp.antt: `recv_from` and `send_to` of
--   librustuv/src/udp.rs; Uv/Udp/Sockets.antt: its handles. Uv/Tcp.antt: reads, the shutdown and the
--   listener's callback of librustuv/src/tcp.rs; Uv/Tcp/Writing.antt: its writes; Uv/Tcp/Turns.antt and its
--   children: the writes of tasks that share a connection, interleaved. Uv/Handles.antt: how sockets,
--   pipes and listeners are made, shared and dropped, in librustuv/src/raw/mod.rs and
--   librustuv/src/tcp.rs. Uv/Pipe.antt: librustuv/src/pipe.rs.
-- - Uv/Timer.antt: librustuv/src/timer.rs. Uv/Async.antt: librustuv/src/async.rs. Uv/Idle.antt:
--   librustuv/src/idle.rs. Uv/Signal.antt: librustuv/src/signal.rs.
-- - Uv/Fs.antt: `execute`, the loop of `write_at` and `mkdir_recursive` of librustuv/src/fs.rs, over a
--   file system that is a parameter; Uv/Fs/Removal.antt: its `rmdir_recursive`. Uv/Fs/Requests.antt:
--   librustuv/src/raw/fs.rs. Uv/Fs/Files.antt: the files of librustuv/src/fs.rs, in a monad of runs that
--   borrow the event loop; Uv/Fs/Operations.antt: its functions of one request each; Uv/Fs/Copy.antt: its
--   `copy`; Uv/Fs/Closes.antt and its children are about the descriptors that it opens, Uv/Fs/Served.antt
--   and its children about what it copies on a file system that serves it. Uv/AddrInfo.antt:
--   librustuv/src/addrinfo.rs. Uv/Tty.antt: librustuv/src/tty.rs. Uv/Errors.antt:
--   `to_io_error` of librustuv/src/lib.rs.
-- - Uv/Address.antt: the socket addresses of librustuv/src/raw/mod.rs.
-- - Prelude.antt: lists, tests, faults, integers and families over the native numbers. Examples.antt:
--   concrete states.
--
-- How the code is modelled. A change of context does not return before its task is resumed, so the
-- function for it returns on the other side, in the task that runs next. What green tasks do from the
-- time that the scheduler task has switched to one until it is switched back is a parameter,
-- `run_green`. The `while` loop of `run_sched_once` takes fuel, one unit for each pass; `none` is a
-- loop that has not ended, since green tasks that keep yielding can keep it going as long as no I/O is
-- due. So do the loops of the basic event loop, which run as long as closures add further ones, and the
-- loops of `write_at` and `copy`, for which one unit more than there are bytes is enough when each
-- request makes progress, and of `rmdir_recursive`, which goes on as long as the file system shows it
-- further directories. An assertion, an `unwrap`, an abort or a panic is a fault, which ends the thread.
-- Deques, message queues and event loops go by ids; the deque of std::sync is a list of which the owner uses
-- the front and thieves the back, where a thief can lose a race; random numbers are a stream that is
-- given. Addresses stand for boxes, 64 bits for `uint`.
--
-- A call of librustuv that blocks is cut into the part before and the part after its task sleeps; in
-- between, a list of events says what libuv and the timers do, where libuv calls back only for what has
-- been started and not stopped. The context in the frame of a blocked call and the pointer to it are
-- two fields, so that a callback that meets a null pointer or a frame that is gone is a fault. What
-- libuv's calls return, its error codes, libc's constants and the byte order are arguments.
--
-- What is not modelled: the change of context on Windows and on other machines than x86_64, and the
-- mapping of memory; the lock that a task holds while it is put to sleep (`nasty_deschedule_lock`); the
-- loop of libuv, the memory of its handles and its bindings; times of files as floating-point numbers;
-- processes, which are not compiled; and the options and names of sockets, which are single calls of libuv.
pub mod Prelude
pub mod Stack
pub mod Context
pub mod MessageQueue
pub mod SleeperList
pub mod TaskState
pub mod Task
pub mod Sched
pub mod Pool
pub mod Basic
pub mod Simple
pub mod Uv
pub mod Examples
