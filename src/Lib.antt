-- ===== src/Lib.antt =====
-- function_stream: the parallel algorithms of the library, the task groups, semaphores, queues and
-- scheduler that run them, and the futures and streams on top.
--
-- The parts, and the files that model them:
-- * Latch (include/daw/fs/impl/daw_latch.h): `fixed_cnt_sem` is a number; `notify` below one is a
--   fault, as its assertion fails. Latch/Shared is the handle `shared_cnt_sem`.
-- * AtomicWait (include/daw/fs/impl/daw_atomic_wait.h): the loops that wait for an atomic object, over
--   what its loads see and the clock shows. Latch/Waiting is the wait of a semaphore over them.
-- * Group (include/daw/fs/impl/algorithms_impl.h, include/daw/fs/task_scheduler.h): a scheduling loop
--   that adds tasks to a semaphore, with its scope guard, and the workers that run the tasks, as a
--   relation `Step` of atomic steps in any interleaving. `Reach` is what steps lead to.
--   Here a task does one thing to memory and the scheduler runs it; Group/Overlap has tasks whose
--   steps go on between those of others, and a scheduler that may be stopped.
--   Group/Waitable is `create_waitable_task` and `invoke_tasks`.
-- * Parallel (include/daw/fs/impl/algorithms_impl.h): one file per algorithm. A range is a list, a
--   view is a position and a list, an iterator is a position with its item, `none` is the end. The
--   tasks of a group run in any order, which `TaskScheduler` gives, and where their writes may
--   interleave, the writes are what is reordered. The waits are those of Group: all tasks have run.
--   Parallel/Interleaved runs the tasks of a reduction as a group of Group, step by step;
--   Parallel/Chunked is on the groups of Group/Preset, with their own waits.
-- * Algorithms (include/daw/fs/algorithms.h): the functions that users call.
-- * Queue (include/daw/fs/message_queue.h): `concurrent_queue` and the spinning push and pop.
-- * Scheduler (src/task_scheduler.cpp, include/daw/fs/task_scheduler.h): `fixed_task_scheduler` as a
--   state, with sending, stealing, starting, stopping and growing as functions on it;
--   Scheduler/Calls is `task_scheduler::add_task` and the wait of a temporary task runner,
--   Scheduler/Temporary how such a runner starts, Scheduler/Facade the handle `task_scheduler`,
--   Scheduler/Runner the loop of a worker, Scheduler/Wrapped the tasks of
--   include/daw/fs/impl/task_wrapper.h, and Scheduler/Ownership the shared pointers to the scheduler, as
--   a step relation.
--   Scheduler/Contents sees the scheduler by the tasks in its queues, Scheduler/Contents/Bag as a
--   bag, and Scheduler/Contents/Runs goes from a call to the worker; Scheduler/Nested are workers that
--   wait in tasks; Scheduler/Overloads is what `add_task` and `schedule_task` make of a function and
--   a semaphore.
-- * Thread (include/daw/fs/impl/ithread.h): a `fixed_ithread`, its owner and its thread, as a step
--   relation; an owner is a list of actions.
-- * LockedPtr (include/daw/fs/impl/daw_locked_ptr.h): a pointer behind a mutex; LockedPtr/Holding
--   are those that hold the mutex.
-- * Task (include/daw/fs/impl/task.h, src/task_scheduler.cpp): a task by its semaphore, `run_task`,
--   and the temporary task runner.
-- * Future (include/daw/fs/impl/future_result_impl.h, src/future_result.cpp): the shared state of a
--   future; Future/Interface is `future_result_t` of include/daw/fs/future_result.h over it, and
--   Future/Handles the weak pointers to it. Future/Async and Future/Refused are the futures of tasks,
--   Future/Forks and Future/Callables the groups of futures, Future/Join the join of several,
--   Future/Void what differs for `void`. Future/Chain is a client that chains functions while workers
--   run the tasks, and Future/Forking a fork from the first function to the futures that it returned.
--   Future/Reduction and Future/Rounds are `reduce_futures` of include/daw/fs/future_result.h.
-- * Stream (include/daw/fs/impl/function_stream_impl.h, include/daw/fs/function_stream.h): composed
--   functions, and the tasks of a stream; Stream/Interface are the objects that users make of
--   functions, Stream/Package is include/daw/fs/package.h, and Callable is `make_callable` of
--   include/daw/fs/impl/daw_function.h.
-- * Base has what the parts share. `Outcome` is what C++ code does: it returns, throws or faults,
--   which is undefined behaviour or a failed assertion. Tests has examples.
--
-- Parameters: `DawAlgorithm` stands for the functions of header_libraries that the algorithms call,
-- with what they document; whether a mutex was free, whether a task was accepted and what other
-- threads do meanwhile are arguments of the calls. `TaskScheduler` is the size of the scheduler and
-- an order in which it runs a group.
--
-- Bounds: the loops are structural, but for those with fuel. `ring`, the loop of `send_task` over the
-- other queues, takes the number of threads, `reduce_futures` the number of futures, the polls of
-- `atomic_wait_for` 65 and the loop of a wrapped task one more than there are tasks in the queues: each
-- is enough. The spinning loops of Queue run over a list of rounds, at the end of which they still
-- spin. `m_task_count` and `m_current_id` wrap at 64 bits; the counts of semaphores are not bounded.
--
-- Not modelled: exceptions that a task throws inside an algorithm, memory and its exhaustion, the
-- scheduling of the operating system, type erasure, thread ids, and what does not compile when it is
-- used: the timed waits on semaphores, threads and futures, and the fork of a void future.
pub mod Base
pub mod Latch
pub mod AtomicWait
pub mod Group
pub mod Parallel
pub mod Algorithms
pub mod Queue
pub mod Thread
pub mod LockedPtr
pub mod Scheduler
pub mod Task
pub mod Callable
pub mod Future
pub mod Stream
pub mod Tests
