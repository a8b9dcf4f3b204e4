-- ===== src/Lib.antt =====
-- btool, a header-only C++ library: task queues, timers, byte streams and network sessions. This
-- development models its data structures, which hold the library's own logic; what only starts an
-- operation of boost, OpenSSL or the operating system is left out.
--
-- The parts, and the files they are modelled in:
--   Common: lists, options and association lists over the native numbers, shared by the others.
--   AtomicSwitch: atomic_switch.hpp, the three flags of a component's life. Each load and exchange is a
--     step, between which other threads act.
--   TaskQueue: class TaskQueue of task_queue.hpp, a bounded queue of tasks behind a mutex with two
--     condition variables. `add_locked` and `pop_locked` are the bodies of add_task and pop_task once
--     the lock is held: `none` means that the wait goes on. `System` adds the threads that wait to add,
--     and what happened to each task; a list of actions is an interleaving.
--   LastTaskQueue: class LastTaskQueue of task_queue.hpp, which keeps only the latest task of each
--     property and runs one task of a property at a time. The map and the sets are an association list
--     and lists; `find_ready` is the search of pop_task and `finish_locked` its second locked part.
--   ParallelTaskQueue: class ParallelTaskQueue of task_queue.hpp, over moodycamel's ConcurrentQueue as a
--     parameter, with each look at the stop flag, wait, enqueue and dequeue as a step.
--     Its clear swaps the queue in one step, which stands for a clear that no thread adds or pops beside.
--   SpmcSerialTaskQueue: class SPMCSerialTaskQueue of task_queue.hpp, with queues by the same parameter and
--     every load, store and exchange as a step. Its Threads module has the interleavings.
--   MemoryStream: boost_net/memory_stream.hpp. A block is a list of cells, a cell being a byte or not
--     yet written; a memcpy outside a block is a fault. MemoryStream.Values has append_args and
--     read_args, with a value of a plain type as its bytes.
--   WriteBuffer: class WriteBuffer of boost_net/net_buffer.hpp, the send queue of a connection with its
--     pool of MemoryStream objects, built on the operations of MemoryStream.
--   ScrollWindow: scroll_window.hpp, ScrollWindowArray (an array written round and round) and
--     ScrollWindowVector (a vector cut back to its newest values).
--   SnowFlake: class SnowFlakeID of unique_id.hpp. The clock, which the code reads through std::chrono,
--     is a list of readings, one for each call of timeGen.
--   ObjectPoolNode: class ObjectPoolNode of object_pool.hpp, the slots of a pool by their numbers, with the
--     free list through their first words.
--   DateTime: class DateTimeConvert of datetime_convert.hpp: DateTime has the fields and what builds a value
--     from numbers, DateTime.Calendar the day of the week and the lengths of months, DateTime.Compare the
--     comparisons, DateTime.Text the texts, and DateTime.Clock what calls localtime and mktime, which are a
--     parameter. An int is in the integers of Common.Int.
--   Timers: timer_manager.hpp. Timers has the timer of task_item.hpp, Timers.Queue class TimerQueue with its
--     two maps, and Timers.Manager class TimerManager as events, with the switch of AtomicSwitch and with
--     the waits of the timer of boost as a list: a wait goes on, has ended by its time, was aborted or has
--     failed, and its handler is called once it has ended.
--     Timers.Manager.Users has the threads of insert, whose look at the switch comes before the mutex; start and
--     stop are whole calls there.
--   PropCountNodeList: the list in which class SerialTaskQueue of task_queue.hpp keeps its properties in order,
--     as nodes in memory with pointers; a pointer is a number, 0 for null, and the pool of nodes gives the
--     address of a new one. PropCountNodeList.Refine has the view of its caller, a list of runs.
--   SerialTaskQueue: class SerialTaskQueue of task_queue.hpp, over a list of properties with the operations of the
--     record PropList: that of PropCountNodeList, with the pool of nodes as a parameter, or that of its runs. A
--     queue over the one follows a queue over the other, so that its properties are shown over runs.
--
-- Numbers: a size_t wraps at 2 ^ 64 where the code adds or subtracts; the
-- counts of PropCountNodeList, of tasks in memory, do not come so far. Its pop_front has fuel for one node more
-- than there are, which is proved to be enough. The loop of MemoryStream.append
-- that doubles the capacity has a fuel of 66, one for each doubling up to 2 ^ 63 and two more; the loop
-- over a window has two more than its capacity. That the fuel is enough is proved.
--
-- Mutexes: a locked part is one step. A thread that waits on a condition variable may take its step
-- whenever its predicate holds, whether it was notified or not, so what is shown of all interleavings
-- holds for those that the notifications allow. What notifications miss is not shown.
-- A start of TaskQueue, LastTaskQueue and SerialTaskQueue holds no mutex: the steps adds_restarted have
-- it between the wait of add_task and its second look at m_bstop, the one place in a locked part where
-- it makes a difference.
--
-- Not modelled: the other task queues, the pools and their threads, the sessions and servers, the
-- conversions of text, ciphers, files, what reads the clock of the system, and the copy of HPSocket.
pub mod Common
pub mod AtomicSwitch
pub mod TaskQueue
pub mod LastTaskQueue
pub mod MemoryStream
pub mod WriteBuffer
pub mod ParallelTaskQueue
pub mod SpmcSerialTaskQueue
pub mod ScrollWindow
pub mod SnowFlake
pub mod ObjectPoolNode
pub mod DateTime
pub mod Timers
pub mod PropCountNodeList
pub mod SerialTaskQueue
