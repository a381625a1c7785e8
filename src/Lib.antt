-- ===== src/Lib.antt =====
-- arduino-osh is a preemptive kernel for Cortex-M0+ and Cortex-M4 boards: tasks with priorities,
-- a scheduler driven by the system tick and by service calls, and queues, mutexes, semaphores and
-- read-write locks on which tasks block. This library models the C code of the kernel.
--
-- The program and the files.
--   Types       src/types.h: the structures, the enumerations and the constants. `Os` is `osg` with
--               the memory behind it: the tasks, the four kinds of objects, the words of the stacks.
--   Machine     what C code can do: read and write through pointers, `OS_ASSERT`, output.
--   Chain       what a linked list of tasks stands for: a list of addresses that ends in `NULL`.
--   RunQueue    runqueue_length, runqueue_add, runqueue_remove, runqueue_has_higher_priority and
--               osi_priority_check of src/os.c.
--   WaitQueue   has_cycles, waitqueue_add and waitqueue_remove of src/os.c.
--   Scheduler   osi_task_status_set, osi_dispatch, osi_dispatch_or_queue, find_new_task,
--               osi_schedule and osi_irs_systick of src/os.c.
--   Blocked     src/utilities.h: the list of the tasks that block on an object.
--   Stack       initialize_stack, the saved registers and the stack marks of src/os.c.
--   Tasks       os_initialize to os_start, and the os_task functions of src/os.c.
--   Hooks, Signals, Service
--               osi_panic of src/hooks.c, src/signals.c, and svc_delay, svc_block, svc_panic and
--               svc_abort of src/service.c.
--   Kernel      PendSV_Handler and SVC_Handler of src/arch/m0.s, and the running system: what a tick,
--               a delay, a call for a mutex and the work of a task make of it (Tick, Delay, Acquire,
--               Runs, Wakes), what a task gets that has been switched away from (Answer), and how an
--               application starts the system (Boot).
--   Syscalls    src/syscall_plumbing.h, and the svc_ and os_ functions of src/service.c.
--   Mutex, Queue, Semaphore, Rwlock
--               src/mutex.c, src/queue.c, src/semaphore.c and src/rwlock.c.
--   Tests       a system of five tasks, and the theorems at it.
--
-- How the parts interact. The objects block the running task by svc_block, which puts it into the
-- wait queue (osi_task_status_set) and lets osi_schedule choose another one (find_new_task) and
-- switch to it (osi_dispatch). A release hands the object to the first blocked task, writes that
-- task's return value into its saved registers, and calls osi_dispatch_or_queue.
--
-- How C is rendered. A pointer is a number, and `NULL` is 0. A field of os_task_t is a map from the
-- tasks' addresses. A function takes and returns the whole state, and ends in one of five ways: it
-- returns, an assertion fails, the machine resets, `NULL` is followed, or a loop is not through
-- after `rounds` rounds. Unsigned numbers wrap where the code lets them. A walk along a list of
-- tasks gets 256 rounds, and find_new_task, which passes the end of a list once, gets 512. The
-- counter of tasks is one byte wide, so that no more tasks are meant. The theorems ask for a shorter
-- list, and then the walk ends by itself.
--
-- The running system (Kernel.Settled). Between two exceptions the run queue holds the tasks that can
-- run, by falling priority, and the wait queue those that wait, by rising wake-up time; the running
-- task is active and in the run queue, and no task there outranks it; the idle task is in the run
-- queue, below all others; the running task blocks on nothing, and any other task on nothing or on one
-- of the mutexes, whose lists are in step with the fields of the tasks; and no stack has lost its lowest word. The
-- tasks of a running system that wait for queues, semaphores or read-write locks are not covered.
--
-- What is not modelled. An interrupt inside a function: the handlers run at two priorities, and the
-- code masks interrupts on SAMD51 only. The handlers of the Cortex-M4 (src/arch/m4.s), the macros that
-- put the arguments of service calls into registers, the functions that only print, the texts that are
-- printed, the report of hard faults, the platform's clocks (`uptime` and `micros` are fields of the
-- state), osi_platform_setup of os_start, which succeeds on each platform, what the application's status
-- hook does (its calls are events of the trace), the loading of the next task's registers by the
-- handlers (the registers are given with each exception), and the copies of SEGGER RTT and printf. The
-- handlers of src/arch/m0.s stand for those of the SAMD51 too, but for the theorem of Kernel.Answer.
pub mod Base
pub mod Types
pub mod Machine
pub mod RunQueue
pub mod WaitQueue
pub mod Blocked
pub mod Stack
pub mod Scheduler
pub mod Hooks
pub mod Tasks
pub mod Signals
pub mod Service
pub mod Kernel
pub mod Syscalls
pub mod Mutex
pub mod Queue
pub mod Semaphore
pub mod Rwlock
pub mod Chain
pub mod Tests
