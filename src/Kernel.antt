-- ===== src/Kernel.antt =====
-- The data of the scheduler: Kernel/include/scheduler.h, process.h, threads.h and stackFrame.h, the
-- globals of scheduler.c and process.c, and the memory that their pointers lead to.
--
-- Each struct type has its own memory, a function from addresses: a pointer that `allocate` has just
-- returned leads to whatever that memory held. NULL is the address 0. An `int` is the pattern of its
-- 32 bits, so that -1 is `minus_one`, except for the counters that the code decrements, which are ℤ.
-- A function whose result is an `Option` gives `none` where the code follows a variable that it has
-- not set, or where a loop does not end within the fuel.
pub mod Lookup
pub mod Threads
pub mod Process
pub mod Blocking
pub mod Scheduler
pub mod Samples
mod Tests
use basic_kernel_implementat.Prelude.{ℕ, ◌-◌, ◌^◌, List, update}
use basic_kernel_implementat.Prelude.Int.{ℤ, pos, negsuc, ◌+ℤ◌}
use basic_kernel_implementat.Memory.{Allocator}

abbrev pub null : ℕ
null = 0

abbrev pub minus_one : ℕ
minus_one = 2 ^ 32 - 1

abbrev pub quantum : ℕ
quantum = 5

abbrev pub thread_quantum : ℕ
thread_quantum = 1

abbrev pub number_of_pages : ℕ
number_of_pages = 256

abbrev pub name_length : ℕ
name_length = 50

pub data ProcessState : Type 0 where
  ready running blocked_io blocked_mutex blocked_pipe dead : ProcessState

pub data ThreadState : Type 0 where
  t_ready t_running t_blocked_io t_blocked_mutex t_blocked_pipe t_dead : ThreadState

pub record StackFrame : Type 0 where
  pub gs : ℕ
  pub fs : ℕ
  pub r15 : ℕ
  pub r14 : ℕ
  pub r13 : ℕ
  pub r12 : ℕ
  pub r11 : ℕ
  pub r10 : ℕ
  pub r9 : ℕ
  pub r8 : ℕ
  pub rsi : ℕ
  pub rdi : ℕ
  pub rbp : ℕ
  pub rdx : ℕ
  pub rcx : ℕ
  pub rbx : ℕ
  pub rax : ℕ
  pub rip : ℕ
  pub cs : ℕ
  pub eflags : ℕ
  pub rsp : ℕ
  pub ss : ℕ
  pub base : ℕ

pub record ThreadNode : Type 0 where
  pub user_stack : ℕ
  pub entry_point : ℕ
  pub base_stack : ℕ
  pub pthread : ℕ
  pub state : ThreadState

pub record ThreadLibrary : Type 0 where
  pub thread : ℕ
  pub next : ℕ

pub record HeapNode : Type 0 where
  pub address : ℕ
  pub size : ℕ
  pub next : ℕ

pub record ProcessNode : Type 0 where
  pub ppid : ℕ
  pub pid : ℕ
  pub state : ProcessState
  pub name : ℕ
  pub thread_library : ℕ
  pub current_thread : ℕ
  pub thread_size : ℤ
  pub thread_tick : ℕ
  pub current_p_thread : ℕ
  pub heap : ℕ

pub record SchedulerNode : Type 0 where
  pub process : ℕ
  pub next : ℕ

pub record Kernel : Type 0 where
  pub alloc : Allocator
  -- the memory
  pub slots : ℕ → SchedulerNode
  pub processes : ℕ → ProcessNode
  pub libraries : ℕ → ThreadLibrary
  pub threads : ℕ → ThreadNode
  pub frames : ℕ → StackFrame
  pub heaps : ℕ → HeapNode
  pub names : ℕ → List ℕ
  -- the globals of scheduler.c
  pub kernel_stack : ℕ
  pub process_queue : ℕ
  pub current_process : ℕ
  pub queue_size : ℤ
  pub number_of_ticks : ℕ
  -- the global of process.c
  pub current_pid : ℕ

abbrev pub decrement : ℤ → ℤ
decrement n = n +ℤ negsuc 0

abbrev pub increment : ℤ → ℤ
increment n = n +ℤ pos 1

-- Writes to one field through a pointer.
abbrev pub set_process_state : ProcessState → ℕ → Kernel → Kernel
set_process_state s p k = record k {
  processes = update k.processes p (record (k.processes p) { state = s });
}

abbrev pub set_thread_tick : ℕ → ℕ → Kernel → Kernel
set_thread_tick n p k = record k {
  processes = update k.processes p (record (k.processes p) { thread_tick = n });
}

abbrev pub set_current_thread : ℕ → ℕ → Kernel → Kernel
set_current_thread l p k = record k {
  processes = update k.processes p (record (k.processes p) { current_thread = l });
}

abbrev pub set_thread_size : ℤ → ℕ → Kernel → Kernel
set_thread_size n p k = record k {
  processes = update k.processes p (record (k.processes p) { thread_size = n });
}

abbrev pub set_heap : ℕ → ℕ → Kernel → Kernel
set_heap n p k = record k { processes = update k.processes p (record (k.processes p) { heap = n }) }

abbrev pub set_thread_state : ThreadState → ℕ → Kernel → Kernel
set_thread_state s t k = record k {
  threads = update k.threads t (record (k.threads t) { state = s });
}

abbrev pub set_slot_next : ℕ → ℕ → Kernel → Kernel
set_slot_next n p k = record k { slots = update k.slots p (record (k.slots p) { next = n }) }

abbrev pub set_library_next : ℕ → ℕ → Kernel → Kernel
set_library_next n p k = record k {
  libraries = update k.libraries p (record (k.libraries p) { next = n });
}

abbrev pub set_heap_next : ℕ → ℕ → Kernel → Kernel
set_heap_next n p k = record k { heaps = update k.heaps p (record (k.heaps p) { next = n }) }
