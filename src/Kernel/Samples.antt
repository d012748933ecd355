-- ===== src/Kernel/Samples.antt =====
-- A kernel with two processes of one thread each, for the tests.
use basic_kernel_implementat.Prelude.{ℕ, ◌+◌, [], if◌then◌else◌, ◌==◌}
use basic_kernel_implementat.Prelude.Int.{pos}
use basic_kernel_implementat.Kernel.{
  Kernel, ProcessState, ready, running, t_ready, t_running, ProcessNode, StackFrame,
}

abbrev frame : StackFrame
frame = record {
  gs = 0;
  fs = 0;
  r15 = 0;
  r14 = 0;
  r13 = 0;
  r12 = 0;
  r11 = 0;
  r10 = 0;
  r9 = 0;
  r8 = 0;
  rsi = 0;
  rdi = 0;
  rbp = 0;
  rdx = 0;
  rcx = 0;
  rbx = 0;
  rax = 0;
  rip = 0;
  cs = 0;
  eflags = 0;
  rsp = 0;
  ss = 0;
  base = 0;
}

-- Process `n` at address 10 + n, with its slot, its thread's node and its thread.
abbrev process_at : (n thread : ℕ) → ProcessState → ProcessNode
process_at n thread s = record {
  ppid = 0;
  pid = n;
  state = s;
  name = 0;
  thread_library = thread;
  current_thread = thread;
  thread_size = pos 1;
  thread_tick = 0;
  current_p_thread = 1;
  heap = 0;
}

-- Slots at 0x101000 and 0x102000 in use; process 0 runs, process 1 is ready.
abbrev pub two : Kernel
two = record {
  alloc = record {
    init_mem = 0x100000;
    map_address = 0x500000;
    used_map = λ s. if s == 0 then 6 else 0;
    blocks_amount = 1024;
  };
  slots = λ a.
      if a == 0x101000
      then record { process = 10; next = 0x102000 }
      else record { process = 11; next = 0x101000 };
  processes = λ a. if a == 10 then process_at 0 20 running else process_at 1 21 ready;
  libraries = λ a. record { thread = a + 10; next = a };
  threads = λ a. record {
    user_stack = 0;
    entry_point = 0;
    base_stack = 0;
    pthread = 0;
    state = if a == 30 then t_running else t_ready;
  };
  frames = λ _. frame;
  heaps = λ _. record { address = 0; size = 0; next = 0 };
  names = λ _. [];
  kernel_stack = 0;
  process_queue = 0x101000;
  current_process = 0x101000;
  queue_size = pos 2;
  number_of_ticks = 5;
  current_pid = 2;
}
