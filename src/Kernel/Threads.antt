-- ===== src/Kernel/Threads.antt =====
-- Kernel/threads.c: threads, their stacks, and the ring of a process's threads.
pub mod Stack
use basic_kernel_implementat.Prelude.{
  ℕ, zero, suc, ◌+◌, ◌-◌, ◌*◌, ◌%◌, ◌^◌, Option, none, some, ◌==◌, if◌then◌else◌, ◌>>=◌, update,
}
use basic_kernel_implementat.Prelude.Int.{ℤ, pos_part}
use basic_kernel_implementat.Memory.{Allocator, allocate, deallocate, page_size}
use basic_kernel_implementat.Kernel.{
  Kernel, ThreadNode, StackFrame, t_ready, null, minus_one, number_of_pages, set_library_next,
  increment,
}
use basic_kernel_implementat.Kernel.Lookup.{get_process_with_pid, library_next}

-- `allocate` and `deallocate` on the kernel's allocator.
abbrev pub kernel_allocate : ℕ → Kernel → ℕ × Kernel
kernel_allocate size k = let (p, a) = allocate k.alloc size in (p, record k { alloc = a })

abbrev pub kernel_deallocate : (position size : ℕ) → Kernel → Option Kernel
kernel_deallocate position size k = do
  r ← deallocate k.alloc position size
  some (record k { alloc = r.1 })

abbrev pub sizeof_stack_frame : ℕ
sizeof_stack_frame = 184

-- The offset of `base`, the last field.
abbrev pub offset_of_base : ℕ
offset_of_base = 176

-- A pointer to a frame, one frame before `base_stack`.
abbrev pub frame_below : ℕ → ℕ
frame_below base_stack = (base_stack + 2 ^ 64 - sizeof_stack_frame) % 2 ^ 64

unfoldable pub fill_stack_frame : (exec entry_point base_stack : ℕ) → Kernel → ℕ × Kernel
fill_stack_frame exec entry_point base_stack k =
    let frame = frame_below base_stack in
    (
      frame,
      record k {
        frames = update k.frames frame (record {
          gs = 0x001;
          fs = 0x002;
          r15 = 0x003;
          r14 = 0x004;
          r13 = 0x005;
          r12 = 0x006;
          r11 = 0x007;
          r10 = 0x008;
          r9 = 0x009;
          r8 = 0x00A;
          rsi = 0x00B;
          rdi = entry_point;
          rbp = 0x00D;
          rdx = 0x00E;
          rcx = 0x00F;
          rbx = 0x010;
          rax = 0x011;
          rip = exec;
          cs = 0x008;
          eflags = 0x202;
          rsp = (frame + offset_of_base) % 2 ^ 64;
          ss = 0x000;
          base = 0x000;
        });
      },
    )

unfoldable pub create_thread : (exec entry_point current_p_thread : ℕ) → Kernel → ℕ × Kernel
create_thread exec entry_point current_p_thread k =
    let (thread, k1) = kernel_allocate page_size k in
    let (stack, k2) = kernel_allocate (page_size * number_of_pages) k1 in
    let (frame, k3) = fill_stack_frame exec entry_point stack k2 in
    (
      thread,
      record k3 {
        threads = update k3.threads thread (record {
          user_stack = frame;
          entry_point = entry_point;
          base_stack = stack;
          pthread = current_p_thread;
          state = t_ready;
        });
      },
    )

-- The new node becomes the ring, or goes behind the first node of the ring.
unfoldable pub link_library : (process node : ℕ) → Kernel → Kernel
link_library process node k =
    let p = k.processes process in
    let alone = set_library_next node node (record k {
      processes =
          update k.processes process (record p { thread_library = node; current_thread = node });
    }) in
    let behind =
      set_library_next node p.thread_library
        (set_library_next (library_next k p.thread_library) node k) in
    if p.current_thread == null then alone else behind

unfoldable pub count_thread : (process : ℕ) → Kernel → Kernel
count_thread process k =
    let p = k.processes process in
    record k {
      processes = update k.processes process (record p {
        current_p_thread = (p.current_p_thread + 1) % 2 ^ 32;
        thread_size = increment p.thread_size;
      });
    }

unfoldable pub add_thread : (process exec entry_point : ℕ) → Kernel → ℕ × Kernel
add_thread process exec entry_point k =
    let (thread, k1) = create_thread exec entry_point (k.processes process).current_p_thread k in
    let (node, k2) = kernel_allocate page_size k1 in
    let k3 = record k2 {
      libraries = update k2.libraries node (record (k2.libraries node) { thread = thread });
    } in
    let k4 = count_thread process (link_library process node k3) in
    ((k4.threads thread).pthread, k4)

unfoldable pub add_thread_to_process : ℕ → (pid exec entry_point : ℕ) → Kernel → Option (ℕ × Kernel)
add_thread_to_process fuel pid exec entry_point k = do
  process ← get_process_with_pid fuel pid k
  some (if process == null then (minus_one, k) else add_thread process exec entry_point k)

-- Stack, thread and node of one place in the ring.
unfoldable pub free_library_node : ℕ → Kernel → Option Kernel
free_library_node current k = do
  let thread = (k.libraries current).thread
  k1 ← kernel_deallocate (k.threads thread).base_stack (page_size * number_of_pages) k
  k2 ← kernel_deallocate thread page_size k1
  kernel_deallocate current page_size k2

-- The loop of freeThreadLibrary with the rounds left. `prev` has no value before the first round,
-- which writes through it.
unfoldable pub free_library_loop :
    (left : ℕ) (prev : Option ℕ) (current : ℕ) → Kernel → Option Kernel
free_library_loop zero prev current k = some k
free_library_loop (suc left) none current k = none
free_library_loop (suc left) (some prev) current k = do
  k1 ← free_library_node current (set_library_next (library_next k current) prev k)
  free_library_loop left (some current) (library_next k1 current) k1

unfoldable pub free_thread_library : (library : ℕ) → ℤ → Kernel → Option Kernel
free_thread_library library thread_size k = free_library_loop (pos_part thread_size) none library k
