-- ===== src/Kernel/Threads/Stack.antt =====
-- Where a new thread's stack lies.
use basic_kernel_implementat.Prelude.{ℕ, ◌+◌, ◌*◌, ◌^◌, ◌≤◌, ◌<◌, ◌≡◌, arith}
use basic_kernel_implementat.Memory.{page_size}
use basic_kernel_implementat.Kernel.{Kernel, t_ready, number_of_pages}
use basic_kernel_implementat.Kernel.Threads.{
  kernel_allocate, create_thread, fill_stack_frame, sizeof_stack_frame,
}

-- The address that the second `allocate` of createThread returns.
abbrev pub stack_of : Kernel → ℕ
stack_of k = (kernel_allocate (page_size * number_of_pages) (kernel_allocate page_size k).1).0

-- If there is room for a frame below the address that `allocate` gives for the stack: a new thread
-- starts on a frame that ends where its stack's memory begins, so that the frame and the stack that
-- grows down from it lie outside the 256 pages that were allocated for them. The frame holds the
-- entry points, and the thread is ready and has the number.
pub create_thread-stack_outside :
    (exec entry_point number : ℕ) (k : Kernel)
    → sizeof_stack_frame ≤ stack_of k
    → stack_of k < 2 ^ 64
    → let (thread, k') = create_thread exec entry_point number k in
      ((k'.threads thread).base_stack ≡ stack_of k)
      × ((k'.threads thread).user_stack + sizeof_stack_frame ≡ stack_of k)
      × ((k'.frames (k'.threads thread).user_stack).rsp < stack_of k)
      × ((k'.frames (k'.threads thread).user_stack).rip ≡ exec)
      × ((k'.frames (k'.threads thread).user_stack).rdi ≡ entry_point)
      × ((k'.threads thread).state ≡ t_ready)
      × ((k'.threads thread).pthread ≡ number)
unfolding create_thread fill_stack_frame
create_thread-stack_outside exec entry_point number k room word = (
  ground arith,
  ground arith,
  ground arith,
  ground arith,
  ground arith,
  ground arith,
  ground arith,
)
