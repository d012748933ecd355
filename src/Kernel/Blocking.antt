-- ===== src/Kernel/Blocking.antt =====
-- The functions of Kernel/scheduler.c that block, wake and end processes and threads.
pub mod All
pub mod Wake
use basic_kernel_implementat.Prelude.{
  ℕ, zero, suc, ◌≡◌, Bool, true, false, ◌&&◌, ◌||◌, Option, none, some, ◌==◌, if◌then◌else◌, ◌>>=◌,
}
use basic_kernel_implementat.Prelude.Int.{ℤ, pos, negsuc, pos_part}
use basic_kernel_implementat.Kernel.{
  Kernel, ProcessState, ready, dead, ThreadState, t_ready, t_dead, quantum, thread_quantum,
  set_process_state, set_thread_state, set_thread_tick, set_thread_size, decrement,
}
use basic_kernel_implementat.Kernel.Lookup.{
  get_process_with_pid, get_thread_with_pthread, library_next, get_block_process_type, same_state,
  same_thread_state,
}

abbrev pub library_state : Kernel → ℕ → ThreadState
library_state k library = (k.threads (k.libraries library).thread).state

unfoldable pub all_threads_loop : (left current : ℕ) → Kernel → Bool
all_threads_loop zero current k = true
all_threads_loop (suc left) current k =
    let rest = all_threads_loop left (library_next k current) k in
    if same_thread_state (library_state k current) t_ready then false else rest

unfoldable pub all_threads_are_blocked : (process : ℕ) → Kernel → Bool
all_threads_are_blocked process k =
    let p = k.processes process in all_threads_loop (pos_part p.thread_size) p.thread_library k

unfoldable pub block_process : ℕ → (pid : ℕ) → ProcessState → Kernel → Option Kernel
block_process fuel pid block_type k = do
  process ← get_process_with_pid fuel pid k
  some (record (set_process_state block_type process k) { number_of_ticks = quantum })

abbrev pub unblock : ProcessState → (process : ℕ) → Kernel → Kernel
unblock block_type process k =
    if same_state (k.processes process).state block_type
    then set_process_state ready process k
    else k

unfoldable pub unblock_process : ℕ → (pid : ℕ) → ProcessState → Kernel → Option Kernel
unblock_process fuel pid block_type k = do
  process ← get_process_with_pid fuel pid k
  some (unblock block_type process k)

unfoldable pub block_thread : ℕ → (pid pthread : ℕ) → ThreadState → Kernel → Option Kernel
block_thread fuel pid pthread block_type k = do
  process ← get_process_with_pid fuel pid k
  thread ← get_thread_with_pthread fuel pthread process k
  let k1 = set_thread_tick thread_quantum process (set_thread_state block_type thread k)
  (if all_threads_are_blocked process k1
      then block_process fuel pid (get_block_process_type block_type) k1
      else some k1)

abbrev pub unblock_node : ThreadState → (thread : ℕ) → Kernel → Kernel
unblock_node block_type thread k =
    if same_thread_state (k.threads thread).state block_type
    then set_thread_state t_ready thread k
    else k

unfoldable pub unblock_thread : ℕ → (pid pthread : ℕ) → ThreadState → Kernel → Option Kernel
unblock_thread fuel pid pthread block_type k = do
  process ← get_process_with_pid fuel pid k
  thread ← get_thread_with_pthread fuel pthread process k
  unblock_process fuel pid (get_block_process_type block_type) (unblock_node block_type thread k)

unfoldable pub unblock_all_loop :
    ℕ → (pid : ℕ) → ThreadState → (left library : ℕ) → Kernel → Option Kernel
unblock_all_loop fuel pid block_type zero library k = some k
unblock_all_loop fuel pid block_type (suc left) library k = do
  let thread = (k.libraries library).thread
  k1 ←
      (if same_thread_state (k.threads thread).state block_type
        then unblock_process fuel pid (get_block_process_type block_type)
            (set_thread_state t_ready thread k)
        else some k)
  unblock_all_loop fuel pid block_type left (library_next k1 library) k1

unfoldable pub unblock_all_threads : ℕ → (pid : ℕ) → ThreadState → Kernel → Option Kernel
unblock_all_threads fuel pid block_type k = do
  process ← get_process_with_pid fuel pid k
  let p = k.processes process
  unblock_all_loop fuel pid block_type (pos_part p.thread_size) p.thread_library k

-- The processes 0 and 1 are never ended.
unfoldable pub remove_process : ℕ → (pid : ℕ) → Kernel → Option Kernel
remove_process fuel pid k = if (pid == 0) || (pid == 1) then some k else do
  process ← get_process_with_pid fuel pid k
  let k1 = set_process_state dead process k
  some (record k1 { queue_size = decrement k1.queue_size })

abbrev pub is_one : ℤ → Bool
is_one (pos n) = n == 1
is_one (negsuc n) = false

-- The code stores `DEAD` into a thread's state; it is the same number as `T_DEAD`.
unfoldable pub remove_thread : ℕ → (pid pthread : ℕ) → Kernel → Option Kernel
remove_thread fuel pid pthread k = if (pid == 0) || (pid == 1) || (pthread == 0) then some k else do
  process ← get_process_with_pid fuel pid k
  k1 ← (if is_one (k.processes process).thread_size then remove_process fuel pid k else some k)
  thread ← get_thread_with_pthread fuel pthread process k1
  let k2 = set_thread_state t_dead thread k1
  some (set_thread_size (decrement (k2.processes process).thread_size) process k2)
