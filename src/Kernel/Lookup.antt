-- ===== src/Kernel/Lookup.antt =====
-- The functions of Kernel/scheduler.c that find a process or a thread, and those that read one.
pub mod Find
pub mod Same
use basic_kernel_implementat.Prelude.{
  ℕ, zero, suc, ◌+◌, ◌≡◌, Bool, true, false, ◌&&◌, ◌||◌, Option, none, some, ◌==◌, if◌then◌else◌,
  ◌>>=◌,
}
use basic_kernel_implementat.Kernel.{
  Kernel, null, minus_one, ProcessState, ready, running, blocked_io, blocked_mutex, blocked_pipe,
  dead, ThreadState, t_ready, t_running, t_blocked_io, t_blocked_mutex, t_blocked_pipe, t_dead,
}

-- The pid of the process of a slot, and the next slot.
abbrev pub slot_pid : Kernel → ℕ → ℕ
slot_pid k aux = (k.processes (k.slots aux).process).pid

abbrev pub slot_next : Kernel → ℕ → ℕ
slot_next k aux = (k.slots aux).next

abbrev pub library_pthread : Kernel → ℕ → ℕ
library_pthread k aux = (k.threads (k.libraries aux).thread).pthread

abbrev pub library_next : Kernel → ℕ → ℕ
library_next k aux = (k.libraries aux).next

-- The loop of getProcessWithPid: it stops at the head of the queue or at the pid.
unfoldable pub process_loop : ℕ → Kernel → (pid aux : ℕ) → Option ℕ
process_loop zero k pid aux = none
process_loop (suc fuel) k pid aux =
    let rest = process_loop fuel k pid (slot_next k aux) in
    if (aux == k.process_queue) || (slot_pid k aux == pid) then some aux else rest

unfoldable pub get_process_with_pid : ℕ → ℕ → Kernel → Option ℕ
get_process_with_pid fuel pid k = do
  aux ← process_loop fuel k pid (slot_next k k.process_queue)
  some (if slot_pid k aux == pid then (k.slots aux).process else null)

unfoldable pub thread_loop : ℕ → Kernel → (library pthread aux : ℕ) → Option ℕ
thread_loop zero k library pthread aux = none
thread_loop (suc fuel) k library pthread aux =
    let rest = thread_loop fuel k library pthread (library_next k aux) in
    if (aux == library) || (library_pthread k aux == pthread) then some aux else rest

unfoldable pub get_thread_with_pthread : ℕ → (pthread process : ℕ) → Kernel → Option ℕ
get_thread_with_pthread fuel pthread process k = do
  let library = (k.processes process).thread_library
  aux ← thread_loop fuel k library pthread (library_next k library)
  some (if library_pthread k aux == pthread then (k.libraries aux).thread else null)

unfoldable pub get_current_pid : Kernel → ℕ
get_current_pid k = if k.current_process == null then minus_one else slot_pid k k.current_process

-- `currentProcess->process->currentThread->thread`.
abbrev pub current_thread_node : Kernel → ℕ
current_thread_node k =
    (k.libraries (k.processes (k.slots k.current_process).process).current_thread).thread

unfoldable pub get_current_pthread : Kernel → ℕ
get_current_pthread k = (k.threads (current_thread_node k)).pthread

unfoldable pub current_process_entry_point : Kernel → ℕ
current_process_entry_point k = (k.threads (current_thread_node k)).entry_point

unfoldable pub get_current_thread_of_process : ℕ → ℕ → Kernel → Option ℕ
get_current_thread_of_process fuel pid k = do
  p ← get_process_with_pid fuel pid k
  some (k.threads (k.libraries (k.processes p).current_thread).thread).pthread

unfoldable pub get_parent_pid : ℕ → ℕ → Kernel → Option ℕ
get_parent_pid fuel pid k = do p ← get_process_with_pid fuel pid k; some (k.processes p).ppid

unfoldable pub get_block_process_type : ThreadState → ProcessState
get_block_process_type t_blocked_io = blocked_io
get_block_process_type t_blocked_mutex = blocked_mutex
get_block_process_type t_blocked_pipe = blocked_pipe
get_block_process_type t_ready = ready
get_block_process_type t_running = running
get_block_process_type t_dead = dead

unfoldable pub is_process_blocked : ProcessState → Bool
is_process_blocked blocked_io = true
is_process_blocked blocked_pipe = true
is_process_blocked blocked_mutex = true
is_process_blocked ready = false
is_process_blocked running = false
is_process_blocked dead = false

unfoldable pub is_thread_blocked : ThreadState → Bool
is_thread_blocked t_blocked_io = true
is_thread_blocked t_blocked_pipe = true
is_thread_blocked t_blocked_mutex = true
is_thread_blocked t_ready = false
is_thread_blocked t_running = false
is_thread_blocked t_dead = false

-- `==` on the states.
abbrev pub same_state : ProcessState → ProcessState → Bool
same_state ready ready = true
same_state running running = true
same_state blocked_io blocked_io = true
same_state blocked_mutex blocked_mutex = true
same_state blocked_pipe blocked_pipe = true
same_state dead dead = true
same_state _ _ = false

abbrev pub same_thread_state : ThreadState → ThreadState → Bool
same_thread_state t_ready t_ready = true
same_thread_state t_running t_running = true
same_thread_state t_blocked_io t_blocked_io = true
same_thread_state t_blocked_mutex t_blocked_mutex = true
same_thread_state t_blocked_pipe t_blocked_pipe = true
same_thread_state t_dead t_dead = true
same_thread_state _ _ = false
