-- ===== src/SystemCalls.antt =====
-- Kernel/systemCalls.c with Kernel/include/systemCalls.h: the functions that processes call by number,
-- over the state of all parts of the kernel. The network card's functions of Kernel/RTL8139.c, and
-- printAllProcess, which prints, are operations of an interface (`Devices`).
pub mod Io
pub mod Calls
pub mod Reading
pub mod Dispatch
pub mod Samples
mod Tests
use basic_kernel_implementat.Prelude.{
  ◌>>=◌, ℕ, zero, suc, ◌+◌, ◌-◌, ◌%◌, ◌^◌, Option, some, List, [], ◌∷◌, ◌==◌, if◌then◌else◌, update,
}
use basic_kernel_implementat.Memory.{sign_extend, to_int}
use basic_kernel_implementat.Kernel.{Kernel, null, name_length, t_blocked_io}
use basic_kernel_implementat.Kernel.Lookup.{get_current_pid, get_current_pthread, get_parent_pid}
use basic_kernel_implementat.Kernel.Threads.{add_thread_to_process}
use basic_kernel_implementat.Kernel.Process.{pmalloc, pfree}
use basic_kernel_implementat.Kernel.Blocking.{block_thread, remove_process, remove_thread}
use basic_kernel_implementat.Kernel.Scheduler.{add_process}
use basic_kernel_implementat.Text.{Chars}
use basic_kernel_implementat.Video.{
  Video, clear_screen, print_characters, print_characters_inner, own,
}
use basic_kernel_implementat.Keyboard.{Keyboard, get_key}
use basic_kernel_implementat.Mutex.{Mutexes, create_mutex, mutex_destroy, mutex_up, mutex_down}
use basic_kernel_implementat.Semaphores.{
  Semaphores, create_semaphore, semaphore_destroy, semaphore_up, semaphore_down,
}
use basic_kernel_implementat.Pipes.{Pipes, do_pipe, write_to_pipe, read_from_pipe}
use basic_kernel_implementat.Screens.{
  Screens, load_screen, remove_screen, is_current_process_on_focus, get_current_screen,
  get_current_screen_position, set_current_screen_position,
}

abbrev pub standard_io_fd : ℕ
standard_io_fd = 1

abbrev pub ethernet_fd : ℕ
ethernet_fd = 2

-- -1 as a `uint64_t`.
abbrev pub failure : ℕ
failure = 2 ^ 64 - 1

-- The parts. The kernel and the memory of characters are those of `screens`: `on_mutexes` and the
-- like put them into the other parts, and take them back.
pub record System : Type 0 where
  pub screens : Screens
  pub keyboard : Keyboard
  pub mutexes : Mutexes
  pub semaphores : Semaphores
  pub pipes : Pipes

pub record Devices : Type 0 where
  pub get_msg : (buf : ℕ) → System → Option (ℕ × System)
  pub send_msg : (buf : ℕ) → System → Option System
  pub print_all_process : System → Option System

abbrev pub kernel_of : System → Kernel
kernel_of s = s.screens.kernel

abbrev pub memory_of : System → Chars
memory_of s = s.screens.video.memory

abbrev pub set_kernel : Kernel → System → System
set_kernel k s = record s { screens = record (s.screens) { kernel = k } }

abbrev pub set_video : Video → System → System
set_video v s = record s { screens = record (s.screens) { video = v } }

abbrev pub set_memory : Chars → System → System
set_memory m s = set_video (record (s.screens.video) { memory = m }) s

-- A call whose result is the number, or 1.
abbrev pub on_kernel : (Kernel → Option Kernel) → System → Option (ℕ × System)
on_kernel f s = f (kernel_of s) >>= λ k. some (1, set_kernel k s)

abbrev pub kernel_result : (Kernel → Option (ℕ × Kernel)) → System → Option (ℕ × System)
kernel_result f s = f (kernel_of s) >>= λ r. some (r.0, set_kernel r.1 s)

abbrev pub mutex_result : (Mutexes → Option (ℕ × Mutexes)) → System → Option (ℕ × System)
mutex_result f s = f (record (s.mutexes) { kernel = kernel_of s }) >>= λ r.
    some (r.0, set_kernel r.1.kernel (record s { mutexes = r.1 }))

abbrev pub semaphore_result : (Semaphores → Option (ℕ × Semaphores)) → System → Option (ℕ × System)
semaphore_result f s = f (record (s.semaphores) { kernel = kernel_of s }) >>= λ r.
    some (r.0, set_kernel r.1.kernel (record s { semaphores = r.1 }))

abbrev pub pipe_result : (Pipes → Option (ℕ × Pipes)) → System → Option (ℕ × System)
pipe_result f s = f (record (s.pipes) { kernel = kernel_of s; chars = memory_of s }) >>= λ r.
    some (r.0, set_memory r.1.chars (set_kernel r.1.kernel (record s { pipes = r.1 })))

abbrev pub returning_one {ℓ} : {A : Type ℓ} → (A → Option A) → A → Option (ℕ × A)
returning_one f a = f a >>= λ b. some (1, b)

-- An argument that the function takes as an `int`, and an `int` that is returned as `uint64_t`.
abbrev pub as_int : ℕ → ℕ
as_int n = n % 2 ^ 32

abbrev pub returned : Option (ℕ × System) → Option (ℕ × System)
returned r = r >>= λ x. some (sign_extend x.0, x.1)
