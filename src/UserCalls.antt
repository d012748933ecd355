-- ===== src/UserCalls.antt =====
-- Userland/SampleCodeModule/systemCalls.c: the functions by which user programs call the kernel. The
-- interrupt that they raise is `system_call`; what yield does until the program goes on, which is a
-- switch to the other processes, is a parameter.
pub mod Waiting
mod Tests
use basic_kernel_implementat.Prelude.{
  ◌>>=◌, ℕ, zero, suc, ◌%◌, ◌^◌, Bool, true, false, Option, none, some, ◌==◌, if◌then◌else◌,
}
use basic_kernel_implementat.SystemCalls.{System, Devices}
use basic_kernel_implementat.SystemCalls.Calls.{system_call}

-- The functions that make one call, with their arguments.
pub data UserCall : Type 0 where
  write_bytes : (fildes buf nbytes : ℕ) → UserCall
  clear : UserCall
  malloc : (bytes : ℕ) → UserCall
  free : (mem_position : ℕ) → UserCall
  show_processes : UserCall
  create_process : (exec entry_point name : ℕ) → UserCall
  create_background : (exec entry_point name : ℕ) → UserCall
  kill_process : (pid : ℕ) → UserCall
  create_thread : (pid exec entry_point : ℕ) → UserCall
  kill_thread : (pid pthread : ℕ) → UserCall
  new_mutex : UserCall
  end_mutex : (id : ℕ) → UserCall
  up_mutex : (id : ℕ) → UserCall
  down_mutex : (id : ℕ) → UserCall
  current_pid : UserCall
  new_semaphore : (start : ℕ) → UserCall
  end_semaphore : (id : ℕ) → UserCall
  up_semaphore : (id : ℕ) → UserCall
  down_semaphore : (id : ℕ) → UserCall
  new_pipe : (from_pid to_pid : ℕ) → UserCall
  send : (name buff : ℕ) → UserCall
  receive : (name buff : ℕ) → UserCall

-- The number of the call, and its three arguments.
unfoldable pub passed : UserCall → ℕ × ℕ × ℕ × ℕ
passed (write_bytes fildes buf nbytes) = (2, fildes, buf, nbytes)
passed clear = (3, 0, 0, 0)
passed (malloc bytes) = (4, bytes, 0, 0)
passed (free mem_position) = (5, mem_position, 0, 0)
passed show_processes = (6, 1, 0, 0)
passed (create_process exec entry_point name) = (7, exec, entry_point, name)
passed (create_background exec entry_point name) = (16, exec, entry_point, name)
passed (kill_process pid) = (8, pid, 0, 0)
passed (create_thread pid exec entry_point) = (9, pid, exec, entry_point)
passed (kill_thread pid pthread) = (10, pid, pthread, 0)
passed new_mutex = (11, 0, 0, 0)
passed (end_mutex id) = (12, id, 0, 0)
passed (up_mutex id) = (13, id, 0, 0)
passed (down_mutex id) = (14, id, 0, 0)
passed current_pid = (15, 0, 0, 0)
passed (new_semaphore start) = (17, start, 0, 0)
passed (end_semaphore id) = (18, id, 0, 0)
passed (up_semaphore id) = (19, id, 0, 0)
passed (down_semaphore id) = (20, id, 0, 0)
passed (new_pipe from_pid to_pid) = (23, from_pid, to_pid, 0)
passed (send name buff) = (21, name, buff, 0)
passed (receive name buff) = (22, name, buff, 0)

-- Whether the function yields behind the call.
unfoldable pub yields : UserCall → Bool
yields (kill_process pid) = true
yields (kill_thread pid pthread) = true
yields (up_mutex id) = true
yields (down_mutex id) = true
yields (down_semaphore id) = true
yields (receive name buff) = true
yields _ = false

module _ (devices : Devices) (fuel : ℕ) (yield : System → Option System) where
  -- The result is the number that the kernel returns, which the functions cut to their types.
  unfoldable pub user_call : UserCall → System → Option (ℕ × System)
  user_call c s =
      let a = passed c in
      system_call devices fuel (a.0) (a.1) (a.2) (a.3) s >>= λ r.
      let switched = yield (r.1) >>= λ s1. some (r.0, s1) in if yields c then switched else some r

  unfoldable pub exit : System → Option (ℕ × System)
  exit s = user_call current_pid s >>= λ r. user_call (kill_process (r.0 % 2 ^ 32)) (r.1)

  -- The loop of read, with `rounds` to go; its result is an `int`.
  unfoldable pub read_rounds : (rounds fildes buf nbytes : ℕ) → System → Option (ℕ × System)
  read_rounds zero fildes buf nbytes s = none
  read_rounds (suc rounds) fildes buf nbytes s =
      system_call devices fuel 1 fildes buf nbytes s >>= λ r. yield (r.1) >>= λ s1.
      let again = read_rounds rounds fildes buf nbytes s1 in
      if r.0 % 2 ^ 32 == 0 then again else some (r.0 % 2 ^ 32, s1)
