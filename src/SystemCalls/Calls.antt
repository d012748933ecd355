-- ===== src/SystemCalls/Calls.antt =====
-- The other calls of Kernel/systemCalls.c, and the choice by number.
use basic_kernel_implementat.Prelude.{
  ◌>>=◌, ℕ, zero, suc, ◌+◌, Option, some, List, [], ◌∷◌, ◌==◌, if◌then◌else◌,
}
use basic_kernel_implementat.Memory.{sign_extend, to_int}
use basic_kernel_implementat.Kernel.{name_length}
use basic_kernel_implementat.Kernel.Lookup.{get_current_pid, get_parent_pid}
use basic_kernel_implementat.Kernel.Threads.{add_thread_to_process}
use basic_kernel_implementat.Kernel.Process.{pmalloc, pfree}
use basic_kernel_implementat.Kernel.Blocking.{remove_process, remove_thread}
use basic_kernel_implementat.Kernel.Scheduler.{add_process}
use basic_kernel_implementat.Text.{Chars}
use basic_kernel_implementat.Mutex.{create_mutex, mutex_destroy, mutex_up, mutex_down}
use basic_kernel_implementat.Semaphores.{
  create_semaphore, semaphore_destroy, semaphore_up, semaphore_down,
}
use basic_kernel_implementat.Pipes.{do_pipe, write_to_pipe, read_from_pipe}
use basic_kernel_implementat.Screens.{load_screen, remove_screen}
use basic_kernel_implementat.SystemCalls.{
  System, Devices, kernel_of, memory_of, on_kernel, kernel_result, mutex_result, semaphore_result,
  pipe_result, returning_one, as_int, returned,
}
use basic_kernel_implementat.SystemCalls.Io.{clear_screen_sys, read, write}

-- The characters of a text before its 0, `room` at most.
unfoldable pub text_at : (room p : ℕ) → Chars → List ℕ
text_at zero p m = []
text_at (suc room) p m = let rest = text_at room (p + 1) m in if m p == 0 then [] else m p ∷ rest

-- `addProcess` of the text that `name` leads to.
unfoldable pub start_process : ℕ → (exec entry_point name : ℕ) → System → Option (ℕ × System)
start_process fuel exec entry_point name s =
    kernel_result
      (λ k. add_process fuel exec entry_point (text_at name_length name (memory_of s)) k) s

unfoldable pub pcreate_background : ℕ → (exec entry_point name : ℕ) → System → Option (ℕ × System)
pcreate_background fuel exec entry_point name s =
    returned (start_process fuel exec entry_point name s)

unfoldable pub pcreate : ℕ → (exec entry_point name : ℕ) → System → Option (ℕ × System)
pcreate fuel exec entry_point name s = do
  (pid, s1) ← start_process fuel exec entry_point name s
  (_, screens) ← load_screen fuel pid s1.screens
  some (sign_extend pid, record s1 { screens = screens })

unfoldable pub pkill : ℕ → (pid : ℕ) → System → Option (ℕ × System)
pkill fuel pid s = do
  c1 ← remove_screen fuel (as_int pid) s.screens
  parent ← get_parent_pid fuel (as_int pid) c1.kernel
  (_, c2) ← load_screen fuel parent c1
  k ← remove_process fuel (as_int pid) c2.kernel
  some (1, record s { screens = record c2 { kernel = k } })

unfoldable pub tcreate : ℕ → (pid exec entry_point : ℕ) → System → Option (ℕ × System)
tcreate fuel pid exec entry_point s =
    returned (kernel_result (λ k. add_thread_to_process fuel (as_int pid) exec entry_point k) s)

unfoldable pub tkill : ℕ → (pid pthread : ℕ) → System → Option (ℕ × System)
tkill fuel pid pthread s = on_kernel (λ k. remove_thread fuel (as_int pid) (as_int pthread) k) s

unfoldable pub ps : Devices → System → Option (ℕ × System)
ps devices s = returning_one devices.print_all_process s

unfoldable pub malloc_sys_call : ℕ → (bytes : ℕ) → System → Option (ℕ × System)
malloc_sys_call fuel bytes s = kernel_result (λ k. pmalloc fuel (as_int bytes) k) s

unfoldable pub free_sys_call : ℕ → (memory_position : ℕ) → System → Option (ℕ × System)
free_sys_call fuel memory_position s = on_kernel (λ k. pfree fuel memory_position k) s

unfoldable pub create_mutex_sys_call : ℕ → System → Option (ℕ × System)
create_mutex_sys_call fuel s = returned (mutex_result (λ x. create_mutex fuel x) s)

unfoldable pub end_mutex_sys_call : ℕ → (id : ℕ) → System → Option (ℕ × System)
end_mutex_sys_call fuel id s =
    mutex_result (returning_one (λ x. mutex_destroy fuel (as_int id) x)) s

unfoldable pub up_mutex_sys_call : ℕ → (id : ℕ) → System → Option (ℕ × System)
up_mutex_sys_call fuel id s = mutex_result (returning_one (λ x. mutex_up fuel (as_int id) x)) s

unfoldable pub down_mutex_sys_call : ℕ → (id : ℕ) → System → Option (ℕ × System)
down_mutex_sys_call fuel id s = mutex_result (returning_one (λ x. mutex_down fuel (as_int id) x)) s

unfoldable pub get_current_pid_sys_call : System → Option (ℕ × System)
get_current_pid_sys_call s = returned (some (get_current_pid (kernel_of s), s))

unfoldable pub create_semaphore_sys_call : ℕ → (start : ℕ) → System → Option (ℕ × System)
create_semaphore_sys_call fuel start s =
    returned (semaphore_result (λ x. create_semaphore fuel (to_int (as_int start)) x) s)

unfoldable pub end_semaphore_sys_call : ℕ → (id : ℕ) → System → Option (ℕ × System)
end_semaphore_sys_call fuel id s =
    semaphore_result (returning_one (λ x. semaphore_destroy fuel (as_int id) x)) s

unfoldable pub up_semaphore_sys_call : ℕ → (id : ℕ) → System → Option (ℕ × System)
up_semaphore_sys_call fuel id s =
    semaphore_result (returning_one (λ x. semaphore_up fuel (as_int id) x)) s

unfoldable pub down_semaphore_sys_call : ℕ → (id : ℕ) → System → Option (ℕ × System)
down_semaphore_sys_call fuel id s =
    semaphore_result (returning_one (λ x. semaphore_down fuel (as_int id) x)) s

unfoldable pub create_pipe_sys_call : ℕ → (from_pid to_pid : ℕ) → System → Option (ℕ × System)
create_pipe_sys_call fuel from_pid to_pid s =
    pipe_result (λ x. do_pipe fuel (as_int from_pid) (as_int to_pid) x) s

unfoldable pub send_sys_call : ℕ → (name buff : ℕ) → System → Option (ℕ × System)
send_sys_call fuel name buff s = pipe_result (returning_one (λ x. write_to_pipe fuel name buff x)) s

unfoldable pub receive_sys_call : ℕ → (name buff : ℕ) → System → Option (ℕ × System)
receive_sys_call fuel name buff s =
    pipe_result (returning_one (λ x. read_from_pipe fuel name buff x)) s

-- The switch over the number of the call. A number that stands for no call gives 0.
unfoldable pub system_call :
    Devices → ℕ → (system_call_number param1 param2 param3 : ℕ) → System → Option (ℕ × System)
system_call devices fuel number param1 param2 param3 s =
    if number == 1
    then read devices fuel param1 param2 param3 s
    else (if number == 2
        then write devices fuel param1 param2 param3 s
        else (if number == 3
            then clear_screen_sys s
            else (if number == 4
                then malloc_sys_call fuel param1 s
                else (if number == 5
                    then free_sys_call fuel param1 s
                    else (if number == 6
                        then ps devices s
                        else (if number == 7
                            then pcreate fuel param1 param2 param3 s
                            else (if number == 8
                                then pkill fuel param1 s
                                else (if number == 9
                                    then tcreate fuel param1 param2 param3 s
                                    else (if number == 10
                                        then tkill fuel param1 param2 s
                                        else (if number == 11
                                            then create_mutex_sys_call fuel s
                                            else (if number == 12
                                                then end_mutex_sys_call fuel param1 s
                                                else (if number == 13
                                                    then up_mutex_sys_call fuel param1 s
                                                    else (if number == 14
                                                        then down_mutex_sys_call fuel param1 s
                                                        else (if number == 15
                                                            then get_current_pid_sys_call s
                                                            else (if number == 16
                                                            then pcreate_background fuel param1
                                                            param2 param3 s
                                                            else (if number == 17
                                                            then create_semaphore_sys_call fuel
                                                            param1 s
                                                            else (if number == 18
                                                            then end_semaphore_sys_call fuel param1
                                                            s
                                                            else (if number == 19
                                                            then up_semaphore_sys_call fuel param1 s
                                                            else (if number == 20
                                                            then down_semaphore_sys_call fuel param1
                                                            s
                                                            else (if number == 21
                                                            then send_sys_call fuel param1 param2 s
                                                            else (if number == 22
                                                            then receive_sys_call fuel param1 param2
                                                            s
                                                            else (if number == 23
                                                            then create_pipe_sys_call fuel param1
                                                            param2 s
                                                            else (some (0, s))))))))))))))))))))))))
