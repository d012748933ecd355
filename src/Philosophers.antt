-- ===== src/Philosophers.antt =====
-- The dining philosophers of Userland/SampleCodeModule/shell.c, with PHILOSOPHERS_COUNT and State of
-- include/philosophers.h: what they write to the table, and the calls of the kernel that they make.
-- `render`, which prints the table, changes nothing of it. A fork that nobody has is -1.
pub mod Fairness
mod Tests
use basic_kernel_implementat.Prelude.{
  ℕ, zero, suc, ◌+◌, ◌-◌, ◌%◌, Bool, true, false, ◌&&◌, List, ◌∷◌, if◌then◌else◌, update,
}
use basic_kernel_implementat.Kernel.{minus_one}

abbrev pub philosophers_count : ℕ
philosophers_count = 3

pub data State : Type 0 where
  hungry thinking eating : State

abbrev pub is_hungry : State → Bool
is_hungry hungry = true
is_hungry thinking = false
is_hungry eating = false

abbrev pub not_eating : State → Bool
not_eating hungry = true
not_eating thinking = true
not_eating eating = false

-- The calls on `mainMutexId` and on the mutexes of `philoMutexId`, and `tcreate`.
pub data Call : Type 0 where
  create_main down_main up_main create_thread : Call
  create_philo down_philo up_philo : (philo_id : ℕ) → Call

-- The globals, and the calls so far, the last one first.
pub record Table : Type 0 where
  pub philo_state : ℕ → State
  pub fork_state : ℕ → ℕ
  pub calls : List Call

abbrev pub call : Call → Table → Table
call c t = record t { calls = c ∷ t.calls }

abbrev pub set_state : (i : ℕ) → State → Table → Table
set_state i x t = record t { philo_state = update t.philo_state i x }

abbrev pub set_fork : (i owner : ℕ) → Table → Table
set_fork i owner t = record t { fork_state = update t.fork_state i owner }

unfoldable pub left : ℕ → ℕ
left i = (i + philosophers_count - 1) % philosophers_count

unfoldable pub right : ℕ → ℕ
right i = (i + 1) % philosophers_count

unfoldable pub check_forks : (philo_id : ℕ) → Table → Table
check_forks philo_id t =
    if is_hungry (t.philo_state philo_id)
      && not_eating (t.philo_state (left philo_id))
      && not_eating (t.philo_state (right philo_id))
    then call (up_philo philo_id) (
        set_fork philo_id philo_id
          (set_fork (left philo_id) philo_id (set_state philo_id eating t)))
    else t

unfoldable pub take_forks : (philo_id : ℕ) → Table → Table
take_forks philo_id t =
    call (down_philo philo_id)
      (call up_main (check_forks philo_id (set_state philo_id hungry (call down_main t))))

unfoldable pub put_forks : (philo_id : ℕ) → Table → Table
put_forks philo_id t =
    let t1 =
      set_fork philo_id minus_one
        (set_fork (left philo_id) minus_one (set_state philo_id thinking (call down_main t))) in
    call up_main (check_forks (right philo_id) (check_forks (left philo_id) t1))

-- The loop of philosophers, with `rounds` to go.
unfoldable pub seat : (rounds i : ℕ) → Table → Table
seat zero i t = t
seat (suc rounds) i t =
    let seated = set_fork i minus_one (call (down_philo i) (call (create_philo i) t)) in
    seat rounds (i + 1) (call create_thread (set_state i thinking seated))

unfoldable pub philosophers : Table → Table
philosophers t = seat philosophers_count 0 (call create_main t)
