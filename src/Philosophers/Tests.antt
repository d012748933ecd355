-- ===== src/Philosophers/Tests.antt =====
-- A run of the philosophers, and the witness.
use basic_kernel_implementat.Prelude.{◌≡◌, refl, [], arith}
use basic_kernel_implementat.Philosophers.{
  Table, hungry, eating, take_forks, put_forks, check_forks, left, right, philosophers, seat,
}
use basic_kernel_implementat.Philosophers.Fairness.{
  Reach, takes, puts, start, later, IsFair, Reach-IsFair,
}

abbrev empty : Table
empty = record { philo_state = λ _. hungry; fork_state = λ _. 7; calls = [] }

-- Philosopher 0 eats, 1 waits, and 0 puts its forks down.
abbrev eaten : Table
eaten = put_forks 0 (take_forks 1 (take_forks 0 (philosophers empty)))

-- Then 1 eats, which has forks 0 and 1.
handed_over : (eaten.philo_state 1 ≡ eating) × (eaten.fork_state 0 ≡ 1) × (eaten.fork_state 1 ≡ 1)
unfolding put_forks take_forks philosophers seat check_forks left right
handed_over = (refl, refl, refl)

eaten-Reach : Reach empty eaten
unfolding take_forks philosophers seat check_forks left right
eaten-Reach =
    later (later (later start (takes 0 (omega arith))) (takes 1 (omega arith)))
      (puts 0 (omega arith))

Reach-IsFair_example : IsFair eaten
Reach-IsFair_example = Reach-IsFair eaten-Reach
