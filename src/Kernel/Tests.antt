-- ===== src/Kernel/Tests.antt =====
-- The witnesses of the theorems on the kernel.
use basic_kernel_implementat.Prelude.{ℕ, ◌≡◌, ◌≢◌, refl, List, [], ◌∷◌, none, some, arith}
use basic_kernel_implementat.Prelude.Int.{pos}
use basic_kernel_implementat.Memory.{
  is_available, get_bit, find_blocks, search, scan, allocate_blocks, allocate, reserve, set_bit,
}
use basic_kernel_implementat.Kernel.{
  Kernel, ready, running, dead, t_ready, t_blocked_mutex, set_process_state, increment,
}
use basic_kernel_implementat.Kernel.Samples.{two}
use basic_kernel_implementat.Kernel.Lookup.{
  slot_next, get_process_with_pid, get_thread_with_pthread, process_loop, thread_loop,
}
use basic_kernel_implementat.Kernel.Lookup.Find.{
  IsRing, search_order, find_process, get_process_with_pid-find,
}
use basic_kernel_implementat.Kernel.Blocking.{all_threads_are_blocked, block_thread, unblock_thread}
use basic_kernel_implementat.Kernel.Blocking.Wake.{parked, woken, unblock_thread-block_thread}
use basic_kernel_implementat.Kernel.Threads.{free_thread_library}
use basic_kernel_implementat.Kernel.Threads.Stack.{stack_of}
use basic_kernel_implementat.Kernel.Scheduler.{slot_state, run_scheduler, add_process_to_queue}
use basic_kernel_implementat.Kernel.Scheduler.Turn.{IsQueue, OneRuns, run_scheduler-OneRuns}
use basic_kernel_implementat.Kernel.Scheduler.Dead.{free_thread_library-unset}
use basic_kernel_implementat.Kernel.Scheduler.Queue.{
  IsSlotRing, new_slot, add_process_to_queue-IsSlotRing,
}

abbrev one_rest : List ℕ
one_rest = 0x102000 ∷ []

two-IsRing : IsRing (slot_next two) 0x101000 one_rest
two-IsRing = record { links = (refl, refl); once = refl }

get_process_with_pid-find_example :
    get_process_with_pid 9 1 two ≡ some (find_process two 1 (search_order 0x101000 one_rest))
get_process_with_pid-find_example =
    get_process_with_pid-find two 9 1 one_rest two-IsRing (omega arith)

process_one : get_process_with_pid 9 1 two ≡ some 11
unfolding get_process_with_pid process_loop
process_one = refl

thread_one : get_thread_with_pthread 9 0 11 two ≡ some 31
unfolding get_thread_with_pthread thread_loop
thread_one = refl

unblock_thread-block_thread_example :
    (k' k'' : Kernel) × (block_thread 9 1 0 t_blocked_mutex two ≡ some k')
    × (unblock_thread 9 1 0 t_blocked_mutex k' ≡ some k'')
    × ((k'.threads 31).state ≡ t_blocked_mutex)
    × ((k''.threads 31).state ≡ t_ready)
    × ((k''.processes 11).state
        ≡ woken t_blocked_mutex
            (all_threads_are_blocked 11 (parked t_blocked_mutex 11 31 two))
            ready)
unblock_thread-block_thread_example =
    unblock_thread-block_thread 9 1 0 t_blocked_mutex two process_one thread_one

stack_at : stack_of two ≡ 0x103000
unfolding allocate allocate_blocks find_blocks search scan is_available get_bit reserve set_bit
stack_at = refl

two-IsQueue : IsQueue two one_rest one_rest
two-IsQueue = record {
  from_head = two-IsRing;
  from_current = two-IsRing;
  alive = (refl, (refl, tt));
  size = refl;
  started = omega arith;
}

two-OneRuns : OneRuns two
two-OneRuns a runs = ground arith

run_scheduler-OneRuns_example :
    (k' : Kernel) × (run_scheduler 9 two ≡ some k')
    × OneRuns k'
    × (slot_state k' k'.current_process ≡ running)
run_scheduler-OneRuns_example =
    run_scheduler-OneRuns 9 two one_rest one_rest two-IsQueue (omega arith) 0x102000 (omega arith)
      refl two-OneRuns

-- Process 1 is dead.
abbrev one_dead : Kernel
one_dead = set_process_state dead 11 two

free_thread_library-unset_example : free_thread_library 20 (pos 2) two ≡ none
free_thread_library-unset_example = free_thread_library-unset 20 1 two

slot_at : new_slot two ≡ 0x100000
unfolding allocate allocate_blocks find_blocks search scan is_available get_bit
slot_at = refl

two-IsSlotRing : IsSlotRing two one_rest
unfolding is_available get_bit
two-IsSlotRing = record {
  arena = record { starts = omega arith; below = omega arith; apart = omega arith };
  ring = two-IsRing;
  owned = ((1, refl, omega arith, refl), ((2, refl, omega arith, refl), tt));
}

add_process_to_queue-IsSlotRing_example :
    let k' = add_process_to_queue 12 two in
    IsSlotRing k' (new_slot two ∷ one_rest)
    × (k'.process_queue ≡ 0x101000)
    × (k'.current_process ≡ 0x101000)
    × ((k'.slots (new_slot two)).process ≡ 12)
    × ((a : ℕ) → a ≢ new_slot two → (k'.slots a).process ≡ (two.slots a).process)
    × (k'.queue_size ≡ increment (pos 2))
add_process_to_queue-IsSlotRing_example =
    add_process_to_queue-IsSlotRing 12 two one_rest (omega arith) (λ e. omega (arith, slot_at))
      two-IsSlotRing
