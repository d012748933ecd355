-- ===== src/Semaphores/Tests.antt =====
-- Semaphores over the sample kernel, and the witnesses.
use basic_kernel_implementat.Prelude.{◌≡◌, [], ◌∷◌, refl, some, arith}
use basic_kernel_implementat.Prelude.Int.{ℤ, pos, ◌+ℤ◌}
use basic_kernel_implementat.Memory.{
  is_available, get_bit, find_blocks, search, scan, allocate_blocks, allocate,
}
use basic_kernel_implementat.Kernel.{decrement, t_blocked_mutex}
use basic_kernel_implementat.Kernel.Lookup.{
  get_current_pid, get_current_pthread, get_process_with_pid, get_thread_with_pthread, process_loop,
  thread_loop,
}
use basic_kernel_implementat.Kernel.Blocking.Wake.{blocked}
use basic_kernel_implementat.Kernel.Samples.{two}
use basic_kernel_implementat.Registry
use basic_kernel_implementat.Waiting.{IsParked, waiter_node, with_node}
use basic_kernel_implementat.Semaphores.{
  Semaphores, set_semaphore, find_semaphore_id, semaphore_down,
}
use basic_kernel_implementat.Semaphores.Count.{semaphore_down-parks}

-- One semaphore, number 0 at 0x101000, with this count; one thread is in its list.
abbrev with_count : ℤ → Semaphores
with_count n = record {
  kernel = two;
  nodes = λ a. record {
    item = record { id = 0; status = n; blocked_thread_list = 0x102000 };
    next = 0;
  };
  waiting = λ _. record { pid = 1; pthread = 0; next = 0 };
  counter = 1;
  list = 0x101000;
}

there : (n : ℤ) → find_semaphore_id 9 0 (with_count n) ≡ some 0x101000
unfolding find_semaphore_id Registry.find
there n = refl

process_zero : get_process_with_pid 9 (get_current_pid two) two ≡ some 10
unfolding get_process_with_pid process_loop get_current_pid
process_zero = refl

thread_zero : get_thread_with_pthread 9 (get_current_pthread two) 10 two ≡ some 30
unfolding get_thread_with_pthread thread_loop get_current_pthread
thread_zero = refl

new_waiter : waiter_node two ≡ 0x100000
unfolding allocate allocate_blocks find_blocks search scan is_available get_bit
new_waiter = refl

semaphore_down-parks_example :
    (s' : Semaphores) × (semaphore_down 9 0 (with_count (pos 0)) ≡ some s')
    × ((s'.nodes 0x101000).item.status ≡ decrement (pos 0))
    × IsParked
        (get_current_pid two)
        (get_current_pthread two)
        0x102000
        (0x102000 ∷ [])
        (with_count (pos 0)).waiting
        (s'.nodes 0x101000).item.blocked_thread_list
        s'.waiting
    × ((s'.kernel.threads 30).state ≡ t_blocked_mutex)
    × (s'.kernel ≡ blocked t_blocked_mutex 10 30 (with_node two))
    × (s'
        ≡ record (set_semaphore 0x101000
            (record (((with_count (pos 0)).nodes 0x101000).item) {
              status = decrement (pos 0);
              blocked_thread_list = waiter_node two;
            })
            (with_count (pos 0))) { kernel = s'.kernel; waiting = s'.waiting })
unfolding ◌+ℤ◌
semaphore_down-parks_example =
    semaphore_down-parks 9 0 (with_count (pos 0)) (there (pos 0)) (0x102000 ∷ []) (omega arith) refl
      process_zero thread_zero (λ e. omega (arith, new_waiter, e)) (rw new_waiter refl) (refl, refl)
      refl
