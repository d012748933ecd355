-- ===== src/Mutex/Tests.antt =====
-- Mutexes over a kernel with one process of two threads, and the witnesses.
use basic_kernel_implementat.Prelude.{
  ℕ, ◌+◌, ◌<◌, ◌≡◌, refl, length, [], ◌∷◌, ◌++◌, Option, some, arith, if◌then◌else◌, ◌==◌, ◌>>=◌,
}
use basic_kernel_implementat.Memory.{
  is_available, get_bit, find_blocks, search, scan, allocate_blocks, allocate,
}
use basic_kernel_implementat.Kernel.{Kernel, t_blocked_mutex, blocked_mutex, t_running, null}
use basic_kernel_implementat.Kernel.Lookup.{
  get_current_pid, get_current_pthread, get_process_with_pid, get_thread_with_pthread, process_loop,
  thread_loop, get_block_process_type,
}
use basic_kernel_implementat.Kernel.Blocking.{
  unblock_thread, unblock_process, unblock, unblock_node,
}
use basic_kernel_implementat.Kernel.Blocking.Wake.{blocked}
use basic_kernel_implementat.Memory.{deallocate, deallocate_inside, deallocate_blocks, release}
use basic_kernel_implementat.Registry
use basic_kernel_implementat.Registry.{Node, Cells, remove}
use basic_kernel_implementat.Waiting.{wake_all, sizeof_blocked_thread_node, IsParked, waiter_node}
use basic_kernel_implementat.Mutex.{
  Mutexes, mutex_locked, mutex_unlocked, set_mutex, create_mutex, find_id, mutex_down, mutex_up,
}
use basic_kernel_implementat.Mutex.List.{IsMutexList, new_mutex, create_mutex-IsMutexList}
use basic_kernel_implementat.Mutex.Access.{mutex_down-parks, mutex_up-wakes}
use basic_kernel_implementat.Kernel.Samples.{two}

-- One mutex, number 0 at 0x101000, with this status and list of waiters; every other node's memory
-- holds the link `stale`.
abbrev with_mutex : (status waiters stale : ℕ) → Kernel → Mutexes
with_mutex status waiters stale k = record {
  kernel = k;
  nodes = λ a. record {
    item = record { id = 0; status = status; blocked_thread_list = waiters };
    next = if a == 0x101000 then 0 else stale;
  };
  waiting = λ _. record { pid = 1; pthread = 0; next = 0 };
  counter = 1;
  list = 0x101000;
}

abbrev free_mutex : Mutexes
free_mutex = with_mutex mutex_unlocked 0 0 two

-- The same mutex taken, with thread 0 of process 1 in its list.
abbrev waiting_kernel : Kernel
waiting_kernel = record two {
  threads = λ a. record (two.threads a) { state = if a == 31 then t_blocked_mutex else t_running };
}

abbrev taken_mutex : Mutexes
taken_mutex = with_mutex mutex_locked 0x102000 0 waiting_kernel

new_at : new_mutex free_mutex ≡ 0x100000
unfolding allocate allocate_blocks find_blocks search scan is_available get_bit
new_at = refl

free_mutex-IsMutexList :
    (stale : ℕ) → IsMutexList (with_mutex mutex_unlocked 0 stale two) (0x101000 ∷ [])
unfolding is_available get_bit
free_mutex-IsMutexList stale = record {
  arena = record { starts = omega arith; below = omega arith; apart = omega arith };
  list = record { links = (refl, refl); proper = refl; distinct = (refl, tt) };
  owned = ((1, refl, omega arith, refl), tt);
  ids = (omega arith, tt);
}

create_mutex-IsMutexList_example :
    (s' : Mutexes) × (create_mutex 9 free_mutex ≡ some (1, s'))
    × IsMutexList s' ((0x101000 ∷ []) ++ (new_mutex free_mutex ∷ []))
    × ((n : ℕ)
        → length {A = ℕ} (0x101000 ∷ []) + 1 < n
        → find_id n 1 s' ≡ some (new_mutex free_mutex))
create_mutex-IsMutexList_example =
    create_mutex-IsMutexList free_mutex (0x101000 ∷ []) (free_mutex-IsMutexList 0)
      (λ e. omega (arith, new_at)) 9 (omega arith) (rw new_at) (omega arith)

abbrev stale_mutex : Mutexes
stale_mutex = with_mutex mutex_unlocked 0 0x101000 two

free_there : find_id 9 0 free_mutex ≡ some 0x101000
unfolding find_id Registry.find
free_there = refl

taken_there : find_id 9 0 taken_mutex ≡ some 0x101000
unfolding find_id Registry.find
taken_there = refl

process_zero : get_process_with_pid 9 (get_current_pid waiting_kernel) waiting_kernel ≡ some 10
unfolding get_process_with_pid process_loop get_current_pid
process_zero = refl

thread_zero :
    get_thread_with_pthread 9 (get_current_pthread waiting_kernel) 10 waiting_kernel ≡ some 30
unfolding get_thread_with_pthread thread_loop get_current_pthread
thread_zero = refl

new_waiter : waiter_node waiting_kernel ≡ 0x100000
unfolding allocate allocate_blocks find_blocks search scan is_available get_bit
new_waiter = refl

mutex_down-parks_example :
    (s' : Mutexes) × (mutex_down 9 0 taken_mutex ≡ some s')
    × ((s'.nodes 0x101000).item.status ≡ mutex_locked)
    × IsParked
        (get_current_pid waiting_kernel)
        (get_current_pthread waiting_kernel)
        0x102000
        (0x102000 ∷ [])
        taken_mutex.waiting
        (s'.nodes 0x101000).item.blocked_thread_list
        s'.waiting
    × ((s'.kernel.threads 30).state ≡ t_blocked_mutex)
    × (s'.kernel
        ≡ blocked t_blocked_mutex 10 30 (record waiting_kernel {
          alloc = (allocate waiting_kernel.alloc sizeof_blocked_thread_node).1;
        }))
    × (s'
        ≡ record (set_mutex 0x101000
            (record ((taken_mutex.nodes 0x101000).item) {
              blocked_thread_list = waiter_node waiting_kernel;
            })
            taken_mutex) { kernel = s'.kernel; waiting = s'.waiting })
mutex_down-parks_example =
    mutex_down-parks 9 0 taken_mutex taken_there (0x102000 ∷ []) refl process_zero thread_zero
      (λ e. omega (arith, new_waiter, e)) (rw new_waiter refl) (refl, refl) refl

abbrev open_mutex : Kernel → Mutexes
open_mutex k =
    set_mutex 0x101000 (record { id = 0; status = mutex_unlocked; blocked_thread_list = null })
      (record taken_mutex { kernel = k })

mutex_up-wakes_example :
    mutex_up 9 0 taken_mutex
    ≡ (wake_all 9 taken_mutex.waiting (0x102000 ∷ []) waiting_kernel >>= λ k. some (open_mutex k))
mutex_up-wakes_example =
    mutex_up-wakes 9 0 taken_mutex taken_there (0x102000 ∷ []) (omega arith) (refl, refl) refl
      (omega arith)

-- The kernel when the thread in the list is woken and its node is free.
abbrev woken_kernel : Kernel
woken_kernel = record (unblock blocked_mutex 11 (unblock_node t_blocked_mutex 31 waiting_kernel)) {
  alloc = record waiting_kernel.alloc { used_map = release 1 2 waiting_kernel.alloc.used_map };
}

woken_all : wake_all 9 taken_mutex.waiting (0x102000 ∷ []) waiting_kernel ≡ some woken_kernel
unfolding unblock_thread unblock_process get_process_with_pid get_thread_with_pthread process_loop
    thread_loop deallocate deallocate_inside deallocate_blocks get_block_process_type
woken_all = refl

abbrev no_owner : ℕ → ℕ → Option ℕ
no_owner p k = some (k + 1)
