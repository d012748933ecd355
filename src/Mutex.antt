-- ===== src/Mutex.antt =====
-- Kernel/mutex.c with Kernel/include/mutex.h.
pub mod List
pub mod Access
mod Tests
use basic_kernel_implementat.Prelude.{
  ℕ, ◌+◌, ◌%◌, ◌^◌, Bool, Option, none, some, ◌==◌, if◌then◌else◌, ◌>>=◌,
}
use basic_kernel_implementat.Kernel.{Kernel, null, minus_one, t_blocked_mutex}
use basic_kernel_implementat.Kernel.Lookup.{get_current_pid, get_current_pthread}
use basic_kernel_implementat.Kernel.Threads.{kernel_allocate, kernel_deallocate}
use basic_kernel_implementat.Kernel.Blocking.{block_thread}
use basic_kernel_implementat.Registry
use basic_kernel_implementat.Registry.{Cells, set_item}
use basic_kernel_implementat.Waiting.{Waiting, push_waiter, wake_loop}

abbrev pub mutex_locked : ℕ
mutex_locked = 1

abbrev pub mutex_unlocked : ℕ
mutex_unlocked = 2

-- A node's fields but `next`, which `Registry.Node` has.
pub record Mutex : Type 0 where
  pub id : ℕ
  pub status : ℕ
  pub blocked_thread_list : ℕ

abbrev pub sizeof_mutex_node : ℕ
sizeof_mutex_node = 24

-- The globals of mutex.c, the memory of its nodes, and the kernel that it calls.
pub record Mutexes : Type 0 where
  pub kernel : Kernel
  pub nodes : Cells Mutex
  pub waiting : Waiting
  pub counter : ℕ
  pub list : ℕ

abbrev pub set_mutex : ℕ → Mutex → Mutexes → Mutexes
set_mutex m x s = record s { nodes = set_item m x s.nodes }

-- `next` and `blockedThreadList` of the new node keep what the memory held.
unfoldable pub create_mutex : ℕ → Mutexes → Option (ℕ × Mutexes)
create_mutex fuel s = do
  let (m, k) = kernel_allocate sizeof_mutex_node s.kernel
  let nodes =
      set_item m (record ((s.nodes m).item) { id = s.counter; status = mutex_unlocked }) s.nodes
  r ← Registry.add fuel s.list m nodes
  some (
    (r.1 m).item.id,
    record s { kernel = k; nodes = r.1; counter = (s.counter + 1) % 2 ^ 32; list = r.0 },
  )

abbrev pub has_id : ℕ → Mutex → Bool
has_id id x = x.id == id

unfoldable pub find_id : ℕ → (id : ℕ) → Mutexes → Option ℕ
find_id fuel id s = Registry.find (has_id id) fuel s.nodes s.list

unfoldable pub update_status : ℕ → (id mutex_status : ℕ) → Mutexes → Option Mutexes
update_status fuel id mutex_status s = do
  m ← find_id fuel id s
  some
      (if m == null then s else set_mutex m (record ((s.nodes m).item) { status = mutex_status }) s)

unfoldable pub mutex_destroy : ℕ → (id : ℕ) → Mutexes → Option Mutexes
mutex_destroy fuel id s = do
  r ←
      Registry.remove (λ p k. kernel_deallocate p sizeof_mutex_node k) (has_id id) fuel s.list
        s.nodes s.kernel
  some (record s { list = r.0; nodes = r.1; kernel = r.2 })

unfoldable pub is_locked : ℕ → (id : ℕ) → Mutexes → Option ℕ
is_locked fuel id s = do
  m ← find_id fuel id s
  some (if m == null then minus_one else (if (s.nodes m).item.status == mutex_locked then 1 else 0))

unfoldable pub add_thread_to_mutex_list : (mutex pid pthread : ℕ) → Mutexes → Mutexes
add_thread_to_mutex_list mutex pid pthread s =
    let x = (s.nodes mutex).item in
    let (node, w, k) = push_waiter x.blocked_thread_list pid pthread s.waiting s.kernel in
    set_mutex mutex (record x { blocked_thread_list = node }) (record s { waiting = w; kernel = k })

-- The current thread goes into the list of waiters and is blocked.
unfoldable pub wait_for_mutex : ℕ → (mutex : ℕ) → Mutexes → Option Mutexes
wait_for_mutex fuel mutex s = do
  let pid = get_current_pid s.kernel
  let pthread = get_current_pthread s.kernel
  let s1 = add_thread_to_mutex_list mutex pid pthread s
  k ← block_thread fuel pid pthread t_blocked_mutex s1.kernel
  some (record s1 { kernel = k })

-- The result is `locked`: 1 if the thread may go on and take the mutex. Like the code this takes
-- the -1 of a mutex that is not there for a locked one.
unfoldable pub mutex_request_access : ℕ → (id : ℕ) → Mutexes → Option (ℕ × Mutexes)
mutex_request_access fuel id s = do
  mutex ← find_id fuel id s
  l ← is_locked fuel id s
  (if l == 0 then some (1, s) else (wait_for_mutex fuel mutex s >>= λ s1. some (0, s1)))

unfoldable pub mutex_down : ℕ → (id : ℕ) → Mutexes → Option Mutexes
mutex_down fuel id s = do
  r ← mutex_request_access fuel id s
  (if r.0 == 0 then some r.1 else update_status fuel id mutex_locked r.1)

unfoldable pub unlock_processes : ℕ → (id : ℕ) → Mutexes → Option Mutexes
unlock_processes fuel id s = do
  m ← find_id fuel id s
  let x = (s.nodes m).item
  k ← wake_loop fuel fuel s.waiting x.blocked_thread_list s.kernel
  some (set_mutex m (record x { blocked_thread_list = null }) (record s { kernel = k }))

unfoldable pub mutex_up : ℕ → (id : ℕ) → Mutexes → Option Mutexes
mutex_up fuel id s = update_status fuel id mutex_unlocked s >>= λ s1. unlock_processes fuel id s1
