-- ===== src/Semaphores.antt =====
-- Kernel/semaphores.c with Kernel/include/semaphores.h.
pub mod Count
mod Tests
use basic_kernel_implementat.Prelude.{
  ℕ, ◌+◌, ◌%◌, ◌^◌, Bool, Option, none, some, ◌==◌, if◌then◌else◌, ◌>>=◌,
}
use basic_kernel_implementat.Prelude.Int.{ℤ, pos, negsuc, ◌+ℤ◌, ltb_ℤ}
use basic_kernel_implementat.Kernel.{Kernel, null, minus_one, t_blocked_mutex, increment, decrement}
use basic_kernel_implementat.Kernel.Lookup.{get_current_pid, get_current_pthread}
use basic_kernel_implementat.Kernel.Threads.{kernel_allocate, kernel_deallocate}
use basic_kernel_implementat.Kernel.Blocking.{block_thread}
use basic_kernel_implementat.Registry
use basic_kernel_implementat.Registry.{Cells, set_item}
use basic_kernel_implementat.Waiting.{Waiting, push_waiter, wake_loop}

pub data SemaphoreActions : Type 0 where
  semaphore_up_action semaphore_down_action : SemaphoreActions

-- A node's fields but `next`, which `Registry.Node` has.
pub record Semaphore : Type 0 where
  pub id : ℕ
  pub status : ℤ
  pub blocked_thread_list : ℕ

abbrev pub sizeof_semaphore_node : ℕ
sizeof_semaphore_node = 24

-- The globals of semaphores.c, the memory of its nodes, and the kernel that it calls.
pub record Semaphores : Type 0 where
  pub kernel : Kernel
  pub nodes : Cells Semaphore
  pub waiting : Waiting
  pub counter : ℕ
  pub list : ℕ

abbrev pub set_semaphore : ℕ → Semaphore → Semaphores → Semaphores
set_semaphore m x s = record s { nodes = set_item m x s.nodes }

-- `next` and `blockedThreadList` of the new node keep what the memory held.
unfoldable pub create_semaphore : ℕ → (start : ℤ) → Semaphores → Option (ℕ × Semaphores)
create_semaphore fuel start s = do
  let (m, k) = kernel_allocate sizeof_semaphore_node s.kernel
  let nodes = set_item m (record ((s.nodes m).item) { id = s.counter; status = start }) s.nodes
  r ← Registry.add fuel s.list m nodes
  some (
    (r.1 m).item.id,
    record s { kernel = k; nodes = r.1; counter = (s.counter + 1) % 2 ^ 32; list = r.0 },
  )

abbrev pub has_id : ℕ → Semaphore → Bool
has_id id x = x.id == id

unfoldable pub find_semaphore_id : ℕ → (id : ℕ) → Semaphores → Option ℕ
find_semaphore_id fuel id s = Registry.find (has_id id) fuel s.nodes s.list

abbrev pub act : SemaphoreActions → ℤ → ℤ
act semaphore_down_action n = decrement n
act semaphore_up_action n = increment n

unfoldable pub update_semaphore_status :
    ℕ → (id : ℕ) → SemaphoreActions → Semaphores → Option Semaphores
update_semaphore_status fuel id action s = do
  m ← find_semaphore_id fuel id s
  let x = (s.nodes m).item
  some (if m == null then s else set_semaphore m (record x { status = act action x.status }) s)

unfoldable pub semaphore_destroy : ℕ → (id : ℕ) → Semaphores → Option Semaphores
semaphore_destroy fuel id s = do
  r ←
      Registry.remove (λ p k. kernel_deallocate p sizeof_semaphore_node k) (has_id id) fuel s.list
        s.nodes s.kernel
  some (record s { list = r.0; nodes = r.1; kernel = r.2 })

unfoldable pub is_semaphore_locked : ℕ → (id : ℕ) → Semaphores → Option ℕ
is_semaphore_locked fuel id s = do
  m ← find_semaphore_id fuel id s
  some (if m == null then minus_one else (if ltb_ℤ (s.nodes m).item.status (pos 0) then 1 else 0))

unfoldable pub add_thread_to_semaphore_list : (semaphore pid pthread : ℕ) → Semaphores → Semaphores
add_thread_to_semaphore_list semaphore pid pthread s =
    let x = (s.nodes semaphore).item in
    let (node, w, k) = push_waiter x.blocked_thread_list pid pthread s.waiting s.kernel in
    set_semaphore semaphore (record x { blocked_thread_list = node })
      (record s { waiting = w; kernel = k })

unfoldable pub wait_for_semaphore : ℕ → (semaphore : ℕ) → Semaphores → Option Semaphores
wait_for_semaphore fuel semaphore s = do
  let pid = get_current_pid s.kernel
  let pthread = get_current_pthread s.kernel
  let s1 = add_thread_to_semaphore_list semaphore pid pthread s
  k ← block_thread fuel pid pthread t_blocked_mutex s1.kernel
  some (record s1 { kernel = k })

unfoldable pub semaphore_request_access : ℕ → (id : ℕ) → Semaphores → Option (ℕ × Semaphores)
semaphore_request_access fuel id s = do
  semaphore ← find_semaphore_id fuel id s
  l ← is_semaphore_locked fuel id s
  (if l == 0 then some (1, s) else (wait_for_semaphore fuel semaphore s >>= λ s1. some (0, s1)))

unfoldable pub semaphore_down : ℕ → (id : ℕ) → Semaphores → Option Semaphores
semaphore_down fuel id s = do
  s1 ← update_semaphore_status fuel id semaphore_down_action s
  r ← semaphore_request_access fuel id s1
  some r.1

unfoldable pub unlock_semaphore_process : ℕ → (id : ℕ) → Semaphores → Option Semaphores
unlock_semaphore_process fuel id s = do
  m ← find_semaphore_id fuel id s
  let x = (s.nodes m).item
  k ← wake_loop fuel fuel s.waiting x.blocked_thread_list s.kernel
  some (set_semaphore m (record x { blocked_thread_list = null }) (record s { kernel = k }))

unfoldable pub semaphore_up : ℕ → (id : ℕ) → Semaphores → Option Semaphores
semaphore_up fuel id s = do
  s1 ← update_semaphore_status fuel id semaphore_up_action s
  l ← is_semaphore_locked fuel id s1
  (if l == 0 then unlock_semaphore_process fuel id s1 else some s1)
