-- ===== src/Kernel/Process.antt =====
-- Kernel/process.c: processes and the list of the memory that each has asked for.
use basic_kernel_implementat.Prelude.{
  ℕ, zero, suc, ◌+◌, ◌-◌, ◌%◌, ◌^◌, List, [], ◌∷◌, Option, none, some, ◌==◌, if◌then◌else◌, ◌>>=◌,
  update,
}
use basic_kernel_implementat.Prelude.Int.{pos}
use basic_kernel_implementat.Memory.{page_size, sign_extend}
use basic_kernel_implementat.Kernel.{Kernel, ready, null, name_length, set_heap, set_heap_next}
use basic_kernel_implementat.Kernel.Lookup.{get_process_with_pid, get_current_pid}
use basic_kernel_implementat.Kernel.Threads.{
  kernel_allocate, kernel_deallocate, free_thread_library,
}

-- The characters that the loop of createProcessName copies, `room` of them at most.
unfoldable pub copy_name : (room : ℕ) → List ℕ → List ℕ
copy_name zero name = []
copy_name (suc room) [] = []
copy_name (suc room) (c ∷ name) = c ∷ copy_name room name

-- A name is given by its characters before the 0.
unfoldable pub create_process_name : (process : ℕ) → List ℕ → Kernel → Kernel
create_process_name process name k =
    let (p, k1) = kernel_allocate name_length k in
    record k1 {
      processes = update k1.processes process (record (k1.processes process) { name = p });
      names = update k1.names p (copy_name (name_length - 1) name);
    }

-- `threadLibrary`, `currentThread` and `threadTick` keep what the memory held.
unfoldable pub create_process : List ℕ → (ppid : ℕ) → Kernel → ℕ × Kernel
create_process name ppid k =
    let (process, k1) = kernel_allocate page_size k in
    let k2 = record k1 {
      current_pid = (k1.current_pid + 1) % 2 ^ 32;
      processes = update k1.processes process (record (k1.processes process) {
        pid = k1.current_pid;
        ppid = ppid;
        current_p_thread = 0;
        thread_size = pos 0;
        state = ready;
      });
    } in
    (process, set_heap null process (create_process_name process name k2))

abbrev pub sizeof_heap_node : ℕ
sizeof_heap_node = 24

-- The new node's `next` keeps what the memory held.
unfoldable pub new_heap_node : (mem n_bytes : ℕ) → Kernel → ℕ × Kernel
new_heap_node mem n_bytes k =
    let (node, k1) = kernel_allocate sizeof_heap_node k in
    (
      node,
      record k1 {
        heaps = update k1.heaps node (record (k1.heaps node) { address = mem; size = n_bytes });
      },
    )

unfoldable pub add_heap : ℕ → (node mem n_bytes : ℕ) → Kernel → Option (ℕ × Kernel)
add_heap zero node mem n_bytes k = none
add_heap (suc fuel) node mem n_bytes k =
    let rest = add_heap fuel (k.heaps node).next mem n_bytes k in
    if node == null
    then some (new_heap_node mem n_bytes k)
    else rest >>= λ r. some (node, set_heap_next r.0 node r.1)

unfoldable pub pmalloc : ℕ → (n_bytes : ℕ) → Kernel → Option (ℕ × Kernel)
pmalloc fuel n_bytes k = do
  let (mem, k1) = kernel_allocate (sign_extend n_bytes) k
  current ← get_process_with_pid fuel (get_current_pid k1) k1
  r ← add_heap fuel (k1.processes current).heap mem n_bytes k1
  some (mem, set_heap r.0 current r.1)

-- The memory of a node, and the node.
unfoldable pub free_heap_node : (node : ℕ) → Kernel → Option Kernel
free_heap_node node k = do
  let h = k.heaps node
  k1 ← kernel_deallocate h.address (sign_extend h.size) k
  kernel_deallocate node sizeof_heap_node k1

unfoldable pub pfree_r : ℕ → (node mem : ℕ) → Kernel → Option (ℕ × Kernel)
pfree_r zero node mem k = none
pfree_r (suc fuel) node mem k =
    let rest = pfree_r fuel (k.heaps node).next mem k in
    if node == null
    then some (null, k)
    else (if (k.heaps node).address == mem
        then free_heap_node node k >>= (λ k1. some ((k.heaps node).next, k1))
        else rest >>= λ r. some (node, set_heap_next r.0 node r.1))

unfoldable pub pfree : ℕ → (mem : ℕ) → Kernel → Option Kernel
pfree fuel mem k = do
  current ← get_process_with_pid fuel (get_current_pid k) k
  r ← pfree_r fuel (k.processes current).heap mem k
  some (set_heap r.0 current r.1)

unfoldable pub free_heap : ℕ → (node : ℕ) → Kernel → Option Kernel
free_heap zero node k = none
free_heap (suc fuel) node k =
    let rest = free_heap_node node k >>= (λ k1. free_heap fuel (k.heaps node).next k1) in
    if node == null then some k else rest

unfoldable pub free_process : ℕ → (process : ℕ) → Kernel → Option Kernel
free_process fuel process k = do
  let p = k.processes process
  k1 ← free_thread_library p.thread_library p.thread_size k
  k2 ← free_heap fuel p.heap k1
  kernel_deallocate process page_size k2
