-- ===== src/Kernel/Scheduler.antt =====
-- The functions of Kernel/scheduler.c that load processes and choose who runs.
pub mod Turn
pub mod Dead
pub mod Queue
use basic_kernel_implementat.Prelude.{
  ℕ, zero, suc, ◌+◌, List, Bool, true, false, ◌||◌, Option, none, some, ltb, ◌==◌, if◌then◌else◌,
  ◌>>=◌, update,
}
use basic_kernel_implementat.Prelude.Int.{pos_part}
use basic_kernel_implementat.Memory.{page_size}
use basic_kernel_implementat.Kernel.{
  Kernel, ProcessState, ready, running, dead, ThreadState, t_ready, t_running, t_dead, null,
  quantum, thread_quantum, set_process_state, set_thread_state, set_thread_tick, set_current_thread,
  set_slot_next, set_library_next, increment,
}
use basic_kernel_implementat.Kernel.Lookup.{
  slot_next, library_next, current_thread_node, get_current_pid, is_process_blocked,
  is_thread_blocked, same_state, same_thread_state,
}
use basic_kernel_implementat.Kernel.Threads.{
  kernel_allocate, kernel_deallocate, add_thread_to_process, free_library_node,
}
use basic_kernel_implementat.Kernel.Process.{create_process, free_process}
use basic_kernel_implementat.Kernel.Blocking.{library_state}

abbrev pub slot_state : Kernel → ℕ → ProcessState
slot_state k slot = (k.processes (k.slots slot).process).state

abbrev pub current_process_node : Kernel → ℕ
current_process_node k = (k.slots k.current_process).process

unfoldable pub switch_user_to_kernel : (esp : ℕ) → Kernel → ℕ × Kernel
switch_user_to_kernel esp k =
    let t = current_thread_node k in
    (
      k.kernel_stack,
      record k { threads = update k.threads t (record (k.threads t) { user_stack = esp }) },
    )

unfoldable pub switch_kernel_to_user : Kernel → ℕ
switch_kernel_to_user k = (k.threads (current_thread_node k)).user_stack

unfoldable pub set_kernel_stack : Kernel → Kernel
set_kernel_stack k = let (p, k1) = kernel_allocate page_size k in record k1 { kernel_stack = p }

-- The new slot becomes the ring, or goes behind the first slot of the ring.
unfoldable pub link_slot : (node : ℕ) → Kernel → Kernel
link_slot node k =
    let alone =
      set_slot_next node node (record k { process_queue = node; current_process = node }) in
    let behind =
      set_slot_next node k.process_queue (set_slot_next (slot_next k k.process_queue) node k) in
    if k.current_process == null then alone else behind

unfoldable pub add_process_to_queue : (process : ℕ) → Kernel → Kernel
add_process_to_queue process k =
    let (node, k1) = kernel_allocate page_size k in
    let k2 = record k1 {
      slots = update k1.slots node (record (k1.slots node) { process = process });
    } in
    let k3 = link_slot node (set_thread_tick 0 process k2) in
    record k3 { queue_size = increment k3.queue_size }

unfoldable pub add_process : ℕ → (exec entry_point : ℕ) → List ℕ → Kernel → Option (ℕ × Kernel)
add_process fuel exec entry_point name k = do
  let (process, k1) = create_process name (get_current_pid k) k
  let k2 = add_process_to_queue process k1
  r ← add_thread_to_process fuel (k2.processes process).pid exec entry_point k2
  some ((r.1.processes process).pid, r.1)

-- The loop of removeDeadProcess with the rounds left; `prev` has no value before the first round.
unfoldable pub remove_slot : ℕ → (prev : Option ℕ) → (current : ℕ) → Kernel → Option Kernel
remove_slot fuel none current k = none
remove_slot fuel (some prev) current k = do
  let k1 = set_slot_next (slot_next k current) prev k
  k2 ← free_process fuel (k1.slots current).process k1
  kernel_deallocate current page_size k2

unfoldable pub remove_dead_loop :
    ℕ → (left : ℕ) (prev : Option ℕ) (current : ℕ) → Kernel → Option Kernel
remove_dead_loop fuel zero prev current k = some k
remove_dead_loop fuel (suc left) prev current k = do
  k1 ← (if same_state (slot_state k current) dead then remove_slot fuel prev current k else some k)
  remove_dead_loop fuel left (some current) (slot_next k1 current) k1

unfoldable pub remove_dead_process : ℕ → Kernel → Option Kernel
remove_dead_process fuel k = remove_dead_loop fuel (pos_part k.queue_size) none k.process_queue k

unfoldable pub remove_library : (prev : Option ℕ) → (current : ℕ) → Kernel → Option Kernel
remove_library none current k = none
remove_library (some prev) current k =
    free_library_node current (set_library_next (library_next k current) prev k)

-- The loop of removeDeadThreads: it goes on to the next node only behind a dead thread.
unfoldable pub remove_dead_threads_loop :
    (left : ℕ) (prev : Option ℕ) (current : ℕ) → Kernel → Option Kernel
remove_dead_threads_loop zero prev current k = some k
remove_dead_threads_loop (suc left) prev current k =
    let stay = remove_dead_threads_loop left prev current k in
    let go_on =
      remove_library prev current k
      >>= (λ k1. remove_dead_threads_loop left (some current) (library_next k1 current) k1) in
    if same_thread_state (library_state k current) t_dead then go_on else stay

unfoldable pub remove_dead_threads : (process : ℕ) → Kernel → Option Kernel
remove_dead_threads process k =
    let p = k.processes process in
    remove_dead_threads_loop (pos_part p.thread_size) none p.thread_library k

-- The node whose next one holds a thread that is ready.
unfoldable pub ready_library : ℕ → (current : ℕ) → Kernel → Option ℕ
ready_library zero current k = none
ready_library (suc fuel) current k =
    let rest = ready_library fuel (library_next k current) k in
    if same_thread_state (library_state k (library_next k current)) t_ready
    then some current
    else rest

abbrev pub demote_thread : Kernel → Kernel
demote_thread k =
    let t = current_thread_node k in
    if same_thread_state (k.threads t).state t_running then set_thread_state t_ready t k else k

unfoldable pub next_thread : ℕ → Kernel → Option Kernel
next_thread fuel k = do
  let process = current_process_node k
  k1 ← remove_dead_threads process k
  let k2 = demote_thread k1
  before ← ready_library fuel (k2.processes process).current_thread k2
  let chosen = library_next k2 before
  some (
      set_thread_state t_running (k2.libraries chosen).thread
        (set_current_thread chosen process k2))

unfoldable pub thread_check : ℕ → Kernel → Option Kernel
thread_check fuel k =
    let process = current_process_node k in
    let tick = (k.processes process).thread_tick in
    if ltb tick thread_quantum
    then some (set_thread_tick (tick + 1) process k)
    else next_thread fuel (set_thread_tick 0 process k)

-- The slot whose next one holds a process that is ready.
unfoldable pub ready_slot : ℕ → (current : ℕ) → Kernel → Option ℕ
ready_slot zero current k = none
ready_slot (suc fuel) current k =
    let rest = ready_slot fuel (slot_next k current) k in
    if same_state (slot_state k (slot_next k current)) ready then some current else rest

abbrev pub demote_process : Kernel → Kernel
demote_process k =
    let p = current_process_node k in
    if same_state (k.processes p).state running then set_process_state ready p k else k

unfoldable pub next_process : ℕ → Kernel → Option Kernel
next_process fuel k = do
  k1 ← remove_dead_process fuel k
  let k2 = demote_process (record k1 { number_of_ticks = 0 })
  before ← ready_slot fuel k2.current_process k2
  let chosen = slot_next k2 before
  some
      (set_process_state running (k2.slots chosen).process (record k2 { current_process = chosen }))

unfoldable pub run_scheduler : ℕ → Kernel → Option Kernel
run_scheduler fuel k =
    if k.current_process == null
    then some k
    else (if ltb k.number_of_ticks quantum
        then thread_check fuel (record k { number_of_ticks = k.number_of_ticks + 1 })
        else next_process fuel k)

unfoldable pub yield_switch : ℕ → Kernel → Option Kernel
yield_switch fuel k =
    let process = (k.processes (current_process_node k)).state in
    let thread = (k.threads (current_thread_node k)).state in
    if k.current_process == null
    then some k
    else (if is_process_blocked process || same_state process dead
        then run_scheduler fuel (record k { number_of_ticks = quantum })
        else (if is_thread_blocked thread || same_thread_state thread t_dead
            then run_scheduler fuel (set_thread_tick thread_quantum (current_process_node k) k)
            else some k))
