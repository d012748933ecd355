-- ===== src/Kernel/Blocking/Wake.antt =====
-- Blocking and waking threads and processes.
use basic_kernel_implementat.Prelude.{
  ℕ, zero, suc, ◌≡◌, ◌↔◌, refl, inl, inr, ◌∙◌, List, [], ◌∷◌, Bool, true, false, some, arith,
  length, if◌then◌else◌, Bool-cases, Chain, All,
}
use basic_kernel_implementat.Kernel.{
  Kernel, ProcessState, ready, ThreadState, t_ready, quantum, thread_quantum, set_process_state,
  set_thread_state, set_thread_tick,
}
use basic_kernel_implementat.Kernel.Lookup.{
  get_process_with_pid, get_thread_with_pthread, library_next, get_block_process_type, same_state,
  same_thread_state,
}
use basic_kernel_implementat.Kernel.Lookup.Same.{
  IsSame, get_process_with_pid-IsSame, get_thread_with_pthread-IsSame,
}
use basic_kernel_implementat.Kernel.Blocking.{
  library_state, all_threads_loop, all_threads_are_blocked, block_process, unblock_process,
  block_thread, unblock_thread, unblock, unblock_node,
}

-- allThreadsAreBlocked is true exactly when no thread of the first `threadSize` nodes is ready; a
-- thread that is running or dead counts as blocked.
pub all_threads_loop_iff :
    (left current : ℕ) (k : Kernel) (xs : List ℕ) (stop : ℕ)
    → Chain (library_next k) current xs stop
    → length xs ≡ left
    → (all_threads_loop left current k ≡ true)
      ↔ All (λ a. same_thread_state (library_state k a) t_ready ≡ false) xs
unfolding all_threads_loop
all_threads_loop_iff zero current k [] stop c h = (λ _. tt, λ _. refl)
all_threads_loop_iff (suc left) current k [] stop c h = absurd (omega arith)
all_threads_loop_iff zero current k (a ∷ xs) stop c h = absurd (omega arith)
all_threads_loop_iff (suc left) current k (a ∷ xs) stop c h =
    let there : Chain (library_next k) (library_next k current) xs stop = rw c.0 (c.1) in
    let rest = all_threads_loop_iff left (library_next k current) k xs stop there (omega arith) in
    let here : library_state k current ≡ library_state k a = rw c.0 in
    elim (Bool-cases (same_thread_state (library_state k a) t_ready)) [
      | inl waits ↦ (λ e. absurd (ground arith), λ all. absurd (ground arith))
      | inr blocked ↦ rw (here, blocked) (λ e. (refl, rest.0 e), λ all. rest.1 all.1)
    ]

-- The thread and its process after the first writes of blockThread.
abbrev pub parked : ThreadState → (process thread : ℕ) → Kernel → Kernel
parked block_type process thread k =
    set_thread_tick thread_quantum process (set_thread_state block_type thread k)

parked-IsSame : (s : ThreadState) (p t : ℕ) (k : Kernel) → IsSame k (parked s p t k)
parked-IsSame s p t k = record {
  queue = refl;
  slots = λ a. refl;
  pids = λ q. ground arith;
  rings = λ q. ground arith;
  libraries = λ a. refl;
  pthreads = λ u. ground arith;
}

unblock_node-IsSame : (s : ThreadState) (t : ℕ) (k : Kernel) → IsSame k (unblock_node s t k)
unblock_node-IsSame s t k = record {
  queue = ground arith;
  slots = λ a. ground arith;
  pids = λ q. ground arith;
  rings = λ q. ground arith;
  libraries = λ a. ground arith;
  pthreads = λ u. ground arith;
}

module _ (fuel pid pthread : ℕ) (s : ThreadState) (k : Kernel) {p t : ℕ}
    (process : get_process_with_pid fuel pid k ≡ some p)
    (thread : get_thread_with_pthread fuel pthread p k ≡ some t) where
  -- If the process and the thread are found, blockThread gives the thread its new state and uses up
  -- the process's thread quantum; if no thread of the process is ready after that, it blocks the
  -- process for the same reason and uses up the quantum.
  pub block_thread_lem :
      block_thread fuel pid pthread s k
      ≡ some (
          if all_threads_are_blocked p (parked s p t k)
          then record (set_process_state (get_block_process_type s) p (parked s p t k)) {
            number_of_ticks = quantum;
          }
          else parked s p t k)
  unfolding block_thread block_process
  block_thread_lem =
      let again = get_process_with_pid-IsSame (parked-IsSame s p t k) fuel pid ∙ process in
      ground (arith, again)

  pub unblock_thread_lem :
      unblock_thread fuel pid pthread s k
      ≡ some (unblock (get_block_process_type s) p (unblock_node s t k))
  unfolding unblock_thread unblock_process
  unblock_thread_lem =
      let again = get_process_with_pid-IsSame (unblock_node-IsSame s t k) fuel pid ∙ process in
      ground (arith, again)

same_state_refl : (s : ProcessState) → same_state s s ≡ true
same_state_refl ready = refl
same_state_refl _ = refl

same_thread_state_refl : (s : ThreadState) → same_thread_state s s ≡ true
same_thread_state_refl t_ready = refl
same_thread_state_refl _ = refl

-- The kernel after blockThread.
abbrev pub blocked : ThreadState → (process thread : ℕ) → Kernel → Kernel
blocked s p t k =
    let k1 = parked s p t k in
    if all_threads_are_blocked p k1
    then record (set_process_state (get_block_process_type s) p k1) { number_of_ticks = quantum }
    else k1

blocked-IsSame : (s : ThreadState) (p t : ℕ) (k : Kernel) → IsSame k (blocked s p t k)
blocked-IsSame s p t k = record {
  queue = ground arith;
  slots = λ a. ground arith;
  pids = λ q. ground arith;
  rings = λ q. ground arith;
  libraries = λ a. ground arith;
  pthreads = λ u. ground arith;
}

-- What a process's state becomes when it is blocked for a reason and then woken for it: a process
-- that was not blocked by it stays as it was, unless it waited for the same reason already.
abbrev pub woken : ThreadState → (was_blocked : Bool) → ProcessState → ProcessState
woken s true before = ready
woken s false before = if same_state before (get_block_process_type s) then ready else before

-- If the process and the thread are found: a thread that is blocked and then woken for the same
-- reason has that reason as its state in between and is ready again after it; its process is ready
-- too if no thread of it was ready when it was blocked, or if it waited for the same reason before,
-- and else keeps its state.
pub unblock_thread-block_thread :
    (fuel pid pthread : ℕ) (s : ThreadState) (k : Kernel) {p t : ℕ}
    → get_process_with_pid fuel pid k ≡ some p
    → get_thread_with_pthread fuel pthread p k ≡ some t
    → (k' k'' : Kernel) × (block_thread fuel pid pthread s k ≡ some k')
      × (unblock_thread fuel pid pthread s k' ≡ some k'')
      × ((k'.threads t).state ≡ s)
      × ((k''.threads t).state ≡ t_ready)
      × ((k''.processes p).state
          ≡ woken s (all_threads_are_blocked p (parked s p t k)) (k.processes p).state)
unblock_thread-block_thread fuel pid pthread s k {p} {t} process thread =
    let k' = blocked s p t k in
    let process' = get_process_with_pid-IsSame (blocked-IsSame s p t k) fuel pid ∙ process in
    let thread' = get_thread_with_pthread-IsSame (blocked-IsSame s p t k) fuel pthread p ∙ thread in
    (
      k',
      unblock (get_block_process_type s) p (unblock_node s t k'),
      block_thread_lem fuel pid pthread s k process thread,
      unblock_thread_lem fuel pid pthread s k' process' thread',
      ground arith,
      ground (arith, same_thread_state_refl s),
      ground (arith, same_thread_state_refl s, same_state_refl (get_block_process_type s)),
    )
