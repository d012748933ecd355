-- ===== src/Kernel/Scheduler/Dead.antt =====
-- removeDeadProcess and removeDeadThreads: what they do to a queue without dead members, and where
-- they go wrong.
use basic_kernel_implementat.Prelude.{
  ℕ, zero, suc, ◌<◌, ◌≡◌, refl, inl, inr, List, [], ◌∷◌, ◌++◌, true, false, ◌&&◌, ltb, Option, none,
  some, arith, length, if◌then◌else◌, Bool-cases, Chain, All,
}
use basic_kernel_implementat.Prelude.Int.{pos, pos_part}
use basic_kernel_implementat.Kernel.{Kernel, dead, t_dead, set_slot_next}
use basic_kernel_implementat.Kernel.Lookup.{slot_next, same_state, same_thread_state}
use basic_kernel_implementat.Kernel.Lookup.Find.{IsRing}
use basic_kernel_implementat.Kernel.Blocking.{library_state}
use basic_kernel_implementat.Kernel.Threads.{free_thread_library, free_library_loop}
use basic_kernel_implementat.Kernel.Process.{free_process}
use basic_kernel_implementat.Kernel.Scheduler.{
  slot_state, remove_slot, remove_dead_loop, remove_dead_process, remove_library,
  remove_dead_threads_loop, remove_dead_threads,
}

abbrev pub IsAlive : Kernel → ℕ → Type 0
IsAlive k a = same_state (slot_state k a) dead ≡ false

remove_dead_loop-alive :
    (fuel left : ℕ) (prev : Option ℕ) (current : ℕ) (k : Kernel) (xs : List ℕ) (stop : ℕ)
    → Chain (slot_next k) current xs stop
    → All (IsAlive k) xs
    → length xs ≡ left
    → remove_dead_loop fuel left prev current k ≡ some k
unfolding remove_dead_loop
remove_dead_loop-alive fuel zero prev current k xs stop c alive h = refl
remove_dead_loop-alive fuel (suc left) prev current k [] stop c alive h = absurd (omega arith)
remove_dead_loop-alive fuel (suc left) prev current k (a ∷ xs) stop c alive h =
    let here : same_state (slot_state k current) dead ≡ false = rw c.0 (alive.0) in
    let there : Chain (slot_next k) (slot_next k current) xs stop = rw c.0 (c.1) in
    rw here (
      remove_dead_loop-alive fuel left (some current) (slot_next k current) k xs stop there alive.1
        (omega arith))

-- A queue whose members are all alive stays as it is.
pub remove_dead_process-alive :
    (fuel : ℕ) (k : Kernel) (rest : List ℕ)
    → IsRing (slot_next k) k.process_queue rest
    → All (IsAlive k) (k.process_queue ∷ rest)
    → k.queue_size ≡ pos (suc (length rest))
    → remove_dead_process fuel k ≡ some k
unfolding remove_dead_process
remove_dead_process-alive fuel k rest ring alive size =
    remove_dead_loop-alive fuel (pos_part k.queue_size) none k.process_queue k
      (k.process_queue ∷ rest) k.process_queue (refl, ring.links) alive (ground arith)

-- freeThreadLibrary writes through a pointer that it has not set, whatever the ring, if the
-- process has a thread left.
pub free_thread_library-unset :
    (library n : ℕ) (k : Kernel) → free_thread_library library (pos (suc n)) k ≡ none
unfolding free_thread_library free_library_loop
free_thread_library-unset library n k = refl

free_process-unset :
    (fuel process n : ℕ) (k : Kernel)
    → (k.processes process).thread_size ≡ pos (suc n)
    → free_process fuel process k ≡ none
unfolding free_process
free_process-unset fuel process n k h =
    rw (h, free_thread_library-unset (k.processes process).thread_library n k)

remove_slot-unset :
    (fuel : ℕ) (prev : Option ℕ) (current n : ℕ) (k : Kernel)
    → (k.processes (k.slots current).process).thread_size ≡ pos (suc n)
    → remove_slot fuel prev current k ≡ none
unfolding remove_slot
remove_slot-unset fuel none current n k h = refl
remove_slot-unset fuel (some prev) current n k h =
    let k1 = set_slot_next (slot_next k current) prev k in
    let same : (k1.slots current).process ≡ (k.slots current).process = ground arith in
    rw (same, free_process-unset fuel (k.slots current).process n k1 h)

-- A dead process that still has a thread makes the scheduler follow an unset pointer, as soon as
-- the loop gets to it.
remove_dead_loop-unset :
    (fuel left : ℕ) (prev : Option ℕ) (current : ℕ) (k : Kernel) (xs : List ℕ) (d n stop : ℕ)
    → Chain (slot_next k) current (xs ++ (d ∷ [])) stop
    → All (IsAlive k) xs
    → slot_state k d ≡ dead
    → (k.processes (k.slots d).process).thread_size ≡ pos (suc n)
    → length xs < left
    → remove_dead_loop fuel left prev current k ≡ none
unfolding remove_dead_loop
remove_dead_loop-unset fuel zero prev current k xs d n stop c alive gone threads h =
    absurd (omega arith)
remove_dead_loop-unset fuel (suc left) prev current k [] d n stop c alive gone threads h =
    rw (c.0, gone, remove_slot-unset fuel prev d n k threads)
remove_dead_loop-unset fuel (suc left) prev current k (a ∷ xs) d n stop c alive gone threads h =
    let here : same_state (slot_state k current) dead ≡ false = rw c.0 (alive.0) in
    let there : Chain (slot_next k) (slot_next k current) (xs ++ (d ∷ [])) stop = rw c.0 (c.1) in
    rw here (
      remove_dead_loop-unset fuel left (some current) (slot_next k current) k xs d n stop there
        alive.1 gone threads (omega arith))

-- A queue that holds a dead process with a thread, behind live ones only: the clean-up of the
-- scheduler follows a pointer that it has not set.
pub remove_dead_process-unset :
    (fuel : ℕ) (k : Kernel) (before : List ℕ) (d n stop : ℕ)
    → Chain (slot_next k) k.process_queue (before ++ (d ∷ [])) stop
    → All (IsAlive k) before
    → slot_state k d ≡ dead
    → (k.processes (k.slots d).process).thread_size ≡ pos (suc n)
    → length before < pos_part k.queue_size
    → remove_dead_process fuel k ≡ none
unfolding remove_dead_process
remove_dead_process-unset fuel k before d n stop c alive gone threads h =
    remove_dead_loop-unset fuel (pos_part k.queue_size) none k.process_queue k before d n stop c
      alive gone threads h

remove_dead_threads_loop-stays :
    (left : ℕ) (current : ℕ) (k : Kernel)
    → same_thread_state (library_state k current) t_dead ≡ false
    → remove_dead_threads_loop left none current k ≡ some k
unfolding remove_dead_threads_loop
remove_dead_threads_loop-stays zero current k h = refl
remove_dead_threads_loop-stays (suc left) current k h =
    rw h (remove_dead_threads_loop-stays left current k h)

remove_dead_threads_loop-unset :
    (left : ℕ) (current : ℕ) (k : Kernel)
    → same_thread_state (library_state k current) t_dead ≡ true
    → remove_dead_threads_loop (suc left) none current k ≡ none
unfolding remove_dead_threads_loop remove_library
remove_dead_threads_loop-unset left current k h = rw h

remove_dead_threads_loop-first :
    (left current : ℕ) (k : Kernel)
    → remove_dead_threads_loop left none current k
      ≡ (if ltb 0 left && same_thread_state (library_state k current) t_dead then none else some k)
remove_dead_threads_loop-first zero current k = unfold remove_dead_threads_loop in refl
remove_dead_threads_loop-first (suc left) current k =
    elim (Bool-cases (same_thread_state (library_state k current) t_dead)) [
      | inl gone ↦ rw (remove_dead_threads_loop-unset left current k gone) (ground arith)
      | inr alive ↦ rw (remove_dead_threads_loop-stays (suc left) current k alive) (ground arith)
    ]

-- removeDeadThreads looks at the first thread of the ring only, in every round: it removes no
-- thread at all, or follows a pointer that it has not set.
pub remove_dead_threads-first :
    (process : ℕ) (k : Kernel)
    → remove_dead_threads process k ≡ (
        if ltb 0 (pos_part (k.processes process).thread_size)
          && same_thread_state (library_state k (k.processes process).thread_library) t_dead
        then none
        else some k)
unfolding remove_dead_threads
remove_dead_threads-first process k =
    let p = k.processes process in
    remove_dead_threads_loop-first (pos_part p.thread_size) p.thread_library k
