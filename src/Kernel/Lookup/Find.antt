-- ===== src/Kernel/Lookup/Find.antt =====
-- getProcessWithPid and getThreadWithPthread over a ring of nodes: the searches end, and find the
-- first match in ring order, the head last.
use basic_kernel_implementat.Prelude.{
  ℕ, zero, suc, ◌<◌, ◌≡◌, refl, List, [], ◌∷◌, ◌++◌, false, some, arith, length, ◌==◌,
  if◌then◌else◌, ◌>>=◌, Chain, Chain-append, length-append, has,
}
use basic_kernel_implementat.Kernel.{Kernel, null}
use basic_kernel_implementat.Kernel.Lookup.{
  slot_pid, slot_next, library_pthread, library_next, process_loop, get_process_with_pid,
  thread_loop, get_thread_with_pthread,
}

-- From `head` the links lead through `rest` and back to it.
pub record IsRing (next : ℕ → ℕ) (head : ℕ) (rest : List ℕ) : Type 0 where
  pub links : Chain next (next head) rest head
  pub once : has head rest ≡ false

-- The ring in the order of the searches.
abbrev pub search_order : ℕ → List ℕ → List ℕ
search_order head rest = rest ++ (head ∷ [])

abbrev pub find_process : Kernel → (pid : ℕ) → List ℕ → ℕ
find_process k pid [] = null
find_process k pid (a ∷ xs) =
    if slot_pid k a == pid then (k.slots a).process else find_process k pid xs

abbrev pub find_thread : Kernel → (pthread : ℕ) → List ℕ → ℕ
find_thread k pthread [] = null
find_thread k pthread (a ∷ xs) =
    if library_pthread k a == pthread then (k.libraries a).thread else find_thread k pthread xs

module _ (k : Kernel) where
  process_loop-find :
      (fuel pid aux : ℕ) (xs : List ℕ)
      → Chain (slot_next k) aux xs k.process_queue
      → has k.process_queue xs ≡ false
      → length xs < fuel
      → (process_loop fuel k pid aux >>= λ a.
          some (if slot_pid k a == pid then (k.slots a).process else null))
        ≡ some (find_process k pid (search_order k.process_queue xs))
  unfolding process_loop
  process_loop-find zero pid aux xs c once h = absurd (omega arith)
  process_loop-find (suc fuel) pid aux [] c once h = ground arith
  process_loop-find (suc fuel) pid aux (a ∷ xs) c once h =
      ground (arith, process_loop-find fuel pid (slot_next k a) xs c.1)

  -- On a ring of slots, with at least as much fuel as it has slots, getProcessWithPid gives the
  -- process with the pid that comes first behind the head of the queue, the head's own last, or
  -- NULL if no process has the pid.
  pub get_process_with_pid-find :
      (fuel pid : ℕ) (rest : List ℕ)
      → IsRing (slot_next k) k.process_queue rest
      → length rest < fuel
      → get_process_with_pid fuel pid k
        ≡ some (find_process k pid (search_order k.process_queue rest))
  unfolding get_process_with_pid
  get_process_with_pid-find fuel pid rest ring h =
      process_loop-find fuel pid (slot_next k k.process_queue) rest ring.links ring.once h

  thread_loop-find :
      (fuel library pthread aux : ℕ) (xs : List ℕ)
      → Chain (library_next k) aux xs library
      → has library xs ≡ false
      → length xs < fuel
      → (thread_loop fuel k library pthread aux >>= λ a.
          some (if library_pthread k a == pthread then (k.libraries a).thread else null))
        ≡ some (find_thread k pthread (search_order library xs))
  unfolding thread_loop
  thread_loop-find zero library pthread aux xs c once h = absurd (omega arith)
  thread_loop-find (suc fuel) library pthread aux [] c once h = ground arith
  thread_loop-find (suc fuel) library pthread aux (a ∷ xs) c once h =
      ground (arith, thread_loop-find fuel library pthread (library_next k a) xs c.1)

  -- On a ring of threads, with at least as much fuel as it has nodes, getThreadWithPthread gives
  -- the thread with the number that comes first behind the head of the ring, the head's own last,
  -- or NULL if no thread has the number.
  pub get_thread_with_pthread-find :
      (fuel pthread process : ℕ) (rest : List ℕ)
      → IsRing (library_next k) (k.processes process).thread_library rest
      → length rest < fuel
      → get_thread_with_pthread fuel pthread process k
        ≡ some (find_thread k pthread (search_order (k.processes process).thread_library rest))
  unfolding get_thread_with_pthread
  get_thread_with_pthread-find fuel pthread process rest ring h =
      let library = (k.processes process).thread_library in
      thread_loop-find fuel library pthread (library_next k library) rest ring.links ring.once h

pub search_order-Chain :
    (next : ℕ → ℕ) (head : ℕ) (rest : List ℕ)
    → IsRing next head rest
    → Chain next (next head) (search_order head rest) (next head)
search_order-Chain next head rest ring =
    Chain-append next (next head) rest head (head ∷ []) (next head) ring.links (refl, refl)

pub length-search_order :
    (head : ℕ) (rest : List ℕ) → length (search_order head rest) ≡ suc (length rest)
length-search_order head rest = omega (arith, length-append rest (head ∷ []))
