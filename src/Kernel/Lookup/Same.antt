-- ===== src/Kernel/Lookup/Same.antt =====
-- The searches read the links and the numbers only: two kernels that agree on those give the same
-- results.
use basic_kernel_implementat.Prelude.{
  ℕ, zero, suc, ◌≡◌, refl, ◌∙◌, ap, Option, none, some, arith, ◌==◌, if◌then◌else◌, ◌>>=◌,
}
use basic_kernel_implementat.Kernel.{Kernel, null}
use basic_kernel_implementat.Kernel.Lookup.{
  slot_pid, slot_next, library_pthread, library_next, process_loop, get_process_with_pid,
  thread_loop, get_thread_with_pthread,
}

pub record IsSame (k k' : Kernel) : Type 0 where
  pub queue : k'.process_queue ≡ k.process_queue
  pub slots : (a : ℕ) → k'.slots a ≡ k.slots a
  pub pids : (p : ℕ) → (k'.processes p).pid ≡ (k.processes p).pid
  pub rings : (p : ℕ) → (k'.processes p).thread_library ≡ (k.processes p).thread_library
  pub libraries : (a : ℕ) → k'.libraries a ≡ k.libraries a
  pub pthreads : (t : ℕ) → (k'.threads t).pthread ≡ (k.threads t).pthread

module _ {k k' : Kernel} (same : IsSame k k') where
  same_pid : (a : ℕ) → slot_pid k' a ≡ slot_pid k a
  same_pid a = ground (arith, same.slots a, same.pids (k.slots a).process)

  process_loop-IsSame :
      (fuel pid aux : ℕ) → process_loop fuel k' pid aux ≡ process_loop fuel k pid aux
  unfolding process_loop
  process_loop-IsSame zero pid aux = refl
  process_loop-IsSame (suc fuel) pid aux = ground (
    arith,
    same_pid aux,
    same.slots aux,
    same.queue,
    process_loop-IsSame fuel pid (slot_next k' aux),
  )

  pub get_process_with_pid-IsSame :
      (fuel pid : ℕ) → get_process_with_pid fuel pid k' ≡ get_process_with_pid fuel pid k
  unfolding get_process_with_pid
  get_process_with_pid-IsSame fuel pid =
      ap (λ o. o >>= λ aux. some (if slot_pid k' aux == pid then (k'.slots aux).process else null))
        loops
      ∙ finish (process_loop fuel k pid (slot_next k k.process_queue))
    where
      head : slot_next k' k'.process_queue ≡ slot_next k k.process_queue
      head = ground (arith, same.queue, same.slots k.process_queue)

      loops :
          process_loop fuel k' pid (slot_next k' k'.process_queue)
          ≡ process_loop fuel k pid (slot_next k k.process_queue)
      loops = rw head (process_loop-IsSame fuel pid (slot_next k k.process_queue))

      finish :
          (o : Option ℕ)
          → (o >>= λ aux. some (if slot_pid k' aux == pid then (k'.slots aux).process else null))
            ≡ (o >>= λ aux. some (if slot_pid k aux == pid then (k.slots aux).process else null))
      finish none = refl
      finish (some aux) = rw (same_pid aux, same.slots aux)

  same_pthread : (a : ℕ) → library_pthread k' a ≡ library_pthread k a
  same_pthread a = ground (arith, same.libraries a, same.pthreads (k.libraries a).thread)

  thread_loop-IsSame :
      (fuel library pthread aux : ℕ)
      → thread_loop fuel k' library pthread aux ≡ thread_loop fuel k library pthread aux
  unfolding thread_loop
  thread_loop-IsSame zero library pthread aux = refl
  thread_loop-IsSame (suc fuel) library pthread aux = ground (
    arith,
    same_pthread aux,
    same.libraries aux,
    thread_loop-IsSame fuel library pthread (library_next k' aux),
  )

  pub get_thread_with_pthread-IsSame :
      (fuel pthread process : ℕ)
      → get_thread_with_pthread fuel pthread process k'
        ≡ get_thread_with_pthread fuel pthread process k
  unfolding get_thread_with_pthread
  get_thread_with_pthread-IsSame fuel pthread process =
      ap
        (λ o. o >>= λ aux.
          some (if library_pthread k' aux == pthread then (k'.libraries aux).thread else null))
        loops
      ∙ finish (
          thread_loop fuel k (k.processes process).thread_library pthread
            (library_next k (k.processes process).thread_library))
    where
      head :
          library_next k' (k'.processes process).thread_library
          ≡ library_next k (k.processes process).thread_library
      head = ground (arith, same.rings process, same.libraries (k.processes process).thread_library)

      loops :
          thread_loop fuel k'
            (k'.processes process).thread_library
            pthread
            (library_next k' (k'.processes process).thread_library)
          ≡ thread_loop fuel k
              (k.processes process).thread_library
              pthread
              (library_next k (k.processes process).thread_library)
      loops =
          rw (head, same.rings process)
            (thread_loop-IsSame fuel (k.processes process).thread_library pthread
              (library_next k (k.processes process).thread_library))

      finish :
          (o : Option ℕ)
          → (o >>= λ aux.
              some (if library_pthread k' aux == pthread then (k'.libraries aux).thread else null))
            ≡ (o >>= λ aux.
                some (if library_pthread k aux == pthread then (k.libraries aux).thread else null))
      finish none = refl
      finish (some aux) = rw (same_pthread aux, same.libraries aux)
