-- ===== src/Kernel/Blocking/All.antt =====
-- Whom unblockAllThreads of Kernel/scheduler.c wakes.
use mathlib.Core.Path.{subst}
use basic_kernel_implementat.Prelude.{
  ℕ, zero, suc, ◌≡◌, ◌≢◌, refl, ap, ◌∙◌, true, false, List, [], ◌∷◌, some, ◌==◌, arith, Bool-cases,
  All, inl, inr, has,
}
use basic_kernel_implementat.Prelude.Int.{pos_part}
use basic_kernel_implementat.Kernel.{
  Kernel, ThreadLibrary, ThreadNode, ProcessState, t_ready, t_blocked_io, set_thread_state,
}
use basic_kernel_implementat.Kernel.Lookup.{
  get_process_with_pid, same_thread_state, get_block_process_type,
}
use basic_kernel_implementat.Kernel.Lookup.Same.{IsSame, get_process_with_pid-IsSame}
use basic_kernel_implementat.Kernel.Blocking.{
  unblock, unblock_process, unblock_all_loop, unblock_all_threads,
}

-- The first `left` threads of the list that begins at `library`.
abbrev pub threads_from : (ℕ → ThreadLibrary) → (left library : ℕ) → List ℕ
threads_from libraries zero library = []
threads_from libraries (suc left) library =
    (libraries library).thread ∷ threads_from libraries left (libraries library).next

-- The threads of a process.
abbrev pub threads_of : Kernel → (process : ℕ) → List ℕ
threads_of k process =
    let p = k.processes process in
    threads_from k.libraries (pos_part p.thread_size) p.thread_library

-- A thread that waits for input.
abbrev pub Waits : Kernel → ℕ → Type 0
Waits k t = same_thread_state (k.threads t).state t_blocked_io ≡ true

-- `k'` is `k` with those threads of `ts` woken that waited for input.
pub record IsWoken (k k' : Kernel) (ts : List ℕ) : Type 0 where
  pub awake : All (λ t. same_thread_state (k'.threads t).state t_blocked_io ≡ false) ts
  pub woken :
      (t : ℕ)
      → has t ts ≡ true
      → Waits k t
      → k'.threads t ≡ record (k.threads t) { state = t_ready }
  pub kept :
      (t : ℕ)
      → same_thread_state (k.threads t).state t_blocked_io ≡ false
      → k'.threads t ≡ k.threads t
  pub elsewhere : (t : ℕ) → has t ts ≡ false → k'.threads t ≡ k.threads t

-- What waking the process keeps.
record IsKept (k k' : Kernel) : Type 0 where
  threads : k'.threads ≡ k.threads
  libraries : k'.libraries ≡ k.libraries
  same : IsSame k k'

unblock-IsKept :
    (block_type : ProcessState) (process : ℕ) (k : Kernel) → IsKept k (unblock block_type process k)
unblock-IsKept block_type process k = record {
  threads = ground arith;
  libraries = ground arith;
  same = record {
    queue = ground arith;
    slots = λ a. ground arith;
    pids = λ p. ground arith;
    rings = λ p. ground arith;
    libraries = λ a. ground arith;
    pthreads = λ t. ground arith;
  };
}

set_thread_state-IsSame : (t : ℕ) (k : Kernel) → IsSame k (set_thread_state t_ready t k)
set_thread_state-IsSame t k = record {
  queue = refl;
  slots = λ a. refl;
  pids = λ p. refl;
  rings = λ p. refl;
  libraries = λ a. refl;
  pthreads = λ u. ground arith;
}

-- A waiting thread is made ready, and then those of `ts` are woken.
IsWoken-ready :
    (t : ℕ) (ts : List ℕ) (k k1 k' : Kernel)
    → Waits k t
    → k1.threads ≡ (set_thread_state t_ready t k).threads
    → IsWoken k1 k' ts
    → IsWoken k k' (t ∷ ts)
IsWoken-ready t ts k k1 k' waits stored r =
    let here : k1.threads t ≡ record (k.threads t) { state = t_ready } = rw stored (ground arith) in
    let there : (u : ℕ) → u ≢ t → k1.threads u ≡ k.threads u = λ u ne. rw stored (ground arith) in
    let still : k'.threads t ≡ record (k.threads t) { state = t_ready } =
      r.kept t (rw here refl) ∙ here in
    record {
      awake = (rw still refl, r.awake);
      woken = λ u within w. elim (Bool-cases (t == u)) [
        | inl own ↦ let e : u ≡ t = ground arith in rw e still
        | inr other ↦
            let ne : u ≢ t = ground arith in
            r.woken u (ground arith) (rw (there u ne) w)
            ∙ ap (λ (n : ThreadNode). record n { state = t_ready }) (there u ne)
      ];
      kept = λ u sated. elim (Bool-cases (t == u)) [
        | inl own ↦ let e : u ≡ t = ground arith in absurd (ground (arith, waits, rw e at sated))
        | inr other ↦ let ne : u ≢ t = ground arith in r.kept u (rw (there u ne) sated) ∙ there u ne
      ];
      elsewhere =
          λ u without. let ne : u ≢ t = ground arith in r.elsewhere u (ground arith) ∙ there u ne;
    }

-- A thread that does not wait stays as it is.
IsWoken-sated :
    (t : ℕ) (ts : List ℕ) (k k' : Kernel)
    → same_thread_state (k.threads t).state t_blocked_io ≡ false
    → IsWoken k k' ts
    → IsWoken k k' (t ∷ ts)
IsWoken-sated t ts k k' sated r = record {
  awake = (rw (r.kept t sated) sated, r.awake);
  woken = λ u within w. elim (Bool-cases (t == u)) [
    | inl own ↦ let e : u ≡ t = ground arith in absurd (ground (arith, sated, rw e at w))
    | inr other ↦ r.woken u (ground arith) w
  ];
  kept = r.kept;
  elsewhere = λ u without. r.elsewhere u (ground arith);
}

unblock_all_loop-IsWoken :
    (fuel pid process left library : ℕ) (k : Kernel)
    → get_process_with_pid fuel pid k ≡ some process
    → (k' : Kernel) × (unblock_all_loop fuel pid t_blocked_io left library k ≡ some k')
      × IsWoken k k' (threads_from k.libraries left library)
unfolding unblock_all_loop unblock_process
unblock_all_loop-IsWoken fuel pid process zero library k found = (
  k,
  refl,
  record {
    awake = tt;
    woken = λ u within w. absurd (ground arith);
    kept = λ u sated. refl;
    elsewhere = λ u without. refl;
  },
)
unblock_all_loop-IsWoken fuel pid process (suc left) library k found =
    let t = (k.libraries library).thread in
    elim (Bool-cases (same_thread_state (k.threads t).state t_blocked_io)) [
      | inl waits ↦
          let k0 = set_thread_state t_ready t k in
          let found0 = get_process_with_pid-IsSame (set_thread_state-IsSame t k) fuel pid ∙ found in
          let block_type = get_block_process_type t_blocked_io in
          let k1 = unblock block_type process k0 in
          let kept = unblock-IsKept block_type process k0 in
          let found1 = get_process_with_pid-IsSame (kept.same) fuel pid ∙ found0 in
          let (k', done, r) =
            unblock_all_loop-IsWoken fuel pid process left (k1.libraries library).next k1 found1 in
          let same_threads : threads_from k1.libraries left (k1.libraries library).next
              ≡ threads_from k.libraries left (k.libraries library).next =
            ap (λ (l : ℕ → ThreadLibrary). threads_from l left (l library).next) kept.libraries in
          (
            k',
            rw (waits, found0) done,
            IsWoken-ready t (threads_from k.libraries left (k.libraries library).next) k k1 k' waits
                kept.threads (subst (IsWoken k1 k') same_threads r),
          )
      | inr sated ↦
          let (k', done, r) =
            unblock_all_loop-IsWoken fuel pid process left (k.libraries library).next k found in
          (
            k',
            rw sated done,
            IsWoken-sated t (threads_from k.libraries left (k.libraries library).next) k k' sated r,
          )
    ]

-- If the process is found, unblockAllThreads ends and makes its threads ready that wait for input;
-- every other thread stays as it is.
pub unblock_all_threads-IsWoken :
    (fuel pid process : ℕ) (k : Kernel)
    → get_process_with_pid fuel pid k ≡ some process
    → (k' : Kernel) × (unblock_all_threads fuel pid t_blocked_io k ≡ some k')
      × IsWoken k k' (threads_of k process)
unfolding unblock_all_threads
unblock_all_threads-IsWoken fuel pid process k found =
    let p = k.processes process in
    let (k', done, r) =
      unblock_all_loop-IsWoken fuel pid process (pos_part p.thread_size) p.thread_library k found in
    (k', rw found done, r)
