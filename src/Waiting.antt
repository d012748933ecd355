-- ===== src/Waiting.antt =====
-- The lists of blocked threads that mutex.c and semaphores.c keep in the same way, and the loop of
-- unlockProcesses and unlockSemaphoreProcess that wakes them.
use mathlib.Core.Path.{fun_ext}
use basic_kernel_implementat.Prelude.{
  ◌≡◌, ◌≢◌, refl, ◌∙◌, Chain-frame, ◌<◌, false, List, [], ◌∷◌, arith, length, Chain, has, ℕ, zero,
  suc, Option, none, some, ◌==◌, if◌then◌else◌, ◌>>=◌, update,
}
use basic_kernel_implementat.Kernel.{Kernel, ThreadState, null, t_blocked_mutex}
use basic_kernel_implementat.Memory.{allocate}
use basic_kernel_implementat.Kernel.Threads.{kernel_allocate, kernel_deallocate}
use basic_kernel_implementat.Kernel.Blocking.{block_thread, unblock_thread}
use basic_kernel_implementat.Kernel.Lookup.{get_process_with_pid, get_thread_with_pthread}
use basic_kernel_implementat.Kernel.Lookup.Same.{
  IsSame, get_process_with_pid-IsSame, get_thread_with_pthread-IsSame,
}
use basic_kernel_implementat.Kernel.Blocking.Wake.{blocked, block_thread_lem}

pub record BlockedThreadNode : Type 0 where
  pub pid : ℕ
  pub pthread : ℕ
  pub next : ℕ

abbrev pub sizeof_blocked_thread_node : ℕ
sizeof_blocked_thread_node = 16

abbrev pub Waiting : Type 0
Waiting = ℕ → BlockedThreadNode

-- The new node before the list that begins at `list`.
unfoldable pub push_waiter : (list pid pthread : ℕ) → Waiting → Kernel → ℕ × Waiting × Kernel
push_waiter list pid pthread w k =
    let (node, k1) = kernel_allocate sizeof_blocked_thread_node k in
    (node, update w node (record { pid = pid; pthread = pthread; next = list }), k1)

-- The loop with `left` rounds of fuel; `fuel` is for the searches of `unblockThread`.
unfoldable pub wake_loop : (fuel left : ℕ) → Waiting → (list : ℕ) → Kernel → Option Kernel
wake_loop fuel zero w list k = none
wake_loop fuel (suc left) w list k =
    let aux = (w list).next in
    let rest = unblock_thread fuel (w list).pid (w list).pthread t_blocked_mutex k >>= (λ k1.
      kernel_deallocate list sizeof_blocked_thread_node k1
      >>= (λ k2. wake_loop fuel left w aux k2)) in
    if list == null then some k else rest

-- Waking the waiters of a list, in order, each of whose nodes is then freed.
abbrev pub wake_all : ℕ → Waiting → List ℕ → Kernel → Option Kernel
wake_all fuel w [] k = some k
wake_all fuel w (a ∷ xs) k =
    unblock_thread fuel (w a).pid (w a).pthread t_blocked_mutex k
    >>= (λ k1. kernel_deallocate a sizeof_blocked_thread_node k1 >>= (λ k2. wake_all fuel w xs k2))

pub wake_loop-all :
    (fuel left : ℕ) (w : Waiting) (list : ℕ) (xs : List ℕ) (k : Kernel)
    → Chain (λ a. (w a).next) list xs null
    → has null xs ≡ false
    → length xs < left
    → wake_loop fuel left w list k ≡ wake_all fuel w xs k
unfolding wake_loop
wake_loop-all fuel zero w list xs k c proper h = absurd (omega arith)
wake_loop-all fuel (suc left) w list [] k c proper h = rw c
wake_loop-all fuel (suc left) w list (a ∷ xs) k c proper h =
    let more = fun_ext λ (k2 : Kernel).
      wake_loop-all fuel left w (w a).next xs k2 c.1 (ground arith) (omega arith) in
    rw (c.0, more) (ground arith)

-- What push_waiter makes of the list `xs` that begins at `list`: a new node comes first, with the
-- thread in it, the earlier waiters follow it, and their nodes stay as they are.
pub record IsParked (pid pthread list : ℕ) (xs : List ℕ) (w : Waiting) (list' : ℕ) (w' : Waiting)
    : Type 0 where
  pub proper : list' ≢ null
  pub first : w' list' ≡ record { pid = pid; pthread = pthread; next = list }
  pub walk : Chain (λ a. (w' a).next) list' (list' ∷ xs) null
  pub ends : has null (list' ∷ xs) ≡ false
  pub others : (a : ℕ) → a ≢ list' → w' a ≡ w a

-- The node that the next waiter gets.
abbrev pub waiter_node : Kernel → ℕ
waiter_node k = (allocate k.alloc sizeof_blocked_thread_node).0

pub push_waiter-IsParked :
    (list pid pthread : ℕ) (xs : List ℕ) (w : Waiting) (k : Kernel)
    → waiter_node k ≢ null
    → has (waiter_node k) xs ≡ false
    → Chain (λ a. (w a).next) list xs null
    → has null xs ≡ false
    → let (node, w', k1) = push_waiter list pid pthread w k in
      IsParked pid pthread list xs w node w'
unfolding push_waiter
push_waiter-IsParked list pid pthread xs w k proper fresh waiters clean =
    let node = waiter_node k in
    let x : BlockedThreadNode = record { pid = pid; pthread = pthread; next = list } in
    let next : (update w node x node).next ≡ list = ground arith in
    record {
      proper = proper;
      first = ground arith;
      walk = (
        refl,
        rw next (
            Chain-frame (λ a. (w a).next) (λ a. (update w node x a).next) list xs null
              (λ a within. ground (arith, within, fresh)) waiters),
      );
      ends = ground (arith, proper, clean);
      others = λ a ne. ground arith;
    }

-- The kernel when the node of a waiter is taken.
abbrev pub with_node : Kernel → Kernel
with_node k = record k { alloc = (allocate k.alloc sizeof_blocked_thread_node).1 }

pub push_waiter-kernel :
    (list pid pthread : ℕ) (w : Waiting) (k : Kernel)
    → (push_waiter list pid pthread w k).2 ≡ with_node k
unfolding push_waiter
push_waiter-kernel list pid pthread w k = refl

-- blockThread, with a node taken before it.
pub block_after_push :
    (fuel pid pthread : ℕ) (block_type : ThreadState) (k : Kernel) {p t : ℕ}
    → get_process_with_pid fuel pid k ≡ some p
    → get_thread_with_pthread fuel pthread p k ≡ some t
    → block_thread fuel pid pthread block_type (with_node k)
      ≡ some (blocked block_type p t (with_node k))
block_after_push fuel pid pthread block_type k {p} process thread =
    let same : IsSame k (with_node k) = record {
      queue = refl;
      slots = λ a. refl;
      pids = λ q. refl;
      rings = λ q. refl;
      libraries = λ a. refl;
      pthreads = λ u. refl;
    } in
    block_thread_lem fuel pid pthread block_type (with_node k)
      (get_process_with_pid-IsSame same fuel pid ∙ process)
      (get_thread_with_pthread-IsSame same fuel pthread p ∙ thread)
