-- ===== src/Mutex/Access.antt =====
-- Taking and giving back a mutex.
use mathlib.Core.Path.{fun_ext}
use basic_kernel_implementat.Prelude.{
  ℕ, ◌<◌, ◌≡◌, ◌≢◌, refl, ◌⊎◌, inl, inr, ◌∙◌, ap, List, ◌∷◌, false, Option, some, arith, length,
  ◌>>=◌, Option-cases, Chain, has,
}
use basic_kernel_implementat.Memory.{allocate}
use basic_kernel_implementat.Kernel.{Kernel, null, t_blocked_mutex}
use basic_kernel_implementat.Kernel.Lookup.{
  get_process_with_pid, get_thread_with_pthread, get_current_pid, get_current_pthread,
}
use basic_kernel_implementat.Kernel.Blocking.Wake.{blocked}
use basic_kernel_implementat.Registry.{Cells, set_item, set_item-set_item}
use basic_kernel_implementat.Registry.Shape.{find-same}
use basic_kernel_implementat.Waiting.{
  sizeof_blocked_thread_node, push_waiter, wake_all, wake_loop-all, IsParked, waiter_node,
  push_waiter-IsParked, push_waiter-kernel, block_after_push,
}
use basic_kernel_implementat.Mutex.{
  Mutex, Mutexes, set_mutex, mutex_locked, mutex_unlocked, find_id, has_id, is_locked,
  update_status, add_thread_to_mutex_list, wait_for_mutex, mutex_request_access, mutex_down,
  unlock_processes, mutex_up,
}

module _ (fuel id : ℕ) (s : Mutexes) {m : ℕ} (there : find_id fuel id s ≡ some m) where
  -- A mutex that is found and not locked is taken, and nothing else changes.
  pub mutex_down-takes :
      m ≢ null
      → (s.nodes m).item.status ≢ mutex_locked
      → mutex_down fuel id s
        ≡ some (set_mutex m (record ((s.nodes m).item) { status = mutex_locked }) s)
  unfolding mutex_down mutex_request_access is_locked update_status
  mutex_down-takes proper free = ground (arith, there)

  -- A mutex that is locked, or is not there, makes the thread wait.
  pub mutex_down-waits :
      (m ≡ null) ⊎ ((s.nodes m).item.status ≡ mutex_locked)
      → mutex_down fuel id s ≡ wait_for_mutex fuel m s
  unfolding mutex_down mutex_request_access is_locked
  mutex_down-waits shut = elim (Option-cases (wait_for_mutex fuel m s)) [
    | inl e ↦ ground (arith, there, e)
    | inr (s1, e) ↦ ground (arith, there, e)
  ]

  -- If the mutex is found locked, the current process and thread are found, the list of waiters ends
  -- at NULL, and allocate gives a node that is not in it: mutexDown puts the thread first in the list,
  -- which is not empty then and goes on with the earlier waiters in their order, leaves the mutex
  -- locked, and does to the thread and its process what blockThread does. No other mutex changes.
  pub mutex_down-parks :
      {p t : ℕ} (xs : List ℕ)
      → (s.nodes m).item.status ≡ mutex_locked
      → get_process_with_pid fuel (get_current_pid s.kernel) s.kernel ≡ some p
      → get_thread_with_pthread fuel (get_current_pthread s.kernel) p s.kernel ≡ some t
      → waiter_node s.kernel ≢ null
      → has (waiter_node s.kernel) xs ≡ false
      → Chain (λ a. (s.waiting a).next) (s.nodes m).item.blocked_thread_list xs null
      → has null xs ≡ false
      → (s' : Mutexes) × (mutex_down fuel id s ≡ some s')
        × ((s'.nodes m).item.status ≡ mutex_locked)
        × IsParked
            (get_current_pid s.kernel)
            (get_current_pthread s.kernel)
            (s.nodes m).item.blocked_thread_list
            xs
            s.waiting
            (s'.nodes m).item.blocked_thread_list
            s'.waiting
        × ((s'.kernel.threads t).state ≡ t_blocked_mutex)
        × (s'.kernel
            ≡ blocked t_blocked_mutex p t (record s.kernel {
              alloc = (allocate s.kernel.alloc sizeof_blocked_thread_node).1;
            }))
        × (s'
            ≡ record (set_mutex m
                (record ((s.nodes m).item) { blocked_thread_list = waiter_node s.kernel })
                s) { kernel = s'.kernel; waiting = s'.waiting })
  unfolding wait_for_mutex add_thread_to_mutex_list
  mutex_down-parks {p} {t} xs shut process thread proper fresh waiters clean =
      let k1 = record s.kernel { alloc = (allocate s.kernel.alloc sizeof_blocked_thread_node).1 } in
      let pid = get_current_pid s.kernel in
      let pthread = get_current_pthread s.kernel in
      let list = (s.nodes m).item.blocked_thread_list in
      let block = block_after_push fuel pid pthread t_blocked_mutex s.kernel process thread in
      let parked =
        push_waiter-IsParked list pid pthread xs s.waiting s.kernel proper fresh waiters clean in
      let s1 = add_thread_to_mutex_list m pid pthread s in
      let kernel : s1.kernel ≡ k1 = push_waiter-kernel list pid pthread s.waiting s.kernel in
      let at : (s1.nodes m).item.blocked_thread_list
          ≡ (push_waiter list pid pthread s.waiting s.kernel).0 =
        ground arith in
      (
        record s1 { kernel = blocked t_blocked_mutex p t k1 },
        mutex_down-waits (inr shut) ∙ rw (wait_for_mutex, kernel, block),
        ground arith,
        rw at parked,
        ground arith,
        refl,
        unfold push_waiter in refl,
      )

  unlock_processes-wakes :
      (xs : List ℕ)
      → Chain (λ a. (s.waiting a).next) (s.nodes m).item.blocked_thread_list xs null
      → has null xs ≡ false
      → length xs < fuel
      → unlock_processes fuel id s ≡ (
          wake_all fuel s.waiting xs s.kernel >>= λ k. some (
            set_mutex m
              (record ((s.nodes m).item) { blocked_thread_list = null })
              (record s { kernel = k })))
  unfolding unlock_processes
  unlock_processes-wakes xs waiters clean h = rw (
    there,
    wake_loop-all fuel fuel s.waiting (s.nodes m).item.blocked_thread_list xs s.kernel waiters clean
        h,
  )

  -- The search for the mutex gives the same node after a write to a node that keeps its number.
  find_id-set_mutex :
      (x : Mutex) (k : Kernel) (n a : ℕ)
      → x.id ≡ (s.nodes n).item.id
      → find_id fuel a (set_mutex n x (record s { kernel = k })) ≡ find_id fuel a s
  unfolding find_id
  find_id-set_mutex x k n a same =
      find-same (has_id a) fuel s.list s.nodes (set_item n x s.nodes) (λ b. ground arith)
        (λ b. ground (arith, same))

  update_status-there :
      (status : ℕ)
      → m ≢ null
      → update_status fuel id status s
        ≡ some (set_mutex m (record ((s.nodes m).item) { status = status }) s)
  unfolding update_status
  update_status-there status proper = ground (arith, there)

module _ (fuel id : ℕ) (s : Mutexes) {m : ℕ} (there : find_id fuel id s ≡ some m) where
  -- The mutexes when the waiters are woken: the status is written already.
  abbrev opened : Mutexes
  opened = set_mutex m (record ((s.nodes m).item) { status = mutex_unlocked }) s

  opened-item : (opened.nodes m).item ≡ record ((s.nodes m).item) { status = mutex_unlocked }
  opened-item = ground arith

  closed_list :
      (k : Kernel)
      → set_mutex m
          (record ((opened.nodes m).item) { blocked_thread_list = null })
          (record opened { kernel = k })
        ≡ set_mutex m
            (record ((s.nodes m).item) { status = mutex_unlocked; blocked_thread_list = null })
            (record s { kernel = k })
  closed_list k =
      ap
        (λ (x : Mutex).
          set_mutex m (record x { blocked_thread_list = null }) (record opened { kernel = k }))
        opened-item
      ∙ ap (λ (n : Cells Mutex). record s { kernel = k; nodes = n })
          (set_item-set_item m (record ((s.nodes m).item) { status = mutex_unlocked })
            (record ((s.nodes m).item) { status = mutex_unlocked; blocked_thread_list = null })
            s.nodes)

  -- If the mutex is found and its list of waiters ends at NULL: mutexUp wakes the waiters in the
  -- order of the list and frees their nodes, and leaves the list empty and the mutex unlocked.
  pub mutex_up-wakes :
      (xs : List ℕ)
      → m ≢ null
      → Chain (λ a. (s.waiting a).next) (s.nodes m).item.blocked_thread_list xs null
      → has null xs ≡ false
      → length xs < fuel
      → mutex_up fuel id s ≡ (
          wake_all fuel s.waiting xs s.kernel >>= λ k. some (
            set_mutex m
              (record ((s.nodes m).item) { status = mutex_unlocked; blocked_thread_list = null })
              (record s { kernel = k })))
  unfolding mutex_up
  mutex_up-wakes xs proper waiters clean h =
      let still =
        find_id-set_mutex fuel id s there (record ((s.nodes m).item) { status = mutex_unlocked })
          s.kernel m id refl
        ∙ there in
      let start : Chain (λ a. (s.waiting a).next) (opened.nodes m).item.blocked_thread_list xs
          null =
        rw opened-item waiters in
      rw (update_status-there fuel id s there mutex_unlocked proper) (
        unlock_processes-wakes fuel id opened still xs start clean h
        ∙ ap (λ (f : Kernel → Mutexes). wake_all fuel s.waiting xs s.kernel >>= λ k. some (f k))
            (fun_ext closed_list))

  -- If the mutex is found, its list of waiters ends at NULL and is not empty, and they can all be
  -- woken: after mutexUp the next mutexDown takes the mutex without waiting, although the threads
  -- that waited are awake and go on behind their own mutexDown.
  pub mutex_up-barging :
      (a : ℕ) (xs : List ℕ) (k : Kernel)
      → m ≢ null
      → Chain (λ a. (s.waiting a).next) (s.nodes m).item.blocked_thread_list (a ∷ xs) null
      → has null (a ∷ xs) ≡ false
      → length (a ∷ xs) < fuel
      → wake_all fuel s.waiting (a ∷ xs) s.kernel ≡ some k
      → (s' s'' : Mutexes) × (mutex_up fuel id s ≡ some s')
        × (mutex_down fuel id s' ≡ some s'')
        × (s'.kernel ≡ k)
        × (s''.kernel ≡ k)
        × ((s''.nodes m).item.status ≡ mutex_locked)
  mutex_up-barging a xs k proper waiters clean h woken =
      let x = record ((s.nodes m).item) { status = mutex_unlocked; blocked_thread_list = null } in
      let s' = set_mutex m x (record s { kernel = k }) in
      let still = find_id-set_mutex fuel id s there x k m id refl ∙ there in
      let done = mutex_up-wakes (a ∷ xs) proper waiters clean h in
      (
        s',
        set_mutex m (record ((s'.nodes m).item) { status = mutex_locked }) s',
        done
            ∙ ap (λ (o : Option Kernel). o >>= λ k. some (set_mutex m x (record s { kernel = k })))
                woken,
        mutex_down-takes fuel id s' still proper (ground arith),
        refl,
        refl,
        ground arith,
      )
