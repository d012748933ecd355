-- ===== src/Semaphores/Count.antt =====
-- The count of a semaphore, and whom semaphoreUp wakes.
use basic_kernel_implementat.Prelude.{
  ℕ, suc, ◌<◌, ◌≡◌, ◌≢◌, refl, ap, inl, inr, ◌∙◌, List, false, true, some, arith, length,
  if◌then◌else◌, ◌>>=◌, Option-cases, Chain, has,
}
use basic_kernel_implementat.Prelude.Int.{ℤ, pos, negsuc, ◌+ℤ◌, ltb_ℤ}
use basic_kernel_implementat.Kernel.{null, increment, decrement, t_blocked_mutex}
use basic_kernel_implementat.Kernel.Lookup.{
  get_process_with_pid, get_thread_with_pthread, get_current_pid, get_current_pthread,
}
use basic_kernel_implementat.Kernel.Blocking.Wake.{blocked}
use basic_kernel_implementat.Registry.{Cells, set_item, set_item-set_item}
use basic_kernel_implementat.Registry.Shape.{find-same}
use basic_kernel_implementat.Waiting.{
  wake_all, wake_loop-all, push_waiter, IsParked, waiter_node, with_node, push_waiter-IsParked,
  push_waiter-kernel, block_after_push,
}
use basic_kernel_implementat.Semaphores.{
  Semaphore, Semaphores, set_semaphore, find_semaphore_id, has_id, is_semaphore_locked,
  update_semaphore_status, wait_for_semaphore, add_thread_to_semaphore_list,
  semaphore_request_access, semaphore_down, unlock_semaphore_process, semaphore_up,
}

module _ (fuel id : ℕ) (s : Semaphores) {m : ℕ} (there : find_semaphore_id fuel id s ≡ some m) where
  find_semaphore_id-set_semaphore :
      (x : Semaphore)
      → x.id ≡ (s.nodes m).item.id
      → find_semaphore_id fuel id (set_semaphore m x s) ≡ some m
  unfolding find_semaphore_id
  find_semaphore_id-set_semaphore x same =
      find-same (has_id id) fuel s.list s.nodes (set_item m x s.nodes) (λ b. ground arith)
        (λ b. ground (arith, same))
      ∙ there

  -- The semaphores with another count at `m`.
  abbrev pub counted : ℤ → Semaphores
  counted n = set_semaphore m (record ((s.nodes m).item) { status = n }) s

  counted-status : (n : ℤ) → ((counted n).nodes m).item.status ≡ n
  counted-status n = ground arith

  abbrev pub count : ℤ
  count = (s.nodes m).item.status

  counted-there : (n : ℤ) → find_semaphore_id fuel id (counted n) ≡ some m
  counted-there n = find_semaphore_id-set_semaphore (record ((s.nodes m).item) { status = n }) refl

  semaphore_down_lem :
      m ≢ null
      → semaphore_down fuel id s ≡ (
          if ltb_ℤ (decrement count) (pos 0)
          then wait_for_semaphore fuel m (counted (decrement count))
          else some (counted (decrement count)))
  unfolding semaphore_down update_semaphore_status semaphore_request_access is_semaphore_locked
  semaphore_down_lem proper =
      elim (Option-cases (wait_for_semaphore fuel m (counted (decrement count)))) [
        | inl e ↦
            ground
              (arith, there, counted-there (decrement count), counted-status (decrement count), e)
        | inr (s1, e) ↦
            ground
              (arith, there, counted-there (decrement count), counted-status (decrement count), e)
      ]

  -- If the count is positive, semaphoreDown takes one from it, and nothing else changes.
  pub semaphore_down-passes :
      m ≢ null
      → ltb_ℤ (decrement count) (pos 0) ≡ false
      → semaphore_down fuel id s ≡ some (counted (decrement count))
  semaphore_down-passes proper enough = semaphore_down_lem proper ∙ rw enough refl

  -- The semaphores when the thread is in the list, and its count is taken.
  abbrev parking : Semaphores
  parking =
      add_thread_to_semaphore_list m (get_current_pid s.kernel) (get_current_pthread s.kernel)
        (counted (decrement count))

  wait_for_semaphore-blocks :
      {p t : ℕ}
      → get_process_with_pid fuel (get_current_pid s.kernel) s.kernel ≡ some p
      → get_thread_with_pthread fuel (get_current_pthread s.kernel) p s.kernel ≡ some t
      → wait_for_semaphore fuel m (counted (decrement count))
        ≡ some (record parking { kernel = blocked t_blocked_mutex p t (with_node s.kernel) })
  unfolding wait_for_semaphore add_thread_to_semaphore_list
  wait_for_semaphore-blocks process thread =
      let pid = get_current_pid s.kernel in
      let pthread = get_current_pthread s.kernel in
      let list = ((counted (decrement count)).nodes m).item.blocked_thread_list in
      rw
        (
          push_waiter-kernel list pid pthread s.waiting s.kernel,
          block_after_push fuel pid pthread t_blocked_mutex s.kernel process thread,
        )
        refl

  counted_item :
      ((counted (decrement count)).nodes m).item
      ≡ record ((s.nodes m).item) { status = decrement count }
  counted_item = ground arith

  parked_nodes :
      (node : ℕ)
      → set_item m
          (record (((counted (decrement count)).nodes m).item) { blocked_thread_list = node })
          (counted (decrement count)).nodes
        ≡ set_item m
            (record ((s.nodes m).item) { status = decrement count; blocked_thread_list = node })
            s.nodes
  parked_nodes node =
      let stored = λ (x : Semaphore).
        set_item m (record x { blocked_thread_list = node }) (counted (decrement count)).nodes in
      ap stored counted_item
      ∙ set_item-set_item m (record ((s.nodes m).item) { status = decrement count })
          (record ((s.nodes m).item) { status = decrement count; blocked_thread_list = node })
          s.nodes

  -- If the semaphore is found and its count is not positive, the current process and thread are
  -- found, the list of waiters ends at NULL, and allocate gives a node that is not in it:
  -- semaphoreDown takes one from the count, puts the thread first in the list, which is not empty
  -- then and goes on with the earlier waiters in their order, and does to the thread and its process
  -- what blockThread does. No other semaphore changes.
  pub semaphore_down-parks :
      {p t : ℕ} (xs : List ℕ)
      → m ≢ null
      → ltb_ℤ (decrement count) (pos 0) ≡ true
      → get_process_with_pid fuel (get_current_pid s.kernel) s.kernel ≡ some p
      → get_thread_with_pthread fuel (get_current_pthread s.kernel) p s.kernel ≡ some t
      → waiter_node s.kernel ≢ null
      → has (waiter_node s.kernel) xs ≡ false
      → Chain (λ a. (s.waiting a).next) (s.nodes m).item.blocked_thread_list xs null
      → has null xs ≡ false
      → (s' : Semaphores) × (semaphore_down fuel id s ≡ some s')
        × ((s'.nodes m).item.status ≡ decrement (s.nodes m).item.status)
        × IsParked
            (get_current_pid s.kernel)
            (get_current_pthread s.kernel)
            (s.nodes m).item.blocked_thread_list
            xs
            s.waiting
            (s'.nodes m).item.blocked_thread_list
            s'.waiting
        × ((s'.kernel.threads t).state ≡ t_blocked_mutex)
        × (s'.kernel ≡ blocked t_blocked_mutex p t (with_node s.kernel))
        × (s'
            ≡ record (set_semaphore m
                (record ((s.nodes m).item) {
                  status = decrement (s.nodes m).item.status;
                  blocked_thread_list = waiter_node s.kernel;
                })
                s) { kernel = s'.kernel; waiting = s'.waiting })
  unfolding add_thread_to_semaphore_list
  semaphore_down-parks {p} {t} xs proper owed process thread some_node fresh waiters clean =
      let pid = get_current_pid s.kernel in
      let pthread = get_current_pthread s.kernel in
      let list = (s.nodes m).item.blocked_thread_list in
      let same : ((counted (decrement count)).nodes m).item.blocked_thread_list ≡ list =
        ground arith in
      let parked =
        push_waiter-IsParked list pid pthread xs s.waiting s.kernel some_node fresh waiters clean in
      let at : (parking.nodes m).item.blocked_thread_list
          ≡ (push_waiter list pid pthread s.waiting s.kernel).0 =
        rw same (ground arith) in
      let nodes : parking.waiting ≡ (push_waiter list pid pthread s.waiting s.kernel).1 =
        rw same refl in
      (
        record parking { kernel = blocked t_blocked_mutex p t (with_node s.kernel) },
        semaphore_down_lem proper ∙ rw owed (wait_for_semaphore-blocks process thread),
        ground arith,
        rw (at, nodes) parked,
        ground arith,
        refl,
        unfold push_waiter in
            ap
              (λ (n : Cells Semaphore). record s {
                kernel = blocked t_blocked_mutex p t (with_node s.kernel);
                nodes = n;
                waiting = parking.waiting;
              })
              (parked_nodes (waiter_node s.kernel)),
      )

  -- semaphoreUp gives one to the count, and wakes nobody while the count stays negative.
  pub semaphore_up_lem :
      m ≢ null
      → semaphore_up fuel id s ≡ (
          if ltb_ℤ (increment count) (pos 0)
          then some (counted (increment count))
          else unlock_semaphore_process fuel id (counted (increment count)))
  unfolding semaphore_up update_semaphore_status is_semaphore_locked
  semaphore_up_lem proper =
      ground (arith, there, counted-there (increment count), counted-status (increment count))

  -- On a semaphore that is found with the count -(n + 2), semaphoreUp wakes nobody: only the count
  -- changes, to -(n + 1).
  pub semaphore_up-nobody :
      (n : ℕ)
      → m ≢ null
      → count ≡ negsuc (suc n)
      → semaphore_up fuel id s ≡ some (counted (negsuc n))
  unfolding ◌+ℤ◌
  semaphore_up-nobody n proper owed =
      let next : increment count ≡ negsuc n = ground arith in
      semaphore_up_lem proper ∙ rw next (ground arith)

  unlock_semaphore_process-wakes :
      (xs : List ℕ)
      → Chain (λ a. (s.waiting a).next) (s.nodes m).item.blocked_thread_list xs null
      → has null xs ≡ false
      → length xs < fuel
      → unlock_semaphore_process fuel id s ≡ (
          wake_all fuel s.waiting xs s.kernel >>= λ k. some (
            set_semaphore m
              (record ((s.nodes m).item) { blocked_thread_list = null })
              (record s { kernel = k })))
  unfolding unlock_semaphore_process
  unlock_semaphore_process-wakes xs waiters clean h = rw (
    there,
    wake_loop-all fuel fuel s.waiting (s.nodes m).item.blocked_thread_list xs s.kernel waiters clean
        h,
  )

-- On a semaphore that is found and whose list of waiters ends at NULL, the semaphoreUp that brings
-- the count to 0 or above wakes every waiter in the order of the list, and leaves the list empty.
pub semaphore_up-everybody :
    (fuel id : ℕ) (s : Semaphores) {m : ℕ}
    → find_semaphore_id fuel id s ≡ some m
    → (xs : List ℕ) → m ≢ null
    → ltb_ℤ (increment (s.nodes m).item.status) (pos 0) ≡ false
    → Chain (λ a. (s.waiting a).next) (s.nodes m).item.blocked_thread_list xs null
    → has null xs ≡ false
    → length xs < fuel
    → let s1 =
        set_semaphore m
          (record ((s.nodes m).item) { status = increment (s.nodes m).item.status })
          s in
      semaphore_up fuel id s ≡ (
        wake_all fuel s.waiting xs s.kernel >>= λ k. some (
          set_semaphore m
            (record ((s1.nodes m).item) { blocked_thread_list = null })
            (record s1 { kernel = k })))
semaphore_up-everybody fuel id s {m} there xs proper enough waiters clean h =
    let n = increment (s.nodes m).item.status in
    let s1 = set_semaphore m (record ((s.nodes m).item) { status = n }) s in
    let start : Chain (λ a. (s.waiting a).next) (s1.nodes m).item.blocked_thread_list xs null =
      let same : (s1.nodes m).item.blocked_thread_list ≡ (s.nodes m).item.blocked_thread_list =
        ground arith in
      rw same waiters in
    semaphore_up_lem fuel id s there proper
    ∙ rw enough (
        unlock_semaphore_process-wakes fuel id s1 (counted-there fuel id s there n) xs start clean
          h)
