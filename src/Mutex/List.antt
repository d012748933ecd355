-- ===== src/Mutex/List.antt =====
-- The list of mutexes: what createMutex and mutexDestroy make of it.
use mathlib.Core.Path.{subst}
use basic_kernel_implementat.Prelude.{
  ℕ, suc, ◌+◌, ◌%◌, ◌^◌, ◌<◌, ◌≡◌, ◌≢◌, refl, ◌∙◌, sym, ap, List, [], ◌∷◌, ◌++◌, true, false, none,
  some, arith, length, Chain, Chain-frame, Chain-closed, All, All-has, All-map, All-snoc,
  All-tabulate, length-append, has, has-append, Distinct-snoc, not-has_of_All,
}
use basic_kernel_implementat.Prelude.Int.{pos}
use basic_kernel_implementat.Memory.{allocate}
use basic_kernel_implementat.Memory.Blocks.{IsArena, blocks_of}
use basic_kernel_implementat.Memory.Owned.{
  Owned, IsArena-allocate, Owned-allocate, Owned-allocate_self,
}
use basic_kernel_implementat.Kernel.{null}
use basic_kernel_implementat.Registry
use basic_kernel_implementat.Registry.{Node, Cells, set_item}
use basic_kernel_implementat.Registry.Shape.{
  link, IsList, IsAdded, add-IsAdded, first, find-first, find-endless, first-snoc,
}
use basic_kernel_implementat.Mutex.{
  Mutex, Mutexes, sizeof_mutex_node, mutex_unlocked, create_mutex, find_id, has_id, is_locked,
}

-- The mutexes at `xs`, in use, each with a number below the next one to be given.
pub record IsMutexList (s : Mutexes) (xs : List ℕ) : Type 0 where
  pub arena : IsArena s.kernel.alloc
  pub list : IsList s.nodes s.list xs
  pub owned : All (Owned s.kernel.alloc) xs
  pub ids : All (λ a. (s.nodes a).item.id < s.counter) xs

-- The node that createMutex allocates.
abbrev pub new_mutex : Mutexes → ℕ
new_mutex s = (allocate s.kernel.alloc sizeof_mutex_node).0

node_pages : blocks_of sizeof_mutex_node ≡ pos 1
node_pages = refl

-- `s'` is `s` with the new mutex behind the others. The list goes on to wherever the link that the
-- new node's memory held leads.
pub record IsCreated (s : Mutexes) (xs : List ℕ) (s' : Mutexes) : Type 0 where
  pub links : Chain (link s'.nodes) s'.list (xs ++ (new_mutex s ∷ [])) (link s.nodes (new_mutex s))
  pub id : (s'.nodes (new_mutex s)).item.id ≡ s.counter
  pub status : (s'.nodes (new_mutex s)).item.status ≡ mutex_unlocked
  pub others : (a : ℕ) → a ≢ new_mutex s → (s'.nodes a).item ≡ (s.nodes a).item
  pub alloc : s'.kernel.alloc ≡ (allocate s.kernel.alloc sizeof_mutex_node).1
  pub counter : s'.counter ≡ (s.counter + 1) % 2 ^ 32

module _ (s : Mutexes) (xs : List ℕ) (l : IsMutexList s xs) (found : new_mutex s ≢ null) where
  new_mutex-fresh : has (new_mutex s) xs ≡ false
  new_mutex-fresh = not-has_of_All xs (new_mutex s) (
      All-map (Owned s.kernel.alloc) (λ x. x ≢ new_mutex s) xs
        (λ x o. (Owned-allocate s.kernel.alloc sizeof_mutex_node 0 l.arena node_pages found x o).1)
        l.owned)

  -- The memory of the nodes when the new one is linked in.
  abbrev written : Cells Mutex
  written =
      set_item (new_mutex s)
        (record ((s.nodes (new_mutex s)).item) { id = s.counter; status = mutex_unlocked }) s.nodes

  written-IsList : IsList written s.list xs
  written-IsList = record {
    links =
        Chain-frame (link s.nodes) (link written) s.list xs null (λ a _. ground arith) l.list.links;
    proper = l.list.proper;
    distinct = l.list.distinct;
  }

  create_mutex-written :
      (fuel head : ℕ) (nodes : Cells Mutex)
      → Registry.add fuel s.list (new_mutex s) written ≡ some (head, nodes)
      → IsAdded written xs (new_mutex s) head nodes
      → let s' = record s {
        kernel = record s.kernel { alloc = (allocate s.kernel.alloc sizeof_mutex_node).1 };
        nodes = nodes;
        counter = (s.counter + 1) % 2 ^ 32;
        list = head;
      } in
        (create_mutex fuel s ≡ some (s.counter, s')) × IsCreated s xs s'
  unfolding create_mutex
  create_mutex-written fuel head nodes done r =
      let id : (nodes (new_mutex s)).item.id ≡ s.counter =
        ground (arith, r.kept.items (new_mutex s)) in
      (
        rw done (rw id),
        record {
          links = subst (Chain (link nodes) head (xs ++ (new_mutex s ∷ []))) (ground arith) r.links;
          id = id;
          status = ground (arith, r.kept.items (new_mutex s));
          others = λ a other. r.kept.items a ∙ ground arith;
          alloc = refl;
          counter = refl;
        },
      )

  -- Creating a mutex ends; its number is the counter, its node is the last of the list, and it is
  -- unlocked.
  pub create_mutex-IsCreated :
      (fuel : ℕ)
      → length xs < fuel
      → (s' : Mutexes) × (create_mutex fuel s ≡ some (s.counter, s')) × IsCreated s xs s'
  create_mutex-IsCreated fuel h =
      let (head, nodes, done, r) =
        add-IsAdded fuel s.list (new_mutex s) xs written written-IsList new_mutex-fresh h in
      let (made, created) = create_mutex-written fuel head nodes done r in (_, made, created)

  not_new : (a : ℕ) → has a xs ≡ true → a ≢ new_mutex s
  not_new a h = ground (arith, new_mutex-fresh)

  new_ids :
      (s' : Mutexes)
      → IsCreated s xs s'
      → All (λ a. (s'.nodes a).item.id < suc s.counter) (xs ++ (new_mutex s ∷ []))
  new_ids s' c =
      All-snoc (λ a. (s'.nodes a).item.id < suc s.counter) xs (new_mutex s)
        (All-tabulate (λ a. (s'.nodes a).item.id < suc s.counter) xs
          λ a h. ground (
            arith,
            c.others a (not_new a h),
            All-has (λ b. (s.nodes b).item.id < s.counter) xs a l.ids h,
          ))
        (ground (arith, c.id))

  new-Owned :
      (s' : Mutexes) → IsCreated s xs s' → All (Owned s'.kernel.alloc) (xs ++ (new_mutex s ∷ []))
  new-Owned s' c =
      subst (λ al. All (Owned al) (xs ++ (new_mutex s ∷ []))) (sym c.alloc)
        (All-snoc (Owned (allocate s.kernel.alloc sizeof_mutex_node).1) xs (new_mutex s)
          (All-map (Owned s.kernel.alloc) (Owned (allocate s.kernel.alloc sizeof_mutex_node).1) xs
            (λ x o.
              (Owned-allocate s.kernel.alloc sizeof_mutex_node 0 l.arena node_pages found x o).0)
            l.owned)
          (Owned-allocate_self s.kernel.alloc sizeof_mutex_node 0 l.arena node_pages found))

  IsCreated-IsMutexList :
      (s' : Mutexes)
      → IsCreated s xs s'
      → link s.nodes (new_mutex s) ≡ null
      → s.counter + 1 < 2 ^ 32
      → IsMutexList s' (xs ++ (new_mutex s ∷ []))
  IsCreated-IsMutexList s' c clean small =
      let next : s'.counter ≡ suc s.counter = ground (arith, c.counter) in
      record {
        arena =
            subst IsArena (sym c.alloc)
              (IsArena-allocate s.kernel.alloc sizeof_mutex_node 0 l.arena node_pages found);
        list = record {
          links = subst (Chain (link s'.nodes) s'.list (xs ++ (new_mutex s ∷ []))) clean c.links;
          proper = ground (arith, has-append null xs (new_mutex s ∷ []), l.list.proper);
          distinct = Distinct-snoc xs (new_mutex s) l.list.distinct new_mutex-fresh;
        };
        owned = new-Owned s' c;
        ids =
            subst (λ n. All (λ a. (s'.nodes a).item.id < n) (xs ++ (new_mutex s ∷ []))) (sym next)
              (new_ids s' c);
      }

  first-new :
      (s' : Mutexes)
      → IsCreated s xs s'
      → first (has_id s.counter) s'.nodes (xs ++ (new_mutex s ∷ [])) ≡ new_mutex s
  first-new s' c =
      first-snoc (has_id s.counter) s'.nodes xs (new_mutex s)
        (All-tabulate (λ a. has_id s.counter (s'.nodes a).item ≡ false) xs
          λ a h. ground (
            arith,
            c.others a (not_new a h),
            All-has (λ b. (s.nodes b).item.id < s.counter) xs a l.ids h,
          ))
        (ground (arith, c.id))

  -- On a well formed list of mutexes, with memory for a node and fuel for the list: if the memory
  -- of the new node held NULL as its link, createMutex returns the counter, the list is well formed
  -- with the new mutex at its end, and the mutex is found by its number.
  pub create_mutex-IsMutexList :
      (fuel : ℕ)
      → length xs < fuel
      → link s.nodes (new_mutex s) ≡ null
      → s.counter + 1 < 2 ^ 32
      → (s' : Mutexes) × (create_mutex fuel s ≡ some (s.counter, s'))
        × IsMutexList s' (xs ++ (new_mutex s ∷ []))
        × ((n : ℕ) → length xs + 1 < n → find_id n s.counter s' ≡ some (new_mutex s))
  create_mutex-IsMutexList fuel h clean small =
      let (s', made, c) = create_mutex-IsCreated fuel h in
      let l' = IsCreated-IsMutexList s' c clean small in
      (
        s',
        made,
        l',
        λ n more.
            unfold find_id in
            (find-first (has_id s.counter) n s'.list (xs ++ (new_mutex s ∷ [])) s'.nodes
                l'.list.links l'.list.proper (omega (arith, length-append xs (new_mutex s ∷ [])))
              ∙ ap some (first-new s' c)),
      )

  -- On a well formed list of mutexes, with memory for a node and fuel for the list: if the memory
  -- of the new node held a link to a node of the list or to the new node, the list has no end after
  -- createMutex, and a search for a number that no mutex has goes on for ever.
  pub create_mutex-endless :
      (fuel : ℕ)
      → length xs < fuel
      → has (link s.nodes (new_mutex s)) (xs ++ (new_mutex s ∷ [])) ≡ true
      → (s' : Mutexes) × (create_mutex fuel s ≡ some (s.counter, s'))
        × ((n id : ℕ) → s.counter < id → is_locked n id s' ≡ none)
  create_mutex-endless fuel h stale =
      let ys = xs ++ (new_mutex s ∷ []) in
      let (s', made, c) = create_mutex-IsCreated fuel h in
      let (inside, closed) =
        Chain-closed (link s'.nodes) s'.list ys (link s.nodes (new_mutex s)) ys c.links stale
          (λ a i. i) in
      let proper : has null ys ≡ false =
        ground (arith, has-append null xs (new_mutex s ∷ []), l.list.proper) in
      (
        s',
        made,
        λ n id more.
            unfold is_locked find_id in
            (rw (
              find-endless (has_id id) n s'.list ys s'.nodes inside closed proper (
                All-map (λ a. (s'.nodes a).item.id < suc s.counter)
                  (λ a. has_id id (s'.nodes a).item ≡ false) ys (λ a b. ground arith)
                  (new_ids s' c)))),
      )
