-- ===== src/Screens/Added.antt =====
-- addScreen, and what getCurrentScreenNode gives to a process that has no screen.
use basic_kernel_implementat.Prelude.{
  ℕ, zero, suc, ◌+◌, ◌<◌, ◌≡◌, refl, ap, ◌∙◌, ◌≢◌, false, some, List, [], ◌∷◌, ◌++◌, arith, ◌==◌,
  update, length, has, Distinct, has-append,
}
use basic_kernel_implementat.Kernel.{Kernel, null}
use basic_kernel_implementat.Kernel.Lookup.{get_current_pid}
use basic_kernel_implementat.Memory.{Allocator, allocate}
use basic_kernel_implementat.Video.{clear}
use basic_kernel_implementat.Screens.{
  ScreenNode, sizeof_screen_node, sizeof_screen, Screens, set_next, find_screen_node_by_pid,
  new_screen_node, append_screen, add_screen, get_current_screen_node,
}
use basic_kernel_implementat.Screens.Linked.{Linked, Linked-frame, first, find_loop-first}

-- The list `xs` with the node `n` behind it, for the process `pid` and with the empty screen `scr`;
-- the kernel is `k`.
pub record IsAdded (pid prev n scr : ℕ) (xs : List ℕ) (k : Kernel) (s s' : Screens) (head : ℕ)
    : Type 0 where
  pub linked : Linked s'.nodes prev head (xs ++ (n ∷ []))
  pub its_pid : (s'.nodes n).pid ≡ pid
  pub its_screen : (s'.nodes n).screen ≡ scr
  pub its_position : (s'.nodes n).current_position ≡ scr
  pub pids : (a : ℕ) → n ≢ a → (s'.nodes a).pid ≡ (s.nodes a).pid
  pub screens : (a : ℕ) → n ≢ a → (s'.nodes a).screen ≡ (s.nodes a).screen
  pub positions : (a : ℕ) → n ≢ a → (s'.nodes a).current_position ≡ (s.nodes a).current_position
  pub outside :
      (a : ℕ)
      → has a (xs ++ (n ∷ [])) ≡ false
      → ((s'.nodes a).next ≡ (s.nodes a).next) × ((s'.nodes a).prev ≡ (s.nodes a).prev)
  pub others : s' ≡ record s {
    kernel = k;
    video = record s.video { memory = clear scr s.video.memory };
    nodes = s'.nodes;
  }

module _ (pid n scr : ℕ) (al1 al2 : Allocator) (s : Screens)
    (got_node : allocate s.kernel.alloc sizeof_screen_node ≡ (n, al1))
    (got_screen : allocate al1 sizeof_screen ≡ (scr, al2)) (some_node : n ≢ null)
    (some_screen : scr ≢ null) where
  -- The kernel once both are allocated.
  abbrev k2 : Kernel
  k2 = record (s.kernel) { alloc = al2 }

  -- The nodes once newScreenNode has written to the new one.
  abbrev placed : ℕ → ScreenNode
  placed =
      let screen_set = update s.nodes n (record (s.nodes n) { screen = scr }) in
      update screen_set n (record (screen_set n) { current_position = scr })

  abbrev appended : (prev : ℕ) → Screens
  appended prev = record s {
    kernel = k2;
    video = record s.video { memory = clear scr s.video.memory };
    nodes = update placed n (record (placed n) { pid = pid; next = null; prev = prev });
  }

  append_screen_lem : (prev : ℕ) → append_screen prev pid s ≡ some (n, appended prev)
  unfolding append_screen new_screen_node
  append_screen_lem prev =
      let yes_node : (n == null) ≡ false = ground arith in
      let yes_screen : (scr == null) ≡ false = ground arith in
      rw (got_node, got_screen, yes_node, yes_screen) (ground arith)

  append_screen-IsAdded : (prev : ℕ) → IsAdded pid prev n scr [] k2 s (appended prev) n
  append_screen-IsAdded prev = record {
    linked = (refl, some_node, ground arith, ground arith);
    its_pid = ground arith;
    its_screen = ground arith;
    its_position = ground arith;
    pids = λ a ne. ground arith;
    screens = λ a ne. ground arith;
    positions = λ a ne. ground arith;
    outside = λ a o. (ground arith, ground arith);
    others = refl;
  }

  IsAdded-cons :
      (prev a : ℕ) (xs : List ℕ) (s1 : Screens) (head : ℕ)
      → a ≢ null
      → n ≢ a
      → has a xs ≡ false
      → (s.nodes a).prev ≡ prev
      → IsAdded pid a n scr xs k2 s s1 head
      → IsAdded pid prev n scr (a ∷ xs) k2 s (set_next a head s1) a
  IsAdded-cons prev a xs s1 head proper new once back r =
      let nodes2 = (set_next a head s1).nodes in
      let not_there : has a (xs ++ (n ∷ [])) ≡ false =
        ground (arith, has-append a xs (n ∷ []), once, new) in
      let next_is : (nodes2 a).next ≡ head = ground arith in
      let tail =
        Linked-frame s1.nodes nodes2 a head (xs ++ (n ∷ []))
          (λ c h. (ground (arith, not_there), ground arith)) r.linked in
      record {
        linked = (refl, proper, ground (arith, (r.outside a not_there).1, back), rw next_is tail);
        its_pid = ground (arith, r.its_pid);
        its_screen = ground (arith, r.its_screen);
        its_position = ground (arith, r.its_position);
        pids = λ b ne. ground (arith, r.pids b ne);
        screens = λ b ne. ground (arith, r.screens b ne);
        positions = λ b ne. ground (arith, r.positions b ne);
        outside = λ b o. (
          ground (arith, r.outside b (ground arith)),
          ground (arith, r.outside b (ground arith)),
        );
        others = rw (r.others) refl;
      }

  add_step :
      (fuel p prev a head : ℕ) (s1 : Screens)
      → p ≡ a
      → a ≢ null
      → add_screen fuel (s.nodes a).next a pid s ≡ some (head, s1)
      → add_screen (suc fuel) p prev pid s ≡ some (a, set_next a head s1)
  unfolding add_screen
  add_step fuel p prev a head s1 e proper rest = rw (e, rest) (ground (arith, proper))

  add_end :
      (fuel p prev : ℕ) → p ≡ null → add_screen (suc fuel) p prev pid s ≡ some (n, appended prev)
  unfolding add_screen
  add_end fuel p prev e = rw e (append_screen_lem prev)

  -- If the node and the screen can be allocated, and the node is none of the list, addScreen ends
  -- with more fuel than there are nodes: it puts the new node at the end of the list, which stays
  -- linked both ways, for the process, with an empty screen and the cursor at its start.
  pub add_screen-IsAdded :
      (fuel prev p : ℕ) (xs : List ℕ)
      → Linked s.nodes prev p xs
      → Distinct (n ∷ xs)
      → length xs < fuel
      → (head : ℕ) × (s' : Screens) × (add_screen fuel p prev pid s ≡ some (head, s'))
        × IsAdded pid prev n scr xs k2 s s' head
  add_screen-IsAdded zero prev p xs l d h = absurd (omega arith)
  add_screen-IsAdded (suc fuel) prev p [] l d h =
      (n, appended prev, add_end fuel p prev l, append_screen-IsAdded prev)
  add_screen-IsAdded (suc fuel) prev p (a ∷ xs) l d h =
      let (head, s1, done, r) =
        add_screen-IsAdded fuel a (s.nodes a).next xs l.3 (ground (arith, d.0), d.1.1)
          (omega arith) in
      (
        a,
        set_next a head s1,
        add_step fuel p prev a head s1 l.0 l.1 done,
        IsAdded-cons prev a xs s1 head l.1 (ground (arith, d.0)) d.1.0 l.2 r,
      )

  -- getCurrentScreenNode of a process that has no screen, with other processes' screens in the
  -- list, puts a new node at the end of the list and returns the first node of the list, which is
  -- that of another process. It ends with more fuel than there are nodes.
  pub get_current_screen_node-head :
      (fuel a : ℕ) (xs : List ℕ)
      → pid ≡ get_current_pid s.kernel
      → Linked s.nodes null s.list (a ∷ xs)
      → Distinct (n ∷ a ∷ xs)
      → first pid s.nodes (a ∷ xs) ≡ null
      → length xs + 1 < fuel
      → (s' : Screens) × (get_current_screen_node fuel s ≡ some (a, s'))
        × IsAdded pid null n scr (a ∷ xs) k2 s s' a
        × ((s'.nodes a).pid ≢ pid)
  unfolding get_current_screen_node find_screen_node_by_pid
  get_current_screen_node-head fuel a xs e l d nobody h =
      let searched =
        find_loop-first fuel pid null s.list (a ∷ xs) s.nodes l (omega arith) ∙ ap some nobody in
      let (head, s1, done, r) = add_screen-IsAdded fuel null s.list (a ∷ xs) l d (omega arith) in
      let at_first : head ≡ a = r.linked.0 in
      (
        s1,
        rw (← e, searched, done) (ground (arith, at_first)),
        rw at_first at r,
        ground (arith, r.pids a, d.0, nobody, l.1),
      )
