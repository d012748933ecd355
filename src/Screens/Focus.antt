-- ===== src/Screens/Focus.antt =====
-- loadScreen of a process that has a screen.
use basic_kernel_implementat.Prelude.{
  ℕ, ◌<◌, ◌≡◌, refl, sym, ◌∙◌, ◌≢◌, inl, inr, true, false, some, List, arith, ◌==◌, length, has, ap,
}
use basic_kernel_implementat.Kernel.{null}
use basic_kernel_implementat.Screens.{Screens, find_screen_node_by_pid, show_screen, load_screen}
use basic_kernel_implementat.Screens.Linked.{Linked-frame}
use basic_kernel_implementat.Screens.Switch.{
  screen_of, cursor_of, IsScreens, Shows, first-cases, IsSaved, found, save_screen-IsSaved,
  switched, switched_shown,
}

module _ (fuel : ℕ) (s : Screens) (xs : List ℕ) (ok : IsScreens s xs) (enough : length xs < fuel)
    (pid p : ℕ) (in_xs : has p xs ≡ true) (is_pid : (s.nodes p).pid ≡ pid) where
  pub found_it : (find_screen_node_by_pid fuel pid s ≡ some p) × (p ≢ null)
  found_it = elim (first-cases pid s.nodes null s.list xs ok.linked) [
    | inl (nobody, miss) ↦ absurd (miss p in_xs is_pid)
    | inr (q, is, in_q, q_pid, proper) ↦
        let e : q ≡ p = ok.once q p in_q in_xs (q_pid ∙ sym is_pid) in
        (found fuel s xs ok enough pid ∙ ap some (is ∙ e), rw (← e) proper)
  ]

  switched-IsScreens :
      (s1 : Screens) → IsSaved s s1 xs → IsScreens (switched fuel s xs ok enough pid p s1) xs
  switched-IsScreens s1 r =
      let s2 = switched fuel s xs ok enough pid p s1 in
      let shown = switched_shown fuel s xs ok enough pid p s1 r in_xs is_pid in
      record {
        linked =
            let same_list : s1.list ≡ s.list = rw (r.others) refl in
            rw same_list
              (Linked-frame s.nodes s1.nodes null s.list xs (λ a h. r.links a) ok.linked);
        once = λ a b i j e. ok.once a b i j (ground (arith, r.pids a, r.pids b));
        apart = λ a b i j ne. rw (r.screens a, r.screens b) (ok.apart a b i j ne);
        off_video = λ a i. rw (r.screens a) (ok.off_video a i);
        cursors = λ a i.
            let v = shown a i in
            record {
              from = v.from;
              inside = v.inside;
              fits = ground (arith, r.screens a, ok.places a i);
            };
        places = λ a i. rw (r.screens a) (ok.places a i);
      }

  -- loadScreen of a process that has a screen ends and returns 1, gives the process the focus, and
  -- changes what no process shows, neither the one that had the focus nor the one that gets it
  -- nor any other: the bytes of its screen and the place of its cursor. Afterwards each process has
  -- again one node and no two screens overlap.
  pub load_screen-Shows :
      (s2 : Screens) × (load_screen fuel pid s ≡ some (1, s2))
      × (s2.on_focus_pid ≡ pid)
      × ((a : ℕ)
          → has a xs ≡ true
          → Shows s.video.memory
              (screen_of s a)
              (cursor_of s a)
              s2.video.memory
              (screen_of s2 a)
              (cursor_of s2 a))
      × IsScreens s2 xs
  unfolding load_screen show_screen
  load_screen-Shows =
      let (there, proper) = found_it in
      let (s1, saved, r) = save_screen-IsSaved fuel s xs ok enough in
      let some_node : (p == null) ≡ false = ground (arith, proper) in
      (
        switched fuel s xs ok enough pid p s1,
        rw (there, saved, some_node) refl,
        refl,
        switched_shown fuel s xs ok enough pid p s1 r in_xs is_pid,
        switched-IsScreens s1 r,
      )
