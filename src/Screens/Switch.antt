-- ===== src/Screens/Switch.antt =====
-- What a process shows, on the video screen or on its own, and how loadScreen keeps it.
use basic_kernel_implementat.Prelude.{
  ℕ, ◌+◌, ◌-◌, ◌^◌, ◌≤◌, ◌<◌, ◌≡◌, refl, ◌≢◌, ◌⊎◌, inl, inr, Bool, true, false, some, List, [], ◌∷◌,
  arith, ◌==◌, if◌then◌else◌, Bool-cases, length, has, update, ◌∙◌,
}
use basic_kernel_implementat.Kernel.{null}
use basic_kernel_implementat.Video.{
  Video, window_size, backup_content, set_screen, copy_loop, move_by, int_distance,
}
use basic_kernel_implementat.Video
use basic_kernel_implementat.Video.Copying.{copy_loop-inside, copy_loop-outside}
use basic_kernel_implementat.Video.Backup.{Apart, move_by-int_distance}
use basic_kernel_implementat.Screens.{save_screen, Screens, find_screen_node_by_pid}
use basic_kernel_implementat.Screens.Linked.{Nodes, Linked, first, find_loop-first}

-- Where the bytes and the cursor of a node's process are: on the video screen if the process has the
-- focus, and on its own screen if not.
abbrev pub has_focus : Screens → (node : ℕ) → Bool
has_focus s node = (s.nodes node).pid == s.on_focus_pid

abbrev pub screen_of : Screens → (node : ℕ) → ℕ
screen_of s node = if has_focus s node then Video.screen else (s.nodes node).screen

abbrev pub cursor_of : Screens → (node : ℕ) → ℕ
cursor_of s node =
    if has_focus s node then s.video.current_position else (s.nodes node).current_position

-- A place for a screen and its cursor: addresses are below 2 ^ 64, and the cursor is not past the end.
pub record IsPlace (screen cursor : ℕ) : Type 0 where
  pub from : screen ≤ cursor
  pub inside : cursor ≤ screen + window_size
  pub fits : screen + window_size < 2 ^ 64

-- Each process has one node, and no two screens overlap.
pub record IsScreens (s : Screens) (xs : List ℕ) : Type 0 where
  pub linked : Linked s.nodes null s.list xs
  pub once :
      (a b : ℕ) → has a xs ≡ true → has b xs ≡ true → (s.nodes a).pid ≡ (s.nodes b).pid → a ≡ b
  pub apart :
      (a b : ℕ)
      → has a xs ≡ true
      → has b xs ≡ true
      → a ≢ b
      → Apart (s.nodes a).screen (s.nodes b).screen
  pub off_video : (a : ℕ) → has a xs ≡ true → Apart (s.nodes a).screen Video.screen
  pub cursors : (a : ℕ) → has a xs ≡ true → IsPlace (screen_of s a) (cursor_of s a)
  pub places : (a : ℕ) → has a xs ≡ true → (s.nodes a).screen + window_size < 2 ^ 64

-- A screen's bytes and the place of its cursor.
pub record Shows (m : ℕ → ℕ) (screen cursor : ℕ) (m' : ℕ → ℕ) (screen' cursor' : ℕ) : Type 0 where
  pub bytes : (k : ℕ) → k < window_size → m' (screen' + k) ≡ m (screen + k)
  pub place : cursor' - screen' ≡ cursor - screen
  pub from : screen' ≤ cursor'
  pub inside : cursor' ≤ screen' + window_size

Shows-refl :
    (m : ℕ → ℕ) (screen cursor : ℕ) → IsPlace screen cursor → Shows m screen cursor m screen cursor
Shows-refl m screen cursor c = record {
  bytes = λ k h. refl;
  place = refl;
  from = c.from;
  inside = c.inside;
}

-- No node has the pid, or `first` is a node that has it.
pub first-cases :
    (pid : ℕ) (nodes : Nodes) (prev p : ℕ) (xs : List ℕ)
    → Linked nodes prev p xs
    → ((first pid nodes xs ≡ null) × ((a : ℕ) → has a xs ≡ true → (nodes a).pid ≢ pid))
      ⊎ ((q : ℕ) × (first pid nodes xs ≡ q)
          × (has q xs ≡ true)
          × ((nodes q).pid ≡ pid)
          × (q ≢ null))
first-cases pid nodes prev p [] l = inl (refl, λ a h. absurd (ground arith))
first-cases pid nodes prev p (a ∷ xs) l = elim (Bool-cases ((nodes a).pid == pid)) [
  | inl hit ↦ inr (a, rw hit refl, ground arith, ground arith, l.1)
  | inr miss ↦ elim (first-cases pid nodes a (nodes a).next xs l.3) [
    | inl (nobody, others) ↦ inl (rw miss nobody, λ b h. ground (arith, others b))
    | inr (q, is, in_xs, is_pid, proper) ↦ inr (q, rw miss is, ground arith, is_pid, proper)
  ]
]

-- Once the screen with the focus is saved, every node's own screen shows what its process shows.
pub record IsSaved (s s1 : Screens) (xs : List ℕ) : Type 0 where
  pub shown :
      (a : ℕ)
      → has a xs ≡ true
      → Shows s.video.memory
          (screen_of s a)
          (cursor_of s a)
          s1.video.memory
          (s1.nodes a).screen
          (s1.nodes a).current_position
  pub screens : (a : ℕ) → (s1.nodes a).screen ≡ (s.nodes a).screen
  pub pids : (a : ℕ) → (s1.nodes a).pid ≡ (s.nodes a).pid
  pub links :
      (a : ℕ) → ((s1.nodes a).next ≡ (s.nodes a).next) × ((s1.nodes a).prev ≡ (s.nodes a).prev)
  pub others : s1 ≡ record s { nodes = s1.nodes; video = s1.video }

module _ (fuel : ℕ) (s : Screens) (xs : List ℕ) (ok : IsScreens s xs)
    (enough : length xs < fuel) where
  pub found : (pid : ℕ) → find_screen_node_by_pid fuel pid s ≡ some (first pid s.nodes xs)
  unfolding find_screen_node_by_pid
  found pid = find_loop-first fuel pid null s.list xs s.nodes ok.linked enough

  unfocused : ((a : ℕ) → has a xs ≡ true → (s.nodes a).pid ≢ s.on_focus_pid) → IsSaved s s xs
  unfocused miss = record {
    shown = λ a h.
        let off : has_focus s a ≡ false = ground (arith, miss a h) in
        let c : IsPlace (s.nodes a).screen (s.nodes a).current_position =
          rw off at (ok.cursors a h) in
        rw off (Shows-refl s.video.memory (s.nodes a).screen (s.nodes a).current_position c);
    screens = λ a. refl;
    pids = λ a. refl;
    links = λ a. (refl, refl);
    others = refl;
  }

  module _ (q : ℕ) (in_xs : has q xs ≡ true) (is_pid : (s.nodes q).pid ≡ s.on_focus_pid) where
    abbrev saved : Screens
    saved = record s {
      nodes =
          update s.nodes q (record (s.nodes q) {
            current_position = (backup_content (s.nodes q).screen s.video).0;
          });
      video = (backup_content (s.nodes q).screen s.video).1;
    }

    focused_shown :
        Shows s.video.memory Video.screen s.video.current_position saved.video.memory
          (s.nodes q).screen
          (backup_content (s.nodes q).screen s.video).0
    unfolding backup_content
    focused_shown =
        let on : has_focus s q ≡ true = ground (arith, is_pid) in
        let c : IsPlace Video.screen s.video.current_position = rw on at (ok.cursors q in_xs) in
        let d = s.video.current_position - Video.screen in
        let whole : Video.screen + d ≡ s.video.current_position = omega (arith, c.from) in
        let moved : move_by (s.nodes q).screen (int_distance s.video.current_position Video.screen)
            ≡ (s.nodes q).screen + d =
          rw whole at (
            move_by-int_distance (s.nodes q).screen d Video.screen (omega (arith, c.inside))
              (omega (arith, c.inside, ok.places q in_xs)) (omega arith)) in
        record {
          bytes = λ k h.
              copy_loop-inside window_size (s.nodes q).screen Video.screen s.video.memory k
                (ground (arith, ok.off_video q in_xs)) h;
          place = rw moved (omega arith);
          from = rw moved (omega arith);
          inside = rw moved (omega (arith, c.inside));
        }

    unfocused_shown :
        (a : ℕ)
        → has a xs ≡ true
        → a ≢ q
        → Shows s.video.memory
            (screen_of s a)
            (cursor_of s a)
            saved.video.memory
            (s.nodes a).screen
            (s.nodes a).current_position
    unfolding backup_content
    unfocused_shown a h ne =
        let off : has_focus s a ≡ false = ground (arith, ok.once a q h in_xs, is_pid) in
        let c : IsPlace (s.nodes a).screen (s.nodes a).current_position =
          rw off at (ok.cursors a h) in
        rw off (record {
          bytes = λ k lt.
              copy_loop-outside window_size (s.nodes q).screen Video.screen s.video.memory
                ((s.nodes a).screen + k) (ground (arith, ok.apart a q h in_xs ne));
          place = refl;
          from = c.from;
          inside = c.inside;
        })

    focused : IsSaved s saved xs
    focused = record {
      shown = λ a h. elim (Bool-cases (q == a)) [
        | inl here ↦
            let on : has_focus s a ≡ true = ground (arith, is_pid) in rw (here, on) focused_shown
        | inr away ↦ rw away (unfocused_shown a h (ground arith))
      ];
      screens = λ a. ground arith;
      pids = λ a. ground arith;
      links = λ a. (ground arith, ground arith);
      others = refl;
    }

  pub save_screen-IsSaved : (s1 : Screens) × (save_screen fuel s ≡ some s1) × IsSaved s s1 xs
  unfolding save_screen
  save_screen-IsSaved = elim (first-cases s.on_focus_pid s.nodes null s.list xs ok.linked) [
    | inl (nobody, miss) ↦ (s, rw (found s.on_focus_pid, nobody) refl, unfocused miss)
    | inr (q, is, in_xs, is_pid, proper) ↦
        let some_node : (q == null) ≡ false = ground (arith, proper) in
        (
          saved q in_xs is_pid,
          rw (found s.on_focus_pid, is, some_node) refl,
          focused q in_xs is_pid,
        )
  ]

  -- The state once the node `p` of a saved state is on the video screen.
  abbrev pub switched : (pid p : ℕ) → Screens → Screens
  switched pid p s1 = record s1 {
    video = set_screen (s1.nodes p).screen (s1.nodes p).current_position s1.video;
    on_focus_pid = pid;
  }

  module _ (pid p : ℕ) (s1 : Screens) (r : IsSaved s s1 xs) (in_xs : has p xs ≡ true)
      (is_pid : (s.nodes p).pid ≡ pid) where
    pub switched_shown :
        (a : ℕ)
        → has a xs ≡ true
        → Shows s.video.memory
            (screen_of s a)
            (cursor_of s a)
            (switched pid p s1).video.memory
            (screen_of (switched pid p s1) a)
            (cursor_of (switched pid p s1) a)
    unfolding set_screen
    switched_shown a h = elim (Bool-cases (p == a)) [
      | inl here ↦
          let e : p ≡ a = ground arith in
          let on : has_focus (switched pid p s1) a ≡ true = ground (arith, is_pid, r.pids a) in
          let v = r.shown p in_xs in
          let d = (s1.nodes p).current_position - (s1.nodes p).screen in
          let whole : (s1.nodes p).screen + d ≡ (s1.nodes p).current_position =
            omega (arith, v.from) in
          let moved : move_by Video.screen
                (int_distance (s1.nodes p).current_position (s1.nodes p).screen)
              ≡ Video.screen + d =
            rw whole at (
              move_by-int_distance Video.screen d (s1.nodes p).screen (omega (arith, v.inside))
                (omega (arith, v.inside)) (omega (arith, r.screens p, ok.places p in_xs))) in
          rw (on, ← e)
            (record {
              bytes = λ k lt.
                  copy_loop-inside window_size Video.screen (s1.nodes p).screen s1.video.memory k
                    (ground (arith, r.screens p, ok.off_video p in_xs)) lt
                  ∙ v.bytes k lt;
              place = rw moved (omega (arith, v.place));
              from = rw moved (omega arith);
              inside = rw moved (omega (arith, v.inside));
            })
      | inr away ↦
          let off : has_focus (switched pid p s1) a ≡ false =
            ground (arith, is_pid, r.pids a, ok.once a p h in_xs) in
          let v = r.shown a h in
          rw off (record {
            bytes = λ k lt.
                copy_loop-outside window_size Video.screen (s1.nodes p).screen s1.video.memory
                  ((s1.nodes a).screen + k) (ground (arith, r.screens a, ok.off_video a h))
                ∙ v.bytes k lt;
            place = v.place;
            from = v.from;
            inside = v.inside;
          })
    ]
