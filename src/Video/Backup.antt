-- ===== src/Video/Backup.antt =====
-- Saving the video screen and loading it again, and scrolling.
use basic_kernel_implementat.Prelude.{ℕ, ◌+◌, ◌-◌, ◌^◌, ◌≤◌, ◌<◌, ◌≡◌, ◌⊎◌, inl, arith, ◌∙◌}
use basic_kernel_implementat.Text.{Chars}
use basic_kernel_implementat.Video.{
  Video, CursorPointer, current, own, position, screen, window_size, set_screen, backup_content,
  copy_loop, clear, clear_line, move_screen_up, int_distance, move_by,
}
use basic_kernel_implementat.Video.Copying.{
  blank, copy_loop-inside, copy_loop-outside, clear_loop-inside, clear_loop-outside,
  clear_line-inside, clear_line-outside,
}

-- Two screens in memory that do not overlap.
abbrev pub Apart : (s t : ℕ) → Type 0
Apart s t = (s + window_size ≤ t) ⊎ (t + window_size ≤ s)

pub move_by-int_distance :
    (base d other : ℕ)
    → d < 2 ^ 31
    → base + d < 2 ^ 64
    → other < 2 ^ 64
    → move_by base (int_distance (other + d) other) ≡ base + d
move_by-int_distance base d other small fits o =
    let low : int_distance (other + d) other ≡ d = omega arith in rw low (ground arith)

module _ (backup : ℕ) (v : Video) (apart : Apart backup screen) (on : screen ≤ v.current_position)
    (inside : v.current_position ≤ screen + window_size)
    (fits : backup + window_size < 2 ^ 64) where
  -- setScreen of what backupContent saved, in whatever state the video is by then, brings back
  -- the content of the screen and the cursor, if the saved bytes are still there; the two screens
  -- do not overlap, the cursor is not past the end of the video screen, and the addresses fit 64 bits.
  pub set_screen-backup_content :
      (later : Video)
      → ((k : ℕ)
          → k < window_size
          → later.memory (backup + k) ≡ (backup_content backup v).1.memory (backup + k))
      → ((set_screen backup (backup_content backup v).0 later).current_position
          ≡ v.current_position)
        × ((k : ℕ)
            → k < window_size
            → (set_screen backup (backup_content backup v).0 later).memory (screen + k)
              ≡ v.memory (screen + k))
  unfolding set_screen backup_content
  set_screen-backup_content later kept =
      let d = v.current_position - screen in
      let whole : screen + d ≡ v.current_position = omega arith in
      let saved : move_by backup (int_distance v.current_position screen) ≡ backup + d =
        rw whole at
          (move_by-int_distance backup d screen (omega arith) (omega arith) (omega arith)) in
      (
        rw saved (
            move_by-int_distance screen d backup (omega arith) (omega arith) (omega arith) ∙ whole),
        λ k h.
            copy_loop-inside window_size screen backup later.memory k (ground arith) h
            ∙ kept k h
            ∙ copy_loop-inside window_size backup screen v.memory k (ground arith) h,
      )

-- clear writes spaces in the default colour on the whole screen, and nothing else.
pub clear-blank :
    (s : ℕ) (m : Chars)
    → ((k : ℕ) → k < window_size → clear s m (s + k) ≡ blank k)
      × ((q : ℕ) → (q < s) ⊎ (s + window_size ≤ q) → clear s m q ≡ m q)
unfolding clear
clear-blank s m = (
  λ k h. clear_loop-inside window_size 0 s m k (omega arith) h,
  λ q out. clear_loop-outside window_size 0 s m q (ground arith),
)

-- What moveScreenUp leaves in the memory.
pub record IsScrolled (s : ℕ) (m m' : Chars) : Type 0 where
  pub moved : (k : ℕ) → k < 3840 → m' (s + k) ≡ m (s + (k + 160))
  pub emptied : (k : ℕ) → k < 160 → m' (s + (3840 + k)) ≡ blank k
  pub outside : (q : ℕ) → (q < s) ⊎ (s + window_size ≤ q) → m' q ≡ m q

scrolled :
    (s : ℕ) (m : Chars) → IsScrolled s m (clear_line 80 (s + 3840) (copy_loop 3840 s (s + 160) m))
scrolled s m =
    let m1 = copy_loop 3840 s (s + 160) m in
    record {
      moved = λ k h.
          clear_line-outside 80 (s + 3840) m1 (s + k) (inl (omega arith))
          ∙ copy_loop-inside 3840 s (s + 160) m k (inl (omega arith)) h
          ∙ ground arith;
      emptied = λ k h. ground (arith, clear_line-inside 80 (s + 3840) m1 k (omega arith));
      outside = λ q out.
          clear_line-outside 80 (s + 3840) m1 q (ground arith)
          ∙ copy_loop-outside 3840 s (s + 160) m q (ground arith);
    }

-- moveScreenUp moves the lines of the screen up by one, empties the last one, puts the cursor at the
-- start of it, and writes nowhere else.
pub move_screen_up-IsScrolled :
    (s : ℕ) (at : CursorPointer) (v : Video)
    → IsScrolled s v.memory (move_screen_up s at v).memory
      × (position at (move_screen_up s at v) ≡ s + 3840)
unfolding move_screen_up
move_screen_up-IsScrolled s current v = (rw (last) (scrolled s v.memory), last)
  where
    last : s + 4000 - 160 ≡ s + 3840
    last = omega arith
move_screen_up-IsScrolled s own v = (rw (last) (scrolled s v.memory), last)
  where
    last : s + 4000 - 160 ≡ s + 3840
    last = omega arith
