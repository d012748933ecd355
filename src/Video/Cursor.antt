-- ===== src/Video/Cursor.antt =====
-- The cursors of Kernel/videoDriver.c: characters on a screen keep its cursor on that screen.
use basic_kernel_implementat.Prelude.{
  ℕ, ◌+◌, ◌-◌, ◌%◌, ◌≤◌, ◌<◌, ◌≡◌, refl, ◌∙◌, ◌⊎◌, inl, inr, arith, leb, Bool-cases,
}
use basic_kernel_implementat.Text.{Chars}
use basic_kernel_implementat.Video.{
  Video, CursorPointer, current, own, position, window_size, move_to, check_end_of_screen,
  move_screen_up, next_line, my_new_line,
}
use basic_kernel_implementat.Video.Backup.{move_screen_up-IsScrolled}

-- At a character of the screen `s`.
pub record IsOn (s p : ℕ) : Type 0 where
  pub from : s ≤ p
  pub before : p < s + window_size
  pub even : (p - s) % 2 ≡ 0

-- At a character of the screen, or at its end or behind it by a tab.
pub record IsAt (s p : ℕ) : Type 0 where
  pub from : s ≤ p
  pub even : (p - s) % 2 ≡ 0

abbrev pub other : CursorPointer → CursorPointer
other current = own
other own = current

abbrev pub Outside : (s : ℕ) (m m' : Chars) → Type 0
Outside s m m' = (q : ℕ) → (q < s) ⊎ (s + window_size ≤ q) → m' q ≡ m q

-- The cursor is on the screen `s`, nothing is written elsewhere, and the other cursor stays.
pub record Stays (s : ℕ) (at : CursorPointer) (v v' : Video) : Type 0 where
  pub on : IsOn s (position at v')
  pub outside : Outside s v.memory v'.memory
  pub others : position (other at) v' ≡ position (other at) v

pub position-move_to : (at : CursorPointer) (p : ℕ) (v : Video) → position at (move_to at p v) ≡ p
position-move_to current p v = refl
position-move_to own p v = refl

other-move_to :
    (at : CursorPointer) (p : ℕ) (v : Video)
    → position (other at) (move_to at p v) ≡ position (other at) v
other-move_to current p v = refl
other-move_to own p v = refl

memory-move_to : (at : CursorPointer) (p : ℕ) (v : Video) → (move_to at p v).memory ≡ v.memory
memory-move_to current p v = refl
memory-move_to own p v = refl

move_screen_up-other :
    (s : ℕ) (at : CursorPointer) (v : Video)
    → position (other at) (move_screen_up s at v) ≡ position (other at) v
unfolding move_screen_up
move_screen_up-other s current v = refl
move_screen_up-other s own v = refl

pub check_end_of_screen-Stays :
    (s : ℕ) (at : CursorPointer) (v : Video)
    → IsAt s (position at v)
    → Stays s at v (check_end_of_screen s at v)
unfolding check_end_of_screen
check_end_of_screen-Stays s at v a = elim (Bool-cases (leb (s + 4000) (position at v))) [
  | inl past ↦
      let (up, last) = move_screen_up-IsScrolled s at v in
      rw past (record {
        on = rw last (record { from = omega arith; before = omega arith; even = omega arith });
        outside = up.outside;
        others = move_screen_up-other s at v;
      })
  | inr inside ↦ rw inside (record {
    on = record { from = a.from; before = ground arith; even = a.even };
    outside = λ q _. refl;
    others = refl;
  })
]

-- One thing after the other.
pub Stays-trans :
    {s : ℕ} {at : CursorPointer} {v v1 v2 : Video}
    → Outside s v.memory v1.memory
    → position (other at) v1 ≡ position (other at) v
    → Stays s at v1 v2
    → Stays s at v v2
Stays-trans out same later = record {
  on = later.on;
  outside = λ q o. later.outside q o ∙ out q o;
  others = later.others ∙ same;
}

pub IsAt-IsOn : {s p : ℕ} → IsOn s p → IsAt s p
IsAt-IsOn o = record { from = o.from; even = o.even }

module _ (s : ℕ) (at : CursorPointer) (v : Video) (o : IsOn s (position at v)) where
  next_line-IsAt : IsAt s (next_line s (position at v))
  next_line-IsAt =
      let p = position at v in
      record { from = ground (arith, o.from); even = ground (arith, o.from, o.even, o.before) }

  pub my_new_line-Stays : Stays s at v (my_new_line s at v)
  unfolding my_new_line
  my_new_line-Stays =
      let v1 = move_to at (next_line s (position at v)) v in
      Stays-trans {at = at} {v1 = v1}
        (λ q _. rw (memory-move_to at (next_line s (position at v)) v))
        (other-move_to at (next_line s (position at v)) v)
        (check_end_of_screen-Stays s at v1
          (rw (position-move_to at (next_line s (position at v)) v) next_line-IsAt))
