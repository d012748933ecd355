-- ===== src/Video/Printing.antt =====
-- Printing characters, texts and numbers with Kernel/videoDriver.c.
use basic_kernel_implementat.Prelude.{
  ℕ, zero, suc, ◌+◌, ◌-◌, ◌*◌, ◌/◌, ◌%◌, ◌^◌, ◌≤◌, ◌<◌, ◌≡◌, ◌≢◌, refl, ◌∙◌, ◌⊎◌, inl, inr, true,
  false, arith, none, some, ltb, leb, ◌==◌, if◌then◌else◌, Bool-cases, Option-cases,
}
use basic_kernel_implementat.Text.{Chars, int_length, length_loop}
use basic_kernel_implementat.Video.{
  Video, CursorPointer, current, own, position, screen, window_size, move_to, write, put_at,
  check_end_of_screen, my_new_line, back_space, tab_stop, my_print_tab, print_tab,
  print_characters_inner, print_characters, print, print_dec, widen, space,
}
use basic_kernel_implementat.Video.Cursor.{
  IsOn, IsAt, Stays, Stays-trans, IsAt-IsOn, check_end_of_screen-Stays, my_new_line-Stays,
}

module _ (s : ℕ) where
  put_at-Stays :
      (at : CursorPointer) (c : ℕ) (v : Video)
      → IsOn s (position at v)
      → Stays s at v (check_end_of_screen s at (put_at at c v))
  put_at-Stays current c v o =
      Stays-trans {v1 = put_at current c v} (λ q out. ground (arith, o.from, o.before, o.even)) refl
        (check_end_of_screen-Stays s current (put_at current c v)
          (record { from = omega (arith, o.from); even = omega (arith, o.from, o.even) }))
  put_at-Stays own c v o =
      Stays-trans {v1 = put_at own c v} (λ q out. ground (arith, o.from, o.before, o.even)) refl
        (check_end_of_screen-Stays s own (put_at own c v)
          (record { from = omega (arith, o.from); even = omega (arith, o.from, o.even) }))

  back_space-Stays :
      (at : CursorPointer) (v : Video)
      → IsOn s (position at v)
      → Stays s at v (check_end_of_screen s at (back_space s at v))
  unfolding back_space
  back_space-Stays at v o = elim (Bool-cases (position at v == s)) [
    | inl start ↦ rw start (check_end_of_screen-Stays s at v (IsAt-IsOn o))
    | inr later ↦ rw later (step at v o (ground arith))
  ]
    where
      step :
          (at : CursorPointer) (v : Video)
          → IsOn s (position at v)
          → position at v ≢ s
          → Stays s at v (
              check_end_of_screen s at
                (write (position at v - 2) space (move_to at (position at v - 2) v)))
      step current v o ne =
          Stays-trans
            {v1 = write (v.current_position - 2) space (move_to current (v.current_position - 2) v)}
            (λ q out. ground (arith, o.from, o.before, o.even)) refl
            (check_end_of_screen-Stays s current
              (write (v.current_position - 2) space (move_to current (v.current_position - 2) v))
              (record {
                from = omega (arith, o.from, o.even);
                even = omega (arith, o.from, o.even);
              }))
      step own v o ne =
          Stays-trans {v1 = write (v.own_position - 2) space (move_to own (v.own_position - 2) v)}
            (λ q out. ground (arith, o.from, o.before, o.even)) refl
            (check_end_of_screen-Stays s own
              (write (v.own_position - 2) space (move_to own (v.own_position - 2) v))
              (record {
                from = omega (arith, o.from, o.even);
                even = omega (arith, o.from, o.even);
              }))

  new_line-Stays :
      (at : CursorPointer) (v : Video)
      → IsOn s (position at v)
      → Stays s at v (check_end_of_screen s at (my_new_line s at v))
  new_line-Stays at v o =
      let first = my_new_line-Stays s at v o in
      Stays-trans first.outside first.others
        (check_end_of_screen-Stays s at (my_new_line s at v) (IsAt-IsOn first.on))

  -- A character other than a tab, printed on any screen with any cursor that is on it, leaves the
  -- cursor on that screen, at a character, and writes nothing outside of the screen; the other
  -- cursor stays where it is.
  pub print_characters_inner-Stays :
      (c : ℕ) (at : CursorPointer) (v : Video)
      → c ≢ 9
      → IsOn s (position at v)
      → Stays s at v (print_characters_inner c s at v)
  unfolding print_characters_inner
  print_characters_inner-Stays c at v ne o = elim (Bool-cases (c == 10)) [
    | inl line ↦ rw line (new_line-Stays at v o)
    | inr no_line ↦ elim (Bool-cases (c == 8)) [
      | inl back ↦ rw (no_line, back) (back_space-Stays at v o)
      | inr no_back ↦
          let no_tab : (c == 9) ≡ false = ground arith in
          rw (no_line, no_back, no_tab) (put_at-Stays at c v o)
    ]
  ]

tab_stop-IsAt : (p : ℕ) → IsOn screen p → IsAt screen (tab_stop p)
tab_stop-IsAt p o =
    let d = p - screen in
    let low : (p + 2 ^ 64 - screen) % 2 ^ 32 ≡ d = omega (arith, o.from, o.before) in
    rw low (record {
      from = ground (arith, o.from, o.before);
      even = ground (arith, o.from, o.before, o.even);
    })

-- If the video cursor is on the video screen, at a character, then any character that printCharacters
-- prints leaves it on the screen, at a character, and writes nothing outside of the screen; other
-- cursors stay where they are.
pub print_characters-Stays :
    (c : ℕ) (v : Video)
    → IsOn screen v.current_position
    → Stays screen current v (print_characters c v)
unfolding print_characters
print_characters-Stays c v o = elim (Bool-cases (c == 9)) [
  | inl tab ↦
      let e : c ≡ 9 = ground arith in
      let v1 = record v { current_position = tab_stop v.current_position } in
      rw e (
        unfold print_characters_inner print_tab my_print_tab in
        Stays-trans {at = current} {v = v} {v1 = v1} (λ q _. refl) refl
          (check_end_of_screen-Stays screen current v1 (tab_stop-IsAt v.current_position o)))
  | inr no_tab ↦ print_characters_inner-Stays screen c current v (ground arith) o
]

-- A tab for the screen of a process that has not the focus moves the video cursor: its own cursor
-- and all bytes stay as they are, if its cursor is on its screen. The video cursor goes on by two to
-- 24 bytes, wherever on the video screen it is, with nothing that brings it back from behind the end.
pub print_characters_inner-tab :
    (s : ℕ) (v : Video)
    → IsOn s v.own_position
    → IsOn screen v.current_position
    → (n : ℕ) × (print_characters_inner 9 s own v
        ≡ record v { current_position = v.current_position + n })
      × (2 ≤ n)
      × (n ≤ 24)
unfolding print_characters_inner print_tab my_print_tab check_end_of_screen
print_characters_inner-tab s v mine o =
    let d = v.current_position - screen in
    let low : (v.current_position + 2 ^ 64 - screen) % 2 ^ 32 ≡ d =
      omega (arith, o.from, o.before) in
    let small : ltb d (2 ^ 31) ≡ true = ground (arith, o.from, o.before) in
    let inside : leb (s + 4000) v.own_position ≡ false = ground (arith, mine.before) in
    ((12 - d / 2 % 80 % 12) * 2, rw (inside, low, small) refl, omega arith, omega arith)

-- The text of `n` characters, none of them 0, with a 0 behind it.
pub record IsString (m : Chars) (p n : ℕ) : Type 0 where
  pub proper : (k : ℕ) → k < n → m (p + k) ≢ 0
  pub ends : m (p + n) ≡ 0

print_lem :
    (fuel string : ℕ) (v : Video)
    → v.memory string ≢ 0
    → print (suc fuel) string v
      ≡ print fuel
          (string + 1)
          (check_end_of_screen screen current (put_at current (v.memory string) v))
unfolding print
print_lem fuel string v proper =
    let more : (v.memory string == 0) ≡ false = ground (arith, proper) in rw more refl

-- print ends on a text that does not overlap the video screen, leaves the cursor on the screen, at
-- a character, and writes nothing outside of it.
pub print-Stays :
    (fuel string n : ℕ) (v : Video)
    → IsString v.memory string n
    → (string + n < screen) ⊎ (screen + window_size ≤ string)
    → IsOn screen v.current_position
    → n < fuel
    → (v' : Video) × (print fuel string v ≡ some v') × Stays screen current v v'
print-Stays zero string n v text apart o h = absurd (omega arith)
print-Stays (suc fuel) string zero v text apart o h = (
  v,
  unfold print in ground (arith, text.ends),
  record { on = o; outside = λ q _. refl; others = refl },
)
print-Stays (suc fuel) string (suc n) v text apart o h =
    let first = put_at-Stays screen current (v.memory string) v o in
    let v1 = check_end_of_screen screen current (put_at current (v.memory string) v) in
    let kept : (k : ℕ) → k ≤ suc n → v1.memory (string + k) ≡ v.memory (string + k) =
      λ k le. first.outside (string + k) (ground arith) in
    let (v', done, rest) =
      print-Stays fuel (string + 1) n v1
        (record {
          proper = λ k lt. ground (arith, kept (k + 1), text.proper (k + 1));
          ends = ground (arith, kept (n + 1), text.ends);
        })
        (ground arith) first.on (omega arith) in
    let proper : v.memory string ≢ 0 = ground (arith, text.proper 0 (omega arith)) in
    (
      v',
      print_lem fuel string v proper ∙ done,
      Stays-trans {at = current} {v1 = v1} first.outside first.others rest,
    )

widen-endless : (fuel length divisor : ℕ) → 2 ≤ length → widen fuel length divisor ≡ none
unfolding widen
widen-endless zero length divisor h = refl
widen-endless (suc fuel) length divisor h =
    ground (arith, widen-endless fuel length (divisor * 10 % 2 ^ 32) h)

length_loop-at_least :
    (fuel number length n : ℕ)
    → length_loop fuel number length ≡ some n
    → length + (if number == 0 then 0 else (if ltb number 10 then 1 else 2)) ≤ n
unfolding length_loop
length_loop-at_least zero number length n found = absurd (ground arith)
length_loop-at_least (suc fuel) number length n found = elim (Bool-cases (number == 0)) [
  | inl done ↦ ground arith
  | inr more ↦
      let later = length_loop-at_least fuel (number / 10) (length + 1) n (rw more at found) in
      ground (arith, later)
]

-- printDec of a number of two digits or more does not end.
pub print_dec-endless : (fuel number : ℕ) (v : Video) → 10 ≤ number → print_dec fuel number v ≡ none
unfolding print_dec int_length
print_dec-endless fuel number v h = elim (Option-cases (length_loop fuel number 0)) [
  | inl endless ↦ rw endless refl
  | inr (n, found) ↦
      let two : 2 ≤ n = ground (arith, length_loop-at_least fuel number 0 n found) in
      rw (found, widen-endless fuel n 1 two) refl
]
