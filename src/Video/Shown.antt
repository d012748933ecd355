-- ===== src/Video/Shown.antt =====
-- The text that printCharacters of Kernel/videoDriver.c leaves on the video screen.
use basic_kernel_implementat.Prelude.{
  ℕ, zero, suc, ◌+◌, ◌-◌, ◌*◌, ◌<◌, ◌≤◌, ◌≡◌, refl, ◌∙◌, ◌⊎◌, inl, inr, Bool, true, false, ◌&&◌,
  ◌||◌, List, [], ◌∷◌, arith, length, get_or, ltb, leb, ◌==◌, if◌then◌else◌, Bool-cases,
}
use basic_kernel_implementat.Text.{Chars}
use basic_kernel_implementat.Video.{
  Video, screen, window_size, current, default_color, put_at, check_end_of_screen,
  print_characters_inner, print_characters,
}

-- printCharacters of one character after the other.
abbrev pub print_all : List ℕ → Video → Video
print_all [] v = v
print_all (c ∷ cs) v = print_all cs (print_characters c v)

-- The `n` characters from `p` on.
abbrev pub characters : Chars → (p n : ℕ) → List ℕ
characters m p zero = []
characters m p (suc n) = m p ∷ characters m (p + 1) n

-- No backspace, tab or new line.
abbrev pub all_plain : List ℕ → Bool
all_plain [] = true
all_plain (c ∷ cs) = if (c == 8) || (c == 9) || (c == 10) then false else all_plain cs

-- A text of plain characters that ends before the end of the video screen.
abbrev pub fits : List ℕ → Video → Bool
fits xs v = all_plain xs && ltb (v.current_position + 2 * length xs) (screen + window_size)

-- The text is in the cells from the cursor on, in the default colour, with the cursor behind it, and
-- nothing else is written.
pub record IsShown (xs : List ℕ) (v v' : Video) : Type 0 where
  pub moved : v'.current_position ≡ v.current_position + 2 * length xs
  pub cells : (k : ℕ) → k < length xs → v'.memory (v.current_position + 2 * k) ≡ get_or xs k 0
  pub colours : (k : ℕ) → k < length xs → v'.memory (v.current_position + 2 * k + 1) ≡ default_color
  pub outside :
      (q : ℕ)
      → (q < v.current_position) ⊎ (v.current_position + 2 * length xs ≤ q)
      → v'.memory q ≡ v.memory q

print_characters-plain :
    (c : ℕ) (v : Video)
    → ((c == 8) || (c == 9) || (c == 10)) ≡ false
    → v.current_position + 2 < screen + window_size
    → print_characters c v ≡ put_at current c v
unfolding print_characters print_characters_inner check_end_of_screen
print_characters-plain c v plain room =
    let no_line : (c == 10) ≡ false = ground arith in
    let no_back : (c == 8) ≡ false = ground arith in
    let no_tab : (c == 9) ≡ false = ground arith in
    let inside : leb (screen + 4000) (v.current_position + 2) ≡ false = ground arith in
    rw (no_line, no_back, no_tab, inside) refl

IsShown-cons :
    (c : ℕ) (xs : List ℕ) (v v' : Video)
    → IsShown xs (put_at current c v) v'
    → IsShown (c ∷ xs) v v'
IsShown-cons c xs v v' r =
    let p = v.current_position in
    record {
      moved = omega (arith, r.moved);
      cells = λ k lt. elim (Bool-cases (k == 0)) [
        | inl zeroth ↦
            let e : k ≡ 0 = ground arith in
            let here : p + 2 * 0 ≡ p = omega arith in
            rw (e, here) (r.outside p (inl (omega arith)) ∙ ground arith)
        | inr later ↦
            let at : p + 2 + 2 * (k - 1) ≡ p + 2 * k = ground arith in
            (rw at at (r.cells (k - 1) (ground arith))) ∙ ground arith
      ];
      colours = λ k lt. elim (Bool-cases (k == 0)) [
        | inl zeroth ↦
            let e : k ≡ 0 = ground arith in
            let here : p + 2 * 0 + 1 ≡ p + 1 = omega arith in
            rw (e, here) (r.outside (p + 1) (inl (omega arith)) ∙ ground arith)
        | inr later ↦
            let at : p + 2 + 2 * (k - 1) + 1 ≡ p + 2 * k + 1 = ground arith in
            rw at at (r.colours (k - 1) (ground arith))
      ];
      outside = λ q out. r.outside q (ground arith) ∙ ground arith;
    }

print_all-IsShown :
    (xs : List ℕ) (v : Video)
    → all_plain xs ≡ true
    → v.current_position + 2 * length xs < screen + window_size
    → IsShown xs v (print_all xs v)
print_all-IsShown [] v plain room = record {
  moved = omega arith;
  cells = λ k lt. absurd (omega arith);
  colours = λ k lt. absurd (omega arith);
  outside = λ q out. refl;
}
print_all-IsShown (c ∷ xs) v plain room =
    let first_plain : ((c == 8) || (c == 9) || (c == 10)) ≡ false = ground arith in
    let others_plain : all_plain xs ≡ true = rw first_plain at plain in
    let one = print_characters-plain c v first_plain (omega (arith, room)) in
    let rest = print_all-IsShown xs (put_at current c v) others_plain (omega (arith, room)) in
    rw one (IsShown-cons c xs v (print_all xs (put_at current c v)) rest)

-- Printing the characters of a text shows it, if it fits.
pub print_all-shows :
    (xs : List ℕ) (v : Video) → (fits xs v ≡ false) ⊎ IsShown xs v (print_all xs v)
print_all-shows xs v = elim (Bool-cases (fits xs v)) [
  | inl fit ↦ inr (print_all-IsShown xs v (ground arith) (ground arith))
  | inr not_fit ↦ inl not_fit
]
