-- ===== src/Stdio/Directives.antt =====
-- The directives of printf of Userland/SampleCodeModule/stdio.c: %s, %c, %d, and %d with a margin.
use native.Mathlib.Nat.{pow-suc}
use basic_kernel_implementat.Prelude.{
  ℕ, zero, suc, ◌+◌, ◌-◌, ◌*◌, ◌/◌, ◌%◌, ◌^◌, ◌≤◌, ◌<◌, ◌≡◌, refl, sym, ap, ◌∙◌, ◌≢◌, inl, inr,
  true, false, ◌&&◌, ◌||◌, some, List, [], ◌∷◌, ◌++◌, arith, ltb, leb, ◌==◌, if◌then◌else◌,
  Bool-cases, length, replicate, length-append,
}
use basic_kernel_implementat.Text.{Chars}
use basic_kernel_implementat.Strings.{strlen, strlen_loop}
use basic_kernel_implementat.Strings.Compare.{TextAt, strlen_loop-length}
use basic_kernel_implementat.Stdio.{
  div_ten, is_digit, Stdio, write, putchar, bytes_at, print_string,
}
use basic_kernel_implementat.Stdio.Format.{
  letter_c, letter_i, lt_int, spaces, margin, width_loop, margin_loop, wide, letter_d, letter_s,
  va_arg, directive,
}
use basic_kernel_implementat.Stdio.Numbers.{
  text_of, decimal, write-write, write-nil, length-decimal, put_num-text_of,
}

abbrev pub magnitude : (n : ℕ) → ℕ
magnitude n = if ltb n (2 ^ 31) then n else 2 ^ 32 - n

-- How many digits the code counts: none for 0.
abbrev pub digits_of : (n : ℕ) → ℕ
digits_of n = length (decimal 10 (magnitude n))

bytes_at-text : (p : ℕ) (xs : List ℕ) (m : Chars) → TextAt m p xs → bytes_at (length xs) p m ≡ xs
bytes_at-text p [] m t = refl
bytes_at-text p (x ∷ xs) m t = rw (t.0, bytes_at-text (p + 1) xs m t.3) refl

print_string-text :
    (fuel a : ℕ) (xs : List ℕ) (s : Stdio)
    → TextAt s.memory a xs
    → length xs < fuel
    → print_string fuel a s ≡ some (write xs s)
unfolding print_string strlen
print_string-text fuel a xs s t h =
    let found : strlen_loop fuel a 0 s.memory ≡ some (length xs) =
      strlen_loop-length fuel a 0 xs s.memory t h ∙ ground arith in
    rw (found, bytes_at-text a xs s.memory t) refl

pub directive-text :
    (fuel format i a : ℕ) (rest xs : List ℕ) (s : Stdio)
    → s.memory (format + i) ≡ letter_s
    → TextAt s.memory a xs
    → length xs < fuel
    → directive fuel format i (a ∷ rest) s ≡ some (i, rest, write xs s)
unfolding directive va_arg
directive-text fuel format i a rest xs s letter t h =
    rw (letter, print_string-text fuel a xs s t h) refl

pub directive-character :
    (fuel format i c : ℕ) (rest : List ℕ) (s : Stdio)
    → s.memory (format + i) ≡ letter_c
    → c < 256
    → directive fuel format i (c ∷ rest) s ≡ some (i, rest, write (c ∷ []) s)
unfolding directive va_arg putchar
directive-character fuel format i c rest s letter h =
    let byte : c % 256 ≡ c = omega arith in rw (letter, byte) refl

pub directive-number :
    (fuel format i n : ℕ) (rest : List ℕ) (s : Stdio)
    → s.memory (format + i) ≡ letter_d
    → n < 2 ^ 32
    → n ≢ 2 ^ 31
    → 10 < fuel
    → directive fuel format i (n ∷ rest) s ≡ some (i, rest, write (text_of n) s)
unfolding directive va_arg
directive-number fuel format i n rest s letter int not_least enough =
    let word : n % 2 ^ 32 ≡ n = omega arith in
    rw (letter, word, put_num-text_of fuel n s int not_least enough) refl

spaces-replicate : (n : ℕ) (s : Stdio) → spaces n s ≡ write (replicate n 32) s
unfolding spaces
spaces-replicate zero s = sym (write-nil s)
spaces-replicate (suc n) s =
    spaces-replicate n (putchar 32 s) ∙ (unfold putchar in write-write (32 ∷ []) (replicate n 32) s)

margin-replicate :
    (length w : ℕ) (s : Stdio)
    → length ≤ 10
    → w < 10
    → margin length w s ≡ write (replicate (w - length) 32) s
unfolding margin
margin-replicate length w s short small = elim (Bool-cases (lt_int length w)) [
  | inl shorter ↦
      let left : (w + 2 ^ 32 - length) % 2 ^ 32 ≡ w - length = ground arith in
      rw (shorter, left) (spaces-replicate (w - length) s)
  | inr longer ↦ let left : w - length ≡ 0 = ground arith in rw (longer, left) (sym (write-nil s))
]

magnitude-div_ten : (n : ℕ) → n < 2 ^ 32 → magnitude (div_ten n) ≡ magnitude n / 10
magnitude-div_ten n h = ground arith

length-decimal_lem :
    (d n : ℕ) → n ≢ 0 → length (decimal (suc d) n) ≡ length (decimal d (n / 10)) + 1
unfolding decimal
length-decimal_lem d n more =
    let test : (n == 0) ≡ false = ground arith in
    rw test (length-append (decimal d (n / 10)) ((n % 10 + 48) ∷ []))

-- The code counts the digits, towards 0.
width_loop-digits :
    (d fuel n before : ℕ)
    → n < 2 ^ 32
    → magnitude n < 10 ^ d
    → d < fuel
    → width_loop fuel n before ≡ some (before + length (decimal d (magnitude n)))
unfolding width_loop
width_loop-digits d zero n before int below h = absurd (omega arith)
width_loop-digits zero (suc fuel) n before int below h =
    let nothing : n ≡ 0 = ground arith in rw nothing (unfold decimal in ground arith)
width_loop-digits (suc d) (suc fuel) n before int below h = elim (Bool-cases (n == 0)) [
  | inl ended ↦ let nothing : n ≡ 0 = ground arith in rw nothing (unfold decimal in ground arith)
  | inr more ↦
      let upper : magnitude n / 10 < 10 ^ d =
        let wide : magnitude n < 10 ^ d * 10 = rw (← pow-suc 10 d) below in omega arith in
      let shorter = magnitude-div_ten n int in
      let below' : magnitude (div_ten n) < 10 ^ d = rw shorter upper in
      let rest =
        width_loop-digits d fuel (div_ten n) (before + 1) (ground arith) below'
          (omega (arith, h)) in
      let count : before + 1 + length (decimal d (magnitude (div_ten n)))
          ≡ before + length (decimal (suc d) (magnitude n)) =
        rw shorter (omega (arith, length-decimal_lem d (magnitude n) (ground arith))) in
      rw more (rest ∙ ap some count)
]

margin_loop-digit :
    (fuel format i w : ℕ) (s : Stdio)
    → s.memory (format + i) ≡ 48 + w
    → w < 10
    → s.memory (format + (i + 1)) ≡ letter_d
    → 1 < fuel
    → margin_loop fuel format i 0 s ≡ some (i + 1, w)
unfolding margin_loop is_digit
margin_loop-digit zero format i w s digit small letter enough = absurd (omega arith)
margin_loop-digit (suc zero) format i w s digit small letter enough = absurd (omega arith)
margin_loop-digit (suc (suc fuel)) format i w s digit small letter enough =
    let first : (leb 48 (48 + w) && leb (48 + w) 57) ≡ true = ground arith in
    let value : (0 * 10 + (48 + w) + 2 ^ 32 - 48) % 2 ^ 32 ≡ w = omega arith in
    rw (digit, letter, first, value) refl

pub directive-wide_number :
    (fuel format i w n : ℕ) (rest : List ℕ) (s : Stdio)
    → s.memory (format + i) ≡ 48 + w
    → w < 10
    → s.memory (format + (i + 1)) ≡ letter_d
    → n < 2 ^ 32
    → n ≢ 2 ^ 31
    → 10 < fuel
    → directive fuel format i (n ∷ rest) s
      ≡ some (i + 1, rest, write (replicate (w - digits_of n) 32 ++ text_of n) s)
unfolding directive wide va_arg
directive-wide_number fuel format i w n rest s digit small letter int not_least enough =
    let not_s : (48 + w == letter_s) ≡ false = ground arith in
    let not_c : (48 + w == letter_c) ≡ false = ground arith in
    let not_number : ((48 + w == letter_d) || (48 + w == letter_i)) ≡ false = ground arith in
    let digit_test : is_digit (48 + w) ≡ true = unfold is_digit in ground arith in
    let word : n % 2 ^ 32 ≡ n = omega arith in
    let read = margin_loop-digit fuel format i w s digit small letter (omega (arith, enough)) in
    let counted : width_loop fuel n 0 ≡ some (digits_of n) =
      width_loop-digits 10 fuel n 0 int (ground arith) enough ∙ ap some (omega arith) in
    let put = put_num-text_of fuel n (margin (digits_of n) w s) int not_least enough in
    let before = margin-replicate (digits_of n) w s (length-decimal 10 (magnitude n)) small in
    let all = write-write (replicate (w - digits_of n) 32) (text_of n) s in
    rw (digit, not_s, not_c, not_number, digit_test, read, letter, word, counted, put, before)
      (ap (λ t. some (i + 1, rest, t)) all)
