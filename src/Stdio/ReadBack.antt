-- ===== src/Stdio/ReadBack.antt =====
-- stringToNum of Userland/SampleCodeModule/string.c on the text that putNum of
-- Userland/SampleCodeModule/stdio.c prints.
use basic_kernel_implementat.Prelude.{
  ℕ, zero, suc, ◌+◌, ◌-◌, ◌*◌, ◌%◌, ◌^◌, ◌<◌, ◌≡◌, refl, ap, ◌∙◌, true, false, some, List, [], ◌∷◌,
  ◌++◌, arith, ltb, ◌==◌, update, ◌≤◌, All, length,
}
use basic_kernel_implementat.Text.{Chars}
use basic_kernel_implementat.Stdio.{Stdio, write, put_num}
use basic_kernel_implementat.Strings.{string_to_num_loop, string_to_num, char_int}
use basic_kernel_implementat.Strings.Compare.{TextAt}
use basic_kernel_implementat.Stdio.Numbers.{
  decimal, number_of, length-decimal, number_of-decimal, decimal-digits, text_of, put_num-text_of,
}

number_of-before : (before : ℕ) (xs : List ℕ) → before ≤ number_of before xs
number_of-before before [] = omega arith
number_of-before before (x ∷ xs) = omega (arith, number_of-before (before * 10 + (x - 48)) xs)

-- stringToNum on a text of digits, behind a number.
string_to_num_loop-number_of :
    (fuel p before : ℕ) (xs : List ℕ) (m : Chars)
    → TextAt m p xs
    → All (λ x. (48 ≤ x) × (x ≤ 57)) xs
    → number_of before xs < 2 ^ 32
    → length xs < fuel
    → string_to_num_loop fuel p before m ≡ some (number_of before xs)
unfolding string_to_num_loop
string_to_num_loop-number_of zero p before xs m t digits small h = absurd (omega arith)
string_to_num_loop-number_of (suc fuel) p before [] m t digits small h = rw t refl
string_to_num_loop-number_of (suc fuel) p before (x ∷ xs) m t digits small h =
    let more : (x == 0) ≡ false = ground (arith, t.1) in
    let sum : (before * 10 + char_int x + 2 ^ 32 - 48) % 2 ^ 32 ≡ before * 10 + (x - 48) =
      ground (arith, number_of-before (before * 10 + (x - 48)) xs, digits.0, small) in
    rw (t.0, more, sum)
      (string_to_num_loop-number_of fuel (p + 1) (before * 10 + (x - 48)) xs m t.3 digits.1 small
        (omega arith))

-- stringToNum gives back a number other than 0 from the text of its digits.
string_to_num-text_of :
    (fuel num p : ℕ) (m : Chars)
    → 0 < num
    → num < 2 ^ 31
    → 10 < fuel
    → TextAt m p (text_of num)
    → string_to_num fuel p m ≡ some num
unfolding string_to_num
string_to_num-text_of fuel num p m some_digit small enough t =
    let more : (num == 0) ≡ false = ground arith in
    let positive : ltb num (2 ^ 31) ≡ true = ground arith in
    let printed : text_of num ≡ decimal 10 num = rw (more, positive) refl in
    let value = number_of-decimal 10 num (omega (arith, small)) in
    string_to_num_loop-number_of fuel p 0 (decimal 10 num) m (rw (← printed) t)
      (decimal-digits 10 num) (omega (arith, value, small))
      (omega (arith, length-decimal 10 num, enough))
    ∙ ap some value

-- The memory with a text and a 0 behind it at `p`.
abbrev pub with_text : (p : ℕ) → List ℕ → Chars → Chars
with_text p [] m = update m p 0
with_text p (x ∷ xs) m = update (with_text (p + 1) xs m) p x

TextAt-frame :
    (p : ℕ) (xs : List ℕ) (m m' : Chars)
    → ((q : ℕ) → p ≤ q → m' q ≡ m q)
    → TextAt m p xs
    → TextAt m' p xs
TextAt-frame p [] m m' same t = same p (omega arith) ∙ t
TextAt-frame p (x ∷ xs) m m' same (at, proper, byte, rest) = (
  same p (omega arith) ∙ at,
  proper,
  byte,
  TextAt-frame (p + 1) xs m m' (λ q le. same q (omega arith)) rest,
)

TextAt-with_text :
    (p : ℕ) (xs : List ℕ) (m : Chars)
    → All (λ x. (48 ≤ x) × (x ≤ 57)) xs
    → TextAt (with_text p xs m) p xs
TextAt-with_text p [] m digits = ground arith
TextAt-with_text p (x ∷ xs) m digits = (
  ground arith,
  omega (arith, digits.0),
  omega (arith, digits.0),
  TextAt-frame (p + 1) xs (with_text (p + 1) xs m) (update (with_text (p + 1) xs m) p x)
      (λ q le. ground arith) (TextAt-with_text (p + 1) xs m digits.1),
)

-- For an `int` above 0, putNum ends and prints a text; and wherever that text lies in any memory, with
-- a 0 behind it, stringToNum of it ends and gives the number.
pub string_to_num-put_num :
    (fuel num p : ℕ) (m : Chars) (s : Stdio)
    → 0 < num
    → num < 2 ^ 31
    → 10 < fuel
    → (xs : List ℕ) × (s' : Stdio) × (put_num fuel num s ≡ some s')
      × (s'.written ≡ s.written ++ xs)
      × (string_to_num fuel p (with_text p xs m) ≡ some num)
string_to_num-put_num fuel num p m s some_digit small enough =
    let more : (num == 0) ≡ false = ground arith in
    let positive : ltb num (2 ^ 31) ≡ true = ground arith in
    let printed : text_of num ≡ decimal 10 num = rw (more, positive) refl in
    (
      text_of num,
      write (text_of num) s,
      put_num-text_of fuel num s (omega arith) (omega arith) enough,
      unfold write in refl,
      string_to_num-text_of fuel num p (with_text p (text_of num) m) some_digit small enough
          (TextAt-with_text p (text_of num) m (rw printed (decimal-digits 10 num))),
    )
