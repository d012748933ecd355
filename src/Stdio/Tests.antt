-- ===== src/Stdio/Tests.antt =====
-- A program's memory with texts, and runs of Userland/SampleCodeModule/stdio.c on it.
use basic_kernel_implementat.Prelude.{
  ◌++◌, ℕ, ◌-◌, ◌^◌, ◌≡◌, refl, ◌↔◌, Bool, true, Option, none, some, List, [], ◌∷◌, arith, ltb,
  if◌then◌else◌, update, get_or,
}
use basic_kernel_implementat.Text.{Chars}
use basic_kernel_implementat.Strings.{string_to_num}
use basic_kernel_implementat.Stdio.{
  Stdio, write, putchar, num_loop, out_loop, put_digits, put_num, getchar, ungetc, getline,
  starts_with,
}
use basic_kernel_implementat.Stdio.Format.{printf}
use basic_kernel_implementat.Stdio.Numbers.{decimal, put_num-text_of}
use basic_kernel_implementat.Stdio.ReadBack.{with_text, string_to_num-put_num}
use basic_kernel_implementat.Stdio.Printing.{plain, text, wide_number, printf-render}
use basic_kernel_implementat.Stdio.Input.{IsLine, getchar-ungetc, getline-IsLine}
use basic_kernel_implementat.Stdio.Prefix.{IsPrefix, starts_with-IsPrefix}

abbrev text_from : (p : ℕ) → List ℕ → Chars
text_from p xs a = if ltb a p then 0 else get_or xs (a - p) 0

-- "x%s%5d" is at 100, "207" at 200 and "2" at 300.
abbrev memory : Chars
memory a =
    if ltb a 200
    then text_from 100 (120 ∷ 37 ∷ 115 ∷ 37 ∷ 53 ∷ 100 ∷ []) a
    else if ltb a 300
    then text_from 200 (50 ∷ 48 ∷ 55 ∷ []) a
    else text_from 300 (50 ∷ []) a

abbrev typed : List ℕ → Stdio
typed keys = record { memory = memory; written = []; keys = keys; buffer = λ _. 0; i = 0 }

abbrev written_of : Option Stdio → List ℕ
written_of none = []
written_of (some s) = s.written

-- The least `int` turns into itself, and its digits are negative.
put_num_test :
    written_of (put_num 20 (2 ^ 31) (typed []))
    ≡ 45 ∷ 46 ∷ 47 ∷ 44 ∷ 41 ∷ 44 ∷ 40 ∷ 45 ∷ 42 ∷ 44 ∷ 40 ∷ []
unfolding put_num put_digits num_loop out_loop putchar write
put_num_test = refl

put_num-text_of_example :
    put_num 11 (2 ^ 32 - 120) (typed []) ≡ some (write (45 ∷ 49 ∷ 50 ∷ 48 ∷ []) (typed []))
unfolding decimal
put_num-text_of_example =
    put_num-text_of 11 (2 ^ 32 - 120) (typed []) (omega arith) (omega arith) (omega arith)

string_to_num-put_num_example :
    (xs : List ℕ) × (s' : Stdio) × (put_num 11 207 (typed []) ≡ some s')
    × ◌≡◌ {A = List ℕ} s'.written ([] ++ xs)
    × (string_to_num 11 400 (with_text 400 xs memory) ≡ some 207)
string_to_num-put_num_example =
    string_to_num-put_num 11 207 400 memory (typed []) (omega arith) (omega arith) (omega arith)

printf-render_example :
    printf 12 100 (200 ∷ 42 ∷ []) (typed [])
    ≡ some (write (120 ∷ 50 ∷ 48 ∷ 55 ∷ 32 ∷ 32 ∷ 32 ∷ 52 ∷ 50 ∷ []) (typed []))
unfolding decimal
printf-render_example =
    printf-render 12 100 (200 ∷ 42 ∷ [])
      (plain 120 ∷ text (50 ∷ 48 ∷ 55 ∷ []) ∷ wide_number 5 42 ∷ []) (typed [])
      (
        refl,
        omega arith,
        omega arith,
        omega arith,
        (
          200,
          42 ∷ [],
          refl,
          refl,
          refl,
          (
            refl,
            omega arith,
            omega arith,
            (refl, omega arith, omega arith, (refl, omega arith, omega arith, refl)),
          ),
          omega arith,
          ([], refl, refl, refl, omega arith, refl, omega arith, omega arith, refl),
        ),
      )
      (omega arith) (omega arith)

getchar-ungetc_example :
    getchar (ungetc 65 (typed [])) ≡ some (65, record (typed []) { buffer = update (λ _. 0) 0 65 })
getchar-ungetc_example = getchar-ungetc 65 (typed []) (omega arith)

getline-IsLine_example :
    (s' : Stdio) × (getline 9 500 (typed (97 ∷ 98 ∷ 8 ∷ 99 ∷ 10 ∷ 100 ∷ [])) ≡ some s')
    × IsLine 500 4 (99 ∷ 97 ∷ []) (100 ∷ []) (typed (97 ∷ 98 ∷ 8 ∷ 99 ∷ 10 ∷ 100 ∷ [])) s'
getline-IsLine_example =
    getline-IsLine 9 500 (97 ∷ 98 ∷ 8 ∷ 99 ∷ []) (100 ∷ [])
      (typed (97 ∷ 98 ∷ 8 ∷ 99 ∷ 10 ∷ 100 ∷ [])) refl refl
      (omega arith, (omega arith, (omega arith, (omega arith, tt)))) (omega arith)

starts_with-IsPrefix_example :
    (b : Bool) × (starts_with 5 300 200 memory ≡ some b)
    × ((b ≡ true) ↔ IsPrefix (50 ∷ []) (50 ∷ 48 ∷ 55 ∷ []))
starts_with-IsPrefix_example =
    starts_with-IsPrefix 5 300 200 (50 ∷ []) (50 ∷ 48 ∷ 55 ∷ []) memory
      (refl, omega arith, omega arith, refl)
      (
        refl,
        omega arith,
        omega arith,
        (refl, omega arith, omega arith, (refl, omega arith, omega arith, refl)),
      )
      (omega arith)
