-- ===== src/Stdio/Format.antt =====
-- printf of Userland/SampleCodeModule/stdio.c. The format is a text in memory; the arguments are the
-- words that va_arg gives, in order.
use basic_kernel_implementat.Prelude.{
  ◌>>=◌, ℕ, zero, suc, ◌+◌, ◌-◌, ◌*◌, ◌%◌, ◌^◌, Bool, ◌||◌, Option, none, some, List, [], ◌∷◌, ltb,
  ◌==◌, if◌then◌else◌, length,
}
use basic_kernel_implementat.Strings.{strlen}
use basic_kernel_implementat.Stdio.{Stdio, putchar, print_string, div_ten, put_num, is_digit}

abbrev pub percent : ℕ
percent = 37

-- The letters c, d, i and s.
abbrev pub letter_c : ℕ
letter_c = 99

abbrev pub letter_d : ℕ
letter_d = 100

abbrev pub letter_i : ℕ
letter_i = 105

abbrev pub letter_s : ℕ
letter_s = 115

-- The comparison of two `int`s.
abbrev pub lt_int : (a b : ℕ) → Bool
lt_int a b = ltb ((a + 2 ^ 31) % 2 ^ 32) ((b + 2 ^ 31) % 2 ^ 32)

unfoldable pub va_arg : List ℕ → Option (ℕ × List ℕ)
va_arg [] = none
va_arg (a ∷ args) = some (a, args)

-- The loop that prints the margin.
unfoldable pub spaces : (margen : ℕ) → Stdio → Stdio
spaces zero s = s
spaces (suc margen) s = spaces margen (putchar 32 s)

-- The margin that is left for something of this length, if any.
unfoldable pub margin : (length margen : ℕ) → Stdio → Stdio
margin length margen s =
    if lt_int length margen then spaces ((margen + 2 ^ 32 - length) % 2 ^ 32) s else s

-- The loop that counts the digits of a number.
unfoldable pub width_loop : ℕ → (aux length : ℕ) → Option ℕ
width_loop zero aux length = none
width_loop (suc fuel) aux length =
    let rest = width_loop fuel (div_ten aux) (length + 1) in if aux == 0 then some length else rest

-- The loop that reads the margin: where it ends, and the number.
unfoldable pub margin_loop : ℕ → (format i margen : ℕ) → Stdio → Option (ℕ × ℕ)
margin_loop zero format i margen s = none
margin_loop (suc fuel) format i margen s =
    let c = s.memory (format + i) in
    let rest = margin_loop fuel format (i + 1) ((margen * 10 + c + 2 ^ 32 - 48) % 2 ^ 32) s in
    if is_digit c then rest else some (i, margen)

-- What is printed after the margin was read, from the letter at `at`; `i` is its first digit, to
-- which the function goes back if the letter is another one.
unfoldable pub wide : ℕ → (format i at margen : ℕ) → List ℕ → Stdio → Option (ℕ × List ℕ × Stdio)
wide fuel format i at margen args s =
    let c = s.memory (format + at) in
    let text = va_arg args >>= λ a. strlen fuel (a.0) (s.memory) >>= λ length.
    print_string fuel (a.0) (margin length margen s) >>= λ s1. some (at, a.1, s1) in
    let number = va_arg args >>= λ a. width_loop fuel (a.0 % 2 ^ 32) 0 >>= λ length.
    put_num fuel (a.0 % 2 ^ 32) (margin length margen s) >>= λ s1. some (at, a.1, s1) in
    let character = va_arg args >>= λ a.
    some (at, a.1, putchar (a.0) (spaces ((margen + 2 ^ 32 - 1) % 2 ^ 32) s)) in
    if c == letter_s
    then text
    else if (c == letter_d) || (c == letter_i)
    then number
    else if c == letter_c
    then character
    else some (i, args, s)

-- What stands behind a `%`, from the character at `i`; the result is the last character of it.
unfoldable pub directive : ℕ → (format i : ℕ) → List ℕ → Stdio → Option (ℕ × List ℕ × Stdio)
directive fuel format i args s =
    let c = s.memory (format + i) in
    let text = va_arg args >>= λ a. print_string fuel (a.0) s >>= λ s1. some (i, a.1, s1) in
    let number = va_arg args >>= λ a. put_num fuel (a.0 % 2 ^ 32) s >>= λ s1. some (i, a.1, s1) in
    let character = va_arg args >>= λ a. some (i, a.1, putchar (a.0) s) in
    let with_margin =
      margin_loop fuel format i 0 s >>= λ r. wide fuel format i (r.0) (r.1) args s in
    if c == letter_s
    then text
    else if c == letter_c
    then character
    else if (c == letter_d) || (c == letter_i)
    then number
    else if is_digit c
    then with_margin
    else some (i, args, putchar c (putchar percent s))

-- The loops of printf, with `steps` rounds to go.
unfoldable pub printf_loop : (steps fuel format i : ℕ) → List ℕ → Stdio → Option Stdio
printf_loop zero fuel format i args s = none
printf_loop (suc steps) fuel format i args s =
    let c = s.memory (format + i) in
    let rest = printf_loop steps fuel format (i + 1) args (putchar c s) in
    let behind = directive fuel format (i + 1) args s >>= λ r.
    printf_loop steps fuel format (r.0 + 1) (r.1) (r.2) in
    if c == 0 then some s else if c == percent then behind else rest

unfoldable pub printf : ℕ → (format : ℕ) → List ℕ → Stdio → Option Stdio
printf fuel format args s = printf_loop fuel fuel format 0 args s
