-- ===== src/Stdio.antt =====
-- Userland/SampleCodeModule/stdio.c: the input and the output of user programs. The system calls are
-- assembly: a call of write is the bytes that are given to it, in order, and a call of read, which waits
-- for a key, gives the next key. Functions that wait for more keys than there are have no result, and
-- neither have those that take more arguments than there are. An `int` is the pattern of its 32 bits.
pub mod Numbers
pub mod ReadBack
pub mod Format
pub mod Directives
pub mod Printing
pub mod Input
pub mod Prefix
mod Tests
use basic_kernel_implementat.Prelude.{
  ℕ, zero, suc, ◌+◌, ◌-◌, ◌/◌, ◌%◌, ◌^◌, Bool, true, false, ◌&&◌, Option, none, some, List, [], ◌∷◌,
  ◌++◌, ltb, leb, ◌==◌, if◌then◌else◌, update, ◌>>=◌, length,
}
use basic_kernel_implementat.Text.{Chars}
use basic_kernel_implementat.Strings.{strlen}

abbrev pub newline : ℕ
newline = 10

abbrev pub backspace : ℕ
backspace = 8

-- The memory of the program, what it has written, the keys to come, and `buffer` with its `i` in
-- which ungetc puts characters back.
pub record Stdio : Type 0 where
  pub memory : Chars
  pub written : List ℕ
  pub keys : List ℕ
  pub buffer : Chars
  pub i : ℕ

-- The call of write.
unfoldable pub write : List ℕ → Stdio → Stdio
write bytes s = record s { written = s.written ++ bytes }

unfoldable pub putchar : (c : ℕ) → Stdio → Stdio
putchar c s = write (c % 256 ∷ []) s

-- The bytes of the buffer that is given to write.
abbrev pub bytes_at : (length p : ℕ) → Chars → List ℕ
bytes_at zero p m = []
bytes_at (suc length) p m = m p ∷ bytes_at length (p + 1) m

unfoldable pub print_string : ℕ → (str : ℕ) → Stdio → Option Stdio
print_string fuel str s =
    strlen fuel str s.memory >>= λ length. some (write (bytes_at length str s.memory) s)

unfoldable pub puts : ℕ → (str : ℕ) → Stdio → Option Stdio
puts fuel str s = print_string fuel str s >>= λ s1. some (putchar newline s1)

-- `/ 10` and `% 10` of an `int`, towards 0.
abbrev pub div_ten : ℕ → ℕ
div_ten n = if ltb n (2 ^ 31) then n / 10 else (2 ^ 32 - (2 ^ 32 - n) / 10) % 2 ^ 32

abbrev pub rem_ten : ℕ → ℕ
rem_ten n = if ltb n (2 ^ 31) then n % 10 else (2 ^ 32 - (2 ^ 32 - n) % 10) % 2 ^ 32

-- The loops of putNum: the last digit first into a buffer, then out of it.
unfoldable pub num_loop : ℕ → (num i : ℕ) → (buffer : Chars) → Option (ℕ × Chars)
num_loop zero num i buffer = none
num_loop (suc fuel) num i buffer =
    let rest = num_loop fuel (div_ten num) (i + 1) (update buffer i (rem_ten num % 256)) in
    if num == 0 then some (i, buffer) else rest

unfoldable pub out_loop : (i : ℕ) → (buffer : Chars) → Stdio → Stdio
out_loop zero buffer s = s
out_loop (suc i) buffer s = out_loop i buffer (putchar (buffer i + 48) s)

unfoldable pub put_digits : ℕ → (num : ℕ) → Stdio → Option Stdio
put_digits fuel num s = num_loop fuel num 0 (λ _. 0) >>= λ r. some (out_loop r.0 r.1 s)

unfoldable pub put_num : ℕ → (num : ℕ) → Stdio → Option Stdio
put_num fuel num s =
    if num == 0
    then some (putchar 48 s)
    else if ltb num (2 ^ 31)
    then put_digits fuel num s
    else put_digits fuel ((2 ^ 32 - num) % 2 ^ 32) (putchar 45 s)

-- A `char` has a sign.
unfoldable pub is_digit : (c : ℕ) → Bool
is_digit c = leb 48 c && leb c 57

unfoldable pub getchar : Stdio → Option (ℕ × Stdio)
getchar s =
    if ltb 0 (s.i) then some (s.buffer (s.i - 1), record s { i = s.i - 1 }) else read_key (s.keys)
  where
    read_key : List ℕ → Option (ℕ × Stdio)
    read_key [] = none
    read_key (c ∷ keys) = some (c, record s { keys = keys })

unfoldable pub ungetc : (c : ℕ) → Stdio → Stdio
ungetc c s = record s { buffer = update (s.buffer) (s.i) (c % 256); i = s.i + 1 }

-- The loop of getline.
unfoldable pub getline_loop : ℕ → (buffer i : ℕ) → Stdio → Option Stdio
getline_loop zero buffer i s = none
getline_loop (suc fuel) buffer i s = getchar s >>= λ r.
    let c = r.0 in
    let s1 = r.1 in
    let ended = putchar newline s1 in
    let stored =
      getline_loop fuel buffer (i + 1) (record s1 { memory = update (s1.memory) (buffer + i) c }) in
    let erased = getline_loop fuel buffer (i - 1) s1 in
    if c == newline
    then some (record ended { memory = update (ended.memory) (buffer + i) 0 })
    else if c == backspace
    then erased
    else stored

unfoldable pub getline : ℕ → (buffer : ℕ) → Stdio → Option Stdio
getline fuel buffer s = getline_loop fuel buffer 0 s

unfoldable pub starts_with : ℕ → (str1 str2 : ℕ) → Chars → Option Bool
starts_with zero str1 str2 m = none
starts_with (suc fuel) str1 str2 m =
    let rest = starts_with fuel (str1 + 1) (str2 + 1) m in
    if m str1 == 0 then some true else if m str1 == m str2 then rest else some false
