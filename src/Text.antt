-- ===== src/Text.antt =====
-- Kernel/myStdLib.c: numbers as texts in the memory of characters, which is a function from
-- addresses. The numbers are those that the kernel gives to processes, which are not negative.
pub mod Digits
use basic_kernel_implementat.Prelude.{
  ℕ, zero, suc, ◌+◌, ◌*◌, ◌/◌, ◌%◌, Option, none, some, ◌==◌, if◌then◌else◌, ◌>>=◌, update,
}

abbrev pub Chars : Type 0
Chars = ℕ → ℕ

-- The loop of intLength.
unfoldable pub length_loop : ℕ → (number length : ℕ) → Option ℕ
length_loop zero number length = none
length_loop (suc fuel) number length =
    let rest = length_loop fuel (number / 10) (length + 1) in
    if number == 0 then some length else rest

unfoldable pub int_length : ℕ → (number : ℕ) → Option ℕ
int_length fuel number = length_loop fuel number 0

-- The loop of itoa: the last digit first.
unfoldable pub write_digits : (aux value str : ℕ) → Chars → Chars
write_digits zero value str c = c
write_digits (suc aux) value str c =
    write_digits aux (value / 10) str (update c (str + aux) (value % 10 + 48))

unfoldable pub itoa : ℕ → (value str : ℕ) → Chars → Option (ℕ × Chars)
itoa fuel value str c = do
  length ← int_length fuel value
  let c1 = if length == 0 then update (update c str 48) (str + 1) 0 else c
  some (length, write_digits length value str (update c1 (str + length) 0))
