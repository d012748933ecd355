-- ===== src/Console.antt =====
-- Kernel/naiveConsole.c: the console of the kernel's start, which writes at 0xB8000 with a cursor of
-- its own, and numbers as texts in a base. `buffer` and the video memory are memories of their own,
-- functions from indices and from addresses.
pub mod Base
pub mod Printing
mod Tests
use basic_kernel_implementat.Prelude.{
  ◌>>=◌, ℕ, zero, suc, ◌+◌, ◌-◌, ◌*◌, ◌/◌, ◌%◌, Option, none, some, ltb, ◌==◌, if◌then◌else◌,
  update,
}
use basic_kernel_implementat.Text.{Chars}

abbrev pub video : ℕ
video = 0xB8000

abbrev pub width : ℕ
width = 80

abbrev pub height : ℕ
height = 25

pub record Console : Type 0 where
  pub buffer : Chars
  pub cells : Chars
  pub current_video : ℕ

abbrev pub nc_print_char : (character : ℕ) → Console → Console
nc_print_char character c = record c {
  cells = update c.cells c.current_video character;
  current_video = c.current_video + 2;
}

-- From character `i` of the text on.
unfoldable pub nc_print_loop : ℕ → (string : Chars) (i : ℕ) → Console → Option Console
nc_print_loop zero string i c = none
nc_print_loop (suc fuel) string i c =
    let rest = nc_print_loop fuel string (i + 1) (nc_print_char (string i) c) in
    if string i == 0 then some c else rest

unfoldable pub nc_print : ℕ → (string : Chars) → Console → Option Console
nc_print fuel string c = nc_print_loop fuel string 0 c

unfoldable pub nc_newline : ℕ → Console → Option Console
nc_newline zero c = none
nc_newline (suc fuel) c =
    let c1 = nc_print_char 32 c in
    let rest = nc_newline fuel c1 in
    if (c1.current_video - video) % (width * 2) == 0 then some c1 else rest

abbrev pub digit : (remainder : ℕ) → ℕ
digit remainder = if ltb remainder 10 then remainder + 48 else remainder + 65 - 10

-- The first loop of uintToBase: the last digit first. It gives the end of the digits.
unfoldable pub digits_loop : ℕ → (value base p : ℕ) → Chars → Option (ℕ × Chars)
digits_loop zero value base p buffer = none
digits_loop (suc fuel) value base p buffer =
    let written = update buffer p (digit (value % base)) in
    let rest = digits_loop fuel (value / base) base (p + 1) written in
    if value / base == 0 then some (p + 1, written) else rest

-- The loop that turns the characters from `p1` to `p2` round.
unfoldable pub reverse_loop : ℕ → (p1 p2 : ℕ) → Chars → Option Chars
reverse_loop zero p1 p2 buffer = none
reverse_loop (suc fuel) p1 p2 buffer =
    let swapped = update (update buffer p1 (buffer p2)) p2 (buffer p1) in
    let rest = reverse_loop fuel (p1 + 1) (p2 - 1) swapped in
    if ltb p1 p2 then rest else some buffer

-- The buffer starts at index 0.
unfoldable pub uint_to_base : ℕ → (value base : ℕ) → Chars → Option (ℕ × Chars)
uint_to_base fuel value base buffer = do
  (p, written) ← digits_loop fuel value base 0 buffer
  reversed ← reverse_loop fuel 0 (p - 1) (update written p 0)
  some (p, reversed)

unfoldable pub nc_print_base : ℕ → (value base : ℕ) → Console → Option Console
nc_print_base fuel value base c = do
  (_, buffer) ← uint_to_base fuel value base c.buffer
  nc_print fuel buffer (record c { buffer = buffer })

unfoldable pub nc_print_dec : ℕ → (value : ℕ) → Console → Option Console
nc_print_dec fuel value c = nc_print_base fuel value 10 c

unfoldable pub nc_print_hex : ℕ → (value : ℕ) → Console → Option Console
nc_print_hex fuel value c = nc_print_base fuel value 16 c

unfoldable pub nc_print_bin : ℕ → (value : ℕ) → Console → Option Console
nc_print_bin fuel value c = nc_print_base fuel value 2 c

-- The loop of ncClear, with `left` characters to go.
unfoldable pub nc_clear_loop : (left i : ℕ) → Chars → Chars
nc_clear_loop zero i cells = cells
nc_clear_loop (suc left) i cells = nc_clear_loop left (i + 1) (update cells (video + i * 2) 32)

unfoldable pub nc_clear : Console → Console
nc_clear c = record c { cells = nc_clear_loop (height * width) 0 c.cells; current_video = video }
