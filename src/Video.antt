-- ===== src/Video.antt =====
-- Kernel/videoDriver.c: the screen at 0xB8000, two bytes for each of 80 times 25 characters, and the
-- cursors. An address is a number below 2 ^ 64. The cursor that a function gets as `char **` is
-- either the global `currentPosition` or a variable of the caller, of which there is one at a time.
pub mod Copying
pub mod Backup
pub mod Cursor
pub mod Printing
pub mod Shown
mod Tests
use basic_kernel_implementat.Prelude.{
  ℕ, zero, suc, ◌+◌, ◌-◌, ◌*◌, ◌/◌, ◌%◌, ◌^◌, Option, none, some, ltb, leb, ◌==◌, if◌then◌else◌,
  ◌>>=◌, update,
}
use basic_kernel_implementat.Text.{Chars, int_length}

abbrev pub window_width : ℕ
window_width = 80

abbrev pub window_height : ℕ
window_height = 25

abbrev pub window_size : ℕ
window_size = window_width * window_height * 2

abbrev pub default_color : ℕ
default_color = 0x0F

abbrev pub end_of_screen : ℕ
end_of_screen = window_width * 2 * window_height

abbrev pub tab_size : ℕ
tab_size = 12

abbrev pub space : ℕ
space = 32

abbrev pub screen : ℕ
screen = 0xB8000

-- The memory, the global cursor, and the cursor that a caller keeps in a variable.
pub record Video : Type 0 where
  pub memory : Chars
  pub current_position : ℕ
  pub own_position : ℕ

-- What a `char **` leads to.
pub data CursorPointer : Type 0 where
  current own : CursorPointer

abbrev pub position : CursorPointer → Video → ℕ
position current v = v.current_position
position own v = v.own_position

abbrev pub move_to : CursorPointer → ℕ → Video → Video
move_to current p v = record v { current_position = p }
move_to own p v = record v { own_position = p }

abbrev pub write : (p c : ℕ) → Video → Video
write p c v = record v { memory = update v.memory p c }

-- The difference of two pointers as an `int`: the pattern of its 32 bits.
abbrev pub int_distance : (p q : ℕ) → ℕ
int_distance p q = (p + 2 ^ 64 - q) % 2 ^ 32

-- A pointer moved by an `int`.
abbrev pub move_by : (p distance : ℕ) → ℕ
move_by p distance =
    if ltb distance (2 ^ 31)
    then (p + distance) % 2 ^ 64
    else (p + distance + 2 ^ 64 - 2 ^ 32) % 2 ^ 64

-- The loop of clear, with `left` bytes to go.
unfoldable pub clear_loop : (left i screen_to_clear : ℕ) → Chars → Chars
clear_loop zero i screen_to_clear m = m
clear_loop (suc left) i screen_to_clear m =
    clear_loop left (i + 1) screen_to_clear
      (update m (screen_to_clear + i) (if i % 2 == 1 then default_color else space))

unfoldable pub clear : (screen_to_clear : ℕ) → Chars → Chars
clear screen_to_clear m = clear_loop window_size 0 screen_to_clear m

unfoldable pub clear_screen : Video → Video
clear_screen v = record v { memory = clear screen v.memory; current_position = screen }

-- The loops that copy `left` bytes, the first one first.
unfoldable pub copy_loop : (left to from : ℕ) → Chars → Chars
copy_loop zero to from m = m
copy_loop (suc left) to from m = copy_loop left (to + 1) (from + 1) (update m to (m from))

unfoldable pub set_screen : (my_screen my_current_pos : ℕ) → Video → Video
set_screen my_screen my_current_pos v = record v {
  memory = copy_loop window_size screen my_screen v.memory;
  current_position = move_by screen (int_distance my_current_pos my_screen);
}

unfoldable pub backup_content : (backup : ℕ) → Video → ℕ × Video
backup_content backup v = (
  move_by backup (int_distance v.current_position screen),
  record v { memory = copy_loop window_size backup screen v.memory },
)

-- The loop of moveScreenUp that clears the last line, with `left` characters to go.
unfoldable pub clear_line : (left p : ℕ) → Chars → Chars
clear_line zero p m = m
clear_line (suc left) p m =
    clear_line left (p + 2) (update (update m p space) (p + 1) default_color)

abbrev pub last_line : ℕ → ℕ
last_line my_screen = my_screen + end_of_screen - window_width * 2

unfoldable pub move_screen_up : (my_screen : ℕ) → CursorPointer → Video → Video
move_screen_up my_screen at v =
    let m1 =
      copy_loop (window_width * 2 * (window_height - 1)) my_screen (my_screen + window_width * 2)
        v.memory in
    move_to at (last_line my_screen)
      (record v { memory = clear_line window_width (last_line my_screen) m1 })

unfoldable pub check_end_of_screen : (my_screen : ℕ) → CursorPointer → Video → Video
check_end_of_screen my_screen at v =
    if leb (my_screen + end_of_screen) (position at v) then move_screen_up my_screen at v else v

-- A character and its colour at the cursor, which moves on.
abbrev pub put_at : CursorPointer → (c : ℕ) → Video → Video
put_at at c v =
    let p = position at v in move_to at (p + 2) (write (p + 1) default_color (write p c v))

unfoldable pub print : ℕ → (string : ℕ) → Video → Option Video
print zero string v = none
print (suc fuel) string v =
    let c = v.memory string in
    let rest = print fuel (string + 1) (check_end_of_screen screen current (put_at current c v)) in
    if c == 0 then some v else rest

-- The remainder of a negative difference is negative.
abbrev pub next_line : (my_screen p : ℕ) → ℕ
next_line my_screen p =
    if leb my_screen p
    then p + window_width * 2 - (p - my_screen) % (window_width * 2)
    else p + (my_screen - p) % (window_width * 2) + window_width * 2

unfoldable pub my_new_line : (my_screen : ℕ) → CursorPointer → Video → Video
my_new_line my_screen at v =
    check_end_of_screen my_screen at (move_to at (next_line my_screen (position at v)) v)

unfoldable pub new_line : Video → Video
new_line v = my_new_line screen current v

unfoldable pub back_space : (my_screen : ℕ) → CursorPointer → Video → Video
back_space my_screen at v =
    let p = position at v in
    if p == my_screen then v else write (p - 2) space (move_to at (p - 2) v)

-- The cursor behind a tab. Where the distance is negative, so are half of it and the column.
abbrev pub tab_stop : ℕ → ℕ
tab_stop p =
    let d = int_distance p screen in
    if ltb d (2 ^ 31)
    then p + (tab_size - d / 2 % window_width % tab_size) * 2
    else p + (tab_size + (2 ^ 32 - d) / 2 % window_width % tab_size) * 2

unfoldable pub my_print_tab : CursorPointer → Video → Video
my_print_tab at v = move_to at (tab_stop (position at v)) v

-- printTab takes no argument, and ignores the one that printCharactersInner gives it.
unfoldable pub print_tab : Video → Video
print_tab v = my_print_tab current v

unfoldable pub print_characters_inner : (character my_screen : ℕ) → CursorPointer → Video → Video
print_characters_inner character my_screen at v = check_end_of_screen my_screen at (
    if character == 10
    then my_new_line my_screen at v
    else (if character == 8
        then back_space my_screen at v
        else (if character == 9 then print_tab v else put_at at character v)))

unfoldable pub print_characters : (character : ℕ) → Video → Video
print_characters character v = print_characters_inner character screen current v

-- The first loop of printDec.
unfoldable pub widen : ℕ → (length divisor : ℕ) → Option ℕ
widen zero length divisor = none
widen (suc fuel) length divisor =
    let rest = widen fuel length (divisor * 10 % 2 ^ 32) in
    if ltb 0 (length - 1) then rest else some divisor

unfoldable pub print_digits : ℕ → (number divisor : ℕ) → Video → Option Video
print_digits zero number divisor v = none
print_digits (suc fuel) number divisor v =
    let rest =
      print_digits fuel (number / 10) (divisor / 10) (print_characters (number % 10 + 48) v) in
    if divisor == 0 then some v else rest

unfoldable pub print_dec : ℕ → (number : ℕ) → Video → Option Video
print_dec fuel number v = do
  length ← int_length fuel number
  divisor ← widen fuel length 1
  print_digits fuel number divisor v
