-- ===== src/Keyboard.antt =====
-- Kernel/keyBoadDriver.c: the keys that are held, the characters of the keys, and the buffer of
-- characters that no process has read. An `int` of the buffer is a number.
pub mod Queue
pub mod Handler
pub mod Samples
mod Tests
use basic_kernel_implementat.Prelude.{
  ℕ, zero, suc, ◌+◌, List, [], ◌∷◌, Bool, true, false, ◌&&◌, ◌||◌, Option, none, some, get_or, ltb,
  leb, ◌==◌, if◌then◌else◌, ◌>>=◌, update,
}
use basic_kernel_implementat.Prelude.Int.{ℤ, pos, negsuc}
use basic_kernel_implementat.Kernel.{Kernel, t_blocked_io}
use basic_kernel_implementat.Kernel.Blocking.{unblock_all_threads}

abbrev pub buffer_size : ℕ
buffer_size = 100

abbrev l_shift_pressed : ℕ
l_shift_pressed = 0x2A

abbrev l_shift_released : ℕ
l_shift_released = 0xAA

abbrev r_shift_pressed : ℕ
r_shift_pressed = 0x36

abbrev r_shift_released : ℕ
r_shift_released = 0xB6

abbrev caps_lock_pressed : ℕ
caps_lock_pressed = 0x3A

abbrev alt_pressed : ℕ
alt_pressed = 0x38

abbrev alt_released : ℕ
alt_released = 0xB8

abbrev l_arrow_pressed : ℕ
l_arrow_pressed = 0x4B

abbrev r_arrow_pressed : ℕ
r_arrow_pressed = 0x4D

-- The tables of characters, which go on with 0 up to key 127.
abbrev l_keyboard : List ℕ
l_keyboard =
    0 ∷ 96 ∷ 49 ∷ 50 ∷ 51 ∷ 52 ∷ 53 ∷ 54 ∷ 55 ∷ 56 ∷ 57 ∷ 48 ∷ 45 ∷ 61 ∷ 8 ∷ 9 ∷ 113 ∷ 119 ∷ 101
    ∷ 114 ∷ 116 ∷ 121 ∷ 117 ∷ 105 ∷ 111 ∷ 112 ∷ 91 ∷ 93 ∷ 10 ∷ 0 ∷ 97 ∷ 115 ∷ 100 ∷ 102 ∷ 103 ∷ 104
    ∷ 106 ∷ 107 ∷ 108 ∷ 59 ∷ 39 ∷ 92 ∷ 0 ∷ 0 ∷ 122 ∷ 120 ∷ 99 ∷ 118 ∷ 98 ∷ 110 ∷ 109 ∷ 44 ∷ 46 ∷ 47
    ∷ 0 ∷ 0 ∷ 0 ∷ 32 ∷ []

abbrev u_keyboard : List ℕ
u_keyboard =
    0 ∷ 126 ∷ 33 ∷ 64 ∷ 35 ∷ 36 ∷ 37 ∷ 94 ∷ 38 ∷ 42 ∷ 40 ∷ 41 ∷ 95 ∷ 43 ∷ 8 ∷ 9 ∷ 81 ∷ 87 ∷ 69 ∷ 82
    ∷ 84 ∷ 89 ∷ 85 ∷ 73 ∷ 79 ∷ 80 ∷ 123 ∷ 125 ∷ 10 ∷ 0 ∷ 65 ∷ 83 ∷ 68 ∷ 70 ∷ 71 ∷ 72 ∷ 74 ∷ 75 ∷ 76
    ∷ 58 ∷ 34 ∷ 124 ∷ 0 ∷ 0 ∷ 90 ∷ 88 ∷ 67 ∷ 86 ∷ 66 ∷ 78 ∷ 77 ∷ 60 ∷ 62 ∷ 63 ∷ 0 ∷ 0 ∷ 0 ∷ 32 ∷ []

-- The globals; `current` and `last` are the distances of the pointers from `buffer`.
pub record Keyboard : Type 0 where
  pub buffer : ℕ → ℕ
  pub current : ℕ
  pub last : ℕ
  pub uppercase : ℤ
  pub alt_key : Bool

abbrev negate : ℤ → ℤ
negate (pos zero) = pos zero
negate (pos (suc n)) = negsuc n
negate (negsuc n) = pos (suc n)

abbrev is_minus_one : ℤ → Bool
is_minus_one (pos n) = false
is_minus_one (negsuc n) = n == 0

abbrev is_shift : ℕ → Bool
is_shift key =
    (key == l_shift_pressed)
    || (key == r_shift_pressed)
    || (key == l_shift_released)
    || (key == r_shift_released)
    || (key == caps_lock_pressed)

unfoldable pub press_shift : (key : ℕ) → Keyboard → Keyboard
press_shift key b = if is_shift key then record b { uppercase = negate b.uppercase } else b

-- What checkSwapScreen asks of the screens.
pub data ScreenSwap : Type 0 where
  stay previous_screen next_screen : ScreenSwap

unfoldable pub check_swap_screen : (key : ℕ) → Keyboard → Keyboard × ScreenSwap
check_swap_screen key b =
    let alt =
      if key == alt_pressed then true else (if key == alt_released then false else b.alt_key) in
    let swap =
      if alt && (key == l_arrow_pressed)
      then previous_screen
      else (if alt && (key == r_arrow_pressed) then next_screen else stay) in
    (record b { alt_key = alt }, swap)

unfoldable pub character_of : (key : ℕ) → Keyboard → ℕ
character_of key b =
    if is_minus_one b.uppercase then get_or u_keyboard key 0 else get_or l_keyboard key 0

-- A pointer into the buffer, one place on.
abbrev pub advance : ℕ → ℕ
advance p = if leb buffer_size (p + 1) then 0 else p + 1

-- The last part of keyBoardHandler: a character is stored if there is room, and the threads of the
-- process that has the focus are woken.
unfoldable pub put_key : ℕ → (focus character : ℕ) → Keyboard → Kernel → Option (Keyboard × Kernel)
put_key fuel focus character b k =
    let stored = record b { buffer = update b.buffer b.last character; last = advance b.last } in
    if (b.buffer b.last == 0) && ltb 0 character
    then (unblock_all_threads fuel focus t_blocked_io k >>= λ k1. some (stored, k1))
    else some (b, k)

unfoldable pub get_key : Keyboard → ℕ × Keyboard
get_key b = if b.buffer b.current == 0 then (0, b) else (
  b.buffer b.current,
  record b { buffer = update b.buffer b.current 0; current = advance b.current },
)
