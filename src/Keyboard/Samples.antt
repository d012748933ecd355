-- ===== src/Keyboard/Samples.antt =====
-- A keyboard with one character waiting.
use basic_kernel_implementat.Prelude.{
  ℕ, zero, suc, ◌<◌, ◌≡◌, refl, [], ◌∷◌, false, arith, get_or, ◌==◌, if◌then◌else◌,
}
use basic_kernel_implementat.Prelude.Int.{pos}
use basic_kernel_implementat.Ring.{place}
use basic_kernel_implementat.Keyboard.{Keyboard, buffer_size}
use basic_kernel_implementat.Keyboard.Queue.{HoldsKeys}

abbrev pub keyboard : Keyboard
keyboard = record {
  buffer = λ i. if i == 99 then 65 else 0;
  current = 99;
  last = 0;
  uppercase = pos 1;
  alt_key = false;
}

keyboard_contents :
    (k : ℕ) → k < buffer_size → keyboard.buffer (place buffer_size 99 k) ≡ get_or (65 ∷ []) k 0
keyboard_contents zero h = refl
keyboard_contents (suc k) h = ground arith

pub keyboard-HoldsKeys : HoldsKeys keyboard (65 ∷ [])
keyboard-HoldsKeys = record {
  read_in = omega arith;
  fits = omega arith;
  write_at = refl;
  proper = (omega arith, tt);
  contents = keyboard_contents;
}
