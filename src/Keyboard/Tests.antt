-- ===== src/Keyboard/Tests.antt =====
-- Runs of Kernel/keyBoadDriver.c, and the witnesses.
use basic_kernel_implementat.Prelude.{
  ℕ, List, ◌==◌, if◌then◌else◌, ◌≡◌, refl, [], ◌∷◌, ◌++◌, some, arith, true, has,
}
use basic_kernel_implementat.Kernel.{Kernel, t_blocked_io, t_running}
use basic_kernel_implementat.Kernel.Samples.{two}
use basic_kernel_implementat.Kernel.Lookup.{get_process_with_pid, process_loop}
use basic_kernel_implementat.Kernel.Blocking.All.{threads_of, Waits, IsWoken}
use basic_kernel_implementat.Keyboard.{Keyboard, put_key, press_shift, character_of}
use basic_kernel_implementat.Screens.{Screens}
use basic_kernel_implementat.Screens.Switch.{IsScreens, Shows, screen_of, cursor_of}
use basic_kernel_implementat.Screens.Samples.{both, pair, both-IsScreens}
use basic_kernel_implementat.Keyboard.Handler.{key_board_handler, key_board_handler-next}
use basic_kernel_implementat.Keyboard.Queue.{HoldsKeys, put_key-HoldsKeys}
use basic_kernel_implementat.Keyboard.Samples.{keyboard, keyboard-HoldsKeys}

-- Key 0x1E is an 'a', and an 'A' with shift held.
letter : character_of 0x1E keyboard ≡ 97
unfolding character_of
letter = refl

shifted_letter : character_of 0x1E (press_shift 0x2A keyboard) ≡ 65
unfolding character_of press_shift
shifted_letter = refl

-- Thread 31, the one of process 1, waits for input.
abbrev reading : Kernel
reading = record two {
  threads = λ a. record (two.threads a) { state = if a == 31 then t_blocked_io else t_running };
}

reader_there : get_process_with_pid 9 1 reading ≡ some 11
unfolding get_process_with_pid process_loop
reader_there = refl

reading-Waits : ◌≡◌ {A = List ℕ} (threads_of reading 11) (31 ∷ []) × Waits reading 31
reading-Waits = (refl, refl)

put_key-HoldsKeys_example :
    (b' : Keyboard) × (k' : Kernel) × (put_key 9 1 66 keyboard reading ≡ some (b', k'))
    × HoldsKeys b' ((65 ∷ []) ++ (66 ∷ []))
    × IsWoken reading k' (threads_of reading 11)
put_key-HoldsKeys_example =
    put_key-HoldsKeys 9 1 66 keyboard reading (65 ∷ []) keyboard-HoldsKeys (omega arith)
      (omega arith) reader_there

key_board_handler-next_example :
    (s2 : Screens) × (key_board_handler 9 true 0x4D (record keyboard { alt_key = true }) both
      ≡ some (record keyboard { alt_key = true }, s2))
    × (s2.on_focus_pid ≡ 2)
    × ((a : ℕ)
        → has a pair ≡ true
        → Shows both.video.memory
            (screen_of both a)
            (cursor_of both a)
            s2.video.memory
            (screen_of s2 a)
            (cursor_of s2 a))
    × IsScreens s2 pair
key_board_handler-next_example =
    key_board_handler-next 9 both pair both-IsScreens (omega arith) 0x108000 refl refl (omega arith)
      (record keyboard { alt_key = true }) refl (omega arith)
