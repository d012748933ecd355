-- ===== src/SystemCalls/Dispatch.antt =====
-- The system calls of a process that has the focus, and those that stand for nothing, by number.
use Prim.Native.Nat.{min}
use basic_kernel_implementat.Prelude.{
  ℕ, ◌+◌, ◌≤◌, ◌<◌, ◌≡◌, refl, ap, ◌⊎◌, true, false, some, List, arith, ◌==◌, length, get_or, drop,
  All,
}
use basic_kernel_implementat.Video.{screen, window_size, current}
use basic_kernel_implementat.Video.Cursor.{IsOn, Stays}
use basic_kernel_implementat.Video.Printing.{IsString}
use basic_kernel_implementat.Video.Shown.{print_all, characters, fits, IsShown, print_all-shows}
use basic_kernel_implementat.Keyboard.Queue.{HoldsKeys}
use basic_kernel_implementat.Screens.{is_current_process_on_focus}
use basic_kernel_implementat.SystemCalls.{
  System, Devices, kernel_of, memory_of, set_video, set_memory,
}
use basic_kernel_implementat.SystemCalls.Io.{
  block_if_not_on_focus, read_keys, read_keyboard, read, video_loop, write_to_video, write,
}
use basic_kernel_implementat.SystemCalls.Calls.{system_call}
use basic_kernel_implementat.SystemCalls.Reading.{read_keys-IsRead, video_loop-IsWritten}

module _ (devices : Devices) (fuel : ℕ) where
  -- Call 1 on the keyboard, by the process that has the focus, while characters wait: it returns how
  -- many it reads, which is the smaller of the number it is asked for and the number that wait, it
  -- puts the oldest ones into the buffer in order and takes them out of the queue, and leaves the
  -- kernel as it is. It is asked for one at least, and characters are below 256.
  pub system_call-reads :
      (buf n : ℕ) (q : List ℕ) (s : System)
      → is_current_process_on_focus s.screens ≡ true
      → HoldsKeys s.keyboard q
      → All (λ x. x < 256) q
      → 0 < n
      → 0 < length q
      → (s' : System) × (system_call devices fuel 1 1 buf n s ≡ some (min n (length q), s'))
        × HoldsKeys s'.keyboard (drop n q)
        × ((k : ℕ) → k < n → k < length q → memory_of s' (buf + k) ≡ get_or q k 0)
        × (kernel_of s' ≡ kernel_of s)
  unfolding system_call read block_if_not_on_focus read_keyboard
  system_call-reads buf n q s focus h small some_n some_q =
      let r = read_keys-IsRead n buf q s.keyboard (memory_of s) h small in
      let some_read : ((read_keys n buf s.keyboard (memory_of s)).0 == 0) ≡ false =
        ground (arith, r.count) in
      (
        set_memory (read_keys n buf s.keyboard (memory_of s)).2
            (record s { keyboard = (read_keys n buf s.keyboard (memory_of s)).1 }),
        rw (focus, some_read)
            (ap
              (λ c. some (
                c,
                set_memory (read_keys n buf s.keyboard (memory_of s)).2
                    (record s { keyboard = (read_keys n buf s.keyboard (memory_of s)).1 }),
              ))
              r.count),
        r.rest,
        r.bytes,
        refl,
      )

  -- Call 2 on the screen, by the process that has the focus, with a text that does not overlap the
  -- video screen and a video cursor that is on it, at a character: it returns how many characters it
  -- prints, which is the smaller of the number it is asked for and the length of the text, and prints
  -- those of the text in their order, as printCharacters does. If they are no backspace, tab or new
  -- line and end before the end of the screen, they are in the cells from the cursor on afterwards, in
  -- the default colour, with the cursor behind them, and no other cell is written. In every case the
  -- cursor is on the screen afterwards, nothing is written outside of it, and the kernel stays as it
  -- is.
  pub system_call-writes :
      (buf n len : ℕ) (s : System)
      → is_current_process_on_focus s.screens ≡ true
      → IsString (memory_of s) buf len
      → (buf + len < screen) ⊎ (screen + window_size ≤ buf)
      → IsOn screen s.screens.video.current_position
      → let text = characters (memory_of s) buf (min n len) in
        (s' : System) × (system_call devices fuel 2 1 buf n s ≡ some (min n len, s'))
        × (s'.screens.video ≡ print_all text s.screens.video)
        × ((fits text s.screens.video ≡ false) ⊎ IsShown text s.screens.video s'.screens.video)
        × Stays screen current s.screens.video s'.screens.video
        × (kernel_of s' ≡ kernel_of s)
  unfolding system_call write write_to_video
  system_call-writes buf n len s focus text apart on =
      let r = video_loop-IsWritten n buf len s.screens.video text apart on in
      let shown = print_all-shows (characters (memory_of s) buf (min n len)) s.screens.video in
      (
        set_video (video_loop n buf s.screens.video).1 s,
        rw focus (ap (λ c. some (c, set_video (video_loop n buf s.screens.video).1 s)) r.count),
        r.prints,
        rw r.prints shown,
        r.stays,
        refl,
      )
