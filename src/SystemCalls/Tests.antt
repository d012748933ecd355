-- ===== src/SystemCalls/Tests.antt =====
-- Calls of Kernel/systemCalls.c by number, on a system in which a character waits.
use basic_kernel_implementat.Prelude.{
  true, false, ◌⊎◌, ℕ, ◌+◌, ◌<◌, ◌≡◌, refl, inr, some, [], ◌∷◌, arith, get_or,
}
use basic_kernel_implementat.Video.{screen, current}
use basic_kernel_implementat.Video.Shown.{print_all, fits, IsShown}
use basic_kernel_implementat.Video.Cursor.{Stays}
use basic_kernel_implementat.Keyboard.Queue.{HoldsKeys}
use basic_kernel_implementat.Keyboard.Samples.{keyboard-HoldsKeys}
use basic_kernel_implementat.SystemCalls.{System, kernel_of, memory_of}
use basic_kernel_implementat.SystemCalls.Samples.{system, idle_devices, focused}
use basic_kernel_implementat.SystemCalls.Calls.{system_call}
use basic_kernel_implementat.SystemCalls.Dispatch.{system_call-reads, system_call-writes}

system_call-reads_example :
    (s' : System) × (system_call idle_devices 9 1 1 0x130000 5 system ≡ some (1, s'))
    × HoldsKeys s'.keyboard []
    × ((k : ℕ) → k < 5 → k < 1 → memory_of s' (0x130000 + k) ≡ get_or (65 ∷ []) k 0)
    × (kernel_of s' ≡ kernel_of system)
system_call-reads_example =
    system_call-reads idle_devices 9 0x130000 5 (65 ∷ []) system focused keyboard-HoldsKeys
      (omega arith, tt) (omega arith) (omega arith)

-- "H" fits on the screen.
text_fits : fits (72 ∷ []) system.screens.video ≡ true
text_fits = refl

system_call-writes_example :
    (s' : System) × (system_call idle_devices 9 2 1 0x120000 5 system ≡ some (1, s'))
    × (s'.screens.video ≡ print_all (72 ∷ []) system.screens.video)
    × ((fits (72 ∷ []) system.screens.video ≡ false)
        ⊎ IsShown (72 ∷ []) system.screens.video s'.screens.video)
    × Stays screen current system.screens.video s'.screens.video
    × (kernel_of s' ≡ kernel_of system)
system_call-writes_example =
    system_call-writes idle_devices 9 0x120000 5 1 system focused
      (record { proper = λ k lt. ground arith; ends = refl }) (inr (omega arith))
      (record { from = omega arith; before = omega arith; even = refl })
