-- ===== src/UserCalls/Tests.antt =====
-- A program that reads, of Userland/SampleCodeModule/systemCalls.c.
use basic_kernel_implementat.Prelude.{◌>>=◌, ℕ, ◌+◌, ◌<◌, ◌≡◌, Option, some, [], ◌∷◌, arith, get_or}
use basic_kernel_implementat.Keyboard.Queue.{HoldsKeys}
use basic_kernel_implementat.Keyboard.Samples.{keyboard-HoldsKeys}
use basic_kernel_implementat.SystemCalls.{System, memory_of}
use basic_kernel_implementat.SystemCalls.Samples.{system, idle_devices, focused}
use basic_kernel_implementat.UserCalls.{read_rounds}
use basic_kernel_implementat.UserCalls.Waiting.{ready, read_rounds-gets}

-- The other processes type a key while the program yields.
abbrev others : System → Option System
others s = some system

read_rounds-gets_example :
    (s2 : System) × (read_rounds idle_devices 9 others 3 1 0x130000 5 system
      ≡ (others s2 >>= λ s3. some (1, s3)))
    × HoldsKeys s2.keyboard []
    × ((k : ℕ) → k < 5 → k < 1 → memory_of s2 (0x130000 + k) ≡ get_or (65 ∷ []) k 0)
read_rounds-gets_example =
    read_rounds-gets idle_devices 9 others 0x130000 5 3 0 (65 ∷ []) system system ready
      (omega arith) focused keyboard-HoldsKeys (omega arith, tt) (omega arith) (omega arith)
