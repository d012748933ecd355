-- ===== src/UserCalls/Waiting.antt =====
-- read of Userland/SampleCodeModule/systemCalls.c, which asks again until there is something to read.
use basic_kernel_implementat.Prelude.{
  ◌>>=◌, ℕ, zero, suc, ◌+◌, ◌%◌, ◌^◌, ◌<◌, ◌≡◌, refl, ◌∙◌, ◌≢◌, true, false, Option, some, List,
  arith, ◌==◌, length, get_or, drop, All,
}
use Prim.Native.Nat.{min}
use basic_kernel_implementat.Keyboard.Queue.{HoldsKeys}
use basic_kernel_implementat.Screens.{is_current_process_on_focus}
use basic_kernel_implementat.SystemCalls.{System, Devices, memory_of}
use basic_kernel_implementat.SystemCalls.Calls.{system_call}
use basic_kernel_implementat.SystemCalls.Dispatch.{system_call-reads}
use basic_kernel_implementat.UserCalls.{read_rounds}

module _ (devices : Devices) (fuel : ℕ) (yield : System → Option System) (buf n : ℕ) where
  -- The kernel has nothing for the program this many times, and it yields each time.
  pub data Waits : (rounds : ℕ) → System → System → Type 0 where
    ready : {s : System} → Waits 0 s s
    again :
        {rounds : ℕ} {s s1 s2 s3 : System}
        → system_call devices fuel 1 1 buf n s ≡ some (0, s1)
        → yield s1 ≡ some s2
        → Waits rounds s2 s3
        → Waits (suc rounds) s s3

  read_rounds-again :
      (rounds : ℕ) (s s1 s2 : System)
      → system_call devices fuel 1 1 buf n s ≡ some (0, s1)
      → yield s1 ≡ some s2
      → read_rounds devices fuel yield (suc rounds) 1 buf n s
        ≡ read_rounds devices fuel yield rounds 1 buf n s2
  unfolding read_rounds
  read_rounds-again rounds s s1 s2 nothing switched = rw (nothing, switched) refl

  read_rounds-once :
      (rounds count : ℕ) (s s1 : System)
      → system_call devices fuel 1 1 buf n s ≡ some (count, s1)
      → count ≢ 0
      → count < 2 ^ 32
      → read_rounds devices fuel yield (suc rounds) 1 buf n s
        ≡ (yield s1 >>= λ s2. some (count, s2))
  unfolding read_rounds
  read_rounds-once rounds count s s1 got some_count int =
      let same : count % 2 ^ 32 ≡ count = omega arith in
      let more : (count == 0) ≡ false = ground arith in rw (got, same, more) refl

  -- read of the keyboard ends once keys wait, after however many rounds in which there were none: when
  -- the process has the focus then, it gets the oldest keys into its buffer, in order, as many as it asks
  -- for or as wait, returns how many, and has yielded. It asks for one at least.
  pub read_rounds-gets :
      (rounds waited : ℕ) (q : List ℕ) (s s1 : System)
      → Waits waited s s1
      → waited < rounds
      → is_current_process_on_focus s1.screens ≡ true
      → HoldsKeys s1.keyboard q
      → All (λ x. x < 256) q
      → 0 < n
      → 0 < length q
      → (s2 : System) × (read_rounds devices fuel yield rounds 1 buf n s
          ≡ (yield s2 >>= λ s3. some (min n (length q), s3)))
        × HoldsKeys s2.keyboard (drop n q)
        × ((k : ℕ) → k < n → k < length q → memory_of s2 (buf + k) ≡ get_or q k 0)
  read_rounds-gets zero waited q s s1 waits enough focus h small some_n some_q =
      absurd (omega arith)
  read_rounds-gets (suc rounds) waited q s s1 ready enough focus h small some_n some_q =
      let (s2, got, rest, bytes, same) =
        system_call-reads devices fuel buf n q s focus h small some_n some_q in
      (
        s2,
        read_rounds-once rounds (min n (length q)) s s2 got (omega arith) (omega (arith, h.fits)),
        rest,
        bytes,
      )
  read_rounds-gets (suc rounds) waited q s s1 (again nothing switched waits) enough focus h small
        some_n some_q =
      let (s2, got, rest, bytes) =
        read_rounds-gets rounds _ q _ s1 waits (omega arith) focus h small some_n some_q in
      (s2, read_rounds-again rounds s _ _ nothing switched ∙ got, rest, bytes)
