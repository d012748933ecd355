-- ===== src/Pipes/Names.antt =====
-- The name of a pipe: the receiver's pid can be read from it.
use basic_kernel_implementat.Prelude.{
  ℕ, zero, suc, ◌+◌, ◌-◌, ◌*◌, ◌%◌, ◌^◌, ◌<◌, ◌≡◌, some, arith, update,
}
use basic_kernel_implementat.Text.{Chars}
use basic_kernel_implementat.Text.Digits.{IsDigits, IsText, number_at, itoa-IsText}
use basic_kernel_implementat.Pipes.{dash, create_name, skip_sender, parse_pid, get_receiver_pid}

module _ (c : Chars) (p : ℕ) where
  skip_sender-digits :
      (r fuel i : ℕ)
      → IsDigits c p (i + r)
      → c (p + (i + r)) ≡ dash
      → r < fuel
      → skip_sender fuel c (p + i) ≡ some (p + (i + r) + 1)
  unfolding skip_sender
  skip_sender-digits r zero i digits end h = absurd (omega arith)
  skip_sender-digits zero (suc fuel) i digits end h = ground arith
  skip_sender-digits (suc r) (suc fuel) i digits end h =
      let more =
        skip_sender-digits r fuel (suc i) (λ k l. digits k (omega arith)) (ground arith)
          (omega arith) in
      ground (arith, digits i (omega arith), more)

  parse_pid-digits :
      (r fuel i : ℕ)
      → IsDigits c p (i + r)
      → c (p + (i + r)) ≡ 0
      → r < fuel
      → parse_pid fuel c (p + i) (number_at c p i % 2 ^ 32) ≡ some (number_at c p (i + r) % 2 ^ 32)
  unfolding parse_pid
  parse_pid-digits r zero i digits end h = absurd (omega arith)
  parse_pid-digits zero (suc fuel) i digits end h = ground arith
  parse_pid-digits (suc r) (suc fuel) i digits end h =
      let more =
        parse_pid-digits r fuel (suc i) (λ k l. digits k (omega arith)) (ground arith)
          (omega arith) in
      let next : (number_at c p i % 2 ^ 32 * 10 + c (p + i) + 2 ^ 32 - 48) % 2 ^ 32
          ≡ (number_at c p i * 10 + (c (p + i) - 48)) % 2 ^ 32 =
        omega (arith, digits i (omega arith)) in
      ground (arith, digits i (omega arith), more, next)

  skip_sender-whole :
      (n fuel : ℕ)
      → IsDigits c p n
      → c (p + n) ≡ dash
      → n < fuel
      → skip_sender fuel c p ≡ some (p + n + 1)
  skip_sender-whole n fuel digits end h =
      ground (arith, skip_sender-digits n fuel 0 (λ k l. digits k (omega arith)) (ground arith) h)

  parse_pid-IsText :
      (n fuel value : ℕ)
      → IsText c p n value
      → value < 2 ^ 32
      → n < fuel
      → parse_pid fuel c p 0 ≡ some value
  parse_pid-IsText n fuel value text small h =
      let read =
        parse_pid-digits n fuel 0 (λ k l. text.digits k (omega arith)) (ground (arith, text.ends))
          h in
      ground (arith, read, text.number)

-- For two pids below the fuel, the second below 2 ^ 31: createName ends, and getReceiverPid gives
-- the second pid from the name that it writes.
pub get_receiver_pid-create_name :
    (fuel from_pid to_pid name : ℕ) (c : Chars)
    → from_pid < fuel
    → to_pid < fuel
    → to_pid < 2 ^ 31
    → (c' : Chars) × (create_name fuel from_pid to_pid name c ≡ some c')
      × (get_receiver_pid fuel name c' ≡ some to_pid)
get_receiver_pid-create_name fuel from_pid to_pid name c enough enough2 small =
    let (n, c1, done1, few1, first, kept1) = itoa-IsText fuel from_pid name c enough in
    let c2 = update c1 (name + n) dash in
    let (m, c3, done2, few2, second, kept2) = itoa-IsText fuel to_pid (name + n + 1) c2 enough2 in
    let sender : IsDigits c3 name n =
      λ k h. rw (kept2 (name + k) (omega arith)) (ground (arith, first.digits k (omega arith))) in
    let at_dash : c3 (name + n) ≡ dash = ground (arith, kept2 (name + n) (omega arith)) in
    let skipped = skip_sender-whole c3 name n fuel sender at_dash (omega arith) in
    let parsed =
      parse_pid-IsText c3 (name + n + 1) m fuel to_pid second (omega arith) (omega arith) in
    (c3, unfold create_name in rw (done1, done2), unfold get_receiver_pid in rw (skipped, parsed))
