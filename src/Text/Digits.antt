-- ===== src/Text/Digits.antt =====
-- What itoa writes, read back.
use native.Mathlib.Nat.{pow-suc}
use basic_kernel_implementat.Prelude.{
  ℕ, zero, suc, ◌+◌, ◌-◌, ◌*◌, ◌/◌, ◌%◌, ◌^◌, ◌≤◌, ◌<◌, ◌≡◌, refl, ◌∙◌, ◌⊎◌, inl, inr, some, arith,
  ◌==◌, if◌then◌else◌, update, Bool-cases,
}
use basic_kernel_implementat.Text.{Chars, length_loop, int_length, write_digits, itoa}

-- The number that `n` digits from `p` on stand for.
abbrev pub number_at : Chars → (p n : ℕ) → ℕ
number_at c p zero = 0
number_at c p (suc n) = number_at c p n * 10 + (c (p + n) - 48)

abbrev pub IsDigits : Chars → (p n : ℕ) → Type 0
IsDigits c p n = (k : ℕ) → k < n → (48 ≤ c (p + k)) × (c (p + k) ≤ 57)

pub length_loop_lem :
    (fuel number length : ℕ)
    → number < fuel
    → (n : ℕ) × (length_loop fuel number length ≡ some (length + n))
      × (number < 10 ^ n)
      × (n ≤ number)
unfolding length_loop
length_loop_lem zero number length h = absurd (omega arith)
length_loop_lem (suc fuel) number length h = elim (Bool-cases (number == 0)) [
  | inl done ↦ (0, ground arith, ground arith, omega arith)
  | inr more ↦
      let (n, found, below, few) = length_loop_lem fuel (number / 10) (length + 1) (ground arith) in
      (suc n, ground (arith, found), rw (pow-suc 10 n) (omega arith), ground arith)
]

write_digits-outside :
    (aux value str : ℕ) (c : Chars) (q : ℕ)
    → (q < str) ⊎ (str + aux ≤ q)
    → write_digits aux value str c q ≡ c q
unfolding write_digits
write_digits-outside zero value str c q out = refl
write_digits-outside (suc aux) value str c q out =
    ground
      (arith, write_digits-outside aux (value / 10) str (update c (str + aux) (value % 10 + 48)) q)

pub number_at-same :
    (c c' : Chars) (p n : ℕ)
    → ((k : ℕ) → k < n → c' (p + k) ≡ c (p + k))
    → number_at c' p n ≡ number_at c p n
number_at-same c c' p zero same = refl
number_at-same c c' p (suc n) same =
    ground (arith, number_at-same c c' p n (λ k h. same k (omega arith)), same n (omega arith))

write_digits_lem :
    (aux value str : ℕ) (c : Chars)
    → write_digits (suc aux) value str c
      ≡ write_digits aux (value / 10) str (update c (str + aux) (value % 10 + 48))
unfolding write_digits
write_digits_lem aux value str c = refl

write_digits-last :
    (aux value str : ℕ) (c : Chars)
    → write_digits (suc aux) value str c (str + aux) ≡ value % 10 + 48
unfolding write_digits
write_digits-last aux value str c = ground (
  arith,
  write_digits-outside aux (value / 10) str (update c (str + aux) (value % 10 + 48)) (str + aux),
)

write_digits-IsDigits :
    (aux value str : ℕ) (c : Chars) → IsDigits (write_digits aux value str c) str aux
write_digits-IsDigits zero value str c k h = absurd (omega arith)
write_digits-IsDigits (suc aux) value str c k h = elim (Bool-cases (k == aux)) [
  | inl last ↦ ground (arith, write_digits-last aux value str c)
  | inr before ↦ rw (write_digits_lem aux value str c) (
      write_digits-IsDigits aux (value / 10) str (update c (str + aux) (value % 10 + 48)) k
        (ground arith))
]

write_digits-number_at :
    (aux value str : ℕ) (c : Chars)
    → value < 10 ^ aux
    → number_at (write_digits aux value str c) str aux ≡ value
write_digits-number_at zero value str c h = omega arith
write_digits-number_at (suc aux) value str c h =
    let upper : value / 10 < 10 ^ aux =
      let wide : value < 10 ^ aux * 10 = rw (← pow-suc 10 aux) h in omega arith in
    let rest : number_at (write_digits (suc aux) value str c) str aux ≡ value / 10 =
      rw (write_digits_lem aux value str c) (
        write_digits-number_at aux (value / 10) str (update c (str + aux) (value % 10 + 48))
          upper) in
    omega (arith, rest, write_digits-last aux value str c)

-- A text of `n` digits at `p`, with a 0 behind it, that stands for a number.
pub record IsText (c : Chars) (p n value : ℕ) : Type 0 where
  pub digits : IsDigits c p n
  pub number : number_at c p n ≡ value
  pub ends : c (p + n) ≡ 0

-- itoa ends, returns how many digits it writes, and writes a text of the number; it writes two
-- characters for 0, and for any other number the digits and a 0 behind them.
pub itoa-IsText :
    (fuel value str : ℕ) (c : Chars)
    → value < fuel
    → (n : ℕ) × (c' : Chars) × (itoa fuel value str c ≡ some (n, c'))
      × (n ≤ value)
      × IsText c' str n value
      × ((q : ℕ) → q < str → c' q ≡ c q)
itoa-IsText fuel value str c h =
    let (n, found, below, few) = length_loop_lem fuel value 0 h in
    let counted : length_loop fuel value 0 ≡ some n = ground (arith, found) in
    let c1 = if n == 0 then update (update c str 48) (str + 1) 0 else c in
    let c2 = update c1 (str + n) 0 in
    (
      n,
      write_digits n value str c2,
      unfold itoa int_length in rw counted,
      few,
      record {
        digits = write_digits-IsDigits n value str c2;
        number = write_digits-number_at n value str c2 below;
        ends = write_digits-outside n value str c2 (str + n) (inr (omega arith)) ∙ ground arith;
      },
      λ q before. write_digits-outside n value str c2 q (inl before) ∙ ground arith,
    )
