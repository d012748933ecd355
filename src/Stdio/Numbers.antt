-- ===== src/Stdio/Numbers.antt =====
-- putNum of Userland/SampleCodeModule/stdio.c: the digits that it prints.
use native.Mathlib.Nat.{pow-suc}
use basic_kernel_implementat.Prelude.{
  append_assoc, append_nil, ℕ, zero, suc, ◌+◌, ◌-◌, ◌*◌, ◌/◌, ◌%◌, ◌^◌, ◌<◌, ◌≡◌, refl, sym, ap,
  ◌∙◌, ◌≢◌, inl, inr, true, false, some, List, [], ◌∷◌, ◌++◌, arith, ltb, ◌==◌, if◌then◌else◌,
  Bool-cases, update, ◌≤◌, All, All-snoc, tests, length, length-append,
}
use basic_kernel_implementat.Text.{Chars}
use basic_kernel_implementat.Stdio.{Stdio, write, putchar, num_loop, out_loop, put_digits, put_num}

-- The digits of a number, of which there are `d` at most.
unfoldable pub decimal : (d n : ℕ) → List ℕ
decimal zero n = []
decimal (suc d) n =
    let rest = decimal d (n / 10) in if n == 0 then [] else rest ++ ((n % 10 + 48) ∷ [])

-- The number that digits behind the number `before` stand for.
abbrev pub number_of : (before : ℕ) → List ℕ → ℕ
number_of before [] = before
number_of before (x ∷ xs) = number_of (before * 10 + (x - 48)) xs

pub write-write : (xs ys : List ℕ) (s : Stdio) → write ys (write xs s) ≡ write (xs ++ ys) s
unfolding write
write-write xs ys s = ap (λ l. record s { written = l }) (append_assoc (s.written) xs ys)

pub write-nil : (s : Stdio) → write [] s ≡ s
unfolding write
write-nil s = ap (λ l. record s { written = l }) (append_nil (s.written))

out_loop-same :
    (i : ℕ) (b b' : Chars) (s : Stdio)
    → ((k : ℕ) → k < i → b' k ≡ b k)
    → out_loop i b' s ≡ out_loop i b s
unfolding out_loop
out_loop-same zero b b' s same = refl
out_loop-same (suc i) b b' s same =
    rw (same i (omega arith))
      (out_loop-same i b b' (putchar (b i + 48) s) (λ k h. same k (omega arith)))

out_loop-end : (b : Chars) (s : Stdio) → out_loop 0 b s ≡ s
unfolding out_loop
out_loop-end b s = refl

out_loop_lem :
    (i : ℕ) (b : Chars) (s : Stdio) → out_loop (suc i) b s ≡ out_loop i b (putchar (b i + 48) s)
unfolding out_loop
out_loop_lem i b s = refl

num_loop_lem :
    (fuel num i : ℕ) (b : Chars)
    → num < 2 ^ 31
    → num ≢ 0
    → num_loop (suc fuel) num i b ≡ num_loop fuel (num / 10) (i + 1) (update b i (num % 10))
unfolding num_loop
num_loop_lem fuel num i b small more =
    let small_test : ltb num (2 ^ 31) ≡ true = ground arith in
    let more_test : (num == 0) ≡ false = ground arith in
    let byte : num % 10 % 256 ≡ num % 10 = omega arith in rw (more_test, small_test, byte) refl

num_loop-end : (fuel i : ℕ) (b : Chars) → num_loop (suc fuel) 0 i b ≡ some (i, b)
unfolding num_loop
num_loop-end fuel i b = refl

putchar-write :
    (c : ℕ) (xs : List ℕ) (s : Stdio) → c < 256 → putchar c (write xs s) ≡ write (xs ++ (c ∷ [])) s
unfolding putchar
putchar-write c xs s h = let byte : c % 256 ≡ c = omega arith in rw byte (write-write xs (c ∷ []) s)

-- The digit that the first loop put at `i` comes behind those that are printed before.
out_loop-digit :
    (d num i : ℕ) (b : Chars) (s : Stdio)
    → out_loop (i + 1) (update b i (num % 10)) (write (decimal d (num / 10)) s)
      ≡ out_loop i b (write (decimal d (num / 10) ++ ((num % 10 + 48) ∷ [])) s)
out_loop-digit d num i b s =
    let b1 = update b i (num % 10) in
    let before = write (decimal d (num / 10)) s in
    let next : i + 1 ≡ suc i = omega arith in
    let here : b1 i ≡ num % 10 = ground arith in
    ap (λ j. out_loop j b1 before) next
    ∙ (out_loop_lem i b1 before
        ∙ (out_loop-same i b b1 (putchar (b1 i + 48) before) (λ k h. ground arith)
            ∙ ap (out_loop i b) (
                ap (λ c. putchar (c + 48) before) here
                ∙ putchar-write (num % 10 + 48) (decimal d (num / 10)) s (omega arith))))

-- The first loop ends, and what the second one prints of its buffer are the digits.
num_loop-prints :
    (d fuel num i : ℕ) (b : Chars)
    → num < 10 ^ d
    → num < 2 ^ 31
    → d < fuel
    → (r : ℕ × Chars) × (num_loop fuel num i b ≡ some r)
      × ((s : Stdio) → out_loop r.0 r.1 s ≡ out_loop i b (write (decimal d num) s))
unfolding decimal
num_loop-prints d zero num i b below small enough = absurd (omega arith)
num_loop-prints zero (suc fuel) num i b below small enough =
    let none_left : num ≡ 0 = omega arith in
    rw none_left ((i, b), num_loop-end fuel i b, λ s. ap (out_loop i b) (sym (write-nil s)))
num_loop-prints (suc d) (suc fuel) num i b below small enough = elim (Bool-cases (num == 0)) [
  | inl ended ↦
      let none_left : num ≡ 0 = ground arith in
      rw none_left ((i, b), num_loop-end fuel i b, λ s. ap (out_loop i b) (sym (write-nil s)))
  | inr more ↦
      let b1 = update b i (num % 10) in
      let nonzero : num ≢ 0 = ground arith in
      let upper : num / 10 < 10 ^ d =
        let wide : num < 10 ^ d * 10 = rw (← pow-suc 10 d) below in omega arith in
      let (r, ended, prints) =
        num_loop-prints d fuel (num / 10) (i + 1) b1 upper (omega (arith, small))
          (omega (arith, enough)) in
      (
        r,
        num_loop_lem fuel num i b small nonzero ∙ ended,
        λ s. prints s ∙ (out_loop-digit d num i b s ∙ ap (out_loop i b) (rw more refl)),
      )
]

number_of-snoc :
    (before : ℕ) (xs : List ℕ) (x : ℕ)
    → number_of before (xs ++ (x ∷ [])) ≡ number_of before xs * 10 + (x - 48)
number_of-snoc before [] x = refl
number_of-snoc before (y ∷ xs) x = number_of-snoc (before * 10 + (y - 48)) xs x

-- The digits stand for the number.
pub number_of-decimal : (d n : ℕ) → n < 10 ^ d → number_of 0 (decimal d n) ≡ n
unfolding decimal
number_of-decimal zero n h = omega arith
number_of-decimal (suc d) n h = elim (Bool-cases (n == 0)) [
  | inl ended ↦ rw ended (ground arith)
  | inr more ↦
      let upper : n / 10 < 10 ^ d =
        let wide : n < 10 ^ d * 10 = rw (← pow-suc 10 d) h in omega arith in
      rw more (
        omega (
          arith,
          number_of-snoc 0 (decimal d (n / 10)) (n % 10 + 48),
          number_of-decimal d (n / 10) upper,
        ))
]

pub decimal-digits : (d n : ℕ) → All (λ x. (48 ≤ x) × (x ≤ 57)) (decimal d n)
unfolding decimal
decimal-digits zero n = tt
decimal-digits (suc d) n = elim (Bool-cases (n == 0)) [
  | inl ended ↦ rw ended tt
  | inr more ↦ rw more (
      All-snoc (λ x. (48 ≤ x) × (x ≤ 57)) (decimal d (n / 10)) (n % 10 + 48)
        (decimal-digits d (n / 10)) (omega arith, omega arith))
]

put_digits-decimal :
    (fuel num : ℕ) (s : Stdio)
    → num < 2 ^ 31
    → 10 < fuel
    → put_digits fuel num s ≡ some (write (decimal 10 num) s)
unfolding put_digits
put_digits-decimal fuel num s small enough =
    let (r, ended, prints) =
      num_loop-prints 10 fuel num 0 (λ _. 0) (omega (arith, small)) small enough in
    rw ended (ap some (prints s ∙ out_loop-end (λ _. 0) (write (decimal 10 num) s)))

-- The text that putNum prints for an `int`.
abbrev pub text_of : (num : ℕ) → List ℕ
text_of num =
    if num == 0
    then 48 ∷ []
    else if ltb num (2 ^ 31)
    then decimal 10 num
    else 45 ∷ decimal 10 (2 ^ 32 - num)

-- putNum ends on every `int` but the least one, and prints the digits behind a `-` if it is negative.
pub put_num-text_of :
    (fuel num : ℕ) (s : Stdio)
    → num < 2 ^ 32
    → num ≢ 2 ^ 31
    → 10 < fuel
    → put_num fuel num s ≡ some (write (text_of num) s)
unfolding put_num
put_num-text_of fuel num s int not_least enough = elim (Bool-cases (num == 0)) [
  | inl none_left ↦ rw none_left (unfold putchar in refl)
  | inr more ↦ elim (Bool-cases (ltb num (2 ^ 31))) [
    | inl positive ↦ rw (more, positive) (put_digits-decimal fuel num s (omega tests) enough)
    | inr negative ↦
        let turned : (2 ^ 32 - num) % 2 ^ 32 ≡ 2 ^ 32 - num = ground arith in
        rw (more, negative, turned)
          (put_digits-decimal fuel (2 ^ 32 - num) (putchar 45 s) (ground arith) enough
            ∙ ap some (unfold putchar in write-write (45 ∷ []) (decimal 10 (2 ^ 32 - num)) s))
  ]
]

pub length-decimal : (d n : ℕ) → length (decimal d n) ≤ d
unfolding decimal
length-decimal zero n = omega arith
length-decimal (suc d) n = elim (Bool-cases (n == 0)) [
  | inl ended ↦ rw ended (omega arith)
  | inr more ↦ rw more (
      omega
        (arith, length-append (decimal d (n / 10)) ((n % 10 + 48) ∷ []), length-decimal d (n / 10)))
]
