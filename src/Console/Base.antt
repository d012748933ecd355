-- ===== src/Console/Base.antt =====
-- uintToBase of Kernel/naiveConsole.c, read back.
use native.Mathlib.Nat.{mod-add-div', mod-lt, div-lt_self, pos_of_div-pos}
use basic_kernel_implementat.Prelude.{
  ℕ, zero, suc, ◌+◌, ◌-◌, ◌*◌, ◌/◌, ◌%◌, ◌≤◌, ◌<◌, ◌≡◌, refl, ◌≢◌, false, some, arith, ltb, ◌==◌,
  if◌then◌else◌, update, ◌∙◌, inl, inr, Bool-cases, ◌⊎◌, ◌||◌, ap,
}
use basic_kernel_implementat.Text.{Chars}
use basic_kernel_implementat.Console.{reverse_loop, uint_to_base, digit, digits_loop}

-- The digit that a character stands for.
abbrev pub digit_value : (c : ℕ) → ℕ
digit_value c = if ltb c 58 then c - 48 else c - 55

digit_value-digit : (r : ℕ) → digit_value (digit r) ≡ r
digit_value-digit r = ground arith

-- The number of `n` characters from `p` on, the last digit first.
abbrev pub backward_number : (base : ℕ) → Chars → (p n : ℕ) → ℕ
backward_number base c p zero = 0
backward_number base c p (suc n) = digit_value (c p) + backward_number base c (p + 1) n * base

-- The number of the first `n` characters.
abbrev pub base_number : (base : ℕ) → Chars → (n : ℕ) → ℕ
base_number base c zero = 0
base_number base c (suc n) = base_number base c n * base + digit_value (c n)

backward_number-same :
    (base : ℕ) (c c' : Chars) (p n : ℕ)
    → ((q : ℕ) → p ≤ q → c' q ≡ c q)
    → backward_number base c' p n ≡ backward_number base c p n
backward_number-same base c c' p zero same = refl
backward_number-same base c c' p (suc n) same =
    rw
      (
        same p (omega arith),
        backward_number-same base c c' (p + 1) n (λ q le. same q (omega arith)),
      )
      refl

-- What digits_loop leaves: `n` digits from `p` on, and what was there before `p`.
record IsDigits (base : ℕ) (c c' : Chars) (p n value : ℕ) : Type 0 where
  some_digit : 1 ≤ n
  few : n ≤ value + 1
  number : backward_number base c' p n ≡ value
  before : (q : ℕ) → q < p → c' q ≡ c q
  proper : (k : ℕ) → k < n → (48 ≤ c' (p + k)) × (digit_value (c' (p + k)) < base)

digits_loop-last :
    (fuel value base p : ℕ) (c : Chars)
    → value / base ≡ 0
    → digits_loop (suc fuel) value base p c ≡ some (p + 1, update c p (digit (value % base)))
unfolding digits_loop
digits_loop-last fuel value base p c e = rw e refl

digits_loop-more :
    (fuel value base p : ℕ) (c : Chars)
    → value / base ≢ 0
    → digits_loop (suc fuel) value base p c
      ≡ digits_loop fuel (value / base) base (p + 1) (update c p (digit (value % base)))
unfolding digits_loop
digits_loop-more fuel value base p c ne =
    let more : (value / base == 0) ≡ false = ground arith in rw more refl

backward_step :
    (base : ℕ) (c : Chars) (p n value : ℕ)
    → digit_value (c p) ≡ value % base
    → backward_number base c (p + 1) n ≡ value / base
    → backward_number base c p (suc n) ≡ value
backward_step base c p n value last others = rw (last, others) (mod-add-div' value base)

digits_loop-IsDigits :
    (fuel value base p : ℕ) (c : Chars)
    → 2 ≤ base
    → value < fuel
    → (n : ℕ) × (c' : Chars) × (digits_loop fuel value base p c ≡ some (p + n, c'))
      × IsDigits base c c' p n value
digits_loop-IsDigits zero value base p c wide h = absurd (omega arith)
digits_loop-IsDigits (suc fuel) value base p c wide h =
    let written = update c p (digit (value % base)) in
    let small : value % base < base = mod-lt value (omega arith) in
    let first : digit_value (written p) ≡ value % base =
      ground (arith, digit_value-digit (value % base)) in
    let first_char : 48 ≤ written p = ground arith in
    let first_proper : (k : ℕ)
        → k < 1
        → (48 ≤ written (p + k)) × (digit_value (written (p + k)) < base) =
      λ k lt. let e : p + k ≡ p = omega arith in rw e (first_char, rw first small) in
    elim (Bool-cases (value / base == 0)) [
      | inl done ↦
          let e : value / base ≡ 0 = ground arith in
          let sum : value % base + 0 * base ≡ value = rw e at (mod-add-div' value base) in
          let whole : value % base ≡ value = omega (arith, sum) in
          (
            1,
            written,
            digits_loop-last fuel value base p c e,
            record {
              some_digit = omega arith;
              few = omega arith;
              number = rw (first, whole) (omega arith);
              before = λ q lt. ground arith;
              proper = λ k lt. first_proper k (omega arith);
            },
          )
      | inr more ↦
          let ne : value / base ≢ 0 = ground arith in
          let less : value / base < value =
            div-lt_self (pos_of_div-pos base (omega arith)) (omega arith) in
          let (n, c', done, r) =
            digits_loop-IsDigits fuel (value / base) base (p + 1) written wide (omega arith) in
          let here : c' p ≡ written p = r.before p (omega arith) in
          (
            suc n,
            c',
            digits_loop-more fuel value base p c ne ∙ done ∙ ground arith,
            record {
              some_digit = omega arith;
              few = omega (arith, r.few);
              number = backward_step base c' p n value (ap digit_value here ∙ first) r.number;
              before = λ q lt. r.before q (omega arith) ∙ ground arith;
              proper = λ k lt. elim (Bool-cases (k == 0)) [
                | inl zeroth ↦
                    let e : p + k ≡ p = ground arith in rw (e, here) (first_char, rw first small)
                | inr later ↦
                    let e : p + 1 + (k - 1) ≡ p + k = ground arith in
                    rw e at (r.proper (k - 1) (ground arith))
              ];
            },
          )
    ]

-- The loop that turns characters round leaves character `p1 + p2 - q` at `q`, and those outside.
reverse_loop-reversed :
    (fuel p1 p2 : ℕ) (c : Chars)
    → p2 + 1 < p1 + 2 * fuel
    → 0 < fuel
    → (c' : Chars) × (reverse_loop fuel p1 p2 c ≡ some c')
      × ((q : ℕ) → p1 ≤ q → q ≤ p2 → c' q ≡ c (p1 + p2 - q))
      × ((q : ℕ) → (q < p1) ⊎ (p2 < q) → c' q ≡ c q)
unfolding reverse_loop
reverse_loop-reversed zero p1 p2 c h some_fuel = absurd (omega arith)
reverse_loop-reversed (suc fuel) p1 p2 c h some_fuel = elim (Bool-cases (ltb p1 p2)) [
  | inl apart ↦
      let swapped = update (update c p1 (c p2)) p2 (c p1) in
      let lt : p1 < p2 = ground arith in
      elim (Bool-cases (fuel == 0)) [
        | inl last ↦ absurd (ground arith)
        | inr more ↦
            let (c', done, inside, outside) =
              reverse_loop-reversed fuel (p1 + 1) (p2 - 1) swapped (omega arith) (ground arith) in
            (
              c',
              rw (apart, done) refl,
              λ q from to. elim (Bool-cases ((p1 == q) || (p2 == q))) [
                | inl edge ↦ outside q (ground arith) ∙ ground arith
                | inr middle ↦ inside q (ground arith) (ground arith) ∙ ground arith
              ],
              λ q out. outside q (ground arith) ∙ ground arith,
            )
      ]
  | inr met ↦ (
    c,
    rw met refl,
    λ q from to. let e : p1 + p2 - q ≡ q = ground arith in rw e refl,
    λ q out. refl,
  )
]

base_number-reversed :
    (base : ℕ) (c c' : Chars) (n m : ℕ)
    → m ≤ n
    → ((q : ℕ) → q < n → c' q ≡ c (n - 1 - q))
    → base_number base c' m ≡ backward_number base c (n - m) m
base_number-reversed base c c' n zero le turned = refl
base_number-reversed base c c' n (suc m) le turned =
    let rest = base_number-reversed base c c' n m (omega arith) turned in
    let here : c' m ≡ c (n - suc m) =
      turned m (omega arith) ∙ (let e : n - 1 - m ≡ n - suc m = omega arith in ap c e) in
    let next : n - suc m + 1 ≡ n - m = omega arith in rw (rest, here, next) (omega arith)

-- The text of `value` in the base: `n` digits and a 0 behind them.
pub record IsBaseText (base : ℕ) (c : Chars) (n value : ℕ) : Type 0 where
  pub some_digit : 1 ≤ n
  pub few : n ≤ value + 1
  pub number : base_number base c n ≡ value
  pub proper : (k : ℕ) → k < n → (48 ≤ c k) × (digit_value (c k) < base)
  pub ends : c n ≡ 0

-- uintToBase ends, for a base of 2 or more, and the text that it writes stands for the value: at
-- least one digit, each below the base, the first one first, and a 0 behind them. It returns how
-- many digits there are.
pub uint_to_base-IsBaseText :
    (fuel value base : ℕ) (c : Chars)
    → 2 ≤ base
    → value < fuel
    → (n : ℕ) × (c' : Chars) × (uint_to_base fuel value base c ≡ some (n, c'))
      × IsBaseText base c' n value
unfolding uint_to_base
uint_to_base-IsBaseText fuel value base c wide h =
    let (n, c1, done, r) = digits_loop-IsDigits fuel value base 0 c wide h in
    let c2 = update c1 n 0 in
    let (c', turned, inside, outside) =
      reverse_loop-reversed fuel 0 (n - 1) c2 (omega (arith, r.few, r.some_digit)) (omega arith) in
    let at : (q : ℕ) → q < n → c' q ≡ c1 (n - 1 - q) =
      λ q lt. inside q (omega arith) (omega arith) ∙ ground arith in
    let counted : digits_loop fuel value base 0 c ≡ some (n, c1) = done ∙ ground arith in
    let nothing : n - n ≡ 0 = omega arith in
    (
      n,
      c',
      rw (counted, turned) refl,
      record {
        some_digit = r.some_digit;
        few = r.few;
        number = base_number-reversed base c1 c' n n (omega arith) at ∙ rw nothing (r.number);
        proper = λ k lt.
            let e : 0 + (n - 1 - k) ≡ n - 1 - k = omega arith in
            rw (at k lt) (rw e at (r.proper (n - 1 - k) (omega arith)));
        ends = outside n (inr (omega (arith, r.some_digit))) ∙ ground arith;
      },
    )
