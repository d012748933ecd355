-- ===== src/Philosophers/Fairness.antt =====
-- The philosophers at the table: at most one of the three eats, and somebody eats if one is hungry.
use basic_kernel_implementat.Prelude.{
  ℕ, ◌<◌, ◌≡◌, ◌+◌, ◌%◌, refl, sym, ◌∙◌, ◌≢◌, ◌⊎◌, inl, inr, true, false, arith, ◌==◌, Bool-cases,
}
use basic_kernel_implementat.Kernel.{minus_one}
use basic_kernel_implementat.Philosophers.{
  Table, State, Call, hungry, thinking, eating, is_hungry, not_eating, call, set_state, set_fork,
  left, right, check_forks, take_forks, put_forks, philosophers, philosophers_count, seat,
  down_main, up_main, down_philo,
}

-- What a philosopher does to the table, in any state: takeForks may return to one that does not eat,
-- and one that does not eat may call putForks. The parts that mainMutexId guards run one at a time.
pub data Step (t : Table) : Table → Type 0 where
  takes : (i : ℕ) → i < philosophers_count → Step t (take_forks i t)
  puts : (i : ℕ) → i < philosophers_count → Step t (put_forks i t)

pub data Reach (t0 : Table) : Table → Type 0 where
  start : Reach t0 (philosophers t0)
  later : {t t' : Table} → Reach t0 t → Step t t' → Reach t0 t'

-- Nobody eats.
abbrev pub Nobody : Table → Type 0
Nobody t = (j : ℕ) → j < 3 → t.philo_state j ≢ eating

-- Philosopher `i` eats, and the others do not eat.
pub record Eats (t : Table) (i : ℕ) : Type 0 where
  pub at_table : i < 3
  pub state : t.philo_state i ≡ eating
  pub alone : (j : ℕ) → j < 3 → j ≢ i → t.philo_state j ≢ eating

-- Everybody thinks, or one philosopher eats.
abbrev pub IsFair : Table → Type 0
IsFair t = ((j : ℕ) → j < 3 → t.philo_state j ≡ thinking) ⊎ ((i : ℕ) × Eats t i)

neighbours :
    (i : ℕ)
    → i < 3
    → (left i < 3) × (right i < 3) × (left i ≢ i) × (right i ≢ i) × (left i ≢ right i)
unfolding left right
neighbours i h = (omega arith, omega arith, omega arith, omega arith, omega arith)

others : (i j : ℕ) → i < 3 → j < 3 → j ≢ i → (j ≡ left i) ⊎ (j ≡ right i)
unfolding left right
others i j h k ne = elim (Bool-cases (j == (i + 2) % 3)) [
  | inl is_left ↦ inl (ground arith)
  | inr not_left ↦ inr (ground arith)
]

not_eating-true : (x : State) → x ≢ eating → not_eating x ≡ true
not_eating-true hungry ne = refl
not_eating-true thinking ne = refl
not_eating-true eating ne = absurd (ne refl)

is_hungry-cases :
    (x : State) → ((x ≡ hungry) × (is_hungry x ≡ true)) ⊎ ((x ≢ hungry) × (is_hungry x ≡ false))
is_hungry-cases hungry = inl (refl, refl)
is_hungry-cases thinking = inr (ground arith, refl)
is_hungry-cases eating = inr (ground arith, refl)

-- A hungry philosopher eats if nobody does.
check_forks-Eats :
    (i : ℕ) (t : Table) → i < 3 → Nobody t → t.philo_state i ≡ hungry → Eats (check_forks i t) i
unfolding check_forks
check_forks-Eats i t h nobody is_hungry_i =
    let (l, r, li, ri, lr) = neighbours i h in
    let free_left = not_eating-true (t.philo_state (left i)) (nobody (left i) l) in
    let free_right = not_eating-true (t.philo_state (right i)) (nobody (right i) r) in
    rw (is_hungry_i, free_left, free_right)
      (record {
        at_table = h;
        state = ground arith;
        alone = λ j k ne. ground (arith, nobody j k, ne);
      })

-- Nothing changes if another philosopher eats, or if the philosopher is not hungry.
check_forks-waits :
    (i j : ℕ) (t : Table) → i < 3 → j < 3 → j ≢ i → t.philo_state j ≡ eating → check_forks i t ≡ t
unfolding check_forks
check_forks-waits i j t h k ne e = elim (others i j h k ne) [
  | inl is ↦ let x : t.philo_state (left i) ≡ eating = rw is at e in rw x (ground arith)
  | inr is ↦ let x : t.philo_state (right i) ≡ eating = rw is at e in rw x (ground arith)
]

check_forks-same : (i : ℕ) (t : Table) → is_hungry (t.philo_state i) ≡ false → check_forks i t ≡ t
unfolding check_forks
check_forks-same i t sated = rw sated refl

Eats-call : (c : Call) (t : Table) (i : ℕ) → Eats t i → Eats (call c t) i
Eats-call c t i e = record { at_table = e.at_table; state = e.state; alone = e.alone }

IsFair-call : (c : Call) (t : Table) → IsFair t → IsFair (call c t)
IsFair-call c t (inl all) = inl all
IsFair-call c t (inr (i, e)) = inr (i, Eats-call c t i e)

-- What a philosopher writes of its own state changes nothing of another one that eats.
Eats-other :
    (t t1 : Table) (i j : ℕ)
    → ((k : ℕ) → k ≢ i → t1.philo_state k ≡ t.philo_state k)
    → t1.philo_state i ≢ eating
    → j ≢ i
    → Eats t j
    → Eats t1 j
Eats-other t t1 i j same sated ne e = record {
  at_table = e.at_table;
  state = same j ne ∙ e.state;
  alone = λ k lt other. elim (Bool-cases (k == i)) [
    | inl here ↦ let at : k ≡ i = ground arith in rw at sated
    | inr there ↦ let still = same k (ground arith) in λ eats. e.alone k lt other (sym still ∙ eats)
  ];
}

take_forks-IsFair : (i : ℕ) (t : Table) → i < 3 → IsFair t → IsFair (take_forks i t)
unfolding take_forks
take_forks-IsFair i t h fair =
    let t1 = set_state i hungry (call down_main t) in
    let first : Nobody t1 → IsFair (take_forks i t) = λ nobody. inr (
      i,
      Eats-call (down_philo i) (call up_main (check_forks i t1)) i
          (Eats-call up_main (check_forks i t1) i (check_forks-Eats i t1 h nobody (ground arith))),
    ) in
    elim fair [
      | inl all ↦ first (λ j k. ground (arith, all j k))
      | inr (j, e) ↦ elim (Bool-cases (j == i)) [
        | inl own ↦ first (λ k lt. ground (arith, e.alone k lt))
        | inr not_own ↦
            let ne : j ≢ i = ground arith in
            let eats : Eats t1 j =
              Eats-other t t1 i j (λ k other. ground arith) (ground arith) ne e in
            let same = check_forks-waits i j t1 h e.at_table ne eats.state in
            rw same
              (inr (j, Eats-call (down_philo i) (call up_main t1) j (Eats-call up_main t1 j eats)))
      ]
    ]

-- With another philosopher eating, asking the neighbours changes nothing.
asked-Eats :
    (i j : ℕ) (t : Table)
    → i < 3
    → j ≢ i
    → Eats t j
    → IsFair (check_forks (right i) (check_forks (left i) t))
asked-Eats i j t h ne e =
    let (l, r, li, ri, lr) = neighbours i h in
    let asked : (n : ℕ) → n < 3 → check_forks n t ≡ t = λ n lt. elim (Bool-cases (n == j)) [
      | inl own ↦
          let eats : t.philo_state n ≡ eating = ground (arith, e.state) in
          check_forks-same n t (rw eats refl)
      | inr another ↦ check_forks-waits n j t lt e.at_table (ground arith) e.state
    ] in
    rw (asked (left i) l, asked (right i) r) (inr (j, e))

-- With nobody eating and a philosopher who thinks, its neighbours are asked, the left one first.
asked-IsFair :
    (i : ℕ) (t : Table)
    → i < 3
    → t.philo_state i ≡ thinking
    → Nobody t
    → IsFair (check_forks (right i) (check_forks (left i) t))
asked-IsFair i t h thinks nobody =
    let (l, r, li, ri, lr) = neighbours i h in
    elim (is_hungry-cases (t.philo_state (left i))) [
      | inl (wants, _) ↦
          let eats = check_forks-Eats (left i) t l nobody wants in
          let same =
            check_forks-waits (right i) (left i) (check_forks (left i) t) r l lr eats.state in
          rw same (inr (left i, eats))
      | inr (sated, no_wish) ↦
          let first_same = check_forks-same (left i) t no_wish in
          elim (is_hungry-cases (t.philo_state (right i))) [
            | inl (wants, _) ↦
                rw first_same (inr (right i, check_forks-Eats (right i) t r nobody wants))
            | inr (sated_too, no_wish_too) ↦
                let all : (j : ℕ) → j < 3 → t.philo_state j ≡ thinking =
                  λ j k. all_think i t h thinks nobody sated sated_too j k in
                rw (first_same, check_forks-same (right i) t no_wish_too) (inl all)
          ]
    ]
  where
    thinks_of : (x : State) → x ≢ hungry → x ≢ eating → x ≡ thinking
    thinks_of hungry a b = absurd (a refl)
    thinks_of thinking a b = refl
    thinks_of eating a b = absurd (b refl)

    all_think :
        (i : ℕ) (t : Table)
        → i < 3
        → t.philo_state i ≡ thinking
        → Nobody t
        → t.philo_state (left i) ≢ hungry
        → t.philo_state (right i) ≢ hungry
        → (j : ℕ) → j < 3
        → t.philo_state j ≡ thinking
    all_think i t h thinks nobody a b j k = elim (Bool-cases (j == i)) [
      | inl here ↦ ground arith
      | inr there ↦ elim (others i j h k (ground arith)) [
        | inl is ↦ thinks_of (t.philo_state j) (rw is a) (nobody j k)
        | inr is ↦ thinks_of (t.philo_state j) (rw is b) (nobody j k)
      ]
    ]

put_forks-IsFair : (i : ℕ) (t : Table) → i < 3 → IsFair t → IsFair (put_forks i t)
unfolding put_forks
put_forks-IsFair i t h fair =
    let t1 =
      set_fork i minus_one
        (set_fork (left i) minus_one (set_state i thinking (call down_main t))) in
    let free : Nobody t1 → IsFair (put_forks i t) = λ nobody.
      IsFair-call up_main (check_forks (right i) (check_forks (left i) t1))
        (asked-IsFair i t1 h (ground arith) nobody) in
    elim fair [
      | inl all ↦ free (λ j k. ground (arith, all j k))
      | inr (j, e) ↦ elim (Bool-cases (j == i)) [
        | inl own ↦ free (λ k lt. ground (arith, e.alone k lt))
        | inr not_own ↦
            let ne : j ≢ i = ground arith in
            let eats : Eats t1 j =
              Eats-other t t1 i j (λ k other. ground arith) (ground arith) ne e in
            IsFair-call up_main (check_forks (right i) (check_forks (left i) t1))
              (asked-Eats i j t1 h ne eats)
      ]
    ]

start-IsFair : (t : Table) → IsFair (philosophers t)
unfolding philosophers seat
start-IsFair t = inl (λ j k. ground arith)

-- In the first run of philosophers, once all three are seated, and as long as the parts that
-- mainMutexId guards run one at a time, whether takeForks returns to a philosopher that eats or to one
-- that does not: in each state that the calls of takeForks and of putForks by the three philosophers
-- lead to, in any order, all of them think, or exactly one eats. So no two eat at once, and nobody is
-- hungry while nobody eats.
pub Reach-IsFair : {t0 t : Table} → Reach t0 t → IsFair t
Reach-IsFair {t0} start = start-IsFair t0
Reach-IsFair (later {t} r (takes i h)) = take_forks-IsFair i t h (Reach-IsFair r)
Reach-IsFair (later {t} r (puts i h)) = put_forks-IsFair i t h (Reach-IsFair r)
