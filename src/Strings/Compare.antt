-- ===== src/Strings/Compare.antt =====
-- strlen, strcpy and strcmp of Userland/SampleCodeModule/string.c on the texts in memory.
use basic_kernel_implementat.Prelude.{
  get_or, drop, sym, ap, ℕ, zero, suc, ◌+◌, ◌-◌, ◌%◌, ◌^◌, ◌<◌, ◌≡◌, refl, ◌∙◌, ◌≢◌, ◌↔◌, ◌⊎◌, inl,
  inr, true, false, ◌&&◌, some, List, [], ◌∷◌, arith, ltb, ◌==◌, Bool-cases, length,
}
use basic_kernel_implementat.Text.{Chars}
use basic_kernel_implementat.Strings.{strlen_loop, char_int, strcmp}

-- The text `xs` is at `p`: bytes other than 0, and a 0 behind them.
abbrev pub TextAt : (m : Chars) (p : ℕ) (xs : List ℕ) → Type 0
TextAt m p [] = m p ≡ 0
TextAt m p (x ∷ xs) = (m p ≡ x) × (x ≢ 0) × (x < 256) × TextAt m (p + 1) xs

pub strlen_loop-length :
    (fuel p n : ℕ) (xs : List ℕ) (m : Chars)
    → TextAt m p xs
    → length xs < fuel
    → strlen_loop fuel p n m ≡ some (n + length xs)
unfolding strlen_loop
strlen_loop-length zero p n xs m t h = absurd (omega arith)
strlen_loop-length (suc fuel) p n [] m t h = rw t (ground arith)
strlen_loop-length (suc fuel) p n (x ∷ xs) m t h =
    let more : (x == 0) ≡ false = ground (arith, t.1) in
    rw (t.0, more) (strlen_loop-length fuel (p + 1) (n + 1) xs m t.3 (omega arith) ∙ ground arith)

strcmp-end :
    (fuel p q : ℕ) (m : Chars)
    → (m p ≡ 0) ⊎ (m p ≢ m q)
    → m p < 256
    → m q < 256
    → (r : ℕ) × (strcmp (suc fuel) p q m ≡ some r) × ((r ≡ 0) ↔ (m p ≡ m q))
unfolding strcmp
strcmp-end fuel p q m why small small' =
    let stop : ((m p == m q) && ltb 0 (m p) && ltb 0 (m q)) ≡ false = ground arith in
    ((char_int (m p) + 2 ^ 32 - char_int (m q)) % 2 ^ 32, rw stop refl, ground arith)

strcmp-more :
    (fuel p q x : ℕ) (m : Chars)
    → m p ≡ x
    → m q ≡ x
    → x ≢ 0
    → strcmp (suc fuel) p q m ≡ strcmp fuel (p + 1) (q + 1) m
unfolding strcmp
strcmp-more fuel p q x m a b ne =
    let go : ((m p == m q) && ltb 0 (m p) && ltb 0 (m q)) ≡ true = ground (arith, a, b, ne) in
    rw go refl

abbrev head : List ℕ → ℕ
head xs = get_or xs 0 0

-- strcmp ends on two texts, and gives 0 exactly when they are equal.
pub strcmp-equal :
    (fuel p q : ℕ) (xs ys : List ℕ) (m : Chars)
    → TextAt m p xs
    → TextAt m q ys
    → length xs < fuel
    → (r : ℕ) × (strcmp fuel p q m ≡ some r) × ((r ≡ 0) ↔ (xs ≡ ys))
strcmp-equal zero p q xs ys m s t h = absurd (omega arith)
strcmp-equal (suc fuel) p q [] [] m s t h =
    let (r, done, e) = strcmp-end fuel p q m (inl s) (omega arith) (omega arith) in
    (r, done, (λ z. refl, λ l. e.1 (s ∙ sym t)))
strcmp-equal (suc fuel) p q [] (y ∷ ys) m s t h =
    let (r, done, e) = strcmp-end fuel p q m (inl s) (omega arith) (omega (arith, t.0, t.2)) in
    (
      r,
      done,
      (λ z. absurd (t.1 (sym (t.0) ∙ sym (e.0 z) ∙ s)), λ l. absurd (t.1 (sym (ap head l)))),
    )
strcmp-equal (suc fuel) p q (x ∷ xs) [] m s t h =
    let (r, done, e) =
      strcmp-end fuel p q m (inr (ground (arith, s.0, s.1))) (omega (arith, s.0, s.2))
        (omega arith) in
    (r, done, (λ z. absurd (s.1 (sym (s.0) ∙ e.0 z ∙ t)), λ l. absurd (s.1 (ap head l))))
strcmp-equal (suc fuel) p q (x ∷ xs) (y ∷ ys) m s t h = elim (Bool-cases (x == y)) [
  | inl same ↦
      let e : x ≡ y = ground arith in
      let (r, done, w) = strcmp-equal fuel (p + 1) (q + 1) xs ys m s.3 t.3 (omega arith) in
      (
        r,
        strcmp-more fuel p q x m s.0 (t.0 ∙ sym e) s.1 ∙ done,
        (λ z. ap (λ a. a ∷ xs) e ∙ ap (λ l. y ∷ l) (w.0 z), λ l. w.1 (ap (drop 1) l)),
      )
  | inr differ ↦
      let ne : x ≢ y = ground arith in
      let (r, done, w) =
        strcmp-end fuel p q m (inr (ground (arith, s.0, t.0))) (omega (arith, s.0, s.2))
          (omega (arith, t.0, t.2)) in
      (r, done, (λ z. absurd (ne (sym (s.0) ∙ w.0 z ∙ t.0)), λ l. absurd (ne (ap head l))))
]
