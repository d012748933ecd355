-- ===== src/Stdio/Prefix.antt =====
-- startsWith of Userland/SampleCodeModule/stdio.c on the texts in memory.
use basic_kernel_implementat.Prelude.{
  ℕ, zero, suc, ◌+◌, ◌<◌, ◌≡◌, refl, sym, ap, ◌∙◌, ◌≢◌, ◌↔◌, inl, inr, Bool, true, false, some,
  List, [], ◌∷◌, ◌++◌, arith, ◌==◌, if◌then◌else◌, Bool-cases, length, get_or, drop,
}
use basic_kernel_implementat.Text.{Chars}
use basic_kernel_implementat.Strings.Compare.{TextAt}
use basic_kernel_implementat.Stdio.{starts_with}

-- The second text begins with the first.
abbrev pub IsPrefix : (xs ys : List ℕ) → Type 0
IsPrefix xs ys = (zs : List ℕ) × (ys ≡ xs ++ zs)

starts_with-more :
    (fuel p q x y : ℕ) (m : Chars)
    → m p ≡ x
    → m q ≡ y
    → x ≢ 0
    → starts_with (suc fuel) p q m
      ≡ (if x == y then starts_with fuel (p + 1) (q + 1) m else some false)
unfolding starts_with
starts_with-more fuel p q x y m at_p at_q more =
    let test : (x == 0) ≡ false = ground arith in rw (at_p, at_q, test) refl

abbrev first : List ℕ → ℕ
first xs = get_or xs 0 0

-- startsWith ends on two texts, and tells whether the second begins with the first.
pub starts_with-IsPrefix :
    (fuel p q : ℕ) (xs ys : List ℕ) (m : Chars)
    → TextAt m p xs
    → TextAt m q ys
    → length xs < fuel
    → (b : Bool) × (starts_with fuel p q m ≡ some b) × ((b ≡ true) ↔ IsPrefix xs ys)
starts_with-IsPrefix zero p q xs ys m s t h = absurd (omega arith)
starts_with-IsPrefix (suc fuel) p q [] ys m s t h =
    (true, unfold starts_with in rw s refl, (λ _. (ys, refl), λ _. refl))
starts_with-IsPrefix (suc fuel) p q (x ∷ xs) [] m s t h =
    let other : (x == 0) ≡ false = ground (arith, s.1) in
    let step = starts_with-more fuel p q x 0 m s.0 t s.1 in
    (
      false,
      step ∙ rw other refl,
      (λ e. absurd (ground arith), λ (zs, e). absurd (s.1 (sym (ap first e)))),
    )
starts_with-IsPrefix (suc fuel) p q (x ∷ xs) (y ∷ ys) m s t h =
    let step = starts_with-more fuel p q x y m s.0 t.0 s.1 in
    elim (Bool-cases (x == y)) [
      | inr other ↦ (
        false,
        step ∙ rw other refl,
        (λ e. absurd (ground arith), λ (zs, e). absurd (ground (arith, ap first e))),
      )
      | inl same ↦
          let (b, ended, tells) =
            starts_with-IsPrefix fuel (p + 1) (q + 1) xs ys m s.3 t.3 (omega arith) in
          let equal : y ≡ x = ground arith in
          (
            b,
            step ∙ (rw same ended),
            (
              λ e. let (zs, split) = tells.0 e in (zs, rw (equal, split) refl),
              λ (zs, e). tells.1 (zs, ap (drop 1) e),
            ),
          )
    ]
