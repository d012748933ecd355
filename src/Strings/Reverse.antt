-- ===== src/Strings/Reverse.antt =====
-- strrev of Userland/SampleCodeModule/string.c.
use basic_kernel_implementat.Prelude.{
  ℕ, zero, suc, ◌+◌, ◌-◌, ◌*◌, ◌/◌, ◌%◌, ◌≤◌, ◌<◌, ◌≡◌, refl, ap, ◌∙◌, some, List, [], arith,
  update, length, ◌∷◌,
}
use basic_kernel_implementat.Text.{Chars}
use basic_kernel_implementat.Strings.{strlen_loop, strlen, strrev_loop, strrev}
use basic_kernel_implementat.Strings.Compare.{TextAt, strlen_loop-length}

-- The rounds from `i` on leave the places before `i` alone.
strrev_loop-before :
    (left i medio str : ℕ) (m : Chars) (q : ℕ)
    → i + left ≤ medio
    → q < str + i
    → strrev_loop left i medio str m q ≡ m q
unfolding strrev_loop
strrev_loop-before zero i medio str m q fits before = refl
strrev_loop-before (suc left) i medio str m q fits before =
    let m1 = update m (str + i) (m (str + (2 * medio - i))) in
    ground (
      arith,
      strrev_loop-before left (i + 1) medio str (update m1 (str + (2 * medio - i)) (m (str + i))) q,
    )

strrev_loop-first :
    (left medio str : ℕ) (m : Chars)
    → suc left ≤ medio
    → strrev_loop (suc left) 0 medio str m str ≡ m (str + 2 * medio)
unfolding strrev_loop
strrev_loop-first left medio str m fits =
    let m1 = update m (str + 0) (m (str + (2 * medio - 0))) in
    strrev_loop-before left 1 medio str (update m1 (str + (2 * medio - 0)) (m (str + 0))) str
      (omega arith) (omega arith)
    ∙ ground arith

TextAt-end : (p : ℕ) (xs : List ℕ) (m : Chars) → TextAt m p xs → m (p + length xs) ≡ 0
TextAt-end p [] m t = ground (arith, t)
TextAt-end p (x ∷ xs) m t = ground (arith, TextAt-end (p + 1) xs m t.3)

-- strrev ends on a text of an even length other than 0, and leaves an empty text: the 0 behind the
-- text goes to its start.
pub strrev-even :
    (fuel p : ℕ) (xs : List ℕ) (m : Chars)
    → TextAt m p xs
    → length xs < fuel
    → length xs % 2 ≡ 0
    → 0 < length xs
    → (m' : Chars) × (strrev fuel p m ≡ some (p, m')) × TextAt m' p []
unfolding strrev strlen
strrev-even fuel p xs m t h even some_char =
    let counted : strlen_loop fuel p 0 m ≡ some (length xs) =
      strlen_loop-length fuel p 0 xs m t h ∙ ground arith in
    let n = length xs / 2 in
    let at : p + 2 * n ≡ p + length xs = omega (arith, even) in
    let e : suc (n - 1) ≡ n = omega (arith, even) in
    let first : strrev_loop n 0 n p m p ≡ m (p + 2 * n) =
      rw e at (strrev_loop-first (n - 1) n p m (omega (arith, even))) in
    (strrev_loop n 0 n p m, rw counted refl, first ∙ ap m at ∙ TextAt-end p xs m t)
