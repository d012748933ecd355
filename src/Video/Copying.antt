-- ===== src/Video/Copying.antt =====
-- The loops of Kernel/videoDriver.c that copy and clear: which bytes they write, and what.
use basic_kernel_implementat.Prelude.{
  ℕ, zero, suc, ◌+◌, ◌*◌, ◌%◌, ◌≤◌, ◌<◌, ◌≡◌, refl, ◌∙◌, ◌⊎◌, inl, inr, arith, ◌==◌, if◌then◌else◌,
  update, Bool-cases,
}
use basic_kernel_implementat.Text.{Chars}
use basic_kernel_implementat.Video.{copy_loop, clear_line, clear_loop, space, default_color}

pub copy_loop-outside :
    (left to from : ℕ) (m : Chars) (q : ℕ)
    → (q < to) ⊎ (to + left ≤ q)
    → copy_loop left to from m q ≡ m q
unfolding copy_loop
copy_loop-outside zero to from m q out = refl
copy_loop-outside (suc left) to from m q out =
    ground (arith, copy_loop-outside left (to + 1) (from + 1) (update m to (m from)) q)

copy_loop-here : (left to from : ℕ) (m : Chars) → copy_loop (suc left) to from m to ≡ m from
unfolding copy_loop
copy_loop-here left to from m =
    ground (arith, copy_loop-outside left (to + 1) (from + 1) (update m to (m from)) to)

copy_loop_lem :
    (left to from : ℕ) (m : Chars)
    → copy_loop (suc left) to from m ≡ copy_loop left (to + 1) (from + 1) (update m to (m from))
unfolding copy_loop
copy_loop_lem left to from m = refl

-- Copying towards lower addresses, or between places that do not overlap.
pub copy_loop-inside :
    (left to from : ℕ) (m : Chars) (k : ℕ)
    → (to < from) ⊎ (from + left ≤ to)
    → k < left
    → copy_loop left to from m (to + k) ≡ m (from + k)
copy_loop-inside zero to from m k apart h = absurd (omega arith)
copy_loop-inside (suc left) to from m zero apart h = ground (arith, copy_loop-here left to from m)
copy_loop-inside (suc left) to from m (suc k) apart h =
    let rest =
      copy_loop-inside left (to + 1) (from + 1) (update m to (m from)) k (ground arith)
        (omega arith) in
    rw (copy_loop_lem left to from m) (ground (arith, rest))

pub clear_line-outside :
    (left p : ℕ) (m : Chars) (q : ℕ) → (q < p) ⊎ (p + 2 * left ≤ q) → clear_line left p m q ≡ m q
unfolding clear_line
clear_line-outside zero p m q out = refl
clear_line-outside (suc left) p m q out =
    ground
      (arith, clear_line-outside left (p + 2) (update (update m p space) (p + 1) default_color) q)

clear_line_lem :
    (left p : ℕ) (m : Chars)
    → clear_line (suc left) p m
      ≡ clear_line left (p + 2) (update (update m p space) (p + 1) default_color)
unfolding clear_line
clear_line_lem left p m = refl

-- An empty place: a space, and the colour behind it.
abbrev pub blank : ℕ → ℕ
blank k = if k % 2 == 1 then default_color else space

pub clear_line-inside :
    (left p : ℕ) (m : Chars) (k : ℕ) → k < 2 * left → clear_line left p m (p + k) ≡ blank k
clear_line-inside zero p m k h = absurd (omega arith)
clear_line-inside (suc left) p m zero h =
    let m1 = update (update m p space) (p + 1) default_color in
    rw (clear_line_lem left p m)
      (clear_line-outside left (p + 2) m1 (p + 0) (inl (omega arith)) ∙ ground arith)
clear_line-inside (suc left) p m (suc zero) h =
    let m1 = update (update m p space) (p + 1) default_color in
    rw (clear_line_lem left p m)
      (clear_line-outside left (p + 2) m1 (p + 1) (inl (omega arith)) ∙ ground arith)
clear_line-inside (suc left) p m (suc (suc k)) h =
    let rest =
      clear_line-inside left (p + 2) (update (update m p space) (p + 1) default_color) k
        (omega arith) in
    rw (clear_line_lem left p m) (ground (arith, rest))

pub clear_loop-outside :
    (left i s : ℕ) (m : Chars) (q : ℕ)
    → (q < s + i) ⊎ (s + i + left ≤ q)
    → clear_loop left i s m q ≡ m q
unfolding clear_loop
clear_loop-outside zero i s m q out = refl
clear_loop-outside (suc left) i s m q out =
    ground (arith, clear_loop-outside left (i + 1) s (update m (s + i) (blank i)) q)

clear_loop_lem :
    (left i s : ℕ) (m : Chars)
    → clear_loop (suc left) i s m ≡ clear_loop left (i + 1) s (update m (s + i) (blank i))
unfolding clear_loop
clear_loop_lem left i s m = refl

pub clear_loop-inside :
    (left i s : ℕ) (m : Chars) (k : ℕ)
    → i ≤ k
    → k < i + left
    → clear_loop left i s m (s + k) ≡ blank k
clear_loop-inside zero i s m k after h = absurd (omega arith)
clear_loop-inside (suc left) i s m k after h = elim (Bool-cases (k == i)) [
  | inl here ↦ rw (clear_loop_lem left i s m) (
      clear_loop-outside left (i + 1) s (update m (s + i) (blank i)) (s + k) (inl (ground arith))
      ∙ ground arith)
  | inr later ↦
      rw (clear_loop_lem left i s m) (
        clear_loop-inside left (i + 1) s (update m (s + i) (blank i)) k (ground arith)
          (omega arith))
]
