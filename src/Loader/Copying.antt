-- ===== src/Loader/Copying.antt =====
-- memset and memcpy of Kernel/lib.c: which bytes they write, and what.
use basic_kernel_implementat.Prelude.{
  ℕ, zero, suc, ◌+◌, ◌-◌, ◌*◌, ◌/◌, ◌%◌, ◌≤◌, ◌<◌, ◌≡◌, refl, ◌∙◌, ◌⊎◌, inl, inr, ◌&&◌, arith, ltb,
  ◌==◌, Bool-cases, length,
}
use basic_kernel_implementat.Text.{Chars}
use basic_kernel_implementat.Video.Copying.{copy_loop-inside, copy_loop-outside}
use basic_kernel_implementat.Loader.{word_loop, copy_word, memcpy}

word_loop_lem :
    (words d s : ℕ) (m : Chars)
    → word_loop (suc words) d s m ≡ word_loop words (d + 4) (s + 4) (copy_word d s m)
unfolding word_loop
word_loop_lem words d s m = refl

word_loop-outside :
    (words d s : ℕ) (m : Chars) (q : ℕ)
    → (q < d) ⊎ (d + 4 * words ≤ q)
    → word_loop words d s m q ≡ m q
unfolding word_loop
word_loop-outside zero d s m q out = refl
word_loop-outside (suc words) d s m q out =
    ground (arith, word_loop-outside words (d + 4) (s + 4) (copy_word d s m) q)

word_loop-inside :
    (words d s : ℕ) (m : Chars) (k : ℕ)
    → (d < s) ⊎ (s + 4 * words ≤ d)
    → k < 4 * words
    → word_loop words d s m (d + k) ≡ m (s + k)
word_loop-inside zero d s m k apart h = absurd (omega arith)
word_loop-inside (suc words) d s m k apart h = elim (Bool-cases (ltb k 4)) [
  | inl first ↦ rw (word_loop_lem words d s m) (
      word_loop-outside words (d + 4) (s + 4) (copy_word d s m) (d + k) (inl (ground arith))
      ∙ ground arith)
  | inr later ↦
      let e : d + 4 + (k - 4) ≡ d + k = ground arith in
      let rest =
        word_loop-inside words (d + 4) (s + 4) (copy_word d s m) (k - 4) (ground arith)
          (ground arith) in
      rw (word_loop_lem words d s m) (rw e at rest ∙ ground arith)
]

-- memcpy, by bytes or by words, copies `length` bytes towards lower addresses or to a place that does
-- not overlap them, and writes nothing else.
pub memcpy-copies :
    (destination source length : ℕ) (m : Chars)
    → (destination < source) ⊎ (source + length ≤ destination)
    → ((k : ℕ) → k < length → memcpy destination source length m (destination + k) ≡ m (source + k))
      × ((q : ℕ)
          → (q < destination) ⊎ (destination + length ≤ q)
          → memcpy destination source length m q ≡ m q)
unfolding memcpy
memcpy-copies destination source length m apart =
    elim (Bool-cases ((destination % 4 == 0) && (source % 4 == 0) && (length % 4 == 0))) [
      | inl words ↦
          let whole : 4 * (length / 4) ≡ length = ground arith in
          rw words (
            λ k lt.
                word_loop-inside (length / 4) destination source m k (ground arith) (omega arith),
            λ q out. word_loop-outside (length / 4) destination source m q (ground arith),
          )
      | inr bytes ↦ rw bytes (
        λ k lt. copy_loop-inside length destination source m k apart lt,
        λ q out. copy_loop-outside length destination source m q out,
      )
    ]
