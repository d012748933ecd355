-- ===== src/Stdio/Printing.antt =====
-- printf of Userland/SampleCodeModule/stdio.c against the text that a format stands for.
use basic_kernel_implementat.Prelude.{
  ℕ, zero, suc, ◌+◌, ◌-◌, ◌%◌, ◌^◌, ◌<◌, ◌≡◌, refl, sym, ap, ◌∙◌, ◌≢◌, false, some, List, [], ◌∷◌,
  ◌++◌, arith, ◌==◌, length, replicate,
}
use basic_kernel_implementat.Text.{Chars}
use basic_kernel_implementat.Strings.Compare.{TextAt}
use basic_kernel_implementat.Stdio.{Stdio, write, putchar}
use basic_kernel_implementat.Stdio.Format.{
  percent, letter_c, letter_d, letter_s, directive, printf_loop, printf,
}
use basic_kernel_implementat.Stdio.Numbers.{text_of, write-write, write-nil}
use basic_kernel_implementat.Stdio.Directives.{
  digits_of, directive-text, directive-character, directive-number, directive-wide_number,
}

-- What a format consists of, with the arguments: a character of its own, %s, %c, %d, and %d with a
-- margin of one digit.
pub data Item : Type 0 where
  plain : (c : ℕ) → Item
  text : (xs : List ℕ) → Item
  character : (c : ℕ) → Item
  number : (n : ℕ) → Item
  wide_number : (w n : ℕ) → Item

-- The text that an item stands for.
abbrev pub render_item : Item → List ℕ
render_item (plain c) = c ∷ []
render_item (text xs) = xs
render_item (character c) = c ∷ []
render_item (number n) = text_of n
render_item (wide_number w n) = replicate (w - digits_of n) 32 ++ text_of n

abbrev pub render : List Item → List ℕ
render [] = []
render (x ∷ xs) = render_item x ++ render xs

-- The format that is at `p`, with its arguments, are these items.
abbrev pub FormatAt : (fuel : ℕ) → (m : Chars) → (p : ℕ) → (args : List ℕ) → List Item → Type 0
FormatAt fuel m p args [] = m p ≡ 0
FormatAt fuel m p args (plain c ∷ items) =
    (m p ≡ c) × (c ≢ 0) × (c ≢ percent) × (c < 256) × FormatAt fuel m (p + 1) args items
FormatAt fuel m p args (text xs ∷ items) =
    (a : ℕ) × (rest : List ℕ) × (args ≡ a ∷ rest)
    × (m p ≡ percent)
    × (m (p + 1) ≡ letter_s)
    × TextAt m a xs
    × (length xs < fuel)
    × FormatAt fuel m (p + 2) rest items
FormatAt fuel m p args (character c ∷ items) =
    (rest : List ℕ) × (args ≡ c ∷ rest)
    × (m p ≡ percent)
    × (m (p + 1) ≡ letter_c)
    × (c < 256)
    × FormatAt fuel m (p + 2) rest items
FormatAt fuel m p args (number n ∷ items) =
    (rest : List ℕ) × (args ≡ n ∷ rest)
    × (m p ≡ percent)
    × (m (p + 1) ≡ letter_d)
    × (n < 2 ^ 32)
    × (n ≢ 2 ^ 31)
    × FormatAt fuel m (p + 2) rest items
FormatAt fuel m p args (wide_number w n ∷ items) =
    (rest : List ℕ) × (args ≡ n ∷ rest)
    × (m p ≡ percent)
    × (m (p + 1) ≡ 48 + w)
    × (w < 10)
    × (m (p + 2) ≡ letter_d)
    × (n < 2 ^ 32)
    × (n ≢ 2 ^ 31)
    × FormatAt fuel m (p + 3) rest items

printf_loop-plain :
    (steps fuel format i c : ℕ) (args : List ℕ) (s : Stdio)
    → s.memory (format + i) ≡ c
    → c ≢ 0
    → c ≢ percent
    → printf_loop (suc steps) fuel format i args s
      ≡ printf_loop steps fuel format (i + 1) args (putchar c s)
unfolding printf_loop
printf_loop-plain steps fuel format i c args s here some_char not_percent =
    let more : (c == 0) ≡ false = ground arith in
    let own : (c == percent) ≡ false = ground arith in rw (here, more, own) refl

printf_loop-directive :
    (steps fuel format i j : ℕ) (args rest : List ℕ) (s s1 : Stdio)
    → s.memory (format + i) ≡ percent
    → directive fuel format (i + 1) args s ≡ some (j, rest, s1)
    → printf_loop (suc steps) fuel format i args s ≡ printf_loop steps fuel format (j + 1) rest s1
unfolding printf_loop
printf_loop-directive steps fuel format i j args rest s s1 here done = rw (here, done) refl

-- Writing leaves the memory as it is.
FormatAt-write :
    (fuel p p' : ℕ) (args : List ℕ) (items : List Item) (xs : List ℕ) (s : Stdio)
    → FormatAt fuel s.memory p args items
    → p' ≡ p
    → FormatAt fuel (write xs s).memory p' args items
unfolding write
FormatAt-write fuel p p' args items xs s f e = rw e f

-- The text of a directive comes before that of the rest.
printf_loop-behind :
    (steps fuel format i j : ℕ) (args rest xs ys : List ℕ) (s : Stdio)
    → s.memory (format + i) ≡ percent
    → directive fuel format (i + 1) args s ≡ some (j, rest, write xs s)
    → printf_loop steps fuel format (j + 1) rest (write xs s) ≡ some (write ys (write xs s))
    → printf_loop (suc steps) fuel format i args s ≡ some (write (xs ++ ys) s)
printf_loop-behind steps fuel format i j args rest xs ys s here done behind =
    printf_loop-directive steps fuel format i j args rest s (write xs s) here done
    ∙ (behind ∙ ap some (write-write xs ys s))

pub printf_loop-render :
    (steps fuel format i : ℕ) (args : List ℕ) (items : List Item) (s : Stdio)
    → FormatAt fuel s.memory (format + i) args items
    → length items < steps
    → 10 < fuel
    → printf_loop steps fuel format i args s ≡ some (write (render items) s)
printf_loop-render zero fuel format i args items s f h enough = absurd (omega arith)
printf_loop-render (suc steps) fuel format i args [] s f h enough =
    unfold printf_loop in rw f (ap some (sym (write-nil s)))
printf_loop-render (suc steps) fuel format i args (plain c ∷ items) s
      (here, some_char, own, byte, f) h enough =
    let next : format + (i + 1) ≡ format + i + 1 = omega arith in
    let small : c % 256 ≡ c = omega arith in
    let printed : putchar c s ≡ write (c ∷ []) s = unfold putchar in rw small refl in
    printf_loop-plain steps fuel format i c args s here some_char own
    ∙ ap (printf_loop steps fuel format (i + 1) args) printed
    ∙ (printf_loop-render steps fuel format (i + 1) args items (write (c ∷ []) s)
          (FormatAt-write fuel (format + i + 1) (format + (i + 1)) args items (c ∷ []) s f next)
          (omega arith) enough
        ∙ ap some (write-write (c ∷ []) (render items) s))
printf_loop-render (suc steps) fuel format i args (text xs ∷ items) s
      (a, rest, taken, here, letter, t, short, f) h enough =
    let at : format + (i + 1) ≡ format + i + 1 = omega arith in
    let next : format + (i + 1 + 1) ≡ format + i + 2 = omega arith in
    rw taken (
      printf_loop-behind steps fuel format i (i + 1) (a ∷ rest) rest xs (render items) s here
        (directive-text fuel format (i + 1) a rest xs s (rw at letter) t short)
        (printf_loop-render steps fuel format (i + 1 + 1) rest items (write xs s)
          (FormatAt-write fuel (format + i + 2) (format + (i + 1 + 1)) rest items xs s f next)
          (omega arith) enough))
printf_loop-render (suc steps) fuel format i args (character c ∷ items) s
      (rest, taken, here, letter, byte, f) h enough =
    let at : format + (i + 1) ≡ format + i + 1 = omega arith in
    let next : format + (i + 1 + 1) ≡ format + i + 2 = omega arith in
    rw taken (
      printf_loop-behind steps fuel format i (i + 1) (c ∷ rest) rest (c ∷ []) (render items) s here
        (directive-character fuel format (i + 1) c rest s (rw at letter) byte)
        (printf_loop-render steps fuel format (i + 1 + 1) rest items (write (c ∷ []) s)
          (FormatAt-write fuel (format + i + 2) (format + (i + 1 + 1)) rest items (c ∷ []) s f next)
          (omega arith) enough))
printf_loop-render (suc steps) fuel format i args (number n ∷ items) s
      (rest, taken, here, letter, int, not_least, f) h enough =
    let at : format + (i + 1) ≡ format + i + 1 = omega arith in
    let next : format + (i + 1 + 1) ≡ format + i + 2 = omega arith in
    rw taken (
      printf_loop-behind steps fuel format i (i + 1) (n ∷ rest) rest (text_of n) (render items) s
        here (directive-number fuel format (i + 1) n rest s (rw at letter) int not_least enough)
        (printf_loop-render steps fuel format (i + 1 + 1) rest items (write (text_of n) s)
          (FormatAt-write fuel (format + i + 2) (format + (i + 1 + 1)) rest items (text_of n) s f
            next)
          (omega arith) enough))
printf_loop-render (suc steps) fuel format i args (wide_number w n ∷ items) s
      (rest, taken, here, digit, small, letter, int, not_least, f) h enough =
    let at : format + (i + 1) ≡ format + i + 1 = omega arith in
    let behind : format + (i + 1 + 1) ≡ format + i + 2 = omega arith in
    let next : format + (i + 1 + 1 + 1) ≡ format + i + 3 = omega arith in
    let xs = replicate (w - digits_of n) 32 ++ text_of n in
    rw taken (
      printf_loop-behind steps fuel format i (i + 1 + 1) (n ∷ rest) rest xs (render items) s here
        (directive-wide_number fuel format (i + 1) w n rest s (rw at digit) small (rw behind letter)
          int not_least enough)
        (printf_loop-render steps fuel format (i + 1 + 1 + 1) rest items (write xs s)
          (FormatAt-write fuel (format + i + 3) (format + (i + 1 + 1 + 1)) rest items xs s f next)
          (omega arith) enough))

-- printf prints the text that its format stands for, and ends: the characters of the format with %s, %c
-- and %d replaced by the arguments, a number behind as many spaces as its margin, which is a digit, is
-- wider than its digits. The arguments are those of the format, and none is the least `int`.
pub printf-render :
    (fuel format : ℕ) (args : List ℕ) (items : List Item) (s : Stdio)
    → FormatAt fuel s.memory format args items
    → length items < fuel
    → 10 < fuel
    → printf fuel format args s ≡ some (write (render items) s)
unfolding printf
printf-render fuel format args items s f h enough =
    let start : format + 0 ≡ format = omega arith in
    printf_loop-render fuel fuel format 0 args items s (rw start f) h enough
