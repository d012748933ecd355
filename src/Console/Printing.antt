-- ===== src/Console/Printing.antt =====
-- What Kernel/naiveConsole.c prints, and that printing ends.
use basic_kernel_implementat.Prelude.{
  ℕ, zero, suc, ◌+◌, ◌-◌, ◌*◌, ◌%◌, ◌≤◌, ◌<◌, ◌≡◌, refl, sym, ap, ◌∙◌, ◌≢◌, ◌⊎◌, inl, inr, false,
  some, arith, ◌==◌, Bool-cases,
}
use basic_kernel_implementat.Text.{Chars}
use basic_kernel_implementat.Console.{
  video, Console, nc_print_char, nc_print_loop, nc_print, nc_newline, nc_print_base,
}
use basic_kernel_implementat.Console.Base.{IsBaseText, uint_to_base-IsBaseText}

-- The first `n` characters of `text` were printed: they are at the cells from the cursor on, with the
-- colours that were there, the cursor moved on, and nothing was written elsewhere.
pub record IsPrinted (text : Chars) (n : ℕ) (c c' : Console) : Type 0 where
  pub moved : c'.current_video ≡ c.current_video + 2 * n
  pub shown : (k : ℕ) → k < n → c'.cells (c.current_video + 2 * k) ≡ text k
  pub colours :
      (k : ℕ)
      → k < n
      → c'.cells (c.current_video + 2 * k + 1) ≡ c.cells (c.current_video + 2 * k + 1)
  pub outside :
      (q : ℕ) → (q < c.current_video) ⊎ (c.current_video + 2 * n ≤ q) → c'.cells q ≡ c.cells q

IsPrinted-char :
    (character n : ℕ) (text rest : Chars) (c c' : Console)
    → text 0 ≡ character
    → ((k : ℕ) → k < n → text (suc k) ≡ rest k)
    → IsPrinted rest n (nc_print_char character c) c'
    → IsPrinted text (suc n) c c'
IsPrinted-char character n text rest c c' first others r = record {
  moved = omega (arith, r.moved);
  shown = λ k lt. elim (Bool-cases (k == 0)) [
    | inl zeroth ↦
        let e : k ≡ 0 = ground arith in
        let here : c.current_video + 2 * 0 ≡ c.current_video = omega arith in
        rw (e, first, here) (r.outside c.current_video (inl (omega arith)) ∙ ground arith)
    | inr later ↦
        let e : k ≡ suc (k - 1) = ground arith in
        let at : c.current_video + 2 + 2 * (k - 1) ≡ c.current_video + 2 * k = ground arith in
        (rw at at (r.shown (k - 1) (ground arith)))
        ∙ (sym (others (k - 1) (ground arith)) ∙ ap text (sym e))
  ];
  colours = λ k lt. elim (Bool-cases (k == 0)) [
    | inl zeroth ↦
        let e : k ≡ 0 = ground arith in
        rw e (r.outside (c.current_video + 2 * 0 + 1) (inl (omega arith)) ∙ ground arith)
    | inr later ↦
        let at : c.current_video + 2 + 2 * (k - 1) + 1 ≡ c.current_video + 2 * k + 1 =
          ground arith in
        (rw at at (r.colours (k - 1) (ground arith))) ∙ ground arith
  ];
  outside = λ q out. r.outside q (ground arith) ∙ ground arith;
}

IsPrinted-none : (text : Chars) (c : Console) → IsPrinted text 0 c c
IsPrinted-none text c = record {
  moved = omega arith;
  shown = λ k lt. absurd (omega arith);
  colours = λ k lt. refl;
  outside = λ q out. refl;
}

nc_print_loop-end :
    (fuel : ℕ) (string : Chars) (i : ℕ) (c : Console)
    → string i ≡ 0
    → nc_print_loop (suc fuel) string i c ≡ some c
unfolding nc_print_loop
nc_print_loop-end fuel string i c e = rw e refl

nc_print_loop-more :
    (fuel : ℕ) (string : Chars) (i : ℕ) (c : Console)
    → string i ≢ 0
    → nc_print_loop (suc fuel) string i c
      ≡ nc_print_loop fuel string (i + 1) (nc_print_char (string i) c)
unfolding nc_print_loop
nc_print_loop-more fuel string i c ne =
    let more : (string i == 0) ≡ false = ground arith in rw more refl

pub nc_print_loop-IsPrinted :
    (fuel : ℕ) (string : Chars) (i n : ℕ) (c : Console)
    → ((k : ℕ) → k < n → string (i + k) ≢ 0)
    → string (i + n) ≡ 0
    → n < fuel
    → (c' : Console) × (nc_print_loop fuel string i c ≡ some c')
      × IsPrinted (λ k. string (i + k)) n c c'
      × (c'.buffer ≡ c.buffer)
nc_print_loop-IsPrinted zero string i n c proper ends h = absurd (omega arith)
nc_print_loop-IsPrinted (suc fuel) string i zero c proper ends h = (
  c,
  nc_print_loop-end fuel string i c (ground (arith, ends)),
  IsPrinted-none (λ k. string (i + k)) c,
  refl,
)
nc_print_loop-IsPrinted (suc fuel) string i (suc n) c proper ends h =
    let (c', done, r, same) =
      nc_print_loop-IsPrinted fuel string (i + 1) n (nc_print_char (string i) c)
        (λ k lt. ground (arith, proper (suc k) (omega arith))) (ground (arith, ends))
        (omega arith) in
    (
      c',
      nc_print_loop-more fuel string i c (ground (arith, proper 0 (omega arith))) ∙ done,
      IsPrinted-char (string i) n (λ k. string (i + k)) (λ k. string (i + 1 + k)) c c'
          (ground arith) (λ k lt. ground arith) r,
      same,
    )

pub nc_print_base-IsPrinted :
    (fuel value base : ℕ) (c : Console)
    → 2 ≤ base
    → value + 1 < fuel
    → (n : ℕ) × (c' : Console) × (nc_print_base fuel value base c ≡ some c')
      × IsBaseText base c'.buffer n value
      × IsPrinted c'.buffer n c c'
unfolding nc_print_base nc_print
nc_print_base-IsPrinted fuel value base c wide h =
    let (n, buffer, written, text) =
      uint_to_base-IsBaseText fuel value base c.buffer wide (omega arith) in
    let (c', printed, r, same) =
      nc_print_loop-IsPrinted fuel buffer 0 n (record c { buffer = buffer })
        (λ k lt. ground (arith, text.proper k lt)) (ground (arith, text.ends))
        (omega (arith, text.few)) in
    (
      n,
      c',
      rw (written, printed) refl,
      rw same text,
      rw same (record {
        moved = r.moved;
        shown = λ k lt.
            let from_start : 0 + k ≡ k = omega arith in
            r.shown k lt ∙ ap (λ (j : ℕ). buffer j) from_start;
        colours = r.colours;
        outside = r.outside;
      }),
    )

-- ncNewline ends at the start of a line, where the cursor is at a character: it prints spaces, one
-- at least and 80 at most.
pub nc_newline-IsPrinted :
    (left fuel : ℕ) (c : Console)
    → video ≤ c.current_video
    → (c.current_video - video) % 160 + 2 * left ≡ 160
    → left < fuel
    → (c' : Console) × (nc_newline fuel c ≡ some c')
      × IsPrinted (λ _. 32) left c c'
      × ((c'.current_video - video) % 160 ≡ 0)
unfolding nc_newline
nc_newline-IsPrinted zero fuel c from line h = absurd (omega arith)
nc_newline-IsPrinted (suc left) zero c from line h = absurd (omega arith)
nc_newline-IsPrinted (suc left) (suc fuel) c from line h =
    elim (Bool-cases ((c.current_video + 2 - video) % 160 == 0)) [
      | inl done ↦
          let last : left ≡ 0 = ground (arith, line) in
          (
            nc_print_char 32 c,
            rw done refl,
            rw last (
                IsPrinted-char 32 0 (λ _. 32) (λ _. 32) c (nc_print_char 32 c) refl (λ k lt. refl)
                  (IsPrinted-none (λ _. 32) (nc_print_char 32 c))),
            ground (arith, done),
          )
      | inr more ↦
          let (c', printed, r, at_start) =
            nc_newline-IsPrinted left fuel (nc_print_char 32 c) (omega arith) (ground (arith, line))
              (omega arith) in
          (
            c',
            rw (more, printed) refl,
            IsPrinted-char 32 left (λ _. 32) (λ _. 32) c c' refl (λ k lt. refl) r,
            at_start,
          )
    ]
