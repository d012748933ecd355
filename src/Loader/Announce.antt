-- ===== src/Loader/Announce.antt =====
-- What loadModule prints ends, and leaves the cursor of the console at a character.
use basic_kernel_implementat.Prelude.{
  ℕ, zero, suc, ◌+◌, ◌-◌, ◌/◌, ◌%◌, ◌≤◌, ◌<◌, ◌≡◌, refl, ◌≢◌, some, List, [], ◌∷◌, arith, length,
  get_or, All,
}
use basic_kernel_implementat.Text.{Chars}
use basic_kernel_implementat.Console.{
  video, Console, nc_print, nc_print_base, nc_print_dec, nc_print_hex,
}
use basic_kernel_implementat.Console.Printing.{
  IsPrinted, nc_print_loop-IsPrinted, nc_print_base-IsPrinted, nc_newline-IsPrinted,
}
use basic_kernel_implementat.Loader.{
  literal, will_copy, to_address, open_paren, bytes_close, done_text, announce, confirm,
}

-- At a character of the video memory.
pub record IsReady (c : Console) : Type 0 where
  pub from : video ≤ c.current_video
  pub even : (c.current_video - video) % 2 ≡ 0

IsReady-IsPrinted :
    {text : Chars} (n : ℕ) (c c' : Console) → IsPrinted text n c c' → IsReady c → IsReady c'
IsReady-IsPrinted n c c' r ok = record {
  from = omega (arith, r.moved, ok.from);
  even = omega (arith, r.moved, ok.even, ok.from);
}

get_or-proper :
    (text : List ℕ) (k : ℕ) → All (λ x. x ≢ 0) text → k < length text → get_or text k 0 ≢ 0
get_or-proper [] k all h = absurd (omega arith)
get_or-proper (x ∷ text) zero all h = all.0
get_or-proper (x ∷ text) (suc k) all h = get_or-proper text k all.1 (omega arith)

get_or-end : (text : List ℕ) → get_or text (length text) 0 ≡ 0
get_or-end [] = refl
get_or-end (x ∷ text) = get_or-end text

module _ (fuel : ℕ) where
  literal-IsReady :
      (text : List ℕ) (c : Console)
      → All (λ x. x ≢ 0) text
      → length text < fuel
      → IsReady c
      → (c' : Console) × (nc_print fuel (literal text) c ≡ some c') × IsReady c'
  unfolding nc_print
  literal-IsReady text c proper h ok =
      let (c', printed, r, _) =
        nc_print_loop-IsPrinted fuel (literal text) 0 (length text) c
          (λ k lt. ground (arith, get_or-proper text k proper lt)) (ground (arith, get_or-end text))
          h in
      (c', printed, IsReady-IsPrinted (length text) c c' r ok)

  number-IsReady :
      (value base : ℕ) (c : Console)
      → 2 ≤ base
      → value + 1 < fuel
      → IsReady c
      → (c' : Console) × (nc_print_base fuel value base c ≡ some c') × IsReady c'
  number-IsReady value base c wide h ok =
      let (n, c', printed, _, r) = nc_print_base-IsPrinted fuel value base c wide h in
      (c', printed, IsReady-IsPrinted n c c' r ok)

  pub announce-IsReady :
      (module_at target module_size : ℕ) (c : Console)
      → module_at + 1 < fuel
      → target + 1 < fuel
      → module_size + 1 < fuel
      → 81 < fuel
      → IsReady c
      → (c' : Console) × (announce fuel module_at target module_size c ≡ some c') × IsReady c'
  unfolding announce nc_print_hex nc_print_dec
  announce-IsReady module_at target module_size c h1 h2 h3 h4 ok =
      let (c1, e1, ok1) = literal-IsReady will_copy c (ground arith) (omega arith) ok in
      let (c2, e2, ok2) = number-IsReady module_at 16 c1 (omega arith) h1 ok1 in
      let (c3, e3, ok3) = literal-IsReady to_address c2 (ground arith) (omega arith) ok2 in
      let (c4, e4, ok4) = number-IsReady target 16 c3 (omega arith) h2 ok3 in
      let (c5, e5, ok5) = literal-IsReady open_paren c4 (ground arith) (omega arith) ok4 in
      let (c6, e6, ok6) = number-IsReady module_size 10 c5 (omega arith) h3 ok5 in
      let (c7, e7, ok7) = literal-IsReady bytes_close c6 (ground arith) (omega arith) ok6 in
      (c7, rw (e1, e2, e3, e4, e5, e6) e7, ok7)

  pub confirm-IsReady :
      (c : Console)
      → 81 < fuel
      → IsReady c
      → (c' : Console) × (confirm fuel c ≡ some c') × IsReady c'
  unfolding confirm
  confirm-IsReady c h ok =
      let (c1, e1, ok1) = literal-IsReady done_text c (ground arith) (omega arith) ok in
      let left = (160 - (c1.current_video - video) % 160) / 2 in
      let (c2, e2, r, _) =
        nc_newline-IsPrinted left fuel c1 ok1.from (omega (arith, ok1.even)) (omega arith) in
      (c2, rw e1 e2, IsReady-IsPrinted left c1 c2 r ok1)
