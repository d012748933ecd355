-- ===== src/Shell/Line.antt =====
-- The line that shell of Userland/SampleCodeModule/shell.c reads is the one that getline would read.
use basic_kernel_implementat.Prelude.{
  ℕ, zero, suc, ◌-◌, ◌≡◌, refl, ◌⊎◌, inl, inr, false, none, some, List, [], ◌∷◌, arith, ltb,
  Bool-cases, ◌+◌, ◌%◌, sym, ap, ◌∙◌, ◌++◌, ◌==◌, if◌then◌else◌, update, ◌<◌, ◌≢◌, length, All,
}
use basic_kernel_implementat.Stdio.{
  getline, Stdio, newline, backspace, putchar, write, getchar, getline_loop,
}
use basic_kernel_implementat.Stdio.Input.{type_keys, HoldsLine, getline-IsLine}
use basic_kernel_implementat.Shell.{shell_line}

-- What has been printed is something else.
abbrev printed : List ℕ → Stdio → Stdio
printed w t = record t { written = w }

getchar-none : (w : List ℕ) (t : Stdio) → t.i ≡ 0 → t.keys ≡ [] → getchar t ≡ none
unfolding getchar
getchar-none w t none_back no_key = rw (none_back, no_key) refl

-- getchar does not look at what has been printed.
getchar-printed :
    (w : List ℕ) (t : Stdio)
    → (getchar t ≡ none)
      ⊎ ((c : ℕ) × (t1 : Stdio) × (getchar t ≡ some (c, t1))
          × (getchar (printed w t) ≡ some (c, printed w t1)))
unfolding getchar
getchar-printed w t = elim (Bool-cases (ltb 0 t.i)) [
  | inl back ↦ inr (t.buffer (t.i - 1), record t { i = t.i - 1 }, rw back refl, rw back refl)
  | inr none_back ↦ from_keys t.keys refl none_back
]
  where
    from_keys :
        (keys : List ℕ)
        → t.keys ≡ keys
        → ltb 0 t.i ≡ false
        → (getchar t ≡ none)
          ⊎ ((c : ℕ) × (t1 : Stdio) × (getchar t ≡ some (c, t1))
              × (getchar (printed w t) ≡ some (c, printed w t1)))
    from_keys [] e none_back = inl (rw (none_back, e) refl)
    from_keys (c ∷ keys) e none_back =
        inr (c, record t { keys = keys }, rw (none_back, e) refl, rw (none_back, e) refl)

some_inj : {a b : Stdio} → some a ≡ some b → a ≡ b
some_inj {a} e = ap (λ o. elim o [ none ↦ a | some x ↦ x ]) e

getline_loop-zero : (buffer i : ℕ) (t : Stdio) → getline_loop 0 buffer i t ≡ none
unfolding getline_loop
getline_loop-zero buffer i t = refl

getline_loop-none :
    (fuel buffer i : ℕ) (t : Stdio) → getchar t ≡ none → getline_loop (suc fuel) buffer i t ≡ none
unfolding getline_loop
getline_loop-none fuel buffer i t nothing = rw nothing refl

-- A round of getline on a key.
getline_loop-key :
    (fuel buffer i c : ℕ) (t t1 : Stdio)
    → getchar t ≡ some (c, t1)
    → getline_loop (suc fuel) buffer i t ≡ (
        if c == newline
        then some (record (putchar newline t1) {
          memory = update (putchar newline t1).memory (buffer + i) 0;
        })
        else if c == backspace
        then getline_loop fuel buffer (i - 1) t1
        else getline_loop fuel buffer
            (i + 1)
            (record t1 { memory = update t1.memory (buffer + i) c }))
unfolding getline_loop
getline_loop-key fuel buffer i c t t1 key = rw key refl

-- shell reads a line as getline does, and prints it while it is typed: whenever getline ends, so does the
-- loop of shell, with the same memory and the same keys left.
pub shell_line-getline_loop :
    (fuel buffer i : ℕ) (w : List ℕ) (t t' : Stdio)
    → getline_loop fuel buffer i t ≡ some t'
    → (w' : List ℕ) × (shell_line fuel buffer i (printed w t) ≡ some (printed w' t'))
unfolding shell_line putchar write
shell_line-getline_loop zero buffer i w t t' got =
    absurd (ground (arith, sym (getline_loop-zero buffer i t) ∙ got))
shell_line-getline_loop (suc fuel) buffer i w t t' got = elim (getchar-printed w t) [
  | inl nothing ↦ absurd (ground (arith, sym (getline_loop-none fuel buffer i t nothing) ∙ got))
  | inr (c, t1, key, same) ↦
      let round = sym (getline_loop-key fuel buffer i c t t1 key) ∙ got in
      elim (Bool-cases (c == newline)) [
        | inl ends ↦
            let last : some (record t1 {
              written = t1.written ++ (newline ∷ []);
              memory = update t1.memory (buffer + i) 0;
            })
                ≡ some t' =
              simp ends at round in
            rw (same, ends)
              (w ++ (newline ∷ []), ap some (ap (printed (w ++ (newline ∷ []))) (some_inj last)))
        | inr more ↦ elim (Bool-cases (c == backspace)) [
          | inr own ↦
              let t2 = record t1 { memory = update t1.memory (buffer + i) c } in
              let rest : getline_loop fuel buffer (i + 1) t2 ≡ some t' =
                simp (more, own) at round in
              rw (same, more, own)
                (shell_line-getline_loop fuel buffer (i + 1) (w ++ (c % 256 ∷ [])) t2 t' rest)
          | inl erase ↦
              let rest : getline_loop fuel buffer (i - 1) t1 ≡ some t' =
                simp (more, erase) at round in
              elim (Bool-cases (ltb 0 i)) [
                | inl some_left ↦
                    rw (same, more, erase, some_left)
                      (shell_line-getline_loop fuel buffer (i - 1) (w ++ (c % 256 ∷ [])) t1 t' rest)
                | inr none_left ↦
                    let start : i - 1 ≡ i = ground arith in
                    rw (same, more, erase, none_left)
                      (shell_line-getline_loop fuel buffer i w t1 t' (rw (← start) rest))
              ]
        ]
      ]
]

-- shell reads a line to its end: the buffer holds the characters of the line as they are typed, each
-- backspace taking the last one away if there is one, with a 0 behind them, and the keys behind the line
-- are left. No character has been put back.
pub shell_line-HoldsLine :
    (fuel buffer : ℕ) (keys rest : List ℕ) (s : Stdio)
    → s.i ≡ 0
    → s.keys ≡ keys ++ (newline ∷ rest)
    → All (λ c. c ≢ newline) keys
    → length keys < fuel
    → (s' : Stdio) × (shell_line fuel buffer 0 s ≡ some s')
      × HoldsLine s'.memory buffer (type_keys [] keys)
      × (s'.memory (buffer + length (type_keys [] keys)) ≡ 0)
      × (s'.keys ≡ rest)
shell_line-HoldsLine fuel buffer keys rest s none_back next all enough =
    let (t', ends, is_line) = getline-IsLine fuel buffer keys rest s none_back next all enough in
    let ends_loop : getline_loop fuel buffer 0 s ≡ some t' = unfold getline in ends in
    let (w, same) = shell_line-getline_loop fuel buffer 0 s.written s t' ends_loop in
    (printed w t', same, is_line.text, is_line.ended, is_line.keys)
