-- ===== src/Stdio/Input.antt =====
-- getchar, ungetc and getline of Userland/SampleCodeModule/stdio.c.
use basic_kernel_implementat.Prelude.{
  ℕ, zero, suc, ◌+◌, ◌-◌, ◌%◌, ◌≤◌, ◌<◌, ◌≡◌, refl, ◌≢◌, ◌⊎◌, inl, inr, true, false, some, List, [],
  ◌∷◌, ◌++◌, arith, ltb, ◌==◌, if◌then◌else◌, Bool-cases, update, length, All, sym, ap, ◌∙◌,
}
use basic_kernel_implementat.Text.{Chars}
use basic_kernel_implementat.Stdio.{
  getline, getline_loop, putchar, write, newline, backspace, Stdio, getchar, ungetc,
}

-- getchar gives back a character that ungetc has put back, and all is as before but the unused rest of
-- the buffer.
pub getchar-ungetc :
    (c : ℕ) (s : Stdio)
    → c < 256
    → getchar (ungetc c s) ≡ some (c, record s { buffer = update s.buffer s.i c })
unfolding getchar ungetc
getchar-ungetc c s byte =
    let same : c % 256 ≡ c = omega arith in
    let some_left : ltb 0 (s.i + 1) ≡ true = ground arith in
    let back : s.i + 1 - 1 ≡ s.i = omega arith in
    let here : (s.i == s.i) ≡ true = ground arith in rw (same, some_left, back, here) refl

abbrev pub erase_last : List ℕ → List ℕ
erase_last [] = []
erase_last (x ∷ xs) = xs

-- A line while it is typed, the last character first.
abbrev pub type_key : (line : List ℕ) → (c : ℕ) → List ℕ
type_key line c = if c == backspace then erase_last line else c ∷ line

abbrev pub type_keys : (line keys : List ℕ) → List ℕ
type_keys line [] = line
type_keys line (c ∷ keys) = type_keys (type_key line c) keys

-- The characters of the line are in memory from `p` on.
abbrev pub HoldsLine : (m : Chars) (p : ℕ) (line : List ℕ) → Type 0
HoldsLine m p [] = Unit
HoldsLine m p (c ∷ line) = (m (p + length line) ≡ c) × HoldsLine m p line

HoldsLine-update :
    (m : Chars) (p q c : ℕ) (line : List ℕ)
    → p + length line ≤ q
    → HoldsLine m p line
    → HoldsLine (update m q c) p line
HoldsLine-update m p q c [] h line = tt
HoldsLine-update m p q c (x ∷ xs) h line =
    let other : (q == p + length xs) ≡ false = ground arith in
    (rw other (line.0), HoldsLine-update m p q c xs (omega arith) line.1)

-- What getline leaves behind: the text of the line at `p` with a 0 behind it.
pub record IsLine (p limit : ℕ) (line rest : List ℕ) (s s' : Stdio) : Type 0 where
  pub text : HoldsLine s'.memory p line
  pub ended : s'.memory (p + length line) ≡ 0
  pub keys : s'.keys ≡ rest
  pub echoed : s'.written ≡ s.written ++ (newline ∷ [])
  pub unchanged : (q : ℕ) → (q < p) ⊎ (p + limit < q) → s'.memory q ≡ s.memory q

getchar-key :
    (c : ℕ) (keys : List ℕ) (s : Stdio)
    → s.i ≡ 0
    → s.keys ≡ c ∷ keys
    → getchar s ≡ some (c, record s { keys = keys })
unfolding getchar
getchar-key c keys s none_back next = rw (none_back, next) refl

module _ (fuel p i : ℕ) (s : Stdio) (none_back : s.i ≡ 0) where
  getline_loop-end :
      (rest : List ℕ)
      → s.keys ≡ newline ∷ rest
      → getline_loop (suc fuel) p i s
        ≡ some (record s {
          keys = rest;
          written = s.written ++ (newline ∷ []);
          memory = update s.memory (p + i) 0;
        })
  unfolding getline_loop putchar write
  getline_loop-end rest next = rw (getchar-key newline rest s none_back next) refl

  getline_loop-erase :
      (keys : List ℕ)
      → s.keys ≡ backspace ∷ keys
      → getline_loop (suc fuel) p i s ≡ getline_loop fuel p (i - 1) (record s { keys = keys })
  unfolding getline_loop
  getline_loop-erase keys next = rw (getchar-key backspace keys s none_back next) refl

  getline_loop-store :
      (c : ℕ) (keys : List ℕ)
      → s.keys ≡ c ∷ keys
      → c ≢ newline
      → c ≢ backspace
      → getline_loop (suc fuel) p i s
        ≡ getline_loop fuel p (i + 1) (record s { keys = keys; memory = update s.memory (p + i) c })
  unfolding getline_loop
  getline_loop-store c keys next not_end not_erase =
      let more : (c == newline) ≡ false = ground arith in
      let own : (c == backspace) ≡ false = ground arith in
      rw (getchar-key c keys s none_back next, more, own) refl

HoldsLine-erase_last :
    (m : Chars) (p : ℕ) (line : List ℕ) → HoldsLine m p line → HoldsLine m p (erase_last line)
HoldsLine-erase_last m p [] held = tt
HoldsLine-erase_last m p (x ∷ xs) held = held.1

length-erase_last : (line : List ℕ) → length (erase_last line) ≡ length line - 1
length-erase_last [] = omega arith
length-erase_last (x ∷ xs) = omega arith

getline_loop-IsLine :
    (fuel p : ℕ) (line keys rest : List ℕ) (s : Stdio)
    → s.i ≡ 0
    → s.keys ≡ keys ++ (newline ∷ rest)
    → All (λ c. c ≢ newline) keys
    → length keys < fuel
    → HoldsLine s.memory p line
    → (s' : Stdio) × (getline_loop fuel p (length line) s ≡ some s')
      × IsLine p (length line + length keys) (type_keys line keys) rest s s'
getline_loop-IsLine zero p line keys rest s none_back next all enough held = absurd (omega arith)
getline_loop-IsLine (suc fuel) p line [] rest s none_back next all enough held = (
  _,
  getline_loop-end fuel p (length line) s none_back rest next,
  record {
    text = HoldsLine-update s.memory p (p + length line) 0 line (omega arith) held;
    ended = ground arith;
    keys = refl;
    echoed = refl;
    unchanged = λ q out. ground arith;
  },
)
getline_loop-IsLine (suc fuel) p line (c ∷ keys) rest s none_back next all enough held =
    elim (Bool-cases (c == backspace)) [
      | inl erase ↦
          let same : c ≡ backspace = ground arith in
          let erased : s.keys ≡ backspace ∷ keys ++ (newline ∷ rest) = rw (← same) next in
          let shorter = length-erase_last line in
          let s1 = record s { keys = keys ++ (newline ∷ rest) } in
          let (s', ends, is_line) =
            getline_loop-IsLine fuel p (erase_last line) keys rest s1 none_back refl all.1
              (omega arith) (HoldsLine-erase_last s.memory p line held) in
          rw erase (
            s',
            getline_loop-erase fuel p (length line) s none_back (keys ++ (newline ∷ rest)) erased
                ∙ (ap (λ i. getline_loop fuel p i s1) (sym shorter) ∙ ends),
            record {
              text = is_line.text;
              ended = is_line.ended;
              keys = is_line.keys;
              echoed = is_line.echoed;
              unchanged = λ q out. is_line.unchanged q (omega (arith, shorter, out));
            },
          )
      | inr store ↦
          let s1 = record s {
            keys = keys ++ (newline ∷ rest);
            memory = update s.memory (p + length line) c;
          } in
          let here : s1.memory (p + length line) ≡ c = ground arith in
          let (s', ends, is_line) =
            getline_loop-IsLine fuel p (c ∷ line) keys rest s1 none_back refl all.1 (omega arith)
              (here, HoldsLine-update s.memory p (p + length line) c line (omega arith) held) in
          let longer : length line + 1 ≡ suc (length line) = omega arith in
          rw store (
            s',
            getline_loop-store fuel p (length line) s none_back c (keys ++ (newline ∷ rest)) next
                  all.0 (ground arith)
                ∙ (ap (λ i. getline_loop fuel p i s1) longer ∙ ends),
            record {
              text = is_line.text;
              ended = is_line.ended;
              keys = is_line.keys;
              echoed = is_line.echoed;
              unchanged = λ q out. is_line.unchanged q (omega (arith, out)) ∙ ground arith;
            },
          )
    ]

-- getline ends when the line does, and puts into the buffer the characters of the line as they are typed,
-- each backspace taking the last one away if there is one, with a 0 behind them; it prints the end of the
-- line, leaves the keys behind the line, and writes nothing farther than as many keys as were typed.
-- No character has been put back.
pub getline-IsLine :
    (fuel buffer : ℕ) (keys rest : List ℕ) (s : Stdio)
    → s.i ≡ 0
    → s.keys ≡ keys ++ (newline ∷ rest)
    → All (λ c. c ≢ newline) keys
    → length keys < fuel
    → (s' : Stdio) × (getline fuel buffer s ≡ some s')
      × IsLine buffer (length keys) (type_keys [] keys) rest s s'
unfolding getline
getline-IsLine fuel buffer keys rest s none_back next all enough =
    let all_keys : length keys ≡ 0 + length keys = omega arith in
    rw all_keys (getline_loop-IsLine fuel buffer [] keys rest s none_back next all enough tt)
