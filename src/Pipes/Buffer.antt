-- ===== src/Pipes/Buffer.antt =====
-- The buffer of a pipe as a queue of characters.
use basic_kernel_implementat.Prelude.{
  ℕ, suc, ◌+◌, ◌≤◌, ◌<◌, ◌≡◌, ◌≢◌, refl, ◌∙◌, sym, ap, ◌⊎◌, List, [], ◌∷◌, true, false, arith,
  length, get_or, ◌==◌, update,
}
use mathlib.Core.Path.{subst₂}
use basic_kernel_implementat.Registry.{Node}
use basic_kernel_implementat.Ring.{place, Holds, Holds-take, Holds-same}
use basic_kernel_implementat.Text.{Chars}
use basic_kernel_implementat.Pipes.{PipeNode, Pipes, pipe_buf_size, pointer_position, take_char}

-- The pipe holds the characters `q`, oldest first.
pub record HoldsText (x : PipeNode) (c : Chars) (q : List ℕ) : Type 0 where
  pub read : ℕ
  pub write : ℕ
  pub read_at : x.read_pointer ≡ x.buffer + read
  pub write_at : x.write_pointer ≡ x.buffer + write
  pub holds : Holds pipe_buf_size (λ i. c (x.buffer + i)) read write q

-- An address that is not one of the pipe's buffer.
abbrev pub IsOutside : PipeNode → ℕ → Type 0
IsOutside x a = (a < x.buffer) ⊎ (x.buffer + pipe_buf_size ≤ a)

abbrev pub node_after_take : PipeNode → PipeNode
node_after_take x = record x { read_pointer = pointer_position (x.read_pointer + 1) x.buffer }

abbrev pub chars_after_take : PipeNode → (buff : ℕ) → Chars → Chars
chars_after_take x buff c = update (update c buff (c x.read_pointer)) x.read_pointer 0

abbrev pub drained_node : Node PipeNode → Node PipeNode
drained_node n = record n { item = record (n.item) { read_pointer = n.item.write_pointer } }

take_char-lem :
    (pipe buff : ℕ) (s : Pipes)
    → (((take_char pipe buff s).nodes pipe).item ≡ node_after_take (s.nodes pipe).item)
      × ((take_char pipe buff s).chars ≡ chars_after_take (s.nodes pipe).item buff s.chars)
unfolding take_char
take_char-lem pipe buff s = (ground arith, refl)

HoldsText-take :
    (x : PipeNode) (c : Chars) (buff v : ℕ) (q : List ℕ)
    → IsOutside x buff
    → HoldsText x c (v ∷ q)
    → HoldsText (node_after_take x) (chars_after_take x buff c) q
      × (chars_after_take x buff c buff ≡ v)
unfolding pointer_position
HoldsText-take x c buff v q out h =
    let (oldest, rest) =
      Holds-take pipe_buf_size (λ i. c (x.buffer + i)) h.read h.write v q h.holds in
    (
      record {
        read = place pipe_buf_size h.read 1;
        write = h.write;
        read_at = ground (arith, h.read_at, h.holds.read_in);
        write_at = h.write_at;
        holds =
            Holds-same pipe_buf_size (update (λ i. c (x.buffer + i)) h.read 0)
              (λ i. chars_after_take x buff c (x.buffer + i)) (place pipe_buf_size h.read 1) h.write
              q (λ i l. ground (arith, h.read_at)) rest;
      },
      ground (arith, h.read_at, oldest, h.holds.read_in),
    )

pub take_char-HoldsText :
    (pipe buff : ℕ) (s : Pipes) (v : ℕ) (q : List ℕ)
    → IsOutside (s.nodes pipe).item buff
    → HoldsText (s.nodes pipe).item s.chars (v ∷ q)
    → let s1 = take_char pipe buff s in
      HoldsText (s1.nodes pipe).item s1.chars q × (s1.chars buff ≡ v)
take_char-HoldsText pipe buff s v q out h =
    let (node, chars) = take_char-lem pipe buff s in
    let (rest, oldest) = HoldsText-take (s.nodes pipe).item s.chars buff v q out h in
    (
      subst₂ (λ x c. HoldsText x c q) (sym node) (sym chars) rest,
      ap (λ (c : Chars). c buff) chars ∙ oldest,
    )

-- Taking a character changes no other cell outside the buffer, and nothing but the read pointer.
pub take_char-elsewhere :
    (pipe buff : ℕ) (s : Pipes) (v : ℕ) (q : List ℕ) (a : ℕ)
    → HoldsText (s.nodes pipe).item s.chars (v ∷ q)
    → IsOutside (s.nodes pipe).item a
    → a ≢ buff
    → (take_char pipe buff s).chars a ≡ s.chars a
unfolding take_char
take_char-elsewhere pipe buff s v q a h out other = ground (arith, h.read_at, h.holds.read_in)

pub take_char-buffer :
    (pipe buff : ℕ) (s : Pipes)
    → ((take_char pipe buff s).nodes pipe).item.buffer ≡ (s.nodes pipe).item.buffer
unfolding take_char
take_char-buffer pipe buff s = ground arith

pub take_char-frame :
    (pipe buff : ℕ) (s : Pipes)
    → let s1 = take_char pipe buff s in
      (s1 ≡ record s { nodes = s1.nodes; chars = s1.chars })
      × ((p : ℕ) → p ≢ pipe → s1.nodes p ≡ s.nodes p)
      × (drained_node (s1.nodes pipe) ≡ drained_node (s.nodes pipe))
unfolding take_char
take_char-frame pipe buff s = (refl, λ p ne. ground arith, ground arith)

pub HoldsText-drained :
    (x : PipeNode) (c : Chars) → HoldsText x c [] → (x.read_pointer == x.write_pointer) ≡ true
HoldsText-drained x c h = ground (arith, h.read_at, h.write_at, h.holds.write_at, h.holds.read_in)

pub HoldsText-more :
    (x : PipeNode) (c : Chars) (v : ℕ) (q : List ℕ)
    → HoldsText x c (v ∷ q)
    → suc (length q) < pipe_buf_size
    → (x.read_pointer == x.write_pointer) ≡ false
HoldsText-more x c v q h room =
    ground (arith, h.read_at, h.write_at, h.holds.write_at, h.holds.read_in)

-- `s'` is `s` after the text `q` is read from the pipe to `buff`: the pipe is empty, its read pointer is
-- where its write pointer is, and only characters of its buffer and at `buff` are written.
pub record IsRead (s : Pipes) (pipe buff : ℕ) (q : List ℕ) (s' : Pipes) : Type 0 where
  pub drained : HoldsText (s'.nodes pipe).item s'.chars []
  pub text : (k : ℕ) → k < length q → s'.chars (buff + k) ≡ get_or q k 0
  pub frame : s' ≡ record s { nodes = s'.nodes; chars = s'.chars }
  pub others : (p : ℕ) → p ≢ pipe → s'.nodes p ≡ s.nodes p
  pub node : s'.nodes pipe ≡ drained_node (s.nodes pipe)
  pub before : (a : ℕ) → IsOutside (s.nodes pipe).item a → a < buff → s'.chars a ≡ s.chars a
  pub behind :
      (a : ℕ) → IsOutside (s.nodes pipe).item a → buff + length q ≤ a → s'.chars a ≡ s.chars a

-- The `n` cells from `a` on lie before the buffer or behind it.
abbrev pub IsApart : PipeNode → (a n : ℕ) → Type 0
IsApart x a n = (a + n ≤ x.buffer) ⊎ (x.buffer + pipe_buf_size ≤ a)
