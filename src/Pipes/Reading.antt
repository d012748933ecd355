-- ===== src/Pipes/Reading.antt =====
-- readFromPipe of Kernel/pipefs.c.
use mathlib.Core.Path.{fun_ext}
use basic_kernel_implementat.Prelude.{
  ℕ, zero, suc, ◌+◌, ◌-◌, ◌<◌, ◌≡◌, ◌≢◌, ap, ◌||◌, ◌∙◌, inl, inr, List, [], ◌∷◌, true, false, some,
  arith, length, ◌==◌, Bool-cases,
}
use basic_kernel_implementat.Pipes.{
  PipeNode, Pipes, take_char, read_loop, get_pipe, read_from_pipe, clear_at_read, pipe_buf_size,
}
use basic_kernel_implementat.Kernel.{null}
use basic_kernel_implementat.Text.{Chars}
use basic_kernel_implementat.Registry.{Node}
use basic_kernel_implementat.Ring.{Holds-take, Holds-empty}
use basic_kernel_implementat.Pipes.Buffer.{
  HoldsText, IsOutside, IsApart, IsRead, take_char-HoldsText, take_char-elsewhere, take_char-buffer,
  take_char-frame, drained_node, HoldsText-drained, HoldsText-more,
}

IsApart-IsOutside : (x : PipeNode) (a n : ℕ) → IsApart x a (suc n) → IsOutside x a
IsApart-IsOutside x a n (inl before) = inl (omega arith)
IsApart-IsOutside x a n (inr behind) = inr behind

IsOutside-same : (x y : PipeNode) (a : ℕ) → y.buffer ≡ x.buffer → IsOutside x a → IsOutside y a
IsOutside-same x y a e (inl before) = inl (omega arith)
IsOutside-same x y a e (inr behind) = inr (omega arith)

IsApart-next :
    (x y : PipeNode) (a n : ℕ) → y.buffer ≡ x.buffer → IsApart x a (suc n) → IsApart y (a + 1) n
IsApart-next x y a n e (inl before) = inl (omega arith)
IsApart-next x y a n e (inr behind) = inr (omega arith)

read_loop-stop :
    (left pipe buff : ℕ) (s : Pipes)
    → let x1 = ((take_char pipe buff s).nodes pipe).item in
      (x1.read_pointer == x1.write_pointer) ≡ true
      → read_loop (suc left) pipe buff s ≡ some (take_char pipe buff s)
unfolding read_loop
read_loop-stop left pipe buff s e = rw e

read_loop-go_on :
    (left pipe buff : ℕ) (s : Pipes)
    → let x1 = ((take_char pipe buff s).nodes pipe).item in
      (x1.read_pointer == x1.write_pointer) ≡ false
      → read_loop (suc left) pipe buff s ≡ read_loop left pipe (buff + 1) (take_char pipe buff s)
unfolding read_loop
read_loop-go_on left pipe buff s e = rw e

drained_node-drained : (n : Node PipeNode) (c : Chars) → HoldsText n.item c [] → n ≡ drained_node n
drained_node-drained n c h =
    let met : n.item.read_pointer ≡ n.item.write_pointer =
      ground (arith, HoldsText-drained n.item c h) in
    ap (λ (r : ℕ). record n { item = record (n.item) { read_pointer = r } }) met

module _ (pipe buff : ℕ) (s : Pipes) (v : ℕ) (q : List ℕ) where
  abbrev node : PipeNode
  node = (s.nodes pipe).item

  abbrev s1 : Pipes
  s1 = take_char pipe buff s

  IsRead-last :
      HoldsText node s.chars (v ∷ []) → IsOutside node buff → IsRead s pipe buff (v ∷ []) s1
  IsRead-last h out =
      let (rest, oldest) = take_char-HoldsText pipe buff s v [] out h in
      record {
        drained = rest;
        text = λ k l. ground (arith, oldest);
        frame = (take_char-frame pipe buff s).0;
        others = (take_char-frame pipe buff s).1;
        node = drained_node-drained (s1.nodes pipe) s1.chars rest ∙ (take_char-frame pipe buff s).2;
        before = λ a o l. take_char-elsewhere pipe buff s v [] a h o (omega arith);
        behind = λ a o l. take_char-elsewhere pipe buff s v [] a h o (omega arith);
      }

  IsRead-cons :
      (s' : Pipes)
      → HoldsText node s.chars (v ∷ q)
      → IsOutside node buff
      → IsRead s1 pipe (buff + 1) q s'
      → IsRead s pipe buff (v ∷ q) s'
  IsRead-cons s' h out r =
      let (rest, oldest) = take_char-HoldsText pipe buff s v q out h in
      let same = take_char-buffer pipe buff s in
      let (frame, others, node_same) = take_char-frame pipe buff s in
      let outside =
        λ (a : ℕ) (o : IsOutside node a). IsOutside-same node (s1.nodes pipe).item a same o in
      let first : s'.chars buff ≡ v = r.before buff (outside buff out) (omega arith) ∙ oldest in
      record {
        drained = r.drained;
        text = λ k l. elim (Bool-cases (k == 0)) [
          | inl at ↦ ground (arith, first)
          | inr past ↦ ground (arith, r.text (k - 1))
        ];
        frame = r.frame ∙ ap (λ (z : Pipes). record z { nodes = s'.nodes; chars = s'.chars }) frame;
        others = λ p ne. r.others p ne ∙ others p ne;
        node = r.node ∙ node_same;
        before = λ a o l.
            r.before a (outside a o) (omega arith)
            ∙ take_char-elsewhere pipe buff s v q a h o (omega arith);
        behind = λ a o l.
            r.behind a (outside a o) (omega arith)
            ∙ take_char-elsewhere pipe buff s v q a h o (omega arith);
      }

read_loop-IsRead :
    (left pipe buff : ℕ) (s : Pipes) (v : ℕ) (q : List ℕ)
    → HoldsText (s.nodes pipe).item s.chars (v ∷ q)
    → IsApart (s.nodes pipe).item buff (suc (length q))
    → length q < left
    → (s' : Pipes) × (read_loop left pipe buff s ≡ some s') × IsRead s pipe buff (v ∷ q) s'
read_loop-IsRead zero pipe buff s v q h apart enough = absurd (omega arith)
read_loop-IsRead (suc left) pipe buff s v [] h apart enough =
    let out = IsApart-IsOutside (s.nodes pipe).item buff 0 apart in
    let (rest, oldest) = take_char-HoldsText pipe buff s v [] out h in
    let s1 = take_char pipe buff s in
    (
      s1,
      read_loop-stop left pipe buff s (HoldsText-drained (s1.nodes pipe).item s1.chars rest),
      IsRead-last pipe buff s v [] h out,
    )
read_loop-IsRead (suc left) pipe buff s v (w ∷ q) h apart enough =
    let out = IsApart-IsOutside (s.nodes pipe).item buff (suc (length q)) apart in
    let (rest, oldest) = take_char-HoldsText pipe buff s v (w ∷ q) out h in
    let s1 = take_char pipe buff s in
    let next =
      IsApart-next (s.nodes pipe).item (s1.nodes pipe).item buff (suc (length q))
        (take_char-buffer pipe buff s) apart in
    let (s', done, r) = read_loop-IsRead left pipe (buff + 1) s1 w q rest next (omega arith) in
    let more =
      HoldsText-more (s1.nodes pipe).item s1.chars w q rest (omega (arith, h.holds.fits)) in
    (s', read_loop-go_on left pipe buff s more ∙ done, IsRead-cons pipe buff s v (w ∷ q) s' h out r)

-- The write of a 0 behind the loop changes nothing: the cell is empty.
clear_at_read-drained :
    (pipe : ℕ) (s : Pipes) → HoldsText (s.nodes pipe).item s.chars [] → clear_at_read pipe s ≡ s
clear_at_read-drained pipe s h =
    let x = (s.nodes pipe).item in
    let empty = Holds-empty pipe_buf_size (λ i. s.chars (x.buffer + i)) h.read h.write h.holds in
    ap (λ (c : Chars). record s { chars = c }) (fun_ext λ (a : ℕ). ground (arith, empty, h.read_at))

-- readFromPipe of a pipe that is found and holds a text, with a `buff` that is not NULL and apart from
-- the pipe's buffer, and fuel for the text: it ends, copies the whole text to `buff` in order, and
-- leaves the pipe empty, with its read pointer where its write pointer is. No other pipe and no other
-- field changes, and no other cell outside the pipe's buffer.
pub read_from_pipe-IsRead :
    (fuel name pipe buff : ℕ) (s : Pipes) (v : ℕ) (q : List ℕ)
    → get_pipe fuel name s.pipe_list s ≡ some pipe
    → pipe ≢ null
    → buff ≢ null
    → HoldsText (s.nodes pipe).item s.chars (v ∷ q)
    → IsApart (s.nodes pipe).item buff (suc (length q))
    → length q < fuel
    → (s' : Pipes) × (read_from_pipe fuel name buff s ≡ some s') × IsRead s pipe buff (v ∷ q) s'
unfolding read_from_pipe
read_from_pipe-IsRead fuel name pipe buff s v q found some_pipe some_buff h apart enough =
    let x = (s.nodes pipe).item in
    let (oldest, rest) =
      Holds-take pipe_buf_size (λ i. s.chars (x.buffer + i)) h.read h.write v q h.holds in
    let waits : (s.chars x.read_pointer == 0) ≡ false =
      ground (arith, oldest, h.read_at, h.holds.proper.0) in
    let there : ((pipe == null) || (buff == null)) ≡ false = ground arith in
    let (s', done, r) = read_loop-IsRead fuel pipe buff s v q h apart enough in
    (s', rw (found, there, waits, done) (ap some (clear_at_read-drained pipe s' r.drained)), r)
