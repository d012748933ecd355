-- ===== src/Pipes/Writing.antt =====
-- The loop of writeToPipe.
use mathlib.Core.Path.{subst}
use basic_kernel_implementat.Prelude.{
  ℕ, suc, ◌+◌, ◌<◌, ◌≡◌, ◌≢◌, refl, ◌∙◌, sym, ap, List, [], ◌∷◌, ◌++◌, some, arith, length, update,
}
use basic_kernel_implementat.Kernel.{Kernel, t_blocked_pipe}
use basic_kernel_implementat.Kernel.Blocking.{unblock_all_threads}
use basic_kernel_implementat.Ring.{place, Holds-put, Holds-full, Holds-room, Holds-same}
use basic_kernel_implementat.Text.{Chars}
use basic_kernel_implementat.Pipes.{
  PipeNode, Pipes, pipe_buf_size, pointer_position, set_pipe, put_char, write_loop,
}
use basic_kernel_implementat.Pipes.Buffer.{HoldsText}

abbrev node_after_put : PipeNode → PipeNode
node_after_put x = record x { write_pointer = pointer_position (x.write_pointer + 1) x.buffer }

HoldsText-put :
    (x : PipeNode) (c : Chars) (v : ℕ) (q : List ℕ)
    → HoldsText x c q
    → length q < pipe_buf_size
    → v ≢ 0
    → HoldsText (node_after_put x) (update c x.write_pointer v) (q ++ (v ∷ []))
unfolding pointer_position
HoldsText-put x c v q h room proper = record {
  read = h.read;
  write = place pipe_buf_size h.write 1;
  read_at = h.read_at;
  write_at = ground (arith, h.write_at, h.holds.write_at, h.holds.read_in);
  holds =
      Holds-same pipe_buf_size (update (λ i. c (x.buffer + i)) h.write v)
        (λ i. update c x.write_pointer v (x.buffer + i)) h.read (place pipe_buf_size h.write 1)
        (q ++ (v ∷ [])) (λ i l. ground (arith, h.write_at))
        (Holds-put pipe_buf_size (λ i. c (x.buffer + i)) h.read h.write q v h.holds room proper);
}

module _ (fuel left pipe pid buff : ℕ) (s : Pipes) (q : List ℕ)
    (h : HoldsText (s.nodes pipe).item s.chars q) where
  abbrev node : PipeNode
  node = (s.nodes pipe).item

  HoldsText-room : length q < pipe_buf_size → s.chars node.write_pointer ≡ 0
  HoldsText-room room =
      ap s.chars h.write_at
      ∙ Holds-room pipe_buf_size (λ i. s.chars (node.buffer + i)) h.read h.write q h.holds room

  HoldsText-full : length q ≡ pipe_buf_size → s.chars node.write_pointer ≢ 0
  HoldsText-full full e =
      Holds-full pipe_buf_size (λ i. s.chars (node.buffer + i)) h.read h.write q h.holds full
        (sym (ap s.chars h.write_at) ∙ e)

  -- A write to a full pipe ends at once and changes nothing.
  pub write_loop-full :
      length q ≡ pipe_buf_size → write_loop fuel (suc left) pipe pid buff s ≡ some s
  unfolding write_loop
  write_loop-full full = ground (arith, HoldsText-full full)

  -- A round of the loop of writeToPipe with room in the pipe and a character other than 0, if the
  -- receiver's threads can be woken: it stores the character behind those that the pipe holds,
  -- wakes the threads, changes no other character, and goes on with the character after it.
  pub write_loop-HoldsText :
      {k : Kernel}
      → length q < pipe_buf_size
      → s.chars buff ≢ 0
      → unblock_all_threads fuel pid t_blocked_pipe s.kernel ≡ some k
      → (s1 : Pipes) × (write_loop fuel (suc left) pipe pid buff s
          ≡ write_loop fuel left pipe pid (buff + 1) s1)
        × HoldsText (s1.nodes pipe).item s1.chars (q ++ (s.chars buff ∷ []))
        × (s1.kernel ≡ k)
        × ((a : ℕ) → a ≢ node.write_pointer → s1.chars a ≡ s.chars a)
  unfolding write_loop put_char
  write_loop-HoldsText {k} room proper woken =
      let s1 =
        set_pipe pipe (node_after_put node)
          (record s { kernel = k; chars = update s.chars node.write_pointer (s.chars buff) }) in
      let item : (s1.nodes pipe).item ≡ node_after_put node = ground arith in
      (
        s1,
        ground (arith, HoldsText-room room, woken),
        subst (λ x. HoldsText x s1.chars (q ++ (s.chars buff ∷ []))) (sym item)
            (HoldsText-put node s.chars (s.chars buff) q h room proper),
        refl,
        λ a other. ground arith,
      )
