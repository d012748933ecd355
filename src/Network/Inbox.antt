-- ===== src/Network/Inbox.antt =====
-- The frames that Kernel/RTL8139.c has accepted: rtlHandler and getMsg over the list of them.
use basic_kernel_implementat.Prelude.{
  ℕ, zero, suc, ◌+◌, ◌*◌, ◌%◌, ◌≤◌, ◌<◌, ◌≡◌, refl, ◌≢◌, List, [], ◌∷◌, ◌++◌, arith, ◌==◌,
  if◌then◌else◌, length, get_or, length-append, ◌-◌, ap, inl, inr, Bool-cases,
}
use basic_kernel_implementat.Text.{Chars}
use basic_kernel_implementat.Network.{message_buffer_size, frame_size, Access, Card, mymemcpy}
use basic_kernel_implementat.Network.Copying.{mymemcpy_lem}

-- Nothing but the accesses differs.
abbrev pub OnlyAccesses : (c c' : Card) → Type 0
OnlyAccesses c c' = (log : List Access) × (c' ≡ record c { accesses = log })

-- All frames accepted so far are `q`, in order, and the first `taken` of them have been taken. A slot
-- counts as free by the first byte of its destination.
pub record HoldsFrames (c : Card) (q : List Chars) (taken : ℕ) : Type 0 where
  pub fits : length q ≤ message_buffer_size
  pub taken_of : taken ≤ length q
  pub write_at : c.nex_to_write ≡ length q % message_buffer_size
  pub read_at : c.next_to_read ≡ taken % message_buffer_size
  pub frames :
      (k i : ℕ)
      → k < length q
      → i < frame_size
      → c.messages (k * frame_size + i) ≡ get_or q k (λ _. 0) i
  pub used : (k : ℕ) → k < length q → c.messages (k * frame_size) ≢ 0
  pub free : (k : ℕ) → length q ≤ k → k < message_buffer_size → c.messages (k * frame_size) ≡ 0

pub HoldsFrames-only :
    (c c' : Card) (q : List Chars) (taken : ℕ)
    → OnlyAccesses c c'
    → HoldsFrames c q taken
    → HoldsFrames c' q taken
HoldsFrames-only c c' q taken only h = rw (only.1) (record {
  fits = h.fits;
  taken_of = h.taken_of;
  write_at = h.write_at;
  read_at = h.read_at;
  frames = h.frames;
  used = h.used;
  free = h.free;
})

pub get_or-snoc_frame :
    (q : List Chars) (f : Chars) (k : ℕ)
    → get_or (q ++ (f ∷ [])) k (λ _. 0) ≡ (if k == length q then f else get_or q k (λ _. 0))
get_or-snoc_frame [] f zero = refl
get_or-snoc_frame [] f (suc k) = ground arith
get_or-snoc_frame (x ∷ q) f zero = ground arith
get_or-snoc_frame (x ∷ q) f (suc k) = ground (arith, get_or-snoc_frame q f k)

-- The frame is copied into the next slot.
unfoldable pub store : (c : Card) → Chars → Card
store c frame = record c {
  messages = mymemcpy c.messages (c.nex_to_write * frame_size) frame 0 frame_size;
  nex_to_write = (c.nex_to_write + 1) % message_buffer_size;
}

store-slot :
    (m : Chars) (w : ℕ) (frame : Chars) (k i : ℕ)
    → i < frame_size
    → mymemcpy m (w * frame_size) frame 0 frame_size (k * frame_size + i)
      ≡ (if k == w then frame i else m (k * frame_size + i))
store-slot m w frame k i lt =
    let copied = mymemcpy_lem m (w * frame_size) frame 0 frame_size (k * frame_size + i) in
    elim (Bool-cases (k == w)) [
      | inl here ↦
          let same : k ≡ w = ground arith in
          let offset : k * frame_size + i - w * frame_size ≡ i = omega (arith, same) in
          let value : frame (k * frame_size + i - w * frame_size) ≡ frame i = ap frame offset in
          rw here (ground (arith, copied, value, same))
      | inr other ↦ rw other (ground (arith, copied))
    ]

pub HoldsFrames-store :
    (c : Card) (q : List Chars) (taken : ℕ) (frame : Chars)
    → HoldsFrames c q taken
    → length q < message_buffer_size
    → frame 0 ≢ 0
    → HoldsFrames (store c frame) (q ++ (frame ∷ [])) taken
unfolding store
HoldsFrames-store c q taken frame h room proper =
    let at : c.nex_to_write ≡ length q = omega (arith, h.write_at) in
    record {
      fits = omega (arith, length-append q (frame ∷ []));
      taken_of = omega (arith, length-append q (frame ∷ []), h.taken_of);
      write_at = omega (arith, length-append q (frame ∷ []), at);
      read_at = h.read_at;
      frames = λ k i lt inside. ground (
        arith,
        store-slot c.messages c.nex_to_write frame k i inside,
        get_or-snoc_frame q frame k,
        h.frames k i,
        at,
        length-append q (frame ∷ []),
      );
      used = λ k lt. ground (
        arith,
        store-slot c.messages c.nex_to_write frame k 0,
        h.used k,
        at,
        length-append q (frame ∷ []),
      );
      free = λ k after lt. ground (
        arith,
        store-slot c.messages c.nex_to_write frame k 0,
        h.free k,
        at,
        length-append q (frame ∷ []),
      );
    }
