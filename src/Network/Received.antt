-- ===== src/Network/Received.antt =====
-- Frames that arrive at the card, and messages that getMsg takes, in Kernel/RTL8139.c.
use Prim.Native.Nat.{bit_and}
use basic_kernel_implementat.Prelude.{
  ℕ, ◌+◌, ◌%◌, ◌^◌, ◌≤◌, ◌<◌, ◌≡◌, ◌≢◌, ◌⊎◌, some, List, [], ◌∷◌, ◌++◌, length, get_or, ◌-◌, refl,
  ◌∙◌, inl, inr, arith, ◌*◌, false, ◌==◌, update,
}
use basic_kernel_implementat.Text.{Chars}
use basic_kernel_implementat.Network.{
  in_word, fill_msg, mymemcpy, put_word, msg_type, get_msg, io_address, isr, check_rok,
  message_buffer_size, mac_size, mac_src, frame_length, payload, frame_size, msg_text, msg_length,
  msg_type, Access, Card, done, word_at, fill_msg, get_msg, received_frame, rtl_handler, in_word,
}
use basic_kernel_implementat.Network.Copying.{mymemcpy_lem}
use basic_kernel_implementat.Network.Inbox.{store, HoldsFrames, HoldsFrames-store, HoldsFrames-only}
use basic_kernel_implementat.Network.Handler.{
  IsCard, IsForMe, own_mac, receive-accepts, receive-drops, rtl_handler-receives,
}

module _ (fuel low high : ℕ) (device : List Access → ℕ → ℕ) (card : IsCard fuel low high device)
    (re_at tr_at : ℕ) (c : Card) (q : List Chars) (taken : ℕ) (h : HoldsFrames c q taken)
    (ok : bit_and (device c.accesses (io_address + isr) % 2 ^ 16) check_rok ≢ 0) where
  -- While fewer than 100 frames have been accepted since the start, a frame that the card reports and
  -- that is for this card or for all is accepted: it comes last, and the handler ends. The first byte of
  -- the address of the card is not 0.
  pub rtl_handler-accepts :
      length q < message_buffer_size
      → own_mac low high 0 ≢ 0
      → IsForMe (own_mac low high) (received_frame c)
      → (c' : Card) × (rtl_handler device fuel re_at tr_at c ≡ some c')
        × HoldsFrames c' (q ++ (received_frame c ∷ [])) taken
  rtl_handler-accepts room proper mine =
      let first : received_frame c 0 ≢ 0 = elim mine [
        | inl own ↦ rw (own 0 (omega arith)) proper
        | inr all ↦ ground (arith, all 0 (omega arith))
      ] in
      let c1 = done (in_word (io_address + isr)) c in
      let h1 = HoldsFrames-only c c1 q taken (_, refl) h in
      let stored = store c1 (received_frame c) in
      let received = receive-accepts fuel low high device card c1 q taken h1 room mine in
      let (c', ends, only) =
        rtl_handler-receives fuel low high device card re_at tr_at c stored ok received in
      (
        c',
        ends,
        HoldsFrames-only stored c' (q ++ (received_frame c ∷ [])) taken only
            (HoldsFrames-store c1 q taken (received_frame c) h1 room first),
      )

  -- A frame that is for another card is dropped. Once 100 frames have been accepted since the start
  -- every frame is dropped, even if all have been taken.
  pub rtl_handler-drops :
      (length q ≡ message_buffer_size) ⊎ (¬ IsForMe (own_mac low high) (received_frame c))
      → (c' : Card) × (rtl_handler device fuel re_at tr_at c ≡ some c') × HoldsFrames c' q taken
  rtl_handler-drops why =
      let c1 = done (in_word (io_address + isr)) c in
      let h1 = HoldsFrames-only c c1 q taken (_, refl) h in
      let received = receive-drops fuel low high device card c1 q taken h1 why in
      let (c', ends, only) =
        rtl_handler-receives fuel low high device card re_at tr_at c c1 ok received in
      (c', ends, HoldsFrames-only c1 c' q taken only h1)

-- The message that the frame carries is at `msg`.
pub record HoldsMessage (frame : Chars) (msg : ℕ) (m : Chars) : Type 0 where
  pub sender : (k : ℕ) → k < mac_size → m (msg + k) ≡ frame (mac_src + k)
  pub text :
      (k : ℕ)
      → k + 1 < word_at frame frame_length
      → m (msg + msg_text + k) ≡ frame (payload + 1 + k)
  pub text_length : word_at m (msg + msg_length) + 1 ≡ word_at frame frame_length
  pub kind : m (msg + msg_type) ≡ frame payload

module _ (msg : ℕ) (m messages frame : Chars) (slot length : ℕ)
    (copied : (i : ℕ) → i < frame_size → messages (slot + i) ≡ frame i)
    (some_text : length + 1 ≡ word_at frame frame_length) (fits : length ≤ 999) where
  fill_msg-text :
      (k : ℕ)
      → k < length
      → fill_msg msg m messages slot length (msg + msg_text + k) ≡ frame (payload + 1 + k)
  unfolding fill_msg
  fill_msg-text k lt =
      let offset : slot + payload + 1 + (msg + msg_text + k - (msg + msg_text))
          ≡ slot + (payload + 1 + k) =
        omega arith in
      mymemcpy_lem _ (msg + msg_text) messages (slot + payload + 1) length (msg + msg_text + k)
      ∙ rw offset (ground (arith, copied (payload + 1 + k)))

  fill_msg-sender :
      (k : ℕ) → k < mac_size → fill_msg msg m messages slot length (msg + k) ≡ frame (mac_src + k)
  unfolding fill_msg
  fill_msg-sender k lt =
      let offset : slot + mac_src + (msg + k - msg) ≡ slot + (mac_src + k) = omega arith in
      mymemcpy_lem _ (msg + msg_text) messages (slot + payload + 1) length (msg + k)
      ∙ ground (
        arith,
        offset,
        copied (mac_src + k),
        mymemcpy_lem m msg messages (slot + mac_src) mac_size (msg + k),
      )

  fill_msg-length : word_at (fill_msg msg m messages slot length) (msg + msg_length) ≡ length
  unfolding fill_msg
  fill_msg-length =
      let m1 = mymemcpy m msg messages (slot + mac_src) mac_size in
      let m3 =
        update (put_word length (msg + msg_length) m1) (msg + msg_type)
          (messages (slot + payload)) in
      let byte = mymemcpy_lem m3 (msg + msg_text) messages (slot + payload + 1) length in
      ground (arith, byte (msg + msg_length), byte (msg + msg_length + 1))

  fill_msg-kind : fill_msg msg m messages slot length (msg + msg_type) ≡ frame payload
  unfolding fill_msg
  fill_msg-kind =
      mymemcpy_lem _ (msg + msg_text) messages (slot + payload + 1) length (msg + msg_type)
      ∙ ground (arith, copied payload)

  fill_msg-outside :
      (p : ℕ) → (p < msg) ⊎ (msg + 1010 ≤ p) → fill_msg msg m messages slot length p ≡ m p
  unfolding fill_msg
  fill_msg-outside p out =
      mymemcpy_lem _ (msg + msg_text) messages (slot + payload + 1) length p
      ∙ ground (arith, mymemcpy_lem m msg messages (slot + mac_src) mac_size p)

  fill_msg-HoldsMessage : HoldsMessage frame msg (fill_msg msg m messages slot length)
  fill_msg-HoldsMessage = record {
    sender = fill_msg-sender;
    text = λ k lt. fill_msg-text k (omega (arith, some_text));
    text_length = omega (arith, fill_msg-length, some_text);
    kind = fill_msg-kind;
  }

-- The next frame that has not been taken.
abbrev pub next_frame : List Chars → ℕ → Chars
next_frame q taken = get_or q taken (λ _. 0)

module _ (msg taken : ℕ) (m : Chars) (c : Card) (q : List Chars) (h : HoldsFrames c q taken) where
  -- getMsg gives the message of the first frame that has not been taken, if its text fits into the
  -- frame, returns its length with the 8 bytes of the address and of the length, writes nothing outside
  -- of the message, and takes the frame. There must be such a frame, and not 100 of them.
  pub get_msg-HoldsMessage :
      taken < length q
      → length q < taken + message_buffer_size
      → 0 < word_at (next_frame q taken) frame_length
      → word_at (next_frame q taken) frame_length ≤ 1000
      → ((get_msg msg m c).0 ≡ word_at (next_frame q taken) frame_length + 7)
        × HoldsMessage (next_frame q taken) msg (get_msg msg m c).1
        × ((p : ℕ) → (p < msg) ⊎ (msg + 1010 ≤ p) → (get_msg msg m c).1 p ≡ m p)
        × HoldsFrames (get_msg msg m c).2 q (taken + 1)
  unfolding get_msg
  get_msg-HoldsMessage waits not_all some_text fits =
      let frame = next_frame q taken in
      let slot = c.next_to_read * frame_size in
      let other : (c.next_to_read == c.nex_to_write) ≡ false =
        ground (arith, h.read_at, h.write_at, h.fits) in
      let at : c.next_to_read ≡ taken = omega (arith, h.read_at, h.fits, waits) in
      let copied : (i : ℕ) → i < frame_size → c.messages (slot + i) ≡ frame i =
        λ i lt. rw at (h.frames taken i waits lt) in
      let at_length = copied frame_length (omega arith) in
      let above : c.messages (slot + frame_length + 1) ≡ frame (frame_length + 1) =
        ground (arith, copied (frame_length + 1)) in
      let length : (word_at c.messages (slot + frame_length) + 2 ^ 16 - 1) % 2 ^ 16
          ≡ word_at frame frame_length - 1 =
        omega (arith, at_length, above, some_text, fits) in
      let message =
        fill_msg-HoldsMessage msg m c.messages frame slot (word_at frame frame_length - 1) copied
          (omega (arith, some_text)) (omega (arith, fits)) in
      rw (other, length)
        (
          omega (arith, message.text_length),
          message,
          fill_msg-outside msg m c.messages frame slot (word_at frame frame_length - 1) copied
              (omega (arith, some_text)) (omega (arith, fits)),
          record {
            fits = h.fits;
            taken_of = omega (arith, waits);
            write_at = h.write_at;
            read_at = omega (arith, at);
            frames = h.frames;
            used = h.used;
            free = h.free;
          },
        )

  -- If all frames have been taken, and also if 100 have come and none has been taken, getMsg gives 0
  -- and changes nothing.
  pub get_msg-none :
      (taken ≡ length q) ⊎ (length q ≡ taken + message_buffer_size) → get_msg msg m c ≡ (0, m, c)
  unfolding get_msg
  get_msg-none why =
      let same : c.next_to_read ≡ c.nex_to_write =
        omega (arith, why, h.read_at, h.write_at, h.fits) in
      rw same (ground arith)
