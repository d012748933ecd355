-- ===== src/Network/Wire.antt =====
-- A message from sendMsg of one card to getMsg of another, in Kernel/RTL8139.c. What one card sends is
-- what its transmit buffer holds, and the other card gets those bytes.
use basic_kernel_implementat.Prelude.{ℕ, ◌+◌, ◌<◌, ◌≡◌, some, List, ◌%◌, arith, update, length}
use basic_kernel_implementat.Text.{Chars}
use basic_kernel_implementat.Network.{
  mac_size, mac_src, frame_length, payload, msg_text, msg_length, msg_type, Access, Card, word_at,
  copy_bytes, mymemcpy, transmit, get_mac_adress,
}
use basic_kernel_implementat.Network.Copying.{mymemcpy_lem}
use basic_kernel_implementat.Network.Inbox.{get_or-snoc_frame, get_or-snoc_frame}
use basic_kernel_implementat.Network.Handler.{IsCard}
use basic_kernel_implementat.Network.Received.{next_frame, next_frame}

-- What the transmit buffer holds of a frame whose length is below 256.
pub transmit-sends :
    (frame : Chars) (c : Card)
    → word_at frame frame_length < 256
    → c.tr_buffer (frame_length + 1) ≡ 0
    → (k : ℕ) → k < payload + word_at frame frame_length
    → (transmit (some frame) c).tr_buffer k ≡ frame k
unfolding transmit
transmit-sends frame c short clear k lt =
    let length = word_at frame frame_length in
    let t1 = mymemcpy c.tr_buffer 0 frame 0 mac_size in
    let t2 = mymemcpy t1 mac_size frame mac_src mac_size in
    let t3 = update t2 frame_length (length % 256) in
    ground (
      arith,
      mymemcpy_lem t3 payload frame payload length k,
      mymemcpy_lem t1 mac_size frame mac_src mac_size k,
      mymemcpy_lem c.tr_buffer 0 frame 0 mac_size k,
    )

-- The message at `msg` is the one at `message`, with the address `mac` of its sender.
pub record IsDelivered (message : ℕ) (m : Chars) (mac : Chars) (msg : ℕ) (m' : Chars) : Type 0 where
  pub sender : (k : ℕ) → k < mac_size → m' (msg + k) ≡ mac k
  pub text :
      (k : ℕ)
      → k < word_at m (message + msg_length)
      → m' (msg + msg_text + k) ≡ m (message + msg_text + k)
  pub text_length : word_at m' (msg + msg_length) ≡ word_at m (message + msg_length)
  pub kind : m' (msg + msg_type) ≡ m (message + msg_type)

module _ (fuel low high : ℕ) (device : List Access → ℕ → ℕ) (card : IsCard fuel low high device)
    (message : ℕ) (m frame : Chars) (c : Card) (short : word_at m (message + msg_length) < 255)
    (clear : c.tr_buffer (frame_length + 1) ≡ 0) where
  -- The addresses that sendMsg fills in.
  abbrev addressed : Chars
  addressed = (get_mac_adress device (copy_bytes mac_size 0 frame 0 m message) mac_src c).0
