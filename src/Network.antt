-- ===== src/Network.antt =====
-- Kernel/RTL8139.c: the driver of the network card. Frames and messages are the bytes of their structs,
-- by offset. What the card answers to a read of a port is a parameter (`device`): a function of the
-- accesses before it, the latest first, and of the port. A loop that waits for the card runs on fuel.
pub mod Copying
pub mod Inbox
pub mod Handler
pub mod Received
pub mod Wire
mod Tests
use Prim.Native.Nat.{bit_and}
use basic_kernel_implementat.Prelude.{
  ℕ, zero, suc, ◌+◌, ◌-◌, ◌*◌, ◌/◌, ◌%◌, ◌^◌, Bool, true, false, ◌&&◌, ◌||◌, Option, none, some,
  List, ◌∷◌, ◌==◌, if◌then◌else◌, update, ◌>>=◌,
}
use basic_kernel_implementat.Text.{Chars}

abbrev pub io_address : ℕ
io_address = 0xC000

abbrev pub config_1 : ℕ
config_1 = 0x52

abbrev pub isr : ℕ
isr = 0x3E

abbrev pub cr : ℕ
cr = 0x37

abbrev pub imr : ℕ
imr = 0x3C

abbrev pub rbstart : ℕ
rbstart = 0x30

abbrev pub tsad0 : ℕ
tsad0 = 0x20

abbrev pub tsd0 : ℕ
tsd0 = 0x10

abbrev pub check_tok : ℕ
check_tok = 0x4

abbrev pub check_rok : ℕ
check_rok = 0x1

abbrev pub clear_tok : ℕ
clear_tok = 0xFB

abbrev pub clear_rok : ℕ
clear_rok = 0xFE

abbrev pub clear_own : ℕ
clear_own = 0xFFF

abbrev pub tr_buffer_size : ℕ
tr_buffer_size = 8 * 1024

abbrev pub message_buffer_size : ℕ
message_buffer_size = 100

abbrev pub mac_size : ℕ
mac_size = 6

abbrev pub broadcast : ℕ
broadcast = 0xFF

-- The offsets of ethFrame: macDest is at 0.
abbrev pub mac_src : ℕ
mac_src = 6

abbrev pub frame_length : ℕ
frame_length = 12

abbrev pub payload : ℕ
payload = 14

abbrev pub frame_check : ℕ
frame_check = 1016

abbrev pub frame_size : ℕ
frame_size = 1020

-- The offsets of ethMsg: mac is at 0.
abbrev pub msg_text : ℕ
msg_text = 6

abbrev pub msg_length : ℕ
msg_length = 1006

abbrev pub msg_type : ℕ
msg_type = 1008

-- An access to a port, and what is written.
pub data Access : Type 0 where
  in_long : (port : ℕ) → Access
  in_word : (port : ℕ) → Access
  out_byte : (port value : ℕ) → Access
  out_word : (port value : ℕ) → Access
  out_long : (port value : ℕ) → Access

-- `messages`, `reBuffer` and `trBuffer` as bytes, the two indices of `messages`, and the accesses so far.
pub record Card : Type 0 where
  pub messages : Chars
  pub re_buffer : Chars
  pub tr_buffer : Chars
  pub nex_to_write : ℕ
  pub next_to_read : ℕ
  pub accesses : List Access

abbrev pub wrap : Card → Card
wrap c = record c { nex_to_write = c.nex_to_write % message_buffer_size }

abbrev pub done : Access → Card → Card
done a c = record c { accesses = a ∷ c.accesses }

-- A `uint16_t`, its lower byte first.
abbrev pub word_at : Chars → ℕ → ℕ
word_at b p = b p + 256 * b (p + 1)

abbrev pub put_word : (value p : ℕ) → Chars → Chars
put_word value p b = update (update b p (value % 256)) (p + 1) (value / 256 % 256)

-- The address of the transmit buffer `i` is given to the card, in TSAD0 to TSAD3.
abbrev pub set_buffer : (tr_at i : ℕ) → Card → Card
set_buffer tr_at i =
    done (out_long (io_address + tsad0 + 4 * i) ((tr_at + i * tr_buffer_size) % 2 ^ 32))

-- What initRTL writes after the reset. The buffers are at the addresses `re_at` and `tr_at`.
abbrev pub configure : (re_at tr_at : ℕ) → Card → Card
configure re_at tr_at c =
    let c1 = done (out_long (io_address + rbstart) (re_at % 2 ^ 32)) c in
    let c2 = set_buffer tr_at 3 (set_buffer tr_at 2 (set_buffer tr_at 1 (set_buffer tr_at 0 c1))) in
    let c3 =
      done (out_long (io_address + 0x44) 0x8f) (done (out_word (io_address + imr) 0x0005) c2) in
    done (out_byte (io_address + cr) 0x0C) c3

-- The loop of mymemcpy, from byte `i` on.
unfoldable pub copy_bytes : (left i : ℕ) → Chars → ℕ → Chars → ℕ → Chars
copy_bytes zero i dest d src s = dest
copy_bytes (suc left) i dest d src s =
    copy_bytes left (i + 1) (update dest (d + i) (src (s + i))) d src s

unfoldable pub mymemcpy : Chars → (d : ℕ) → Chars → (s length : ℕ) → Chars
mymemcpy dest d src s length = copy_bytes length 0 dest d src s

unfoldable pub transmit : (frame : Option Chars) → Card → Card
transmit none c = c
transmit (some frame) c =
    let length = word_at frame frame_length in
    let t1 = mymemcpy c.tr_buffer 0 frame 0 mac_size in
    let t2 = mymemcpy t1 mac_size frame mac_src mac_size in
    let t3 = update t2 frame_length (length % 256) in
    let t4 = mymemcpy t3 payload frame payload length in
    let t5 = update t4 (payload + length) (frame frame_check) in
    done (out_long (io_address + tsd0) (bit_and (payload + length + 2) clear_own))
      (record c { tr_buffer = t5 })

-- What getMsg writes into the message at `msg`, from the frame in a slot of `messages`.
unfoldable pub fill_msg : (msg : ℕ) → Chars → (messages : Chars) → (slot length : ℕ) → Chars
fill_msg msg m messages slot length =
    let m1 = mymemcpy m msg messages (slot + mac_src) mac_size in
    let m2 = put_word length (msg + msg_length) m1 in
    let m3 = update m2 (msg + msg_type) (messages (slot + payload)) in
    mymemcpy m3 (msg + msg_text) messages (slot + payload + 1) length

unfoldable pub get_msg : (msg : ℕ) → Chars → Card → ℕ × Chars × Card
get_msg msg m c =
    let slot = c.next_to_read * frame_size in
    let length = (word_at c.messages (slot + frame_length) + 2 ^ 16 - 1) % 2 ^ 16 in
    let m1 = fill_msg msg m c.messages slot length in
    let c1 = record c { next_to_read = (c.next_to_read + 1) % message_buffer_size } in
    if c.next_to_read == c.nex_to_write
    then (0, m, c)
    else (word_at m1 (msg + msg_length) + mac_size + 2, m1, c1)

-- What sendMsg writes behind the addresses of the frame.
unfoldable pub fill_frame : (message : ℕ) → Chars → (frame : Chars) → Chars
fill_frame message m f2 =
    let length = word_at m (message + msg_length) in
    let kind = m (message + msg_type) in
    let f3 = put_word ((length + 1) % 2 ^ 16) frame_length f2 in
    let f4 = update f3 payload kind in
    let f5 = mymemcpy f4 (payload + 1) m (message + msg_text) length in
    put_word 0 (frame_check + 2) (put_word kind frame_check f5)

-- A loop of isForMe: whether the destination of the frame is `mac`.
unfoldable pub same_mac : (left i : ℕ) → (frame mac : Chars) → Bool
same_mac zero i frame mac = true
same_mac (suc left) i frame mac = (frame i == mac i) && same_mac left (i + 1) frame mac

-- The frame that the card put into the receive buffer, behind 4 bytes of its own.
abbrev pub received_frame : Card → Chars
received_frame c i = c.re_buffer (4 + i)

module _ (device : List Access → (port : ℕ) → ℕ) where
  unfoldable pub sys_in_long : (port : ℕ) → Card → ℕ × Card
  sys_in_long port c = (device c.accesses port % 2 ^ 32, done (in_long port) c)

  unfoldable pub sys_in_word : (port : ℕ) → Card → ℕ × Card
  sys_in_word port c = (device c.accesses port % 2 ^ 16, done (in_word port) c)

  -- The array is at offset `p` of `dest`.
  unfoldable pub get_mac_adress : Chars → (p : ℕ) → Card → Chars × Card
  unfolding sys_in_long
  get_mac_adress dest p c =
      let (mac, c1) = sys_in_long io_address c in
      let d1 = update dest p (mac % 256) in
      let d2 = update d1 (p + 1) (mac / 2 ^ 8 % 256) in
      let d3 = update d2 (p + 2) (mac / 2 ^ 16 % 256) in
      let d4 = update d3 (p + 3) (mac / 2 ^ 24 % 256) in
      let (mac2, c2) = sys_in_long (io_address + 4) c1 in
      let d5 = update d4 (p + 4) (mac2 % 256) in (update d5 (p + 5) (mac2 / 2 ^ 8 % 256), c2)

  -- `frame` is what the memory holds for the local variable before it is filled.
  unfoldable pub send_msg : (message : ℕ) → Chars → (frame : Chars) → Card → Card
  send_msg message m frame c =
      let f1 = copy_bytes mac_size 0 frame 0 m message in
      let (f2, c1) = get_mac_adress f1 mac_src c in transmit (some (fill_frame message m f2)) c1

  unfoldable pub is_for_me : (frame : Chars) → Card → Bool × Card
  is_for_me frame c =
      let (mac, c1) = get_mac_adress (λ _. 0) 0 c in
      (same_mac mac_size 0 frame mac || same_mac mac_size 0 frame (λ _. broadcast), c1)

  -- What rtlHandler does with the frame in the receive buffer.
  unfoldable pub receive : Card → Card
  receive c =
      let frame = received_frame c in
      let slot = c.nex_to_write * frame_size in
      let (mine, c1) = is_for_me frame c in
      let stored = mymemcpy c.messages slot frame 0 frame_size in
      let accepted = record c1 {
        messages = stored;
        nex_to_write = (c.nex_to_write + 1) % message_buffer_size;
      } in
      if c.messages slot == 0 then if mine then accepted else wrap c1 else wrap c

  -- The loop of initRTL, which waits for the end of the reset.
  unfoldable pub wait_reset : ℕ → Card → Option Card
  wait_reset zero c = none
  wait_reset (suc fuel) c =
      let (value, c1) = sys_in_long (io_address + cr) c in
      let rest = wait_reset fuel c1 in if bit_and value 0x10 == 0 then some c1 else rest

  unfoldable pub init_rtl : ℕ → (re_at tr_at : ℕ) → Card → Option Card
  init_rtl fuel re_at tr_at c =
      let c1 =
        done (out_byte (io_address + cr) 0x10) (done (out_byte (io_address + config_1) 0) c) in
      wait_reset fuel c1 >>= λ c2. some (configure re_at tr_at c2)

  unfoldable pub rtl_handler : ℕ → (re_at tr_at : ℕ) → Card → Option Card
  rtl_handler fuel re_at tr_at c =
      let (status, c1) = sys_in_word (io_address + isr) c in
      let received = done (out_word (io_address + isr) (bit_and status clear_rok)) (receive c1) in
      let sent = done (out_word (io_address + isr) (bit_and status clear_tok)) c1 in
      let c2 =
        if bit_and status check_rok == 0
        then if bit_and status check_tok == 0 then c1 else sent
        else received in
      init_rtl fuel re_at tr_at c2
