-- ===== src/Network/Tests.antt =====
-- A card, a frame for all cards, and runs of the driver of Kernel/RTL8139.c on them.
use basic_kernel_implementat.Prelude.{
  ℕ, ◌+◌, ◌-◌, ◌≤◌, ◌<◌, ◌≡◌, refl, ◌⊎◌, inl, inr, some, List, [], ◌∷◌, arith, ltb, ◌==◌,
  if◌then◌else◌,
}
use basic_kernel_implementat.Text.{Chars}
use basic_kernel_implementat.Network.{
  io_address, isr, frame_size, Access, Card, copy_bytes, mymemcpy, transmit, fill_msg, get_msg,
  fill_frame, received_frame, sys_in_long, get_mac_adress, send_msg, rtl_handler,
}
use basic_kernel_implementat.Network.Inbox.{HoldsFrames}
use basic_kernel_implementat.Network.Handler.{IsCard, IsForMe, own_mac}
use basic_kernel_implementat.Network.Received.{
  HoldsMessage, rtl_handler-accepts, rtl_handler-drops, get_msg-HoldsMessage, get_msg-none,
}

-- The card has the address 52:54:00:12:34:56, reports a frame, and resets at once.
abbrev device : List Access → ℕ → ℕ
device log port =
    if port == io_address
    then 0x12005452
    else if port == io_address + 4
    then 0x5634
    else if port == io_address + isr
    then 1
    else 0

device-IsCard : IsCard 1 0x12005452 0x5634 device
device-IsCard = record {
  low_register = λ log. refl;
  high_register = λ log. refl;
  resets = λ log. (0, omega arith, refl);
}

-- A frame for all, with the text "h" and the type 7, and one for the card 1.1.1.1.1.1.
abbrev frame_for_all : Chars
frame_for_all k =
    if ltb k 6
    then 0xFF
    else if k == 6
    then 9
    else if k == 12
    then 2
    else if k == 14
    then 7
    else if k == 15
    then 104
    else 0

abbrev fresh : Chars → Card
fresh frame = record {
  messages = λ _. 0;
  re_buffer = λ i. frame (i - 4);
  tr_buffer = λ _. 0;
  nex_to_write = 0;
  next_to_read = 0;
  accesses = [];
}

fresh-HoldsFrames : (frame : Chars) → HoldsFrames (fresh frame) [] 0
fresh-HoldsFrames frame = record {
  fits = omega arith;
  taken_of = omega arith;
  write_at = refl;
  read_at = refl;
  frames = λ k i lt inside. absurd (omega arith);
  used = λ k lt. absurd (omega arith);
  free = λ k after lt. refl;
}

abbrev one_frame : Card
one_frame = record (fresh frame_for_all) {
  messages = λ p. if ltb p frame_size then frame_for_all p else 0;
  nex_to_write = 1;
}

one_frame-HoldsFrames : HoldsFrames one_frame (frame_for_all ∷ []) 0
one_frame-HoldsFrames = record {
  fits = omega arith;
  taken_of = omega arith;
  write_at = refl;
  read_at = refl;
  frames = λ k i lt inside. ground arith;
  used = λ k lt. ground arith;
  free = λ k after lt. ground arith;
}

-- A message at 0, for all cards: the text "hi" of the type 3.
abbrev hi : Chars
hi k =
    if ltb k 6
    then 0xFF
    else if k == 6
    then 104
    else if k == 7
    then 105
    else if k == 1006
    then 2
    else if k == 1008
    then 3
    else 0

abbrev sent : Card
sent = send_msg device 0 hi (λ _. 0) (fresh frame_for_all)

send_msg_test : (sent.tr_buffer 6 ≡ 0x52) × (sent.tr_buffer 12 ≡ 3) × (sent.tr_buffer 16 ≡ 105)
unfolding send_msg get_mac_adress sys_in_long fill_frame mymemcpy copy_bytes transmit
send_msg_test = (refl, refl, refl)

get_msg_test : (get_msg 0 (λ _. 0) one_frame).0 ≡ 9
unfolding get_msg fill_msg mymemcpy copy_bytes
get_msg_test = refl

rtl_handler-accepts_example :
    (c' : Card) × (rtl_handler device 1 0x5000 0x9000 (fresh frame_for_all) ≡ some c')
    × HoldsFrames c' (received_frame (fresh frame_for_all) ∷ []) 0
rtl_handler-accepts_example =
    rtl_handler-accepts 1 0x12005452 0x5634 device device-IsCard 0x5000 0x9000 (fresh frame_for_all)
      [] 0 (fresh-HoldsFrames frame_for_all) (ground arith) (omega arith) (ground arith)
      (inr (λ k lt. ground arith))

ones-foreign : ¬ IsForMe (own_mac 0x12005452 0x5634) (received_frame (fresh (λ _. 1)))
ones-foreign (inl own) = omega (arith, own 0 (omega arith))
ones-foreign (inr all) = omega (arith, all 0 (omega arith))

rtl_handler-drops_example :
    (c' : Card) × (rtl_handler device 1 0x5000 0x9000 (fresh (λ _. 1)) ≡ some c')
    × HoldsFrames c' [] 0
rtl_handler-drops_example =
    rtl_handler-drops 1 0x12005452 0x5634 device device-IsCard 0x5000 0x9000 (fresh (λ _. 1)) [] 0
      (fresh-HoldsFrames (λ _. 1)) (ground arith) (inr ones-foreign)

get_msg-HoldsMessage_example :
    ((get_msg 0x3000 (λ _. 0) one_frame).0 ≡ 9)
    × HoldsMessage frame_for_all 0x3000 (get_msg 0x3000 (λ _. 0) one_frame).1
    × ((p : ℕ) → (p < 0x3000) ⊎ (0x3000 + 1010 ≤ p) → (get_msg 0x3000 (λ _. 0) one_frame).1 p ≡ 0)
    × HoldsFrames (get_msg 0x3000 (λ _. 0) one_frame).2 (frame_for_all ∷ []) 1
get_msg-HoldsMessage_example =
    get_msg-HoldsMessage 0x3000 0 (λ _. 0) one_frame (frame_for_all ∷ []) one_frame-HoldsFrames
      (omega arith) (omega arith) (omega arith) (omega arith)

get_msg-none_example :
    get_msg 0x3000 (λ _. 0) (fresh frame_for_all) ≡ (0, (λ _. 0), fresh frame_for_all)
get_msg-none_example =
    get_msg-none 0x3000 0 (λ _. 0) (fresh frame_for_all) [] (fresh-HoldsFrames frame_for_all)
      (inl refl)
