-- ===== src/Network/Handler.antt =====
-- rtlHandler of Kernel/RTL8139.c: which frames it accepts.
use Prim.Native.Nat.{bit_and}
use basic_kernel_implementat.Prelude.{
  ℕ, zero, suc, ◌+◌, ◌/◌, ◌%◌, ◌^◌, ◌<◌, ◌≡◌, refl, ◌⊎◌, some, List, ◌∷◌, arith, ◌≤◌, ap, inl, inr,
  ◌==◌, Bool-cases, sym, ◌∙◌, true, false, update, ◌*◌, ◌≢◌, length,
}
use basic_kernel_implementat.Text.{Chars}
use basic_kernel_implementat.Network.{
  in_word, out_word, io_address, config_1, isr, cr, check_rok, clear_rok, message_buffer_size,
  mac_size, broadcast, frame_size, Access, Card, done, configure, same_mac, received_frame,
  sys_in_long, sys_in_word, get_mac_adress, is_for_me, receive, wait_reset, init_rtl, rtl_handler,
  in_long, in_word, out_byte, out_word,
}
use basic_kernel_implementat.Network.{in_word, out_word}
use basic_kernel_implementat.Network.Copying.{same_mac_sound, same_mac_complete}
use basic_kernel_implementat.Network.Inbox.{OnlyAccesses, store, HoldsFrames}

only_trans : (c c1 c2 : Card) → OnlyAccesses c c1 → OnlyAccesses c1 c2 → OnlyAccesses c c2
only_trans c c1 c2 a b = (b.0, rw (b.1, a.1))

-- The bytes of an address in the two registers of the card.
abbrev pub own_mac : (low high : ℕ) → Chars
own_mac low high zero = low % 256
own_mac low high (suc zero) = low / 2 ^ 8 % 256
own_mac low high (suc (suc zero)) = low / 2 ^ 16 % 256
own_mac low high (suc (suc (suc zero))) = low / 2 ^ 24 % 256
own_mac low high (suc (suc (suc (suc zero)))) = high % 256
own_mac low high (suc (suc (suc (suc (suc k))))) = high / 2 ^ 8 % 256

-- The destination of the frame is this address, or every card.
abbrev pub IsForMe : (mac frame : Chars) → Type 0
IsForMe mac frame =
    ((k : ℕ) → k < mac_size → frame k ≡ mac k) ⊎ ((k : ℕ) → k < mac_size → frame k ≡ broadcast)

-- The accesses after `n` reads of the command register.
abbrev pub reads : ℕ → List Access → List Access
reads zero log = log
reads (suc n) log = reads n (in_long (io_address + cr) ∷ log)

-- The registers of the address do not change, and a reset ends within the fuel.
pub record IsCard (fuel low high : ℕ) (device : List Access → ℕ → ℕ) : Type 0 where
  pub low_register : (log : List Access) → device log io_address ≡ low
  pub high_register : (log : List Access) → device log (io_address + 4) ≡ high
  pub resets :
      (log : List Access)
      → (n : ℕ) × (n < fuel) × (bit_and (device (reads n log) (io_address + cr) % 2 ^ 32) 0x10 ≡ 0)

-- The bytes of the two registers, as getMacAdress writes them.
abbrev write_mac : Chars → (p low high : ℕ) → Chars
write_mac dest p low high =
    let l = low % 2 ^ 32 in
    let h = high % 2 ^ 32 in
    let d2 = update (update dest p (l % 256)) (p + 1) (l / 2 ^ 8 % 256) in
    let d4 = update (update d2 (p + 2) (l / 2 ^ 16 % 256)) (p + 3) (l / 2 ^ 24 % 256) in
    update (update d4 (p + 4) (h % 256)) (p + 5) (h / 2 ^ 8 % 256)

write_mac_lem :
    (dest : Chars) (p low high k : ℕ)
    → k < mac_size
    → write_mac dest p low high (p + k) ≡ own_mac low high k
write_mac_lem dest p low high zero lt = ground arith
write_mac_lem dest p low high (suc zero) lt = ground arith
write_mac_lem dest p low high (suc (suc zero)) lt = ground arith
write_mac_lem dest p low high (suc (suc (suc zero))) lt = ground arith
write_mac_lem dest p low high (suc (suc (suc (suc zero)))) lt = ground arith
write_mac_lem dest p low high (suc (suc (suc (suc (suc zero))))) lt = ground arith
write_mac_lem dest p low high (suc (suc (suc (suc (suc (suc k)))))) lt = absurd (omega arith)

module _ (device : List Access → ℕ → ℕ) where
  pub get_mac_adress-accesses :
      (dest : Chars) (p : ℕ) (c : Card) → OnlyAccesses c (get_mac_adress device dest p c).1
  unfolding get_mac_adress sys_in_long
  get_mac_adress-accesses dest p c = (_, refl)

  wait_reset-ends :
      (fuel n : ℕ) (c : Card)
      → n < fuel
      → bit_and (device (reads n c.accesses) (io_address + cr) % 2 ^ 32) 0x10 ≡ 0
      → (c' : Card) × (wait_reset device fuel c ≡ some c') × OnlyAccesses c c'
  unfolding wait_reset sys_in_long
  wait_reset-ends zero n c lt ends = absurd (omega arith)
  wait_reset-ends (suc fuel) zero c lt ends =
      rw ends (done (in_long (io_address + cr)) c, refl, (_, refl))
  wait_reset-ends (suc fuel) (suc n) c lt ends =
      let c1 = done (in_long (io_address + cr)) c in
      let (c', returns, only) = wait_reset-ends fuel n c1 (omega arith) ends in
      elim (Bool-cases (bit_and (device c.accesses (io_address + cr) % 2 ^ 32) 0x10 == 0)) [
        | inl clear ↦ rw clear (c1, refl, (_, refl))
        | inr set ↦ rw set (c', returns, only)
      ]

module _ (fuel low high : ℕ) (device : List Access → ℕ → ℕ)
    (card : IsCard fuel low high device) where
  pub init_rtl-ends :
      (re_at tr_at : ℕ) (c : Card)
      → (c' : Card) × (init_rtl device fuel re_at tr_at c ≡ some c') × OnlyAccesses c c'
  unfolding init_rtl
  init_rtl-ends re_at tr_at c =
      let c1 =
        done (out_byte (io_address + cr) 0x10) (done (out_byte (io_address + config_1) 0) c) in
      let (n, below, clear) = card.resets c1.accesses in
      let (c2, returns, only) = wait_reset-ends device fuel n c1 below clear in
      rw returns (_, refl, (_, ap (configure re_at tr_at) (only.1)))

  pub get_mac_adress-inside :
      (dest : Chars) (p : ℕ) (c : Card) (k : ℕ)
      → k < mac_size
      → (get_mac_adress device dest p c).0 (p + k) ≡ own_mac low high k
  unfolding get_mac_adress sys_in_long
  get_mac_adress-inside dest p c k lt =
      let lower = card.low_register c.accesses in
      let upper = card.high_register (in_long io_address ∷ c.accesses) in
      rw (lower, upper) (write_mac_lem dest p low high k lt)

  pub get_mac_adress-outside :
      (dest : Chars) (p : ℕ) (c : Card) (q : ℕ)
      → (q < p) ⊎ (p + mac_size ≤ q)
      → (get_mac_adress device dest p c).0 q ≡ dest q
  unfolding get_mac_adress sys_in_long
  get_mac_adress-outside dest p c q out = ground arith

  pub is_for_me-accesses : (frame : Chars) (c : Card) → OnlyAccesses c (is_for_me device frame c).1
  unfolding is_for_me get_mac_adress sys_in_long
  is_for_me-accesses frame c = (_, refl)

  read_mac :
      (c : Card) (k : ℕ)
      → k < mac_size
      → (get_mac_adress device (λ _. 0) 0 c).0 k ≡ own_mac low high k
  read_mac c k lt =
      let at : k ≡ 0 + k = omega arith in
      ap (get_mac_adress device (λ _. 0) 0 c).0 at ∙ get_mac_adress-inside (λ _. 0) 0 c k lt

  is_for_me-true :
      (frame : Chars) (c : Card)
      → IsForMe (own_mac low high) frame
      → (is_for_me device frame c).0 ≡ true
  unfolding is_for_me
  is_for_me-true frame c (inl own) =
      let mac = (get_mac_adress device (λ _. 0) 0 c).0 in
      let same =
        same_mac_complete mac_size 0 frame mac (λ k after lt. own k lt ∙ sym (read_mac c k lt)) in
      rw same refl
  is_for_me-true frame c (inr all) =
      let same = same_mac_complete mac_size 0 frame (λ _. broadcast) (λ k after lt. all k lt) in
      rw same (ground arith)

  is_for_me-false :
      (frame : Chars) (c : Card)
      → ¬ IsForMe (own_mac low high) frame
      → (is_for_me device frame c).0 ≡ false
  unfolding is_for_me
  is_for_me-false frame c foreign =
      let mac = (get_mac_adress device (λ _. 0) 0 c).0 in
      let not_own : same_mac mac_size 0 frame mac ≡ false =
        elim (Bool-cases (same_mac mac_size 0 frame mac)) [
          | inr other ↦ other
          | inl own ↦ absurd (
              foreign (
                inl (λ k lt.
                  same_mac_sound mac_size 0 frame mac own k (omega arith) lt ∙ read_mac c k lt)))
        ] in
      let not_all : same_mac mac_size 0 frame (λ _. broadcast) ≡ false =
        elim (Bool-cases (same_mac mac_size 0 frame (λ _. broadcast))) [
          | inr other ↦ other
          | inl all ↦ absurd (
              foreign (
                inr (λ k lt.
                  same_mac_sound mac_size 0 frame (λ _. broadcast) all k (omega arith) lt)))
        ] in
      rw (not_own, not_all) refl

  -- A frame for this card is stored while there is room; any other is dropped.
  pub receive-accepts :
      (c : Card) (q : List Chars) (taken : ℕ)
      → HoldsFrames c q taken
      → length q < message_buffer_size
      → IsForMe (own_mac low high) (received_frame c)
      → OnlyAccesses (store c (received_frame c)) (receive device c)
  unfolding receive store
  receive-accepts c q taken h room mine =
      let at : c.nex_to_write ≡ length q = omega (arith, h.write_at) in
      let unused : c.messages (c.nex_to_write * frame_size) ≡ 0 =
        rw at (h.free (length q) (omega arith) room) in
      let (log, only) = is_for_me-accesses (received_frame c) c in
      rw (unused, is_for_me-true (received_frame c) c mine, only) (log, refl)

  pub receive-drops :
      (c : Card) (q : List Chars) (taken : ℕ)
      → HoldsFrames c q taken
      → (length q ≡ message_buffer_size) ⊎ (¬ IsForMe (own_mac low high) (received_frame c))
      → OnlyAccesses c (receive device c)
  unfolding receive
  receive-drops c q taken h why =
      let in_range : c.nex_to_write % message_buffer_size ≡ c.nex_to_write =
        omega (arith, h.write_at) in
      elim (Bool-cases (c.messages (c.nex_to_write * frame_size) == 0)) [
        | inr in_use ↦ rw (in_use, in_range) (_, refl)
        | inl unused ↦ elim why [
          | inl full ↦
              let at : c.nex_to_write ≡ 0 = omega (arith, h.write_at, full) in
              absurd (h.used 0 (omega (arith, full)) (rw (← at) (ground arith)))
          | inr foreign ↦
              let (log, only) = is_for_me-accesses (received_frame c) c in
              rw (unused, is_for_me-false (received_frame c) c foreign, only, in_range) (log, refl)
        ]
      ]

  -- What the handler does with the frame of the receive buffer, up to the accesses.
  pub rtl_handler-receives :
      (re_at tr_at : ℕ) (c stored : Card)
      → bit_and (device c.accesses (io_address + isr) % 2 ^ 16) check_rok ≢ 0
      → OnlyAccesses stored (receive device (done (in_word (io_address + isr)) c))
      → (c' : Card) × (rtl_handler device fuel re_at tr_at c ≡ some c') × OnlyAccesses stored c'
  unfolding rtl_handler sys_in_word
  rtl_handler-receives re_at tr_at c stored ok only =
      let status = device c.accesses (io_address + isr) % 2 ^ 16 in
      let set : (bit_and status check_rok == 0) ≡ false = ground (arith, ok) in
      let c1 = receive device (done (in_word (io_address + isr)) c) in
      let c2 = done (out_word (io_address + isr) (bit_and status clear_rok)) c1 in
      let (c3, ends, only3) = init_rtl-ends re_at tr_at c2 in
      rw set (c3, ends, only_trans stored c1 c3 only (only_trans c1 c2 c3 (_, refl) only3))
