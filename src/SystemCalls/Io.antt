-- ===== src/SystemCalls/Io.antt =====
-- The calls of Kernel/systemCalls.c that read keys and write on screens.
use basic_kernel_implementat.Prelude.{
  ◌>>=◌, ℕ, zero, suc, ◌+◌, ◌%◌, Option, some, ◌==◌, if◌then◌else◌, update,
}
use basic_kernel_implementat.Kernel.{t_blocked_io}
use basic_kernel_implementat.Kernel.Lookup.{get_current_pid, get_current_pthread}
use basic_kernel_implementat.Kernel.Blocking.{block_thread}
use basic_kernel_implementat.Text.{Chars}
use basic_kernel_implementat.Video.{
  Video, clear_screen, print_characters, print_characters_inner, own,
}
use basic_kernel_implementat.Keyboard.{Keyboard, get_key}
use basic_kernel_implementat.Screens.{
  is_current_process_on_focus, get_current_screen, get_current_screen_position,
  set_current_screen_position,
}
use basic_kernel_implementat.SystemCalls.{
  standard_io_fd, ethernet_fd, failure, System, Devices, kernel_of, memory_of, set_kernel,
  set_video, set_memory, returning_one, returned,
}

unfoldable pub clear_screen_sys : System → Option (ℕ × System)
clear_screen_sys s = some (0, set_video (clear_screen s.screens.video) s)

unfoldable pub block_current_thread : ℕ → System → Option System
block_current_thread fuel s =
    let k = kernel_of s in
    block_thread fuel (get_current_pid k) (get_current_pthread k) t_blocked_io k >>= λ k1.
    some (set_kernel k1 s)

unfoldable pub block_if_not_on_focus : ℕ → System → Option (ℕ × System)
block_if_not_on_focus fuel s =
    let blocked = returning_one (block_current_thread fuel) s in
    if is_current_process_on_focus s.screens then some (0, s) else blocked

-- The loop of read, with `left` characters to go and `buf` the next place: how many were read.
unfoldable pub read_keys : (left buf : ℕ) → Keyboard → Chars → ℕ × Keyboard × Chars
read_keys zero buf b m = (0, b, m)
read_keys (suc left) buf b m =
    let (key, b1) = get_key b in
    let m1 = update m buf (key % 256) in
    let rest = read_keys left (buf + 1) b1 m1 in
    if key % 256 == 0 then (0, b1, m1) else (rest.0 + 1, rest.1, rest.2)

unfoldable pub read_keyboard : ℕ → (buf n_bytes : ℕ) → System → Option (ℕ × System)
read_keyboard fuel buf n_bytes s =
    let (read_bytes, b, m) = read_keys n_bytes buf s.keyboard (memory_of s) in
    let s1 = set_memory m (record s { keyboard = b }) in
    let waits = block_current_thread fuel s1 >>= λ s2. some (read_bytes, s2) in
    if read_bytes == 0 then waits else some (read_bytes, s1)

unfoldable pub read : Devices → ℕ → (file_descriptor buf n_bytes : ℕ) → System → Option (ℕ × System)
read devices fuel file_descriptor buf n_bytes s =
    let keys = block_if_not_on_focus fuel s >>= λ r.
    if r.0 == 0 then read_keyboard fuel buf n_bytes r.1 else some (0, r.1) in
    if file_descriptor == standard_io_fd
    then keys
    else (if file_descriptor == ethernet_fd
        then returned (devices.get_msg buf s)
        else some (failure, s))

-- Characters up to a 0, and how many.
unfoldable pub video_loop : (left p : ℕ) → Video → ℕ × Video
video_loop zero p v = (0, v)
video_loop (suc left) p v =
    let rest = video_loop left (p + 1) (print_characters (v.memory p) v) in
    if v.memory p == 0 then (0, v) else (rest.0 + 1, rest.1)

unfoldable pub write_to_video : (buf n_bytes : ℕ) → System → Option (ℕ × System)
write_to_video buf n_bytes s =
    let (i, v) = video_loop n_bytes buf s.screens.video in some (i, set_video v s)

unfoldable pub my_screen_loop : (left p my_screen : ℕ) → Video → ℕ × Video
my_screen_loop zero p my_screen v = (0, v)
my_screen_loop (suc left) p my_screen v =
    let rest =
      my_screen_loop left (p + 1) my_screen (print_characters_inner (v.memory p) my_screen own v) in
    if v.memory p == 0 then (0, v) else (rest.0 + 1, rest.1)

unfoldable pub write_to_my_screen : ℕ → (buf n_bytes : ℕ) → System → Option (ℕ × System)
write_to_my_screen fuel buf n_bytes s = do
  (my_screen, c1) ← get_current_screen fuel s.screens
  (my_position, c2) ← get_current_screen_position fuel c1
  let (i, v) =
      my_screen_loop n_bytes buf my_screen (record (c2.video) { own_position = my_position })
  c3 ← set_current_screen_position fuel v.own_position (record c2 { video = v })
  some (i, record s { screens = c3 })

unfoldable pub write :
    Devices → ℕ → (file_descriptor buf n_bytes : ℕ) → System → Option (ℕ × System)
write devices fuel file_descriptor buf n_bytes s =
    let hidden = write_to_my_screen fuel buf n_bytes s in
    if file_descriptor == standard_io_fd
    then (if is_current_process_on_focus s.screens then write_to_video buf n_bytes s else hidden)
    else (if file_descriptor == ethernet_fd
        then devices.send_msg buf s >>= (λ s1. some (n_bytes, s1))
        else some (failure, s))
