-- ===== src/Keyboard/Queue.antt =====
-- The buffer of the keyboard as a queue of characters.
use basic_kernel_implementat.Prelude.{
  ℕ, ◌<◌, ◌≡◌, ◌≢◌, List, [], ◌∷◌, ◌++◌, false, some, arith, length, ◌==◌, update,
}
use basic_kernel_implementat.Kernel.{Kernel}
use basic_kernel_implementat.Kernel.Lookup.{get_process_with_pid}
use basic_kernel_implementat.Kernel.Blocking.All.{threads_of, IsWoken, unblock_all_threads-IsWoken}
use basic_kernel_implementat.Ring.{
  place, Holds, Holds-put, Holds-take, Holds-room, Holds-full, Holds-empty,
}
use basic_kernel_implementat.Keyboard.{Keyboard, buffer_size, advance, put_key, get_key}

-- The characters `q` wait, oldest first.
abbrev pub HoldsKeys : Keyboard → List ℕ → Type 0
HoldsKeys b q = Holds buffer_size b.buffer b.current b.last q

advance_lem : (p : ℕ) → p < buffer_size → advance p ≡ place buffer_size p 1
advance_lem p h = ground arith

-- getKey gives the oldest character that waits and takes it out of the buffer.
pub get_key-HoldsKeys :
    (b : Keyboard) (v : ℕ) (q : List ℕ)
    → HoldsKeys b (v ∷ q)
    → ((get_key b).0 ≡ v) × HoldsKeys (get_key b).1 q
unfolding get_key
get_key-HoldsKeys b v q h =
    let (oldest, rest) = Holds-take buffer_size b.buffer b.current b.last v q h in
    let waits : (b.buffer b.current == 0) ≡ false = ground (arith, oldest, h.proper.0) in
    rw (waits, advance_lem b.current h.read_in) (oldest, rest)

-- With no character waiting getKey gives 0 and changes nothing.
pub get_key-empty : (b : Keyboard) → HoldsKeys b [] → get_key b ≡ (0, b)
unfolding get_key
get_key-empty b h = ground (arith, Holds-empty buffer_size b.buffer b.current b.last h)

module _ (fuel focus character : ℕ) (b : Keyboard) (k : Kernel) (q : List ℕ)
    (h : HoldsKeys b q) where
  -- A character other than 0 comes behind those that wait if fewer than 100 do. If the process that
  -- has the focus is found, storing the key ends, those of its threads that waited for input are ready
  -- afterwards, and all other threads stay as they are.
  pub put_key-HoldsKeys :
      {process : ℕ}
      → length q < buffer_size
      → character ≢ 0
      → get_process_with_pid fuel focus k ≡ some process
      → (b' : Keyboard) × (k' : Kernel) × (put_key fuel focus character b k ≡ some (b', k'))
        × HoldsKeys b' (q ++ (character ∷ []))
        × IsWoken k k' (threads_of k process)
  unfolding put_key
  put_key-HoldsKeys {process} room proper found =
      let (k1, woken, readers) = unblock_all_threads-IsWoken fuel focus process k found in
      let empty = Holds-room buffer_size b.buffer b.current b.last q h room in
      let at_last : b.last < buffer_size = ground (arith, h.write_at, h.read_in) in
      (
        record b { buffer = update b.buffer b.last character; last = place buffer_size b.last 1 },
        k1,
        ground (arith, empty, woken, advance_lem b.last at_last),
        Holds-put buffer_size b.buffer b.current b.last q character h room proper,
        readers,
      )

  -- If 100 characters wait, another one is dropped.
  pub put_key-full : length q ≡ buffer_size → put_key fuel focus character b k ≡ some (b, k)
  unfolding put_key
  put_key-full full = ground (arith, Holds-full buffer_size b.buffer b.current b.last q h full)
