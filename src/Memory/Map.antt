-- ===== src/Memory/Map.antt =====
-- The map of used blocks: each write changes the bits that it is for and no other.
use basic_kernel_implementat.Prelude.{
  ℕ, zero, suc, ◌+◌, ◌-◌, ◌/◌, ◌%◌, ◌^◌, ◌<◌, ◌≡◌, refl, Bool, true, false, ◌&&◌, arith, ltb, leb,
  ◌==◌, if◌then◌else◌,
}
use basic_kernel_implementat.Memory.{
  BitMap, get_bit, is_available, set_bit, reset_bit, reserve, release, clear_map, int_bits,
}
use basic_kernel_implementat.Memory.Bits.{
  test_bit, shift_and_one, test_bit-bit_or, test_bit-bit_and, test_bit-le-one, test_bit-set_mask,
  test_bit-reset_mask,
}

-- The bit of a block.
abbrev block_bit : BitMap → ℕ → ℕ
block_bit m i = test_bit (m (i / 32)) (i % 32)

is_available_bit : (m : BitMap) (i : ℕ) → is_available m i ≡ (block_bit m i == 0)
unfolding is_available get_bit
is_available_bit m i = rw (shift_and_one (i % 32) (m (i / 32)))

block_bit-set_bit :
    (m : BitMap) (i j : ℕ) → block_bit (set_bit m i) j ≡ (if i == j then 1 else block_bit m j)
unfolding set_bit
block_bit-set_bit m i j = ground (
  arith,
  test_bit-bit_or (j % 32) (m (i / 32)) (2 ^ (i % 32)),
  test_bit-set_mask (i % 32) (j % 32) (omega arith) (omega arith),
  test_bit-le-one (j % 32) (m (j / 32)),
)

block_bit-reset_bit :
    (m : BitMap) (i j : ℕ) → block_bit (reset_bit m i) j ≡ (if i == j then 0 else block_bit m j)
unfolding reset_bit
block_bit-reset_bit m i j = ground (
  arith,
  test_bit-bit_and (j % 32) (m (i / 32)) (2 ^ 32 - 1 - 2 ^ (i % 32)),
  test_bit-reset_mask (i % 32) (j % 32) (omega arith) (omega arith),
  test_bit-le-one (j % 32) (m (j / 32)),
)

-- `setBit` makes its block unavailable, and leaves every other block as it was.
pub is_available-set_bit :
    (m : BitMap) (i j : ℕ)
    → is_available (set_bit m i) j ≡ (if i == j then false else is_available m j)
is_available-set_bit m i j =
    ground (arith, is_available_bit (set_bit m i) j, is_available_bit m j, block_bit-set_bit m i j)

-- `resetBit` makes its block available, and leaves every other block as it was.
pub is_available-reset_bit :
    (m : BitMap) (i j : ℕ)
    → is_available (reset_bit m i) j ≡ (if i == j then true else is_available m j)
is_available-reset_bit m i j =
    ground
      (arith, is_available_bit (reset_bit m i) j, is_available_bit m j, block_bit-reset_bit m i j)

-- The blocks from `i` on, `n` of them.
abbrev pub within : (i n j : ℕ) → Bool
within i n j = leb i j && ltb j (i + n)

-- The loop of `reserve` makes exactly its blocks unavailable.
pub is_available-reserve :
    (n i : ℕ) (m : BitMap) (j : ℕ)
    → is_available (reserve n i m) j ≡ (if within i n j then false else is_available m j)
unfolding reserve
is_available-reserve zero i m j = ground arith
is_available-reserve (suc n) i m j =
    ground (arith, is_available-reserve n (i + 1) (set_bit m i) j, is_available-set_bit m i j)

-- The loop of `deallocate` makes exactly its blocks available.
pub is_available-release :
    (n i : ℕ) (m : BitMap) (j : ℕ)
    → is_available (release n i m) j ≡ (if within i n j then true else is_available m j)
unfolding release
is_available-release zero i m j = ground arith
is_available-release (suc n) i m j =
    ground (arith, is_available-release n (i + 1) (reset_bit m i) j, is_available-reset_bit m i j)

test_bit-zero : (j : ℕ) → test_bit 0 j ≡ 0
test_bit-zero zero = refl
test_bit-zero (suc j) = test_bit-zero j

clear_map_lem :
    (n i : ℕ) (m : BitMap) (s : ℕ) → clear_map n i m s ≡ (if within i n s then 0 else m s)
unfolding clear_map
clear_map_lem zero i m s = ground arith
clear_map_lem (suc n) i m s =
    ground (arith, clear_map_lem n (i + 1) (λ q. if i == q then 0 else m q) s)

-- A word that the reset loop clears makes its 32 blocks available.
pub is_available-cleared :
    (n : ℕ) (m : BitMap) (j : ℕ) → j / int_bits < n → is_available (clear_map n 0 m) j ≡ true
is_available-cleared n m j h = ground (
  arith,
  is_available_bit (clear_map n 0 m) j,
  clear_map_lem n 0 m (j / 32),
  test_bit-zero (j % 32),
)
