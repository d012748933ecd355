-- ===== src/Memory.antt =====
-- The page allocator: Kernel/memoryManager.c, Kernel/bitmap.c and the macros of
-- Kernel/include/bitmap.h and Kernel/include/myMath.h. The map of used blocks is an array of
-- 32-bit words, each a number below 2 ^ 32; the NULL that `allocate` returns is the address 0.
pub mod Bits
pub mod Map
pub mod Search
pub mod Blocks
pub mod Start
pub mod Owned
mod Tests
use Prim.Native.Nat.{bit_and, bit_or}
use basic_kernel_implementat.Prelude.{
  ℕ, zero, suc, ◌+◌, ◌-◌, ◌*◌, ◌/◌, ◌%◌, ◌^◌, Bool, true, false, Option, none, some, ltb, leb, ◌==◌,
  if◌then◌else◌, update,
}
use basic_kernel_implementat.Prelude.Int.{ℤ, pos, negsuc, pos_part}

abbrev pub page_size : ℕ
page_size = 0x1000

abbrev pub int_bits : ℕ
int_bits = 32

abbrev pub sizeof_int : ℕ
sizeof_int = 4

-- A `uint64_t` that is stored into an `int`.
abbrev pub to_int : ℕ → ℤ
to_int n = let w = n % 2 ^ 32 in if ltb w (2 ^ 31) then pos w else negsuc (2 ^ 32 - w - 1)

-- DIV_CEIL at a positive divisor, which PAGE_SIZE and INT_BITS are. The sum is one of 64 bits.
abbrev pub div_ceil : ℕ → ℕ → ℕ
div_ceil x y = if ltb 0 x then (x + (y - x % y) % y) % 2 ^ 64 / y else x / y

-- An `int` that is added to a pointer.
abbrev pub sign_extend : ℕ → ℕ
sign_extend n = if ltb n (2 ^ 31) then n else n + 2 ^ 64 - 2 ^ 32

-- `base + i*PAGE_SIZE`, whose product is one of `int`s.
abbrev pub address : (base i : ℕ) → ℕ
address base i = (base + sign_extend (i * page_size % 2 ^ 32)) % 2 ^ 64

abbrev pub map_size : ℕ → ℕ
map_size bits = div_ceil bits int_bits

-- The words of the map, by index. A read takes the bit at a position; the sign bits that `>>`
-- brings in on a negative word are cut off by `& 1`.
abbrev pub BitMap : Type 0
BitMap = ℕ → ℕ

unfoldable pub get_bit : ℕ → ℕ → ℕ
get_bit sector position = bit_and (sector / 2 ^ position) 1

unfoldable pub is_available : BitMap → ℕ → Bool
is_available m position = get_bit (m (position / int_bits)) (position % int_bits) == 0

abbrev pub set_mask : ℕ → ℕ
set_mask position = 2 ^ (position % int_bits)

abbrev pub reset_mask : ℕ → ℕ
reset_mask position = 2 ^ 32 - 1 - set_mask position

unfoldable pub set_bit : BitMap → ℕ → BitMap
set_bit m position =
    let sector = position / int_bits in update m sector (bit_or (m sector) (set_mask position))

unfoldable pub reset_bit : BitMap → ℕ → BitMap
reset_bit m position =
    let sector = position / int_bits in update m sector (bit_and (m sector) (reset_mask position))

-- The three globals of memoryManager.c, with the words that `usedMap` points at.
pub record Allocator : Type 0 where
  pub init_mem : ℕ
  pub map_address : ℕ
  pub used_map : BitMap
  pub blocks_amount : ℕ

-- The pointer and one unit for each word of the map, as the code counts them.
abbrev pub enough_space : ℕ → ℕ → Bool
enough_space blocks remaining = leb (8 + map_size blocks) remaining

-- The first loop of getBlocksAmount. `next` is the `blocksAmount` that the round sets; `none`
-- is fuel that ran out.
unfoldable pub count_blocks : ℕ → (total aux next : ℕ) → Option (ℕ × ℕ)
count_blocks zero total aux next = none
count_blocks (suc fuel) total aux next =
    let grown = (aux + page_size) % 2 ^ 64 in
    let rest = count_blocks fuel total grown (next + 1) in
    if leb grown total then rest else some (grown, next)

-- The second loop. `none` is a `blocksAmount` that falls below 0.
unfoldable pub shrink : (blocks remaining : ℕ) → Option ℕ
shrink zero remaining = if enough_space zero remaining then some zero else none
shrink (suc blocks) remaining =
    let rest = shrink blocks (remaining + page_size) in
    if enough_space (suc blocks) remaining then some (suc blocks) else rest

unfoldable pub get_blocks_amount : ℕ → ℕ → Option ℕ
get_blocks_amount fuel total = elim (count_blocks fuel total 0 0) [
  | none ↦ none
  | some (aux, blocks) ↦
      shrink blocks ((total + 2 ^ 64 - (aux + 2 ^ 64 - page_size) % 2 ^ 64) % 2 ^ 64 % 2 ^ 32)
]

unfoldable pub clear_map : (left i : ℕ) → BitMap → BitMap
clear_map zero i m = m
clear_map (suc left) i m = clear_map left (i + 1) (update m i 0)

unfoldable pub map_init : Allocator → Allocator
map_init a = record a {
  map_address = address a.init_mem a.blocks_amount;
  used_map = clear_map (map_size a.blocks_amount) 0 a.used_map;
}

-- The result, and the globals after the call. The map's words are whatever the memory held.
unfoldable pub mem_allocator_init :
    ℕ → (init_position end_position : ℕ) → Allocator → Option (Bool × Allocator)
mem_allocator_init fuel init_position end_position a =
    let total = (end_position + 2 ^ 64 - init_position) % 2 ^ 64 in
    let started : Option (Bool × Allocator) = elim (get_blocks_amount fuel total) [
      | none ↦ none
      | some blocks ↦
          some (true, map_init (record a { init_mem = init_position; blocks_amount = blocks }))
    ] in
    if ltb total page_size then some (false, a) else started

-- The inner loop of `allocate`, with the rounds left: the last `j` and `allocFound`.
unfoldable pub scan : BitMap → (i left j : ℕ) → ℕ × Bool
scan m i zero j = (j, true)
scan m i (suc left) j =
    let rest = scan m i left (j + 1) in if is_available m (i + j) then rest else (j + 1, false)

-- The outer loop: the block where the request fits.
unfoldable pub search : ℕ → BitMap → (request last i : ℕ) → Option ℕ
search zero m request last i = none
search (suc fuel) m request last i =
    let (j, found) = scan m i request 0 in
    let rest = search fuel m request last (i + j) in
    if leb i last then (if found then some i else rest) else none

unfoldable pub reserve : (left i : ℕ) → BitMap → BitMap
reserve zero i m = m
reserve (suc left) i m = reserve left (i + 1) (set_bit m i)

unfoldable pub find_blocks : Allocator → ℕ → Option ℕ
find_blocks a request =
    if ltb a.blocks_amount request
    then none
    else search (a.blocks_amount + 1) a.used_map request (a.blocks_amount - request) 0

unfoldable pub allocate_blocks : Allocator → ℕ → ℕ × Allocator
allocate_blocks a request = elim (find_blocks a request) [
  | none ↦ (0, a)
  | some i ↦ (address a.init_mem i, record a { used_map = reserve request i a.used_map })
]

-- A count of blocks that is negative as an `int` enters no inner loop and reserves nothing.
unfoldable pub allocate : Allocator → ℕ → ℕ × Allocator
allocate a request = elim (to_int (div_ceil request page_size)) [
  | pos blocks ↦ allocate_blocks a blocks
  | negsuc _ ↦ (a.init_mem, a)
]

unfoldable pub release : (left i : ℕ) → BitMap → BitMap
release zero i m = m
release (suc left) i m = release left (i + 1) (reset_bit m i)

-- `deallocate` at a position in the arena: block `start`, and `blocks` of them.
unfoldable pub deallocate_blocks : Allocator → (start blocks : ℕ) → Bool × Allocator
deallocate_blocks a start blocks =
    if ltb a.blocks_amount (start + blocks)
    then (false, a)
    else (true, record a { used_map = release blocks start a.used_map })

-- With a count that is negative as an `int` the loop makes no round.
unfoldable pub deallocate_none : Allocator → (start deficit : ℕ) → Bool × Allocator
deallocate_none a start deficit =
    if ltb (a.blocks_amount + deficit) start then (false, a) else (true, a)

-- A position `below` blocks under the arena: `none` is a write outside the map.
unfoldable pub deallocate_below : Allocator → (below : ℕ) → ℤ → Option (Bool × Allocator)
deallocate_below a below (pos blocks) =
    if ltb (a.blocks_amount + below) blocks
    then some (false, a)
    else (if blocks == 0 then some (true, a) else none)
deallocate_below a below (negsuc _) = some (true, a)

unfoldable pub deallocate_inside : Allocator → (start : ℕ) → ℤ → Bool × Allocator
deallocate_inside a start (pos blocks) = deallocate_blocks a start blocks
deallocate_inside a start (negsuc n) = deallocate_none a start (suc n)

-- The quotient is rounded towards 0, and fits an `int` (addresses are below 2 ^ 43).
unfoldable pub deallocate : Allocator → (position size : ℕ) → Option (Bool × Allocator)
deallocate a position size =
    let blocks = to_int (div_ceil size page_size) in
    let below = (a.init_mem - position) / page_size in
    if below == 0
    then some (deallocate_inside a ((position - a.init_mem) / page_size) blocks)
    else deallocate_below a below blocks
