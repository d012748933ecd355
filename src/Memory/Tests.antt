-- ===== src/Memory/Tests.antt =====
-- The allocator on an arena of 1024 blocks at 1 MB, and the witnesses.
use basic_kernel_implementat.Prelude.{
  ℕ, ◌+◌, ◌-◌, ◌*◌, ◌/◌, ◌<◌, ◌≡◌, ◌≢◌, refl, true, false, some, arith, if◌then◌else◌, ◌==◌,
}
use basic_kernel_implementat.Memory.{
  Allocator, address, page_size, is_available, get_bit, find_blocks, search, scan, allocate_blocks,
  allocate, deallocate, mem_allocator_init,
}
use basic_kernel_implementat.Memory.Blocks.{
  IsArena, IsAllocated, allocate-IsAllocated, deallocate-allocate,
}
use basic_kernel_implementat.Memory.Start.{
  IsLargest, mem_allocator_init-small, mem_allocator_init-fresh,
}
use basic_kernel_implementat.Memory.Owned.{Owned, Owned-allocate}

-- Block 1 is in use.
abbrev arena : Allocator
arena = record {
  init_mem = 0x100000;
  map_address = 0x500000;
  used_map = λ s. if s == 0 then 2 else 0;
  blocks_amount = 1024;
}

abbrev small_arena : Allocator
small_arena = record arena { blocks_amount = 2 }

arena-IsArena : IsArena arena
arena-IsArena = record { starts = omega arith; below = omega arith; apart = omega arith }

small_arena-IsArena : IsArena small_arena
small_arena-IsArena = record { starts = omega arith; below = omega arith; apart = omega arith }

first_fit : (allocate arena 5000).0 ≡ 0x102000
unfolding allocate allocate_blocks find_blocks search scan is_available get_bit
first_fit = refl

arena-found : (allocate arena 5000).0 ≢ 0
arena-found e = omega (arith, first_fit)

allocate-IsAllocated_example :
    (i : ℕ) × ((allocate arena 5000).0 ≡ address 0x100000 i)
    × IsAllocated arena 2 i (allocate arena 5000).1
allocate-IsAllocated_example = allocate-IsAllocated arena 5000 refl arena-found

block_one : Owned arena 0x101000
unfolding is_available get_bit
block_one = (1, refl, omega arith, refl)

Owned-allocate_example :
    Owned (allocate arena 5000).1 0x101000 × (0x101000 ≢ (allocate arena 5000).0)
Owned-allocate_example =
    Owned-allocate arena 5000 1 arena-IsArena refl arena-found 0x101000 block_one

deallocate-allocate_example :
    (a' : Allocator) × (deallocate (allocate arena 5000).1 (allocate arena 5000).0 5000
      ≡ some (true, a'))
    × ((j : ℕ) → is_available a'.used_map j ≡ is_available arena.used_map j)
deallocate-allocate_example = deallocate-allocate arena 5000 refl arena-IsArena arena-found

no_room : (allocate small_arena 5000).0 ≡ 0
unfolding allocate allocate_blocks find_blocks search scan is_available get_bit
no_room = refl

mem_allocator_init-fresh_example :
    (a' : Allocator) × (mem_allocator_init 300 0x600000 0x700000 arena ≡ some (true, a'))
    × IsArena a'
    × (a'.init_mem ≡ 0x600000)
    × (a'.map_address ≡ 0x600000 + a'.blocks_amount * page_size)
    × IsLargest (0x700000 - 0x600000) ((0x700000 - 0x600000) / page_size) a'.blocks_amount
    × ((j : ℕ) → j < a'.blocks_amount → is_available a'.used_map j ≡ true)
mem_allocator_init-fresh_example =
    mem_allocator_init-fresh 300 0x600000 0x700000 arena (omega arith) (omega arith) (omega arith)
      (omega arith) (omega arith)

mem_allocator_init-small_example : mem_allocator_init 9 0x1000 0x1FFF arena ≡ some (false, arena)
mem_allocator_init-small_example =
    mem_allocator_init-small 9 0x1000 0x1FFF arena (omega arith) (omega arith) (omega arith)
