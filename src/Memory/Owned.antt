-- ===== src/Memory/Owned.antt =====
-- Blocks in use: what `allocate` returns is nobody else's.
use basic_kernel_implementat.Prelude.{ℕ, suc, ◌<◌, ◌≡◌, ◌≢◌, false, arith}
use basic_kernel_implementat.Prelude.Int.{pos}
use basic_kernel_implementat.Memory.{address, Allocator, is_available, allocate}
use basic_kernel_implementat.Memory.Blocks.{IsArena, address_exact, blocks_of, allocate-IsAllocated}

-- The address is that of a block of the arena that is in use.
abbrev pub Owned : Allocator → ℕ → Type 0
Owned a p =
    (i : ℕ) × (p ≡ address a.init_mem i)
    × (i < a.blocks_amount)
    × (is_available a.used_map i ≡ false)

module _ (a : Allocator) (request n : ℕ) (arena : IsArena a)
    (count : blocks_of request ≡ pos (suc n)) (found : (allocate a request).0 ≢ 0) where
  pub IsArena-allocate : IsArena (allocate a request).1
  IsArena-allocate =
      let (i, at, al) = allocate-IsAllocated a request count found in
      record {
        starts = ground (arith, al.same_arena, arena.starts);
        below = ground (arith, al.same_arena, arena.below);
        apart = ground (arith, al.same_arena, arena.apart);
      }

  -- The address that `allocate` returns is in use after the call.
  pub Owned-allocate_self : Owned (allocate a request).1 (allocate a request).0
  Owned-allocate_self =
      let (i, at, al) = allocate-IsAllocated a request count found in
      (
        i,
        ground (arith, al.same_arena),
        ground (arith, al.same_arena, al.inside),
        ground (arith, al.taken i),
      )

  -- On an arena above 0, below 8 TB and smaller than 2 GB, when `allocate` gives an address to a
  -- request of at least one block: what was in use before the call is in use after it, and is at
  -- another address.
  pub Owned-allocate :
      (p : ℕ) → Owned a p → Owned (allocate a request).1 p × (p ≢ (allocate a request).0)
  Owned-allocate p (j, pj, inside, used) =
      let (i, at, al) = allocate-IsAllocated a request count found in
      (
        (
          j,
          ground (arith, al.same_arena),
          ground (arith, al.same_arena),
          ground (arith, al.taken j),
        ),
        λ e. ground (
          arith,
          al.fit.free 0,
          al.inside,
          address_exact a.init_mem i,
          address_exact a.init_mem j,
          arena.apart,
          arena.below,
        ),
      )
