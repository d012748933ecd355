-- ===== src/Memory/Blocks.antt =====
-- What `allocate` and `deallocate` promise: a run of blocks that was free, taken from nobody, and
-- given back whole.
use basic_kernel_implementat.Prelude.{
  ℕ, ◌+◌, ◌-◌, ◌*◌, ◌^◌, ◌≤◌, ◌<◌, ◌≡◌, ◌≢◌, refl, inl, inr, true, false, none, some, arith, ltb,
  Bool-cases, Option-cases, if◌then◌else◌,
}
use basic_kernel_implementat.Prelude.Int.{ℤ, pos}
use basic_kernel_implementat.Memory.{
  address, Allocator, is_available, find_blocks, allocate_blocks, allocate, deallocate,
  deallocate_inside, deallocate_blocks, page_size, to_int, div_ceil, release,
}
use basic_kernel_implementat.Memory.Map.{within, is_available-reserve, is_available-release}
use basic_kernel_implementat.Memory.Search.{IsFree, IsFirstFit, search-IsFirstFit, search-none}

-- The number of blocks of a request, as the `int` that the code computes.
abbrev pub blocks_of : ℕ → ℤ
blocks_of request = to_int (div_ceil request page_size)

-- A request of up to 8 TB is rounded up to whole blocks, and by less than one block.
pub blocks_of-covers :
    (request : ℕ)
    → request < 2 ^ 43 - page_size
    → (n : ℕ) × (blocks_of request ≡ pos n)
      × (request ≤ n * page_size)
      × (n * page_size < request + page_size)
blocks_of-covers request h = (div_ceil request page_size, ground arith, ground arith, ground arith)

module _ (a : Allocator) (n : ℕ) where
  find_blocks-some :
      (i : ℕ)
      → find_blocks a n ≡ some i
      → (i + n ≤ a.blocks_amount) × IsFirstFit a.used_map n (a.blocks_amount - n) 0 i
  unfolding find_blocks
  find_blocks-some i e = elim (Bool-cases (ltb a.blocks_amount n)) [
    | inl short ↦ absurd (ground arith)
    | inr fits ↦
        let fit =
          search-IsFirstFit a.used_map n (a.blocks_amount + 1) (a.blocks_amount - n) 0 i
            (ground arith) in
        (ground (arith, fit.upto), fit)
  ]

  find_blocks-none :
      find_blocks a n ≡ none → (q : ℕ) → q + n ≤ a.blocks_amount → ¬ IsFree a.used_map q n
  unfolding find_blocks
  find_blocks-none e q fits free = elim (Bool-cases (ltb a.blocks_amount n)) [
    | inl short ↦ absurd (ground arith)
    | inr room ↦
        search-none a.used_map n (a.blocks_amount + 1) (a.blocks_amount - n) 0 (ground arith)
          (ground arith) q (omega arith) (omega arith) free
  ]

-- The arena lies above 0 and below 8 TB, and its blocks take less than 2 GB.
pub record IsArena (a : Allocator) : Type 0 where
  pub starts : 0 < a.init_mem
  pub below : a.init_mem < 2 ^ 43
  pub apart : a.blocks_amount < 2 ^ 19

-- Within such an arena the product is exact.
pub address_exact :
    (base i : ℕ) → base < 2 ^ 43 → i < 2 ^ 19 → address base i ≡ base + i * page_size
address_exact base i low small = ground arith

-- The block at `i` begins a run of `n` that `a` had free, the first such run, and that `a'` has in
-- use; no other block changes hands.
pub record IsAllocated (a : Allocator) (n i : ℕ) (a' : Allocator) : Type 0 where
  pub inside : i + n ≤ a.blocks_amount
  pub fit : IsFirstFit a.used_map n (a.blocks_amount - n) 0 i
  pub taken :
      (j : ℕ)
      → is_available a'.used_map j ≡ (if within i n j then false else is_available a.used_map j)
  pub same_arena :
      (a'.init_mem ≡ a.init_mem)
      × (a'.blocks_amount ≡ a.blocks_amount)
      × (a'.map_address ≡ a.map_address)

module _ (a : Allocator) (request : ℕ) {n : ℕ} (count : blocks_of request ≡ pos n) where
  allocate-count : allocate a request ≡ allocate_blocks a n
  unfolding allocate
  allocate-count = ground arith

  -- For a request whose number of blocks is not negative as an `int`: an address other than NULL is
  -- that of the first run of blocks that was free and has room for it; the run is in use after the
  -- call, and every other block is as before.
  pub allocate-IsAllocated :
      (allocate a request).0 ≢ 0
      → (i : ℕ) × ((allocate a request).0 ≡ address a.init_mem i)
        × IsAllocated a n i (allocate a request).1
  unfolding allocate_blocks
  allocate-IsAllocated = rw allocate-count λ found. elim (Option-cases (find_blocks a n)) [
    | inl e ↦ absurd (found (rw (e, allocate_blocks)))
    | inr (i, e) ↦
        rw (e, allocate_blocks)
          (
            i,
            refl,
            record {
              inside = (find_blocks-some a n i e).0;
              fit = (find_blocks-some a n i e).1;
              taken = λ j. is_available-reserve n i a.used_map j;
              same_arena = (refl, refl, refl);
            },
          )
  ]

  -- For a request whose number of blocks is not negative as an `int`, on an arena above 0, below 8
  -- TB and smaller than 2 GB: NULL means that no run of blocks of the arena has room for the
  -- request, and nothing changes.
  pub allocate-null :
      IsArena a
      → (allocate a request).0 ≡ 0
      → ((allocate a request).1 ≡ a) × ((q : ℕ) → q + n ≤ a.blocks_amount → ¬ IsFree a.used_map q n)
  unfolding allocate_blocks
  allocate-null arena = rw allocate-count λ missing. elim (Option-cases (find_blocks a n)) [
    | inl e ↦ (rw (e, allocate_blocks), find_blocks-none a n e)
    | inr (i, e) ↦ absurd (
        ground (
          arith,
          find_blocks-some a n i e,
          address_exact a.init_mem i,
          arena.apart,
          arena.below,
          arena.starts,
        ))
  ]

  given_back :
      (after : Allocator) (p i : ℕ)
      → p ≡ address a.init_mem i
      → IsArena a
      → IsAllocated a n i after
      → deallocate after p request
        ≡ some (true, record after { used_map = release n i after.used_map })
  unfolding deallocate deallocate_inside deallocate_blocks
  given_back after p i at arena al =
      ground (arith, al.inside, al.same_arena, address_exact a.init_mem i, arena.apart, arena.below)

  -- For a request whose number of blocks is not negative as an `int`, on an arena above 0, below 8
  -- TB and smaller than 2 GB, to which `allocate` gives an address: giving the blocks back at once
  -- succeeds, and leaves every block as available as it was before they were taken.
  pub deallocate-allocate :
      IsArena a
      → (allocate a request).0 ≢ 0
      → (a' : Allocator) × (deallocate (allocate a request).1 (allocate a request).0 request
          ≡ some (true, a'))
        × ((j : ℕ) → is_available a'.used_map j ≡ is_available a.used_map j)
  deallocate-allocate arena found =
      let (i, at, al) = allocate-IsAllocated found in
      let after = (allocate a request).1 in
      (
        record after { used_map = release n i after.used_map },
        given_back after (allocate a request).0 i at arena al,
        λ j.
            ground
              (arith, is_available-release n i after.used_map j, al.taken j, al.fit.free (j - i)),
      )
