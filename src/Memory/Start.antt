-- ===== src/Memory/Start.antt =====
-- The start of the allocator: how many blocks an arena gets, and that all of them are free.
use basic_kernel_implementat.Prelude.{
  ℕ, zero, suc, ◌+◌, ◌-◌, ◌*◌, ◌/◌, ◌%◌, ◌^◌, ◌≤◌, ◌<◌, ◌≡◌, refl, ◌⊎◌, inl, inr, true, false, some,
  arith, ltb, leb, Bool-cases, ltb→lt, leb→le, ◌==◌,
}
use basic_kernel_implementat.Memory.{
  Allocator, is_available, page_size, map_size, enough_space, count_blocks, shrink, sizeof_int,
  get_blocks_amount, map_init, mem_allocator_init,
}
use basic_kernel_implementat.Memory.Blocks.{IsArena, address_exact}
use basic_kernel_implementat.Memory.Map.{is_available-cleared}

-- The first loop counts the pages of the arena.
count_blocks-pages :
    (fuel total k : ℕ)
    → total < 2 ^ 43
    → k * page_size ≤ total
    → total / page_size < fuel + k
    → count_blocks fuel total (k * page_size) k
      ≡ some ((total / page_size + 1) * page_size, total / page_size)
unfolding count_blocks
count_blocks-pages zero total k small upto enough = absurd (omega arith)
count_blocks-pages (suc fuel) total k small upto enough =
    let next : (k * page_size + page_size) % 2 ^ 64 ≡ (k + 1) * page_size = omega arith in
    rw next (elim (Bool-cases (leb ((k + 1) * page_size) total)) [
      | inl more ↦
          rw more (count_blocks-pages fuel total (k + 1) small (leb→le _ _ more) (omega arith))
      | inr done ↦ let k_pages : k ≡ total / page_size = ground arith in rw done (ground arith)
    ])

-- `blocks` blocks, the pointer and one unit for each word of the map fit in `total` bytes.
abbrev pub Fits : (total blocks : ℕ) → Type 0
Fits total blocks = blocks * page_size + (8 + map_size blocks) ≤ total

-- `b` is the largest count up to `most` that fits.
pub record IsLargest (total most b : ℕ) : Type 0 where
  pub upto : b ≤ most
  pub fits : Fits total b
  pub largest : (c : ℕ) → b < c → c ≤ most → ¬ Fits total c

IsLargest-suc :
    {total most b : ℕ}
    → ¬ Fits total (suc most)
    → IsLargest total most b
    → IsLargest total (suc most) b
IsLargest-suc {total} {most} tight l = record {
  upto = omega (arith, l.upto);
  fits = l.fits;
  largest = λ c lo hi fit. elim (Bool-cases (c == suc most)) [
    | inl top ↦ let at : c ≡ suc most = ground arith in tight (rw at at fit)
    | inr below ↦ l.largest c lo (ground arith) fit
  ];
}

-- The second loop ends at the largest count that fits.
shrink-IsLargest :
    (blocks remaining total : ℕ)
    → total ≡ blocks * page_size + remaining
    → 8 ≤ total
    → (b : ℕ) × (shrink blocks remaining ≡ some b) × IsLargest total blocks b
unfolding shrink
shrink-IsLargest zero remaining total e h = (
  0,
  ground arith,
  record { upto = omega arith; fits = ground arith; largest = λ c lo hi fit. omega arith },
)
shrink-IsLargest (suc blocks) remaining total e h =
    elim (Bool-cases (enough_space (suc blocks) remaining)) [
      | inl enough ↦ (
        suc blocks,
        rw enough,
        record { upto = omega arith; fits = ground arith; largest = λ c lo hi fit. omega arith },
      )
      | inr tight ↦
          let (b, found, l) =
            shrink-IsLargest blocks (remaining + page_size) total (omega arith) h in
          (b, rw tight found, IsLargest-suc (ground arith) l)
    ]

-- An arena of at least one page gets the largest number of blocks that leaves room for what the
-- code counts as the map; the loops end with one unit of fuel for each page and one more.
pub get_blocks_amount-IsLargest :
    (fuel total : ℕ)
    → page_size ≤ total
    → total < 2 ^ 43
    → total / page_size < fuel
    → (b : ℕ) × (get_blocks_amount fuel total ≡ some b) × IsLargest total (total / page_size) b
unfolding get_blocks_amount
get_blocks_amount-IsLargest fuel total least small enough =
    let counted : count_blocks fuel total 0 0
        ≡ some ((total / page_size + 1) * page_size, total / page_size) =
      count_blocks-pages fuel total 0 small (omega arith) (omega arith) in
    let remaining =
      (total + 2 ^ 64 - ((total / page_size + 1) * page_size + 2 ^ 64 - page_size) % 2 ^ 64)
      % 2 ^ 64
      % 2 ^ 32 in
    rw (counted, get_blocks_amount)
      (shrink-IsLargest (total / page_size) remaining total (omega arith) (omega arith))

-- `memAllocatorInit` refuses an arena below one page and keeps the globals.
pub mem_allocator_init-small :
    (fuel start end : ℕ) (a : Allocator)
    → start ≤ end
    → end < 2 ^ 64
    → end - start < page_size
    → mem_allocator_init fuel start end a ≡ some (false, a)
unfolding mem_allocator_init
mem_allocator_init-small fuel start end a order word small = ground arith

-- On any other arena it leaves an allocator whose blocks are all available, as many as fit before
-- the map, which begins behind the last of them. The arena lies above 0 and below 8 TB, and is
-- smaller than 2 GB.
pub mem_allocator_init-fresh :
    (fuel start end : ℕ) (a : Allocator)
    → start + page_size ≤ end
    → 0 < start
    → end < 2 ^ 43
    → end < start + 2 ^ 31
    → (end - start) / page_size < fuel
    → (a' : Allocator) × (mem_allocator_init fuel start end a ≡ some (true, a'))
      × IsArena a'
      × (a'.init_mem ≡ start)
      × (a'.map_address ≡ start + a'.blocks_amount * page_size)
      × IsLargest (end - start) ((end - start) / page_size) a'.blocks_amount
      × ((j : ℕ) → j < a'.blocks_amount → is_available a'.used_map j ≡ true)
unfolding mem_allocator_init map_init
mem_allocator_init-fresh fuel start end a least positive low small enough =
    let total : (end + 2 ^ 64 - start) % 2 ^ 64 ≡ end - start = omega arith in
    let (b, got, l) =
      get_blocks_amount-IsLargest fuel (end - start) (omega arith) (omega arith) enough in
    (
      map_init (record a { init_mem = start; blocks_amount = b }),
      rw (total, got) (ground arith),
      record { starts = positive; below = omega arith; apart = ground (arith, l.upto) },
      refl,
      address_exact start b (omega arith) (ground (arith, l.upto)),
      l,
      λ j h. is_available-cleared (map_size b) a.used_map j (ground (arith, l.upto)),
    )

-- Where as many blocks fit as the arena has pages, it gets them all.
get_blocks_amount-all :
    (fuel total blocks : ℕ)
    → total / page_size ≡ blocks
    → 0 < blocks
    → total < 2 ^ 43
    → blocks < fuel
    → Fits total blocks
    → get_blocks_amount fuel total ≡ some blocks
get_blocks_amount-all fuel total blocks e positive small enough fits =
    let (b, got, l) = get_blocks_amount-IsLargest fuel total (omega arith) small (omega arith) in
    all b got l (Bool-cases (ltb b blocks))
  where
    all :
        (b : ℕ)
        → get_blocks_amount fuel total ≡ some b
        → IsLargest total (total / page_size) b
        → (ltb b blocks ≡ true) ⊎ (ltb b blocks ≡ false)
        → get_blocks_amount fuel total ≡ some blocks
    all b got l (inl less) = absurd (l.largest blocks (ltb→lt _ _ less) (omega arith) fits)
    all b got l (inr all_of_them) = ground (arith, l.upto)

-- The map is counted in words, but a word takes four bytes: for each `blocks` from 65 on and below
-- 130000, with more fuel than that, there is an arena that gets `blocks` blocks and whose map ends
-- past the arena.
pub map_overrun :
    (fuel blocks : ℕ)
    → 65 ≤ blocks
    → blocks < 130000
    → blocks < fuel
    → (total : ℕ) × (get_blocks_amount fuel total ≡ some blocks)
      × (total < blocks * page_size + sizeof_int * map_size blocks)
map_overrun fuel blocks least most enough = (
  blocks * page_size + (8 + map_size blocks),
  get_blocks_amount-all fuel (blocks * page_size + (8 + map_size blocks)) blocks (ground arith)
      (omega arith) (ground arith) enough (omega arith),
  ground arith,
)
