-- ===== src/Memory/Search.antt =====
-- The two loops of `allocate`: first fit over the map of used blocks.
use basic_kernel_implementat.Prelude.{
  ℕ, zero, suc, ◌+◌, ◌-◌, ◌≤◌, ◌<◌, ◌≡◌, true, false, none, some, arith, ltb, Bool-cases, inl, inr,
  ltb→lt,
}
use basic_kernel_implementat.Memory.{BitMap, is_available, scan, search}

-- `n` blocks from `i` on are available.
abbrev pub IsFree : BitMap → (i n : ℕ) → Type 0
IsFree m i n = (d : ℕ) → d < n → is_available m (i + d) ≡ true

module _ (m : BitMap) (i : ℕ) where
  scan-found :
      (left j : ℕ)
      → (scan m i left j).1 ≡ true
      → (d : ℕ) → j ≤ d
      → d < j + left
      → is_available m (i + d) ≡ true
  unfolding scan
  scan-found zero j e d lo hi = absurd (omega arith)
  scan-found (suc left) j e d lo hi = ground (arith, scan-found left (j + 1) (ground arith) d)

  scan-count : (left j : ℕ) → (scan m i left j).1 ≡ true → (scan m i left j).0 ≡ j + left
  unfolding scan
  scan-count zero j e = omega arith
  scan-count (suc left) j e = ground (arith, scan-count left (j + 1))

  -- A failed scan ends just behind a block in use.
  scan-blocked :
      (left j : ℕ)
      → (scan m i left j).1 ≡ false
      → (j < (scan m i left j).0)
        × ((scan m i left j).0 ≤ j + left)
        × (is_available m (i + ((scan m i left j).0 - 1)) ≡ false)
  unfolding scan
  scan-blocked zero j e = absurd (ground arith)
  scan-blocked (suc left) j e = elim (Bool-cases (is_available m (i + j))) [
    | inl free ↦
        let (more, fits, blocked) = scan-blocked left (j + 1) (ground arith) in
        rw free (omega arith, omega arith, blocked)
    | inr taken ↦ rw taken (omega arith, omega arith, ground arith)
  ]

module _ (m : BitMap) (request : ℕ) where
  -- What a failed scan skips has no room for the request.
  not-IsFree-skipped :
      (i q : ℕ)
      → (scan m i request 0).1 ≡ false
      → i ≤ q
      → q < i + (scan m i request 0).0
      → ¬ IsFree m q request
  not-IsFree-skipped i q e lo hi free =
      let (more, fits, blocked) = scan-blocked m i request 0 e in
      let last = i + ((scan m i request 0).0 - 1) in ground (arith, free (last - q), blocked)

  -- First fit: the block that is found has room, lies within bounds, and no block before it has.
  pub record IsFirstFit (last i p : ℕ) : Type 0 where
    pub from : i ≤ p
    pub upto : p ≤ last
    pub free : IsFree m p request
    pub first : (q : ℕ) → i ≤ q → q < p → ¬ IsFree m q request

  pub search-IsFirstFit :
      (fuel last i p : ℕ) → search fuel m request last i ≡ some p → IsFirstFit last i p
  unfolding search
  search-IsFirstFit zero last i p e = absurd (ground arith)
  search-IsFirstFit (suc fuel) last i p e = elim (Bool-cases (scan m i request 0).1) [
    | inl found ↦
        let here : (i ≡ p) × (i ≤ last) = ground arith in
        record {
          from = omega arith;
          upto = omega arith;
          free =
              λ d h. rw (← here.0) (scan-found m i request 0 found d (omega arith) (omega arith));
          first = λ q lo hi. absurd (omega arith);
        }
    | inr blocked ↦
        let rest = search-IsFirstFit fuel last (i + (scan m i request 0).0) p (ground arith) in
        record {
          from = omega (arith, rest.from);
          upto = rest.upto;
          free = rest.free;
          first = λ q lo hi free. elim (Bool-cases (ltb q (i + (scan m i request 0).0))) [
            | inl near ↦ not-IsFree-skipped i q blocked lo (ltb→lt _ _ near) free
            | inr far ↦ rest.first q (ground arith) hi free
          ];
        }
  ]

  -- With fuel past the last candidate, no result means that no candidate has room.
  pub search-none :
      (fuel last i : ℕ)
      → last < i + fuel
      → search fuel m request last i ≡ none
      → (q : ℕ) → i ≤ q
      → q ≤ last
      → ¬ IsFree m q request
  unfolding search
  search-none zero last i enough e q lo hi free = absurd (omega arith)
  search-none (suc fuel) last i enough e q lo hi free = elim (Bool-cases (scan m i request 0).1) [
    | inl found ↦ absurd (ground arith)
    | inr blocked ↦
        let (more, fits, taken) = scan-blocked m i request 0 blocked in
        elim (Bool-cases (ltb q (i + (scan m i request 0).0))) [
          | inl near ↦ not-IsFree-skipped i q blocked lo (ltb→lt _ _ near) free
          | inr far ↦
              search-none fuel last (i + (scan m i request 0).0) (omega arith) (ground arith) q
                (ground arith) hi free
        ]
  ]
