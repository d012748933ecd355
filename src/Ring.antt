-- ===== src/Ring.antt =====
-- Ring buffers as in Kernel/pipefs.c and Kernel/keyBoadDriver.c: an array of `size` cells in which 0 is an empty
-- cell, an index to read at and one to write at. A cell is cleared when it is read.
use basic_kernel_implementat.Prelude.{
  ℕ, zero, suc, ◌+◌, ◌-◌, ◌≤◌, ◌<◌, ◌≡◌, ◌≢◌, refl, List, [], ◌∷◌, ◌++◌, arith, length, get_or, ltb,
  ◌==◌, if◌then◌else◌, ◌∙◌, update, All, All-snoc, length-append,
}

-- The cell `k` places behind cell `i`.
abbrev pub place : (size i k : ℕ) → ℕ
place size i k = if ltb (i + k) size then i + k else i + k - size

get_or-past {ℓ} : {A : Type ℓ} (q : List A) (k : ℕ) (d : A) → length q ≤ k → get_or q k d ≡ d
get_or-past [] k d h = refl
get_or-past (x ∷ q) zero d h = absurd (omega arith)
get_or-past (x ∷ q) (suc k) d h = get_or-past q k d (omega arith)

pub get_or-snoc :
    (q : List ℕ) (c k : ℕ)
    → get_or (q ++ (c ∷ [])) k 0 ≡ (if k == length q then c else get_or q k 0)
get_or-snoc [] c zero = refl
get_or-snoc [] c (suc k) = ground arith
get_or-snoc (x ∷ q) c zero = ground arith
get_or-snoc (x ∷ q) c (suc k) = ground (arith, get_or-snoc q c k)

get_or-ne_zero : (q : List ℕ) (k : ℕ) → All (λ x. x ≢ 0) q → k < length q → get_or q k 0 ≢ 0
get_or-ne_zero [] k all h = absurd (omega arith)
get_or-ne_zero (x ∷ q) zero all h = all.0
get_or-ne_zero (x ∷ q) (suc k) all h = get_or-ne_zero q k all.1 (omega arith)

-- The buffer holds the values `q`, oldest first, and nothing else.
pub record Holds (size : ℕ) (buffer : ℕ → ℕ) (read write : ℕ) (q : List ℕ) : Type 0 where
  pub read_in : read < size
  pub fits : length q ≤ size
  pub write_at : write ≡ place size read (length q)
  pub proper : All (λ x. x ≢ 0) q
  pub contents : (k : ℕ) → k < size → buffer (place size read k) ≡ get_or q k 0

module _ (size : ℕ) (buffer : ℕ → ℕ) (read write : ℕ) where
  -- The cell at the write index is empty exactly when there is room.
  pub Holds-room :
      (q : List ℕ) → Holds size buffer read write q → length q < size → buffer write ≡ 0
  Holds-room q h room =
      ground (arith, h.contents (length q), get_or-past q (length q) 0 (omega arith), h.write_at)

  pub Holds-full :
      (q : List ℕ) → Holds size buffer read write q → length q ≡ size → buffer write ≢ 0
  Holds-full q h full =
      let at_read : write ≡ place size read 0 = ground (arith, h.write_at, h.read_in) in
      let value : buffer write ≡ get_or q 0 0 =
        rw at_read (h.contents 0 (omega (arith, h.read_in))) in
      rw value (get_or-ne_zero q 0 h.proper (omega (arith, h.read_in)))

  -- A value other than 0 that is written there comes last.
  pub Holds-put :
      (q : List ℕ) (c : ℕ)
      → Holds size buffer read write q
      → length q < size
      → c ≢ 0
      → Holds size (update buffer write c) read (place size write 1) (q ++ (c ∷ []))
  Holds-put q c h room proper = record {
    read_in = h.read_in;
    fits = omega (arith, length-append q (c ∷ []));
    write_at = ground (arith, length-append q (c ∷ []), h.write_at, h.read_in);
    proper = All-snoc (λ x. x ≢ 0) q c h.proper proper;
    contents = λ k lt. ground (arith, h.contents k, get_or-snoc q c k, h.write_at, h.read_in);
  }

  -- The cell at the read index holds the oldest value; once it is cleared the rest is held.
  pub Holds-take :
      (x : ℕ) (q : List ℕ)
      → Holds size buffer read write (x ∷ q)
      → (buffer read ≡ x) × Holds size (update buffer read 0) (place size read 1) write q
  Holds-take x q h = (
    ground (arith, h.contents 0, h.read_in),
    record {
      read_in = ground (arith, h.read_in);
      fits = omega (arith, h.fits);
      write_at = ground (arith, h.write_at, h.read_in, h.fits);
      proper = h.proper.1;
      contents = λ k lt. ground (arith, h.contents (suc k), h.read_in, h.fits, get_or-past q k 0);
    },
  )

  -- An empty buffer reads 0.
  pub Holds-empty : Holds size buffer read write [] → buffer read ≡ 0
  Holds-empty h = ground (arith, h.contents 0, h.read_in)

-- Only the cells of the array matter.
pub Holds-same :
    (size : ℕ) (b b' : ℕ → ℕ) (read write : ℕ) (q : List ℕ)
    → ((i : ℕ) → i < size → b' i ≡ b i)
    → Holds size b read write q
    → Holds size b' read write q
Holds-same size b b' read write q same h = record {
  read_in = h.read_in;
  fits = h.fits;
  write_at = h.write_at;
  proper = h.proper;
  contents = λ k l. same (place size read k) (ground (arith, h.read_in)) ∙ h.contents k l;
}
