-- ===== src/Loader/Packing.antt =====
-- loadModules of Kernel/moduleLoader.c on the image that Toolchain/ModulePacker/main.c builds.
use basic_kernel_implementat.Prelude.{
  ℕ, zero, suc, ◌+◌, ◌%◌, ◌^◌, ◌≤◌, ◌<◌, ◌≡◌, refl, ◌∙◌, ◌⊎◌, some, List, [], ◌∷◌, ◌++◌, arith,
  length, get_or, length-append,
}
use basic_kernel_implementat.Text.{Chars}
use basic_kernel_implementat.Console.{Console}
use basic_kernel_implementat.Packer.{uint32_bytes}
use basic_kernel_implementat.Packer.Image.{pack}
use basic_kernel_implementat.Loader.{memcpy, uint32_at, read_uint32, load_module}
use basic_kernel_implementat.Loader.Copying.{memcpy-copies}
use basic_kernel_implementat.Loader.Announce.{IsReady, announce-IsReady, confirm-IsReady}

-- The bytes `bs` are in memory from `p` on.
abbrev pub HoldsAt : (m : Chars) (p : ℕ) (bs : List ℕ) → Type 0
HoldsAt m p bs = (k : ℕ) → k < length bs → m (p + k) ≡ get_or bs k 0

get_or_left : (xs ys : List ℕ) (k : ℕ) → k < length xs → get_or (xs ++ ys) k 0 ≡ get_or xs k 0
get_or_left [] ys k h = absurd (omega arith)
get_or_left (x ∷ xs) ys zero h = refl
get_or_left (x ∷ xs) ys (suc k) h = get_or_left xs ys k (omega arith)

get_or_right : (xs ys : List ℕ) (k : ℕ) → get_or (xs ++ ys) (length xs + k) 0 ≡ get_or ys k 0
get_or_right [] ys k = let e : 0 + k ≡ k = omega arith in rw e refl
get_or_right (x ∷ xs) ys k =
    let e : suc (length xs) + k ≡ suc (length xs + k) = omega arith in rw e (get_or_right xs ys k)

pub HoldsAt-left : (m : Chars) (p : ℕ) (xs ys : List ℕ) → HoldsAt m p (xs ++ ys) → HoldsAt m p xs
HoldsAt-left m p xs ys h k lt = h k (omega (arith, length-append xs ys)) ∙ get_or_left xs ys k lt

pub HoldsAt-right :
    (m : Chars) (p : ℕ) (xs ys : List ℕ) → HoldsAt m p (xs ++ ys) → HoldsAt m (p + length xs) ys
HoldsAt-right m p xs ys h k lt =
    let e : p + (length xs + k) ≡ p + length xs + k = omega arith in
    rw e at (h (length xs + k) (omega (arith, length-append xs ys))) ∙ get_or_right xs ys k

pub uint32_at-bytes :
    (m : Chars) (p n : ℕ) → HoldsAt m p (uint32_bytes n) → n < 2 ^ 32 → uint32_at m p ≡ n
uint32_at-bytes m p n h small =
    let b0 : m p ≡ n % 2 ^ 8 = ground (arith, h 0 (omega arith)) in
    let b1 = h 1 (omega arith) in
    let b2 = h 2 (omega arith) in let b3 = h 3 (omega arith) in rw (b0, b1, b2, b3) (omega arith)

-- `q` is in none of the places that the modules go to.
abbrev pub Off : (targets : ℕ → ℕ) (i : ℕ) → List (List ℕ) → (q : ℕ) → Type 0
Off targets i [] q = Unit
Off targets i (c ∷ cs) q = ((q < targets i) ⊎ (targets i + length c ≤ q)) × Off targets (i + 1) cs q

-- The modules `cs`, packed from `p` on, and the places that they go to do not overlap, and the fuel
-- is larger than every address and size.
abbrev pub Fits : (fuel : ℕ) (targets : ℕ → ℕ) (i p : ℕ) → List (List ℕ) → Type 0
Fits fuel targets i p [] = Unit
Fits fuel targets i p (c ∷ cs) =
    ((targets i + length c ≤ p + 4) ⊎ (p + 4 + length c + length (pack cs) ≤ targets i))
    × ((k : ℕ) → k < length c → Off targets (i + 1) cs (targets i + k))
    × (p + 4 + 1 < fuel)
    × (targets i + 1 < fuel)
    × (length c + 1 < fuel)
    × (length c < 2 ^ 32)
    × Fits fuel targets (i + 1) (p + 4 + length c) cs

-- Each module is at its place.
abbrev pub Loaded : (m : Chars) (targets : ℕ → ℕ) (i : ℕ) → List (List ℕ) → Type 0
Loaded m targets i [] = Unit
Loaded m targets i (c ∷ cs) = HoldsAt m (targets i) c × Loaded m targets (i + 1) cs

module _ (fuel : ℕ) (targets : ℕ → ℕ) (room : 81 < fuel) where
  pub load_module-copies :
      (p i : ℕ) (c rest : List ℕ) (m : Chars) (con : Console)
      → HoldsAt m p (uint32_bytes (length c) ++ (c ++ rest))
      → (targets i + length c ≤ p + 4) ⊎ (p + 4 + length c + length rest ≤ targets i)
      → p + 4 + 1 < fuel
      → targets i + 1 < fuel
      → length c + 1 < fuel
      → length c < 2 ^ 32
      → IsReady con
      → (m' : Chars) × (con' : Console) × (load_module fuel p (targets i) m con
          ≡ some (p + 4 + length c, m', con'))
        × IsReady con'
        × HoldsAt m' (targets i) c
        × HoldsAt m' (p + 4 + length c) rest
        × ((q : ℕ) → (q < targets i) ⊎ (targets i + length c ≤ q) → m' q ≡ m q)
  unfolding load_module read_uint32
  load_module-copies p i c rest m con h apart h1 h2 h3 small ok =
      let n = length c in
      let size = uint32_at-bytes m p n (HoldsAt-left m p (uint32_bytes n) (c ++ rest) h) small in
      let body : HoldsAt m (p + 4) (c ++ rest) = HoldsAt-right m p (uint32_bytes n) (c ++ rest) h in
      let here = HoldsAt-left m (p + 4) c rest body in
      let behind = HoldsAt-right m (p + 4) c rest body in
      let (copied, outside) = memcpy-copies (targets i) (p + 4) n m (ground (arith, apart)) in
      let (con1, e1, ok1) = announce-IsReady fuel (p + 4) (targets i) n con h1 h2 h3 room ok in
      let (con2, e2, ok2) = confirm-IsReady fuel con1 room ok1 in
      (
        memcpy (targets i) (p + 4) n m,
        con2,
        rw (size, e1, e2) refl,
        ok2,
        λ k lt. copied k lt ∙ here k lt,
        λ k lt. outside (p + 4 + n + k) (ground (arith, apart, lt)) ∙ behind k lt,
        outside,
      )
