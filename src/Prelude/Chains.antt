-- ===== src/Prelude/Chains.antt =====
-- Lists that run through memory: `Chain next p xs stop` says that from `p` the links lead through the
-- addresses `xs`, in order, and on to `stop`.
use Prim.Native.Nat.{ℕ}
use mathlib.Core.Path.{◌≡◌, refl}
use mathlib.Core.Logic.{◌≢◌, inl, inr}
use mathlib.Core.Bool.{Bool, true, false, ◌||◌}
use mathlib.Core.List.{List, [], ◌∷◌, ◌++◌}
use native.Mathlib.Omega.{arith}
use basic_kernel_implementat.Prelude.Tests.{◌==◌, Bool-cases}

abbrev pub Chain : (ℕ → ℕ) → ℕ → List ℕ → ℕ → Type 0
Chain next p [] stop = p ≡ stop
Chain next p (a ∷ xs) stop = (p ≡ a) × Chain next (next a) xs stop

abbrev pub All {ℓ κ} : {A : Type ℓ} → (A → Type κ) → List A → Type κ
All P [] = Unit
All P (x ∷ xs) = P x × All P xs

abbrev pub has : ℕ → List ℕ → Bool
has a [] = false
has a (x ∷ xs) = (x == a) || has a xs

-- No address occurs twice.
abbrev pub Distinct : List ℕ → Type 0
Distinct [] = Unit
Distinct (x ∷ xs) = (has x xs ≡ false) × Distinct xs

pub has-append : (a : ℕ) (xs ys : List ℕ) → has a (xs ++ ys) ≡ (has a xs || has a ys)
has-append a [] ys = refl
has-append a (x ∷ xs) ys = ground (arith, has-append a xs ys)

pub All-has {ℓ} : (P : ℕ → Type ℓ) (xs : List ℕ) (a : ℕ) → All P xs → has a xs ≡ true → P a
All-has P [] a all h = absurd (ground arith)
All-has P (x ∷ xs) a all h = elim (Bool-cases (x == a)) [
  | inl here ↦ let e : x ≡ a = ground arith in rw e at (all.0)
  | inr later ↦ All-has P xs a all.1 (ground arith)
]

pub All-map {ℓ κ} :
    (P : ℕ → Type ℓ) (Q : ℕ → Type κ) (xs : List ℕ) → ((a : ℕ) → P a → Q a) → All P xs → All Q xs
All-map P Q [] f all = tt
All-map P Q (x ∷ xs) f all = (f x all.0, All-map P Q xs f all.1)

pub not-has_of_All : (xs : List ℕ) (a : ℕ) → All (λ x. x ≢ a) xs → has a xs ≡ false
not-has_of_All [] a all = refl
not-has_of_All (x ∷ xs) a all = ground (arith, all.0, not-has_of_All xs a all.1)

-- Links elsewhere may change.
pub Chain-frame :
    (next next' : ℕ → ℕ) (p : ℕ) (xs : List ℕ) (stop : ℕ)
    → ((a : ℕ) → has a xs ≡ true → next' a ≡ next a)
    → Chain next p xs stop
    → Chain next' p xs stop
Chain-frame next next' p [] stop same c = c
Chain-frame next next' p (a ∷ xs) stop same c = (
  c.0,
  rw (same a (ground arith))
      (Chain-frame next next' (next a) xs stop (λ b h. same b (ground arith)) c.1),
)

pub Chain-append :
    (next : ℕ → ℕ) (p : ℕ) (xs : List ℕ) (middle : ℕ) (ys : List ℕ) (stop : ℕ)
    → Chain next p xs middle
    → Chain next middle ys stop
    → Chain next p (xs ++ ys) stop
Chain-append next p [] middle ys stop c d = rw c d
Chain-append next p (a ∷ xs) middle ys stop c d =
    (c.0, Chain-append next (next a) xs middle ys stop c.1 d)

pub Distinct-snoc :
    (xs : List ℕ) (a : ℕ) → Distinct xs → has a xs ≡ false → Distinct (xs ++ (a ∷ []))
Distinct-snoc [] a d new = (refl, tt)
Distinct-snoc (x ∷ xs) a d new =
    (ground (arith, has-append x xs (a ∷ []), d.0), Distinct-snoc xs a d.1 (ground arith))

pub All-snoc {ℓ} : (P : ℕ → Type ℓ) (xs : List ℕ) (a : ℕ) → All P xs → P a → All P (xs ++ (a ∷ []))
All-snoc P [] a all p = (p, tt)
All-snoc P (x ∷ xs) a all p = (all.0, All-snoc P xs a all.1 p)

-- Where a chain ends at one of the addresses `ys` that hold all of it, every link stays there.
pub Chain-closed :
    (next : ℕ → ℕ) (p : ℕ) (xs : List ℕ) (stop : ℕ) (ys : List ℕ)
    → Chain next p xs stop
    → has stop ys ≡ true
    → ((a : ℕ) → has a xs ≡ true → has a ys ≡ true)
    → (has p ys ≡ true) × All (λ a. has (next a) ys ≡ true) xs
Chain-closed next p [] stop ys c inside sub = (rw c inside, tt)
Chain-closed next p (a ∷ xs) stop ys c inside sub =
    let (q, rest) =
      Chain-closed next (next a) xs stop ys c.1 inside (λ b h. sub b (ground arith)) in
    (rw (c.0) (sub a (ground arith)), (q, rest))

pub All-tabulate {ℓ} : (P : ℕ → Type ℓ) (xs : List ℕ) → ((a : ℕ) → has a xs ≡ true → P a) → All P xs
All-tabulate P [] f = tt
All-tabulate P (x ∷ xs) f = (f x (ground arith), All-tabulate P xs (λ a h. f a (ground arith)))
