-- ===== src/Prelude/Cells.antt =====
-- Memory as a function from addresses, or an array as a function from indices.
use basic_kernel_implementat.Prelude.Tests.{◌==◌, if◌then◌else◌}
use Prim.Native.Nat.{ℕ}

module _ {ℓ} {A : Type ℓ} where
  -- One cell is written.
  abbrev pub update : (ℕ → A) → ℕ → A → ℕ → A
  update f p v q = if p == q then v else f q
