-- ===== src/Memory/Bits.antt =====
-- Single bits of a 32-bit word, for the macros of Kernel/include/bitmap.h: what `|` with a set
-- mask and `&` with a reset mask do to each bit.
use Prim.Native.Nat.{max, min, bit_and, bit_or, digits, bit_and-bitwise, bit_or-bitwise}
use mathlib.Core.Path.{ap}
use native.Mathlib.Nat.{pow-suc, div-div-eq-div-mul}
use basic_kernel_implementat.Prelude.{
  ℕ, zero, suc, ◌+◌, ◌-◌, ◌*◌, ◌/◌, ◌%◌, ◌^◌, ◌≤◌, ◌<◌, ◌≡◌, refl, Bool, true, ◌&&◌, arith, ◌==◌,
  ==_iff, if◌then◌else◌,
}

-- Bit `j` of a number.
abbrev pub test_bit : ℕ → ℕ → ℕ
test_bit a zero = a % 2
test_bit a (suc j) = test_bit (a / 2) j

-- The count of digits to go does not matter once it covers the first number.
digits_count :
    (f : ℕ → ℕ) (g : ℕ → ℕ → ℕ) (n m a b : ℕ) → a ≤ n → a ≤ m → digits f g n a b ≡ digits f g m a b
digits_count f g zero zero a b p q = refl
digits_count f g zero (suc m) zero b p q = refl
digits_count f g zero (suc m) (suc a) b p q = absurd (omega arith)
digits_count f g (suc n) zero zero b p q = refl
digits_count f g (suc n) zero (suc a) b p q = absurd (omega arith)
digits_count f g (suc n) (suc m) zero b p q = refl
digits_count f g (suc n) (suc m) (suc a) b p q =
    omega (arith, digits_count f g n m (suc a / 2) (b / 2) (omega arith) (omega arith))

-- The lowest digit of `|` and `&`, and the digits above it.
pub bit_or_halves : (a b : ℕ) → bit_or a b ≡ bit_or (a / 2) (b / 2) * 2 + max (a % 2) (b % 2)
bit_or_halves zero b = omega (arith, bit_or-bitwise 0 b, bit_or-bitwise 0 (b / 2))
bit_or_halves (suc a) b = omega (
  arith,
  bit_or-bitwise (suc a) b,
  bit_or-bitwise (suc a / 2) (b / 2),
  digits_count (λ c. c) max a (suc a / 2) (suc a / 2) (b / 2) (omega arith) (omega arith),
)

pub bit_and_halves : (a b : ℕ) → bit_and a b ≡ bit_and (a / 2) (b / 2) * 2 + min (a % 2) (b % 2)
bit_and_halves zero b = omega (arith, bit_and-bitwise 0 b, bit_and-bitwise 0 (b / 2))
bit_and_halves (suc a) b = omega (
  arith,
  bit_and-bitwise (suc a) b,
  bit_and-bitwise (suc a / 2) (b / 2),
  digits_count (λ _. 0) min a (suc a / 2) (suc a / 2) (b / 2) (omega arith) (omega arith),
)

pub test_bit-bit_or : (j a b : ℕ) → test_bit (bit_or a b) j ≡ max (test_bit a j) (test_bit b j)
test_bit-bit_or zero a b = omega (arith, bit_or_halves a b)
test_bit-bit_or (suc j) a b =
    let upper : bit_or a b / 2 ≡ bit_or (a / 2) (b / 2) = omega (arith, bit_or_halves a b) in
    rw upper (test_bit-bit_or j (a / 2) (b / 2))

pub test_bit-bit_and : (j a b : ℕ) → test_bit (bit_and a b) j ≡ min (test_bit a j) (test_bit b j)
test_bit-bit_and zero a b = omega (arith, bit_and_halves a b)
test_bit-bit_and (suc j) a b =
    let upper : bit_and a b / 2 ≡ bit_and (a / 2) (b / 2) = omega (arith, bit_and_halves a b) in
    rw upper (test_bit-bit_and j (a / 2) (b / 2))

pub test_bit-le-one : (j a : ℕ) → test_bit a j ≤ 1
test_bit-le-one zero a = omega arith
test_bit-le-one (suc j) a = test_bit-le-one j (a / 2)

pub bit_and-zero : (n m : ℕ) → m ≤ n → bit_and m 0 ≡ 0
bit_and-zero n zero h = refl
bit_and-zero zero (suc m) h = absurd (omega arith)
bit_and-zero (suc n) (suc m) h =
    omega (arith, bit_and_halves (suc m) 0, bit_and-zero n (suc m / 2) (omega arith))

-- `a >> j & 1`.
pub shift_and_one : (j a : ℕ) → bit_and (a / 2 ^ j) 1 ≡ test_bit a j
shift_and_one zero a =
    rw (shift-zero) (omega (arith, bit_and_halves a 1, bit_and-zero (a / 2) (a / 2) (omega arith)))
  where
    shift-zero : a / 2 ^ 0 ≡ a
    shift-zero = omega arith
shift_and_one (suc j) a = rw shift-suc (shift_and_one j (a / 2))
  where
    shift-suc : a / 2 ^ suc j ≡ a / 2 / 2 ^ j
    shift-suc =
        rw (pow-suc 2 j, div-div-eq-div-mul a 2 (2 ^ j)) (ap (λ (t : ℕ). a / t) (omega arith))

-- A test that holds at each number below a bound, by evaluation.
holds_up_to : (ℕ → Bool) → ℕ → Bool
holds_up_to test zero = true
holds_up_to test (suc top) = holds_up_to test top && test top

table_entry : (test : ℕ → Bool) (top k : ℕ) → k < top → holds_up_to test top ≡ true → test k ≡ true
unfolding holds_up_to
table_entry test zero k below table = absurd (omega arith)
table_entry test (suc top) k below table = ground (arith, table_entry test top k)

-- The two masks at one position, bit by bit, over all 32 positions.
abbrev set_mask_right : ℕ → ℕ → Bool
set_mask_right k j = test_bit (2 ^ k) j == (if k == j then 1 else 0)

abbrev reset_mask_right : ℕ → ℕ → Bool
reset_mask_right k j = test_bit (2 ^ 32 - 1 - 2 ^ k) j == (if k == j then 0 else 1)

set_mask_table : holds_up_to (λ k. holds_up_to (set_mask_right k) 32) 32 ≡ true
unfolding holds_up_to
set_mask_table = refl

reset_mask_table : holds_up_to (λ k. holds_up_to (reset_mask_right k) 32) 32 ≡ true
unfolding holds_up_to
reset_mask_table = refl

pub test_bit-set_mask : (k j : ℕ) → k < 32 → j < 32 → test_bit (2 ^ k) j ≡ (if k == j then 1 else 0)
test_bit-set_mask k j hk hj =
    let row = table_entry (λ i. holds_up_to (set_mask_right i) 32) 32 k hk set_mask_table in
    (==_iff _ _).0 (table_entry (set_mask_right k) 32 j hj row)

pub test_bit-reset_mask :
    (k j : ℕ) → k < 32 → j < 32 → test_bit (2 ^ 32 - 1 - 2 ^ k) j ≡ (if k == j then 0 else 1)
test_bit-reset_mask k j hk hj =
    let row = table_entry (λ i. holds_up_to (reset_mask_right i) 32) 32 k hk reset_mask_table in
    (==_iff _ _).0 (table_entry (reset_mask_right k) 32 j hj row)
