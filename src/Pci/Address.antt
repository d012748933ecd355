-- ===== src/Pci/Address.antt =====
-- The addresses of Kernel/pci.c, and what they read of the configuration.
use Prim.Native.Nat.{bit_and, bit_or}
use basic_kernel_implementat.Prelude.{
  ℕ, zero, suc, ◌+◌, ◌-◌, ◌*◌, ◌/◌, ◌^◌, ◌≤◌, ◌<◌, ◌≡◌, arith, ◌%◌, refl, ◌∙◌, List, ◌∷◌,
}
use basic_kernel_implementat.Memory.Bits.{bit_or_halves, bit_and_halves}
use basic_kernel_implementat.Network.{Access, out_long}
use basic_kernel_implementat.Pci.{pci_config_data, pci_config_address, config_address}

bit_or-zero : (n a : ℕ) → a ≤ n → bit_or a 0 ≡ a
bit_or-zero n zero h = refl
bit_or-zero zero (suc a) h = absurd (omega arith)
bit_or-zero (suc n) (suc a) h =
    omega (arith, bit_or_halves (suc a) 0, bit_or-zero n (suc a / 2) (omega arith))

-- A number that is shifted by `k` bits.
abbrev shifted : (k c : ℕ) → ℕ
shifted zero c = c
shifted (suc k) c = shifted k c * 2

-- `|` of numbers that share no bit is their sum.
bit_or-add : (k c b : ℕ) → b < shifted k 1 → bit_or (shifted k c) b ≡ shifted k c + b
bit_or-add zero c b h =
    let nothing : b ≡ 0 = omega arith in rw nothing (bit_or-zero c c (omega arith) ∙ omega arith)
bit_or-add (suc k) c b h =
    let half : shifted k c * 2 / 2 ≡ shifted k c = omega arith in
    let rest : bit_or (shifted k c * 2 / 2) (b / 2) ≡ shifted k c + b / 2 =
      rw half (bit_or-add k c (b / 2) (omega arith)) in
    omega (arith, bit_or_halves (shifted k c * 2) b, rest)

-- `&` with as many ones as the number has bits.
bit_and-ones : (k a : ℕ) → a < shifted k 1 → bit_and a (shifted k 1 - 1) ≡ a
bit_and-ones zero a h = let nothing : a ≡ 0 = omega arith in rw nothing refl
bit_and-ones (suc k) a h =
    let half : (shifted k 1 * 2 - 1) / 2 ≡ shifted k 1 - 1 = omega arith in
    let rest : bit_and (a / 2) ((shifted k 1 * 2 - 1) / 2) ≡ a / 2 =
      rw half (bit_and-ones k (a / 2) (omega arith)) in
    omega (arith, bit_and_halves a (shifted k 1 * 2 - 1), rest)

bit_and-register : (offset : ℕ) → offset < 256 → bit_and offset 0xfc ≡ offset / 4 * 4
bit_and-register offset h = omega (
  arith,
  bit_and_halves offset 0xfc,
  bit_and_halves (offset / 2) 0x7e,
  bit_and-ones 6 (offset / 2 / 2) (omega arith),
)

zero-bit_or : (n b : ℕ) → b ≤ n → bit_or 0 b ≡ b
zero-bit_or n zero h = refl
zero-bit_or zero (suc b) h = absurd (omega arith)
zero-bit_or (suc n) (suc b) h =
    omega (arith, bit_or_halves 0 (suc b), zero-bit_or n (suc b / 2) (omega arith))

add-bit_or : (k a c : ℕ) → a < shifted k 1 → bit_or a (shifted k c) ≡ a + shifted k c
add-bit_or zero a c h =
    let nothing : a ≡ 0 = omega arith in rw nothing (zero-bit_or c c (omega arith) ∙ omega arith)
add-bit_or (suc k) a c h =
    let half : shifted k c * 2 / 2 ≡ shifted k c = omega arith in
    let rest : bit_or (a / 2) (shifted k c * 2 / 2) ≡ a / 2 + shifted k c =
      rw half (add-bit_or k (a / 2) c (omega arith)) in
    omega (arith, bit_or_halves a (shifted k c * 2), rest)

-- Each part of the address has bits of its own.
pub config_address_lem :
    (bus slot func offset : ℕ)
    → bus < 2 ^ 8
    → slot < 2 ^ 5
    → func < 2 ^ 3
    → offset < 2 ^ 8
    → config_address bus slot func offset
      ≡ 2 ^ 31 + bus * 2 ^ 16 + slot * 2 ^ 11 + func * 2 ^ 8 + offset / 4 * 4
unfolding config_address
config_address_lem bus slot func offset hb hs hf ho =
    let first : bit_or (bus * 2 ^ 16) (slot * 2 ^ 11) ≡ bus * 2 ^ 16 + slot * 2 ^ 11 =
      let e : shifted 16 bus ≡ bus * 2 ^ 16 = omega arith in
      rw (← e) (bit_or-add 16 bus (slot * 2 ^ 11) (omega arith)) in
    let second : bit_or (bus * 2 ^ 16 + slot * 2 ^ 11) (func * 2 ^ 8)
        ≡ bus * 2 ^ 16 + slot * 2 ^ 11 + func * 2 ^ 8 =
      let e : shifted 11 (bus * 32 + slot) ≡ bus * 2 ^ 16 + slot * 2 ^ 11 = omega arith in
      rw (← e) (bit_or-add 11 (bus * 32 + slot) (func * 2 ^ 8) (omega arith)) in
    let low = bus * 2 ^ 16 + slot * 2 ^ 11 + func * 2 ^ 8 in
    let third : bit_or low (offset / 4 * 4) ≡ low + offset / 4 * 4 =
      let e : shifted 8 (bus * 256 + slot * 8 + func) ≡ low = omega arith in
      rw (← e) (bit_or-add 8 (bus * 256 + slot * 8 + func) (offset / 4 * 4) (omega arith)) in
    rw (bit_and-register offset ho, first, second, third)
      (add-bit_or 31 (low + offset / 4 * 4) 1 (omega arith) ∙ omega arith)

-- The ports give the configuration: the data are those of the register whose address was written last.
abbrev pub IsConfiguration :
    (space : (bus slot func register : ℕ) → ℕ) (device : List Access → ℕ → ℕ) → Type 0
IsConfiguration space device =
    (a : ℕ) (log : List Access)
    → device (out_long pci_config_address a ∷ log) pci_config_data
      ≡ space (a / 2 ^ 16 % 2 ^ 8) (a / 2 ^ 11 % 2 ^ 5) (a / 2 ^ 8 % 2 ^ 3) (a / 4 % 2 ^ 6)
