-- ===== src/Pci.antt =====
-- Kernel/pci.c: the configuration of the devices on the PCI bus. What a port gives is a parameter
-- (`device`), as for the network card: a function of the accesses before and of the port. searchRTL,
-- which goes through all devices, prints what these functions give.
pub mod Address
mod Tests
use Prim.Native.Nat.{bit_and, bit_or}
use basic_kernel_implementat.Prelude.{ℕ, ◌*◌, ◌/◌, ◌%◌, ◌^◌, List, ◌∷◌, ◌==◌, if◌then◌else◌}
use basic_kernel_implementat.Network.{Access, in_long, out_long}

abbrev pub pci_config_address : ℕ
pci_config_address = 0x0CF8

abbrev pub pci_config_data : ℕ
pci_config_data = 0x0CFC

-- The address that both functions put together; the arguments are bytes.
unfoldable pub config_address : (bus slot func offset : ℕ) → ℕ
config_address bus slot func offset =
    bit_or
      (bit_or (bit_or (bit_or (bus * 2 ^ 16) (slot * 2 ^ 11)) (func * 2 ^ 8)) (bit_and offset 0xfc))
      0x80000000

unfoldable pub active_dma : (bus slot func offset : ℕ) → List Access → List Access
active_dma bus slot func offset log =
    out_long pci_config_data 0x107
    ∷ out_long pci_config_address (config_address bus slot func offset)
    ∷ log

unfoldable pub active_rtl_dma : List Access → List Access
active_rtl_dma log = active_dma 0 3 0 4 log

module _ (device : List Access → (port : ℕ) → ℕ) where
  unfoldable pub pci_config_read_word : (bus slot func offset : ℕ) → List Access → ℕ × List Access
  pci_config_read_word bus slot func offset log =
      let log1 = out_long pci_config_address (config_address bus slot func offset) ∷ log in
      let value = device log1 pci_config_data % 2 ^ 32 in
      (value / 2 ^ (bit_and offset 2 * 8) % 2 ^ 16, in_long pci_config_data ∷ log1)

  -- The second word is read only if the first one is the vendor.
  unfoldable pub pci_check_offset :
      (bus slot vendor_id device_id offset : ℕ) → List Access → ℕ × List Access
  pci_check_offset bus slot vendor_id device_id offset log =
      let r1 = pci_config_read_word bus slot 0 0 log in
      let r2 = pci_config_read_word bus slot 0 2 (r1.1) in
      if r1.0 == vendor_id
      then if r2.0 == device_id
        then pci_config_read_word bus slot 0 (offset % 2 ^ 8) (r2.1)
        else (0, r2.1)
      else (0, r1.1)
