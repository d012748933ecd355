-- ===== src/Pci/Tests.antt =====
-- A bus on which one device has the vendor and the number of the network card, for Kernel/pci.c.
use basic_kernel_implementat.Prelude.{
  ℕ, ◌/◌, ◌%◌, ◌^◌, ◌≡◌, refl, ◌&&◌, List, [], ◌∷◌, ◌==◌, if◌then◌else◌,
}
use basic_kernel_implementat.Network.{Access, in_long, in_word, out_byte, out_word, out_long}
use basic_kernel_implementat.Pci.{config_address, pci_config_read_word, pci_check_offset}

-- In slot 3 of bus 0: the vendor and the number in register 0, the base 0xC001 in register 4.
abbrev space : (bus slot func register : ℕ) → ℕ
space bus slot func register =
    if (bus == 0) && (slot == 3) && (func == 0)
    then if register == 0 then 0x813910EC else if register == 4 then 0xC001 else 0
    else 0xFFFFFFFF

abbrev answer : Access → (port : ℕ) → ℕ
answer (in_long p) port = 0
answer (in_word p) port = 0
answer (out_byte p v) port = 0
answer (out_word p v) port = 0
answer (out_long p a) port =
    space (a / 2 ^ 16 % 2 ^ 8) (a / 2 ^ 11 % 2 ^ 5) (a / 2 ^ 8 % 2 ^ 3) (a / 4 % 2 ^ 6)

abbrev device : List Access → (port : ℕ) → ℕ
device [] port = 0
device (a ∷ log) port = answer a port

pci_check_offset_test : (pci_check_offset device 0 3 0x10EC 0x8139 16 []).0 ≡ 0xC001
unfolding pci_check_offset pci_config_read_word config_address
pci_check_offset_test = refl
