-- ===== src/Pci/Address.antt =====
-- The address of a register tells its bus, device, function and register.
use cxx_kernel.Base.{ℕ, ◌*◌, ◌/◌, ◌%◌, ◌^◌, ◌<◌, ◌≡◌, arith}
use cxx_kernel.Pci.{get_pci_addr}

-- Below 256 busses, 32 devices, 8 functions and 64 registers of four bytes the address is one of 32
-- bits with the highest set, from which each of the four numbers can be read.
pub get_pci_addr-fields :
    (bus device func reg : ℕ)
    → bus < 256
    → device < 32
    → func < 8
    → reg < 64
    → (get_pci_addr bus device func (reg * 4) / 2 ^ 31 ≡ 1)
      × (get_pci_addr bus device func (reg * 4) / 2 ^ 16 % 256 ≡ bus)
      × (get_pci_addr bus device func (reg * 4) / 2 ^ 11 % 32 ≡ device)
      × (get_pci_addr bus device func (reg * 4) / 2 ^ 8 % 8 ≡ func)
      × (get_pci_addr bus device func (reg * 4) % 256 ≡ reg * 4)
unfolding get_pci_addr
get_pci_addr-fields bus device func reg a b c d =
    (omega arith, omega arith, omega arith, omega arith, omega arith)
