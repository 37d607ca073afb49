-- ===== src/Pci.antt =====
-- The configuration space of the PCI bus (src/pci.cpp). What a register reads as, once its address is
-- put on the bus, is a parameter `config` of the functions that look at devices; they do not write.
-- The allocations of headers do not fail here, and the messages are left out.
pub mod Address
pub mod Search
pub mod Again
use cxx_kernel.Base.{
  ℕ, zero, suc, ◌+◌, ◌-◌, ◌*◌, ◌/◌, ◌%◌, ◌^◌, Bool, true, false, ◌&&◌, ◌||◌, not, List, [], ◌∷◌,
  ◌++◌, Option, some, none, ltb, ◌==◌, if◌then◌else◌,
}

-- Each field stands on bits of its own, so | is a sum.
unfoldable pub get_pci_addr : ℕ → ℕ → ℕ → ℕ → ℕ
get_pci_addr bus device func reg =
    2 ^ 31 + bus % 256 * 2 ^ 16 + device % 32 * 2 ^ 11 + func % 8 * 2 ^ 8 + reg % 256 / 4 * 4

pub record DeviceIterator : Type 0 where
  pub bus : ℕ
  pub dev : ℕ
  pub func : ℕ

unfoldable pub start_iter : DeviceIterator
start_iter = record { bus = 0; dev = 0; func = 0 }

-- What systemPutData is given by setConfig: an address and a byte.
pub record Written : Type 0 where
  pub addr : ℕ
  pub value : ℕ

unfoldable pub set_config : ℕ → ℕ → ℕ → ℕ → ℕ → Written
set_config bus device func reg val = record {
  addr = get_pci_addr bus device func reg;
  value = val % 256;
}

unfoldable pub set : DeviceIterator → ℕ → ℕ → Written
set i reg val = set_config i.bus i.dev i.func reg (val % 256)

-- The registers of a header that the kernel looks at, and where it was read.
pub record Header : Type 0 where
  pub reg : ℕ → ℕ
  pub place : DeviceIterator

abbrev pub vendor : Header → ℕ
vendor h = h.reg 0 % 2 ^ 16

abbrev pub device : Header → ℕ
device h = h.reg 0 / 2 ^ 16

abbrev pub class_code : Header → ℕ
class_code h = h.reg 2 / 2 ^ 24

abbrev pub subclass : Header → ℕ
subclass h = h.reg 2 / 2 ^ 16 % 256

abbrev pub header_type : Header → ℕ
header_type h = h.reg 3 / 2 ^ 16 % 256

abbrev pub is_multi : Header → Bool
is_multi h = not (header_type h / 128 == 0)

-- Which device findNextDevice or findNextDeviceByVendor looks for.
pub data Wanted : Type 0 where
  by_class : ℕ → ℕ → Wanted
  by_vendor : ℕ → ℕ → Wanted

abbrev pub matches : Wanted → Header → Bool
matches (by_class c s) h = class_code h == c && subclass h == s
matches (by_vendor v d) h = vendor h == v && device h == d

module _ (config : ℕ → ℕ) where
  unfoldable pub get_config : ℕ → ℕ → ℕ → ℕ → ℕ
  get_config bus dev func reg = config (get_pci_addr bus dev func reg)

  unfoldable pub get_vendor : ℕ → ℕ → ℕ → ℕ
  get_vendor bus dev func = get_config bus dev func 0 % 2 ^ 16

  unfoldable pub is_device : ℕ → ℕ → ℕ → Bool
  is_device bus dev func = not (get_vendor bus dev func == 0xFFFF)

  unfoldable pub get_device : ℕ → ℕ → ℕ → ℕ
  get_device bus dev func =
      if get_vendor bus dev func == 0xFFFF then 0xFFFF else get_config bus dev func 0 / 2 ^ 16

  unfoldable pub get_header : DeviceIterator → Header
  get_header i = record { reg = λ k. get_config i.bus i.dev i.func (k * 4); place = i }

  unfoldable pub read_value32 : Option Header → ℕ → ℕ
  read_value32 none addr = 0
  read_value32 (some h) addr = get_config h.place.bus h.place.dev h.place.func addr

  unfoldable pub get_current : DeviceIterator → Option Header
  get_current i = if is_device i.bus i.dev i.func then some (get_header i) else none

  -- The loop over the functions of a device, `n` of them to go: a header that is wanted.
  unfoldable pub find_func : Wanted → ℕ → Bool → DeviceIterator → Option Header
  find_func w zero multi i = none
  find_func w (suc n) multi i =
      let h = get_header i in
      let there = is_device i.bus i.dev i.func in
      elim (ltb 0 i.func && not multi) [
        | true ↦ none
        | false ↦ elim (there && matches w h) [
          | true ↦ some h
          | false ↦ find_func w n (multi || there && is_multi h) (record i { func = i.func + 1 })
        ]
      ]

  -- The loop over the devices of a bus, and the one over the busses.
  unfoldable pub find_dev : Wanted → ℕ → DeviceIterator → Option Header
  find_dev w zero i = none
  find_dev w (suc n) i = elim (find_func w (8 - i.func) false i) [
    | some h ↦ some h
    | none ↦ find_dev w n (record i { func = 0; dev = i.dev + 1 })
  ]

  unfoldable pub find_bus : Wanted → ℕ → DeviceIterator → Option Header
  find_bus w zero i = none
  find_bus w (suc n) i = elim (find_dev w (32 - i.dev) i) [
    | some h ↦ some h
    | none ↦ find_bus w n (record i { dev = 0; bus = i.bus + 1 })
  ]

  -- The iterator stays at the device that is found, or stands behind the last bus.
  unfoldable pub find_next_device : Wanted → DeviceIterator → Option Header × DeviceIterator
  find_next_device w i = elim (find_bus w (256 - i.bus) i) [
    | some h ↦ (some h, h.place)
    | none ↦ (none, if ltb i.bus 256 then record { bus = 256; dev = 0; func = 0 } else i)
  ]

  -- scanDevices, as the headers that it lists.
  unfoldable pub scan_func : ℕ → Bool → DeviceIterator → List Header
  scan_func zero multi i = []
  scan_func (suc n) multi i =
      let h = get_header i in
      let there = is_device i.bus i.dev i.func in
      let rest = scan_func n (multi || there && is_multi h) (record i { func = i.func + 1 }) in
      if ltb 0 i.func && not multi then [] else if there then h ∷ rest else rest

  unfoldable pub scan_dev : ℕ → ℕ → ℕ → List Header
  scan_dev zero bus dev = []
  scan_dev (suc n) bus dev =
      scan_func 8 false (record { bus = bus; dev = dev; func = 0 }) ++ scan_dev n bus (dev + 1)

  unfoldable pub scan_bus : ℕ → ℕ → List Header
  scan_bus zero bus = []
  scan_bus (suc n) bus = scan_dev 32 bus 0 ++ scan_bus n (bus + 1)

  unfoldable pub scan_devices : List Header
  scan_devices = scan_bus 256 0
