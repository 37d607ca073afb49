-- ===== src/Tests/BusRuns.antt =====
-- A PCI bus with one device, a disc controller at 0:1.0.
use cxx_kernel.Base.{ℕ, ◌+◌, ◌/◌, ◌^◌, ◌<◌, ◌≡◌, ◌⊎◌, some, none, refl, ◌==◌, if◌then◌else◌}
use cxx_kernel.Pci.{
  get_pci_addr, DeviceIterator, start_iter, Header, by_class, get_header, get_config, is_device,
  get_vendor, find_next_device, find_bus, find_dev, find_func,
}
use cxx_kernel.Pci.Search.{IsHit, Lacks, find_next_device-Searched}
use cxx_kernel.Pci.Again.{find_next_device-again}

abbrev one_device : ℕ → ℕ
one_device a =
    if a == 2 ^ 31 + 2 ^ 11
    then 0x70108086
    else if a == 2 ^ 31 + 2 ^ 11 + 8
    then 0x01018000
    else if a / 2 ^ 11 == 2 ^ 20 + 1
    then 0
    else 0xFFFFFFFF

find_next_device-Searched_example :
    ((h : Header) × (find_next_device one_device (by_class 1 1) start_iter ≡ (some h, h.place))
      × IsHit one_device (by_class 1 1) h)
    ⊎ (((find_next_device one_device (by_class 1 1) start_iter).0 ≡ none)
        × ((b d : ℕ) → b < 256 → d < 32 → Lacks one_device (by_class 1 1) b d))
find_next_device-Searched_example = find_next_device-Searched one_device (by_class 1 1)

abbrev controller : DeviceIterator
controller = record { bus = 0; dev = 1; func = 0 }

found :
    find_next_device one_device (by_class 1 1) start_iter
    ≡ (some (get_header one_device controller), controller)
unfolding find_next_device find_bus find_dev find_func start_iter is_device get_vendor get_config
    get_header get_pci_addr
found = refl

find_next_device-again_example :
    find_next_device one_device (by_class 1 1) controller
    ≡ (some (get_header one_device controller), controller)
find_next_device-again_example =
    find_next_device-again one_device (by_class 1 1) start_iter controller
      (get_header one_device controller) found refl
