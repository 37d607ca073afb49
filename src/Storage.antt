-- ===== src/Storage.antt =====
-- The list of devices of a Storage (inc/storage.hh, src/storage.cpp). `next` is Device::next of each
-- device; the loops run on fuel.
pub mod Devices
use cxx_kernel.Base.{
  ℕ, zero, suc, ◌+◌, ◌%◌, ◌^◌, Bool, true, false, Outcome, done, no_fuel, ◌>>=◌, ◌==◌,
  if◌then◌else◌, update,
}

pub record Storage : Type 0 where
  pub devices : ℕ
  pub next : ℕ → ℕ

unfoldable pub new_storage : (ℕ → ℕ) → Storage
new_storage next = record { devices = 0; next = next }

-- while (tmp_dev->next != nullptr) tmp_dev = tmp_dev->next;
unfoldable pub last_device : ℕ → (ℕ → ℕ) → ℕ → Outcome ℕ
last_device zero next p = no_fuel
last_device (suc f) next p =
    let rest = last_device f next (next p) in if next p == 0 then done p else rest

unfoldable pub add_device : ℕ → ℕ → Storage → Outcome Storage
add_device f dev s =
    if dev == 0
    then done s
    else if s.devices == 0
    then done (record s { devices = dev })
    else last_device f s.next s.devices >>= (λ p. done (record s { next = update s.next p dev }))

unfoldable pub count_devices : ℕ → (ℕ → ℕ) → ℕ → ℕ → Outcome ℕ
count_devices zero next p num = no_fuel
count_devices (suc f) next p num =
    let rest = count_devices f next (next p) ((num + 1) % 2 ^ 32) in
    if next p == 0 then done num else rest

unfoldable pub num_devices : ℕ → Storage → Outcome ℕ
num_devices f s = if s.devices == 0 then done 0 else count_devices f s.next s.devices 1

unfoldable pub get_device : Storage → ℕ
get_device s = s.devices

unfoldable pub next_device : ℕ → Storage → ℕ
next_device dev s = if dev == 0 then 0 else s.next dev
