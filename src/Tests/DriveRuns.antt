-- ===== src/Tests/DriveRuns.antt =====
-- Drives on a bus that counts the words that are read, and on one without a drive.
use cxx_kernel.Base.{
  ap, ◌∙◌, inl, Bool, not, ◌&&◌, [], ◌∷◌, Ensures, done, ◌==◌, if◌then◌else◌, ℕ, ◌+◌, ◌*◌, ◌^◌, ◌≡◌,
  inr, true, false, refl, arith,
}
use cxx_kernel.Bits.{bit}
use cxx_kernel.LinkedList.Chain.{Chain}
use cxx_kernel.Storage.{Storage, add_device, num_devices}
use cxx_kernel.Storage.Devices.{add_device-append}
use cxx_kernel.Ata.{Bus, Drive, State, yes, left}
use cxx_kernel.Ata.Commands.{prepare_access, read_sectors, read_sector, write_sector}
use cxx_kernel.Ata.Detect.{new_drive}
use cxx_kernel.Ata.Locate.{HasGeometry}
use cxx_kernel.Ata.Latches.{HasLatches}
use cxx_kernel.Ata.Registers.{sector_at, prepare_access-denoted}
use cxx_kernel.Ata.Errors.{Refused, floating-Refused}
use cxx_kernel.Ata.Outside.{read_sector-outside}
use cxx_kernel.Ata.Ready.{IsReady}
use cxx_kernel.Ata.Transfer.{IsStream, Written, read_sectors-Written}

abbrev counting_bus : Bus ℕ
counting_bus = record {
  port_in = λ p d. (0x58, d);
  port_in16 = λ p d. (d, d + 1);
  port_out = λ p v d. d;
  port_out32 = λ p v d. d;
  msleep = λ n d. d;
}

abbrev floating_bus : Bus ℕ
floating_bus = record counting_bus { port_in = λ p d. (0xFF, d) }

abbrev old_drive : Drive
old_drive = record {
  base_port = 0x1F0;
  base_port2 = 0x3F4;
  size = 0;
  irq = false;
  avail = true;
  lba = false;
  lba48 = false;
  dma = false;
  kind = 0;
  model = new_drive.model;
  mode = 0;
  cyl = 615;
  sect = 17;
  head = 4;
}

abbrev old_state : State ℕ
old_state = record { drive = old_drive; device = 0; memory = λ a. 7 }

old_drive-HasGeometry : HasGeometry old_drive 1000
old_drive-HasGeometry = record {
  heads = omega arith;
  sects = omega arith;
  small_head = omega arith;
  small_sect = omega arith;
  reached = omega arith;
}

-- A bus that keeps the last two bytes written to each port but the control port.
abbrev latch_out : ℕ → ℕ → (ℕ → ℕ × ℕ) → ℕ → ℕ × ℕ
latch_out p v d q = if q == p && not (p == 0x3F6) then (v, (d p).0) else d q

abbrev latch_bus : Bus (ℕ → ℕ × ℕ)
latch_bus = record {
  port_in = λ p d. (0x58, d);
  port_in16 = λ p d. (0, d);
  port_out = latch_out;
  port_out32 = λ p v d. d;
  msleep = λ n d. d;
}

abbrev latch_state : State (ℕ → ℕ × ℕ)
latch_state = record { drive = old_drive; device = λ p. (0, 0); memory = λ a. 7 }

abbrev latch_at : ℕ → (ℕ → ℕ × ℕ) → ℕ × ℕ
latch_at i d = d (0x1F0 + i)

latch_bus-IsReady : IsReady latch_bus
unfolding bit
latch_bus-IsReady = record {
  not_busy = λ p d. refl;
  has_data = λ p d. refl;
  no_error = λ p d. refl;
  no_fault = λ p d. refl;
}

latch_bus-HasLatches : HasLatches latch_bus latch_at 0x1F0 0x3F6
latch_bus-HasLatches = record {
  takes = λ p i v x e a b.
      let hit : (0x1F0 + i == p && not (p == 0x3F6)) ≡ true = ground (arith, e, b) in
      ap (λ (c : Bool). if c then (v, (x p).0) else x (0x1F0 + i)) hit
      ∙ ap (λ (n : ℕ). (v, (x n).0)) e;
  keeps = λ p i k v x e a b n.
      let miss : (0x1F0 + k == p && not (p == 0x3F6)) ≡ false = ground (arith, e, n) in
      ap (λ (c : Bool). if c then (v, (x p).0) else x (0x1F0 + k)) miss;
  keeps_control = λ k v x.
      let miss : (0x1F0 + k == 0x3F6 && false) ≡ false = ground arith in
      ap (λ (c : Bool). if c then (v, (x 0x3F6).0) else x (0x1F0 + k)) miss;
  quiet_in = λ p k x. refl;
  quiet_sleep = λ n k x. refl;
}

prepare_access-denoted_example :
    (t : State (ℕ → ℕ × ℕ)) × (prepare_access latch_bus 1 1000 0 latch_state ≡ yes t)
    × (sector_at old_drive t.drive.lba48 (λ k. latch_at k t.device) ≡ 1000 + 0 * 2 ^ 32)
prepare_access-denoted_example =
    prepare_access-denoted latch_bus latch_at 1 1000 0 latch_state latch_bus-IsReady
      latch_bus-HasLatches (record { mode_set = refl; one_of_two = inl refl }) (omega arith)
      (omega arith) (inr (refl, old_drive-HasGeometry))

read_sector-outside_example :
    (left (read_sector counting_bus 512 2 1000 0 old_state)).memory 2000 ≡ 7
read_sector-outside_example =
    read_sector-outside counting_bus 2000 512 2 1000 0 old_state (inr (omega arith))

floating-Refused_example :
    Refused old_state (read_sector floating_bus 512 2 1000 0 old_state)
    × Refused old_state (write_sector floating_bus 512 2 1000 0 old_state)
floating-Refused_example = floating-Refused floating_bus (λ p d. refl) 512 2 1000 0 old_state

counting_words : ℕ → ℕ → ℕ
counting_words d i = d + i

counting-IsStream : IsStream counting_bus counting_words 0x1F0
unfolding counting_words
counting-IsStream = record {
  first = λ d. omega arith;
  rest = λ d i. omega arith;
  quiet_in = λ p d i. refl;
  quiet_sleep = λ n d i. refl;
}

counting-IsReady : IsReady counting_bus
unfolding bit
counting-IsReady = record {
  not_busy = λ p d. refl;
  has_data = λ p d. refl;
  no_error = λ p d. refl;
  no_fault = λ p d. refl;
}

read_sectors-Written_example :
    (t : State ℕ) × (read_sectors counting_bus 2 512 old_state ≡ yes t)
    × Written t.memory 512 (counting_words 0) 512
read_sectors-Written_example =
    read_sectors-Written counting_bus counting_words 2 512 old_state counting-IsReady
      counting-IsStream

abbrev two_devices : Storage
two_devices = record { devices = 5; next = λ a. if a == 5 then 9 else 0 }

add_device-append_example :
    Ensures
      (add_device 3 4 two_devices)
      (λ t. Chain t.next t.devices (5 ∷ 9 ∷ 4 ∷ []) × (num_devices 3 t ≡ done 3))
add_device-append_example =
    add_device-append 3 4 two_devices (5 ∷ 9 ∷ []) (omega arith) (omega arith)
      (refl, λ e. omega arith, (refl, λ e. omega arith, refl)) (λ a. ground arith)
      (λ e. omega arith) refl refl
