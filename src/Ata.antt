-- ===== src/Ata.antt =====
-- The driver of ATA drives (src/ata.cpp), on the ports of the machine: a Bus is what the functions
-- systemPortIn and so on and the timer do with the devices, whose state is a type D.
pub mod Commands
pub mod Detect
pub mod Locate
pub mod Outside
pub mod Errors
pub mod Ready
pub mod Transfer
pub mod Latches
pub mod Selector
pub mod Registers
use Prim.Native.Nat.{bit_or}
use cxx_kernel.Base.{
  ℕ, zero, suc, ◌+◌, ◌-◌, ◌*◌, ◌/◌, ◌%◌, ◌^◌, Bool, true, false, ◌&&◌, ◌||◌, not, ltb, leb, ◌==◌,
  if◌then◌else◌, update,
}
use cxx_kernel.Bits.{bit}

pub record Bus (D : Type 0) : Type 0 where
  pub port_in : ℕ → D → ℕ × D
  pub port_in16 : ℕ → D → ℕ × D
  pub port_out : ℕ → ℕ → D → D
  pub port_out32 : ℕ → ℕ → D → D
  pub msleep : ℕ → D → D

pub data DeviceModel : Type 0 where
  storage_unknown : DeviceModel
  storage_pata : DeviceModel
  storage_patapi : DeviceModel
  storage_sata : DeviceModel
  storage_satapi : DeviceModel
  storage_usb : DeviceModel

-- DevicePrivate; kind is the value of m_type.
pub record Drive : Type 0 where
  pub base_port : ℕ
  pub base_port2 : ℕ
  pub size : ℕ
  pub irq : Bool
  pub avail : Bool
  pub lba : Bool
  pub lba48 : Bool
  pub dma : Bool
  pub kind : ℕ
  pub model : DeviceModel
  pub mode : ℕ
  pub cyl : ℕ
  pub sect : ℕ
  pub head : ℕ

-- A drive, the devices behind the ports, and the bytes of the memory.
pub record State (D : Type 0) : Type 0 where
  pub drive : Drive
  pub device : D
  pub memory : ℕ → ℕ

-- How a call ends: it returns true, it returns false, or it is stopped by a division by 0.
pub data Reply (S : Type 0) : Type 0 where
  yes : S → Reply S
  no : S → Reply S
  trap : S → Reply S

-- if (!...) return false;
infixl 5 ◌>?◌
abbrev pub ◌>?◌ : {S : Type 0} → Reply S → (S → Reply S) → Reply S
yes s >? f = f s
no s >? f = no s
trap s >? f = trap s

-- The state in which a call ends.
abbrev pub left : {S : Type 0} → Reply S → S
left (yes s) = s
left (no s) = s
left (trap s) = s

abbrev pub sec_count : Drive → ℕ
sec_count d = d.base_port + 2

-- LBA0, LBA1 and LBA2 are the ports of LBA3, LBA4 and LBA5 too.
abbrev pub lba_port : ℕ → Drive → ℕ
lba_port i d = d.base_port + 3 + i

abbrev pub dev_sel : Drive → ℕ
dev_sel d = d.base_port + 6

-- command() and status() are one port.
abbrev pub command : Drive → ℕ
command d = d.base_port + 7

abbrev pub control : Drive → ℕ
control d = d.base_port2 + 2

abbrev pub max_wait_cnt : ℕ
max_wait_cnt = 0xFFF

module _ {D : Type 0} (bus : Bus D) where
  abbrev pub write : ℕ → ℕ → State D → State D
  write port v s = record s { device = bus.port_out port (v % 256) s.device }

  abbrev pub sleep : State D → State D
  sleep s = record s { device = bus.msleep 1 s.device }

  -- A read whose value is not used.
  abbrev pub touch : ℕ → State D → State D
  touch port s = record s { device = (bus.port_in port s.device).1 }

  abbrev pub get_status : State D → ℕ × State D
  get_status s = let r = bus.port_in (command s.drive) s.device in (r.0, record s { device = r.1 })

  unfoldable pub wait_reads : ℕ → State D → State D
  wait_reads zero s = s
  wait_reads (suc n) s = wait_reads n (touch (control s.drive) s)

  unfoldable pub wait : State D → State D
  wait s = sleep (wait_reads 5 s)

  -- The first loop of waitStatus, with `n` further reads.
  unfoldable pub wait_busy : ℕ → State D → Reply (State D)
  wait_busy zero s = no (get_status s).1
  wait_busy (suc n) s = elim (bit (get_status s).0 7 == 0) [
    | true ↦ yes (get_status s).1
    | false ↦ wait_busy n (get_status s).1
  ]

  -- The second loop, which waits for the bit `k` of the status to be `want`.
  unfoldable pub wait_bit : ℕ → ℕ → ℕ → State D → Reply (State D)
  wait_bit k want zero s = no (get_status s).1
  wait_bit k want (suc n) s = elim (bit (get_status s).0 k == want) [
    | true ↦ yes (wait (get_status s).1)
    | false ↦ wait_bit k want n (wait (get_status s).1)
  ]

  -- waitStatus(), and waitStatus(1 << k, want << k).
  unfoldable pub wait_status : State D → Reply (State D)
  wait_status s = wait_busy (max_wait_cnt + 1) s

  unfoldable pub wait_status_bit : ℕ → ℕ → State D → Reply (State D)
  wait_status_bit k want s = wait_status s >? wait_bit k want (max_wait_cnt + 1)

  unfoldable pub reset : State D → Reply (State D)
  reset s = wait_status (wait (write (command s.drive) 0 (write (command s.drive) 4 s)))

  -- Each of the values joined by | here is below 256.
  unfoldable pub select : ℕ → State D → State D
  select head s = wait (
      write (dev_sel s.drive) (bit_or (bit_or (bit_or 0xA0 s.drive.mode) (s.drive.kind * 16)) head)
        s)

  -- a + (b << 16) in four bytes of the memory, for each of `n` words.
  unfoldable pub read_buffer : ℕ → ℕ → State D → State D
  read_buffer zero ptr s = s
  read_buffer (suc n) ptr s =
      let (a, d1) = bus.port_in16 s.drive.base_port s.device in
      let (b, d2) = bus.port_in16 s.drive.base_port d1 in
      let m1 = update (update s.memory ptr (a % 256)) (ptr + 1) (a / 256 % 256) in
      let m2 = update (update m1 (ptr + 2) (b % 256)) (ptr + 3) (b / 256 % 256) in
      read_buffer n (ptr + 4) (record s { device = d2; memory = m2 })

  unfoldable pub write_buffer : ℕ → ℕ → State D → State D
  write_buffer zero ptr s = s
  write_buffer (suc n) ptr s =
      let m = s.memory in
      let v = m ptr + m (ptr + 1) * 2 ^ 8 + m (ptr + 2) * 2 ^ 16 + m (ptr + 3) * 2 ^ 24 in
      write_buffer n (ptr + 4) (record s { device = bus.port_out32 s.drive.base_port v s.device })

  -- No error, no fault, and data to transfer.
  abbrev pub check_status : State D → Reply (State D)
  check_status s =
      let (status, t) = get_status s in
      if bit status 0 == 0 && (bit status 5 == 0 && not (bit status 3 == 0)) then yes t else no t

  unfoldable pub poll : Bool → State D → Reply (State D)
  poll extra s = wait_status (wait s) >? (λ t. if extra then check_status t else yes t)
