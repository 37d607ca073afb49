-- ===== src/Ata/Detect.antt =====
-- The detection of a drive, which sets its fields.
use cxx_kernel.Base.{
  ℕ, zero, suc, ◌+◌, ◌-◌, ◌*◌, ◌%◌, ◌^◌, Bool, true, false, ◌&&◌, ◌||◌, not, ltb, ◌==◌,
  if◌then◌else◌,
}
use cxx_kernel.Bits.{bit}
use cxx_kernel.Ata.{
  Bus, Drive, State, DeviceModel, storage_unknown, storage_pata, storage_patapi, storage_sata,
  storage_satapi, Reply, yes, no, trap, lba_port, command, control, write, sleep, wait, get_status,
  reset, select, read_buffer, max_wait_cnt,
}

unfoldable pub new_drive : Drive
new_drive = record {
  base_port = 0;
  base_port2 = 0;
  size = 0;
  irq = false;
  avail = false;
  lba = false;
  lba48 = false;
  dma = false;
  kind = 0;
  model = storage_unknown;
  mode = 0;
  cyl = 0;
  sect = 0;
  head = 0;
}

unfoldable pub model_of : ℕ → ℕ → DeviceModel
model_of low high =
    if low == 0x14 && high == 0xEB
    then storage_patapi
    else if low == 0x69 && high == 0x96
    then storage_satapi
    else if low == 0 && high == 0
    then storage_pata
    else if low == 0x3c && high == 0xc3
    then storage_sata
    else storage_unknown

abbrev pub is_unknown : DeviceModel → Bool
is_unknown storage_unknown = true
is_unknown _ = false

-- A number of two bytes of the buffer, and one of four.
abbrev pub word_at : (ℕ → ℕ) → ℕ → ℕ
word_at m p = m p + m (p + 1) * 2 ^ 8

abbrev pub long_at : (ℕ → ℕ) → ℕ → ℕ
long_at m p = word_at m p + word_at m (p + 2) * 2 ^ 16

-- m_lba, the geometry and m_size from the answer of the drive, whose bytes are `m`; products of
-- cylinders, heads and sectors are those of an int.
unfoldable pub take_answer : (ℕ → ℕ) → Drive → Drive
take_answer m d =
    let d' = if bit (word_at m 98) 9 == 0 then d else record d { lba = true; mode = 0x40 } in
    let cyl = word_at m 2 in
    let sect = m 12 in
    let head = m 6 in
    let chs_size = ((cyl * head + head) * sect + (sect - 1)) * 512 % 2 ^ 32 in
    if d'.lba then record d' { size = long_at m 120 * 512 % 2 ^ 32; avail = true } else record d' {
      sect = sect;
      cyl = cyl;
      head = head;
      size = if ltb 0 sect then chs_size else 0;
      avail = true;
    }

module _ {D : Type 0} (bus : Bus D) where
  unfoldable pub identify : State D → Reply (State D)
  identify s =
      let t = select bus 0 s in
      let (status, u) = get_status bus (wait bus (write bus (command t.drive) 0xEC t)) in
      if status == 0xFF || status == 0x7F then no u else yes u

  unfoldable pub detect_model : State D → State D
  detect_model s =
      let (low, d1) = bus.port_in (lba_port 1 s.drive) s.device in
      let (high, d2) = bus.port_in (lba_port 2 s.drive) d1 in
      record s { device = d2; drive = record s.drive { model = model_of low high } }

  -- The loop of detect, with `n` further rounds: whether the drive reported an error, or no answer.
  unfoldable pub await_answer : ℕ → State D → Reply (Bool × State D)
  await_answer zero s =
      let (status, t) = get_status bus s in
      if not (bit status 0 == 0)
      then yes (true, t)
      else if bit status 7 == 0 && not (bit status 3 == 0)
      then yes (false, t)
      else no (false, t)
  await_answer (suc n) s =
      let (status, t) = get_status bus s in
      elim (not (bit status 0 == 0)) [
        | true ↦ yes (true, t)
        | false ↦ elim (bit status 7 == 0 && not (bit status 3 == 0)) [
          | true ↦ yes (false, t)
          | false ↦ await_answer n t
        ]
      ]

  -- The rest of detect, whose buffer on the stack is at `buf`.
  unfoldable pub answered : ℕ → Bool → State D → State D
  answered buf error s =
      let t = detect_model s in
      let asked = if error then sleep bus (write bus (command t.drive) 0xA1 t) else t in
      let u = read_buffer bus 32 buf asked in
      if is_unknown t.drive.model
      then t
      else record u { drive = take_answer (λ i. u.memory (buf + i)) u.drive }

  unfoldable pub detect_answer : ℕ → Reply (Bool × State D) → State D
  detect_answer buf (yes (error, t)) = answered buf error t
  detect_answer buf (no (error, t)) = record t { drive = record t.drive { avail = false } }
  detect_answer buf (trap (error, t)) = t

  unfoldable pub detect_drive : ℕ → Reply (State D) → State D
  detect_drive buf (yes s) = detect_answer buf (await_answer (max_wait_cnt + 1) s)
  detect_drive buf (no s) = record s { drive = record s.drive { avail = false } }
  detect_drive buf (trap s) = s

  unfoldable pub detect_reset : ℕ → Reply (State D) → State D
  detect_reset buf (yes s) = detect_drive buf (identify s)
  detect_reset buf (no s) = s
  detect_reset buf (trap s) = s

  unfoldable pub detect : ℕ → State D → State D
  detect buf s =
      let t = record s { drive = record s.drive { mode = 0 } } in
      let u = write bus (control t.drive) (if t.drive.irq then 0 else 2) t in
      if s.drive.avail || s.drive.base_port == 0 then s else detect_reset buf (reset bus u)

  unfoldable pub setup : ℕ → ℕ → ℕ → ℕ → State D → State D
  setup buf pri sec kind s =
      detect buf
        (record s { drive = record s.drive { base_port = pri; base_port2 = sec; kind = kind } })
