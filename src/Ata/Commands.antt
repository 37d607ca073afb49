-- ===== src/Ata/Commands.antt =====
-- prepareAccess, readSector and writeSector, and the calls of ATA.
use cxx_kernel.Base.{
  ℕ, zero, suc, ◌+◌, ◌-◌, ◌*◌, ◌/◌, ◌%◌, ◌^◌, Bool, true, false, ◌||◌, Option, some, none, ltb, leb,
  ◌==◌, if◌then◌else◌,
}
use cxx_kernel.Ata.{
  Bus, Drive, State, ◌>?◌, Reply, yes, no, trap, left, sec_count, lba_port, command, control, write,
  wait, wait_status, wait_status_bit, reset, select, read_buffer, write_buffer, poll,
}

-- io_addr and head of prepareAccess, and whether the access is one of 48 bits.
pub record Position : Type 0 where
  pub io0 : ℕ
  pub io1 : ℕ
  pub io2 : ℕ
  pub io3 : ℕ
  pub io4 : ℕ
  pub io5 : ℕ
  pub head : ℕ
  pub lba48 : Bool

unfoldable pub locate_lba48 : ℕ → ℕ → Position
locate_lba48 addr addr_hi = record {
  io0 = addr % 256;
  io1 = addr / 2 ^ 8 % 256;
  io2 = addr / 2 ^ 16 % 256;
  io3 = addr / 2 ^ 24 % 256;
  io4 = addr_hi % 256;
  io5 = addr_hi / 2 ^ 8 % 256;
  head = 0;
  lba48 = true;
}

unfoldable pub locate_lba : ℕ → Position
locate_lba addr = record {
  io0 = addr % 256;
  io1 = addr / 2 ^ 8 % 256;
  io2 = addr / 2 ^ 16 % 256;
  io3 = 0;
  io4 = 0;
  io5 = 0;
  head = addr / 2 ^ 24 % 16;
  lba48 = false;
}

unfoldable pub locate_chs : Drive → ℕ → Option Position
locate_chs d addr =
    let sect = if ltb 0 d.sect then (addr % d.sect + 1) % 256 else 0 in
    let per_cyl = d.head * d.sect in
    let rest = addr + 1 - sect in
    let cyl = rest / per_cyl % 2 ^ 16 in
    if per_cyl == 0
    then none
    else some (record {
      io0 = sect;
      io1 = cyl % 256;
      io2 = cyl / 2 ^ 8 % 256;
      io3 = 0;
      io4 = 0;
      io5 = 0;
      head = rest % per_cyl / d.sect % 256;
      lba48 = false;
    })

-- None is the division by 0 of a drive without heads or sectors.
unfoldable pub locate : Drive → ℕ → ℕ → Option Position
locate d addr addr_hi =
    if leb 0x10000000 addr || ltb 0 addr_hi
    then some (locate_lba48 addr addr_hi)
    else if d.lba
    then some (locate_lba addr)
    else locate_chs d addr

-- One of four commands, for the values of m_lba48 and m_dma.
abbrev pub pick : ℕ → ℕ → ℕ → ℕ → Drive → ℕ
pick dma48 dma pio48 pio d =
    if d.dma then if d.lba48 then dma48 else dma else if d.lba48 then pio48 else pio

module _ {D : Type 0} (bus : Bus D) where
  -- setHi, whose condition is never 0, and setLo.
  abbrev pub set_hi : State D → State D
  set_hi s = write bus (control s.drive) 0 s

  abbrev pub set_lo : State D → State D
  set_lo s = write bus (control s.drive) (if s.drive.irq then 0 else 2) s

  abbrev pub write_hi : ℕ → ℕ → State D → State D
  write_hi port v s = set_lo (write bus port v (set_hi s))

  unfoldable pub write_hi_all : Position → State D → State D
  write_hi_all p s =
      let d = s.drive in
      write_hi (lba_port 2 d) p.io5
        (write_hi (lba_port 1 d) p.io4 (write_hi (lba_port 0 d) p.io3 (write_hi (sec_count d) 0 s)))

  unfoldable pub write_position : ℕ → Position → State D → State D
  write_position sectors p s =
      let d = s.drive in
      let t = set_lo (if p.lba48 then write_hi_all p s else s) in
      write bus (lba_port 2 d) p.io2 (
        write bus (lba_port 1 d) p.io1
          (write bus (lba_port 0 d) p.io0 (write bus (sec_count d) sectors t)))

  -- prepareAccess, from the position on.
  unfoldable pub prepare_found : ℕ → Option Position → State D → Reply (State D)
  prepare_found sectors none s = trap s
  prepare_found sectors (some p) s =
      let t = record s { drive = record s.drive { lba48 = p.lba48 } } in
      wait_status bus t
      >? (λ u. wait_status bus (select bus p.head u))
      >? (λ u. yes (write_position sectors p u))

  unfoldable pub prepare_access : ℕ → ℕ → ℕ → State D → Reply (State D)
  prepare_access sectors addr addr_hi s =
      reset bus (record s { drive = record s.drive { lba48 = false } })
      >? (λ t. prepare_found sectors (locate t.drive addr addr_hi) t)

  unfoldable pub read_sectors : ℕ → ℕ → State D → Reply (State D)
  read_sectors zero buffer s = yes s
  read_sectors (suc n) buffer s =
      poll bus true s >? (λ t. read_sectors n (buffer + 512) (read_buffer bus 128 buffer t))

  unfoldable pub read_data : ℕ → ℕ → State D → Reply (State D)
  read_data sectors buffer s =
      if s.drive.dma then yes s else read_sectors sectors buffer s >? (λ t. yes (wait bus t))

  unfoldable pub read_sector : ℕ → ℕ → ℕ → ℕ → State D → Reply (State D)
  read_sector buffer sectors addr addr_hi s =
      if buffer == 0
      then no s
      else prepare_access sectors addr addr_hi s
        >? (λ t.
            wait_status_bit bus 0 0
              (write bus (command t.drive) (pick 0x25 0xC8 0x24 0x20 t.drive) t))
        >? wait_status_bit bus 3 1
        >? read_data sectors buffer

  unfoldable pub write_sectors : ℕ → ℕ → State D → Reply (State D)
  write_sectors zero buffer s = yes s
  write_sectors (suc n) buffer s =
      poll bus false s >? (λ t. write_sectors n (buffer + 512) (write_buffer bus 128 buffer t))

  -- The flush at the end, whose poll is not looked at.
  unfoldable pub flush : State D → State D
  flush s =
      left (poll bus false (write bus (command s.drive) (if s.drive.lba48 then 0xEA else 0xE7) s))

  unfoldable pub write_data : ℕ → ℕ → State D → Reply (State D)
  write_data sectors buffer s =
      if s.drive.dma then yes s else write_sectors sectors buffer s >? (λ t. yes (flush t))

  unfoldable pub write_sector : ℕ → ℕ → ℕ → ℕ → State D → Reply (State D)
  write_sector buffer sectors addr addr_hi s =
      if buffer == 0
      then no s
      else prepare_access sectors addr addr_hi s >? (λ t.
        write_data sectors buffer
          (write bus (command t.drive) (pick 0x35 0xCA 0x34 0x30 t.drive) t))

  -- ATA::select; its buffer of one sector is at `tmp`.
  unfoldable pub select_device : ℕ → State D → State D
  select_device tmp s = left (read_sector tmp 1 0 0 (select bus 0 s))

  -- ATAPhys::read and ATAPhys::write
  unfoldable pub phys_read : ℕ → ℕ → ℕ → ℕ → ℕ → State D → Reply (State D)
  phys_read tmp buffer sectors pos pos_hi s =
      read_sector buffer (sectors % 2 ^ 16) (pos / 512) pos_hi (select_device tmp s)

  unfoldable pub phys_write : ℕ → ℕ → ℕ → ℕ → ℕ → State D → Reply (State D)
  phys_write tmp buffer sectors pos pos_hi s =
      write_sector buffer (sectors % 2 ^ 16) (pos / 512) pos_hi (select_device tmp s)
