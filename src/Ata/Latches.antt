-- ===== src/Ata/Latches.antt =====
-- What the registers of a drive hold after prepareAccess has written them.
use mathlib.Core.Path.{subst}
use cxx_kernel.Base.{
  ℕ, zero, suc, ◌+◌, ◌%◌, ◌≤◌, ◌≡◌, refl, sym, ap, ◌∙◌, ◌≢◌, Bool, true, Bool-cases, inl, inr,
  arith, if◌then◌else◌,
}
use cxx_kernel.Ata.{Bus, Drive, State, control, lba_port, sec_count, touch, wait, wait_reads, write}
use cxx_kernel.Ata.Commands.{Position, set_hi, set_lo, write_hi, write_hi_all, write_position}

-- The registers 2 to 6 behind the base port keep the last byte written to them and the one before;
-- a write to another of them or to the control port, a read and a delay change neither.
pub record HasLatches {D : Type 0} (bus : Bus D) (latch : ℕ → D → ℕ × ℕ) (base ctl : ℕ)
    : Type 0 where
  pub takes :
      (p i v : ℕ) (x : D)
      → p ≡ base + i
      → 2 ≤ i
      → i ≤ 6
      → latch i (bus.port_out p v x) ≡ (v, (latch i x).0)
  pub keeps :
      (p i k v : ℕ) (x : D)
      → p ≡ base + i
      → 2 ≤ i
      → i ≤ 6
      → i ≢ k
      → latch k (bus.port_out p v x) ≡ latch k x
  pub keeps_control : (k v : ℕ) (x : D) → latch k (bus.port_out ctl v x) ≡ latch k x
  pub quiet_in : (p k : ℕ) (x : D) → latch k (bus.port_in p x).1 ≡ latch k x
  pub quiet_sleep : (n k : ℕ) (x : D) → latch k (bus.msleep n x) ≡ latch k x

module _ {D : Type 0} (bus : Bus D) (latch : ℕ → D → ℕ × ℕ) where
  abbrev pub Latched : State D → Type 0
  Latched s = HasLatches bus latch s.drive.base_port (control s.drive)

  abbrev pub held : ℕ → State D → ℕ × ℕ
  held k s = latch k s.device

  wait_reads-held : (n k : ℕ) (s : State D) → Latched s → held k (wait_reads bus n s) ≡ held k s
  unfolding wait_reads
  wait_reads-held zero k s l = refl
  wait_reads-held (suc n) k s l =
      wait_reads-held n k (touch bus (control s.drive) s) l
      ∙ l.quiet_in (control s.drive) k s.device

  wait_reads-drive : (n : ℕ) (s : State D) → (wait_reads bus n s).drive ≡ s.drive
  unfolding wait_reads
  wait_reads-drive zero s = refl
  wait_reads-drive (suc n) s = wait_reads-drive n (touch bus (control s.drive) s)

  pub wait-held : (k : ℕ) (s : State D) → Latched s → held k (wait bus s) ≡ held k s
  unfolding wait
  wait-held k s l = l.quiet_sleep 1 k (wait_reads bus 5 s).device ∙ wait_reads-held 5 k s l

  pub wait-drive : (s : State D) → (wait bus s).drive ≡ s.drive
  unfolding wait
  wait-drive s = wait_reads-drive 5 s

  module _ (s : State D) (l : Latched s) where
    hi_same :
        (p i v : ℕ)
        → p ≡ s.drive.base_port + i
        → 2 ≤ i
        → i ≤ 6
        → (held i (write_hi bus p v s)).0 ≡ v % 256
    hi_same p i v e a b =
        ap (λ (r : ℕ × ℕ). r.0)
          (l.keeps_control i _ _ ∙ l.takes p i (v % 256) (set_hi bus s).device e a b)

    hi_other :
        (p i k v : ℕ)
        → p ≡ s.drive.base_port + i
        → 2 ≤ i
        → i ≤ 6
        → i ≢ k
        → held k (write_hi bus p v s) ≡ held k s
    hi_other p i k v e a b n =
        l.keeps_control k _ _
        ∙ l.keeps p i k (v % 256) (set_hi bus s).device e a b n
        ∙ l.keeps_control k _ _

  -- The high bytes of an access of 48 bits.
  module _ (p : Position) (s : State D) (l : Latched s) where
    abbrev s2 : State D
    s2 = write_hi bus (sec_count s.drive) 0 s

    abbrev s3 : State D
    s3 = write_hi bus (lba_port 0 s.drive) p.io3 s2

    abbrev s4 : State D
    s4 = write_hi bus (lba_port 1 s.drive) p.io4 s3

    high :
        ((held 3 (write_hi_all bus p s)).0 ≡ p.io3 % 256)
        × ((held 4 (write_hi_all bus p s)).0 ≡ p.io4 % 256)
        × ((held 5 (write_hi_all bus p s)).0 ≡ p.io5 % 256)
        × (held 6 (write_hi_all bus p s) ≡ held 6 s)
    unfolding write_hi_all
    high =
        let b = s.drive.base_port in
        let five = λ (k : ℕ) (n : 5 ≢ k).
          hi_other s4 l (b + 3 + 2) 5 k p.io5 (omega arith) (omega arith) (omega arith) n in
        let four = λ (k : ℕ) (n : 4 ≢ k).
          hi_other s3 l (b + 3 + 1) 4 k p.io4 (omega arith) (omega arith) (omega arith) n in
        let three = λ (k : ℕ) (n : 3 ≢ k).
          hi_other s2 l (b + 3 + 0) 3 k p.io3 (omega arith) (omega arith) (omega arith) n in
        let two =
          λ (k : ℕ) (n : 2 ≢ k). hi_other s l (b + 2) 2 k 0 refl (omega arith) (omega arith) n in
        let first = λ (r : ℕ × ℕ). r.0 in
        (
          ap first (five 3 (λ e. omega (arith, e)) ∙ four 3 (λ e. omega (arith, e)))
              ∙ hi_same s2 l (b + 3 + 0) 3 p.io3 (omega arith) (omega arith) (omega arith),
          ap first (five 4 (λ e. omega (arith, e)))
              ∙ hi_same s3 l (b + 3 + 1) 4 p.io4 (omega arith) (omega arith) (omega arith),
          hi_same s4 l (b + 3 + 2) 5 p.io5 (omega arith) (omega arith) (omega arith),
          five 6 (λ e. omega (arith, e))
              ∙ four 6 (λ e. omega (arith, e))
              ∙ three 6 (λ e. omega (arith, e))
              ∙ two 6 (λ e. omega (arith, e)),
        )

  -- The low bytes.
  module _ (d : Drive) (l : HasLatches bus latch d.base_port (control d)) (sectors : ℕ)
      (p : Position) (s : State D) where
    abbrev low_written : State D
    low_written = write bus (lba_port 2 d) p.io2 (
        write bus (lba_port 1 d) p.io1
          (write bus (lba_port 0 d) p.io0 (write bus (sec_count d) sectors s)))

    low_bytes :
        (held 3 low_written ≡ (p.io0 % 256, (held 3 s).0))
        × (held 4 low_written ≡ (p.io1 % 256, (held 4 s).0))
        × (held 5 low_written ≡ (p.io2 % 256, (held 5 s).0))
        × (held 6 low_written ≡ held 6 s)
    low_bytes =
        let b = d.base_port in
        let x1 = bus.port_out (b + 2) (sectors % 256) s.device in
        let x2 = bus.port_out (b + 3 + 0) (p.io0 % 256) x1 in
        let x3 = bus.port_out (b + 3 + 1) (p.io1 % 256) x2 in
        let five = λ (k : ℕ) (n : 5 ≢ k).
          l.keeps (b + 3 + 2) 5 k (p.io2 % 256) x3 (omega arith) (omega arith) (omega arith) n in
        let four = λ (k : ℕ) (n : 4 ≢ k).
          l.keeps (b + 3 + 1) 4 k (p.io1 % 256) x2 (omega arith) (omega arith) (omega arith) n in
        let three = λ (k : ℕ) (n : 3 ≢ k).
          l.keeps (b + 3 + 0) 3 k (p.io0 % 256) x1 (omega arith) (omega arith) (omega arith) n in
        let two = λ (k : ℕ) (n : 2 ≢ k).
          l.keeps (b + 2) 2 k (sectors % 256) s.device refl (omega arith) (omega arith) n in
        let into : ℕ → ℕ × ℕ → ℕ × ℕ = λ v r. (v, r.0) in
        (
          five 3 (λ e. omega (arith, e))
              ∙ four 3 (λ e. omega (arith, e))
              ∙ l.takes (b + 3 + 0) 3 (p.io0 % 256) x1 (omega arith) (omega arith) (omega arith)
              ∙ ap (into (p.io0 % 256)) (two 3 (λ e. omega (arith, e))),
          five 4 (λ e. omega (arith, e))
              ∙ l.takes (b + 3 + 1) 4 (p.io1 % 256) x2 (omega arith) (omega arith) (omega arith)
              ∙ ap (into (p.io1 % 256))
                  (three 4 (λ e. omega (arith, e)) ∙ two 4 (λ e. omega (arith, e))),
          l.takes (b + 3 + 2) 5 (p.io2 % 256) x3 (omega arith) (omega arith) (omega arith)
              ∙ ap (into (p.io2 % 256)) (
                  four 5 (λ e. omega (arith, e))
                  ∙ three 5 (λ e. omega (arith, e))
                  ∙ two 5 (λ e. omega (arith, e))),
          five 6 (λ e. omega (arith, e))
              ∙ four 6 (λ e. omega (arith, e))
              ∙ three 6 (λ e. omega (arith, e))
              ∙ two 6 (λ e. omega (arith, e)),
        )

  -- The registers hold the bytes of a position, and its high bytes below them for 48 bits.
  pub record IsLatched (p : Position) (s u : State D) : Type 0 where
    pub byte0 : (held 3 u).0 ≡ p.io0 % 256
    pub byte1 : (held 4 u).0 ≡ p.io1 % 256
    pub byte2 : (held 5 u).0 ≡ p.io2 % 256
    pub byte3 : p.lba48 ≡ true → (held 3 u).1 ≡ p.io3 % 256
    pub byte4 : p.lba48 ≡ true → (held 4 u).1 ≡ p.io4 % 256
    pub byte5 : p.lba48 ≡ true → (held 5 u).1 ≡ p.io5 % 256
    pub selected : held 6 u ≡ held 6 s

  pub write_position-IsLatched :
      (sectors : ℕ) (p : Position) (s : State D)
      → Latched s
      → IsLatched p s (write_position bus sectors p s)
  unfolding write_position write_hi_all
  write_position-IsLatched sectors p s l =
      let first = λ (r : ℕ × ℕ). r.0 in
      let second = λ (r : ℕ × ℕ). r.1 in
      let all = λ (b : Bool).
        IsLatched p s
          (low_written s.drive l sectors p (set_lo bus (if b then write_hi_all bus p s else s))) in
      elim (Bool-cases p.lba48) [
        | inl e ↦
            let hi = write_hi_all bus p s in
            let (x, y, z, w) = low_bytes s.drive l sectors p (set_lo bus hi) in
            let (x', y', z', w') = high p s l in
            let kept =
              λ (k : ℕ). l.keeps_control k ((if s.drive.irq then 0 else 2) % 256) hi.device in
            subst all (sym e) (record {
              byte0 = ap first x;
              byte1 = ap first y;
              byte2 = ap first z;
              byte3 = λ q. ap second x ∙ ap first (kept 3) ∙ x';
              byte4 = λ q. ap second y ∙ ap first (kept 4) ∙ y';
              byte5 = λ q. ap second z ∙ ap first (kept 5) ∙ z';
              selected = w ∙ kept 6 ∙ w';
            })
        | inr e ↦
            let (x, y, z, w) = low_bytes s.drive l sectors p (set_lo bus s) in
            subst all (sym e) (record {
              byte0 = ap first x;
              byte1 = ap first y;
              byte2 = ap first z;
              byte3 = λ q. absurd cc;
              byte4 = λ q. absurd cc;
              byte5 = λ q. absurd cc;
              selected = w ∙ l.keeps_control 6 _ s.device;
            })
      ]

  pub write_position-drive :
      (sectors : ℕ) (p : Position) (s : State D) → (write_position bus sectors p s).drive ≡ s.drive
  unfolding write_position write_hi_all
  write_position-drive sectors p s =
      let all =
        λ (b : Bool). (set_lo bus (if b then write_hi_all bus p s else s)).drive ≡ s.drive in
      elim (Bool-cases p.lba48) [ inl e ↦ subst all (sym e) refl | inr e ↦ subst all (sym e) refl ]
