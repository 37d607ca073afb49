-- ===== src/Ata/Registers.antt =====
-- The registers that prepareAccess leaves say which sector was asked for.
use mathlib.Core.Path.{subst}
use cxx_kernel.Base.{
  ℕ, ◌+◌, ◌-◌, ◌*◌, ◌/◌, ◌%◌, ◌^◌, ◌<◌, ◌≤◌, ◌≡◌, refl, sym, ap, ◌∙◌, ◌⊎◌, inl, inr, Bool, true,
  false, ◌||◌, ltb, leb, Bool-cases, Option, some, arith, ◌==◌, if◌then◌else◌,
}
use cxx_kernel.Ata.{
  Bus, Drive, State, ◌>?◌, Reply, yes, command, control, write, wait, wait_status, get_status,
  reset, select,
}
use cxx_kernel.Ata.Commands.{Position, locate, write_position, prepare_found, prepare_access}
use cxx_kernel.Ata.Ready.{IsReady, wait_busy-yes}
use cxx_kernel.Ata.Locate.{HasGeometry, IsNarrow, denoted, locate-denoted}
use cxx_kernel.Ata.Latches.{
  write_position-drive, HasLatches, Latched, held, wait-held, wait-drive, write_position-IsLatched,
}
use cxx_kernel.Ata.Selector.{IsDetected, selector, Selects, selector-Selects}

-- The sector that a drive takes its registers for: bit 6 of the register 6 says that they hold a
-- number, whose high bytes are the ones written before where the command is one of 48 bits.
abbrev pub sector_at : Drive → Bool → (ℕ → ℕ × ℕ) → ℕ
sector_at d wide r =
    let low = (r 3).0 + (r 4).0 * 2 ^ 8 + (r 5).0 * 2 ^ 16 in
    if (r 6).0 / 64 % 2 == 0
    then (((r 4).0 + (r 5).0 * 2 ^ 8) * d.head + (r 6).0 % 16) * d.sect + (r 3).0 - 1
    else if wide
    then low + (r 3).1 * 2 ^ 24 + ((r 4).1 + (r 5).1 * 2 ^ 8) * 2 ^ 32
    else low + (r 6).0 % 16 * 2 ^ 24

-- Registers that hold a position denote its sector.
abbrev IsHeld : Position → (ℕ → ℕ × ℕ) → Type 0
IsHeld p r =
    ((r 3).0 ≡ p.io0 % 256)
    × ((r 4).0 ≡ p.io1 % 256)
    × ((r 5).0 ≡ p.io2 % 256)
    × (p.lba48 ≡ true → (r 3).1 ≡ p.io3 % 256)
    × (p.lba48 ≡ true → (r 4).1 ≡ p.io4 % 256)
    × (p.lba48 ≡ true → (r 5).1 ≡ p.io5 % 256)

sector_at-denoted :
    (d : Drive) (p : Position) (r : ℕ → ℕ × ℕ)
    → IsNarrow p
    → IsHeld p r
    → Selects d.lba p.head (r 6).0
    → (p.lba48 ≡ true → d.lba ≡ true)
    → sector_at d p.lba48 r ≡ denoted d p
sector_at-denoted d p r n (b0, b1, b2, b3, b4, b5) (head, mode) w =
    let n0 = n.byte0 in
    let n1 = n.byte1 in
    let n2 = n.byte2 in
    let n3 = n.byte3 in
    let n4 = n.byte4 in
    let n5 = n.byte5 in
    let e0 : (r 3).0 ≡ p.io0 = omega (arith, b0, n0) in
    let e1 : (r 4).0 ≡ p.io1 = omega (arith, b1, n1) in
    let e2 : (r 5).0 ≡ p.io2 = omega (arith, b2, n2) in
    elim (Bool-cases p.lba48) [
      | inl q ↦
          let e3 : (r 3).1 ≡ p.io3 = let x = b3 q in omega (arith, x, n3) in
          let e4 : (r 4).1 ≡ p.io4 = let x = b4 q in omega (arith, x, n4) in
          let e5 : (r 5).1 ≡ p.io5 = let x = b5 q in omega (arith, x, n5) in
          let t : ((r 6).0 / 64 % 2 == 0) ≡ false =
            mode ∙ ap (λ (b : Bool). if b then false else true) (w q) in
          rw (q, t, e0, e1, e2, e3, e4, e5) refl
      | inr q ↦ elim (Bool-cases d.lba) [
        | inl y ↦
            let t : ((r 6).0 / 64 % 2 == 0) ≡ false =
              mode ∙ ap (λ (b : Bool). if b then false else true) y in
            rw (q, y, t, e0, e1, e2, head) refl
        | inr y ↦
            let t : ((r 6).0 / 64 % 2 == 0) ≡ true =
              mode ∙ ap (λ (b : Bool). if b then false else true) y in
            rw (q, y, t, e0, e1, e2, head) refl
      ]
    ]

-- What the drive is, and what the sector and the drive have to do with each other.
record IsReached (d : Drive) (a h : ℕ) : Type 0 where
  detected : IsDetected d
  addressed : (d.lba ≡ true) ⊎ ((h ≡ 0) × HasGeometry d a)

-- Cylinders, heads and sectors are less than 28 bits.
reached_small : (d : Drive) (a : ℕ) → HasGeometry d a → a < 2 ^ 28
reached_small d a g =
    let e = g.reached in
    let x = g.small_head in
    let y = g.small_sect in let z : d.head * d.sect ≤ 16 * 255 = grind arith in omega (arith, e, z)

wide_is_lba :
    (d : Drive) (a h : ℕ)
    → (d.lba ≡ true) ⊎ ((h ≡ 0) × HasGeometry d a)
    → (leb 0x10000000 a || ltb 0 h) ≡ true
    → d.lba ≡ true
wide_is_lba d a h (inl l) e = l
wide_is_lba d a h (inr (z, g)) e = let s = reached_small d a g in ground (arith, z, s, e)

geometry :
    (d : Drive) (a h : ℕ)
    → (d.lba ≡ true) ⊎ ((h ≡ 0) × HasGeometry d a)
    → (d.lba ≡ true) ⊎ HasGeometry d a
geometry d a h (inl l) = inl l
geometry d a h (inr (z, g)) = inr g

module _ {D : Type 0} (bus : Bus D) (latch : ℕ → D → ℕ × ℕ) (rd : IsReady bus) where
  abbrev after_status : State D → State D
  after_status s = (get_status bus s).1

  wait_status-yes : (s : State D) → wait_status bus s ≡ yes (after_status s)
  unfolding wait_status
  wait_status-yes s = wait_busy-yes bus rd 4095 s

  -- The state in which the position is written.
  abbrev selected : ℕ → State D → State D
  selected head s = after_status (select bus head (after_status s))

  selected-drive : (head : ℕ) (s : State D) → (selected head s).drive ≡ s.drive
  unfolding select
  selected-drive head s =
      wait-drive bus latch
        (write bus (s.drive.base_port + 6) (selector s.drive head) (after_status s))

  selected-held :
      (head : ℕ) (s : State D)
      → Latched bus latch s
      → (held bus latch 6 (selected head s)).0 ≡ selector s.drive head % 256
  unfolding select
  selected-held head s l =
      let u = after_status s in
      let w = write bus (s.drive.base_port + 6) (selector s.drive head) u in
      ap (λ (r : ℕ × ℕ). r.0)
        (l.quiet_in (command (wait bus w).drive) 6 (wait bus w).device
          ∙ wait-held bus latch 6 w l
          ∙ l.takes (s.drive.base_port + 6) 6 (selector s.drive head % 256) u.device refl
              (omega arith) (omega arith))

  -- What a call leaves that returns true.
  abbrev Denotes : Drive → ℕ → ℕ → Reply (State D) → Type 0
  Denotes d a h r =
      (t : State D) × (r ≡ yes t)
      × (sector_at d t.drive.lba48 (λ k. held bus latch k t) ≡ a + h * 2 ^ 32)

  found-Denotes :
      (sectors a h : ℕ) (p : Position) (s : State D)
      → Latched bus latch s
      → IsDetected s.drive
      → IsNarrow p
      → (p.lba48 ≡ true → s.drive.lba ≡ true)
      → denoted s.drive p ≡ a + h * 2 ^ 32
      → Denotes s.drive a h (prepare_found bus sectors (some p) s)
  unfolding prepare_found
  found-Denotes sectors a h p s l det n w v =
      let t = record s { drive = record s.drive { lba48 = p.lba48 } } in
      let u = selected p.head t in
      let same : u.drive ≡ t.drive = selected-drive p.head t in
      let l' : Latched bus latch u =
        subst (λ (d : Drive). HasLatches bus latch d.base_port (control d)) (sym same) l in
      let q = write_position-IsLatched bus latch sectors p u l' in
      let x = write_position bus sectors p u in
      let wide : x.drive.lba48 ≡ p.lba48 =
        ap (λ (d : Drive). d.lba48) (write_position-drive bus latch sectors p u ∙ same) in
      let dev : (held bus latch 6 x).0 ≡ selector t.drive p.head % 256 =
        ap (λ (r : ℕ × ℕ). r.0) q.selected ∙ selected-held p.head t l in
      let sel : Selects s.drive.lba p.head (held bus latch 6 x).0 =
        subst (Selects s.drive.lba p.head) (sym dev) (
          selector-Selects s.drive.lba s.drive.mode s.drive.kind p.head det.mode_set det.one_of_two
            n.nibble) in
      let first = λ (r : Reply (State D)).
        r
        >? (λ y. wait_status bus (select bus p.head y))
        >? (λ y. yes (write_position bus sectors p y)) in
      (
        x,
        ap first (wait_status-yes t)
            ∙ ap (λ (r : Reply (State D)). r >? (λ y. yes (write_position bus sectors p y)))
                (wait_status-yes (select bus p.head (after_status t))),
        ap (λ (b : Bool). sector_at s.drive b (λ k. held bus latch k x)) wide
            ∙ sector_at-denoted s.drive p (λ k. held bus latch k x) n
                (q.byte0, q.byte1, q.byte2, q.byte3, q.byte4, q.byte5) sel w
            ∙ v,
      )

  prepare_found-Denotes :
      (sectors a h : ℕ) (s : State D)
      → Latched bus latch s
      → IsReached s.drive a h
      → a < 2 ^ 32
      → h < 2 ^ 16
      → Denotes s.drive a h (prepare_found bus sectors (locate s.drive a h) s)
  prepare_found-Denotes sectors a h s l re m k =
      let (p, found, value, narrow, wide) =
        locate-denoted s.drive a h m k (geometry s.drive a h re.addressed) in
      subst (λ (o : Option Position). Denotes s.drive a h (prepare_found bus sectors o s))
        (sym found)
        (found-Denotes sectors a h p s l re.detected narrow
          (λ q. wide_is_lba s.drive a h re.addressed (sym wide ∙ q)) value)

-- On a bus whose drive is ready and whose registers keep the last two bytes written to them, let the
-- drive be a master or a slave in the mode that detect sets, the address have 32 bits and its high
-- part 16, and the drive take numbers of sectors, or else the high part be 0 and the 65536 cylinders,
-- at most 16 heads and at most 255 sectors of the drive reach the sector. Then prepareAccess returns true, and the registers it leaves,
-- the device register included, denote the sector that was asked for.
pub prepare_access-denoted :
    {D : Type 0} (bus : Bus D) (latch : ℕ → D → ℕ × ℕ) (sectors a h : ℕ) (s : State D)
    → IsReady bus
    → HasLatches bus latch s.drive.base_port (control s.drive)
    → IsDetected s.drive
    → a < 2 ^ 32
    → h < 2 ^ 16
    → (s.drive.lba ≡ true) ⊎ ((h ≡ 0) × HasGeometry s.drive a)
    → (t : State D) × (prepare_access bus sectors a h s ≡ yes t)
      × (sector_at s.drive t.drive.lba48 (λ k. latch k t.device) ≡ a + h * 2 ^ 32)
unfolding prepare_access reset
prepare_access-denoted bus latch sectors a h s rd l det m k g =
    let d = record s.drive { lba48 = false } in
    let s0 = record s { drive = d } in
    let w = write bus (command d) 0 (write bus (command d) 4 s0) in
    let x = (get_status bus (wait bus w)).1 in
    let same : x.drive ≡ d = wait-drive bus latch w in
    let geo : HasGeometry s.drive a → HasGeometry d a = λ o. record {
      heads = o.heads;
      sects = o.sects;
      small_head = o.small_head;
      small_sect = o.small_sect;
      reached = o.reached;
    } in
    let re : IsReached d a h = record {
      detected = record { mode_set = det.mode_set; one_of_two = det.one_of_two };
      addressed = elim g [ inl y ↦ inl y | inr (z, o) ↦ inr (z, geo o) ];
    } in
    let lx : Latched bus latch x =
      subst (λ (e : Drive). HasLatches bus latch e.base_port (control e)) (sym same) l in
    let rx : IsReached x.drive a h = subst (λ (e : Drive). IsReached e a h) (sym same) re in
    let (t, run, value) = prepare_found-Denotes bus latch rd sectors a h x lx rx m k in
    (
      t,
      ap (λ (r : Reply (State _)). r >? (λ y. prepare_found bus sectors (locate y.drive a h) y))
            (wait_status-yes bus latch rd (wait bus w))
          ∙ run,
      subst (λ (e : Drive). sector_at e t.drive.lba48 (λ i. latch i t.device) ≡ a + h * 2 ^ 32) same
          value,
    )
