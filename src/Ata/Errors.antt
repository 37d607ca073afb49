-- ===== src/Ata/Errors.antt =====
-- What a bus without a drive leads to.
use mathlib.Core.Path.{subst}
use cxx_kernel.Base.{
  ℕ, zero, suc, ◌≡◌, refl, sym, ap, ◌∙◌, inl, inr, Bool, true, false, Bool-cases, ◌==◌,
  if◌then◌else◌,
}
use cxx_kernel.Bits.{bit}
use cxx_kernel.Ata.{
  Bus, State, ◌>?◌, Reply, yes, no, left, command, write, wait, wait_busy, wait_status,
  wait_status_bit, reset, get_status,
}
use cxx_kernel.Ata.Commands.{prepare_access, pick, read_data, read_sector, write_data, write_sector}
use cxx_kernel.Ata.Outside.{Same, reset-Same}

-- A bus without a drive: each of its ports reads as ones.
abbrev pub IsFloating : {D : Type 0} → Bus D → Type 0
IsFloating {D = D} bus = (port : ℕ) (d : D) → (bus.port_in port d).0 ≡ 0xFF

-- The call returns false and leaves the memory as it was.
abbrev pub Refused : {D : Type 0} → State D → Reply (State D) → Type 0
Refused {D = D} s r = (t : State D) × (r ≡ no t) × ((x : ℕ) → t.memory x ≡ s.memory x)

bind-Refused :
    {D : Type 0} (s : State D) (r : Reply (State D)) (f : State D → Reply (State D))
    → Refused s r
    → Refused s (r >? f)
bind-Refused s r f (t, e, m) = (t, ap (λ (q : Reply (State _)). q >? f) e, m)

module _ {D : Type 0} (bus : Bus D) (fl : IsFloating bus) where
  busy : (s : State D) → (bit (get_status bus s).0 7 == 0) ≡ false
  busy s = let w = fl (command s.drive) s.device in rw w (unfold bit in refl)

  wait_busy-no : (n : ℕ) (s : State D) → (t : State D) × (wait_busy bus n s ≡ no t)
  unfolding wait_busy
  wait_busy-no zero s = ((get_status bus s).1, refl)
  wait_busy-no (suc n) s =
      let t = (get_status bus s).1 in
      let (u, e) = wait_busy-no n t in
      let ends = λ (b : Bool). elim b [ true ↦ yes t | false ↦ wait_busy bus n t ] ≡ no u in
      (u, subst ends (sym (busy s)) e)

  Refused-by :
      (s : State D) (r : Reply (State D)) (t : State D)
      → r ≡ no t
      → ((x : ℕ) → Same x s (left r))
      → Refused s r
  Refused-by s r t e m = (t, e, λ x. sym (ap (λ (q : Reply (State D)). (left q).memory x) e) ∙ m x)

  reset-Refused : (s : State D) → Refused s (reset bus s)
  reset-Refused s =
      let w = wait bus (write bus (command s.drive) 0 (write bus (command s.drive) 4 s)) in
      let (t, e) = wait_busy-no 4096 w in
      Refused-by s (reset bus s) t (unfold reset wait_status in e) (λ x. reset-Same bus x s)

  prepare_access-Refused :
      (n addr addr_hi : ℕ) (s : State D) → Refused s (prepare_access bus n addr addr_hi s)
  unfolding prepare_access
  prepare_access-Refused n addr addr_hi s =
      let (t, e, m) = reset-Refused (record s { drive = record s.drive { lba48 = false } }) in
      bind-Refused s (reset bus (record s { drive = record s.drive { lba48 = false } })) _ (t, e, m)

  write_sector-Refused :
      (buffer sectors addr addr_hi : ℕ) (s : State D)
      → Refused s (write_sector bus buffer sectors addr addr_hi s)
  unfolding write_sector
  write_sector-Refused buffer sectors addr addr_hi s =
      let more = λ (t : State D).
        write_data bus sectors buffer
          (write bus (command t.drive) (pick 0x35 0xCA 0x34 0x30 t.drive) t) in
      let prepared = prepare_access bus sectors addr addr_hi s in
      let ends = λ (b : Bool). Refused s (if b then no s else prepared >? more) in
      elim (Bool-cases (buffer == 0)) [
        | inl e ↦ subst ends (sym e) (s, refl, λ x. refl)
        | inr e ↦
            subst ends (sym e)
              (bind-Refused s prepared more (prepare_access-Refused sectors addr addr_hi s))
      ]

  read_sector-Refused :
      (buffer sectors addr addr_hi : ℕ) (s : State D)
      → Refused s (read_sector bus buffer sectors addr addr_hi s)
  unfolding read_sector
  read_sector-Refused buffer sectors addr addr_hi s =
      let send = λ (t : State _).
        wait_status_bit bus 0 0
          (write bus (command t.drive) (pick 0x25 0xC8 0x24 0x20 t.drive) t) in
      let prepared = prepare_access bus sectors addr addr_hi s in
      let sent = bind-Refused s prepared send (prepare_access-Refused sectors addr addr_hi s) in
      let ready = bind-Refused s (prepared >? send) (wait_status_bit bus 3 1) sent in
      let all =
        bind-Refused s (prepared >? send >? wait_status_bit bus 3 1) (read_data bus sectors buffer)
          ready in
      let ends = λ (b : Bool). Refused s (
        if b
        then no s
        else prepared >? send >? wait_status_bit bus 3 1 >? read_data bus sectors buffer) in
      elim (Bool-cases (buffer == 0)) [
        | inl e ↦ subst ends (sym e) (s, refl, λ x. refl)
        | inr e ↦ subst ends (sym e) all
      ]

-- Where each port of the bus reads as ones, since there is no drive, readSector and writeSector
-- return false for every sector, and leave the memory as it was.
pub floating-Refused :
    {D : Type 0} (bus : Bus D)
    → IsFloating bus
    → (buffer sectors addr addr_hi : ℕ) (s : State D)
    → Refused s (read_sector bus buffer sectors addr addr_hi s)
      × Refused s (write_sector bus buffer sectors addr addr_hi s)
floating-Refused bus fl buffer sectors addr addr_hi s = (
  read_sector-Refused bus fl buffer sectors addr addr_hi s,
  write_sector-Refused bus fl buffer sectors addr addr_hi s,
)
