-- ===== src/Ata/Ready.antt =====
-- A drive that is ready is read to the end.
use cxx_kernel.Base.{
  ℕ, zero, suc, ◌+◌, ◌≡◌, refl, ap, ◌∙◌, Bool, true, false, ◌&&◌, not, arith, ◌==◌, if◌then◌else◌,
}
use cxx_kernel.Bits.{bit}
use cxx_kernel.Ata.{
  Bus, State, ◌>?◌, Reply, yes, no, command, wait, wait_busy, wait_status, read_buffer,
  check_status, poll, get_status,
}
use cxx_kernel.Ata.Commands.{read_sectors}

-- A drive that is not busy, has data and reports no error.
pub record IsReady {D : Type 0} (bus : Bus D) : Type 0 where
  pub not_busy : (p : ℕ) (d : D) → bit (bus.port_in p d).0 7 ≡ 0
  pub has_data : (p : ℕ) (d : D) → bit (bus.port_in p d).0 3 ≡ 1
  pub no_error : (p : ℕ) (d : D) → bit (bus.port_in p d).0 0 ≡ 0
  pub no_fault : (p : ℕ) (d : D) → bit (bus.port_in p d).0 5 ≡ 0

-- The call returns true.
abbrev pub IsYes : {S : Type 0} → Reply S → Type 0
IsYes {S = S} r = (s : S) × (r ≡ yes s)

module _ {D : Type 0} (bus : Bus D) (rd : IsReady bus) where
  pub wait_busy-yes : (n : ℕ) (s : State D) → wait_busy bus (suc n) s ≡ yes (get_status bus s).1
  unfolding wait_busy
  wait_busy-yes n s =
      let t = (get_status bus s).1 in
      let w = rd.not_busy (command s.drive) s.device in
      let z : (bit (get_status bus s).0 7 == 0) ≡ true = ground (arith, w) in
      ap (λ (b : Bool). elim b [ true ↦ yes t | false ↦ wait_busy bus n t ]) z

  poll-IsYes : (s : State D) → IsYes (poll bus true s)
  unfolding poll wait_status
  poll-IsYes s =
      let t = (get_status bus (wait bus s)).1 in
      let u = (get_status bus t).1 in
      let status = (get_status bus t).0 in
      let a = rd.no_error (command t.drive) t.device in
      let b = rd.no_fault (command t.drive) t.device in
      let c = rd.has_data (command t.drive) t.device in
      let x : (bit status 0 == 0) ≡ true = ground (arith, a) in
      let y : (bit status 5 == 0) ≡ true = ground (arith, b) in
      let z : (bit status 3 == 0) ≡ false = ground (arith, c) in
      let test : (bit status 0 == 0 && (bit status 5 == 0 && not (bit status 3 == 0))) ≡ true =
        rw (x, y, z) refl in
      (
        u,
        ap (λ (r : Reply (State D)). r >? check_status bus) (wait_busy-yes 4095 (wait bus s))
            ∙ ap (λ (q : Bool). if◌then◌else◌ {A = Reply (State D)} q (yes u) (no u)) test,
      )

  pub read_sectors-IsYes : (n ptr : ℕ) (s : State D) → IsYes (read_sectors bus n ptr s)
  unfolding read_sectors
  read_sectors-IsYes zero ptr s = (s, refl)
  read_sectors-IsYes (suc n) ptr s =
      let (t, e) = poll-IsYes s in
      let next = λ (t : State D). read_sectors bus n (ptr + 512) (read_buffer bus 128 ptr t) in
      let (u, f) = read_sectors-IsYes n (ptr + 512) (read_buffer bus 128 ptr t) in
      (u, ap (λ (r : Reply (State D)). r >? next) e ∙ f)
