-- ===== src/Ata/Outside.antt =====
-- What a read does to the memory, whatever the devices answer.
use mathlib.Core.Path.{subst}
use cxx_kernel.Base.{
  ℕ, zero, suc, ◌+◌, ◌*◌, ◌/◌, ◌%◌, ◌<◌, ◌≤◌, ◌≡◌, refl, sym, ◌∙◌, ◌≢◌, ◌⊎◌, inl, inr, Bool, true,
  false, Bool-cases, Option, some, none, arith, ◌==◌, if◌then◌else◌, update, update_other,
}
use cxx_kernel.Bits.{bit}
use cxx_kernel.Ata.{
  Bus, State, ◌>?◌, Reply, yes, no, trap, left, command, control, write, wait_reads, wait,
  wait_busy, wait_bit, wait_status, wait_status_bit, reset, select, read_buffer, poll, get_status,
}
use cxx_kernel.Ata.Commands.{
  Position, locate, write_hi_all, write_position, prepare_found, prepare_access, pick, read_sectors,
  read_data, read_sector,
}

-- The call leaves the byte at `x` as it was.
abbrev pub Same : {D : Type 0} → ℕ → State D → State D → Type 0
Same x s t = t.memory x ≡ s.memory x

bind-Same :
    {D : Type 0} (x : ℕ) (s : State D) (r : Reply (State D)) (f : State D → Reply (State D))
    → Same x s (left r)
    → ((t : State D) → Same x t (left (f t)))
    → Same x s (left (r >? f))
bind-Same x s (yes t) f h k = k t ∙ h
bind-Same x s (no t) f h k = h
bind-Same x s (trap t) f h k = h

module _ {D : Type 0} (bus : Bus D) (x : ℕ) where
  wait_reads-Same : (n : ℕ) (s : State D) → Same x s (wait_reads bus n s)
  unfolding wait_reads
  wait_reads-Same zero s = refl
  wait_reads-Same (suc n) s =
      wait_reads-Same n (record s { device = (bus.port_in (control s.drive) s.device).1 })

  wait-Same : (s : State D) → Same x s (wait bus s)
  unfolding wait
  wait-Same s = wait_reads-Same 5 s

  wait_busy-Same : (n : ℕ) (s : State D) → Same x s (left (wait_busy bus n s))
  unfolding wait_busy
  wait_busy-Same zero s = refl
  wait_busy-Same (suc n) s =
      let t = (get_status bus s).1 in
      let ends =
        λ (b : Bool). Same x s (left (elim b [ true ↦ yes t | false ↦ wait_busy bus n t ])) in
      elim (Bool-cases (bit (get_status bus s).0 7 == 0)) [
        | inl e ↦ subst ends (sym e) refl
        | inr e ↦ subst ends (sym e) (wait_busy-Same n t)
      ]

  wait_bit-Same : (k want n : ℕ) (s : State D) → Same x s (left (wait_bit bus k want n s))
  unfolding wait_bit
  wait_bit-Same k want zero s = refl
  wait_bit-Same k want (suc n) s =
      let t = (get_status bus s).1 in
      let ends = λ (b : Bool).
        Same x s (
          left (elim b [ true ↦ yes (wait bus t) | false ↦ wait_bit bus k want n (wait bus t) ])) in
      elim (Bool-cases (bit (get_status bus s).0 k == want)) [
        | inl e ↦ subst ends (sym e) (wait-Same t)
        | inr e ↦ subst ends (sym e) (wait_bit-Same k want n (wait bus t) ∙ wait-Same t)
      ]

  wait_status-Same : (s : State D) → Same x s (left (wait_status bus s))
  unfolding wait_status
  wait_status-Same s = wait_busy-Same _ s

  wait_status_bit-Same : (k want : ℕ) (s : State D) → Same x s (left (wait_status_bit bus k want s))
  unfolding wait_status_bit
  wait_status_bit-Same k want s =
      bind-Same x s (wait_status bus s) _ (wait_status-Same s) (λ t. wait_bit-Same k want _ t)

  pub reset-Same : (s : State D) → Same x s (left (reset bus s))
  unfolding reset
  reset-Same s =
      let t = write bus (command s.drive) 0 (write bus (command s.drive) 4 s) in
      wait_status-Same (wait bus t) ∙ wait-Same t

  select-Same : (head : ℕ) (s : State D) → Same x s (select bus head s)
  unfolding select
  select-Same head s = wait-Same _

  answer-Same : (b : Bool) (s : State D) → Same x s (left (if b then yes s else no s))
  answer-Same true s = refl
  answer-Same false s = refl

  poll-Same : (extra : Bool) (s : State D) → Same x s (left (poll bus extra s))
  unfolding poll
  poll-Same false s =
      bind-Same x s (wait_status bus (wait bus s)) _ (wait_status-Same (wait bus s) ∙ wait-Same s)
        (λ t. refl)
  poll-Same true s =
      bind-Same x s (wait_status bus (wait bus s)) _ (wait_status-Same (wait bus s) ∙ wait-Same s)
        (λ t. answer-Same _ (get_status bus t).1)

  prepare_found-Same :
      (n : ℕ) (p : Option Position) (s : State D) → Same x s (left (prepare_found bus n p s))
  unfolding prepare_found write_position write_hi_all
  prepare_found-Same n none s = refl
  prepare_found-Same n (some p) s =
      let t = record s { drive = record s.drive { lba48 = p.lba48 } } in
      let up = λ (u : State D). wait_status bus (select bus p.head u) in
      let last = λ (u : State D). yes (write_position bus n p u) in
      bind-Same x s (wait_status bus t >? up) last
        (bind-Same x s (wait_status bus t) up (wait_status-Same t)
          (λ u. wait_status-Same (select bus p.head u) ∙ select-Same p.head u))
        (λ u. elim (Bool-cases p.lba48) [
          | inl e ↦
              subst (λ (b : Bool). (if b then write_hi_all bus p u else u).memory x ≡ u.memory x)
                (sym e) refl
          | inr e ↦
              subst (λ (b : Bool). (if b then write_hi_all bus p u else u).memory x ≡ u.memory x)
                (sym e) refl
        ])

  pub prepare_access-Same :
      (n addr addr_hi : ℕ) (s : State D) → Same x s (left (prepare_access bus n addr addr_hi s))
  unfolding prepare_access
  prepare_access-Same n addr addr_hi s =
      let t = record s { drive = record s.drive { lba48 = false } } in
      bind-Same x s (reset bus t) _ (reset-Same t)
        (λ u. prepare_found-Same n (locate u.drive addr addr_hi) u)

  pub read_buffer-Same :
      (n ptr : ℕ) (s : State D) → (x < ptr) ⊎ (ptr + n * 4 ≤ x) → Same x s (read_buffer bus n ptr s)
  unfolding read_buffer
  read_buffer-Same zero ptr s h = refl
  read_buffer-Same (suc n) ptr s h =
      let (a, d1) = bus.port_in16 s.drive.base_port s.device in
      let (b, d2) = bus.port_in16 s.drive.base_port d1 in
      let m1 = update s.memory ptr (a % 256) in
      let m2 = update m1 (ptr + 1) (a / 256 % 256) in
      let m3 = update m2 (ptr + 2) (b % 256) in
      let m4 = update m3 (ptr + 3) (b / 256 % 256) in
      let apart : (i : ℕ) → i < 4 → x ≢ ptr + i =
        λ i l. elim h [ inl p ↦ λ e. omega arith | inr p ↦ λ e. omega arith ] in
      let next : (x < ptr + 4) ⊎ (ptr + 4 + n * 4 ≤ x) = elim h [
        | inl p ↦ inl (omega arith)
        | inr p ↦ inr (omega arith)
      ] in
      read_buffer-Same n (ptr + 4) (record s { device = d2; memory = m4 }) next
      ∙ (update_other m3 (ptr + 3) (b / 256 % 256) x (apart 3 (omega arith))
          ∙ (update_other m2 (ptr + 2) (b % 256) x (apart 2 (omega arith))
              ∙ (update_other m1 (ptr + 1) (a / 256 % 256) x (apart 1 (omega arith))
                  ∙ update_other s.memory ptr (a % 256) x
                      (λ e. apart 0 (omega arith) (omega (arith, e))))))

  pub read_sectors-Same :
      (n ptr : ℕ) (s : State D)
      → (x < ptr) ⊎ (ptr + n * 512 ≤ x)
      → Same x s (left (read_sectors bus n ptr s))
  unfolding read_sectors
  read_sectors-Same zero ptr s h = refl
  read_sectors-Same (suc n) ptr s h =
      let here : (x < ptr) ⊎ (ptr + 128 * 4 ≤ x) = elim h [
        | inl p ↦ inl p
        | inr p ↦ inr (omega arith)
      ] in
      let next : (x < ptr + 512) ⊎ (ptr + 512 + n * 512 ≤ x) = elim h [
        | inl p ↦ inl (omega arith)
        | inr p ↦ inr (omega arith)
      ] in
      bind-Same x s (poll bus true s)
        (λ t. read_sectors bus n (ptr + 512) (read_buffer bus 128 ptr t)) (poll-Same true s)
        (λ t.
          read_sectors-Same n (ptr + 512) (read_buffer bus 128 ptr t) next
          ∙ read_buffer-Same 128 ptr t here)

  read_data-Same :
      (n ptr : ℕ) (s : State D)
      → (x < ptr) ⊎ (ptr + n * 512 ≤ x)
      → Same x s (left (read_data bus n ptr s))
  unfolding read_data
  read_data-Same n ptr s h =
      let run = read_sectors bus n ptr s >? (λ t. yes (wait bus t)) in
      let ends = λ (b : Bool). Same x s (left (if b then yes s else run)) in
      elim (Bool-cases s.drive.dma) [
        | inl e ↦ subst ends (sym e) refl
        | inr e ↦ subst ends (sym e) (
            bind-Same x s (read_sectors bus n ptr s) _ (read_sectors-Same n ptr s h)
              (λ t. wait-Same t))
      ]

-- Whatever the devices answer, and whether the read succeeds or fails, readSector changes no byte of
-- the memory but those of its buffer of `sectors` sectors of 512 bytes.
pub read_sector-outside :
    {D : Type 0} (bus : Bus D) (x buffer sectors addr addr_hi : ℕ) (s : State D)
    → (x < buffer) ⊎ (buffer + sectors * 512 ≤ x)
    → (left (read_sector bus buffer sectors addr addr_hi s)).memory x ≡ s.memory x
unfolding read_sector
read_sector-outside bus x buffer sectors addr addr_hi s h =
    let send = λ (t : State _).
      wait_status_bit bus 0 0 (write bus (command t.drive) (pick 0x25 0xC8 0x24 0x20 t.drive) t) in
    let prepared = prepare_access bus sectors addr addr_hi s in
    let sent = prepared >? send in
    let ready = sent >? wait_status_bit bus 3 1 in
    let all = ready >? read_data bus sectors buffer in
    let a =
      bind-Same x s prepared send (prepare_access-Same bus x sectors addr addr_hi s)
        (λ t. wait_status_bit-Same bus x 0 0 _) in
    let b =
      bind-Same x s sent (wait_status_bit bus 3 1) a (λ t. wait_status_bit-Same bus x 3 1 t) in
    let c =
      bind-Same x s ready (read_data bus sectors buffer) b
        (λ t. read_data-Same bus x sectors buffer t h) in
    let ends = λ (b : Bool). Same x s (left (if b then no s else all)) in
    elim (Bool-cases (buffer == 0)) [
      | inl e ↦ subst ends (sym e) refl
      | inr e ↦ subst ends (sym e) c
    ]
