-- ===== src/Ata/Transfer.antt =====
-- The sectors that are read are the words of the data port, in their order.
use mathlib.Core.Path.{subst}
use cxx_kernel.Base.{
  ℕ, zero, suc, ◌+◌, ◌-◌, ◌*◌, ◌/◌, ◌%◌, ◌<◌, ◌≤◌, ◌≡◌, refl, sym, ap, ◌∙◌, inl, inr, Bool, true,
  false, Bool-cases, arith, ◌==◌, ltb, if◌then◌else◌, update, update_same, update_other,
}
use cxx_kernel.Bits.{bit}
use cxx_kernel.Ata.{
  Bus, State, ◌>?◌, Reply, yes, no, trap, left, control, command, wait_reads, wait, wait_busy,
  wait_status, read_buffer, poll, get_status,
}
use cxx_kernel.Ata.Commands.{read_sectors}
use cxx_kernel.Ata.Ready.{IsReady, read_sectors-IsYes}
use cxx_kernel.Ata.Outside.{read_buffer-Same, read_sectors-Same}

-- The data port gives the words of a stream, each once, and no other read and no delay takes one;
-- `word d` are the words that the devices in the state `d` have left.
pub record IsStream {D : Type 0} (bus : Bus D) (word : D → ℕ → ℕ) (port : ℕ) : Type 0 where
  pub first : (d : D) → (bus.port_in16 port d).0 ≡ word d 0
  pub rest : (d : D) (i : ℕ) → word (bus.port_in16 port d).1 i ≡ word d (i + 1)
  pub quiet_in : (p : ℕ) (d : D) (i : ℕ) → word (bus.port_in p d).1 i ≡ word d i
  pub quiet_sleep : (n : ℕ) (d : D) (i : ℕ) → word (bus.msleep n d) i ≡ word d i

-- What holds after a call that returns true.
abbrev pub OnYes : {S : Type 0} → Reply S → (S → Type 0) → Type 0
OnYes (yes s) P = P s
OnYes (no s) P = Unit
OnYes (trap s) P = Unit

bind-OnYes :
    {S : Type 0} (r : Reply S) (f : S → Reply S) (Q P : S → Type 0)
    → OnYes r Q
    → ((s : S) → Q s → OnYes (f s) P)
    → OnYes (r >? f) P
bind-OnYes (yes s) f Q P h k = k s h
bind-OnYes (no s) f Q P h k = tt
bind-OnYes (trap s) f Q P h k = tt

-- Four bytes, written one after the other.
abbrev put_four : (ℕ → ℕ) → ℕ → ℕ → ℕ → ℕ → ℕ → ℕ → ℕ
put_four m p a b c d = update (update (update (update m p a) (p + 1) b) (p + 2) c) (p + 3) d

put_four_lem :
    (m : ℕ → ℕ) (p a b c d : ℕ)
    → (put_four m p a b c d p ≡ a)
      × (put_four m p a b c d (p + 1) ≡ b)
      × (put_four m p a b c d (p + 2) ≡ c)
      × (put_four m p a b c d (p + 3) ≡ d)
put_four_lem m p a b c d =
    let m1 = update m p a in
    let m2 = update m1 (p + 1) b in
    let m3 = update m2 (p + 2) c in
    (
      update_other m3 (p + 3) d p (λ e. omega arith)
          ∙ (update_other m2 (p + 2) c p (λ e. omega arith)
              ∙ (update_other m1 (p + 1) b p (λ e. omega arith) ∙ update_same m p a)),
      update_other m3 (p + 3) d (p + 1) (λ e. omega arith)
          ∙ (update_other m2 (p + 2) c (p + 1) (λ e. omega arith) ∙ update_same m1 (p + 1) b),
      update_other m3 (p + 3) d (p + 2) (λ e. omega arith) ∙ update_same m2 (p + 2) c,
      update_same m3 (p + 3) d,
    )

-- Each byte of the `n` words from `ptr` on.
abbrev pub Written : (ℕ → ℕ) → ℕ → (ℕ → ℕ) → ℕ → Type 0
Written m ptr w n =
    (i : ℕ) → i < n → (m (ptr + 2 * i) ≡ w i % 256) × (m (ptr + 2 * i + 1) ≡ w i / 256 % 256)

-- Two words more in front.
Written-on :
    (m : ℕ → ℕ) (ptr : ℕ) (w v : ℕ → ℕ) (n : ℕ)
    → ((i : ℕ) → v i ≡ w (i + 2))
    → (m ptr ≡ w 0 % 256) × (m (ptr + 1) ≡ w 0 / 256 % 256)
    → (m (ptr + 2) ≡ w 1 % 256) × (m (ptr + 3) ≡ w 1 / 256 % 256)
    → Written m (ptr + 4) v n
    → Written m ptr w (suc (suc n))
Written-on m ptr w v n e a b h zero l = (ap m (omega arith) ∙ a.0, ap m (omega arith) ∙ a.1)
Written-on m ptr w v n e a b h (suc zero) l = (ap m (omega arith) ∙ b.0, ap m (omega arith) ∙ b.1)
Written-on m ptr w v n e a b h (suc (suc i)) l =
    let (x, y) = h i (omega arith) in
    let q : v i ≡ w (suc (suc i)) = e i ∙ ap w (omega arith) in
    (
      ap m (omega arith) ∙ x ∙ ap (λ (u : ℕ). u % 256) q,
      ap m (omega arith) ∙ y ∙ ap (λ (u : ℕ). u / 256 % 256) q,
    )

module _ {D : Type 0} (bus : Bus D) (word : D → ℕ → ℕ) (port : ℕ)
    (st : IsStream bus word port) where
  -- The drive and the words that are left are the same.
  record Quiet (s t : State D) : Type 0 where
    same_port : t.drive.base_port ≡ s.drive.base_port
    same_words : (i : ℕ) → word t.device i ≡ word s.device i

  trans : (s t u : State D) → Quiet s t → Quiet t u → Quiet s u
  trans s t u a b = record {
    same_port = b.same_port ∙ a.same_port;
    same_words = λ i. b.same_words i ∙ a.same_words i;
  }

  get_status-Quiet : (s : State D) → Quiet s (get_status bus s).1
  get_status-Quiet s = record {
    same_port = refl;
    same_words = λ i. st.quiet_in (command s.drive) s.device i;
  }

  wait_reads-Quiet : (n : ℕ) (s : State D) → Quiet s (wait_reads bus n s)
  unfolding wait_reads
  wait_reads-Quiet zero s = record { same_port = refl; same_words = λ i. refl }
  wait_reads-Quiet (suc n) s =
      let t = record s { device = (bus.port_in (control s.drive) s.device).1 } in
      trans s t (wait_reads bus n t)
        (record { same_port = refl; same_words = λ i. st.quiet_in (control s.drive) s.device i })
        (wait_reads-Quiet n t)

  wait-Quiet : (s : State D) → Quiet s (wait bus s)
  unfolding wait
  wait-Quiet s =
      let t = wait_reads bus 5 s in
      trans s t (record t { device = bus.msleep 1 t.device }) (wait_reads-Quiet 5 s)
        (record { same_port = refl; same_words = λ i. st.quiet_sleep 1 t.device i })

  weaken_yes :
      (r : Reply (State D)) (s t : State D) → Quiet s t → OnYes r (Quiet t) → OnYes r (Quiet s)
  weaken_yes (yes u) s t h k = trans s t u h k
  weaken_yes (no u) s t h k = tt
  weaken_yes (trap u) s t h k = tt

  wait_busy-Quiet : (n : ℕ) (s : State D) → OnYes (wait_busy bus n s) (Quiet s)
  unfolding wait_busy
  wait_busy-Quiet zero s = tt
  wait_busy-Quiet (suc n) s =
      let t = (get_status bus s).1 in
      let go = get_status-Quiet s in
      let ends =
        λ (b : Bool). OnYes (elim b [ true ↦ yes t | false ↦ wait_busy bus n t ]) (Quiet s) in
      elim (Bool-cases (bit (get_status bus s).0 7 == 0)) [
        | inl e ↦ subst ends (sym e) go
        | inr e ↦ subst ends (sym e) (weaken_yes (wait_busy bus n t) s t go (wait_busy-Quiet n t))
      ]

  answer-Quiet :
      (b : Bool) (s t : State D) → Quiet s t → OnYes (if b then yes t else no t) (Quiet s)
  answer-Quiet true s t h = h
  answer-Quiet false s t h = tt

  poll-Quiet : (s : State D) → OnYes (poll bus true s) (Quiet s)
  unfolding poll wait_status
  poll-Quiet s =
      let w =
        weaken_yes (wait_busy bus 4096 (wait bus s)) s (wait bus s) (wait-Quiet s)
          (wait_busy-Quiet 4096 (wait bus s)) in
      bind-OnYes (wait_busy bus 4096 (wait bus s)) _ (Quiet s) (Quiet s) w (λ t q.
        answer-Quiet _ s (get_status bus t).1
          (trans s t (get_status bus t).1 q (get_status-Quiet t)))

  record Copied (n ptr : ℕ) (s t : State D) : Type 0 where
    same_port : t.drive.base_port ≡ s.drive.base_port
    left_words : (i : ℕ) → word t.device i ≡ word s.device (i + n)
    written : Written t.memory ptr (word s.device) n

  read_buffer-Copied :
      (n ptr : ℕ) (s : State D)
      → s.drive.base_port ≡ port
      → Copied (n * 2) ptr s (read_buffer bus n ptr s)
  unfolding read_buffer
  read_buffer-Copied zero ptr s e = record {
    same_port = refl;
    left_words = λ i. ap (word s.device) (omega arith);
    written = λ i l. absurd (omega arith);
  }
  read_buffer-Copied (suc n) ptr s e =
      let b = s.drive.base_port in
      let v0 = (bus.port_in16 b s.device).0 in
      let d1 = (bus.port_in16 b s.device).1 in
      let v1 = (bus.port_in16 b d1).0 in
      let d2 = (bus.port_in16 b d1).1 in
      let m4 = put_four s.memory ptr (v0 % 256) (v0 / 256 % 256) (v1 % 256) (v1 / 256 % 256) in
      let u = record s { device = d2; memory = m4 } in
      let t = read_buffer bus n (ptr + 4) u in
      let ih = read_buffer-Copied n (ptr + 4) u e in
      let at : (d : D) → ((bus.port_in16 b d).0 ≡ word d 0) =
        λ d. subst (λ (p : ℕ). (bus.port_in16 p d).0 ≡ word d 0) (sym e) (st.first d) in
      let on : (d : D) (i : ℕ) → word (bus.port_in16 b d).1 i ≡ word d (i + 1) = λ d i.
        subst (λ (p : ℕ). word (bus.port_in16 p d).1 i ≡ word d (i + 1)) (sym e) (st.rest d i) in
      let on2 : (i : ℕ) → word d2 i ≡ word s.device (i + 2) =
        λ i. on d1 i ∙ on s.device (i + 1) ∙ ap (word s.device) (omega arith) in
      let first = at s.device in
      let second = at d1 ∙ on s.device 0 in
      let four =
        put_four_lem s.memory ptr (v0 % 256) (v0 / 256 % 256) (v1 % 256) (v1 / 256 % 256) in
      let kept : (x : ℕ) → x < ptr + 4 → t.memory x ≡ m4 x =
        λ x l. read_buffer-Same bus x n (ptr + 4) u (inl l) in
      let low_byte = λ (v : ℕ). v % 256 in
      let high_byte = λ (v : ℕ). v / 256 % 256 in
      let pair0 : (t.memory ptr ≡ word s.device 0 % 256)
          × (t.memory (ptr + 1) ≡ word s.device 0 / 256 % 256) =
        (
          kept ptr (omega arith) ∙ four.0 ∙ ap low_byte first,
          kept (ptr + 1) (omega arith) ∙ four.1 ∙ ap high_byte first,
        ) in
      let pair1 : (t.memory (ptr + 2) ≡ word s.device 1 % 256)
          × (t.memory (ptr + 3) ≡ word s.device 1 / 256 % 256) =
        (
          kept (ptr + 2) (omega arith) ∙ four.2 ∙ ap low_byte second,
          kept (ptr + 3) (omega arith) ∙ four.3 ∙ ap high_byte second,
        ) in
      record {
        same_port = ih.same_port;
        left_words = λ i. ih.left_words i ∙ on2 (i + n * 2) ∙ ap (word s.device) (omega arith);
        written = λ i l.
            Written-on t.memory ptr (word s.device) (word d2) (n * 2) on2 pair0 pair1 ih.written i
              (omega arith);
      }

  -- A sector in front of the `n` that follow.
  sector_on :
      (n ptr : ℕ) (s u : State D) (r : Reply (State D))
      → Copied 256 ptr s u
      → ((x : ℕ) → x < ptr + 512 → (left r).memory x ≡ u.memory x)
      → OnYes r (Copied (n * 256) (ptr + 512) u)
      → OnYes r (Copied (suc n * 256) ptr s)
  sector_on n ptr s u (no v) c k h = tt
  sector_on n ptr s u (trap v) c k h = tt
  sector_on n ptr s u (yes v) c k h = record {
    same_port = h.same_port ∙ c.same_port;
    left_words =
        λ i. h.left_words i ∙ c.left_words (i + n * 256) ∙ ap (word s.device) (omega arith);
    written = λ i l. elim (Bool-cases (ltb i 256)) [
      | inl q ↦
          let near : i < 256 = ground arith in
          let (x, y) = c.written i near in
          (k (ptr + 2 * i) (omega arith) ∙ x, k (ptr + 2 * i + 1) (omega arith) ∙ y)
      | inr q ↦
          let far : 256 ≤ i = ground arith in
          let j = i - 256 in
          let (x, y) = h.written j (omega arith) in
          let w : word u.device j ≡ word s.device i =
            c.left_words j ∙ ap (word s.device) (omega arith) in
          (
            ap v.memory (omega arith) ∙ x ∙ ap (λ (z : ℕ). z % 256) w,
            ap v.memory (omega arith) ∙ y ∙ ap (λ (z : ℕ). z / 256 % 256) w,
          )
    ];
  }

  Quiet-Copied : (ptr : ℕ) (s t u : State D) → Quiet s t → Copied 256 ptr t u → Copied 256 ptr s u
  Quiet-Copied ptr s t u q c = record {
    same_port = c.same_port ∙ q.same_port;
    left_words = λ i. c.left_words i ∙ q.same_words (i + 256);
    written = λ i l.
        let (x, y) = c.written i l in
        (
          x ∙ ap (λ (z : ℕ). z % 256) (q.same_words i),
          y ∙ ap (λ (z : ℕ). z / 256 % 256) (q.same_words i),
        );
  }

  read_sectors-Copied :
      (n ptr : ℕ) (s : State D)
      → s.drive.base_port ≡ port
      → OnYes (read_sectors bus n ptr s) (Copied (n * 256) ptr s)
  unfolding read_sectors
  read_sectors-Copied zero ptr s e = record {
    same_port = refl;
    left_words = λ i. ap (word s.device) (omega arith);
    written = λ i l. absurd (omega arith);
  }
  read_sectors-Copied (suc n) ptr s e =
      bind-OnYes (poll bus true s) (λ t. read_sectors bus n (ptr + 512) (read_buffer bus 128 ptr t))
        (Quiet s) (Copied (suc n * 256) ptr s) (poll-Quiet s)
        (λ t q.
          let u = read_buffer bus 128 ptr t in
          let c = Quiet-Copied ptr s t u q (read_buffer-Copied 128 ptr t (q.same_port ∙ e)) in
          let more = read_sectors bus n (ptr + 512) u in
          sector_on n ptr s u more c (λ x l. read_sectors-Same bus x n (ptr + 512) u (inl l))
            (read_sectors-Copied n (ptr + 512) u (c.same_port ∙ e)))

  Written-yes :
      (n ptr : ℕ) (s : State D) (r : Reply (State D))
      → OnYes r (Copied n ptr s)
      → OnYes r (λ t. Written t.memory ptr (word s.device) n)
  Written-yes n ptr s (yes t) c = c.written
  Written-yes n ptr s (no t) c = tt
  Written-yes n ptr s (trap t) c = tt

-- On a drive that is ready, and whose data port gives a stream of words, the loop of readSector over
-- its sectors ends with true, and the buffer holds these words in their order, the low byte of each
-- first, 256 of them for each sector.
pub read_sectors-Written :
    {D : Type 0} (bus : Bus D) (word : D → ℕ → ℕ) (n ptr : ℕ) (s : State D)
    → IsReady bus
    → IsStream bus word s.drive.base_port
    → (t : State D) × (read_sectors bus n ptr s ≡ yes t)
      × Written t.memory ptr (word s.device) (n * 256)
read_sectors-Written bus word n ptr s rd st =
    let (t, e) = read_sectors-IsYes bus rd n ptr s in
    let c = read_sectors-Copied bus word s.drive.base_port st n ptr s refl in
    let w =
      Written-yes bus word s.drive.base_port st (n * 256) ptr s (read_sectors bus n ptr s) c in
    (
      t,
      e,
      subst (λ (r : Reply (State _)). OnYes r (λ u. Written u.memory ptr (word s.device) (n * 256)))
          e w,
    )
