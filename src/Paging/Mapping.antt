-- ===== src/Paging/Mapping.antt =====
-- Mapping pages of the heap keeps the frames of the pages apart.
use mathlib.Core.Path.{subst}
use cxx_kernel.Base.{
  ℕ, zero, suc, ◌+◌, ◌/◌, ◌%◌, ◌^◌, ◌<◌, ◌≤◌, ◌≡◌, refl, sym, ap, ◌∙◌, ◌≢◌, inl, inr, Bool, true,
  false, not, Bool-cases, Option, some, none, arith, if◌then◌else◌, Outcome, done, Ensures,
}
use cxx_kernel.Bits.{Bits, bit, is_set, find_unset}
use cxx_kernel.Bits.Finds.{find_unset-IsFound}
use cxx_kernel.Paging.{
  Paging, Ended, ends, hangs, ◌>>-◌, get_page, map_frame, map_loop, map_heap, take_heap, take_frame,
  is_free,
}
use cxx_kernel.Paging.Entry.{is_avail}
use cxx_kernel.Paging.Grows.{Extends, Extends-refl, Extends-trans, get_page-Prepares, Prepares}
use cxx_kernel.Paging.Exclusive.{
  IsExclusive, Prepares-IsExclusive, take_frame-IsExclusive, take_frame-Extends, same-Extends,
}

-- The bits 0 to 30 of each word from m_last on are set.
abbrev pub IsFull : Bits → Type 0
IsFull b = (a j : ℕ) → b.last ≤ a → a < b.len → j < 31 → bit (b.words a) j ≢ 0

-- The call comes to an end or to the loop without an end of mapFrame, as fuel is enough; the frames
-- are apart there and no frame in use is released, and in the loop there is no frame left.
abbrev pub Kept : {A : Type 0} → Paging → Ended (A × Paging) → Type 0
Kept s (ends r) = IsExclusive r.1 × Extends s.bits r.1.bits
Kept s (hangs t) = IsExclusive t × Extends s.bits t.bits × IsFull t.bits

abbrev pub Served : {A : Type 0} → Paging → Outcome (Ended (A × Paging)) → Type 0
Served s o = Ensures o (Kept s)

unused_bit : (k : ℕ) (b : Bits) → bit (b.words (k / 32)) (k % 32) ≡ 0 → is_set k b ≡ false
unfolding is_set
unused_bit k b h = ground arith

same_bits : (s : Paging) → IsExclusive s → IsExclusive (record s { bits = s.bits })
same_bits s h = record { whole = h.whole; small = h.small; marked = h.marked; single = h.single }

module _ (fuel n : ℕ) (user rw_flag : Bool) (s : Paging) where
  taken :
      not (is_avail (s.pages n)) ≡ true
      → map_frame fuel (some n) user rw_flag s ≡ done (ends (true, s))
  unfolding map_frame
  taken e = rw e refl

  finds :
      (i : ℕ) (b : Bits)
      → not (is_avail (s.pages n)) ≡ false
      → find_unset fuel s.bits ≡ done (some i, b)
      → map_frame fuel (some n) user rw_flag s ≡ done (ends (true, take_frame n i user rw_flag b s))
  unfolding map_frame
  finds i b e f = rw (e, f) refl

  stays :
      (b : Bits)
      → not (is_avail (s.pages n)) ≡ false
      → find_unset fuel s.bits ≡ done (none, b)
      → map_frame fuel (some n) user rw_flag s ≡ done (hangs (record s { bits = b }))
  unfolding map_frame
  stays b e f = rw (e, f) refl

  map_frame-Served :
      s.bits.len < fuel → IsExclusive s → Served s (map_frame fuel (some n) user rw_flag s)
  map_frame-Served l h = elim (Bool-cases (not (is_avail (s.pages n)))) [
    | inl e ↦ (ends (true, s), taken e, (h, Extends-refl s.bits))
    | inr e ↦
        let w = h.small in
        let v = h.whole in
        let free : is_avail (s.pages n) ≡ true = ground arith in
        let ((o, b), run, found) =
          find_unset-IsFound fuel s.bits (omega (arith, l)) (omega (arith, w)) in
        elim found [
          | inl (k, q, z, r, ws, c, x) ↦
              let more = same-Extends s.bits b ws c x in
              let y = ap (λ (p : Option ℕ). done (p, b)) q in
              let range : k < s.bits.cnt = omega (arith, v, r) in
              (
                ends (true, take_frame n k user rw_flag b s),
                finds k b e (run ∙ y),
                (
                  take_frame-IsExclusive n k user rw_flag b s h more range (unused_bit k s.bits z),
                  take_frame-Extends n k user rw_flag b s h more range (unused_bit k s.bits z),
                ),
              )
          | inr (q, same, all) ↦
              let y = ap (λ (p : Option ℕ). done (p, b)) q in
              let at =
                λ (c : Bits). IsExclusive (record s { bits = c }) × Extends s.bits c × IsFull c in
              (
                hangs (record s { bits = b }),
                stays b e (run ∙ y),
                subst at (sym same) (same_bits s h, Extends-refl s.bits, all),
              )
        ]
  ]

weaken :
    {A : Type 0} (s t : Paging) (o : Outcome (Ended (A × Paging)))
    → Extends s.bits t.bits
    → Served t o
    → Served s o
weaken s t o e (ends r, run, (h, more)) =
    (ends r, run, (h, Extends-trans s.bits t.bits r.1.bits e more))
weaken s t o e (hangs u, run, (h, more, full)) =
    (hangs u, run, (h, Extends-trans s.bits t.bits u.bits e more, full))

-- What follows a run that serves.
bind-Served :
    {A B : Type 0} (s : Paging) (o : Outcome (Ended (A × Paging)))
    (f : A × Paging → Outcome (Ended (B × Paging)))
    → Served s o
    → ((r : A × Paging) → IsExclusive r.1 → Extends s.bits r.1.bits → Served s (f r))
    → Served s (o >>- f)
bind-Served s o f (ends r, run, (h, more)) k =
    subst (Served s) (sym (ap (λ (x : Outcome _). x >>- f) run)) (k r h more)
bind-Served s o f (hangs u, run, (h, more, full)) k =
    (hangs u, ap (λ (x : Outcome _). x >>- f) run, (h, more, full))

-- One page of the loop.
map_page-Served :
    (fuel : ℕ) (p : Option ℕ) (user : Bool) (s : Paging)
    → s.bits.len < fuel
    → IsExclusive s
    → Served s (map_frame fuel p user true s)
unfolding map_frame
map_page-Served fuel none user s l h = (ends (false, s), refl, (h, Extends-refl s.bits))
map_page-Served fuel (some n) user s l h = map_frame-Served fuel n user true s l h

map_loop-Served :
    (cnt fuel i : ℕ) (user : Bool) (s : Paging)
    → s.bits.len < fuel
    → IsExclusive s
    → Served s (map_loop cnt fuel i user s)
unfolding map_loop
map_loop-Served zero fuel i user s l h = (ends (true, s), refl, (h, Extends-refl s.bits))
map_loop-Served (suc cnt) fuel i user s l h =
    let p = (get_page i true s).0 in
    let s1 = (get_page i true s).1 in
    let ready = get_page-Prepares i true s in
    let h1 = Prepares-IsExclusive s s1 ready h in
    let e1 = ready.more in
    let len1 = e1.same_len in
    let next = λ (r : Bool × Paging).
      if r.0 then map_loop cnt fuel ((i + 4096) % 2 ^ 32) user r.1 else done (ends (false, r.1)) in
    let goes : (r : Bool × Paging)
        → IsExclusive r.1
        → Extends s1.bits r.1.bits
        → Served s1 (next r) =
      λ r h2 e2.
        let len2 = e2.same_len in
        let branch = λ (b : Bool).
          if b
          then map_loop cnt fuel ((i + 4096) % 2 ^ 32) user r.1
          else done (ends (false, r.1)) in
        elim (Bool-cases r.0) [
          | inl q ↦ subst (Served s1) (ap branch (sym q)) (
              weaken s1 r.1 (branch true) e2 (
                map_loop-Served cnt fuel ((i + 4096) % 2 ^ 32) user r.1
                  (omega (arith, l, len1, len2)) h2))
          | inr q ↦ subst (Served s1) (ap branch (sym q)) (ends (false, r.1), refl, (h2, e2))
        ] in
    let run =
      bind-Served s1 (map_frame fuel p user true s1) next
        (map_page-Served fuel p user s1 (omega (arith, l, len1)) h1) goes in
    let all =
      λ (b : Bool). if b then map_frame fuel p user true s1 >>- next else done (ends (false, s1)) in
    elim (Bool-cases (is_free p s1)) [
      | inl q ↦ subst (Served s) (ap all (sym q)) (weaken s s1 (all true) e1 run)
      | inr q ↦ subst (Served s) (ap all (sym q)) (ends (false, s1), refl, (h1, e1))
    ]

take_heap-Prepares : (user : Bool) (cnt : ℕ) (s : Paging) → Prepares s (take_heap user cnt s).1
unfolding take_heap
take_heap-Prepares true cnt s = record { more = Extends-refl s.bits; entries = λ n. inl refl }
take_heap-Prepares false cnt s = record { more = Extends-refl s.bits; entries = λ n. inl refl }

-- PagingPrivate::map of any number of pages, where the memory has a number of pages that is a multiple
-- of 32 and at most 2^20, each frame of it that a page has is marked as in use and no other page has
-- it, with more fuel than the words of Bits: the call ends, with an address or without one, or comes
-- to the `while(1)` of mapFrame. Both leave each frame that a page has marked and with no other page,
-- and no frame in use is released. The call comes to `while(1)` only with no unmarked frame left that
-- findUnset looks at, which are those of the bits 0 to 30 of each word from m_last on.
pub map_heap-IsExclusive :
    (fuel cnt : ℕ) (user : Bool) (s : Paging)
    → s.bits.len < fuel
    → IsExclusive s
    → Served s (map_heap fuel cnt user s)
unfolding map_heap
map_heap-IsExclusive fuel cnt user s l h =
    let i = (take_heap user cnt s).0 in
    let s1 = (take_heap user cnt s).1 in
    let ready = take_heap-Prepares user cnt s in
    let e1 = ready.more in
    let len1 = e1.same_len in
    let loop =
      map_loop-Served cnt fuel i user s1 (omega (arith, l, len1))
        (Prepares-IsExclusive s s1 ready h) in
    let last = λ (r : Bool × Paging). done (ends (if r.0 then some i else none, r.1)) in
    weaken s s1 (map_loop cnt fuel i user s1 >>- last) e1 (
      bind-Served s1 (map_loop cnt fuel i user s1) last loop
        (λ r h2 e2. (ends (if r.0 then some i else none, r.1), refl, (h2, e2))))
