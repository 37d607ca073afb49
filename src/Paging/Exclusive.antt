-- ===== src/Paging/Exclusive.antt =====
-- A page of the heap gets a frame that no other page has.
use cxx_kernel.Base.{
  ℕ, ◌*◌, ◌/◌, ◌%◌, ◌^◌, ◌<◌, ◌≤◌, ◌≡◌, refl, sym, ap, ◌∙◌, ◌≢◌, ◌⊎◌, inl, inr, Bool, true, false,
  not, Bool-cases, arith, leb, ◌==◌, ==_iff, if◌then◌else◌, update, update_same, update_other,
}
use cxx_kernel.Bits.{Bits, bit, set_bit, clear_bit, set_member, is_set}
use cxx_kernel.Paging.{Paging, take_frame}
use cxx_kernel.Paging.Entry.{is_avail, mapped_entry}
use cxx_kernel.Paging.Grows.{
  Extends, Prepares, set_member-inside, set_member-Extends, Extends-trans,
}

abbrev pub frame : Paging → ℕ → ℕ
frame s n = s.pages n / 4096

-- Each frame of the memory that a page has is in use and belongs to that page only; the range of the
-- pages ends with a word of Bits, below 4 GB.
pub record IsExclusive (s : Paging) : Type 0 where
  pub whole : s.bits.cnt ≡ s.bits.len * 32
  pub small : s.bits.len * 32 ≤ 2 ^ 20
  pub marked :
      (n : ℕ)
      → is_avail (s.pages n) ≡ false
      → frame s n < s.bits.cnt
      → is_set (frame s n) s.bits ≡ true
  pub single :
      (m n : ℕ)
      → is_avail (s.pages m) ≡ false
      → is_avail (s.pages n) ≡ false
      → frame s m < s.bits.cnt
      → frame s m ≡ frame s n
      → m ≡ n

zero-is_avail : is_avail 0 ≡ true
unfolding is_avail bit
zero-is_avail = refl

mapped_entry-frame : (a v : ℕ) (user rw : Bool) → mapped_entry a user rw v / 4096 ≡ a / 4096
unfolding mapped_entry
mapped_entry-frame a v user rw = omega arith

mapped_entry-is_avail : (a v : ℕ) (user rw : Bool) → is_avail (mapped_entry a user rw v) ≡ false
unfolding is_avail mapped_entry set_bit clear_bit bit
mapped_entry-is_avail a v user rw = ground arith

pub Prepares-IsExclusive : (s t : Paging) → Prepares s t → IsExclusive s → IsExclusive t
Prepares-IsExclusive s t p h =
    let old : (n : ℕ) → is_avail (t.pages n) ≡ false → t.pages n ≡ s.pages n = λ n e.
      elim (p.entries n) [
        | inl q ↦ q
        | inr q ↦ let w : is_avail (t.pages n) ≡ true = ap is_avail q ∙ zero-is_avail in absurd cc
      ] in
    let cnt = p.more.same_cnt in
    let len = p.more.same_len in
    let before = λ (n : ℕ) (e : is_avail (t.pages n) ≡ false). sym (ap is_avail (old n e)) ∙ e in
    let fr : (n : ℕ) → is_avail (t.pages n) ≡ false → frame t n ≡ frame s n =
      λ n e. ap (λ (v : ℕ). v / 4096) (old n e) in
    record {
      whole = let w = h.whole in omega (arith, cnt, len, w);
      small = let w = h.small in omega (arith, len, w);
      marked = λ n e b.
          let f = fr n e in
          ap (λ (k : ℕ). is_set k t.bits) f
          ∙ p.more.kept (frame s n) (h.marked n (before n e) (omega (arith, f, b, cnt)));
      single = λ m n e f b q.
          let x = fr m e in
          let y = fr n f in
          h.single m n (before m e) (before n f) (omega (arith, x, b, cnt)) (sym x ∙ q ∙ y);
    }

same-is_set : (i : ℕ) (a b : Bits) → a.words ≡ b.words → a.cnt ≡ b.cnt → is_set i a ≡ is_set i b
unfolding is_set
same-is_set i a b w c =
    ap (λ (x : ℕ). if leb x i then false else not (bit (a.words (i / 32)) (i % 32) == 0)) c
    ∙ ap (λ (f : ℕ → ℕ). if leb b.cnt i then false else not (bit (f (i / 32)) (i % 32) == 0)) w

pub same-Extends : (a b : Bits) → b.words ≡ a.words → b.cnt ≡ a.cnt → b.len ≡ a.len → Extends a b
same-Extends a b w c l = record {
  same_cnt = c;
  same_len = l;
  kept = λ i e. same-is_set i b a w c ∙ e;
}

-- A page that is free takes the frame of a number that is not in use.
module _ (n k : ℕ) (user rw_flag : Bool) (b : Bits) (s : Paging) (h : IsExclusive s)
    (more : Extends s.bits b) (range : k < s.bits.cnt) (unused : is_set k s.bits ≡ false) where
  abbrev pub entry : ℕ
  entry = mapped_entry (k * 4096 % 2 ^ 32) user rw_flag (s.pages n)

  abbrev pub t : Paging
  t = take_frame n k user rw_flag b s

  entry-frame : entry / 4096 ≡ k
  entry-frame =
      let e = mapped_entry-frame (k * 4096 % 2 ^ 32) (s.pages n) user rw_flag in
      let w = h.whole in let v = h.small in omega (arith, e, range, w, v)

  pub take_frame-Extends : Extends s.bits t.bits
  take_frame-Extends = Extends-trans s.bits b (set_member k b).1 more (set_member-Extends k b)

  here : (m : ℕ) → m ≡ n → t.pages m ≡ entry
  here m e = ap (update s.pages n entry) e ∙ update_same s.pages n entry

  other : (m : ℕ) → m ≢ n → t.pages m ≡ s.pages m
  other m e = update_other s.pages n entry m e

  -- A page in use has its old frame, or it is the new one, with the new frame.
  cases : (m : ℕ) → (m ≡ n × (frame t m ≡ k)) ⊎ (m ≢ n × (t.pages m ≡ s.pages m))
  cases m = elim (Bool-cases (m == n)) [
    | inl e ↦
        let q : m ≡ n = (==_iff m n).0 e in
        inl (q, ap (λ (v : ℕ). v / 4096) (here m q) ∙ entry-frame)
    | inr e ↦ let q : m ≢ n = ground arith in inr (q, other m q)
  ]

  new_marked : is_set k t.bits ≡ true
  new_marked =
      let c = more.same_cnt in
      let w = set_member-inside k b (omega (arith, c, range)) k in
      let e : (k == k) ≡ true = (==_iff k k).1 refl in ground arith

  old_marked :
      (m : ℕ)
      → t.pages m ≡ s.pages m
      → is_avail (t.pages m) ≡ false
      → frame s m < s.bits.cnt
      → is_set (frame s m) s.bits ≡ true
  old_marked m e a f = h.marked m (sym (ap is_avail e) ∙ a) f

  -- A frame of an old page is not the new one.
  apart : (m : ℕ) → t.pages m ≡ s.pages m → is_avail (t.pages m) ≡ false → frame s m ≢ k
  apart m e a q =
      let f : frame s m < s.bits.cnt = omega (arith, q, range) in
      let w = sym (ap (λ (i : ℕ). is_set i s.bits) q) ∙ old_marked m e a f in absurd cc

  frame_same : (m : ℕ) → t.pages m ≡ s.pages m → frame t m ≡ frame s m
  frame_same m e = ap (λ (v : ℕ). v / 4096) e

  pub take_frame-IsExclusive : IsExclusive t
  take_frame-IsExclusive =
      let cnt = take_frame-Extends.same_cnt in
      let len = take_frame-Extends.same_len in
      record {
        whole = let w = h.whole in omega (arith, cnt, len, w);
        small = let w = h.small in omega (arith, len, w);
        marked = λ m a f. elim (cases m) [
          | inl (q, e) ↦ ap (λ (i : ℕ). is_set i t.bits) e ∙ new_marked
          | inr (q, e) ↦
              let x = frame_same m e in
              ap (λ (i : ℕ). is_set i t.bits) x
              ∙ take_frame-Extends.kept (frame s m) (old_marked m e a (omega (arith, x, f, cnt)))
        ];
        single = λ m j a c f q. elim (cases m) [
          | inl (x, e) ↦ elim (cases j) [
            | inl (y, d) ↦ x ∙ sym y
            | inr (y, d) ↦ absurd (apart j d c (sym (frame_same j d) ∙ sym q ∙ e))
          ]
          | inr (x, e) ↦ elim (cases j) [
            | inl (y, d) ↦ absurd (apart m e a (sym (frame_same m e) ∙ q ∙ d))
            | inr (y, d) ↦
                let z = frame_same m e in
                h.single m j (sym (ap is_avail e) ∙ a) (sym (ap is_avail d) ∙ c)
                  (omega (arith, z, f, cnt)) (sym z ∙ q ∙ frame_same j d)
          ]
        ];
      }
