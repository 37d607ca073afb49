-- ===== src/Paging/Grows.antt =====
-- The memory that static allocation takes is only added to the pages in use.
use mathlib.Core.Path.{subst}
use cxx_kernel.Base.{
  ℕ, zero, suc, ◌+◌, ◌-◌, ◌*◌, ◌/◌, ◌%◌, ◌^◌, ◌<◌, ◌≤◌, ◌≡◌, refl, sym, ap, ◌∙◌, ◌⊎◌, inl, inr,
  Bool, true, false, ◌||◌, Bool-cases, Option, some, none, arith, leb, ◌==◌, if◌then◌else◌, update,
}
use cxx_kernel.Bits.{Bits, set_member, is_set}
use cxx_kernel.Bits.Members.{set_member-is_set}
use cxx_kernel.Paging.{
  Paging, mark, mark_unset, align_loop, page_align, free_page_address, mark_pages,
  inc_free_page_address, alloc_static, new_table, get_page,
}

-- `t` has the members of `s`, and more perhaps, of the same range.
pub record Extends (s t : Bits) : Type 0 where
  pub same_cnt : t.cnt ≡ s.cnt
  pub same_len : t.len ≡ s.len
  pub kept : (i : ℕ) → is_set i s ≡ true → is_set i t ≡ true

pub Extends-refl : (b : Bits) → Extends b b
Extends-refl b = record { same_cnt = refl; same_len = refl; kept = λ i h. h }

pub Extends-trans : (a b c : Bits) → Extends a b → Extends b c → Extends a c
Extends-trans a b c h k = record {
  same_cnt = k.same_cnt ∙ h.same_cnt;
  same_len = k.same_len ∙ h.same_len;
  kept = λ i e. k.kept i (h.kept i e);
}

-- Only members of the range are set.
pub is_set-below : (i : ℕ) (b : Bits) → is_set i b ≡ true → i < b.cnt
unfolding is_set
is_set-below i b h = ground arith

set_member-cnt :
    (i : ℕ) (b : Bits) → ((set_member i b).1.cnt ≡ b.cnt) × ((set_member i b).1.len ≡ b.len)
unfolding set_member
set_member-cnt i b = (ground arith, ground arith)

pub set_member-outside : (i : ℕ) (b : Bits) → b.cnt ≤ i → (set_member i b).1 ≡ b
unfolding set_member
set_member-outside i b h = let z : leb b.cnt i ≡ true = ground arith in rw z refl

pub set_member-inside :
    (i : ℕ) (b : Bits) → i < b.cnt → (j : ℕ) → is_set j (set_member i b).1 ≡ (i == j) || is_set j b
set_member-inside i b h j = elim (Bool-cases (leb b.cnt j)) [
  | inl e ↦
      let c = (set_member-cnt i b).0 in
      let e' : leb (set_member i b).1.cnt j ≡ true = ap (λ (n : ℕ). leb n j) c ∙ e in
      let n : (i == j) ≡ false = ground arith in
      let x : is_set j (set_member i b).1 ≡ false = unfold is_set in ground arith in
      let y : is_set j b ≡ false = unfold is_set in ground arith in
      x ∙ sym (ap (λ (c : Bool). c || is_set j b) n ∙ y)
  | inr e ↦ (set_member-is_set b i j h (ground arith)).2
]

pub set_member-Extends : (i : ℕ) (b : Bits) → Extends b (set_member i b).1
set_member-Extends i b = record {
  same_cnt = (set_member-cnt i b).0;
  same_len = (set_member-cnt i b).1;
  kept = λ j h. elim (Bool-cases (leb b.cnt i)) [
    | inl e ↦ ap (is_set j) (set_member-outside i b (ground arith)) ∙ h
    | inr e ↦ let w = set_member-inside i b (ground arith) j in ground arith
  ];
}

-- The entries and the tables stay, and the pages in use too.
pub record Grows (s t : Paging) : Type 0 where
  pub more : Extends s.bits t.bits
  pub same_pages : t.pages ≡ s.pages
  pub same_tables : t.tables ≡ s.tables

pub Grows-refl : (s : Paging) → Grows s s
Grows-refl s = record { more = Extends-refl s.bits; same_pages = refl; same_tables = refl }

pub Grows-trans : (s t u : Paging) → Grows s t → Grows t u → Grows s u
Grows-trans s t u h k = record {
  more = Extends-trans s.bits t.bits u.bits h.more k.more;
  same_pages = k.same_pages ∙ h.same_pages;
  same_tables = k.same_tables ∙ h.same_tables;
}

pub mark-Grows : (i : ℕ) (s : Paging) → Grows s (mark i s)
mark-Grows i s = record {
  more = set_member-Extends i s.bits;
  same_pages = refl;
  same_tables = refl;
}

mark_unset-Grows : (i : ℕ) (s : Paging) → Grows s (mark_unset i s)
mark_unset-Grows i s = elim (Bool-cases (is_set i s.bits)) [
  | inl e ↦ subst (Grows s) (ap (λ (b : Bool). if b then s else mark i s) (sym e)) (Grows-refl s)
  | inr e ↦ subst (Grows s) (ap (λ (b : Bool). if b then s else mark i s) (sym e)) (mark-Grows i s)
]

align_loop-Grows : (n align : ℕ) (s : Paging) → Grows s (align_loop n align s)
unfolding align_loop
align_loop-Grows zero align s = Grows-refl s
align_loop-Grows (suc n) align s =
    let s' = mark (s.free_page_address / 4096) s in
    let t = record s' { free_page_address = (s.free_page_address + 1) % 2 ^ 32 } in
    let g : Grows s t = record {
      more = (mark-Grows _ s).more;
      same_pages = refl;
      same_tables = refl;
    } in
    let all = Grows-trans s t (align_loop n align t) g (align_loop-Grows n align t) in
    let branch = λ (b : Bool). if b then s else align_loop n align t in
    elim (Bool-cases (s.free_page_address % align == 0)) [
      | inl e ↦ subst (Grows s) (ap branch (sym e)) (Grows-refl s)
      | inr e ↦ subst (Grows s) (ap branch (sym e)) all
    ]

mark_pages-Grows : (n i : ℕ) (s : Paging) → Grows s (mark_pages n i s)
unfolding mark_pages
mark_pages-Grows zero i s = Grows-refl s
mark_pages-Grows (suc n) i s =
    Grows-trans s (mark_unset i s) (mark_pages n (i + 1) (mark_unset i s)) (mark_unset-Grows i s)
      (mark_pages-Grows n (i + 1) (mark_unset i s))

pub alloc_static-Grows : (size : ℕ) (s : Paging) → Grows s (alloc_static size s).1
unfolding alloc_static page_align free_page_address inc_free_page_address
alloc_static-Grows size s =
    let a = align_loop 4096 4096 s in
    let i = a.free_page_address / 4096 in
    let b = mark_unset i a in
    let end = (b.free_page_address + size) % 2 ^ 32 in
    let j = b.free_page_address / 4096 in
    let c = mark_pages (end / 4096 + 1 - j) j b in
    let ab = Grows-trans s a b (align_loop-Grows 4096 4096 s) (mark_unset-Grows i a) in
    let bc = Grows-trans s b c ab (mark_pages-Grows (end / 4096 + 1 - j) j b) in
    record { more = bc.more; same_pages = bc.same_pages; same_tables = bc.same_tables }

-- The entries stay or are those of a new table, and the pages in use stay in use.
pub record Prepares (s t : Paging) : Type 0 where
  pub more : Extends s.bits t.bits
  pub entries : (n : ℕ) → (t.pages n ≡ s.pages n) ⊎ (t.pages n ≡ 0)

Prepares-refl : (s : Paging) → Prepares s s
Prepares-refl s = record { more = Extends-refl s.bits; entries = λ n. inl refl }

new_table-Prepares : (index : ℕ) (s : Paging) → Prepares s (new_table index s).1
unfolding new_table
new_table-Prepares index s =
    let g = alloc_static-Grows 4096 s in
    let phys = (alloc_static 4096 s).0 in
    let s' = (alloc_static 4096 s).1 in
    let t = record s' {
      tables = update s'.tables index true;
      tables_phys = update s'.tables_phys index (phys / 8 * 8 + 7);
      pages = λ n. if n / 1024 == index then 0 else s'.pages n;
    } in
    let same = λ (n : ℕ). ap (λ (f : ℕ → ℕ). f n) g.same_pages in
    let a : Prepares s s' = record { more = g.more; entries = λ n. inl (same n) } in
    let b : Prepares s t = record {
      more = g.more;
      entries = λ n. elim (Bool-cases (n / 1024 == index)) [
        | inl e ↦ inr (rw e refl)
        | inr e ↦ inl (rw e (same n))
      ];
    } in
    let branch = λ (c : Bool). (if◌then◌else◌ {A = Bool × Paging} c (false, s') (true, t)).1 in
    elim (Bool-cases (phys == 0)) [
      | inl e ↦ subst (Prepares s) (ap branch (sym e)) a
      | inr e ↦ subst (Prepares s) (ap branch (sym e)) b
    ]

pub get_page-Prepares :
    (addr : ℕ) (reserve : Bool) (s : Paging) → Prepares s (get_page addr reserve s).1
unfolding get_page
get_page-Prepares addr reserve s =
    let r = new_table (addr / 4096 / 1024) s in
    let none_or = λ (b : Bool).
      if◌then◌else◌ {A = Option ℕ × Paging} b (if r.0 then some (addr / 4096) else none, r.1)
        (none, s) in
    let branch = λ (c : Bool).
      (if◌then◌else◌ {A = Option ℕ × Paging} c (some (addr / 4096), s) (none_or reserve)).1 in
    elim (Bool-cases (s.tables (addr / 4096 / 1024))) [
      | inl e ↦ subst (Prepares s) (ap branch (sym e)) (Prepares-refl s)
      | inr e ↦ subst (Prepares s) (ap branch (sym e)) (elim (Bool-cases reserve) [
        | inl q ↦
            subst (Prepares s) (ap (λ (b : Bool). (none_or b).1) (sym q))
              (new_table-Prepares (addr / 4096 / 1024) s)
        | inr q ↦ subst (Prepares s) (ap (λ (b : Bool). (none_or b).1) (sym q)) (Prepares-refl s)
      ])
    ]
