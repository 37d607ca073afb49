-- ===== src/Ustar/Blocks.antt =====
-- What reading a block and moving to the next header do.
use mathlib.Core.Path.{ap₂}
use cxx_kernel.Base.{
  ℕ, suc, ◌+◌, ◌-◌, ◌*◌, ◌%◌, ◌^◌, ◌<◌, ◌≤◌, ◌≡◌, refl, List, Bool, true, false, Option, none, some,
  Bool-cases, ◌⊎◌, inl, inr, Outcome, done, Ensures, ltb, lt→ltb, ltb→lt, ◌==◌, ==_false, arith, ap,
  sym, ◌∙◌,
}
use cxx_kernel.Ustar.{
  Disc, Iterator, block_size, block_in_sectors, get_block_loop, get_block, store, off_disc,
  is_ustar, read_header, next_block, get_next, get_current, next,
}

get_block_loop_end :
    (f : ℕ) (disc : Disc) (block index : ℕ) (buf : List ℕ)
    → block_in_sectors disc ≤ block
    → get_block_loop (suc f) disc block index buf ≡ done (true, buf)
unfolding get_block_loop
get_block_loop_end f disc block index buf h = ground arith

block_in_sectors_bound : (disc : Disc) → block_in_sectors disc ≤ 512
unfolding block_in_sectors
block_in_sectors_bound disc = omega arith

get_block_loop_step :
    (f : ℕ) (disc : Disc) (block index : ℕ) (buf : List ℕ)
    → block < block_in_sectors disc
    → get_block_loop (suc f) disc block index buf
      ≡ elim (disc.read_sector (index * block_size % 2 ^ 32 + block * disc.sector_size % 2 ^ 32)) [
        | none ↦ done (false, buf)
        | some bytes ↦
            get_block_loop f disc
              ((block + (2 ^ 32 - 1)) % 2 ^ 32)
              index
              (store (block * disc.sector_size % 2 ^ 32) bytes buf)
      ]
unfolding get_block_loop
get_block_loop_step f disc block index buf h = rw (lt→ltb _ _ h) refl

-- What the first round leaves to do, with `o` the sector read and `z` where it is stored.
abbrev after_first : Disc → ℕ → List ℕ → Option (List ℕ) → ℕ → Outcome (Bool × List ℕ)
after_first disc index buf none z = done (false, buf)
after_first disc index buf (some bytes) z =
    get_block_loop 2 disc (2 ^ 32 - 1) index (store z bytes buf)

after_first_elim :
    (disc : Disc) (index : ℕ) (buf : List ℕ) (o : Option (List ℕ)) (z : ℕ)
    → elim o [
      | none ↦ done (false, buf)
      | some bytes ↦ get_block_loop 2 disc ((0 + (2 ^ 32 - 1)) % 2 ^ 32) index (store z bytes buf)
    ]
      ≡ after_first disc index buf o z
after_first_elim disc index buf none z = refl
after_first_elim disc index buf (some bytes) z = refl

get_block_loop_first :
    (disc : Disc) (index : ℕ) (buf : List ℕ)
    → 0 < block_in_sectors disc
    → get_block_loop 3 disc 0 index buf
      ≡ after_first disc index buf (disc.read_sector (index * block_size % 2 ^ 32)) 0
get_block_loop_first disc index buf h =
    let p : index * block_size % 2 ^ 32 + 0 * disc.sector_size % 2 ^ 32
        ≡ index * block_size % 2 ^ 32 =
      omega arith in
    let z : 0 * disc.sector_size % 2 ^ 32 ≡ 0 = omega arith in
    get_block_loop_step 2 disc 0 index buf h
    ∙ after_first_elim disc index buf _ _
    ∙ ap₂ (λ (a b : ℕ). after_first disc index buf (disc.read_sector a) b) p z

after_first_end :
    (disc : Disc) (index : ℕ) (buf : List ℕ) (o : Option (List ℕ)) (z : ℕ)
    → after_first disc index buf o z
      ≡ elim o [ none ↦ done (false, buf) | some bytes ↦ done (true, store z bytes buf) ]
after_first_end disc index buf none z = refl
after_first_end disc index buf (some bytes) z =
    get_block_loop_end 1 disc (2 ^ 32 - 1) index _ (omega (arith, block_in_sectors_bound disc))

-- Where the block has a sector at all, getBlock reads one sector, at the block's position, and
-- stores it at the start of the buffer: a read that fails is reported, and the block's other
-- sectors are not read.
pub get_block_lem :
    (disc : Disc) (index : ℕ) (buf : List ℕ)
    → 0 < block_in_sectors disc
    → get_block 3 disc index buf ≡ elim (disc.read_sector (index * block_size % 2 ^ 32)) [
      | none ↦ done (false, buf)
      | some bytes ↦ done (true, store 0 bytes buf)
    ]
unfolding get_block
get_block_lem disc index buf h =
    get_block_loop_first disc index buf h ∙ after_first_end disc index buf _ 0

get_block_reads :
    (disc : Disc) (index : ℕ) (buf : List ℕ)
    → 0 < block_in_sectors disc
    → (o : Option (List ℕ)) → disc.read_sector (index * block_size % 2 ^ 32) ≡ o
    → (r : Bool × List ℕ) × (get_block 3 disc index buf ≡ done r)
get_block_reads disc index buf h none e = ((false, buf), get_block_lem disc index buf h ∙ rw e refl)
get_block_reads disc index buf h (some bytes) e =
    ((true, store 0 bytes buf), get_block_lem disc index buf h ∙ rw e refl)

pub get_block_Ends :
    (disc : Disc) (index : ℕ) (buf : List ℕ)
    → (r : Bool × List ℕ) × (get_block 3 disc index buf ≡ done r)
unfolding get_block
get_block_Ends disc index buf = elim (Bool-cases (ltb 0 (block_in_sectors disc))) [
  | inl h ↦ get_block_reads disc index buf (ltb→lt _ _ h) _ refl
  | inr h ↦ ((true, buf), get_block_loop_end 2 disc 0 index buf (ground arith))
]

-- The header that the iterator has moved to.
abbrev pub Advanced : Iterator → Iterator → Type 0
Advanced it it' = (it.block < it'.block) × (it'.index ≡ it'.block) × (is_ustar it'.header ≡ true)

read_header_result : (it : Iterator) → (read_header it).0 ≡ is_ustar it.header
unfolding read_header
read_header_result it = elim (Bool-cases (is_ustar it.header)) [
  | inl u ↦ rw u refl
  | inr u ↦ rw u refl
]

read_header_places :
    (it : Iterator)
    → ((read_header it).1.block ≡ it.block)
      × ((read_header it).1.index ≡ it.index)
      × ((read_header it).1.header ≡ it.header)
unfolding read_header
read_header_places it = elim (Bool-cases (is_ustar it.header)) [
  | inl u ↦ rw u (refl, refl, refl)
  | inr u ↦ rw u (refl, refl, refl)
]

read_header-Advanced :
    (it it' : Iterator)
    → it.block < it'.block
    → it'.index ≡ it'.block
    → (read_header it').0 ≡ true
    → Advanced it (read_header it').1
read_header-Advanced it it' h e t =
    let (b, i, x) = read_header_places it' in
    (rw b h, i ∙ e ∙ sym b, ap is_ustar x ∙ sym (read_header_result it') ∙ t)

-- What get_next does with the block it has read.
abbrev moved : ℕ → Iterator → Bool × List ℕ → Bool × Iterator
moved n it (false, buf) = (false, record it { index = n; header = buf })
moved n it (true, buf) = read_header (record it { index = n; header = buf; block = n })

get_next_read :
    (disc : Disc) (n : ℕ) (it : Iterator) (r : Bool × List ℕ)
    → ltb n it.index ≡ false
    → off_disc disc n ≡ false
    → get_block 3 disc n it.header ≡ done r
    → get_next 3 disc n it ≡ done (moved n it r)
unfolding get_next
get_next_read disc n it (false, buf) h o e = rw (h, o, e) refl
get_next_read disc n it (true, buf) h o e = rw (h, o, e) refl

get_next_off :
    (disc : Disc) (n : ℕ) (it : Iterator)
    → ltb n it.index ≡ false
    → off_disc disc n ≡ true
    → get_next 3 disc n it ≡ done (false, record it { index = n })
unfolding get_next
get_next_off disc n it h o = rw (h, o) refl

get_next_back :
    (disc : Disc) (n : ℕ) (it : Iterator)
    → ltb n it.index ≡ true
    → get_next 3 disc n it ≡ done (false, it)
unfolding get_next
get_next_back disc n it h = rw h refl

moved-Advanced :
    (n : ℕ) (before it : Iterator) (r : Bool × List ℕ)
    → before.block < n
    → (moved n it r).0 ≡ true
    → Advanced before (moved n it r).1
moved-Advanced n before it (false, buf) h t = absurd cc
moved-Advanced n before it (true, buf) h t =
    read_header-Advanced before (record it { index = n; header = buf; block = n }) h refl t

get_next-Advanced :
    (disc : Disc) (n : ℕ) (before it : Iterator)
    → before.block < it.index
    → Ensures (get_next 3 disc n it) (λ r. r.0 ≡ true → Advanced before r.1)
get_next-Advanced disc n before it b = elim (Bool-cases (ltb n it.index)) [
  | inl h ↦ (_, get_next_back disc n it h, λ t. absurd cc)
  | inr h ↦ elim (Bool-cases (off_disc disc n)) [
    | inl o ↦ (_, get_next_off disc n it h o, λ t. absurd cc)
    | inr o ↦
        let (r, e) = get_block_Ends disc n it.header in
        (_, get_next_read disc n it r h o e, moved-Advanced n before it r (ground arith))
  ]
]

get_current-Advanced :
    (disc : Disc) (before it : Iterator)
    → before.block < it.index
    → it.block < it.index
    → Ensures (get_current 3 disc it) (λ r. r.0 ≡ true → Advanced before r.1)
unfolding get_current
get_current-Advanced disc before it b h = elim (Bool-cases (off_disc disc it.index)) [
  | inl o ↦ ((false, it), rw o refl, λ t. absurd cc)
  | inr o ↦
      let ne : (it.block == it.index) ≡ false = ==_false _ _ (λ e. omega arith) in
      let (r, e, p) = get_next-Advanced disc (next_block it.block it.size) before it b in
      (r, rw (o, ne) e, p)
]

stopped_or_moved :
    (it : Iterator) (r : Bool × Iterator)
    → (r.0 ≡ true → Advanced it r.1)
    → (r.0 ≡ false) ⊎ Advanced it r.1
stopped_or_moved it (true, it') p = inr (p refl)
stopped_or_moved it (false, it') p = inl refl

-- Iterator::next ends, from an iterator that stands at its header. Either it returns false, or the
-- iterator then stands at the header of a later block, which has the magic of a tar header.
pub next-Advanced :
    (disc : Disc) (it : Iterator)
    → it.index ≡ it.block
    → it.block < 2 ^ 32 - 1
    → Ensures (next 3 disc it) (λ r. (r.0 ≡ false) ⊎ Advanced it r.1)
unfolding next
next-Advanced disc it e h =
    let k : it.block < (it.index + 1) % 2 ^ 32 = omega arith in
    let (r, q, p) =
      get_current-Advanced disc it (record it { index = (it.index + 1) % 2 ^ 32 }) k k in
    let r' : Bool × Iterator = (r.0, record r.1 { ok = r.0; data_index = 0 }) in
    (r', rw q refl, stopped_or_moved it r' p)
