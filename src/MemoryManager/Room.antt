-- ===== src/MemoryManager/Room.antt =====
-- Where the blocks come from that allocMem does not find among the free ones.
use cxx_kernel.Base.{
  ℕ, ◌+◌, ◌-◌, ◌*◌, ◌%◌, ◌^◌, ◌≤◌, ◌<◌, ◌≡◌, refl, ap, ◌∙◌, ◌≢◌, ◌⊎◌, inl, inr, Bool, true, false,
  Bool-cases, arith, done, Ensures, ltb, ltb→lt, leb, ◌==◌, ==_iff, ==_false, not, ◌||◌, ◌&&◌,
}
use cxx_kernel.MemoryManager.{
  Manager, header_size, page_size, has_page, set_header, whole, pages, give_rest, take_room, reuse,
  alloc_mem, used_state, free_no_lock,
}
use cxx_kernel.MemoryManager.Blocks.{Tree, has, nodes, Shape, Shape-unlinked}
use cxx_kernel.MemoryManager.Free.{Holds, free_Ends}

-- The pages in use end at free_max, and no free block begins in their unused part.
abbrev pub HasRoom : Manager → Tree → Type 0
HasRoom m t =
    (m.free_top ≤ m.free_max)
    × (m.free_max + header_size + 4 < 2 ^ 32)
    × ((b : ℕ) → m.free_top < b → b < m.free_max → has b t ≡ 0)

module _ (p a b : ℕ) (m : Manager) where
  header_used : ((set_header p a b m).used p ≡ true) × ((set_header p a b m).state p ≡ used_state)
  unfolding set_header
  header_used = let e : (p == p) ≡ true = (==_iff p p).1 refl in rw e (refl, refl)

  header-Shape :
      (t : Tree)
      → has p t ≡ 0
      → Shape m.links m.last_free t
      → Shape (set_header p a b m).links (set_header p a b m).last_free t
  unfolding set_header
  header-Shape t o x = Shape-unlinked p m.last_free m.links t o x

  -- A block with a new header is freed, with fuel for each free block.
  free_new :
      (f : ℕ) (t : Tree)
      → p ≢ 0
      → nodes t ≤ f
      → has p t ≡ 0
      → Holds m t
      → (m' : Manager) × (free_no_lock f p (set_header p a b m) ≡ done (true, m'))
  free_new f t n h o v =
      let (u, s) = header_used in
      let (m', run, i) =
        free_Ends f p (set_header p a b m) t n u s h v.distinct o (header-Shape t o v.shape) in
      (m', run)

and_right : (a b : Bool) → a && b ≡ true → b ≡ true
and_right true b h = h
and_right false b h = absurd cc

-- The rest of a page is freed, with fuel for each free block.
give_rest_Ends :
    (f : ℕ) (m : Manager) (t : Tree)
    → nodes t ≤ f
    → Holds m t
    → HasRoom m t
    → (m' : Manager) × (give_rest f m ≡ done m')
unfolding give_rest
give_rest_Ends f m t h v (le, w, room) =
    elim (Bool-cases (has_page m && ltb ((m.free_top + header_size + 4) % 2 ^ 32) m.free_max)) [
      | inl c ↦
          let small : (m.free_top + header_size + 4) % 2 ^ 32 < m.free_max =
            ltb→lt _ _ (
              and_right (has_page m) (ltb ((m.free_top + header_size + 4) % 2 ^ 32) m.free_max)
                c) in
          let p = (m.free_top + header_size) % 2 ^ 32 in
          let e : p ≡ m.free_top + header_size = omega arith in
          let o : has p t ≡ 0 = room p (omega arith) (omega arith) in
          let diff = (m.free_max + 2 ^ 32 - m.free_top) % 2 ^ 32 in
          let (m', run) =
            free_new p ((diff + 2 ^ 32 - header_size) % 2 ^ 32) diff m f t (λ q. omega arith) h o
              v in
          (m', rw (c, run) refl)
      | inr c ↦ (m, rw c refl)
    ]

pages_cover : (size2 : ℕ) → size2 ≤ pages size2 * page_size
pages_cover size2 = ground arith

-- The block that allocMem makes from the memory at `start`.
abbrev made : ℕ → ℕ → Manager → ℕ × Manager
made start size m = let p = (start + header_size) % 2 ^ 32 in (p, set_header p size (whole size) m)

abbrev at_page : ℕ → ℕ → Manager → Manager
at_page page size2 t = record t {
  last_page = page;
  free_top = (page + size2) % 2 ^ 32;
  free_max = (page + pages size2 * page_size) % 2 ^ 32;
}

module _ (f page size : ℕ) (m : Manager) where
  take_old :
      (not (has_page m) || leb m.free_max ((m.free_top + whole size) % 2 ^ 32)) ≡ false
      → take_room f page (whole size) m
        ≡ done (m.free_top, record m { free_top = (m.free_top + whole size) % 2 ^ 32 })
  unfolding take_room
  take_old c = rw c refl

  take_new :
      (t : Manager)
      → (not (has_page m) || leb m.free_max ((m.free_top + whole size) % 2 ^ 32)) ≡ true
      → page ≢ 0
      → give_rest f m ≡ done t
      → take_room f page (whole size) m ≡ done (page, at_page page (whole size) t)
  unfolding take_room
  take_new t c n e = rw (c, e, ==_false page 0 n) refl

  alloc_made :
      (start : ℕ) (t : Manager)
      → start ≢ 0
      → take_room f page (whole size) m ≡ done (start, t)
      → alloc_mem f page size false m ≡ done (made start size t)
  unfolding alloc_mem reuse
  alloc_made start t n e = rw (e, ==_false start 0 n) refl

-- The block is in use, ends where the unused part of the page begins, and begins with its header
-- either there before or at the new page.
abbrev pub IsRoomFor : ℕ → ℕ → Manager → ℕ × Manager → Type 0
IsRoomFor page size m r =
    (r.1.used r.0 ≡ true)
    × (r.1.size r.0 ≡ size)
    × (r.0 + size ≡ r.1.free_top)
    × (r.1.free_top ≤ r.1.free_max)
    × (((r.0 ≡ m.free_top + header_size) × (r.1.free_max ≡ m.free_max))
        ⊎ ((r.0 ≡ page + header_size)
            × (r.1.free_max ≡ page + pages (size + header_size) * page_size)))

made_facts :
    (p size ressize : ℕ) (m : Manager)
    → size < 2 ^ 32
    → ((set_header p size ressize m).size p ≡ size)
      × ((set_header p size ressize m).free_top ≡ m.free_top)
      × ((set_header p size ressize m).free_max ≡ m.free_max)
unfolding set_header
made_facts p size ressize m h =
    let e : (p == p) ≡ true = (==_iff p p).1 refl in
    let k : size % 2 ^ 32 ≡ size = omega arith in (rw e k, refl, refl)

old_room :
    (m : Manager) (size2 : ℕ)
    → (not (has_page m) || leb m.free_max ((m.free_top + size2) % 2 ^ 32)) ≡ false
    → (m.free_top ≢ 0) × ((m.free_top + size2) % 2 ^ 32 < m.free_max)
old_room m size2 c = (λ z. ground arith, ground arith)

-- What holds of the block wherever it comes from.
made_room :
    (start size : ℕ) (t : Manager)
    → start + size + header_size < 2 ^ 32
    → t.free_top ≡ start + (size + header_size)
    → t.free_top ≤ t.free_max
    → let r = made start size t in
      (r.1.used r.0 ≡ true)
      × (r.1.size r.0 ≡ size)
      × (r.0 + size ≡ r.1.free_top)
      × (r.1.free_top ≤ r.1.free_max)
      × (r.0 ≡ start + header_size)
      × (r.1.free_max ≡ t.free_max)
made_room start size t w e le =
    let p = (start + header_size) % 2 ^ 32 in
    let (a, b, c) = made_facts p size (whole size) t (omega arith) in
    let u = (header_used p size (whole size) t).0 in
    (u, a, omega (arith, b), omega (arith, b, c), omega arith, c)

-- Let the free blocks be the nodes of a search tree, m_freeTop not be behind m_freeMax, m_freeMax with
-- one more header be below 4 GB, and no free block lie between the two. For a size that with its
-- header is below 4 GB, where neither m_freeTop nor a new page, which is there, reaches 4 GB with
-- them: an allocation that looks for no free block returns with a block in use of the size within its
-- page, with fuel for each free block.
pub alloc_mem-IsRoomFor :
    (f page size : ℕ) (m : Manager) (t : Tree)
    → nodes t ≤ f
    → Holds m t
    → HasRoom m t
    → page ≢ 0
    → size + header_size < 2 ^ 32
    → m.free_top + size + header_size < 2 ^ 32
    → page + pages (size + header_size) * page_size < 2 ^ 32
    → Ensures (alloc_mem f page size false m) (IsRoomFor page size m)
alloc_mem-IsRoomFor f page size m t h v room n w g k =
    elim (Bool-cases (not (has_page m) || leb m.free_max ((m.free_top + whole size) % 2 ^ 32))) [
      | inl c ↦
          let (m', run) = give_rest_Ends f m t h v room in
          let cover = pages_cover (size + header_size) in
          let q = at_page page (whole size) m' in
          let z : whole size ≡ size + header_size = omega arith in
          let top : q.free_top ≡ page + (size + header_size) = omega (arith, cover) in
          let end : q.free_max ≡ page + pages (size + header_size) * page_size =
            ap (λ (s : ℕ). (page + pages s * page_size) % 2 ^ 32) z ∙ omega arith in
          let (a, b, d, e, i, j) =
            made_room page size q (omega (arith, cover)) top (omega (arith, cover, top, end)) in
          (
            _,
            alloc_made f page size m page q n (take_new f page size m m' c n run),
            (a, b, d, e, inr (i, j ∙ end)),
          )
      | inr c ↦
          let (o, x) = old_room m (whole size) c in
          let q = record m { free_top = (m.free_top + whole size) % 2 ^ 32 } in
          let top : (m.free_top + whole size) % 2 ^ 32 ≡ m.free_top + (size + header_size) =
            omega arith in
          let (a, b, d, e, i, j) = made_room m.free_top size q (omega arith) top (omega arith) in
          (
            _,
            alloc_made f page size m m.free_top q o (take_old f page size m c),
            (a, b, d, e, inl (i, j)),
          )
    ]
