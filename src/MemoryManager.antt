-- ===== src/MemoryManager.antt =====
-- The memory manager (inc/mm.h, src/mm.cpp), on a 32-bit target: a header PtrInfo takes 20 bytes.
-- A block is named by the address behind its header, the one that alloc returns; ptr_to_ptrinfo
-- and ptrinfo_to_ptr lead from one to the other, and the fields of the headers are maps from
-- blocks. 0 is nullptr. `page` is what Paging gives for a call of allocPage. Every call runs under
-- __mm_mutex; the messages to the UART are left out.
pub mod Blocks
pub mod Slot
pub mod Order
pub mod Search
pub mod Release
pub mod Free
pub mod Room
use cxx_kernel.Base.{
  ℕ, zero, suc, ◌+◌, ◌-◌, ◌*◌, ◌/◌, ◌%◌, ◌^◌, Bool, true, false, not, ◌||◌, ◌&&◌, Outcome, done,
  fault, no_fuel, ◌>>=◌, ltb, leb, ◌==◌, if◌then◌else◌, update,
}
use cxx_kernel.Memory.{fill, move}

pub data PtrState : Type 0 where
  none_state used_state freed_state : PtrState

abbrev pub is_used : PtrState → Bool
is_used used_state = true
is_used none_state = false
is_used freed_state = false

abbrev pub is_freed : PtrState → Bool
is_freed freed_state = true
is_freed none_state = false
is_freed used_state = false

-- The links of the tree of free blocks.
pub record Links : Type 0 where
  pub prev : ℕ → ℕ
  pub next : ℕ → ℕ

pub record Manager : Type 0 where
  pub links : Links
  pub size : ℕ → ℕ
  pub ressize : ℕ → ℕ
  pub state : ℕ → PtrState
  pub used : ℕ → Bool
  pub bytes : ℕ → ℕ
  pub last_free : ℕ
  pub last_page : ℕ
  pub free_top : ℕ
  pub free_max : ℕ

abbrev pub header_size : ℕ
header_size = 20

abbrev pub page_size : ℕ
page_size = 4096

-- cur->next = nullptr; cur->prev = nullptr;
abbrev pub unlinked : ℕ → Links → Links
unlinked cur k = record { prev = update k.prev cur 0; next = update k.next cur 0 }

-- The loop of treeAdd for a block of `want` bytes: the node that takes it, and whether as prev.
unfoldable pub find_slot : ℕ → (ℕ → ℕ) → ℕ → ℕ → Links → Outcome (Bool × ℕ)
find_slot zero size want tmp k = no_fuel
find_slot (suc f) size want tmp k =
    let left = find_slot f size want (k.prev tmp) k in
    let right = find_slot f size want (k.next tmp) k in
    if ltb want (size tmp)
    then if k.prev tmp == 0 then done (true, tmp) else left
    else if k.next tmp == 0
    then done (false, tmp)
    else right

abbrev pub write : Bool × ℕ → ℕ → Links → Links
write (true, tmp) p k = record k { prev = update k.prev tmp p }
write (false, tmp) p k = record k { next = update k.next tmp p }

unfoldable pub tree_add : ℕ → ℕ → Manager → Outcome Manager
tree_add fuel cur m =
    let k = unlinked cur m.links in
    if cur == 0
    then done m
    else if m.last_free == 0
    then done (record m { links = k; last_free = cur })
    else find_slot fuel m.size (m.size cur) m.last_free k
      >>= (λ s. done (record m { links = write s cur k }))

-- treeAdd for a child, where there is one.
unfoldable pub add_child : ℕ → ℕ → Manager → Outcome Manager
add_child fuel p m = if p == 0 then done m else tree_add fuel p m

-- The branch of releaseFree without a parent, up to the reset of the links.
unfoldable pub release_top : ℕ → ℕ → Manager → Outcome Manager
release_top fuel p m =
    let l = m.links.prev p in
    let r = m.links.next p in
    if l == 0
    then done (record m { last_free = r })
    else if r == 0
    then done (record m { last_free = l })
    else tree_add fuel l (record m { last_free = r })

-- The branch with a parent.
unfoldable pub cut_link : ℕ → ℕ → Links → Links
cut_link p parent k =
    if k.prev parent == p
    then write (true, parent) 0 k
    else if k.next parent == p
    then write (false, parent) 0 k
    else k

unfoldable pub release_below : ℕ → ℕ → ℕ → Manager → Outcome Manager
release_below fuel p parent m =
    add_child fuel (m.links.prev p) (record m { links = cut_link p parent m.links })
    >>= (λ t. add_child fuel (t.links.next p) t)

unfoldable pub release_free : ℕ → ℕ → ℕ → Manager → Outcome Manager
release_free fuel p parent m =
    let r = if parent == 0 then release_top fuel p m else release_below fuel p parent m in
    r >>= (λ t. done (record t { links = unlinked p t.links }))

-- The loop of findAvail: the block found and its parent, or 0.
unfoldable pub search : ℕ → (ℕ → ℕ) → ℕ → ℕ → ℕ → Links → Outcome (ℕ × ℕ)
search zero size want tmp parent k = no_fuel
search (suc f) size want tmp parent k =
    let l = k.prev tmp in
    let r = k.next tmp in
    let left = search f size want l tmp k in
    let right = search f size want r tmp k in
    if size tmp == want
    then done (tmp, parent)
    else if ltb want (size tmp)
    then if not (l == 0)
      then left
      else if not (r == 0) && leb want (size r)
      then right
      else done (0, 0)
    else if not (r == 0)
    then right
    else if not (l == 0) && leb (size l) want
    then left
    else done (0, 0)

unfoldable pub find_avail : ℕ → ℕ → Manager → Outcome (ℕ × Manager)
find_avail fuel want m =
    if m.last_free == 0
    then done (0, m)
    else search fuel m.size want m.last_free 0 m.links >>= (λ r.
      if r.0 == 0 then done (0, m) else release_free fuel r.0 r.1 m >>= (λ t. done (r.0, t)))

-- freeNoLock
unfoldable pub free_no_lock : ℕ → ℕ → Manager → Outcome (Bool × Manager)
free_no_lock fuel p m =
    let m' = record m {
      links = unlinked p m.links;
      state = update m.state p freed_state;
      used = update m.used p false;
    } in
    if p == 0
    then done (false, m)
    else if not (m.used p) || is_freed (m.state p) || not (is_used (m.state p))
    then done (false, m)
    else tree_add fuel p m' >>= (λ t. done (true, t))

-- The header of a block in use.
unfoldable pub set_header : ℕ → ℕ → ℕ → Manager → Manager
set_header p size ressize m = record m {
  links = unlinked p m.links;
  size = update m.size p (size % 2 ^ 32);
  ressize = update m.ressize p (ressize % 2 ^ 32);
  state = update m.state p used_state;
  used = update m.used p true;
}

-- size + sizeof(PtrInfo), and the pages it takes.
abbrev pub whole : ℕ → ℕ
whole size = (size + header_size) % 2 ^ 32

abbrev pub pages : ℕ → ℕ
pages size2 = size2 / page_size + (if size2 % page_size == 0 then 0 else 1)

abbrev pub has_page : Manager → Bool
has_page m = not (m.last_page == 0) && not (m.free_top == 0) && not (m.free_max == 0)

-- What is left of the page becomes a free block.
unfoldable pub give_rest : ℕ → Manager → Outcome Manager
give_rest fuel m =
    let diff = (m.free_max + 2 ^ 32 - m.free_top) % 2 ^ 32 in
    let p = (m.free_top + header_size) % 2 ^ 32 in
    if has_page m && ltb ((m.free_top + header_size + 4) % 2 ^ 32) m.free_max
    then free_no_lock fuel p (set_header p ((diff + 2 ^ 32 - header_size) % 2 ^ 32) diff m)
      >>= (λ r. done r.1)
    else done m

-- Memory from the pages: the address of a header, or 0.
unfoldable pub take_room : ℕ → ℕ → ℕ → Manager → Outcome (ℕ × Manager)
take_room fuel page size2 m =
    let fresh = λ (t : Manager). record t {
      last_page = page;
      free_top = (page + size2) % 2 ^ 32;
      free_max = (page + pages size2 * page_size) % 2 ^ 32;
    } in
    if not (has_page m) || leb m.free_max ((m.free_top + size2) % 2 ^ 32)
    then give_rest fuel m >>= (λ t. if page == 0 then done (0, t) else done (page, fresh t))
    else done (m.free_top, record m { free_top = (m.free_top + size2) % 2 ^ 32 })

-- A free block of the size, where allocMem is to look for one.
unfoldable pub reuse : ℕ → Bool → ℕ → Manager → Outcome (ℕ × Manager)
reuse fuel normal size m = if normal then find_avail fuel size m else done (0, m)

unfoldable pub alloc_mem : ℕ → ℕ → ℕ → Bool → Manager → Outcome (ℕ × Manager)
alloc_mem fuel page size normal m = reuse fuel normal size m >>= (λ a.
    if a.0 == 0
    then take_room fuel page (whole size) a.1 >>= (λ r.
      let p = (r.0 + header_size) % 2 ^ 32 in
      done (if r.0 == 0 then (0, r.1) else (p, set_header p size (whole size) r.1)))
    else done (a.0, set_header a.0 size (whole size) a.1))

unfoldable pub alloc_mem_clear : ℕ → ℕ → ℕ → Manager → Outcome (ℕ × Manager)
alloc_mem_clear fuel page size m = alloc_mem fuel page size true m >>= (λ r.
    done (if r.0 == 0 then r else (r.0, record r.1 { bytes = fill size r.0 0 r.1.bytes })))

pub data AllocType : Type 0 where
  alloc_normal alloc_fast alloc_clear alloc_page : AllocType

unfoldable pub alloc : ℕ → ℕ → ℕ → AllocType → Manager → Outcome (ℕ × Manager)
alloc fuel page size kind m =
    if ltb (2 ^ 32 - 1 - header_size) size then done (0, m) else elim kind [
      | alloc_normal ↦ alloc_mem fuel page size true m
      | alloc_fast ↦ alloc_mem fuel page size false m
      | alloc_clear ↦ alloc_mem_clear fuel page size m
      | alloc_page ↦ done (page, m)
    ]

-- The end of realloc, with the new block `new`: the bytes move, and the old block is freed.
unfoldable pub move_over : ℕ → ℕ → ℕ → ℕ → Manager → Outcome (ℕ × Manager)
move_over fuel new ptr size m =
    let count = if ltb size (m.size ptr) then size else m.size ptr in
    let m' = record m { bytes = (move new ptr count m.bytes).1 } in
    free_no_lock fuel ptr m' >>= (λ r. done (new, r.1))

unfoldable pub realloc : ℕ → ℕ → ℕ → ℕ → Manager → Outcome (ℕ × Manager)
realloc fuel page ptr size m =
    let dead = ptr == 0 || is_freed (m.state ptr) in
    if size == 0 && not (ptr == 0)
    then free_no_lock fuel ptr m >>= (λ r. done (0, r.1))
    else if not (ptr == 0) && m.size ptr == size
    then done (ptr, m)
    else alloc fuel page size alloc_normal m
      >>= (λ r. if r.0 == 0 || dead then done r else move_over fuel r.0 ptr size r.1)

-- calloc, whose product wraps.
unfoldable pub calloc : ℕ → ℕ → ℕ → ℕ → Manager → Outcome (ℕ × Manager)
calloc fuel page cnt size m = alloc fuel page (cnt * size % 2 ^ 32) alloc_clear m
