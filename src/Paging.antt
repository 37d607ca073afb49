-- ===== src/Paging.antt =====
-- Paging of the x86 (arch/x86/pagingx86.h, arch/x86/pagingx86.cpp, src/paging.cpp). The tables of the
-- directory are one map from page numbers to entries; `tables` says which tables there are. Physical
-- pages are the members of a Bits. Every call runs under the locks of Paging; the switches of the
-- processor and the messages to the UART are left out.
pub mod Entry
pub mod Start
pub mod Grows
pub mod Exclusive
pub mod Mapping
pub mod Wrong
use cxx_kernel.Base.{
  ℕ, zero, suc, ◌+◌, ◌-◌, ◌*◌, ◌/◌, ◌%◌, ◌^◌, Bool, true, false, ◌&&◌, ◌||◌, not, Option, some,
  none, Outcome, done, ◌>>=◌, ltb, leb, ◌==◌, if◌then◌else◌, update,
}
use cxx_kernel.Bits.{Bits, set_member, clear_member, is_set, find_unset}
use cxx_kernel.Paging.Entry.{is_avail, get_address, mapped_entry, unmapped_entry}

pub record Paging : Type 0 where
  pub bits : Bits
  pub tables : ℕ → Bool
  pub tables_phys : ℕ → ℕ
  pub pages : ℕ → ℕ
  pub heap_address : ℕ
  pub user_heap_address : ℕ
  pub free_page_address : ℕ

abbrev pub mark : ℕ → Paging → Paging
mark i s = record s { bits = (set_member i s.bits).1 }

abbrev pub unmark : ℕ → Paging → Paging
unmark i s = record s { bits = (clear_member i s.bits).1 }

-- pageAlign, whose loop makes less than `align` rounds.
unfoldable pub align_loop : ℕ → ℕ → Paging → Paging
align_loop zero align s = s
align_loop (suc n) align s =
    let s' = mark (s.free_page_address / 4096) s in
    let rest =
      align_loop n align (record s' { free_page_address = (s.free_page_address + 1) % 2 ^ 32 }) in
    if s.free_page_address % align == 0 then s else rest

unfoldable pub page_align : ℕ → Paging → Paging
page_align align s = align_loop align align s

-- `if (!isSet(i)) set(i);`
abbrev pub mark_unset : ℕ → Paging → Paging
mark_unset i s = if is_set i s.bits then s else mark i s

unfoldable pub free_page_address : Paging → ℕ × Paging
free_page_address s = (s.free_page_address, mark_unset (s.free_page_address / 4096) s)

-- The loop of incFreePageAddress, `n` rounds of it.
unfoldable pub mark_pages : ℕ → ℕ → Paging → Paging
mark_pages zero i s = s
mark_pages (suc n) i s = mark_pages n (i + 1) (mark_unset i s)

unfoldable pub inc_free_page_address : ℕ → Paging → Paging
inc_free_page_address size s =
    let i = s.free_page_address / 4096 in
    let end = (s.free_page_address + size) % 2 ^ 32 in
    record (mark_pages (end / 4096 + 1 - i) i s) { free_page_address = end }

-- Paging::allocStatic
unfoldable pub alloc_static : ℕ → Paging → ℕ × Paging
alloc_static size s =
    let (addr, s') = free_page_address (page_align 4096 s) in (addr, inc_free_page_address size s')

-- A new table, with all entries 0, and its entry in the directory.
unfoldable pub new_table : ℕ → Paging → Bool × Paging
new_table index s =
    let (phys, s') = alloc_static 4096 s in
    if phys == 0 then (false, s') else (
      true,
      record s' {
        tables = update s'.tables index true;
        tables_phys = update s'.tables_phys index (phys / 8 * 8 + 7);
        pages = λ n. if n / 1024 == index then 0 else s'.pages n;
      },
    )

-- PageDir::getPage, as the number of the page.
unfoldable pub get_page : ℕ → Bool → Paging → Option ℕ × Paging
get_page addr reserve s =
    let n = addr / 4096 in
    let (ok, s') = new_table (n / 1024) s in
    if s.tables (n / 1024)
    then (some n, s)
    else if reserve
    then (if ok then some n else none, s')
    else (none, s)

unfoldable pub identity_map_frame : Option ℕ → ℕ → Bool → Bool → Paging → Bool × Paging
identity_map_frame none addr user rw s = (false, s)
identity_map_frame (some n) addr user rw s =
    let s' = mark (addr / 4096) s in
    (
      not (is_set (addr / 4096) s.bits),
      record s' { pages = update s'.pages n (mapped_entry addr user rw (s'.pages n)) },
    )

unfoldable pub identity_map : ℕ → Bool → Bool → Paging → Bool × Paging
identity_map addr user rw s =
    let (p, s') = get_page addr true s in identity_map_frame p addr user rw s'

-- The entry of a page for the frame that findUnset gave.
abbrev pub take_frame : ℕ → ℕ → Bool → Bool → Bits → Paging → Paging
take_frame n i user rw b s =
    let s' = mark i (record s { bits = b }) in
    record s' { pages = update s'.pages n (mapped_entry (i * 4096 % 2 ^ 32) user rw (s'.pages n)) }

-- How a call goes that may need a frame: it ends with a value, or it stays in the `while(1)` of
-- mapFrame, in a state.
pub data Ended (A : Type 0) : Type 0 where
  ends : A → Ended A
  hangs : Paging → Ended A

infixl 5 ◌>>-◌
abbrev pub ◌>>-◌ : {A B : Type 0} → Outcome (Ended A) → (A → Outcome (Ended B)) → Outcome (Ended B)
o >>- f = o >>= (λ r. elim r [ ends a ↦ f a | hangs s ↦ done (hangs s) ])

-- mapFrame; out of memory it stays in `while(1)`.
unfoldable pub map_frame : ℕ → Option ℕ → Bool → Bool → Paging → Outcome (Ended (Bool × Paging))
map_frame fuel none user rw s = done (ends (false, s))
map_frame fuel (some n) user rw s =
    if not (is_avail (s.pages n))
    then done (ends (true, s))
    else find_unset fuel s.bits >>= (λ r. elim r.0 [
      | none ↦ done (hangs (record s { bits = r.1 }))
      | some i ↦ done (ends (true, take_frame n i user rw r.1 s))
    ])

-- PagingPrivate::getPage
unfoldable pub get_free_page : ℕ → Paging → Outcome (ℕ × Paging)
get_free_page fuel s = find_unset fuel s.bits >>= (λ r. elim r.0 [
  | none ↦ done (0, record s { bits = r.1 })
  | some i ↦ done (i * 4096 % 2 ^ 32, mark i (record s { bits = r.1 }))
])

unfoldable pub free_page : ℕ → Paging → Paging
free_page addr s = unmark (addr / 4096) s

-- while (address % PAGE_SIZE != 0) ++address;
unfoldable pub align_address : ℕ → ℕ → ℕ
align_address zero a = a
align_address (suc n) a =
    let rest = align_address n ((a + 1) % 2 ^ 32) in if a % 4096 == 0 then a else rest

-- The part of the heap that a mapping of `cnt` pages takes.
unfoldable pub take_heap : Bool → ℕ → Paging → ℕ × Paging
take_heap user cnt s =
    let i = align_address 4096 (if user then s.user_heap_address else s.heap_address) in
    let end = (i + cnt * 4096) % 2 ^ 32 in
    (i, if user then record s { user_heap_address = end } else record s { heap_address = end })

-- Whether the page is there and free.
abbrev pub is_free : Option ℕ → Paging → Bool
is_free none s = false
is_free (some n) s = is_avail (s.pages n)

-- mapPhys: its result, and what *virt is set to.
unfoldable pub map_phys : ℕ → Bool → Paging → Bool × Option ℕ × Paging
map_phys phys user s =
    let (i, s1) = take_heap user 1 s in
    let (p, s2) = get_page i true s1 in
    let (res, s3) = identity_map_frame p phys user true s2 in
    if is_free p s2 then (res, some i, s3) else (false, none, s2)

-- The loop of map.
unfoldable pub map_loop : ℕ → ℕ → ℕ → Bool → Paging → Outcome (Ended (Bool × Paging))
map_loop zero fuel i user s = done (ends (true, s))
map_loop (suc cnt) fuel i user s =
    let (p, s1) = get_page i true s in
    if is_free p s1
    then map_frame fuel p user true s1 >>- (λ r.
      if r.0 then map_loop cnt fuel ((i + 4096) % 2 ^ 32) user r.1 else done (ends (false, r.1)))
    else done (ends (false, s1))

-- map: the address, or none where it fails.
unfoldable pub map_heap : ℕ → ℕ → Bool → Paging → Outcome (Ended (Option ℕ × Paging))
map_heap fuel cnt user s =
    let (i, s1) = take_heap user cnt s in
    map_loop cnt fuel i user s1 >>- (λ r. done (ends (if r.0 then some i else none, r.1)))

-- unmap, which always returns nullptr, from the page on that getPage gives it.
unfoldable pub unmap_page : Option ℕ → Paging → ℕ × Paging
unmap_page none s = (0, s)
unmap_page (some n) s = (
  0,
  unmark (get_address (s.pages n) / 4096)
      (record s { pages = update s.pages n (unmapped_entry (s.pages n)) }),
)

unfoldable pub unmap : ℕ → Paging → ℕ × Paging
unmap ptr s = let (p, s1) = get_page (ptr / 4096) false s in unmap_page p s1

-- Paging::alloc, and the loop of Paging::free.
unfoldable pub alloc_pages : ℕ → ℕ → Paging → Outcome (Ended (ℕ × Paging))
alloc_pages fuel cnt s =
    map_heap fuel cnt false s >>- (λ r. done (ends (elim r.0 [ none ↦ 0 | some i ↦ i ], r.1)))

unfoldable pub free_pages : ℕ → ℕ → Paging → Paging
free_pages zero ptr s = s
free_pages (suc cnt) ptr s =
    let (res, s') = unmap ptr s in free_pages cnt ((ptr + 4096) % 2 ^ 32) (free_page res s')
