-- ===== src/Paging/Start.antt =====
-- The start of paging: the size of the memory, and the pages that are mapped to themselves.
use cxx_kernel.Base.{
  ℕ, zero, suc, ◌+◌, ◌-◌, ◌/◌, ◌%◌, ◌^◌, true, false, ◌||◌, List, [], ◌∷◌, ltb, ◌==◌, if◌then◌else◌,
}
use cxx_kernel.Bits.{new_bits}
use cxx_kernel.Paging.{Paging, get_page, identity_map}

-- An entry of the memory map of the boot loader.
pub record MemoryMap : Type 0 where
  pub base_addr_low : ℕ
  pub length_low : ℕ
  pub kind : ℕ

-- The loop over the memory map, whose entries that it reaches are a list. It stops behind an entry
-- of a type other than available, reserved and reclaimable.
unfoldable pub scan_memory : List MemoryMap → ℕ → ℕ
scan_memory [] mem_size = mem_size
scan_memory (e ∷ es) mem_size =
    let end = (e.base_addr_low + e.length_low) % 2 ^ 32 in
    let size = if ltb mem_size end then end else mem_size in
    let rest = scan_memory es size in
    if e.kind == 1 || (e.kind == 2 || e.kind == 3) then rest else size

-- while (i < end) { identityMapFrame(getPage(i), i, kernel, rw); i += PAGE_SIZE; }, with `n` rounds.
unfoldable pub identity_range : ℕ → ℕ → ℕ → Paging → Paging
identity_range zero i end s = s
identity_range (suc n) i end s =
    let rest = identity_range n ((i + 4096) % 2 ^ 32) end (identity_map i false true s).1 in
    if ltb i end then rest else s

-- The loop up to __free_page_address, which a new table moves on.
unfoldable pub identity_free : ℕ → ℕ → Paging → Paging
identity_free zero i s = s
identity_free (suc n) i s =
    let rest = identity_free n ((i + 4096) % 2 ^ 32) (identity_map i false true s).1 in
    if ltb i s.free_page_address then rest else s

abbrev pub rounds : ℕ → ℕ → ℕ
rounds i end = (end - i) / 4096 + 1

abbrev pub map_range : ℕ → ℕ → Paging → Paging
map_range i end s = identity_range (rounds i end) i end s

-- The tables that the start of a heap needs.
unfoldable pub reserve_range : ℕ → ℕ → ℕ → Paging → Paging
reserve_range zero i end s = s
reserve_range (suc n) i end s =
    let rest = reserve_range n (i + 4096) end (get_page i true s).1 in if ltb i end then rest else s

abbrev pub reserve : ℕ → Paging → Paging
reserve i s = reserve_range (rounds i (i + 0xFFFFF)) i (i + 0xFFFFF) s

-- The state before the loops of init, where the memory up to `used` holds the kernel and the objects
-- of `new Bits` and `new PageDir`, and `words` is what stood in the array of Bits.
unfoldable pub start_paging : ℕ → ℕ → (ℕ → ℕ) → Paging
start_paging mem_size used words = record {
  bits = new_bits (mem_size / 4096) words;
  tables = λ i. false;
  tables_phys = λ i. 0;
  pages = λ n. 0;
  heap_address = 0x30000000;
  user_heap_address = 0xD0000000;
  free_page_address = used;
}

-- 2 ^ 20 rounds are more than there are pages.
unfoldable pub init_paging : ℕ → ℕ → ℕ → ℕ → (ℕ → ℕ) → Paging
init_paging mem_size used stack_bottom stack_top words =
    let s0 = reserve 0xD0000000 (reserve 0x30000000 (start_paging mem_size used words)) in
    let s1 = map_range 0xA0000 0xBFFFF (map_range 1 0x10000 s0) in
    let s2 = map_range 0xC8000 0xEFFFF (map_range 0xC0000 0xC7FFF s1) in
    let s3 = map_range 0xF0000 0xFFFFF s2 in
    let s4 = identity_free (2 ^ 20) 0x100000 s3 in
    let s5 = map_range stack_bottom stack_top s4 in
    map_range s5.free_page_address (s5.free_page_address + 0xFFFFF) s5
