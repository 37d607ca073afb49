-- ===== src/Tests/PageRuns.antt =====
-- A memory of 64 pages, none of them in use.
use cxx_kernel.Base.{◌≡◌, true, false, refl, arith}
use cxx_kernel.Bits.{bit}
use cxx_kernel.Paging.{Paging, map_heap, free_pages}
use cxx_kernel.Paging.Entry.{is_avail}
use cxx_kernel.Paging.Exclusive.{IsExclusive}
use cxx_kernel.Paging.Mapping.{Served, map_heap-IsExclusive}
use cxx_kernel.Paging.Wrong.{free_pages-pages}

abbrev empty_memory : Paging
empty_memory = record {
  bits = record { words = λ i. 0; len = 2; cnt = 64; last = 0 };
  tables = λ i. false;
  tables_phys = λ i. 0;
  pages = λ n. 0;
  heap_address = 0x30000000;
  user_heap_address = 0xD0000000;
  free_page_address = 0x4000;
}

free_entry : is_avail 0 ≡ true
unfolding is_avail bit
free_entry = refl

empty_memory-IsExclusive : IsExclusive empty_memory
empty_memory-IsExclusive = record {
  whole = refl;
  small = omega arith;
  marked = λ n e. let w = free_entry in absurd cc;
  single = λ m n e. let w = free_entry in absurd cc;
}

map_heap-IsExclusive_example : Served empty_memory (map_heap 5 3 false empty_memory)
map_heap-IsExclusive_example =
    map_heap-IsExclusive 5 3 false empty_memory (omega arith) empty_memory-IsExclusive

free_pages-pages_example : (free_pages 2 0x30000000 empty_memory).pages 0x30001 ≡ 0
free_pages-pages_example =
    free_pages-pages 2 0x30000000 empty_memory 0x30001 (omega arith) (omega arith)
