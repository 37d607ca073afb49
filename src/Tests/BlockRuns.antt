-- ===== src/Tests/BlockRuns.antt =====
-- The memory manager of src/mm.cpp on a few blocks.
use cxx_kernel.Base.{
  ℕ, ◌+◌, ◌<◌, ◌≡◌, refl, true, false, done, Ensures, arith, update, ◌==◌, if◌then◌else◌,
}
use cxx_kernel.MemoryManager.{
  Manager, used_state, freed_state, tree_add, search, release_free, free_no_lock, alloc_mem,
}
use cxx_kernel.MemoryManager.Blocks.{Tree, leaf, node, has, Shape, IsDistinct}
use cxx_kernel.MemoryManager.Slot.{insert, Added, tree_add-Added}
use cxx_kernel.MemoryManager.Order.{IsOrdered}
use cxx_kernel.MemoryManager.Search.{Finds, search-Finds}
use cxx_kernel.MemoryManager.Release.{left_over, release_free-left_over}
use cxx_kernel.MemoryManager.Free.{Holds, free_no_lock-Holds}
use cxx_kernel.MemoryManager.Room.{IsRoomFor, alloc_mem-IsRoomFor}

-- Free blocks at 200 (8 bytes), 100 (4 bytes) and 300 (16 bytes); the block at 400 is in use.
abbrev lower : Tree
lower = node leaf 100 leaf

abbrev upper : Tree
upper = node leaf 300 leaf

abbrev three : Tree
three = node lower 200 upper

abbrev sizes : ℕ → ℕ
sizes = update (update (update (λ b. 12) 100 4) 200 8) 300 16

abbrev manager : Manager
manager = record {
  links = record { prev = update (λ b. 0) 200 100; next = update (λ b. 0) 200 300 };
  size = sizes;
  ressize = λ b. sizes b + 20;
  state = λ b. if b == 400 then used_state else freed_state;
  used = λ b. b == 400;
  bytes = λ b. 0;
  last_free = 200;
  last_page = 4096;
  free_top = 4500;
  free_max = 8192;
}

three-Shape : Shape manager.links 200 three
three-Shape = (
  refl,
  λ e. omega arith,
  (refl, λ e. omega arith, refl, refl),
  (refl, λ e. omega arith, refl, refl),
)

three-IsDistinct : IsDistinct three
three-IsDistinct b = ground arith

tree_add-Added_example : Ensures (tree_add 3 400 manager) (Added manager three 400)
tree_add-Added_example =
    tree_add-Added 3 400 manager three (λ e. omega arith) (omega arith) three-IsDistinct refl
      three-Shape

three-IsOrdered : IsOrdered sizes three
three-IsOrdered = ((tt, omega arith, tt), (tt, omega arith, tt), (tt, tt, tt, tt), (tt, tt, tt, tt))

search-Finds_example : Ensures (search 3 sizes 16 200 0 manager.links) (Finds sizes 16 three)
search-Finds_example =
    search-Finds sizes 16 manager.links three 3 200 0 (λ e. omega arith) (omega arith)
      three-IsOrdered three-Shape

release_free-left_over_example :
    Ensures
      (release_free 3 200 0 manager)
      (λ t. Shape t.links t.last_free (left_over sizes lower upper))
release_free-left_over_example =
    release_free-left_over 3 200 manager lower upper (omega arith) three-IsDistinct three-Shape

not_used : (b : ℕ) → 0 < has b three → (b == 400) ≡ false
not_used b h = ground arith

three-Holds : Holds manager three
three-Holds = record {
  shape = three-Shape;
  distinct = three-IsDistinct;
  ordered = three-IsOrdered;
  marked = λ b h. rw (not_used b h) refl;
  unused = λ b h. not_used b h;
}

free_no_lock-Holds_example : Ensures (free_no_lock 3 400 manager) (λ r.
    (r.0 ≡ true)
    × Holds r.1 (insert sizes three 400)
    × (free_no_lock 3 400 r.1 ≡ done (false, r.1)))
free_no_lock-Holds_example =
    free_no_lock-Holds 3 400 manager three (λ e. omega arith) refl refl (omega arith) three-Holds

room : (b : ℕ) → 4500 < b → b < 8192 → has b three ≡ 0
room b h k = ground arith

alloc_mem-IsRoomFor_example :
    Ensures (alloc_mem 3 12288 5000 false manager) (IsRoomFor 12288 5000 manager)
alloc_mem-IsRoomFor_example =
    alloc_mem-IsRoomFor 3 12288 5000 manager three (omega arith) three-Holds
      (omega arith, omega arith, room) (λ e. omega arith) (omega arith) (omega arith) (omega arith)
