-- ===== src/MemoryManager/Free.antt =====
-- Freeing a block.
use cxx_kernel.Base.{
  ℕ, ◌≤◌, ◌<◌, ◌≡◌, refl, ◌≢◌, inl, inr, true, false, Bool-cases, zero_or_not, arith, update, done,
  Ensures, ◌==◌, ==_false,
}
use cxx_kernel.MemoryManager.{Manager, used_state, freed_state, unlinked, tree_add, free_no_lock}
use cxx_kernel.MemoryManager.Blocks.{Tree, has, nodes, Shape, IsDistinct, Shape-unlinked}
use cxx_kernel.MemoryManager.Slot.{insert, Added, tree_add-Added}
use cxx_kernel.MemoryManager.Order.{IsOrdered, insert-IsOrdered, insert-IsDistinct, has-insert}

-- The free blocks of `m` are the blocks of the search tree `t`.
pub record Holds (m : Manager) (t : Tree) : Type 0 where
  pub shape : Shape m.links m.last_free t
  pub distinct : IsDistinct t
  pub ordered : IsOrdered m.size t
  pub marked : (b : ℕ) → 0 < has b t → m.state b ≡ freed_state
  pub unused : (b : ℕ) → 0 < has b t → m.used b ≡ false

-- The block marked as free, before it is added to the tree.
abbrev marked_free : ℕ → Manager → Manager
marked_free p m = record m {
  links = unlinked p m.links;
  state = update m.state p freed_state;
  used = update m.used p false;
}

free_adds :
    (f p : ℕ) (m t : Manager)
    → p ≢ 0
    → m.used p ≡ true
    → m.state p ≡ used_state
    → tree_add f p (marked_free p m) ≡ done t
    → free_no_lock f p m ≡ done (true, t)
unfolding free_no_lock
free_adds f p m t n u s e = rw (==_false p 0 n, u, s, e) refl

-- A block that is not in use is refused, and nothing changes.
free_refused : (f p : ℕ) (m : Manager) → m.used p ≡ false → free_no_lock f p m ≡ done (false, m)
unfolding free_no_lock
free_refused f p m u = elim (Bool-cases (p == 0)) [ inl e ↦ rw e refl | inr e ↦ rw (e, u) refl ]

-- With fuel for each free block, freeing a block in use that is not in the tree returns.
pub free_Ends :
    (f p : ℕ) (m : Manager) (t : Tree)
    → p ≢ 0
    → m.used p ≡ true
    → m.state p ≡ used_state
    → nodes t ≤ f
    → IsDistinct t
    → has p t ≡ 0
    → Shape m.links m.last_free t
    → (m' : Manager) × (free_no_lock f p m ≡ done (true, m')) × Added (marked_free p m) t p m'
free_Ends f p m t n u s h d o x =
    let y = Shape-unlinked p m.last_free m.links t o x in
    let (m', run, i) = tree_add-Added f p (marked_free p m) t n h d o y in
    (m', free_adds f p m m' n u s run, i)

marked_absent : (p : ℕ) (m : Manager) (t : Tree) → Holds m t → m.state p ≡ used_state → has p t ≡ 0
marked_absent p m t h e = elim (zero_or_not (has p t)) [
  | inl z ↦ z
  | inr z ↦ let q : m.state p ≡ freed_state = h.marked p (omega arith) in absurd cc
]

updated_state :
    (p b : ℕ) (m : Manager) (t : Tree)
    → Holds m t
    → 0 < has b (insert m.size t p)
    → (update m.state p freed_state b ≡ freed_state) × (update m.used p false b ≡ false)
updated_state p b m t h i = elim (Bool-cases (p == b)) [
  | inl e ↦ rw e (refl, refl)
  | inr e ↦
      let k : 0 < has b t = ground (arith, has-insert m.size p t b) in
      rw e (h.marked b k, h.unused b k)
]

-- With fuel for each free block, freeing a block in use succeeds, and the free blocks are then those
-- before with this one, in a search tree. A second free of the block fails and changes nothing.
pub free_no_lock-Holds :
    (f p : ℕ) (m : Manager) (t : Tree)
    → p ≢ 0
    → m.used p ≡ true
    → m.state p ≡ used_state
    → nodes t ≤ f
    → Holds m t
    → Ensures (free_no_lock f p m) (λ r.
      (r.0 ≡ true) × Holds r.1 (insert m.size t p) × (free_no_lock f p r.1 ≡ done (false, r.1)))
free_no_lock-Holds f p m t n u s h v =
    let o = marked_absent p m t v s in
    let (m', run, i) = free_Ends f p m t n u s h v.distinct o v.shape in
    let holds : Holds m' (insert m.size t p) = record {
      shape = i.0;
      distinct = insert-IsDistinct m.size p t v.distinct o;
      ordered = rw i.1 (insert-IsOrdered m.size p t v.ordered);
      marked = λ b k. rw i.1 (updated_state p b m t v k).0;
      unused = λ b k. rw i.1 (updated_state p b m t v k).1;
    } in
    (
      (true, m'),
      run,
      (refl, holds, free_refused f p m' (holds.unused p (ground (arith, has-insert m.size p t p)))),
    )
