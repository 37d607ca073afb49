-- ===== src/MemoryManager/Slot.antt =====
-- treeAdd inserts a block as a leaf of the tree.
use cxx_kernel.Base.{
  update_same, update_other, ℕ, zero, suc, ◌≤◌, ◌<◌, ◌≡◌, refl, sym, ◌∙◌, ◌≢◌, inl, inr, Bool, true,
  false, Bool-cases, zero_or_not, arith, done, Ensures, ltb, ==_iff, ==_false, if◌then◌else◌,
}
use cxx_kernel.MemoryManager.{Links, Manager, write, unlinked, find_slot, tree_add}
use cxx_kernel.MemoryManager.Blocks.{
  Tree, leaf, node, has, nodes, Shape, IsDistinct, has_self, has_left, has_right, IsDistinct-left,
  IsDistinct-right, root_outside, absent, Shape-write, Shape-unlinked, Shape-zero,
}

-- The search tree with one block more, larger blocks and equal ones to the right.
unfoldable pub insert : (ℕ → ℕ) → Tree → ℕ → Tree
insert size leaf q = node leaf q leaf
insert size (node l a r) q =
    if ltb (size q) (size a) then node (insert size l q) a r else node l a (insert size r q)

-- The slot `s` is at a block of `t`, and takes `q` to its place.
abbrev Takes : (ℕ → ℕ) → Links → ℕ → Tree → ℕ → Bool × ℕ → Type 0
Takes size k p t q s = (0 < has s.1 t) × Shape (write s q k) p (insert size t q)

module _ (size : ℕ → ℕ) (q : ℕ) (k : Links) (nonnull : q ≢ 0) (no_prev : k.prev q ≡ 0)
    (no_next : k.next q ≡ 0) where
  -- The new leaf, after a write to a slot elsewhere.
  new_leaf : (s : Bool) (a : ℕ) → a ≢ q → Shape (write (s, a) q k) q (node leaf q leaf)
  new_leaf true a n = (refl, nonnull, update_other k.prev a q q (λ e. n (sym e)) ∙ no_prev, no_next)
  new_leaf false a n =
      (refl, nonnull, no_prev, update_other k.next a q q (λ e. n (sym e)) ∙ no_next)

  insert_left :
      (l r : Tree) (a : ℕ)
      → ltb (size q) (size a) ≡ true
      → insert size (node l a r) q ≡ node (insert size l q) a r
  unfolding insert
  insert_left l r a h = rw h refl

  insert_right :
      (l r : Tree) (a : ℕ)
      → ltb (size q) (size a) ≡ false
      → insert size (node l a r) q ≡ node l a (insert size r q)
  unfolding insert
  insert_right l r a h = rw h refl

  -- The slot is the node's own.
  Takes-here :
      (l r : Tree) (a : ℕ)
      → IsDistinct (node l a r)
      → has q (node l a r) ≡ 0
      → Shape k a (node l a r)
      → k.prev a ≡ 0
      → ltb (size q) (size a) ≡ true
      → Takes size k a (node l a r) q (true, a)
  unfolding insert
  Takes-here l r a d h (e, n, x, y) z c =
      let ne : a ≢ q = (absent l r a q h).1 in
      let empty : l ≡ leaf = Shape-zero k (k.prev a) l x z in
      let shape : Shape (write (true, a) q k) a (node (node leaf q leaf) a r) = (
        refl,
        n,
        rw (update_same k.prev a q) (new_leaf true a ne),
        Shape-write true a q (k.next a) k r (root_outside l r a d).1 y,
      ) in
      (has_self l r a, rw (insert_left l r a c, empty) shape)

  Takes-here_right :
      (l r : Tree) (a : ℕ)
      → IsDistinct (node l a r)
      → has q (node l a r) ≡ 0
      → Shape k a (node l a r)
      → k.next a ≡ 0
      → ltb (size q) (size a) ≡ false
      → Takes size k a (node l a r) q (false, a)
  unfolding insert
  Takes-here_right l r a d h (e, n, x, y) z c =
      let ne : a ≢ q = (absent l r a q h).1 in
      let empty : r ≡ leaf = Shape-zero k (k.next a) r y z in
      let shape : Shape (write (false, a) q k) a (node l a (node leaf q leaf)) = (
        refl,
        n,
        Shape-write false a q (k.prev a) k l (root_outside l r a d).0 x,
        rw (update_same k.next a q) (new_leaf false a ne),
      ) in
      (has_self l r a, rw (insert_right l r a c, empty) shape)

  -- The slot is below the node, on the left or on the right.
  Takes-left :
      (l r : Tree) (a : ℕ) (s : Bool × ℕ)
      → IsDistinct (node l a r)
      → Shape k a (node l a r)
      → ltb (size q) (size a) ≡ true
      → Takes size k (k.prev a) l q s
      → Takes size k a (node l a r) q s
  Takes-left l r a (true, b) d (e, n, x, y) c (i, t) =
      let (ne, out) = has_left l r a b i d in
      let shape : Shape (write (true, b) q k) a (node (insert size l q) a r) =
        (refl, n, rw (update_other k.prev b q a ne) t, Shape-write true b q (k.next a) k r out y) in
      (omega arith, rw (insert_left l r a c) shape)
  Takes-left l r a (false, b) d (e, n, x, y) c (i, t) =
      let (ne, out) = has_left l r a b i d in
      let shape : Shape (write (false, b) q k) a (node (insert size l q) a r) = (
        refl,
        n,
        t,
        rw (update_other k.next b q a ne) (Shape-write false b q (k.next a) k r out y),
      ) in
      (omega arith, rw (insert_left l r a c) shape)

  Takes-right :
      (l r : Tree) (a : ℕ) (s : Bool × ℕ)
      → IsDistinct (node l a r)
      → Shape k a (node l a r)
      → ltb (size q) (size a) ≡ false
      → Takes size k (k.next a) r q s
      → Takes size k a (node l a r) q s
  Takes-right l r a (true, b) d (e, n, x, y) c (i, t) =
      let (ne, out) = has_right l r a b i d in
      let shape : Shape (write (true, b) q k) a (node l a (insert size r q)) = (
        refl,
        n,
        rw (update_other k.prev b q a ne) (Shape-write true b q (k.prev a) k l out x),
        t,
      ) in
      (omega arith, rw (insert_right l r a c) shape)
  Takes-right l r a (false, b) d (e, n, x, y) c (i, t) =
      let (ne, out) = has_right l r a b i d in
      let shape : Shape (write (false, b) q k) a (node l a (insert size r q)) = (
        refl,
        n,
        Shape-write false b q (k.prev a) k l out x,
        rw (update_other k.next b q a ne) t,
      ) in
      (omega arith, rw (insert_right l r a c) shape)

  -- The turns of the loop.
  slot_left_end :
      (f a : ℕ)
      → ltb (size q) (size a) ≡ true
      → k.prev a ≡ 0
      → find_slot (suc f) size (size q) a k ≡ done (true, a)
  unfolding find_slot
  slot_left_end f a c z = rw (c, (==_iff (k.prev a) 0).1 z) refl

  slot_left :
      (f a : ℕ)
      → ltb (size q) (size a) ≡ true
      → k.prev a ≢ 0
      → find_slot (suc f) size (size q) a k ≡ find_slot f size (size q) (k.prev a) k
  unfolding find_slot
  slot_left f a c z = rw (c, ==_false (k.prev a) 0 z) refl

  slot_right_end :
      (f a : ℕ)
      → ltb (size q) (size a) ≡ false
      → k.next a ≡ 0
      → find_slot (suc f) size (size q) a k ≡ done (false, a)
  unfolding find_slot
  slot_right_end f a c z = rw (c, (==_iff (k.next a) 0).1 z) refl

  slot_right :
      (f a : ℕ)
      → ltb (size q) (size a) ≡ false
      → k.next a ≢ 0
      → find_slot (suc f) size (size q) a k ≡ find_slot f size (size q) (k.next a) k
  unfolding find_slot
  slot_right f a c z = rw (c, ==_false (k.next a) 0 z) refl

  find_slot-Takes :
      (t : Tree) (f a : ℕ)
      → a ≢ 0
      → nodes t ≤ f
      → IsDistinct t
      → has q t ≡ 0
      → Shape k a t
      → Ensures (find_slot f size (size q) a k) (Takes size k a t q)
  find_slot-Takes leaf f a n h d o x = absurd (n x)
  find_slot-Takes (node l b r) zero a n h d o x = absurd (omega arith)
  find_slot-Takes (node l b r) (suc f) a n h d o (e, m, x, y) =
      let (ol, ne, or) = absent l r b q o in
      let here : Shape k b (node l b r) = (refl, m, x, y) in
      rw e (elim (Bool-cases (ltb (size q) (size b))) [
        | inl c ↦ elim (zero_or_not (k.prev b)) [
          | inl z ↦ (_, slot_left_end f b c z, Takes-here l r b d o here z c)
          | inr z ↦
              let (s, run, i) =
                find_slot-Takes l f (k.prev b) z (omega arith) (IsDistinct-left l r b d) ol x in
              (s, slot_left f b c z ∙ run, Takes-left l r b s d here c i)
        ]
        | inr c ↦ elim (zero_or_not (k.next b)) [
          | inl z ↦ (_, slot_right_end f b c z, Takes-here_right l r b d o here z c)
          | inr z ↦
              let (s, run, i) =
                find_slot-Takes r f (k.next b) z (omega arith) (IsDistinct-right l r b d) or y in
              (s, slot_right f b c z ∙ run, Takes-right l r b s d here c i)
        ]
      ])

-- What the manager becomes when a block is added to its tree: the links and the root change only.
abbrev pub Added : Manager → Tree → ℕ → Manager → Type 0
Added m t p m' =
    Shape m'.links m'.last_free (insert m.size t p)
    × (m' ≡ record m { links = m'.links; last_free = m'.last_free })

abbrev added_at : ℕ → Manager → Bool × ℕ → Manager
added_at p m s = record m { links = write s p (unlinked p m.links) }

tree_add_first :
    (f p : ℕ) (m : Manager)
    → p ≢ 0
    → m.last_free ≡ 0
    → tree_add f p m ≡ done (record m { links = unlinked p m.links; last_free = p })
unfolding tree_add
tree_add_first f p m n z = rw (==_false p 0 n, (==_iff m.last_free 0).1 z) refl

tree_add_below :
    (f p : ℕ) (m : Manager) (s : Bool × ℕ)
    → p ≢ 0
    → m.last_free ≢ 0
    → find_slot f m.size (m.size p) m.last_free (unlinked p m.links) ≡ done s
    → tree_add f p m ≡ done (added_at p m s)
unfolding tree_add
tree_add_below f p m s n z e = rw (==_false p 0 n, ==_false m.last_free 0 z, e) refl

-- With fuel for each free block, treeAdd of a block that is not in the tree returns, and inserts the
-- block as a leaf.
pub tree_add-Added :
    (f p : ℕ) (m : Manager) (t : Tree)
    → p ≢ 0
    → nodes t ≤ f
    → IsDistinct t
    → has p t ≡ 0
    → Shape m.links m.last_free t
    → Ensures (tree_add f p m) (Added m t p)
unfolding insert
tree_add-Added f p m t n h d o x =
    let k = unlinked p m.links in
    let a : k.prev p ≡ 0 = update_same m.links.prev p 0 in
    let b : k.next p ≡ 0 = update_same m.links.next p 0 in
    let y : Shape k m.last_free t = Shape-unlinked p m.last_free m.links t o x in
    elim (zero_or_not m.last_free) [
      | inl z ↦
          let empty : t ≡ leaf = Shape-zero m.links m.last_free t x z in
          (_, tree_add_first f p m n z, (rw empty (refl, n, a, b), refl))
      | inr z ↦
          let (s, run, i) = find_slot-Takes m.size p k n a b t f m.last_free z h d o y in
          (added_at p m s, tree_add_below f p m s n z run, (i.1, refl))
    ]
