-- ===== src/MemoryManager/Release.antt =====
-- releaseFree of the block at the root of the tree.
use cxx_kernel.Base.{
  ℕ, ◌≤◌, ◌≡◌, refl, sym, ◌∙◌, ◌≢◌, false, arith, done, Ensures, ◌==◌, ==_iff, ==_false,
}
use cxx_kernel.MemoryManager.{Manager, unlinked, tree_add, release_top, release_free}
use cxx_kernel.MemoryManager.Blocks.{
  Tree, leaf, node, has, nodes, Shape, IsDistinct, has_left, IsDistinct-right, root_outside,
  Shape-unlinked, has_self,
}
use cxx_kernel.MemoryManager.Slot.{insert, tree_add-Added}
use cxx_kernel.MemoryManager.Order.{has-insert}

-- What is left of the children: of two, the right one, with the root of the left one as a leaf. The
-- blocks under that root are lost.
unfoldable pub left_over : (ℕ → ℕ) → Tree → Tree → Tree
left_over size leaf r = r
left_over size (node x a y) leaf = node x a y
left_over size (node x a y) (node u b v) = insert size (node u b v) a

-- The end of releaseFree.
release_end :
    (f p : ℕ) (m t : Manager)
    → release_top f p m ≡ done t
    → release_free f p 0 m ≡ done (record t { links = unlinked p t.links })
unfolding release_free
release_end f p m t e = rw e refl

top_right :
    (f p : ℕ) (m : Manager)
    → m.links.prev p ≡ 0
    → release_top f p m ≡ done (record m { last_free = m.links.next p })
unfolding release_top
top_right f p m z = rw ((==_iff (m.links.prev p) 0).1 z) refl

top_left :
    (f p : ℕ) (m : Manager)
    → m.links.prev p ≢ 0
    → m.links.next p ≡ 0
    → release_top f p m ≡ done (record m { last_free = m.links.prev p })
unfolding release_top
top_left f p m n z = rw (==_false (m.links.prev p) 0 n, (==_iff (m.links.next p) 0).1 z) refl

top_both :
    (f p a b : ℕ) (m : Manager)
    → m.links.prev p ≡ a
    → m.links.next p ≡ b
    → a ≢ 0
    → b ≢ 0
    → release_top f p m ≡ tree_add f a (record m { last_free = b })
unfolding release_top
top_both f p a b m x y n k = rw (x, y, ==_false a 0 n, ==_false b 0 k) refl

-- With fuel for each block, releaseFree of the block at the root returns, and leaves the right child,
-- or the left one where there is no right one. Where there are both, it adds the root of the left
-- child to the right child as a leaf, and the other blocks of the left child are free no more.
pub release_free-left_over :
    (f p : ℕ) (m : Manager) (l r : Tree)
    → nodes (node l p r) ≤ f
    → IsDistinct (node l p r)
    → Shape m.links m.last_free (node l p r)
    → Ensures (release_free f p 0 m) (λ t. Shape t.links t.last_free (left_over m.size l r))
unfolding left_over
release_free-left_over f p m leaf r h d (e, n, x, y) = (
  _,
  release_end f p m _ (top_right f p m x),
  Shape-unlinked p (m.links.next p) m.links r (root_outside leaf r p d).1 y,
)
release_free-left_over f p m (node u a v) leaf h d (e, n, x, y) =
    let no_left : m.links.prev p ≢ 0 = λ z. x.1 (sym x.0 ∙ z) in
    (
      _,
      release_end f p m _ (top_left f p m no_left y),
      Shape-unlinked p (m.links.prev p) m.links (node u a v) (root_outside (node u a v) leaf p d).0
          x,
    )
release_free-left_over f p m (node u a v) (node s b t) h d (e, n, x, y) =
    let (pa, out_p) = (root_outside (node u a v) (node s b t) p d) in
    let (ne, out_a) = has_left (node u a v) (node s b t) p a (has_self u v a) d in
    let right : Shape m.links b (node s b t) = (refl, y.1, y.2, y.3) in
    let (t', run, i) =
      tree_add-Added f a (record m { last_free = b }) (node s b t) x.1 (omega arith)
        (IsDistinct-right (node u a v) (node s b t) p d) out_a right in
    let other : (a == p) ≡ false = ==_false a p (λ q. ne (sym q)) in
    let out : has p (insert m.size (node s b t) a) ≡ 0 =
      has-insert m.size a (node s b t) p ∙ rw other (omega arith) in
    (
      _,
      release_end f p m t' (top_both f p a b m x.0 y.0 x.1 y.1 ∙ run),
      Shape-unlinked p t'.last_free t'.links (insert m.size (node s b t) a) out i.0,
    )
