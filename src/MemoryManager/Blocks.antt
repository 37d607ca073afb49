-- ===== src/MemoryManager/Blocks.antt =====
-- The tree of free blocks that the links spell out.
use cxx_kernel.Base.{
  update_other, ℕ, suc, ◌+◌, ◌≤◌, ◌<◌, ◌≡◌, refl, sym, ◌∙◌, ◌≢◌, Bool, true, false, arith, update,
  ◌==◌, if◌then◌else◌,
}
use cxx_kernel.MemoryManager.{Links, write, unlinked}

pub data Tree : Type 0 where
  leaf : Tree
  node : Tree → ℕ → Tree → Tree

-- How often a block stands in the tree.
abbrev pub has : ℕ → Tree → ℕ
has b leaf = 0
has b (node l a r) = has b l + (if a == b then 1 else 0) + has b r

-- How many blocks there are.
abbrev pub nodes : Tree → ℕ
nodes leaf = 0
nodes (node l a r) = suc (nodes l + nodes r)

-- `k` links the tree from the block `p`.
abbrev pub Shape : Links → ℕ → Tree → Type 0
Shape k p leaf = p ≡ 0
Shape k p (node l a r) = (p ≡ a) × (a ≢ 0) × Shape k (k.prev a) l × Shape k (k.next a) r

abbrev pub IsDistinct : Tree → Type 0
IsDistinct t = (b : ℕ) → has b t ≤ 1

pub has_self : (l r : Tree) (a : ℕ) → 0 < has a (node l a r)
has_self l r a = ground arith

pub has_left :
    (l r : Tree) (a b : ℕ) → 0 < has b l → IsDistinct (node l a r) → (a ≢ b) × (has b r ≡ 0)
has_left l r a b h d = let e : has b (node l a r) ≤ 1 = d b in (λ q. ground arith, ground arith)

pub has_right :
    (l r : Tree) (a b : ℕ) → 0 < has b r → IsDistinct (node l a r) → (a ≢ b) × (has b l ≡ 0)
has_right l r a b h d = let e : has b (node l a r) ≤ 1 = d b in (λ q. ground arith, ground arith)

pub IsDistinct-left : (l r : Tree) (a : ℕ) → IsDistinct (node l a r) → IsDistinct l
IsDistinct-left l r a d b = let e : has b (node l a r) ≤ 1 = d b in omega arith

pub IsDistinct-right : (l r : Tree) (a : ℕ) → IsDistinct (node l a r) → IsDistinct r
IsDistinct-right l r a d b = let e : has b (node l a r) ≤ 1 = d b in omega arith

pub root_outside : (l r : Tree) (a : ℕ) → IsDistinct (node l a r) → (has a l ≡ 0) × (has a r ≡ 0)
root_outside l r a d = let e : has a (node l a r) ≤ 1 = d a in (ground arith, ground arith)

pub absent :
    (l r : Tree) (a b : ℕ) → has b (node l a r) ≡ 0 → (has b l ≡ 0) × (a ≢ b) × (has b r ≡ 0)
absent l r a b h = (omega arith, λ q. ground arith, omega arith)

-- A write to a block outside a tree leaves the tree.
pub Shape-write :
    (s : Bool) (b q p : ℕ) (k : Links) (t : Tree)
    → has b t ≡ 0
    → Shape k p t
    → Shape (write (s, b) q k) p t
Shape-write s b q p k leaf h e = e
Shape-write true b q p k (node l a r) h (e, n, x, y) =
    let (hl, ne, hr) = absent l r a b h in
    let u : update k.prev b q a ≡ k.prev a = update_other k.prev b q a ne in
    (
      e,
      n,
      rw u (Shape-write true b q (k.prev a) k l hl x),
      Shape-write true b q (k.next a) k r hr y,
    )
Shape-write false b q p k (node l a r) h (e, n, x, y) =
    let (hl, ne, hr) = absent l r a b h in
    let u : update k.next b q a ≡ k.next a = update_other k.next b q a ne in
    (
      e,
      n,
      Shape-write false b q (k.prev a) k l hl x,
      rw u (Shape-write false b q (k.next a) k r hr y),
    )

pub Shape-unlinked :
    (b p : ℕ) (k : Links) (t : Tree) → has b t ≡ 0 → Shape k p t → Shape (unlinked b k) p t
Shape-unlinked b p k t h x = Shape-write false b 0 p _ t h (Shape-write true b 0 p k t h x)

-- A tree at nullptr is empty, and one at a block is not.
pub Shape-zero : (k : Links) (p : ℕ) (t : Tree) → Shape k p t → p ≡ 0 → t ≡ leaf
Shape-zero k p leaf x e = refl
Shape-zero k p (node l a r) (q, n, x, y) e = absurd (n (sym q ∙ e))

pub Shape-node :
    (k : Links) (p : ℕ) (t : Tree)
    → Shape k p t
    → p ≢ 0
    → (l : Tree) × (r : Tree) × (t ≡ node l p r)
Shape-node k p leaf x n = absurd (n x)
Shape-node k p (node l a r) (q, n, x, y) e = (l, r, rw q refl)
