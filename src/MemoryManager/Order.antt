-- ===== src/MemoryManager/Order.antt =====
-- The tree of free blocks as a search tree by size.
use cxx_kernel.Base.{ℕ, ◌+◌, ◌≤◌, ◌<◌, ◌≡◌, Bool-cases, inl, inr, arith, ltb, ◌==◌, if◌then◌else◌}
use cxx_kernel.MemoryManager.Blocks.{Tree, leaf, node, has, IsDistinct}
use cxx_kernel.MemoryManager.Slot.{insert}

-- Every block of the tree satisfies `P`.
abbrev pub All {ℓ} : (ℕ → Type ℓ) → Tree → Type ℓ
All P leaf = Unit
All P (node l a r) = All P l × P a × All P r

pub All-imp {ℓ κ} :
    {P : ℕ → Type ℓ} {Q : ℕ → Type κ} → ((b : ℕ) → P b → Q b) → (t : Tree) → All P t → All Q t
All-imp f leaf h = tt
All-imp f (node l a r) (x, p, y) = (All-imp f l x, f a p, All-imp f r y)

-- Smaller blocks to the left, and blocks as large or larger to the right.
abbrev pub IsOrdered : (ℕ → ℕ) → Tree → Type 0
IsOrdered size leaf = Unit
IsOrdered size (node l a r) =
    All (λ b. size b < size a) l
    × All (λ b. size a ≤ size b) r
    × IsOrdered size l
    × IsOrdered size r

module _ (size : ℕ → ℕ) (q : ℕ) where
  All-insert {ℓ} : (P : ℕ → Type ℓ) (t : Tree) → P q → All P t → All P (insert size t q)
  unfolding insert
  All-insert P leaf p h = (tt, p, tt)
  All-insert P (node l a r) p (x, y, z) = elim (Bool-cases (ltb (size q) (size a))) [
    | inl c ↦ rw c (All-insert P l p x, y, z)
    | inr c ↦ rw c (x, y, All-insert P r p z)
  ]

  -- Adding a block keeps the tree ordered.
  pub insert-IsOrdered : (t : Tree) → IsOrdered size t → IsOrdered size (insert size t q)
  unfolding insert
  insert-IsOrdered leaf h = (tt, tt, tt, tt)
  insert-IsOrdered (node l a r) (x, y, u, v) = elim (Bool-cases (ltb (size q) (size a))) [
    | inl c ↦
        rw c (All-insert (λ b. size b < size a) l (ground arith) x, y, insert-IsOrdered l u, v)
    | inr c ↦
        rw c (x, All-insert (λ b. size a ≤ size b) r (ground arith) y, u, insert-IsOrdered r v)
  ]

  -- Adding a block adds that block, and no other.
  pub has-insert :
      (t : Tree) (b : ℕ) → has b (insert size t q) ≡ has b t + (if q == b then 1 else 0)
  unfolding insert
  has-insert leaf b = omega arith
  has-insert (node l a r) b = elim (Bool-cases (ltb (size q) (size a))) [
    | inl c ↦ let h = has-insert l b in rw c (omega (arith, h))
    | inr c ↦ let h = has-insert r b in rw c (omega (arith, h))
  ]

  pub insert-IsDistinct : (t : Tree) → IsDistinct t → has q t ≡ 0 → IsDistinct (insert size t q)
  insert-IsDistinct t d h b =
      let e : has b t ≤ 1 = d b in
      elim (Bool-cases (q == b)) [
        | inl c ↦
            let same : q ≡ b = ground arith in
            let z : has b t ≡ 0 = rw same at h in ground (arith, has-insert t b)
        | inr c ↦ ground (arith, has-insert t b)
      ]
