-- ===== src/MemoryManager/Search.antt =====
-- The search of findAvail.
use cxx_kernel.Base.{
  ℕ, zero, suc, ◌≤◌, ◌<◌, ◌≡◌, refl, sym, ◌∙◌, ◌≢◌, ◌⊎◌, inl, inr, true, false, Bool-cases,
  zero_or_not, done, Ensures, arith, ltb, ltb→lt, leb, ◌==◌, ==_iff, ==_false,
}
use cxx_kernel.MemoryManager.{Links, search}
use cxx_kernel.MemoryManager.Blocks.{Tree, leaf, node, has, nodes, Shape, has_self}
use cxx_kernel.MemoryManager.Order.{All, All-imp, IsOrdered}

-- Either no block of the tree has the size, and the search says so, or it gives one that has it.
abbrev pub Finds : (ℕ → ℕ) → ℕ → Tree → ℕ × ℕ → Type 0
Finds size want t r =
    ((r.0 ≡ 0) × All (λ b. size b ≢ want) t) ⊎ ((0 < has r.0 t) × (size r.0 ≡ want))

module _ (size : ℕ → ℕ) (want : ℕ) (k : Links) where
  -- The turns of the loop.
  here : (f a parent : ℕ) → size a ≡ want → search (suc f) size want a parent k ≡ done (a, parent)
  unfolding search
  here f a parent e = rw ((==_iff (size a) want).1 e) refl

  module _ (f a parent : ℕ) (n : size a ≢ want) (c : ltb want (size a) ≡ true) where
    go_left : k.prev a ≢ 0 → search (suc f) size want a parent k ≡ search f size want (k.prev a) a k
    unfolding search
    go_left z = rw (==_false (size a) want n, c, ==_false (k.prev a) 0 z) refl

    over_right :
        k.prev a ≡ 0
        → (search (suc f) size want a parent k ≡ done (0, 0))
          ⊎ ((k.next a ≢ 0)
              × (search (suc f) size want a parent k ≡ search f size want (k.next a) a k))
    unfolding search
    over_right z =
        let e : (size a == want) ≡ false = ==_false (size a) want n in
        let y : (k.prev a == 0) ≡ true = (==_iff (k.prev a) 0).1 z in
        elim (zero_or_not (k.next a)) [
          | inl w ↦ inl (rw (e, c, y, (==_iff (k.next a) 0).1 w) refl)
          | inr w ↦
              let x : (k.next a == 0) ≡ false = ==_false (k.next a) 0 w in
              elim (Bool-cases (leb want (size (k.next a)))) [
                | inl g ↦ inr (w, rw (e, c, y, x, g) refl)
                | inr g ↦ inl (rw (e, c, y, x, g) refl)
              ]
        ]

  module _ (f a parent : ℕ) (n : size a ≢ want) (c : ltb want (size a) ≡ false) where
    go_right :
        k.next a ≢ 0 → search (suc f) size want a parent k ≡ search f size want (k.next a) a k
    unfolding search
    go_right z = rw (==_false (size a) want n, c, ==_false (k.next a) 0 z) refl

    over_left :
        k.next a ≡ 0
        → (search (suc f) size want a parent k ≡ done (0, 0))
          ⊎ ((k.prev a ≢ 0)
              × (search (suc f) size want a parent k ≡ search f size want (k.prev a) a k))
    unfolding search
    over_left z =
        let e : (size a == want) ≡ false = ==_false (size a) want n in
        let y : (k.next a == 0) ≡ true = (==_iff (k.next a) 0).1 z in
        elim (zero_or_not (k.prev a)) [
          | inl w ↦ inl (rw (e, c, y, (==_iff (k.prev a) 0).1 w) refl)
          | inr w ↦
              let x : (k.prev a == 0) ≡ false = ==_false (k.prev a) 0 w in
              elim (Bool-cases (leb (size (k.prev a)) want)) [
                | inl g ↦ inr (w, rw (e, c, y, x, g) refl)
                | inr g ↦ inl (rw (e, c, y, x, g) refl)
              ]
        ]

  -- A result of the subtree that may hold a fit, where the rest of the tree holds none.
  Finds-left :
      (l r : Tree) (a : ℕ) (s : ℕ × ℕ)
      → size a ≢ want
      → All (λ b. size b ≢ want) r
      → Finds size want l s
      → Finds size want (node l a r) s
  Finds-left l r a s n y (inl (z, x)) = inl (z, (x, n, y))
  Finds-left l r a s n y (inr (i, e)) = inr (omega arith, e)

  Finds-right :
      (l r : Tree) (a : ℕ) (s : ℕ × ℕ)
      → size a ≢ want
      → All (λ b. size b ≢ want) l
      → Finds size want r s
      → Finds size want (node l a r) s
  Finds-right l r a s n x (inl (z, y)) = inl (z, (x, n, y))
  Finds-right l r a s n x (inr (i, e)) = inr (omega arith, e)

  larger :
      (r : Tree) (a : ℕ) → want < size a → All (λ b. size a ≤ size b) r → All (λ b. size b ≢ want) r
  larger r a h = All-imp (λ b le e. omega arith) r

  smaller :
      (l : Tree) (a : ℕ) → size a < want → All (λ b. size b < size a) l → All (λ b. size b ≢ want) l
  smaller l a h = All-imp (λ b lt e. omega arith) l

  no_fit : (t : Tree) (p : ℕ) → Shape k p t → p ≡ 0 → All (λ b. size b ≢ want) t
  no_fit leaf p x z = tt
  no_fit (node l a r) p (e, n, x, y) z = absurd (n (sym e ∙ z))

  -- With fuel for each block, the search of an ordered tree returns and finds a fit if there is one.
  pub search-Finds :
      (t : Tree) (f a parent : ℕ)
      → a ≢ 0
      → nodes t ≤ f
      → IsOrdered size t
      → Shape k a t
      → Ensures (search f size want a parent k) (Finds size want t)
  search-Finds leaf f a parent n h o x = absurd (n x)
  search-Finds (node l b r) zero a parent n h o x = absurd (omega arith)
  search-Finds (node l b r) (suc f) a parent n h (lo, hi, ol, or) (e, m, x, y) =
      rw e (elim (Bool-cases (size b == want)) [
        | inl q ↦
            let fit : size b ≡ want = (==_iff (size b) want).0 q in
            ((b, parent), here f b parent fit, inr (has_self l r b, fit))
        | inr q ↦
            let no : size b ≢ want = ground arith in
            elim (Bool-cases (ltb want (size b))) [
              | inl c ↦
                  let out = larger r b (ltb→lt want (size b) c) hi in
                  elim (zero_or_not (k.prev b)) [
                    | inl z ↦
                        let none_left = no_fit l (k.prev b) x z in
                        elim (over_right f b parent no c z) [
                          | inl run ↦ ((0, 0), run, inl (refl, (none_left, no, out)))
                          | inr (w, run) ↦
                              let (s, go, i) = search-Finds r f (k.next b) b w (omega arith) or y in
                              (s, run ∙ go, Finds-right l r b s no none_left i)
                        ]
                    | inr z ↦
                        let (s, run, i) = search-Finds l f (k.prev b) b z (omega arith) ol x in
                        (s, go_left f b parent no c z ∙ run, Finds-left l r b s no out i)
                  ]
              | inr c ↦
                  let out = smaller l b (ground arith) lo in
                  elim (zero_or_not (k.next b)) [
                    | inl z ↦
                        let none_right = no_fit r (k.next b) y z in
                        elim (over_left f b parent no c z) [
                          | inl run ↦ ((0, 0), run, inl (refl, (out, no, none_right)))
                          | inr (w, run) ↦
                              let (s, go, i) = search-Finds l f (k.prev b) b w (omega arith) ol x in
                              (s, run ∙ go, Finds-left l r b s no none_right i)
                        ]
                    | inr z ↦
                        let (s, run, i) = search-Finds r f (k.next b) b z (omega arith) or y in
                        (s, go_right f b parent no c z ∙ run, Finds-right l r b s no out i)
                  ]
            ]
      ])
