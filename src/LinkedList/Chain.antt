-- ===== src/LinkedList/Chain.antt =====
-- Chains of nodes: the list of addresses that a `next` map links from a first address to 0.
use cxx_kernel.Base.{
  ℕ, zero, suc, ◌+◌, ◌<◌, ◌≡◌, refl, sym, ap, ◌≢◌, ◌⊎◌, inl, inr, List, [], ◌∷◌, ◌++◌, map, arith,
  update, length, count, ==_iff, ◌==◌, true, false,
}
use cxx_kernel.LinkedList.{walk}

abbrev pub Chain : (ℕ → ℕ) → ℕ → List ℕ → Type 0
Chain next p [] = p ≡ 0
Chain next p (a ∷ ns) = (p ≡ a) × (a ≢ 0) × Chain next (next a) ns

abbrev pub last_of : List ℕ → ℕ
last_of [] = 0
last_of (a ∷ []) = a
last_of (a ∷ b ∷ ns) = last_of (b ∷ ns)

pub last_of-append : (xs : List ℕ) (a : ℕ) (ys : List ℕ) → last_of (xs ++ a ∷ ys) ≡ last_of (a ∷ ys)
last_of-append [] a ys = refl
last_of-append (x ∷ []) a ys = refl
last_of-append (x ∷ y ∷ xs) a ys = last_of-append (y ∷ xs) a ys

pub last_of-pos :
    (next : ℕ → ℕ) (p a : ℕ) (ns : List ℕ) → Chain next p (a ∷ ns) → last_of (a ∷ ns) ≢ 0
last_of-pos next p a [] h = h.1
last_of-pos next p a (b ∷ ns) h = last_of-pos next (next a) b ns h.2

-- The last node of a list that is not empty.
pub split_last : (a : ℕ) (ns : List ℕ) → (xs : List ℕ) × (a ∷ ns ≡ xs ++ last_of (a ∷ ns) ∷ [])
split_last a [] = ([], refl)
split_last a (b ∷ ns) = let (xs, e) = split_last b ns in (a ∷ xs, ap (λ (l : List ℕ). a ∷ l) e)

-- A write to a node outside a chain leaves the chain.
pub Chain-update :
    (next : ℕ → ℕ) (o v p : ℕ) (ns : List ℕ)
    → count o ns ≡ 0
    → Chain next p ns
    → Chain (update next o v) p ns
Chain-update next o v p [] n h = h
Chain-update next o v p (a ∷ ns) n h =
    let e : update next o v a ≡ next a = ground arith in
    (h.0, h.1, rw e (Chain-update next o v (next a) ns (omega arith) h.2))

-- The nodes behind `a` are replaced by another chain.
pub Chain-relink :
    (next : ℕ → ℕ) (p a q : ℕ) (xs ys zs : List ℕ)
    → count a xs ≡ 0
    → count a zs ≡ 0
    → Chain next p (xs ++ a ∷ ys)
    → Chain next q zs
    → Chain (update next a q) p (xs ++ a ∷ zs)
Chain-relink next p a q [] ys zs n m h k =
    let e : update next a q a ≡ q = ground arith in
    (h.0, h.1, rw e (Chain-update next a q q zs m k))
Chain-relink next p a q (x ∷ xs) ys zs n m h k =
    let e : update next a q x ≡ next x = ground arith in
    (h.0, h.1, rw e (Chain-relink next (next x) a q xs ys zs (omega arith) m h.2 k))

-- What follows a node of a chain.
pub Chain-behind :
    (next : ℕ → ℕ) (p a : ℕ) (xs ys : List ℕ)
    → Chain next p (xs ++ a ∷ ys)
    → (a ≢ 0) × Chain next (next a) ys
Chain-behind next p a [] ys h = (h.1, h.2)
Chain-behind next p a (x ∷ xs) ys h = Chain-behind next (next x) a xs ys h.2

pub map-update :
    (ptr : ℕ → ℕ) (o v : ℕ) (ns : List ℕ) → count o ns ≡ 0 → map (update ptr o v) ns ≡ map ptr ns
map-update ptr o v [] n = refl
map-update ptr o v (a ∷ ns) n =
    let e : update ptr o v a ≡ ptr a = ground arith in rw (e, map-update ptr o v ns (omega arith))

-- Where a walk of `n` rounds from the first node of a chain stops.
pub record Walked (ns : List ℕ) (n c : ℕ) (r : ℕ × ℕ) : Type 0 where
  pub before : List ℕ
  pub behind : List ℕ
  pub split : ns ≡ before ++ r.0 ∷ behind
  pub steps : r.1 ≡ c + length before
  pub stop : (length before ≡ n) ⊎ ((length before < n) × (behind ≡ []))

stop_suc :
    (k n : ℕ) (l : List ℕ)
    → (k ≡ n) ⊎ ((k < n) × (l ≡ []))
    → (suc k ≡ suc n) ⊎ ((suc k < suc n) × (l ≡ []))
stop_suc k n l (inl e) = inl (ap suc e)
stop_suc k n l (inr h) = inr (omega arith, h.1)

pub walk-Walked :
    (next : ℕ → ℕ) (n p c a : ℕ) (ns : List ℕ)
    → Chain next p (a ∷ ns)
    → Walked (a ∷ ns) n c (walk next n p c)
unfolding walk
walk-Walked next zero p c a ns h = record {
  before = [];
  behind = ns;
  split = ap (λ (x : ℕ). x ∷ ns) (sym h.0);
  steps = omega arith;
  stop = inl refl;
}
walk-Walked next (suc n) p c a [] h = rw (← h.0) (
    let e : (next p == 0) ≡ true = rw h.0 ((==_iff _ _).1 h.2) in
    rw e (record {
      before = [];
      behind = [];
      split = refl;
      steps = omega arith;
      stop = inr (omega arith, refl);
    }))
walk-Walked next (suc n) p c a (b ∷ ns) h =
    let w = walk-Walked next n (next p) (c + 1) b ns (rw h.0 h.2) in
    let e : (next p == 0) ≡ false = rw h.0 (ground (arith, h.2.0, h.2.1)) in
    rw e (record {
      before = a ∷ w.before;
      behind = w.behind;
      split = ap (λ (l : List ℕ). a ∷ l) w.split;
      steps = omega (arith, w.steps);
      stop = stop_suc _ n w.behind w.stop;
    })
