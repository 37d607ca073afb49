-- ===== src/LinkedList/DeleteAt.antt =====
-- deleteAt and at against lists of items.
use mathlib.Core.List.{map-append}
use mathlib.Core.Path.{subst}
use cxx_kernel.Base.{
  ℕ, zero, suc, ◌+◌, ◌-◌, ◌≤◌, ◌<◌, ◌≡◌, refl, sym, ap, ◌∙◌, ◌≢◌, ◌⊎◌, inl, inr, List, [], ◌∷◌,
  ◌++◌, map, arith, length, count, count-append, ==_iff, ==_false, ◌==◌, true, false, length-append,
  if◌then◌else◌, leb, Bool, length-map, get_or,
}
use cxx_kernel.LinkedList.{LinkedList, delete_behind, clear, item_at, at, delete_from, delete_at}
use cxx_kernel.LinkedList.Chain.{Chain-behind, Walked, walk-Walked}
use cxx_kernel.LinkedList.Holds.{Holds, items, free_node-Linked, Represents}
use cxx_kernel.LinkedList.Unlink.{clear-Linked, delete_behind-Holds}
use cxx_kernel.LinkedList.Remove.{remove_at, remove_at-split, at_front, delete_first-Represents}

-- What deleteAt makes of the items: at the position just behind the last one it drops them all.
pub deleted_at : ℕ → List ℕ → List ℕ
deleted_at i xs = if i == length xs then [] else remove_at i xs

-- Whether deleteAt reports success.
pub deletes_at : ℕ → List ℕ → Bool
deletes_at i [] = false
deletes_at i (x ∷ xs) = leb i (length (x ∷ xs))

deleted_at_end : (i : ℕ) (xs : List ℕ) → i ≡ length xs → deleted_at i xs ≡ []
unfolding deleted_at
deleted_at_end i xs e = rw ((==_iff i (length xs)).1 e)

deleted_at_inside : (i : ℕ) (xs : List ℕ) → i ≢ length xs → deleted_at i xs ≡ remove_at i xs
unfolding deleted_at
deleted_at_inside i xs e = rw (==_false i (length xs) e)

length-items :
    (p : ℕ → ℕ) (xs ys : List ℕ) (a : ℕ)
    → length (map p (xs ++ a ∷ ys)) ≡ suc (length xs + length ys)
length-items p xs ys a = omega (arith, length-map p (xs ++ a ∷ ys), length-append xs (a ∷ ys))

remove_at-items :
    (p : ℕ → ℕ) (xs ys : List ℕ) (a b n : ℕ)
    → length xs ≡ n
    → map p (xs ++ a ∷ ys) ≡ remove_at (suc n) (map p (xs ++ a ∷ b ∷ ys))
remove_at-items p xs ys a b n e =
    simp map-append
      (sym (remove_at-split (map p xs) (map p ys) (p a) (p b) n (length-map p xs ∙ e)))

delete_last_behind :
    (l : LinkedList) (xs : List ℕ) (obj : ℕ)
    → Holds l (xs ++ obj ∷ [])
    → Represents (delete_behind obj l) []
unfolding delete_behind
delete_last_behind l xs obj h =
    let b = Chain-behind l.next l.first obj xs [] h.chained in
    let here : (obj == obj) ≡ true = ground arith in
    let c : count obj (xs ++ obj ∷ []) ≡ count obj xs + 1 =
      count-append obj xs (obj ∷ []) ∙ ground arith in
    let own = h.owned obj (omega arith) in
    let f =
      free_node-Linked (clear l) [] obj (clear-Linked l (xs ++ obj ∷ []) h.linked)
        (omega (arith, h.once obj)) own.0 own.1 in
    rw ((==_iff (l.next obj) 0).1 b.1) ([], record { linked = f.0; tail = f.1 }, refl)

delete_behind-Represents :
    (l : LinkedList) (xs ys : List ℕ) (obj n : ℕ)
    → Holds l (xs ++ obj ∷ ys)
    → length xs ≡ n
    → Represents (delete_behind obj l) (deleted_at (suc n) (items l (xs ++ obj ∷ ys)))
delete_behind-Represents l xs [] obj n h e =
    rw
      (deleted_at_end (suc n) (items l (xs ++ obj ∷ []))
        (omega (arith, length-items l.ptr xs [] obj)))
      (delete_last_behind l xs obj h)
delete_behind-Represents l xs (y ∷ ys) obj n h e =
    let r = delete_behind-Holds l xs ys obj y h in
    let k = length-items l.ptr xs (y ∷ ys) obj in
    rw (deleted_at_inside (suc n) (items l (xs ++ obj ∷ y ∷ ys)) (λ q. omega arith))
      (xs ++ obj ∷ ys, r.0, r.1 ∙ remove_at-items l.ptr xs ys obj y n e)

remove_at_beyond : (i : ℕ) (xs : List ℕ) → length xs ≤ i → remove_at i xs ≡ xs
unfolding remove_at
remove_at_beyond i [] h = refl
remove_at_beyond zero (x ∷ xs) h = absurd (omega arith)
remove_at_beyond (suc i) (x ∷ xs) h =
    ap (λ (l : List ℕ). x ∷ l) (remove_at_beyond i xs (omega arith))

delete_from-Represents :
    (l : LinkedList) (ns : List ℕ) (n : ℕ) (r : ℕ × ℕ)
    → Holds l ns
    → Walked ns n 0 r
    → ((delete_from (suc n) r l).0 ≡ leb (suc n) (length (items l ns)))
      × Represents (delete_from (suc n) r l).1 (deleted_at (suc n) (items l ns))
unfolding delete_from
delete_from-Represents l ns n r h w = go w.stop
  where
    len : length (items l ns) ≡ suc (length w.before + length w.behind)
    len = ap (λ (m : List ℕ). length (items l m)) w.split ∙ length-items l.ptr w.before w.behind r.0

    go :
        (length w.before ≡ n) ⊎ ((length w.before < n) × (w.behind ≡ []))
        → ((delete_from (suc n) r l).0 ≡ leb (suc n) (length (items l ns)))
          × Represents (delete_from (suc n) r l).1 (deleted_at (suc n) (items l ns))
    go (inl e) =
        let t : (r.1 + 1 == suc n) ≡ true = ground (arith, w.steps) in
        let h' : Holds l (w.before ++ r.0 ∷ w.behind) = subst (Holds l) w.split h in
        let d = delete_behind-Represents l w.before w.behind r.0 n h' e in
        rw t (
          ground (arith, len),
          subst (λ (m : List ℕ). Represents (delete_behind r.0 l) (deleted_at (suc n) (items l m)))
              (sym w.split) d,
        )
    go (inr (lt, e)) =
        let t : (r.1 + 1 == suc n) ≡ false = ground (arith, w.steps) in
        let k : length (items l ns) ≡ suc (length w.before) = len ∙ omega (arith, ap length e) in
        let gone = deleted_at_inside (suc n) (items l ns) (λ q. omega arith) in
        rw (t, gone, remove_at_beyond (suc n) (items l ns) (omega arith))
          (ground (arith, k), (ns, h, refl))

delete_at_cases :
    (i : ℕ) (l : LinkedList) (ms : List ℕ)
    → Holds l (l.first ∷ ms)
    → ((delete_at i l).0 ≡ leb i (length (items l (l.first ∷ ms))))
      × Represents (delete_at i l).1 (deleted_at i (items l (l.first ∷ ms)))
unfolding delete_at remove_at
delete_at_cases zero l ms h =
    rw
      (
        ==_false l.first 0 h.chained.1,
        deleted_at_inside 0 (items l (l.first ∷ ms)) (λ q. omega arith),
      )
      (ground arith, delete_first-Represents l ms h)
delete_at_cases (suc n) l ms h =
    let e : suc n - 1 ≡ n = omega arith in
    rw (==_false l.first 0 h.chained.1, ==_false (suc n) 0 (omega arith), e)
      (delete_from-Represents l (l.first ∷ ms) n _ h
        (walk-Walked l.next n l.first 0 l.first ms h.chained))

-- On a well-formed list, deleteAt removes the item at a position inside the list, and says so; beyond the end it does
-- nothing, and says so; but at the position just behind the last item it empties the list.
pub delete_at-Represents :
    (i : ℕ) (l : LinkedList) (xs : List ℕ)
    → Represents l xs
    → ((delete_at i l).0 ≡ deletes_at i xs) × Represents (delete_at i l).1 (deleted_at i xs)
unfolding deletes_at
delete_at-Represents i l [] ([], h, e) =
    let gone : deleted_at i [] ≡ [] = unfold deleted_at remove_at in ground arith in
    rw gone (unfold delete_at in rw ((==_iff l.first 0).1 h.chained) (refl, ([], h, e)))
delete_at-Represents i l [] (a ∷ ms, h, e) = cc
delete_at-Represents i l (x ∷ xs) ([], h, e) = cc
delete_at-Represents i l (x ∷ xs) (a ∷ ms, h, e) =
    let r = delete_at_cases i l ms (at_front l a ms h) in
    let q : items l (l.first ∷ ms) ≡ x ∷ xs = ap (λ (b : ℕ). items l (b ∷ ms)) h.chained.0 ∙ e in
    subst
      (λ (m : List ℕ).
        ((delete_at i l).0 ≡ leb i (length m)) × Represents (delete_at i l).1 (deleted_at i m))
      q r

get_or-append : (xs ys : List ℕ) (a n : ℕ) → length xs ≡ n → get_or (xs ++ a ∷ ys) n 0 ≡ a
get_or-append [] ys a zero e = refl
get_or-append [] ys a (suc n) e = absurd (omega arith)
get_or-append (x ∷ xs) ys a zero e = absurd (omega arith)
get_or-append (x ∷ xs) ys a (suc n) e = get_or-append xs ys a n (omega arith)

get_or_beyond : (xs : List ℕ) (n : ℕ) → length xs ≤ n → get_or xs n 0 ≡ 0
get_or_beyond [] n h = refl
get_or_beyond (x ∷ xs) zero h = absurd (omega arith)
get_or_beyond (x ∷ xs) (suc n) h = get_or_beyond xs n (omega arith)

item_at-get_or :
    (i : ℕ) (l : LinkedList) (ns : List ℕ) (r : ℕ × ℕ)
    → Walked ns i 0 r
    → item_at i r l ≡ get_or (items l ns) i 0
unfolding item_at
item_at-get_or i l ns r w = go w.stop
  where
    joined : items l ns ≡ map l.ptr w.before ++ l.ptr r.0 ∷ map l.ptr w.behind
    joined = ap (items l) w.split ∙ map-append l.ptr w.before (r.0 ∷ w.behind)

    go :
        (length w.before ≡ i) ⊎ ((length w.before < i) × (w.behind ≡ []))
        → (if r.1 == i then l.ptr r.0 else 0) ≡ get_or (items l ns) i 0
    go (inl e) =
        let t : (r.1 == i) ≡ true = ground (arith, w.steps) in
        rw (t, joined)
          (sym (
            get_or-append (map l.ptr w.before) (map l.ptr w.behind) (l.ptr r.0) i
              (length-map l.ptr w.before ∙ e)))
    go (inr (lt, e)) =
        let t : (r.1 == i) ≡ false = ground (arith, w.steps) in
        let len : length (items l ns) ≡ suc (length w.before + length w.behind) =
          ap (λ (m : List ℕ). length (items l m)) w.split
          ∙ length-items l.ptr w.before w.behind r.0 in
        rw t (sym (get_or_beyond (items l ns) i (omega (arith, len, ap length e))))

-- On a well-formed list, at returns the item at a position, and nullptr beyond the end.
pub at-Represents :
    (i : ℕ) (l : LinkedList) (xs : List ℕ) → Represents l xs → at i l ≡ get_or xs i 0
unfolding at
at-Represents i l xs ([], h, e) = rw (← e, (==_iff l.first 0).1 h.chained)
at-Represents i l xs (a ∷ ms, h, e) =
    let nonzero : l.first ≢ 0 = λ q. h.chained.1 (sym h.chained.0 ∙ q) in
    rw (==_false l.first 0 nonzero) (
      item_at-get_or i l (a ∷ ms) _ (walk-Walked l.next i l.first 0 a ms h.chained)
      ∙ ap (λ (m : List ℕ). get_or m i 0) e)
