-- ===== src/LinkedList/AddAt.antt =====
-- addAt against lists of items: inside the list, and at its end, where m_last is left behind.
use mathlib.Core.List.{map-append, append_assoc}
use mathlib.Core.Path.{ap₂, subst}
use cxx_kernel.Base.{
  ℕ, zero, suc, ◌+◌, ◌-◌, ◌%◌, ◌^◌, ◌≤◌, ◌<◌, ◌≡◌, refl, sym, ap, ◌∙◌, ◌≢◌, inl, List, [], ◌∷◌,
  ◌++◌, map, arith, update, length, count, count-append, ==_iff, ==_false, ◌==◌, true, false,
  length-append, length-map, cons-injective, nil_of_length,
}
use cxx_kernel.LinkedList.{
  LinkedList, get_free, append, push_back, link_node, link_after, add_at, increment,
}
use cxx_kernel.LinkedList.Chain.{
  Chain, last_of, last_of-append, Chain-relink, Chain-behind, Walked, walk-Walked,
}
use cxx_kernel.LinkedList.Holds.{Linked, Holds, items, Fresh, get_free-Fresh, Represents}
use cxx_kernel.LinkedList.Link.{link_end, link_middle}
use cxx_kernel.LinkedList.Insert.{insert_behind, items-link, add_first-Represents}

-- `v` at position `i`.
pub insert_at : ℕ → ℕ → List ℕ → List ℕ
insert_at zero v xs = v ∷ xs
insert_at (suc i) v xs = insert_behind i v xs

link_inside :
    (v i : ℕ) (l t : LinkedList) (o : ℕ) (ns xs ys : List ℕ) (obj : ℕ)
    → Holds l ns
    → Fresh l ns v o t
    → ns ≡ xs ++ obj ∷ ys
    → length xs ≡ i
    → i + 1 < length ns
    → Represents (link_node false obj o t) (insert_behind i v (items l ns))
unfolding link_node
link_inside v i l t o ns xs [] obj h f e len lt =
    absurd (omega (arith, ap length e, length-append xs (obj ∷ [])))
link_inside v i l t o ns xs (y ∷ ys) obj h f e len lt =
    let r = link_middle l ns v o t f obj xs y ys e in
    rw r.0 (
      xs ++ obj ∷ o ∷ y ∷ ys,
      record {
        linked = r.1;
        tail =
            f.same_last
            ∙ h.tail
            ∙ ap last_of e
            ∙ last_of-append xs obj (y ∷ ys)
            ∙ sym (last_of-append xs obj (o ∷ y ∷ ys));
      },
      items-link l t v o obj i xs (y ∷ ys) ns f e (inl len),
    )

add_at_cases :
    (i v : ℕ) (l : LinkedList) (a : ℕ) (ms : List ℕ)
    → v ≢ 0
    → i < length (a ∷ ms)
    → Holds l (a ∷ ms)
    → ((add_at i v l).0 ≡ true) × Represents (add_at i v l).1 (insert_at i v (items l (a ∷ ms)))
unfolding add_at link_after insert_at
add_at_cases zero v l a ms nz lt h =
    let ne : l.first ≢ 0 = λ q. h.chained.1 (sym h.chained.0 ∙ q) in
    rw (==_false v 0 nz, ==_false l.first 0 ne)
      (refl, add_first-Represents v l (items l (a ∷ ms)) (a ∷ ms, h, refl))
add_at_cases (suc n) v l a ms nz lt h =
    let ne : l.first ≢ 0 = λ q. h.chained.1 (sym h.chained.0 ∙ q) in
    let e : suc n - 1 ≡ n = omega arith in
    let w = walk-Walked l.next n l.first 0 a ms h.chained in
    let split = ap length w.split ∙ length-append w.before (_ ∷ w.behind) in
    let len : length w.before ≡ n = ground (arith, w.stop, split) in
    rw (==_false v 0 nz, ==_false l.first 0 ne, ==_false (suc n) 0 (omega arith), e)
      (
        refl,
        link_inside v n l _ _ (a ∷ ms) w.before w.behind _ h (get_free-Fresh l (a ∷ ms) v h.linked)
            w.split len (omega arith),
      )

-- On a well-formed list, addAt with a non-null item and a position inside the list puts it at the
-- position and returns true.
pub add_at-Represents :
    (i v : ℕ) (l : LinkedList) (xs : List ℕ)
    → v ≢ 0
    → i < length xs
    → Represents l xs
    → ((add_at i v l).0 ≡ true) × Represents (add_at i v l).1 (insert_at i v xs)
add_at-Represents i v l xs nz lt ([], h, e) = absurd (omega (arith, ap length e))
add_at-Represents i v l xs nz lt (a ∷ ms, h, e) =
    subst
      (λ (m : List ℕ). ((add_at i v l).0 ≡ true) × Represents (add_at i v l).1 (insert_at i v m)) e
      (add_at_cases i v l a ms nz (omega (arith, ap length e, length-map l.ptr (a ∷ ms))) h)

-- A list whose last node but one is m_last, after an append: the last node is gone.
pub record Loses (xs : List ℕ) (w n : ℕ) (t : LinkedList) : Type 0 where
  pub nodes : List ℕ
  pub chained : Chain t.next t.first nodes
  pub listed : items t nodes ≡ xs ++ w ∷ []
  pub counted : t.size ≡ n % 2 ^ 32

snoc-injective : (xs ys : List ℕ) (a b : ℕ) → xs ++ a ∷ [] ≡ ys ++ b ∷ [] → xs ≡ ys
snoc-injective [] [] a b e = refl
snoc-injective [] (y ∷ []) a b e = cc
snoc-injective [] (y ∷ z ∷ ys) a b e = cc
snoc-injective (x ∷ []) [] a b e = cc
snoc-injective (x ∷ z ∷ xs) [] a b e = cc
snoc-injective (x ∷ xs) (y ∷ ys) a b e =
    let i = cons-injective e in
    ap₂ (λ (c : ℕ) (m : List ℕ). c ∷ m) i.0 (snoc-injective xs ys a b i.1)

push_back-Loses :
    (l t : LinkedList) (xs : List ℕ) (o w p : ℕ)
    → Fresh l (xs ++ t.last ∷ o ∷ []) w p t
    → Loses (map l.ptr (xs ++ t.last ∷ [])) w (length xs + 3) (push_back p t)
unfolding push_back
push_back-Loses l t xs o w p f =
    let c = λ (a : ℕ). count-append a xs (t.last ∷ o ∷ []) in
    let here : (t.last == t.last) ≡ true = ground arith in
    let once : count t.last xs ≡ 0 = ground (arith, c t.last, f.holds.once t.last) in
    let out : count t.last (p ∷ []) ≡ 0 = ground (arith, c p, f.outside) in
    let before : map t.ptr (xs ++ t.last ∷ []) ≡ map l.ptr (xs ++ t.last ∷ []) =
      snoc-injective (map t.ptr (xs ++ t.last ∷ [])) (map l.ptr (xs ++ t.last ∷ [])) (t.ptr o)
        (l.ptr o) (simp (map-append, append_assoc) (simp map-append at f.kept)) in
    let joined : map t.ptr (xs ++ t.last ∷ p ∷ []) ≡ map t.ptr (xs ++ t.last ∷ []) ++ w ∷ [] =
      simp (map-append, append_assoc, f.valued) in
    record {
      nodes = xs ++ t.last ∷ p ∷ [];
      chained =
          Chain-relink t.next t.first t.last p xs (o ∷ []) (p ∷ []) once out f.holds.chained
            (refl, f.nonnull, f.cut);
      listed = joined ∙ ap (λ (m : List ℕ). m ++ w ∷ []) before;
      counted = omega (arith, f.holds.counted, length-append xs (t.last ∷ o ∷ []));
    }

append_stale :
    (l : LinkedList) (xs : List ℕ) (o w : ℕ)
    → Linked l (xs ++ l.last ∷ o ∷ [])
    → l.last ≢ 0
    → Loses (map l.ptr (xs ++ l.last ∷ [])) w (length xs + 3) (append w l)
unfolding append
append_stale l xs o w h ne =
    let f = get_free-Fresh l (xs ++ l.last ∷ o ∷ []) w h in
    let t = (get_free w l).1 in
    let f' : Fresh l (xs ++ t.last ∷ o ∷ []) w (get_free w l).0 t =
      subst (λ (x : ℕ). Fresh l (xs ++ x ∷ o ∷ []) w (get_free w l).0 t) (sym f.same_last) f in
    rw (==_false l.last 0 ne) (
      subst
        (λ (x : ℕ).
          Loses (map l.ptr (xs ++ x ∷ [])) w (length xs + 3) (push_back (get_free w l).0 t))
        f.same_last (push_back-Loses l t xs o w (get_free w l).0 f'))

link_at_end :
    (v w : ℕ) (l t : LinkedList) (o : ℕ) (ns xs : List ℕ) (obj : ℕ)
    → Holds l ns
    → Fresh l ns v o t
    → ns ≡ xs ++ obj ∷ []
    → Loses (items l ns) w (length ns + 2) (append w (link_node false obj o t))
unfolding link_node
link_at_end v w l t o ns xs obj h f e =
    let tl : t.last ≡ obj = f.same_last ∙ h.tail ∙ ap last_of e ∙ last_of-append xs obj [] in
    let e' : ns ≡ xs ++ t.last ∷ [] = e ∙ ap (λ (x : ℕ). xs ++ x ∷ []) (sym tl) in
    let r = link_end l ns v o t f t.last xs t.last e' in
    let c =
      Chain-behind t.next t.first t.last xs [] (subst (Chain t.next t.first) e' f.holds.chained) in
    let len : length ns + 2 ≡ length xs + 3 =
      omega (arith, ap length e, length-append xs (obj ∷ [])) in
    rw (← tl, (==_iff (t.next t.last) 0).1 r.0, len)
      (subst
        (λ (m : List ℕ). Loses m w (length xs + 3) (
          append w
            (record t { next = update t.next t.last o; last = t.last; size = increment t.size })))
        (ap (map t.ptr) (sym e') ∙ f.kept) (append_stale _ xs o w r.1 c.0))

Walked-end :
    (ns : List ℕ) (n : ℕ) (r : ℕ × ℕ) (w : Walked ns n 0 r)
    → length ns ≤ suc n
    → ns ≡ w.before ++ r.0 ∷ []
Walked-end ns n r w lt =
    let len = ap length w.split ∙ length-append w.before (r.0 ∷ w.behind) in
    let e : w.behind ≡ [] = nil_of_length w.behind (ground (arith, w.stop, len)) in
    w.split ∙ ap (λ (m : List ℕ). w.before ++ r.0 ∷ m) e

add_at_end-append_cases :
    (i v w : ℕ) (l : LinkedList) (a : ℕ) (ms : List ℕ)
    → v ≢ 0
    → length (a ∷ ms) ≤ i
    → Holds l (a ∷ ms)
    → Loses (items l (a ∷ ms)) w (length (a ∷ ms) + 2) (append w (add_at i v l).1)
unfolding add_at link_after
add_at_end-append_cases zero v w l a ms nz lt h = absurd (omega arith)
add_at_end-append_cases (suc n) v w l a ms nz lt h =
    let ne : l.first ≢ 0 = λ q. h.chained.1 (sym h.chained.0 ∙ q) in
    let e : suc n - 1 ≡ n = omega arith in
    let k = walk-Walked l.next n l.first 0 a ms h.chained in
    rw (==_false v 0 nz, ==_false l.first 0 ne, ==_false (suc n) 0 (omega arith), e)
      (link_at_end v w l _ _ (a ∷ ms) k.before _ h (get_free-Fresh l (a ∷ ms) v h.linked)
        (Walked-end (a ∷ ms) n _ k lt))

-- addAt of a non-null item at or beyond the end of a well-formed list that is not empty leaves m_last on the old last node: the
-- next append drops the item that was added, while m_size counts it.
pub add_at_end-append :
    (i v w x : ℕ) (l : LinkedList) (xs : List ℕ)
    → v ≢ 0
    → length (x ∷ xs) ≤ i
    → Represents l (x ∷ xs)
    → Loses (x ∷ xs) w (length (x ∷ xs) + 2) (append w (add_at i v l).1)
add_at_end-append i v w x l xs nz lt ([], h, e) = cc
add_at_end-append i v w x l xs nz lt (a ∷ ms, h, e) =
    let len : length (a ∷ ms) ≡ length (x ∷ xs) = sym (length-map l.ptr (a ∷ ms)) ∙ ap length e in
    rw (← e, ← len) (add_at_end-append_cases i v w l a ms nz (omega arith) h)
