-- ===== src/LinkedList/Insert.antt =====
-- addFirst, append, appendAfter and addAt against lists of items.
use mathlib.Core.List.{map-append, append_assoc}
use mathlib.Core.Path.{ap₂}
use cxx_kernel.Base.{
  ℕ, zero, suc, ◌<◌, ◌≡◌, refl, sym, ap, ◌∙◌, ◌≢◌, ◌⊎◌, inl, inr, List, [], ◌∷◌, ◌++◌, map, arith,
  length, ==_iff, ◌==◌, true, false, length-map,
}
use cxx_kernel.LinkedList.{
  LinkedList, get_free, push_back, link_node, add_first, append, link_after, append_after, walk,
}
use cxx_kernel.LinkedList.Chain.{last_of, last_of-append, last_of-pos, walk-Walked, split_last}
use cxx_kernel.LinkedList.Holds.{Holds, items, Fresh, get_free-Fresh, Represents}
use cxx_kernel.LinkedList.Link.{push_front_cases, link_end, link_middle}

-- `v` behind the item `i`, or at the end where the list is shorter.
unfoldable pub insert_behind : ℕ → ℕ → List ℕ → List ℕ
insert_behind i v [] = v ∷ []
insert_behind zero v (x ∷ xs) = x ∷ v ∷ xs
insert_behind (suc i) v (x ∷ xs) = x ∷ insert_behind i v xs

pub insert_behind-split :
    (xs ys : List ℕ) (a v n : ℕ)
    → (length xs ≡ n) ⊎ ((length xs < n) × (ys ≡ []))
    → insert_behind n v (xs ++ a ∷ ys) ≡ xs ++ a ∷ v ∷ ys
unfolding insert_behind
insert_behind-split [] ys a v zero h = refl
insert_behind-split [] [] a v (suc n) h = refl
insert_behind-split [] (y ∷ ys) a v (suc n) (inl e) = absurd (omega arith)
insert_behind-split [] (y ∷ ys) a v (suc n) (inr h) = cc
insert_behind-split (x ∷ xs) ys a v zero (inl e) = absurd (omega arith)
insert_behind-split (x ∷ xs) ys a v zero (inr h) = absurd (omega arith)
insert_behind-split (x ∷ xs) ys a v (suc n) (inl e) =
    ap (λ (l : List ℕ). x ∷ l) (insert_behind-split xs ys a v n (inl (omega arith)))
insert_behind-split (x ∷ xs) ys a v (suc n) (inr h) =
    ap (λ (l : List ℕ). x ∷ l) (insert_behind-split xs ys a v n (inr (omega arith, h.1)))

stop-map :
    (p : ℕ → ℕ) (xs ys : List ℕ) (n : ℕ)
    → (length xs ≡ n) ⊎ ((length xs < n) × (ys ≡ []))
    → (length (map p xs) ≡ n) ⊎ ((length (map p xs) < n) × (map p ys ≡ []))
stop-map p xs ys n (inl e) = inl (length-map p xs ∙ e)
stop-map p xs ys n (inr h) = inr (rw (length-map p xs) h.0, ap (map p) h.1)

-- The items after a fresh node with the item `v` went behind `xs ++ obj`.
pub items-link :
    (l t : LinkedList) (v o obj i : ℕ) (xs ys ns : List ℕ)
    → Fresh l ns v o t
    → ns ≡ xs ++ obj ∷ ys
    → (length xs ≡ i) ⊎ ((length xs < i) × (ys ≡ []))
    → map t.ptr (xs ++ obj ∷ o ∷ ys) ≡ insert_behind i v (items l ns)
items-link l t v o obj i xs ys ns f e stop = rw (← f.kept) (
    rw e (
      simp (map-append, f.valued)
        (sym (
          insert_behind-split (map t.ptr xs) (map t.ptr ys) (t.ptr obj) v i
            (stop-map t.ptr xs ys i stop)))))

items-snoc :
    (l t : LinkedList) (v o obj : ℕ) (xs ns : List ℕ)
    → Fresh l ns v o t
    → ns ≡ xs ++ obj ∷ []
    → map t.ptr (xs ++ obj ∷ o ∷ []) ≡ items l ns ++ v ∷ []
items-snoc l t v o obj xs ns f e =
    let joined : map t.ptr (xs ++ obj ∷ o ∷ []) ≡ map t.ptr (xs ++ obj ∷ []) ++ v ∷ [] =
      simp (map-append, append_assoc, f.valued) in
    joined
    ∙ ap (λ (m : List ℕ). map t.ptr m ++ v ∷ []) (sym e)
    ∙ ap (λ (m : List ℕ). m ++ v ∷ []) f.kept

-- On a well-formed list, addFirst puts the item in front of the items.
pub add_first-Represents :
    (v : ℕ) (l : LinkedList) (xs : List ℕ) → Represents l xs → Represents (add_first v l) (v ∷ xs)
unfolding add_first
add_first-Represents v l xs (ns, h, e) =
    let f = get_free-Fresh l ns v h.linked in
    let r = push_front_cases l ns v _ _ f ns refl (f.same_last ∙ h.tail) in
    (
      (get_free v l).0 ∷ ns,
      r.0,
      ap (λ (p : ℕ → ℕ). map p ((get_free v l).0 ∷ ns)) r.1 ∙ ap₂ ◌∷◌ f.valued (f.kept ∙ e),
    )

append_cases :
    (v : ℕ) (l : LinkedList) (ns : List ℕ)
    → Holds l ns
    → Represents (append v l) (items l ns ++ v ∷ [])
unfolding append push_back
append_cases v l [] h = rw ((==_iff l.last 0).1 h.tail) (add_first-Represents v l [] ([], h, refl))
append_cases v l (a ∷ ns) h =
    let f = get_free-Fresh l (a ∷ ns) v h.linked in
    let o = (get_free v l).0 in
    let t = (get_free v l).1 in
    let (xs, e) = split_last a ns in
    let q : t.last ≡ last_of (a ∷ ns) = f.same_last ∙ h.tail in
    let e' = e ∙ ap (λ (x : ℕ). xs ++ x ∷ []) (sym q) in
    let r = link_end l (a ∷ ns) v o t f t.last xs o e' in
    let test : (l.last == 0) ≡ false =
      ground (arith, h.tail, last_of-pos l.next l.first a ns h.chained) in
    rw test (
      xs ++ t.last ∷ o ∷ [],
      record { linked = r.1; tail = sym (last_of-append xs t.last (o ∷ [])) },
      items-snoc l t v o t.last xs (a ∷ ns) f e',
    )

-- On a well-formed list, append puts the item at the end of the items.
pub append-Represents :
    (v : ℕ) (l : LinkedList) (xs : List ℕ)
    → Represents l xs
    → Represents (append v l) (xs ++ v ∷ [])
append-Represents v l xs (ns, h, e) = rw e at (append_cases v l ns h)

link_node-Represents :
    (v i : ℕ) (l t : LinkedList) (o : ℕ) (ns xs ys : List ℕ) (obj : ℕ)
    → Holds l ns
    → Fresh l ns v o t
    → ns ≡ xs ++ obj ∷ ys
    → (length xs ≡ i) ⊎ ((length xs < i) × (ys ≡ []))
    → Represents (link_node true obj o t) (insert_behind i v (items l ns))
unfolding link_node
link_node-Represents v i l t o ns xs [] obj h f e stop =
    let r = link_end l ns v o t f obj xs o e in
    rw ((==_iff _ _).1 r.0) (
      xs ++ obj ∷ o ∷ [],
      record { linked = r.1; tail = sym (last_of-append xs obj (o ∷ [])) },
      items-link l t v o obj i xs [] ns f e stop,
    )
link_node-Represents v i l t o ns xs (y ∷ ys) obj h f e stop =
    let r = link_middle l ns v o t f obj xs y ys e in
    rw r.0 (
      xs ++ obj ∷ o ∷ y ∷ ys,
      record {
        linked = r.1;
        tail =
            f.same_last
            ∙ h.tail
            ∙ ap last_of e
            ∙ last_of-append xs obj (y ∷ ys)
            ∙ sym (last_of-append xs obj (o ∷ y ∷ ys));
      },
      items-link l t v o obj i xs (y ∷ ys) ns f e stop,
    )

link_after-Represents :
    (v i : ℕ) (l : LinkedList) (a : ℕ) (ns : List ℕ)
    → Holds l (a ∷ ns)
    → Represents
        (link_after true (walk l.next i l.first 0).0 v l)
        (insert_behind i v (items l (a ∷ ns)))
unfolding link_after
link_after-Represents v i l a ns h =
    let w = walk-Walked l.next i l.first 0 a ns h.chained in
    link_node-Represents v i l _ _ (a ∷ ns) w.before w.behind _ h
      (get_free-Fresh l (a ∷ ns) v h.linked) w.split w.stop

append_after_cases :
    (v i : ℕ) (l : LinkedList) (ns : List ℕ)
    → v ≢ 0
    → Holds l ns
    → ((append_after i v l).0 ≡ true)
      × Represents (append_after i v l).1 (insert_behind i v (items l ns))
unfolding append_after insert_behind
append_after_cases v i l [] nz h =
    let t : (v == 0) ≡ false = ground arith in
    rw (t, (==_iff l.first 0).1 h.chained) (refl, add_first-Represents v l [] ([], h, refl))
append_after_cases v i l (a ∷ ns) nz h =
    let t : (v == 0) ≡ false = ground arith in
    let u : (l.first == 0) ≡ false = ground (arith, h.chained) in
    rw (t, u) (refl, link_after-Represents v i l a ns h)

-- On a well-formed list, appendAfter with a non-null item puts it behind position `i`, or at the end
-- of a shorter list, and returns true.
pub append_after-Represents :
    (v i : ℕ) (l : LinkedList) (xs : List ℕ)
    → v ≢ 0
    → Represents l xs
    → ((append_after i v l).0 ≡ true) × Represents (append_after i v l).1 (insert_behind i v xs)
append_after-Represents v i l xs nz (ns, h, e) = rw e at (append_after_cases v i l ns nz h)
