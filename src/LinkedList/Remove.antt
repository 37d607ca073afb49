-- ===== src/LinkedList/Remove.antt =====
-- takeFirst, rotateFirstLast, deleteAt and at against lists of items.
use mathlib.Core.List.{map-append, append_assoc}
use mathlib.Core.Path.{fun_ext, ap₂, subst, subst₂}
use cxx_kernel.Base.{
  false, ℕ, zero, suc, ◌%◌, ◌^◌, ◌≡◌, refl, sym, ap, ◌∙◌, ◌≢◌, List, [], ◌∷◌, ◌++◌, arith, update,
  length, count, count-append, ==_iff, ==_false, ◌==◌, true, length-append, Ensures, cons-injective,
}
use cxx_kernel.LinkedList.{
  LinkedList, first_item, free_node, decrement, clear, take_first, rotate_first_last, delete_first,
}
use cxx_kernel.LinkedList.Chain.{
  Chain, last_of, last_of-append, last_of-pos, Chain-update, Chain-relink, split_last,
}
use cxx_kernel.LinkedList.Holds.{Linked, Holds, items, Represents}
use cxx_kernel.LinkedList.Unlink.{shrunk, released, clear-Linked, count-last_of}

-- The list without the item at a position.
unfoldable pub remove_at : ℕ → List ℕ → List ℕ
remove_at i [] = []
remove_at zero (x ∷ xs) = xs
remove_at (suc i) (x ∷ xs) = x ∷ remove_at i xs

pub remove_at-split :
    (xs ys : List ℕ) (a b n : ℕ)
    → length xs ≡ n
    → remove_at (suc n) (xs ++ a ∷ b ∷ ys) ≡ xs ++ a ∷ ys
unfolding remove_at
remove_at-split [] ys a b zero e = refl
remove_at-split [] ys a b (suc n) e = absurd (omega arith)
remove_at-split (x ∷ xs) ys a b zero e = absurd (omega arith)
remove_at-split (x ∷ xs) ys a b (suc n) e =
    ap (λ (l : List ℕ). x ∷ l) (remove_at-split xs ys a b n (omega arith))

-- The node at the front, named by m_first.
pub at_front : (l : LinkedList) (a : ℕ) (ms : List ℕ) → Holds l (a ∷ ms) → Holds l (l.first ∷ ms)
at_front l a ms h = let e : a ≡ l.first = sym h.chained.0 in rw e at h

front_released :
    (l : LinkedList) (ms : List ℕ) (last : ℕ)
    → Holds l (l.first ∷ ms)
    → last ≡ last_of ms
    → let t = record l { first = l.next l.first; last = last; size = decrement l.size } in
      Represents (free_node l.first t) (items l ms)
front_released l ms last h e =
    let r =
      released l (l.first ∷ ms) h.linked l.first l.next (l.next l.first) last ms h.chained.2 e
        (omega arith) (λ a. omega arith) in
    (ms, r.0, r.1)

take_first_cases :
    (l : LinkedList) (ms : List ℕ)
    → Holds l (l.first ∷ ms)
    → ((take_first l).0 ≡ l.ptr l.first) × Represents (take_first l).1 (items l ms)
unfolding take_first
take_first_cases l [] h =
    let e : l.next l.first ≡ 0 = h.chained.2 in
    let r : Represents
        (free_node l.first (record l { first = 0; last = 0; size = decrement l.size })) [] =
      rw e at (front_released l [] 0 h refl) in
    rw (==_false l.first 0 h.chained.1, (==_iff (l.next l.first) 0).1 e) (refl, r)
take_first_cases l (m ∷ ms) h =
    let c = h.chained.2 in
    let e : l.next l.first ≢ 0 = λ q. c.1 (sym c.0 ∙ q) in
    rw (==_false l.first 0 h.chained.1, ==_false (l.next l.first) 0 e)
      (refl, front_released l (m ∷ ms) l.last h h.tail)

-- On a well-formed list that is not empty, takeFirst returns the first item and leaves the others.
pub take_first-Represents :
    (l : LinkedList) (x : ℕ) (xs : List ℕ)
    → Represents l (x ∷ xs)
    → ((take_first l).0 ≡ x) × Represents (take_first l).1 xs
take_first-Represents l x xs ([], h, e) = cc
take_first-Represents l x xs (a ∷ ms, h, e) =
    let r = take_first_cases l ms (at_front l a ms h) in
    let (ns, k, q) = r.1 in
    let i = cons-injective e in (r.0 ∙ ap l.ptr h.chained.0 ∙ i.0, (ns, k, q ∙ i.1))

-- The first item becomes the last.
unfoldable pub rotated : List ℕ → List ℕ
rotated [] = []
rotated (x ∷ xs) = xs ++ x ∷ []

update_comm :
    (f : ℕ → ℕ) (p q v w : ℕ) → p ≢ q → update (update f p v) q w ≡ update (update f q w) p v
update_comm f p q v w h = fun_ext λ x. ground arith

module _ (l : LinkedList) (b : ℕ) (ms : List ℕ) (h : Holds l (l.first ∷ b ∷ ms)) where
  last_in : l.last ≡ last_of (b ∷ ms)
  last_in = h.tail

  front_once : count l.first (b ∷ ms) ≡ 0
  front_once =
      let here : (l.first == l.first) ≡ true = ground arith in ground (arith, h.once l.first)

  pub last-ne-first : l.last ≢ l.first
  last-ne-first e =
      let r : count (last_of (b ∷ ms)) (b ∷ ms) ≡ 0 =
        ap (λ (x : ℕ). count x (b ∷ ms)) (sym last_in ∙ e) ∙ front_once in
      omega (arith, count-last_of b ms)

  rotated_chain :
      Chain
        (update (update l.next l.last l.first) l.first 0)
        (l.next l.first)
        ((b ∷ ms) ++ l.first ∷ [])
  rotated_chain =
      let (ys, e) = split_last b ms in
      let e' : b ∷ ms ≡ ys ++ l.last ∷ [] = e ∙ ap (λ (x : ℕ). ys ++ x ∷ []) (sym last_in) in
      let next = update l.next l.first 0 in
      let c : Chain next (l.next l.first) (ys ++ l.last ∷ []) =
        subst (Chain next (l.next l.first)) e'
          (Chain-update l.next l.first 0 (l.next l.first) (b ∷ ms) front_once h.chained.2) in
      let here : next l.first ≡ 0 = ground arith in
      let once = ap (count l.last) e' ∙ count-append l.last ys (l.last ∷ []) in
      let out : count l.last ys ≡ 0 = ground (arith, h.once l.last, once) in
      let k : count l.last (l.first ∷ []) ≡ 0 = ground (arith, last-ne-first) in
      let r =
        Chain-relink next (l.next l.first) l.last l.first ys [] (l.first ∷ []) out k c
          (refl, h.chained.1, here) in
      subst₂ (λ (f : ℕ → ℕ) (m : List ℕ). Chain f (l.next l.first) m)
        (update_comm l.next l.first l.last 0 l.first (λ q. last-ne-first (sym q)))
        (sym (append_assoc ys (l.last ∷ []) (l.first ∷ []))
          ∙ ap (λ (m : List ℕ). m ++ l.first ∷ []) (sym e'))
        r

  rotated_Holds :
      Holds
        (record l {
          first = l.next l.first;
          next = update (update l.next l.last l.first) l.first 0;
          last = l.first;
        })
        ((b ∷ ms) ++ l.first ∷ [])
  rotated_Holds = record {
    linked = record {
      chained = rotated_chain;
      counted =
          h.counted
          ∙ ap (λ (n : ℕ). n % 2 ^ 32) (omega (arith, length-append (b ∷ ms) (l.first ∷ [])));
      once = λ a. omega (arith, count-append a (b ∷ ms) (l.first ∷ []), h.once a);
      owned = λ a k. h.owned a (omega (arith, count-append a (b ∷ ms) (l.first ∷ [])));
      cached = h.cached;
      started = h.started;
    };
    tail = sym (last_of-append (b ∷ ms) l.first []);
  }

rotate_cases :
    (l : LinkedList) (ms : List ℕ)
    → Holds l (l.first ∷ ms)
    → Ensures (rotate_first_last l) (λ t. Represents t (items l ms ++ l.ptr l.first ∷ []))
unfolding rotate_first_last
rotate_cases l [] h =
    rw (==_false l.first 0 h.chained.1, (==_iff l.first l.last).1 (sym h.tail))
      (l, refl, (l.first ∷ [], h, refl))
rotate_cases l (b ∷ ms) h =
    let nonzero : l.last ≢ 0 =
      λ q. last_of-pos l.next l.first l.first (b ∷ ms) h.chained (sym h.tail ∙ q) in
    rw
      (
        ==_false l.first 0 h.chained.1,
        ==_false l.first l.last (λ q. last-ne-first l b ms h (sym q)),
        ==_false l.last 0 nonzero,
      )
      (
        _,
        refl,
        (
          (b ∷ ms) ++ l.first ∷ [],
          rotated_Holds l b ms h,
          map-append l.ptr (b ∷ ms) (l.first ∷ []),
        ),
      )

-- On a well-formed list, rotateFirstLast moves the first item to the end, and does not go through a
-- null pointer.
pub rotate_first_last-Represents :
    (l : LinkedList) (xs : List ℕ)
    → Represents l xs
    → Ensures (rotate_first_last l) (λ t. Represents t (rotated xs))
unfolding rotated
rotate_first_last-Represents l [] ([], h, e) =
    unfold rotate_first_last in rw ((==_iff l.first 0).1 h.chained) (l, refl, ([], h, e))
rotate_first_last-Represents l [] (a ∷ ms, h, e) = cc
rotate_first_last-Represents l (x ∷ xs) ([], h, e) = cc
rotate_first_last-Represents l (x ∷ xs) (a ∷ ms, h, e) =
    let (t, run, (ns, k, q)) = rotate_cases l ms (at_front l a ms h) in
    let i = cons-injective e in
    (
      t,
      run,
      (ns, k, q ∙ ap₂ (λ (m : List ℕ) (v : ℕ). m ++ v ∷ []) i.1 (ap l.ptr h.chained.0 ∙ i.0)),
    )

pub clear-Represents : (l : LinkedList) (ns : List ℕ) → Linked l ns → Represents (clear l) []
clear-Represents l ns h = ([], record { linked = clear-Linked l ns h; tail = refl }, refl)

pub delete_first-Represents :
    (l : LinkedList) (ms : List ℕ)
    → Holds l (l.first ∷ ms)
    → Represents (delete_first l) (items l ms)
unfolding delete_first
delete_first-Represents l [] h =
    rw ((==_iff (l.next l.first) 0).1 h.chained.2) (clear-Represents l (l.first ∷ []) h.linked)
delete_first-Represents l (b ∷ ms) h =
    let c = h.chained.2 in
    rw (==_false (l.next l.first) 0 (λ q. c.1 (sym c.0 ∙ q))) (
      b ∷ ms,
      record {
        linked =
            shrunk l (l.first ∷ b ∷ ms) h.linked l.first l.next (l.next l.first) l.last (b ∷ ms) c
              (omega arith) (λ a. omega arith);
        tail = h.tail;
      },
      refl,
    )

-- first returns the first item.
pub first_item-Represents :
    (l : LinkedList) (x : ℕ) (xs : List ℕ) → Represents l (x ∷ xs) → first_item l ≡ x
unfolding first_item
first_item-Represents l x xs ([], h, e) = absurd cc
first_item-Represents l x xs (a ∷ ms, h, e) =
    let v : l.ptr a ≡ x = (cons-injective e).0 in
    let p : l.first ≡ a = h.chained.0 in
    let n : (a == 0) ≡ false = ==_false a 0 h.chained.1 in rw (p, n) v
