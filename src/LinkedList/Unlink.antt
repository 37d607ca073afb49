-- ===== src/LinkedList/Unlink.antt =====
-- A node taken out of the chain: at the front, and behind another node.
use mathlib.Core.Path.{fun_ext}
use cxx_kernel.Base.{
  ℕ, ◌+◌, ◌≤◌, ◌<◌, ◌≡◌, refl, sym, ap, ◌∙◌, ◌≢◌, List, [], ◌∷◌, ◌++◌, map, arith, update, length,
  count, count-append, ==_iff, ◌==◌, true, length-append, if◌then◌else◌, Ensures, ==_false,
}
use cxx_kernel.LinkedList.{LinkedList, free_node, delete_behind, unlink, decrement, clear}
use cxx_kernel.LinkedList.Chain.{Chain, last_of, last_of-append, Chain-relink, Chain-behind}
use cxx_kernel.LinkedList.Holds.{Linked, Holds, items, free_node-Linked}

pub count-last_of : (a : ℕ) (ns : List ℕ) → 0 < count (last_of (a ∷ ns)) (a ∷ ns)
count-last_of a [] = ground arith
count-last_of a (b ∷ ns) = omega (arith, count-last_of b ns)

-- The node `o` leaves: `ms` are left.
module _ (l : LinkedList) (ns : List ℕ) (h : Linked l ns) (o : ℕ) where
  pub shrunk :
      (next : ℕ → ℕ) (first last : ℕ) (ms : List ℕ)
      → Chain next first ms
      → length ms + 1 ≡ length ns
      → ((a : ℕ) → count a ms + (if o == a then 1 else 0) ≡ count a ns)
      → Linked (record l { next = next; first = first; last = last; size = decrement l.size }) ms
  shrunk next first last ms c len same = record {
    chained = c;
    counted = omega (arith, h.counted);
    once = λ a. omega (arith, same a, h.once a);
    owned = λ a k. h.owned a (omega (arith, same a));
    cached = h.cached;
    started = h.started;
  }

  -- ... and is given back.
  pub released :
      (next : ℕ → ℕ) (first last : ℕ) (ms : List ℕ)
      → Chain next first ms
      → last ≡ last_of ms
      → length ms + 1 ≡ length ns
      → ((a : ℕ) → count a ms + (if o == a then 1 else 0) ≡ count a ns)
      → let t = record l { next = next; first = first; last = last; size = decrement l.size } in
        Holds (free_node o t) ms × (items (free_node o t) ms ≡ map l.ptr ms)
  released next first last ms c tail len same =
      let here : (o == o) ≡ true = ground arith in
      let one : count o ms + 1 ≡ count o ns = ground (arith, same o) in
      let own = h.owned o (omega arith) in
      let f =
        free_node-Linked _ ms o (shrunk next first last ms c len same) (omega (arith, h.once o))
          own.0 own.1 in
      (record { linked = f.0; tail = f.1 ∙ tail }, f.2)

-- All nodes are dropped.
pub clear-Linked : (l : LinkedList) (ns : List ℕ) → Linked l ns → Linked (clear l) []
clear-Linked l ns h = record {
  chained = refl;
  counted = refl;
  once = λ a. omega (arith, h.once a);
  owned = λ a k. h.owned a (omega arith);
  cached = h.cached;
  started = h.started;
}

-- The node `tmp` behind `obj`.
module _ (l : LinkedList) (xs ys : List ℕ) (obj tmp : ℕ) (h : Holds l (xs ++ obj ∷ tmp ∷ ys)) where
  counts :
      (a : ℕ)
      → count a xs
          + ((if obj == a then 1 else 0) + ((if tmp == a then 1 else 0) + count a ys))
          + count a l.freed
        ≤ 1
  counts a = omega (arith, count-append a xs (obj ∷ tmp ∷ ys), h.once a)

  pub behind : (obj ≢ 0) × (l.next obj ≡ tmp) × (tmp ≢ 0) × Chain l.next (l.next tmp) ys
  behind =
      let c = Chain-behind l.next l.first obj xs (tmp ∷ ys) h.chained in (c.0, c.1.0, c.1.1, c.1.2)

  pub distinct : obj ≢ tmp
  distinct e = ground (arith, counts obj)

  spliced : Chain (update l.next obj (l.next tmp)) l.first (xs ++ obj ∷ ys)
  spliced =
      Chain-relink l.next l.first obj (l.next tmp) xs (tmp ∷ ys) ys (ground (arith, counts obj))
        (ground (arith, counts obj)) h.chained behind.3

  shorter : length (xs ++ obj ∷ ys) + 1 ≡ length (xs ++ obj ∷ tmp ∷ ys)
  shorter = omega (arith, length-append xs (obj ∷ ys), length-append xs (obj ∷ tmp ∷ ys))

  same :
      (a : ℕ)
      → count a (xs ++ obj ∷ ys) + (if tmp == a then 1 else 0) ≡ count a (xs ++ obj ∷ tmp ∷ ys)
  same a = omega (arith, count-append a xs (obj ∷ ys), count-append a xs (obj ∷ tmp ∷ ys))

  -- Once it is unlinked by a map `next` and `last` is right, it is given back.
  pub drop_behind :
      (next : ℕ → ℕ) (last : ℕ)
      → next ≡ update l.next obj (l.next tmp)
      → last ≡ last_of (obj ∷ ys)
      → let t = record l { next = next; last = last; size = decrement l.size } in
        Holds (free_node tmp t) (xs ++ obj ∷ ys)
        × (items (free_node tmp t) (xs ++ obj ∷ ys) ≡ map l.ptr (xs ++ obj ∷ ys))
  drop_behind next last e tail = rw e (
      released l (xs ++ obj ∷ tmp ∷ ys) h.linked tmp (update l.next obj (l.next tmp)) l.first last
        (xs ++ obj ∷ ys) spliced (tail ∙ sym (last_of-append xs obj ys)) shorter same)

-- Whether anything follows the node behind `obj`.
tail_end :
    (l : LinkedList) (xs : List ℕ) (obj tmp : ℕ)
    → Holds l (xs ++ obj ∷ tmp ∷ [])
    → (l.last ≡ tmp) × (l.next tmp ≡ 0)
tail_end l xs obj tmp h = (h.tail ∙ last_of-append xs obj (tmp ∷ []), (behind l xs [] obj tmp h).3)

tail_more :
    (l : LinkedList) (xs zs : List ℕ) (obj tmp z : ℕ)
    → Holds l (xs ++ obj ∷ tmp ∷ z ∷ zs)
    → (l.last ≡ last_of (z ∷ zs)) × (l.last ≢ tmp) × (l.next tmp ≢ 0)
tail_more l xs zs obj tmp z h =
    let e : l.last ≡ last_of (z ∷ zs) = h.tail ∙ last_of-append xs obj (tmp ∷ z ∷ zs) in
    let c = (behind l xs (z ∷ zs) obj tmp h).3 in
    let k = counts l xs (z ∷ zs) obj tmp h tmp in
    let in_tail : 0 < count (last_of (z ∷ zs)) (z ∷ zs) = count-last_of z zs in
    let here : (tmp == tmp) ≡ true = ground arith in
    let none_left : count tmp (z ∷ zs) ≡ 0 = ground (arith, k) in
    (
      e,
      λ q.
          let r : count (last_of (z ∷ zs)) (z ∷ zs) ≡ 0 =
            ap (λ (x : ℕ). count x (z ∷ zs)) (sym e ∙ q) ∙ none_left in
          omega arith,
      λ q. c.1 (sym c.0 ∙ q),
    )

free_node-ptr : (o : ℕ) (l : LinkedList) → (free_node o l).ptr ≡ l.ptr
unfolding free_node
free_node-ptr o l = ground arith

update_twice : (f : ℕ → ℕ) (p v w : ℕ) → update (update f p v) p w ≡ update f p w
update_twice f p v w = fun_ext λ q. ground arith

-- deleteAt with a node behind the one that its loop stopped at.
pub delete_behind-Holds :
    (l : LinkedList) (xs ys : List ℕ) (obj tmp : ℕ)
    → Holds l (xs ++ obj ∷ tmp ∷ ys)
    → Holds (delete_behind obj l) (xs ++ obj ∷ ys)
      × (items (delete_behind obj l) (xs ++ obj ∷ ys) ≡ map l.ptr (xs ++ obj ∷ ys))
unfolding delete_behind
delete_behind-Holds l xs [] obj tmp h =
    let b = behind l xs [] obj tmp h in
    let t = tail_end l xs obj tmp h in
    let next = update l.next obj (l.next tmp) in
    let e : next tmp ≡ 0 = ground (arith, distinct l xs [] obj tmp h, t.1) in
    rw (b.1, ==_false tmp 0 b.2, (==_iff (next tmp) 0).1 e)
      (drop_behind l xs [] obj tmp h _ obj refl refl)
delete_behind-Holds l xs (z ∷ zs) obj tmp h =
    let b = behind l xs (z ∷ zs) obj tmp h in
    let t = tail_more l xs zs obj tmp z h in
    let next = update l.next obj (l.next tmp) in
    let e : next tmp ≢ 0 = ground (arith, distinct l xs (z ∷ zs) obj tmp h, t.2) in
    rw (b.1, ==_false tmp 0 b.2, ==_false (next tmp) 0 e, ==_false tmp l.last (λ q. t.1 (sym q)))
      (drop_behind l xs (z ∷ zs) obj tmp h _ l.last refl t.0)

-- The removal of deleteAll, behind another node: it continues with the node that followed.
pub unlink-Holds :
    (l : LinkedList) (xs ys : List ℕ) (prev obj : ℕ)
    → Holds l (xs ++ prev ∷ obj ∷ ys)
    → Ensures
        (unlink prev obj l)
        λ r. (r.0 ≡ r.1.next prev) × Holds r.1 (xs ++ prev ∷ ys) × (r.1.ptr ≡ l.ptr)
unfolding unlink
unlink-Holds l xs [] prev obj h =
    let b = behind l xs [] prev obj h in
    let t = tail_end l xs prev obj h in
    let d =
      drop_behind l xs [] prev obj h (update (update l.next prev (l.next obj)) prev 0) prev
        (update_twice l.next prev (l.next obj) 0 ∙ ap (update l.next prev) (sym t.1)) refl in
    rw ((==_iff _ _).1 t.0, ==_false prev 0 b.0) (_, refl, (refl, d.0, free_node-ptr obj _))
unlink-Holds l xs (z ∷ zs) prev obj h =
    let b = behind l xs (z ∷ zs) prev obj h in
    let t = tail_more l xs zs prev obj z h in
    let d = drop_behind l xs (z ∷ zs) prev obj h _ l.last refl t.0 in
    rw (==_false l.last obj t.1, ==_false prev 0 b.0) (_, refl, (refl, d.0, free_node-ptr obj _))
