-- ===== src/LinkedList/Link.antt =====
-- A fresh node linked in at the front, at the end and between two nodes.
use cxx_kernel.Base.{
  ℕ, ◌+◌, ◌≡◌, refl, ap, ◌∙◌, List, [], ◌∷◌, ◌++◌, arith, update, length, count, count-append,
  ==_iff, ◌==◌, true, false, length-append, if◌then◌else◌,
}
use cxx_kernel.LinkedList.{LinkedList, push_front, increment}
use cxx_kernel.LinkedList.Chain.{Chain, last_of, Chain-update, Chain-relink, Chain-behind}
use cxx_kernel.LinkedList.Holds.{Linked, Holds, Fresh}

-- A fresh node `o` linked in somewhere: the nodes become `ms`.
module _ (l : LinkedList) (ns : List ℕ) (val o : ℕ) (t : LinkedList) (f : Fresh l ns val o t) where
  relinked :
      (next : ℕ → ℕ) (first last : ℕ) (ms : List ℕ)
      → Chain next first ms
      → length ms ≡ length ns + 1
      → ((a : ℕ) → count a ms ≡ count a ns + (if o == a then 1 else 0))
      → Linked (record t { next = next; first = first; last = last; size = increment t.size }) ms
  relinked next first last ms c len same = record {
    chained = c;
    counted = omega (arith, f.holds.counted);
    once = λ a. ground (arith, same a, f.holds.once a, f.outside, f.uncached);
    owned = λ a k. ground (arith, same a, f.holds.owned a, f.nonnull, f.below);
    cached = f.holds.cached;
    started = f.holds.started;
  }

  pub push_front_cases :
      (ms : List ℕ)
      → ns ≡ ms
      → t.last ≡ last_of ms
      → Holds (push_front o t) (o ∷ ms) × ((push_front o t).ptr ≡ t.ptr)
  unfolding push_front
  push_front_cases [] e tail =
      let c : Chain t.next t.first [] = rw e at f.holds.chained in
      rw ((==_iff t.first 0).1 c) (
        record {
          linked =
              relinked t.next o o (o ∷ []) (refl, f.nonnull, f.cut) (omega (arith, ap length e))
                (λ a. omega (arith, ap (count a) e));
          tail = refl;
        },
        refl,
      )
  push_front_cases (m ∷ ms) e tail =
      let c : Chain t.next t.first (m ∷ ms) = rw e at f.holds.chained in
      let out : count o (m ∷ ms) ≡ 0 = rw e at f.outside in
      let test : (t.first == 0) ≡ false = ground (arith, c.0, c.1) in
      let here : update t.next o t.first o ≡ t.first = ground arith in
      rw test (
        record {
          linked =
              relinked (update t.next o t.first) o t.last (o ∷ m ∷ ms)
                (refl, f.nonnull, rw here (Chain-update t.next o t.first t.first (m ∷ ms) out c))
                (omega (arith, ap length e)) (λ a. omega (arith, ap (count a) e));
          tail = tail;
        },
        refl,
      )

  -- `obj` is a node of the list, and the fresh node goes behind it.
  module _ (obj : ℕ) (xs : List ℕ) where
    counts :
        (ys : List ℕ)
        → ns ≡ xs ++ obj ∷ ys
        → (a : ℕ)
        → (count a (xs ++ obj ∷ o ∷ ys) ≡ count a ns + (if o == a then 1 else 0))
          × (count a xs + ((if obj == a then 1 else 0) + count a ys) ≡ count a ns)
    counts ys e a =
        let old : count a ns ≡ count a xs + count a (obj ∷ ys) =
          ap (count a) e ∙ count-append a xs (obj ∷ ys) in
        (omega (arith, count-append a xs (obj ∷ o ∷ ys), old), omega (arith, old))

    grown : (ys : List ℕ) → ns ≡ xs ++ obj ∷ ys → length (xs ++ obj ∷ o ∷ ys) ≡ length ns + 1
    grown ys e =
        omega (arith, length-append xs (obj ∷ o ∷ ys), length-append xs (obj ∷ ys), ap length e)

    apart :
        (ys : List ℕ)
        → ns ≡ xs ++ obj ∷ ys
        → (count obj xs ≡ 0) × (count obj (o ∷ ys) ≡ 0) × (count o (xs ++ obj ∷ ys) ≡ 0)
    apart ys e =
        let here : (obj == obj) ≡ true = ground arith in
        let out : count o (xs ++ obj ∷ ys) ≡ 0 = rw e at f.outside in
        let c = (counts ys e obj).1 in
        let d = (counts ys e o).1 in
        (
          ground (arith, c, f.holds.once obj),
          ground (arith, c, d, f.holds.once obj, f.outside),
          out,
        )

    -- Behind the last node.
    pub link_end :
        (last : ℕ)
        → ns ≡ xs ++ obj ∷ []
        → (t.next obj ≡ 0)
          × Linked
              (record t { next = update t.next obj o; last = last; size = increment t.size })
              (xs ++ obj ∷ o ∷ [])
    link_end last e =
        let c : Chain t.next t.first (xs ++ obj ∷ []) = rw e at f.holds.chained in
        let a = apart [] e in
        (
          (Chain-behind t.next t.first obj xs [] c).1,
          relinked (update t.next obj o) t.first last (xs ++ obj ∷ o ∷ [])
              (Chain-relink t.next t.first obj o xs [] (o ∷ []) a.0 a.1 c (refl, f.nonnull, f.cut))
              (grown [] e) (λ x. (counts [] e x).0),
        )

    -- Between two nodes.
    pub link_middle :
        (y : ℕ) (ys : List ℕ)
        → ns ≡ xs ++ obj ∷ y ∷ ys
        → ((t.next obj == 0) ≡ false)
          × Linked
              (record t {
                next = update (update t.next o (t.next obj)) obj o;
                size = increment t.size;
              })
              (xs ++ obj ∷ o ∷ y ∷ ys)
    link_middle y ys e =
        let c : Chain t.next t.first (xs ++ obj ∷ y ∷ ys) = rw e at f.holds.chained in
        let a = apart (y ∷ ys) e in
        let b = Chain-behind t.next t.first obj xs (y ∷ ys) c in
        let next = update t.next o (t.next obj) in
        let here : next o ≡ t.next obj = ground arith in
        let out : count o (y ∷ ys) ≡ 0 = omega (arith, a.2, count-append o xs (obj ∷ y ∷ ys)) in
        (
          ground (arith, b.1.0, b.1.1),
          relinked (update next obj o) t.first t.last (xs ++ obj ∷ o ∷ y ∷ ys)
              (Chain-relink next t.first obj o xs (y ∷ ys) (o ∷ y ∷ ys) a.0 a.1
                (Chain-update t.next o (t.next obj) t.first (xs ++ obj ∷ y ∷ ys) a.2 c)
                (
                  refl,
                  f.nonnull,
                  rw here (Chain-update t.next o (t.next obj) (t.next obj) (y ∷ ys) out b.1),
                ))
              (grown (y ∷ ys) e) (λ x. (counts (y ∷ ys) e x).0),
        )
