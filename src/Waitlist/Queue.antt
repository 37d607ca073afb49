-- ===== src/Waitlist/Queue.antt =====
-- The items of a Waitlist are a queue: enqueue puts a task at its end, and dequeue wakes the first.
use mathlib.Core.List.{append_assoc}
use mathlib.Core.Path.{subst}
use cxx_kernel.Base.{
  update_same, ℕ, ◌≤◌, ◌<◌, ◌≡◌, refl, sym, ◌∙◌, ◌≢◌, true, false, List, [], ◌∷◌, ◌++◌, arith,
  count, count-append, update, ==_iff, ==_false,
}
use cxx_kernel.LinkedList.Chain.{
  Chain, last_of, last_of-append, last_of-pos, split_last, Chain-update, Chain-relink,
}
use cxx_kernel.Scheduler.{waiting, blocked}
use cxx_kernel.Waitlist.{Waitlist, new_waitlist, link_item, enqueue, drop_item, dequeue, empty}

-- The tasks `xs` stand in the queue, each once, and every item belongs to its task.
pub record Queued (w : Waitlist) (xs : List ℕ) : Type 0 where
  pub chained : Chain w.next w.head xs
  pub ended : w.tail ≡ last_of xs
  pub once : (a : ℕ) → count a xs ≤ 1
  pub owners : (a : ℕ) → w.task a ≡ a

pub new_waitlist-Queued : Queued new_waitlist []
unfolding new_waitlist
new_waitlist-Queued = record {
  chained = refl;
  ended = refl;
  once = λ a. omega arith;
  owners = λ a. refl;
}

pub new_waitlist-awake : (t : ℕ) → new_waitlist.status t ≡ waiting
unfolding new_waitlist
new_waitlist-awake t = refl

pub empty-Queued : (w : Waitlist) (x : ℕ) (xs : List ℕ) → Queued w (x ∷ xs) → empty w ≡ false
unfolding empty
empty-Queued w x xs q = ==_false w.head 0 (λ e. q.chained.1 (sym q.chained.0 ∙ e))

pub nothing-Queued : (w : Waitlist) → Queued w [] → empty w ≡ true
unfolding empty
nothing-Queued w q = (==_iff w.head 0).1 q.chained

module _ (w : Waitlist) (t : ℕ) (n : t ≢ 0) where
  -- The new item behind the last one.
  chain_end :
      (next : ℕ → ℕ) (p l : ℕ) (ys : List ℕ)
      → count t (ys ++ l ∷ []) ≡ 0
      → count l (ys ++ l ∷ []) ≤ 1
      → Chain next p (ys ++ l ∷ [])
      → Chain (update (update next t 0) l t) p ((ys ++ l ∷ []) ++ t ∷ [])
  chain_end next p l ys z o c =
      let cut = Chain-update next t 0 p (ys ++ l ∷ []) z c in
      let a : count l ys ≡ 0 = ground (arith, count-append l ys (l ∷ [])) in
      let b : count l (t ∷ []) ≡ 0 = ground (arith, count-append t ys (l ∷ [])) in
      rw (append_assoc ys (l ∷ []) (t ∷ [])) (
        Chain-relink (update next t 0) p l t ys [] (t ∷ []) a b cut (refl, n, update_same next t 0))

  once_more :
      (xs : List ℕ)
      → count t xs ≡ 0
      → ((a : ℕ) → count a xs ≤ 1)
      → (a : ℕ) → count a (xs ++ t ∷ []) ≤ 1
  once_more xs z o a = ground (arith, o a, count-append a xs (t ∷ []))

  link_item-Queued :
      (xs : List ℕ) → count t xs ≡ 0 → Queued w xs → Queued (link_item t w) (xs ++ t ∷ [])
  unfolding link_item
  link_item-Queued [] z q = rw ((==_iff w.tail 0).1 q.ended) (record {
    chained = (refl, n, update_same w.next t 0);
    ended = refl;
    once = once_more [] z q.once;
    owners = q.owners;
  })
  link_item-Queued (x ∷ xs) z q =
      let l = last_of (x ∷ xs) in
      let k : w.tail ≢ 0 = λ e. last_of-pos w.next w.head x xs q.chained (sym q.ended ∙ e) in
      let (ys, e) = split_last x xs in
      let linked =
        subst
          (λ (zs : List ℕ).
            count t zs ≡ 0
            → count l zs ≤ 1
            → Chain w.next w.head zs
            → Chain (update (update w.next t 0) l t) w.head (zs ++ t ∷ []))
          (sym e) (chain_end w.next w.head l ys) in
      let chain : Chain (update (update w.next t 0) w.tail t) w.head ((x ∷ xs) ++ t ∷ []) =
        subst (λ (p : ℕ). Chain (update (update w.next t 0) p t) w.head ((x ∷ xs) ++ t ∷ []))
          (sym q.ended) (linked z (q.once l) q.chained) in
      rw (==_false w.tail 0 k) (record {
        chained = chain;
        ended = sym (last_of-append (x ∷ xs) t []);
        once = once_more (x ∷ xs) z q.once;
        owners = q.owners;
      })

  -- enqueue puts a task that is not in the queue at its end, and blocks that task only.
  pub enqueue-Queued :
      (xs : List ℕ)
      → count t xs ≡ 0
      → Queued w xs
      → Queued (enqueue t w) (xs ++ t ∷ []) × ((enqueue t w).status ≡ update w.status t blocked)
  unfolding enqueue
  enqueue-Queued xs z q =
      let i = link_item-Queued xs z q in
      (record { chained = i.chained; ended = i.ended; once = i.once; owners = i.owners }, refl)

last_of-count : (y : ℕ) (xs : List ℕ) → 0 < count (last_of (y ∷ xs)) (y ∷ xs)
last_of-count y [] = ground arith
last_of-count y (x ∷ xs) = let h = last_of-count x xs in omega (arith, h)

drop_item-Queued :
    (w : Waitlist) (x : ℕ) (xs : List ℕ) → Queued w (x ∷ xs) → Queued (drop_item w) xs
unfolding drop_item
drop_item-Queued w x [] q =
    rw ((==_iff w.head w.tail).1 (q.chained.0 ∙ sym q.ended))
      (record { chained = refl; ended = refl; once = λ a. omega arith; owners = q.owners })
drop_item-Queued w x (y ∷ xs) q =
    let d : w.head ≢ w.tail = λ e.
      let same : x ≡ last_of (y ∷ xs) = sym q.chained.0 ∙ e ∙ q.ended in
      let twice : 0 < count x (y ∷ xs) =
        subst (λ (a : ℕ). 0 < count a (y ∷ xs)) (sym same) (last_of-count y xs) in
      ground (arith, q.once x, twice) in
    rw (==_false w.head w.tail d) (record {
      chained = rw q.chained.0 q.chained.2;
      ended = q.ended;
      once = λ a. let o = q.once a in omega (arith, o);
      owners = q.owners;
    })

-- dequeue of a queue that is not empty takes its first task out, and wakes that task only.
pub dequeue-Queued :
    (w : Waitlist) (x : ℕ) (xs : List ℕ)
    → Queued w (x ∷ xs)
    → Queued (dequeue w) xs × ((dequeue w).status ≡ update w.status x waiting)
unfolding dequeue
dequeue-Queued w x xs q =
    let i = drop_item-Queued w x xs q in
    let k : w.head ≢ 0 = λ e. q.chained.1 (sym q.chained.0 ∙ e) in
    let o : w.task w.head ≡ x = q.owners w.head ∙ q.chained.0 in
    rw (==_false w.head 0 k, o, ==_false x 0 q.chained.1)
      (record { chained = i.chained; ended = i.ended; once = i.once; owners = i.owners }, refl)
