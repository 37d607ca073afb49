-- ===== src/Mutex/Wakes.antt =====
-- unlock of a BaseMutex passes the mutex to the task that waits longest.
use mathlib.Core.Path.{subst}
use cxx_kernel.Base.{
  ℕ, ◌≡◌, refl, sym, ap, ◌∙◌, ◌≢◌, Bool, false, List, [], ◌∷◌, update_same, update_other, ==_false,
  if◌then◌else◌,
}
use cxx_kernel.Scheduler.{TaskStatus, waiting, is_blocked}
use cxx_kernel.Waitlist.{dequeue}
use cxx_kernel.Waitlist.Queue.{Queued, empty-Queued, dequeue-Queued}
use cxx_kernel.Mutex.{
  Mutex, outside, asleep, inside, leaving, released, go, spin_unlock, give_up, come_back, act, acts,
  switches, happen, happen_all,
}

module _ (m : Mutex) (x : ℕ) (ys : List ℕ) (line : Queued m.queue (x ∷ ys)) where
  abbrev handed : Mutex
  handed = go m.current released (record m { queue = dequeue m.queue })

  abbrev freed : Mutex
  freed = go m.current outside (record handed { locked = false })

  gives : m.place m.current ≡ leaving → happen acts m ≡ handed
  unfolding happen act give_up
  gives e =
      let w = empty-Queued m.queue x ys line in
      let same : act m.current m ≡ give_up m.current m = rw (act, e) refl in
      same
      ∙ ap (λ (b : Bool). if b then go m.current released (record m { value = false }) else handed)
          w

  unspins : happen acts handed ≡ freed
  unfolding happen act spin_unlock
  unspins =
      let e : handed.place m.current ≡ released = update_same m.place m.current released in
      rw (act, e) refl

  awake : is_blocked ((dequeue m.queue).status x) ≡ false
  awake =
      ap (λ (f : ℕ → TaskStatus). is_blocked (f x)) (dequeue-Queued m.queue x ys line).1
      ∙ ap is_blocked (update_same m.queue.status x waiting)

  runs_next : happen (switches x) freed ≡ record freed { current = x }
  unfolding happen
  runs_next = rw (==_false x 0 line.chained.1, awake) refl

  comes_back :
      m.place m.current ≡ leaving
      → m.place x ≡ asleep
      → happen acts (record freed { current = x }) ≡ go x inside (record freed { current = x })
  unfolding happen act come_back
  comes_back e a =
      let n : x ≢ m.current =
        λ q. let same : m.place x ≡ m.place m.current = ap m.place q in absurd cc in
      let w : freed.place x ≡ asleep =
        update_other handed.place m.current outside x n
        ∙ update_other m.place m.current released x n
        ∙ a in
      let at : act x (record freed { current = x }) ≡ come_back x (record freed { current = x }) =
        rw (act, w) refl in
      at
      ∙ ap
          (λ (b : Bool).
            if b then record freed { current = x } else go x inside (record freed { current = x }))
          awake

  -- What holds once the mutex is passed on.
  abbrev pub IsPassed : Mutex → Type 0
  IsPassed m' =
      (m'.place x ≡ inside)
      × (m'.place m.current ≡ outside)
      × Queued m'.queue ys
      × (m'.value ≡ m.value)
      × (m'.locked ≡ false)

  -- A task in unlock that is about to change the queue takes the first waiting task out and wakes
  -- it. When the processor comes to that task, it is past lock and the one before is out of unlock;
  -- the others still wait, the value is as it was, and the spinlock is free.
  pub happen_all-IsPassed :
      m.place m.current ≡ leaving
      → m.place x ≡ asleep
      → IsPassed (happen_all (acts ∷ acts ∷ switches x ∷ acts ∷ []) m)
  unfolding happen_all
  happen_all-IsPassed e a =
      let all =
        ap (λ (q : Mutex). happen acts (happen (switches x) (happen acts q))) (gives e)
        ∙ ap (λ (q : Mutex). happen acts (happen (switches x) q)) unspins
        ∙ ap (happen acts) runs_next
        ∙ comes_back e a in
      let n : m.current ≢ x =
        λ q. let same : m.place m.current ≡ m.place x = ap m.place q in absurd cc in
      subst IsPassed (sym all) (
        update_same freed.place x inside,
        update_other freed.place x inside m.current n ∙ update_same handed.place m.current outside,
        (dequeue-Queued m.queue x ys line).0,
        refl,
        refl,
      )
