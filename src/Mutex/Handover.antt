-- ===== src/Mutex/Handover.antt =====
-- What a task of a BaseMutex does under the spinlock.
use mathlib.Core.Path.{subst}
use cxx_kernel.Base.{
  ℕ, ◌<◌, ◌≡◌, refl, sym, ap, ◌∙◌, ◌≢◌, true, false, not, Bool-cases, inl, inr, List, [], ◌∷◌, ◌++◌,
  Option, some, none, arith, count, count-append, update, update_same, update_other, ◌==◌, ==_iff,
}
use cxx_kernel.Scheduler.{TaskStatus, waiting, blocked, is_blocked}
use cxx_kernel.Waitlist.{enqueue, dequeue}
use cxx_kernel.Waitlist.Queue.{Queued, enqueue-Queued, dequeue-Queued}
use cxx_kernel.Mutex.{
  Mutex, Place, outside, entering, taken, queued, asleep, inside, leaving, released, go,
}
use cxx_kernel.Mutex.Sections.{
  spins, waits, owns, is_at, present, IsExclusive, placed, at_self, at_other, named,
}
use cxx_kernel.Mutex.Moves.{absent, out_of_line}

-- A waiting task that is woken has the mutex.
woken : (p : Place) → waits p ≡ true → owns waiting p ≡ true
woken queued e = refl
woken asleep e = refl
woken outside e = absurd cc
woken entering e = absurd cc
woken taken e = absurd cc
woken inside e = absurd cc
woken leaving e = absurd cc
woken released e = absurd cc

-- The statuses after a change of one.
status_here :
    (f g : ℕ → TaskStatus) (x : ℕ) (s : TaskStatus) → f ≡ update g x s → (u : ℕ) → x ≡ u → f u ≡ s
status_here f g x s e u q =
    ap (λ (f' : ℕ → TaskStatus). f' u) e
    ∙ ap (λ (a : ℕ). update g x s a) (sym q)
    ∙ update_same g x s

status_other :
    (f g : ℕ → TaskStatus) (x : ℕ) (s : TaskStatus) → f ≡ update g x s → (u : ℕ) → u ≢ x → f u ≡ g u
status_other f g x s e u n = ap (λ (f' : ℕ → TaskStatus). f' u) e ∙ update_other g x s u n

module _ (m : Mutex) (xs : List ℕ) (sp o : Option ℕ) (t : ℕ) (h : IsExclusive m xs sp o) where
  -- The mutex is free, and the task takes it.
  pub takes :
      m.place t ≡ entering
      → m.value ≡ false
      → IsExclusive (go t taken (record m { value = true })) xs sp (some t)
  takes e v =
      let z : o ≡ none = elim (Bool-cases (present o)) [
        | inl y ↦ let w = h.valued y in absurd cc
        | inr y ↦ absent o y
      ] in
      let k = out_of_line m xs sp o t h (ap waits e) in
      let free : (u : ℕ) → u ≢ t → is_at o u ≡ is_at (some t) u =
        λ u n. ap (λ (s : Option ℕ). is_at s u) z ∙ at_other t u n in
      record {
        line = h.line;
        spin = λ u.
            placed spins m.place t u taken (is_at sp u)
              (λ q. sym (sym (h.spin t) ∙ ap spins e) ∙ ap (is_at sp) q) (λ n. h.spin u);
        held = h.held;
        own = λ u.
            placed (owns (m.queue.status u)) m.place t u taken (is_at (some t) u) (at_self t u)
              (λ n. h.own u ∙ free u n);
        valued = λ y. refl;
        in_line = λ u y. (
          placed waits m.place t u taken true
              (λ q.
                let y' : 0 < count t xs = subst (λ (a : ℕ). 0 < count a xs) (sym q) y in
                absurd (omega (arith, k, y')))
              (λ n. (h.in_line u y).0),
          (h.in_line u y).1,
        );
        awake = h.awake;
        runs = h.runs;
      }

  -- A move under the spinlock.
  in_spin :
      (q p : Place)
      → m.place t ≡ q
      → spins q ≡ true
      → spins p ≡ true
      → (u : ℕ) → spins (update m.place t p u) ≡ is_at sp u
  in_spin q p e a b u =
      placed spins m.place t u p (is_at sp u)
        (λ s. b ∙ sym (sym (h.spin t) ∙ ap spins e ∙ a) ∙ ap (is_at sp) s) (λ n. h.spin u)

  -- Another task has the mutex, and the task goes to the end of the queue.
  pub queues :
      m.place t ≡ entering
      → t ≢ 0
      → IsExclusive (go t queued (record m { queue = enqueue t m.queue })) (xs ++ t ∷ []) sp o
  queues e n =
      let k : count t xs ≡ 0 = out_of_line m xs sp o t h (ap waits e) in
      let (line, status) = enqueue-Queued m.queue t n xs k h.line in
      let st = (enqueue t m.queue).status in
      let here = status_here st m.queue.status t blocked status in
      let other = status_other st m.queue.status t blocked status in
      let off : (u : ℕ) → t ≡ u → false ≡ is_at o u =
        λ u q. sym (sym (h.own t) ∙ ap (owns (m.queue.status t)) e) ∙ ap (is_at o) q in
      record {
        line = line;
        spin = in_spin entering queued e refl refl;
        held = h.held;
        own = λ u.
            placed (owns (st u)) m.place t u queued (is_at o u)
              (λ q. ap (λ (s : TaskStatus). not (is_blocked s)) (here u q) ∙ off u q)
              (λ z. ap (λ (s : TaskStatus). owns s (m.place u)) (other u z) ∙ h.own u);
        valued = h.valued;
        in_line = λ u y.
            let before : u ≢ t → 0 < count u xs =
              λ z. ground (arith, count-append u xs (t ∷ []), y) in
            (
              placed waits m.place t u queued true (λ q. refl) (λ z. (h.in_line u (before z)).0),
              elim (Bool-cases (t == u)) [
                | inl q ↦ ap is_blocked (here u ((==_iff t u).0 q))
                | inr q ↦
                    let z : u ≢ t = ground arith in
                    ap is_blocked (other u z) ∙ (h.in_line u (before z)).1
              ],
            );
        awake = λ u y.
            let z : u ≢ t = λ q. ground (arith, count-append u xs (t ∷ []), y) in
            let c : count u xs ≡ 0 = ground (arith, count-append u xs (t ∷ []), y) in
            ap is_blocked (other u z) ∙ h.awake u c;
        runs = h.runs;
      }

  owner_here : m.place t ≡ leaving → o ≡ some t
  owner_here e = named o t (sym (h.own t) ∙ ap (owns (m.queue.status t)) e)

  not_owner : m.place t ≡ leaving → (u : ℕ) → u ≢ t → owns (m.queue.status u) (m.place u) ≡ false
  not_owner e u n = h.own u ∙ ap (λ (s : Option ℕ). is_at s u) (owner_here e) ∙ sym (at_other t u n)

  -- A task in the queue is not the one that leaves.
  stays_in_line : m.place t ≡ leaving → (u : ℕ) → 0 < count u xs → u ≢ t
  stays_in_line e u y q =
      let w : waits (m.place t) ≡ true =
        subst (λ (a : ℕ). waits (m.place a) ≡ true) q (h.in_line u y).0 in
      let v : waits (m.place t) ≡ false = ap waits e in absurd cc

  -- The mutex becomes free.
  pub frees :
      m.place t ≡ leaving → IsExclusive (go t released (record m { value = false })) xs sp none
  frees e = record {
    line = h.line;
    spin = in_spin leaving released e refl refl;
    held = h.held;
    own = λ u.
        placed (owns (m.queue.status u)) m.place t u released false (λ q. refl) (not_owner e u);
    valued = λ y. absurd cc;
    in_line = λ u y. (
      placed waits m.place t u released true (λ q. absurd (stays_in_line e u y (sym q)))
          (λ z. (h.in_line u y).0),
      (h.in_line u y).1,
    );
    awake = h.awake;
    runs = h.runs;
  }

  -- Once the first task of the queue is woken, it is the one that has the mutex.
  handed_owner :
      m.place t ≡ leaving
      → (x : ℕ) → 0 < count x xs
      → (st : ℕ → TaskStatus) → ((u : ℕ) → x ≡ u → st u ≡ waiting)
      → ((u : ℕ) → u ≢ x → st u ≡ m.queue.status u)
      → (u : ℕ) → u ≢ t
      → owns (st u) (m.place u) ≡ is_at (some x) u
  handed_owner e x first st here other u z = elim (Bool-cases (x == u)) [
    | inl q ↦
        let q' : x ≡ u = (==_iff x u).0 q in
        let w : waits (m.place u) ≡ true =
          subst (λ (a : ℕ). waits (m.place a) ≡ true) q' (h.in_line x first).0 in
        ap (λ (a : TaskStatus). owns a (m.place u)) (here u q')
        ∙ woken (m.place u) w
        ∙ at_self x u q'
    | inr q ↦
        let d : u ≢ x = ground arith in
        ap (λ (a : TaskStatus). owns a (m.place u)) (other u d) ∙ not_owner e u z ∙ at_other x u d
  ]

  -- The first task of the queue gets the mutex.
  pub hands_over :
      (x : ℕ) (ys : List ℕ)
      → m.place t ≡ leaving
      → xs ≡ x ∷ ys
      → IsExclusive (go t released (record m { queue = dequeue m.queue })) ys sp (some x)
  hands_over x ys e s =
      let (line, status) = dequeue-Queued m.queue x ys (subst (Queued m.queue) s h.line) in
      let st = (dequeue m.queue).status in
      let all : (u : ℕ) → count u xs ≡ count u (x ∷ ys) = λ u. ap (count u) s in
      let first : 0 < count x xs = ground (arith, all x) in
      let here = status_here st m.queue.status x waiting status in
      let other = status_other st m.queue.status x waiting status in
      record {
        line = line;
        spin = in_spin leaving released e refl refl;
        held = h.held;
        own = λ u.
            placed (owns (st u)) m.place t u released (is_at (some x) u)
              (λ q. at_other x u (λ d. stays_in_line e x first (sym d ∙ sym q)))
              (handed_owner e x first st here other u);
        valued = λ y. h.valued (ap present (owner_here e));
        in_line = λ u y.
            let d : u ≢ x = λ q. ground (arith, line.once u, h.line.once u, all u) in
            let b : 0 < count u xs = ground (arith, all u) in
            (
              placed waits m.place t u released true (λ q. absurd (stays_in_line e u b (sym q)))
                  (λ z. (h.in_line u b).0),
              ap is_blocked (other u d) ∙ (h.in_line u b).1,
            );
        awake = λ u y. elim (Bool-cases (x == u)) [
          | inl q ↦ ap is_blocked (here u ((==_iff x u).0 q))
          | inr q ↦
              let c : count u xs ≡ 0 = ground (arith, all u) in
              ap is_blocked (other u (ground arith)) ∙ h.awake u c
        ];
        runs = h.runs;
      }
