-- ===== src/Mutex/Stuck.antt =====
-- A task that the processor leaves between queue.enqueue() and locker.unlock() keeps the spinlock.
use mathlib.Core.Path.{subst}
use cxx_kernel.Base.{
  ℕ, ◌≡◌, refl, sym, ap, ◌∙◌, ◌≢◌, ◌||◌, Bool, true, false, Bool-cases, inl, inr, List, [], ◌∷◌,
  Option, some, update_other, ◌==◌, if◌then◌else◌,
}
use cxx_kernel.Scheduler.{is_blocked}
use cxx_kernel.Waitlist.{Waitlist}
use cxx_kernel.Mutex.{
  Mutex, Place, outside, entering, taken, queued, asleep, inside, leaving, released, go, new_mutex,
  spin_lock, come_back, come_back_blocked, act, Event, acts, switches, all_blocked, happen,
  happen_all,
}
use cxx_kernel.Mutex.Sections.{spins, is_at, present, at_other, named}
use cxx_kernel.Mutex.Spinning.{IsSpun, happen-IsSpun, happen_all-IsSpun, new_mutex-IsSpun}
use cxx_kernel.Mutex.Exclusion.{or_false}

-- The task is blocked under the spinlock, and does not run.
pub record IsStuck (t : ℕ) (m : Mutex) : Type 0 where
  pub spun : IsSpun m
  pub under : m.place t ≡ queued
  pub asleep_there : is_blocked (m.queue.status t) ≡ true
  pub elsewhere : m.current ≢ t

module _ (t : ℕ) (m : Mutex) (s : IsStuck t m) where
  held : s.spun.spinner ≡ some t
  held = named s.spun.spinner t (sym (s.spun.spin t) ∙ ap spins s.under)

  pub IsStuck-locked : m.locked ≡ true
  IsStuck-locked = s.spun.held ∙ ap present held

  -- What an action of another task leaves.
  abbrev Leaves : Mutex → Type 0
  Leaves m' = (m'.place t ≡ queued) × (m'.queue ≡ m.queue) × (m'.current ≡ m.current)

  no_lock : (u : ℕ) (p : Place) → Leaves (spin_lock u p m)
  unfolding spin_lock
  no_lock u p =
      let branch = λ (b : Bool). if b then m else go u p (record m { locked = true }) in
      subst Leaves (ap branch (sym IsStuck-locked)) (s.under, refl, refl)

  no_return : (u : ℕ) → u ≢ t → Leaves (come_back u m)
  unfolding come_back
  no_return u n = elim (Bool-cases (is_blocked (m.queue.status u))) [
    | inl b ↦
        subst Leaves (ap (λ (b : Bool). if b then m else go u inside m) (sym b))
          (s.under, refl, refl)
    | inr b ↦
        subst Leaves (ap (λ (b : Bool). if b then m else go u inside m) (sym b))
          (update_other m.place u inside t (λ e. n (sym e)) ∙ s.under, refl, refl)
  ]

  not_under : (u : ℕ) → u ≢ t → (p : Place) → m.place u ≡ p → spins p ≡ false
  not_under u n p e =
      sym (ap spins e)
      ∙ s.spun.spin u
      ∙ ap (λ (o : Option ℕ). is_at o u) held
      ∙ sym (at_other t u n)

  act-Leaves : (u : ℕ) → u ≢ t → (p : Place) → m.place u ≡ p → Leaves (act u m)
  unfolding act
  act-Leaves u n outside e =
      let same : act u m ≡ spin_lock u entering m = rw (act, e) refl in
      subst Leaves (sym same) (no_lock u entering)
  act-Leaves u n asleep e =
      let same : act u m ≡ come_back u m = rw (act, e) refl in
      subst Leaves (sym same) (no_return u n)
  act-Leaves u n inside e =
      let same : act u m ≡ spin_lock u leaving m = rw (act, e) refl in
      subst Leaves (sym same) (no_lock u leaving)
  act-Leaves u n entering e = let w = not_under u n entering e in absurd cc
  act-Leaves u n taken e = let w = not_under u n taken e in absurd cc
  act-Leaves u n queued e = let w = not_under u n queued e in absurd cc
  act-Leaves u n leaving e = let w = not_under u n leaving e in absurd cc
  act-Leaves u n released e = let w = not_under u n released e in absurd cc

  come_back-Leaves : (u : ℕ) → u ≢ t → (p : Place) → m.place u ≡ p → Leaves (come_back_blocked u m)
  unfolding come_back_blocked
  come_back-Leaves u n asleep e =
      let same : come_back_blocked u m ≡ go u inside m = rw (come_back_blocked, e) refl in
      subst Leaves (sym same)
        (update_other m.place u inside t (λ q. n (sym q)) ∙ s.under, refl, refl)
  come_back-Leaves u n outside e = rw (come_back_blocked, e) (s.under, refl, refl)
  come_back-Leaves u n entering e = rw (come_back_blocked, e) (s.under, refl, refl)
  come_back-Leaves u n taken e = rw (come_back_blocked, e) (s.under, refl, refl)
  come_back-Leaves u n queued e = rw (come_back_blocked, e) (s.under, refl, refl)
  come_back-Leaves u n inside e = rw (come_back_blocked, e) (s.under, refl, refl)
  come_back-Leaves u n leaving e = rw (come_back_blocked, e) (s.under, refl, refl)
  come_back-Leaves u n released e = rw (come_back_blocked, e) (s.under, refl, refl)

  happen-IsStuck : (e : Event) → IsStuck t (happen e m)
  unfolding happen
  happen-IsStuck acts =
      let (a, b, c) = act-Leaves m.current s.elsewhere (m.place m.current) refl in
      record {
        spun = happen-IsSpun acts m s.spun;
        under = a;
        asleep_there = ap (λ (q : Waitlist). is_blocked (q.status t)) b ∙ s.asleep_there;
        elsewhere = λ q. s.elsewhere (sym c ∙ q);
      }
  happen-IsStuck all_blocked =
      let (a, b, c) = come_back-Leaves m.current s.elsewhere (m.place m.current) refl in
      record {
        spun = happen-IsSpun all_blocked m s.spun;
        under = a;
        asleep_there = ap (λ (q : Waitlist). is_blocked (q.status t)) b ∙ s.asleep_there;
        elsewhere = λ q. s.elsewhere (sym c ∙ q);
      }
  happen-IsStuck (switches u) =
      let branch = λ (b : Bool). if b then m else record m { current = u } in
      elim (Bool-cases (u == 0 || is_blocked (m.queue.status u))) [
        | inl b ↦ subst (IsStuck t) (ap branch (sym b)) s
        | inr b ↦
            let (z, w) = or_false (u == 0) (is_blocked (m.queue.status u)) b in
            let n : u ≢ t = λ q.
              let y : is_blocked (m.queue.status u) ≡ true =
                subst (λ (a : ℕ). is_blocked (m.queue.status a) ≡ true) (sym q) s.asleep_there in
              absurd cc in
            subst (IsStuck t) (ap branch (sym b)) (record {
              spun = record { spinner = s.spun.spinner; spin = s.spun.spin; held = s.spun.held };
              under = s.under;
              asleep_there = s.asleep_there;
              elsewhere = n;
            })
      ]

happen_all-IsStuck :
    (es : List Event) (t : ℕ) (m : Mutex) → IsStuck t m → IsStuck t (happen_all es m)
unfolding happen_all
happen_all-IsStuck [] t m s = s
happen_all-IsStuck (e ∷ es) t m s = happen_all-IsStuck es t (happen e m) (happen-IsStuck t m s e)

-- In a state that the mutex comes to, let a task be past queue.enqueue() in lock, so that it is
-- blocked, and the processor be at another task. Then the task never runs again, whatever the others
-- do, also where schedule() finds all others blocked and returns a blocked task, and nobody else gets
-- the spinlock, which it still has.
pub happen_all-stuck :
    (es fs : List Event) (current t : ℕ)
    → (happen_all es (new_mutex current)).place t ≡ queued
    → is_blocked ((happen_all es (new_mutex current)).queue.status t) ≡ true
    → (happen_all es (new_mutex current)).current ≢ t
    → ((happen_all fs (happen_all es (new_mutex current))).place t ≡ queued)
      × ((happen_all fs (happen_all es (new_mutex current))).locked ≡ true)
happen_all-stuck es fs current t a b c =
    let m = happen_all es (new_mutex current) in
    let s : IsStuck t m = record {
      spun = happen_all-IsSpun es (new_mutex current) (new_mutex-IsSpun current);
      under = a;
      asleep_there = b;
      elsewhere = c;
    } in
    let r = happen_all-IsStuck fs t m s in (r.under, IsStuck-locked t (happen_all fs m) r)
