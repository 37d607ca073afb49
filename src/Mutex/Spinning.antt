-- ===== src/Mutex/Spinning.antt =====
-- Who holds the spinlock of a BaseMutex, whatever happens to its queue.
use mathlib.Core.Path.{subst}
use cxx_kernel.Base.{
  ℕ, ◌≡◌, refl, sym, ap, ◌∙◌, ◌||◌, Bool, true, false, Bool-cases, inl, inr, List, [], ◌∷◌, Option,
  none, some, update, ◌==◌, if◌then◌else◌,
}
use cxx_kernel.Scheduler.{is_blocked}
use cxx_kernel.Waitlist.{empty}
use cxx_kernel.Mutex.{
  Mutex, Place, outside, entering, taken, queued, asleep, inside, leaving, released, go, new_mutex,
  spin_lock, spin_unlock, take_or_wait, give_up, come_back, come_back_blocked, act, Event, acts,
  switches, all_blocked, happen, happen_all,
}
use cxx_kernel.Mutex.Sections.{spins, is_at, present, placed, at_self, at_other, named}
use cxx_kernel.Mutex.Moves.{absent}

-- One task at most is under the spinlock, which is taken then.
pub record HasSpinner (place : ℕ → Place) (locked : Bool) : Type 0 where
  pub spinner : Option ℕ
  pub spin : (t : ℕ) → spins (place t) ≡ is_at spinner t
  pub held : locked ≡ present spinner

abbrev pub IsSpun : Mutex → Type 0
IsSpun m = HasSpinner m.place m.locked

module _ (pl : ℕ → Place) (lk : Bool) (t : ℕ) (p : Place) (h : HasSpinner pl lk) where
  stays : spins p ≡ spins (pl t) → HasSpinner (update pl t p) lk
  stays a = record {
    spinner = h.spinner;
    spin = λ u.
        placed spins pl t u p (is_at h.spinner u) (λ e. a ∙ h.spin t ∙ ap (is_at h.spinner) e)
          (λ n. h.spin u);
    held = h.held;
  }

  gets : lk ≡ false → spins p ≡ true → HasSpinner (update pl t p) true
  gets e a =
      let z : h.spinner ≡ none = absent h.spinner (sym h.held ∙ e) in
      record {
        spinner = some t;
        spin = λ u.
            placed spins pl t u p (is_at (some t) u) (λ q. a ∙ at_self t u q)
              (λ n. h.spin u ∙ ap (λ (o : Option ℕ). is_at o u) z ∙ at_other t u n);
        held = refl;
      }

  leaves : spins (pl t) ≡ true → spins p ≡ false → HasSpinner (update pl t p) false
  leaves a b =
      let z : h.spinner ≡ some t = named h.spinner t (sym (h.spin t) ∙ a) in
      record {
        spinner = none;
        spin = λ u.
            placed spins pl t u p false (λ q. b)
              (λ n. h.spin u ∙ ap (λ (o : Option ℕ). is_at o u) z ∙ sym (at_other t u n));
        held = refl;
      }

module _ (t : ℕ) (m : Mutex) (h : IsSpun m) where
  spin_lock-IsSpun : (p : Place) → spins p ≡ true → IsSpun (spin_lock t p m)
  unfolding spin_lock
  spin_lock-IsSpun p a =
      let branch = λ (b : Bool). IsSpun (if b then m else go t p (record m { locked = true })) in
      elim (Bool-cases m.locked) [
        | inl e ↦ subst branch (sym e) h
        | inr e ↦ subst branch (sym e) (gets m.place m.locked t p h e a)
      ]

  take_or_wait-IsSpun : m.place t ≡ entering → IsSpun (take_or_wait t m)
  unfolding take_or_wait
  take_or_wait-IsSpun e = elim (Bool-cases m.value) [
    | inl v ↦ rw v (stays m.place m.locked t queued h (sym (ap spins e)))
    | inr v ↦ rw v (stays m.place m.locked t taken h (sym (ap spins e)))
  ]

  give_up-IsSpun : m.place t ≡ leaving → IsSpun (give_up t m)
  unfolding give_up
  give_up-IsSpun e = elim (Bool-cases (empty m.queue)) [
    | inl v ↦ rw v (stays m.place m.locked t released h (sym (ap spins e)))
    | inr v ↦ rw v (stays m.place m.locked t released h (sym (ap spins e)))
  ]

  gets_out : m.place t ≡ asleep → IsSpun (go t inside m)
  gets_out e = stays m.place m.locked t inside h (sym (ap spins e))

  come_back-IsSpun : m.place t ≡ asleep → IsSpun (come_back t m)
  unfolding come_back
  come_back-IsSpun e = elim (Bool-cases (is_blocked (m.queue.status t))) [
    | inl b ↦ rw b h
    | inr b ↦ rw b (gets_out e)
  ]

  act_at-IsSpun : (p : Place) → m.place t ≡ p → IsSpun (act t m)
  unfolding act spin_unlock
  act_at-IsSpun outside e = rw (act, e) (spin_lock-IsSpun entering refl)
  act_at-IsSpun entering e = rw (act, e) (take_or_wait-IsSpun e)
  act_at-IsSpun taken e = rw (act, e) (leaves m.place m.locked t inside h (ap spins e) refl)
  act_at-IsSpun queued e = rw (act, e) (leaves m.place m.locked t asleep h (ap spins e) refl)
  act_at-IsSpun asleep e = rw (act, e) (come_back-IsSpun e)
  act_at-IsSpun inside e = rw (act, e) (spin_lock-IsSpun leaving refl)
  act_at-IsSpun leaving e = rw (act, e) (give_up-IsSpun e)
  act_at-IsSpun released e = rw (act, e) (leaves m.place m.locked t outside h (ap spins e) refl)

  come_back_at-IsSpun : (p : Place) → m.place t ≡ p → IsSpun (come_back_blocked t m)
  unfolding come_back_blocked
  come_back_at-IsSpun asleep e = rw (come_back_blocked, e) (gets_out e)
  come_back_at-IsSpun outside e = rw (come_back_blocked, e) h
  come_back_at-IsSpun entering e = rw (come_back_blocked, e) h
  come_back_at-IsSpun taken e = rw (come_back_blocked, e) h
  come_back_at-IsSpun queued e = rw (come_back_blocked, e) h
  come_back_at-IsSpun inside e = rw (come_back_blocked, e) h
  come_back_at-IsSpun leaving e = rw (come_back_blocked, e) h
  come_back_at-IsSpun released e = rw (come_back_blocked, e) h

-- Every event keeps this.
pub happen-IsSpun : (e : Event) (m : Mutex) → IsSpun m → IsSpun (happen e m)
unfolding happen
happen-IsSpun acts m h = act_at-IsSpun m.current m h (m.place m.current) refl
happen-IsSpun all_blocked m h = come_back_at-IsSpun m.current m h (m.place m.current) refl
happen-IsSpun (switches t) m h = elim (Bool-cases (t == 0 || is_blocked (m.queue.status t))) [
  | inl b ↦ rw b h
  | inr b ↦ rw b h
]

pub happen_all-IsSpun : (es : List Event) (m : Mutex) → IsSpun m → IsSpun (happen_all es m)
unfolding happen_all
happen_all-IsSpun [] m h = h
happen_all-IsSpun (e ∷ es) m h = happen_all-IsSpun es (happen e m) (happen-IsSpun e m h)

pub new_mutex-IsSpun : (current : ℕ) → IsSpun (new_mutex current)
unfolding new_mutex
new_mutex-IsSpun current = record { spinner = none; spin = λ t. refl; held = refl }
