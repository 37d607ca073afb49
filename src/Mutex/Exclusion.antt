-- ===== src/Mutex/Exclusion.antt =====
-- Two tasks never have the mutex at once.
use mathlib.Core.Path.{subst}
use cxx_kernel.Base.{
  ℕ, ◌<◌, ◌≡◌, refl, sym, ap, ◌∙◌, ◌≢◌, ◌⊎◌, ◌||◌, Bool, true, false, not, Bool-cases, inl, inr,
  List, [], ◌∷◌, ◌++◌, Option, some, none, arith, count, ◌==◌, ==_iff, if◌then◌else◌,
}
use cxx_kernel.Scheduler.{is_blocked}
use cxx_kernel.Waitlist.{enqueue, dequeue}
use cxx_kernel.Waitlist.Queue.{
  Queued, new_waitlist-Queued, new_waitlist-awake, empty-Queued, nothing-Queued,
}
use cxx_kernel.Mutex.{
  Mutex, Place, outside, entering, taken, queued, asleep, inside, leaving, released, go, new_mutex,
  spin_lock, spin_unlock, take_or_wait, give_up, come_back, act, Event, acts, switches, all_blocked,
  happen, happen_all,
}
use cxx_kernel.Mutex.Sections.{spins, waits, owns, is_at, IsExclusive, IsSafe}
use cxx_kernel.Mutex.Moves.{moved, spin_lock-IsSafe, spin_unlock-IsSafe}
use cxx_kernel.Mutex.Handover.{takes, queues, frees, hands_over}

module _ (m : Mutex) (xs : List ℕ) (sp o : Option ℕ) (t : ℕ) (h : IsExclusive m xs sp o) where
  take_or_wait-IsSafe : m.place t ≡ entering → t ≢ 0 → IsSafe (take_or_wait t m)
  unfolding take_or_wait
  take_or_wait-IsSafe e n =
      let branch = λ (b : Bool).
        if b
        then go t queued (record m { queue = enqueue t m.queue })
        else go t taken (record m { value = true }) in
      elim (Bool-cases m.value) [
        | inl v ↦ subst IsSafe (ap branch (sym v)) (record {
          xs = xs ++ t ∷ [];
          spinner = sp;
          owner = o;
          exclusive = queues m xs sp o t h e n;
        })
        | inr v ↦
            subst IsSafe (ap branch (sym v)) (record {
              xs = xs;
              spinner = sp;
              owner = some t;
              exclusive = takes m xs sp o t h e v;
            })
      ]

  line_cases : (ys : List ℕ) → (ys ≡ []) ⊎ ((x : ℕ) × (zs : List ℕ) × (ys ≡ x ∷ zs))
  line_cases [] = inl refl
  line_cases (x ∷ zs) = inr (x, zs, refl)

  give_up-IsSafe : m.place t ≡ leaving → IsSafe (give_up t m)
  unfolding give_up
  give_up-IsSafe e =
      let branch = λ (b : Bool).
        if b
        then go t released (record m { value = false })
        else go t released (record m { queue = dequeue m.queue }) in
      elim (line_cases xs) [
        | inl z ↦
            let v = nothing-Queued m.queue (subst (Queued m.queue) z h.line) in
            subst IsSafe (ap branch (sym v))
              (record { xs = xs; spinner = sp; owner = none; exclusive = frees m xs sp o t h e })
        | inr (x, ys, z) ↦
            let v = empty-Queued m.queue x ys (subst (Queued m.queue) z h.line) in
            subst IsSafe (ap branch (sym v)) (record {
              xs = ys;
              spinner = sp;
              owner = some x;
              exclusive = hands_over m xs sp o t h x ys e z;
            })
      ]

  come_back-IsSafe : m.place t ≡ asleep → IsSafe (come_back t m)
  unfolding come_back
  come_back-IsSafe e =
      let branch = λ (b : Bool). if b then m else go t inside m in
      elim (Bool-cases (is_blocked (m.queue.status t))) [
        | inl b ↦
            subst IsSafe (ap branch (sym b))
              (record { xs = xs; spinner = sp; owner = o; exclusive = h })
        | inr b ↦ subst IsSafe (ap branch (sym b)) (record {
          xs = xs;
          spinner = sp;
          owner = o;
          exclusive =
              moved m xs sp o t h inside m.locked sp h.held (sym (ap spins e) ∙ h.spin t)
                (λ u n. refl) (sym (ap (owns (m.queue.status t)) e ∙ ap not b))
                (λ y. let w = (h.in_line t y).1 in absurd cc);
        })
      ]

  -- What follows from the place of a task.
  place_owns :
      (p q : Place)
      → m.place t ≡ q
      → owns (m.queue.status t) p ≡ owns (m.queue.status t) q
      → owns (m.queue.status t) p ≡ owns (m.queue.status t) (m.place t)
  place_owns p q e a = a ∙ ap (owns (m.queue.status t)) (sym e)

  no_wait : (p q : Place) → m.place t ≡ q → waits q ≡ false → 0 < count t xs → waits p ≡ true
  no_wait p q e a y =
      let w = (h.in_line t y).0 in let v : waits (m.place t) ≡ false = ap waits e ∙ a in absurd cc

  locks :
      (p q : Place)
      → m.place t ≡ q
      → spins p ≡ true
      → owns (m.queue.status t) p ≡ owns (m.queue.status t) q
      → waits q ≡ false
      → IsSafe (spin_lock t p m)
  locks p q e a b c = spin_lock-IsSafe m xs sp o t h p a (place_owns p q e b) (ap waits e ∙ c)

  unlocks :
      (p q : Place)
      → m.place t ≡ q
      → spins q ≡ true
      → spins p ≡ false
      → owns (m.queue.status t) p ≡ owns (m.queue.status t) q
      → (0 < count t xs → waits p ≡ true)
      → IsSafe (spin_unlock t p m)
  unlocks p q e a b c d =
      spin_unlock-IsSafe m xs sp o t h p (ap spins e ∙ a) b (place_owns p q e c) d

  -- Every action keeps the invariant.
  act_at : (p : Place) → m.place t ≡ p → t ≢ 0 → IsSafe (act t m)
  unfolding act
  act_at outside e n =
      let same : act t m ≡ spin_lock t entering m = rw (act, e) refl in
      subst IsSafe (sym same) (locks entering outside e refl refl refl)
  act_at entering e n =
      let same : act t m ≡ take_or_wait t m = rw (act, e) refl in
      subst IsSafe (sym same) (take_or_wait-IsSafe e n)
  act_at taken e n =
      let same : act t m ≡ spin_unlock t inside m = rw (act, e) refl in
      subst IsSafe (sym same) (unlocks inside taken e refl refl refl (no_wait inside taken e refl))
  act_at queued e n =
      let same : act t m ≡ spin_unlock t asleep m = rw (act, e) refl in
      subst IsSafe (sym same) (unlocks asleep queued e refl refl refl (λ y. refl))
  act_at asleep e n =
      let same : act t m ≡ come_back t m = rw (act, e) refl in
      subst IsSafe (sym same) (come_back-IsSafe e)
  act_at inside e n =
      let same : act t m ≡ spin_lock t leaving m = rw (act, e) refl in
      subst IsSafe (sym same) (locks leaving inside e refl refl refl)
  act_at leaving e n =
      let same : act t m ≡ give_up t m = rw (act, e) refl in
      subst IsSafe (sym same) (give_up-IsSafe e)
  act_at released e n =
      let same : act t m ≡ spin_unlock t outside m = rw (act, e) refl in
      subst IsSafe (sym same)
        (unlocks outside released e refl refl refl (no_wait outside released e refl))

go_on-IsSafe : (t : ℕ) (m : Mutex) → IsSafe m → t ≢ 0 → IsSafe (record m { current = t })
go_on-IsSafe t m s n =
    let h = s.exclusive in
    record {
      xs = s.xs;
      spinner = s.spinner;
      owner = s.owner;
      exclusive = record {
        line = h.line;
        spin = h.spin;
        held = h.held;
        own = h.own;
        valued = h.valued;
        in_line = h.in_line;
        awake = h.awake;
        runs = n;
      };
    }

pub or_false : (a b : Bool) → a || b ≡ false → (a ≡ false) × (b ≡ false)
or_false true b e = absurd cc
or_false false b e = (refl, e)

-- schedule() never finds all other tasks blocked.
abbrev pub others_run : List Event → Bool
others_run [] = true
others_run (acts ∷ es) = others_run es
others_run (switches t ∷ es) = others_run es
others_run (all_blocked ∷ es) = false

acts-IsSafe : (m : Mutex) → IsSafe m → IsSafe (happen acts m)
unfolding happen
acts-IsSafe m s =
    act_at m s.xs s.spinner s.owner m.current s.exclusive (m.place m.current) refl s.exclusive.runs

switches-IsSafe : (t : ℕ) (m : Mutex) → IsSafe m → IsSafe (happen (switches t) m)
unfolding happen
switches-IsSafe t m s =
    let branch = λ (b : Bool). if b then m else record m { current = t } in
    elim (Bool-cases (t == 0 || is_blocked (m.queue.status t))) [
      | inl b ↦ subst IsSafe (ap branch (sym b)) s
      | inr b ↦
          let n : t ≢ 0 = λ z.
            let y : (t == 0) ≡ true = (==_iff t 0).1 z in
            let w = (or_false (t == 0) (is_blocked (m.queue.status t)) b).0 in absurd cc in
          subst IsSafe (ap branch (sym b)) (go_on-IsSafe t m s n)
    ]

happen_all-IsSafe :
    (es : List Event) (m : Mutex) → others_run es ≡ true → IsSafe m → IsSafe (happen_all es m)
unfolding happen_all
happen_all-IsSafe [] m r s = s
happen_all-IsSafe (acts ∷ es) m r s = happen_all-IsSafe es (happen acts m) r (acts-IsSafe m s)
happen_all-IsSafe (switches t ∷ es) m r s =
    happen_all-IsSafe es (happen (switches t) m) r (switches-IsSafe t m s)
happen_all-IsSafe (all_blocked ∷ es) m r s = absurd cc

pub new_mutex-IsSafe : (current : ℕ) → current ≢ 0 → IsSafe (new_mutex current)
unfolding new_mutex
new_mutex-IsSafe current n = record {
  xs = [];
  spinner = none;
  owner = none;
  exclusive = record {
    line = new_waitlist-Queued;
    spin = λ t. refl;
    held = refl;
    own = λ t. refl;
    valued = λ y. absurd cc;
    in_line = λ t y. absurd (omega arith);
    awake = λ t y. ap is_blocked (new_waitlist-awake t);
    runs = n;
  };
}

alone : (o : Option ℕ) (t u : ℕ) → is_at o t ≡ true → is_at o u ≡ true → t ≡ u
alone none t u a b = absurd cc
alone (some k) t u a b = sym ((==_iff k t).0 a) ∙ (==_iff k u).0 b

-- Where schedule() never finds all other tasks blocked, so that it never returns to a blocked task:
-- whatever the order in which tasks act and the processor goes from one to another, two tasks that
-- are past lock and not yet in unlock are the same task.
pub happen_all-exclusive :
    (es : List Event) (current t u : ℕ)
    → current ≢ 0
    → others_run es ≡ true
    → (happen_all es (new_mutex current)).place t ≡ inside
    → (happen_all es (new_mutex current)).place u ≡ inside
    → t ≡ u
happen_all-exclusive es current t u n r a b =
    let s = happen_all-IsSafe es (new_mutex current) r (new_mutex-IsSafe current n) in
    let m = happen_all es (new_mutex current) in
    let own : (v : ℕ) → m.place v ≡ inside → is_at s.owner v ≡ true =
      λ v e. sym (s.exclusive.own v) ∙ ap (owns (m.queue.status v)) e in
    alone s.owner t u (own t a) (own u b)
