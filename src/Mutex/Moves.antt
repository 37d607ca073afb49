-- ===== src/Mutex/Moves.antt =====
-- A task of a BaseMutex moves, with the spinlock or without it.
use mathlib.Core.Path.{subst}
use cxx_kernel.Base.{
  ℕ, ◌<◌, ◌≡◌, refl, sym, ap, ◌∙◌, ◌≢◌, Bool, true, false, Bool-cases, zero_or_not, inl, inr, List,
  Option, some, none, arith, count, if◌then◌else◌,
}
use cxx_kernel.Mutex.{Mutex, Place, go, spin_lock, spin_unlock}
use cxx_kernel.Mutex.Sections.{
  spins, waits, owns, is_at, present, IsExclusive, IsSafe, placed, at_self, at_other, named,
}

pub absent : (o : Option ℕ) → present o ≡ false → o ≡ none
absent none h = refl
absent (some k) h = absurd cc

is_at-present : (o : Option ℕ) (t : ℕ) → is_at o t ≡ true → present o ≡ true
is_at-present none t h = absurd cc
is_at-present (some k) t h = refl

module _ (m : Mutex) (xs : List ℕ) (sp o : Option ℕ) (t : ℕ) (h : IsExclusive m xs sp o) where
  -- A task moves, and with it the spinlock, but not the mutex.
  pub moved :
      (p : Place) (l : Bool) (sp' : Option ℕ)
      → l ≡ present sp'
      → spins p ≡ is_at sp' t
      → ((u : ℕ) → u ≢ t → is_at sp u ≡ is_at sp' u)
      → owns (m.queue.status t) p ≡ owns (m.queue.status t) (m.place t)
      → (0 < count t xs → waits p ≡ true)
      → IsExclusive (go t p (record m { locked = l })) xs sp' o
  moved p l sp' e a b c d = record {
    line = h.line;
    spin = λ u.
        placed spins m.place t u p (is_at sp' u) (λ q. a ∙ ap (is_at sp') q)
          (λ n. h.spin u ∙ b u n);
    held = e;
    own = λ u.
        placed (owns (m.queue.status u)) m.place t u p (is_at o u)
          (λ q. subst (λ (a : ℕ). owns (m.queue.status a) p ≡ is_at o a) q (c ∙ h.own t))
          (λ n. h.own u);
    valued = h.valued;
    in_line = λ u k. (
      placed waits m.place t u p true (λ q. d (subst (λ (a : ℕ). 0 < count a xs) (sym q) k))
          (λ n. (h.in_line u k).0),
      (h.in_line u k).1,
    );
    awake = h.awake;
    runs = h.runs;
  }

  pub out_of_line : waits (m.place t) ≡ false → count t xs ≡ 0
  out_of_line e = elim (zero_or_not (count t xs)) [
    | inl z ↦ z
    | inr z ↦ let k : 0 < count t xs = omega (arith, z) in let w = (h.in_line t k).0 in absurd cc
  ]

  -- locker.lock(): it is taken where nobody has it.
  pub spin_lock-IsSafe :
      (p : Place)
      → spins p ≡ true
      → owns (m.queue.status t) p ≡ owns (m.queue.status t) (m.place t)
      → waits (m.place t) ≡ false
      → IsSafe (spin_lock t p m)
  unfolding spin_lock
  spin_lock-IsSafe p a c w = elim (Bool-cases m.locked) [
    | inl e ↦
        subst IsSafe
          (ap (λ (b : Bool). if b then m else go t p (record m { locked = true })) (sym e))
          (record { xs = xs; spinner = sp; owner = o; exclusive = h })
    | inr e ↦
        let z : sp ≡ none = absent sp (sym h.held ∙ e) in
        let free : (u : ℕ) → u ≢ t → is_at sp u ≡ is_at (some t) u =
          λ u n. ap (λ (s : Option ℕ). is_at s u) z ∙ at_other t u n in
        let k = out_of_line w in
        subst IsSafe
          (ap (λ (b : Bool). if b then m else go t p (record m { locked = true })) (sym e))
          (record {
            xs = xs;
            spinner = some t;
            owner = o;
            exclusive =
                moved p true (some t) refl (a ∙ at_self t t refl) free c
                  (λ q. absurd (omega (arith, k, q)));
          })
  ]

  holder : spins (m.place t) ≡ true → sp ≡ some t
  holder e = named sp t (sym (h.spin t) ∙ e)

  -- locker.unlock() of the task that has it.
  pub spin_unlock-IsSafe :
      (p : Place)
      → spins (m.place t) ≡ true
      → spins p ≡ false
      → owns (m.queue.status t) p ≡ owns (m.queue.status t) (m.place t)
      → (0 < count t xs → waits p ≡ true)
      → IsSafe (spin_unlock t p m)
  unfolding spin_unlock
  spin_unlock-IsSafe p a b c d =
      let free : (u : ℕ) → u ≢ t → is_at sp u ≡ is_at none u =
        λ u n. ap (λ (s : Option ℕ). is_at s u) (holder a) ∙ sym (at_other t u n) in
      record { xs = xs; spinner = none; owner = o; exclusive = moved p false none refl b free c d }
