-- ===== src/Mutex/Sections.antt =====
-- Who holds the spinlock, and who the mutex: the invariant of BaseMutex.
use cxx_kernel.Base.{
  ℕ, ◌<◌, ◌≡◌, sym, ap, ◌≢◌, Bool, true, false, not, Bool-cases, inl, inr, List, Option, some, none,
  arith, count, update, ◌==◌, ==_iff, ==_false,
}
use cxx_kernel.Scheduler.{TaskStatus, is_blocked}
use cxx_kernel.Waitlist.Queue.{Queued}
use cxx_kernel.Mutex.{
  Mutex, Place, outside, entering, taken, queued, asleep, inside, leaving, released,
}

-- The places under the spinlock.
abbrev pub spins : Place → Bool
spins outside = false
spins entering = true
spins taken = true
spins queued = true
spins asleep = false
spins inside = false
spins leaving = true
spins released = true

-- The places of a waiting task.
abbrev pub waits : Place → Bool
waits queued = true
waits asleep = true
waits outside = false
waits entering = false
waits taken = false
waits inside = false
waits leaving = false
waits released = false

-- The places with the mutex, to which a waiting task belongs once it is woken.
abbrev pub owns : TaskStatus → Place → Bool
owns s taken = true
owns s inside = true
owns s leaving = true
owns s queued = not (is_blocked s)
owns s asleep = not (is_blocked s)
owns s outside = false
owns s entering = false
owns s released = false

abbrev pub is_at : Option ℕ → ℕ → Bool
is_at none t = false
is_at (some k) t = k == t

abbrev pub present : Option ℕ → Bool
present none = false
present (some k) = true

-- One task at most is under the spinlock, and one at most has the mutex; the blocked tasks are those
-- in the queue.
pub record IsExclusive (m : Mutex) (xs : List ℕ) (spinner owner : Option ℕ) : Type 0 where
  pub line : Queued m.queue xs
  pub spin : (t : ℕ) → spins (m.place t) ≡ is_at spinner t
  pub held : m.locked ≡ present spinner
  pub own : (t : ℕ) → owns (m.queue.status t) (m.place t) ≡ is_at owner t
  pub valued : present owner ≡ true → m.value ≡ true
  pub in_line :
      (t : ℕ) → 0 < count t xs → (waits (m.place t) ≡ true) × (is_blocked (m.queue.status t) ≡ true)
  pub awake : (t : ℕ) → count t xs ≡ 0 → is_blocked (m.queue.status t) ≡ false
  pub runs : m.current ≢ 0

-- A fact about every place holds after a move of one task.
pub placed :
    (f : Place → Bool) (pl : ℕ → Place) (t u : ℕ) (p : Place) (b : Bool)
    → (t ≡ u → f p ≡ b)
    → (u ≢ t → f (pl u) ≡ b)
    → f (update pl t p u) ≡ b
placed f pl t u p b h k = elim (Bool-cases (t == u)) [
  | inl e ↦ rw e (h ((==_iff t u).0 e))
  | inr e ↦ rw e (k (λ q. ground arith))
]

pub at_self : (t u : ℕ) → t ≡ u → true ≡ is_at (some t) u
at_self t u e = sym ((==_iff t u).1 e)

pub at_other : (t u : ℕ) → u ≢ t → false ≡ is_at (some t) u
at_other t u n = sym (==_false t u (λ e. n (sym e)))

-- The task at a place is the one that the invariant names.
pub named : (o : Option ℕ) (t : ℕ) → is_at o t ≡ true → o ≡ some t
named none t h = absurd cc
named (some k) t h = ap some ((==_iff k t).0 h)

-- The invariant holds for some queue and some holders.
pub record IsSafe (m : Mutex) : Type 0 where
  pub xs : List ℕ
  pub spinner : Option ℕ
  pub owner : Option ℕ
  pub exclusive : IsExclusive m xs spinner owner
