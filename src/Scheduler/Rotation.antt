-- ===== src/Scheduler/Rotation.antt =====
-- The choice that schedule makes, on the items of m_tasks.
use mathlib.Core.List.{append_assoc, append-nil}
use cxx_kernel.Base.{
  ℕ, suc, ◌+◌, ◌≡◌, refl, ◌≢◌, List, [], ◌∷◌, ◌++◌, true, false, done, ◌==◌, ==_false, ==_iff,
  length, arith, ap, ◌∙◌,
}
use cxx_kernel.LinkedList.{LinkedList, first_item, rotate_first_last}
use cxx_kernel.LinkedList.Holds.{Represents}
use cxx_kernel.LinkedList.Remove.{first_item-Represents, rotate_first_last-Represents, rotated}
use cxx_kernel.Scheduler.{ProcessManager, is_blocked, stays, schedule, switch_to}

-- A task that schedule passes over: another one than the current, and blocked.
abbrev pub Passed : ProcessManager → ℕ → Type 0
Passed p b = (b ≢ 0) × (b ≢ p.current) × (is_blocked (p.task b).status ≡ true)

abbrev pub AllPassed : ProcessManager → List ℕ → Type 0
AllPassed p [] = Unit {0}
AllPassed p (b ∷ bs) = Passed p b × AllPassed p bs

abbrev pub with_tasks : LinkedList → ProcessManager → ProcessManager
with_tasks l p = record p { tasks = l }

rotate_items :
    (l : LinkedList) (x : ℕ) (xs : List ℕ)
    → Represents l (x ∷ xs)
    → (t : LinkedList) × (rotate_first_last l ≡ done t) × Represents t (xs ++ x ∷ [])
unfolding rotated
rotate_items l x xs h = rotate_first_last-Represents l (x ∷ xs) h

-- A turn of the loop at the task `x`, with `l` the tasks after the rotation.
module _ (f : ℕ) (p : ProcessManager) (x : ℕ) (l : LinkedList) (i : first_item p.tasks ≡ x)
    (n : (x == 0) ≡ false) where
  turn_pass :
      (x == p.current) ≡ false
      → rotate_first_last p.tasks ≡ done l
      → is_blocked (p.task x).status ≡ true
      → schedule (suc f) p ≡ schedule f (with_tasks l p)
  unfolding schedule
  turn_pass c r b = rw (i, n, c, r, b) refl

  turn_switch :
      (x == p.current) ≡ false
      → rotate_first_last p.tasks ≡ done l
      → is_blocked (p.task x).status ≡ false
      → schedule (suc f) p ≡ switch_to x (with_tasks l p)
  unfolding schedule
  turn_switch c r b = rw (i, n, c, r, b) (ap (λ (a : ℕ). switch_to a (with_tasks l p)) i)

  turn_stay : (x == p.current) ≡ true → schedule (suc f) p ≡ done (stays, p)
  unfolding schedule
  turn_stay c = rw (i, n, c) refl

schedule_pass :
    (f : ℕ) (p : ProcessManager) (x : ℕ) (xs : List ℕ)
    → Represents p.tasks (x ∷ xs)
    → Passed p x
    → (l : LinkedList) × (schedule (suc f) p ≡ schedule f (with_tasks l p))
      × Represents l (xs ++ x ∷ [])
schedule_pass f p x xs h (n, c, b) =
    let (l, e, r) = rotate_items p.tasks x xs h in
    let i : first_item p.tasks ≡ x = first_item-Represents p.tasks x xs h in
    (l, turn_pass f p x l i (==_false x 0 n) (==_false x p.current c) e b, r)

pub schedule_stay :
    (f : ℕ) (p : ProcessManager) (xs : List ℕ)
    → p.current ≢ 0
    → Represents p.tasks (p.current ∷ xs)
    → schedule (suc f) p ≡ done (stays, p)
schedule_stay f p xs n h =
    let i : first_item p.tasks ≡ p.current = first_item-Represents p.tasks p.current xs h in
    turn_stay f p p.current p.tasks i (==_false p.current 0 n) ((==_iff p.current p.current).1 refl)

pub schedule_switch :
    (f : ℕ) (p : ProcessManager) (x : ℕ) (xs : List ℕ)
    → Represents p.tasks (x ∷ xs)
    → x ≢ 0
    → x ≢ p.current
    → is_blocked (p.task x).status ≡ false
    → (l : LinkedList) × (schedule (suc f) p ≡ switch_to x (with_tasks l p))
      × Represents l (xs ++ x ∷ [])
schedule_switch f p x xs h n c b =
    let (l, e, r) = rotate_items p.tasks x xs h in
    let i : first_item p.tasks ≡ x = first_item-Represents p.tasks x xs h in
    (l, turn_switch f p x l i (==_false x 0 n) (==_false x p.current c) e b, r)

-- schedule passes over the blocked tasks in front, and moves them to the end in their order.
pub schedule_passes :
    (bs : List ℕ) (f : ℕ) (p : ProcessManager) (z : ℕ) (zs : List ℕ)
    → Represents p.tasks (bs ++ z ∷ zs)
    → AllPassed p bs
    → (l : LinkedList) × (schedule (length bs + f) p ≡ schedule f (with_tasks l p))
      × Represents l (z ∷ zs ++ bs)
schedule_passes [] f p z zs h a =
    (p.tasks, ap (λ (n : ℕ). schedule n p) (omega arith), rw (append-nil zs) h)
schedule_passes (b ∷ bs) f p z zs h (a, more) =
    let (l, e, r) = schedule_pass (length bs + f) p b (bs ++ z ∷ zs) h a in
    let r' : Represents l (bs ++ z ∷ (zs ++ b ∷ [])) = rw (← append_assoc bs (z ∷ zs) (b ∷ [])) r in
    let (t, q, s) = schedule_passes bs f (with_tasks l p) z (zs ++ b ∷ []) r' more in
    let s' : Represents t (z ∷ (zs ++ b ∷ bs)) = rw (← append_assoc zs (b ∷ []) bs) s in
    (t, ap (λ (n : ℕ). schedule n p) (omega arith) ∙ e ∙ q, s')
