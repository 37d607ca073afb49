-- ===== src/Scheduler/Switching.antt =====
-- What a call of schedule does.
use mathlib.Core.Path.{ap₂}
use cxx_kernel.Base.{
  min, ltb, ℕ, suc, ◌+◌, ◌-◌, ◌/◌, ◌≤◌, ◌<◌, ◌≡◌, refl, ◌≢◌, List, [], ◌∷◌, ◌++◌, true, false, done,
  Ensures, ◌==◌, ==_false, ==_iff, Bool-cases, inl, inr, if◌then◌else◌, length, update, arith, ap,
  sym, ◌∙◌,
}
use cxx_kernel.LinkedList.Holds.{Represents}
use cxx_kernel.Scheduler.{
  ProcessManager, Task, is_blocked, Switch, stays, switches, schedule, switch_to, set_slice,
  slice_of, with_status, weight, TaskStatus, waiting, blocked, running, put_back,
}
use cxx_kernel.Scheduler.Rotation.{
  AllPassed, with_tasks, schedule_passes, schedule_stay, schedule_switch,
}

share_bounds : (n a : ℕ) → (500 / n / a ≤ 500) × (500 / a ≤ 500)
share_bounds n a = (omega arith, omega arith)

slice_of_bounds : (n : ℕ) (t : Task) → (20 ≤ slice_of n t) × (slice_of n t ≤ 500)
unfolding slice_of
slice_of_bounds n t =
    let (a, b) = share_bounds n (if weight t == 0 then 1 else weight t) in
    (ground arith, ground (arith, a, b))

-- A task that had the processor: running becomes waiting, and blocked stays.
abbrev pub parked_status : TaskStatus → TaskStatus
parked_status running = waiting
parked_status waiting = waiting
parked_status blocked = blocked

put_back_cases :
    (t : Task) (s : TaskStatus)
    → (if is_blocked s then record t { status = s } else with_status waiting t)
      ≡ with_status (parked_status s) t
put_back_cases t running = refl
put_back_cases t waiting = refl
put_back_cases t blocked = refl

put_back_lem : (t : Task) → put_back t ≡ with_status (parked_status t.status) t
unfolding put_back
put_back_lem t = put_back_cases t t.status

-- A task that gets the slice `s`: a task with a limit gets no more than that.
abbrev pub started_task : ℕ → Task → Task
started_task s t = record t {
  status = running;
  slice = (if t.slice_size == 0 then s else min t.slice_size s);
}

set_slice_lem : (s : ℕ) (t : Task) → set_slice s (with_status running t) ≡ started_task s t
unfolding set_slice
set_slice_lem s t =
    let cut : (if ltb t.slice_size s then t.slice_size else s) ≡ min t.slice_size s =
      ground arith in
    ap (λ (v : ℕ). record t { status = running; slice = (if t.slice_size == 0 then s else v) }) cut

-- After the switch from the current task of `p` to `z`: `z` runs, with a slice between the bounds,
-- the task before waits unless it is blocked, and no other task changes.
abbrev pub Switched : ℕ → ProcessManager → Switch × ProcessManager → Type 0
Switched z p r =
    (r.0 ≡ switches)
    × (r.1.current ≡ z)
    × (20 ≤ r.1.pool_slice)
    × (r.1.pool_slice ≤ 500)
    × ((t : ℕ)
        → r.1.task t ≡ (
            if z == t
            then started_task r.1.pool_slice (p.task z)
            else if p.current == t
            then with_status (parked_status (p.task p.current).status) (p.task p.current)
            else p.task t))

-- The state that switch_to ends in.
abbrev after_switch : ℕ → ProcessManager → ProcessManager
after_switch z p =
    let slice = slice_of p.tasks.size (p.task z) in
    let started = update p.task z (with_status running (p.task z)) in
    let parked = update started p.current (put_back (started p.current)) in
    record p {
      current = z;
      pool_slice = slice;
      task = update parked z (set_slice slice (parked z));
    }

after_switch_task :
    (z : ℕ) (p : ProcessManager) (t : ℕ)
    → z ≢ p.current
    → (after_switch z p).task t ≡ (
        if z == t
        then set_slice (slice_of p.tasks.size (p.task z)) (with_status running (p.task z))
        else if p.current == t
        then put_back (p.task p.current)
        else p.task t)
after_switch_task z p t c =
    let a : (z == p.current) ≡ false = ==_false z p.current c in
    let b : (p.current == z) ≡ false = ==_false p.current z (λ e. c (sym e)) in
    let d : (z == z) ≡ true = (==_iff z z).1 refl in
    elim (Bool-cases (z == t)) [ inl e ↦ rw (a, b, d, e) refl | inr e ↦ rw (a, b, d, e) refl ]

switched_task :
    (z : ℕ) (p : ProcessManager) (t : ℕ)
    → (if z == t
        then set_slice (slice_of p.tasks.size (p.task z)) (with_status running (p.task z))
        else if p.current == t
        then put_back (p.task p.current)
        else p.task t)
      ≡ (if z == t
          then started_task (slice_of p.tasks.size (p.task z)) (p.task z)
          else if p.current == t
          then with_status (parked_status (p.task p.current).status) (p.task p.current)
          else p.task t)
switched_task z p t =
    ap₂ (λ (a b : Task). if z == t then a else if p.current == t then b else p.task t)
      (set_slice_lem (slice_of p.tasks.size (p.task z)) (p.task z))
      (put_back_lem (p.task p.current))

switch_to_done :
    (z : ℕ) (p : ProcessManager) → p.current ≢ 0 → switch_to z p ≡ done (switches, after_switch z p)
unfolding switch_to
switch_to_done z p n = rw (==_false p.current 0 n) refl

switch_to-Switched :
    (z : ℕ) (p : ProcessManager)
    → p.current ≢ 0
    → z ≢ p.current
    → (q : ProcessManager) × (switch_to z p ≡ done (switches, q))
      × Switched z p (switches, q)
      × (q.tasks ≡ p.tasks)
switch_to-Switched z p n c =
    let (lo, hi) = slice_of_bounds p.tasks.size (p.task z) in
    (
      after_switch z p,
      switch_to_done z p n,
      (refl, refl, lo, hi, λ t. after_switch_task z p t c ∙ switched_task z p t),
      refl,
    )

-- With a current task, and fuel for one turn more than the tasks in front: where these are blocked and
-- the next one, not null, is neither blocked nor the current one, schedule switches to it, and moves it and those in front of it to the end, in their order.
pub schedule-Switched :
    (f : ℕ) (bs : List ℕ) (z : ℕ) (zs : List ℕ) (p : ProcessManager)
    → length bs < f
    → Represents p.tasks (bs ++ z ∷ zs)
    → AllPassed p bs
    → p.current ≢ 0
    → z ≢ 0
    → z ≢ p.current
    → is_blocked (p.task z).status ≡ false
    → Ensures (schedule f p) (λ r. Switched z p r × Represents r.1.tasks ((zs ++ bs) ++ z ∷ []))
schedule-Switched f bs z zs p h r a n m c b =
    let g = f - (length bs + 1) in
    let (l, e, s) = schedule_passes bs (suc g) p z zs r a in
    let (t, k, u) = schedule_switch g (with_tasks l p) z (zs ++ bs) s m c b in
    let (q, d, w, x) = switch_to-Switched z (with_tasks t p) n c in
    let run : schedule f p ≡ schedule (length bs + suc g) p =
      ap (λ (i : ℕ). schedule i p) (omega arith) in
    ((switches, q), run ∙ e ∙ k ∙ d, (w, rw x u))

-- With a current task, and fuel for one turn more than the tasks in front: where these are blocked,
-- not null and not the current one, and the next one is the current one, it goes on, whether it
-- is blocked or not; those in front of it move to the end, in their order.
pub schedule-stays :
    (f : ℕ) (bs zs : List ℕ) (p : ProcessManager)
    → length bs < f
    → Represents p.tasks (bs ++ p.current ∷ zs)
    → AllPassed p bs
    → p.current ≢ 0
    → Ensures (schedule f p) (λ r.
      (r.0 ≡ stays)
      × (r.1.current ≡ p.current)
      × (r.1.task ≡ p.task)
      × Represents r.1.tasks (p.current ∷ zs ++ bs))
schedule-stays f bs zs p h r a n =
    let g = f - (length bs + 1) in
    let (l, e, s) = schedule_passes bs (suc g) p p.current zs r a in
    let run : schedule f p ≡ schedule (length bs + suc g) p =
      ap (λ (i : ℕ). schedule i p) (omega arith) in
    (
      (stays, with_tasks l p),
      run ∙ e ∙ schedule_stay g (with_tasks l p) (zs ++ bs) n s,
      (refl, refl, refl, s),
    )
