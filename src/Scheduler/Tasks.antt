-- ===== src/Scheduler/Tasks.antt =====
-- How tasks enter and leave m_tasks.
use cxx_kernel.Base.{
  ℕ, zero, suc, ◌+◌, ◌-◌, ◌^◌, ◌≤◌, ◌<◌, ◌≡◌, refl, ◌≢◌, List, [], ◌∷◌, ◌++◌, Bool, true, false,
  Bool-cases, inl, inr, done, no_fuel, Ensures, ◌==◌, ==_false, ==_iff, if◌then◌else◌, length,
  update, arith, ap, ◌∙◌,
}
use cxx_kernel.LinkedList.{increment, LinkedList, delete_all}
use cxx_kernel.LinkedList.Holds.{Represents}
use cxx_kernel.LinkedList.Insert.{append-Represents}
use cxx_kernel.LinkedList.Sweep.{sweep, delete_all-Represents}
use cxx_kernel.Scheduler.{ProcessManager, add_task, give_pid, spin, do_kill, killer}

-- No task has a pid beyond the last one given.
abbrev pub PidsBelow : ProcessManager → Type 0
PidsBelow p = (k : ℕ) → (p.task k).pid ≤ p.last_pid

give_pid_new :
    (t : ℕ) (p : ProcessManager)
    → (p.task t).pid ≡ 0
    → p.last_pid < 2 ^ 32 - 1
    → let n = p.last_pid + 1 in
      give_pid t p
      ≡ record p { last_pid = n; task = update p.task t (record (p.task t) { pid = n }) }
unfolding give_pid
give_pid_new t p e w = let n : increment p.last_pid ≡ p.last_pid + 1 = omega arith in rw (e, n) refl

updated_pid :
    (t : ℕ) (p : ProcessManager)
    → PidsBelow p
    → (k : ℕ)
    → (update p.task t (record (p.task t) { pid = p.last_pid + 1 }) k).pid ≤ p.last_pid + 1
updated_pid t p b k = elim (Bool-cases (t == k)) [
  | inl e ↦ rw e (omega arith)
  | inr e ↦ let h : (p.task k).pid ≤ p.last_pid = b k in rw e (omega arith)
]

-- On a well-formed list of tasks, addTask of a task without a pid gives it one that no task has, puts it at the end of the tasks and
-- makes it the current one, while pids do not wrap.
pub add_task-Represents :
    (t : ℕ) (xs : List ℕ) (p : ProcessManager)
    → t ≢ 0
    → Represents p.tasks xs
    → PidsBelow p
    → p.last_pid < 2 ^ 32 - 1
    → (p.task t).pid ≡ 0
    → let q = add_task t p in
      Represents q.tasks (xs ++ t ∷ [])
      × (q.current ≡ t)
      × ((q.task t).pid ≡ p.last_pid + 1)
      × PidsBelow q
unfolding add_task
add_task-Represents t xs p n r b w e =
    rw (==_false t 0 n, give_pid_new t p e w)
      (append-Represents t p.tasks xs r, refl, rw ((==_iff t t).1 refl) refl, updated_pid t p b)

spin_unfuelled : (p : ProcessManager) → spin zero p ≡ no_fuel
unfolding spin
spin_unfuelled p = refl

spin_again : (f : ℕ) (p : ProcessManager) → p.locked ≡ true → spin (suc f) p ≡ spin f p
unfolding spin
spin_again f p h = ap (λ (b : Bool). if b then spin f p else done (record p { locked = true })) h

spin_free :
    (f : ℕ) (p : ProcessManager)
    → p.locked ≡ false
    → spin (suc f) p ≡ done (record p { locked = true })
unfolding spin
spin_free f p h = ap (λ (b : Bool). if b then spin f p else done (record p { locked = true })) h

spin_locked : (fuel : ℕ) (p : ProcessManager) → p.locked ≡ true → spin fuel p ≡ no_fuel
unfolding spin
spin_locked zero p h = refl
spin_locked (suc f) p h = spin_again f p h ∙ spin_locked f p h

do_kill_waits :
    (fuel : ℕ) (p : ProcessManager) → p.current ≢ 0 → p.locked ≡ true → do_kill fuel p ≡ no_fuel
unfolding do_kill
do_kill_waits fuel p n h = rw (==_false p.current 0 n, spin_locked fuel p h) refl

killer_free :
    (fuel : ℕ) (p : ProcessManager) → p.current ≢ 0 → p.locked ≡ false → killer fuel p ≡ no_fuel
unfolding killer
killer_free zero p n h = rw (spin_unfuelled p) refl
killer_free (suc f) p n h =
    rw (spin_free f p h, do_kill_waits (suc f) (record p { locked = true }) n refl) refl

-- killer never returns when there is a current task: it takes the spinlock, and doKill then waits
-- for it.
pub killer_waits : (fuel : ℕ) (p : ProcessManager) → p.current ≢ 0 → killer fuel p ≡ no_fuel
unfolding killer
killer_waits fuel p n = elim (Bool-cases p.locked) [
  | inl h ↦ rw (spin_locked fuel p h) refl
  | inr h ↦ killer_free fuel p n h
]

do_kill_free :
    (f : ℕ) (p : ProcessManager) (l : LinkedList)
    → p.current ≢ 0
    → p.locked ≡ false
    → delete_all (suc f) p.current p.tasks ≡ done l
    → do_kill (suc f) p ≡ done (record p { tasks = l; locked = false })
unfolding do_kill
do_kill_free f p l n k e = rw (==_false p.current 0 n, spin_free f p k, e) refl

-- Without the lock held, on a well-formed list of tasks whose first one is not the current one, and
-- with fuel for each task, doKill returns and sweeps the current task out of the rest.
pub do_kill-Represents :
    (f x : ℕ) (xs : List ℕ) (p : ProcessManager)
    → length xs < f
    → p.locked ≡ false
    → p.current ≢ 0
    → x ≢ p.current
    → Represents p.tasks (x ∷ xs)
    → Ensures (do_kill (f + 1) p) (λ q. Represents q.tasks (x ∷ sweep p.current xs))
do_kill-Represents f x xs p h k n c r =
    let (l, e, s) = delete_all-Represents (suc f) p.current x p.tasks xs (omega arith) c r in
    let run : do_kill (f + 1) p ≡ do_kill (suc f) p = ap (λ (i : ℕ). do_kill i p) (omega arith) in
    (record p { tasks = l; locked = false }, run ∙ do_kill_free f p l n k e, s)
