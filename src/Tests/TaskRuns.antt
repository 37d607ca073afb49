-- ===== src/Tests/TaskRuns.antt =====
-- The scheduler of src/processmanager.cpp on three tasks: one blocked, one waiting, one current.
use cxx_kernel.Base.{ℕ, ◌≡◌, refl, [], ◌∷◌, ◌++◌, false, Ensures, arith, update}
use cxx_kernel.LinkedList.{LinkedList, new_list, append}
use cxx_kernel.LinkedList.Holds.{Represents, new_list-Represents}
use cxx_kernel.LinkedList.Insert.{append-Represents}
use cxx_kernel.Scheduler.{ProcessManager, Task, waiting, blocked, stays, schedule}
use cxx_kernel.Scheduler.Switching.{Switched, schedule-Switched, schedule-stays}

abbrev three : LinkedList
three = append 300 (append 200 (append 100 (new_list 16)))

three-Represents : Represents three (100 ∷ 200 ∷ 300 ∷ [])
three-Represents = append-Represents 300 _ (100 ∷ 200 ∷ []) (
    append-Represents 200 _ (100 ∷ [])
      (append-Represents 100 _ [] (new_list-Represents 16 (omega arith))))

abbrev idle : Task
idle = record { priority = 1; nice = 1; slice_size = 0; slice = 0; pid = 0; status = waiting }

abbrev stuck : Task
stuck = record { priority = 1; nice = 1; slice_size = 0; slice = 0; pid = 0; status = blocked }

abbrev manager : ℕ → ProcessManager
manager current = record {
  tasks = three;
  task = update (λ k. idle) 100 stuck;
  current = current;
  pool_index = 0;
  pool_slice = 0;
  last_pid = 9;
  locked = false;
}

schedule-Switched_example : Ensures (schedule 3 (manager 300)) (λ r.
    Switched 200 (manager 300) r × Represents r.1.tasks (((300 ∷ []) ++ 100 ∷ []) ++ 200 ∷ []))
schedule-Switched_example =
    schedule-Switched 3 (100 ∷ []) 200 (300 ∷ []) (manager 300) (omega arith) three-Represents
      ((λ e. omega arith, λ e. omega arith, refl), tt) (λ e. omega arith) (λ e. omega arith)
      (λ e. omega arith) refl

schedule-stays_example : Ensures (schedule 3 (manager 200)) (λ r.
    (r.0 ≡ stays)
    × (r.1.current ≡ 200)
    × (r.1.task ≡ (manager 200).task)
    × Represents r.1.tasks (200 ∷ (300 ∷ []) ++ 100 ∷ []))
schedule-stays_example =
    schedule-stays 3 (100 ∷ []) (300 ∷ []) (manager 200) (omega arith) three-Represents
      ((λ e. omega arith, λ e. omega arith, refl), tt) (λ e. omega arith)
