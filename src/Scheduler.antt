-- ===== src/Scheduler.antt =====
-- The scheduler (inc/processmanager.h, src/processmanager.cpp) and the fields of a task that it
-- uses (inc/task.h, src/task.cpp). A task is an address, 0 is nullptr, and the tasks are a map from
-- addresses. m_tasks is the List of LinkedList. addTask and schedule stand for their critical
-- section, which runs with interrupts off and up to the switch to the other task; the mutex of a
-- task and the pools m_task_pool, which nothing reads, are not modelled. killer takes
-- __scheduling_lock itself, and so its spinlock is: `locked`, and a wait on fuel.
pub mod Rotation
pub mod Switching
pub mod Tasks
use cxx_kernel.Base.{
  ℕ, zero, suc, ◌+◌, ◌-◌, ◌*◌, ◌/◌, ◌%◌, ◌^◌, Bool, true, false, Outcome, done, fault, no_fuel,
  ◌>>=◌, ltb, leb, ◌==◌, if◌then◌else◌, update,
}
use cxx_kernel.LinkedList.{
  LinkedList, new_list, append, first_item, rotate_first_last, delete_all, increment,
}

pub data TaskStatus : Type 0 where
  running waiting blocked : TaskStatus

abbrev pub is_blocked : TaskStatus → Bool
is_blocked blocked = true
is_blocked running = false
is_blocked waiting = false

pub record Task : Type 0 where
  pub priority : ℕ
  pub nice : ℕ
  pub slice_size : ℕ
  pub slice : ℕ
  pub pid : ℕ
  pub status : TaskStatus

unfoldable pub new_task : Task
new_task = record { priority = 1; nice = 1; slice_size = 0; slice = 0; pid = 0; status = waiting }

abbrev pub max_priority : ℕ
max_priority = 20

abbrev pub max_nice : ℕ
max_nice = 20

unfoldable pub set_priority : ℕ → Task → Task
set_priority p t = record t { priority = (if ltb max_priority p then max_priority else p) }

unfoldable pub set_nice : ℕ → Task → Task
set_nice p t = record t { nice = (if ltb max_nice p then max_nice else p) }

unfoldable pub set_slice : ℕ → Task → Task
set_slice s t =
    let cut = if ltb t.slice_size s then t.slice_size else s in
    record t { slice = (if t.slice_size == 0 then s else cut) }

unfoldable pub lower_slice : Task → Task
lower_slice t = if ltb 0 t.slice then record t { slice = t.slice - 1 } else t

pub record ProcessManager : Type 0 where
  pub tasks : LinkedList
  pub task : ℕ → Task
  pub current : ℕ
  pub pool_index : ℕ
  pub pool_slice : ℕ
  pub last_pid : ℕ
  pub locked : Bool

-- The constructor, with the memory of the tasks and of m_pool_slice as it was.
unfoldable pub new_manager : ℕ → (ℕ → Task) → ℕ → ProcessManager
new_manager brk task pool_slice = record {
  tasks = new_list brk;
  task = task;
  current = 0;
  pool_index = 0;
  pool_slice = pool_slice;
  last_pid = 1;
  locked = false;
}

-- (MAX_PRIORITY - t->priority()) + t->nice(), on a uint32_t.
unfoldable pub weight : Task → ℕ
weight t = ((2 ^ 32 + max_priority - t.priority) % 2 ^ 32 + t.nice) % 2 ^ 32

unfoldable pub approx_pool : ℕ → ℕ → ProcessManager → ℕ
approx_pool t base p =
    let approx = weight (p.task t) * 4 % 2 ^ 32 / (max_priority + max_nice + 1) in
    if t == 0 then 3 else ((p.pool_index + approx) % 2 ^ 32 + base) % 2 ^ 32 % 4

-- if (t->pid() == 0) t->setPid(++m_pid);
unfoldable pub give_pid : ℕ → ProcessManager → ProcessManager
give_pid t p =
    let n = increment p.last_pid in
    if (p.task t).pid == 0
    then record p { last_pid = n; task = update p.task t (record (p.task t) { pid = n }) }
    else p

-- addTask up to t->switchTo.
unfoldable pub add_task : ℕ → ProcessManager → ProcessManager
add_task t p =
    let q = give_pid t p in if t == 0 then p else record q { tasks = append t q.tasks; current = t }

-- Spinlock::lock: the wait ends when another context unlocks, and within one context never.
unfoldable pub spin : ℕ → ProcessManager → Outcome ProcessManager
spin zero p = no_fuel
spin (suc f) p = let rest = spin f p in if p.locked then rest else done (record p { locked = true })

unfoldable pub do_kill : ℕ → ProcessManager → Outcome ProcessManager
do_kill fuel p =
    if p.current == 0
    then done p
    else spin fuel p >>= (λ q.
      delete_all fuel q.current q.tasks >>= (λ l. done (record q { tasks = l; locked = false })))

unfoldable pub killer : ℕ → ProcessManager → Outcome ProcessManager
killer fuel p = spin fuel p >>= (λ q. do_kill fuel q >>= (λ r. done (record r { locked = false })))

-- m_pool_slice for the next task, with `n` tasks; SCHEDULING_GRANULARITY is 500 and its minimum 20.
unfoldable pub slice_of : ℕ → Task → ℕ
slice_of n t =
    let approx = if weight t == 0 then 1 else weight t in
    let s = if ltb 0 n then 500 / n / approx else 500 / approx in if ltb s 20 then 20 else s

-- How schedule ends: nullptr, the current task goes on, or another one runs.
pub data Switch : Type 0 where
  nothing stays switches : Switch

abbrev pub with_status : TaskStatus → Task → Task
with_status s t = record t { status = s }

-- current->setStatus(STATUS_WAITING), unless it is blocked.
unfoldable pub put_back : Task → Task
put_back t = if is_blocked t.status then t else with_status waiting t

-- From m_current = next on; `current` is the task before. With no task before, save faults.
unfoldable pub switch_to : ℕ → ProcessManager → Outcome (Switch × ProcessManager)
switch_to next p =
    let slice = slice_of p.tasks.size (p.task next) in
    let started = update p.task next (with_status running (p.task next)) in
    let parked = update started p.current (put_back (started p.current)) in
    let q = record p {
      current = next;
      pool_slice = slice;
      task = update parked next (set_slice slice (parked next));
    } in
    if p.current == 0 then fault else done (switches, q)

-- The choice of the next task: the first one of m_tasks, moved to the end, until it is not blocked
-- or is the current one. The source writes the first round out before its loop.
unfoldable pub schedule : ℕ → ProcessManager → Outcome (Switch × ProcessManager)
schedule zero p = no_fuel
schedule (suc f) p =
    let next = first_item p.tasks in
    if next == 0
    then if p.current == 0 then fault else done (nothing, p)
    else if next == p.current
    then done (stays, p)
    else rotate_first_last p.tasks >>= (λ l. elim (is_blocked (p.task next).status) [
      | true ↦ schedule f (record p { tasks = l })
      | false ↦ switch_to next (record p { tasks = l })
    ])

-- yield
unfoldable pub yield_slice : ProcessManager → ProcessManager
yield_slice p =
    let t = record (p.task p.current) { slice = 0 } in
    if p.current == 0 then p else record p { task = update p.task p.current t }

unfoldable pub has_slice : ProcessManager → Bool
has_slice p = if p.current == 0 then false else ltb 0 (p.task p.current).slice

-- decSlice, at each tick of the timer.
unfoldable pub tick : ProcessManager → ProcessManager
tick p =
    if p.current == 0
    then p
    else record p { task = update p.task p.current (lower_slice (p.task p.current)) }
