-- ===== src/Waitlist.antt =====
-- A queue of blocked tasks (inc/waitlist.hh, src/waitlist.cpp). The WaitItem of a task is named by
-- the address of the task; `next` and `task` are the fields of the items, and `status` is that of
-- the tasks. 0 is nullptr. The messages to the screen are left out.
pub mod Queue
use cxx_kernel.Base.{ℕ, Bool, ◌==◌, if◌then◌else◌, update}
use cxx_kernel.Scheduler.{TaskStatus, running, waiting, blocked}

pub record Waitlist : Type 0 where
  pub head : ℕ
  pub tail : ℕ
  pub next : ℕ → ℕ
  pub task : ℕ → ℕ
  pub status : ℕ → TaskStatus

-- The items of tasks that were constructed, and no queue.
unfoldable pub new_waitlist : Waitlist
new_waitlist = record { head = 0; tail = 0; next = λ a. 0; task = λ a. a; status = λ a. waiting }

-- The links that enqueue sets.
unfoldable pub link_item : ℕ → Waitlist → Waitlist
link_item current w =
    let cut = update w.next current 0 in
    if w.tail == 0
    then record w { head = current; tail = current; next = cut }
    else record w { tail = current; next = update cut w.tail current }

unfoldable pub enqueue : ℕ → Waitlist → Waitlist
enqueue current w =
    let w' = link_item current w in record w' { status = update w.status current blocked }

-- The first item taken out.
unfoldable pub drop_item : Waitlist → Waitlist
drop_item w =
    if w.head == w.tail then record w { head = 0; tail = 0 } else record w { head = w.next w.head }

unfoldable pub dequeue : Waitlist → Waitlist
dequeue w =
    let next = w.task w.head in
    let w' = drop_item w in
    if w.head == 0
    then w
    else if next == 0
    then w'
    else record w' { status = update w.status next waiting }

unfoldable pub empty : Waitlist → Bool
empty w = w.head == 0
