-- ===== src/Mutex.antt =====
-- BaseMutex over its Spinlock and its Waitlist (inc/mutex.hh), used by tasks on one processor. An
-- atomic action of lock and of unlock is a step of the task that runs; between two actions, the
-- processor may go to another task, which is not blocked. A turn of the spinning loop that does not
-- get the spinlock leaves the state. schedule() gives the processor to a task that is not blocked, or
-- leaves it to the current one, also to a blocked one, where it finds all others blocked: what the
-- others wait for may be other mutexes, so an event says where this happens. `value` is the word that the mutex guards, also for a
-- GuardMutex on a word of its client.
pub mod Sections
pub mod Spinning
pub mod Moves
pub mod Handover
pub mod Exclusion
pub mod Stuck
pub mod Wakes
use cxx_kernel.Base.{ℕ, Bool, true, false, ◌||◌, List, [], ◌∷◌, ◌==◌, if◌then◌else◌, update}
use cxx_kernel.Scheduler.{is_blocked}
use cxx_kernel.Waitlist.{Waitlist, new_waitlist, enqueue, dequeue, empty}

-- Where a task stands: it has not called lock, or it is past the call of locker.lock(), past the
-- write of the value, past queue.enqueue(), in reschedule(), past lock(), past locker.lock() of
-- unlock, or past the change of the value or of the queue there.
pub data Place : Type 0 where
  outside entering taken queued asleep inside leaving released : Place

pub record Mutex : Type 0 where
  pub locked : Bool
  pub value : Bool
  pub queue : Waitlist
  pub place : ℕ → Place
  pub current : ℕ

unfoldable pub new_mutex : ℕ → Mutex
new_mutex current = record {
  locked = false;
  value = false;
  queue = new_waitlist;
  place = λ t. outside;
  current = current;
}

abbrev pub go : ℕ → Place → Mutex → Mutex
go t p m = record m { place = update m.place t p }

-- locker.lock()
unfoldable pub spin_lock : ℕ → Place → Mutex → Mutex
spin_lock t p m = if m.locked then m else go t p (record m { locked = true })

-- locker.unlock()
unfoldable pub spin_unlock : ℕ → Place → Mutex → Mutex
spin_unlock t p m = go t p (record m { locked = false })

-- What lock does under the spinlock.
unfoldable pub take_or_wait : ℕ → Mutex → Mutex
take_or_wait t m =
    if m.value
    then go t queued (record m { queue = enqueue t m.queue })
    else go t taken (record m { value = true })

-- What unlock does under the spinlock.
unfoldable pub give_up : ℕ → Mutex → Mutex
give_up t m =
    if empty m.queue
    then go t released (record m { value = false })
    else go t released (record m { queue = dequeue m.queue })

-- The task goes on after reschedule() if it is not blocked.
unfoldable pub come_back : ℕ → Mutex → Mutex
come_back t m = if is_blocked (m.queue.status t) then m else go t inside m

-- schedule() finds all other tasks blocked and returns the current one, blocked as it is: a task in
-- reschedule() gets out of lock.
unfoldable pub come_back_blocked : ℕ → Mutex → Mutex
come_back_blocked t m = elim (m.place t) [
  | asleep ↦ go t inside m
  | outside ↦ m
  | entering ↦ m
  | taken ↦ m
  | queued ↦ m
  | inside ↦ m
  | leaving ↦ m
  | released ↦ m
]

-- The next action of a task.
unfoldable pub act : ℕ → Mutex → Mutex
act t m = elim (m.place t) [
  | outside ↦ spin_lock t entering m
  | entering ↦ take_or_wait t m
  | taken ↦ spin_unlock t inside m
  | queued ↦ spin_unlock t asleep m
  | asleep ↦ come_back t m
  | inside ↦ spin_lock t leaving m
  | leaving ↦ give_up t m
  | released ↦ spin_unlock t outside m
]

-- The current task acts, or the processor goes to a task, or schedule() finds all other tasks blocked.
pub data Event : Type 0 where
  acts : Event
  switches : ℕ → Event
  all_blocked : Event

unfoldable pub happen : Event → Mutex → Mutex
happen acts m = act m.current m
happen all_blocked m = come_back_blocked m.current m
happen (switches t) m =
    if t == 0 || is_blocked (m.queue.status t) then m else record m { current = t }

unfoldable pub happen_all : List Event → Mutex → Mutex
happen_all [] m = m
happen_all (e ∷ es) m = happen_all es (happen e m)
