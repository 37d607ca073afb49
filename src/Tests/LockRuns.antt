-- ===== src/Tests/LockRuns.antt =====
-- A mutex of inc/mutex.hh between two tasks, and its queue.
use cxx_kernel.Base.{ℕ, ◌≡◌, refl, true, List, [], ◌∷◌, ◌++◌, arith, update}
use cxx_kernel.Scheduler.{is_blocked, blocked}
use cxx_kernel.Waitlist.{Waitlist, new_waitlist, enqueue}
use cxx_kernel.Waitlist.Queue.{Queued, new_waitlist-Queued, enqueue-Queued}
use cxx_kernel.Mutex.{
  Mutex, outside, queued, inside, leaving, asleep, new_mutex, Event, acts, switches, all_blocked,
  happen, happen_all, act, come_back_blocked, spin_lock, spin_unlock, take_or_wait,
}
use cxx_kernel.Mutex.Exclusion.{happen_all-exclusive}
use cxx_kernel.Mutex.Stuck.{happen_all-stuck}
use cxx_kernel.Mutex.Wakes.{IsPassed, happen_all-IsPassed}

-- Task 1 takes the mutex, and task 2 comes to lock.
abbrev contention : List Event
contention = acts ∷ acts ∷ acts ∷ switches 2 ∷ acts ∷ acts ∷ []

one_inside : (happen_all contention (new_mutex 1)).place 1 ≡ inside
unfolding happen_all happen act spin_lock spin_unlock take_or_wait new_mutex new_waitlist enqueue
one_inside = refl

happen_all-exclusive_example : ◌≡◌ {A = ℕ} 1 1
happen_all-exclusive_example =
    happen_all-exclusive contention 1 1 1 (λ e. omega arith) refl one_inside one_inside

-- schedule() finds task 1 blocked as well, on another mutex, and returns task 2, which gets past lock
-- without the mutex.
abbrev deadlock : List Event
deadlock = contention ++ acts ∷ all_blocked ∷ []

both_inside :
    ((happen_all deadlock (new_mutex 1)).place 1 ≡ inside)
    × ((happen_all deadlock (new_mutex 1)).place 2 ≡ inside)
unfolding happen_all happen act spin_lock spin_unlock take_or_wait new_mutex new_waitlist enqueue
    come_back_blocked
both_inside = (refl, refl)

-- The processor goes back to task 1 before task 2 unlocks the spinlock.
abbrev unlucky : List Event
unlucky = acts ∷ acts ∷ acts ∷ switches 2 ∷ acts ∷ acts ∷ switches 1 ∷ []

two_queued : (happen_all unlucky (new_mutex 1)).place 2 ≡ queued
unfolding happen_all happen act spin_lock spin_unlock take_or_wait new_mutex new_waitlist enqueue
two_queued = refl

two_blocked : is_blocked ((happen_all unlucky (new_mutex 1)).queue.status 2) ≡ true
unfolding happen_all happen act spin_lock spin_unlock take_or_wait new_mutex new_waitlist enqueue
two_blocked = refl

one_runs : (happen_all unlucky (new_mutex 1)).current ≡ 1
unfolding happen_all happen act spin_lock spin_unlock take_or_wait new_mutex new_waitlist enqueue
one_runs = refl

happen_all-stuck_example :
    ((happen_all (acts ∷ all_blocked ∷ []) (happen_all unlucky (new_mutex 1))).place 2 ≡ queued)
    × ((happen_all (acts ∷ all_blocked ∷ []) (happen_all unlucky (new_mutex 1))).locked ≡ true)
happen_all-stuck_example =
    happen_all-stuck unlucky (acts ∷ all_blocked ∷ []) 1 2 two_queued two_blocked
      (λ e. let r = one_runs in omega (arith, e, r))

abbrev waiting_two : Waitlist
waiting_two = enqueue 2 new_waitlist

waiting_two-Queued : Queued waiting_two (2 ∷ [])
waiting_two-Queued =
    (enqueue-Queued new_waitlist 2 (λ e. omega arith) [] refl new_waitlist-Queued).0

enqueue-Queued_example :
    Queued (enqueue 3 waiting_two) (2 ∷ 3 ∷ [])
    × ((enqueue 3 waiting_two).status ≡ update waiting_two.status 3 blocked)
enqueue-Queued_example =
    enqueue-Queued waiting_two 3 (λ e. omega arith) (2 ∷ []) refl waiting_two-Queued

abbrev unlocking : Mutex
unlocking = record {
  locked = true;
  value = true;
  queue = waiting_two;
  place = update (update (λ t. outside) 1 leaving) 2 asleep;
  current = 1;
}

happen_all-IsPassed_example :
    IsPassed unlocking 2 [] waiting_two-Queued
      (happen_all (acts ∷ acts ∷ switches 2 ∷ acts ∷ []) unlocking)
happen_all-IsPassed_example = happen_all-IsPassed unlocking 2 [] waiting_two-Queued refl refl
