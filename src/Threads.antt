-- ===== src/Threads.antt =====
-- The wait group (src/n_threads.c, lines 1438 to 1597): threads over one counter, in any order of their
-- steps. The mutex and the condition variable are the platform's: at most one thread holds the mutex,
-- waiting on the variable gives it up, a broadcast wakes every sleeper, and a sleeper may wake by itself.
use nexus_c.Base.{
  ℕ, ◌+◌, ◌-◌, Bool, true, false, not, ◌||◌, Option, none, some, if◌then◌else◌, leb, ltb, ◌==◌,
  update,
}
use nexus_c.Errors.{error_none, invalid_argument, capacity, nexus_error}
pub mod Moves
pub mod Safety
pub mod Reached
pub mod Waking
mod Tests

-- An int32 that is added: a sign and a size.
pub data Delta : Type 0 where
  raise : ℕ → Delta
  lower : ℕ → Delta

unfoldable pub delta_is_zero : Delta → Bool
delta_is_zero (raise k) = k == 0
delta_is_zero (lower k) = k == 0

-- The sum, where the assertion holds and the counter is an int32.
unfoldable pub counter_add : ℕ → Delta → Option ℕ
counter_add counter (raise k) = if ltb (counter + k) 2147483648 then some (counter + k) else none
counter_add counter (lower k) = if leb k counter then some (counter - k) else none

-- Where a thread is.
pub data Pc : Type 0 where
  idle : Pc
  -- nexus_threads_waitgroup_add: before the mutex is locked, before and after the sum, and before the
  -- mutex is unlocked.
  add_locking : Delta → Pc
  add_locked : Delta → Pc
  add_summed : Pc
  add_unlocking : Pc
  -- nexus_threads_waitgroup_wait: before the mutex is locked, at the test of the loop, asleep on the
  -- condition variable, awake but without the mutex, and before the mutex is unlocked.
  wait_locking : Pc
  wait_testing : Pc
  wait_asleep : Pc
  wait_woken : Pc
  wait_unlocking : Pc
  wait_returned : Pc
  -- nexus_threads_waitgroup_try_wait.
  try_locking : Pc
  try_testing : Pc
  try_unlocking : Bool → Pc
  try_returned : Bool → Pc

pub record System : Type 0 where
  pub counter : ℕ
  pub holder : Option ℕ
  pub pc : ℕ → Pc

-- The call of waitgroup_add: it goes on, or returns an error at once.
unfoldable pub add_start : Delta → Option Pc
add_start delta = if delta_is_zero delta then none else some (add_locking delta)

unfoldable pub done_start : Option Pc
unfolding add_start
done_start = add_start (lower 1)

-- The mutex is taken if it is free.
unfoldable pub lock_as : System → ℕ → Pc → Option ℕ → Option System
lock_as s i p none = some (record s { holder = some i; pc = update s.pc i p })
lock_as s i p (some j) = none

unfoldable pub mutex_lock : System → ℕ → Pc → Option System
mutex_lock s i p = lock_as s i p s.holder

unfoldable pub mutex_unlock : System → ℕ → Pc → System
mutex_unlock s i p = record s { holder = none; pc = update s.pc i p }

unfoldable pub move : System → ℕ → Pc → System
move s i p = record s { pc = update s.pc i p }

-- The thread goes on with the sum, or ends the program.
unfoldable pub sum_as : System → ℕ → Option ℕ → Option System
sum_as s i none = none
sum_as s i (some sum) = some (record s { counter = sum; pc = update s.pc i add_summed })

unfoldable pub wake : Pc → Pc
wake wait_asleep = wait_woken
wake p = p

-- Every sleeper wakes, and the thread goes on.
unfoldable pub broadcast : System → ℕ → Pc → System
broadcast s i p = record s { pc = update (λ j. wake (s.pc j)) i p }

-- What thread `i` does next, at a place in the code; nothing where it has to wait for others.
unfoldable pub thread_step : System → ℕ → Pc → Option System
thread_step s i idle = none
thread_step s i (add_locking delta) = mutex_lock s i (add_locked delta)
thread_step s i (add_locked delta) = sum_as s i (counter_add s.counter delta)
thread_step s i add_summed =
    some (if s.counter == 0 then broadcast s i add_unlocking else move s i add_unlocking)
thread_step s i add_unlocking = some (mutex_unlock s i idle)
thread_step s i wait_locking = mutex_lock s i wait_testing
thread_step s i wait_testing =
    some (if ltb 0 s.counter then mutex_unlock s i wait_asleep else move s i wait_unlocking)
thread_step s i wait_asleep = none
thread_step s i wait_woken = mutex_lock s i wait_testing
thread_step s i wait_unlocking = some (mutex_unlock s i wait_returned)
thread_step s i wait_returned = none
thread_step s i try_locking = mutex_lock s i try_testing
thread_step s i try_testing = some (move s i (try_unlocking (s.counter == 0)))
thread_step s i (try_unlocking ready) = some (mutex_unlock s i (try_returned ready))
thread_step s i (try_returned ready) = none

-- What waitgroup_create returns: whether memory is granted and the mutex and the variable start.
unfoldable pub waitgroup_create : Bool → Bool → Bool → ℕ
waitgroup_create granted mutex_ready cond_ready =
    if not granted
    then capacity
    else if not mutex_ready || not cond_ready
    then nexus_error 7
    else error_none
