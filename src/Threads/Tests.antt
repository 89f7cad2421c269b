-- ===== src/Threads/Tests.antt =====
-- A run of three threads: one adds 1, one waits and falls asleep, one takes the 1 back.
use nexus_c.Base.{ℕ, ◌≡◌, refl, some, update}
use nexus_c.Threads.{
  System, Pc, raise, lower, idle, add_locking, add_locked, add_summed, add_unlocking, wait_locking,
  wait_testing, wait_asleep, wait_returned, move, lock_as, mutex_lock, mutex_unlock, broadcast,
  wake, counter_add, sum_as, thread_step, add_start, delta_is_zero,
}
use nexus_c.Threads.Moves.{Start, Step, start, Reaches}
use nexus_c.Threads.Reached.{Reaches-IsSynchronised}
use nexus_c.Threads.Safety.{IsSynchronised}
use nexus_c.Threads.Waking.{IsWaiting, OwnSteps, waiter-OwnSteps}

abbrev locked : System → ℕ → Pc → System
locked s i p = record s { holder = some i; pc = update s.pc i p }

abbrev summed : System → ℕ → ℕ → System
summed s i sum = record s { counter = sum; pc = update s.pc i add_summed }

abbrev adding : System
adding = locked (move start 0 (add_locking (raise 1))) 0 (add_locked (raise 1))

abbrev added : System
added = mutex_unlock (move (summed adding 0 1) 0 add_unlocking) 0 idle

abbrev sleeping : System
sleeping = mutex_unlock (locked (move added 1 wait_locking) 1 wait_testing) 1 wait_asleep

abbrev removing : System
removing = locked (move sleeping 2 (add_locking (lower 1))) 2 (add_locked (lower 1))

abbrev removed : System
removed = mutex_unlock (broadcast (summed removing 2 0) 2 add_unlocking) 2 idle

added-Reaches : Reaches added
unfolding thread_step mutex_lock lock_as mutex_unlock move sum_as counter_add add_start
    delta_is_zero
added-Reaches =
    Reaches.next
      (Reaches.next
        (Reaches.next
          (Reaches.next
            (Reaches.next Reaches.begin
              (Step.call 0 (add_locking (raise 1)) (Start.calls_add (raise 1) refl refl)))
            (Step.own 0 refl))
          (Step.own 0 refl))
        (Step.own 0 refl))
      (Step.own 0 refl)

sleeping-Reaches : Reaches sleeping
unfolding thread_step mutex_lock lock_as mutex_unlock move
sleeping-Reaches =
    Reaches.next
      (Reaches.next
        (Reaches.next added-Reaches (Step.call 1 wait_locking (Start.calls_wait refl refl)))
        (Step.own 1 refl))
      (Step.own 1 refl)

removed-Reaches : Reaches removed
unfolding thread_step mutex_lock lock_as mutex_unlock move sum_as counter_add broadcast wake
    add_start delta_is_zero
removed-Reaches =
    Reaches.next
      (Reaches.next
        (Reaches.next
          (Reaches.next
            (Reaches.next sleeping-Reaches
              (Step.call 2 (add_locking (lower 1)) (Start.calls_add (lower 1) refl refl)))
            (Step.own 2 refl))
          (Step.own 2 refl))
        (Step.own 2 refl))
      (Step.own 2 refl)

Reaches-IsSynchronised_example : IsSynchronised sleeping
Reaches-IsSynchronised_example = Reaches-IsSynchronised sleeping-Reaches

waiter-OwnSteps_example : (s' : System) × OwnSteps 1 3 removed s' × (s'.pc 1 ≡ wait_returned)
unfolding mutex_unlock move broadcast wake
waiter-OwnSteps_example = waiter-OwnSteps removed 1 removed-Reaches refl refl (IsWaiting.woken refl)
