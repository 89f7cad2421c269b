-- ===== src/Threads/Waking.antt =====
-- A wait returns once the counter is 0.
use nexus_c.Base.{
  ℕ, suc, ◌≡◌, ◌∙◌, ap, refl, inl, inr, true, false, none, some, ltb, ◌==◌, update, arith,
}
use nexus_c.Threads.{
  System, Pc, wait_locking, wait_testing, wait_asleep, wait_woken, wait_unlocking, wait_returned,
  move, lock_as, mutex_lock, mutex_unlock, thread_step,
}
use nexus_c.Threads.Moves.{Reaches}
use nexus_c.Threads.Reached.{Reaches-IsSynchronised}
use nexus_c.Threads.Safety.{holds}

-- Steps of one thread only.
pub data OwnSteps (i : ℕ) : ℕ → System → System → Type 0 where
  stop : {s : System} → OwnSteps i 0 s s
  step :
      {n : ℕ} {s s' s'' : System}
      → thread_step s i (s.pc i) ≡ some s'
      → OwnSteps i n s' s''
      → OwnSteps i (suc n) s s''

-- In a wait, and not past its loop.
pub data IsWaiting : Pc → Type 0 where
  locking : {p : Pc} → p ≡ wait_locking → IsWaiting p
  asleep : {p : Pc} → p ≡ wait_asleep → IsWaiting p
  woken : {p : Pc} → p ≡ wait_woken → IsWaiting p

update_here {ℓ} : {A : Type ℓ} (f : ℕ → A) (i : ℕ) (a : A) → update f i a i ≡ a
update_here f i a = let e : (i == i) ≡ true = ground arith in rw e refl

module _ (s : System) (i : ℕ) (done : s.counter ≡ 0) (free : s.holder ≡ none) where
  tested : System
  tested = record s { holder = some i; pc = update s.pc i wait_testing }

  passed : System
  unfolding tested
  passed = move tested i wait_unlocking

  returned : System
  unfolding passed
  returned = mutex_unlock passed i wait_returned

  lock_step : mutex_lock s i wait_testing ≡ some tested
  unfolding mutex_lock lock_as tested
  lock_step = ap (lock_as s i wait_testing) free

  test_step : thread_step tested i (tested.pc i) ≡ some passed
  unfolding tested passed thread_step
  test_step =
      let nothing : ltb 0 s.counter ≡ false = ground (arith, done) in
      ap (thread_step tested i) (update_here s.pc i wait_testing) ∙ rw nothing refl

  unlock_step : thread_step passed i (passed.pc i) ≡ some returned
  unfolding tested passed returned thread_step move
  unlock_step = ap (thread_step passed i) (update_here tested.pc i wait_unlocking)

  returns : thread_step s i (s.pc i) ≡ mutex_lock s i wait_testing → OwnSteps i 3 s returned
  returns e =
      OwnSteps.step (e ∙ lock_step)
        (OwnSteps.step test_step (OwnSteps.step unlock_step OwnSteps.stop))

  returned_there : returned.pc i ≡ wait_returned
  unfolding returned passed tested mutex_unlock move
  returned_there = update_here passed.pc i wait_returned

-- Where the counter is 0 and no thread holds the mutex, in a state that threads reach, every thread in
-- a wait, asleep or not, returns from it by three steps of its own.
pub waiter-OwnSteps :
    (s : System) (i : ℕ)
    → Reaches s
    → s.counter ≡ 0
    → s.holder ≡ none
    → IsWaiting (s.pc i)
    → (s' : System) × OwnSteps i 3 s s' × (s'.pc i ≡ wait_returned)
unfolding thread_step
waiter-OwnSteps s i r done free (IsWaiting.locking e) = (
  returned s i done free,
  returns s i done free (ap (thread_step s i) e),
  returned_there s i done free,
)
waiter-OwnSteps s i r done free (IsWaiting.woken e) = (
  returned s i done free,
  returns s i done free (ap (thread_step s i) e),
  returned_there s i done free,
)
waiter-OwnSteps s i r done free (IsWaiting.asleep e) =
    let v = Reaches-IsSynchronised r in
    elim (v.awake i e) [
      | inl above ↦ absurd (ground (arith, above, done))
      | inr (j, summed) ↦ absurd (ground (arith, v.holding j (ap holds summed), free))
    ]
