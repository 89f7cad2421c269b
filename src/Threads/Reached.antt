-- ===== src/Threads/Reached.antt =====
-- The steps of the threads keep the mutex exclusive and lose no wakeup.
use mathlib.Core.Path.{subst}
use nexus_c.Base.{
  ℕ, ◌≡◌, ◌≢◌, ◌∙◌, ap, refl, sym, inl, inr, true, false, some, ltb, ◌==◌, Bool-cases, Option-cases,
  arith,
}
use nexus_c.Threads.{
  System, Pc, idle, add_locking, add_locked, add_summed, add_unlocking, wait_locking, wait_testing,
  wait_asleep, wait_woken, wait_unlocking, wait_returned, try_locking, try_testing, try_unlocking,
  try_returned, Delta, add_start, delta_is_zero, move, mutex_unlock, broadcast, thread_step,
  counter_add, sum_as,
}
use nexus_c.Threads.Moves.{Start, Refused, Step, start, Reaches}
use nexus_c.Threads.Safety.{
  holds, IsSynchronised, changed, changed-IsSynchronised, move-IsSynchronised,
  mutex_lock-IsSynchronised, mutex_unlock-IsSynchronised, keep-IsSynchronised,
  broadcast-IsSynchronised,
}

-- A step that gives a state gives one that is synchronised.
given : {s' : System} (t : System) → some t ≡ some s' → IsSynchronised t → IsSynchronised s'
given {s'} t e v = let q : t ≡ s' = cc in subst IsSynchronised q v

module _ (s : System) (i : ℕ) (v : IsSynchronised s) where
  -- At a place other than before a broadcast.
  elsewhere : (p : Pc) → p ≢ add_summed → s.pc i ≡ p → s.pc i ≢ add_summed
  elsewhere p n e h = n (sym e ∙ h)

  mine : (p : Pc) → holds p ≡ true → s.pc i ≡ p → s.holder ≡ some i
  mine p h e = v.holding i (ap holds e ∙ h)

  sum-IsSynchronised :
      (delta : Delta) {s' : System}
      → s.pc i ≡ add_locked delta
      → thread_step s i (add_locked delta) ≡ some s'
      → IsSynchronised s'
  unfolding thread_step sum_as
  sum-IsSynchronised delta {s'} e step = elim (Option-cases (counter_add s.counter delta)) [
    | inl none_left ↦ absurd (ground (arith, sym (ap (sum_as s i) none_left) ∙ step))
    | inr (sum, q) ↦ given (changed s i sum s.holder add_summed) (sym (ap (sum_as s i) q) ∙ step) (
        changed-IsSynchronised i sum s.holder add_summed v (λ h. mine (add_locked delta) refl e)
          (inl refl) (λ h. absurd (ground (arith, h))) (inr (mine (add_locked delta) refl e))
          (λ h. absurd (ground (arith, h))) (inl refl))
  ]

  own-IsSynchronised :
      (p : Pc) {s' : System} → s.pc i ≡ p → thread_step s i p ≡ some s' → IsSynchronised s'
  unfolding thread_step
  own-IsSynchronised idle e step = absurd (ground (arith, step))
  own-IsSynchronised (add_locking delta) e step =
      mutex_lock-IsSynchronised i (add_locked delta) v (λ h. ground (arith, h))
        (λ h. ground (arith, h)) (elsewhere (add_locking delta) (λ h. ground (arith, h)) e) step
  own-IsSynchronised (add_locked delta) e step = sum-IsSynchronised delta e step
  own-IsSynchronised add_summed {s'} e step = elim (Bool-cases (s.counter == 0)) [
    | inl zero_now ↦
        given (broadcast s i add_unlocking) (rw zero_now at step)
          (broadcast-IsSynchronised i v (mine add_summed refl e))
    | inr more ↦ given (move s i add_unlocking) (rw more at step) (
        keep-IsSynchronised i add_unlocking v (mine add_summed refl e)
          (λ h. absurd (ground (arith, h))) (λ h. ground (arith, h)) (inl (ground (arith, more))))
  ]
  own-IsSynchronised add_unlocking e step = given (mutex_unlock s i idle) step (
      mutex_unlock-IsSynchronised i idle v (mine add_unlocking refl e) refl
        (λ h. absurd (ground (arith, h))) (elsewhere add_unlocking (λ h. ground (arith, h)) e))
  own-IsSynchronised wait_locking e step =
      mutex_lock-IsSynchronised i wait_testing v (λ h. ground (arith, h)) (λ h. ground (arith, h))
        (elsewhere wait_locking (λ h. ground (arith, h)) e) step
  own-IsSynchronised wait_testing {s'} e step = elim (Bool-cases (ltb 0 s.counter)) [
    | inl above ↦ given (mutex_unlock s i wait_asleep) (rw above at step) (
        mutex_unlock-IsSynchronised i wait_asleep v (mine wait_testing refl e) refl
          (λ h. ground (arith, above)) (elsewhere wait_testing (λ h. ground (arith, h)) e))
    | inr at_zero ↦ given (move s i wait_unlocking) (rw at_zero at step) (
        keep-IsSynchronised i wait_unlocking v (mine wait_testing refl e)
          (λ h. ground (arith, at_zero)) (λ h. ground (arith, h))
          (inr (elsewhere wait_testing (λ h. ground (arith, h)) e)))
  ]
  own-IsSynchronised wait_asleep e step = absurd (ground (arith, step))
  own-IsSynchronised wait_woken e step =
      mutex_lock-IsSynchronised i wait_testing v (λ h. ground (arith, h)) (λ h. ground (arith, h))
        (elsewhere wait_woken (λ h. ground (arith, h)) e) step
  own-IsSynchronised wait_unlocking e step = given (mutex_unlock s i wait_returned) step (
      mutex_unlock-IsSynchronised i wait_returned v (mine wait_unlocking refl e) refl
        (λ h. absurd (ground (arith, h))) (elsewhere wait_unlocking (λ h. ground (arith, h)) e))
  own-IsSynchronised wait_returned e step = absurd (ground (arith, step))
  own-IsSynchronised try_locking e step =
      mutex_lock-IsSynchronised i try_testing v (λ h. ground (arith, h)) (λ h. ground (arith, h))
        (elsewhere try_locking (λ h. ground (arith, h)) e) step
  own-IsSynchronised try_testing e step = given (move s i (try_unlocking (s.counter == 0))) step (
      keep-IsSynchronised i (try_unlocking (s.counter == 0)) v (mine try_testing refl e)
        (λ h. absurd (ground (arith, h))) (λ h. ground (arith, h))
        (inr (elsewhere try_testing (λ h. ground (arith, h)) e)))
  own-IsSynchronised (try_unlocking ready) e step =
      given (mutex_unlock s i (try_returned ready)) step (
        mutex_unlock-IsSynchronised i (try_returned ready) v (mine (try_unlocking ready) refl e)
          refl (λ h. absurd (ground (arith, h)))
          (elsewhere (try_unlocking ready) (λ h. ground (arith, h)) e))
  own-IsSynchronised (try_returned ready) e step = absurd (ground (arith, step))

start-IsSynchronised : IsSynchronised start
start-IsSynchronised = record {
  holding = λ i h. absurd (ground (arith, h));
  passed = λ i h. refl;
  awake = λ i h. absurd (ground (arith, h));
}

-- A thread that starts a call does not hold the mutex, before and after.
started : {p q : Pc} → Start p q → (holds q ≡ false) × (q ≢ wait_asleep) × (p ≢ add_summed)
unfolding add_start
started (Start.calls_add {p} {q} delta e r) = elim (Bool-cases (delta_is_zero delta)) [
  | inl nought ↦ absurd (ground (arith, (rw nought at r)))
  | inr other ↦
      let w : add_locking delta ≡ q =
        (let t : some (add_locking delta) ≡ some q = (rw other at r) in cc) in
      (ap holds (sym w), λ h. ground (arith, w, h), λ h. ground (arith, e, h))
]
started (Start.calls_wait e r) = (ap holds r, λ h. ground (arith, r, h), λ h. ground (arith, e, h))
started (Start.calls_try e r) = (ap holds r, λ h. ground (arith, r, h), λ h. ground (arith, e, h))
started (Start.again_wait e r) = (ap holds r, λ h. ground (arith, r, h), λ h. ground (arith, e, h))
started (Start.again_try ready e r) =
    (ap holds r, λ h. ground (arith, r, h), λ h. ground (arith, e, h))

Refused-place : {p : Pc} → Refused p → p ≢ add_summed
Refused-place (Refused.at_add delta e) h = ground (arith, e, h)
Refused-place (Refused.at_wait e) h = ground (arith, e, h)
Refused-place (Refused.at_try e) h = ground (arith, e, h)

Step-IsSynchronised : {s s' : System} → IsSynchronised s → Step s s' → IsSynchronised s'
Step-IsSynchronised v (Step.call i p c) =
    let (free, up, n) = started c in move-IsSynchronised i p v free up n
Step-IsSynchronised v (Step.refused i c) =
    move-IsSynchronised i idle v refl (λ h. ground (arith, h)) (Refused-place c)
Step-IsSynchronised v (Step.spurious i e) =
    move-IsSynchronised i wait_woken v refl (λ h. ground (arith, h)) (λ h. ground (arith, e, h))
Step-IsSynchronised {s} v (Step.own i {s'} e) = own-IsSynchronised s i v (s.pc i) refl e

-- In every state that threads reach from a new wait group, however their steps are interleaved, a
-- thread between locking and unlocking is the holder of the mutex, a wait leaves its loop only while
-- the counter is 0, and a thread sleeps only while the counter is above 0 or another thread is about
-- to wake all sleepers.
pub Reaches-IsSynchronised : {s : System} → Reaches s → IsSynchronised s
Reaches-IsSynchronised Reaches.begin = start-IsSynchronised
Reaches-IsSynchronised (Reaches.next r step) = Step-IsSynchronised (Reaches-IsSynchronised r) step
