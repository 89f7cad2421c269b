-- ===== src/Threads/Safety.antt =====
-- What holds in every state that the threads reach.
use mathlib.Core.Path.{subst}
use nexus_c.Base.{
  ℕ, ◌<◌, ◌≡◌, ◌≢◌, ◌∙◌, ap, refl, sym, ◌⊎◌, inl, inr, Bool, true, false, Option, none, some, ◌==◌,
  update, Bool-cases, Option-cases, arith,
}
use nexus_c.Threads.{
  System, Pc, idle, add_locking, add_locked, add_summed, add_unlocking, wait_locking, wait_testing,
  wait_asleep, wait_woken, wait_unlocking, wait_returned, try_locking, try_testing, try_unlocking,
  try_returned, move, lock_as, mutex_lock, mutex_unlock, broadcast, wake,
}

-- The places at which a thread has the mutex.
abbrev pub holds : Pc → Bool
holds (add_locked delta) = true
holds add_summed = true
holds add_unlocking = true
holds wait_testing = true
holds wait_unlocking = true
holds try_testing = true
holds (try_unlocking ready) = true
holds idle = false
holds (add_locking delta) = false
holds wait_locking = false
holds wait_asleep = false
holds wait_woken = false
holds wait_returned = false
holds try_locking = false
holds (try_returned ready) = false

-- The threads at these places hold the mutex, a wait passes only at 0, and while a thread sleeps
-- the counter is above 0 or another thread is about to broadcast.
pub record IsSynchronised (s : System) : Type 0 where
  pub holding : (i : ℕ) → holds (s.pc i) ≡ true → s.holder ≡ some i
  pub passed : (i : ℕ) → s.pc i ≡ wait_unlocking → s.counter ≡ 0
  pub awake : (i : ℕ) → s.pc i ≡ wait_asleep → (0 < s.counter) ⊎ ((j : ℕ) × (s.pc j ≡ add_summed))

abbrev pub changed : System → ℕ → ℕ → Option ℕ → Pc → System
changed s i counter holder p = record { counter = counter; holder = holder; pc = update s.pc i p }

-- A thread goes to a place, with a new counter and a new holder.
pub changed-IsSynchronised :
    {s : System} (i counter : ℕ) (holder : Option ℕ) (p : Pc)
    → IsSynchronised s
    → (holds p ≡ true → holder ≡ some i)
    → (holder ≡ s.holder) ⊎ ((s.holder ≡ none) ⊎ (s.holder ≡ some i))
    → (p ≡ wait_unlocking → counter ≡ 0)
    → (counter ≡ s.counter) ⊎ (s.holder ≡ some i)
    → (p ≡ wait_asleep → 0 < counter)
    → (p ≡ add_summed) ⊎ ((0 < counter) ⊎ ((counter ≡ s.counter) × (s.pc i ≢ add_summed)))
    → IsSynchronised (changed s i counter holder p)
changed-IsSynchronised {s} i counter holder p v mine others pass same asleep waking = record {
  holding = λ j. elim (Bool-cases (j == i)) [
    | inl e ↦ (let k : j ≡ i = ground (arith, e) in rw (e, k) (λ h. mine h))
    | inr e ↦ rw e (λ h.
        let q = v.holding j h in
        elim others [
          | inl x ↦ x ∙ q
          | inr (inl x) ↦ absurd (ground (arith, x, q))
          | inr (inr x) ↦ absurd (ground (arith, x, q, e))
        ])
  ];
  passed = λ j. elim (Bool-cases (j == i)) [
    | inl e ↦ rw e (λ h. pass h)
    | inr e ↦ rw e (λ h.
        let q = v.holding j (ap holds h) in
        elim same [ inl x ↦ x ∙ v.passed j h | inr x ↦ absurd (ground (arith, x, q, e)) ])
  ];
  awake = λ j. elim (Bool-cases (j == i)) [
    | inl e ↦ rw e (λ h. inl (asleep h))
    | inr e ↦ rw e (λ h. elim waking [
      | inl x ↦ inr (i, (let t : (i == i) ≡ true = ground arith in rw t x))
      | inr (inl x) ↦ inl x
      | inr (inr (x, n)) ↦ elim (v.awake j h) [
        | inl y ↦ inl (omega (arith, x, y))
        | inr (k, y) ↦ inr (
          k,
          elim (Bool-cases (k == i)) [
            | inl t ↦ (let w : k ≡ i = ground (arith, t) in absurd (n (ap s.pc (sym w) ∙ y)))
            | inr t ↦ rw t y
          ],
        )
      ]
    ])
  ];
}

-- A thread goes on without the mutex, from a place that is not before a broadcast.
pub move-IsSynchronised :
    {s : System} (i : ℕ) (p : Pc)
    → IsSynchronised s
    → holds p ≡ false
    → p ≢ wait_asleep
    → s.pc i ≢ add_summed
    → IsSynchronised (move s i p)
unfolding move
move-IsSynchronised {s} i p v free up n =
    changed-IsSynchronised i s.counter s.holder p v (λ h. absurd (ground (arith, h, free)))
      (inl refl) (λ e. absurd (ground (arith, ap holds e, free))) (inl refl) (λ e. absurd (up e))
      (inr (inr (refl, n)))

-- The state once a free mutex is taken.
pub locked_state :
    (s s' : System) (i : ℕ) (p : Pc)
    → s.holder ≡ none
    → mutex_lock s i p ≡ some s'
    → changed s i s.counter (some i) p ≡ s'
unfolding mutex_lock lock_as
locked_state s s' i p free e =
    let q : mutex_lock s i p ≡ some (changed s i s.counter (some i) p) =
      ap (λ (h : Option ℕ). lock_as s i p h) free in
    let r : some (changed s i s.counter (some i) p) ≡ some s' = sym q ∙ e in cc

pub not_locked : (s s' : System) (i j : ℕ) (p : Pc) → s.holder ≡ some j → mutex_lock s i p ≢ some s'
unfolding mutex_lock lock_as
not_locked s s' i j p taken e =
    let q : mutex_lock s i p ≡ none = ap (λ (h : Option ℕ). lock_as s i p h) taken in
    ground (arith, sym q ∙ e)

-- The mutex is taken.
pub mutex_lock-IsSynchronised :
    {s s' : System} (i : ℕ) (p : Pc)
    → IsSynchronised s
    → p ≢ wait_unlocking
    → p ≢ wait_asleep
    → s.pc i ≢ add_summed
    → mutex_lock s i p ≡ some s'
    → IsSynchronised s'
unfolding mutex_lock lock_as
mutex_lock-IsSynchronised {s} {s'} i p v n up m e = elim (Option-cases s.holder) [
  | inl free ↦
      let q : changed s i s.counter (some i) p ≡ s' = locked_state s s' i p free e in
      subst IsSynchronised q (
        changed-IsSynchronised i s.counter (some i) p v (λ h. refl) (inr (inl free))
          (λ h. absurd (n h)) (inl refl) (λ h. absurd (up h)) (inr (inr (refl, m))))
  | inr (j, taken) ↦ absurd (not_locked s s' i j p taken e)
]

-- The mutex is given up.
pub mutex_unlock-IsSynchronised :
    {s : System} (i : ℕ) (p : Pc)
    → IsSynchronised s
    → s.holder ≡ some i
    → holds p ≡ false
    → (p ≡ wait_asleep → 0 < s.counter)
    → s.pc i ≢ add_summed
    → IsSynchronised (mutex_unlock s i p)
unfolding mutex_unlock
mutex_unlock-IsSynchronised {s} i p v mine free asleep n =
    changed-IsSynchronised i s.counter none p v (λ h. absurd (ground (arith, h, free)))
      (inr (inr mine)) (λ e. absurd (ground (arith, ap holds e, free))) (inl refl) asleep
      (inr (inr (refl, n)))

-- A thread goes on with the mutex and without changing the counter.
pub keep-IsSynchronised :
    {s : System} (i : ℕ) (p : Pc)
    → IsSynchronised s
    → s.holder ≡ some i
    → (p ≡ wait_unlocking → s.counter ≡ 0)
    → p ≢ wait_asleep
    → (0 < s.counter) ⊎ (s.pc i ≢ add_summed)
    → IsSynchronised (move s i p)
unfolding move
keep-IsSynchronised {s} i p v mine pass up n =
    changed-IsSynchronised i s.counter s.holder p v (λ h. mine) (inl refl) pass (inl refl)
      (λ e. absurd (up e)) (elim n [ inl x ↦ inr (inl x) | inr x ↦ inr (inr (refl, x)) ])

wake_holds : (p : Pc) → holds (wake p) ≡ holds p
unfolding wake
wake_holds idle = refl
wake_holds (add_locking delta) = refl
wake_holds (add_locked delta) = refl
wake_holds add_summed = refl
wake_holds add_unlocking = refl
wake_holds wait_locking = refl
wake_holds wait_testing = refl
wake_holds wait_asleep = refl
wake_holds wait_woken = refl
wake_holds wait_unlocking = refl
wake_holds wait_returned = refl
wake_holds try_locking = refl
wake_holds try_testing = refl
wake_holds (try_unlocking ready) = refl
wake_holds (try_returned ready) = refl

woken_unlocking : (p : Pc) → wake p ≡ wait_unlocking → p ≡ wait_unlocking
unfolding wake
woken_unlocking idle h = h
woken_unlocking (add_locking delta) h = h
woken_unlocking (add_locked delta) h = h
woken_unlocking add_summed h = h
woken_unlocking add_unlocking h = h
woken_unlocking wait_locking h = h
woken_unlocking wait_testing h = h
woken_unlocking wait_asleep h = absurd (ground (arith, h))
woken_unlocking wait_woken h = h
woken_unlocking wait_unlocking h = h
woken_unlocking wait_returned h = h
woken_unlocking try_locking h = h
woken_unlocking try_testing h = h
woken_unlocking (try_unlocking ready) h = h
woken_unlocking (try_returned ready) h = h

not_asleep : (p : Pc) → wake p ≢ wait_asleep
unfolding wake
not_asleep idle h = ground (arith, h)
not_asleep (add_locking delta) h = ground (arith, h)
not_asleep (add_locked delta) h = ground (arith, h)
not_asleep add_summed h = ground (arith, h)
not_asleep add_unlocking h = ground (arith, h)
not_asleep wait_locking h = ground (arith, h)
not_asleep wait_testing h = ground (arith, h)
not_asleep wait_asleep h = ground (arith, h)
not_asleep wait_woken h = ground (arith, h)
not_asleep wait_unlocking h = ground (arith, h)
not_asleep wait_returned h = ground (arith, h)
not_asleep try_locking h = ground (arith, h)
not_asleep try_testing h = ground (arith, h)
not_asleep (try_unlocking ready) h = ground (arith, h)
not_asleep (try_returned ready) h = ground (arith, h)

pub broadcast-IsSynchronised :
    {s : System} (i : ℕ)
    → IsSynchronised s
    → s.holder ≡ some i
    → IsSynchronised (broadcast s i add_unlocking)
unfolding broadcast
broadcast-IsSynchronised {s} i v mine = record {
  holding = λ j. elim (Bool-cases (j == i)) [
    | inl e ↦ (let k : j ≡ i = ground (arith, e) in rw (e, k) (λ h. mine))
    | inr e ↦ rw e (λ h. v.holding j (sym (wake_holds (s.pc j)) ∙ h))
  ];
  passed = λ j. elim (Bool-cases (j == i)) [
    | inl e ↦ rw e (λ h. absurd (ground (arith, h)))
    | inr e ↦ rw e (λ h. v.passed j (woken_unlocking (s.pc j) h))
  ];
  awake = λ j. elim (Bool-cases (j == i)) [
    | inl e ↦ rw e (λ h. absurd (ground (arith, h)))
    | inr e ↦ rw e (λ h. absurd (not_asleep (s.pc j) h))
  ];
}
