-- ===== src/Threads/Moves.antt =====
-- The runs of any number of threads on a wait group.
use nexus_c.Base.{ℕ, Bool, ◌≡◌, none, some}
use nexus_c.Threads.{
  System, Pc, idle, add_locking, wait_locking, wait_asleep, wait_woken, try_locking, Delta,
  add_start, move, thread_step, wait_returned, try_returned,
}

-- A thread starts a call, or is ready for the next one after a wait or a test.
pub data Start : Pc → Pc → Type 0 where
  calls_add : {p q : Pc} (delta : Delta) → p ≡ idle → add_start delta ≡ some q → Start p q
  calls_wait : {p q : Pc} → p ≡ idle → q ≡ wait_locking → Start p q
  calls_try : {p q : Pc} → p ≡ idle → q ≡ try_locking → Start p q
  again_wait : {p q : Pc} → p ≡ wait_returned → q ≡ idle → Start p q
  again_try : {p q : Pc} (ready : Bool) → p ≡ try_returned ready → q ≡ idle → Start p q

-- Locking the mutex fails, and the call returns an error.
pub data Refused : Pc → Type 0 where
  at_add : {p : Pc} (delta : Delta) → p ≡ add_locking delta → Refused p
  at_wait : {p : Pc} → p ≡ wait_locking → Refused p
  at_try : {p : Pc} → p ≡ try_locking → Refused p

pub data Step (s : System) : System → Type 0 where
  call : (i : ℕ) (p : Pc) → Start (s.pc i) p → Step s (move s i p)
  refused : (i : ℕ) → Refused (s.pc i) → Step s (move s i idle)
  spurious : (i : ℕ) → s.pc i ≡ wait_asleep → Step s (move s i wait_woken)
  own : (i : ℕ) {s' : System} → thread_step s i (s.pc i) ≡ some s' → Step s s'

abbrev pub start : System
start = record { counter = 0; holder = none; pc = λ i. idle }

pub data Reaches : System → Type 0 where
  begin : Reaches start
  next : {s s' : System} → Reaches s → Step s s' → Reaches s'
