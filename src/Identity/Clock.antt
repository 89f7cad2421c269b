-- ===== src/Identity/Clock.antt =====
-- The logical clock of the monotonic UUIDs.
use nexus_c.Base.{
  ℕ, ◌+◌, ◌-◌, ◌^◌, ◌/◌, ◌<◌, ◌≤◌, ◌≡◌, refl, ◌⊎◌, inl, inr, Bool, true, ◌&&◌, ltb, Bool-cases, max,
  arith,
}
use nexus_c.Errors.{capacity}
use nexus_c.Identity.{ok, error, Time, timestamp_max, real_time_get, precision_index}
use nexus_c.Identity.Monotonic.{MonotonicState, monotonic_increment, monotonic_advance}
use nexus_c.Identity.Order.{rank}

-- The fields fit in their places.
pub record IsLogicalClock (s : MonotonicState) : Type 0 where
  pub milliseconds : s.unix_milliseconds < 2 ^ 48
  pub fraction : s.fraction < 4096
  pub counter : s.counter < 4096

abbrev pub state_rank : MonotonicState → ℕ
state_rank s = rank s.unix_milliseconds s.fraction s.counter

-- What advancing the clock does.
pub record Advanced (s : MonotonicState) (ms f : ℕ) (s' : MonotonicState) : Type 0 where
  pub clock : IsLogicalClock s'
  pub started : s'.initialized ≡ true
  pub later : s.initialized ≡ true → state_rank s < state_rank s'
  pub near : state_rank s' ≤ max (state_rank s + 1) (rank ms 4095 4095)
  pub not_early : ms ≤ s'.unix_milliseconds

pub monotonic_advance-Advanced :
    (s : MonotonicState) (ms f : ℕ)
    → IsLogicalClock s
    → state_rank s < 2 ^ 72 - 1
    → ms < 2 ^ 48
    → f < 4096
    → ((monotonic_advance s ms f).1 ≡ true) × Advanced s ms f (monotonic_advance s ms f).0
unfolding monotonic_advance monotonic_increment
monotonic_advance-Advanced s ms f v room hms hf = (
  ground arith,
  record {
    clock = record { milliseconds = ground arith; fraction = ground arith; counter = ground arith };
    started = ground arith;
    later = λ e. ground arith;
    near = ground arith;
    not_early = ground arith;
  },
)

-- What the clock reads: too late, or a millisecond and a fraction.
pub real_time_get-cases :
    (now : Time) (wants_fraction : Bool)
    → ((timestamp_max < now.time / 1000000) × (real_time_get now wants_fraction ≡ error capacity))
      ⊎ ((f : ℕ) × (f < 4096)
          × (now.time / 1000000 ≤ timestamp_max)
          × (real_time_get now wants_fraction ≡ ok (now.time / 1000000, f)))
unfolding real_time_get
real_time_get-cases now w = elim (Bool-cases (ltb timestamp_max (now.time / 1000000))) [
  | inl late ↦ rw late (inl (ground (arith, late), refl))
  | inr e ↦ elim (Bool-cases (w && ltb (precision_index now.precision) 2)) [
    | inl fine ↦ rw (e, fine) (inr (_, omega arith, ground (arith, e), refl))
    | inr coarse ↦ rw (e, coarse) (inr (0, omega arith, ground (arith, e), refl))
  ]
]
