-- ===== src/Identity/Monotonic.antt =====
-- The monotonic UUIDs of version 7 (src/n_identity.c, lines 366 to 573). A call holds the lock while it
-- uses the shared state, so the calls are a sequence, in the order in which they get the lock.
use nexus_c.Base.{
  ℕ, ◌+◌, Bool, true, false, not, ◌&&◌, Option, none, some, List, [], ◌∷◌, if◌then◌else◌, ltb, leb,
  ◌==◌, bit_and, bit_or, u8, ◌<<<◌, ◌>>>◌, update,
}
use nexus_c.Errors.{invalid_argument, capacity}
use nexus_c.Identity.{
  Result, ok, error, Entropy, Time, timestamp_max, timestamp_write, real_time_get,
}
use nexus_c.Uint128.Arith.{Uint128}
use nexus_c.Uint128.Bytes.{bytes_big_endian_read}

pub record MonotonicState : Type 0 where
  pub unix_milliseconds : ℕ
  pub fraction : ℕ
  pub counter : ℕ
  pub initialized : Bool

abbrev pub monotonic_start : MonotonicState
monotonic_start = record { unix_milliseconds = 0; fraction = 0; counter = 0; initialized = false }

-- The state, and whether it could be advanced.
unfoldable pub monotonic_increment : MonotonicState → MonotonicState × Bool
monotonic_increment s =
    if ltb s.counter 0x0FFF
    then (record s { counter = s.counter + 1 }, true)
    else if ltb s.fraction 0x0FFF
    then (record s { counter = 0; fraction = s.fraction + 1 }, true)
    else if leb timestamp_max s.unix_milliseconds
    then (record s { counter = 0; fraction = 0 }, false)
    else (record s { counter = 0; fraction = 0; unix_milliseconds = s.unix_milliseconds + 1 }, true)

-- What is done under the lock, for what the clock reads.
unfoldable pub monotonic_advance : MonotonicState → ℕ → ℕ → MonotonicState × Bool
monotonic_advance s actual_milliseconds actual_fraction =
    if not s.initialized
    then (
      record {
        unix_milliseconds = actual_milliseconds;
        fraction = actual_fraction;
        counter = 0;
        initialized = true;
      },
      true,
    )
    else if ltb s.unix_milliseconds actual_milliseconds
    then (
      record s { unix_milliseconds = actual_milliseconds; fraction = actual_fraction; counter = 0 },
      true,
    )
    else if actual_milliseconds == s.unix_milliseconds && ltb s.fraction actual_fraction
    then (record s { fraction = actual_fraction; counter = 0 }, true)
    else monotonic_increment s

-- The bytes, over what their buffer holds.
unfoldable pub monotonic_bytes : (ℕ → ℕ) → ℕ → ℕ → ℕ → (ℕ → ℕ) → ℕ → ℕ
monotonic_bytes buffer output_milliseconds output_fraction output_counter random_bytes =
    let uuid = timestamp_write buffer output_milliseconds in
    let uuid = update uuid 6 (u8 (bit_or 0x70 (bit_and (output_fraction >>> 8) 0x0F))) in
    let uuid = update uuid 7 (u8 (bit_and output_fraction 0xFF)) in
    let uuid = update uuid 8 (u8 (bit_or 0x80 (bit_and (output_counter >>> 6) 0x3F))) in
    let uuid =
      update uuid 9
        (u8 (bit_or (bit_and output_counter 0x3F <<< 2) (bit_and (random_bytes 0) 0x03))) in
    let uuid = update uuid 10 (random_bytes 1) in
    let uuid = update uuid 11 (random_bytes 2) in
    let uuid = update uuid 12 (random_bytes 3) in
    let uuid = update uuid 13 (random_bytes 4) in
    let uuid = update uuid 14 (random_bytes 5) in update uuid 15 (random_bytes 6)

-- A call's entropy, or its error, its reading of the clock, and what its buffer holds.
pub record MonotonicCall : Type 0 where
  pub entropy : Result (ℕ → ℕ)
  pub now : Time
  pub buffer : ℕ → ℕ

-- With a clock that was read.
unfoldable pub monotonic_locked :
    MonotonicState → (ℕ → ℕ) → (ℕ → ℕ) → ℕ × ℕ → MonotonicState × Result Uint128
monotonic_locked s buffer random_bytes (actual_milliseconds, actual_fraction) =
    let (next, increment_succeeded) = monotonic_advance s actual_milliseconds actual_fraction in
    (
      next,
      (if not increment_succeeded
          then error capacity
          else ok (
              bytes_big_endian_read (
                monotonic_bytes buffer next.unix_milliseconds next.fraction next.counter
                  random_bytes))),
    )

-- What the entropy gives and what the clock reads; after an error the state is as it was.
unfoldable pub monotonic_given :
    MonotonicState → (ℕ → ℕ) → Result (ℕ → ℕ) → Result (ℕ × ℕ) → MonotonicState × Result Uint128
monotonic_given s buffer (error code) reading = (s, error code)
monotonic_given s buffer (ok random_bytes) (error code) = (s, error code)
monotonic_given s buffer (ok random_bytes) (ok reading) =
    monotonic_locked s buffer random_bytes reading

unfoldable pub monotonic_filled : MonotonicState → MonotonicCall → MonotonicState × Result Uint128
monotonic_filled s call = monotonic_given s call.buffer call.entropy (real_time_get call.now true)

-- One call, with the provider that it is given; NULL for none.
unfoldable pub v7_generate_monotonic_with_entropy {ℓ} :
    {S : Type ℓ}
    → MonotonicState
    → Option (Entropy S)
    → S
    → Time
    → (ℕ → ℕ)
    → MonotonicState × Result Uint128 × S
v7_generate_monotonic_with_entropy s none user now buffer = (s, error invalid_argument, user)
v7_generate_monotonic_with_entropy s (some entropy_fill) user now buffer =
    let (filled, user') = entropy_fill 7 user in
    let (s', result) =
      monotonic_filled s (record { entropy = filled; now = now; buffer = buffer }) in
    (s', result, user')

-- With the system's entropy.
unfoldable pub v7_generate_monotonic {ℓ} :
    {S : Type ℓ}
    → MonotonicState
    → Entropy S
    → S
    → Time
    → (ℕ → ℕ)
    → MonotonicState × Result Uint128 × S
v7_generate_monotonic s system_fill user now buffer =
    v7_generate_monotonic_with_entropy s (some system_fill) user now buffer

-- The calls in the order of the lock, each with its own entropy, and the results.
unfoldable pub monotonic_calls : MonotonicState → List MonotonicCall → List (Result Uint128)
monotonic_calls s [] = []
monotonic_calls s (call ∷ calls) =
    let (s', result) = monotonic_filled s call in result ∷ monotonic_calls s' calls
