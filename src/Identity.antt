-- ===== src/Identity.antt =====
-- Identifiers (src/n_identity.c): what the ways to make a UUID share, lines 26 to 39 and 66 to 110.
-- The clock is a parameter: what it reads is an argument. Entropy is a parameter too: from the
-- number of bytes wanted and its state the provider gives the bytes, or its error, and its next state.
use nexus_c.Errors.{capacity}
use nexus_c.Base.{
  ℕ, ◌*◌, ◌/◌, ◌%◌, Bool, true, false, ◌&&◌, if◌then◌else◌, ltb, bit_and, bit_or, u8, u16, u64,
  ◌>>>◌, ◌<<<◌, update,
}
pub mod Text
pub mod Trim
pub mod RoundTrip
pub mod Monotonic
pub mod Generate
pub mod Order
pub mod Clock
pub mod Calls
pub mod Stamp
pub mod Versions
mod Tests

-- What is written through the out pointer, or the error.
pub data Result {ℓ} (A : Type ℓ) : Type ℓ where
  ok : A → Result A
  error : ℕ → Result A

abbrev pub Entropy {ℓ} : Type ℓ → Type ℓ
Entropy S = ℕ → S → Result (ℕ → ℕ) × S

pub data Precision : Type 0 where
  nanosecond : Precision
  microsecond : Precision
  millisecond : Precision
  second : Precision

unfoldable pub precision_index : Precision → ℕ
precision_index nanosecond = 0
precision_index microsecond = 1
precision_index millisecond = 2
precision_index second = 3

-- A reading of the real clock.
pub record Time : Type 0 where
  pub time : ℕ
  pub precision : Precision

abbrev pub timestamp_max : ℕ
timestamp_max = 281474976710655

unfoldable pub timestamp_write : (ℕ → ℕ) → ℕ → ℕ → ℕ
timestamp_write uuid unix_milliseconds =
    update
      (update
        (update
          (update
            (update (update uuid 0 (u8 (unix_milliseconds >>> 40))) 1
              (u8 (unix_milliseconds >>> 32)))
            2 (u8 (unix_milliseconds >>> 24)))
          3 (u8 (unix_milliseconds >>> 16)))
        4 (u8 (unix_milliseconds >>> 8)))
      5 (u8 unix_milliseconds)

-- The milliseconds, and the fraction if it is wanted and 0 otherwise.
unfoldable pub real_time_get : Time → Bool → Result (ℕ × ℕ)
real_time_get now wants_fraction =
    let milliseconds = now.time / 1000000 in
    let sub_millisecond_nanoseconds = now.time % 1000000 in
    if ltb timestamp_max milliseconds
    then error capacity
    else ok (
      milliseconds,
      (if wants_fraction && ltb (precision_index now.precision) 2
          then u16 (u64 (sub_millisecond_nanoseconds * 4096) / 1000000)
          else 0),
    )
