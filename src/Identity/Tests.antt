-- ===== src/Identity/Tests.antt =====
-- Runs on concrete inputs.
use mathlib.Core.Path.{subst}
use nexus_c.Uint128.ByteOrder.{AllBytes, big_endian}
use nexus_c.Base.{
  ℕ, suc, ◌≡◌, ◌≢◌, refl, some, List, [], ◌∷◌, ◌++◌, ◌/◌, ◌^◌, ◌+◌, ◌*◌, ◌%◌, true, false, get_or,
  arith,
}
use nexus_c.Hash.Sha1.{sha1}
use nexus_c.Identity.{ok, Entropy, Time, nanosecond, timestamp_max}
use nexus_c.Identity.Calls.{Follows, IsUsualCall, AllUsual, monotonic_calls-Follows}
use nexus_c.Identity.Generate.{
  v4_generate_with_entropy, v5_generate, v7_generate_random_with_entropy, buffer_bytes,
}
use nexus_c.Identity.Monotonic.{
  MonotonicCall, MonotonicState, monotonic_start, monotonic_calls, monotonic_increment,
}
use nexus_c.Identity.RoundTrip.{string_parse-string_write}
use nexus_c.Identity.Stamp.{IsStamped}
use nexus_c.Identity.Text.{string_parse, string_write, ascii_whitespace_get}
use nexus_c.Identity.Versions.{generate_random-IsStamped, v5_generate-IsStamped}
use nexus_c.Uint128.Multiply.{Fits}
use nexus_c.Uint128.Arith.{Uint128, make}
use nexus_c.Uint128.Bytes.{bytes_big_endian_read, bytes_big_endian_write}

abbrev some_bytes : ℕ → ℕ
some_bytes i = 200

abbrev no_bytes : ℕ → ℕ
no_bytes i = 0

abbrev call_at : ℕ → MonotonicCall
call_at time = record {
  entropy = ok some_bytes;
  now = record { time = time; precision = nanosecond };
  buffer = no_bytes;
}

-- The clock goes back for the second call.
abbrev two_calls : List MonotonicCall
two_calls = call_at 5000000 ∷ call_at 1000000 ∷ []

call_at-IsUsualCall : (time : ℕ) → time / 1000000 ≢ timestamp_max → IsUsualCall (call_at time)
call_at-IsUsualCall time h = record {
  buffer_held = λ i. omega arith;
  entropy_given = λ r e i. let q : some_bytes ≡ r = cc in subst AllBytes q (λ j. omega arith) i;
  not_last = h;
}

two_calls-AllUsual : AllUsual two_calls
two_calls-AllUsual =
    (call_at-IsUsualCall 5000000 (omega arith), (call_at-IsUsualCall 1000000 (omega arith), tt))

monotonic_calls-Follows_example : Follows 0 two_calls (monotonic_calls monotonic_start two_calls)
monotonic_calls-Follows_example = monotonic_calls-Follows two_calls (omega arith) two_calls-AllUsual

-- At the end of its range the clock is moved back to the start of the last millisecond, and the next call
-- goes on from there.
abbrev last_state : MonotonicState
last_state = record {
  unix_milliseconds = 281474976710655;
  fraction = 4095;
  counter = 4095;
  initialized = true;
}

exhausted : monotonic_increment last_state ≡ (
  record { unix_milliseconds = 281474976710655; fraction = 0; counter = 0; initialized = true },
  false,
)
unfolding monotonic_increment
exhausted = refl

abbrev some_uuid : Uint128
some_uuid = record { lo = 1311768467463790320; hi = 81985529216486895 }

some_uuid-Fits : Fits some_uuid
some_uuid-Fits = record { lo = omega arith; hi = omega arith }

string_parse-string_write_example :
    string_parse (some ((32 ∷ []) ++ (string_write some_uuid no_bytes ++ 10 ∷ [])))
    ≡ some (make some_uuid.hi some_uuid.lo)
unfolding ascii_whitespace_get
string_parse-string_write_example =
    string_parse-string_write some_uuid no_bytes (32 ∷ []) (10 ∷ []) some_uuid-Fits
      (λ i. omega arith) (refl, tt) (refl, tt)

-- A provider that counts its calls.
abbrev counted : Entropy ℕ
counted n user = (ok some_bytes, suc user)

abbrev some_time : Time
some_time = record { time = 1700000000000000000; precision = nanosecond }

generate_random-IsStamped_example :
    ((u : Uint128) × (v4_generate_with_entropy (some counted) 3 ≡ (ok u, 4))
      × IsStamped 4 (bytes_big_endian_read some_bytes) u)
    × ((u : Uint128) × (v7_generate_random_with_entropy no_bytes (some counted) 4 some_time
          ≡ (ok u, 5))
        × (u.hi
            ≡ some_time.time / 1000000 * 2 ^ 16 + (7 * 16 + some_bytes 0 % 16) * 256 + some_bytes 1)
        × (u.lo ≡ (128 + some_bytes 2 % 64) * 2 ^ 56 + big_endian 7 (λ i. some_bytes (i + 3))))
generate_random-IsStamped_example =
    generate_random-IsStamped counted 3 4 5 some_bytes no_bytes some_bytes some_time refl refl
      (λ i. omega arith) (λ i. omega arith) (λ i. omega arith) (omega arith)

v5_generate-IsStamped_example :
    (u : Uint128) × (v5_generate no_bytes no_bytes some_uuid (some (97 ∷ 98 ∷ [])) ≡ ok u)
    × IsStamped 5
        (bytes_big_endian_read (λ i.
          get_or
            (sha1 no_bytes
              (buffer_bytes 16 0 (bytes_big_endian_write some_uuid no_bytes) ++ 97 ∷ 98 ∷ []))
            i
            0))
        u
v5_generate-IsStamped_example = v5_generate-IsStamped no_bytes no_bytes some_uuid (97 ∷ 98 ∷ [])
