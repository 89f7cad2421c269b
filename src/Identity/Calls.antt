-- ===== src/Identity/Calls.antt =====
-- The UUIDs of any sequence of calls, in the order in which they get the lock.
use mathlib.Core.Path.{subst}
use nexus_c.Base.{
  ◌≢◌, ℕ, suc, ◌+◌, ◌-◌, ◌^◌, ◌/◌, ◌<◌, ◌≤◌, ◌≡◌, ◌∙◌, ap, refl, sym, ◌⊎◌, inl, inr, true, false,
  List, [], ◌∷◌, length, arith,
}
use nexus_c.Errors.{capacity}
use nexus_c.Identity.{Result, ok, error, timestamp_max, real_time_get}
use nexus_c.Identity.Monotonic.{
  MonotonicState, monotonic_start, monotonic_advance, MonotonicCall, monotonic_bytes,
  monotonic_given, monotonic_locked, monotonic_filled, monotonic_calls,
}
use nexus_c.Identity.Clock.{
  IsLogicalClock, state_rank, Advanced, monotonic_advance-Advanced, real_time_get-cases,
}
use nexus_c.Identity.Order.{monotonic_value, monotonic_value_lt, value-monotonic_bytes}
use nexus_c.Uint128.Arith.{Uint128}
use nexus_c.Uint128.Bytes.{bytes_big_endian_read}
use nexus_c.Uint128.ByteOrder.{AllBytes}
use nexus_c.Uint128.Multiply.{value}

-- The results of calls, each larger than the number and than the results before it. A call has an error
-- only where its entropy has one, or where its clock is beyond the last millisecond of 48 bits, and the
-- time of a result is never before the clock's.
pub data Follows : ℕ → List MonotonicCall → List (Result Uint128) → Type 0 where
  end : {low : ℕ} → Follows low [] []
  refused :
      {low e : ℕ} {call : MonotonicCall} {calls : List MonotonicCall}
      {results : List (Result Uint128)}
      → call.entropy ≡ error e
      → Follows low calls results
      → Follows low (call ∷ calls) (error e ∷ results)
  late :
      {low : ℕ} {r : ℕ → ℕ} {call : MonotonicCall} {calls : List MonotonicCall}
      {results : List (Result Uint128)}
      → call.entropy ≡ ok r
      → timestamp_max < call.now.time / 1000000
      → Follows low calls results
      → Follows low (call ∷ calls) (error capacity ∷ results)
  made :
      {low : ℕ} {r : ℕ → ℕ} {u : Uint128} {call : MonotonicCall} {calls : List MonotonicCall}
      {results : List (Result Uint128)}
      → call.entropy ≡ ok r
      → low < value u
      → call.now.time / 1000000 ≤ value u / 2 ^ 80
      → Follows (value u) calls results
      → Follows low (call ∷ calls) (ok u ∷ results)

-- The bytes of the call are bytes, and its clock does not show the last millisecond of 48 bits.
pub record IsUsualCall (call : MonotonicCall) : Type 0 where
  pub buffer_held : AllBytes call.buffer
  pub entropy_given : (r : ℕ → ℕ) → call.entropy ≡ ok r → AllBytes r
  pub not_last : call.now.time / 1000000 ≢ timestamp_max

abbrev pub AllUsual : List MonotonicCall → Type 0
AllUsual [] = Unit
AllUsual (call ∷ calls) = IsUsualCall call × AllUsual calls

-- The number of the last UUID, and room for some more calls.
record IsLast (s : MonotonicState) (low n : ℕ) : Type 0 where
  clock : IsLogicalClock s
  room : state_rank s + n ≤ 2 ^ 72 - 1
  few : n ≤ 2 ^ 24
  last :
      ((s.initialized ≡ false) × (low ≡ 0))
      ⊎ ((r : ℕ → ℕ) × (s.initialized ≡ true)
          × AllBytes r
          × (low ≡ monotonic_value s.unix_milliseconds s.fraction s.counter r))

IsLast-later : {s : MonotonicState} {low n : ℕ} → IsLast s low (suc n) → IsLast s low n
IsLast-later h = record {
  clock = h.clock;
  room = omega (arith, h.room);
  few = omega (arith, h.few);
  last = h.last;
}

-- After the clock has advanced, its UUID is the last one.
Advanced-IsLast :
    {s s' : MonotonicState} {low n ms f : ℕ} (r : ℕ → ℕ)
    → IsLast s low (suc n)
    → ms < timestamp_max
    → AllBytes r
    → Advanced s ms f s'
    → IsLast s' (monotonic_value s'.unix_milliseconds s'.fraction s'.counter r) n
      × (low < monotonic_value s'.unix_milliseconds s'.fraction s'.counter r)
Advanced-IsLast {s} {s'} {low} {n} {ms} {f} r h before bytes a = (
  record {
    clock = a.clock;
    room = omega (arith, h.room, h.few, a.near);
    few = omega (arith, h.few);
    last = inr (r, a.started, bytes, refl);
  },
  elim h.last [
    | inl (fresh, e) ↦ omega (arith, e)
    | inr (q, i, q_bytes, e) ↦
        let c = h.clock in
        let c' = a.clock in
        rw e (
          monotonic_value_lt s.unix_milliseconds s.fraction s.counter s'.unix_milliseconds
            s'.fraction s'.counter q r q_bytes bytes c.fraction c.counter c'.fraction c'.counter
            (a.later i))
  ],
)

Result-cases {ℓ} : {A : Type ℓ} (r : Result A) → ((e : ℕ) × (r ≡ error e)) ⊎ ((a : A) × (r ≡ ok a))
Result-cases (error e) = inl (e, refl)
Result-cases (ok a) = inr (a, refl)

filled_refused :
    (s : MonotonicState) (call : MonotonicCall) (e : ℕ)
    → call.entropy ≡ error e
    → monotonic_filled s call ≡ (s, error e)
unfolding monotonic_filled monotonic_given
filled_refused s call e p =
    ap (λ x. monotonic_given s call.buffer x (real_time_get call.now true)) p

filled_late :
    (s : MonotonicState) (call : MonotonicCall) (r : ℕ → ℕ)
    → call.entropy ≡ ok r
    → real_time_get call.now true ≡ error capacity
    → monotonic_filled s call ≡ (s, error capacity)
unfolding monotonic_filled monotonic_given
filled_late s call r p q =
    ap (λ x. monotonic_given s call.buffer x (real_time_get call.now true)) p
    ∙ ap (monotonic_given s call.buffer (ok r)) q

filled_made :
    (s : MonotonicState) (call : MonotonicCall) (r : ℕ → ℕ) (ms f : ℕ)
    → call.entropy ≡ ok r
    → real_time_get call.now true ≡ ok (ms, f)
    → (monotonic_advance s ms f).1 ≡ true
    → let s' = (monotonic_advance s ms f).0 in
      monotonic_filled s call ≡ (
        s',
        ok (
            bytes_big_endian_read
              (monotonic_bytes call.buffer s'.unix_milliseconds s'.fraction s'.counter r)),
      )
unfolding monotonic_filled monotonic_given monotonic_locked
filled_made s call r ms f p q b =
    ap (λ x. monotonic_given s call.buffer x (real_time_get call.now true)) p
    ∙ ap (monotonic_given s call.buffer (ok r)) q
    ∙ rw b refl

-- What a call leaves and returns.
CallFollows : MonotonicState → ℕ → ℕ → MonotonicCall → List MonotonicCall → Type 0
CallFollows s low n call calls =
    ((low' : ℕ) × IsLast ((monotonic_filled s call).0) low' n
      × ((results : List (Result Uint128))
          → Follows low' calls results
          → Follows low (call ∷ calls) ((monotonic_filled s call).1 ∷ results)))

filled-CallFollows :
    {s : MonotonicState} {low n : ℕ} (call : MonotonicCall) (calls : List MonotonicCall)
    → IsLast s low (suc n)
    → IsUsualCall call
    → CallFollows s low n call calls
unfolding CallFollows
filled-CallFollows {s} {low} {n} call calls h usual = elim (Result-cases call.entropy) [
  | inl (e, p) ↦
      rw (filled_refused s call e p) (low, IsLast-later h, λ results k. Follows.refused p k)
  | inr (r, p) ↦ elim (real_time_get-cases call.now true) [
    | inl (beyond, q) ↦
        rw (filled_late s call r p q) (low, IsLast-later h, λ results k. Follows.late p beyond k)
    | inr (f, hf, within, q) ↦
        let ms : ℕ = call.now.time / 1000000 in
        let (b, a) =
          monotonic_advance-Advanced s ms f h.clock (omega (arith, h.room)) (omega arith) hf in
        let s' : MonotonicState = (monotonic_advance s ms f).0 in
        let bytes = usual.entropy_given r p in
        let before : ms < timestamp_max = omega (arith, usual.not_last) in
        let (next, larger) = Advanced-IsLast r h before bytes a in
        let v =
          value-monotonic_bytes call.buffer r s'.unix_milliseconds s'.fraction s'.counter
            usual.buffer_held bytes a.clock.milliseconds a.clock.fraction a.clock.counter in
        rw (filled_made s call r ms f p q b) (
          _,
          subst (λ low'. IsLast s' low' n) (sym v) next,
          λ results k. Follows.made p (omega (arith, v, larger)) (omega (arith, v, a.not_early)) k,
        )
  ]
]

-- Calls from a state whose last UUID is known.
calls-Follows :
    (calls : List MonotonicCall) (s : MonotonicState) (low : ℕ)
    → IsLast s low (length calls)
    → AllUsual calls
    → Follows low calls (monotonic_calls s calls)
unfolding monotonic_calls CallFollows
calls-Follows [] s low h usual = Follows.end
calls-Follows (call ∷ calls) s low h (u, usual) =
    let (low', next, rule) = filled-CallFollows call calls h u in
    rule _ (calls-Follows calls ((monotonic_filled s call).0) low' next usual)

-- However the clock moves, up to 2^24 calls from the start of the program, in the order in which they
-- get the lock, give larger and larger UUIDs, where no clock shows the last millisecond of 48 bits. A
-- call fails only with the error of its entropy, or where its clock is beyond that millisecond, and no
-- UUID has an earlier time than the clock of its call.
pub monotonic_calls-Follows :
    (calls : List MonotonicCall)
    → length calls ≤ 2 ^ 24
    → AllUsual calls
    → Follows 0 calls (monotonic_calls monotonic_start calls)
monotonic_calls-Follows calls few usual =
    let v : IsLogicalClock monotonic_start = record {
      milliseconds = omega arith;
      fraction = omega arith;
      counter = omega arith;
    } in
    calls-Follows calls monotonic_start 0
      (record { clock = v; room = omega (arith, few); few = few; last = inl (refl, refl) }) usual
