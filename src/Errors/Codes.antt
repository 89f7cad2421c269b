-- ===== src/Errors/Codes.antt =====
-- Error codes taken apart, and the message of an error of a registered facility.
use Prim.Native.Char.{Char}
use Prim.Native.String.{String}
use nexus_c.Base.{
  ℕ, ◌+◌, ◌*◌, ◌^◌, ◌<◌, ◌≡◌, ◌≢◌, ◌∙◌, ap, refl, true, false, Option, none, some, ◌==◌, ◌&&◌,
  bit_or, u16, u32, ◌<<<◌, ◌>>>◌, arith,
}
use nexus_c.Base.Bits.{bit_and_low, bit_or_disjoint}
use nexus_c.Errors.{
  Registry, Printed, error_none, error_make, error_code, facility_byte_1_of, facility_byte_2_of,
  facility_is_nexus, is_nexus, formatter_lookup, formatter_register, formatter_unregister,
  registered_message, message_write, used_prefix,
}
use nexus_c.Errors.Calls.{Registered, registry-IsMap}
use nexus_c.Errors.Facilities.{IsRegistry, at_facility}

-- A code by its parts.
error_make-parts :
    (c1 c2 code : ℕ)
    → c1 < 256
    → c2 < 256
    → code < 2 ^ 16
    → error_make c1 c2 code ≡ (c1 * 256 + c2) * 2 ^ 16 + code
unfolding error_make
error_make-parts c1 c2 code h1 h2 h =
    let e1 : u32 (c1 <<< 24) ≡ c1 * 2 ^ 24 = omega arith in
    let e2 : u32 (c2 <<< 16) ≡ c2 * 2 ^ 16 = omega arith in
    let e3 : u16 code ≡ code = omega arith in
    let join : bit_or (c1 * 2 ^ 24) (c2 * 2 ^ 16) ≡ c1 * 2 ^ 24 + c2 * 2 ^ 16 =
      bit_or_disjoint 24 c1 (c2 * 2 ^ 16) (omega arith) in
    let whole : c1 * 2 ^ 24 + c2 * 2 ^ 16 ≡ (c1 * 256 + c2) * 2 ^ 16 = omega arith in
    rw (e1, e2, e3)
      (ap (λ x. bit_or x code) (join ∙ whole) ∙ bit_or_disjoint 16 (c1 * 256 + c2) code h)

facility_byte_1_of-error_make :
    (c1 c2 code : ℕ)
    → c1 < 256
    → c2 < 256
    → code < 2 ^ 16
    → facility_byte_1_of (error_make c1 c2 code) ≡ c1
unfolding facility_byte_1_of
facility_byte_1_of-error_make c1 c2 code h1 h2 h =
    bit_and_low 8 (error_make c1 c2 code >>> 24)
    ∙ omega (arith, error_make-parts c1 c2 code h1 h2 h)

facility_byte_2_of-error_make :
    (c1 c2 code : ℕ)
    → c1 < 256
    → c2 < 256
    → code < 2 ^ 16
    → facility_byte_2_of (error_make c1 c2 code) ≡ c2
unfolding facility_byte_2_of
facility_byte_2_of-error_make c1 c2 code h1 h2 h =
    bit_and_low 8 (error_make c1 c2 code >>> 16)
    ∙ omega (arith, error_make-parts c1 c2 code h1 h2 h)

error_code-error_make :
    (c1 c2 code : ℕ)
    → c1 < 256
    → c2 < 256
    → code < 2 ^ 16
    → error_code (error_make c1 c2 code) ≡ code
unfolding error_code
error_code-error_make c1 c2 code h1 h2 h =
    ap u16 (bit_and_low 16 (error_make c1 c2 code))
    ∙ omega (arith, error_make-parts c1 c2 code h1 h2 h)

-- What is printed for an error of another facility.
message_write-facility {ℓ} :
    {F : Type ℓ} (call : F → ℕ → Option String) (r : Registry F) (b1 b2 code : ℕ)
    (prefix : Option String)
    → b1 < 256
    → b2 < 256
    → code < 2 ^ 16
    → facility_is_nexus b1 b2 ≡ false
    → error_make b1 b2 code ≢ error_none
    → message_write call r (error_make b1 b2 code) prefix
      ≡ some (
          registered_message call
            (formatter_lookup r b1 b2)
            (error_make b1 b2 code)
            (used_prefix prefix))
unfolding message_write is_nexus facility_is_nexus
message_write-facility call r b1 b2 code prefix h1 h2 h other failed =
    let e0 : (error_make b1 b2 code == error_none) ≡ false = ground (arith, failed) in
    let e1 = facility_byte_1_of-error_make b1 b2 code h1 h2 h in
    let e2 = facility_byte_2_of-error_make b1 b2 code h1 h2 h in rw (e0, e1, e2, other) refl

at_facility_same {ℓ} :
    {F : Type ℓ} (m : ℕ → ℕ → Option F) (b1 b2 : ℕ) (o : Option F) → at_facility m b1 b2 o b1 b2 ≡ o
at_facility_same m b1 b2 o = let e : (b1 == b1 && b2 == b2) ≡ true = ground arith in rw e refl

-- Where registering succeeds, the facility is not reserved and has the formatter.
success {ℓ} :
    {F : Type ℓ} {r : Registry F} (b1 b2 : ℕ) {f : F} (result : Registry F × ℕ)
    → Registered r b1 b2 f result
    → result.1 ≡ error_none
    → (facility_is_nexus b1 b2 ≡ false) × (formatter_lookup (result.0) b1 b2 ≡ some f)
unfolding error_make
success b1 b2 result (Registered.reserved e p) good = absurd (ground (arith, ap (λ x. x.1) p, good))
success b1 b2 result (Registered.full e m n p) good = absurd (ground (arith, ap (λ x. x.1) p, good))
success {r} b1 b2 {f} result (Registered.registered e r' p v h) good = (
  e,
  ap (λ x. formatter_lookup (x.0) b1 b2) p
      ∙ h b1 b2
      ∙ at_facility_same (formatter_lookup r) b1 b2 (some f),
)

resolved_message {ℓ} :
    {F : Type ℓ} (call : F → ℕ → Option String) (f : F) (b1 b2 code : ℕ) (message : String)
    (prefix : Option String)
    → b1 < 256
    → b2 < 256
    → code < 2 ^ 16
    → call f code ≡ some message
    → registered_message call (some f) (error_make b1 b2 code) prefix
      ≡ Printed.resolved prefix message (error_make b1 b2 code)
unfolding registered_message
resolved_message call f b1 b2 code message prefix h1 h2 h known =
    let e = ap (call f) (error_code-error_make b1 b2 code h1 h2 h) ∙ known in
    rw (e, registered_message) refl

-- The prefix that is printed for a given one: an empty one counts as none.
pub data IsUsed (prefix used : Option String) : Type 0 where
  missing : prefix ≡ none → used ≡ none → IsUsed prefix used
  empty : prefix ≡ some String.[] → used ≡ none → IsUsed prefix used
  kept :
      (c : Char) (s : String) → prefix ≡ some (String.◌∷◌ c s) → used ≡ prefix → IsUsed prefix used

used_prefix-IsUsed : (prefix : Option String) → IsUsed prefix (used_prefix prefix)
unfolding used_prefix
used_prefix-IsUsed none = missing refl refl
used_prefix-IsUsed (some String.[]) = empty refl refl
used_prefix-IsUsed (some (String.◌∷◌ c s)) = kept c s refl refl

-- An error of a facility of two ASCII characters whose formatter was just registered and has a message
-- for its code is printed with this message. Once the facility is unregistered, it is printed with the
-- code only. Both keep the prefix unless it is empty.
pub message_write-registered {ℓ} :
    {F : Type ℓ} (call : F → ℕ → Option String) (r : Registry F) (b1 b2 code : ℕ) (f : F)
    (message : String) (prefix : Option String)
    → IsRegistry r
    → b1 < 128
    → b2 < 128
    → code < 2 ^ 16
    → error_make b1 b2 code ≢ error_none
    → (formatter_register r b1 b2 (some f)).1 ≡ error_none
    → call f code ≡ some message
    → (used : Option String) × IsUsed prefix used
      × (message_write call ((formatter_register r b1 b2 (some f)).0) (error_make b1 b2 code) prefix
          ≡ some (Printed.resolved used message (error_make b1 b2 code)))
      × (message_write call (formatter_unregister r b1 b2) (error_make b1 b2 code) prefix
          ≡ some (Printed.generic used (error_make b1 b2 code)))
message_write-registered call r b1 b2 code f message prefix v s1 s2 h failed good known =
    let h1 : b1 < 256 = omega (arith, s1) in
    let h2 : b2 < 256 = omega (arith, s2) in
    let (result, w, gone) = registry-IsMap r b1 b2 f v in
    let (other, set) = success b1 b2 (formatter_register r b1 b2 (some f)) result good in
    (
      used_prefix prefix,
      used_prefix-IsUsed prefix,
      message_write-facility call ((formatter_register r b1 b2 (some f)).0) b1 b2 code prefix h1 h2
            h other failed
          ∙ ap (λ o. some (registered_message call o (error_make b1 b2 code) (used_prefix prefix)))
              set
          ∙ ap some (resolved_message call f b1 b2 code message (used_prefix prefix) h1 h2 h known),
      message_write-facility call (formatter_unregister r b1 b2) b1 b2 code prefix h1 h2 h other
            failed
          ∙ ap (λ o. some (registered_message call o (error_make b1 b2 code) (used_prefix prefix)))
              (gone b1 b2 ∙ at_facility_same (formatter_lookup r) b1 b2 none)
          ∙ unfold registered_message in refl,
    )
