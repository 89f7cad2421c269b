-- ===== src/Errors/Calls.antt =====
-- What registering and unregistering a formatter do to the map from facilities to formatters.
use nexus_c.Base.{
  ℕ, ◌≡◌, ◌<◌, refl, inl, inr, true, false, none, some, leb, ◌==◌, ◌&&◌, Bool-cases, arith,
}
use nexus_c.Errors.{
  Registry, formatter_lookup, formatter_register, formatter_unregister, entry_add, entry_replace,
  facility_is_nexus, error_none, invalid_argument, capacity,
}
use nexus_c.Errors.Entries.{
  entry_replace-IsRegistry, lookup-entry_replace, entry_add-IsRegistry, lookup-entry_add,
}
use nexus_c.Errors.Facilities.{IsRegistry, at_facility, formatter_find-cases, lookup_missing}
use nexus_c.Errors.Removal.{entry_remove-IsRegistry, lookup-entry_remove}

module _ {ℓ} {F : Type ℓ} where
  -- The result of registering a formatter: the facility is reserved, or new in a full registry, or it is
  -- looked up as the formatter afterwards and all others as before.
  pub data Registered (r : Registry F) (b1 b2 : ℕ) (f : F) (result : Registry F × ℕ) : Type ℓ where
    reserved :
        facility_is_nexus b1 b2 ≡ true
        → result ≡ (r, invalid_argument)
        → Registered r b1 b2 f result
    full :
        facility_is_nexus b1 b2 ≡ false
        → formatter_lookup r b1 b2 ≡ none
        → r.formatter_count ≡ 32
        → result ≡ (r, capacity)
        → Registered r b1 b2 f result
    registered :
        facility_is_nexus b1 b2 ≡ false
        → (r' : Registry F) → result ≡ (r', error_none)
        → IsRegistry r'
        → ((c1 c2 : ℕ)
            → formatter_lookup r' c1 c2 ≡ at_facility (formatter_lookup r) b1 b2 (some f) c1 c2)
        → Registered r b1 b2 f result

  formatter_register-Registered :
      (r : Registry F) (b1 b2 : ℕ) (f : F)
      → IsRegistry r
      → Registered r b1 b2 f (formatter_register r b1 b2 (some f))
  unfolding formatter_register
  formatter_register-Registered r b1 b2 f v = elim (Bool-cases (facility_is_nexus b1 b2)) [
    | inl e ↦ Registered.reserved e (rw e refl)
    | inr e ↦ elim (formatter_find-cases r b1 b2) [
      | inr (i, l, p, m) ↦
          Registered.registered e (entry_replace r i f) (rw (e, p, formatter_register) refl)
            (entry_replace-IsRegistry r v b1 b2 i f l m) (lookup-entry_replace r v b1 b2 i f l m)
      | inl (p, missing) ↦ elim (Bool-cases (leb 32 r.formatter_count)) [
        | inl g ↦
            Registered.full e (lookup_missing r b1 b2 missing) (ground (arith, g, v.bounded))
              (rw (e, p, formatter_register, g) refl)
        | inr g ↦
            let room : r.formatter_count < 32 = ground (arith, g) in
            Registered.registered e (entry_add r b1 b2 f) (rw (e, p, formatter_register, g) refl)
              (entry_add-IsRegistry r v b1 b2 f room missing)
              (lookup-entry_add r v b1 b2 f room missing)
      ]
    ]
  ]

  formatter_unregister-IsRegistry :
      (r : Registry F) (b1 b2 : ℕ)
      → IsRegistry r
      → IsRegistry (formatter_unregister r b1 b2)
        × ((c1 c2 : ℕ)
            → formatter_lookup (formatter_unregister r b1 b2) c1 c2
              ≡ at_facility (formatter_lookup r) b1 b2 none c1 c2)
  unfolding formatter_unregister
  formatter_unregister-IsRegistry r b1 b2 v = elim (formatter_find-cases r b1 b2) [
    | inr (i, l, p, m) ↦
        rw (p, formatter_unregister)
          (entry_remove-IsRegistry r v b1 b2 i l m, lookup-entry_remove r v b1 b2 i l m)
    | inl (p, missing) ↦
        rw (p, formatter_unregister)
          (
            v,
            λ c1 c2. elim (Bool-cases (b1 == c1 && b2 == c2)) [
              | inl same ↦ rw same (
                  let e1 : c1 ≡ b1 = ground (arith, same) in
                  let e2 : c2 ≡ b2 = ground (arith, same) in
                  rw (e1, e2) (lookup_missing r b1 b2 missing))
              | inr other ↦ rw other refl
            ],
          )
  ]

  -- Registering a formatter in a registry of at most 32 entries, one for a facility, fails only for the
  -- reserved facility and for a new one where all 32 entries are used, and changes nothing then;
  -- otherwise the facility is looked up as the formatter and every other one as before. After
  -- unregistering a facility it has no formatter, and every other facility has the one that it had. The
  -- entries stay at most 32 with one for a facility.
  pub registry-IsMap :
      (r : Registry F) (b1 b2 : ℕ) (f : F)
      → IsRegistry r
      → Registered r b1 b2 f (formatter_register r b1 b2 (some f))
        × IsRegistry (formatter_unregister r b1 b2)
        × ((c1 c2 : ℕ)
            → formatter_lookup (formatter_unregister r b1 b2) c1 c2
              ≡ at_facility (formatter_lookup r) b1 b2 none c1 c2)
  registry-IsMap r b1 b2 f v =
      let (w, e) = formatter_unregister-IsRegistry r b1 b2 v in
      (formatter_register-Registered r b1 b2 f v, w, e)
