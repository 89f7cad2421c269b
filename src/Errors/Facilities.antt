-- ===== src/Errors/Facilities.antt =====
-- The registry of formatters as a map from facilities.
use nexus_c.Base.{
  ℕ, zero, suc, ◌+◌, ◌<◌, ◌≤◌, ◌≡◌, ◌∙◌, ap, refl, sym, ◌⊎◌, inl, inr, true, false, ◌&&◌, Option,
  none, some, if◌then◌else◌, ◌==◌, Bool-cases, arith,
}
use nexus_c.Errors.{Entry, Registry, same_facility, find_from, formatter_find, formatter_lookup}

module _ {ℓ} {F : Type ℓ} where
  find_from-cases :
      (n index : ℕ) (formatters : ℕ → Entry F) (b1 b2 : ℕ)
      → ((find_from n index formatters b1 b2 ≡ none)
          × ((i : ℕ) → index ≤ i → i < index + n → same_facility (formatters i) b1 b2 ≡ false))
        ⊎ ((i : ℕ) × (i < index + n)
            × (find_from n index formatters b1 b2 ≡ some i)
            × (same_facility (formatters i) b1 b2 ≡ true))
  unfolding find_from
  find_from-cases zero index formatters b1 b2 = inl (refl, λ i p q. absurd (omega arith))
  find_from-cases (suc n) index formatters b1 b2 =
      let rest = find_from-cases n (index + 1) formatters b1 b2 in
      elim (Bool-cases (same_facility (formatters index) b1 b2)) [
        | inl e ↦ inr (index, omega arith, rw e refl, e)
        | inr e ↦ elim rest [
          | inl (p, f) ↦ inl (
            rw e p,
            λ i q l. elim (Bool-cases (i == index)) [
              | inl same ↦ (let k : i ≡ index = ground (arith, same) in rw k e)
              | inr other ↦ f i (ground (arith, other)) (omega arith)
            ],
          )
          | inr (i, l, p, m) ↦ inr (i, omega arith, rw e p, m)
        ]
      ]

  -- At most 32 entries, one for a facility, each with a formatter.
  pub record IsRegistry (r : Registry F) : Type ℓ where
    pub bounded : r.formatter_count ≤ 32
    pub distinct :
        (i j b1 b2 : ℕ)
        → i < r.formatter_count
        → j < r.formatter_count
        → same_facility (r.formatters i) b1 b2 ≡ true
        → same_facility (r.formatters j) b1 b2 ≡ true
        → i ≡ j
    pub present : (i : ℕ) → i < r.formatter_count → (f : F) × ((r.formatters i).formatter ≡ some f)

  -- No entry is the facility's.
  abbrev pub IsMissing : Registry F → ℕ → ℕ → Type 0
  IsMissing r b1 b2 =
      ((i : ℕ) → i < r.formatter_count → same_facility (r.formatters i) b1 b2 ≡ false)

  pub formatter_find-cases :
      (r : Registry F) (b1 b2 : ℕ)
      → ((formatter_find r b1 b2 ≡ none) × IsMissing r b1 b2)
        ⊎ ((i : ℕ) × (i < r.formatter_count)
            × (formatter_find r b1 b2 ≡ some i)
            × (same_facility (r.formatters i) b1 b2 ≡ true))
  unfolding formatter_find
  formatter_find-cases r b1 b2 = elim (find_from-cases r.formatter_count 0 r.formatters b1 b2) [
    | inl (p, f) ↦ inl (p, λ i l. f i (omega arith) (omega arith))
    | inr (i, l, p, m) ↦ inr (i, omega arith, p, m)
  ]

  pub lookup_missing :
      (r : Registry F) (b1 b2 : ℕ) → IsMissing r b1 b2 → formatter_lookup r b1 b2 ≡ none
  unfolding formatter_lookup
  lookup_missing r b1 b2 h = elim (formatter_find-cases r b1 b2) [
    | inl (p, f) ↦ rw (p, formatter_lookup) refl
    | inr (i, l, p, m) ↦ absurd (ground (arith, h i l, m))
  ]

  pub lookup_found :
      (r : Registry F) (b1 b2 i : ℕ)
      → IsRegistry r
      → i < r.formatter_count
      → same_facility (r.formatters i) b1 b2 ≡ true
      → formatter_lookup r b1 b2 ≡ (r.formatters i).formatter
  unfolding formatter_lookup
  lookup_found r b1 b2 i v l m = elim (formatter_find-cases r b1 b2) [
    | inl (p, f) ↦ absurd (ground (arith, f i l, m))
    | inr (j, k, p, m') ↦
        let at : formatter_lookup r b1 b2 ≡ (r.formatters j).formatter =
          rw (p, formatter_lookup) refl in
        at ∙ ap (λ n. (r.formatters n).formatter) (v.distinct j i b1 b2 k l m' m)
  ]

  -- A facility is looked up, or is not registered.
  pub lookup-cases :
      (r : Registry F) (b1 b2 : ℕ)
      → IsRegistry r
      → ((formatter_lookup r b1 b2 ≡ none) × IsMissing r b1 b2)
        ⊎ ((i : ℕ) × (i < r.formatter_count)
            × (same_facility (r.formatters i) b1 b2 ≡ true)
            × (formatter_lookup r b1 b2 ≡ (r.formatters i).formatter))
  lookup-cases r b1 b2 v = elim (formatter_find-cases r b1 b2) [
    | inl (p, f) ↦ inl (lookup_missing r b1 b2 f, f)
    | inr (i, l, p, m) ↦ inr (i, l, m, lookup_found r b1 b2 i v l m)
  ]

  -- Two registries with the same entries for a facility look it up alike.
  pub lookup_agree :
      (r r' : Registry F) (c1 c2 : ℕ)
      → IsRegistry r
      → IsRegistry r'
      → ((j : ℕ)
          → j < r.formatter_count
          → same_facility (r.formatters j) c1 c2 ≡ true
          → (k : ℕ) × (k < r'.formatter_count)
            × (same_facility (r'.formatters k) c1 c2 ≡ true)
            × ((r'.formatters k).formatter ≡ (r.formatters j).formatter))
      → ((k : ℕ)
          → k < r'.formatter_count
          → same_facility (r'.formatters k) c1 c2 ≡ true
          → (j : ℕ) × (j < r.formatter_count) × (same_facility (r.formatters j) c1 c2 ≡ true))
      → formatter_lookup r' c1 c2 ≡ formatter_lookup r c1 c2
  lookup_agree r r' c1 c2 v v' forth back = elim (lookup-cases r c1 c2 v) [
    | inl (p, missing) ↦
        lookup_missing r' c1 c2 (λ k l. elim (Bool-cases (same_facility (r'.formatters k) c1 c2)) [
          | inl m ↦ (let (j, q, n) = back k l m in absurd (ground (arith, missing j q, n)))
          | inr e ↦ e
        ])
        ∙ sym p
    | inr (j, l, m, p) ↦
        let (k, q, n, e) = forth j l m in lookup_found r' c1 c2 k v' q n ∙ e ∙ sym p
  ]

  -- An entry that has one facility.
  pub named :
      (e : Entry F) (b1 b2 c1 c2 : ℕ)
      → same_facility e b1 b2 ≡ true
      → same_facility e c1 c2 ≡ (b1 == c1 && b2 == c2)
  unfolding same_facility
  named e b1 b2 c1 c2 h = ground arith

-- A map changed at one facility.
abbrev pub at_facility {ℓ} : {F : Type ℓ} → (ℕ → ℕ → Option F) → ℕ → ℕ → Option F → ℕ → ℕ → Option F
at_facility m b1 b2 o c1 c2 = if b1 == c1 && b2 == c2 then o else m c1 c2
