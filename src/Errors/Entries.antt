-- ===== src/Errors/Entries.antt =====
-- What replacing and adding an entry of the registry do to the map.
use nexus_c.Base.{
  ℕ, ◌+◌, ◌<◌, ◌≡◌, ◌∙◌, ap, refl, sym, ◌⊎◌, inl, inr, true, false, ◌&&◌, some, ◌==◌, Bool-cases,
  arith,
}
use nexus_c.Errors.{Entry, Registry, same_facility, formatter_lookup, entry_replace, entry_add}
use nexus_c.Errors.Facilities.{
  IsRegistry, IsMissing, lookup_found, lookup_agree, at_facility, named,
}

module _ {ℓ} {F : Type ℓ} where
  module _ (r : Registry F) (v : IsRegistry r) (b1 b2 i : ℕ) (f : F) (l : i < r.formatter_count)
      (m : same_facility (r.formatters i) b1 b2 ≡ true) where
    replaced_names :
        (j c1 c2 : ℕ)
        → same_facility ((entry_replace r i f).formatters j) c1 c2
          ≡ same_facility (r.formatters j) c1 c2
    unfolding entry_replace same_facility
    replaced_names j c1 c2 = elim (Bool-cases (j == i)) [
      | inl e ↦ (let k : j ≡ i = ground (arith, e) in rw (e, k) refl)
      | inr e ↦ rw e refl
    ]

    pub entry_replace-IsRegistry : IsRegistry (entry_replace r i f)
    unfolding entry_replace
    entry_replace-IsRegistry = record {
      bounded = v.bounded;
      distinct = λ j k c1 c2 p q s t.
          v.distinct j k c1 c2 p q (sym (replaced_names j c1 c2) ∙ s)
            (sym (replaced_names k c1 c2) ∙ t);
      present = λ j p. elim (Bool-cases (j == i)) [
        | inl e ↦ (f, rw e refl)
        | inr e ↦ rw e (v.present j p)
      ];
    }

    formatter_there : ((entry_replace r i f).formatters i).formatter ≡ some f
    unfolding entry_replace
    formatter_there = let e : (i == i) ≡ true = ground arith in rw e refl

    pub lookup-entry_replace :
        (c1 c2 : ℕ)
        → formatter_lookup (entry_replace r i f) c1 c2
          ≡ at_facility (formatter_lookup r) b1 b2 (some f) c1 c2
    unfolding entry_replace
    lookup-entry_replace c1 c2 = elim (Bool-cases (b1 == c1 && b2 == c2)) [
      | inl same ↦ rw same (
          lookup_found (entry_replace r i f) c1 c2 i entry_replace-IsRegistry l
            (replaced_names i c1 c2 ∙ named (r.formatters i) b1 b2 c1 c2 m ∙ same)
          ∙ formatter_there)
      | inr other ↦ rw other (
          lookup_agree r (entry_replace r i f) c1 c2 v entry_replace-IsRegistry
            (λ j q n. elim (Bool-cases (j == i)) [
              | inl e ↦ absurd (ground (arith, e, n, other, named (r.formatters i) b1 b2 c1 c2 m))
              | inr e ↦ (j, q, replaced_names j c1 c2 ∙ n, rw e refl)
            ])
            (λ k q n. (k, q, sym (replaced_names k c1 c2) ∙ n)))
    ]

  module _ (r : Registry F) (v : IsRegistry r) (b1 b2 : ℕ) (f : F) (room : r.formatter_count < 32)
      (missing : IsMissing r b1 b2) where
    -- An entry of the larger registry is the new one, or an old one.
    added-cases :
        (j : ℕ)
        → j < r.formatter_count + 1
        → ((j ≡ r.formatter_count)
            × ((entry_add r b1 b2 f).formatters j
                ≡ record { facility_byte_1 = b1; facility_byte_2 = b2; formatter = some f }))
          ⊎ ((j < r.formatter_count) × ((entry_add r b1 b2 f).formatters j ≡ r.formatters j))
    unfolding entry_add
    added-cases j l = elim (Bool-cases (j == r.formatter_count)) [
      | inl e ↦ inl (ground (arith, e), rw e refl)
      | inr e ↦ inr (ground (arith, e), rw e refl)
    ]

    added_names :
        (j c1 c2 : ℕ)
        → j < r.formatter_count + 1
        → same_facility ((entry_add r b1 b2 f).formatters j) c1 c2 ≡ true
        → ((j ≡ r.formatter_count) × ((b1 == c1 && b2 == c2) ≡ true))
          ⊎ ((j < r.formatter_count) × (same_facility (r.formatters j) c1 c2 ≡ true))
    unfolding same_facility
    added_names j c1 c2 l m = elim (added-cases j l) [
      | inl (e, p) ↦ inl (e, ap (λ x. same_facility x c1 c2) (sym p) ∙ m)
      | inr (q, p) ↦ inr (q, ap (λ x. same_facility x c1 c2) (sym p) ∙ m)
    ]

    -- No old entry has the new facility.
    not_old :
        (j c1 c2 : ℕ)
        → j < r.formatter_count
        → same_facility (r.formatters j) c1 c2 ≡ true
        → (b1 == c1 && b2 == c2) ≡ false
    unfolding same_facility
    not_old j c1 c2 l m = ground (arith, missing j l, m)

    added_count : (entry_add r b1 b2 f).formatter_count ≡ r.formatter_count + 1
    unfolding entry_add
    added_count = refl

    pub entry_add-IsRegistry : IsRegistry (entry_add r b1 b2 f)
    entry_add-IsRegistry = record {
      bounded = omega (arith, added_count);
      distinct = λ j k c1 c2 p q s t. elim (added_names j c1 c2 (omega (arith, p, added_count)) s) [
        | inl (e, x) ↦ elim (added_names k c1 c2 (omega (arith, q, added_count)) t) [
          | inl (g, y) ↦ e ∙ sym g
          | inr (g, y) ↦ absurd (ground (arith, x, not_old k c1 c2 g y))
        ]
        | inr (e, x) ↦ elim (added_names k c1 c2 (omega (arith, q, added_count)) t) [
          | inl (g, y) ↦ absurd (ground (arith, y, not_old j c1 c2 e x))
          | inr (g, y) ↦ v.distinct j k c1 c2 e g x y
        ]
      ];
      present = λ j p. elim (added-cases j (omega (arith, p, added_count))) [
        | inl (e, x) ↦ (f, ap (λ (n : Entry F). n.formatter) x)
        | inr (e, x) ↦ let (g, y) = v.present j e in (g, ap (λ (n : Entry F). n.formatter) x ∙ y)
      ];
    }

    pub lookup-entry_add :
        (c1 c2 : ℕ)
        → formatter_lookup (entry_add r b1 b2 f) c1 c2
          ≡ at_facility (formatter_lookup r) b1 b2 (some f) c1 c2
    unfolding same_facility entry_add
    lookup-entry_add c1 c2 = elim (Bool-cases (b1 == c1 && b2 == c2)) [
      | inl same ↦
          let e : (r.formatter_count == r.formatter_count) ≡ true = ground arith in
          rw same (
            lookup_found (entry_add r b1 b2 f) c1 c2 r.formatter_count entry_add-IsRegistry
              (omega arith) (rw e same)
            ∙ rw e refl)
      | inr other ↦ rw other (
          lookup_agree r (entry_add r b1 b2 f) c1 c2 v entry_add-IsRegistry
            (λ j q n.
              let e : (j == r.formatter_count) ≡ false = ground (arith, q) in
              (j, omega (arith, q), rw e n, rw e refl))
            (λ k q n. elim (added_names k c1 c2 q n) [
              | inl (e, x) ↦ absurd (ground (arith, x, other))
              | inr (e, x) ↦ (k, e, x)
            ]))
    ]
