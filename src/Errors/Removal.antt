-- ===== src/Errors/Removal.antt =====
-- What removing an entry of the registry does to the map.
use nexus_c.Base.{
  ℕ, ◌-◌, ◌<◌, ◌≡◌, ◌≢◌, ◌∙◌, ap, refl, sym, inl, inr, true, false, ◌&&◌, none, if◌then◌else◌, ◌==◌,
  Bool-cases, arith,
}
use nexus_c.Errors.{Entry, Registry, same_facility, formatter_lookup, entry_remove}
use nexus_c.Errors.Facilities.{
  IsRegistry, IsMissing, lookup_missing, lookup_agree, at_facility, named,
}

module _ {ℓ} {F : Type ℓ} where
  module _ (r : Registry F) (v : IsRegistry r) (b1 b2 i : ℕ) (l : i < r.formatter_count)
      (m : same_facility (r.formatters i) b1 b2 ≡ true) where
    -- Where an entry of the smaller registry was.
    abbrev before : ℕ → ℕ
    before k = if k == i then r.formatter_count - 1 else k

    removed_count : (entry_remove r i).formatter_count ≡ r.formatter_count - 1
    unfolding entry_remove
    removed_count = refl

    removed_at :
        (k : ℕ)
        → k < r.formatter_count - 1
        → (entry_remove r i).formatters k ≡ r.formatters (before k)
    unfolding entry_remove
    removed_at k q =
        let inside : (k == r.formatter_count - 1) ≡ false = ground (arith, q) in
        elim (Bool-cases (i == r.formatter_count - 1)) [
          | inl last ↦
              (let other : (k == i) ≡ false = ground (arith, last, q) in
                rw (inside, last, other) refl)
          | inr middle ↦ elim (Bool-cases (k == i)) [
            | inl e ↦ rw (inside, middle, e) refl
            | inr e ↦ rw (inside, middle, e) refl
          ]
        ]

    before_inside : (k : ℕ) → k < r.formatter_count - 1 → before k < r.formatter_count
    before_inside k q = ground (arith, q)

    removed_names :
        (k c1 c2 : ℕ)
        → k < r.formatter_count - 1
        → same_facility ((entry_remove r i).formatters k) c1 c2
          ≡ same_facility (r.formatters (before k)) c1 c2
    removed_names k c1 c2 q = ap (λ x. same_facility x c1 c2) (removed_at k q)

    before_distinct :
        (j k : ℕ)
        → j < r.formatter_count - 1
        → k < r.formatter_count - 1
        → before j ≡ before k
        → j ≡ k
    before_distinct j k p q e = ground (arith, p, q, e)

    pub entry_remove-IsRegistry : IsRegistry (entry_remove r i)
    entry_remove-IsRegistry = record {
      bounded = omega (arith, removed_count, v.bounded);
      distinct = λ j k c1 c2 p q s t.
          let p' : j < r.formatter_count - 1 = omega (arith, p, removed_count) in
          let q' : k < r.formatter_count - 1 = omega (arith, q, removed_count) in
          before_distinct j k p' q' (
            v.distinct (before j) (before k) c1 c2 (before_inside j p') (before_inside k q')
              (sym (removed_names j c1 c2 p') ∙ s) (sym (removed_names k c1 c2 q') ∙ t));
      present = λ j p.
          let p' : j < r.formatter_count - 1 = omega (arith, p, removed_count) in
          let (g, y) = v.present (before j) (before_inside j p') in
          (g, ap (λ (n : Entry F). n.formatter) (removed_at j p') ∙ y);
    }

    -- No entry of the smaller registry was the one that went.
    before_ne : (k : ℕ) → k < r.formatter_count - 1 → before k ≢ i
    before_ne k q e = ground (arith, q, e)

    -- Where an entry is in the smaller registry.
    abbrev after : ℕ → ℕ
    after j = if j == r.formatter_count - 1 then i else j

    after_inside : (j : ℕ) → j < r.formatter_count → j ≢ i → after j < r.formatter_count - 1
    after_inside j q h = ground (arith, q, h)

    before-after : (j : ℕ) → j < r.formatter_count → j ≢ i → before (after j) ≡ j
    before-after j q h = ground (arith, q, h)

    removed-IsMissing :
        (c1 c2 : ℕ) → (b1 == c1 && b2 == c2) ≡ true → IsMissing (entry_remove r i) c1 c2
    removed-IsMissing c1 c2 same k q =
        let q' : k < r.formatter_count - 1 = omega (arith, q, removed_count) in
        elim (Bool-cases (same_facility ((entry_remove r i).formatters k) c1 c2)) [
          | inl e ↦ absurd (
              before_ne k q' (
                v.distinct (before k) i c1 c2 (before_inside k q') l
                  (sym (removed_names k c1 c2 q') ∙ e)
                  (named (r.formatters i) b1 b2 c1 c2 m ∙ same)))
          | inr e ↦ e
        ]

    pub lookup-entry_remove :
        (c1 c2 : ℕ)
        → formatter_lookup (entry_remove r i) c1 c2
          ≡ at_facility (formatter_lookup r) b1 b2 none c1 c2
    lookup-entry_remove c1 c2 = elim (Bool-cases (b1 == c1 && b2 == c2)) [
      | inl same ↦ rw same (lookup_missing (entry_remove r i) c1 c2 (removed-IsMissing c1 c2 same))
      | inr other ↦ rw other (
          lookup_agree r (entry_remove r i) c1 c2 v entry_remove-IsRegistry
            (λ j q n.
              let h : j ≢ i = λ e. absurd (
                ground (
                  arith,
                  n,
                  other,
                  named (r.formatters i) b1 b2 c1 c2 m,
                  ap (λ k. same_facility (r.formatters k) c1 c2) e,
                )) in
              let inside = after_inside j q h in
              let back = before-after j q h in
              (
                after j,
                omega (arith, inside, removed_count),
                removed_names (after j) c1 c2 inside
                    ∙ ap (λ k. same_facility (r.formatters k) c1 c2) back
                    ∙ n,
                ap (λ (x : Entry F). x.formatter) (removed_at (after j) inside)
                    ∙ ap (λ k. (r.formatters k).formatter) back,
              ))
            (λ k q n.
              let q' : k < r.formatter_count - 1 = omega (arith, q, removed_count) in
              (before k, before_inside k q', sym (removed_names k c1 c2 q') ∙ n)))
    ]
