-- ===== src/Data/HashMap/Walk.antt =====
-- The order in which a probe visits the groups, and loops over slots.
use nexus_c.Base.{
  ℕ, zero, suc, ◌+◌, ◌-◌, ◌%◌, ◌≤◌, ◌<◌, ◌≡◌, Bool, true, false, none, some, arith, ◌⊎◌, inl, inr,
  ◌∙◌, ap,
}
use native.Mathlib.Nat.{mod-eq_of_lt, mod-eq-sub-mod, mod-add-mod, add-mod_right}
use native.Mathlib.Decide.{dec_lt}
use nexus_c.Data.HashMap.Probe.{scan}

-- The group that is visited after `j` steps from `home`.
abbrev pub walk : ℕ → ℕ → ℕ → ℕ
walk cap home j = (home + j) % cap

-- A number below twice the modulus wraps at most once.
mod_once : (x n : ℕ) → x < n + n → ((x < n) × (x % n ≡ x)) ⊎ ((n ≤ x) × (x % n ≡ x - n))
mod_once x n h = elim (dec_lt x n) [
  | yes p ↦ inl (p, mod-eq_of_lt p)
  | no p ↦ inr (omega arith, mod-eq-sub-mod (omega arith) ∙ mod-eq_of_lt (omega arith))
]

module _ (cap home : ℕ) (inside : home < cap) where
  pub walk-lt : (j : ℕ) → walk cap home j < cap
  walk-lt j = omega arith

  pub walk-zero : walk cap home 0 ≡ home
  walk-zero = grind arith

  pub walk-all : walk cap home cap ≡ home
  walk-all = add-mod_right home cap ∙ mod-eq_of_lt inside

  pub walk-suc : (j : ℕ) → (walk cap home j + 1) % cap ≡ walk cap home (j + 1)
  walk-suc j = mod-add-mod (home + j) cap 1 ∙ ap (λ t. t % cap) (omega arith)

  -- The walk is back at its start after all the groups, and not before.
  pub walk_back : (j : ℕ) → j ≤ cap → 0 < j → walk cap home j ≡ home → j ≡ cap
  walk_back j le pos e = elim (mod_once (home + j) cap (omega arith)) [
    | inl w ↦ omega arith
    | inr w ↦ omega arith
  ]

  -- Every group is visited.
  pub walk_onto : (g : ℕ) → g < cap → (j : ℕ) × (j < cap) × (walk cap home j ≡ g)
  walk_onto g h = elim (dec_lt g home) [
    | yes p ↦ (
      g + cap - home,
      omega arith,
      elim (mod_once (home + (g + cap - home)) cap (omega arith)) [
        | inl w ↦ omega arith
        | inr w ↦ omega arith
      ],
    )
    | no p ↦ (
      g - home,
      omega arith,
      elim (mod_once (home + (g - home)) cap (omega arith)) [
        | inl w ↦ omega arith
        | inr w ↦ omega arith
      ],
    )
  ]

-- A scan stops at the first slot with the property, or there is none.
pub scan-eq-some :
    (n slot : ℕ) (test : ℕ → Bool) (r : ℕ)
    → scan n slot test ≡ some r
    → (slot ≤ r) × (r < slot + n) × (test r ≡ true)
unfolding scan
scan-eq-some zero slot test r h = cc
scan-eq-some (suc n) slot test r h = ground (arith, scan-eq-some n (slot + 1) test r)

pub scan-eq-none :
    (n slot : ℕ) (test : ℕ → Bool) (r : ℕ)
    → scan n slot test ≡ none
    → slot ≤ r
    → r < slot + n
    → test r ≡ false
unfolding scan
scan-eq-none zero slot test r h lo hi = absurd (omega arith)
scan-eq-none (suc n) slot test r h lo hi = elim (dec_lt slot r) [
  | yes p ↦ ground (arith, scan-eq-none n (slot + 1) test r)
  | no p ↦ let e : slot ≡ r = omega arith in ground arith
]
