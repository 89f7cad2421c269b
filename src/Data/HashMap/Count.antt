-- ===== src/Data/HashMap/Count.antt =====
-- Counting the slots that pass a test.
use nexus_c.Base.{
  ℕ, zero, suc, ◌+◌, ◌≤◌, ◌<◌, ◌≡◌, ◌≢◌, refl, Bool, true, false, arith, Bool-cases, inl, inr,
}
use native.Mathlib.Decide.{dec_lt}
use nexus_c.Data.HashMap.Invariant.{count_below}

pub count_below-le : (n : ℕ) (p : ℕ → Bool) → count_below n p ≤ n
unfolding count_below
count_below-le zero p = omega arith
count_below-le (suc n) p = ground (arith, count_below-le n p)

pub count_below_ext :
    (n : ℕ) (p q : ℕ → Bool) → ((i : ℕ) → i < n → p i ≡ q i) → count_below n p ≡ count_below n q
unfolding count_below
count_below_ext zero p q h = refl
count_below_ext (suc n) p q h =
    rw (h n (omega arith), count_below_ext n p q (λ i lt. h i (omega arith)))

pub count_below-none : (n : ℕ) (p : ℕ → Bool) → ((i : ℕ) → p i ≡ false) → count_below n p ≡ 0
unfolding count_below
count_below-none zero p h = refl
count_below-none (suc n) p h = rw (h n) (omega (arith, count_below-none n p h))

-- Two tests that differ at one place, where only the second one passes.
pub count_below_one_more :
    (n i : ℕ) (p q : ℕ → Bool)
    → i < n
    → p i ≡ false
    → q i ≡ true
    → ((j : ℕ) → j ≢ i → p j ≡ q j)
    → count_below n q ≡ count_below n p + 1
unfolding count_below
count_below_one_more zero i p q h pi qi e = absurd (omega arith)
count_below_one_more (suc n) i p q h pi qi e = elim (dec_lt i n) [
  | yes below ↦
      let rest = count_below_one_more n i p q below pi qi e in
      rw (e n (omega arith)) (omega (arith, rest))
  | no above ↦
      let at_n : i ≡ n = omega arith in
      let rest = count_below_ext n p q (λ j lt. e j (omega arith)) in
      let pn : p n ≡ false = rw (← at_n) pi in
      let qn : q n ≡ true = rw (← at_n) qi in rw (pn, qn) (omega (arith, rest))
]

-- Where two tests pass less often than there are places, some place passes neither.
pub count_below_free :
    (n : ℕ) (p q : ℕ → Bool)
    → count_below n p + count_below n q < n
    → (i : ℕ) × (i < n) × (p i ≡ false) × (q i ≡ false)
unfolding count_below
count_below_free zero p q h = absurd (omega arith)
count_below_free (suc n) p q h = elim (Bool-cases (p n)) [
  | inl pn ↦ let (i, lt, a, b) = count_below_free n p q (ground arith) in (i, omega arith, a, b)
  | inr pn ↦ elim (Bool-cases (q n)) [
    | inl qn ↦ let (i, lt, a, b) = count_below_free n p q (ground arith) in (i, omega arith, a, b)
    | inr qn ↦ (n, omega arith, pn, qn)
  ]
]
