-- ===== src/Strings/Search.antt =====
-- Finding a string in another (nexus.h, lines 2713 to 2725, and src/n_strings.c, lines 819 to 862).
use nexus_c.Base.{
  ℕ, zero, suc, ◌+◌, ◌<◌, ◌≤◌, ◌≡◌, ◌∙◌, ap, sym, refl, Bool, true, false, if◌then◌else◌, leb, ltb,
  ◌==◌, Option, none, some, List, [], ◌∷◌, ◌++◌, length, Bool-cases, inl, inr, arith, length-append,
}
use mathlib.Core.Path.{subst}

unfoldable pub starts_with : List ℕ → List ℕ → Bool
starts_with string [] = true
starts_with [] (p ∷ prefix) = false
starts_with (c ∷ string) (p ∷ prefix) =
    let rest = starts_with string prefix in if c == p then rest else false

-- The loop at an index, on the rest of the haystack from there on.
unfoldable pub find_loop : ℕ → List ℕ → List ℕ → Option ℕ
find_loop haystack_index [] needle = none
find_loop haystack_index (c ∷ haystack) needle =
    let rest = find_loop (haystack_index + 1) haystack needle in
    if leb (length needle) (length (c ∷ haystack))
    then (if starts_with (c ∷ haystack) needle then some haystack_index else rest)
    else none

-- The index is what `*out_position` is set to, where it is given; `none` is FALSE.
unfoldable pub find : Option (List ℕ) → Option (List ℕ) → Option ℕ
find none needle = none
find (some haystack) none = none
find (some haystack) (some []) = some 0
find (some haystack) (some (n ∷ needle)) =
    if ltb (length haystack) (length (n ∷ needle)) then none else find_loop 0 haystack (n ∷ needle)

starts_with-cons :
    (c p : ℕ) (string prefix : List ℕ)
    → starts_with (c ∷ string) (p ∷ prefix) ≡ true
    → (c ≡ p) × (starts_with string prefix ≡ true)
unfolding starts_with
starts_with-cons c p string prefix h = (ground (arith, h), ground (arith, h))

-- A string starts with a prefix exactly when it is the prefix and a rest.
starts_with-split :
    (string prefix : List ℕ)
    → starts_with string prefix ≡ true
    → (rest : List ℕ) × (string ≡ prefix ++ rest)
unfolding starts_with
starts_with-split string [] h = (string, refl)
starts_with-split [] (p ∷ prefix) h = absurd (ground arith)
starts_with-split (c ∷ string) (p ∷ prefix) h =
    let (e, h') = starts_with-cons c p string prefix h in
    let (rest, e') = starts_with-split string prefix h' in
    (rest, ap (λ k. k ∷ string) e ∙ ap (λ s. p ∷ s) e')

starts_with-append : (prefix rest : List ℕ) → starts_with (prefix ++ rest) prefix ≡ true
unfolding starts_with
starts_with-append [] rest = refl
starts_with-append (p ∷ prefix) rest =
    let e : (p == p) ≡ true = ground arith in rw e (starts_with-append prefix rest)

-- The needle stands in the haystack at an index.
abbrev pub IsAt : List ℕ → List ℕ → ℕ → Type 0
IsAt haystack needle i =
    (before : List ℕ) × (after : List ℕ) × (haystack ≡ before ++ (needle ++ after))
    × (length before ≡ i)

-- The first place of the needle, or nothing where there is none.
abbrev pub First : List ℕ → List ℕ → Option ℕ → Type 0
First haystack needle none = (i : ℕ) → ¬ (IsAt haystack needle i)
First haystack needle (some i) =
    (IsAt haystack needle i) × ((j : ℕ) → j < i → ¬ (IsAt haystack needle j))

tail : List ℕ → List ℕ
tail [] = []
tail (x ∷ xs) = xs

IsAt-length : (h needle : List ℕ) (i : ℕ) → IsAt h needle i → i + length needle ≤ length h
IsAt-length h needle i (before, after, e, size) =
    omega
      (arith, size, ap length e, length-append before (needle ++ after), length-append needle after)

IsAt-starts_with : (h needle : List ℕ) → IsAt h needle 0 → starts_with h needle ≡ true
IsAt-starts_with h needle ([], after, e, size) =
    subst (λ s. starts_with s needle ≡ true) (sym e) (starts_with-append needle after)
IsAt-starts_with h needle (b ∷ before, after, e, size) = absurd (omega (arith, size))

starts_with-IsAt : (h needle : List ℕ) → starts_with h needle ≡ true → IsAt h needle 0
starts_with-IsAt h needle e = let (rest, e') = starts_with-split h needle e in ([], rest, e', refl)

IsAt-tail : (c : ℕ) (h needle : List ℕ) (i : ℕ) → IsAt (c ∷ h) needle (suc i) → IsAt h needle i
unfolding tail
IsAt-tail c h needle i ([], after, e, size) = absurd (omega (arith, size))
IsAt-tail c h needle i (b ∷ before, after, e, size) =
    (before, after, ap tail e, omega (arith, size))

IsAt-cons : (c : ℕ) (h needle : List ℕ) (i : ℕ) → IsAt h needle i → IsAt (c ∷ h) needle (suc i)
IsAt-cons c h needle i (before, after, e, size) =
    (c ∷ before, after, ap (λ s. c ∷ s) e, ap suc size)

-- The first place from a base on.
abbrev FirstFrom : ℕ → List ℕ → List ℕ → Option ℕ → Type 0
FirstFrom base h needle none = (i : ℕ) → ¬ (IsAt h needle i)
FirstFrom base h needle (some k) =
    (i : ℕ) × (k ≡ base + i) × (IsAt h needle i) × ((j : ℕ) → j < i → ¬ (IsAt h needle j))

not-IsAt-cons :
    (c : ℕ) (h needle : List ℕ) (n : ℕ)
    → ¬ (IsAt (c ∷ h) needle 0)
    → ((j : ℕ) → j < n → ¬ (IsAt h needle j))
    → (j : ℕ) → j < suc n
    → ¬ (IsAt (c ∷ h) needle j)
not-IsAt-cons c h needle n not_here least zero p at = not_here at
not-IsAt-cons c h needle n not_here least (suc j) p at =
    least j (omega (arith, p)) (IsAt-tail c h needle j at)

FirstFrom-cons :
    (base c : ℕ) (h needle : List ℕ) (r : Option ℕ)
    → ¬ (IsAt (c ∷ h) needle 0)
    → FirstFrom (base + 1) h needle r
    → FirstFrom base (c ∷ h) needle r
FirstFrom-cons base c h needle none not_here f =
    λ i at. not-IsAt-cons c h needle i not_here (λ j p. f j) i (omega arith) at
FirstFrom-cons base c h needle (some k) not_here (i, e, at, least) =
    (suc i, omega (arith, e), IsAt-cons c h needle i at, not-IsAt-cons c h needle i not_here least)

find_loop-FirstFrom :
    (base : ℕ) (h needle : List ℕ)
    → 0 < length needle
    → FirstFrom base h needle (find_loop base h needle)
unfolding find_loop
find_loop-FirstFrom base [] needle pos =
    λ i at. absurd (omega (arith, pos, IsAt-length [] needle i at))
find_loop-FirstFrom base (c ∷ h) needle pos =
    elim (Bool-cases (leb (length needle) (length (c ∷ h)))) [
      | inr short ↦
          rw short (λ i at. absurd (ground (arith, short, IsAt-length (c ∷ h) needle i at)))
      | inl room ↦ elim (Bool-cases (starts_with (c ∷ h) needle)) [
        | inl here ↦
            rw (room, here)
              (
                0,
                omega arith,
                starts_with-IsAt (c ∷ h) needle here,
                λ j p. absurd (omega (arith, p)),
              )
        | inr elsewhere ↦
            rw (room, elsewhere)
              (FirstFrom-cons base c h needle (find_loop (base + 1) h needle)
                (λ at. absurd (ground (arith, elsewhere, IsAt-starts_with (c ∷ h) needle at)))
                (find_loop-FirstFrom (base + 1) h needle pos))
      ]
    ]

First-of_FirstFrom : (h needle : List ℕ) (r : Option ℕ) → FirstFrom 0 h needle r → First h needle r
First-of_FirstFrom h needle none f = f
First-of_FirstFrom h needle (some k) (i, e, at, least) =
    let e' : i ≡ k = omega (arith, e) in
    (subst (IsAt h needle) e' at, λ j p. least j (omega (arith, e, p)))

-- `find` returns the first place of the needle in the haystack, and nothing exactly where there is
-- none.
pub find-First :
    (haystack needle : List ℕ) → First haystack needle (find (some haystack) (some needle))
unfolding find
find-First haystack [] = (([], haystack, refl, refl), λ j p. absurd (omega (arith, p)))
find-First haystack (n ∷ needle) = elim (Bool-cases (ltb (length haystack) (length (n ∷ needle)))) [
  | inl short ↦
      rw short (λ i at. absurd (ground (arith, short, IsAt-length haystack (n ∷ needle) i at)))
  | inr room ↦ rw room (
      First-of_FirstFrom haystack (n ∷ needle) (find_loop 0 haystack (n ∷ needle))
        (find_loop-FirstFrom 0 haystack (n ∷ needle) (omega arith)))
]
