-- ===== src/Paths/Within.antt =====
-- When a path counts as inside a directory.
use mathlib.Core.Path.{subst}
use nexus_c.Base.{
  ℕ, ◌≡◌, ◌≢◌, none, some, Option-cases, take, ◌↔◌, ◌∙◌, ap, refl, sym, ◌⊎◌, inl, inr, true, false,
  Option, List, [], ◌∷◌, ◌++◌, ltb, ◌==◌, length, get_or, length-append, Bool-cases, append-nil,
  arith,
}
use nexus_c.Paths.{
  path_is_separator, path_relative_to_absolute, same_from, path_is_within_directory, inside,
  path_is_absolute, path_create,
}

same_from-append :
    (boundary candidate : List ℕ)
    → same_from boundary candidate ≡ true
    → (rest : List ℕ) × (candidate ≡ boundary ++ rest)
unfolding same_from
same_from-append [] candidate h = (candidate, refl)
same_from-append (b ∷ boundary) [] h = absurd (ground (arith, h))
same_from-append (b ∷ boundary) (c ∷ candidate) h = elim (Bool-cases (c == b)) [
  | inl e ↦
      let (rest, p) = same_from-append boundary candidate (rw e at h) in
      let q : c ≡ b = ground (arith, e) in (rest, rw (q, p) refl)
  | inr e ↦ absurd (ground (arith, (rw e at h)))
]

append-same_from : (boundary rest : List ℕ) → same_from boundary (boundary ++ rest) ≡ true
unfolding same_from
append-same_from [] rest = refl
append-same_from (b ∷ boundary) rest =
    let k : same_from boundary (boundary ++ rest) ≡ true = append-same_from boundary rest in
    let e : (b == b) ≡ true = ground arith in rw (e, k) refl

get_or-append : (xs ys : List ℕ) → get_or (xs ++ ys) (length xs) 0 ≡ get_or ys 0 0
get_or-append [] ys = refl
get_or-append (x ∷ xs) ys = get_or-append xs ys

-- The boundary itself, or the boundary, a separator and more text.
abbrev pub IsBelow : List ℕ → List ℕ → Type 0
IsBelow candidate boundary =
    (candidate ≡ boundary) ⊎ ((rest : List ℕ) × (candidate ≡ boundary ++ 47 ∷ rest))

extended-IsBelow :
    (boundary rest : List ℕ)
    → inside (boundary ++ rest) boundary ≡ true
    → IsBelow (boundary ++ rest) boundary
unfolding inside path_is_separator
extended-IsBelow boundary [] h = inl (append-nil boundary)
extended-IsBelow boundary (c ∷ rest) h =
    let n = length-append boundary (c ∷ rest) in
    let long : ltb (length (boundary ++ c ∷ rest)) (length boundary) ≡ false = ground (arith, n) in
    let other : (length (boundary ++ c ∷ rest) == length boundary) ≡ false = ground (arith, n) in
    let same = append-same_from boundary (c ∷ rest) in
    let e : (c == 47) ≡ true = (rw (long, other, same, get_or-append boundary (c ∷ rest)) at h) in
    let q : c ≡ 47 = ground (arith, e) in inr (rest, rw q refl)

inside-IsBelow :
    (candidate boundary : List ℕ) → inside candidate boundary ≡ true → IsBelow candidate boundary
unfolding inside
inside-IsBelow candidate boundary h = elim (Bool-cases (same_from boundary candidate)) [
  | inl same ↦
      let (rest, p) = same_from-append boundary candidate same in
      subst (λ x. IsBelow x boundary) (sym p)
        (extended-IsBelow boundary rest (subst (λ x. inside x boundary ≡ true) p h))
  | inr other ↦ absurd (ground (arith, other, h))
]

IsBelow-inside :
    (candidate boundary : List ℕ) → IsBelow candidate boundary → inside candidate boundary ≡ true
unfolding inside path_is_separator
IsBelow-inside candidate boundary (inl p) =
    let long : ltb (length boundary) (length boundary) ≡ false = ground arith in
    let equal : (length boundary == length boundary) ≡ true = ground arith in
    let same : same_from boundary boundary ≡ true =
      ap (same_from boundary) (sym (append-nil boundary)) ∙ append-same_from boundary [] in
    ap (λ x. inside x boundary) p ∙ rw (long, same, equal) refl
IsBelow-inside candidate boundary (inr (rest, p)) =
    let n = length-append boundary (47 ∷ rest) in
    let long : ltb (length (boundary ++ 47 ∷ rest)) (length boundary) ≡ false = ground (arith, n) in
    let other : (length (boundary ++ 47 ∷ rest) == length boundary) ≡ false = ground (arith, n) in
    let same = append-same_from boundary (47 ∷ rest) in
    ap (λ x. inside x boundary) p ∙ rw (long, same, other, get_or-append boundary (47 ∷ rest)) refl

-- The text that is compared for a path: an absolute path as it is written, and for any other path
-- what the file system makes of it, cut to 1023 characters, or the path if that gives nothing.
pub data IsAbsoluteText (canonicalize : List ℕ → Option (List ℕ)) (path text : List ℕ)
    : Type 0 where
  absolute :
      (rest : List ℕ) → path ≡ 47 ∷ rest → text ≡ path → IsAbsoluteText canonicalize path text
  resolved :
      (canonical_path : List ℕ)
      → ((rest : List ℕ) → path ≢ 47 ∷ rest)
      → canonicalize path ≡ some canonical_path
      → text ≡ take 1023 canonical_path
      → IsAbsoluteText canonicalize path text
  unresolved :
      ((rest : List ℕ) → path ≢ 47 ∷ rest)
      → canonicalize path ≡ none
      → text ≡ path
      → IsAbsoluteText canonicalize path text

relative-IsAbsoluteText :
    (canonicalize : List ℕ → Option (List ℕ)) (path : List ℕ)
    → path_is_absolute path ≡ false
    → ((rest : List ℕ) → path ≢ 47 ∷ rest)
    → IsAbsoluteText canonicalize path (path_relative_to_absolute canonicalize path)
unfolding path_relative_to_absolute path_create
relative-IsAbsoluteText canonicalize path e other = elim (Option-cases (canonicalize path)) [
  | inl q ↦ rw (e, q) (unresolved other q refl)
  | inr (c, q) ↦ rw (e, q) (resolved c other q refl)
]

path_relative_to_absolute-IsAbsoluteText :
    (canonicalize : List ℕ → Option (List ℕ)) (path : List ℕ)
    → IsAbsoluteText canonicalize path (path_relative_to_absolute canonicalize path)
unfolding path_relative_to_absolute path_is_absolute path_is_separator
path_relative_to_absolute-IsAbsoluteText canonicalize [] =
    relative-IsAbsoluteText canonicalize [] refl (λ rest e. ground (arith, e))
path_relative_to_absolute-IsAbsoluteText canonicalize (c ∷ cs) = elim (Bool-cases (c == 47)) [
  | inl e ↦ let p : c ≡ 47 = ground (arith, e) in rw e (absolute cs (ap (λ k. k ∷ cs) p) refl)
  | inr e ↦ relative-IsAbsoluteText canonicalize (c ∷ cs) e (λ rest q. ground (arith, e, q))
]

-- A candidate counts as within a directory exactly when its text is that of the directory, or this
-- text, a separator and more text. Absolute paths are compared as they are written; any other path is
-- compared by what the file system makes of it, cut to 1023 characters, or as it is written where that
-- gives nothing.
pub path_is_within_directory-IsBelow :
    (canonicalize : List ℕ → Option (List ℕ)) (candidate boundary_directory : List ℕ)
    → (c : List ℕ) × (b : List ℕ) × IsAbsoluteText canonicalize candidate c
      × IsAbsoluteText canonicalize boundary_directory b
      × ((path_is_within_directory canonicalize candidate boundary_directory ≡ true) ↔ IsBelow c b)
unfolding path_is_within_directory
path_is_within_directory-IsBelow canonicalize candidate boundary_directory =
    let c = path_relative_to_absolute canonicalize candidate in
    let b = path_relative_to_absolute canonicalize boundary_directory in
    (
      c,
      b,
      path_relative_to_absolute-IsAbsoluteText canonicalize candidate,
      path_relative_to_absolute-IsAbsoluteText canonicalize boundary_directory,
      (inside-IsBelow c b, IsBelow-inside c b),
    )
