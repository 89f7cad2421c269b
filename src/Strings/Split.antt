-- ===== src/Strings/Split.antt =====
-- Splitting a string at a delimiter (src/n_strings.c, lines 864 to 935). The allocation holds the
-- pointers and a copy of the string in which each delimiter is a terminator; a pointer is given by
-- its distance to the copy.
use nexus_c.Base.{
  ℕ, zero, suc, ◌+◌, ◌*◌, ◌-◌, ◌^◌, ◌/◌, ◌<◌, ◌≤◌, ◌≡◌, ◌≢◌, ◌∙◌, ap, refl, Bool, true, false,
  if◌then◌else◌, ltb, ◌==◌, Option, none, some, List, [], ◌∷◌, ◌++◌, map, length, drop, u64,
  Bool-cases, inl, inr, arith,
}

pub data Split : Type 0 where
  invalid_argument : Split
  capacity : Split
  strings : List ℕ → List ℕ → Split

-- The loop that counts the strings; `none` is NEXUS_ERROR_CAPACITY.
unfoldable pub count_loop : ℕ → List ℕ → ℕ → Option ℕ
count_loop delimiter [] string_count = some string_count
count_loop delimiter (c ∷ cs) string_count =
    let more = count_loop delimiter cs (string_count + 1) in
    let same = count_loop delimiter cs string_count in
    if c == delimiter then (if string_count == 2 ^ 64 - 1 then none else more) else same

-- The copy with its terminator.
unfoldable pub string_data : ℕ → List ℕ → List ℕ
string_data delimiter [] = 0 ∷ []
string_data delimiter (c ∷ cs) = (if c == delimiter then 0 else c) ∷ string_data delimiter cs

-- The pointers after the first one, from an index on.
unfoldable pub later_strings : ℕ → ℕ → List ℕ → List ℕ
later_strings delimiter index [] = []
later_strings delimiter index (c ∷ cs) =
    let rest = later_strings delimiter (index + 1) cs in
    if c == delimiter then (index + 1) ∷ rest else rest

unfoldable pub allocate : (ℕ → Bool) → ℕ → List ℕ → ℕ → Split
allocate succeeds delimiter string string_count =
    let pointer_bytes = u64 (string_count * 8) in
    let data_bytes = u64 (length string + 1) in
    if ltb ((2 ^ 64 - 1) / 8) string_count
    then capacity
    else if ltb (2 ^ 64 - 1 - data_bytes) pointer_bytes
    then capacity
    else if succeeds (u64 (pointer_bytes + data_bytes))
    then strings (string_data delimiter string) (0 ∷ later_strings delimiter 0 string)
    else capacity

-- `succeeds` is malloc; `has_out` says whether both results can be written.
unfoldable pub split : (ℕ → Bool) → Option (List ℕ) → ℕ → Bool → Split
split succeeds none delimiter has_out = invalid_argument
split succeeds (some string) delimiter false = invalid_argument
split succeeds (some string) delimiter true =
    if delimiter == 0
    then invalid_argument
    else if length string == 2 ^ 64 - 1
    then capacity
    else elim (count_loop delimiter string 1) [
      | none ↦ capacity
      | some string_count ↦ allocate succeeds delimiter string string_count
    ]

-- The string that a pointer shows, up to its terminator.
abbrev pub text_of : List ℕ → List ℕ
text_of [] = []
text_of (x ∷ xs) = if x == 0 then [] else x ∷ text_of xs

-- The pieces joined by the delimiter.
abbrev pub join : ℕ → List (List ℕ) → List ℕ
join delimiter [] = []
join delimiter (piece ∷ []) = piece
join delimiter (piece ∷ next ∷ pieces) = piece ++ delimiter ∷ join delimiter (next ∷ pieces)

-- How often the delimiter stands in the string.
abbrev pub occurrences : ℕ → List ℕ → ℕ
occurrences delimiter [] = 0
occurrences delimiter (c ∷ cs) =
    if c == delimiter then suc (occurrences delimiter cs) else occurrences delimiter cs

abbrev pub AllNonzero : List ℕ → Type 0
AllNonzero [] = Unit
AllNonzero (c ∷ cs) = (c ≢ 0) × AllNonzero cs

rest_of : List ℕ → List ℕ
rest_of [] = []
rest_of (x ∷ xs) = xs

drop_none : (n : ℕ) → drop {A = ℕ} n [] ≡ []
drop_none zero = refl
drop_none (suc n) = refl

length-later_strings :
    (d index : ℕ) (cs : List ℕ) → length (later_strings d index cs) ≡ occurrences d cs
unfolding later_strings
length-later_strings d index [] = refl
length-later_strings d index (c ∷ cs) = ground (arith, length-later_strings d (index + 1) cs)

length-string_data : (d : ℕ) (cs : List ℕ) → length (string_data d cs) ≡ length cs + 1
unfolding string_data
length-string_data d [] = refl
length-string_data d (c ∷ cs) = omega (arith, length-string_data d cs)

count_loop-occurrences :
    (d : ℕ) (cs : List ℕ) (n : ℕ)
    → n + length cs < 2 ^ 64
    → count_loop d cs n ≡ some (n + occurrences d cs)
unfolding count_loop
count_loop-occurrences d [] n h = ap some (omega arith)
count_loop-occurrences d (c ∷ cs) n h =
    ground (arith, count_loop-occurrences d cs (n + 1), count_loop-occurrences d cs n)

drop-next :
    (index y : ℕ) (copy rest : List ℕ) → drop index copy ≡ y ∷ rest → drop (index + 1) copy ≡ rest
unfolding rest_of
drop-next index y [] rest e = absurd (ground (arith, drop_none index, e))
drop-next zero y (x ∷ copy) rest e = ap rest_of e
drop-next (suc index) y (x ∷ copy) rest e =
    let e' : suc index + 1 ≡ suc (index + 1) = omega arith in
    ap (λ k. drop k (x ∷ copy)) e' ∙ drop-next index y copy rest e

-- The strings that the pointers from an index on show.
abbrev shown : List ℕ → ℕ → ℕ → List ℕ → List (List ℕ)
shown copy index d cs = map (λ at. text_of (drop at copy)) (index ∷ later_strings d index cs)

join-cons :
    (d c : ℕ) (piece : List ℕ) (pieces : List (List ℕ))
    → join d ((c ∷ piece) ∷ pieces) ≡ c ∷ join d (piece ∷ pieces)
join-cons d c piece [] = refl
join-cons d c piece (next ∷ pieces) = refl

join-shown :
    (d index : ℕ) (copy cs : List ℕ)
    → AllNonzero cs
    → drop index copy ≡ string_data d cs
    → join d (shown copy index d cs) ≡ cs
unfolding later_strings string_data
join-shown d index copy [] nonzero e = ap text_of e
join-shown d index copy (c ∷ cs) nonzero e =
    let next = drop-next index (if c == d then 0 else c) copy (string_data d cs) e in
    let rest = join-shown d (index + 1) copy cs nonzero.1 next in
    let more = map (λ at. text_of (drop at copy)) (later_strings d (index + 1) cs) in
    let text = text_of (drop (index + 1) copy) in
    elim (Bool-cases (c == d)) [
      | inl here ↦
          let first : text_of (drop index copy) ≡ [] = rw (e, here) refl in
          let same : d ≡ c = ground (arith, here) in
          rw here (
            ap (λ s. join d (s ∷ text ∷ more)) first ∙ ap (λ s. d ∷ s) rest ∙ ap (λ k. k ∷ cs) same)
      | inr other ↦
          let first : text_of (drop index copy) ≡ c ∷ text_of (drop (index + 1) copy) =
            let some : (c == 0) ≡ false = ground (arith, nonzero.0) in
            rw (e, next, other, some) refl in
          rw other
            (ap (λ s. join d (s ∷ more)) first ∙ join-cons d c text more ∙ ap (λ s. c ∷ s) rest)
    ]

-- The result of a split: as many pointers as there are pieces, to texts that give the string again
-- when the delimiter joins them, and a copy as long as the string and its terminator.
pub record Splits (string : List ℕ) (delimiter : ℕ) (copy pointers : List ℕ) : Type 0 where
  pub joined : join delimiter (map (λ at. text_of (drop at copy)) pointers) ≡ string
  pub count : length pointers ≡ occurrences delimiter string + 1
  pub size : length copy ≡ length string + 1

occurrences_le : (d : ℕ) (cs : List ℕ) → occurrences d cs ≤ length cs
occurrences_le d [] = omega arith
occurrences_le d (c ∷ cs) = ground (arith, occurrences_le d cs)

-- A string without terminators inside, split at a character, if the allocation can be counted in 64
-- bits and is granted: the result is the pieces between the delimiters.
pub split-Splits :
    (succeeds : ℕ → Bool) (string : List ℕ) (delimiter : ℕ)
    → AllNonzero string
    → delimiter ≢ 0
    → (occurrences delimiter string + 1) * 8 + (length string + 1) < 2 ^ 64
    → succeeds ((occurrences delimiter string + 1) * 8 + (length string + 1)) ≡ true
    → (copy : List ℕ) × (pointers : List ℕ) × (split succeeds (some string) delimiter true
        ≡ strings copy pointers)
      × Splits string delimiter copy pointers
unfolding split allocate
split-Splits succeeds string delimiter nonzero some_delimiter small granted =
    let n = occurrences_le delimiter string in
    let nz : (delimiter == 0) ≡ false = ground (arith, some_delimiter) in
    let len : (length string == 2 ^ 64 - 1) ≡ false = ground (arith, small) in
    let count = count_loop-occurrences delimiter string 1 (omega (arith, small)) in
    let k = 1 + occurrences delimiter string in
    let bytes : u64 (u64 (k * 8) + u64 (length string + 1))
        ≡ (occurrences delimiter string + 1) * 8 + (length string + 1) =
      omega (arith, small, n) in
    let fits : ltb ((2 ^ 64 - 1) / 8) k ≡ false = ground (arith, small, n) in
    let fits' : ltb (2 ^ 64 - 1 - u64 (length string + 1)) (u64 (k * 8)) ≡ false =
      ground (arith, small, n) in
    (
      string_data delimiter string,
      0 ∷ later_strings delimiter 0 string,
      rw (nz, len, count, fits, fits', ap succeeds bytes ∙ granted, allocate) refl,
      record {
        joined = join-shown delimiter 0 (string_data delimiter string) string nonzero refl;
        count = omega (arith, length-later_strings delimiter 0 string);
        size = length-string_data delimiter string;
      },
    )
