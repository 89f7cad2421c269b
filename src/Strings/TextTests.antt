-- ===== src/Strings/TextTests.antt =====
-- Runs of the bounded copies, the search and the split, and their theorems at concrete texts.
use nexus_c.Base.{ℕ, ◌≡◌, refl, true, false, some, List, [], ◌∷◌, arith}
use nexus_c.Strings.Copy.{
  result_create, string_length, characters_copy, lead_index_loop, expected_bytes, clip_loop,
  clip_incomplete_tail, copy_exact, copy_with_truncation, append, writer_initialize,
  writer_string_append, is_alphanumeric, replace_loop, replace_non_alphanumeric,
}
use nexus_c.Strings.Search.{starts_with, find_loop, find, First, find-First}
use nexus_c.Strings.Split.{
  count_loop, string_data, later_strings, allocate, split, strings, Splits, split-Splits,
}
use nexus_c.Strings.Truncate.{Copied, copy_with_truncation-Copied}
use nexus_c.Strings.Writer.{Appends, writer_initialize-Holds, writer_string_append-Appends}

-- A buffer before its use.
abbrev buffer : ℕ → ℕ
buffer i = 170

-- "abé", with two bytes for the last letter.
abbrev accented : List ℕ
accented = 97 ∷ 98 ∷ 195 ∷ 169 ∷ []

-- "abé!".
abbrev exclaimed : List ℕ
exclaimed = 97 ∷ 98 ∷ 195 ∷ 169 ∷ 33 ∷ []

abbrev two_letters : List ℕ
two_letters = 97 ∷ 98 ∷ []

-- "a,,b".
abbrev listed : List ℕ
listed = 97 ∷ 44 ∷ 44 ∷ 98 ∷ []

runs :
    ((copy_with_truncation buffer 5 exclaimed).1 ≡ result_create 2 5 true true)
    × ((copy_exact buffer 4 accented).1 ≡ result_create 0 4 true false)
    × ((append (copy_with_truncation buffer 5 two_letters).0 5 two_letters).1 ≡ true)
    × (find (some listed) (some (44 ∷ 98 ∷ [])) ≡ some 2)
    × (split (λ n. true) (some listed) 44 true
        ≡ strings (97 ∷ 0 ∷ 0 ∷ 98 ∷ 0 ∷ []) (0 ∷ 2 ∷ 3 ∷ []))
    × ((replace_non_alphanumeric buffer 4 listed 95).0 1 ≡ 95)
unfolding result_create string_length characters_copy lead_index_loop expected_bytes clip_loop
    clip_incomplete_tail copy_exact copy_with_truncation append starts_with find_loop find
    count_loop string_data later_strings allocate split is_alphanumeric replace_loop
    replace_non_alphanumeric
runs = (refl, refl, refl, refl, refl, refl)

copy_with_truncation-Copied_example :
    Copied buffer 5 exclaimed
      (copy_with_truncation buffer 5 exclaimed).0
      (copy_with_truncation buffer 5 exclaimed).1
copy_with_truncation-Copied_example = copy_with_truncation-Copied buffer 5 exclaimed (omega arith) (
  omega arith,
  omega arith,
  (
    omega arith,
    omega arith,
    (omega arith, omega arith, (omega arith, omega arith, (omega arith, omega arith, tt))),
  ),
)

writer_string_append-Appends_example :
    Appends
      (writer_initialize buffer 4)
      []
      accented
      (writer_string_append (writer_initialize buffer 4) accented).0
writer_string_append-Appends_example =
    writer_string_append-Appends (writer_initialize buffer 4) [] accented
      (writer_initialize-Holds buffer 4 (omega arith))
      (
        omega arith,
        omega arith,
        (omega arith, omega arith, (omega arith, omega arith, (omega arith, omega arith, tt))),
      )

find-First_example : First listed (44 ∷ 98 ∷ []) (find (some listed) (some (44 ∷ 98 ∷ [])))
find-First_example = find-First listed (44 ∷ 98 ∷ [])

split-Splits_example :
    (copy : List ℕ) × (pointers : List ℕ) × (split (λ n. true) (some listed) 44 true
      ≡ strings copy pointers)
    × Splits listed 44 copy pointers
split-Splits_example =
    split-Splits (λ n. true) listed 44
      (omega arith, (omega arith, (omega arith, (omega arith, tt)))) (omega arith) (omega arith)
      refl
