-- ===== src/Paths/Tests.antt =====
-- Runs on concrete paths.
use nexus_c.Base.{
  ℕ, ◌≡◌, ◌↔◌, refl, true, false, Option, none, List, [], ◌∷◌, ◌++◌, replicate, arith,
}
use nexus_c.Paths.{
  path_append, path_base_name_get, path_parent, path_is_within_directory, path_is_absolute,
  path_relative_to_absolute, path_is_separator, inside, same_from, dot, trim_separators,
  last_separator, parent_of,
}
use nexus_c.Paths.Join.{path_append-joins}
use nexus_c.Paths.Within.{IsBelow, IsAbsoluteText, path_is_within_directory-IsBelow}

-- "/a", "/a/..", "b" and "/".
abbrev directory : List ℕ
directory = 47 ∷ 97 ∷ []

abbrev escape : List ℕ
escape = 47 ∷ 97 ∷ 47 ∷ 46 ∷ 46 ∷ []

abbrev file : List ℕ
file = 98 ∷ []

abbrev root : List ℕ
root = 47 ∷ []

abbrev no_files : List ℕ → Option (List ℕ)
no_files path = none

path_append-joins_example :
    (path_append ((47 ∷ []) ++ 97 ∷ []) file ≡ ((47 ∷ []) ++ 97 ∷ []) ++ 47 ∷ file)
    × (path_base_name_get (path_append ((47 ∷ []) ++ 97 ∷ []) file) ≡ file)
    × (path_parent (path_append ((47 ∷ []) ++ 97 ∷ []) file) ≡ (47 ∷ []) ++ 97 ∷ [])
    × (path_parent (replicate 1 47) ≡ dot)
path_append-joins_example =
    path_append-joins (47 ∷ []) 97 98 [] 0 ((λ e. omega (arith, e)), (λ e. omega (arith, e)))
      (((λ e. omega (arith, e)), (λ e. omega (arith, e))), tt) (omega arith)

path_is_within_directory-IsBelow_example :
    (c : List ℕ) × (b : List ℕ) × IsAbsoluteText no_files escape c
    × IsAbsoluteText no_files directory b
    × ((path_is_within_directory no_files escape directory ≡ true) ↔ IsBelow c b)
path_is_within_directory-IsBelow_example =
    path_is_within_directory-IsBelow no_files escape directory

-- The parent of the directory counts as within it, and the directory not as within the root.
escapes : path_is_within_directory no_files escape directory ≡ true
unfolding path_is_within_directory path_relative_to_absolute path_is_absolute inside same_from
    path_is_separator
escapes = refl

root_is_empty : path_is_within_directory no_files directory root ≡ false
unfolding path_is_within_directory path_relative_to_absolute path_is_absolute inside same_from
    path_is_separator
root_is_empty = refl

-- "/a//b" has the parent "/a/".
trailing : path_parent (47 ∷ 97 ∷ 47 ∷ 47 ∷ 98 ∷ []) ≡ 47 ∷ 97 ∷ 47 ∷ []
unfolding path_parent trim_separators last_separator parent_of path_is_separator
trailing = refl
