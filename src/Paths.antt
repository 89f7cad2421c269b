-- ===== src/Paths.antt =====
-- Paths as text (src/n_paths.c), on systems whose separator is '/'. A path is the list of its characters
-- before the terminator. The current directory and the links of the file system are a parameter, and so is
-- whether a file exists.
use nexus_c.Base.{
  ℕ, zero, suc, ◌+◌, ◌-◌, Bool, true, false, not, ◌&&◌, ◌||◌, Option, none, some, List, [], ◌∷◌,
  ◌++◌, if◌then◌else◌, leb, ltb, ◌==◌, take, length, get_or,
}
pub mod Join
pub mod Within
mod Tests

unfoldable pub path_is_separator : ℕ → Bool
path_is_separator character = character == 47

abbrev pub max_path_length : ℕ
max_path_length = 1024

unfoldable pub path_create : List ℕ → List ℕ
path_create base_path = take (max_path_length - 1) base_path

-- The path is not empty, and its last character is neither '/' nor '\\'.
unfoldable pub wants_separator : List ℕ → Bool
wants_separator [] = false
wants_separator (c ∷ []) = not (c == 47) && not (c == 92)
wants_separator (c ∷ d ∷ cs) = wants_separator (d ∷ cs)

unfoldable pub path_append : List ℕ → List ℕ → List ℕ
path_append path element =
    let joined = if wants_separator path then path ++ 47 ∷ [] else path in
    joined ++ take (max_path_length - 1 - length joined) element

-- The loop of base_name_get, from a place on.
unfoldable pub base_loop : List ℕ → List ℕ → List ℕ
base_loop base [] = base
base_loop base (c ∷ ptr) = base_loop (if c == 47 || c == 92 then ptr else base) ptr

unfoldable pub path_base_name_get : List ℕ → List ℕ
path_base_name_get path = base_loop path path

unfoldable pub path_is_absolute : List ℕ → Bool
path_is_absolute [] = false
path_is_absolute (c ∷ path) = c == 47

-- `canonicalize` is what the file system makes of a path, if anything.
unfoldable pub path_relative_to_absolute : (List ℕ → Option (List ℕ)) → List ℕ → List ℕ
path_relative_to_absolute canonicalize path =
    if path_is_absolute path
    then path
    else elim (canonicalize path) [ none ↦ path | some canonical_path ↦ path_create canonical_path ]

-- The loop that compares the boundary's characters with the candidate's.
unfoldable pub same_from : List ℕ → List ℕ → Bool
same_from [] candidate = true
same_from (b ∷ boundary) [] = false
same_from (b ∷ boundary) (c ∷ candidate) =
    let rest = same_from boundary candidate in if not (c == b) then false else rest

-- The comparison of two absolute paths.
unfoldable pub inside : List ℕ → List ℕ → Bool
inside candidate_absolute boundary_absolute =
    if ltb (length candidate_absolute) (length boundary_absolute)
    then false
    else if not (same_from boundary_absolute candidate_absolute)
    then false
    else if length candidate_absolute == length boundary_absolute
    then true
    else path_is_separator (get_or candidate_absolute (length boundary_absolute) 0)

unfoldable pub path_is_within_directory : (List ℕ → Option (List ℕ)) → List ℕ → List ℕ → Bool
path_is_within_directory canonicalize candidate boundary_directory =
    inside (path_relative_to_absolute canonicalize candidate)
      (path_relative_to_absolute canonicalize boundary_directory)

-- The loop that removes separators from the end.
unfoldable pub trim_separators : List ℕ → List ℕ
trim_separators [] = []
trim_separators (c ∷ cs) = elim (trim_separators cs) [
  | [] ↦ if path_is_separator c then [] else c ∷ []
  | r ∷ rest ↦ c ∷ r ∷ rest
]

-- The loop that looks for the last separator, from an index on.
unfoldable pub last_separator : ℕ → Option ℕ → List ℕ → Option ℕ
last_separator index last_index [] = last_index
last_separator index last_index (c ∷ cs) =
    last_separator (index + 1) (if path_is_separator c then some index else last_index) cs

-- ".".
abbrev pub dot : List ℕ
dot = 46 ∷ []

unfoldable pub parent_of : List ℕ → Option ℕ → List ℕ
parent_of result none = path_create dot
parent_of result (some index) = if index == 0 then take 1 result else take index result

unfoldable pub path_parent : List ℕ → List ℕ
path_parent path =
    let result = trim_separators path in
    if length result == 0 then path_create dot else parent_of result (last_separator 0 none result)

unfoldable pub exists_there : Option Bool → Bool
exists_there none = false
exists_there (some found) = found

-- The search upwards, with this many levels left; the test of a file's existence may fail.
unfoldable pub ancestor_loop : ℕ → (List ℕ → Option Bool) → List ℕ → List ℕ → Option (List ℕ)
ancestor_loop zero exists current marker_name = none
ancestor_loop (suc depth_remaining) exists current marker_name =
    let parent_path = path_parent current in
    let rest = ancestor_loop depth_remaining exists parent_path marker_name in
    if exists_there (exists (path_append current marker_name))
    then some current
    else if path_is_absolute current && leb (length current) 1
    then none
    else if length parent_path == length current
    then none
    else rest

unfoldable pub path_find_ancestor_with_marker :
    (List ℕ → Option (List ℕ)) → (List ℕ → Option Bool) → List ℕ → List ℕ → Option (List ℕ)
path_find_ancestor_with_marker canonicalize exists start_path marker_name =
    if length marker_name == 0
    then none
    else ancestor_loop 64 exists (path_relative_to_absolute canonicalize start_path) marker_name
