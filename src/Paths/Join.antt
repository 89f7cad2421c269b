-- ===== src/Paths/Join.antt =====
-- Joining a path and an element, and taking the result apart again.
use nexus_c.Base.{
  ℕ, zero, suc, ◌+◌, ◌-◌, ◌<◌, ◌≤◌, ◌≡◌, ◌≢◌, ◌∙◌, ap, refl, true, false, ◌||◌, Option, none, some,
  List, [], ◌∷◌, ◌++◌, if◌then◌else◌, ◌==◌, take, length, length-append, append_assoc, replicate,
  arith,
}
use nexus_c.Paths.{
  path_is_separator, max_path_length, path_create, wants_separator, path_append, base_loop,
  path_base_name_get, trim_separators, last_separator, dot, parent_of, path_parent,
}

-- Neither '/' nor '\\'.
abbrev pub IsPlain : ℕ → Type 0
IsPlain c = (c ≢ 47) × (c ≢ 92)

abbrev pub AllPlain : List ℕ → Type 0
AllPlain [] = Unit
AllPlain (c ∷ cs) = IsPlain c × AllPlain cs

wants_separator-last : (ps : List ℕ) (c : ℕ) → IsPlain c → wants_separator (ps ++ c ∷ []) ≡ true
unfolding wants_separator
wants_separator-last [] c (p, q) = ground (arith, p, q)
wants_separator-last (a ∷ []) c h = wants_separator-last [] c h
wants_separator-last (a ∷ b ∷ ps) c h = wants_separator-last (b ∷ ps) c h

take_all : (n : ℕ) (xs : List ℕ) → length xs ≤ n → take n xs ≡ xs
take_all zero [] h = refl
take_all zero (x ∷ xs) h = absurd (omega arith)
take_all (suc n) [] h = refl
take_all (suc n) (x ∷ xs) h = ap (◌∷◌ x) (take_all n xs (omega arith))

take-append : (xs ys : List ℕ) → take (length xs) (xs ++ ys) ≡ xs
take-append [] ys = refl
take-append (x ∷ xs) ys = ap (◌∷◌ x) (take-append xs ys)

base_loop-plain : (base e : List ℕ) → AllPlain e → base_loop base e ≡ base
unfolding base_loop
base_loop-plain base [] h = refl
base_loop-plain base (c ∷ e) ((p, q), h) =
    let t : (c == 47 || c == 92) ≡ false = ground (arith, p, q) in
    let rest : base_loop base e ≡ base = base_loop-plain base e h in rw t rest

base_loop-append : (base xs e : List ℕ) → AllPlain e → base_loop base (xs ++ 47 ∷ e) ≡ e
unfolding base_loop
base_loop-append base [] e h = base_loop-plain e e h
base_loop-append base (x ∷ xs) e h =
    base_loop-append (if x == 47 || x == 92 then xs ++ 47 ∷ e else base) xs e h

trim_separators-plain : (e : List ℕ) → AllPlain e → trim_separators e ≡ e
unfolding trim_separators path_is_separator
trim_separators-plain [] h = refl
trim_separators-plain (c ∷ []) ((p, q), h) =
    let t : (c == 47) ≡ false = ground (arith, p) in rw t refl
trim_separators-plain (c ∷ d ∷ e) (p, h) =
    let rest : trim_separators (d ∷ e) ≡ d ∷ e = trim_separators-plain (d ∷ e) h in rw rest refl

trim_separators-append :
    (xs : List ℕ) (y : ℕ) (ys : List ℕ)
    → trim_separators (y ∷ ys) ≡ y ∷ ys
    → trim_separators (xs ++ y ∷ ys) ≡ xs ++ y ∷ ys
unfolding trim_separators
trim_separators-append [] y ys h = h
trim_separators-append (x ∷ []) y ys h = rw (h, trim_separators) refl
trim_separators-append (x ∷ a ∷ xs) y ys h =
    let rest : trim_separators (a ∷ (xs ++ y ∷ ys)) ≡ a ∷ (xs ++ y ∷ ys) =
      trim_separators-append (a ∷ xs) y ys h in
    rw (rest, trim_separators) refl

last_separator-plain :
    (i : ℕ) (last : Option ℕ) (e : List ℕ) → AllPlain e → last_separator i last e ≡ last
unfolding last_separator path_is_separator
last_separator-plain i last [] h = refl
last_separator-plain i last (c ∷ e) ((p, q), h) =
    let t : (c == 47) ≡ false = ground (arith, p) in
    let rest : last_separator (i + 1) last e ≡ last = last_separator-plain (i + 1) last e h in
    rw t rest

last_separator-append :
    (i : ℕ) (last : Option ℕ) (xs e : List ℕ)
    → AllPlain e
    → last_separator i last (xs ++ 47 ∷ e) ≡ some (i + length xs)
unfolding last_separator path_is_separator
last_separator-append i last [] e h =
    last_separator-plain (i + 1) (some i) e h ∙ ap some (omega arith)
last_separator-append i last (x ∷ xs) e h =
    last_separator-append (i + 1) (if x == 47 then some i else last) xs e h ∙ ap some (omega arith)

separators_trimmed : (n : ℕ) → trim_separators (replicate n 47) ≡ []
unfolding trim_separators path_is_separator
separators_trimmed zero = refl
separators_trimmed (suc n) =
    let rest : trim_separators (replicate n 47) ≡ [] = separators_trimmed n in rw rest refl

path_parent-separators : (n : ℕ) → path_parent (replicate (suc n) 47) ≡ dot
unfolding path_parent path_create
path_parent-separators n = rw (separators_trimmed (suc n)) refl

joined :
    (ps : List ℕ) (c : ℕ) (e : List ℕ)
    → IsPlain c
    → length (ps ++ c ∷ []) + 1 + length e < max_path_length
    → path_append (ps ++ c ∷ []) e ≡ (ps ++ c ∷ []) ++ 47 ∷ e
unfolding path_append
joined ps c e h room =
    let p = ps ++ c ∷ [] in
    let wants = wants_separator-last ps c h in
    let n = length-append p (47 ∷ []) in
    let whole : take (1023 - length (p ++ 47 ∷ [])) e ≡ e =
      take_all (1023 - length (p ++ 47 ∷ [])) e (omega (arith, n, room)) in
    rw wants (ap (λ t. (p ++ 47 ∷ []) ++ t) whole ∙ append_assoc p (47 ∷ []) e)

path_parent-joined :
    (p e : List ℕ) (d : ℕ) → 0 < length p → AllPlain (d ∷ e) → path_parent (p ++ 47 ∷ d ∷ e) ≡ p
unfolding path_parent parent_of
path_parent-joined p e d full h =
    let whole = p ++ 47 ∷ d ∷ e in
    let kept : trim_separators whole ≡ whole =
      trim_separators-append p 47 (d ∷ e)
        (trim_separators-append (47 ∷ []) d e (trim_separators-plain (d ∷ e) h)) in
    let n = length-append p (47 ∷ d ∷ e) in
    let some_text : (length whole == 0) ≡ false = ground (arith, n) in
    let last : last_separator 0 none whole ≡ some (length p) =
      last_separator-append 0 none p (d ∷ e) h ∙ ap some (omega arith) in
    let k : (length p == 0) ≡ false = ground (arith, full) in
    let cut : parent_of whole (some (length p)) ≡ p =
      rw (parent_of, k) (take-append p (47 ∷ d ∷ e)) in
    rw (kept, some_text) (ap (parent_of whole) last ∙ cut)

-- A path that ends with neither separator, and an element that is not empty and has none of them: if
-- they fit with a '/' between them, appending joins them with it, the base name of the result is the
-- element and its parent the path. The parent of any number of separators alone is ".".
pub path_append-joins :
    (ps : List ℕ) (c d : ℕ) (e : List ℕ) (n : ℕ)
    → IsPlain c
    → AllPlain (d ∷ e)
    → length (ps ++ c ∷ []) + 1 + length (d ∷ e) < max_path_length
    → (path_append (ps ++ c ∷ []) (d ∷ e) ≡ (ps ++ c ∷ []) ++ 47 ∷ d ∷ e)
      × (path_base_name_get (path_append (ps ++ c ∷ []) (d ∷ e)) ≡ d ∷ e)
      × (path_parent (path_append (ps ++ c ∷ []) (d ∷ e)) ≡ ps ++ c ∷ [])
      × (path_parent (replicate (suc n) 47) ≡ dot)
unfolding path_base_name_get
path_append-joins ps c d e n hc h room =
    let p = ps ++ c ∷ [] in
    let join = joined ps c (d ∷ e) hc room in
    (
      join,
      ap path_base_name_get join ∙ base_loop-append (p ++ 47 ∷ d ∷ e) p (d ∷ e) h,
      ap path_parent join ∙ path_parent-joined p e d (omega (arith, length-append ps (c ∷ []))) h,
      path_parent-separators n,
    )
