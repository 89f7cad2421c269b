-- ===== src/Identity/Trim.antt =====
-- White space around the text of a UUID.
use nexus_c.Base.{ℕ, ◌≡◌, ◌∙◌, ap, refl, true, false, List, [], ◌∷◌, ◌++◌}
use nexus_c.Identity.Text.{ascii_whitespace_get, trim_front, trim_back}

abbrev pub AllWhite : List ℕ → Type 0
AllWhite [] = Unit
AllWhite (c ∷ cs) = (ascii_whitespace_get c ≡ true) × AllWhite cs

abbrev pub AllInk : List ℕ → Type 0
AllInk [] = Unit
AllInk (c ∷ cs) = (ascii_whitespace_get c ≡ false) × AllInk cs

trim_front-append : (front cs : List ℕ) → AllWhite front → trim_front (front ++ cs) ≡ trim_front cs
unfolding trim_front
trim_front-append [] cs h = refl
trim_front-append (c ∷ front) cs (p, h) = let rest = trim_front-append front cs h in rw p rest

trim_back-white : (back : List ℕ) → AllWhite back → trim_back back ≡ []
unfolding trim_back
trim_back-white [] h = refl
trim_back-white (c ∷ back) (p, h) = let rest = trim_back-white back h in rw (rest, p) refl

trim_back-append : (cs back : List ℕ) → AllInk cs → AllWhite back → trim_back (cs ++ back) ≡ cs
unfolding trim_back
trim_back-append [] back k h = trim_back-white back h
trim_back-append (c ∷ []) back (p, k) h = let rest = trim_back-white back h in rw (rest, p) refl
trim_back-append (c ∷ d ∷ cs) back (p, k) h =
    let rest = trim_back-append (d ∷ cs) back k h in rw rest refl

trim_front-white : (back : List ℕ) → AllWhite back → trim_front back ≡ []
unfolding trim_front
trim_front-white [] h = refl
trim_front-white (c ∷ back) (p, h) = let rest = trim_front-white back h in rw p rest

trimmed_ink :
    (cs back : List ℕ) → AllInk cs → AllWhite back → trim_back (trim_front (cs ++ back)) ≡ cs
unfolding trim_front
trimmed_ink [] back k h = ap trim_back (trim_front-white back h) ∙ trim_back-white [] tt
trimmed_ink (c ∷ cs) back (p, k) h = rw p (trim_back-append (c ∷ cs) back (p, k) h)

-- Text without white space is what is left of it between white space.
pub trimmed :
    (front cs back : List ℕ)
    → AllWhite front
    → AllInk cs
    → AllWhite back
    → trim_back (trim_front (front ++ (cs ++ back))) ≡ cs
trimmed front cs back hf k hb =
    ap trim_back (trim_front-append front (cs ++ back) hf) ∙ trimmed_ink cs back k hb
