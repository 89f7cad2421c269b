-- ===== src/Strings/Truncate.antt =====
-- The bounded copy (src/n_strings.c, lines 619 to 646): what is kept of the source, and the destination.
use nexus_c.Base.{
  ℕ, zero, suc, ◌+◌, ◌-◌, ◌<◌, ◌≤◌, ◌≡◌, ◌≢◌, ◌∙◌, ap, sym, refl, true, false, if◌then◌else◌, leb,
  ◌==◌, update, List, [], ◌∷◌, length, take, get_or, Bool-cases, ◌⊎◌, inl, inr, arith, length-take,
}
use mathlib.Core.Path.{subst}
use nexus_c.Strings.Clip.{
  ascii_length, ascii_length_le, ascii_length_same, Clipped, clip_loop-Clipped,
}
use nexus_c.Strings.Copy.{
  FormatResult, result_create, string_length, characters_copy, clip_loop, clip_incomplete_tail,
  copy_with_truncation,
}

-- The characters of a string are bytes other than the terminator.
abbrev pub AllCharacters : List ℕ → Type 0
AllCharacters [] = Unit
AllCharacters (c ∷ cs) = (c ≢ 0) × (c < 256) × AllCharacters cs

characters_copy-outside :
    (dest : ℕ → ℕ) (at : ℕ) (cs : List ℕ) (i : ℕ)
    → (i < at) ⊎ (at + length cs ≤ i)
    → characters_copy dest at cs i ≡ dest i
unfolding characters_copy
characters_copy-outside dest at [] i h = refl
characters_copy-outside dest at (c ∷ cs) i h =
    characters_copy-outside (update dest at c) (at + 1) cs i (ground (arith, h)) ∙ ground (arith, h)

characters_copy-inside :
    (dest : ℕ → ℕ) (at : ℕ) (cs : List ℕ) (i : ℕ)
    → i < length cs
    → characters_copy dest at cs (at + i) ≡ get_or cs i 0
unfolding characters_copy
characters_copy-inside dest at [] i h = absurd (omega arith)
characters_copy-inside dest at (c ∷ cs) zero h =
    characters_copy-outside (update dest at c) (at + 1) cs (at + 0) (inl (omega arith))
    ∙ ground arith
characters_copy-inside dest at (c ∷ cs) (suc i) h =
    let e : at + suc i ≡ at + 1 + i = omega arith in
    ap (characters_copy (update dest at c) (at + 1) cs) e
    ∙ characters_copy-inside (update dest at c) (at + 1) cs i (omega arith)

-- A buffer that holds `n` characters and a terminator has this length.
string_length-ends :
    (fuel : ℕ) (buffer : ℕ → ℕ) (at n : ℕ)
    → n < fuel
    → ((i : ℕ) → i < n → buffer (at + i) ≢ 0)
    → buffer (at + n) ≡ 0
    → string_length fuel buffer at ≡ n
unfolding string_length
string_length-ends zero buffer at n h some ends = absurd (omega arith)
string_length-ends (suc fuel) buffer at zero h some ends =
    let e : at + 0 ≡ at = omega arith in
    let none : (buffer at == 0) ≡ true = ground (arith, subst (λ k. buffer k ≡ 0) e ends) in
    rw none refl
string_length-ends (suc fuel) buffer at (suc n) h some ends =
    let e : at + 0 ≡ at = omega arith in
    let more : (buffer at == 0) ≡ false =
      ground (arith, subst (λ k. buffer k ≢ 0) e (some 0 (omega arith))) in
    let next : (i : ℕ) → at + suc i ≡ at + 1 + i = λ i. omega arith in
    rw more (
      ap suc (
        string_length-ends fuel buffer (at + 1) n (omega arith)
          (λ i p. subst (λ k. buffer k ≢ 0) (next i) (some (suc i) (omega arith)))
          (subst (λ k. buffer k ≡ 0) (next n) ends)))

get_or-AllCharacters :
    (cs : List ℕ) (i : ℕ)
    → AllCharacters cs
    → i < length cs
    → (get_or cs i 0 ≢ 0) × (get_or cs i 0 < 256)
get_or-AllCharacters [] i h p = absurd (omega arith)
get_or-AllCharacters (c ∷ cs) zero h p = (h.0, h.1)
get_or-AllCharacters (c ∷ cs) (suc i) h p = get_or-AllCharacters cs i h.2 (omega arith)

pub get_or-take : (n : ℕ) (cs : List ℕ) (i : ℕ) → i < n → get_or (take n cs) i 0 ≡ get_or cs i 0
get_or-take zero cs i h = absurd (omega arith)
get_or-take (suc n) [] i h = refl
get_or-take (suc n) (c ∷ cs) zero h = refl
get_or-take (suc n) (c ∷ cs) (suc i) h = get_or-take n cs i (omega arith)

-- How many characters of a string a bounded copy keeps: all of them if they fit with a terminator,
-- else those that fit, less the bytes from 0x80 on at their end.
abbrev pub kept_length : ℕ → List ℕ → ℕ
kept_length max src =
    if leb max (length src) then ascii_length (λ i. get_or src i 0) (max - 1) else length src

-- The destination of a bounded copy, and its report.
pub record Copied (dest : ℕ → ℕ) (max : ℕ) (src : List ℕ) (after : ℕ → ℕ) (result : FormatResult)
    : Type 0 where
  pub kept : (i : ℕ) → i < kept_length max src → after i ≡ get_or src i 0
  pub ends : after (kept_length max src) ≡ 0
  pub beyond : (i : ℕ) → max ≤ i → after i ≡ dest i
  pub written : result.written_length ≡ kept_length max src
  pub required : result.required_length ≡ length src
  pub truncated : result.truncated ≡ leb max (length src)
  pub success : result.success ≡ true

-- A prefix of the source with a terminator.
copied_prefix :
    (dest : ℕ → ℕ) (src : List ℕ) (n i : ℕ)
    → n ≤ length src
    → i < n
    → update (characters_copy dest 0 (take n src)) n 0 i ≡ get_or src i 0
copied_prefix dest src n i le h =
    let e : 0 + i ≡ i = omega arith in
    let len = length-take n src in
    let inside =
      characters_copy-inside dest 0 (take n src) i (omega arith) ∙ get_or-take n src i h in
    ground (arith, subst (λ k. characters_copy dest 0 (take n src) k ≡ get_or src i 0) e inside)

copied_beyond :
    (dest : ℕ → ℕ) (src : List ℕ) (n i : ℕ)
    → n ≤ length src
    → n < i
    → update (characters_copy dest 0 (take n src)) n 0 i ≡ dest i
copied_beyond dest src n i le h =
    let len = length-take n src in
    ground (arith, characters_copy-outside dest 0 (take n src) i (inr (omega arith)))

module _ (dest : ℕ → ℕ) (max : ℕ) (src : List ℕ) (pos : 0 < max) (chars : AllCharacters src) where
  Copied-fits :
      leb max (length src) ≡ false
      → Copied dest max src
          (update (characters_copy dest 0 (take (length src) src)) (length src) 0)
          (result_create (length src) (length src) false true)
  unfolding result_create
  Copied-fits e = record {
    kept = λ i p. copied_prefix dest src (length src) i (omega arith) (ground (arith, p, e));
    ends = rw e (ground arith);
    beyond = λ i p. copied_beyond dest src (length src) i (omega arith) (ground (arith, e, p));
    written = rw e refl;
    required = refl;
    truncated = sym e;
    success = refl;
  }

  -- The copy of what fits, before it is clipped.
  abbrev cut : ℕ → ℕ
  cut = update (characters_copy dest 0 (take (max - 1) src)) (max - 1) 0

  module _ (e : leb max (length src) ≡ true) where
    cut_bytes : (i : ℕ) → i < max - 1 → cut i < 256
    cut_bytes i p =
        rw (copied_prefix dest src (max - 1) i (ground (arith, e)) p)
          (get_or-AllCharacters src i chars (ground (arith, e))).1

    cut_length : string_length max cut 0 ≡ max - 1
    cut_length =
        let le : max - 1 ≤ length src = ground (arith, e) in
        let at : (i : ℕ) → 0 + i ≡ i = λ i. omega arith in
        string_length-ends max cut 0 (max - 1) (omega (arith, pos))
          (λ i p.
            rw (at i, copied_prefix dest src (max - 1) i le p)
              (get_or-AllCharacters src i chars (omega arith)).0)
          (ground arith)

    Copied-Clipped :
        (after : ℕ → ℕ)
        → Clipped cut after (max - 1)
        → Copied dest max src after
            (result_create (string_length max after 0) (length src) true true)
    unfolding result_create
    Copied-Clipped after c =
        let le : max - 1 ≤ length src = ground (arith, e) in
        let text : ℕ → ℕ = λ i. get_or src i 0 in
        let same : ascii_length cut (max - 1) ≡ ascii_length text (max - 1) =
          ascii_length_same cut text (max - 1) (λ i p. copied_prefix dest src (max - 1) i le p) in
        let n : kept_length max src ≡ ascii_length cut (max - 1) = rw e (sym same) in
        let small = ascii_length_le cut (max - 1) in
        let kept : (i : ℕ) → i < ascii_length cut (max - 1) → after i ≡ get_or src i 0 =
          λ i p. c.kept i p ∙ copied_prefix dest src (max - 1) i le (omega (arith, small, p)) in
        let at : (i : ℕ) → 0 + i ≡ i = λ i. omega arith in
        record {
          kept = λ i p. kept i (omega (arith, n, p));
          ends = rw n c.ends;
          beyond = λ i p.
              c.beyond i (omega (arith, p))
              ∙ copied_beyond dest src (max - 1) i le (omega (arith, p, pos));
          written =
              string_length-ends max after 0 (ascii_length cut (max - 1))
                (omega (arith, small, pos))
                (λ i p.
                  rw (at i, kept i p)
                    (get_or-AllCharacters src i chars (omega (arith, small, p, le, pos))).0)
                (rw (at (ascii_length cut (max - 1))) c.ends)
              ∙ sym n;
          required = refl;
          truncated = sym e;
          success = refl;
        }

    Copied-clipped :
        Copied dest max src (clip_incomplete_tail max cut) (
          result_create (string_length max (clip_incomplete_tail max cut) 0) (length src) true true)
    unfolding result_create clip_incomplete_tail
    Copied-clipped =
        subst
          (λ after.
            Copied dest max src after
              (result_create (string_length max after 0) (length src) true true))
          (ap (λ n. clip_loop n cut n) (sym cut_length))
          (Copied-Clipped (clip_loop (max - 1) cut (max - 1))
            (clip_loop-Clipped (max - 1) cut (max - 1) (omega arith) cut_bytes (ground arith)))

-- For room for a terminator at least, the copy keeps what fits, ends it, reports it, and writes
-- nothing beyond its bound.
pub copy_with_truncation-Copied :
    (dest : ℕ → ℕ) (max : ℕ) (src : List ℕ)
    → 0 < max
    → AllCharacters src
    → Copied dest max src
        (copy_with_truncation dest max src).0
        (copy_with_truncation dest max src).1
unfolding copy_with_truncation result_create
copy_with_truncation-Copied dest max src pos chars = elim (Bool-cases (leb max (length src))) [
  | inl e ↦
      let run : copy_with_truncation dest max src ≡ (
        clip_incomplete_tail max (cut dest max src pos chars),
        result_create (string_length max (clip_incomplete_tail max (cut dest max src pos chars)) 0)
            (length src) true true,
      ) =
        rw (e, copy_with_truncation) refl in
      subst (λ r. Copied dest max src r.0 r.1) (sym run) (Copied-clipped dest max src pos chars e)
  | inr e ↦
      let run : copy_with_truncation dest max src ≡ (
        update (characters_copy dest 0 (take (length src) src)) (length src) 0,
        result_create (length src) (length src) false true,
      ) =
        rw (e, copy_with_truncation) refl in
      subst (λ r. Copied dest max src r.0 r.1) (sym run) (Copied-fits dest max src pos chars e)
]

pub kept_length_lt : (max : ℕ) (src : List ℕ) → 0 < max → kept_length max src < max
kept_length_lt max src pos = ground (arith, ascii_length_le (λ i. get_or src i 0) (max - 1))

pub kept_length_le : (max : ℕ) (src : List ℕ) → kept_length max src ≤ length src
kept_length_le max src = ground (arith, ascii_length_le (λ i. get_or src i 0) (max - 1))
