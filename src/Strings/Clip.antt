-- ===== src/Strings/Clip.antt =====
-- What the clipping of a truncated string keeps.
use nexus_c.Base.{
  ℕ, zero, suc, ◌<◌, ◌≤◌, ◌≡◌, ◌∙◌, ap, sym, refl, true, false, if◌then◌else◌, ltb, ◌==◌, bit_and,
  update, Bool-cases, ◌⊎◌, inl, inr, arith,
}
use mathlib.Core.Path.{subst}
use nexus_c.Base.Bits.{bit_and_field}
use nexus_c.Strings.Copy.{lead_index_loop, expected_bytes, clip_loop}

-- The length of a text without the bytes from 0x80 on at its end.
abbrev pub ascii_length : (ℕ → ℕ) → ℕ → ℕ
ascii_length text zero = 0
ascii_length text (suc n) = if ltb (text n) 0x80 then suc n else ascii_length text n

is_continuation : (b : ℕ) → b < 256 → (bit_and b 0xC0 == 0x80) ≡ true → (128 ≤ b) × (b < 192)
is_continuation b h e =
    let field = bit_and_field 6 2 b in (ground (arith, field), ground (arith, field))

expected_none : (b : ℕ) → 128 ≤ b → b < 192 → expected_bytes b ≡ 0
unfolding expected_bytes
expected_none b p q =
    let e0 : (bit_and b 0xE0 == 0xC0) ≡ false = ground (arith, bit_and_field 5 3 b) in
    let f0 : (bit_and b 0xF0 == 0xE0) ≡ false = ground (arith, bit_and_field 4 4 b) in
    let f8 : (bit_and b 0xF8 == 0xF0) ≡ false = ground (arith, bit_and_field 3 5 b) in
    rw (e0, f0, f8) refl

pub ascii_length_le : (text : ℕ → ℕ) (n : ℕ) → ascii_length text n ≤ n
ascii_length_le text zero = omega arith
ascii_length_le text (suc n) = ground (arith, ascii_length_le text n)

-- Only the text before the length counts.
pub ascii_length_same :
    (text other : ℕ → ℕ) (n : ℕ)
    → ((i : ℕ) → i < n → text i ≡ other i)
    → ascii_length text n ≡ ascii_length other n
ascii_length_same text other zero h = refl
ascii_length_same text other (suc n) h =
    rw (h n (omega arith), ascii_length_same text other n (λ i p. h i (omega arith))) refl

lt_suc-cases : (i n : ℕ) → i < suc n → (i < n) ⊎ (i ≡ n)
lt_suc-cases i n h = ground arith

-- The bytes between the lead index and the end are continuations.
record Run (text : ℕ → ℕ) (n k : ℕ) : Type 0 where
  inside : k ≤ n
  continued : (i : ℕ) → k ≤ i → i < n → (128 ≤ text i) × (text i < 192)

lead_index_loop-Run :
    (text : ℕ → ℕ) (n : ℕ) → ((i : ℕ) → i < n → text i < 256) → Run text n (lead_index_loop text n)
unfolding lead_index_loop
lead_index_loop-Run text zero h = record {
  inside = omega arith;
  continued = λ i p q. absurd (omega arith);
}
lead_index_loop-Run text (suc n) h = elim (Bool-cases (bit_and (text n) 0xC0 == 0x80)) [
  | inl e ↦
      let r = lead_index_loop-Run text n (λ i p. h i (omega arith)) in
      let here = is_continuation (text n) (h n (omega arith)) e in
      rw e (record {
        inside = omega (arith, r.inside);
        continued = λ i p q. elim (lt_suc-cases i n q) [
          | inl before ↦ r.continued i p before
          | inr last ↦ rw last here
        ];
      })
  | inr e ↦ rw e (record { inside = omega arith; continued = λ i p q. absurd (omega arith) })
]

ascii_length-Run :
    (text : ℕ → ℕ) (n k : ℕ) → Run text n k → ascii_length text n ≡ ascii_length text k
ascii_length-Run text zero k r = let e : 0 ≡ k = omega (arith, r.inside) in ap (ascii_length text) e
ascii_length-Run text (suc n) k r = elim (lt_suc-cases k (suc n) (omega (arith, r.inside))) [
  | inr e ↦ ap (ascii_length text) (sym e)
  | inl before ↦
      let large : ltb (text n) 0x80 ≡ false =
        ground (arith, (r.continued n (omega arith) (omega arith)).0) in
      rw large (
        ascii_length-Run text n k
          (record { inside = omega arith; continued = λ i p q. r.continued i p (omega arith) }))
]

-- The string up to its new length, a terminator there, and nothing changed from the old length on.
pub record Clipped (text after : ℕ → ℕ) (n : ℕ) : Type 0 where
  pub kept : (i : ℕ) → i < ascii_length text n → after i ≡ text i
  pub ends : after (ascii_length text n) ≡ 0
  pub beyond : (i : ℕ) → n ≤ i → after i ≡ text i

-- A text that is already cut at `k`, with nothing of ASCII behind, clipped from there.
Clipped-cut :
    (text after : ℕ → ℕ) (n k : ℕ)
    → k < n
    → ascii_length text n ≡ ascii_length text k
    → Clipped (update text k 0) after k
    → Clipped text after n
Clipped-cut text after n k below same c =
    let e : ascii_length (update text k 0) k ≡ ascii_length text n =
      ascii_length_same (update text k 0) text k (λ i p. ground arith) ∙ sym same in
    let small = ascii_length_le text k in
    record {
      kept = λ i p. ground (arith, c.kept i, e, same, small);
      ends = subst (λ m. after m ≡ 0) e c.ends;
      beyond = λ i p. ground (arith, c.beyond i);
    }

Clipped-whole : (text : ℕ → ℕ) (n : ℕ) → ascii_length text n ≡ n → text n ≡ 0 → Clipped text text n
Clipped-whole text n e ends = record { kept = λ i p. refl; ends = rw e ends; beyond = λ i p. refl }

-- The loop keeps the string up to the last byte below 0x80, if it has as many rounds as there are
-- characters.
pub clip_loop-Clipped :
    (fuel : ℕ) (text : ℕ → ℕ) (n : ℕ)
    → n ≤ fuel
    → ((i : ℕ) → i < n → text i < 256)
    → text n ≡ 0
    → Clipped text (clip_loop fuel text n) n
unfolding clip_loop
clip_loop-Clipped zero text n le bytes ends =
    Clipped-whole text n (omega (arith, le, ascii_length_le text n)) ends
clip_loop-Clipped (suc fuel) text zero le bytes ends = Clipped-whole text 0 refl ends
clip_loop-Clipped (suc fuel) text (suc n) le bytes ends =
    let r = lead_index_loop-Run text (suc n) bytes in
    elim (Bool-cases (lead_index_loop text (suc n) == suc n)) [
      | inl e ↦ elim (Bool-cases (ltb (text n) 0x80)) [
        | inl ascii ↦ rw (e, ascii) (Clipped-whole text (suc n) (rw ascii refl) ends)
        | inr high ↦
            rw (e, high)
              (Clipped-cut text (clip_loop fuel (update text n 0) n) (suc n) n (omega arith)
                (rw high refl)
                (clip_loop-Clipped fuel (update text n 0) n (omega arith)
                  (λ i p. ground (arith, bytes i, p)) (ground arith)))
      ]
      | inr e ↦
          let k = lead_index_loop text (suc n) in
          let below : k < suc n = ground (arith, e, r.inside) in
          let here = r.continued k (omega arith) below in
          let none = expected_none (text k) here.0 here.1 in
          rw (e, none)
            (Clipped-cut text (clip_loop fuel (update text k 0) k) (suc n) k below
              (ascii_length-Run text (suc n) k r)
              (clip_loop-Clipped fuel (update text k 0) k (omega (arith, below, le))
                (λ i p. ground (arith, bytes i, p, below)) (ground arith)))
    ]
