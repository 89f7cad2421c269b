-- ===== src/Strings/Writer.antt =====
-- The bounded writer of strings (src/n_strings.c, lines 520 to 553), and the text that it holds.
use nexus_c.Base.{
  ℕ, zero, suc, ◌+◌, ◌-◌, ◌<◌, ◌≤◌, ◌≡◌, ◌∙◌, ap, sym, refl, Bool, true, false, ◌||◌, if◌then◌else◌,
  ltb, leb, ltb→lt, List, [], ◌∷◌, ◌++◌, length, take, get_or, Bool-cases, inl, inr, arith,
  length-append, length-take,
}
use mathlib.Core.Path.{subst}
use nexus_c.Strings.Copy.{
  copy_with_truncation, pointer, written_at, Writer, writer_initialize, writer_string_append,
}
use nexus_c.Strings.Truncate.{
  AllCharacters, copy_with_truncation-Copied, kept_length, kept_length_lt, kept_length_le,
  get_or-take,
}

get_or-append_left :
    (xs ys : List ℕ) (i : ℕ) → i < length xs → get_or (xs ++ ys) i 0 ≡ get_or xs i 0
get_or-append_left [] ys i h = absurd (omega arith)
get_or-append_left (x ∷ xs) ys zero h = refl
get_or-append_left (x ∷ xs) ys (suc i) h = get_or-append_left xs ys i (omega arith)

get_or-append_right : (xs ys : List ℕ) (i : ℕ) → get_or (xs ++ ys) (length xs + i) 0 ≡ get_or ys i 0
get_or-append_right [] ys i = let e : 0 + i ≡ i = omega arith in ap (λ k. get_or ys k 0) e
get_or-append_right (x ∷ xs) ys i =
    let e : suc (length xs) + i ≡ suc (length xs + i) = omega arith in
    ap (λ k. get_or (x ∷ (xs ++ ys)) k 0) e ∙ get_or-append_right xs ys i

if_true : (a b : Bool) → (if a then true else b) ≡ (a || b)
if_true true b = refl
if_true false b = refl

written_left :
    (buffer target : ℕ → ℕ) (at i : ℕ) → i < at → written_at buffer at target i ≡ buffer i
written_left buffer target at i h = ground (arith, h)

written_right : (buffer target : ℕ → ℕ) (at j : ℕ) → written_at buffer at target (at + j) ≡ target j
written_right buffer target at j =
    let e : ltb (at + j) at ≡ false = ground arith in
    let e' : at + j - at ≡ j = omega arith in rw e (ap target e')

-- The buffer holds this text and a terminator, within the capacity.
pub record Holds (w : Writer) (text : List ℕ) : Type 0 where
  pub size : w.length ≡ length text
  pub room : w.length < w.capacity
  pub kept : (i : ℕ) → i < length text → w.buffer i ≡ get_or text i 0
  pub ends : w.buffer w.length ≡ 0

-- The text after an append: what fits of the string follows the text.
abbrev pub appended : Writer → List ℕ → List ℕ → List ℕ
appended w text string = text ++ take (kept_length (w.capacity - w.length) string) string

-- An append, on a writer that holds a text.
pub record Appends (w : Writer) (text string : List ℕ) (after : Writer) : Type 0 where
  pub holds : Holds after (appended w text string)
  pub capacity : after.capacity ≡ w.capacity
  pub beyond : (i : ℕ) → w.capacity ≤ i → after.buffer i ≡ w.buffer i
  pub truncated : after.truncated ≡ (leb (w.capacity - w.length) (length string) || w.truncated)

-- An initialized writer holds the empty text, if it has a capacity.
pub writer_initialize-Holds :
    (buffer : ℕ → ℕ) (capacity : ℕ) → 0 < capacity → Holds (writer_initialize buffer capacity) []
unfolding writer_initialize
writer_initialize-Holds buffer capacity pos =
    let c = copy_with_truncation-Copied buffer capacity [] pos tt in
    let none : kept_length capacity [] ≡ 0 = ground (arith, pos) in
    record {
      size = refl;
      room = pos;
      kept = λ i p. absurd (omega arith);
      ends = subst (λ k. (copy_with_truncation buffer capacity []).0 k ≡ 0) none c.ends;
    }

-- An append of characters to a writer that holds a text: the writer then holds the text followed by
-- the part of the string that fits, nothing beyond the capacity is written, and the flag tells whether
-- anything was ever cut off.
pub writer_string_append-Appends :
    (w : Writer) (text string : List ℕ)
    → Holds w text
    → AllCharacters string
    → Appends w text string (writer_string_append w string).0
unfolding writer_string_append
writer_string_append-Appends w text string h chars =
    let max = w.capacity - w.length in
    let c =
      copy_with_truncation-Copied (pointer w.buffer w.length) max string (omega (arith, h.room))
        chars in
    let target = (copy_with_truncation (pointer w.buffer w.length) max string).0 in
    let n = kept_length max string in
    let small = kept_length_lt max string (omega (arith, h.room)) in
    let inside = kept_length_le max string in
    let len = length-take n string in
    let total = length-append text (take n string) in
    record {
      holds = record {
        size = omega (arith, c.written, h.size, len, total, inside);
        room = omega (arith, c.written, small, h.room);
        kept = λ i p. elim (Bool-cases (ltb i w.length)) [
          | inl before ↦
              let q = ltb→lt _ _ before in
              written_left w.buffer target w.length i q
              ∙ h.kept i (omega (arith, h.size))
              ∙ sym (get_or-append_left text (take n string) i (omega (arith, h.size)))
          | inr after ↦
              let j = i - w.length in
              let q : w.length ≤ i = ground (arith, after) in
              let e : w.length + j ≡ i = omega arith in
              let e' : length text + j ≡ i = omega (arith, h.size) in
              let more : j < n = omega (arith, p, len, total, inside, h.size) in
              ap (written_at w.buffer w.length target) (sym e)
              ∙ written_right w.buffer target w.length j
              ∙ c.kept j more
              ∙ sym (get_or-take n string j more)
              ∙ sym (get_or-append_right text (take n string) j)
              ∙ ap (λ k. get_or (text ++ take n string) k 0) e'
        ];
        ends =
            ap (λ k. written_at w.buffer w.length target (w.length + k)) c.written
            ∙ written_right w.buffer target w.length n
            ∙ c.ends;
      };
      capacity = refl;
      beyond = λ i p.
          let j = i - w.length in
          let e : w.length + j ≡ i = omega (arith, h.room) in
          ap (written_at w.buffer w.length target) (sym e)
          ∙ written_right w.buffer target w.length j
          ∙ c.beyond j (omega (arith, p))
          ∙ ap w.buffer e;
      truncated = rw c.truncated (if_true (leb max (length string)) w.truncated);
    }
