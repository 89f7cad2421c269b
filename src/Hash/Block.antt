-- ===== src/Hash/Block.antt =====
-- One block of SHA-1 (src/n_hash.c, lines 40 to 105): words of 32 bits, and 80 rounds on five of them.
use nexus_c.Base.{
  ℕ, zero, suc, ◌+◌, ◌*◌, ◌-◌, ◌^◌, List, [], ◌∷◌, if◌then◌else◌, ltb, get_or, bit_and, bit_or,
  bit_xor, u32, ◌<<<◌, ◌>>>◌,
}

-- The five words of `state`.
pub record State : Type 0 where
  pub a : ℕ
  pub b : ℕ
  pub c : ℕ
  pub d : ℕ
  pub e : ℕ

unfoldable pub rotate_left : ℕ → ℕ → ℕ
rotate_left value amount = bit_or (u32 (value <<< amount)) (value >>> (32 - amount))

unfoldable pub uint32_be_read : (ℕ → ℕ) → ℕ → ℕ
uint32_be_read bytes at =
    bit_or (bit_or (bit_or (bytes at <<< 24) (bytes (at + 1) <<< 16)) (bytes (at + 2) <<< 8))
      (bytes (at + 3))

-- The words of the block, the last one first, and the further ones before them.
unfoldable pub block_words : ℕ → (ℕ → ℕ) → List ℕ
block_words zero block = []
block_words (suc n) block = uint32_be_read block (n * 4) ∷ block_words n block

unfoldable pub next_word : List ℕ → ℕ
next_word ws =
    rotate_left
      (bit_xor (bit_xor (bit_xor (get_or ws 2 0) (get_or ws 7 0)) (get_or ws 13 0))
        (get_or ws 15 0))
      1

unfoldable pub more_words : ℕ → List ℕ → List ℕ
more_words zero ws = ws
more_words (suc n) ws = more_words n (next_word ws ∷ ws)

-- `~` on 32 bits.
abbrev bit_not : ℕ → ℕ
bit_not x = 2 ^ 32 - 1 - x

unfoldable pub round_function : ℕ → State → ℕ
round_function i s =
    if ltb i 20
    then bit_or (bit_and s.b s.c) (bit_and (bit_not s.b) s.d)
    else if ltb i 40
    then bit_xor (bit_xor s.b s.c) s.d
    else if ltb i 60
    then bit_or (bit_or (bit_and s.b s.c) (bit_and s.b s.d)) (bit_and s.c s.d)
    else bit_xor (bit_xor s.b s.c) s.d

unfoldable pub round_constant : ℕ → ℕ
round_constant i =
    if ltb i 20
    then 1518500249
    else if ltb i 40
    then 1859775393
    else if ltb i 60
    then 2400959708
    else 3395469782

unfoldable pub round : ℕ → ℕ → State → State
round i word s = record {
  a =
      u32
        (u32 (u32 (u32 (rotate_left s.a 5 + round_function i s) + s.e) + round_constant i) + word);
  b = s.a;
  c = rotate_left s.b 30;
  d = s.c;
  e = s.d;
}

-- The rounds from `i` on, with `n` left; the word of a round stands at 79 - i from the last one.
unfoldable pub rounds : ℕ → ℕ → List ℕ → State → State
rounds zero i ws s = s
rounds (suc n) i ws s = rounds n (i + 1) ws (round i (get_or ws (79 - i) 0) s)

unfoldable pub block_process : State → (ℕ → ℕ) → State
block_process state block =
    let s = rounds 80 0 (more_words 64 (block_words 16 block)) state in
    record {
      a = u32 (state.a + s.a);
      b = u32 (state.b + s.b);
      c = u32 (state.c + s.c);
      d = u32 (state.d + s.d);
      e = u32 (state.e + s.e);
    }
