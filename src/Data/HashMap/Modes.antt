-- ===== src/Data/HashMap/Modes.antt =====
-- The hash modes of `nexus_data_hashmap_hash_get` and of the key comparison in the probe
-- (src/n_data.c, lines 65 to 69 and 124 to 143). A key in the table is its bytes; in the indirect
-- mode it is the struct `NexusHashMapIndirectKey` (nexus.h, lines 5803 to 5807), with the bytes
-- that its pointer leads to.
use nexus_c.Base.{
  ℕ, zero, suc, ◌+◌, ◌*◌, ◌≡◌, refl, ap, sym, ◌∙◌, Bool, true, false, ◌&&◌, List, [], ◌∷◌, arith,
  ◌==◌, take,
}
use mathlib.Core.Path.{subst}
use nexus_c.Data.HashMap.Table.{KeyOps}

-- `nexus_memory_bytes_compare` of two runs of bytes of one length, tested against 0.
unfoldable pub bytes_equal : List ℕ → List ℕ → Bool
bytes_equal [] [] = true
bytes_equal [] (b ∷ bs) = false
bytes_equal (x ∷ xs) [] = false
bytes_equal (x ∷ xs) (b ∷ bs) = (x == b) && bytes_equal xs bs

pub bytes_equal-eq : (xs ys : List ℕ) → bytes_equal xs ys ≡ true → xs ≡ ys
unfolding bytes_equal
bytes_equal-eq [] [] h = refl
bytes_equal-eq [] (y ∷ ys) h = absurd (ground arith)
bytes_equal-eq (x ∷ xs) [] h = absurd (ground arith)
bytes_equal-eq (x ∷ xs) (y ∷ ys) h = ground (arith, bytes_equal-eq xs ys)

pub bytes_equal_refl : (xs : List ℕ) → bytes_equal xs xs ≡ true
unfolding bytes_equal
bytes_equal_refl [] = refl
bytes_equal_refl (x ∷ xs) = ground (arith, bytes_equal_refl xs)

pub bytes_equal_symm : (xs ys : List ℕ) → bytes_equal xs ys ≡ bytes_equal ys xs
unfolding bytes_equal
bytes_equal_symm [] [] = refl
bytes_equal_symm [] (y ∷ ys) = refl
bytes_equal_symm (x ∷ xs) [] = refl
bytes_equal_symm (x ∷ xs) (y ∷ ys) = ground (arith, bytes_equal_symm xs ys)

pub bytes_equal_trans :
    (xs ys zs : List ℕ)
    → bytes_equal xs ys ≡ true
    → bytes_equal ys zs ≡ true
    → bytes_equal xs zs ≡ true
bytes_equal_trans xs ys zs p q = let e = bytes_equal-eq xs ys p in rw e q

-- NHMHM_DEFAULT: the hash is XXH3 of the bytes, a function of another library.
abbrev pub default_key : (List ℕ → ℕ → ℕ) → ℕ → KeyOps (List ℕ)
default_key xxh3 hash_seed = record {
  hash = λ key. xxh3 key hash_seed;
  same = bytes_equal;
  same_refl = bytes_equal_refl;
  same_symm = bytes_equal_symm;
  same_trans = bytes_equal_trans;
  hash-same = λ a b h. ap (λ k. xxh3 k hash_seed) (bytes_equal-eq a b h);
}

-- The 64-bit word at the start of a key, on a little-endian machine.
unfoldable pub first_word : ℕ → List ℕ → ℕ
first_word zero bytes = 0
first_word (suc n) [] = 0
first_word (suc n) (b ∷ bytes) = b + 256 * first_word n bytes

-- NHMHM_PREHASHED: the hash is the first word of the key.
abbrev pub prehashed_key : KeyOps (List ℕ)
prehashed_key = record {
  hash = first_word 8;
  same = bytes_equal;
  same_refl = bytes_equal_refl;
  same_symm = bytes_equal_symm;
  same_trans = bytes_equal_trans;
  hash-same = λ a b h. ap (first_word 8) (bytes_equal-eq a b h);
}

pub record IndirectKey : Type 0 where
  pub hash : ℕ
  pub size_bytes : ℕ
  pub content : List ℕ

abbrev pub key_bytes : IndirectKey → List ℕ
key_bytes k = take k.size_bytes k.content

-- The caller computes the hashes of its keys from their bytes by some function of its own.
abbrev pub HashedKey : (List ℕ → ℕ) → Type 0
HashedKey digest = (k : IndirectKey) × (k.hash ≡ digest (key_bytes k))

unfoldable pub same_indirect : IndirectKey → IndirectKey → Bool
same_indirect stored sought =
    (stored.size_bytes == sought.size_bytes)
    && bytes_equal (take stored.size_bytes stored.content) (take stored.size_bytes sought.content)

same_indirect-eq :
    (a b : IndirectKey)
    → same_indirect a b ≡ true
    → (a.size_bytes ≡ b.size_bytes) × (key_bytes a ≡ key_bytes b)
unfolding same_indirect
same_indirect-eq a b h =
    let sizes : a.size_bytes ≡ b.size_bytes = ground arith in
    let bytes : bytes_equal (key_bytes a) (take a.size_bytes b.content) ≡ true = ground arith in
    (
      sizes,
      bytes_equal-eq (key_bytes a) (take a.size_bytes b.content) bytes
          ∙ ap (λ n. take n b.content) sizes,
    )

same_indirect-of_eq :
    (a b : IndirectKey)
    → a.size_bytes ≡ b.size_bytes
    → key_bytes a ≡ key_bytes b
    → same_indirect a b ≡ true
unfolding same_indirect
same_indirect-of_eq a b sizes bytes =
    let e = bytes ∙ ap (λ n. take n b.content) (sym sizes) in
    let same_bytes =
      subst (λ ys. bytes_equal (key_bytes a) ys ≡ true) e (bytes_equal_refl (key_bytes a)) in
    ground arith

pub same_indirect_refl : (a : IndirectKey) → same_indirect a a ≡ true
same_indirect_refl a = same_indirect-of_eq a a refl refl

same_indirect_flip : (a b : IndirectKey) → same_indirect a b ≡ true → same_indirect b a ≡ true
same_indirect_flip a b h =
    let (sizes, bytes) = same_indirect-eq a b h in same_indirect-of_eq b a (sym sizes) (sym bytes)

pub same_indirect_symm : (a b : IndirectKey) → same_indirect a b ≡ same_indirect b a
same_indirect_symm a b = ground (arith, same_indirect_flip a b, same_indirect_flip b a)

pub same_indirect_trans :
    (a b c : IndirectKey)
    → same_indirect a b ≡ true
    → same_indirect b c ≡ true
    → same_indirect a c ≡ true
same_indirect_trans a b c p q =
    let (sizes, bytes) = same_indirect-eq a b p in
    let (sizes', bytes') = same_indirect-eq b c q in
    same_indirect-of_eq a c (sizes ∙ sizes') (bytes ∙ bytes')

pub hash-same_indirect :
    (digest : List ℕ → ℕ) (a b : HashedKey digest)
    → same_indirect a.0 b.0 ≡ true
    → a.0.hash ≡ b.0.hash
hash-same_indirect digest a b h = a.1 ∙ ap digest (same_indirect-eq a.0 b.0 h).1 ∙ sym b.1

-- NHMHM_INDIRECT_DATA: the hash is the one that the struct carries.
abbrev pub indirect_key : (digest : List ℕ → ℕ) → KeyOps (HashedKey digest)
indirect_key digest = record {
  hash = λ key. key.0.hash;
  same = λ stored sought. same_indirect stored.0 sought.0;
  same_refl = λ a. same_indirect_refl a.0;
  same_symm = λ a b. same_indirect_symm a.0 b.0;
  same_trans = λ a b c. same_indirect_trans a.0 b.0 c.0;
  hash-same = hash-same_indirect digest;
}
