-- ===== src/Hash/Fnv.antt =====
-- FNV-1a with 64 bits (src/n_hash.c, lines 5 to 34).
use nexus_c.Base.{ℕ, ◌*◌, List, [], ◌∷◌, ◌++◌, ◌≡◌, refl, bit_xor, u64}

unfoldable pub fnv1a64_begin : ℕ
fnv1a64_begin = 14695981039346656037

unfoldable pub fnv1a64_byte : ℕ → ℕ → ℕ
fnv1a64_byte hash value = u64 (bit_xor hash value * 1099511628211)

unfoldable pub fnv1a64_bytes : ℕ → List ℕ → ℕ
fnv1a64_bytes hash [] = hash
fnv1a64_bytes hash (b ∷ bytes) = fnv1a64_bytes (fnv1a64_byte hash b) bytes

unfoldable pub fnv1a64 : List ℕ → ℕ
fnv1a64 bytes = fnv1a64_bytes fnv1a64_begin bytes

-- The hash of data in two pieces is the hash of the data, the first piece's hash going into the
-- second call.
fnv1a64_bytes-append :
    (hash : ℕ) (first second : List ℕ)
    → fnv1a64_bytes (fnv1a64_bytes hash first) second ≡ fnv1a64_bytes hash (first ++ second)
unfolding fnv1a64_bytes
fnv1a64_bytes-append hash [] second = refl
fnv1a64_bytes-append hash (b ∷ first) second =
    fnv1a64_bytes-append (fnv1a64_byte hash b) first second
