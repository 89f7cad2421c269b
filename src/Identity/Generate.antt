-- ===== src/Identity/Generate.antt =====
-- The UUIDs of the versions 4, 5 and 7 whose bytes are random or a hash (src/n_identity.c, lines 229
-- to 360). The result can be written; a buffer on the stack holds anything before.
use nexus_c.Base.{
  ℕ, zero, suc, ◌+◌, Bool, true, false, not, ◌&&◌, Option, none, some, List, [], ◌∷◌, if◌then◌else◌,
  ◌==◌, bit_and, bit_or, u8, leb, ltb, ◌-◌, update, length, get_or,
}
use nexus_c.Hash.Sha1.{sha1_begin, sha1_bytes, sha1_end}
use nexus_c.Errors.{invalid_argument}
use nexus_c.Identity.{Result, ok, error, Entropy, Time, timestamp_write, real_time_get}
use nexus_c.Uint128.Arith.{Uint128}
use nexus_c.Uint128.Bytes.{bytes_big_endian_write, bytes_big_endian_read}

-- The version is in the upper half of its byte.
unfoldable pub version_set : ℕ → (ℕ → ℕ) → ℕ → ℕ
version_set version uuid =
    let uuid = update uuid 6 (u8 (bit_or (bit_and (uuid 6) 0x0F) version)) in
    update uuid 8 (u8 (bit_or (bit_and (uuid 8) 0x3F) 0x80))

unfoldable pub v4_filled : Result (ℕ → ℕ) → Result Uint128
v4_filled (error code) = error code
v4_filled (ok uuid) = ok (bytes_big_endian_read (version_set 0x40 uuid))

-- NULL for no provider.
unfoldable pub v4_generate_with_entropy {ℓ} :
    {S : Type ℓ} → Option (Entropy S) → S → Result Uint128 × S
v4_generate_with_entropy none user = (error invalid_argument, user)
v4_generate_with_entropy (some entropy_fill) user =
    let (filled, user') = entropy_fill 16 user in (v4_filled filled, user')

-- The first `n` bytes of a buffer, from a place on.
unfoldable pub buffer_bytes : ℕ → ℕ → (ℕ → ℕ) → List ℕ
buffer_bytes zero at bytes = []
buffer_bytes (suc n) at bytes = bytes at ∷ buffer_bytes n (at + 1) bytes

unfoldable pub absent {ℓ} : {A : Type ℓ} → Option A → Bool
absent none = true
absent (some a) = false

-- The digest of the namespace and the name; `block` and `out` are what the buffers hold before.
unfoldable pub v5_digest : (ℕ → ℕ) → (ℕ → ℕ) → Uint128 → Option (List ℕ) → List ℕ
v5_digest block out namespace_uuid name =
    let namespace_bytes = buffer_bytes 16 0 (bytes_big_endian_write namespace_uuid out) in
    let hash = sha1_bytes (sha1_begin block) (some namespace_bytes) in
    sha1_end (sha1_bytes hash name)

-- The size that is given with NULL counts; otherwise it is that of the name.
unfoldable pub v5_generate_bytes :
    (ℕ → ℕ) → (ℕ → ℕ) → Uint128 → Option (List ℕ) → ℕ → Result Uint128
v5_generate_bytes block out namespace_uuid name size =
    let digest = v5_digest block out namespace_uuid name in
    if absent name && not (size == 0)
    then error invalid_argument
    else ok (bytes_big_endian_read (version_set 0x50 (λ i. get_or digest i 0)))

-- The name is a string without its terminator, or NULL.
unfoldable pub v5_generate : (ℕ → ℕ) → (ℕ → ℕ) → Uint128 → Option (List ℕ) → Result Uint128
v5_generate block out namespace_uuid none = error invalid_argument
v5_generate block out namespace_uuid (some name) =
    v5_generate_bytes block out namespace_uuid (some name) (length name)

-- The buffer once the entropy has filled its bytes from the sixth on.
unfoldable pub suffix_fill : (ℕ → ℕ) → (ℕ → ℕ) → ℕ → ℕ
suffix_fill buffer random_bytes i = if leb 6 i && ltb i 16 then random_bytes (i - 6) else buffer i

unfoldable pub v7_filled : (ℕ → ℕ) → ℕ → Result (ℕ → ℕ) → Result Uint128
v7_filled buffer unix_milliseconds (error code) = error code
v7_filled buffer unix_milliseconds (ok random_bytes) =
    let uuid = timestamp_write (suffix_fill buffer random_bytes) unix_milliseconds in
    ok (bytes_big_endian_read (version_set 0x70 uuid))

-- With a clock that was read, the entropy is asked for.
unfoldable pub v7_timed {ℓ} :
    {S : Type ℓ} → (ℕ → ℕ) → Entropy S → S → Result (ℕ × ℕ) → Result Uint128 × S
v7_timed buffer entropy_fill user (error code) = (error code, user)
v7_timed buffer entropy_fill user (ok (unix_milliseconds, fraction)) =
    let (filled, user') = entropy_fill 10 user in (v7_filled buffer unix_milliseconds filled, user')

unfoldable pub v7_generate_random_with_entropy {ℓ} :
    {S : Type ℓ} → (ℕ → ℕ) → Option (Entropy S) → S → Time → Result Uint128 × S
v7_generate_random_with_entropy buffer none user now = (error invalid_argument, user)
v7_generate_random_with_entropy buffer (some entropy_fill) user now =
    v7_timed buffer entropy_fill user (real_time_get now false)

-- The system's entropy is such a provider.
unfoldable pub v4_generate {ℓ} : {S : Type ℓ} → Entropy S → S → Result Uint128 × S
v4_generate system_fill user = v4_generate_with_entropy (some system_fill) user

unfoldable pub v7_generate_random {ℓ} :
    {S : Type ℓ} → (ℕ → ℕ) → Entropy S → S → Time → Result Uint128 × S
v7_generate_random buffer system_fill user now =
    v7_generate_random_with_entropy buffer (some system_fill) user now
