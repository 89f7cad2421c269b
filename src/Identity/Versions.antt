-- ===== src/Identity/Versions.antt =====
-- The UUIDs that the generators of versions 4, 5 and 7 return.
use nexus_c.Base.{
  ℕ, zero, suc, ◌-◌, ◌+◌, ◌*◌, ◌%◌, ◌^◌, ◌/◌, ◌<◌, ◌≤◌, ◌≡◌, ◌∙◌, ap, refl, Bool-cases, inl, inr,
  some, List, [], ◌∷◌, ◌++◌, get_or, leb, ltb, ◌&&◌, arith, false,
}
use nexus_c.Hash.Block.{State}
use nexus_c.Hash.Sha1.{Context, sha1, sha1_begin, sha1_end, digest_of, word_bytes}
use nexus_c.Hash.Stream.{sha1_bytes-append}
use nexus_c.Identity.{ok, Entropy, Time, timestamp_write, timestamp_max}
use nexus_c.Identity.Clock.{real_time_get-cases}
use nexus_c.Identity.Generate.{
  version_set, v4_filled, v4_generate_with_entropy, v5_digest, v5_generate, v5_generate_bytes,
  buffer_bytes, v7_filled, v7_timed, v7_generate_random_with_entropy, suffix_fill, absent,
}
use nexus_c.Identity.Order.{timestamp_write-AllBytes}
use nexus_c.Identity.Stamp.{IsStamped, version_set-IsStamped, hi_stamped, lo_stamped}
use nexus_c.Uint128.Arith.{Uint128}
use nexus_c.Uint128.Bytes.{bytes_big_endian_read, bytes_big_endian_write}
use nexus_c.Uint128.ByteOrder.{AllBytes, big_endian}

v4_generate-IsStamped {ℓ} :
    {S : Type ℓ} (fill : Entropy S) (user user' : S) (bytes : ℕ → ℕ)
    → fill 16 user ≡ (ok bytes, user')
    → AllBytes bytes
    → (u : Uint128) × (v4_generate_with_entropy (some fill) user ≡ (ok u, user'))
      × IsStamped 4 (bytes_big_endian_read bytes) u
unfolding v4_generate_with_entropy v4_filled
v4_generate-IsStamped fill user user' bytes e h =
    (_, rw e refl, version_set-IsStamped 4 bytes h (omega arith))

suffix_fill-AllBytes :
    (buffer r : ℕ → ℕ) → AllBytes buffer → AllBytes r → AllBytes (suffix_fill buffer r)
unfolding suffix_fill
suffix_fill-AllBytes buffer r hb hr i = elim (Bool-cases (leb 6 i && ltb i 16)) [
  | inl e ↦ rw e (hr (i - 6))
  | inr e ↦ rw e (hb i)
]

module _ (buffer r : ℕ → ℕ) (ms : ℕ) (hb : AllBytes buffer) (hr : AllBytes r) where
  abbrev v7_bytes : ℕ → ℕ
  v7_bytes = timestamp_write (suffix_fill buffer r) ms

  v7_bytes-AllBytes : AllBytes v7_bytes
  v7_bytes-AllBytes =
      timestamp_write-AllBytes (suffix_fill buffer r) ms (suffix_fill-AllBytes buffer r hb hr)

  v7_hi :
      ms < 2 ^ 48
      → (bytes_big_endian_read (version_set (7 * 2 ^ 4) v7_bytes)).hi
        ≡ ms * 2 ^ 16 + (7 * 16 + r 0 % 16) * 256 + r 1
  unfolding timestamp_write suffix_fill
  v7_hi small = hi_stamped 7 v7_bytes v7_bytes-AllBytes (omega arith) ∙ omega arith

  v7_lo :
      (bytes_big_endian_read (version_set (7 * 2 ^ 4) v7_bytes)).lo
      ≡ (128 + r 2 % 64) * 2 ^ 56 + big_endian 7 (λ i. r (i + 3))
  unfolding timestamp_write suffix_fill
  v7_lo = lo_stamped 7 v7_bytes v7_bytes-AllBytes (omega arith)

v7_generate-exact {ℓ} :
    {S : Type ℓ} (buffer : ℕ → ℕ) (fill : Entropy S) (user user' : S) (now : Time) (r : ℕ → ℕ)
    → fill 10 user ≡ (ok r, user')
    → AllBytes buffer
    → AllBytes r
    → now.time / 1000000 ≤ timestamp_max
    → (u : Uint128) × (v7_generate_random_with_entropy buffer (some fill) user now ≡ (ok u, user'))
      × (u.hi ≡ now.time / 1000000 * 2 ^ 16 + (7 * 16 + r 0 % 16) * 256 + r 1)
      × (u.lo ≡ (128 + r 2 % 64) * 2 ^ 56 + big_endian 7 (λ i. r (i + 3)))
unfolding v7_generate_random_with_entropy v7_timed v7_filled
v7_generate-exact buffer fill user user' now r e hb hr small =
    elim (real_time_get-cases now false) [
      | inl (late, q) ↦ absurd (omega (arith, late))
      | inr (f, hf, within, q) ↦ (
        _,
        ap (v7_timed buffer fill user) q ∙ rw e refl,
        v7_hi buffer r (now.time / 1000000) hb hr (omega arith),
        v7_lo buffer r (now.time / 1000000) hb hr,
      )
    ]

-- A provider gives sixteen bytes for version 4 and then ten for the random version 7, whose clock is
-- within 48 bits of milliseconds. Version 4 returns its bytes with the version and the variant set in
-- their places and all other bits as they were. Version 7 returns 48 bits of milliseconds and then its
-- bytes in their order: the upper half of the first gives way to the version, and the upper two bits
-- of the third to the variant.
pub generate_random-IsStamped {ℓ} :
    {S : Type ℓ} (fill : Entropy S) (user user' user'' : S) (bytes buffer r : ℕ → ℕ) (now : Time)
    → fill 16 user ≡ (ok bytes, user')
    → fill 10 user' ≡ (ok r, user'')
    → AllBytes bytes
    → AllBytes buffer
    → AllBytes r
    → now.time / 1000000 ≤ timestamp_max
    → ((u : Uint128) × (v4_generate_with_entropy (some fill) user ≡ (ok u, user'))
        × IsStamped 4 (bytes_big_endian_read bytes) u)
      × ((u : Uint128) × (v7_generate_random_with_entropy buffer (some fill) user' now
            ≡ (ok u, user''))
          × (u.hi ≡ now.time / 1000000 * 2 ^ 16 + (7 * 16 + r 0 % 16) * 256 + r 1)
          × (u.lo ≡ (128 + r 2 % 64) * 2 ^ 56 + big_endian 7 (λ i. r (i + 3))))
generate_random-IsStamped fill user user' user'' bytes buffer r now e e' h hb hr small = (
  v4_generate-IsStamped fill user user' bytes e h,
  v7_generate-exact buffer fill user' user'' now r e' hb hr small,
)

abbrev AreBytes : List ℕ → Type 0
AreBytes [] = Unit
AreBytes (b ∷ bs) = (b < 256) × AreBytes bs

get_or-AllBytes : (bytes : List ℕ) → AreBytes bytes → AllBytes (λ i. get_or bytes i 0)
get_or-AllBytes [] h i = omega arith
get_or-AllBytes (b ∷ bs) (p, h) zero = p
get_or-AllBytes (b ∷ bs) (p, h) (suc i) = get_or-AllBytes bs h i

AreBytes-append : (xs ys : List ℕ) → AreBytes xs → AreBytes ys → AreBytes (xs ++ ys)
AreBytes-append [] ys h k = k
AreBytes-append (x ∷ xs) ys (p, h) k = (p, AreBytes-append xs ys h k)

word_bytes-AreBytes : (w : ℕ) → AreBytes (word_bytes w)
unfolding word_bytes
word_bytes-AreBytes w = (omega arith, (omega arith, (omega arith, (omega arith, tt))))

digest_of-AreBytes : (s : State) → AreBytes (digest_of s)
unfolding digest_of
digest_of-AreBytes s =
    let join = λ (xs : List ℕ) (w : ℕ) (h : AreBytes xs).
      AreBytes-append xs (word_bytes w) h (word_bytes-AreBytes w) in
    join _ s.e (join _ s.d (join _ s.c (join _ s.b (word_bytes-AreBytes s.a))))

sha1_end-AreBytes : (c : Context) → AreBytes (sha1_end c)
unfolding sha1_end
sha1_end-AreBytes c = digest_of-AreBytes _

v5_digest-sha1 :
    (block out : ℕ → ℕ) (ns : Uint128) (name : List ℕ)
    → v5_digest block out ns (some name)
      ≡ sha1 block (buffer_bytes 16 0 (bytes_big_endian_write ns out) ++ name)
unfolding v5_digest sha1
v5_digest-sha1 block out ns name = ap sha1_end (
    sha1_bytes-append (sha1_begin block) (buffer_bytes 16 0 (bytes_big_endian_write ns out)) name
      (unfold sha1_begin in omega arith))

-- The UUID of version 5 for a name is the first sixteen bytes of the SHA-1 digest of the namespace's
-- bytes and the name, with the version and the variant set in their places and all other bits as they
-- were.
pub v5_generate-IsStamped :
    (block out : ℕ → ℕ) (ns : Uint128) (name : List ℕ)
    → let digest = sha1 block (buffer_bytes 16 0 (bytes_big_endian_write ns out) ++ name) in
      (u : Uint128) × (v5_generate block out ns (some name) ≡ ok u)
      × IsStamped 5 (bytes_big_endian_read (λ i. get_or digest i 0)) u
unfolding v5_generate v5_generate_bytes absent
v5_generate-IsStamped block out ns name =
    let digest = sha1 block (buffer_bytes 16 0 (bytes_big_endian_write ns out) ++ name) in
    (
      bytes_big_endian_read (version_set 0x50 (λ i. get_or digest i 0)),
      ap (λ (d : List ℕ). ok (bytes_big_endian_read (version_set 0x50 (λ i. get_or d i 0))))
          (v5_digest-sha1 block out ns name),
      version_set-IsStamped 5 (λ i. get_or digest i 0)
          (get_or-AllBytes digest (unfold sha1 in sha1_end-AreBytes _)) (omega arith),
    )
