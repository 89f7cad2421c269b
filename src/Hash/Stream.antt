-- ===== src/Hash/Stream.antt =====
-- SHA-1 in pieces takes one byte after the other: how the data is cut into pieces does not matter.
use nexus_c.Base.{
  ℕ, zero, suc, ◌+◌, ◌-◌, ◌<◌, ◌≤◌, ◌≡◌, ◌∙◌, sym, ap, refl, inl, inr, false, some, List, [], ◌∷◌,
  ◌++◌, if◌then◌else◌, ltb, ◌==◌, length, take, drop, update, u32, u64, Bool-cases, arith,
  take-append-drop, length-take, length-drop, length-append,
}
use nexus_c.Hash.Sha1.{Context, bytes_copy, settle, absorb, sha1_bytes}

-- One byte goes into the block, which is processed when it is full.
unfoldable pub feed : Context → ℕ → Context
feed c b = settle (record c {
  block = update c.block c.block_byte_count b;
  block_byte_count = c.block_byte_count + 1;
})

unfoldable pub feed_all : Context → List ℕ → Context
feed_all c [] = c
feed_all c (b ∷ bytes) = feed_all (feed c b) bytes

-- The block of a context between two calls is not full.
abbrev pub HasRoom : Context → Type 0
HasRoom c = c.block_byte_count < 64

pub settle-HasRoom : (c : Context) → c.block_byte_count ≤ 64 → HasRoom (settle c)
unfolding settle
settle-HasRoom c h = elim (Bool-cases (c.block_byte_count == 64)) [
  | inl full ↦ rw full (omega arith)
  | inr room ↦ rw room (ground (arith, room))
]

pub settle_below : (c : Context) → HasRoom c → settle c ≡ c
unfolding settle
settle_below c h = let e : (c.block_byte_count == 64) ≡ false = ground arith in rw e refl

feed-HasRoom : (c : Context) (b : ℕ) → HasRoom c → HasRoom (feed c b)
unfolding feed
feed-HasRoom c b h =
    settle-HasRoom
      (record c {
        block = update c.block c.block_byte_count b;
        block_byte_count = c.block_byte_count + 1;
      })
      (omega (arith, h))

pub feed_all-HasRoom : (c : Context) (bytes : List ℕ) → HasRoom c → HasRoom (feed_all c bytes)
unfolding feed_all
feed_all-HasRoom c [] h = h
feed_all-HasRoom c (b ∷ bytes) h = feed_all-HasRoom (feed c b) bytes (feed-HasRoom c b h)

pub feed_all-append :
    (c : Context) (xs ys : List ℕ) → feed_all (feed_all c xs) ys ≡ feed_all c (xs ++ ys)
unfolding feed_all
feed_all-append c [] ys = refl
feed_all-append c (x ∷ xs) ys = feed_all-append (feed c x) xs ys

-- The context after a run of bytes that fits in the block, before a full block is processed.
abbrev pub filled : Context → List ℕ → Context
filled c bytes = record c {
  block = bytes_copy c.block c.block_byte_count bytes;
  block_byte_count = c.block_byte_count + length bytes;
}

pub feed_all-filled :
    (c : Context) (bytes : List ℕ)
    → HasRoom c
    → c.block_byte_count + length bytes ≤ 64
    → feed_all c bytes ≡ settle (filled c bytes)
unfolding feed_all bytes_copy
feed_all-filled c [] h fits =
    let e : c.block_byte_count ≡ c.block_byte_count + 0 = omega arith in
    sym (settle_below c h) ∙ ap (λ n. settle (record c { block_byte_count = n })) e
feed_all-filled c (b ∷ []) h fits = unfold feed in refl
feed_all-filled c (b ∷ x ∷ bytes) h fits =
    let c' : Context = record c {
      block = update c.block c.block_byte_count b;
      block_byte_count = c.block_byte_count + 1;
    } in
    let room : HasRoom c' = omega arith in
    let step : feed c b ≡ c' = unfold feed in settle_below c' room in
    let e : c.block_byte_count + 1 + length (x ∷ bytes)
        ≡ c.block_byte_count + length (b ∷ x ∷ bytes) =
      omega arith in
    ap (λ k. feed_all k (x ∷ bytes)) step
    ∙ feed_all-filled c' (x ∷ bytes) room (omega arith)
    ∙ ap
        (λ n. settle (record c {
          block = bytes_copy c'.block c'.block_byte_count (x ∷ bytes);
          block_byte_count = n;
        }))
        e

-- One round of the loop of `sha1_bytes`.
round_feeds :
    (c : Context) (bytes : List ℕ) (n : ℕ)
    → HasRoom c
    → length bytes ≡ n
    → c.block_byte_count + n ≤ 64
    → settle (record c {
      block = bytes_copy c.block c.block_byte_count bytes;
      block_byte_count = u32 (c.block_byte_count + n);
    })
      ≡ feed_all c bytes
round_feeds c bytes n h len fits =
    let e : u32 (c.block_byte_count + n) ≡ c.block_byte_count + length bytes = omega arith in
    ap
      (λ k.
        settle
          (record c { block = bytes_copy c.block c.block_byte_count bytes; block_byte_count = k }))
      e
    ∙ sym (feed_all-filled c bytes h (omega arith))

-- The loop takes all bytes, if it has as many rounds as there are bytes.
absorb-feed_all :
    (fuel : ℕ) (c : Context) (bytes : List ℕ)
    → HasRoom c
    → length bytes ≤ fuel
    → absorb fuel c bytes ≡ feed_all c bytes
unfolding absorb
absorb-feed_all zero c [] h le = unfold feed_all in refl
absorb-feed_all zero c (b ∷ bytes) h le = absurd (omega arith)
absorb-feed_all (suc fuel) c [] h le = unfold feed_all in refl
absorb-feed_all (suc fuel) c (b ∷ bytes) h le =
    let n =
      if ltb (length (b ∷ bytes)) (64 - c.block_byte_count)
      then length (b ∷ bytes)
      else 64 - c.block_byte_count in
    let taken : n ≤ length (b ∷ bytes) = ground arith in
    let some_taken : 0 < n = ground arith in
    let fits : c.block_byte_count + n ≤ 64 = ground arith in
    let len : length (take n (b ∷ bytes)) ≡ n = omega (arith, length-take n (b ∷ bytes)) in
    let left = length-drop n (b ∷ bytes) in
    let step = round_feeds c (take n (b ∷ bytes)) n h len fits in
    ap (λ k. absorb fuel k (drop n (b ∷ bytes))) step
    ∙ absorb-feed_all fuel (feed_all c (take n (b ∷ bytes))) (drop n (b ∷ bytes))
        (feed_all-HasRoom c (take n (b ∷ bytes)) h) (omega (arith, left, some_taken, le))
    ∙ feed_all-append c (take n (b ∷ bytes)) (drop n (b ∷ bytes))
    ∙ ap (feed_all c) (take-append-drop n (b ∷ bytes))

-- The counter of all bytes takes no part in the loop.
abbrev pub set_total : ℕ → Context → Context
set_total n c = record c { total_byte_count = n }

settle-set_total : (n : ℕ) (c : Context) → settle (set_total n c) ≡ set_total n (settle c)
unfolding settle
settle-set_total n c = elim (Bool-cases (c.block_byte_count == 64)) [
  | inl e ↦ rw e refl
  | inr e ↦ rw e refl
]

pub feed_all-set_total :
    (n : ℕ) (c : Context) (bytes : List ℕ)
    → feed_all (set_total n c) bytes ≡ set_total n (feed_all c bytes)
unfolding feed_all feed
feed_all-set_total n c [] = refl
feed_all-set_total n c (b ∷ bytes) =
    let c' : Context = record c {
      block = update c.block c.block_byte_count b;
      block_byte_count = c.block_byte_count + 1;
    } in
    ap (λ k. feed_all k bytes) (settle-set_total n c') ∙ feed_all-set_total n (settle c') bytes

-- On a context whose block is not full, `sha1_bytes` counts the bytes and feeds them one by one.
pub sha1_bytes-feed_all :
    (c : Context) (bytes : List ℕ)
    → HasRoom c
    → sha1_bytes c (some bytes)
      ≡ record (feed_all c bytes) { total_byte_count = u64 (c.total_byte_count + length bytes) }
unfolding sha1_bytes
sha1_bytes-feed_all c bytes h =
    let n = u64 (c.total_byte_count + length bytes) in
    absorb-feed_all (length bytes) (record c { total_byte_count = n }) bytes h (omega arith)
    ∙ feed_all-set_total n c bytes

pub sha1_bytes-append :
    (c : Context) (xs ys : List ℕ)
    → HasRoom c
    → sha1_bytes (sha1_bytes c (some xs)) (some ys) ≡ sha1_bytes c (some (xs ++ ys))
sha1_bytes-append c xs ys h =
    let n = u64 (c.total_byte_count + length xs) in
    let middle = feed_all c xs in
    let e : u64 (n + length ys) ≡ u64 (c.total_byte_count + length (xs ++ ys)) =
      omega (arith, length-append xs ys) in
    ap (λ k. sha1_bytes k (some ys)) (sha1_bytes-feed_all c xs h)
    ∙ sha1_bytes-feed_all (set_total n middle) ys (feed_all-HasRoom c xs h)
    ∙ ap (set_total (u64 (n + length ys))) (feed_all-set_total n middle ys)
    ∙ ap (λ k. set_total (u64 (n + length ys)) k) (feed_all-append c xs ys)
    ∙ ap (λ k. set_total k (feed_all c (xs ++ ys))) e
    ∙ sym (sha1_bytes-feed_all c (xs ++ ys) h)
