-- ===== src/Memory/Live.antt =====
-- The live payloads of a page, and the calls that add and remove them.
use nexus_c.Base.{
  ℕ, ◌+◌, ◌-◌, ◌^◌, ◌<◌, ◌≤◌, ◌≡◌, ◌≢◌, ◌∙◌, ap, sym, refl, Bool, true, false, if◌then◌else◌, ltb,
  ◌==◌, update, Option, none, some, List, ◌++◌, Bool-cases, inl, inr, arith,
}
use mathlib.Core.Path.{subst}
use nexus_c.Memory.{Store, region_bytes, pointer_bytes, required_space, free}
use nexus_c.Memory.Chain.{Block, Tiles, update-same, update-other}
use nexus_c.Memory.Members.{In, In-left, In-right, In-others, In-released, In-split}
use nexus_c.Memory.Release.{released, free-Laid}
use nexus_c.Memory.Search.{Taken}
use nexus_c.Memory.Take.{Laid, taken}

-- A payload that was returned and is not freed.
pub record Payload : Type 0 where
  pub pointer : ℕ
  pub size : ℕ

-- A payload lies in a taken block after its header and the pointer to it.
pub record Held (store : Store) (blocks : List Block) (owner : ℕ) (p : Payload) : Type 0 where
  pub owned : store.owners p.pointer ≡ owner
  pub block : Block
  pub member : In block blocks
  pub address : block.address ≡ owner
  pub held : block.available ≡ false
  pub above : owner + region_bytes + pointer_bytes ≤ p.pointer
  pub whole : p.pointer + p.size ≤ owner + region_bytes + block.size

-- A page and its live payloads, by the addresses of their headers.
pub record Live (store : Store) (base limit : ℕ) (blocks : List Block) (live : ℕ → Option Payload)
    : Type 0 where
  pub laid : Laid store.regions base limit blocks
  pub payloads : (owner : ℕ) (p : Payload) → live owner ≡ some p → Held store blocks owner p

abbrev value_or : Option Payload → Payload → Payload
value_or none p = p
value_or (some q) p = q

abbrev pub present : Option Payload → Bool
present none = false
present (some q) = true

module _ (size alignment : ℕ) (store : Store) (base limit : ℕ) (blocks : List Block)
    (live : ℕ → Option Payload) (pointer : ℕ) (after : Store)
    (l : Live store base limit blocks live)
    (t : Taken size alignment store base limit blocks pointer after) where
  abbrev pub new_blocks : List Block
  new_blocks = t.front ++ (taken t.block (required_space t.block.address size alignment) ++ t.rest)

  -- The block that was available had no live payload, and the payloads of the others stay.
  pub old-Held :
      (owner : ℕ) (p : Payload)
      → live owner ≡ some p
      → (owner ≢ t.block.address) × Held after new_blocks owner p
  old-Held owner p e =
      let h = l.payloads owner p e in
      let divided = subst (Laid store.regions base limit) t.split l.laid in
      let member = subst (In h.block) t.split h.member in
      let other : ¬ (h.block ≡ t.block) =
        λ same. absurd (ground (arith, h.held, t.was_available, ap (λ k. k.available) same)) in
      let (where_is, apart) =
        In-others base limit t.front t.block t.rest h.block divided.tiles other member in
      let a = t.aligned.above in
      let moved : p.pointer ≢ pointer =
        λ same. absurd (omega (arith, same, apart, h.above, h.whole, h.address, t.whole, a)) in
      (
        λ same. absurd (omega (arith, same, apart, h.address)),
        record {
          owned =
              ap (λ o. o p.pointer) t.owners
              ∙ update-other store.owners pointer t.block.address p.pointer moved
              ∙ h.owned;
          block = h.block;
          member = elim where_is [
            | inl i ↦ In-left h.block t.front _ i
            | inr i ↦ In-right h.block t.front _ (
                In-right h.block (taken t.block (required_space t.block.address size alignment))
                  t.rest i)
          ];
          address = h.address;
          held = h.held;
          above = h.above;
          whole = h.whole;
        },
      )

  new-Held : Held after new_blocks t.block.address (record { pointer = pointer; size = size })
  new-Held =
      let required = required_space t.block.address size alignment in
      let owned : after.owners pointer ≡ t.block.address =
        ap (λ o. o pointer) t.owners ∙ update-same store.owners pointer t.block.address in
      let above = t.aligned.above in
      elim (Bool-cases (ltb (region_bytes + 32) (t.block.size - required))) [
        | inl room ↦ record {
          owned = owned;
          block = record t.block { size = required; available = false };
          member = rw room (In-right _ t.front _ (inl refl));
          address = refl;
          held = refl;
          above = above;
          whole = omega (arith, t.ends);
        }
        | inr uncut ↦ record {
          owned = owned;
          block = record t.block { available = false };
          member = rw uncut (In-right _ t.front _ (inl refl));
          address = refl;
          held = refl;
          above = above;
          whole = t.whole;
        }
      ]

  abbrev pub new_live : ℕ → Option Payload
  new_live = update live t.block.address (some (record { pointer = pointer; size = size }))

  pub taken-Live : Live after base limit new_blocks new_live
  taken-Live = record {
    laid = t.laid;
    payloads = λ owner p e. elim (Bool-cases (owner == t.block.address)) [
      | inl here ↦
          let new : Payload = record { pointer = pointer; size = size } in
          let same : new ≡ p =
            ap (λ o. value_or o p)
              (subst (λ v. (if v then some new else live owner) ≡ some p) here e) in
          let at : t.block.address ≡ owner = ground (arith, here) in
          subst (λ k. Held after new_blocks owner k) same
            (subst (λ k. Held after new_blocks k new) at new-Held)
      | inr other ↦
          (old-Held owner p (
            subst
              (λ v.
                (if v then some (record { pointer = pointer; size = size }) else live owner)
                ≡ some p)
              other e)).1
    ];
  }

free-owners : (store : Store) (pointer : ℕ) → (free store pointer).owners ≡ store.owners
unfolding free
free-owners store pointer = elim (Bool-cases (pointer == 0)) [
  | inl null ↦ rw null refl
  | inr some_pointer ↦ rw some_pointer refl
]

module _ (store : Store) (base limit : ℕ) (blocks : List Block) (live : ℕ → Option Payload)
    (owner : ℕ) (p : Payload) (l : Live store base limit blocks live) (e : live owner ≡ some p)
    (small : limit < 2 ^ 64) where
  -- The blocks after the payload is freed.
  pub freed_blocks : List Block
  freed_blocks =
      let h = l.payloads owner p e in
      let (xs, ys, split) = In-split h.block blocks h.member in released xs h.block ys

  abbrev pub freed_live : ℕ → Option Payload
  freed_live = update live owner none

  others-Held :
      (other : ℕ) (q : Payload)
      → other ≢ owner
      → live other ≡ some q
      → Held (free store p.pointer) freed_blocks other q
  unfolding freed_blocks
  others-Held other q differs f =
      let h = l.payloads owner p e in
      let (xs, ys, split) = In-split h.block blocks h.member in
      let g = l.payloads other q f in
      let tiles = subst (λ k. Tiles base k limit) split l.laid.tiles in
      let member = subst (In g.block) split g.member in
      let apart : ¬ (g.block ≡ h.block) =
        λ same. differs (sym g.address ∙ ap (λ k. k.address) same ∙ h.address) in
      let (where_is, disjoint) = In-others base limit xs h.block ys g.block tiles apart member in
      record {
        owned = ap (λ o. o q.pointer) (free-owners store p.pointer) ∙ g.owned;
        block = g.block;
        member = In-released g.block xs h.block ys g.held where_is;
        address = g.address;
        held = g.held;
        above = g.above;
        whole = g.whole;
      }

  pub freed-Live : Live (free store p.pointer) base limit freed_blocks freed_live
  unfolding freed_blocks
  freed-Live =
      let h = l.payloads owner p e in
      let (xs, ys, split) = In-split h.block blocks h.member in
      let laid = subst (Laid store.regions base limit) split l.laid in
      record {
        laid =
            free-Laid store base limit xs h.block ys p.pointer laid small (omega (arith, h.above))
              (h.owned ∙ sym h.address);
        payloads = λ other q f. elim (Bool-cases (other == owner)) [
          | inl here ↦
              let gone =
                ap present (subst (λ v. (if v then none else live other) ≡ some q) here f) in
              absurd (ground (arith, gone))
          | inr differs ↦
              others-Held other q (ground (arith, differs))
                (subst (λ v. (if v then none else live other) ≡ some q) differs f)
        ];
      }
