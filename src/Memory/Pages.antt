-- ===== src/Memory/Pages.antt =====
-- The pages of an allocator with the blocks on them, and the search of all of them.
use nexus_c.Base.{
  ℕ, suc, ◌+◌, ◌-◌, ◌^◌, ◌<◌, ◌≤◌, ◌≡◌, ◌∙◌, ap, sym, refl, ltb, Option, none, some, List, [], ◌∷◌,
  ◌++◌, map, Bool-cases, inl, inr, ◌⊎◌, arith,
}
use mathlib.Core.Path.{subst}
use nexus_c.Memory.{
  Region, Store, Page, region_bytes, pointer_bytes, required_space, search_page, search_pages,
}
use nexus_c.Memory.Chain.{Block, head_of, Chain-agrees}
use nexus_c.Memory.Frame.{Outside}
use nexus_c.Memory.Search.{Tiles-length, AllUnfit, Taken, Searched, search_page-Searched}
use nexus_c.Memory.Take.{Laid, taken}

-- A page and the blocks on it.
pub record Layout : Type 0 where
  pub page : Page
  pub blocks : List Block

abbrev pub limit_of : Page → ℕ
limit_of page = page.memory_base + page.capacity

abbrev pub pages_of : List Layout → List Page
pages_of lays = map (λ l. l.page) lays

abbrev pub Apart : Page → Page → Type 0
Apart p q = (limit_of p ≤ q.memory_base) ⊎ (limit_of q ≤ p.memory_base)

abbrev pub AllApart : Page → List Layout → Type 0
AllApart p [] = Unit
AllApart p (l ∷ lays) = Apart p l.page × AllApart p lays

pub record PageLaid (regions : ℕ → Region) (l : Layout) : Type 0 where
  pub first : l.page.first_region ≡ head_of l.blocks 0
  pub laid : Laid regions l.page.memory_base (limit_of l.page) l.blocks

abbrev pub AllLaid : (ℕ → Region) → List Layout → Type 0
AllLaid regions [] = Unit
AllLaid regions (l ∷ lays) = PageLaid regions l × AllApart l.page lays × AllLaid regions lays

abbrev pub OutsideAll : List Layout → ℕ → Type 0
OutsideAll [] a = Unit
OutsideAll (l ∷ lays) a = Outside l.page.memory_base (limit_of l.page) a × OutsideAll lays a

-- A page and a request that fit in the address space.
abbrev pub AllSmall : ℕ → ℕ → List Layout → Type 0
AllSmall size alignment [] = Unit
AllSmall size alignment (l ∷ lays) =
    (limit_of l.page + alignment + size + pointer_bytes < 2 ^ 64) × AllSmall size alignment lays

pub PageLaid-agrees :
    (regions other : ℕ → Region) (l : Layout)
    → ((a : ℕ) → l.page.memory_base ≤ a → a < limit_of l.page → other a ≡ regions a)
    → PageLaid regions l
    → PageLaid other l
PageLaid-agrees regions other l same p = record {
  first = p.first;
  laid = record {
    chain =
        Chain-agrees regions other 0 l.page.memory_base l.blocks (limit_of l.page) 0 p.laid.tiles
          same p.laid.chain;
    tiles = p.laid.tiles;
    pos = p.laid.pos;
  };
}

AllApart-OutsideAll :
    (p : Page) (lays : List Layout) (a : ℕ)
    → AllApart p lays
    → p.memory_base ≤ a
    → a < limit_of p
    → OutsideAll lays a
AllApart-OutsideAll p [] a apart low high = tt
AllApart-OutsideAll p (l ∷ lays) a apart low high =
    (ground (arith, apart.0), AllApart-OutsideAll p lays a apart.1 low high)

-- Writes to one page leave the pages that are apart from it.
AllLaid-agrees :
    (regions other : ℕ → Region) (p : Page) (lays : List Layout)
    → AllApart p lays
    → ((a : ℕ) → Outside p.memory_base (limit_of p) a → other a ≡ regions a)
    → AllLaid regions lays
    → AllLaid other lays
AllLaid-agrees regions other p [] apart same laid = tt
AllLaid-agrees regions other p (l ∷ lays) apart same laid = (
  PageLaid-agrees regions other l (λ a low high. same a (ground (arith, apart.0))) laid.0,
  laid.1,
  AllLaid-agrees regions other p lays apart.1 same laid.2,
)

AllApart-replace :
    (p : Page) (front : List Layout) (l : Layout) (blocks : List Block) (rest : List Layout)
    → AllApart p (front ++ l ∷ rest)
    → AllApart p (front ++ record l { blocks = blocks } ∷ rest)
AllApart-replace p [] l blocks rest apart = apart
AllApart-replace p (f ∷ front) l blocks rest apart =
    (apart.0, AllApart-replace p front l blocks rest apart.1)

module _ (size alignment : ℕ) where
  abbrev pub blocks_after :
      {store : Store} {base limit : ℕ} {blocks : List Block} {pointer : ℕ} {after : Store}
      → Taken size alignment store base limit blocks pointer after
      → List Block
  blocks_after t =
      t.front ++ (taken t.block (required_space t.block.address size alignment) ++ t.rest)

  -- A region of one of the pages is taken, and every page is tiled afterwards.
  pub record PageTaken (store : Store) (lays : List Layout) (pointer : ℕ) (after : Store)
      : Type 0 where
    pub front : List Layout
    pub layout : Layout
    pub rest : List Layout
    pub split : lays ≡ front ++ layout ∷ rest
    pub taken_from :
        Taken size alignment store layout.page.memory_base
          (limit_of layout.page)
          layout.blocks
          pointer
          after
    pub laid :
        AllLaid after.regions (front ++ record layout { blocks = blocks_after taken_from } ∷ rest)
    pub others : (a : ℕ) → OutsideAll lays a → after.regions a ≡ store.regions a

  abbrev pub NoneFits : List Layout → Type 0
  NoneFits [] = Unit
  NoneFits (l ∷ lays) = AllUnfit size alignment l.blocks × NoneFits lays

  abbrev pub PagesSearched : Store → List Layout → Option (ℕ × Store) → Type 0
  PagesSearched store lays none = NoneFits lays
  PagesSearched store lays (some (pointer, after)) = PageTaken store lays pointer after

  head-taken :
      (front : List Block) (b : Block) (required : ℕ) (rest : List Block)
      → head_of (front ++ b ∷ rest) 0 ≡ head_of (front ++ (taken b required ++ rest)) 0
  head-taken [] b required rest = elim (Bool-cases (ltb (region_bytes + 32) (b.size - required))) [
    | inl room ↦ rw room refl
    | inr whole ↦ rw whole refl
  ]
  head-taken (f ∷ front) b required rest = refl

  first-PageTaken :
      (store : Store) (l : Layout) (lays : List Layout) (pointer : ℕ) (after : Store)
      → AllLaid store.regions (l ∷ lays)
      → Taken size alignment store l.page.memory_base (limit_of l.page) l.blocks pointer after
      → PageTaken store (l ∷ lays) pointer after
  first-PageTaken store l lays pointer after laid t = record {
    front = [];
    layout = l;
    rest = lays;
    split = refl;
    taken_from = t;
    laid = (
      record {
        first =
            laid.0.first
            ∙ ap (λ k. head_of k 0) t.split
            ∙ head-taken t.front t.block (required_space t.block.address size alignment) t.rest;
        laid = t.laid;
      },
      laid.1,
      AllLaid-agrees store.regions after.regions l.page lays laid.1 t.others laid.2,
    );
    others = λ a out. t.others a out.0;
  }

  later-PageTaken :
      (store : Store) (l : Layout) (lays : List Layout) (pointer : ℕ) (after : Store)
      → AllLaid store.regions (l ∷ lays)
      → PageTaken store lays pointer after
      → PageTaken store (l ∷ lays) pointer after
  later-PageTaken store l lays pointer after laid t = record {
    front = l ∷ t.front;
    layout = t.layout;
    rest = t.rest;
    split = ap (λ k. l ∷ k) t.split;
    taken_from = t.taken_from;
    laid = (
      PageLaid-agrees store.regions after.regions l
          (λ a low high. t.others a (AllApart-OutsideAll l.page lays a laid.1 low high)) laid.0,
      AllApart-replace l.page t.front t.layout (blocks_after t.taken_from) t.rest
          (subst (AllApart l.page) t.split laid.1),
      t.laid,
    );
    others = λ a out. t.others a out.1;
  }

  PagesSearched-first :
      (store : Store) (l : Layout) (lays : List Layout) (found : Option (ℕ × Store))
      (rest : Option (ℕ × Store))
      → AllLaid store.regions (l ∷ lays)
      → Searched size alignment store l.page.memory_base (limit_of l.page) l.blocks l.blocks found
      → PagesSearched store lays rest
      → PagesSearched store (l ∷ lays) (elim found [ some r ↦ some r | none ↦ rest ])
  PagesSearched-first store l lays (some (pointer, after)) rest laid s t =
      first-PageTaken store l lays pointer after laid s
  PagesSearched-first store l lays none (some (pointer, after)) laid s t =
      later-PageTaken store l lays pointer after laid t
  PagesSearched-first store l lays none none laid s t = (s, t)

  -- The search of the pages.
  pub search_pages-PagesSearched :
      (store : Store) (lays : List Layout)
      → AllLaid store.regions lays
      → AllSmall size alignment lays
      → PagesSearched store lays (search_pages (pages_of lays) store size alignment)
  unfolding search_pages
  search_pages-PagesSearched store [] laid small = tt
  search_pages-PagesSearched store (l ∷ lays) laid small =
      let tiles = Tiles-length l.page.memory_base l.blocks (limit_of l.page) laid.0.laid.tiles in
      let here =
        search_page-Searched size alignment (suc l.page.capacity) store l.page.memory_base
          (limit_of l.page) l.blocks [] l.blocks (omega (arith, tiles)) refl laid.0.laid small.0 in
      let later = search_pages-PagesSearched store lays laid.2 small.1 in
      let start =
        subst
          (λ k.
            Searched size alignment store l.page.memory_base (limit_of l.page) l.blocks l.blocks
              (search_page (suc l.page.capacity) store k size alignment))
          (sym laid.0.first) here in
      PagesSearched-first store l lays
        (search_page (suc l.page.capacity) store l.page.first_region size alignment)
        (search_pages (pages_of lays) store size alignment) laid start later
