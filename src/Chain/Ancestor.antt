-- ===== src/Chain/Ancestor.antt =====
-- What two nodes find with a locator (deskachain/node/internal/chain/locator.go).
use des_ka_project.Prelude.{
  ℕ, zero, suc, ◌+◌, ◌-◌, ◌*◌, ◌%◌, ◌<◌, ◌≡◌, ◌≢◌, refl, Bool, true, false, List, [], ◌∷◌, ◌++◌,
  Str, ltb, leb, ◌==◌, if◌then◌else◌, arith, none, some, last?, All, inl, inr, Bool-cases,
}
use des_ka_project.Types.Block.{Block}
use des_ka_project.Chain.Locator.{
  BlockLocatorEntry, hash_at, seen, visit, locate, build_block_locator, is_known,
  find_common_ancestor,
}

either :
    (P : List BlockLocatorEntry → Type 0) (b : Bool) (x y : List BlockLocatorEntry)
    → P x
    → P y
    → P (if b then x else y)
either P true x y f g = f
either P false x y f g = g

module _ (blocks : List Block) where
  -- An entry names a block of the chain.
  abbrev pub Names : BlockLocatorEntry → Type 0
  Names e = hash_at e.height blocks ≡ some e.hash

  Names-append :
      (es : List BlockLocatorEntry) (e : BlockLocatorEntry)
      → All Names es
      → Names e
      → All Names (es ++ e ∷ [])
  Names-append [] e all h = (h, tt)
  Names-append (x ∷ es) e (g, all) h = (g, Names-append es e all h)

  visit-Names :
      (height : ℕ) (es : List BlockLocatorEntry) → All Names es → All Names (visit blocks height es)
  unfolding visit
  visit-Names height es all =
      let added = λ (hash : Str). es ++ record { height = height; hash = hash } ∷ [] in
      elim (hash_at height blocks)
          as (λ o.
            hash_at height blocks ≡ o
            → All Names
                (elim o [ none ↦ es | some hash ↦ if seen height es then es else added hash ])) [
                  | none ↦ λ _. all
                  | some hash ↦ λ e.
                      either (All Names) (seen height es) es (added hash) all
                        (Names-append es (record { height = height; hash = hash }) all e)
                ]
        refl

  locate-Names :
      (fuel height step linear : ℕ) (es : List BlockLocatorEntry)
      → All Names es
      → All Names (locate blocks fuel height step linear es)
  unfolding locate
  locate-Names zero height step linear es all = all
  locate-Names (suc fuel) height step linear es all =
      let es' = visit blocks height es in
      let all' = visit-Names height es all in
      let next = if leb height step then 0 else height - step in
      let step' = step * 2 % 18446744073709551616 in
      let near = locate blocks fuel (height - 1) step (linear - 1) es' in
      let far = locate blocks fuel next step' linear es' in
      either (All Names) (height == 0) es' (if ltb 0 linear then near else far) all' (
        either (All Names) (ltb 0 linear) near far
          (locate-Names fuel (height - 1) step (linear - 1) es' all')
          (locate-Names fuel next step' linear es' all'))

  -- With enough fuel, more of it changes nothing.
  locate_zero :
      (fuel step linear : ℕ) (es : List BlockLocatorEntry)
      → 0 < fuel
      → locate blocks fuel 0 step linear es ≡ visit blocks 0 es
  unfolding locate
  locate_zero zero step linear es h = ground arith
  locate_zero (suc fuel) step linear es h = refl

  -- The loop that builds a locator gives the same with one unit of fuel more, where the fuel
  -- exceeds the height, the step is not zero, and height and step together are below 2^64 plus the
  -- single steps left.
  pub locate_fuel :
      (fuel height step linear : ℕ) (es : List BlockLocatorEntry)
      → height < fuel
      → 0 < step
      → height + step < 18446744073709551616 + linear
      → locate blocks fuel height step linear es ≡ locate blocks (suc fuel) height step linear es
  unfolding locate
  locate_fuel zero height step linear es h p s = ground arith
  locate_fuel (suc fuel) height step linear es h p s =
      let es' = visit blocks height es in
      ground (
        arith,
        locate_zero fuel (step * 2 % 18446744073709551616) linear es',
        locate_zero (suc fuel) (step * 2 % 18446744073709551616) linear es',
        locate_fuel fuel (height - 1) step (linear - 1) es',
        locate_fuel fuel (height - step) (step * 2 % 18446744073709551616) linear es',
      )

  build_block_locator-Names : All Names (build_block_locator blocks)
  unfolding build_block_locator
  build_block_locator-Names =
      elim (last? blocks)
        as (λ o. All Names (elim o [
          | none ↦ []
          | some tip ↦ visit blocks 0 (locate blocks (tip.height + 1) tip.height 2 2 [])
        ])) [
          | none ↦ tt
          | some tip ↦
              visit-Names 0 (locate blocks (tip.height + 1) tip.height 2 2 [])
                (locate-Names (tip.height + 1) tip.height 2 2 [] tt)
        ]

  seen-append :
      (h : ℕ) (es : List BlockLocatorEntry) (e : BlockLocatorEntry)
      → e.height ≡ h
      → seen h (es ++ e ∷ []) ≡ true
  seen-append h [] e k = ground arith
  seen-append h (x ∷ es) e k = ground (arith, seen-append h es e k)

  visit-seen :
      (height : ℕ) (es : List BlockLocatorEntry) (hash : Str)
      → hash_at height blocks ≡ some hash
      → seen height (visit blocks height es) ≡ true
  unfolding visit
  visit-seen height es hash h =
      ground (arith, seen-append height es (record { height = height; hash = hash }))

  -- The locator of a chain with a genesis block names it.
  build_block_locator-seen :
      (tip : Block) (genesis : Str)
      → last? blocks ≡ some tip
      → hash_at 0 blocks ≡ some genesis
      → seen 0 (build_block_locator blocks) ≡ true
  unfolding build_block_locator
  build_block_locator-seen tip genesis l h =
      ground (arith, visit-seen 0 (locate blocks (tip.height + 1) tip.height 2 2 []) genesis h)

-- A search over entries that name blocks of one chain, in another one.
find_known :
    (ours theirs : List Block) (es : List BlockLocatorEntry) (e : BlockLocatorEntry)
    → All (Names theirs) es
    → find_common_ancestor ours es ≡ some e
    → Names theirs e × Names ours e
unfolding find_common_ancestor
find_known ours theirs [] e all h = ground arith
find_known ours theirs (x ∷ es) e (g, all) h = elim (Bool-cases (is_known ours x)) [
  | inl k ↦ ground (arith, g)
  | inr k ↦ ground (arith, find_known ours theirs es e all)
]

find_genesis :
    (ours theirs : List Block) (es : List BlockLocatorEntry) (genesis : Str)
    → All (Names theirs) es
    → seen 0 es ≡ true
    → hash_at 0 theirs ≡ some genesis
    → hash_at 0 ours ≡ some genesis
    → find_common_ancestor ours es ≢ none
unfolding find_common_ancestor
find_genesis ours theirs [] genesis all s h k = ground arith
find_genesis ours theirs (x ∷ es) genesis (g, all) s h k =
    ground (arith, g, find_genesis ours theirs es genesis all)

-- An entry that the search in our chain finds for the locator of another chain names a block, by
-- height and hash, of both chains.
pub find_common_ancestor_sound :
    (ours theirs : List Block) (e : BlockLocatorEntry)
    → find_common_ancestor ours (build_block_locator theirs) ≡ some e
    → (hash_at e.height theirs ≡ some e.hash) × (hash_at e.height ours ≡ some e.hash)
find_common_ancestor_sound ours theirs e h =
    find_known ours theirs (build_block_locator theirs) e (build_block_locator-Names theirs) h

-- For two chains that have the same hash at height 0, the search in ours for the locator of the
-- other one, which has a tip, finds an entry.
pub find_common_ancestor_found :
    (ours theirs : List Block) (tip : Block) (genesis : Str)
    → last? theirs ≡ some tip
    → hash_at 0 theirs ≡ some genesis
    → hash_at 0 ours ≡ some genesis
    → find_common_ancestor ours (build_block_locator theirs) ≢ none
find_common_ancestor_found ours theirs tip genesis l h k =
    find_genesis ours theirs (build_block_locator theirs) genesis (build_block_locator-Names theirs)
      (build_block_locator-seen theirs tip genesis l h) h k
