-- ===== src/Chain/Locator.antt =====
-- deskachain/node/internal/chain/locator.go: the block locator and the common ancestor. The map from
-- heights to hashes is a search in the blocks, where a later block of the same height wins.
use des_ka_project.Prelude.{
  ℕ, zero, suc, ◌+◌, ◌-◌, ◌*◌, ◌%◌, Bool, false, ◌||◌, List, [], ◌∷◌, ◌++◌, Str, ◌=s◌, ltb, leb,
  ◌==◌, if◌then◌else◌, Option, none, some, last?,
}
use des_ka_project.Types.Block.{Block}

pub record BlockLocatorEntry : Type 0 where
  pub height : ℕ
  pub hash : Str

-- `byHeight[height]`
unfoldable pub hash_at : ℕ → List Block → Option Str
hash_at height [] = none
hash_at height (b ∷ bs) = elim (hash_at height bs) [
  | some hash ↦ some hash
  | none ↦ if b.height == height then some b.hash else none
]

-- The heights that the locator has.
abbrev pub seen : ℕ → List BlockLocatorEntry → Bool
seen height [] = false
seen height (e ∷ es) = e.height == height || seen height es

-- An entry is added where there is a block of that height and no entry yet.
unfoldable pub visit : List Block → ℕ → List BlockLocatorEntry → List BlockLocatorEntry
visit blocks height locator = elim (hash_at height blocks) [
  | none ↦ locator
  | some hash ↦
      if seen height locator
      then locator
      else locator ++ record { height = height; hash = hash } ∷ []
]

-- The loop: two single steps, then steps that double, on fuel.
unfoldable pub locate : List Block → ℕ → ℕ → ℕ → ℕ → List BlockLocatorEntry → List BlockLocatorEntry
locate blocks zero height step linear locator = locator
locate blocks (suc fuel) height step linear locator =
    let locator' = visit blocks height locator in
    let next = if leb height step then 0 else height - step in
    let near = locate blocks fuel (height - 1) step (linear - 1) locator' in
    let far = locate blocks fuel next (step * 2 % 18446744073709551616) linear locator' in
    if height == 0 then locator' else if ltb 0 linear then near else far

-- The height falls in every round, so one round more than the tip's height is fuel enough.
unfoldable pub build_block_locator : List Block → List BlockLocatorEntry
build_block_locator blocks = elim (last? blocks) [
  | none ↦ []
  | some tip ↦ visit blocks 0 (locate blocks (tip.height + 1) tip.height 2 2 [])
]

abbrev pub is_known : List Block → BlockLocatorEntry → Bool
is_known blocks e = elim (hash_at e.height blocks) [ none ↦ false | some hash ↦ hash =s e.hash ]

unfoldable pub find_common_ancestor : List Block → List BlockLocatorEntry → Option BlockLocatorEntry
find_common_ancestor blocks [] = none
find_common_ancestor blocks (e ∷ es) =
    let rest = find_common_ancestor blocks es in if is_known blocks e then some e else rest
