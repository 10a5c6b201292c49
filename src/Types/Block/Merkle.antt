-- ===== src/Types/Block/Merkle.antt =====
-- The loop over the levels of the Merkle tree (deskachain/node/internal/types/block.go).
use des_ka_project.Prelude.{
  ℕ, zero, suc, ◌+◌, ◌≤◌, ◌≡◌, refl, List, [], ◌∷◌, ◌++◌, Str, length, arith,
}
use des_ka_project.Types.Crypto.{Crypto}
use des_ka_project.Types.Block.{next_level, reduce_levels}

module _ (c : Crypto) where
  -- A level is at most half as long as the one before, rounded up.
  next_level_half :
      (level : List Str)
      → length (next_level c level) + length (next_level c level) ≤ length level + 1
  unfolding next_level
  next_level_half [] = omega arith
  next_level_half (a ∷ []) = omega arith
  next_level_half (a ∷ b ∷ level) = ground (arith, next_level_half level)

  -- The loop over the levels of the Merkle tree ends in a single hash when its fuel is at least
  -- the number of leaves behind the first.
  pub reduce_levels_single :
      (fuel : ℕ) (a : Str) (level : List Str)
      → length level ≤ fuel
      → length (reduce_levels c fuel (a ∷ level)) ≡ 1
  unfolding reduce_levels next_level
  reduce_levels_single fuel a [] h = refl
  reduce_levels_single zero a (b ∷ level) h = omega arith
  reduce_levels_single (suc fuel) a (b ∷ level) h =
      reduce_levels_single fuel (c.double_sha256_hex (a ++ b)) (next_level c level)
        (omega (arith, next_level_half level, h))
