-- ===== src/Chain/Retarget.antt =====
-- The next difficulty stays within the network's bounds, and moves by one at most
-- (deskachain/node/internal/chain/pow.go).
use des_ka_project.Prelude.{
  ℕ, ◌+◌, ◌-◌, ◌≤◌, ◌<◌, ◌≡◌, ◌≢◌, List, arith, some, last?, Option-cases, inl, inr,
}
use des_ka_project.Config.{DifficultyParams}
use des_ka_project.Types.Block.{Block}
use des_ka_project.Chain.Difficulty.{
  normalize_difficulty_params, clamp_difficulty, retarget, next_difficulty, block_at,
  calculate_next_difficulty_with_params,
}

normalized_order :
    (p : DifficultyParams)
    → (1 ≤ (normalize_difficulty_params p).min_difficulty)
      × ((normalize_difficulty_params p).min_difficulty
          ≤ (normalize_difficulty_params p).max_difficulty)
unfolding normalize_difficulty_params
normalized_order p = ground arith

next_difficulty_bounds :
    (p : DifficultyParams) (blocks : List Block) (tip : Block)
    → p.min_difficulty ≤ p.max_difficulty
    → tip.height ≢ 0
    → tip.difficulty ≢ 0
    → (p.min_difficulty ≤ next_difficulty p blocks tip)
      × (next_difficulty p blocks tip ≤ p.max_difficulty)
unfolding next_difficulty clamp_difficulty
next_difficulty_bounds p blocks tip o h d = ground arith

-- Where the tip is not the genesis block and its difficulty is not zero, the next difficulty lies
-- between the normalized smallest and largest difficulty, of which the smallest is at least 1.
pub calculate_next_difficulty_with_params_bounds :
    (blocks : List Block) (tip : Block) (params : DifficultyParams)
    → last? blocks ≡ some tip
    → tip.height ≢ 0
    → tip.difficulty ≢ 0
    → (1 ≤ (normalize_difficulty_params params).min_difficulty)
      × ((normalize_difficulty_params params).min_difficulty
          ≤ calculate_next_difficulty_with_params blocks params)
      × (calculate_next_difficulty_with_params blocks params
          ≤ (normalize_difficulty_params params).max_difficulty)
unfolding calculate_next_difficulty_with_params
calculate_next_difficulty_with_params_bounds blocks tip params l h d =
    let p = normalize_difficulty_params params in
    ground (arith, normalized_order params, next_difficulty_bounds p blocks tip)

retarget_step :
    (p : DifficultyParams) (first tip : Block)
    → tip.difficulty < 4294967295
    → (retarget p first tip ≤ tip.difficulty + 1) × (tip.difficulty ≤ retarget p first tip + 1)
unfolding retarget
retarget_step p first tip h = ground arith

clamp_difficulty_step :
    (d t : ℕ) (p : DifficultyParams)
    → p.min_difficulty ≤ t
    → t ≤ p.max_difficulty
    → d ≤ t + 1
    → t ≤ d + 1
    → (clamp_difficulty d p ≤ t + 1) × (t ≤ clamp_difficulty d p + 1)
unfolding clamp_difficulty
clamp_difficulty_step d t p a b c e = ground arith

next_difficulty_step :
    (p : DifficultyParams) (blocks : List Block) (tip : Block)
    → tip.height ≢ 0
    → p.min_difficulty ≤ tip.difficulty
    → tip.difficulty ≤ p.max_difficulty
    → 1 ≤ p.min_difficulty
    → p.max_difficulty < 4294967295
    → (next_difficulty p blocks tip ≤ tip.difficulty + 1)
      × (tip.difficulty ≤ next_difficulty p blocks tip + 1)
unfolding next_difficulty
next_difficulty_step p blocks tip h a b o m =
    let first = block_at (tip.height - p.retarget_window + 1) blocks in
    elim (Option-cases first) [
      | inl e ↦ ground (arith, clamp_difficulty_step tip.difficulty tip.difficulty p)
      | inr (first, e) ↦ ground (
        arith,
        clamp_difficulty_step tip.difficulty tip.difficulty p,
        clamp_difficulty_step (retarget p first tip) tip.difficulty p,
        retarget_step p first tip,
      )
    ]

-- Where the tip is not the genesis block, its difficulty is within the normalized bounds and the
-- largest difficulty is below 2^32 - 1, the next difficulty differs from the tip's by one at most.
pub calculate_next_difficulty_with_params_step :
    (blocks : List Block) (tip : Block) (params : DifficultyParams)
    → last? blocks ≡ some tip
    → tip.height ≢ 0
    → (normalize_difficulty_params params).min_difficulty ≤ tip.difficulty
    → tip.difficulty ≤ (normalize_difficulty_params params).max_difficulty
    → (normalize_difficulty_params params).max_difficulty < 4294967295
    → (calculate_next_difficulty_with_params blocks params ≤ tip.difficulty + 1)
      × (tip.difficulty ≤ calculate_next_difficulty_with_params blocks params + 1)
unfolding calculate_next_difficulty_with_params
calculate_next_difficulty_with_params_step blocks tip params l h a b m =
    let p = normalize_difficulty_params params in
    ground (arith, normalized_order params, next_difficulty_step p blocks tip)
