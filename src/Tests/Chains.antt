-- ===== src/Tests/Chains.antt =====
-- Difficulty, work and locators on a short chain.
use des_ka_project.Prelude.{
  ℕ, ◌+◌, ◌≤◌, ◌<◌, ◌≡◌, ◌≢◌, refl, [], ◌∷◌, List, Str, codes, str_discrete, arith, some, none,
}
use des_ka_project.Prelude.Int.{pos}
use des_ka_project.Config.{DifficultyParams}
use des_ka_project.Types.Block.{Block}
use des_ka_project.Chain.Difficulty.{
  normalize_difficulty_params, calculate_next_difficulty_with_params,
}
use des_ka_project.Chain.Retarget.{
  calculate_next_difficulty_with_params_bounds, calculate_next_difficulty_with_params_step,
}
use des_ka_project.Chain.Work.{
  calculate_block_work, calculate_cumulative_work, total_work, calculate_cumulative_work-total_work,
}
use des_ka_project.Chain.Locator.{
  BlockLocatorEntry, hash_at, visit, locate, build_block_locator, find_common_ancestor,
}
use des_ka_project.Chain.Ancestor.{find_common_ancestor_sound, find_common_ancestor_found}

abbrev block : ℕ → Str → Block
block height hash = record {
  version = 1;
  height = height;
  previous_hash = [];
  timestamp = pos height;
  nonce = 0;
  difficulty = 4;
  miner_address = [];
  transactions = [];
  merkle_root = [];
  state_root = [];
  hash = hash;
  genesis_marker = [];
}

abbrev ours : List Block
ours = block 0 (codes "g") ∷ block 1 (codes "a") ∷ block 2 (codes "b") ∷ []

-- A chain that left ours after its second block.
abbrev theirs : List Block
theirs = block 0 (codes "g") ∷ block 1 (codes "a") ∷ block 2 (codes "c") ∷ []

-- A window of two blocks: the tip ends one.
abbrev params : DifficultyParams
params = record {
  initial_difficulty = 4;
  min_difficulty = 1;
  max_difficulty = 8;
  target_block_time_seconds = pos 10;
  retarget_window = 2;
  max_future_drift_seconds = pos 900;
}

not_genesis : (block 2 (codes "b")).height ≢ 0
not_genesis = omega arith

difficult : (block 2 (codes "b")).difficulty ≢ 0
difficult = omega arith

calculate_next_difficulty_with_params_bounds_example :
    (1 ≤ 1)
    × (1 ≤ calculate_next_difficulty_with_params ours params)
    × (calculate_next_difficulty_with_params ours params ≤ 8)
unfolding normalize_difficulty_params
calculate_next_difficulty_with_params_bounds_example =
    calculate_next_difficulty_with_params_bounds ours (block 2 (codes "b")) params refl not_genesis
      difficult

in_bounds :
    ((normalize_difficulty_params params).min_difficulty ≤ 4)
    × (4 ≤ (normalize_difficulty_params params).max_difficulty)
    × ((normalize_difficulty_params params).max_difficulty < 4294967295)
unfolding normalize_difficulty_params
in_bounds = omega arith

calculate_next_difficulty_with_params_step_example :
    (calculate_next_difficulty_with_params ours params ≤ 5)
    × (4 ≤ calculate_next_difficulty_with_params ours params + 1)
calculate_next_difficulty_with_params_step_example =
    calculate_next_difficulty_with_params_step ours (block 2 (codes "b")) params refl not_genesis
      in_bounds.0 in_bounds.1 in_bounds.2

calculate_cumulative_work-total_work_example : calculate_cumulative_work ours ≡ 196608
unfolding total_work calculate_block_work
calculate_cumulative_work-total_work_example = calculate_cumulative_work-total_work ours

abbrev fork : BlockLocatorEntry
fork = record { height = 1; hash = codes "a" }

forked : find_common_ancestor ours (build_block_locator theirs) ≡ some fork
unfolding find_common_ancestor build_block_locator locate visit hash_at str_discrete
forked = refl

find_common_ancestor_sound_example :
    (hash_at 1 theirs ≡ some (codes "a")) × (hash_at 1 ours ≡ some (codes "a"))
find_common_ancestor_sound_example = find_common_ancestor_sound ours theirs fork forked

genesis_of_both : (hash_at 0 theirs ≡ some (codes "g")) × (hash_at 0 ours ≡ some (codes "g"))
unfolding hash_at
genesis_of_both = (refl, refl)

find_common_ancestor_found_example : find_common_ancestor ours (build_block_locator theirs) ≢ none
find_common_ancestor_found_example =
    find_common_ancestor_found ours theirs (block 2 (codes "c")) (codes "g") refl genesis_of_both.0
      genesis_of_both.1
