-- ===== src/Chain/Difficulty.antt =====
-- deskachain/node/internal/chain/pow.go: the difficulty of the next block. An int64 wraps around, as
-- `int64` says; a uint32 is increased modulo 2^32.
use des_ka_project.Prelude.{
  ℕ, suc, ◌+◌, ◌-◌, ◌/◌, ◌%◌, not, ◌&&◌, ◌||◌, List, [], ◌∷◌, ltb, ◌==◌, if◌then◌else◌, Option,
  none, some, last?,
}
use des_ka_project.Prelude.Int.{ℤ, pos, negsuc, ◌-ℤ◌, ◌*ℤ◌, ltb_ℤ, sub_ℕ}
use des_ka_project.Config.{DifficultyParams, initial_difficulty, block_time_target_secs}
use des_ka_project.Types.Codec.{to_int64}
use des_ka_project.Types.Block.{Block}

-- A result of int64 arithmetic, modulo 2^64.
unfoldable pub int64 : ℤ → ℤ
int64 (pos n) = to_int64 (n % 18446744073709551616)
int64 (negsuc n) = to_int64 (18446744073709551615 - n % 18446744073709551616)

abbrev or_default : ℕ → ℕ → ℕ
or_default d n = if n == 0 then d else n

abbrev or_default_ℤ : ℤ → ℤ → ℤ
or_default_ℤ d a = if ltb_ℤ (pos 0) a then a else d

unfoldable pub normalize_difficulty_params : DifficultyParams → DifficultyParams
normalize_difficulty_params p =
    let initial = or_default initial_difficulty p.initial_difficulty in
    let min = or_default 1 p.min_difficulty in
    let max = or_default initial p.max_difficulty in
    record {
      initial_difficulty = initial;
      min_difficulty = min;
      max_difficulty = if ltb max min then min else max;
      target_block_time_seconds = or_default_ℤ block_time_target_secs p.target_block_time_seconds;
      retarget_window = or_default 10 p.retarget_window;
      max_future_drift_seconds = or_default_ℤ (pos 900) p.max_future_drift_seconds;
    }

unfoldable pub clamp_difficulty : ℕ → DifficultyParams → ℕ
clamp_difficulty d p =
    if ltb d p.min_difficulty
    then p.min_difficulty
    else if ltb p.max_difficulty d
    then p.max_difficulty
    else d

-- The first block of a height.
abbrev pub block_at : ℕ → List Block → Option Block
block_at height [] = none
block_at height (b ∷ bs) = if b.height == height then some b else block_at height bs

-- `expectedTimespan/2`, which Go rounds to zero.
abbrev half : ℤ → ℤ
half (pos n) = pos (n / 2)
half (negsuc n) = sub_ℕ 0 (suc n / 2)

-- The difficulty that the times of the window ask for, before it is clamped.
unfoldable pub retarget : DifficultyParams → Block → Block → ℕ
retarget p first tip =
    let actual = int64 (tip.timestamp -ℤ first.timestamp) in
    let expected = int64 (p.target_block_time_seconds *ℤ to_int64 (p.retarget_window - 1)) in
    if not (ltb_ℤ (pos 0) actual)
    then (tip.difficulty + 1) % 4294967296
    else if ltb_ℤ actual (half expected)
    then (tip.difficulty + 1) % 4294967296
    else if ltb_ℤ (int64 (expected *ℤ pos 2)) actual && ltb 0 tip.difficulty
    then tip.difficulty - 1
    else tip.difficulty

-- The rules from the height of the tip on, with the parameters normalized.
unfoldable pub next_difficulty : DifficultyParams → List Block → Block → ℕ
next_difficulty p blocks tip =
    if tip.height == 0 || tip.difficulty == 0
    then p.initial_difficulty
    else if ltb tip.height p.retarget_window
    then clamp_difficulty tip.difficulty p
    else if p.retarget_window == 0 || not (tip.height % p.retarget_window == 0)
    then clamp_difficulty tip.difficulty p
    else elim (block_at (tip.height - p.retarget_window + 1) blocks) [
      | none ↦ clamp_difficulty tip.difficulty p
      | some first ↦ clamp_difficulty (retarget p first tip) p
    ]

unfoldable pub calculate_next_difficulty_with_params : List Block → DifficultyParams → ℕ
calculate_next_difficulty_with_params blocks params =
    let p = normalize_difficulty_params params in
    elim (last? blocks) [ none ↦ p.initial_difficulty | some tip ↦ next_difficulty p blocks tip ]

unfoldable pub blocks_until_retarget : List Block → DifficultyParams → ℕ
blocks_until_retarget blocks params =
    let p = normalize_difficulty_params params in
    elim (last? blocks) [
      | none ↦ p.retarget_window
      | some tip ↦
          if tip.height == 0
          then p.retarget_window
          else (let remaining = p.retarget_window - tip.height % p.retarget_window in
              if remaining == p.retarget_window then 0 else remaining)
    ]
