-- ===== src/Chain/Validation/Parts.antt =====
-- The parts of a block's check in deskachain/node/internal/chain/validation.go and resources.go, one
-- by one: limits, place, time and reward.
use des_ka_project.Prelude.{
  ℕ, ◌+◌, ◌≡◌, ◌≤◌, ◌<◌, refl, subst, ◌∙◌, true, not, ◌&&◌, List, [], ◌∷◌, All, ltb, leb, ◌==◌,
  if◌then◌else◌, arith, msg, ok, check, wrap_err, Str, length, last?, Option, some, none,
}
use des_ka_project.Prelude.Int.{ℤ, ◌≤ℤ◌, ltb_ℤ, ◌+ℤ◌}
use des_ka_project.Prelude.Results.{
  check-ok, check-not-ok, check-equal-ok, then-ok, bind-ok, wrap_err-ok,
}
use des_ka_project.Arith.{add}
use des_ka_project.Config.{DifficultyParams, NetworkConfig, initial_block_reward}
use des_ka_project.Types.{Transaction, tx_version_asset}
use des_ka_project.Types.Crypto.{Crypto}
use des_ka_project.Types.Block.{Block}
use des_ka_project.Chain.Difficulty.{
  int64, normalize_difficulty_params, calculate_next_difficulty_with_params,
}
use des_ka_project.Chain.Pow.{validate_proof_of_work}
use des_ka_project.Chain.Resources.{
  validate_block_resources, block_gas, max_tx_count, max_block_bytes,
}
use des_ka_project.Chain.Validation.{
  validate_block_timestamp, check_timestamp, check_transactions, check_coinbase_amounts,
  check_reward, expected_reward, check_position,
}
use des_ka_project.Chain.Validation.Payments.{IsPaid, check_transactions-ok}

-- What a coinbase is to pay where a block collects these fees.
abbrev pub reward : NetworkConfig → ℕ → ℕ
reward p fees =
    if leb tx_version_asset p.tx_version
    then p.economic.block_subsidy
    else initial_block_reward + fees

module _ (c : Crypto) (block_json : Block → Str) (now : ℤ) where
  -- The limits on size and gas.
  pub record FitsLimits (p : NetworkConfig) (b : Block) : Type 0 where
    pub count : length b.transactions ≤ max_tx_count p.consensus
    pub bytes : length (block_json b) ≤ max_block_bytes p.consensus
    pub gas : ℕ
    pub gas_used : block_gas c p.consensus p 0 b.transactions ≡ ok gas
    pub gas_limit : 0 < p.consensus.max_gas_per_block → gas ≤ p.consensus.max_gas_per_block

  pub validate_block_resources-ok :
      (b : Block) (p : NetworkConfig)
      → validate_block_resources c block_json b p.consensus p ≡ ok tt
      → FitsLimits p b
  unfolding validate_block_resources
  validate_block_resources-ok b p h =
      let crowded = ltb (max_tx_count p.consensus) (length b.transactions) in
      let heavy = ltb (max_block_bytes p.consensus) (length (block_json b)) in
      let few = msg "block exceeds max transaction count" in
      let (a, h₁) = then-ok {r = check crowded few} h in
      let (gas, e, h₂) = bind-ok {r = block_gas c p.consensus p 0 b.transactions} h₁ in
      let costly = ltb 0 p.consensus.max_gas_per_block && ltb p.consensus.max_gas_per_block gas in
      let (d, g) = then-ok {r = check costly (msg "block exceeds max gas")} h₂ in
      let not_crowded = check-ok crowded few a in
      let not_costly = check-ok costly (msg "block exceeds max gas") d in
      let not_heavy = check-ok heavy (msg "block exceeds max size") g in
      record {
        count = ground arith;
        bytes = ground arith;
        gas = gas;
        gas_used = e;
        gas_limit = ground arith;
      }

  -- The time of a block: not before its parent's, nor too far ahead of the clock.
  pub record IsTimely (params : DifficultyParams) (above : Option Block) (b : Block) : Type 0 where
    pub parent : Block
    pub is_parent : above ≡ some parent
    pub after_parent : parent.timestamp ≤ℤ b.timestamp
    pub not_ahead :
        b.timestamp ≤ℤ int64 (now +ℤ (normalize_difficulty_params params).max_future_drift_seconds)

  check_timestamp-ok :
      (params : DifficultyParams) (above : Option Block) (b : Block)
      → check_timestamp now b above params ≡ ok tt
      → IsTimely params above b
  unfolding validate_block_timestamp
  check_timestamp-ok params none b h = ground arith
  check_timestamp-ok params (some parent) b h =
      let latest = int64 (now +ℤ (normalize_difficulty_params params).max_future_drift_seconds) in
      let early = msg "invalid block timestamp: before parent" in
      let (a, h₁) = then-ok {r = check (ltb_ℤ b.timestamp parent.timestamp) early} h in
      let after = check-ok (ltb_ℤ b.timestamp parent.timestamp) early a in
      let in_time =
        check-ok (ltb_ℤ latest b.timestamp) (msg "invalid block timestamp: too far in future") h₁ in
      record {
        parent = parent;
        is_parent = refl;
        after_parent = ground arith;
        not_ahead = ground arith;
      }

  -- The place of a block above its parent.
  pub record IsPlaced (params : DifficultyParams) (p : NetworkConfig) (prior : List Block)
      (b : Block) : Type 0 where
    pub difficulty : b.difficulty ≡ calculate_next_difficulty_with_params prior params
    pub timely : IsTimely params (last? prior) b
    pub miner : c.validate_address b.miner_address p ≡ ok tt
    pub work : validate_proof_of_work c b ≡ true

  pub check_position-ok :
      (params : DifficultyParams) (p : NetworkConfig) (prior : List Block) (b : Block)
      → check_position c now b prior params p ≡ ok tt
      → IsPlaced params p prior b
  unfolding check_position
  check_position-ok params p prior b h =
      let expected = calculate_next_difficulty_with_params prior params in
      let wrong = msg "invalid difficulty at height" in
      let (a, h₁) = then-ok {r = check (not (b.difficulty == expected)) wrong} h in
      let difficult = check-equal-ok b.difficulty expected wrong a in
      let (t, h₂) = then-ok {r = check_timestamp now b (last? prior) params} h₁ in
      let (m, w) =
        then-ok {r = wrap_err "invalid miner address" (c.validate_address b.miner_address p)} h₂ in
      let worked = check-not-ok (validate_proof_of_work c b) (msg "invalid proof of work") w in
      record {
        difficulty = difficult;
        timely = check_timestamp-ok params (last? prior) b t;
        miner = wrap_err-ok "invalid miner address" (c.validate_address b.miner_address p) m;
        work = worked;
      }

  check_coinbase_amounts-ok :
      (want : ℕ) (txs : List Transaction)
      → check_coinbase_amounts c want txs ≡ ok tt
      → All (λ tx. tx.coinbase ≡ true → tx.amount ≡ want) txs
  unfolding check_coinbase_amounts
  check_coinbase_amounts-ok want [] h = tt
  check_coinbase_amounts-ok want (tx ∷ txs) h =
      let wrong = tx.coinbase && not (tx.amount == want) in
      let (a, k) = then-ok {r = check wrong (msg "invalid coinbase amount")} h in
      let right = check-ok wrong (msg "invalid coinbase amount") a in
      ((λ e. ground arith), check_coinbase_amounts-ok want txs k)

  expected_reward-ok :
      (p : NetworkConfig) (fees want : ℕ)
      → expected_reward c p fees ≡ ok want
      → want ≡ reward p fees
  unfolding expected_reward add
  expected_reward-ok p fees want h = ground arith

  -- The rewarded coinbase is the first transaction; the others are payments.
  pub record IsRewarded (p : NetworkConfig) (txs : List Transaction) : Type 0 where
    pub fees : ℕ
    pub paid : IsPaid c p txs fees
    pub amount : paid.first.amount ≡ reward p fees

  pub check_reward-ok :
      (p : NetworkConfig) (txs : List Transaction) (tally : ℕ × ℕ)
      → check_transactions c p 0 txs (0, 0) ≡ ok tally
      → check_reward c p tally txs ≡ ok tt
      → IsRewarded p txs
  unfolding check_reward
  check_reward-ok p txs (n, fees) h k =
      let many = msg "block must include exactly one coinbase transaction" in
      let (a, k₁) = then-ok {r = check (not (n == 1)) many} k in
      let (want, e, k₂) = bind-ok {r = expected_reward c p fees} k₁ in
      let not_many = check-equal-ok n 1 many a in
      let paid = check_transactions-ok c p txs n fees h not_many in
      let amounts : All (λ tx. tx.coinbase ≡ true → tx.amount ≡ want) (paid.first ∷ paid.others) =
        subst (All (λ tx. tx.coinbase ≡ true → tx.amount ≡ want)) paid.first_others
          (check_coinbase_amounts-ok want txs k₂) in
      record {
        fees = fees;
        paid = paid;
        amount = amounts.0 paid.is_coinbase.coinbase ∙ expected_reward-ok p fees want e;
      }
