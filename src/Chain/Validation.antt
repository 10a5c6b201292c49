-- ===== src/Chain/Validation.antt =====
-- The checks of a block and of a chain: deskachain/node/internal/chain/validation.go. The clock and
-- the JSON encoder are parameters; a chain is checked at one instant.
pub mod Payments
pub mod Parts
pub mod Sound
use des_ka_project.Prelude.{
  ℕ, ◌+◌, Bool, true, false, not, ◌&&◌, ◌||◌, List, [], ◌∷◌, ◌++◌, Option, none, some, Str, codes,
  ◌=s◌, is_empty, has_prefix, ltb, leb, ◌==◌, if◌then◌else◌, length, last?, Error, msg, wrap,
  Result, ok, err, ⊤, Proc, check, wrap_err, map_err, wrapping,
}
use des_ka_project.Prelude.Int.{ℤ, ◌+ℤ◌, ltb_ℤ}
use des_ka_project.Prelude.Results.{◌>>=◌, ◌>>◌}
use des_ka_project.Prelude.Errors.{error_text, errors_is}
use des_ka_project.Arith.{add}
use des_ka_project.Config.{DifficultyParams, ConsensusParams, NetworkConfig, initial_block_reward}
use des_ka_project.Fees
use des_ka_project.Types.{
  Transaction, protocol_version, tx_type, tx_version_asset, tx_type_transfer, tx_type_stake_lock,
  coinbase_sender, validate_transaction_version,
}
use des_ka_project.Types.Crypto.{Crypto}
use des_ka_project.Types.Envelope.{calculate_id_for_chain_id}
use des_ka_project.Types.Block.{
  Block, block_protocol_version, block_version_canonical, validate_block_version,
  calculate_merkle_root,
}
use des_ka_project.Types.Block.Header.{calculate_hash}
use des_ka_project.Ledger.{MatureLedger, clone}
use des_ka_project.Ledger.Native.{err_immature_balance}
use des_ka_project.Ledger.Apply.{
  apply_block, apply_transaction_at_height, apply_coinbase_at_height, replay_mature_with_profile,
}
use des_ka_project.Ledger.Supply.{total_supply_with_profile}
use des_ka_project.StateRoot.{root_for_ledger}
use des_ka_project.Chain.Difficulty.{
  int64, normalize_difficulty_params, calculate_next_difficulty_with_params,
}
use des_ka_project.Chain.Pow.{validate_proof_of_work}
use des_ka_project.Chain.Genesis.{genesis_block_for_network}
use des_ka_project.Chain.Resources.{validate_block_resources}

unfoldable pub validate_block_timestamp : ℤ → Block → Block → DifficultyParams → Result ⊤
validate_block_timestamp now b parent params = do
  check (ltb_ℤ b.timestamp parent.timestamp) (msg "invalid block timestamp: before parent")
  check
      (ltb_ℤ (int64 (now +ℤ (normalize_difficulty_params params).max_future_drift_seconds))
        b.timestamp)
      (msg "invalid block timestamp: too far in future")

-- `prior[len(prior)-1]` panics on an empty slice.
abbrev pub check_timestamp : ℤ → Block → Option Block → DifficultyParams → Result ⊤
check_timestamp now b none params = err (msg "panic: index out of range")
check_timestamp now b (some parent) params = validate_block_timestamp now b parent params

unfoldable pub normalize_tx_validation_error : Error → Error
normalize_tx_validation_error e =
    let text = error_text e in
    if text =s codes "invalid transaction signature"
    then msg "invalid signature"
    else if text =s codes "public key does not match sender address"
    then msg "public key does not match sender"
    else if text =s codes "transaction id mismatch"
    then msg "tx id mismatch"
    else if text =s codes "insufficient balance"
    then msg "sender balance insufficient"
    else e

module _ (c : Crypto) where
  -- The checks of the loop over the transactions, with the number of coinbases and the fees so far.
  unfoldable pub check_coinbase : NetworkConfig → ℕ → Transaction → ℕ × ℕ → Result (ℕ × ℕ)
  check_coinbase p i tx (count, fees) = do
    check (not (i == 0)) (msg "coinbase must be first transaction")
    check (not (tx.from =s coinbase_sender)) (msg "coinbase sender must be COINBASE")
    expected_id ← calculate_id_for_chain_id c p.chain_id tx
    check (not (tx.id =s expected_id)) (msg "coinbase transaction id mismatch")
    ok (count + 1, fees)

  unfoldable pub check_payment : NetworkConfig → Transaction → ℕ × ℕ → Result (ℕ × ℕ)
  check_payment p tx (count, fees) = do
    check (tx_type tx =s tx_type_transfer && tx.amount == 0)
        (msg "tx amount must be greater than zero")
    check (tx_type tx =s tx_type_stake_lock && tx.amount == 0)
        (msg "tx amount must be greater than zero")
    check (tx_type tx =s tx_type_transfer && tx.from =s tx.to)
        (msg "tx sender and recipient must differ")
    wrap_err "tx" (Fees.validate tx p)
    (if leb tx_version_asset p.tx_version || tx_type tx =s tx_type_transfer
        then (do
          total ← map_err (msg "transaction fees overflow") (add fees tx.fee)
          ok (count, total))
        else ok (count, fees))

  unfoldable pub check_transaction : NetworkConfig → ℕ → Transaction → ℕ × ℕ → Result (ℕ × ℕ)
  check_transaction p i tx tally = do
    wrap_err "tx" (validate_transaction_version (protocol_version tx) p.tx_version)
    (if tx.coinbase then check_coinbase p i tx tally else check_payment p tx tally)

  unfoldable pub check_transactions : NetworkConfig → ℕ → List Transaction → ℕ × ℕ → Result (ℕ × ℕ)
  check_transactions p i [] tally = ok tally
  check_transactions p i (tx ∷ txs) tally = do
    tally' ← check_transaction p i tx tally
    check_transactions p (i + 1) txs tally'

  -- What the coinbase of a block must pay.
  unfoldable pub expected_reward : NetworkConfig → ℕ → Result ℕ
  expected_reward p fees =
      if leb tx_version_asset p.tx_version
      then ok p.economic.block_subsidy
      else map_err (msg "block reward overflow") (add initial_block_reward fees)

  unfoldable pub check_coinbase_amounts : ℕ → List Transaction → Result ⊤
  check_coinbase_amounts want [] = ok tt
  check_coinbase_amounts want (tx ∷ txs) = do
    check (tx.coinbase && not (tx.amount == want)) (msg "invalid coinbase amount")
    check_coinbase_amounts want txs

  unfoldable pub check_reward : NetworkConfig → ℕ × ℕ → List Transaction → Result ⊤
  check_reward p (count, fees) txs = do
    check (not (count == 1)) (msg "block must include exactly one coinbase transaction")
    want ← expected_reward p fees
    check_coinbase_amounts want txs

  -- The checks above the genesis block.
  unfoldable pub check_position :
      ℤ → Block → List Block → DifficultyParams → NetworkConfig → Result ⊤
  check_position now b prior params p = do
    check (not (b.difficulty == calculate_next_difficulty_with_params prior params))
        (msg "invalid difficulty at height")
    check_timestamp now b (last? prior) params
    wrap_err "invalid miner address" (c.validate_address b.miner_address p)
    check (not (validate_proof_of_work c b)) (msg "invalid proof of work")

  abbrev pub tx_error : Result ⊤ → Result ⊤
  tx_error (ok _) = ok tt
  tx_error (err e) =
      if errors_is e err_immature_balance
      then err (msg "invalid transaction at height: spends immature coinbase")
      else err (wrap "tx" (normalize_tx_validation_error e))

  abbrev pub apply_checked_one : ℕ → Transaction → Proc MatureLedger ⊤
  apply_checked_one height tx l =
      if tx.coinbase
      then wrapping "tx" (apply_coinbase_at_height c tx height) l
      else (let (r, l') = apply_transaction_at_height c tx height l in (tx_error r, l'))

  -- The second loop over the transactions, on the ledger of the blocks before.
  unfoldable pub apply_checked : ℕ → List Transaction → Proc MatureLedger ⊤
  apply_checked height [] l = (ok tt, l)
  apply_checked height (tx ∷ txs) l =
      let (r, l') = apply_checked_one height tx l in
      elim r [ ok _ ↦ apply_checked height txs l' | err e ↦ (err e, l') ]

  unfoldable pub validate_state_root : Block → MatureLedger → Result ⊤
  validate_state_root b pre_block =
      let (r, candidate) = apply_block c b (clone pre_block).0 in
      (do
        wrap_err "state root replay failed" r
        expected ← wrap_err "state root calculation failed" (root_for_ledger c candidate).0
        check (is_empty b.state_root) (msg "canonical block state root is empty")
        check (not (b.state_root =s expected)) (msg "state root mismatch"))

  module _ (block_json : Block → Str) (now : ℤ) where
    unfoldable pub validate_block :
        Block → List Block → DifficultyParams → ConsensusParams → NetworkConfig → Result ⊤
    validate_block b prior params consensus p = do
      validate_block_version (block_protocol_version b) p.block_version
      check (not (b.hash =s calculate_hash c b)) (msg "block hash mismatch")
      check (not (b.merkle_root =s calculate_merkle_root c b.transactions))
          (msg "merkle root mismatch")
      validate_block_resources c block_json b p.consensus p
      (if ltb 0 b.height then check_position now b prior params p else ok tt)
      tally ← check_transactions p 0 b.transactions (0, 0)
      (if ltb 0 b.height then check_reward p tally b.transactions else ok tt)
      l ← replay_mature_with_profile c prior consensus p
      (apply_checked b.height b.transactions (clone l).1).0
      (if block_protocol_version b == block_version_canonical
          then validate_state_root b (clone l).0
          else ok tt)

    unfoldable pub validate_next_block_with_network :
        Block → Block → List Block → DifficultyParams → ConsensusParams → NetworkConfig → Result ⊤
    validate_next_block_with_network b tip prior params consensus p = do
      expected_height ← map_err (msg "block height overflow") (add tip.height 1)
      check (not (b.height == expected_height)) (msg "invalid block height")
      check (not (b.previous_hash =s tip.hash)) (msg "previous hash does not match tip")
      validate_block b prior params consensus p
