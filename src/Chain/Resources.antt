-- ===== src/Chain/Resources.antt =====
-- The limits on the size and the gas of a block: deskachain/node/internal/chain/resources.go. The
-- JSON encoder is a parameter, which does not fail on these types.
use des_ka_project.Prelude.{
  ℕ, ◌+◌, ◌-◌, ◌&&◌, List, [], ◌∷◌, Str, ltb, ◌==◌, if◌then◌else◌, length, msg, Result, ok, ⊤,
  check, wrap_err,
}
use des_ka_project.Prelude.Results.{◌>>=◌, ◌>>◌}
use des_ka_project.Arith.{max_u64}
use des_ka_project.Config.{
  ConsensusParams, NetworkConfig, default_max_block_bytes, default_max_tx_bytes,
  default_max_tx_count,
}
use des_ka_project.Fees.{gas_used}
use des_ka_project.Types.{Transaction}
use des_ka_project.Types.Crypto.{Crypto}
use des_ka_project.Types.Block.{Block}

abbrev or_default : ℕ → ℕ → ℕ
or_default d n = if n == 0 then d else n

abbrev pub max_tx_bytes : ConsensusParams → ℕ
max_tx_bytes p = or_default default_max_tx_bytes p.max_tx_bytes

abbrev pub max_tx_count : ConsensusParams → ℕ
max_tx_count p = or_default default_max_tx_count p.max_tx_count

abbrev pub max_block_bytes : ConsensusParams → ℕ
max_block_bytes p = or_default default_max_block_bytes p.max_block_bytes

module _ (c : Crypto) where
  unfoldable pub validate_transaction_size : Transaction → ConsensusParams → Result ⊤
  validate_transaction_size tx p =
      check (ltb (max_tx_bytes p) (length (c.transaction_json tx)))
        (msg "transaction exceeds max size")

  -- The gas of the transactions, added to the total so far.
  unfoldable pub block_gas : ConsensusParams → NetworkConfig → ℕ → List Transaction → Result ℕ
  block_gas consensus p total_gas [] = ok total_gas
  block_gas consensus p total_gas (tx ∷ txs) = do
    wrap_err "tx" (validate_transaction_size tx consensus)
    (gas, size) ← wrap_err "tx gas validation failed" (gas_used tx p)
    check (ltb (max_u64 - total_gas) gas) (msg "block gas calculation overflow")
    block_gas consensus p (total_gas + gas) txs

  unfoldable pub validate_block_resources :
      (Block → Str) → Block → ConsensusParams → NetworkConfig → Result ⊤
  validate_block_resources block_json b consensus p = do
    check (ltb (max_tx_count consensus) (length b.transactions))
        (msg "block exceeds max transaction count")
    gas ← block_gas consensus p 0 b.transactions
    check (ltb 0 consensus.max_gas_per_block && ltb consensus.max_gas_per_block gas)
        (msg "block exceeds max gas")
    check (ltb (max_block_bytes consensus) (length (block_json b))) (msg "block exceeds max size")
