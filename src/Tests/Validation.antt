-- ===== src/Tests/Validation.antt =====
-- A chain of two blocks that the checks accept, on a network with assets and state roots.
use des_ka_project.Prelude.{
  ℕ, ◌+◌, ◌*◌, ◌≤◌, ◌≡◌, ◌⊎◌, refl, true, false, [], ◌∷◌, ◌++◌, List, Str, codes, length, ok, err,
  Result, arith, not, is_empty, check, msg, ⊤, some, none, Option,
}
use des_ka_project.Prelude.Int.{ℤ, pos}
use des_ka_project.Config.{NetworkConfig, localnet, genesis_timestamp, genesis_message}
use des_ka_project.Types.{Transaction, coinbase_sender, tx_type_coinbase}
use des_ka_project.Types.Crypto.{Crypto}
use des_ka_project.Types.Envelope.{calculate_id_for_chain_id}
use des_ka_project.Types.Block.{Block, calculate_merkle_root}
use des_ka_project.Types.Block.Header.{calculate_hash}
use des_ka_project.Chain.Genesis.{genesis_block_for_network}
use des_ka_project.Chain.Pow.{zeros}
use des_ka_project.Arith.{max_u64}
use des_ka_project.Mempool.{mem}
use des_ka_project.Types.Block.Header.{canonical_header_bytes_with_nonce, header_fields}
use des_ka_project.Types.Block.Committed.{
  IsHeader, SameHeader, canonical_header_bytes_with_nonce_inj,
}
use des_ka_project.Chain.Pow.{mine_with_context, mine_from, validate_proof_of_work}
use des_ka_project.Chain.Pow.Search.{Found, Exhausted, mine_with_context_ends}
use des_ka_project.Chain.Validation.{validate_next_block_with_network}
use des_ka_project.Chain.Whole.{validate_chain, ValidationResult, is_genesis}
use des_ka_project.Chain.Whole.Accepted.{IsChain, genesis, validate_chain-IsChain}
use des_ka_project.Chain.Whole.Coins.{capped, per_block, validate_chain-total_supply}
use des_ka_project.Chain.Whole.Premine.{with_transactions, validate_chain-with_transactions}
use des_ka_project.StateRoot.{root_for_blocks}
use des_ka_project.Tests.Data.{alice, toy, transfer_tx}

-- A hash of four zeros and a length.
abbrev pub zero_hash : Crypto
zero_hash = record toy { double_sha256_hex = λ s. codes "0000" ++ (length s ∷ []) }

abbrev pub net : NetworkConfig
net = record localnet {
  block_version = 2;
  economic = record { block_subsidy = 7; fee_only_blocks = false };
}

abbrev pub block_json : Block → Str
block_json b = b.hash

abbrev coinbase_tx : Transaction
coinbase_tx = record transfer_tx {
  id = [];
  from = coinbase_sender;
  to = alice;
  amount = 7;
  fee = 0;
  nonce = 0;
  signature = [];
  public_key = [];
  coinbase = true;
  type = tx_type_coinbase;
}

abbrev pub signed_coinbase : Transaction
signed_coinbase = record coinbase_tx { id = codes "0000" ++ (156 ∷ []) }

abbrev unsealed : Block
unsealed = record {
  version = 2;
  height = 1;
  previous_hash = codes "0000" ++ (136 ∷ []);
  timestamp = pos 1717200060;
  nonce = 5;
  difficulty = 4;
  miner_address = alice;
  transactions = signed_coinbase ∷ [];
  merkle_root = signed_coinbase.id;
  state_root = codes "0000" ++ (188 ∷ []);
  hash = [];
  genesis_marker = [];
}

abbrev pub genesis_block : Block
genesis_block = record {
  version = 0;
  height = 0;
  previous_hash = zeros 64;
  timestamp = genesis_timestamp;
  nonce = 0;
  difficulty = 0;
  miner_address = [];
  transactions = [];
  merkle_root = codes "0000" ++ (0 ∷ []);
  state_root = [];
  hash = codes "0000" ++ (136 ∷ []);
  genesis_marker = genesis_message;
}

abbrev pub first_block : Block
first_block = record unsealed { hash = codes "0000" ++ (102 ∷ []) }

abbrev pub clock : ℤ
clock = pos 1717200060

abbrev pub two_blocks : List Block
two_blocks = genesis_block ∷ first_block ∷ []

pub runs :
    (validate_chain zero_hash block_json clock net.difficulty net.consensus net two_blocks
      ≡ ok (record { height = 1; blocks = 2; total_supply = 7 }))
    × (validate_next_block_with_network zero_hash block_json clock first_block genesis_block
          (genesis_block ∷ [])
          net.difficulty
          net.consensus
          net
        ≡ ok tt)
    × (is_genesis zero_hash genesis_block net ≡ true)
    × (genesis_block.hash ≡ calculate_hash zero_hash genesis_block)
    × (mem signed_coinbase.id [] ≡ false)
unfolding des_ka_project.Prelude.str_discrete des_ka_project.Prelude.Decimal.format_int
    des_ka_project.Prelude.Int.◌+ℤ◌ des_ka_project.Arith.add_cap des_ka_project.Config.localnet
    des_ka_project.Types.validate_transaction_version des_ka_project.Types.Codec.write_bool
    des_ka_project.Types.Codec.write_canonical_uint64 des_ka_project.Types.Codec.to_int64
    des_ka_project.Types.Codec.write_canonical_int64
    des_ka_project.Types.Codec.write_canonical_string
    des_ka_project.Types.Codec.write_canonical_header
    des_ka_project.Types.Codec.canonical_signing_bytes_with_chain_id
    des_ka_project.Types.Envelope.signing_bytes_with_chain_id
    des_ka_project.Types.Envelope.calculate_id_for_chain_id
    des_ka_project.Types.Block.block_protocol_version
    des_ka_project.Types.Block.validate_block_version
    des_ka_project.Types.Block.calculate_merkle_root
    des_ka_project.Types.Block.Header.canonical_header_bytes_with_nonce
    des_ka_project.Types.Block.Header.header_bytes_with_nonce
    des_ka_project.Types.Block.Header.calculate_hash des_ka_project.Fees.gas_used
    des_ka_project.Asset.derived_id des_ka_project.Asset.State.new_state
    des_ka_project.Asset.State.balance des_ka_project.Asset.State.add_balance
    des_ka_project.Asset.State.credit des_ka_project.Asset.Listing.definitions
    des_ka_project.Asset.Listing.balances des_ka_project.Staking.new_state
    des_ka_project.Staking.refresh_released des_ka_project.Staking.records
    des_ka_project.Ledger.new_mature_with_profile des_ka_project.Ledger.account
    des_ka_project.Ledger.set_account des_ka_project.Ledger.asset_model_enabled
    des_ka_project.Ledger.with_rollback des_ka_project.Ledger.Native.settle_fees
    des_ka_project.Ledger.Apply.mature_credit des_ka_project.Ledger.Apply.mature_credits
    des_ka_project.Ledger.Apply.mature_coinbases
    des_ka_project.Ledger.Apply.apply_coinbase_at_height
    des_ka_project.Ledger.Apply.apply_transactions des_ka_project.Ledger.Apply.run_block
    des_ka_project.Ledger.Apply.apply_block des_ka_project.Ledger.Apply.apply_blocks
    des_ka_project.Ledger.Apply.replay_mature_with_profile
    des_ka_project.Ledger.Supply.total_supply_with_profile des_ka_project.StateRoot.state_accounts
    des_ka_project.StateRoot.state_stakes des_ka_project.StateRoot.state_asset_definitions
    des_ka_project.StateRoot.state_asset_balances des_ka_project.StateRoot.stable_digest_inputs
    des_ka_project.StateRoot.root_for_collections_with_assets
    des_ka_project.StateRoot.root_for_ledger des_ka_project.Chain.Difficulty.int64
    des_ka_project.Chain.Difficulty.normalize_difficulty_params
    des_ka_project.Chain.Difficulty.next_difficulty
    des_ka_project.Chain.Difficulty.calculate_next_difficulty_with_params
    des_ka_project.Chain.Pow.validate_proof_of_work
    des_ka_project.Chain.Genesis.genesis_marker_for_network
    des_ka_project.Chain.Genesis.genesis_block_for_network
    des_ka_project.Chain.Resources.validate_transaction_size
    des_ka_project.Chain.Resources.block_gas des_ka_project.Chain.Resources.validate_block_resources
    des_ka_project.Chain.Validation.validate_block_timestamp
    des_ka_project.Chain.Validation.check_coinbase des_ka_project.Chain.Validation.check_transaction
    des_ka_project.Chain.Validation.check_transactions
    des_ka_project.Chain.Validation.expected_reward
    des_ka_project.Chain.Validation.check_coinbase_amounts
    des_ka_project.Chain.Validation.check_reward des_ka_project.Chain.Validation.check_position
    des_ka_project.Chain.Validation.apply_checked
    des_ka_project.Chain.Validation.validate_state_root
    des_ka_project.Chain.Validation.validate_block des_ka_project.Chain.Whole.see_transactions
    des_ka_project.Chain.Whole.validate_links des_ka_project.Chain.Whole.validate_chain
    des_ka_project.Chain.Validation.validate_next_block_with_network
runs = (refl, refl, refl, refl, refl)

small : net.economic.block_subsidy ≤ max_u64
small = omega arith

abbrev Rules : List Block → List Str → Type 0
Rules = IsChain zero_hash block_json clock net.difficulty net.consensus net

validate_chain-IsChain_example : (seen : List Str) × Rules two_blocks seen
validate_chain-IsChain_example =
    validate_chain-IsChain zero_hash block_json clock net.difficulty net.consensus net two_blocks
      (record { height = 1; blocks = 2; total_supply = 7 }) runs.0

pub start : Rules (genesis_block ∷ []) []
start = genesis runs.2 runs.3

validate_chain-total_supply_example : (2 ≡ 1 + 1) × (7 ≡ capped (1 * per_block net))
validate_chain-total_supply_example =
    validate_chain-total_supply zero_hash block_json clock net.difficulty net.consensus net
      two_blocks (record { height = 1; blocks = 2; total_supply = 7 }) small runs.0

validate_chain-with_transactions_example :
    validate_chain zero_hash block_json clock net.difficulty net.consensus net
      (with_transactions zero_hash net (signed_coinbase ∷ []) ∷ [])
    ≡ ok (record { height = 0; blocks = 1; total_supply = 0 })
validate_chain-with_transactions_example =
    validate_chain-with_transactions zero_hash net block_json clock net.difficulty net.consensus
      (signed_coinbase ∷ [])

mine_with_context_ends_example :
    Found zero_hash 9 unsealed 5 (mine_with_context zero_hash (λ _. false) 9 7 unsealed)
    ⊎ Exhausted zero_hash 9 unsealed 5 (mine_with_context zero_hash (λ _. false) 9 7 unsealed)
mine_with_context_ends_example =
    mine_with_context_ends zero_hash 9 unsealed 7 (omega arith) (omega arith) (omega arith)
      (omega arith)

mining : mine_with_context zero_hash (λ _. false) 0 1 unsealed ≡ some (ok first_block)
unfolding des_ka_project.Prelude.str_discrete des_ka_project.Prelude.Decimal.format_int
    des_ka_project.Types.Codec.write_bool des_ka_project.Types.Codec.write_canonical_uint64
    des_ka_project.Types.Codec.to_int64 des_ka_project.Types.Codec.write_canonical_int64
    des_ka_project.Types.Codec.write_canonical_string
    des_ka_project.Types.Codec.write_canonical_header
    des_ka_project.Types.Codec.canonical_signing_bytes_with_chain_id
    des_ka_project.Types.Block.block_protocol_version
    des_ka_project.Types.Block.validate_block_version
    des_ka_project.Types.Block.calculate_merkle_root
    des_ka_project.Types.Block.Header.canonical_header_bytes_with_nonce
    des_ka_project.Types.Block.Header.header_bytes_with_nonce
    des_ka_project.Types.Block.Header.calculate_hash mine_with_context mine_from
mining = refl

abbrev header_bytes : Str
header_bytes = 1 ∷ (0 ∷ 0 ∷ 0 ∷ 2 ∷ header_fields unsealed 5)

header_runs :
    (canonical_header_bytes_with_nonce unsealed 5 ≡ ok header_bytes)
    × (canonical_header_bytes_with_nonce first_block 5 ≡ ok header_bytes)
unfolding des_ka_project.Prelude.str_discrete des_ka_project.Prelude.Decimal.format_int
    des_ka_project.Types.Codec.write_bool des_ka_project.Types.Codec.write_canonical_uint64
    des_ka_project.Types.Codec.to_int64 des_ka_project.Types.Codec.write_canonical_int64
    des_ka_project.Types.Codec.write_canonical_string
    des_ka_project.Types.Codec.write_canonical_header
    des_ka_project.Types.Codec.canonical_signing_bytes_with_chain_id
    des_ka_project.Types.Block.block_protocol_version
    des_ka_project.Types.Block.validate_block_version
    des_ka_project.Types.Block.calculate_merkle_root
    des_ka_project.Types.Block.Header.canonical_header_bytes_with_nonce
    des_ka_project.Types.Block.Header.header_bytes_with_nonce
    des_ka_project.Types.Block.Header.calculate_hash
header_runs = (refl, refl)

unsealed-IsHeader : IsHeader unsealed
unsealed-IsHeader = ground arith

first_block-IsHeader : IsHeader first_block
first_block-IsHeader = ground arith

canonical_header_bytes_with_nonce_inj_example :
    SameHeader unsealed first_block × (unsealed.nonce ≡ first_block.nonce)
canonical_header_bytes_with_nonce_inj_example =
    canonical_header_bytes_with_nonce_inj unsealed first_block 5 5 header_bytes unsealed-IsHeader
      first_block-IsHeader (omega arith) (omega arith) header_runs.0 header_runs.1
