-- ===== src/Tests/Ledgers.antt =====
-- The ledger on a short chain: a coinbase, a block that lets it mature, and a transfer with a fee.
use des_ka_project.Prelude.{
  ℕ, ◌+◌, leb, ◌≡◌, ◌≢◌, refl, true, false, [], ◌∷◌, List, str_discrete, ok, is_ok,
}
use des_ka_project.Prelude.Int.{pos}
use des_ka_project.Prelude.Dict.{get}
use des_ka_project.Arith.{add, sub, add_cap}
use des_ka_project.Config.{ConsensusParams, localnet, native_asset_id}
use des_ka_project.Types.{
  Transaction, tx_version_asset, tx_type, tx_type_coinbase, protocol_version, effective_asset_id,
  effective_fee_payer, validate_transaction_version,
}
use des_ka_project.Types.Block.{Block}
use des_ka_project.Types.Codec
use des_ka_project.Types.Envelope
use des_ka_project.Asset.{is_native, equal_fold, trim_space}
use des_ka_project.Asset.State
use des_ka_project.Asset.State.{fee_collector_address}
use des_ka_project.Asset.Balances.{circulating}
use des_ka_project.Asset.Supply.{recorded_supply}
use des_ka_project.Staking
use des_ka_project.Fees
use des_ka_project.Ledger.{
  MatureLedger, CoinbaseCredit, account, set_account, asset_model_enabled, new_mature_with_profile,
  with_rollback, clone, zero_account,
}
use des_ka_project.Ledger.Native
use des_ka_project.Ledger.Native.{settle_fees, spend_native}
use des_ka_project.Ledger.Validate
use des_ka_project.Ledger.Validate.{validate_transaction}
use des_ka_project.Ledger.Apply
use des_ka_project.Ledger.Apply.{
  apply_block, apply_blocks, mature_at_tip, replay_mature_with_profile, mature_credits,
}
use des_ka_project.Ledger.Money.{view, take, spend_native-view}
use des_ka_project.Ledger.Settle.{CollectorInvalid, settle_fees-view}
use des_ka_project.Ledger.Consistent.{pending, IsConsistent}
use des_ka_project.Ledger.Maturing.{mature_credits-entry}
use des_ka_project.Ledger.Unchanged.{validate_transaction-view}
use des_ka_project.Ledger.Blocks.{apply_block-IsConsistent, replay_mature_with_profile-IsConsistent}
use des_ka_project.Tests.Data.{alice, bob, gold, transfer_tx, toy}

abbrev params : ConsensusParams
unfolding localnet
params = record localnet.consensus { coinbase_maturity = 1 }

abbrev coinbase_tx : Transaction
coinbase_tx = record transfer_tx {
  version = 1;
  from = [];
  to = alice;
  amount = 100;
  fee = 0;
  coinbase = true;
  type = tx_type_coinbase;
}

abbrev block : ℕ → List Transaction → Block
block height txs = record {
  version = 1;
  height = height;
  previous_hash = [];
  timestamp = pos height;
  nonce = 0;
  difficulty = 1;
  miner_address = bob;
  transactions = txs;
  merkle_root = [];
  state_root = [];
  hash = [];
  genesis_marker = [];
}

abbrev blocks : List Block
blocks = block 0 (coinbase_tx ∷ []) ∷ block 1 [] ∷ block 2 (transfer_tx ∷ []) ∷ []

abbrev start : MatureLedger
start = new_mature_with_profile params localnet

-- The coinbase has matured.
abbrev ready : MatureLedger
ready = (apply_blocks toy (block 0 (coinbase_tx ∷ []) ∷ block 1 [] ∷ []) start).1

abbrev replayed : MatureLedger
replayed = (apply_blocks toy blocks start).1

-- The coinbases are matured once more at the tip.
abbrev at_tip : MatureLedger
at_tip = mature_at_tip toy blocks replayed

-- A ledger with fees in the pool.
abbrev pooled : MatureLedger
pooled = record start {
  assets = (State.credit fee_collector_address native_asset_id 7 start.assets).1;
}

-- What the runs of the code give, computed together.
runs :
    ((account alice replayed).confirmed ≡ 68)
    × ((account bob replayed).confirmed ≡ 32)
    × (replay_mature_with_profile toy blocks params localnet ≡ ok at_tip)
    × IsConsistent alice (view alice gold ready)
    × (is_ok (settle_fees toy bob pooled).0 ≡ true)
    × (is_ok (spend_native alice 30 ready).0 ≡ true)
unfolding new_mature_with_profile apply_blocks account apply_block asset_model_enabled localnet
    with_rollback Apply.run_block Apply.apply_transactions Apply.apply_coinbase_at_height
    str_discrete add sub State.credit State.debit State.balance trim_space equal_fold is_native
    State.new_state State.add_balance State.subtract_balance State.ensure_account set_account
    settle_fees clone Staking.refresh_released Staking.new_state Staking.address_summary
    Staking.refresh_record add_cap Apply.mature_coinbases Apply.mature_credits Apply.mature_credit
    Apply.apply_transaction_at_height Apply.apply_asset_transaction_v3 Apply.execute_v3
    Apply.execute_native_transfer Native.address_summary Native.validate_native_spend
    Native.spend_native Native.receive_native Native.charge_native_fee validate_transaction
    Validate.validate_asset_transaction_v3 Validate.check_v3_form Validate.validate_v3_transfer
    Fees.validate Fees.minimum_fee Fees.gas_used Fees.base_gas tx_type protocol_version
    effective_asset_id effective_fee_payer validate_transaction_version
    Envelope.validate_asset_envelope Envelope.signing_bytes_with_chain_id
    Envelope.calculate_id_for_chain_id Envelope.validate_fee_payer_authorization
    Codec.canonical_signing_bytes_with_chain_id Codec.write_canonical_string
    Codec.write_canonical_uint32 Codec.write_canonical_uint64 Codec.write_canonical_header
    Codec.write_bool Codec.write_canonical_int64 replay_mature_with_profile circulating
    recorded_supply
runs = (
  refl,
  refl,
  refl,
  record { in_sync = refl; covered = refl; backed = refl; enabled = refl },
  refl,
  refl,
)

alice_ne : alice ≢ fee_collector_address
alice_ne e = cc

gold_ne : gold ≢ native_asset_id
gold_ne e = cc

gold_issued : is_native gold ≡ false
unfolding is_native equal_fold trim_space str_discrete
gold_issued = refl

has_assets : leb tx_version_asset start.profile.tx_version ≡ true
unfolding new_mature_with_profile localnet
has_assets = refl

replay_mature_with_profile-IsConsistent_example : IsConsistent alice (view alice gold at_tip)
replay_mature_with_profile-IsConsistent_example =
    replay_mature_with_profile-IsConsistent alice gold alice_ne gold_issued toy blocks params
      localnet at_tip has_assets runs.2

apply_block-IsConsistent_example :
    IsConsistent alice (view alice gold (apply_block toy (block 2 (transfer_tx ∷ [])) ready).1)
apply_block-IsConsistent_example =
    apply_block-IsConsistent alice gold alice_ne gold_issued toy (block 2 (transfer_tx ∷ [])) ready
      runs.3

collector-CollectorInvalid : CollectorInvalid toy pooled.profile
unfolding str_discrete
collector-CollectorInvalid = refl

settle_fees-view_example : view alice gold (settle_fees toy bob pooled).1 ≡ view alice gold pooled
unfolding str_discrete
settle_fees-view_example = settle_fees-view toy bob pooled alice gold alice_ne gold_ne runs.4

abbrev credits : List CoinbaseCredit
credits =
    record { address = alice; amount = 100; height = 0; matured = false }
    ∷ record { address = alice; amount = 50; height = 5; matured = false }
    ∷ []

mature_credits-entry_example :
    ((get zero_account alice (mature_credits 1 5 credits []).1).mature
        + pending alice (mature_credits 1 5 credits []).0
      ≡ 150)
    × ((get zero_account alice (mature_credits 1 5 credits []).1).confirmed ≡ 0)
    × ((get zero_account alice (mature_credits 1 5 credits []).1).nonce ≡ 0)
unfolding str_discrete
mature_credits-entry_example = mature_credits-entry alice 1 5 credits []

validate_transaction-view_example :
    view alice gold (validate_transaction toy transfer_tx ready).1 ≡ view alice gold ready
validate_transaction-view_example = validate_transaction-view alice gold transfer_tx ready toy

spend_native-view_example :
    view alice gold (spend_native alice 30 ready).1 ≡ take 30 (view alice gold ready)
unfolding str_discrete
spend_native-view_example = spend_native-view alice 30 ready alice gold gold_ne runs.5
