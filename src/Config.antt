-- ===== src/Config.antt =====
-- deskachain/node/internal/config/config.go: the constants, the network profile and the profile of
-- the local network. Go's `int` fields hold counts and are naturals; the two second counts of the
-- difficulty rules are signed.
pub mod Profiles
pub mod Metadata
use des_ka_project.Prelude.{ℕ, Bool, true, false, Str, codes, List, []}
use des_ka_project.Prelude.Int.{ℤ, pos}

abbrev pub native_asset_id : Str
native_asset_id = codes "dIDR"

abbrev pub native_asset_symbol : Str
native_asset_symbol = codes "dIDR"

abbrev pub native_asset_decimals : ℕ
native_asset_decimals = 8

abbrev pub initial_block_reward : ℕ
initial_block_reward = 5000000000

abbrev pub initial_difficulty : ℕ
initial_difficulty = 4

abbrev pub block_time_target_secs : ℤ
block_time_target_secs = pos 10

abbrev pub default_max_block_bytes : ℕ
default_max_block_bytes = 1048576

abbrev pub default_max_tx_bytes : ℕ
default_max_tx_bytes = 131072

abbrev pub default_max_tx_count : ℕ
default_max_tx_count = 2000

abbrev pub mainnet_genesis_hash : Str
mainnet_genesis_hash = codes "3f7c6b188ce915a6c1a20a44fa6d02a17f7350776c1db1500daf7356f5f83416"

abbrev pub genesis_timestamp : ℤ
genesis_timestamp = pos 1717200000

abbrev pub genesis_message : Str
genesis_message = codes "IndoChain Genesis - fair CPU mining starts here"

pub record DifficultyParams : Type 0 where
  pub initial_difficulty : ℕ
  pub min_difficulty : ℕ
  pub max_difficulty : ℕ
  pub target_block_time_seconds : ℤ
  pub retarget_window : ℕ
  pub max_future_drift_seconds : ℤ

pub record AssetParams : Type 0 where
  pub native_asset_id : Str
  pub native_asset_symbol : Str
  pub native_asset_decimals : ℕ
  pub fee_asset_id : Str
  pub token_transfers_enabled : Bool
  pub user_issued_tokens_enabled : Bool
  pub paymaster_enabled : Bool

pub record FeeParams : Type 0 where
  pub enabled : Bool
  pub min_fee : ℕ
  pub min_gas_price : ℕ
  pub bytes_per_gas : ℕ
  pub max_gas_per_tx : ℕ
  pub base_gas_transfer : ℕ
  pub base_gas_asset_transfer : ℕ
  pub base_gas_stake_lock : ℕ
  pub base_gas_stake_unlock : ℕ
  pub base_gas_asset_create : ℕ
  pub base_gas_asset_mint : ℕ
  pub base_gas_asset_burn : ℕ

pub record EconomicParams : Type 0 where
  pub block_subsidy : ℕ
  pub fee_only_blocks : Bool

pub record StakingParams : Type 0 where
  pub enabled : Bool
  pub min_service_stake : ℕ
  pub min_stake_amount : ℕ
  pub unbonding_period_blocks : ℕ
  pub max_active_stakes_per_address : ℕ
  pub require_stake_for_service_rewards : Bool

pub record ConsensusParams : Type 0 where
  pub coinbase_maturity : ℕ
  pub max_block_bytes : ℕ
  pub max_tx_bytes : ℕ
  pub max_tx_count : ℕ
  pub max_gas_per_block : ℕ
  pub staking : StakingParams

pub record NetworkLimits : Type 0 where
  pub max_header_batch : ℕ
  pub max_sync_blocks : ℕ
  pub max_reorg_fetch_blocks : ℕ

pub record NetworkConfig : Type 0 where
  pub network_name : Str
  pub name : Str
  pub network_id : Str
  pub chain_id : ℕ
  pub address_prefix : Str
  pub address_version : ℕ
  pub legacy_address_allowed : Bool
  pub default_rpc_port : ℕ
  pub default_p2p_port : ℕ
  pub protocol_version : ℕ
  pub min_protocol_version : ℕ
  pub rpc_api_version : Str
  pub p2p_protocol_version : Str
  pub block_version : ℕ
  pub tx_version : ℕ
  pub difficulty : DifficultyParams
  pub consensus : ConsensusParams
  pub asset : AssetParams
  pub fee : FeeParams
  pub economic : EconomicParams
  pub max_peers : ℕ
  pub max_reorg_depth : ℕ
  pub min_mining_peers : ℕ
  pub allow_isolated_mining : Bool
  pub min_write_peers : ℕ
  pub allow_isolated_writes : Bool
  pub require_authenticated_node : Bool
  pub seed_peers : List Str
  pub genesis_hash : Str
  pub network_limits : NetworkLimits

-- `Localnet`
unfoldable pub localnet : NetworkConfig
localnet = record {
  network_name = codes "localnet";
  name = codes "localnet";
  network_id = codes "ind-local-1";
  chain_id = 777001;
  address_prefix = codes "iND";
  address_version = 0x1E;
  legacy_address_allowed = true;
  default_rpc_port = 8331;
  default_p2p_port = 9331;
  protocol_version = 1;
  min_protocol_version = 1;
  rpc_api_version = codes "v1";
  p2p_protocol_version = codes "ind-p2p/1";
  block_version = 1;
  tx_version = 3;
  difficulty = record {
    initial_difficulty = 4;
    min_difficulty = 1;
    max_difficulty = 8;
    target_block_time_seconds = pos 10;
    retarget_window = 10;
    max_future_drift_seconds = pos 900;
  };
  consensus = record {
    coinbase_maturity = 10;
    max_block_bytes = 1048576;
    max_tx_bytes = 131072;
    max_tx_count = 2000;
    max_gas_per_block = 200000;
    staking = record {
      enabled = true;
      min_service_stake = 10000000000;
      min_stake_amount = 1000000000;
      unbonding_period_blocks = 10;
      max_active_stakes_per_address = 10;
      require_stake_for_service_rewards = true;
    };
  };
  asset = record {
    native_asset_id = native_asset_id;
    native_asset_symbol = native_asset_symbol;
    native_asset_decimals = native_asset_decimals;
    fee_asset_id = native_asset_id;
    token_transfers_enabled = true;
    user_issued_tokens_enabled = true;
    paymaster_enabled = true;
  };
  fee = record {
    enabled = true;
    min_fee = 1;
    min_gas_price = 0;
    bytes_per_gas = 32;
    max_gas_per_tx = 100000;
    base_gas_transfer = 10;
    base_gas_asset_transfer = 12;
    base_gas_stake_lock = 12;
    base_gas_stake_unlock = 8;
    base_gas_asset_create = 50;
    base_gas_asset_mint = 30;
    base_gas_asset_burn = 25;
  };
  economic = record { block_subsidy = 0; fee_only_blocks = true };
  max_peers = 32;
  max_reorg_depth = 64;
  min_mining_peers = 0;
  allow_isolated_mining = true;
  min_write_peers = 0;
  allow_isolated_writes = true;
  require_authenticated_node = false;
  seed_peers = [];
  genesis_hash = [];
  network_limits = record {
    max_header_batch = 500;
    max_sync_blocks = 500;
    max_reorg_fetch_blocks = 512;
  };
}
