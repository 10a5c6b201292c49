-- ===== src/Config/Profiles.antt =====
-- The profiles of the two public networks, and the choice of a profile by name:
-- deskachain/node/internal/config/config.go.
use des_ka_project.Prelude.{
  ℕ, true, false, not, ◌&&◌, ◌||◌, [], Str, codes, ◌=s◌, is_empty, ltb, ◌==◌, if◌then◌else◌, msg,
  Result, ok, err, ⊤, check, wrap_err,
}
use des_ka_project.Prelude.Int.{pos}
use des_ka_project.Prelude.Results.{◌>>=◌, ◌>>◌}
use des_ka_project.Config.{
  NetworkConfig, localnet, native_asset_id, native_asset_symbol, native_asset_decimals,
  mainnet_genesis_hash,
}

-- `Testnet`
unfoldable pub testnet : NetworkConfig
testnet = record {
  network_name = codes "testnet";
  name = codes "testnet";
  network_id = codes "ind-testnet-1";
  chain_id = 777101;
  address_prefix = codes "iND";
  address_version = 0x1F;
  legacy_address_allowed = false;
  default_rpc_port = 18331;
  default_p2p_port = 19331;
  protocol_version = 1;
  min_protocol_version = 1;
  rpc_api_version = codes "v1";
  p2p_protocol_version = codes "ind-p2p/1";
  block_version = 1;
  tx_version = 3;
  difficulty = record {
    initial_difficulty = 4;
    min_difficulty = 1;
    max_difficulty = 12;
    target_block_time_seconds = pos 30;
    retarget_window = 30;
    max_future_drift_seconds = pos 900;
  };
  consensus = record {
    coinbase_maturity = 100;
    max_block_bytes = 1048576;
    max_tx_bytes = 131072;
    max_tx_count = 2000;
    max_gas_per_block = 200000;
    staking = record {
      enabled = true;
      min_service_stake = 100000000000;
      min_stake_amount = 10000000000;
      unbonding_period_blocks = 100;
      max_active_stakes_per_address = 20;
      require_stake_for_service_rewards = true;
    };
  };
  asset = record {
    native_asset_id = native_asset_id;
    native_asset_symbol = native_asset_symbol;
    native_asset_decimals = native_asset_decimals;
    fee_asset_id = native_asset_id;
    token_transfers_enabled = true;
    user_issued_tokens_enabled = true;
    paymaster_enabled = true;
  };
  fee = record {
    enabled = true;
    min_fee = 1;
    min_gas_price = 0;
    bytes_per_gas = 32;
    max_gas_per_tx = 100000;
    base_gas_transfer = 10;
    base_gas_asset_transfer = 12;
    base_gas_stake_lock = 12;
    base_gas_stake_unlock = 8;
    base_gas_asset_create = 50;
    base_gas_asset_mint = 30;
    base_gas_asset_burn = 25;
  };
  economic = record { block_subsidy = 0; fee_only_blocks = true };
  max_peers = 128;
  max_reorg_depth = 128;
  min_mining_peers = 1;
  allow_isolated_mining = false;
  min_write_peers = 1;
  allow_isolated_writes = false;
  require_authenticated_node = true;
  seed_peers = [];
  genesis_hash = [];
  network_limits = record {
    max_header_batch = 500;
    max_sync_blocks = 500;
    max_reorg_fetch_blocks = 512;
  };
}

-- `Mainnet`
unfoldable pub mainnet : NetworkConfig
mainnet = record {
  network_name = codes "mainnet";
  name = codes "mainnet";
  network_id = codes "ind-main-1";
  chain_id = 777000;
  address_prefix = codes "iND";
  address_version = 0x20;
  legacy_address_allowed = false;
  default_rpc_port = 8333;
  default_p2p_port = 9333;
  protocol_version = 1;
  min_protocol_version = 1;
  rpc_api_version = codes "v1";
  p2p_protocol_version = codes "ind-p2p/1";
  block_version = 1;
  tx_version = 3;
  difficulty = record {
    initial_difficulty = 6;
    min_difficulty = 1;
    max_difficulty = 24;
    target_block_time_seconds = pos 60;
    retarget_window = 60;
    max_future_drift_seconds = pos 900;
  };
  consensus = record {
    coinbase_maturity = 100;
    max_block_bytes = 1048576;
    max_tx_bytes = 131072;
    max_tx_count = 2000;
    max_gas_per_block = 200000;
    staking = record {
      enabled = false;
      min_service_stake = 0;
      min_stake_amount = 0;
      unbonding_period_blocks = 0;
      max_active_stakes_per_address = 0;
      require_stake_for_service_rewards = true;
    };
  };
  asset = record {
    native_asset_id = native_asset_id;
    native_asset_symbol = native_asset_symbol;
    native_asset_decimals = native_asset_decimals;
    fee_asset_id = native_asset_id;
    token_transfers_enabled = true;
    user_issued_tokens_enabled = true;
    paymaster_enabled = true;
  };
  fee = record {
    enabled = true;
    min_fee = 1;
    min_gas_price = 0;
    bytes_per_gas = 32;
    max_gas_per_tx = 100000;
    base_gas_transfer = 10;
    base_gas_asset_transfer = 12;
    base_gas_stake_lock = 12;
    base_gas_stake_unlock = 8;
    base_gas_asset_create = 50;
    base_gas_asset_mint = 30;
    base_gas_asset_burn = 25;
  };
  economic = record { block_subsidy = 0; fee_only_blocks = true };
  max_peers = 256;
  max_reorg_depth = 64;
  min_mining_peers = 1;
  allow_isolated_mining = false;
  min_write_peers = 1;
  allow_isolated_writes = false;
  require_authenticated_node = true;
  seed_peers = [];
  genesis_hash = mainnet_genesis_hash;
  network_limits = record {
    max_header_batch = 500;
    max_sync_blocks = 500;
    max_reorg_fetch_blocks = 512;
  };
}

unfoldable pub validate_network_profile : NetworkConfig → Result ⊤
validate_network_profile p = do
  check (is_empty p.name || (is_empty p.network_id || is_empty p.network_name))
      (msg "network identity is incomplete")
  check (not (p.name =s p.network_name)) (msg "network name mismatch")
  check (p.chain_id == 0) (msg "chain id must be non-zero")
  check (not (p.protocol_version == 1) || not (p.min_protocol_version == 1))
      (msg "unsupported protocol version range")
  check (not (p.rpc_api_version =s codes "v1") || not (p.p2p_protocol_version =s codes "ind-p2p/1"))
      (msg "unsupported transport protocol versions")
  check (not (p.block_version == 1) || not (p.tx_version == 3))
      (msg "unsupported consensus versions")
  check
      (not (p.asset.native_asset_id =s native_asset_id)
        || (not (p.asset.native_asset_symbol =s native_asset_symbol)
            || not (p.asset.native_asset_decimals == native_asset_decimals)))
      (msg "native asset must remain dIDR")
  check (not (p.asset.fee_asset_id =s native_asset_id)) (msg "fee asset must remain dIDR")
  check
      (not p.asset.token_transfers_enabled
        || (not p.asset.user_issued_tokens_enabled || not p.asset.paymaster_enabled))
      (msg "v3 asset capabilities are incomplete")
  check
      (not p.fee.enabled
        || (p.fee.min_fee == 0
            || (p.fee.max_gas_per_tx == 0 || p.consensus.max_gas_per_block == 0)))
      (msg "fee/gas policy is incomplete")
  check (not (p.economic.block_subsidy == 0) || not p.economic.fee_only_blocks)
      (msg "v3 economics must be fee-only with zero block subsidy")
  check
      (p.consensus.max_block_bytes == 0
        || (p.consensus.max_tx_bytes == 0 || p.consensus.max_tx_count == 0))
      (msg "consensus size limits are incomplete")
  check
      (p.network_limits.max_header_batch == 0
        || (p.network_limits.max_sync_blocks == 0 || p.network_limits.max_reorg_fetch_blocks == 0))
      (msg "network fetch limits are incomplete")
  check (not (p.name =s codes "localnet") && not p.require_authenticated_node)
      (msg "production network requires authenticated P2P nodes")
  check (p.name =s codes "mainnet" && not (p.genesis_hash =s mainnet_genesis_hash))
      (msg "mainnet genesis hash is not frozen")

unfoldable pub built_in_profile : Str → Result NetworkConfig
built_in_profile name =
    if is_empty name || name =s codes "localnet"
    then ok localnet
    else if name =s codes "testnet"
    then ok testnet
    else if name =s codes "mainnet"
    then ok mainnet
    else err (msg "unknown network")

-- `NetworkByName`
unfoldable pub network_by_name : Str → Result NetworkConfig
network_by_name name = do
  profile ← built_in_profile name
  wrap_err "invalid network profile" (validate_network_profile profile)
  ok profile

unfoldable pub default_max_reorg_depth : NetworkConfig → ℕ
default_max_reorg_depth p =
    if ltb 0 p.max_reorg_depth
    then p.max_reorg_depth
    else if p.name =s codes "testnet"
    then 128
    else 64
