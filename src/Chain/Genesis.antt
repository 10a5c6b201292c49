-- ===== src/Chain/Genesis.antt =====
-- The genesis block of a network: deskachain/node/internal/chain/genesis.go.
use des_ka_project.Prelude.{Str, codes, [], ◌++◌, is_empty, not, ◌&&◌, ◌=s◌, if◌then◌else◌}
use des_ka_project.Prelude.Decimal.{format_uint}
use des_ka_project.Config.{NetworkConfig, genesis_message, genesis_timestamp}
use des_ka_project.Types.Crypto.{Crypto}
use des_ka_project.Types.Block.{Block, calculate_merkle_root}
use des_ka_project.Types.Block.Header.{calculate_hash}
use des_ka_project.Chain.Pow.{zeros}

-- The marker names every network but the local one.
unfoldable pub genesis_marker_for_network : NetworkConfig → Str
genesis_marker_for_network p =
    if not (is_empty p.name) && not (p.name =s codes "localnet")
    then genesis_message
      ++ (codes " | network="
          ++ (p.name
              ++ (codes " | network_id="
                  ++ (p.network_id ++ (codes " | chain_id=" ++ format_uint p.chain_id)))))
    else genesis_message

module _ (c : Crypto) where
  abbrev unhashed : NetworkConfig → Block
  unhashed p = record {
    version = 0;
    height = 0;
    previous_hash = zeros 64;
    timestamp = genesis_timestamp;
    nonce = 0;
    difficulty = 0;
    miner_address = [];
    transactions = [];
    merkle_root = calculate_merkle_root c [];
    state_root = [];
    hash = [];
    genesis_marker = genesis_marker_for_network p;
  }

  unfoldable pub genesis_block_for_network : NetworkConfig → Block
  genesis_block_for_network p = record (unhashed p) { hash = calculate_hash c (unhashed p) }

  unfoldable pub genesis_hash_for_network : NetworkConfig → Str
  genesis_hash_for_network p = (genesis_block_for_network p).hash
