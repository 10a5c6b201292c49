-- ===== src/Tests/Data.antt =====
-- Shared data: three addresses, an issued asset held by one of them, a transaction, and stand-ins
-- for the hash, the signatures and the JSON encoder.
use des_ka_project.Prelude.{
  true, false, [], ◌∷◌, Str, codes, ◌=s◌, is_empty, if◌then◌else◌, msg, ok, check, ◌||◌,
}
use des_ka_project.Prelude.Int.{pos}
use des_ka_project.Config.{native_asset_id}
use des_ka_project.Types.{Transaction, tx_type_transfer}
use des_ka_project.Types.Crypto.{Crypto}
use des_ka_project.Asset.{Definition, kind_fungible, status_active}
use des_ka_project.Asset.State.{State, native_definition, fee_collector_address}

abbrev pub alice : Str
alice = codes "alice"

abbrev pub bob : Str
bob = codes "bob"

abbrev pub gold : Str
gold = codes "asset:gold"

abbrev pub gold_definition : Definition
gold_definition = record {
  id = gold;
  name = codes "Gold";
  symbol = codes "GLD";
  decimals = 2;
  kind = kind_fungible;
  issuer = alice;
  max_supply = 1000;
  total_supply = 70;
  mintable = true;
  burnable = true;
  pausable = false;
  permissioned = false;
  status = status_active;
}

abbrev pub gold_state : State
gold_state = record {
  assets = (native_asset_id, native_definition) ∷ (gold, gold_definition) ∷ [];
  balances = (alice, (gold, 50) ∷ (native_asset_id, 5) ∷ []) ∷ (bob, (gold, 20) ∷ []) ∷ [];
}

abbrev pub transfer_tx : Transaction
transfer_tx = record {
  version = 3;
  id = codes "t1";
  from = alice;
  to = bob;
  amount = 30;
  fee = 2;
  nonce = 1;
  timestamp = pos 1700000000;
  signature = codes "s";
  public_key = alice;
  coinbase = false;
  type = tx_type_transfer;
  stake_id = [];
  asset_id = native_asset_id;
  fee_payer = [];
  fee_payer_public_key = [];
  fee_payer_signature = [];
  asset_name = [];
  asset_symbol = [];
  asset_decimals = 0;
  asset_max_supply = 0;
  asset_mintable = false;
  asset_burnable = false;
  asset_pausable = false;
  asset_permissioned = false;
}

-- A hash that reads one byte, keys that are their addresses, and signatures that say who signed.
abbrev pub toy : Crypto
toy = record {
  double_sha256_hex = λ s. if is_empty s then codes "00" else codes "t1";
  verify_hex = λ key signature bytes. signature =s codes "s";
  address_from_public_key = λ key p. ok key;
  validate_address =
      λ a p. check (is_empty a || a =s fee_collector_address) (msg "invalid address");
  transaction_json = λ tx. tx.id;
  fee_payer_json = λ payload. payload.tx_id;
}
