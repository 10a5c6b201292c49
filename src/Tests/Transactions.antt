-- ===== src/Tests/Transactions.antt =====
-- The wire format, the fee policy, the Merkle levels and the stakes on concrete data.
use des_ka_project.Prelude.{
  ◌≡◌, refl, true, false, [], ◌∷◌, ◌++◌, Str, codes, str_discrete, arith, ok, is_ok,
}
use des_ka_project.Prelude.Dict.{lookup}
use des_ka_project.Config.{localnet}
use des_ka_project.Types.{
  Transaction, tx_type, protocol_version, effective_asset_id, tx_type_stake_unlock,
}
use des_ka_project.Types.Codec
use des_ka_project.Types.Codec.{canonical_bytes}
use des_ka_project.Types.Codec.Decode.{decode_canonical_transaction}
use des_ka_project.Types.Codec.Layout.{IsEncodable}
use des_ka_project.Types.Codec.RoundTrip.{canonical_form, decode-canonical_bytes, decode_truncated}
use des_ka_project.Fees.{Quote, estimate, validate, gas_used, minimum_fee, base_gas, is_exempt}
use des_ka_project.Fees.Minimum.{validate-estimate}
use des_ka_project.Staking.{Record, State, status_active, apply_block}
use des_ka_project.Staking.Lifecycle.{Kept, apply_block-Carries}
use des_ka_project.Tests.Data.{alice, transfer_tx}

transfer_tx-IsEncodable : IsEncodable transfer_tx
unfolding tx_type
transfer_tx-IsEncodable = record {
  version = omega arith;
  id = omega arith;
  from = omega arith;
  to = omega arith;
  amount = omega arith;
  fee = omega arith;
  nonce = omega arith;
  timestamp = omega arith;
  signature = omega arith;
  public_key = omega arith;
  type = omega arith;
  stake_id = omega arith;
  asset_id = omega arith;
  fee_payer = omega arith;
  fee_payer_public_key = omega arith;
  fee_payer_signature = omega arith;
  asset_name = omega arith;
  asset_symbol = omega arith;
  asset_decimals = omega arith;
  asset_max_supply = omega arith;
}

decode-canonical_bytes_example :
    (raw : Str) × (canonical_bytes transfer_tx ≡ ok raw)
    × (decode_canonical_transaction raw ≡ ok (canonical_form transfer_tx))
decode-canonical_bytes_example = decode-canonical_bytes transfer_tx transfer_tx-IsEncodable

decode_truncated_example :
    (raw : Str) × (canonical_bytes transfer_tx ≡ ok (raw ++ 0 ∷ 0 ∷ 0 ∷ []))
    × (decode_canonical_transaction raw ≡ ok (canonical_form transfer_tx))
decode_truncated_example = decode_truncated transfer_tx transfer_tx-IsEncodable refl

-- The quote of the transfer on the local network.
abbrev quote : Quote
quote = record {
  gas_units = 15;
  tx_bytes = 148;
  min_fee = 1;
  requested_fee = 2;
  fee_asset_id = codes "dIDR";
  sufficient = true;
}

quoted : estimate transfer_tx localnet ≡ ok quote
unfolding estimate minimum_fee gas_used base_gas tx_type protocol_version effective_asset_id
    localnet str_discrete Codec.canonical_signing_bytes_with_chain_id Codec.write_canonical_string
    Codec.write_canonical_uint32 Codec.write_canonical_uint64 Codec.write_canonical_header
    Codec.write_bool Codec.write_canonical_int64
quoted = refl

not_exempt : is_exempt transfer_tx localnet ≡ false
unfolding protocol_version localnet
not_exempt = refl

validate-estimate_example : is_ok (validate transfer_tx localnet) ≡ true
validate-estimate_example = validate-estimate transfer_tx localnet quote quoted

abbrev stake : Record
stake = record {
  stake_id = codes "s1";
  owner_address = alice;
  amount = 1000000000;
  lock_tx_id = codes "s1";
  lock_height = 3;
  unlock_tx_id = [];
  unlock_height = 0;
  release_height = 0;
  status = status_active;
}

abbrev stakes : State
stakes = record { params = localnet.consensus.staking; records = (codes "s1", stake) ∷ [] }

abbrev unlock_tx : Transaction
unlock_tx = record transfer_tx { version = 1; type = tx_type_stake_unlock; stake_id = codes "s1" }

apply_block-Carries_example :
    Kept 20
      (lookup (codes "s1") stakes.records)
      (lookup (codes "s1") (apply_block 20 (unlock_tx ∷ []) stakes).1.records)
apply_block-Carries_example = apply_block-Carries 20 (unlock_tx ∷ []) stakes (codes "s1")
