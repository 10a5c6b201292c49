-- ===== src/Types/Constructors.antt =====
-- The constructors of asset transactions, and the refreshing of an id:
-- deskachain/node/internal/types/transaction.go. The clock is an argument.
use des_ka_project.Prelude.{ℕ, Bool, not, ◌&&◌, [], Str, ◌=s◌, is_empty, if◌then◌else◌, Result, ok}
use des_ka_project.Prelude.Int.{ℤ}
use des_ka_project.Prelude.Results.{◌>>=◌}
use des_ka_project.Config.{native_asset_id}
use des_ka_project.Asset.{derived_id}
use des_ka_project.Types.{
  Transaction, tx_version_asset, tx_type_transfer, tx_type_asset_create, tx_type_asset_mint,
  tx_type_asset_burn,
}
use des_ka_project.Types.Crypto.{Crypto}
use des_ka_project.Types.Codec.Decode.{empty_transaction}
use des_ka_project.Types.Envelope.{calculate_id, calculate_id_for_chain_id}

unfoldable pub new_asset_transaction : ℤ → Str → Str → Str → Str → ℕ → ℕ → ℕ → Transaction
new_asset_transaction now type from to asset_id amount fee nonce = record empty_transaction {
  version = tx_version_asset;
  from = from;
  to = to;
  amount = amount;
  fee = fee;
  nonce = nonce;
  timestamp = now;
  type = type;
  asset_id =
      if is_empty asset_id && not (type =s tx_type_asset_create) then native_asset_id else asset_id;
  fee_payer = from;
}

unfoldable pub new_asset_transfer_transaction : ℤ → Str → Str → Str → ℕ → ℕ → ℕ → Transaction
new_asset_transfer_transaction now from to asset_id amount fee nonce =
    new_asset_transaction now tx_type_transfer from to asset_id amount fee nonce

unfoldable pub new_asset_mint_transaction : ℤ → Str → Str → Str → ℕ → ℕ → ℕ → Transaction
new_asset_mint_transaction now from asset_id to amount fee nonce =
    new_asset_transaction now tx_type_asset_mint from to asset_id amount fee nonce

unfoldable pub new_asset_burn_transaction : ℤ → Str → Str → ℕ → ℕ → ℕ → Transaction
new_asset_burn_transaction now from asset_id amount fee nonce =
    new_asset_transaction now tx_type_asset_burn from from asset_id amount fee nonce

-- What a creation says of the new asset.
pub record NewAsset : Type 0 where
  pub name : Str
  pub symbol : Str
  pub decimals : ℕ
  pub max_supply : ℕ
  pub mintable : Bool
  pub burnable : Bool
  pub pausable : Bool
  pub permissioned : Bool

module _ (c : Crypto) where
  unfoldable pub new_asset_create_transaction : ℤ → Str → NewAsset → ℕ → ℕ → Transaction
  new_asset_create_transaction now from a fee nonce =
      let tx = record (new_asset_transaction now tx_type_asset_create from [] [] 0 fee nonce) {
        asset_name = a.name;
        asset_symbol = a.symbol;
        asset_decimals = a.decimals;
        asset_max_supply = a.max_supply;
        asset_mintable = a.mintable;
        asset_burnable = a.burnable;
        asset_pausable = a.pausable;
        asset_permissioned = a.permissioned;
      } in
      let id = calculate_id c tx in record tx { id = id; asset_id = derived_id id }

  unfoldable pub refresh_id : Transaction → Transaction
  refresh_id tx = record tx { id = calculate_id c tx }

  unfoldable pub refresh_id_for_chain_id : ℕ → Transaction → Result Transaction
  refresh_id_for_chain_id chain_id tx = do
    id ← calculate_id_for_chain_id c chain_id tx
    ok (record tx { id = id })
