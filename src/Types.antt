-- ===== src/Types.antt =====
-- deskachain/node/internal/types/transaction.go: the transaction, its constructors and its
-- structural checks. A string is its bytes. The clock is an argument of the constructors.

pub mod Crypto
pub mod Codec
pub mod Envelope
pub mod Constructors
pub mod Block
use des_ka_project.Prelude.{
  ℕ, ◌+◌, Bool, true, false, not, ◌&&◌, ◌||◌, Str, codes, ◌=s◌, is_empty, ltb, leb, ◌==◌,
  if◌then◌else◌, Error, msg, Result, ok, err, ⊤, check, ◌then_check◌,
}
use des_ka_project.Prelude.Int.{ℤ, pos}
use des_ka_project.Config.{native_asset_id}
use des_ka_project.Asset.{is_native, derived_id}

abbrev pub tx_version_legacy : ℕ
tx_version_legacy = 1

abbrev pub tx_version_canonical : ℕ
tx_version_canonical = 2

abbrev pub tx_version_asset : ℕ
tx_version_asset = 3

abbrev pub max_supported_tx_version : ℕ
max_supported_tx_version = 3

abbrev pub coinbase_sender : Str
coinbase_sender = codes "COINBASE"

abbrev pub tx_type_transfer : Str
tx_type_transfer = codes "transfer"

abbrev pub tx_type_coinbase : Str
tx_type_coinbase = codes "coinbase"

abbrev pub tx_type_stake_lock : Str
tx_type_stake_lock = codes "stake_lock"

abbrev pub tx_type_stake_unlock : Str
tx_type_stake_unlock = codes "stake_unlock"

abbrev pub tx_type_asset_create : Str
tx_type_asset_create = codes "asset_create"

abbrev pub tx_type_asset_mint : Str
tx_type_asset_mint = codes "asset_mint"

abbrev pub tx_type_asset_burn : Str
tx_type_asset_burn = codes "asset_burn"

pub record Transaction : Type 0 where
  pub version : ℕ
  pub id : Str
  pub from : Str
  pub to : Str
  pub amount : ℕ
  pub fee : ℕ
  pub nonce : ℕ
  pub timestamp : ℤ
  pub signature : Str
  pub public_key : Str
  pub coinbase : Bool
  pub type : Str
  pub stake_id : Str
  pub asset_id : Str
  pub fee_payer : Str
  pub fee_payer_public_key : Str
  pub fee_payer_signature : Str
  pub asset_name : Str
  pub asset_symbol : Str
  pub asset_decimals : ℕ
  pub asset_max_supply : ℕ
  pub asset_mintable : Bool
  pub asset_burnable : Bool
  pub asset_pausable : Bool
  pub asset_permissioned : Bool

unfoldable pub effective_asset_id : Transaction → Str
effective_asset_id tx = if is_empty tx.asset_id then native_asset_id else tx.asset_id

unfoldable pub effective_fee_payer : Transaction → Str
effective_fee_payer tx = if is_empty tx.fee_payer then tx.from else tx.fee_payer

unfoldable pub protocol_version : Transaction → ℕ
protocol_version tx = if tx.version == 0 then tx_version_legacy else tx.version

unfoldable pub tx_type : Transaction → Str
tx_type tx =
    if not (is_empty tx.type)
    then tx.type
    else if tx.coinbase
    then tx_type_coinbase
    else tx_type_transfer

unfoldable pub is_issued_asset_transaction : Transaction → Bool
unfolding protocol_version effective_asset_id
is_issued_asset_transaction tx =
    leb tx_version_asset (protocol_version tx) && not (is_native (effective_asset_id tx))

abbrev version_or_legacy : ℕ → ℕ
version_or_legacy v = if v == 0 then tx_version_legacy else v

unfoldable pub validate_transaction_version : ℕ → ℕ → Result ⊤
validate_transaction_version version active_version =
    check (ltb max_supported_tx_version (version_or_legacy version))
      (msg "unsupported transaction version")
    then_check check (ltb (version_or_legacy active_version) (version_or_legacy version))
        (msg "transaction version is not active on this network")
