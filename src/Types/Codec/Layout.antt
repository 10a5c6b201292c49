-- ===== src/Types/Codec/Layout.antt =====
-- The fields of an encoded transaction in their order (deskachain/node/internal/types/
-- transaction_codec.go), and that the decoder reads them back one after another.
use mathlib.Core.List.{append-nil}
use des_ka_project.Prelude.{◌≤◌, ◌<◌, ◌≡◌, [], ◌∷◌, ◌++◌, Str, length, arith, ok}
use des_ka_project.Types.{Transaction, tx_type}
use des_ka_project.Types.Codec.{
  max_canonical_field_bytes, write_bool, write_canonical_string, write_canonical_uint64,
  write_canonical_int64, concat,
}
use des_ka_project.Types.Codec.Decode.{
  decode_canonical_transaction_v3, decode_canonical_transaction_v2, read_byte,
  read_canonical_string,
}
use des_ka_project.Types.Codec.Fields.{
  IsInt64, read_uint64-write, read_int64-write, read_byte_bool-write, read_canonical_string-write,
}

abbrev pub Fits : Str → Type 0
Fits s = length s ≤ max_canonical_field_bytes

-- The Go types of the fields, and no text longer than the decoder accepts.
pub record IsEncodable (tx : Transaction) : Type 0 where
  pub version : tx.version < 4294967296
  pub id : Fits tx.id
  pub from : Fits tx.from
  pub to : Fits tx.to
  pub amount : tx.amount < 18446744073709551616
  pub fee : tx.fee < 18446744073709551616
  pub nonce : tx.nonce < 18446744073709551616
  pub timestamp : IsInt64 tx.timestamp
  pub signature : Fits tx.signature
  pub public_key : Fits tx.public_key
  pub type : Fits (tx_type tx)
  pub stake_id : Fits tx.stake_id
  pub asset_id : Fits tx.asset_id
  pub fee_payer : Fits tx.fee_payer
  pub fee_payer_public_key : Fits tx.fee_payer_public_key
  pub fee_payer_signature : Fits tx.fee_payer_signature
  pub asset_name : Fits tx.asset_name
  pub asset_symbol : Fits tx.asset_symbol
  pub asset_decimals : tx.asset_decimals < 256
  pub asset_max_supply : tx.asset_max_supply < 18446744073709551616

-- The fields behind the header; the bytes of the last one are an argument.
abbrev pub fields_v2 : Transaction → Str → Str
fields_v2 tx last = concat (
    write_canonical_string tx.id
    ∷ write_canonical_string tx.from
    ∷ write_canonical_string tx.to
    ∷ write_canonical_uint64 tx.amount
    ∷ write_canonical_uint64 tx.fee
    ∷ write_canonical_uint64 tx.nonce
    ∷ write_canonical_int64 tx.timestamp
    ∷ write_canonical_string tx.signature
    ∷ write_canonical_string tx.public_key
    ∷ last
    ∷ [])

-- The transaction with the version 1 and 2 fields of `tx` and the others of `base`.
abbrev pub with_fields_v2 : Transaction → Transaction → Transaction
with_fields_v2 base tx = record base {
  id = tx.id;
  from = tx.from;
  to = tx.to;
  amount = tx.amount;
  fee = tx.fee;
  nonce = tx.nonce;
  timestamp = tx.timestamp;
  signature = tx.signature;
  public_key = tx.public_key;
  stake_id = tx.stake_id;
}

pub decode_canonical_transaction_v2-fields :
    (base tx : Transaction) (last : Str)
    → IsEncodable tx
    → read_canonical_string last ≡ (ok tx.stake_id, [])
    → decode_canonical_transaction_v2 base (fields_v2 tx last) ≡ (ok (with_fields_v2 base tx), [])
unfolding decode_canonical_transaction_v2
decode_canonical_transaction_v2-fields base tx last e h =
    let r₁ = last ++ [] in
    let r₂ = write_canonical_string tx.public_key ++ r₁ in
    let r₃ = write_canonical_string tx.signature ++ r₂ in
    let r₄ = write_canonical_int64 tx.timestamp ++ r₃ in
    let r₅ = write_canonical_uint64 tx.nonce ++ r₄ in
    let r₆ = write_canonical_uint64 tx.fee ++ r₅ in
    let r₇ = write_canonical_uint64 tx.amount ++ r₆ in
    let r₈ = write_canonical_string tx.to ++ r₇ in
    let r₉ = write_canonical_string tx.from ++ r₈ in
    ground (
      arith,
      read_canonical_string-write tx.id r₉ e.id,
      read_canonical_string-write tx.from r₈ e.from,
      read_canonical_string-write tx.to r₇ e.to,
      read_uint64-write tx.amount r₆ e.amount,
      read_uint64-write tx.fee r₅ e.fee,
      read_uint64-write tx.nonce r₄ e.nonce,
      read_int64-write tx.timestamp r₃ e.timestamp,
      read_canonical_string-write tx.signature r₂ e.signature,
      read_canonical_string-write tx.public_key r₁ e.public_key,
      append-nil last,
      h,
    )

abbrev pub fields_v3 : Transaction → Str → Str
fields_v3 tx last = concat (
    write_canonical_string tx.id
    ∷ write_canonical_string tx.from
    ∷ write_canonical_string tx.to
    ∷ write_canonical_string tx.asset_id
    ∷ write_canonical_uint64 tx.amount
    ∷ write_canonical_uint64 tx.fee
    ∷ write_canonical_uint64 tx.nonce
    ∷ write_canonical_int64 tx.timestamp
    ∷ write_canonical_string tx.signature
    ∷ write_canonical_string tx.public_key
    ∷ write_canonical_string tx.fee_payer
    ∷ write_canonical_string tx.fee_payer_public_key
    ∷ write_canonical_string tx.fee_payer_signature
    ∷ write_canonical_string tx.asset_name
    ∷ write_canonical_string tx.asset_symbol
    ∷ (tx.asset_decimals ∷ [])
    ∷ write_canonical_uint64 tx.asset_max_supply
    ∷ write_bool tx.asset_mintable
    ∷ write_bool tx.asset_burnable
    ∷ write_bool tx.asset_pausable
    ∷ write_bool tx.asset_permissioned
    ∷ last
    ∷ [])

-- The transaction with every field of `tx` but the header's.
abbrev pub with_fields_v3 : Transaction → Transaction → Transaction
with_fields_v3 base tx = record tx {
  version = base.version;
  type = base.type;
  coinbase = base.coinbase;
}

pub decode_canonical_transaction_v3-fields :
    (base tx : Transaction) (last : Str)
    → IsEncodable tx
    → read_canonical_string last ≡ (ok tx.stake_id, [])
    → decode_canonical_transaction_v3 base (fields_v3 tx last) ≡ (ok (with_fields_v3 base tx), [])
unfolding decode_canonical_transaction_v3 read_byte
decode_canonical_transaction_v3-fields base tx last e h =
    let r₁ = last ++ [] in
    let r₂ = write_bool tx.asset_permissioned ++ r₁ in
    let r₃ = write_bool tx.asset_pausable ++ r₂ in
    let r₄ = write_bool tx.asset_burnable ++ r₃ in
    let r₅ = write_bool tx.asset_mintable ++ r₄ in
    let r₆ = write_canonical_uint64 tx.asset_max_supply ++ r₅ in
    let r₇ : Str = tx.asset_decimals ∷ r₆ in
    let r₈ = write_canonical_string tx.asset_symbol ++ r₇ in
    let r₉ = write_canonical_string tx.asset_name ++ r₈ in
    let r₁₀ = write_canonical_string tx.fee_payer_signature ++ r₉ in
    let r₁₁ = write_canonical_string tx.fee_payer_public_key ++ r₁₀ in
    let r₁₂ = write_canonical_string tx.fee_payer ++ r₁₁ in
    let r₁₃ = write_canonical_string tx.public_key ++ r₁₂ in
    let r₁₄ = write_canonical_string tx.signature ++ r₁₃ in
    let r₁₅ = write_canonical_int64 tx.timestamp ++ r₁₄ in
    let r₁₆ = write_canonical_uint64 tx.nonce ++ r₁₅ in
    let r₁₇ = write_canonical_uint64 tx.fee ++ r₁₆ in
    let r₁₈ = write_canonical_uint64 tx.amount ++ r₁₇ in
    let r₁₉ = write_canonical_string tx.asset_id ++ r₁₈ in
    let r₂₀ = write_canonical_string tx.to ++ r₁₉ in
    let r₂₁ = write_canonical_string tx.from ++ r₂₀ in
    ground (
      arith,
      read_canonical_string-write tx.id r₂₁ e.id,
      read_canonical_string-write tx.from r₂₀ e.from,
      read_canonical_string-write tx.to r₁₉ e.to,
      read_canonical_string-write tx.asset_id r₁₈ e.asset_id,
      read_uint64-write tx.amount r₁₇ e.amount,
      read_uint64-write tx.fee r₁₆ e.fee,
      read_uint64-write tx.nonce r₁₅ e.nonce,
      read_int64-write tx.timestamp r₁₄ e.timestamp,
      read_canonical_string-write tx.signature r₁₃ e.signature,
      read_canonical_string-write tx.public_key r₁₂ e.public_key,
      read_canonical_string-write tx.fee_payer r₁₁ e.fee_payer,
      read_canonical_string-write tx.fee_payer_public_key r₁₀ e.fee_payer_public_key,
      read_canonical_string-write tx.fee_payer_signature r₉ e.fee_payer_signature,
      read_canonical_string-write tx.asset_name r₈ e.asset_name,
      read_canonical_string-write tx.asset_symbol r₇ e.asset_symbol,
      read_uint64-write tx.asset_max_supply r₅ e.asset_max_supply,
      read_byte_bool-write tx.asset_mintable r₄,
      read_byte_bool-write tx.asset_burnable r₃,
      read_byte_bool-write tx.asset_pausable r₂,
      read_byte_bool-write tx.asset_permissioned r₁,
      append-nil last,
      h,
    )
