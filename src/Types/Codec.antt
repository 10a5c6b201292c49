-- ===== src/Types/Codec.antt =====
-- deskachain/node/internal/types/transaction_codec.go: the canonical byte form of a transaction and
-- its decoder. A `bytes.Buffer` is the list written; a `bytes.Reader` is the bytes left, so a read
-- is a `Proc Str`. Go's `Reader.Read` fills as much of its buffer as there are bytes and errs only
-- when none is left: the rest of the buffer stays zero.
pub mod Decode
pub mod Fields
pub mod Layout
pub mod RoundTrip
use des_ka_project.Prelude.{
  ℕ, ◌+◌, ◌-◌, ◌*◌, ◌/◌, ◌%◌, ◌^◌, Bool, true, false, not, ◌&&◌, ◌||◌, List, [], ◌∷◌, ◌++◌, Str,
  codes, ◌=s◌, is_empty, ltb, leb, ◌==◌, if◌then◌else◌, length, Error, msg, wrap, Result, ok, err,
  ⊤, Proc, pure, fail, gets, ◌>>=◌, ◌>>◌, fail_if,
}
use des_ka_project.Prelude.Int.{ℤ, pos, negsuc}
use des_ka_project.Types.{
  Transaction, protocol_version, tx_type, effective_asset_id, effective_fee_payer,
  tx_version_canonical, tx_version_asset, tx_type_stake_lock, tx_type_asset_create,
}

abbrev pub canonical_tx_codec_version : ℕ
canonical_tx_codec_version = 1

abbrev pub max_canonical_field_bytes : ℕ
max_canonical_field_bytes = 1048576

abbrev pub canonical_signing_domain : Str
canonical_signing_domain = codes "IndoChain/tx-sign/v2"

abbrev pub asset_signing_domain : Str
asset_signing_domain = codes "IndoChain/tx-sign/v3"

abbrev pub err_invalid_canonical_tx : Error
err_invalid_canonical_tx = msg "invalid canonical transaction"

abbrev invalid : Error
invalid = err_invalid_canonical_tx

-- Writing.

unfoldable pub write_bool : Bool → Str
write_bool value = if value then 1 ∷ [] else 0 ∷ []

unfoldable pub write_canonical_uint32 : ℕ → Str
write_canonical_uint32 v =
    (v / 16777216 % 256) ∷ (v / 65536 % 256) ∷ (v / 256 % 256) ∷ (v % 256) ∷ []

unfoldable pub write_canonical_uint64 : ℕ → Str
unfolding write_canonical_uint32
write_canonical_uint64 v =
    write_canonical_uint32 (v / 4294967296) ++ write_canonical_uint32 (v % 4294967296)

-- `uint64(value)` of an int64
unfoldable pub to_uint64 : ℤ → ℕ
to_uint64 (pos n) = n
to_uint64 (negsuc n) = 18446744073709551615 - n

-- `int64(value)` of a uint64
unfoldable pub to_int64 : ℕ → ℤ
to_int64 v = if ltb v 9223372036854775808 then pos v else negsuc (18446744073709551615 - v)

unfoldable pub write_canonical_int64 : ℤ → Str
unfolding to_uint64
write_canonical_int64 value = write_canonical_uint64 (to_uint64 value)

-- `uint32(len(value))` wraps.
unfoldable pub write_canonical_string : Str → Str
write_canonical_string value = write_canonical_uint32 (length value % 4294967296) ++ value

unfoldable pub write_canonical_header : ℕ → Str → Bool → Str
write_canonical_header version tx_type coinbase =
    canonical_tx_codec_version
    ∷ (write_canonical_uint32 version ++ (write_canonical_string tx_type ++ write_bool coinbase))

-- The pieces that a writer appends in turn.
abbrev pub concat : List Str → Str
concat [] = []
concat (x ∷ xs) = x ++ concat xs

-- The lock's own id is not part of what is signed.
abbrev signed_stake_id : Transaction → Str
signed_stake_id tx = if tx_type tx =s tx_type_stake_lock then [] else tx.stake_id

unfoldable pub canonical_signing_bytes : Transaction → Str
unfolding tx_type protocol_version
canonical_signing_bytes tx = concat (
    write_canonical_header (protocol_version tx) (tx_type tx) tx.coinbase
    ∷ write_canonical_string tx.from
    ∷ write_canonical_string tx.to
    ∷ write_canonical_uint64 tx.amount
    ∷ write_canonical_uint64 tx.fee
    ∷ write_canonical_uint64 tx.nonce
    ∷ write_canonical_int64 tx.timestamp
    ∷ write_canonical_string tx.public_key
    ∷ write_canonical_string (signed_stake_id tx)
    ∷ [])

-- Nor is the id of the asset that a creation derives from its own id.
abbrev signed_asset_id : Transaction → Str
signed_asset_id tx = if tx_type tx =s tx_type_asset_create then [] else effective_asset_id tx

unfoldable pub canonical_signing_bytes_v3 : Transaction → Str
unfolding tx_type protocol_version effective_asset_id effective_fee_payer
canonical_signing_bytes_v3 tx = concat (
    write_canonical_header (protocol_version tx) (tx_type tx) tx.coinbase
    ∷ write_canonical_string tx.from
    ∷ write_canonical_string tx.to
    ∷ write_canonical_string (signed_asset_id tx)
    ∷ write_canonical_uint64 tx.amount
    ∷ write_canonical_uint64 tx.fee
    ∷ write_canonical_uint64 tx.nonce
    ∷ write_canonical_int64 tx.timestamp
    ∷ write_canonical_string tx.public_key
    ∷ write_canonical_string (effective_fee_payer tx)
    ∷ write_canonical_string tx.asset_name
    ∷ write_canonical_string tx.asset_symbol
    ∷ (tx.asset_decimals ∷ [])
    ∷ write_canonical_uint64 tx.asset_max_supply
    ∷ write_bool tx.asset_mintable
    ∷ write_bool tx.asset_burnable
    ∷ write_bool tx.asset_pausable
    ∷ write_bool tx.asset_permissioned
    ∷ write_canonical_string (signed_stake_id tx)
    ∷ [])

-- The signing domain, the chain and the length stand before the body.
abbrev bound_to_chain : Str → ℕ → Str → Str
bound_to_chain domain chain_id body = concat (
    write_canonical_string domain
    ∷ write_canonical_uint64 chain_id
    ∷ write_canonical_uint32 (length body % 4294967296)
    ∷ body
    ∷ [])

unfoldable pub canonical_signing_bytes_with_chain_id : ℕ → Transaction → Result Str
unfolding canonical_signing_bytes canonical_signing_bytes_v3
canonical_signing_bytes_with_chain_id chain_id tx =
    if protocol_version tx == tx_version_asset
    then ok (bound_to_chain asset_signing_domain chain_id (canonical_signing_bytes_v3 tx))
    else if not (protocol_version tx == tx_version_canonical)
    then err (wrap "chain-bound signing requires canonical transaction version" invalid)
    else ok (bound_to_chain canonical_signing_domain chain_id (canonical_signing_bytes tx))

unfoldable pub canonical_bytes_v3 : Transaction → Str
canonical_bytes_v3 tx = concat (
    write_canonical_header (protocol_version tx) (tx_type tx) tx.coinbase
    ∷ write_canonical_string tx.id
    ∷ write_canonical_string tx.from
    ∷ write_canonical_string tx.to
    ∷ write_canonical_string tx.asset_id
    ∷ write_canonical_uint64 tx.amount
    ∷ write_canonical_uint64 tx.fee
    ∷ write_canonical_uint64 tx.nonce
    ∷ write_canonical_int64 tx.timestamp
    ∷ write_canonical_string tx.signature
    ∷ write_canonical_string tx.public_key
    ∷ write_canonical_string tx.fee_payer
    ∷ write_canonical_string tx.fee_payer_public_key
    ∷ write_canonical_string tx.fee_payer_signature
    ∷ write_canonical_string tx.asset_name
    ∷ write_canonical_string tx.asset_symbol
    ∷ (tx.asset_decimals ∷ [])
    ∷ write_canonical_uint64 tx.asset_max_supply
    ∷ write_bool tx.asset_mintable
    ∷ write_bool tx.asset_burnable
    ∷ write_bool tx.asset_pausable
    ∷ write_bool tx.asset_permissioned
    ∷ write_canonical_string tx.stake_id
    ∷ [])

unfoldable pub canonical_bytes : Transaction → Result Str
canonical_bytes tx =
    if protocol_version tx == 0
    then err (wrap "missing protocol version" invalid)
    else if protocol_version tx == tx_version_asset
    then ok (canonical_bytes_v3 tx)
    else ok (
        concat (
          write_canonical_header (protocol_version tx) (tx_type tx) tx.coinbase
          ∷ write_canonical_string tx.id
          ∷ write_canonical_string tx.from
          ∷ write_canonical_string tx.to
          ∷ write_canonical_uint64 tx.amount
          ∷ write_canonical_uint64 tx.fee
          ∷ write_canonical_uint64 tx.nonce
          ∷ write_canonical_int64 tx.timestamp
          ∷ write_canonical_string tx.signature
          ∷ write_canonical_string tx.public_key
          ∷ write_canonical_string tx.stake_id
          ∷ []))
