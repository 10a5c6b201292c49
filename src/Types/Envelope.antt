-- ===== src/Types/Envelope.antt =====
-- deskachain/node/internal/types/transaction.go: ids, signing bytes, the v3 envelope and the
-- paymaster's authorization.
use des_ka_project.Prelude.{
  ℕ, Bool, true, false, not, ◌&&◌, ◌||◌, [], Str, codes, ◌=s◌, is_empty, ltb, ◌==◌, if◌then◌else◌,
  Error, msg, Result, ok, err, ⊤, check, ◌then_check◌, wrap_err,
}
use des_ka_project.Prelude.Int.{ℤ}
use des_ka_project.Config.{NetworkConfig}
use des_ka_project.Asset.{is_native, derived_id}
use des_ka_project.Types.{
  Transaction, protocol_version, tx_type, effective_asset_id, effective_fee_payer,
  tx_version_legacy, tx_version_canonical, tx_version_asset, tx_type_transfer, tx_type_stake_lock,
  tx_type_stake_unlock, tx_type_asset_create, tx_type_asset_mint, tx_type_asset_burn,
  coinbase_sender,
}
use des_ka_project.Types.Crypto.{Crypto}
use des_ka_project.Types.Codec.{
  canonical_signing_bytes, canonical_signing_bytes_v3, canonical_signing_bytes_with_chain_id,
  to_int64,
}
use des_ka_project.Types.Codec.Decode.{empty_transaction}

-- The checks of one transaction type in `ValidateAssetEnvelope`.
abbrev validate_asset_fields : Transaction → Result ⊤
validate_asset_fields tx =
    if tx_type tx =s tx_type_transfer
    then check (is_empty tx.to || tx.to =s tx.from) (msg "asset transfer recipient is invalid")
      then_check check (is_empty (effective_asset_id tx))
          (msg "asset transfer asset id is required")
      then_check check (tx.amount == 0) (msg "asset transfer amount must be greater than zero")
    else if tx_type tx =s tx_type_asset_create
    then check (not (is_empty tx.to)) (msg "asset create recipient must be empty")
      then_check check (not (is_empty tx.asset_id) && is_empty tx.id)
          (msg "asset create asset id requires transaction id")
      then_check check (is_empty tx.asset_name || is_empty tx.asset_symbol)
          (msg "asset create metadata is incomplete")
      then_check check (ltb 18 tx.asset_decimals) (msg "asset create decimals too large")
    else if tx_type tx =s tx_type_asset_mint
    then check (is_empty tx.to || is_native tx.asset_id || is_empty tx.asset_id)
        (msg "asset mint requires an issued asset and recipient")
      then_check check (tx.amount == 0) (msg "asset mint amount must be greater than zero")
    else if tx_type tx =s tx_type_asset_burn
    then check (not (tx.to =s tx.from) || is_empty tx.asset_id || is_native tx.asset_id)
        (msg "asset burn requires an issued asset owned by the sender")
      then_check check (tx.amount == 0) (msg "asset burn amount must be greater than zero")
    else err (msg "unsupported asset transaction type")

unfoldable pub validate_asset_envelope : Transaction → Result ⊤
validate_asset_envelope tx =
    check (not (protocol_version tx == tx_version_asset))
      (msg "asset envelope requires transaction version 3")
    then_check check tx.coinbase (msg "asset transactions cannot be coinbase")
    then_check check (is_empty tx.from) (msg "asset transaction sender is required")
    then_check check (is_empty (effective_fee_payer tx))
        (msg "asset transaction fee payer is required")
    then_check validate_asset_fields tx
    then_check check
        (not (is_empty tx.fee_payer)
          && not (tx.fee_payer =s tx.from)
          && (is_empty tx.fee_payer_public_key || is_empty tx.fee_payer_signature))
        (msg "paymaster authorization is incomplete")

module _ (c : Crypto) where
  -- `SigningBytes`: a legacy transaction signs its JSON without id, signature and version.
  unfoldable pub signing_bytes : Transaction → Str
  signing_bytes tx =
      if protocol_version tx == tx_version_canonical
      then canonical_signing_bytes tx
      else if protocol_version tx == tx_version_asset
      then canonical_signing_bytes_v3 tx
      else (let stake_id = if tx_type tx =s tx_type_stake_lock then [] else tx.stake_id in
          c.transaction_json
            (record tx { id = []; signature = []; version = 0; stake_id = stake_id }))

  unfoldable pub signing_bytes_with_chain_id : ℕ → Transaction → Result Str
  signing_bytes_with_chain_id chain_id tx =
      if protocol_version tx == tx_version_legacy
      then ok (signing_bytes tx)
      else if protocol_version tx == tx_version_canonical || protocol_version tx == tx_version_asset
      then canonical_signing_bytes_with_chain_id chain_id tx
      else err (msg "unsupported transaction version")

  -- `CalculateID`
  unfoldable pub calculate_id : Transaction → Str
  calculate_id tx = c.double_sha256_hex (signing_bytes tx)

  abbrev hashed : Result Str → Result Str
  hashed (ok raw) = ok (c.double_sha256_hex raw)
  hashed (err e) = err e

  -- `CalculateIDForChainID`
  unfoldable pub calculate_id_for_chain_id : ℕ → Transaction → Result Str
  calculate_id_for_chain_id chain_id tx = hashed (signing_bytes_with_chain_id chain_id tx)

  unfoldable pub fee_payer_signing_bytes_with_chain_id : ℕ → Transaction → Result Str
  fee_payer_signing_bytes_with_chain_id chain_id tx =
      check (not (protocol_version tx == tx_version_asset))
        (msg "fee payer authorization requires transaction version 3")
      then_check ok (
          c.fee_payer_json (record {
            domain = codes "deska-paymaster-v1";
            chain_id = chain_id;
            tx_id = tx.id;
            from = tx.from;
            to = tx.to;
            amount = tx.amount;
            fee = tx.fee;
            nonce = tx.nonce;
            timestamp = tx.timestamp;
            type = tx_type tx;
            asset_id = effective_asset_id tx;
            fee_payer = effective_fee_payer tx;
          }))

  -- The key's address is the one given.
  abbrev pub matches_address : Str → NetworkConfig → Str → Bool
  matches_address public_key p address = elim (c.address_from_public_key public_key p) [
    | ok a ↦ a =s address
    | err _ ↦ false
  ]

  -- The signature under the bytes, where they can be made.
  abbrev pub verify : Str → Str → Result Str → Error → Result ⊤
  verify public_key signature (ok raw) e = check (not (c.verify_hex public_key signature raw)) e
  verify public_key signature (err e') e = err e'

  unfoldable pub validate_fee_payer_authorization : NetworkConfig → Transaction → Result ⊤
  validate_fee_payer_authorization p tx =
      check (not (protocol_version tx == tx_version_asset))
        (msg "fee payer authorization requires transaction version 3")
      then_check check (not p.asset.paymaster_enabled && not (effective_fee_payer tx =s tx.from))
          (msg "paymaster is disabled")
      then_check (if effective_fee_payer tx =s tx.from
          then check
              (not (is_empty tx.fee_payer_public_key) || not (is_empty tx.fee_payer_signature))
              (msg "self-paid transaction cannot carry paymaster authorization")
          else (wrap_err "invalid fee payer address" (c.validate_address (effective_fee_payer tx) p)
              then_check check (is_empty tx.fee_payer_public_key || is_empty tx.fee_payer_signature)
                  (msg "paymaster authorization is incomplete")
              then_check check
                  (not (matches_address tx.fee_payer_public_key p (effective_fee_payer tx)))
                  (msg "paymaster public key does not match fee payer")
              then_check verify tx.fee_payer_public_key tx.fee_payer_signature
                  (fee_payer_signing_bytes_with_chain_id p.chain_id tx)
                  (msg "invalid paymaster signature")))

  -- The constructors; `now` is the Unix time.
  unfoldable pub new_unsigned_transaction : ℤ → Str → Str → ℕ → ℕ → ℕ → Transaction
  new_unsigned_transaction now from to amount fee nonce =
      let tx = record empty_transaction {
        version = tx_version_legacy;
        from = from;
        to = to;
        amount = amount;
        fee = fee;
        nonce = nonce;
        timestamp = now;
      } in
      record tx { id = calculate_id tx }

  unfoldable pub new_stake_lock_transaction : ℤ → Str → ℕ → ℕ → Transaction
  new_stake_lock_transaction now address amount nonce =
      let tx = record empty_transaction {
        version = tx_version_legacy;
        from = address;
        to = address;
        amount = amount;
        nonce = nonce;
        timestamp = now;
        type = tx_type_stake_lock;
      } in
      record tx { id = calculate_id tx; stake_id = calculate_id tx }

  unfoldable pub new_stake_unlock_transaction : ℤ → Str → Str → ℕ → Transaction
  new_stake_unlock_transaction now address stake_id nonce =
      let tx = record empty_transaction {
        version = tx_version_legacy;
        from = address;
        to = address;
        nonce = nonce;
        timestamp = now;
        type = tx_type_stake_unlock;
        stake_id = stake_id;
      } in
      record tx { id = calculate_id tx }

  unfoldable pub new_coinbase_transaction_with_version : Str → ℕ → ℕ → ℕ → Transaction
  new_coinbase_transaction_with_version to amount height version =
      let tx = record empty_transaction {
        version = version;
        from = coinbase_sender;
        to = to;
        amount = amount;
        timestamp = to_int64 height;
        coinbase = true;
      } in
      record tx { id = calculate_id tx }

  -- `RefreshDerivedAssetID`: the transaction with its asset id set.
  unfoldable pub refresh_derived_asset_id : Transaction → Result Transaction
  refresh_derived_asset_id tx =
      check
        (not (protocol_version tx == tx_version_asset) || not (tx_type tx =s tx_type_asset_create))
        (msg "derived asset id requires asset-create transaction version 3")
      then_check check (is_empty tx.id) (msg "transaction id is required")
      then_check ok (record tx { asset_id = derived_id tx.id })
