-- ===== src/Ledger/Validate.antt =====
-- The checks on a transaction before it is applied: deskachain/node/internal/ledger/maturity.go
-- (ValidateTransaction) and asset_execution.go (validateAssetTransactionV3).
use des_ka_project.Prelude.{
  ℕ, ◌-◌, true, false, not, ◌&&◌, ◌||◌, none, some, Str, ◌=s◌, is_empty, ltb, leb, ◌==◌,
  if◌then◌else◌, msg, Result, ok, err, ⊤, Proc, pure, fail, gets, lift, ◌>>=◌, ◌>>◌, fail_if, check,
  ◌then_check◌, wrap_err, map_err, wrapping,
}
use des_ka_project.Arith.{add}
use des_ka_project.Config.{NetworkConfig}
use des_ka_project.Types.{
  Transaction, protocol_version, tx_type, effective_asset_id, effective_fee_payer,
  validate_transaction_version, tx_version_asset, tx_type_transfer, tx_type_stake_lock,
  tx_type_stake_unlock, tx_type_asset_create, tx_type_asset_mint, tx_type_asset_burn,
}
use des_ka_project.Types.Crypto.{Crypto}
use des_ka_project.Types.Envelope.{
  validate_asset_envelope, signing_bytes_with_chain_id, calculate_id_for_chain_id,
  validate_fee_payer_authorization, matches_address, verify,
}
use des_ka_project.Fees
use des_ka_project.Asset.{
  Definition, is_native, derived_id, validate_definition, kind_fungible, status_active,
  status_frozen,
}
use des_ka_project.Asset.State
use des_ka_project.Staking
use des_ka_project.Ledger.{MatureLedger, account, native_balance}
use des_ka_project.Ledger.Native.{address_summary, validate_native_spend, err_immature_balance}

-- The definition that a creation asks for, as `validateAssetTransactionV3` checks it.
abbrev pub request_of : Transaction → State.Request
request_of tx = record {
  name = tx.asset_name;
  symbol = tx.asset_symbol;
  decimals = tx.asset_decimals;
  max_supply = tx.asset_max_supply;
  mintable = tx.asset_mintable;
  burnable = tx.asset_burnable;
  pausable = tx.asset_pausable;
  permissioned = tx.asset_permissioned;
}

abbrev requested_definition : Transaction → Definition
requested_definition tx = record {
  id = tx.asset_id;
  name = tx.asset_name;
  symbol = tx.asset_symbol;
  decimals = tx.asset_decimals;
  kind = kind_fungible;
  issuer = tx.from;
  max_supply = tx.asset_max_supply;
  total_supply = 0;
  mintable = tx.asset_mintable;
  burnable = tx.asset_burnable;
  pausable = tx.asset_pausable;
  permissioned = tx.asset_permissioned;
  status = status_active;
}

abbrev known_asset : Str → Proc MatureLedger Definition
known_asset asset_id l = elim (State.definition asset_id l.assets) [
  | none ↦ (err State.err_asset_not_found, l)
  | some d ↦ (ok d, l)
]

-- The fee payer has the fee.
abbrev validate_fee_spend : Transaction → Proc MatureLedger ⊤
validate_fee_spend tx = validate_native_spend (effective_fee_payer tx) tx.fee

-- The switch at the end of `validateAssetTransactionV3`.

unfoldable pub validate_v3_transfer : Transaction → Proc MatureLedger ⊤
validate_v3_transfer tx =
    let asset_id = effective_asset_id tx in
    if is_native asset_id
    then (do
      (if effective_fee_payer tx =s tx.from
          then (do
            cost ← lift (wrap_err "native dIDR transfer cost overflow" (add tx.amount tx.fee))
            validate_native_spend tx.from cost)
          else (do
            validate_native_spend tx.from tx.amount
            wrapping "fee payer" (validate_fee_spend tx)))
      held ← gets (native_balance tx.from)
      fail_if (ltb held tx.amount) (msg "native dIDR asset balance insufficient"))
    else (do
      held ← gets (λ l. State.balance tx.from asset_id l.assets)
      fail_if (ltb held tx.amount) State.err_insufficient_balance
      validate_fee_spend tx)

unfoldable pub validate_v3_create : Transaction → Proc MatureLedger ⊤
validate_v3_create tx = do
  existing ← gets (λ l. State.definition tx.asset_id l.assets)
  fail_if (elim existing [ none ↦ false | some _ ↦ true ]) State.err_asset_exists
  lift (validate_definition (requested_definition tx))
  validate_fee_spend tx

unfoldable pub validate_v3_mint : Transaction → Proc MatureLedger ⊤
validate_v3_mint tx = do
  d ← known_asset tx.asset_id
  fail_if (is_native d.id) (msg "native dIDR cannot be minted through asset operation")
  fail_if (not (d.issuer =s tx.from)) State.err_unauthorized
  fail_if (not d.mintable) (msg "asset is not mintable")
  fail_if (d.status =s status_frozen) State.err_asset_frozen
  new_supply ← lift (wrap_err "asset supply overflow" (add d.total_supply tx.amount))
  fail_if (ltb 0 d.max_supply && ltb d.max_supply new_supply) (msg "asset max supply exceeded")
  held ← gets (λ l. State.balance tx.to tx.asset_id l.assets)
  next ← lift (wrap_err "asset balance overflow" (add held tx.amount))
  validate_fee_spend tx

unfoldable pub validate_v3_burn : Transaction → Proc MatureLedger ⊤
validate_v3_burn tx = do
  d ← known_asset tx.asset_id
  fail_if (is_native d.id) (msg "native dIDR cannot be burned through asset operation")
  fail_if (not d.burnable) (msg "asset is not burnable")
  fail_if (d.status =s status_frozen) State.err_asset_frozen
  held ← gets (λ l. State.balance tx.from tx.asset_id l.assets)
  fail_if (ltb held tx.amount) State.err_insufficient_balance
  fail_if (ltb d.total_supply tx.amount) (msg "asset total supply underflow")
  validate_fee_spend tx

-- The nonce is the next one of the sender.
abbrev check_nonce : Transaction → Proc MatureLedger ⊤
check_nonce tx = do
  sender ← gets (account tx.from)
  expected ← lift (map_err (msg "account nonce overflow") (add sender.nonce 1))
  fail_if (not (tx.nonce == expected)) (msg "invalid account nonce")

module _ (c : Crypto) where
  -- The id is the hash of the signing bytes.
  abbrev check_id : NetworkConfig → Transaction → Result ⊤
  check_id p tx = elim (calculate_id_for_chain_id c p.chain_id tx) [
    | ok expected ↦ check (not (tx.id =s expected)) (msg "transaction id mismatch")
    | err e ↦ err e
  ]

  abbrev check_signature : NetworkConfig → Transaction → Result ⊤
  check_signature p tx =
      verify c tx.public_key tx.signature (signing_bytes_with_chain_id c p.chain_id tx)
        (msg "invalid transaction signature")

  -- The part of `validateAssetTransactionV3` that reads the transaction and the profile alone.
  unfoldable pub check_v3_form : NetworkConfig → Transaction → Result ⊤
  check_v3_form p tx =
      Fees.validate tx p
      then_check validate_asset_envelope tx
      then_check check (is_empty tx.asset_id && tx_type tx =s tx_type_transfer)
          (msg "asset transfer asset id is required")
      then_check wrap_err "invalid sender address" (c.validate_address tx.from p)
      then_check (if tx_type tx =s tx_type_transfer || tx_type tx =s tx_type_asset_mint
          then wrap_err "invalid recipient address" (c.validate_address tx.to p)
          else if tx_type tx =s tx_type_asset_burn
          then wrap_err "invalid burn owner" (c.validate_address tx.from p)
          else ok tt)
      then_check check (not (matches_address c tx.public_key p tx.from))
          (msg "public key does not match sender address")
      then_check check_id p tx
      then_check check (tx_type tx =s tx_type_asset_create && not (tx.asset_id =s derived_id tx.id))
          (msg "asset create id mismatch")
      then_check check_signature p tx
      then_check validate_fee_payer_authorization c p tx

  unfoldable pub validate_asset_transaction_v3 : Transaction → Proc MatureLedger ⊤
  validate_asset_transaction_v3 tx = do
    profile ← gets (λ l. l.profile)
    lift (check_v3_form profile tx)
    check_nonce tx
    (if tx_type tx =s tx_type_transfer
        then validate_v3_transfer tx
        else if tx_type tx =s tx_type_asset_create
        then validate_v3_create tx
        else if tx_type tx =s tx_type_asset_mint
        then validate_v3_mint tx
        else if tx_type tx =s tx_type_asset_burn
        then validate_v3_burn tx
        else fail (msg "unsupported v3 asset transaction type"))

  -- The part of `ValidateTransaction` that reads a version 1 or 2 transaction, the profile and the
  -- least stake alone.
  unfoldable pub check_legacy_form : NetworkConfig → ℕ → Transaction → Result ⊤
  check_legacy_form p min_stake_amount tx =
      (if tx_type tx =s tx_type_transfer
        then check (tx.amount == 0) (msg "amount must be greater than zero")
          then_check check (tx.from =s tx.to) (msg "sender and recipient must differ")
        else if tx_type tx =s tx_type_stake_lock
        then check (tx.amount == 0) (msg "amount must be greater than zero")
          then_check check (ltb tx.amount min_stake_amount)
              (msg "invalid stake lock: amount below minimum")
        else if tx_type tx =s tx_type_stake_unlock
        then check (is_empty tx.stake_id) (msg "invalid stake unlock: stake id is required")
        else err (msg "unknown transaction type"))
      then_check wrap_err "invalid sender address" (c.validate_address tx.from p)
      then_check (if tx_type tx =s tx_type_transfer
          then wrap_err "invalid recipient address" (c.validate_address tx.to p)
          else ok tt)
      then_check check
          (tx_type tx =s tx_type_stake_lock && not (is_empty tx.to) && not (tx.to =s tx.from))
          (msg "invalid stake lock: recipient must match owner")
      then_check check (not (matches_address c tx.public_key p tx.from))
          (msg "public key does not match sender address")
      then_check check_id p tx
      then_check check
          (tx_type tx =s tx_type_stake_lock
            && not (is_empty tx.stake_id)
            && not (tx.stake_id =s tx.id))
          (msg "invalid stake lock: stake id mismatch")
      then_check check_signature p tx

  -- The locked stake of an address: active and unlocking.
  abbrev locked_stake : Str → Proc MatureLedger ℕ
  locked_stake address = do
    totals ← address_summary address
    lift (map_err (msg "locked stake total overflow") (add totals.0 totals.1))

  unfoldable pub validate_legacy_transfer : Transaction → Proc MatureLedger ⊤
  validate_legacy_transfer tx = do
    a ← gets (account tx.from)
    cost ← lift (wrap_err "transaction cost overflow" (add tx.amount tx.fee))
    fail_if (ltb a.confirmed cost) (msg "insufficient balance")
    fail_if (ltb a.mature cost) err_immature_balance
    locked ← locked_stake tx.from
    fail_if (ltb a.mature locked || ltb (a.mature - locked) cost)
        (msg "invalid transaction: spends locked stake")

  unfoldable pub validate_stake_lock : Transaction → Proc MatureLedger ⊤
  validate_stake_lock tx = do
    a ← gets (account tx.from)
    locked ← locked_stake tx.from
    fail_if (ltb a.mature locked || ltb (a.mature - locked) tx.amount)
        (msg "invalid stake lock: insufficient mature spendable balance")
    active ← gets (λ l. Staking.active_count tx.from l.stakes)
    limit ← gets (λ l. l.params.staking.max_active_stakes_per_address)
    fail_if (leb limit active && ltb 0 limit) (msg "invalid stake lock: max active stakes reached")

  abbrev find_stake : Str → Proc MatureLedger Staking.Record
  find_stake id l =
      let (found, s) = Staking.find id l.current_height l.stakes in
      elim found [
        | none ↦ (err (msg "invalid stake unlock: stake not found"), record l { stakes = s })
        | some r ↦ (ok r, record l { stakes = s })
      ]

  unfoldable pub validate_stake_unlock : Transaction → Proc MatureLedger ⊤
  validate_stake_unlock tx = do
    r ← find_stake tx.stake_id
    fail_if (not (r.owner_address =s tx.from)) (msg "invalid stake unlock: owner mismatch")
    fail_if (not (r.status =s Staking.status_active)) (msg "invalid stake unlock: stake not active")

  unfoldable pub validate_legacy_transaction : Transaction → Proc MatureLedger ⊤
  validate_legacy_transaction tx = do
    profile ← gets (λ l. l.profile)
    params ← gets (λ l. l.params)
    lift (check_legacy_form profile params.staking.min_stake_amount tx)
    check_nonce tx
    (if tx_type tx =s tx_type_transfer
        then validate_legacy_transfer tx
        else if tx_type tx =s tx_type_stake_lock
        then validate_stake_lock tx
        else validate_stake_unlock tx)

  -- `ValidateTransaction`
  unfoldable pub validate_transaction : Transaction → Proc MatureLedger ⊤
  validate_transaction tx = do
    profile ← gets (λ l. l.profile)
    lift (validate_transaction_version (protocol_version tx) profile.tx_version)
    (if tx.coinbase
        then pure tt
        else if protocol_version tx == tx_version_asset
        then validate_asset_transaction_v3 tx
        else validate_legacy_transaction tx)
