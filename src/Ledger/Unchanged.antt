-- ===== src/Ledger/Unchanged.antt =====
-- The checks of deskachain/node/internal/ledger leave the balances, the coinbases and the assets as
-- they are: all they may do is release stakes that are due.
use des_ka_project.Prelude.{◌+◌, ◌≡◌, true, false, Str, ◌==◌, arith, is_ok}
use des_ka_project.Arith.{add}
use des_ka_project.Types.{Transaction, effective_fee_payer, protocol_version, tx_version_asset}
use des_ka_project.Types.Crypto.{Crypto}
use des_ka_project.Types.Envelope.{validate_asset_envelope}
use des_ka_project.Ledger.{MatureLedger, account}
use des_ka_project.Ledger.Native.{address_summary, validate_native_spend}
use des_ka_project.Ledger.Validate.{
  check_v3_form, validate_v3_transfer, validate_v3_create, validate_v3_mint, validate_v3_burn,
  validate_asset_transaction_v3, validate_legacy_transfer, validate_stake_lock,
  validate_stake_unlock, validate_legacy_transaction, validate_transaction,
}
use des_ka_project.Ledger.Money.{view, validate_native_spend-view}

module _ (b j : Str) (tx : Transaction) (l : MatureLedger) where
  abbrev Same : MatureLedger → Type 0
  Same l' = view b j l' ≡ view b j l

  validate_v3_transfer-Same : Same (validate_v3_transfer tx l).1
  unfolding validate_v3_transfer add
  validate_v3_transfer-Same = ground (
    arith,
    validate_native_spend-view tx.from (tx.amount + tx.fee) l b j,
    validate_native_spend-view tx.from tx.amount l b j,
    validate_native_spend-view (effective_fee_payer tx) tx.fee l b j,
    validate_native_spend-view (effective_fee_payer tx) tx.fee
        (validate_native_spend tx.from tx.amount l).1 b j,
  )

  validate_v3_create-Same : Same (validate_v3_create tx l).1
  unfolding validate_v3_create
  validate_v3_create-Same =
      ground (arith, validate_native_spend-view (effective_fee_payer tx) tx.fee l b j)

  validate_v3_mint-Same : Same (validate_v3_mint tx l).1
  unfolding validate_v3_mint
  validate_v3_mint-Same =
      ground (arith, validate_native_spend-view (effective_fee_payer tx) tx.fee l b j)

  validate_v3_burn-Same : Same (validate_v3_burn tx l).1
  unfolding validate_v3_burn
  validate_v3_burn-Same =
      ground (arith, validate_native_spend-view (effective_fee_payer tx) tx.fee l b j)

  validate_legacy_transfer-Same : (c : Crypto) → Same (validate_legacy_transfer c tx l).1
  unfolding validate_legacy_transfer address_summary account
  validate_legacy_transfer-Same c = ground arith

  validate_stake_lock-Same : (c : Crypto) → Same (validate_stake_lock c tx l).1
  unfolding validate_stake_lock address_summary account
  validate_stake_lock-Same c = ground arith

  validate_stake_unlock-Same : (c : Crypto) → Same (validate_stake_unlock c tx l).1
  unfolding validate_stake_unlock account
  validate_stake_unlock-Same c = ground arith

  module _ (c : Crypto) where
    validate_v3-Same : Same (validate_asset_transaction_v3 c tx l).1
    unfolding validate_asset_transaction_v3
    validate_v3-Same = ground (
      arith, validate_v3_transfer-Same, validate_v3_create-Same, validate_v3_mint-Same,
      validate_v3_burn-Same,
    )

    validate_legacy-Same : Same (validate_legacy_transaction c tx l).1
    unfolding validate_legacy_transaction
    validate_legacy-Same = ground (
      arith,
      validate_legacy_transfer-Same c,
      validate_stake_lock-Same c,
      validate_stake_unlock-Same c,
    )

    -- Validating a transaction, whatever the answer, leaves every confirmed, mature and native
    -- balance, the coinbases and the supply of every asset as they were.
    pub validate_transaction-view : Same (validate_transaction c tx l).1
    unfolding validate_transaction
    validate_transaction-view = ground (arith, validate_v3-Same, validate_legacy-Same)

    -- A version 3 transaction that passes has a valid envelope.
    pub validate_transaction_envelope :
        (protocol_version tx == tx_version_asset) ≡ true
        → tx.coinbase ≡ false
        → is_ok (validate_transaction c tx l).0 ≡ true
        → is_ok (validate_asset_envelope tx) ≡ true
    unfolding validate_transaction validate_asset_transaction_v3 check_v3_form
    validate_transaction_envelope v n h = ground arith
