-- ===== src/Ledger/Native.antt =====
-- deskachain/node/internal/ledger/asset_execution.go: spending, receiving and charging the native
-- currency, which is kept twice, in the accounts and as a native asset balance.
use des_ka_project.Prelude.{
  ℕ, ◌-◌, ◌||◌, Str, is_empty, ltb, ◌==◌, if◌then◌else◌, Error, msg, wrap, ok, err, ⊤, Proc, pure,
  gets, lift, ◌>>=◌, ◌>>◌, fail_if, modify, wrap_err, map_err,
}
use des_ka_project.Arith.{add, sub}
use des_ka_project.Config.{native_asset_id}
use des_ka_project.Types.Crypto.{Crypto}
use des_ka_project.Asset.State
use des_ka_project.Asset.State.{fee_collector_address}
use des_ka_project.Staking
use des_ka_project.Ledger.{MatureLedger, account, set_account, native_balance, on_assets}

abbrev pub err_immature_balance : Error
err_immature_balance = msg "spends immature coinbase"

-- `l.stakes.AddressSummary(address, l.currentHeight)`
unfoldable pub address_summary : Str → Proc MatureLedger (ℕ × ℕ × ℕ)
address_summary address l =
    let (totals, s) = Staking.address_summary address l.current_height l.stakes in
    (ok totals, record l { stakes = s })

unfoldable pub validate_native_spend : Str → ℕ → Proc MatureLedger ⊤
validate_native_spend address amount = if amount == 0 then pure tt else (do
  a ← gets (account address)
  fail_if (ltb a.confirmed amount) (msg "insufficient native dIDR balance")
  fail_if (ltb a.mature amount) err_immature_balance
  totals ← address_summary address
  locked ← lift (map_err (msg "locked stake total overflow") (add totals.0 totals.1))
  fail_if (ltb a.mature locked || ltb (a.mature - locked) amount)
      (msg "invalid transaction: spends locked stake")
  held ← gets (native_balance address)
  fail_if (ltb held amount) (msg "native dIDR asset balance insufficient"))

unfoldable pub spend_native : Str → ℕ → Proc MatureLedger ⊤
spend_native address amount = do
  validate_native_spend address amount
  a ← gets (account address)
  confirmed ← lift (map_err (msg "native dIDR balance underflow") (sub a.confirmed amount))
  mature ← lift (map_err err_immature_balance (sub a.mature amount))
  on_assets (State.debit address native_asset_id amount)
  modify (set_account address (record a { confirmed = confirmed; mature = mature }))

unfoldable pub receive_native : Str → ℕ → Proc MatureLedger ⊤
receive_native address amount = if amount == 0 then pure tt else (do
  a ← gets (account address)
  confirmed ← lift (wrap_err "recipient native dIDR balance overflow" (add a.confirmed amount))
  mature ← lift (wrap_err "recipient mature dIDR balance overflow" (add a.mature amount))
  on_assets (State.credit address native_asset_id amount)
  modify (set_account address (record a { confirmed = confirmed; mature = mature })))

-- The payer is restored where the collector cannot be credited.
abbrev restore_payer : Str → ℕ → Error → Proc MatureLedger ⊤
restore_payer payer fee e l =
    let (r, l') = receive_native payer fee l in
    elim r [
      | ok _ ↦ (err (wrap "fee collector credit failed" e), l')
      | err e' ↦ (err (wrap "fee collector credit failed; payer restore failed" e'), l')
    ]

unfoldable pub charge_native_fee : Str → ℕ → Proc MatureLedger ⊤
charge_native_fee payer fee = if fee == 0 then pure tt else (do
  spend_native payer fee
  λ l.
      let (r, l') = on_assets (State.credit fee_collector_address native_asset_id fee) l in
      elim r [ ok _ ↦ (ok tt, l') | err e ↦ restore_payer payer fee e l' ])

-- The collector is restored where the miner cannot be paid; the error of that is dropped.
abbrev pay_miner : Str → ℕ → Proc MatureLedger ⊤
pay_miner miner fee l =
    let (r, l') = receive_native miner fee l in
    elim r [
      | ok _ ↦ (ok tt, l')
      | err e ↦ (
        err (wrap "fee settlement failed" e),
        (on_assets (State.credit fee_collector_address native_asset_id fee) l').1,
      )
    ]

module _ (c : Crypto) where
  unfoldable pub settle_fees : Str → Proc MatureLedger ⊤
  settle_fees miner = do
    fee ← gets (native_balance fee_collector_address)
    (if fee == 0 then pure tt else (do
      fail_if (is_empty miner) (msg "miner address is required to settle fees")
      profile ← gets (λ l. l.profile)
      lift (wrap_err "invalid fee recipient" (c.validate_address miner profile))
      on_assets (State.debit fee_collector_address native_asset_id fee)
      pay_miner miner fee))
