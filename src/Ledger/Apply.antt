-- ===== src/Ledger/Apply.antt =====
-- Applying transactions and blocks: deskachain/node/internal/ledger/maturity.go and
-- applyAssetTransactionV3 of asset_execution.go.
use des_ka_project.Prelude.{
  ℕ, ◌+◌, ◌-◌, false, not, Option, none, some, List, [], ◌∷◌, ◌++◌, ◌=s◌, ltb, ◌==◌, if◌then◌else◌,
  msg, Result, ok, err, ⊤, Proc, pure, fail, gets, lift, ◌>>=◌, ◌>>◌, fail_if, modify, wrap_err,
  map_err, wrapping, last?,
}
use des_ka_project.Prelude.Dict.{Dict, get, insert}
use des_ka_project.Arith.{add, sub}
use des_ka_project.Config.{ConsensusParams, NetworkConfig, native_asset_id}
use des_ka_project.Types.{
  Transaction, protocol_version, tx_type, effective_asset_id, effective_fee_payer, tx_version_asset,
  tx_type_transfer, tx_type_stake_lock, tx_type_stake_unlock, tx_type_asset_create,
  tx_type_asset_mint, tx_type_asset_burn,
}
use des_ka_project.Types.Crypto.{Crypto}
use des_ka_project.Types.Block.{Block}
use des_ka_project.Asset.{is_native}
use des_ka_project.Asset.State
use des_ka_project.Staking
use des_ka_project.Ledger.{
  MatureLedger, MatureAccount, CoinbaseCredit, zero_account, account, set_account, on_assets,
  on_stakes, asset_model_enabled, with_rollback, new_mature_with_profile,
}
use des_ka_project.Ledger.Native.{
  spend_native, receive_native, charge_native_fee, settle_fees, err_immature_balance,
}
use des_ka_project.Ledger.Validate.{request_of, validate_transaction}

-- `matureCoinbases` on one credit: what stays pending, and the accounts. A credit whose amount would
-- overflow the account stays pending.
unfoldable pub mature_credit :
    ℕ → ℕ → CoinbaseCredit → Dict MatureAccount → Option CoinbaseCredit × Dict MatureAccount
mature_credit maturity height credit accounts =
    if credit.matured then (none, accounts) else elim (add credit.height maturity) [
      | err _ ↦ (some credit, accounts)
      | ok maturity_height ↦
          if ltb height maturity_height
          then (some credit, accounts)
          else (let a = get zero_account credit.address accounts in
              elim (add a.mature credit.amount) [
                | err _ ↦ (some credit, accounts)
                | ok mature ↦ (none, insert credit.address (record a { mature = mature }) accounts)
              ])
    ]

abbrev pub keep_pending : Option CoinbaseCredit → List CoinbaseCredit → List CoinbaseCredit
keep_pending none cs = cs
keep_pending (some c) cs = c ∷ cs

unfoldable pub mature_credits :
    ℕ → ℕ → List CoinbaseCredit → Dict MatureAccount → List CoinbaseCredit × Dict MatureAccount
mature_credits maturity height [] accounts = ([], accounts)
mature_credits maturity height (c ∷ cs) accounts =
    let (kept, accounts') = mature_credit maturity height c accounts in
    let (pending, accounts'') = mature_credits maturity height cs accounts' in
    (keep_pending kept pending, accounts'')

unfoldable pub mature_coinbases : ℕ → MatureLedger → MatureLedger
mature_coinbases height l =
    let (pending, accounts) = mature_credits l.maturity height l.coinbases l.accounts in
    record l { coinbases = pending; accounts = accounts }

-- The account's nonce becomes the transaction's.
abbrev pub set_nonce : Transaction → MatureLedger → MatureLedger
set_nonce tx l = set_account tx.from (record (account tx.from l) { nonce = tx.nonce }) l

-- The cases of the switch in `applyAssetTransactionV3`.

abbrev pub charge : Transaction → Proc MatureLedger ⊤
charge tx = charge_native_fee (effective_fee_payer tx) tx.fee

unfoldable pub execute_native_transfer : Transaction → Proc MatureLedger ⊤
execute_native_transfer tx = do
  spend_native tx.from tx.amount
  charge tx
  receive_native tx.to tx.amount

unfoldable pub execute_asset_transfer : Transaction → Proc MatureLedger ⊤
execute_asset_transfer tx = do
  on_assets (State.transfer tx.asset_id tx.from tx.to tx.amount)
  charge tx

unfoldable pub execute_create : Transaction → Proc MatureLedger ⊤
execute_create tx = do
  d ← on_assets (State.create_from_transaction_id tx.id (request_of tx) tx.from)
  charge tx

unfoldable pub execute_mint : Transaction → Proc MatureLedger ⊤
execute_mint tx = do on_assets (State.mint tx.asset_id tx.from tx.to tx.amount); charge tx

unfoldable pub execute_burn : Transaction → Proc MatureLedger ⊤
execute_burn tx = do on_assets (State.burn tx.asset_id tx.from tx.amount); charge tx

unfoldable pub execute_v3 : Transaction → Proc MatureLedger ⊤
execute_v3 tx =
    if tx_type tx =s tx_type_transfer
    then (if is_native (effective_asset_id tx)
        then execute_native_transfer tx
        else execute_asset_transfer tx)
    else if tx_type tx =s tx_type_asset_create
    then execute_create tx
    else if tx_type tx =s tx_type_asset_mint
    then execute_mint tx
    else if tx_type tx =s tx_type_asset_burn
    then execute_burn tx
    else fail (msg "unsupported v3 asset transaction type")

unfoldable pub apply_asset_transaction_v3 : Transaction → Proc MatureLedger ⊤
apply_asset_transaction_v3 tx = do with_rollback (execute_v3 tx); modify (set_nonce tx)

-- The native assets follow the accounts where assets are enabled.
abbrev pub move_native_assets : Transaction → ℕ → Proc MatureLedger ⊤
move_native_assets tx cost = do
  enabled ← gets asset_model_enabled
  (if enabled
      then (do
        wrapping "legacy native dIDR asset debit"
            (on_assets (State.debit tx.from native_asset_id cost))
        wrapping "legacy native dIDR asset credit"
            (on_assets (State.credit tx.to native_asset_id tx.amount)))
      else pure tt)

-- A version 1 or 2 transfer: the fee leaves the sender and goes to nobody here.
unfoldable pub apply_legacy_transfer : Transaction → Proc MatureLedger ⊤
apply_legacy_transfer tx = do
  from ← gets (account tx.from)
  to ← gets (account tx.to)
  cost ← lift (wrap_err "transaction cost overflow" (add tx.amount tx.fee))
  confirmed ← lift (map_err (msg "insufficient balance") (sub from.confirmed cost))
  mature ← lift (map_err err_immature_balance (sub from.mature cost))
  to_confirmed ← lift (wrap_err "recipient balance overflow" (add to.confirmed tx.amount))
  to_mature ← lift (wrap_err "recipient mature balance overflow" (add to.mature tx.amount))
  modify (
      set_account tx.from
        (record from { confirmed = confirmed; mature = mature; nonce = tx.nonce }))
  modify (set_account tx.to (record to { confirmed = to_confirmed; mature = to_mature }))
  move_native_assets tx cost

unfoldable pub apply_legacy_transaction : Transaction → ℕ → Proc MatureLedger ⊤
apply_legacy_transaction tx height =
    if tx_type tx =s tx_type_transfer
    then apply_legacy_transfer tx
    else if tx_type tx =s tx_type_stake_lock
    then (do on_stakes (Staking.apply_lock tx height); modify (set_nonce tx))
    else if tx_type tx =s tx_type_stake_unlock
    then (do on_stakes (Staking.apply_unlock tx height); modify (set_nonce tx))
    else fail (msg "unknown transaction type")

module _ (c : Crypto) where
  unfoldable pub apply_transaction_at_height : Transaction → ℕ → Proc MatureLedger ⊤
  apply_transaction_at_height tx height = do
    validate_transaction c tx
    (if protocol_version tx == tx_version_asset
        then apply_asset_transaction_v3 tx
        else apply_legacy_transaction tx height)

  abbrev pub credit_native_assets : Transaction → Proc MatureLedger ⊤
  credit_native_assets tx = do
    enabled ← gets asset_model_enabled
    (if enabled
        then wrapping "native dIDR coinbase credit"
            (on_assets (State.credit tx.to native_asset_id tx.amount))
        else pure tt)

  abbrev pub add_coinbase : Transaction → ℕ → MatureLedger → MatureLedger
  add_coinbase tx height l =
      if ltb 0 tx.amount
      then record l {
        coinbases =
            l.coinbases
            ++ record { address = tx.to; amount = tx.amount; height = height; matured = false }
              ∷ [];
      }
      else l

  unfoldable pub apply_coinbase_at_height : Transaction → ℕ → Proc MatureLedger ⊤
  apply_coinbase_at_height tx height = do
    fail_if (not tx.coinbase) (msg "transaction is not coinbase")
    profile ← gets (λ l. l.profile)
    lift (wrap_err "invalid coinbase recipient" (c.validate_address tx.to profile))
    a ← gets (account tx.to)
    confirmed ← lift (wrap_err "coinbase balance overflow" (add a.confirmed tx.amount))
    credit_native_assets tx
    modify (set_account tx.to (record a { confirmed = confirmed }))
    modify (add_coinbase tx height)

  -- The transactions of a block; the number counts the coinbases so far.
  unfoldable pub apply_transactions : ℕ → ℕ → List Transaction → Proc MatureLedger ⊤
  apply_transactions height coinbases [] l = (ok tt, l)
  apply_transactions height coinbases (tx ∷ txs) l =
      let coinbases' = if tx.coinbase then coinbases + 1 else coinbases in
      let (r, l') =
        (if tx.coinbase
            then (do
              fail_if (ltb 1 coinbases') (msg "multiple coinbase transactions")
              apply_coinbase_at_height tx height)
            else apply_transaction_at_height tx height)
          l in
      elim r [ ok _ ↦ apply_transactions height coinbases' txs l' | err e ↦ (err e, l') ]

  -- `applyBlock`
  unfoldable pub run_block : Block → Proc MatureLedger ⊤
  run_block b = do
    modify (λ l. if ltb 0 b.height then mature_coinbases (b.height - 1) l else l)
    apply_transactions b.height 0 b.transactions
    enabled ← gets asset_model_enabled
    (if enabled then settle_fees c b.miner_address else pure tt)
    modify (λ l. record l { current_height = b.height })
    modify (mature_coinbases b.height)

  -- `ApplyBlock`
  unfoldable pub apply_block : Block → Proc MatureLedger ⊤
  apply_block b l = if asset_model_enabled l then with_rollback (run_block b) l else run_block b l

  unfoldable pub apply_blocks : List Block → Proc MatureLedger ⊤
  apply_blocks [] l = (ok tt, l)
  apply_blocks (b ∷ bs) l =
      let (r, l') = apply_block b l in elim r [ ok _ ↦ apply_blocks bs l' | err e ↦ (err e, l') ]

  abbrev pub mature_at_tip : List Block → MatureLedger → MatureLedger
  mature_at_tip bs l = elim (last? bs) [ none ↦ l | some tip ↦ mature_coinbases tip.height l ]

  unfoldable pub replay_mature_with_profile :
      List Block → ConsensusParams → NetworkConfig → Result MatureLedger
  replay_mature_with_profile bs params p =
      let (r, l) = apply_blocks bs (new_mature_with_profile params p) in
      elim r [ ok _ ↦ ok (mature_at_tip bs l) | err e ↦ err e ]
