-- ===== src/Ledger/Settle.antt =====
-- Fee settlement at the end of a block: settleFees of
-- deskachain/node/internal/ledger/asset_execution.go.
use des_ka_project.Prelude.{◌≡◌, ◌≢◌, [], true, false, Str, ◌=s◌, if◌then◌else◌, arith, is_ok}
use des_ka_project.Config.{NetworkConfig, native_asset_id}
use des_ka_project.Types.Crypto.{Crypto}
use des_ka_project.Asset.State
use des_ka_project.Asset.State.{fee_collector_address}
use des_ka_project.Asset.Moves.{debit-balance, debit-circulating, recorded_supply-debit}
use des_ka_project.Ledger.{MatureLedger, account, native_balance}
use des_ka_project.Ledger.Native.{settle_fees}
use des_ka_project.Ledger.Money.{view, give, receive_native-view}

module _ (c : Crypto) where
  -- The collector's own key is no address of the network.
  abbrev pub CollectorInvalid : NetworkConfig → Type 0
  CollectorInvalid p = is_ok (c.validate_address fee_collector_address p) ≡ false

  -- A settlement of the fees that succeeds gives the miner the whole pool, in both books of the
  -- native currency, and changes nothing in view of any other address but the pool, nor of any
  -- issued asset.
  pub settle_fees-view :
      (miner : Str) (l : MatureLedger) (b j : Str)
      → b ≢ fee_collector_address
      → j ≢ native_asset_id
      → is_ok (settle_fees c miner l).0 ≡ true
      → view b j (settle_fees c miner l).1 ≡ (
          if b =s miner
          then give (native_balance fee_collector_address l) (view b j l)
          else view b j l)
  unfolding settle_fees account
  settle_fees-view miner l b j hb hj h =
      let fee = native_balance fee_collector_address l in
      let s' = (State.debit fee_collector_address native_asset_id fee l.assets).1 in
      ground (
        arith,
        debit-balance fee_collector_address native_asset_id fee l.assets b native_asset_id,
        debit-circulating fee_collector_address native_asset_id fee l.assets j hj,
        recorded_supply-debit j fee_collector_address native_asset_id fee l.assets,
        receive_native-view miner fee (record l { assets = s' }) b j hj,
      )

  -- A settlement of the fees that succeeds leaves the pool empty, where the pool's own key is no
  -- valid address of the network.
  pub settle_fees_empties :
      (miner : Str) (l : MatureLedger)
      → CollectorInvalid l.profile
      → is_ok (settle_fees c miner l).0 ≡ true
      → native_balance fee_collector_address (settle_fees c miner l).1 ≡ 0
  unfolding settle_fees
  settle_fees_empties miner l hc h =
      let fee = native_balance fee_collector_address l in
      let s' = (State.debit fee_collector_address native_asset_id fee l.assets).1 in
      ground (
        arith,
        debit-balance fee_collector_address native_asset_id fee l.assets fee_collector_address
            native_asset_id,
        receive_native-view miner fee (record l { assets = s' }) fee_collector_address []
            (λ (e : [] ≡ native_asset_id). cc),
      )
