-- ===== src/Ledger/Money.antt =====
-- The native currency operations of deskachain/node/internal/ledger/asset_execution.go, as they look
-- from one account, from its native asset balance and from one issued asset.
use des_ka_project.Prelude.{
  ℕ, ◌+◌, ◌-◌, ◌≤◌, ◌≡◌, ◌≢◌, refl, true, Str, List, ◌=s◌, if◌then◌else◌, arith, is_ok,
}
use des_ka_project.Prelude.Dict.{get, get-insert}
use des_ka_project.Arith.{add, sub}
use des_ka_project.Config.{NetworkConfig, native_asset_id}
use des_ka_project.Asset.State.{fee_collector_address}
use des_ka_project.Asset.Balances.{circulating}
use des_ka_project.Asset.Supply.{recorded_supply}
use des_ka_project.Asset.Moves.{
  credit-balance, debit-balance, credit-circulating, debit-circulating, recorded_supply-credit,
  recorded_supply-debit,
}
use des_ka_project.Ledger.{
  MatureLedger, MatureAccount, CoinbaseCredit, zero_account, account, set_account, native_balance,
}
use des_ka_project.Ledger.Native.{
  address_summary, validate_native_spend, spend_native, receive_native, charge_native_fee,
}

pub account-set_account :
    (a b : Str) (v : MatureAccount) (l : MatureLedger)
    → account b (set_account a v l) ≡ (if b =s a then v else account b l)
unfolding account set_account
account-set_account a b v l = get-insert zero_account a b v l.accounts

module _ (a : Str) (v : MatureAccount) (l : MatureLedger) where
  pub assets-set_account : (set_account a v l).assets ≡ l.assets
  unfolding set_account
  assets-set_account = refl

  pub coinbases-set_account : (set_account a v l).coinbases ≡ l.coinbases
  unfolding set_account
  coinbases-set_account = refl

-- What one address and one issued asset see of the ledger.
pub record View : Type 0 where
  pub confirmed : ℕ
  pub mature : ℕ
  pub native : ℕ
  pub circulating : ℕ
  pub recorded : ℕ
  pub coinbases : List CoinbaseCredit
  pub profile : NetworkConfig

abbrev pub view : Str → Str → MatureLedger → View
view b j l = record {
  confirmed = (account b l).confirmed;
  mature = (account b l).mature;
  native = native_balance b l;
  circulating = circulating j l.assets;
  recorded = recorded_supply j l.assets;
  coinbases = l.coinbases;
  profile = l.profile;
}

abbrev pub take : ℕ → View → View
take n v = record v { confirmed = v.confirmed - n; mature = v.mature - n; native = v.native - n }

abbrev pub give : ℕ → View → View
give n v = record v { confirmed = v.confirmed + n; mature = v.mature + n; native = v.native + n }

module _ (a : Str) (n : ℕ) (l : MatureLedger) where
  abbrev after_check : MatureLedger
  after_check = (validate_native_spend a n l).1

  check-accounts : after_check.accounts ≡ l.accounts
  unfolding validate_native_spend address_summary
  check-accounts = ground arith

  check-assets : after_check.assets ≡ l.assets
  unfolding validate_native_spend address_summary
  check-assets = ground arith

  check-coinbases : after_check.coinbases ≡ l.coinbases
  unfolding validate_native_spend address_summary
  check-coinbases = ground arith

  check-profile : after_check.profile ≡ l.profile
  unfolding validate_native_spend address_summary
  check-profile = ground arith

  -- What a spend that passes its check can rely on.
  pub validate_native_spend_enough :
      is_ok (validate_native_spend a n l).0 ≡ true
      → (n ≤ (account a l).confirmed) × (n ≤ (account a l).mature) × (n ≤ native_balance a l)
  unfolding validate_native_spend address_summary
  validate_native_spend_enough h = ground arith

  -- The check changes nothing in view: it may release stakes.
  pub validate_native_spend-view : (b j : Str) → view b j after_check ≡ view b j l
  unfolding account
  validate_native_spend-view b j =
      ground (arith, check-accounts, check-assets, check-coinbases, check-profile)

  pub spend_native_enough :
      is_ok (spend_native a n l).0 ≡ true
      → (n ≤ (account a l).confirmed) × (n ≤ (account a l).mature) × (n ≤ native_balance a l)
  unfolding spend_native
  spend_native_enough h = ground (arith, validate_native_spend_enough)

  -- A native spend that succeeds takes the amount from the confirmed, mature and native asset
  -- balances of the spender, and changes nothing in view of any other address or issued asset.
  pub spend_native-view :
      (b j : Str)
      → j ≢ native_asset_id
      → is_ok (spend_native a n l).0 ≡ true
      → view b j (spend_native a n l).1 ≡ (if b =s a then take n (view b j l) else view b j l)
  unfolding spend_native account set_account sub
  spend_native-view b j hj h = ground (
    arith,
    check-accounts,
    check-assets,
    check-coinbases,
    check-profile,
    validate_native_spend_enough,
    get-insert zero_account a b
        (let v = get zero_account a l.accounts in
          record v { confirmed = v.confirmed - n; mature = v.mature - n })
        l.accounts,
    debit-balance a native_asset_id n l.assets b native_asset_id,
    debit-circulating a native_asset_id n l.assets j hj,
    recorded_supply-debit j a native_asset_id n l.assets,
  )

  pub receive_native-view :
      (b j : Str)
      → j ≢ native_asset_id
      → is_ok (receive_native a n l).0 ≡ true
      → view b j (receive_native a n l).1 ≡ (if b =s a then give n (view b j l) else view b j l)
  unfolding receive_native account set_account add
  receive_native-view b j hj h = ground (
    arith,
    get-insert zero_account a b
        (let v = get zero_account a l.accounts in
          record v { confirmed = v.confirmed + n; mature = v.mature + n })
        l.accounts,
    credit-balance a native_asset_id n l.assets b native_asset_id,
    credit-circulating a native_asset_id n l.assets j hj,
    recorded_supply-credit j a native_asset_id n l.assets,
  )

-- Every address but the collector sees a fee as a spend of the payer.
pub charge_native_fee-view :
    (payer : Str) (fee : ℕ) (l : MatureLedger) (b j : Str)
    → b ≢ fee_collector_address
    → j ≢ native_asset_id
    → is_ok (charge_native_fee payer fee l).0 ≡ true
    → view b j (charge_native_fee payer fee l).1
      ≡ (if b =s payer then take fee (view b j l) else view b j l)
unfolding charge_native_fee account
charge_native_fee-view payer fee l b j hb hj h =
    let l' = (spend_native payer fee l).1 in
    ground (
      arith,
      spend_native-view payer fee l b j hj,
      credit-balance fee_collector_address native_asset_id fee l'.assets b native_asset_id,
      credit-circulating fee_collector_address native_asset_id fee l'.assets j hj,
      recorded_supply-credit j fee_collector_address native_asset_id fee l'.assets,
    )

pub charge_native_fee_enough :
    (payer : Str) (fee : ℕ) (l : MatureLedger)
    → is_ok (charge_native_fee payer fee l).0 ≡ true
    → (fee ≤ (account payer l).confirmed)
      × (fee ≤ (account payer l).mature)
      × (fee ≤ native_balance payer l)
unfolding charge_native_fee account
charge_native_fee_enough payer fee l h = ground (arith, spend_native_enough payer fee l)
