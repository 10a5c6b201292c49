-- ===== src/Asset/Moves.antt =====
-- `Credit` and `Debit` of asset/state.go, and the operations on issued assets, as they look from one
-- balance and from one asset in circulation.
use des_ka_project.Prelude.{
  ℕ, ◌+◌, ◌-◌, ◌≡◌, ◌≢◌, true, ◌&&◌, Str, ◌=s◌, if◌then◌else◌, arith, is_ok,
}
use des_ka_project.Asset.State.{
  State, Request, balance, add_balance, subtract_balance, credit, debit, transfer, mint, burn,
  create, create_from_transaction_id, put_definition,
}
use des_ka_project.Asset.Balances.{
  circulating, add_balance-assets, subtract_balance-assets, add_balance-balance,
  subtract_balance-balance, add_balance-circulating, subtract_balance-circulating,
}
use des_ka_project.Asset.Supply.{
  IsBacked, recorded_supply, recorded_supply_of_assets, recorded_supply-add_balance,
  recorded_supply-subtract_balance,
}

module _ (a i : Str) (n : ℕ) (s : State) where
  pub credit-balance :
      (b j : Str)
      → balance b j (credit a i n s).1 ≡ (
          if is_ok (credit a i n s).0 && (b =s a && j =s i)
          then balance b j s + n
          else balance b j s)
  unfolding credit
  credit-balance b j = ground (arith, add_balance-balance a i n s b j)

  pub debit-balance :
      (b j : Str)
      → balance b j (debit a i n s).1 ≡ (
          if is_ok (debit a i n s).0 && (b =s a && j =s i)
          then balance b j s - n
          else balance b j s)
  unfolding debit
  debit-balance b j = ground (arith, subtract_balance-balance a i n s b j)

  pub credit-circulating : (j : Str) → j ≢ i → circulating j (credit a i n s).1 ≡ circulating j s
  unfolding credit
  credit-circulating j h = ground (arith, add_balance-circulating a i n s j)

  pub debit-circulating : (j : Str) → j ≢ i → circulating j (debit a i n s).1 ≡ circulating j s
  unfolding debit
  debit-circulating j h = ground (arith, subtract_balance-circulating a i n s j)

  credit-assets : (credit a i n s).1.assets ≡ s.assets
  unfolding credit
  credit-assets = ground (arith, add_balance-assets a i n s)

  debit-assets : (debit a i n s).1.assets ≡ s.assets
  unfolding debit
  debit-assets = ground (arith, subtract_balance-assets a i n s)

pub recorded_supply-credit :
    (j a i : Str) (n : ℕ) (s : State) → recorded_supply j (credit a i n s).1 ≡ recorded_supply j s
recorded_supply-credit j a i n s = recorded_supply_of_assets j _ s (credit-assets a i n s)

pub recorded_supply-debit :
    (j a i : Str) (n : ℕ) (s : State) → recorded_supply j (debit a i n s).1 ≡ recorded_supply j s
recorded_supply-debit j a i n s = recorded_supply_of_assets j _ s (debit-assets a i n s)

module _ (b j asset_id : Str) (amount : ℕ) (s : State) (ne : j ≢ asset_id) where
  -- Operations on one asset leave the balances of the others alone.
  pub mint-balance_ne :
      (issuer to : Str) → balance b j (mint asset_id issuer to amount s).1 ≡ balance b j s
  unfolding mint balance put_definition
  mint-balance_ne issuer to = ground (arith, add_balance-balance to asset_id amount s b j)

  pub burn-balance_ne : (owner : Str) → balance b j (burn asset_id owner amount s).1 ≡ balance b j s
  unfolding burn balance put_definition
  burn-balance_ne owner = ground (arith, subtract_balance-balance owner asset_id amount s b j)

  pub transfer-balance_ne :
      (from to : Str) → balance b j (transfer asset_id from to amount s).1 ≡ balance b j s
  unfolding transfer
  transfer-balance_ne from to =
      let s₁ = (subtract_balance from asset_id amount s).1 in
      let s₂ = (add_balance to asset_id amount s₁).1 in
      ground (
        arith,
        subtract_balance-balance from asset_id amount s b j,
        add_balance-balance to asset_id amount s₁ b j,
        add_balance-balance from asset_id amount s₂ b j,
      )

pub create_from_transaction_id-balance :
    (b j tx_id : Str) (q : Request) (issuer : Str) (s : State)
    → balance b j (create_from_transaction_id tx_id q issuer s).1 ≡ balance b j s
unfolding create_from_transaction_id create balance put_definition
create_from_transaction_id-balance b j tx_id q issuer s = ground arith

-- A transfer that succeeds keeps every asset backed; this needs no bound on the balances.
pub transfer-IsBacked :
    (j asset_id from to : Str) (amount : ℕ) (s : State)
    → is_ok (transfer asset_id from to amount s).0 ≡ true
    → IsBacked j s
    → IsBacked j (transfer asset_id from to amount s).1
unfolding transfer
transfer-IsBacked j asset_id from to amount s ok' h =
    let s₁ = (subtract_balance from asset_id amount s).1 in
    ground (
      arith,
      subtract_balance-circulating from asset_id amount s j,
      add_balance-circulating to asset_id amount s₁ j,
      recorded_supply-subtract_balance j from asset_id amount s,
      recorded_supply-add_balance j to asset_id amount s₁,
    )
