-- ===== src/Asset/Supply.antt =====
-- The supply that an asset's definition records, against the balances in circulation
-- (asset/state.go: Create, Mint, Burn, Transfer, ChargeFee, ExecuteTokenTransfer).
use des_ka_project.Prelude.{
  ℕ, ◌+◌, ◌-◌, ◌≤◌, ◌≡◌, ◌≢◌, refl, inl, inr, none, some, Str, ◌=s◌, if◌then◌else◌, arith,
  Option-cases,
}
use des_ka_project.Prelude.Dict.{lookup, lookup-insert}
use des_ka_project.Arith.{max_u64}
use des_ka_project.Config.{native_asset_id}
use des_ka_project.Asset.{Definition, derived_id}
use des_ka_project.Asset.State.{
  State, Request, requested, balance, add_balance, subtract_balance, create,
  create_from_transaction_id, mint, burn, transfer, charge_fee, fee_collector_address,
  put_definition, new_state,
}
use des_ka_project.Asset.Balances.{
  circulating, add_balance-assets, subtract_balance-assets, add_balance-balance,
  subtract_balance-balance, add_balance-circulating, subtract_balance-circulating,
  add_balance-is_ok, subtract_balance-is_ok,
}

-- The total supply that the definition states; an unknown asset has none.
unfoldable pub recorded_supply : Str → State → ℕ
recorded_supply asset_id s = elim (lookup asset_id s.assets) [ none ↦ 0 | some d ↦ d.total_supply ]

-- The balances of the asset add up to the supply on record.
abbrev pub IsBacked : Str → State → Type 0
IsBacked asset_id s = circulating asset_id s ≡ recorded_supply asset_id s

module _ (i j : Str) (d : Definition) (s : State) where
  circulating-put_definition : circulating j (put_definition i d s) ≡ circulating j s
  unfolding circulating put_definition
  circulating-put_definition = refl

  recorded_supply-put_definition :
      recorded_supply j (put_definition i d s)
      ≡ (if j =s i then d.total_supply else recorded_supply j s)
  unfolding recorded_supply put_definition
  recorded_supply-put_definition = ground (arith, lookup-insert i j d s.assets)

pub recorded_supply_of_assets :
    (j : Str) (s t : State) → s.assets ≡ t.assets → recorded_supply j s ≡ recorded_supply j t
unfolding recorded_supply
recorded_supply_of_assets j s t h = cc

recorded_supply_of_some :
    (j : Str) (d : Definition) (s : State)
    → lookup j s.assets ≡ some d
    → recorded_supply j s ≡ d.total_supply
unfolding recorded_supply
recorded_supply_of_some j d s h = ground arith

recorded_supply_of_none : (j : Str) (s : State) → lookup j s.assets ≡ none → recorded_supply j s ≡ 0
unfolding recorded_supply
recorded_supply_of_none j s h = ground arith

pub recorded_supply-add_balance :
    (j a i : Str) (n : ℕ) (s : State)
    → recorded_supply j (add_balance a i n s).1 ≡ recorded_supply j s
recorded_supply-add_balance j a i n s = recorded_supply_of_assets j _ s (add_balance-assets a i n s)

pub recorded_supply-subtract_balance :
    (j a i : Str) (n : ℕ) (s : State)
    → recorded_supply j (subtract_balance a i n s).1 ≡ recorded_supply j s
recorded_supply-subtract_balance j a i n s =
    recorded_supply_of_assets j _ s (subtract_balance-assets a i n s)

-- Where the balances of an asset add up to its recorded supply, they still do after any mint of
-- any asset, successful or not.
pub mint-IsBacked :
    (j asset_id issuer to : Str) (amount : ℕ) (s : State)
    → IsBacked j s
    → IsBacked j (mint asset_id issuer to amount s).1
unfolding mint
mint-IsBacked j asset_id issuer to amount s h = elim (Option-cases (lookup asset_id s.assets)) [
  | inl e ↦ ground arith
  | inr (d, e) ↦
      let s' = (add_balance to asset_id amount s).1 in
      let d' = record d { total_supply = d.total_supply + amount } in
      ground (
        arith,
        add_balance-circulating to asset_id amount s j,
        recorded_supply-add_balance j to asset_id amount s,
        recorded_supply_of_some asset_id d s e,
        circulating-put_definition asset_id j d' s',
        recorded_supply-put_definition asset_id j d' s',
      )
]

-- Where the balances of an asset add up to its recorded supply, they still do after any burn of
-- any asset, successful or not.
pub burn-IsBacked :
    (j asset_id owner : Str) (amount : ℕ) (s : State)
    → IsBacked j s
    → IsBacked j (burn asset_id owner amount s).1
unfolding burn
burn-IsBacked j asset_id owner amount s h = elim (Option-cases (lookup asset_id s.assets)) [
  | inl e ↦ ground arith
  | inr (d, e) ↦
      let s' = (subtract_balance owner asset_id amount s).1 in
      let d' = record d { total_supply = d.total_supply - amount } in
      ground (
        arith,
        subtract_balance-circulating owner asset_id amount s j,
        recorded_supply-subtract_balance j owner asset_id amount s,
        recorded_supply_of_some asset_id d s e,
        circulating-put_definition asset_id j d' s',
        recorded_supply-put_definition asset_id j d' s',
      )
]

-- Where the balances of an asset add up to its recorded supply, they still do after the creation
-- of any asset, successful or not.
pub create_from_transaction_id-IsBacked :
    (j tx_id : Str) (q : Request) (issuer : Str) (s : State)
    → IsBacked j s
    → IsBacked j (create_from_transaction_id tx_id q issuer s).1
unfolding create_from_transaction_id create
create_from_transaction_id-IsBacked j tx_id q issuer s h =
    let d = requested tx_id q issuer in
    ground (
      arith,
      recorded_supply_of_none (derived_id tx_id) s,
      circulating-put_definition (derived_id tx_id) j d s,
      recorded_supply-put_definition (derived_id tx_id) j d s,
    )

-- Where the sender's balance is within 64 bits, a transfer, successful or not, leaves the sum of
-- the balances of every asset as it was.
pub transfer-circulating :
    (j asset_id from to : Str) (amount : ℕ) (s : State)
    → balance from asset_id s ≤ max_u64
    → circulating j (transfer asset_id from to amount s).1 ≡ circulating j s
unfolding transfer
transfer-circulating j asset_id from to amount s h =
    let s₁ = (subtract_balance from asset_id amount s).1 in
    let s₂ = (add_balance to asset_id amount s₁).1 in
    ground (
      arith,
      subtract_balance-circulating from asset_id amount s j,
      subtract_balance-balance from asset_id amount s from asset_id,
      subtract_balance-is_ok from asset_id amount s,
      add_balance-circulating to asset_id amount s₁ j,
      add_balance-balance to asset_id amount s₁ from asset_id,
      add_balance-circulating from asset_id amount s₂ j,
      add_balance-is_ok from asset_id amount s₂,
    )

-- Where the payer's native balance is within 64 bits, charging a fee, successful or not, leaves
-- the sum of the balances of every asset as it was.
pub charge_fee-circulating :
    (j payer : Str) (fee : ℕ) (s : State)
    → balance payer native_asset_id s ≤ max_u64
    → circulating j (charge_fee payer fee s).1 ≡ circulating j s
unfolding charge_fee
charge_fee-circulating j payer fee s h =
    let s₁ = (subtract_balance payer native_asset_id fee s).1 in
    let s₂ = (add_balance fee_collector_address native_asset_id fee s₁).1 in
    ground (
      arith,
      subtract_balance-circulating payer native_asset_id fee s j,
      subtract_balance-balance payer native_asset_id fee s payer native_asset_id,
      subtract_balance-is_ok payer native_asset_id fee s,
      add_balance-circulating fee_collector_address native_asset_id fee s₁ j,
      add_balance-balance fee_collector_address native_asset_id fee s₁ payer native_asset_id,
      add_balance-circulating payer native_asset_id fee s₂ j,
      add_balance-is_ok payer native_asset_id fee s₂,
    )

-- A new state backs every asset: there are no balances yet and no issued asset.
pub new_state-IsBacked : (j : Str) → j ≢ native_asset_id → IsBacked j new_state
unfolding circulating recorded_supply new_state
new_state-IsBacked j ne = ground arith
