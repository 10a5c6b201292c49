-- ===== src/Asset/State.antt =====
-- deskachain/node/internal/asset/state.go: asset definitions and balances by address and asset.
-- A method is a `Proc State`. Go iterates its maps in no fixed order; nothing here does.
use des_ka_project.Prelude.{
  ℕ, Bool, true, false, not, ◌&&◌, ◌||◌, Option, none, some, List, [], ◌∷◌, Str, codes, ◌=s◌,
  is_empty, ltb, ◌==◌, if◌then◌else◌, Error, msg, ok, err, ⊤, Proc, pure, lift, gets, ◌>>=◌, ◌>>◌,
  fail_if, modify, wrap_err, map_err, wrapping,
}
use des_ka_project.Prelude.Dict.{Dict, lookup, get, insert}
use des_ka_project.Arith.{add, sub}
use des_ka_project.Config.{native_asset_id, native_asset_symbol, native_asset_decimals}
use des_ka_project.Asset.{
  Definition, is_native, derived_id, validate_definition, trim_space, kind_fungible, status_active,
  status_frozen,
}

abbrev pub fee_collector_address : Str
fee_collector_address = codes "__INDOCHAIN_FEE_POOL__"

abbrev pub err_asset_not_found : Error
err_asset_not_found = msg "asset not found"

abbrev pub err_asset_exists : Error
err_asset_exists = msg "asset already exists"

abbrev pub err_unauthorized : Error
err_unauthorized = msg "asset operation unauthorized"

abbrev pub err_insufficient_balance : Error
err_insufficient_balance = msg "insufficient asset balance"

abbrev pub err_asset_frozen : Error
err_asset_frozen = msg "asset is frozen"

pub record BalanceEntry : Type 0 where
  pub address : Str
  pub asset_id : Str
  pub amount : ℕ

pub record State : Type 0 where
  pub assets : Dict Definition
  pub balances : Dict (Dict ℕ)

abbrev pub native_definition : Definition
native_definition = record {
  id = native_asset_id;
  name = native_asset_symbol;
  symbol = native_asset_symbol;
  decimals = native_asset_decimals;
  kind = kind_fungible;
  issuer = codes "protocol";
  max_supply = 0;
  total_supply = 0;
  mintable = false;
  burnable = false;
  pausable = false;
  permissioned = false;
  status = status_active;
}

-- `NewState`
unfoldable pub new_state : State
new_state = record { assets = (native_asset_id, native_definition) ∷ []; balances = [] }

-- `State.Definition`
unfoldable pub definition : Str → State → Option Definition
definition asset_id s = lookup asset_id s.assets

-- `State.Balance`: a missing account or asset reads as 0.
unfoldable pub balance : Str → Str → State → ℕ
balance address asset_id s = get 0 asset_id (get [] address s.balances)

abbrev pub set_balance : Str → Str → ℕ → State → State
set_balance address asset_id v s = record s {
  balances = insert address (insert asset_id v (get [] address s.balances)) s.balances;
}

-- `s.assets[id] = def`
unfoldable pub put_definition : Str → Definition → State → State
put_definition id d s = record s { assets = insert id d s.assets }

-- An account is created, empty, before the addition is tried.
unfoldable pub ensure_account : Str → State → State
ensure_account address s = elim (lookup address s.balances) [
  | none ↦ record s { balances = insert address [] s.balances }
  | some _ ↦ s
]

unfoldable pub add_balance : Str → Str → ℕ → Proc State ⊤
unfolding add ensure_account
add_balance address asset_id amount = if amount == 0 then pure tt else (do
  modify (ensure_account address)
  current ← gets (λ s. get 0 asset_id (get [] address s.balances))
  next ← lift (wrap_err "asset balance overflow" (add current amount))
  modify (set_balance address asset_id next))

unfoldable pub subtract_balance : Str → Str → ℕ → Proc State ⊤
unfolding sub
subtract_balance address asset_id amount = if amount == 0 then pure tt else (λ s.
    elim (lookup address s.balances) [
      | none ↦ (err err_insufficient_balance, s)
      | some assets ↦
          (do
            next ← lift (map_err err_insufficient_balance (sub (get 0 asset_id assets) amount))
            modify (set_balance address asset_id next))
            s
    ])

abbrev find_definition : Str → Proc State Definition
find_definition asset_id s = elim (lookup asset_id s.assets) [
  | none ↦ (err err_asset_not_found, s)
  | some d ↦ (ok d, s)
]

unfoldable pub credit : Str → Str → ℕ → Proc State ⊤
credit address asset_id amount = do
  fail_if (is_empty (trim_space address)) (msg "asset balance address is required")
  d ← find_definition asset_id
  add_balance address asset_id amount

unfoldable pub debit : Str → Str → ℕ → Proc State ⊤
debit address asset_id amount = do
  d ← find_definition asset_id
  subtract_balance address asset_id amount

-- An empty kind or status takes its default.
abbrev with_defaults : Definition → Definition
with_defaults d =
    let kind = if is_empty d.kind then kind_fungible else d.kind in
    let status = if is_empty d.status then status_active else d.status in
    record d { kind = kind; status = status }

unfoldable pub create : Definition → Proc State ⊤
create d = do
  fail_if (is_empty d.id) (msg "asset id is required")
  fail_if (is_native d.id) (msg "native dIDR cannot be recreated as an issued asset")
  lift (validate_definition (with_defaults d))
  existing ← gets (λ s. lookup d.id s.assets)
  fail_if (elim existing [ none ↦ false | some _ ↦ true ]) err_asset_exists
  modify (put_definition d.id (with_defaults d))

-- The request that `CreateFromTransactionID` takes.
pub record Request : Type 0 where
  pub name : Str
  pub symbol : Str
  pub decimals : ℕ
  pub max_supply : ℕ
  pub mintable : Bool
  pub burnable : Bool
  pub pausable : Bool
  pub permissioned : Bool

abbrev pub requested : Str → Request → Str → Definition
requested tx_id q issuer = record {
  id = derived_id tx_id;
  name = q.name;
  symbol = q.symbol;
  decimals = q.decimals;
  kind = kind_fungible;
  issuer = issuer;
  max_supply = q.max_supply;
  total_supply = 0;
  mintable = q.mintable;
  burnable = q.burnable;
  pausable = q.pausable;
  permissioned = q.permissioned;
  status = status_active;
}

unfoldable pub create_from_transaction_id : Str → Request → Str → Proc State Definition
create_from_transaction_id tx_id q issuer = do
  create (requested tx_id q issuer)
  pure (requested tx_id q issuer)

unfoldable pub mint : Str → Str → Str → ℕ → Proc State ⊤
unfolding add
mint asset_id issuer to amount = do
  fail_if (is_empty (trim_space to)) (msg "mint recipient is required")
  fail_if (amount == 0) (msg "mint amount must be greater than zero")
  d ← find_definition asset_id
  fail_if (not d.mintable) (msg "asset is not mintable")
  fail_if (not (d.issuer =s issuer)) err_unauthorized
  fail_if (d.status =s status_frozen) err_asset_frozen
  new_supply ← lift (wrap_err "asset supply overflow" (add d.total_supply amount))
  fail_if (ltb 0 d.max_supply && ltb d.max_supply new_supply) (msg "asset max supply exceeded")
  add_balance to asset_id amount
  modify (put_definition asset_id (record d { total_supply = new_supply }))

unfoldable pub burn : Str → Str → ℕ → Proc State ⊤
unfolding sub
burn asset_id owner amount = do
  fail_if (is_empty (trim_space owner)) (msg "burn owner is required")
  fail_if (amount == 0) (msg "burn amount must be greater than zero")
  d ← find_definition asset_id
  fail_if (not d.burnable) (msg "asset is not burnable")
  fail_if (d.status =s status_frozen) err_asset_frozen
  new_supply ← lift (wrap_err "asset supply underflow" (sub d.total_supply amount))
  subtract_balance owner asset_id amount
  modify (put_definition asset_id (record d { total_supply = new_supply }))

-- On an error `undo` is run, its own error dropped, and the first error returned.
abbrev pub or_undo : {S : Type 0} → Proc S ⊤ → Proc S ⊤ → Proc S ⊤
or_undo m undo s = let (r, s') = m s in elim r [ ok _ ↦ (ok tt, s') | err e ↦ (err e, (undo s').1) ]

unfoldable pub transfer : Str → Str → Str → ℕ → Proc State ⊤
transfer asset_id from to amount = do
  fail_if (amount == 0) (msg "transfer amount must be greater than zero")
  fail_if (is_empty from || is_empty to || from =s to) (msg "invalid asset transfer addresses")
  d ← find_definition asset_id
  fail_if (d.status =s status_frozen) err_asset_frozen
  subtract_balance from asset_id amount
  or_undo (add_balance to asset_id amount) (add_balance from asset_id amount)

unfoldable pub charge_fee : Str → ℕ → Proc State ⊤
charge_fee payer fee = if fee == 0 then pure tt else (do
  fail_if (is_empty payer) (msg "fee payer is required")
  wrapping "native dIDR fee" (subtract_balance payer native_asset_id fee)
  wrapping "native dIDR fee collector" (
      or_undo (add_balance fee_collector_address native_asset_id fee)
        (add_balance payer native_asset_id fee)))

unfoldable pub execute_token_transfer : Str → Str → Str → Str → ℕ → ℕ → Proc State ⊤
execute_token_transfer asset_id from to fee_payer amount fee = do
  transfer asset_id from to amount
  or_undo (charge_fee fee_payer fee) (transfer asset_id to from amount)

restore_definition : Definition → Proc State ⊤
restore_definition d =
    if is_native d.id
    then (do
      fail_if
          (not (d.id =s native_asset_id)
            || not (d.symbol =s native_asset_symbol)
            || not (d.decimals == native_asset_decimals))
          (msg "invalid native dIDR definition")
      modify (put_definition native_asset_id d))
    else create d

restore_balance : BalanceEntry → Proc State ⊤
restore_balance e = do
  fail_if (is_empty e.address || is_empty e.asset_id || e.amount == 0)
      (msg "invalid asset balance entry")
  known ← gets (λ s. lookup e.asset_id s.assets)
  fail_if (elim known [ none ↦ true | some _ ↦ false ])
      (msg "asset balance references unknown asset")
  add_balance e.address e.asset_id e.amount

-- A loop over a slice that stops at the first error.
abbrev pub each : {S A : Type 0} → (A → Proc S ⊤) → List A → Proc S ⊤
each f [] s = (ok tt, s)
each f (x ∷ xs) s = let (r, s') = f x s in elim r [ ok _ ↦ each f xs s' | err e ↦ (err e, s') ]

unfoldable pub restore : List Definition → List BalanceEntry → Proc State ⊤
unfolding restore_definition restore_balance
restore definitions balances = do each restore_definition definitions; each restore_balance balances
