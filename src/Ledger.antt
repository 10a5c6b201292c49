-- ===== src/Ledger.antt =====
-- deskachain/node/internal/ledger/maturity.go: the state of the ledger with coinbase maturity,
-- stakes and assets, its reads, its copies and its construction from a snapshot. The checks and the
-- state changes are in the modules below. Maps are association lists; a copy of a map is the map.
pub mod Native
pub mod Validate
pub mod Apply
pub mod Money
pub mod Settle
pub mod Consistent
pub mod Unchanged
pub mod Maturing
pub mod Transactions
pub mod Blocks
pub mod Supply
pub mod Legacy
use des_ka_project.Prelude.{
  ℕ, ◌+◌, ◌-◌, Bool, true, false, not, ◌&&◌, Option, none, some, List, [], ◌∷◌, ◌++◌, map, Str,
  ◌=s◌, is_empty, ltb, leb, ◌==◌, if◌then◌else◌, Error, msg, Result, ok, err, ⊤, Proc, pure, gets,
  ◌>>=◌, ◌>>◌, modify,
}
use des_ka_project.Prelude.Dict.{Dict, lookup, get, insert}
use des_ka_project.Arith.{add, add_cap}
use des_ka_project.Config.{ConsensusParams, NetworkConfig, native_asset_id, localnet}
use des_ka_project.Types.{Transaction, tx_version_asset}
use des_ka_project.Asset.{Definition}
use des_ka_project.Asset.State
use des_ka_project.Staking
use des_ka_project.Staking.{Record}

pub record MatureAccount : Type 0 where
  pub confirmed : ℕ
  pub mature : ℕ
  pub nonce : ℕ

abbrev pub zero_account : MatureAccount
zero_account = record { confirmed = 0; mature = 0; nonce = 0 }

pub record CoinbaseCredit : Type 0 where
  pub address : Str
  pub amount : ℕ
  pub height : ℕ
  pub matured : Bool

pub record MatureLedger : Type 0 where
  pub accounts : Dict MatureAccount
  pub coinbases : List CoinbaseCredit
  pub maturity : ℕ
  pub current_height : ℕ
  pub stakes : Staking.State
  pub assets : State.State
  pub params : ConsensusParams
  pub profile : NetworkConfig

pub record StateAccount : Type 0 where
  pub address : Str
  pub confirmed : ℕ
  pub mature : ℕ
  pub nonce : ℕ

pub record StateCoinbase : Type 0 where
  pub address : Str
  pub amount : ℕ
  pub height : ℕ

-- `NewMatureWithProfile`: a profile without a name stands for the local network.
unfoldable pub new_mature_with_profile : ConsensusParams → NetworkConfig → MatureLedger
new_mature_with_profile params p = record {
  accounts = [];
  coinbases = [];
  maturity = params.coinbase_maturity;
  current_height = 0;
  stakes = Staking.new_state params.staking;
  assets = State.new_state;
  params = params;
  profile = if is_empty p.name then localnet else p;
}

-- `l.accounts[address]`
unfoldable pub account : Str → MatureLedger → MatureAccount
account address l = get zero_account address l.accounts

unfoldable pub set_account : Str → MatureAccount → MatureLedger → MatureLedger
set_account address a l = record l { accounts = insert address a l.accounts }

abbrev pub native_balance : Str → MatureLedger → ℕ
native_balance address l = State.balance address native_asset_id l.assets

unfoldable pub asset_model_enabled : MatureLedger → Bool
asset_model_enabled l = leb tx_version_asset l.profile.tx_version

unfoldable pub fee_pool_balance : MatureLedger → ℕ
unfolding asset_model_enabled
fee_pool_balance l =
    if asset_model_enabled l then native_balance State.fee_collector_address l else 0

abbrev mature_from : ℕ → Dict MatureAccount → ℕ
mature_from acc [] = acc
mature_from acc ((k, a) ∷ d) = mature_from (add_cap acc a.mature) d

unfoldable pub total_mature : MatureLedger → ℕ
total_mature l = mature_from 0 l.accounts

abbrev unmatured : List CoinbaseCredit → List StateCoinbase
unmatured [] = []
unmatured (c ∷ cs) =
    if c.matured
    then unmatured cs
    else record { address = c.address; amount = c.amount; height = c.height } ∷ unmatured cs

unfoldable pub state_coinbases : MatureLedger → List StateCoinbase
state_coinbases l = unmatured l.coinbases

-- A method of the assets or the stakes, run on the ledger that holds them.
abbrev pub on_assets : {A : Type 0} → Proc State.State A → Proc MatureLedger A
on_assets m l = let (r, a) = m l.assets in (r, record l { assets = a })

abbrev pub on_stakes : {A : Type 0} → Proc Staking.State A → Proc MatureLedger A
on_stakes m l = let (r, s) = m l.stakes in (r, record l { stakes = s })

-- `Clone` reads the stakes through `Records`, which releases what is due in the original too: the
-- copy, and the original afterwards.
unfoldable pub clone : MatureLedger → MatureLedger × MatureLedger
clone l =
    let due = Staking.refresh_released l.current_height l.stakes in
    (
      record l { stakes = record { params = l.params.staking; records = due.records } },
      record l { stakes = due },
    )

-- `backup := l.Clone()`, and `*l = *backup` where the body fails.
unfoldable pub with_rollback : Proc MatureLedger ⊤ → Proc MatureLedger ⊤
unfolding clone
with_rollback body l =
    let (backup, l') = clone l in
    let (r, l'') = body l' in elim r [ ok _ ↦ (ok tt, l'') | err e ↦ (err e, backup) ]

restore_accounts : List StateAccount → Dict MatureAccount → Dict MatureAccount
restore_accounts [] d = d
restore_accounts (a ∷ as') d =
    restore_accounts as'
      (insert a.address (record { confirmed = a.confirmed; mature = a.mature; nonce = a.nonce }) d)

restore_stakes : List Record → Staking.State → Staking.State
restore_stakes [] s = s
restore_stakes (r ∷ rs) s = restore_stakes rs (Staking.apply_record r s)

restore_coinbase : StateCoinbase → CoinbaseCredit
restore_coinbase c = record {
  address = c.address;
  amount = c.amount;
  height = c.height;
  matured = false;
}

unfoldable pub new_mature_from_state :
    ConsensusParams
    → NetworkConfig
    → ℕ
    → List StateAccount
    → List Record
    → List StateCoinbase
    → MatureLedger
unfolding restore_accounts restore_stakes restore_coinbase
new_mature_from_state params p height accounts stakes coinbases =
    let l = new_mature_with_profile params p in
    record l {
      current_height = height;
      accounts = restore_accounts accounts [];
      stakes = restore_stakes stakes l.stakes;
      coinbases = map restore_coinbase coinbases;
    }

-- One address: the native asset balance is moved to the confirmed one; errors are dropped.
sync_account : Str × MatureAccount → State.State → State.State
sync_account (address, a) s =
    let current = State.balance address native_asset_id s in
    if ltb current a.confirmed
    then (State.credit address native_asset_id (a.confirmed - current) s).1
    else if ltb a.confirmed current
    then (State.debit address native_asset_id (current - a.confirmed) s).1
    else s

sync_accounts : Dict MatureAccount → State.State → State.State
sync_accounts [] s = s
sync_accounts (a ∷ d) s = sync_accounts d (sync_account a s)

unfoldable pub sync_native_assets_from_accounts : MatureLedger → MatureLedger
unfolding sync_accounts sync_account
sync_native_assets_from_accounts l = record l { assets = sync_accounts l.accounts l.assets }

unfoldable pub new_mature_from_state_with_assets :
    ConsensusParams
    → NetworkConfig
    → ℕ
    → List StateAccount
    → List Record
    → List StateCoinbase
    → List Definition
    → List State.BalanceEntry
    → Result MatureLedger
new_mature_from_state_with_assets params p height accounts stakes coinbases defs balances =
    let l = new_mature_from_state params p height accounts stakes coinbases in
    let (r, l') = on_assets (State.restore defs balances) l in
    elim r [ ok _ ↦ ok (sync_native_assets_from_accounts l') | err e ↦ err e ]
