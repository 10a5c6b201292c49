-- ===== src/Tests/Snapshots.antt =====
-- A snapshot of a ledger with two accounts.
use mathlib.Core.List.{Pairwise, Pairwise-pair}
use des_ka_project.Prelude.{◌≡◌, ◌≢◌, ◌↔◌, refl, true, false, List, [], ◌∷◌, ok}
use des_ka_project.Prelude.Results.{◌>>=◌}
use des_ka_project.Config.{localnet}
use des_ka_project.Staking
use des_ka_project.Ledger.{MatureLedger, StateAccount, new_mature_with_profile, asset_model_enabled}
use des_ka_project.StateRoot.{state_accounts, state_asset_definitions, root_for_ledger, stake_key}
use des_ka_project.StateRoot.Order.{Distinct}
use des_ka_project.Snapshot.Equivalent.{equivalent}
use des_ka_project.Snapshot.Equivalent.Reordered.{HasDistinctKeys, Reordered, equivalent_lem}
use des_ka_project.Snapshot.{Snapshot, is_nil, snapshot_for_ledger}
use des_ka_project.Snapshot.Root.{stakes_of, snapshot_for_ledger-root_for_ledger}
use des_ka_project.Tests.Data.{alice, bob, toy}

abbrev two_accounts : MatureLedger
two_accounts = record (new_mature_with_profile localnet.consensus localnet) {
  accounts =
      (alice, record { confirmed = 5; mature = 5; nonce = 1 })
      ∷ (bob, record { confirmed = 9; mature = 2; nonce = 0 })
      ∷ [];
}

addresses_apart_prop : (a b : StateAccount) → IsProp (a.address ≢ b.address)
addresses_apart_prop a b = hlevel

two_accounts-Distinct : Distinct (λ a. a.address) (state_accounts two_accounts)
unfolding state_accounts
two_accounts-Distinct = (Pairwise-pair addresses_apart_prop).1 (λ e. cc)

no_stakes-Distinct : Distinct stake_key (stakes_of two_accounts)
unfolding new_mature_with_profile Staking.records Staking.refresh_released Staking.new_state
no_stakes-Distinct = Pairwise.nil

native_listed : is_nil (state_asset_definitions two_accounts) ≡ false
unfolding new_mature_with_profile state_asset_definitions asset_model_enabled localnet
    des_ka_project.Asset.Listing.definitions des_ka_project.Asset.State.new_state
native_listed = refl

snapshot_for_ledger-root_for_ledger_example :
    ((snapshot_for_ledger toy two_accounts).0 >>= λ s. ok s.state_root)
    ≡ (root_for_ledger toy two_accounts).0
snapshot_for_ledger-root_for_ledger_example =
    snapshot_for_ledger-root_for_ledger toy two_accounts two_accounts-Distinct no_stakes-Distinct
      (λ h. native_listed)

abbrev snapshot : List StateAccount → Snapshot
snapshot accounts = record {
  version = 3;
  height = 4;
  state_root = [];
  accounts = accounts;
  stakes = [];
  coinbases = [];
  assets = [];
  asset_balances = [];
}

abbrev of_alice : StateAccount
of_alice = record { address = alice; confirmed = 5; mature = 5; nonce = 1 }

abbrev of_bob : StateAccount
of_bob = record { address = bob; confirmed = 9; mature = 2; nonce = 0 }

snapshot-HasDistinctKeys : HasDistinctKeys (snapshot (of_alice ∷ of_bob ∷ []))
snapshot-HasDistinctKeys = record {
  accounts_apart = (Pairwise-pair addresses_apart_prop).1 (λ e. cc);
  stakes_apart = Pairwise.nil;
  coinbases_apart = Pairwise.nil;
  assets_apart = Pairwise.nil;
  balances_apart = Pairwise.nil;
}

equivalent_lem_example :
    (equivalent (snapshot (of_alice ∷ of_bob ∷ [])) (snapshot (of_bob ∷ of_alice ∷ [])) ≡ true)
    ↔ Reordered (snapshot (of_alice ∷ of_bob ∷ [])) (snapshot (of_bob ∷ of_alice ∷ []))
equivalent_lem_example =
    equivalent_lem (snapshot (of_alice ∷ of_bob ∷ [])) (snapshot (of_bob ∷ of_alice ∷ []))
      snapshot-HasDistinctKeys
