-- ===== src/Snapshot/Equivalent.antt =====
-- Equivalent of deskachain/node/internal/state/snapshot.go: two snapshots that differ in the order of
-- their entries only. reflect.DeepEqual compares the entries field by field.
pub mod Reordered
use des_ka_project.Prelude.{
  ℕ, Bool, true, false, not, ◌&&◌, ◌||◌, List, [], ◌∷◌, Str, ◌=s◌, ◌==◌, if◌then◌else◌,
}
use des_ka_project.Prelude.Sorting.{sort}
use des_ka_project.Asset.{Definition}
use des_ka_project.Asset.State.{BalanceEntry}
use des_ka_project.Asset.Listing.{definition_less, entry_less}
use des_ka_project.Staking.{Record}
use des_ka_project.Ledger.{StateAccount, StateCoinbase}
use des_ka_project.StateRoot.{stable_digest_inputs}
use des_ka_project.Snapshot.{Snapshot, coinbase_less}

abbrev pub same_bool : Bool → Bool → Bool
same_bool true y = y
same_bool false y = not y

abbrev pub same_account : StateAccount → StateAccount → Bool
same_account a b =
    a.address =s b.address
    && (a.confirmed == b.confirmed && (a.mature == b.mature && a.nonce == b.nonce))

abbrev pub same_stake : Record → Record → Bool
same_stake a b =
    a.stake_id =s b.stake_id
    && (a.owner_address =s b.owner_address
        && (a.amount == b.amount
            && (a.lock_tx_id =s b.lock_tx_id
                && (a.lock_height == b.lock_height
                    && (a.unlock_tx_id =s b.unlock_tx_id
                        && (a.unlock_height == b.unlock_height
                            && (a.release_height == b.release_height && a.status =s b.status)))))))

abbrev pub same_coinbase : StateCoinbase → StateCoinbase → Bool
same_coinbase a b = a.address =s b.address && (a.amount == b.amount && a.height == b.height)

abbrev pub same_definition : Definition → Definition → Bool
same_definition a b =
    a.id =s b.id
    && (a.name =s b.name
        && (a.symbol =s b.symbol
            && (a.decimals == b.decimals
                && (a.kind =s b.kind
                    && (a.issuer =s b.issuer
                        && (a.max_supply == b.max_supply
                            && (a.total_supply == b.total_supply
                                && (same_bool a.mintable b.mintable
                                    && (same_bool a.burnable b.burnable
                                        && (same_bool a.pausable b.pausable
                                            && (same_bool a.permissioned b.permissioned
                                                && a.status =s b.status)))))))))))

abbrev pub same_entry : BalanceEntry → BalanceEntry → Bool
same_entry a b = a.address =s b.address && (a.asset_id =s b.asset_id && a.amount == b.amount)

unfoldable pub same_list : {A : Type 0} → (A → A → Bool) → List A → List A → Bool
same_list same [] [] = true
same_list same [] (y ∷ ys) = false
same_list same (x ∷ xs) [] = false
same_list same (x ∷ xs) (y ∷ ys) = same x y && same_list same xs ys

-- `Equivalent`
unfoldable pub equivalent : Snapshot → Snapshot → Bool
equivalent a b =
    if not (a.version == b.version)
      || (not (a.height == b.height) || not (a.state_root =s b.state_root))
    then false
    else let (a_accounts, a_stakes) = stable_digest_inputs a.accounts a.stakes in
      let (b_accounts, b_stakes) = stable_digest_inputs b.accounts b.stakes in
      same_list same_account a_accounts b_accounts
      && (same_list same_stake a_stakes b_stakes
          && (same_list same_coinbase (sort coinbase_less a.coinbases)
                (sort coinbase_less b.coinbases)
              && (same_list same_definition (sort definition_less a.assets)
                    (sort definition_less b.assets)
                  && same_list same_entry (sort entry_less a.asset_balances)
                      (sort entry_less b.asset_balances))))
