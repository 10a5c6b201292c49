-- ===== src/StateRoot/Order.antt =====
-- The state root (deskachain/node/internal/state/root.go) does not depend on the order in which Go
-- iterates the maps of the ledger.
use mathlib.Core.List.{Permᴰ, Pairwise}
use mathlib.Core.List.Pairwise
use des_ka_project.Prelude.{◌≡◌, ◌≢◌, refl, sym, List, Str}
use des_ka_project.Prelude.Sorting.{
  sort, by_key, by_keys, by_key-Apart, by_keys-Apart, sort-Permᴰ, sort-Permᴰ_self, str_ltb_trans,
  pair_ltb_trans,
}
use des_ka_project.Asset.{Definition}
use des_ka_project.Asset.State.{BalanceEntry}
use des_ka_project.Staking.{Record}
use des_ka_project.Ledger.{StateAccount}
use des_ka_project.Asset.Listing.{entry_key}
use des_ka_project.Types.Crypto.{Crypto}
use des_ka_project.StateRoot.{
  stake_key, root_for_collections, root_for_collections_with_assets, stable_digest_inputs,
}

module _ {A : Type 0} where
  abbrev pub Distinct : {K : Type 0} → (A → K) → List A → Type 0
  Distinct key = Pairwise (λ x y. key x ≢ key y)

  pub sort-by_key :
      (key : A → Str) {xs ys : List A}
      → Permᴰ xs ys
      → Distinct key xs
      → sort (by_key key) xs ≡ sort (by_key key) ys
  sort-by_key key p d =
      sort-Permᴰ (by_key key) (λ x y z. str_ltb_trans (key x) (key y) (key z)) p
        (Pairwise.imp (by_key-Apart key) d)

  pub sort-by_keys :
      (key : A → Str × Str) {xs ys : List A}
      → Permᴰ xs ys
      → Distinct key xs
      → sort (by_keys key) xs ≡ sort (by_keys key) ys
  sort-by_keys key p d =
      sort-Permᴰ (by_keys key) (λ x y z. pair_ltb_trans (key x) (key y) (key z)) p
        (Pairwise.imp (by_keys-Apart key) d)

  -- A list that is sorted already is not changed by sorting.
  sort-sort-by_key :
      (key : A → Str) (xs : List A)
      → Distinct key xs
      → sort (by_key key) (sort (by_key key) xs) ≡ sort (by_key key) xs
  sort-sort-by_key key xs d = sym (sort-by_key key (sort-Permᴰ_self (by_key key) xs) d)

  sort-sort-by_keys :
      (key : A → Str × Str) (xs : List A)
      → Distinct key xs
      → sort (by_keys key) (sort (by_keys key) xs) ≡ sort (by_keys key) xs
  sort-sort-by_keys key xs d = sym (sort-by_keys key (sort-Permᴰ_self (by_keys key) xs) d)

module _ (c : Crypto) where
  -- Accounts and stakes that are sorted before have the same root.
  pub root_for_collections_with_assets-sorted :
      (accounts : List StateAccount) (stakes : List Record) (definitions : List Definition)
      (balances : List BalanceEntry)
      → Distinct (λ a. a.address) accounts
      → Distinct stake_key stakes
      → root_for_collections_with_assets c
          (stable_digest_inputs accounts stakes).0
          (stable_digest_inputs accounts stakes).1
          definitions
          balances
        ≡ root_for_collections_with_assets c accounts stakes definitions balances
  unfolding root_for_collections_with_assets stable_digest_inputs
  root_for_collections_with_assets-sorted accounts stakes definitions balances d e =
      rw (sort-sort-by_key (λ a. a.address) accounts d, sort-sort-by_keys stake_key stakes e) refl

  pub root_for_collections-sorted :
      (accounts : List StateAccount) (stakes : List Record)
      → Distinct (λ a. a.address) accounts
      → Distinct stake_key stakes
      → root_for_collections c
          (stable_digest_inputs accounts stakes).0
          (stable_digest_inputs accounts stakes).1
        ≡ root_for_collections c accounts stakes
  unfolding root_for_collections stable_digest_inputs
  root_for_collections-sorted accounts stakes d e =
      rw (sort-sort-by_key (λ a. a.address) accounts d, sort-sort-by_keys stake_key stakes e) refl

  -- The state root is the same for every order of the accounts, with distinct addresses, the
  -- stakes, with distinct pairs of id and owner, the asset definitions, with distinct ids, and the
  -- balances, with distinct pairs of address and asset.
  pub root_for_collections_with_assets-Permᴰ :
      (accounts accounts' : List StateAccount) (stakes stakes' : List Record)
      (definitions definitions' : List Definition) (balances balances' : List BalanceEntry)
      → Permᴰ accounts accounts'
      → Distinct (λ a. a.address) accounts
      → Permᴰ stakes stakes'
      → Distinct stake_key stakes
      → Permᴰ definitions definitions'
      → Distinct (λ d. d.id) definitions
      → Permᴰ balances balances'
      → Distinct entry_key balances
      → root_for_collections_with_assets c accounts stakes definitions balances
        ≡ root_for_collections_with_assets c accounts' stakes' definitions' balances'
  unfolding root_for_collections_with_assets stable_digest_inputs
  root_for_collections_with_assets-Permᴰ accounts accounts' stakes stakes' definitions definitions'
        balances balances' p d q e r f s g =
      rw
        (
          sort-by_key (λ a. a.address) p d,
          sort-by_keys stake_key q e,
          sort-by_key (λ d. d.id) r f,
          sort-by_keys entry_key s g,
        )
        refl

  root_for_collections-Permᴰ :
      (accounts accounts' : List StateAccount) (stakes stakes' : List Record)
      → Permᴰ accounts accounts'
      → Distinct (λ a. a.address) accounts
      → Permᴰ stakes stakes'
      → Distinct stake_key stakes
      → root_for_collections c accounts stakes ≡ root_for_collections c accounts' stakes'
  unfolding root_for_collections stable_digest_inputs
  root_for_collections-Permᴰ accounts accounts' stakes stakes' p d q e =
      rw (sort-by_key (λ a. a.address) p d, sort-by_keys stake_key q e) refl
