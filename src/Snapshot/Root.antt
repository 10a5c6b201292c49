-- ===== src/Snapshot/Root.antt =====
-- The root of a snapshot (deskachain/node/internal/state/snapshot.go) and the root of the ledger
-- that it is made of (state/root.go).
use des_ka_project.Prelude.{
  ◌≡◌, refl, ◌∙◌, true, false, List, Str, Result, ok, err, Bool-cases, inl, inr,
}
use des_ka_project.Prelude.Results.{◌>>=◌}
use des_ka_project.Types.Crypto.{Crypto}
use des_ka_project.Staking
use des_ka_project.Staking.{Record}
use des_ka_project.Ledger.{MatureLedger, asset_model_enabled}
use des_ka_project.StateRoot.{
  state_accounts, state_stakes, state_asset_definitions, state_asset_balances, stake_key,
  stable_digest_inputs, root_for_ledger,
}
use des_ka_project.StateRoot.Order.{
  Distinct, root_for_collections-sorted, root_for_collections_with_assets-sorted,
}
use des_ka_project.Snapshot.{is_nil, root_of, snapshot_for_ledger}

-- The stakes of a ledger, after releasing what is due.
abbrev pub stakes_of : MatureLedger → List Record
stakes_of l = (Staking.records l.current_height l.stakes).0

-- What is built from a text and gives it back.
rebuilt :
    {A : Type 0} (r : Result Str) (f : Str → A) (g : A → Str)
    → ((x : Str) → g (f x) ≡ x)
    → ((r >>= λ x. ok (f x)) >>= λ a. ok (g a)) ≡ r
rebuilt (ok x) f g h = rw h refl
rebuilt (err e) f g h = refl

module _ (c : Crypto) (l : MatureLedger) (accounts : Distinct (λ a. a.address) (state_accounts l))
    (stakes : Distinct stake_key (stakes_of l))
    (listed : asset_model_enabled l ≡ true → is_nil (state_asset_definitions l) ≡ false) where
  no_assets : asset_model_enabled l ≡ false → is_nil (state_asset_definitions l) ≡ true
  unfolding state_asset_definitions
  no_assets h = rw h refl

  root_of-root_for_ledger :
      root_of c
        (stable_digest_inputs (state_accounts l) (stakes_of l)).0
        (stable_digest_inputs (state_accounts l) (stakes_of l)).1
        (state_asset_definitions l)
        (state_asset_balances l)
      ≡ (root_for_ledger c l).0
  unfolding root_for_ledger state_stakes
  root_of-root_for_ledger = elim (Bool-cases (asset_model_enabled l)) [
    | inl h ↦
        rw (h, listed h)
          (root_for_collections_with_assets-sorted c (state_accounts l) (stakes_of l)
            (state_asset_definitions l) (state_asset_balances l) accounts stakes)
    | inr h ↦
        rw (h, no_assets h)
          (root_for_collections-sorted c (state_accounts l) (stakes_of l) accounts stakes)
  ]

  -- The state root of a snapshot made of a ledger is the root of the ledger, where the addresses
  -- of its accounts are distinct, the pairs of id and owner of its stakes too, and an asset is
  -- defined on a network with assets.
  pub snapshot_for_ledger-root_for_ledger :
      ((snapshot_for_ledger c l).0 >>= λ s. ok s.state_root) ≡ (root_for_ledger c l).0
  unfolding snapshot_for_ledger state_stakes state_asset_definitions state_asset_balances
      asset_model_enabled
  snapshot_for_ledger-root_for_ledger =
      rebuilt _ _ (λ s. s.state_root) (λ x. refl) ∙ root_of-root_for_ledger
