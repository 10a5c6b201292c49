-- ===== src/Blockchain/Queries.antt =====
-- The questions to a chain in its store: AccountNonceWithProfile of
-- deskachain/node/internal/chain/blockchain.go, and chain/asset_query.go and chain/fee_query.go. They
-- read the stored indexes where these belong to the tip, and replay the blocks where not.
pub mod Answers
use des_ka_project.Prelude.{
  ℕ, Bool, true, false, not, List, [], ◌∷◌, Str, ◌=s◌, is_empty, if◌then◌else◌, Option, none, some,
  Result, ok, err, Error, Proc, pure, lift, wrap_err, ◌>>=◌,
}
use des_ka_project.Prelude.Results
use des_ka_project.Prelude.Dict.{lookup}
use des_ka_project.Config.{NetworkConfig, localnet, native_asset_id, native_asset_symbol}
use des_ka_project.Types.Crypto.{Crypto}
use des_ka_project.Types.Block.{Block}
use des_ka_project.Asset.{Definition, is_native}
use des_ka_project.Asset.State
use des_ka_project.Asset.State.{BalanceEntry, native_definition, fee_collector_address}
use des_ka_project.Asset.Listing.{balances}
use des_ka_project.Ledger.{MatureLedger, fee_pool_balance}
use des_ka_project.Ledger.Apply.{replay_mature_with_profile}
use des_ka_project.Ledger.Legacy.{legacy_replay}
use des_ka_project.Blockchain.{Store, is_current}

-- An empty profile stands for the local network.
abbrev pub or_local : NetworkConfig → NetworkConfig
or_local p = if is_empty p.name then localnet else p

-- The stored metadata were read and are those of the tip.
abbrev pub metadata_current : Block → Result (ℕ × ℕ × Str) → Bool
metadata_current tip (ok m) = is_current m tip
metadata_current tip (err _) = false

-- The entries of one address.
unfoldable pub entries_for : Str → List BalanceEntry → List BalanceEntry
entries_for address [] = []
entries_for address (e ∷ es) =
    let rest = entries_for address es in if e.address =s address then e ∷ rest else rest

-- An asset that the index does not have, which may be the native one.
abbrev pub or_native : Str → Option Definition → Option Definition
or_native asset_id (some d) = some d
or_native asset_id none = if is_native asset_id then some native_definition else none

pub record FeePoolResult : Type 0 where
  pub asset_id : Str
  pub amount : ℕ
  pub symbol : Str
  pub pool : Str

abbrev pub fee_pool_result : ℕ → FeePoolResult
fee_pool_result amount = record {
  asset_id = native_asset_id;
  amount = amount;
  symbol = native_asset_symbol;
  pool = fee_collector_address;
}

module _ {S : Type 0} (store : Store S) where
  -- Whether the stored state is that of the tip, for a store that has it.
  abbrev pub state_current : Bool → Block → Proc S Bool
  state_current has_index tip =
      if has_index
      then (λ s. let (r, s') = store.get_state_metadata s in (ok (metadata_current tip r), s'))
      else pure false

  module _ {A : Type 0} (indexed : Proc S A) (replayed : List Block → Result A) where
    abbrev pub from_blocks : Proc S A
    from_blocks = do blocks ← store.blocks; lift (replayed blocks)

    -- The answer of the index where it is current, and else that of the blocks.
    abbrev pub answer : Bool → Proc S A
    answer current = if current then indexed else from_blocks

    abbrev pub answer_at : Bool → Block → Proc S A
    answer_at has_index tip = state_current has_index tip >>= answer

  unfoldable pub query : {A : Type 0} → Bool → Proc S A → (List Block → Result A) → Proc S A
  query has_index indexed replayed = store.tip >>= answer_at indexed replayed has_index

module _ (c : Crypto) where
  -- What the ledger of the blocks says.
  abbrev pub on_ledger : {A : Type 0} → NetworkConfig → (MatureLedger → A) → List Block → Result A
  on_ledger p f blocks = elim (replay_mature_with_profile c blocks p.consensus p) [
    | ok l ↦ ok (f l)
    | err e ↦ err e
  ]

  module _ {S : Type 0} (store : Store S) where
    -- The blocks are replayed in the ledger without maturity, and without the profile.
    unfoldable pub account_nonce_with_profile : Str → NetworkConfig → Proc S ℕ
    account_nonce_with_profile address p =
        query store store.is_query_store (store.get_state_account address >>= λ a. pure a.nonce)
          (λ blocks. elim (legacy_replay c blocks) [
            | ok l ↦ ok (elim (lookup address l) [ none ↦ 0 | some a ↦ a.nonce ])
            | err e ↦ err e
          ])

    unfoldable pub asset_balance_with_profile : Str → Str → NetworkConfig → Proc S ℕ
    asset_balance_with_profile address asset_id p =
        query store store.is_asset_query_store (store.get_state_asset_balance address asset_id)
          (on_ledger (or_local p) (λ l. State.balance address asset_id l.assets))

    unfoldable pub asset_definition_with_profile : Str → NetworkConfig → Proc S (Option Definition)
    asset_definition_with_profile asset_id p =
        query store store.is_asset_query_store
          (store.get_state_asset asset_id >>= λ d. pure (or_native asset_id d))
          (on_ledger (or_local p) (λ l. State.definition asset_id l.assets))

    unfoldable pub asset_balances_for_address_with_profile :
        Str → NetworkConfig → Proc S (List BalanceEntry)
    asset_balances_for_address_with_profile address p =
        query store store.is_asset_query_store (store.get_state_asset_balances_for_address address)
          (on_ledger (or_local p) (λ l. entries_for address (balances l.assets)))

    unfoldable pub fee_pool_balance_with_profile : NetworkConfig → Proc S FeePoolResult
    fee_pool_balance_with_profile p =
        query store store.is_asset_query_store
          (store.get_state_asset_balance fee_collector_address native_asset_id >>= λ amount.
            pure (fee_pool_result amount))
          (λ blocks.
            wrap_err "fee pool replay failed"
              (on_ledger (or_local p) (λ l. fee_pool_result (fee_pool_balance l)) blocks))
