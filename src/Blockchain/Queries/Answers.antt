-- ===== src/Blockchain/Queries/Answers.antt =====
-- Which answer the questions for assets give: deskachain/node/internal/chain/asset_query.go and
-- chain/fee_query.go.
use des_ka_project.Prelude.{
  bind-read, ◌≡◌, ◌≢◌, refl, ℕ, Bool, true, false, List, [], Str, is_empty, ◌=s◌, ◌==◌, Result, ok,
  err, Error, Proc, pure, wrap_err, ◌>>=◌, ◌∙◌, lift, Bool-cases, ◌⊎◌, inl, inr, arith,
}
use des_ka_project.Config.{NetworkConfig, native_asset_id}
use des_ka_project.Types.Crypto.{Crypto}
use des_ka_project.Types.Block.{Block, block_protocol_version, block_version_canonical}
use des_ka_project.Asset.State
use des_ka_project.Asset.State.{fee_collector_address}
use des_ka_project.Asset.Listing.{balances}
use des_ka_project.Ledger.{fee_pool_balance}
use des_ka_project.Snapshot.{snapshot_version}
use des_ka_project.Blockchain.{Store}
use des_ka_project.Blockchain.Queries.{
  metadata_current, state_current, answer, answer_at, or_local, or_native, entries_for,
  fee_pool_result, query, on_ledger, asset_balance_with_profile, asset_definition_with_profile,
  asset_balances_for_address_with_profile, fee_pool_balance_with_profile,
}

-- Stored metadata that are the tip's: the version of snapshots, the height, and for a canonical tip
-- the state root, which is not empty.
pub data Current (tip : Block) : Result (ℕ × ℕ × Str) → Type 0 where
  older :
      {version height : ℕ} {root : Str}
      → version ≡ snapshot_version
      → height ≡ tip.height
      → block_protocol_version tip ≢ block_version_canonical
      → Current tip (ok (version, height, root))
  canonical :
      {version height : ℕ} {root : Str}
      → version ≡ snapshot_version
      → height ≡ tip.height
      → tip.state_root ≢ []
      → tip.state_root ≡ root
      → Current tip (ok (version, height, root))

-- Metadata that cannot be read or are not the tip's.
pub data Outdated (tip : Block) : Result (ℕ × ℕ × Str) → Type 0 where
  unread : (e : Error) → Outdated tip (err e)
  other_version :
      {version height : ℕ} {root : Str}
      → version ≢ snapshot_version
      → Outdated tip (ok (version, height, root))
  other_height :
      {version height : ℕ} {root : Str}
      → height ≢ tip.height
      → Outdated tip (ok (version, height, root))
  other_root :
      {version height : ℕ} {root : Str}
      → block_protocol_version tip ≡ block_version_canonical
      → (tip.state_root ≡ []) ⊎ (tip.state_root ≢ root)
      → Outdated tip (ok (version, height, root))

metadata_current-cases :
    (tip : Block) (m : Result (ℕ × ℕ × Str))
    → ((metadata_current tip m ≡ true) × Current tip m)
      ⊎ ((metadata_current tip m ≡ false) × Outdated tip m)
metadata_current-cases tip (err e) = inr (refl, unread e)
metadata_current-cases tip (ok (version, height, root)) =
    elim (Bool-cases (version == snapshot_version)) [
      | inr v ↦ inr (ground arith, other_version (λ e. ground arith))
      | inl v ↦ elim (Bool-cases (height == tip.height)) [
        | inr h ↦ inr (ground arith, other_height (λ e. ground arith))
        | inl h ↦ elim (Bool-cases (block_protocol_version tip == block_version_canonical)) [
          | inr o ↦ inl (ground arith, older (ground arith) (ground arith) (λ e. ground arith))
          | inl k ↦ elim (Bool-cases (is_empty tip.state_root)) [
            | inl e ↦ inr (ground arith, other_root (ground arith) (inl (ground arith)))
            | inr e ↦ elim (Bool-cases (tip.state_root =s root)) [
              | inl same ↦ inl (
                ground arith,
                canonical (ground arith) (ground arith) (λ n. ground arith) (ground arith),
              )
              | inr differs ↦
                  inr (ground arith, other_root (ground arith) (inr (λ n. ground arith)))
            ]
          ]
        ]
      ]
    ]

module _ {S : Type 0} (store : Store S) (s : S) (tip : Block) (bs : List Block)
    (reads_tip : store.tip s ≡ (ok tip, s)) (reads_blocks : store.blocks s ≡ (ok bs, s))
    (keeps : (store.get_state_metadata s).1 ≡ s) where
  -- The index exists and its metadata are the tip's.
  abbrev pub Indexed : Bool → Type 0
  Indexed has_index = (has_index ≡ true) × Current tip (store.get_state_metadata s).0

  -- There is no index, or it is not the tip's.
  abbrev pub NotIndexed : Bool → Type 0
  NotIndexed has_index = (has_index ≡ false) ⊎ Outdated tip (store.get_state_metadata s).0

  state_current-cases :
      (has_index : Bool)
      → ((state_current store has_index tip s ≡ (ok true, s)) × Indexed has_index)
        ⊎ ((state_current store has_index tip s ≡ (ok false, s)) × NotIndexed has_index)
  state_current-cases false = inr (refl, inl refl)
  state_current-cases true = elim (metadata_current-cases tip (store.get_state_metadata s).0) [
    | inl (e, current) ↦ inl (cc (e, keeps), (refl, current))
    | inr (e, outdated) ↦ inr (cc (e, keeps), inr outdated)
  ]

  query-indexed :
      {A : Type 0} (has_index : Bool) (indexed : Proc S A) (replayed : List Block → Result A)
      → state_current store has_index tip s ≡ (ok true, s)
      → query store has_index indexed replayed s ≡ indexed s
  unfolding query
  query-indexed has_index indexed replayed e =
      bind-read store.tip (answer_at store indexed replayed has_index) s tip reads_tip
      ∙ bind-read (state_current store has_index tip) (answer store indexed replayed) s true e

  query-replayed :
      {A : Type 0} (has_index : Bool) (indexed : Proc S A) (replayed : List Block → Result A)
      → state_current store has_index tip s ≡ (ok false, s)
      → query store has_index indexed replayed s ≡ (replayed bs, s)
  unfolding query
  query-replayed has_index indexed replayed e =
      bind-read store.tip (answer_at store indexed replayed has_index) s tip reads_tip
      ∙ bind-read (state_current store has_index tip) (answer store indexed replayed) s false e
      ∙ bind-read store.blocks (λ blocks. lift (replayed blocks)) s bs reads_blocks

  module _ (c : Crypto) (address asset_id : Str) (p : NetworkConfig) where
    -- The four answers of the stored index: an asset that is not in it may be the native one.
    abbrev pub FromIndex : Type 0
    FromIndex =
        (asset_balance_with_profile c store address asset_id p s
          ≡ store.get_state_asset_balance address asset_id s)
        × (asset_definition_with_profile c store asset_id p s
            ≡ (store.get_state_asset asset_id >>= λ d. pure (or_native asset_id d)) s)
        × (asset_balances_for_address_with_profile c store address p s
            ≡ store.get_state_asset_balances_for_address address s)
        × (fee_pool_balance_with_profile c store p s
            ≡ (store.get_state_asset_balance fee_collector_address native_asset_id >>= λ amount.
                  pure (fee_pool_result amount))
                s)

    -- The four answers of the ledger that the blocks lead to.
    abbrev pub FromBlocks : Type 0
    FromBlocks =
        (asset_balance_with_profile c store address asset_id p s
          ≡ (on_ledger c (or_local p) (λ l. State.balance address asset_id l.assets) bs, s))
        × (asset_definition_with_profile c store asset_id p s
            ≡ (on_ledger c (or_local p) (λ l. State.definition asset_id l.assets) bs, s))
        × (asset_balances_for_address_with_profile c store address p s
            ≡ (on_ledger c (or_local p) (λ l. entries_for address (balances l.assets)) bs, s))
        × (fee_pool_balance_with_profile c store p s ≡ (
          wrap_err "fee pool replay failed"
              (on_ledger c (or_local p) (λ l. fee_pool_result (fee_pool_balance l)) bs),
          s,
        ))

    -- Where the tip and the blocks are read, and reading them and the metadata changes nothing in
    -- the store: the questions for the balance of an asset, its definition, the balances of an
    -- address and the fee pool are answered from the index if there is one and its metadata have
    -- the version of snapshots, the height of the tip and, for a canonical tip, its state root,
    -- which is not empty; if not, all four are answered by the ledger of the blocks.
    pub asset_queries_lem :
        (Indexed store.is_asset_query_store × FromIndex)
        ⊎ (NotIndexed store.is_asset_query_store × FromBlocks)
    unfolding asset_balance_with_profile asset_definition_with_profile
        asset_balances_for_address_with_profile fee_pool_balance_with_profile
    asset_queries_lem =
        let has = store.is_asset_query_store in
        elim (state_current-cases has) [
          | inl (e, indexed) ↦ inl (
            indexed,
            (
              query-indexed has _ _ e,
              query-indexed has _ _ e,
              query-indexed has _ _ e,
              query-indexed has _ _ e,
            ),
          )
          | inr (e, not_indexed) ↦ inr (
            not_indexed,
            (
              query-replayed has _ _ e,
              query-replayed has _ _ e,
              query-replayed has _ _ e,
              query-replayed has _ _ e,
            ),
          )
        ]
