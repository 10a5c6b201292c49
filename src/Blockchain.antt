-- ===== src/Blockchain.antt =====
-- deskachain/node/internal/chain/blockchain.go over the store of storage/storage.go. The store is an
-- interface: a record of its operations, among them the questions which of the wider interfaces it
-- implements.
pub mod Atomic
pub mod Grows
pub mod Candidate
pub mod Queries
pub mod Audit
use des_ka_project.Prelude.{
  ℕ, ◌+◌, Bool, true, false, not, ◌&&◌, ◌||◌, List, [], ◌∷◌, ◌++◌, Str, ◌=s◌, is_empty, ltb, leb,
  ◌==◌, if◌then◌else◌, Option, none, some, Error, msg, Result, ok, err, ⊤, Proc, pure, fail, lift,
  fail_if, wrapping, ◌>>=◌, ◌>>◌, last?, length,
}
use des_ka_project.Prelude.Int.{ℤ}
use des_ka_project.Config.{ConsensusParams, NetworkConfig, localnet}
use des_ka_project.Types.{Transaction}
use des_ka_project.Types.Crypto.{Crypto}
use des_ka_project.Types.Block.{Block, block_protocol_version, block_version_canonical}
use des_ka_project.Chain.Genesis.{genesis_block_for_network}
use des_ka_project.Chain.Validation.{validate_next_block_with_network}
use des_ka_project.Ledger.{StateAccount}
use des_ka_project.Staking.{Record}
use des_ka_project.Asset.{Definition}
use des_ka_project.Asset.State.{BalanceEntry}
use des_ka_project.Snapshot.{Snapshot, snapshot_version, snapshot_for_blocks, snapshot_after_block}

-- `Store`, `StateStore`, `StateQueryStore`, `BlockStateStore` and `AssetStateQueryStore`, on a state
-- of the store.
pub record Store (S : Type 0) : Type 0 where
  pub is_state_store : Bool
  pub is_query_store : Bool
  pub is_block_state_store : Bool
  pub has_chain : Proc S Bool
  pub blocks : Proc S (List Block)
  pub tip : Proc S Block
  pub get_block_by_height : ℕ → Proc S Block
  pub load_state : Proc S Snapshot
  pub save_state : Snapshot → Proc S ⊤
  pub save_block_and_state : Block → Snapshot → Proc S ⊤
  pub replace_from_height_and_state : ℕ → List Block → Snapshot → Proc S ⊤
  pub validate_chain_state_consistency : Proc S ⊤
  pub get_state_metadata : Proc S (ℕ × ℕ × Str)
  pub get_state_account : Str → Proc S StateAccount
  pub get_state_stakes_for_address : Str → Proc S (List Record)
  pub validate_state_indexes : Proc S ⊤
  pub is_asset_query_store : Bool
  pub get_state_asset : Str → Proc S (Option Definition)
  pub get_state_asset_balance : Str → Str → Proc S ℕ
  pub get_state_asset_balances_for_address : Str → Proc S (List BalanceEntry)

unfoldable pub snapshot_matches_tip : Snapshot → Block → Bool
snapshot_matches_tip s tip =
    if not (s.version == snapshot_version) || not (s.height == tip.height)
    then false
    else if block_protocol_version tip == block_version_canonical
    then not (is_empty tip.state_root) && tip.state_root =s s.state_root
    else true

abbrev pub err_not_initialized : Error
err_not_initialized = msg "chain is not initialized"

abbrev pub err_atomic_storage : Error
err_atomic_storage = msg "production chain requires atomic block-state storage"

-- The blocks below a height.
abbrev pub below : ℕ → List Block → List Block
below from [] = []
below from (b ∷ bs) = if ltb b.height from then b ∷ below from bs else below from bs

-- A state that is stored and matches the tip.
abbrev pub current_state : Block → Result Snapshot → Option Snapshot
current_state tip (ok s) = if snapshot_matches_tip s tip then some s else none
current_state tip (err _) = none

module _ (c : Crypto) where
  -- The state after the block: from the stored one, or from a replay of the whole chain.
  unfoldable pub next_state :
      Option Snapshot → List Block → Block → ConsensusParams → NetworkConfig → Result Snapshot
  next_state (some s) blocks b params p = snapshot_after_block c s b params p
  next_state none blocks b params p = snapshot_for_blocks c (blocks ++ b ∷ []) params p

  module _ {S : Type 0} (store : Store S) where
    -- The error of a read is a value: it does not end the method.
    abbrev pub attempt : {A : Type 0} → Proc S A → Proc S (Result A)
    attempt m s = let (r, s') = m s in (ok r, s')

    unfoldable pub init_with_profile : NetworkConfig → Proc S ⊤
    init_with_profile p = do
      has ← store.has_chain
      (if not has
          then (do
            snapshot ←
                lift (snapshot_for_blocks c (genesis_block_for_network c p ∷ []) p.consensus p)
            (if store.is_block_state_store
                then store.save_block_and_state (genesis_block_for_network c p) snapshot
                else fail err_atomic_storage))
          else if not store.is_state_store
          then pure tt
          else (do
            tip ← store.tip
            snapshot ← wrapping "persisted state unavailable" store.load_state
            fail_if (not (snapshot_matches_tip snapshot tip))
                (msg "persisted state does not match canonical tip")
            fail_if (not store.is_query_store) (msg "state query store is not available")
            store.validate_chain_state_consistency))

    unfoldable pub rebuild_state_with_profile : NetworkConfig → Proc S ⊤
    rebuild_state_with_profile p = do
      fail_if (not store.is_state_store) (msg "state store is not available")
      blocks ← store.blocks
      fail_if (length blocks == 0) err_not_initialized
      snapshot ← lift (snapshot_for_blocks c blocks p.consensus p)
      store.save_state snapshot

    unfoldable pub replace_from_height_with_network : ℕ → List Block → NetworkConfig → Proc S ⊤
    replace_from_height_with_network from blocks p = do
      existing ← store.blocks
      (if store.is_state_store
          then (do
            snapshot ← lift (snapshot_for_blocks c (below from existing ++ blocks) p.consensus p)
            (if store.is_block_state_store
                then store.replace_from_height_and_state from blocks snapshot
                else fail err_atomic_storage))
          else fail (msg "production chain requires persistent state storage"))

    unfoldable pub commit : Block → Snapshot → Proc S ⊤
    commit b snapshot =
        if store.is_block_state_store
        then store.save_block_and_state b snapshot
        else fail err_atomic_storage

    unfoldable pub save_after :
        List Block → Block → Block → NetworkConfig → Result Snapshot → Proc S ⊤
    save_after blocks tip b p current = do
      snapshot ← lift (next_state (current_state tip current) blocks b p.consensus p)
      commit b snapshot

    -- A block that was checked is saved with its state.
    unfoldable pub save_next : List Block → Block → Block → NetworkConfig → Proc S ⊤
    save_next blocks tip b p =
        if store.is_state_store
        then attempt store.load_state >>= save_after blocks tip b p
        else fail (msg "production chain requires persistent state storage")

    module _ (block_json : Block → Str) (now : ℤ) where
      unfoldable pub add_checked : Option Block → List Block → Block → NetworkConfig → Proc S ⊤
      add_checked none blocks b p = fail err_not_initialized
      add_checked (some tip) blocks b p = do
        lift (
            validate_next_block_with_network c block_json now b tip blocks p.difficulty p.consensus
              p)
        save_next blocks tip b p

      unfoldable pub add_block_with_network : Block → NetworkConfig → Proc S ⊤
      add_block_with_network b p = do blocks ← store.blocks; add_checked (last? blocks) blocks b p

pub record StateStatusResult : Type 0 where
  pub available : Bool
  pub current : Bool
  pub version : ℕ
  pub height : ℕ
  pub state_root : Str
  pub tip_height : ℕ
  pub tip_hash : Str

-- The stored metadata are those of the tip.
abbrev pub is_current : ℕ × ℕ × Str → Block → Bool
is_current (version, height, root) tip =
    if version == snapshot_version && height == tip.height
    then (if block_protocol_version tip == block_version_canonical
        then not (is_empty tip.state_root) && tip.state_root =s root
        else true)
    else false

abbrev pub status_of : Block → Result (ℕ × ℕ × Str) → StateStatusResult
status_of tip (err _) = record {
  available = false;
  current = false;
  version = 0;
  height = 0;
  state_root = [];
  tip_height = tip.height;
  tip_hash = tip.hash;
}
status_of tip (ok (version, height, root)) = record {
  available = true;
  current = is_current (version, height, root) tip;
  version = version;
  height = height;
  state_root = root;
  tip_height = tip.height;
  tip_hash = tip.hash;
}

module _ {S : Type 0} (store : Store S) where
  -- `StateStatusWithNetwork`, whose profile is not read.
  unfoldable pub state_status_with_network : Proc S StateStatusResult
  state_status_with_network = do
    tip ← store.tip
    (if not store.is_query_store
        then pure (status_of tip (err (msg "")))
        else (λ s. let (r, s') = store.get_state_metadata s in (ok (status_of tip r), s')))
