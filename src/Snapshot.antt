-- ===== src/Snapshot.antt =====
-- deskachain/node/internal/state/snapshot.go: the state that is stored with the tip of the chain.
pub mod Root
pub mod Equivalent
use des_ka_project.Prelude.{
  wrap, ℕ, Bool, true, false, not, ◌&&◌, ◌||◌, List, [], ◌∷◌, Str, ◌=s◌, is_empty, ltb, ◌==◌,
  if◌then◌else◌, Option, none, some, Error, msg, Result, ok, ⊤, Proc, check, map_err,
}
use des_ka_project.Prelude.Dict.{Dict, get, insert, lookup}
use des_ka_project.Prelude.Results.{◌>>=◌, ◌>>◌}
use des_ka_project.Prelude.Sorting.{sort, str_ltb}
use des_ka_project.Arith.{add}
use des_ka_project.Config.{
  ConsensusParams, NetworkConfig, native_asset_id, native_asset_symbol, native_asset_decimals,
}
use des_ka_project.Types.Crypto.{Crypto}
use des_ka_project.Types.Block.{Block}
use des_ka_project.Asset.{Definition, is_native, validate_definition}
use des_ka_project.Asset.State.{BalanceEntry}
use des_ka_project.Asset.Listing.{definition_less, entry_less}
use des_ka_project.Staking.{Record}
use des_ka_project.Ledger.{
  MatureLedger, StateAccount, StateCoinbase, state_coinbases, new_mature_from_state_with_assets,
}
use des_ka_project.Ledger.Apply.{replay_mature_with_profile, apply_block}
use des_ka_project.StateRoot.{
  state_accounts, state_stakes, state_asset_definitions, state_asset_balances, stable_digest_inputs,
  root_for_collections, root_for_collections_with_assets,
}

abbrev pub snapshot_version : ℕ
snapshot_version = 3

-- `ErrInvalidSnapshot`, with what is wrong.
abbrev pub invalid_snapshot : Error → Error
invalid_snapshot e = wrap "invalid state snapshot" e

pub record Snapshot : Type 0 where
  pub version : ℕ
  pub height : ℕ
  pub state_root : Str
  pub accounts : List StateAccount
  pub stakes : List Record
  pub coinbases : List StateCoinbase
  pub assets : List Definition
  pub asset_balances : List BalanceEntry

abbrev pub is_nil {ℓ} : {A : Type ℓ} → List A → Bool
is_nil [] = true
is_nil (x ∷ xs) = false

abbrev pub coinbase_less : StateCoinbase → StateCoinbase → Bool
coinbase_less a b =
    if not (a.height == b.height)
    then ltb a.height b.height
    else if not (a.address =s b.address)
    then str_ltb a.address b.address
    else ltb a.amount b.amount

-- Two neighbours that are the same by a test.
unfoldable pub has_neighbours : {A : Type 0} → (A → A → Bool) → List A → Bool
has_neighbours same [] = false
has_neighbours same (x ∷ []) = false
has_neighbours same (x ∷ y ∷ xs) = same x y || has_neighbours same (y ∷ xs)

unfoldable pub check_coinbases : ℕ → List StateCoinbase → Result ⊤
check_coinbases height [] = ok tt
check_coinbases height (x ∷ xs) = do
  check (is_empty x.address || x.amount == 0) (invalid_snapshot (msg "invalid pending coinbase"))
  check (ltb height x.height)
      (invalid_snapshot (msg "pending coinbase height exceeds snapshot height"))
  check_coinbases height xs

-- The definitions, and whether the native one was among them.
unfoldable pub check_definitions : Bool → List Definition → Result Bool
check_definitions native_seen [] = ok native_seen
check_definitions native_seen (d ∷ ds) =
    let native =
      check
        (native_seen
          || (not (d.id =s native_asset_id)
              || (not (d.symbol =s native_asset_symbol)
                  || not (d.decimals == native_asset_decimals))))
        (invalid_snapshot (msg "invalid native dIDR definition"))
      >> check_definitions true ds in
    let issued =
      map_err (invalid_snapshot (msg "invalid asset")) (validate_definition d)
      >> check_definitions native_seen ds in
    if is_native d.id then native else issued

abbrev pub known_ids : List Definition → Dict ⊤ → Dict ⊤
known_ids [] d = d
known_ids (x ∷ xs) d = known_ids xs (insert x.id tt d)

abbrev pub is_known : Option ⊤ → Bool
is_known none = false
is_known (some _) = true

unfoldable pub check_entries : Dict ⊤ → List BalanceEntry → Result ⊤
check_entries known [] = ok tt
check_entries known (e ∷ es) = do
  check (is_empty e.address || (is_empty e.asset_id || e.amount == 0))
      (invalid_snapshot (msg "invalid asset balance"))
  check (not (is_known (lookup e.asset_id known))) (invalid_snapshot (msg "unknown asset"))
  check_entries known es

-- The native balance of each address.
abbrev pub native_balances : List BalanceEntry → Dict ℕ → Dict ℕ
native_balances [] d = d
native_balances (e ∷ es) d =
    native_balances es (if is_native e.asset_id then insert e.address e.amount d else d)

unfoldable pub check_native : Dict ℕ → List StateAccount → Result ⊤
check_native inds [] = ok tt
check_native inds (a ∷ as') = do
  check (not (get 0 a.address inds == a.confirmed))
      (invalid_snapshot (msg "native dIDR/account mismatch"))
  check_native inds as'

-- `Account` and `Stake`
unfoldable pub snapshot_account : Str → List StateAccount → Option StateAccount
snapshot_account address [] = none
snapshot_account address (a ∷ as') =
    let rest = snapshot_account address as' in if a.address =s address then some a else rest

unfoldable pub snapshot_stake : Str → List Record → Option Record
snapshot_stake stake_id [] = none
snapshot_stake stake_id (r ∷ rs) =
    let rest = snapshot_stake stake_id rs in if r.stake_id =s stake_id then some r else rest

module _ (c : Crypto) where
  abbrev pub root_of :
      List StateAccount → List Record → List Definition → List BalanceEntry → Result Str
  root_of accounts stakes assets balances =
      if is_nil assets
      then root_for_collections c accounts stakes
      else root_for_collections_with_assets c accounts stakes assets balances

  -- Reading the stakes releases in the ledger what is due.
  unfoldable pub snapshot_for_ledger : Proc MatureLedger Snapshot
  snapshot_for_ledger l =
      let (found, l') = state_stakes l in
      (
        (do
          rs ← found
          let sorted = stable_digest_inputs (state_accounts l) rs
          root ← root_of sorted.0 sorted.1 (state_asset_definitions l') (state_asset_balances l')
          ok (record {
            version = snapshot_version;
            height = l'.current_height;
            state_root = root;
            accounts = sorted.0;
            stakes = sorted.1;
            coinbases = state_coinbases l';
            assets = state_asset_definitions l';
            asset_balances = state_asset_balances l';
          })),
        l',
      )

  unfoldable pub snapshot_for_blocks :
      List Block → ConsensusParams → NetworkConfig → Result Snapshot
  snapshot_for_blocks blocks params p = do
    l ← replay_mature_with_profile c blocks params p
    (snapshot_for_ledger l).0

  abbrev pub check_assets : Snapshot → Result ⊤
  check_assets s = do
    native_seen ← check_definitions false s.assets
    check (not (is_nil s.assets) && not native_seen)
        (invalid_snapshot (msg "missing native dIDR definition"))
    check (has_neighbours (λ a b. a.id =s b.id) (sort definition_less s.assets))
        (invalid_snapshot (msg "duplicate asset"))
    check
        (has_neighbours (λ a b. a.address =s b.address && a.asset_id =s b.asset_id)
          (sort entry_less s.asset_balances))
        (invalid_snapshot (msg "duplicate asset balance"))
    check_entries (known_ids (sort definition_less s.assets) []) (sort entry_less s.asset_balances)

  -- `Validate`
  unfoldable pub validate_snapshot : Snapshot → Result ⊤
  validate_snapshot s = do
    let sorted = stable_digest_inputs s.accounts s.stakes
    let coinbases = sort coinbase_less s.coinbases
    check (not (s.version == snapshot_version)) (invalid_snapshot (msg "unsupported version"))
    check (is_empty s.state_root) (invalid_snapshot (msg "empty state root"))
    check (has_neighbours (λ a b. a.address =s b.address) sorted.0)
        (invalid_snapshot (msg "duplicate account"))
    check (has_neighbours (λ a b. a.stake_id =s b.stake_id) sorted.1)
        (invalid_snapshot (msg "duplicate stake"))
    check (has_neighbours (λ a b. a.height == b.height && a.address =s b.address) coinbases)
        (invalid_snapshot (msg "duplicate pending coinbase"))
    check_coinbases s.height coinbases
    check_assets s
    root ←
        root_of sorted.0 sorted.1 (sort definition_less s.assets) (sort entry_less s.asset_balances)
    check (not (root =s s.state_root)) (invalid_snapshot (msg "state root mismatch"))
    (if is_nil s.assets
        then ok tt
        else check_native (native_balances (sort entry_less s.asset_balances) []) sorted.0)

  unfoldable pub snapshot_after_block :
      Snapshot → Block → ConsensusParams → NetworkConfig → Result Snapshot
  snapshot_after_block s b params p = do
    validate_snapshot s
    expected ← map_err (invalid_snapshot (msg "state height overflow")) (add s.height 1)
    check (not (b.height == expected))
        (invalid_snapshot (msg "block height does not follow state height"))
    l ←
        new_mature_from_state_with_assets params p s.height s.accounts s.stakes s.coinbases s.assets
          s.asset_balances
    let applied = apply_block c b l
    applied.0 >> (snapshot_for_ledger applied.1).0
