-- ===== src/StateRoot.antt =====
-- deskachain/node/internal/state/root.go and root_blocks.go: the hash of a ledger's state. The
-- package's writers are those of the transaction codec, copied.
pub mod Order
use des_ka_project.Prelude.{
  ℕ, Bool, ◌%◌, List, [], ◌∷◌, ◌++◌, map, Str, codes, ◌=s◌, length, if◌then◌else◌, Result, ok, err,
  Proc,
}
use des_ka_project.Prelude.Sorting.{sort, by_key, by_keys}
use des_ka_project.Config.{ConsensusParams, NetworkConfig}
use des_ka_project.Types.Crypto.{Crypto}
use des_ka_project.Types.Codec.{
  concat, write_bool, write_canonical_uint32, write_canonical_uint64, write_canonical_string,
}
use des_ka_project.Types.Block.{Block}
use des_ka_project.Asset.{Definition}
use des_ka_project.Asset.State.{BalanceEntry}
use des_ka_project.Asset.Listing
use des_ka_project.Asset.Listing.{definition_less, entry_less}
use des_ka_project.Staking
use des_ka_project.Staking.{Record}
use des_ka_project.Ledger.{MatureLedger, StateAccount, asset_model_enabled}
use des_ka_project.Ledger.Apply.{replay_mature_with_profile}

abbrev pub state_root_version : ℕ
state_root_version = 1

abbrev pub state_root_domain : Str
state_root_domain = codes "IndoChain/state-root/v1"

abbrev pub state_root_domain_with_assets : Str
state_root_domain_with_assets = codes "IndoChain/state-root/v2-assets"

-- `StateAccounts` and the other collections of the ledger that the root covers.
unfoldable pub state_accounts : MatureLedger → List StateAccount
state_accounts l =
    map
      (λ e. record {
        address = e.0;
        confirmed = e.1.confirmed;
        mature = e.1.mature;
        nonce = e.1.nonce;
      })
      l.accounts

-- Reading the stakes releases in the ledger what is due.
unfoldable pub state_stakes : Proc MatureLedger (List Record)
state_stakes l =
    let (rs, s) = Staking.records l.current_height l.stakes in (ok rs, record l { stakes = s })

unfoldable pub state_asset_definitions : MatureLedger → List Definition
state_asset_definitions l = if asset_model_enabled l then Listing.definitions l.assets else []

unfoldable pub state_asset_balances : MatureLedger → List BalanceEntry
state_asset_balances l = if asset_model_enabled l then Listing.balances l.assets else []

abbrev pub account_less : StateAccount → StateAccount → Bool
account_less = by_key (λ a. a.address)

abbrev pub stake_key : Record → Str × Str
stake_key r = (r.stake_id, r.owner_address)

abbrev pub stake_less : Record → Record → Bool
stake_less = by_keys stake_key

unfoldable pub stable_digest_inputs :
    List StateAccount → List Record → List StateAccount × List Record
stable_digest_inputs accounts stakes = (sort account_less accounts, sort stake_less stakes)

abbrev pub write_account : StateAccount → Str
write_account a = concat (
    write_canonical_string a.address
    ∷ write_canonical_uint64 a.confirmed
    ∷ write_canonical_uint64 a.mature
    ∷ write_canonical_uint64 a.nonce
    ∷ [])

unfoldable pub write_stake_record : Record → Str
write_stake_record r = concat (
    write_canonical_string r.stake_id
    ∷ write_canonical_string r.owner_address
    ∷ write_canonical_uint64 r.amount
    ∷ write_canonical_string r.lock_tx_id
    ∷ write_canonical_uint64 r.lock_height
    ∷ write_canonical_string r.unlock_tx_id
    ∷ write_canonical_uint64 r.unlock_height
    ∷ write_canonical_uint64 r.release_height
    ∷ write_canonical_string r.status
    ∷ [])

abbrev pub write_definition : Definition → Str
write_definition d = concat (
    write_canonical_string d.id
    ∷ write_canonical_string d.name
    ∷ write_canonical_string d.symbol
    ∷ (d.decimals ∷ [])
    ∷ write_canonical_string d.kind
    ∷ write_canonical_string d.issuer
    ∷ write_canonical_uint64 d.max_supply
    ∷ write_canonical_uint64 d.total_supply
    ∷ write_bool d.mintable
    ∷ write_bool d.burnable
    ∷ write_bool d.pausable
    ∷ write_bool d.permissioned
    ∷ write_canonical_string d.status
    ∷ [])

abbrev pub write_balance : BalanceEntry → Str
write_balance e = concat (
    write_canonical_string e.address
    ∷ write_canonical_string e.asset_id
    ∷ write_canonical_uint64 e.amount
    ∷ [])

-- `writeUint32(&buf, uint32(len(xs)))` and the entries.
abbrev pub write_list : {A : Type 0} → (A → Str) → List A → Str
write_list write xs = write_canonical_uint32 (length xs % 4294967296) ++ concat (map write xs)

module _ (c : Crypto) where
  unfoldable pub root_for_collections : List StateAccount → List Record → Result Str
  root_for_collections accounts stakes =
      let (accounts', stakes') = stable_digest_inputs accounts stakes in
      ok (
        c.double_sha256_hex (
          state_root_version
          ∷ concat (
              write_canonical_string state_root_domain
              ∷ write_list write_account accounts'
              ∷ write_list write_stake_record stakes'
              ∷ [])))

  unfoldable pub root_for_collections_with_assets :
      List StateAccount → List Record → List Definition → List BalanceEntry → Result Str
  root_for_collections_with_assets accounts stakes definitions balances =
      let (accounts', stakes') = stable_digest_inputs accounts stakes in
      ok (
        c.double_sha256_hex (
          state_root_version
          ∷ concat (
              write_canonical_string state_root_domain_with_assets
              ∷ write_list write_account accounts'
              ∷ write_list write_stake_record stakes'
              ∷ write_list write_definition (sort definition_less definitions)
              ∷ write_list write_balance (sort entry_less balances)
              ∷ [])))

  unfoldable pub root_for_ledger : Proc MatureLedger Str
  root_for_ledger l =
      let (stakes, l') = state_stakes l in
      elim stakes [
        | err e ↦ (err e, l')
        | ok rs ↦
            if asset_model_enabled l
            then (
              root_for_collections_with_assets (state_accounts l) rs (state_asset_definitions l)
                  (state_asset_balances l),
              l',
            )
            else (root_for_collections (state_accounts l) rs, l')
      ]

  unfoldable pub root_for_blocks : List Block → ConsensusParams → NetworkConfig → Result Str
  root_for_blocks blocks params p = elim (replay_mature_with_profile c blocks params p) [
    | err e ↦ err e
    | ok l ↦ (root_for_ledger l).0
  ]

  unfoldable pub root_for_block : List Block → Block → ConsensusParams → NetworkConfig → Result Str
  root_for_block parent block params p = root_for_blocks (parent ++ block ∷ []) params p
