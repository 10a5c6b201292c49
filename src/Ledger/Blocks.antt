-- ===== src/Ledger/Blocks.antt =====
-- Blocks keep the ledger consistent: ApplyBlock and replayMature of
-- deskachain/node/internal/ledger/maturity.go.
use des_ka_project.Prelude.{
  ℕ, ◌+◌, ◌-◌, ◌≡◌, ◌≢◌, refl, subst, sym, modify, [], ◌∷◌, List, true, false, Str, ltb, leb,
  if◌then◌else◌, arith, Result, ok, err, ⊤, Proc, ◌>>=◌, ◌>>◌, Ensures, bind-Ensures, if-Ensures,
  msg, pure, gets, fail_if, last?, none, some,
}
use des_ka_project.Config.{ConsensusParams, NetworkConfig, native_asset_id}
use des_ka_project.Types.{Transaction, tx_version_asset}
use des_ka_project.Types.Crypto.{Crypto}
use des_ka_project.Types.Block.{Block}
use des_ka_project.Asset.{is_native}
use des_ka_project.Asset.State
use des_ka_project.Asset.State.{fee_collector_address}
use des_ka_project.Asset.Supply.{new_state-IsBacked}
use des_ka_project.Ledger.{
  MatureLedger, account, native_balance, asset_model_enabled, with_rollback,
  new_mature_with_profile,
}
use des_ka_project.Ledger.Native.{settle_fees}
use des_ka_project.Ledger.Apply.{
  apply_transaction_at_height, apply_coinbase_at_height, apply_transactions, run_block, apply_block,
  apply_blocks, mature_coinbases, mature_at_tip, replay_mature_with_profile,
}
use des_ka_project.Ledger.Money.{View, view, give}
use des_ka_project.Ledger.Settle.{settle_fees-view}
use des_ka_project.Ledger.Consistent.{IsConsistent, native_is_native}
use des_ka_project.Ledger.Maturing.{mature_coinbases-IsConsistent}
use des_ka_project.Ledger.Transactions.{
  with_rollback-Good, apply_transaction_at_height-Good, apply_coinbase_at_height-Good,
}

module _ (b j : Str) (hb : b ≢ fee_collector_address) (hj : is_native j ≡ false) (c : Crypto) where
  abbrev Good : MatureLedger → Type 0
  Good l = IsConsistent b (view b j l)

  -- One entry of the block, the number of coinbases up to it included.
  abbrev apply_one : ℕ → ℕ → Transaction → Proc MatureLedger ⊤
  apply_one height n tx =
      if tx.coinbase
      then (fail_if (ltb 1 n) (msg "multiple coinbase transactions")
          >> apply_coinbase_at_height c tx height)
      else apply_transaction_at_height c tx height

  apply_one-Good :
      (height n : ℕ) (tx : Transaction) (l : MatureLedger)
      → Good l
      → Ensures Good (apply_one height n tx) l
  apply_one-Good height n tx l g =
      if-Ensures Good l tx.coinbase
        (fail_if (ltb 1 n) (msg "multiple coinbase transactions")
          >> apply_coinbase_at_height c tx height)
        (apply_transaction_at_height c tx height)
        (λ _.
          bind-Ensures Good Good (λ _. apply_coinbase_at_height c tx height)
            (fail_if (ltb 1 n) (msg "multiple coinbase transactions")) l (λ _. g)
            (λ _ l' g'. apply_coinbase_at_height-Good b j hb hj c tx height l' g'))
        (λ n. apply_transaction_at_height-Good b j hb hj c tx height l n g)

  apply_transactions-Good :
      (height n : ℕ) (txs : List Transaction) (l : MatureLedger)
      → Good l
      → Ensures Good (apply_transactions c height n txs) l
  unfolding apply_transactions
  apply_transactions-Good height n [] l g = λ _. g
  apply_transactions-Good height n (tx ∷ txs) l g =
      bind-Ensures Good Good
        (λ _. apply_transactions c height (if tx.coinbase then n + 1 else n) txs)
        (apply_one height (if tx.coinbase then n + 1 else n) tx) l
        (apply_one-Good height (if tx.coinbase then n + 1 else n) tx l g)
        (λ _ l' g'. apply_transactions-Good height (if tx.coinbase then n + 1 else n) txs l' g')

  give-Good : (n : ℕ) (v : View) → IsConsistent b v → IsConsistent b (give n v)
  give-Good n v g = ground arith

  settle_fees-Good :
      (miner : Str) (l : MatureLedger) → Good l → Ensures Good (settle_fees c miner) l
  settle_fees-Good miner l g h = ground (
    arith,
    settle_fees-view c miner l b j hb (λ (e : j ≡ native_asset_id). cc (native_is_native)) h,
    give-Good (native_balance fee_collector_address l) (view b j l) g,
  )

  start-Good :
      (k : Block) (l : MatureLedger)
      → Good l
      → Good (if ltb 0 k.height then mature_coinbases (k.height - 1) l else l)
  start-Good k l g = ground (arith, mature_coinbases-IsConsistent b j (k.height - 1) l)

  at_height-Good :
      (height : ℕ) (l : MatureLedger) → Good l → Good (record l { current_height = height })
  unfolding account
  at_height-Good height l g = g

  run_block-Good : (k : Block) (l : MatureLedger) → Good l → Ensures Good (run_block c k) l
  unfolding run_block
  run_block-Good k l g =
      let start = if ltb 0 k.height then mature_coinbases (k.height - 1) l else l in
      let finish : Proc MatureLedger ⊤ = (do
        modify (λ l. record l { current_height = k.height })
        modify (mature_coinbases k.height)) in
      bind-Ensures Good Good
        (λ _.
          (gets asset_model_enabled >>= λ enabled.
          (if enabled then settle_fees c k.miner_address else pure tt))
          >> finish)
        (apply_transactions c k.height 0 k.transactions) start
        (apply_transactions-Good k.height 0 k.transactions start (start-Good k l g))
        (λ _ l₁ g₁.
          bind-Ensures Good Good (λ _. finish)
            (if asset_model_enabled l₁ then settle_fees c k.miner_address else pure tt) l₁
            (if-Ensures Good l₁ (asset_model_enabled l₁) (settle_fees c k.miner_address) (pure tt)
              (λ _. settle_fees-Good k.miner_address l₁ g₁) (λ _ _. g₁))
            (λ _ l₂ g₂ _.
              mature_coinbases-IsConsistent b j k.height (record l₂ { current_height = k.height })
                (at_height-Good k.height l₂ g₂)))

  -- Applying any block to a ledger that satisfies this invariant, for an address other than the
  -- fee pool and an issued asset, gives a ledger that satisfies it, whether the block is accepted
  -- or refused.
  pub apply_block-IsConsistent :
      (k : Block) (l : MatureLedger)
      → IsConsistent b (view b j l)
      → IsConsistent b (view b j (apply_block c k l).1)
  unfolding apply_block asset_model_enabled
  apply_block-IsConsistent k l g =
      subst (λ on. Good (if on then with_rollback (run_block c k) l else run_block c k l).1)
        (sym g.enabled)
        (with_rollback-Good b j hb hj (run_block c k) l (λ l' g'. run_block-Good k l' g') g)

  after_block :
      (r : Result ⊤) (l : MatureLedger) (next : Proc MatureLedger ⊤)
      → Good l
      → ((l' : MatureLedger) → Good l' → Good (next l').1)
      → Good (elim r as (λ _. Result ⊤ × MatureLedger) [ ok _ ↦ next l | err e ↦ (err e, l) ]).1
  after_block (ok _) l next g keeps = keeps l g
  after_block (err e) l next g keeps = g

  apply_blocks-Good : (ks : List Block) (l : MatureLedger) → Good l → Good (apply_blocks c ks l).1
  unfolding apply_blocks
  apply_blocks-Good [] l g = g
  apply_blocks-Good (k ∷ ks) l g =
      after_block (apply_block c k l).0 (apply_block c k l).1 (apply_blocks c ks)
        (apply_block-IsConsistent k l g) (λ l' g'. apply_blocks-Good ks l' g')

  genesis-Good :
      (params : ConsensusParams) (p : NetworkConfig)
      → leb tx_version_asset (new_mature_with_profile params p).profile.tx_version ≡ true
      → Good (new_mature_with_profile params p)
  unfolding account new_mature_with_profile State.new_state State.balance
  genesis-Good params p h = record {
    in_sync = refl;
    covered = refl;
    backed = new_state-IsBacked j (λ (e : j ≡ native_asset_id). cc (native_is_native));
    enabled = h;
  }

  mature_at_tip-Good : (ks : List Block) (l : MatureLedger) → Good l → Good (mature_at_tip c ks l)
  mature_at_tip-Good ks l g =
      elim (last? ks)
        as (λ o. Good (elim o [ none ↦ l | some tip ↦ mature_coinbases tip.height l ])) [
          | none ↦ g
          | some tip ↦ mature_coinbases-IsConsistent b j tip.height l g
        ]

  -- On a network with assets, the ledger that replaying any chain of blocks from genesis returns
  -- has, for every address but the fee pool and every issued asset, its native asset balance equal
  -- to its confirmed balance, its confirmed balance equal to mature plus pending coinbases, and
  -- the asset's balances equal to its recorded supply.
  pub replay_mature_with_profile-IsConsistent :
      (ks : List Block) (params : ConsensusParams) (p : NetworkConfig) (l : MatureLedger)
      → leb tx_version_asset (new_mature_with_profile params p).profile.tx_version ≡ true
      → replay_mature_with_profile c ks params p ≡ ok l
      → IsConsistent b (view b j l)
  unfolding replay_mature_with_profile
  replay_mature_with_profile-IsConsistent ks params p l h r = ground (
    arith,
    mature_at_tip-Good ks (apply_blocks c ks (new_mature_with_profile params p)).1
        (apply_blocks-Good ks (new_mature_with_profile params p) (genesis-Good params p h)),
  )
