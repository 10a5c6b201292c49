-- ===== src/Ledger/Transactions.antt =====
-- The transactions of a block under the ledger's invariant: ApplyTransactionAtHeight and
-- ApplyCoinbaseAtHeight of deskachain/node/internal/ledger/maturity.go.
use des_ka_project.Prelude.{
  ℕ, ◌+◌, ◌-◌, ◌≡◌, ◌≢◌, refl, sym, subst, modify, =s→eq, [], ◌∷◌, ◌++◌, List, true, false, Str,
  ◌=s◌, ◌==◌, if◌then◌else◌, arith, Result, ok, err, is_ok, ⊤, Proc, Ensures, bind-Ensures,
  if-Ensures,
}
use des_ka_project.Prelude.Dict.{get, insert, get-insert}
use des_ka_project.Arith.{add, sub}
use des_ka_project.Config.{native_asset_id}
use des_ka_project.Types.{
  Transaction, tx_type, tx_type_transfer, tx_type_stake_lock, tx_type_stake_unlock,
  protocol_version, tx_version_asset,
}
use des_ka_project.Types.Crypto.{Crypto}
use des_ka_project.Types.Envelope.{validate_asset_envelope}
use des_ka_project.Asset.{is_native}
use des_ka_project.Asset.State
use des_ka_project.Staking
use des_ka_project.Asset.State.{fee_collector_address}
use des_ka_project.Asset.Moves.{
  credit-balance, debit-balance, credit-circulating, debit-circulating, recorded_supply-credit,
  recorded_supply-debit,
}
use des_ka_project.Ledger.{
  MatureLedger, MatureAccount, CoinbaseCredit, zero_account, account, set_account, on_stakes,
  asset_model_enabled, with_rollback,
}
use des_ka_project.Ledger.Validate.{
  validate_transaction, validate_legacy_transaction, check_legacy_form,
}
use des_ka_project.Ledger.Apply.{
  execute_v3, apply_asset_transaction_v3, apply_legacy_transfer, apply_legacy_transaction,
  apply_transaction_at_height, apply_coinbase_at_height, set_nonce,
}
use des_ka_project.Ledger.Money.{view}
use des_ka_project.Ledger.Consistent.{pending, IsConsistent, execute_v3-Good, native_is_native}
use des_ka_project.Ledger.Unchanged.{validate_transaction-view, validate_transaction_envelope}

module _ (b j : Str) (hb : b ≢ fee_collector_address) (hj : is_native j ≡ false) where
  ne : j ≢ native_asset_id
  ne e = cc (native_is_native)

  abbrev Good : MatureLedger → Type 0
  Good l = IsConsistent b (view b j l)

  -- The sender is not the recipient.
  apply_legacy_transfer-Good :
      (tx : Transaction) (l : MatureLedger)
      → tx.from ≢ tx.to
      → Good l
      → Ensures Good (apply_legacy_transfer tx) l
  unfolding apply_legacy_transfer account set_account add sub asset_model_enabled
  apply_legacy_transfer-Good tx l hne g h =
      let cost = tx.amount + tx.fee in
      let from = get zero_account tx.from l.accounts in
      let to = get zero_account tx.to l.accounts in
      let from' : MatureAccount = record {
        confirmed = from.confirmed - cost;
        mature = from.mature - cost;
        nonce = tx.nonce;
      } in
      let to' : MatureAccount = record {
        confirmed = to.confirmed + tx.amount;
        mature = to.mature + tx.amount;
        nonce = to.nonce;
      } in
      let s₁ = (State.debit tx.from native_asset_id cost l.assets).1 in
      ground (
        arith,
        get-insert zero_account tx.from b from' l.accounts,
        get-insert zero_account tx.to b to' (insert tx.from from' l.accounts),
        debit-balance tx.from native_asset_id cost l.assets b native_asset_id,
        debit-circulating tx.from native_asset_id cost l.assets j ne,
        recorded_supply-debit j tx.from native_asset_id cost l.assets,
        credit-balance tx.to native_asset_id tx.amount s₁ b native_asset_id,
        credit-circulating tx.to native_asset_id tx.amount s₁ j ne,
        recorded_supply-credit j tx.to native_asset_id tx.amount s₁,
      )

  set_nonce-Good : (tx : Transaction) (l : MatureLedger) → Good l → Good (set_nonce tx l)
  unfolding account set_account
  set_nonce-Good tx l g =
      let a = get zero_account tx.from l.accounts in
      ground (arith, get-insert zero_account tx.from b (record a { nonce = tx.nonce }) l.accounts)

  on_stakes-Good :
      {A : Type 0} (m : Proc Staking.State A) (l : MatureLedger) → Good l → Good (on_stakes m l).1
  unfolding account
  on_stakes-Good m l g = g

  apply_legacy_transaction-Good :
      (tx : Transaction) (height : ℕ) (l : MatureLedger)
      → (tx_type tx ≡ tx_type_transfer → tx.from ≢ tx.to)
      → Good l
      → Ensures Good (apply_legacy_transaction tx height) l
  unfolding apply_legacy_transaction
  apply_legacy_transaction-Good tx height l hne g =
      if-Ensures Good l (tx_type tx =s tx_type_transfer) _ _
        (λ e. apply_legacy_transfer-Good tx l (hne (=s→eq e)) g)
        (λ _.
          if-Ensures Good l (tx_type tx =s tx_type_stake_lock) _ _
            (λ _.
              bind-Ensures Good Good (λ _. modify (set_nonce tx))
                (on_stakes (Staking.apply_lock tx height)) l
                (λ _. on_stakes-Good (Staking.apply_lock tx height) l g)
                (λ _ l' g' _. set_nonce-Good tx l' g'))
            (λ _.
              if-Ensures Good l (tx_type tx =s tx_type_stake_unlock) _ _
                (λ _.
                  bind-Ensures Good Good (λ _. modify (set_nonce tx))
                    (on_stakes (Staking.apply_unlock tx height)) l
                    (λ _. on_stakes-Good (Staking.apply_unlock tx height) l g)
                    (λ _ l' g' _. set_nonce-Good tx l' g'))
                (λ _ h. cc)))

  undone :
      (r : Result ⊤) (l backup : MatureLedger)
      → (is_ok r ≡ true → Good l)
      → Good backup
      → Good
          (elim r as (λ _. Result ⊤ × MatureLedger) [
            | ok _ ↦ (ok tt, l)
            | err e ↦ (err e, backup)
          ]).1
  undone (ok _) l backup f g = f refl
  undone (err e) l backup f g = g

  -- With a rollback the invariant is kept on every branch.
  pub with_rollback-Good :
      (body : Proc MatureLedger ⊤) (l : MatureLedger)
      → ((l' : MatureLedger) → Good l' → Ensures Good body l')
      → Good l
      → Good (with_rollback body l).1
  unfolding with_rollback account
  with_rollback-Good body l keeps g =
      let due = Staking.refresh_released l.current_height l.stakes in
      let l' = record l { stakes = due } in undone (body l').0 (body l').1 _ (keeps l' g) g

  apply_asset_transaction_v3-Good :
      (tx : Transaction) (l : MatureLedger)
      → is_ok (validate_asset_envelope tx) ≡ true
      → Good l
      → Ensures Good (apply_asset_transaction_v3 tx) l
  unfolding apply_asset_transaction_v3
  apply_asset_transaction_v3-Good tx l env g =
      bind-Ensures Good Good (λ _. modify (set_nonce tx)) (with_rollback (execute_v3 tx)) l
        (λ _.
          with_rollback-Good (execute_v3 tx) l (λ l' g'. execute_v3-Good b j hb hj tx l' g' env) g)
        (λ _ l' g' _. set_nonce-Good tx l' g')

  module _ (c : Crypto) where
    legacy_ne :
        (tx : Transaction) (l : MatureLedger)
        → (protocol_version tx == tx_version_asset) ≡ false
        → tx.coinbase ≡ false
        → is_ok (validate_transaction c tx l).0 ≡ true
        → tx_type tx ≡ tx_type_transfer
        → tx.from ≢ tx.to
    unfolding validate_transaction validate_legacy_transaction check_legacy_form
    legacy_ne tx l v n h e same = ground arith

    pub apply_transaction_at_height-Good :
        (tx : Transaction) (height : ℕ) (l : MatureLedger)
        → tx.coinbase ≡ false
        → Good l
        → Ensures Good (apply_transaction_at_height c tx height) l
    unfolding apply_transaction_at_height
    apply_transaction_at_height-Good tx height l n g =
        bind-Ensures (λ l'. Good l' × (is_ok (validate_transaction c tx l).0 ≡ true)) Good
          (λ _.
            if protocol_version tx == tx_version_asset
            then apply_asset_transaction_v3 tx
            else apply_legacy_transaction tx height)
          (validate_transaction c tx) l
          (λ h. (subst (IsConsistent b) (sym (validate_transaction-view b j tx l c)) g, h))
          (λ _ l' (g', h).
            if-Ensures Good l' (protocol_version tx == tx_version_asset)
              (apply_asset_transaction_v3 tx) (apply_legacy_transaction tx height)
              (λ v.
                apply_asset_transaction_v3-Good tx l'
                  (validate_transaction_envelope b j tx l c v n h) g')
              (λ v. apply_legacy_transaction-Good tx height l' (legacy_ne tx l v n h) g'))

    pending-append :
        (cs : List CoinbaseCredit) (x : CoinbaseCredit)
        → pending b (cs ++ x ∷ []) ≡ pending b cs + pending b (x ∷ [])
    pending-append [] x = ground arith
    pending-append (y ∷ cs) x = ground (arith, pending-append cs x)

    pub apply_coinbase_at_height-Good :
        (tx : Transaction) (height : ℕ) (l : MatureLedger)
        → Good l
        → Ensures Good (apply_coinbase_at_height c tx height) l
    unfolding apply_coinbase_at_height account set_account add asset_model_enabled
    apply_coinbase_at_height-Good tx height l g h =
        let a = get zero_account tx.to l.accounts in
        let x : CoinbaseCredit = record {
          address = tx.to;
          amount = tx.amount;
          height = height;
          matured = false;
        } in
        ground (
          arith,
          get-insert zero_account tx.to b (record a { confirmed = a.confirmed + tx.amount })
              l.accounts,
          credit-balance tx.to native_asset_id tx.amount l.assets b native_asset_id,
          credit-circulating tx.to native_asset_id tx.amount l.assets j ne,
          recorded_supply-credit j tx.to native_asset_id tx.amount l.assets,
          pending-append l.coinbases x,
        )
