-- ===== src/Ledger/Consistent.antt =====
-- The invariant that ties the two books of the native currency, the pending coinbases and the issued
-- assets together, and the version 3 transactions under it
-- (deskachain/node/internal/ledger/asset_execution.go).
use des_ka_project.Prelude.{
  ℕ, ◌+◌, ◌≡◌, ◌≢◌, refl, sym, ◌∙◌, ◌⊎◌, inl, inr, Proc, [], ◌∷◌, List, true, false, ◌&&◌, not, Str,
  ◌=s◌, leb, if◌then◌else◌, ◌>>=◌, Ensures, bind-Ensures, if-Ensures, =s→eq, str_discrete, arith,
  is_ok,
}
use des_ka_project.Config.{native_asset_id}
use des_ka_project.Types.{
  Transaction, tx_version_asset, tx_type, effective_asset_id, effective_fee_payer, tx_type_transfer,
  tx_type_asset_create, tx_type_asset_mint, tx_type_asset_burn,
}
use des_ka_project.Types.Envelope.{validate_asset_envelope}
use des_ka_project.Asset.{is_native}
use des_ka_project.Asset.State
use des_ka_project.Asset.State.{fee_collector_address}
use des_ka_project.Asset.Supply.{
  IsBacked, mint-IsBacked, burn-IsBacked, create_from_transaction_id-IsBacked,
}
use des_ka_project.Asset.Moves.{
  transfer-IsBacked, mint-balance_ne, burn-balance_ne, transfer-balance_ne,
  create_from_transaction_id-balance,
}
use des_ka_project.Ledger.{MatureLedger, CoinbaseCredit, account, native_balance, on_assets}
use des_ka_project.Ledger.Native.{spend_native, receive_native, charge_native_fee}
use des_ka_project.Ledger.Validate.{request_of}
use des_ka_project.Ledger.Apply.{
  charge, execute_native_transfer, execute_asset_transfer, execute_create, execute_mint,
  execute_burn, execute_v3,
}
use des_ka_project.Ledger.Money.{
  View, view, spend_native-view, spend_native_enough, receive_native-view, charge_native_fee-view,
  charge_native_fee_enough,
}

-- The coinbases of an address that have not matured.
abbrev pub pending : Str → List CoinbaseCredit → ℕ
pending b [] = 0
pending b (c ∷ cs) = (if c.address =s b && not c.matured then c.amount else 0) + pending b cs

-- For one address and one issued asset: the asset book holds what the account has confirmed, what is
-- confirmed and not mature is pending, and the asset's balances add up to its recorded supply. The
-- network has assets: without them there is one book only.
pub record IsConsistent (b : Str) (v : View) : Type 0 where
  pub in_sync : v.confirmed ≡ v.native
  pub covered : v.confirmed ≡ v.mature + pending b v.coinbases
  pub backed : v.circulating ≡ v.recorded
  pub enabled : leb tx_version_asset v.profile.tx_version ≡ true

pub native_is_native : is_native native_asset_id ≡ true
unfolding is_native str_discrete
native_is_native = refl

module _ (b j : Str) (hb : b ≢ fee_collector_address) (hj : is_native j ≡ false) where
  issued_ne : j ≢ native_asset_id
  issued_ne e = cc (native_is_native)

  abbrev Good : MatureLedger → Type 0
  Good l = IsConsistent b (view b j l)

  charge-Good :
      (payer : Str) (fee : ℕ) (l : MatureLedger)
      → is_ok (charge_native_fee payer fee l).0 ≡ true
      → Good l
      → Good (charge_native_fee payer fee l).1
  charge-Good payer fee l h g = ground (
    arith,
    charge_native_fee-view payer fee l b j hb issued_ne,
    charge_native_fee_enough payer fee l,
  )

  spend-Good :
      (a : Str) (n : ℕ) (l : MatureLedger)
      → is_ok (spend_native a n l).0 ≡ true
      → Good l
      → Good (spend_native a n l).1
  spend-Good a n l h g =
      ground (arith, spend_native-view a n l b j issued_ne, spend_native_enough a n l)

  receive-Good :
      (a : Str) (n : ℕ) (l : MatureLedger)
      → is_ok (receive_native a n l).0 ≡ true
      → Good l
      → Good (receive_native a n l).1
  receive-Good a n l h g = ground (arith, receive_native-view a n l b j issued_ne)

  -- A change of the assets that leaves the native balances alone and the issued asset backed.
  on_assets-Good :
      {A : Type 0} (m : Proc State.State A) (l : MatureLedger)
      → State.balance b native_asset_id (m l.assets).1 ≡ native_balance b l
      → (IsBacked j l.assets → IsBacked j (m l.assets).1)
      → Good l
      → Good (on_assets m l).1
  unfolding account
  on_assets-Good m l same keeps g = record {
    in_sync = g.in_sync ∙ sym same;
    covered = g.covered;
    backed = keeps g.backed;
    enabled = g.enabled;
  }

  charge-Keeps : (tx : Transaction) (l : MatureLedger) → Good l → Ensures Good (charge tx) l
  charge-Keeps tx l g h = charge-Good (effective_fee_payer tx) tx.fee l h g

  module _ (tx : Transaction) (l : MatureLedger) (g : Good l) where
    execute_native_transfer-Good : Ensures Good (execute_native_transfer tx) l
    unfolding execute_native_transfer
    execute_native_transfer-Good =
        bind-Ensures Good Good _ (spend_native tx.from tx.amount) l
          (λ h. spend-Good tx.from tx.amount l h g)
          (λ _ l' g'.
            bind-Ensures Good Good _ (charge tx) l' (charge-Keeps tx l' g')
              (λ _ l'' g'' h. receive-Good tx.to tx.amount l'' h g''))

    -- A change of the assets, then the fee.
    charged-Good :
        {A : Type 0} (m : Proc State.State A)
        → State.balance b native_asset_id (m l.assets).1 ≡ native_balance b l
        → (is_ok (m l.assets).0 ≡ true → IsBacked j l.assets → IsBacked j (m l.assets).1)
        → Ensures Good (on_assets m >>= λ _. charge tx) l
    charged-Good m same keeps =
        bind-Ensures Good Good (λ _. charge tx) (on_assets m) l
          (λ h. on_assets-Good m l same (keeps h) g) (λ _. charge-Keeps tx)

    execute_create-Good : Ensures Good (execute_create tx) l
    unfolding execute_create
    execute_create-Good =
        charged-Good (State.create_from_transaction_id tx.id (request_of tx) tx.from)
          (create_from_transaction_id-balance b native_asset_id tx.id (request_of tx) tx.from
            l.assets)
          (λ _. create_from_transaction_id-IsBacked j tx.id (request_of tx) tx.from l.assets)

    module _ (ne : native_asset_id ≢ tx.asset_id) where
      execute_asset_transfer-Good : Ensures Good (execute_asset_transfer tx) l
      unfolding execute_asset_transfer
      execute_asset_transfer-Good =
          charged-Good (State.transfer tx.asset_id tx.from tx.to tx.amount)
            (transfer-balance_ne b native_asset_id tx.asset_id tx.amount l.assets ne tx.from tx.to)
            (transfer-IsBacked j tx.asset_id tx.from tx.to tx.amount l.assets)

      execute_mint-Good : Ensures Good (execute_mint tx) l
      unfolding execute_mint
      execute_mint-Good =
          charged-Good (State.mint tx.asset_id tx.from tx.to tx.amount)
            (mint-balance_ne b native_asset_id tx.asset_id tx.amount l.assets ne tx.from tx.to)
            (λ _. mint-IsBacked j tx.asset_id tx.from tx.to tx.amount l.assets)

      execute_burn-Good : Ensures Good (execute_burn tx) l
      unfolding execute_burn
      execute_burn-Good =
          charged-Good (State.burn tx.asset_id tx.from tx.amount)
            (burn-balance_ne b native_asset_id tx.asset_id tx.amount l.assets ne tx.from)
            (λ _. burn-IsBacked j tx.asset_id tx.from tx.amount l.assets)

    -- Where the envelope is valid, minting and burning name an issued asset.
    minted_ne :
        is_ok (validate_asset_envelope tx) ≡ true
        → (tx_type tx ≡ tx_type_asset_mint) ⊎ (tx_type tx ≡ tx_type_asset_burn)
        → native_asset_id ≢ tx.asset_id
    unfolding validate_asset_envelope
    minted_ne env which e = ground (arith, native_is_native)

    transferred_ne : is_native (effective_asset_id tx) ≡ false → native_asset_id ≢ tx.asset_id
    unfolding effective_asset_id
    transferred_ne h e = ground (arith, native_is_native)

    -- A version 3 transaction with a valid envelope keeps the invariant where it succeeds.
    pub execute_v3-Good : is_ok (validate_asset_envelope tx) ≡ true → Ensures Good (execute_v3 tx) l
    unfolding execute_v3
    execute_v3-Good env =
        if-Ensures Good l (tx_type tx =s tx_type_transfer) _ _
          (λ _.
            if-Ensures Good l (is_native (effective_asset_id tx)) _ _
              (λ _. execute_native_transfer-Good)
              (λ e. execute_asset_transfer-Good (transferred_ne e)))
          (λ _.
            if-Ensures Good l (tx_type tx =s tx_type_asset_create) _ _ (λ _. execute_create-Good)
              (λ _.
                if-Ensures Good l (tx_type tx =s tx_type_asset_mint) _ _
                  (λ e. execute_mint-Good (minted_ne env (inl (=s→eq e))))
                  (λ _.
                    if-Ensures Good l (tx_type tx =s tx_type_asset_burn) _ _
                      (λ e. execute_burn-Good (minted_ne env (inr (=s→eq e)))) (λ _ h. cc))))
