-- ===== src/Chain/Validation/Payments.antt =====
-- What the first loop over a block's transactions establishes.
use des_ka_project.Prelude.{
  ℕ, ◌+◌, ◌≡◌, refl, ap, sym, ◌∙◌, Bool, true, false, ◌&&◌, ◌||◌, List, [], ◌∷◌, All, ◌=s◌, leb,
  ◌==◌, if◌then◌else◌, arith, msg, ok, map_err, Bool-cases, inl, inr, ◌⊎◌,
}
use des_ka_project.Prelude.Results.{
  ◌>>=◌, check-ok, check-not-ok, check-equal-ok, check-same-ok, then-ok, bind-ok, wrap_err-ok,
  map_err-ok,
}
use des_ka_project.Arith.{add}
use des_ka_project.Config.{NetworkConfig}
use des_ka_project.Fees
use des_ka_project.Types.{
  Transaction, protocol_version, tx_type, tx_version_asset, tx_type_transfer, tx_type_stake_lock,
  validate_transaction_version, coinbase_sender,
}
use des_ka_project.Types.Envelope.{calculate_id_for_chain_id}
use des_ka_project.Types.Crypto.{Crypto}
use des_ka_project.Chain.Validation.{
  check_coinbase, check_payment, check_transaction, check_transactions,
}

-- The fees that count towards a legacy reward.
abbrev pub counted_fee : NetworkConfig → Transaction → ℕ
counted_fee p tx =
    if tx.coinbase
    then 0
    else if leb tx_version_asset p.tx_version || tx_type tx =s tx_type_transfer
    then tx.fee
    else 0

abbrev pub fees_of : NetworkConfig → List Transaction → ℕ
fees_of p [] = 0
fees_of p (tx ∷ txs) = counted_fee p tx + fees_of p txs

-- A payment that the rules of the chain allow.
pub record IsPayment (p : NetworkConfig) (tx : Transaction) : Type 0 where
  pub not_coinbase : tx.coinbase ≡ false
  pub version : validate_transaction_version (protocol_version tx) p.tx_version ≡ ok tt
  pub transfers : tx_type tx =s tx_type_transfer && tx.amount == 0 ≡ false
  pub locks : tx_type tx =s tx_type_stake_lock && tx.amount == 0 ≡ false
  pub parties : tx_type tx =s tx_type_transfer && tx.from =s tx.to ≡ false
  pub fee : Fees.validate tx p ≡ ok tt

module _ (c : Crypto) (p : NetworkConfig) where
  add-ok : (a b n : ℕ) → add a b ≡ ok n → n ≡ a + b
  unfolding add
  add-ok a b n h = ground arith

  count_fee-ok :
      (counts : Bool) (fee n f n' f' : ℕ)
      → (if counts
          then ◌>>=◌ {B = ℕ × ℕ}
              (map_err (msg "transaction fees overflow") (add f fee))
              (λ total. ok (n, total))
          else ok (n, f))
        ≡ ok (n', f')
      → (n' ≡ n) × (f' ≡ f + (if counts then fee else 0))
  count_fee-ok true fee n f n' f' h =
      let (total, e, k) = bind-ok h in
      let sum = add-ok f fee total (map_err-ok (msg "transaction fees overflow") (add f fee) e) in
      ground arith
  count_fee-ok false fee n f n' f' h = ground arith

  check_payment-ok :
      (tx : Transaction) (n f n' f' : ℕ)
      → tx.coinbase ≡ false
      → validate_transaction_version (protocol_version tx) p.tx_version ≡ ok tt
      → check_payment c p tx (n, f) ≡ ok (n', f')
      → IsPayment p tx × (n' ≡ n) × (f' ≡ f + counted_fee p tx)
  unfolding check_payment
  check_payment-ok tx n f n' f' not_coinbase version h =
      let (a, h₁) = then-ok h in
      let (b, h₂) = then-ok h₁ in
      let (d, h₃) = then-ok h₂ in
      let (e, h₄) = then-ok h₃ in
      let counts = leb tx_version_asset p.tx_version || tx_type tx =s tx_type_transfer in
      let (same, fees) = count_fee-ok counts tx.fee n f n' f' h₄ in
      (
        record {
          not_coinbase = not_coinbase;
          version = version;
          transfers =
              check-ok (tx_type tx =s tx_type_transfer && tx.amount == 0)
                (msg "tx amount must be greater than zero") a;
          locks =
              check-ok (tx_type tx =s tx_type_stake_lock && tx.amount == 0)
                (msg "tx amount must be greater than zero") b;
          parties =
              check-ok (tx_type tx =s tx_type_transfer && tx.from =s tx.to)
                (msg "tx sender and recipient must differ") d;
          fee = wrap_err-ok "tx" (Fees.validate tx p) e;
        },
        same,
        simp not_coinbase fees,
      )

  -- What a coinbase must be.
  pub record IsCoinbase (tx : Transaction) : Type 0 where
    pub coinbase : tx.coinbase ≡ true
    pub version : validate_transaction_version (protocol_version tx) p.tx_version ≡ ok tt
    pub from : tx.from =s coinbase_sender ≡ true
    pub id : calculate_id_for_chain_id c p.chain_id tx ≡ ok tx.id

  check_coinbase-ok :
      (i : ℕ) (tx : Transaction) (n f n' f' : ℕ)
      → tx.coinbase ≡ true
      → validate_transaction_version (protocol_version tx) p.tx_version ≡ ok tt
      → check_coinbase c p i tx (n, f) ≡ ok (n', f')
      → IsCoinbase tx × (i ≡ 0) × (n' ≡ n + 1) × (f' ≡ f)
  unfolding check_coinbase
  check_coinbase-ok i tx n f n' f' is_coinbase version h =
      let (a, h₁) = then-ok h in
      let (b, h₂) = then-ok h₁ in
      let (id, e, h₃) = bind-ok {r = calculate_id_for_chain_id c p.chain_id tx} h₂ in
      let (d, h₄) = then-ok h₃ in
      let first = check-equal-ok i 0 (msg "coinbase must be first transaction") a in
      let sender =
        check-not-ok (tx.from =s coinbase_sender) (msg "coinbase sender must be COINBASE") b in
      let same = check-same-ok tx.id id (msg "coinbase transaction id mismatch") d in
      (
        record {
          coinbase = is_coinbase;
          version = version;
          from = sender;
          id = e ∙ ap ok (sym same);
        },
        first,
        ground arith,
        ground arith,
      )

  -- One round of the loop: a coinbase, the first transaction of the block, or a payment.
  abbrev FirstCoinbase : ℕ → Transaction → ℕ × ℕ → ℕ × ℕ → Type 0
  FirstCoinbase i tx (n, f) (n', f') = IsCoinbase tx × (i ≡ 0) × (n' ≡ n + 1) × (f' ≡ f)

  abbrev Payment : Transaction → ℕ × ℕ → ℕ × ℕ → Type 0
  Payment tx (n, f) (n', f') = IsPayment p tx × (n' ≡ n) × (f' ≡ f + counted_fee p tx)

  check_transaction-ok :
      (i : ℕ) (tx : Transaction) (t t' : ℕ × ℕ)
      → check_transaction c p i tx t ≡ ok t'
      → FirstCoinbase i tx t t' ⊎ Payment tx t t'
  unfolding check_transaction
  check_transaction-ok i tx (n, f) (n', f') h =
      let (a, k) = then-ok h in
      let version =
        wrap_err-ok "tx" (validate_transaction_version (protocol_version tx) p.tx_version) a in
      elim (Bool-cases tx.coinbase) [
        | inl yes_coinbase ↦
            inl (check_coinbase-ok i tx n f n' f' yes_coinbase version (ground arith))
        | inr no_coinbase ↦ inr (check_payment-ok tx n f n' f' no_coinbase version (ground arith))
      ]

  -- Behind the first transaction there are payments only.
  check_transactions-payments :
      (i : ℕ) (txs : List Transaction) (t t' : ℕ × ℕ)
      → check_transactions c p (i + 1) txs t ≡ ok t'
      → All (IsPayment p) txs × (t'.0 ≡ t.0) × (t'.1 ≡ t.1 + fees_of p txs)
  unfolding check_transactions
  check_transactions-payments i [] t t' h = ground arith
  check_transactions-payments i (tx ∷ txs) t t' h =
      let (t₁, e, k) = bind-ok {r = check_transaction c p (i + 1) tx t} h in
      let (payments, same, fees) = check_transactions-payments (i + 1) txs t₁ t' k in
      elim (check_transaction-ok (i + 1) tx t t₁ e) [
        | inl (_, zero_index, _, _) ↦ let absurd : ⊥ = omega (arith, zero_index) in elim absurd [ ]
        | inr (payment, count, fee) ↦
            ((payment, payments), omega (arith, same, count), omega (arith, fees, fee))
      ]

  -- The transactions of a block with one coinbase: it comes first, and payments follow.
  pub record IsPaid (txs : List Transaction) (fees : ℕ) : Type 0 where
    pub first : Transaction
    pub others : List Transaction
    pub first_others : txs ≡ first ∷ others
    pub is_coinbase : IsCoinbase first
    pub payments : All (IsPayment p) others
    pub all_fees : fees ≡ fees_of p others

  pub check_transactions-ok :
      (txs : List Transaction) (n f : ℕ)
      → check_transactions c p 0 txs (0, 0) ≡ ok (n, f)
      → n ≡ 1
      → IsPaid txs f
  unfolding check_transactions
  check_transactions-ok [] n f h one = ground arith
  check_transactions-ok (tx ∷ txs) n f h one =
      let (t₁, e, k) = bind-ok {r = check_transaction c p 0 tx (0, 0)} h in
      let (payments, same, fees) = check_transactions-payments 0 txs t₁ (n, f) k in
      elim (check_transaction-ok 0 tx (0, 0) t₁ e) [
        | inl (coinbase, _, count, fee) ↦ record {
          first = tx;
          others = txs;
          first_others = refl;
          is_coinbase = coinbase;
          payments = payments;
          all_fees = omega (arith, fees, fee);
        }
        | inr (payment, count, fee) ↦ let absurd : ⊥ = omega (arith, same, count) in elim absurd [ ]
      ]
