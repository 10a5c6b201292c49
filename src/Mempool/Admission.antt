-- ===== src/Mempool/Admission.antt =====
-- Admission to the pool and the choice by fee: deskachain/node/internal/mempool/admission.go. The
-- state is the list that the pool's file decodes to.
pub mod Accepted
use des_ka_project.Prelude.{
  ℕ, ◌+◌, ◌-◌, ◌*◌, Bool, true, not, ◌&&◌, List, [], ◌∷◌, Str, ◌=s◌, is_empty, ltb, leb, ◌==◌, map,
  if◌then◌else◌, Error, msg, Result, ok, err, ⊤, Proc, check, length,
}
use des_ka_project.Prelude.Results.{◌>>=◌, ◌>>◌}
use des_ka_project.Prelude.Sorting.{str_ltb, sort}
use des_ka_project.Arith.{max_u64}
use des_ka_project.Config.{NetworkConfig}
use des_ka_project.Types.{
  Transaction, protocol_version, tx_version_asset, validate_transaction_version,
}
use des_ka_project.Types.Envelope.{validate_asset_envelope, validate_fee_payer_authorization}
use des_ka_project.Types.Crypto.{Crypto}
use des_ka_project.Fees.{gas_used, validate}
use des_ka_project.Mempool.{Candidate, unique_transactions, add, err_duplicate_tx, fill}

pub record AdmissionPolicy : Type 0 where
  pub profile : NetworkConfig
  pub max_txs : ℕ
  pub max_gas : ℕ

-- The gas of a transaction, without its size.
unfoldable pub gas_of : NetworkConfig → Transaction → Result ℕ
gas_of p tx = do (gas, size) ← gas_used tx p; ok gas

-- The scan of the pool for the id and the nonce, in its order.
unfoldable pub check_clash : Transaction → List Transaction → Result ⊤
check_clash tx [] = ok tt
check_clash tx (existing ∷ txs) =
    check (existing.id =s tx.id) err_duplicate_tx
    >> (check (existing.from =s tx.from && existing.nonce == tx.nonce)
          (msg "transaction nonce already pending")
        >> check_clash tx txs)

unfoldable pub total_gas_of : NetworkConfig → ℕ → List Transaction → Result ℕ
total_gas_of p total [] = ok total
total_gas_of p total (existing ∷ txs) = do
  gas ← gas_of p existing
  check (ltb (max_u64 - total) gas) (msg "mempool gas total overflow")
  total_gas_of p (total + gas) txs

unfoldable pub check_capacity : AdmissionPolicy → Transaction → List Transaction → Result ⊤
check_capacity policy tx txs = do
  check_clash tx txs
  check (ltb 0 policy.max_txs && leb policy.max_txs (length txs))
      (msg "mempool transaction limit reached")
  gas ← gas_of policy.profile tx
  total ← total_gas_of policy.profile 0 txs
  check (ltb (max_u64 - total) gas) (msg "mempool gas total overflow")
  check (ltb 0 policy.max_gas && ltb policy.max_gas (total + gas))
      (msg "mempool gas limit exceeded")

-- Higher fee for the gas first, then the higher fee, the lower gas, and the smaller id.
unfoldable pub higher_priority : Candidate → Candidate → Bool
higher_priority a b =
    let left = a.tx.fee * b.gas in
    let right = b.tx.fee * a.gas in
    if not (left == right)
    then ltb right left
    else if not (a.tx.fee == b.tx.fee)
    then ltb b.tx.fee a.tx.fee
    else if not (a.gas == b.gas)
    then ltb a.gas b.gas
    else str_ltb a.tx.id b.tx.id

module _ (c : Crypto) where
  -- The checks of an asset transaction that need no state.
  unfoldable pub check_asset_form : NetworkConfig → Transaction → Result ⊤
  check_asset_form p tx =
      if protocol_version tx == tx_version_asset
      then (do validate_asset_envelope tx; validate_fee_payer_authorization c p tx)
      else ok tt

  unfoldable pub validate_for_revalidation : Transaction → AdmissionPolicy → Result ⊤
  validate_for_revalidation tx policy = do
    check tx.coinbase (msg "coinbase transactions are not accepted by the mempool")
    validate_transaction_version (protocol_version tx) policy.profile.tx_version
    check (is_empty tx.id) (msg "transaction id is required")
    check (is_empty tx.from) (msg "transaction sender is required")
    validate tx policy.profile
    check_asset_form policy.profile tx
    (gas, size) ← gas_used tx policy.profile
    ok tt

  -- `Admit`: a refused transaction leaves the pool as it is.
  unfoldable pub admit : Transaction → AdmissionPolicy → Proc (List Transaction) ⊤
  admit tx policy s = elim (validate_for_revalidation tx policy) [
    | err e ↦ (err e, s)
    | ok _ ↦ elim (check_capacity policy tx (unique_transactions s)) [
      | err e ↦ (err e, s)
      | ok _ ↦ add tx s
    ]
  ]

  unfoldable pub candidates : NetworkConfig → List Transaction → Result (List Candidate)
  candidates p [] = ok []
  candidates p (tx ∷ txs) =
      let rest = candidates p txs in
      if tx.coinbase then rest else (do
        validate_for_revalidation tx (record { profile = p; max_txs = 0; max_gas = 0 })
        gas ← gas_of p tx
        others ← rest
        ok (record { tx = tx; gas = gas } ∷ others))

  unfoldable pub select : List Transaction → NetworkConfig → ℕ → Result (List Transaction)
  select txs p max_gas = do
    found ← candidates p txs
    ok (map (λ (x : Candidate). x.tx) (fill max_gas 0 (sort higher_priority found)))
