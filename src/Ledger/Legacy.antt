-- ===== src/Ledger/Legacy.antt =====
-- The ledger without maturity: deskachain/node/internal/ledger/ledger.go. Its checks use the local
-- network.
pub mod Balance
use des_ka_project.Prelude.{
  ℕ, ◌+◌, Bool, not, ◌&&◌, List, [], ◌∷◌, Str, ◌=s◌, is_empty, ltb, ◌==◌, if◌then◌else◌, msg,
  Result, ok, err, ⊤, Proc, pure, gets, lift, ◌>>=◌, ◌>>◌, fail_if, modify, wrap_err, map_err,
}
use des_ka_project.Prelude.Dict.{Dict, get, insert}
use des_ka_project.Arith.{add, sub}
use des_ka_project.Config.{localnet}
use des_ka_project.Types.{
  Transaction, protocol_version, tx_type, tx_type_transfer, tx_type_stake_lock,
  validate_transaction_version,
}
use des_ka_project.Types.Crypto.{Crypto}
use des_ka_project.Types.Envelope.{calculate_id_for_chain_id, signing_bytes_with_chain_id}
use des_ka_project.Types.Block.{Block}

pub record Account : Type 0 where
  pub balance : ℕ
  pub nonce : ℕ

-- The accounts of the ledger.
abbrev pub Accounts : Type 0
Accounts = Dict Account

abbrev pub no_account : Account
no_account = record { balance = 0; nonce = 0 }

abbrev pub is_transfer : Transaction → Bool
is_transfer tx = tx_type tx =s tx_type_transfer

abbrev pub is_stake_lock : Transaction → Bool
is_stake_lock tx = tx_type tx =s tx_type_stake_lock

abbrev pub count_coinbase : ℕ → Transaction → ℕ
count_coinbase n tx = if tx.coinbase then n + 1 else n

module _ (c : Crypto) where
  -- `crypto.AddressFromPublicKey`: empty on an error.
  abbrev own_address : Str → Str
  own_address public_key = elim (c.address_from_public_key public_key localnet) [
    | ok addr ↦ addr
    | err _ ↦ []
  ]

  -- The checks that read no account.
  unfoldable pub legacy_check_form : Transaction → Proc Accounts ⊤
  legacy_check_form tx = do
    fail_if (is_transfer tx && tx.amount == 0) (msg "amount must be greater than zero")
    fail_if (is_stake_lock tx && tx.amount == 0) (msg "amount must be greater than zero")
    fail_if (is_transfer tx && tx.from =s tx.to) (msg "sender and recipient must differ")
    lift (wrap_err "invalid sender address" (c.validate_address tx.from localnet))
    lift (
        if is_transfer tx
        then wrap_err "invalid recipient address" (c.validate_address tx.to localnet)
        else ok tt)
    fail_if (is_stake_lock tx && not (is_empty tx.to) && not (tx.to =s tx.from))
        (msg "invalid stake lock: recipient must match owner")
    fail_if (not (own_address tx.public_key =s tx.from))
        (msg "public key does not match sender address")
    expected_id ← lift (calculate_id_for_chain_id c localnet.chain_id tx)
    fail_if (not (tx.id =s expected_id)) (msg "transaction id mismatch")
    fail_if (is_stake_lock tx && not (is_empty tx.stake_id) && not (tx.stake_id =s tx.id))
        (msg "invalid stake lock: stake id mismatch")
    bytes ← lift (signing_bytes_with_chain_id c localnet.chain_id tx)
    fail_if (not (c.verify_hex tx.public_key tx.signature bytes))
        (msg "invalid transaction signature")

  -- The checks of the sender's nonce and balance.
  unfoldable pub legacy_check_account : Transaction → Proc Accounts ⊤
  legacy_check_account tx = do
    account ← gets (get no_account tx.from)
    expected_nonce ← lift (map_err (msg "account nonce overflow") (add account.nonce 1))
    fail_if (not (tx.nonce == expected_nonce)) (msg "invalid account nonce")
    (if is_transfer tx
        then (do
          cost ← lift (wrap_err "transaction cost overflow" (add tx.amount tx.fee))
          fail_if (ltb account.balance cost) (msg "insufficient balance"))
        else pure tt)
    fail_if (is_stake_lock tx && ltb account.balance tx.amount) (msg "insufficient balance")

  unfoldable pub legacy_validate_transaction : Transaction → Proc Accounts ⊤
  legacy_validate_transaction tx = do
    lift (validate_transaction_version (protocol_version tx) localnet.tx_version)
    (if tx.coinbase then pure tt else (do legacy_check_form tx; legacy_check_account tx))

  -- Moving the money, and counting the nonce.
  unfoldable pub move_money : Transaction → Proc Accounts ⊤
  move_money tx = do
    from ← gets (get no_account tx.from)
    (if is_transfer tx
        then (do
          to ← gets (get no_account tx.to)
          cost ← lift (wrap_err "transaction cost overflow" (add tx.amount tx.fee))
          balance ← lift (map_err (msg "insufficient balance") (sub from.balance cost))
          to_balance ← lift (wrap_err "recipient balance overflow" (add to.balance tx.amount))
          modify (insert tx.from (record { balance = balance; nonce = tx.nonce }))
          modify (insert tx.to (record to { balance = to_balance })))
        else modify (insert tx.from (record from { nonce = tx.nonce })))

  unfoldable pub legacy_apply_transaction : Transaction → Proc Accounts ⊤
  legacy_apply_transaction tx = do legacy_validate_transaction tx; move_money tx

  unfoldable pub legacy_apply_coinbase : Transaction → Proc Accounts ⊤
  legacy_apply_coinbase tx = do
    fail_if (not tx.coinbase) (msg "transaction is not coinbase")
    lift (wrap_err "invalid coinbase recipient" (c.validate_address tx.to localnet))
    account ← gets (get no_account tx.to)
    balance ← lift (wrap_err "coinbase balance overflow" (add account.balance tx.amount))
    modify (insert tx.to (record account { balance = balance }))

  -- One transaction of a block, with the number of coinbases up to it.
  abbrev pub apply_entry : ℕ → Transaction → Proc Accounts ⊤
  apply_entry coinbases tx =
      if tx.coinbase
      then (do
        fail_if (ltb 1 coinbases) (msg "multiple coinbase transactions")
        legacy_apply_coinbase tx)
      else legacy_apply_transaction tx

  unfoldable pub apply_entries : ℕ → List Transaction → Proc Accounts ⊤
  apply_entries n [] = pure tt
  apply_entries n (tx ∷ txs) = do
    apply_entry (count_coinbase n tx) tx
    apply_entries (count_coinbase n tx) txs

  -- `ApplyBlock` and `Replay` of the ledger without maturity
  unfoldable pub apply_legacy_block : Block → Proc Accounts ⊤
  apply_legacy_block b = apply_entries 0 b.transactions

  unfoldable pub replay_from : List Block → Proc Accounts ⊤
  replay_from [] = pure tt
  replay_from (b ∷ bs) = do apply_legacy_block b; replay_from bs

  unfoldable pub legacy_replay : List Block → Result Accounts
  legacy_replay bs =
      let (r, accounts) = replay_from bs [] in elim r [ ok _ ↦ ok accounts | err e ↦ err e ]
