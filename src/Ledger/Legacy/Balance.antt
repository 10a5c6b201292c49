-- ===== src/Ledger/Legacy/Balance.antt =====
-- The ledger without maturity (deskachain/node/internal/ledger/ledger.go) neither makes nor loses
-- money but by coinbases and fees.
use des_ka_project.Prelude.{
  ℕ, ◌+◌, ◌-◌, ◌≡◌, refl, ap, ◌∙◌, Bool, true, false, List, [], ◌∷◌, Str, ◌=s◌, if◌then◌else◌,
  arith, ok, is_ok,
}
use des_ka_project.Prelude.Dict.{get, insert, sum, get-insert, sum-insert}
use des_ka_project.Arith.{add, sub}
use des_ka_project.Types.{Transaction}
use des_ka_project.Types.Crypto.{Crypto}
use des_ka_project.Types.Block.{Block}
use des_ka_project.Ledger.Legacy.{
  Account, Accounts, no_account, is_transfer, legacy_check_form, legacy_check_account,
  legacy_validate_transaction, move_money, legacy_apply_transaction, legacy_apply_coinbase,
  apply_entry, count_coinbase, apply_entries, apply_legacy_block, replay_from, legacy_replay,
}

abbrev pub total : Accounts → ℕ
total = sum (λ a. a.balance)

abbrev pub paid_fee : Transaction → ℕ
paid_fee tx = if is_transfer tx then tx.fee else 0

-- Replacing the entry of one key.
total-insert :
    (k : Str) (a : Account) (l : Accounts)
    → total (insert k a l) + (get no_account k l).balance ≡ total l + a.balance
total-insert k a l = sum-insert (λ (x : Account). x.balance) no_account k a l refl

-- Paying from one key to another one.
total-pay :
    (k j : Str) (amount fee b b' nonce : ℕ) (l : Accounts)
    → j =s k ≡ false
    → (get no_account k l).balance ≡ b + amount + fee
    → b' ≡ (get no_account j l).balance + amount
    → total (
          insert j
            (record (get no_account j l) { balance = b' })
            (insert k (record { balance = b; nonce = nonce }) l))
        + fee
      ≡ total l
total-pay k j amount fee b b' nonce l apart enough sum_of =
    let l' = insert k (record { balance = b; nonce = nonce }) l in
    let same : get no_account j l' ≡ get no_account j l =
      get-insert no_account k j (record { balance = b; nonce = nonce }) l
      ∙ ap (λ (t : Bool). if t then record { balance = b; nonce = nonce } else get no_account j l)
          apart in
    let same_balance = ap (λ (a : Account). a.balance) same in
    omega (
      arith,
      total-insert k (record { balance = b; nonce = nonce }) l,
      total-insert j (record (get no_account j l) { balance = b' }) l',
      same_balance,
      enough,
      sum_of,
    )

swap_apart : (s t : Str) → s =s t ≡ false → t =s s ≡ false
swap_apart s t h = ground arith

module _ (c : Crypto) where
  move_money-total :
      (tx : Transaction) (l : Accounts)
      → (is_transfer tx ≡ true → tx.to =s tx.from ≡ false)
      → is_ok (move_money c tx l).0 ≡ true
      → total (move_money c tx l).1 + paid_fee tx ≡ total l
  unfolding move_money add sub
  move_money-total tx l apart h = ground (
    arith,
    total-pay tx.from tx.to tx.amount tx.fee
        ((get no_account tx.from l).balance - (tx.amount + tx.fee))
        ((get no_account tx.to l).balance + tx.amount) tx.nonce l,
    total-insert tx.from (record (get no_account tx.from l) { nonce = tx.nonce }) l,
  )

  legacy_check_form-state : (tx : Transaction) (l : Accounts) → (legacy_check_form c tx l).1 ≡ l
  unfolding legacy_check_form
  legacy_check_form-state tx l = ground arith

  legacy_check_account-state :
      (tx : Transaction) (l : Accounts) → (legacy_check_account c tx l).1 ≡ l
  unfolding legacy_check_account
  legacy_check_account-state tx l = ground arith

  legacy_check_form-apart :
      (tx : Transaction) (l : Accounts)
      → is_ok (legacy_check_form c tx l).0 ≡ true
      → is_transfer tx ≡ true
      → tx.from =s tx.to ≡ false
  unfolding legacy_check_form
  legacy_check_form-apart tx l h k = ground arith

  legacy_validate_transaction-state :
      (tx : Transaction) (l : Accounts) → (legacy_validate_transaction c tx l).1 ≡ l
  unfolding legacy_validate_transaction
  legacy_validate_transaction-state tx l = ground (
    arith,
    legacy_check_form-state tx l,
    legacy_check_account-state tx (legacy_check_form c tx l).1,
  )

  legacy_validate_transaction-apart :
      (tx : Transaction) (l : Accounts)
      → tx.coinbase ≡ false
      → is_ok (legacy_validate_transaction c tx l).0 ≡ true
      → is_transfer tx ≡ true
      → tx.to =s tx.from ≡ false
  unfolding legacy_validate_transaction
  legacy_validate_transaction-apart tx l n h k =
      ground (arith, legacy_check_form-apart tx l, swap_apart tx.from tx.to)

  legacy_apply_transaction-total :
      (tx : Transaction) (l : Accounts)
      → tx.coinbase ≡ false
      → is_ok (legacy_apply_transaction c tx l).0 ≡ true
      → total (legacy_apply_transaction c tx l).1 + paid_fee tx ≡ total l
  unfolding legacy_apply_transaction
  legacy_apply_transaction-total tx l n h = ground (
    arith,
    legacy_validate_transaction-state tx l,
    legacy_validate_transaction-apart tx l n,
    move_money-total tx l,
  )

  legacy_apply_coinbase-total :
      (tx : Transaction) (l : Accounts)
      → is_ok (legacy_apply_coinbase c tx l).0 ≡ true
      → total (legacy_apply_coinbase c tx l).1 ≡ total l + tx.amount
  unfolding legacy_apply_coinbase add
  legacy_apply_coinbase-total tx l h = ground (
    arith,
    total-insert tx.to
        (record (get no_account tx.to l) { balance = (get no_account tx.to l).balance + tx.amount })
        l,
  )

  -- What the coinbases of a list bring in, and the fees that its transfers leave behind.
  abbrev pub minted : List Transaction → ℕ
  minted [] = 0
  minted (tx ∷ txs) = (if tx.coinbase then tx.amount else 0) + minted txs

  abbrev pub burned : List Transaction → ℕ
  burned [] = 0
  burned (tx ∷ txs) = (if tx.coinbase then 0 else paid_fee tx) + burned txs

  apply_entry-total :
      (n : ℕ) (tx : Transaction) (l : Accounts)
      → is_ok (apply_entry c n tx l).0 ≡ true
      → total (apply_entry c n tx l).1 + (if tx.coinbase then 0 else paid_fee tx)
        ≡ total l + (if tx.coinbase then tx.amount else 0)
  apply_entry-total n tx l h =
      ground (arith, legacy_apply_transaction-total tx l, legacy_apply_coinbase-total tx l)

  apply_entries-total :
      (n : ℕ) (txs : List Transaction) (l : Accounts)
      → is_ok (apply_entries c n txs l).0 ≡ true
      → total (apply_entries c n txs l).1 + burned txs ≡ total l + minted txs
  unfolding apply_entries
  apply_entries-total n [] l h = omega arith
  apply_entries-total n (tx ∷ txs) l h =
      let step = apply_entry c (count_coinbase n tx) tx l in
      ground (
        arith,
        apply_entry-total (count_coinbase n tx) tx l,
        apply_entries-total (count_coinbase n tx) txs step.1,
      )

  abbrev pub minted_in : List Block → ℕ
  minted_in [] = 0
  minted_in (b ∷ bs) = minted b.transactions + minted_in bs

  abbrev pub burned_in : List Block → ℕ
  burned_in [] = 0
  burned_in (b ∷ bs) = burned b.transactions + burned_in bs

  replay_from-total :
      (bs : List Block) (l : Accounts)
      → is_ok (replay_from c bs l).0 ≡ true
      → total (replay_from c bs l).1 + burned_in bs ≡ total l + minted_in bs
  unfolding replay_from apply_legacy_block
  replay_from-total [] l h = omega arith
  replay_from-total (b ∷ bs) l h = ground (
    arith,
    apply_entries-total 0 b.transactions l,
    replay_from-total bs (apply_entries c 0 b.transactions l).1,
  )

  -- After any replay that succeeds in the ledger without maturity, the balances of all accounts
  -- and the fees of all transfers together are what the coinbases brought in.
  pub legacy_replay-total :
      (bs : List Block) (l : Accounts)
      → legacy_replay c bs ≡ ok l
      → total l + burned_in bs ≡ minted_in bs
  unfolding legacy_replay
  legacy_replay-total bs l h = ground (arith, replay_from-total bs [])
