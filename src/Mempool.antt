-- ===== src/Mempool.antt =====
-- deskachain/node/internal/mempool: mempool.go, and the loop of Select in admission.go that fills the gas limit. The
-- state is the list of transactions that the pool's file decodes to; reading, writing and locking
-- the file are not modelled.
pub mod Unique
pub mod Selection
pub mod Admission
pub mod Nonces
use des_ka_project.Prelude.{
  ℕ, ◌+◌, ◌-◌, ◌*◌, ◌%◌, Bool, true, false, not, ◌&&◌, ◌||◌, List, [], ◌∷◌, ◌++◌, Str, ◌=s◌,
  is_empty, ltb, leb, ◌==◌, if◌then◌else◌, Error, msg, ok, err, ⊤, Proc, ◌>>=◌, ◌>>◌, fail_if,
}
use des_ka_project.Types.{Transaction}

abbrev pub err_duplicate_tx : Error
err_duplicate_tx = msg "mempool tx already exists"

abbrev pub mem : Str → List Str → Bool
mem id [] = false
mem id (x ∷ xs) = id =s x || mem id xs

-- The first transaction of each id; those without an id are all kept.
unfoldable pub unique_from : List Str → List Transaction → List Transaction
unique_from seen [] = []
unique_from seen (tx ∷ txs) =
    let first = tx ∷ unique_from (tx.id ∷ seen) txs in
    let without_id = tx ∷ unique_from seen txs in
    let again = unique_from seen txs in
    if is_empty tx.id then without_id else if mem tx.id seen then again else first

unfoldable pub unique_transactions : List Transaction → List Transaction
unfolding unique_from
unique_transactions txs = unique_from [] txs

unfoldable pub load : Proc (List Transaction) (List Transaction)
load s = (ok (unique_transactions s), s)

unfoldable pub save : List Transaction → Proc (List Transaction) ⊤
save txs s = (ok tt, unique_transactions txs)

abbrev pub has_id : Str → List Transaction → Bool
has_id id [] = false
has_id id (tx ∷ txs) = tx.id =s id || has_id id txs

unfoldable pub add : Transaction → Proc (List Transaction) ⊤
unfolding load save
add tx = do txs ← load; fail_if (has_id tx.id txs) err_duplicate_tx; save (txs ++ tx ∷ [])

abbrev pub without : List Str → List Transaction → List Transaction
without ids [] = []
without ids (tx ∷ txs) = if mem tx.id ids then without ids txs else tx ∷ without ids txs

unfoldable pub remove_ids : List Str → Proc (List Transaction) ⊤
unfolding load save
remove_ids ids = do txs ← load; save (without ids txs)

unfoldable pub clear : Proc (List Transaction) ⊤
unfolding save
clear = save []

-- The number of transactions of an address with the sums of their amounts and fees, modulo 2^64.
unfoldable pub pending_outgoing : List Transaction → Str → ℕ → ℕ → ℕ → ℕ × ℕ × ℕ
pending_outgoing [] address count amount fee = (count, amount, fee)
pending_outgoing (tx ∷ txs) address count amount fee =
    let skip = pending_outgoing txs address count amount fee in
    let next =
      pending_outgoing txs address ((count + 1) % 18446744073709551616)
        ((amount + tx.amount) % 18446744073709551616) ((fee + tx.fee) % 18446744073709551616) in
    if tx.coinbase || not (tx.from =s address) then skip else next

pub record Candidate : Type 0 where
  pub tx : Transaction
  pub gas : ℕ

-- The sorted candidates that fit the gas limit, in their order.
unfoldable pub fill : ℕ → ℕ → List Candidate → List Candidate
fill max_gas used [] = []
fill max_gas used (c ∷ cs) =
    let skip = fill max_gas used cs in
    let take = c ∷ fill max_gas ((used + c.gas) % 18446744073709551616) cs in
    if ltb 0 max_gas && (ltb max_gas c.gas || ltb (max_gas - c.gas) used) then skip else take
