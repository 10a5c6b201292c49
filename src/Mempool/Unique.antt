-- ===== src/Mempool/Unique.antt =====
-- What the pool keeps of the transactions that it is given
-- (deskachain/node/internal/mempool/mempool.go).
use des_ka_project.Prelude.{
  ℕ, ◌+◌, ◌≡◌, refl, false, not, ◌&&◌, ◌||◌, List, [], ◌∷◌, ◌++◌, Str, ◌=s◌, is_empty,
  if◌then◌else◌, arith, is_ok,
}
use des_ka_project.Types.{Transaction}
use des_ka_project.Mempool.{
  mem, unique_from, unique_transactions, load, save, has_id, add, without, remove_ids,
}

-- How many transactions have the id.
unfoldable pub occurrences : Str → List Transaction → ℕ
occurrences id [] = 0
occurrences id (tx ∷ txs) = if tx.id =s id then occurrences id txs + 1 else occurrences id txs

unique_from-occurrences :
    (id : Str) (seen : List Str) (txs : List Transaction)
    → is_empty id ≡ false
    → occurrences id (unique_from seen txs)
      ≡ (if mem id seen then 0 else if has_id id txs then 1 else 0)
unfolding occurrences unique_from
unique_from-occurrences id seen [] h = ground arith
unique_from-occurrences id seen (tx ∷ txs) h =
    ground (
      arith,
      unique_from-occurrences id seen txs h,
      unique_from-occurrences id (tx.id ∷ seen) txs h,
    )

-- A list of transactions keeps exactly one transaction of every id in it that is not empty, and
-- none of any other such id.
pub unique_transactions-occurrences :
    (id : Str) (txs : List Transaction)
    → is_empty id ≡ false
    → occurrences id (unique_transactions txs) ≡ (if has_id id txs then 1 else 0)
unfolding unique_transactions
unique_transactions-occurrences id txs h = unique_from-occurrences id [] txs h

has_id-occurrences :
    (id : Str) (txs : List Transaction) → occurrences id txs ≡ 0 → has_id id txs ≡ false
unfolding occurrences
has_id-occurrences id [] h = refl
has_id-occurrences id (tx ∷ txs) h = ground (arith, has_id-occurrences id txs)

occurrences-has_id :
    (id : Str) (txs : List Transaction) → has_id id txs ≡ false → occurrences id txs ≡ 0
unfolding occurrences
occurrences-has_id id [] h = refl
occurrences-has_id id (tx ∷ txs) h = ground (arith, occurrences-has_id id txs)

has_id-unique_transactions :
    (id : Str) (txs : List Transaction)
    → is_empty id ≡ false
    → has_id id (unique_transactions txs) ≡ has_id id txs
has_id-unique_transactions id txs h = ground (
  arith,
  unique_transactions-occurrences id txs h,
  has_id-occurrences id (unique_transactions txs),
  occurrences-has_id id (unique_transactions txs),
)

has_id-append :
    (id : Str) (txs : List Transaction) (tx : Transaction)
    → has_id id (txs ++ tx ∷ []) ≡ (has_id id txs || tx.id =s id)
has_id-append id [] tx = ground arith
has_id-append id (x ∷ txs) tx = ground (arith, has_id-append id txs tx)

-- Where the id asked for and the transaction's are not empty, adding a transaction to the pool
-- succeeds exactly if the pool has none of its id, and afterwards the pool has the id asked for
-- exactly if it had it before or it is the transaction's.
pub add-has_id :
    (id : Str) (tx : Transaction) (s : List Transaction)
    → is_empty id ≡ false
    → is_empty tx.id ≡ false
    → (is_ok (add tx s).0 ≡ not (has_id tx.id s))
      × (has_id id (add tx s).1 ≡ (has_id id s || tx.id =s id))
unfolding add load save
add-has_id id tx s h k = ground (
  arith,
  has_id-unique_transactions id s h,
  has_id-unique_transactions tx.id s k,
  has_id-unique_transactions id (unique_transactions s ++ tx ∷ []) h,
  has_id-append id (unique_transactions s) tx,
)

has_id-without :
    (id : Str) (ids : List Str) (txs : List Transaction)
    → has_id id (without ids txs) ≡ (has_id id txs && not (mem id ids))
has_id-without id ids [] = refl
has_id-without id ids (tx ∷ txs) = ground (arith, has_id-without id ids txs)

-- After a removal the pool has an id that is not empty exactly if it had it before and it is not
-- among the removed ones.
pub remove_ids-has_id :
    (id : Str) (ids : List Str) (s : List Transaction)
    → is_empty id ≡ false
    → has_id id (remove_ids ids s).1 ≡ (has_id id s && not (mem id ids))
unfolding remove_ids load save
remove_ids-has_id id ids s h = ground (
  arith,
  has_id-unique_transactions id s h,
  has_id-unique_transactions id (without ids (unique_transactions s)) h,
  has_id-without id ids (unique_transactions s),
)
