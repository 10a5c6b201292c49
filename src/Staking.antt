-- ===== src/Staking.antt =====
-- deskachain/node/internal/staking/staking.go: stake records by id. Go's map order is the order of
-- the association list here.
pub mod Lifecycle
pub mod Replay
use des_ka_project.Prelude.{
  ℕ, ◌+◌, Bool, true, false, not, ◌&&◌, Option, none, some, List, [], ◌∷◌, map, Str, codes, ◌=s◌,
  is_empty, ltb, leb, ◌==◌, if◌then◌else◌, Error, msg, Result, ok, err, ⊤, Proc, pure, gets, lift,
  ◌>>=◌, ◌>>◌, fail_if, modify, map_err,
}
use des_ka_project.Prelude.Dict.{Dict, lookup, insert}
use des_ka_project.Arith.{add, add_cap}
use des_ka_project.Config.{StakingParams}
use des_ka_project.Types.{Transaction, tx_type, tx_type_stake_lock, tx_type_stake_unlock}

abbrev pub status_active : Str
status_active = codes "active"

abbrev pub status_unlocking : Str
status_unlocking = codes "unlocking"

abbrev pub status_released : Str
status_released = codes "released"

pub record Record : Type 0 where
  pub stake_id : Str
  pub owner_address : Str
  pub amount : ℕ
  pub lock_tx_id : Str
  pub lock_height : ℕ
  pub unlock_tx_id : Str
  pub unlock_height : ℕ
  pub release_height : ℕ
  pub status : Str

pub record State : Type 0 where
  pub params : StakingParams
  pub records : Dict Record

pub record Summary : Type 0 where
  pub total_active_stake : ℕ
  pub total_unlocking_stake : ℕ
  pub total_released_stake : ℕ
  pub active_stake_count : ℕ

unfoldable pub new_state : StakingParams → State
new_state params = record { params = params; records = [] }

-- One record at a height: an unlocking stake whose time has come is released.
unfoldable pub refresh_record : ℕ → Record → Record
refresh_record height r =
    if r.status =s status_unlocking && leb r.release_height height
    then record r { status = status_released }
    else r

abbrev pub map_values {ℓ} : {V : Type ℓ} → (V → V) → Dict V → Dict V
map_values f [] = []
map_values f ((k, v) ∷ d) = (k, f v) ∷ map_values f d

unfoldable pub refresh_released : ℕ → State → State
refresh_released height s = record s { records = map_values (refresh_record height) s.records }

abbrev pub is_active_of : Str → Record → Bool
is_active_of address r = r.owner_address =s address && r.status =s status_active

abbrev count : (Record → Bool) → Dict Record → ℕ
count p [] = 0
count p ((k, r) ∷ d) = if p r then count p d + 1 else count p d

unfoldable pub active_count : Str → State → ℕ
active_count address s = count (is_active_of address) s.records

-- `ApplyRecord`
unfoldable pub apply_record : Record → State → State
apply_record r s = record s { records = insert r.stake_id r s.records }

abbrev pub stake_id_of : Transaction → Str
stake_id_of tx = if is_empty tx.stake_id then tx.id else tx.stake_id

abbrev pub locked_record : Transaction → ℕ → Record
locked_record tx height = record {
  stake_id = stake_id_of tx;
  owner_address = tx.from;
  amount = tx.amount;
  lock_tx_id = tx.id;
  lock_height = height;
  unlock_tx_id = [];
  unlock_height = 0;
  release_height = 0;
  status = status_active;
}

unfoldable pub apply_lock : Transaction → ℕ → Proc State ⊤
apply_lock tx height = do
  params ← gets (λ s. s.params)
  fail_if (not params.enabled) (msg "staking disabled")
  fail_if (ltb tx.amount params.min_stake_amount) (msg "invalid stake lock: amount below minimum")
  existing ← gets (λ s. lookup (stake_id_of tx) s.records)
  fail_if (elim existing [ none ↦ false | some _ ↦ true ])
      (msg "invalid stake lock: duplicate stake id")
  active ← gets (active_count tx.from)
  fail_if
      (leb params.max_active_stakes_per_address active
        && ltb 0 params.max_active_stakes_per_address)
      (msg "invalid stake lock: max active stakes reached")
  modify (apply_record (locked_record tx height))

unfoldable pub find_record : Str → Error → Proc State Record
find_record id e s = elim (lookup id s.records) [ none ↦ (err e, s) | some r ↦ (ok r, s) ]

unfoldable pub apply_unlock : Transaction → ℕ → Proc State ⊤
unfolding find_record
apply_unlock tx height = do
  params ← gets (λ s. s.params)
  fail_if (not params.enabled) (msg "staking disabled")
  r ← find_record tx.stake_id (msg "invalid stake unlock: stake not found")
  fail_if (not (r.owner_address =s tx.from)) (msg "invalid stake unlock: owner mismatch")
  fail_if (not (r.status =s status_active)) (msg "invalid stake unlock: stake not active")
  release_height ← lift (
      map_err (msg "invalid stake unlock: release height overflow")
        (add height params.unbonding_period_blocks))
  let r' = record r {
    status = status_unlocking;
    unlock_tx_id = tx.id;
    unlock_height = height;
    release_height = release_height;
  }
  modify (λ s. record s { records = insert tx.stake_id r' s.records })

-- The transactions of a block, for staking alone.
unfoldable pub apply_transaction : ℕ → Transaction → Proc State ⊤
apply_transaction height tx =
    if tx_type tx =s tx_type_stake_lock
    then apply_lock tx height
    else if tx_type tx =s tx_type_stake_unlock
    then apply_unlock tx height
    else pure tt

unfoldable pub apply_transactions : ℕ → List Transaction → Proc State ⊤
apply_transactions height [] s = (ok tt, s)
apply_transactions height (tx ∷ txs) s =
    let (r, s') = apply_transaction height tx s in
    elim r [ ok _ ↦ apply_transactions height txs s' | err e ↦ (err e, s') ]

-- `ApplyBlock`, by the block's height and transactions.
unfoldable pub apply_block : ℕ → List Transaction → Proc State ⊤
unfolding apply_transactions apply_transaction
apply_block height txs = do
  modify (refresh_released height)
  apply_transactions height txs
  modify (refresh_released height)

-- The amounts of the records that pass a test, added from the left and capped at the largest
-- 64-bit number.
abbrev pub total_from : (Record → Bool) → ℕ → Dict Record → ℕ
total_from p acc [] = acc
total_from p acc ((k, r) ∷ d) = total_from p (if p r then add_cap acc r.amount else acc) d

abbrev pub has_status : Str → Str → Record → Bool
has_status address status r = r.owner_address =s address && r.status =s status

-- Go computes the three sums in one loop; the state is refreshed first.
unfoldable pub address_summary : Str → ℕ → State → (ℕ × ℕ × ℕ) × State
address_summary address height s =
    let s' = refresh_released height s in
    (
      (
        total_from (has_status address status_active) 0 s'.records,
        total_from (has_status address status_unlocking) 0 s'.records,
        total_from (has_status address status_released) 0 s'.records,
      ),
      s',
    )

unfoldable pub summary : ℕ → State → Summary × State
summary height s =
    let s' = refresh_released height s in
    (
      record {
        total_active_stake = total_from (λ r. r.status =s status_active) 0 s'.records;
        total_unlocking_stake = total_from (λ r. r.status =s status_unlocking) 0 s'.records;
        total_released_stake = total_from (λ r. r.status =s status_released) 0 s'.records;
        active_stake_count = count (λ r. r.status =s status_active) s'.records;
      },
      s',
    )

abbrev values : Dict Record → List Record
values = map (λ e. e.1)

-- `Records` and `Find` refresh the state too.
unfoldable pub records : ℕ → State → List Record × State
records height s = let s' = refresh_released height s in (values s'.records, s')

unfoldable pub find : Str → ℕ → State → Option Record × State
find id height s = let s' = refresh_released height s in (lookup id s'.records, s')

unfoldable pub pending_stake_lock : List Transaction → Str → ℕ → ℕ
pending_stake_lock [] address acc = acc
pending_stake_lock (tx ∷ txs) address acc =
    pending_stake_lock txs address (
      if tx_type tx =s tx_type_stake_lock && tx.from =s address then add_cap acc tx.amount else acc)
