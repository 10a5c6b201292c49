-- ===== src/Staking/Lifecycle.antt =====
-- The life of a stake (deskachain/node/internal/staking/staking.go): active, then unlocking, then
-- released when its time has come, and never lost or changed otherwise.
use des_ka_project.Prelude.{
  ℕ, ◌+◌, ◌≤◌, ◌≡◌, refl, sym, subst, ◌⊎◌, inl, inr, true, false, Option, none, some, List, [], ◌∷◌,
  Str, ◌=s◌, =s→eq, str_discrete, if◌then◌else◌, arith, Result, ok, err, ⊤, Proc, pure, modify,
}
use des_ka_project.Prelude.Dict.{Dict, lookup, insert, lookup-insert}
use des_ka_project.Arith.{add}
use des_ka_project.Types.{Transaction, tx_type, tx_type_stake_lock, tx_type_stake_unlock}
use des_ka_project.Staking.{
  Record, State, status_active, status_unlocking, status_released, refresh_record, map_values,
  refresh_released, apply_record, apply_lock, apply_unlock, apply_transaction, apply_transactions,
  apply_block, find_record, stake_id_of, locked_record,
}

-- What becomes of a record in a block at a height: owner, amount and lock stay; a stake that is
-- released stays as it is; one that is unlocking keeps its release height, and is released only when
-- the chain is that high.
pub record Continues (height : ℕ) (r r' : Record) : Type 0 where
  pub same_owner : r'.owner_address ≡ r.owner_address
  pub same_amount : r'.amount ≡ r.amount
  pub same_lock : (r'.lock_tx_id ≡ r.lock_tx_id) × (r'.lock_height ≡ r.lock_height)
  pub unlocking_waits :
      r.status ≡ status_unlocking
      → (r'.release_height ≡ r.release_height)
        × ((r'.status ≡ status_unlocking)
            ⊎ (r'.status ≡ status_released) × (r.release_height ≤ height))
  pub released_stays :
      r.status ≡ status_released
      → (r'.status ≡ status_released) × (r'.release_height ≡ r.release_height)

-- A record is never lost.
abbrev pub Kept : ℕ → Option Record → Option Record → Type 0
Kept height none o = Unit
Kept height (some r) none = ⊥
Kept height (some r) (some r') = Continues height r r'

module _ (height : ℕ) where
  Continues-refl : (r : Record) → Continues height r r
  Continues-refl r = record {
    same_owner = refl;
    same_amount = refl;
    same_lock = (refl, refl);
    unlocking_waits = λ h. (refl, inl h);
    released_stays = λ h. (h, refl);
  }

  Continues-trans :
      (r s t : Record) → Continues height r s → Continues height s t → Continues height r t
  Continues-trans r s t f g = ground arith

  refresh_record-Continues : (r : Record) → Continues height r (refresh_record height r)
  unfolding refresh_record str_discrete
  refresh_record-Continues r = ground arith

  unlock-Continues :
      (r : Record) (id : Str) (n : ℕ)
      → r.status ≡ status_active
      → Continues height r (record r {
        status = status_unlocking;
        unlock_tx_id = id;
        unlock_height = height;
        release_height = n;
      })
  unfolding str_discrete
  unlock-Continues r id n h = ground arith

  Kept-refl : (o : Option Record) → Kept height o o
  Kept-refl none = tt
  Kept-refl (some r) = Continues-refl r

  Kept-trans : (o p q : Option Record) → Kept height o p → Kept height p q → Kept height o q
  Kept-trans none p q f g = tt
  Kept-trans (some r) (some s) (some t) f g = Continues-trans r s t f g
  Kept-trans (some r) (some s) none f g = absurd g
  Kept-trans (some r) none q f g = absurd f

  refresh_released-Kept :
      (id : Str) (d : Dict Record)
      → Kept height (lookup id d) (lookup id (map_values (refresh_record height) d))
  refresh_released-Kept id [] = tt
  refresh_released-Kept id ((j, r) ∷ d) =
      elim (id =s j)
        as (λ b. Kept height (if b then some r else lookup id d) (
          if b
          then some (refresh_record height r)
          else lookup id (map_values (refresh_record height) d))) [
            | true ↦ refresh_record-Continues r
            | false ↦ refresh_released-Kept id d
          ]

  -- What a state keeps of another one, for every stake.
  abbrev Carries : State → State → Type 0
  Carries s s' = (id : Str) → Kept height (lookup id s.records) (lookup id s'.records)

  insert-Kept :
      (k : Str) (v : Record) (d : Dict Record)
      → Kept height (lookup k d) (some v)
      → (id : Str) → Kept height (lookup id d) (lookup id (insert k v d))
  insert-Kept k v d h id = subst (Kept height (lookup id d)) (sym (lookup-insert k id v d)) (
      elim (id =s k)
          as (λ b. (id =s k) ≡ b → Kept height (lookup id d) (if b then some v else lookup id d)) [
            | true ↦ λ e. subst (λ x. Kept height (lookup x d) (some v)) (sym (=s→eq e)) h
            | false ↦ λ _. Kept-refl (lookup id d)
          ]
        refl)

  apply_lock_cases :
      (tx : Transaction) (s : State)
      → ((apply_lock tx height s).1 ≡ s)
        ⊎ ((lookup (stake_id_of tx) s.records ≡ none)
            × ((apply_lock tx height s).1 ≡ apply_record (locked_record tx height) s))
  unfolding apply_lock
  apply_lock_cases tx s = ground arith

  abbrev unlocked : Transaction → State → Record → Record
  unlocked tx s r = record r {
    status = status_unlocking;
    unlock_tx_id = tx.id;
    unlock_height = height;
    release_height = height + s.params.unbonding_period_blocks;
  }

  apply_unlock_cases :
      (tx : Transaction) (s : State)
      → ((apply_unlock tx height s).1 ≡ s)
        ⊎ ((r : Record) × (lookup tx.stake_id s.records ≡ some r)
            × (r.status ≡ status_active)
            × ((apply_unlock tx height s).1
                ≡ record s { records = insert tx.stake_id (unlocked tx s r) s.records }))
  unfolding apply_unlock find_record add
  apply_unlock_cases tx s = ground arith

  Carries-refl : (s s' : State) → s' ≡ s → Carries s s'
  Carries-refl s s' e = subst (Carries s) (sym e) (λ id. Kept-refl (lookup id s.records))

  Carries-trans : (s t u : State) → Carries s t → Carries t u → Carries s u
  Carries-trans s t u f g id =
      Kept-trans (lookup id s.records) (lookup id t.records) (lookup id u.records) (f id) (g id)

  apply_lock-Carries : (tx : Transaction) (s : State) → Carries s (apply_lock tx height s).1
  unfolding apply_record
  apply_lock-Carries tx s = elim (apply_lock_cases tx s) [
    | inl e ↦ Carries-refl s (apply_lock tx height s).1 e
    | inr (absent, e) ↦ subst (Carries s) (sym e) (
        insert-Kept (stake_id_of tx) (locked_record tx height) s.records
          (subst (λ o. Kept height o (some (locked_record tx height))) (sym absent) tt))
  ]

  apply_unlock-Carries : (tx : Transaction) (s : State) → Carries s (apply_unlock tx height s).1
  apply_unlock-Carries tx s = elim (apply_unlock_cases tx s) [
    | inl e ↦ Carries-refl s (apply_unlock tx height s).1 e
    | inr (r, found, active, e) ↦ subst (Carries s) (sym e) (
        insert-Kept tx.stake_id (unlocked tx s r) s.records (
          subst (λ o. Kept height o (some (unlocked tx s r))) (sym found)
            (unlock-Continues r tx.id (height + s.params.unbonding_period_blocks) active)))
  ]

  apply_transaction-Carries :
      (tx : Transaction) (s : State) → Carries s (apply_transaction height tx s).1
  unfolding apply_transaction
  apply_transaction-Carries tx s =
      elim (tx_type tx =s tx_type_stake_lock)
        as (λ b.
          Carries s
            ((if b
                then apply_lock tx height
                else if tx_type tx =s tx_type_stake_unlock
                then apply_unlock tx height
                else pure tt)
              s).1) [
                | true ↦ apply_lock-Carries tx s
                | false ↦
                    elim (tx_type tx =s tx_type_stake_unlock)
                      as (λ b. Carries s ((if b then apply_unlock tx height else pure tt) s).1) [
                        | true ↦ apply_unlock-Carries tx s
                        | false ↦ Carries-refl s s refl
                      ]
              ]

  after :
      (s : State) (r : Result ⊤) (s' : State) (next : Proc State ⊤)
      → Carries s s'
      → ((t : State) → Carries t (next t).1)
      → Carries s (elim r as (λ _. Result ⊤ × State) [ ok _ ↦ next s' | err e ↦ (err e, s') ]).1
  after s (ok _) s' next f g = Carries-trans s s' (next s').1 f (g s')
  after s (err e) s' next f g = f

  apply_transactions-Carries :
      (txs : List Transaction) (s : State) → Carries s (apply_transactions height txs s).1
  unfolding apply_transactions
  apply_transactions-Carries [] s = Carries-refl s s refl
  apply_transactions-Carries (tx ∷ txs) s =
      after s (apply_transaction height tx s).0 (apply_transaction height tx s).1
        (apply_transactions height txs) (apply_transaction-Carries tx s)
        (λ t. apply_transactions-Carries txs t)

  refresh_released-Carries : (s : State) → Carries s (refresh_released height s)
  unfolding refresh_released
  refresh_released-Carries s id = refresh_released-Kept id s.records

  -- A block, accepted or refused, loses no stake record: owner, amount and lock stay, a released
  -- stake stays released, and an unlocking one keeps its release height and is released only if
  -- the block is that high.
  pub apply_block-Carries :
      (txs : List Transaction) (s : State) (id : Str)
      → Kept height (lookup id s.records) (lookup id (apply_block height txs s).1.records)
  unfolding apply_block
  apply_block-Carries txs s =
      let s₁ = refresh_released height s in
      let s₂ = (apply_transactions height txs s₁).1 in
      after s (ok tt) s₁
        (λ t. elim (apply_transactions height txs t).0 as (λ _. Result ⊤ × State) [
          | ok _ ↦ (ok tt, refresh_released height (apply_transactions height txs t).1)
          | err e ↦ (err e, (apply_transactions height txs t).1)
        ])
        (refresh_released-Carries s)
        (λ t.
          after t (apply_transactions height txs t).0 (apply_transactions height txs t).1
            (modify (refresh_released height)) (apply_transactions-Carries txs t)
            refresh_released-Carries)
