-- ===== src/Mempool/Nonces.antt =====
-- The choice for a block that keeps each sender's nonces in order: SelectWithNonces of
-- deskachain/node/internal/mempool/selection.go. Go ranges over the map of senders in any order; here
-- it is the order in which the senders appear.
pub mod Senders
pub mod Consecutive
pub mod Gas
pub mod Rounds
use des_ka_project.Prelude.{
  ℕ, zero, suc, ◌+◌, ◌-◌, ◌%◌, Bool, not, ◌&&◌, ◌||◌, List, [], ◌∷◌, ◌++◌, Str, ◌=s◌, ltb, ◌==◌,
  if◌then◌else◌, Option, none, some, Result, ok, length,
}
use des_ka_project.Prelude.Results.{◌>>=◌, ◌>>◌}
use des_ka_project.Prelude.Dict.{Dict, get, insert, lookup, sum}
use des_ka_project.Prelude.Sorting.{str_ltb, sort}
use des_ka_project.Arith.{max_u64}
use des_ka_project.Config.{NetworkConfig}
use des_ka_project.Types.{Transaction, protocol_version, validate_transaction_version}
use des_ka_project.Types.Crypto.{Crypto}
use des_ka_project.Fees.{validate}
use des_ka_project.Mempool.{Candidate}
use des_ka_project.Mempool.Admission.{gas_of, check_asset_form, higher_priority}

unfoldable pub same_priority : Candidate → Candidate → Bool
same_priority a b = a.tx.fee == b.tx.fee && a.gas == b.gas

-- A sender's candidates by nonce, then by id.
abbrev pub nonce_less : Candidate → Candidate → Bool
nonce_less a b =
    if not (a.tx.nonce == b.tx.nonce) then ltb a.tx.nonce b.tx.nonce else str_ltb a.tx.id b.tx.id

-- The run of nonces from the one expected on.
unfoldable pub ready_from : ℕ → List Candidate → List Candidate
ready_from expected [] = []
ready_from expected (c ∷ cs) =
    let skipped = ready_from expected cs in
    let next = c ∷ ready_from (expected + 1) cs in
    if ltb c.tx.nonce expected
    then skipped
    else if not (c.tx.nonce == expected)
    then []
    else if expected == max_u64
    then c ∷ []
    else next

abbrev pub first_nonce : List Candidate → ℕ
first_nonce [] = 0
first_nonce (c ∷ _) = c.tx.nonce

abbrev pub or_else : Option ℕ → ℕ → ℕ
or_else none n = n
or_else (some m) n = m

unfoldable pub ready : Dict ℕ → Str → List Candidate → List Candidate
unfolding ready_from
ready next_nonce sender cs =
    let sorted = sort nonce_less cs in
    ready_from (or_else (lookup sender next_nonce) (first_nonce sorted)) sorted

unfoldable pub all_ready : Dict ℕ → Dict (List Candidate) → Dict (List Candidate)
unfolding ready
all_ready next_nonce [] = []
all_ready next_nonce ((sender, cs) ∷ d) =
    (sender, ready next_nonce sender cs) ∷ all_ready next_nonce d

-- One sender's head against the best one so far.
abbrev pub better : Str → Candidate → Candidate → Bool
better sender c best =
    higher_priority c best
    || same_priority c best
      && (str_ltb sender best.tx.from || sender =s best.tx.from && str_ltb c.tx.id best.tx.id)

abbrev pub take_better : Str → Candidate → Option (Str × Candidate) → Option (Str × Candidate)
take_better sender c none = some (sender, c)
take_better sender c (some (s, best)) =
    if better sender c best then some (sender, c) else some (s, best)

-- The gas does not fit any more.
abbrev pub exceeds : ℕ → ℕ → ℕ → Bool
exceeds max_gas used gas = ltb 0 max_gas && (ltb max_gas gas || ltb (max_gas - gas) used)

abbrev pub consider :
    ℕ → ℕ → Str → List Candidate → Option (Str × Candidate) → Option (Str × Candidate)
consider max_gas used sender [] best = best
consider max_gas used sender (c ∷ _) best =
    if exceeds max_gas used c.gas then best else take_better sender c best

unfoldable pub best_head :
    ℕ → ℕ → Option (Str × Candidate) → Dict (List Candidate) → Option (Str × Candidate)
best_head max_gas used best [] = best
best_head max_gas used best ((sender, cs) ∷ d) =
    best_head max_gas used (consider max_gas used sender cs best) d

abbrev pub rest_of : List Candidate → List Candidate
rest_of [] = []
rest_of (_ ∷ cs) = cs

-- The loop takes one candidate in a round.
unfoldable pub select_heads : ℕ → ℕ → ℕ → Dict (List Candidate) → List Candidate
select_heads zero max_gas used d = []
select_heads (suc fuel) max_gas used d = elim (best_head max_gas used none d) [
  | none ↦ []
  | some (sender, best) ↦
      best
      ∷ select_heads fuel max_gas ((used + best.gas) % 18446744073709551616)
          (insert sender (rest_of (get [] sender d)) d)
]

abbrev pub transactions_of : List Candidate → List Transaction
transactions_of [] = []
transactions_of (c ∷ cs) = c.tx ∷ transactions_of cs

-- How many candidates there are, which bounds the rounds.
abbrev pub count_all : Dict (List Candidate) → ℕ
count_all d = sum length d

module _ (c : Crypto) where
  abbrev pub check_selectable : NetworkConfig → Transaction → Result ℕ
  check_selectable p tx = do
    validate_transaction_version (protocol_version tx) p.tx_version
    validate tx p
    check_asset_form c p tx
    gas_of p tx

  unfoldable pub by_sender :
      NetworkConfig → List Transaction → Dict (List Candidate) → Result (Dict (List Candidate))
  by_sender p [] d = ok d
  by_sender p (tx ∷ txs) d =
      let skipped = by_sender p txs d in
      let grouped = λ (gas : ℕ).
        by_sender p txs
          (insert tx.from (get [] tx.from d ++ record { tx = tx; gas = gas } ∷ []) d) in
      if tx.coinbase then skipped else (do gas ← check_selectable p tx; grouped gas)

  unfoldable pub select_with_nonces :
      List Transaction → NetworkConfig → ℕ → Dict ℕ → Result (List Transaction)
  select_with_nonces txs p max_gas next_nonce = do
    d ← by_sender p txs []
    let lists = all_ready next_nonce d
    ok (transactions_of (select_heads (count_all lists) max_gas 0 lists))
