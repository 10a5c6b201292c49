-- ===== src/Blockchain/Candidate.antt =====
-- The block that a miner builds from the waiting transactions: MineBlockWithContextAndNetwork of
-- deskachain/node/internal/chain/blockchain.go. The clock is an argument; the search for the nonce is
-- Chain.Pow.
pub mod Full
use des_ka_project.Prelude.{
  ℕ, suc, ◌+◌, Bool, true, false, not, ◌&&◌, ◌||◌, List, [], ◌∷◌, Str, ◌=s◌, is_empty, ltb, leb,
  ◌==◌, if◌then◌else◌, Option, none, some, msg, ⊤, Result, ok, err, map_err, last?, length, check,
}
use des_ka_project.Prelude.Int.{ℤ}
use des_ka_project.Prelude.Dict.{Dict, lookup, insert}
use des_ka_project.Prelude.Results.{◌>>=◌, ◌>>◌}
use des_ka_project.Arith.{add, max_u64}
use des_ka_project.Config.{NetworkConfig, initial_block_reward}
use des_ka_project.Types.{
  Transaction, protocol_version, tx_type, tx_type_transfer, tx_version_asset,
}
use des_ka_project.Types.Envelope.{new_coinbase_transaction_with_version}
use des_ka_project.Types.Constructors.{refresh_id_for_chain_id}
use des_ka_project.Types.Crypto.{Crypto}
use des_ka_project.Types.Block.{Block, block_protocol_version, block_version_canonical}
use des_ka_project.Types.Block.Header.{new_block_with_version}
use des_ka_project.Ledger.{MatureLedger, account, clone}
use des_ka_project.Ledger.Apply.{
  apply_transaction_at_height, apply_block, replay_mature_with_profile,
}
use des_ka_project.StateRoot.{root_for_ledger}
use des_ka_project.Mempool.Nonces.{select_with_nonces}
use des_ka_project.Chain.Difficulty.{calculate_next_difficulty_with_params}
use des_ka_project.Chain.Resources.{validate_transaction_size}
use des_ka_project.Chain.Pow.{mine_with_context}
use des_ka_project.Blockchain.{err_not_initialized}

-- The next nonce of each sender, from the ledger.
unfoldable pub next_nonces : MatureLedger → List Transaction → Dict ℕ → Result (Dict ℕ)
next_nonces l [] d = ok d
next_nonces l (tx ∷ txs) d =
    let skip = next_nonces l txs d in
    let nonce = (account tx.from l).nonce in
    let next = next_nonces l txs (insert tx.from (nonce + 1) d) in
    if tx.coinbase then skip else elim (lookup tx.from d) [
      | some _ ↦ skip
      | none ↦ if nonce == max_u64 then err (msg "transaction nonce overflow") else next
    ]

-- The fees so far with those of the transaction, where it counts.
unfoldable pub add_fee : NetworkConfig → Transaction → ℕ → Result ℕ
add_fee p tx fees =
    if leb tx_version_asset p.tx_version || tx_type tx =s tx_type_transfer
    then map_err (msg "transaction fees overflow") (add fees tx.fee)
    else ok fees

-- What is taken before the rest.
abbrev pub put_first : Transaction → Result (List Transaction × ℕ) → Result (List Transaction × ℕ)
put_first tx (ok (txs, fees)) = ok (tx ∷ txs, fees)
put_first tx (err e) = err e

-- The limit on the number is reached with the transaction.
abbrev pub is_full : NetworkConfig → ℕ → Bool
is_full p count = ltb 0 p.consensus.max_tx_count && leb p.consensus.max_tx_count (suc count)

-- One transaction: it is left out if it is too large or does not apply, and is the last one if the
-- limit is reached.
abbrev pub choose :
    Transaction
    → Result ⊤
    → Result ⊤
    → Result ℕ
    → Bool
    → Result (List Transaction × ℕ)
    → Result (List Transaction × ℕ)
    → (ℕ → Result (List Transaction × ℕ))
    → Result (List Transaction × ℕ)
choose tx (err _) applied fees full too_large inapplicable more = too_large
choose tx (ok _) (err _) fees full too_large inapplicable more = inapplicable
choose tx (ok _) (ok _) (err e) full too_large inapplicable more = err e
choose tx (ok _) (ok _) (ok fees) true too_large inapplicable more = ok (tx ∷ [], fees)
choose tx (ok _) (ok _) (ok fees) false too_large inapplicable more = put_first tx (more fees)

unfoldable pub reward_of : NetworkConfig → ℕ → Result ℕ
reward_of p fees =
    if ltb p.tx_version tx_version_asset
    then map_err (msg "block reward overflow") (add initial_block_reward fees)
    else ok p.economic.block_subsidy

module _ (c : Crypto) where
  -- The selected transactions that apply, in turn, and the sum of their fees. What one that does not
  -- apply has written stays written.
  unfoldable pub take_applicable :
      NetworkConfig → ℕ → ℕ → ℕ → List Transaction → MatureLedger → Result (List Transaction × ℕ)
  take_applicable p height count fees [] l = ok ([], fees)
  take_applicable p height count fees (tx ∷ txs) l =
      let (applied, l') = apply_transaction_at_height c tx height l in
      let too_large = take_applicable p height count fees txs l in
      let inapplicable = take_applicable p height count fees txs l' in
      let more = λ (fees' : ℕ). take_applicable p height (suc count) fees' txs l' in
      choose tx (validate_transaction_size c tx p.consensus) applied (add_fee p tx fees)
        (is_full p count) too_large inapplicable more

  unfoldable pub coinbase_for : NetworkConfig → Str → ℕ → ℕ → Result Transaction
  coinbase_for p miner reward height =
      let tx = new_coinbase_transaction_with_version c miner reward height p.tx_version in
      if leb 2 (protocol_version tx) then refresh_id_for_chain_id c p.chain_id tx else ok tx

  -- The root of the state behind the block, for a canonical block.
  unfoldable pub with_state_root : MatureLedger → Block → Result Block
  with_state_root l b =
      if block_protocol_version b == block_version_canonical
      then (do
        let applied = apply_block c b (clone l).0
        applied.0
        root ← (root_for_ledger c applied.1).0
        ok (record b { state_root = root }))
      else ok b

  unfoldable pub block_on :
      ℤ → Str → List Block → Block → List Transaction → NetworkConfig → Result Block
  block_on now miner blocks tip pending p = do
    l ← replay_mature_with_profile c blocks p.consensus p
    let copies = clone l
    height ← map_err (msg "block height overflow") (add tip.height 1)
    next ← next_nonces copies.0 pending []
    selected ← select_with_nonces c pending p p.consensus.max_gas_per_block next
    taken ← take_applicable p height 0 0 selected copies.0
    reward ← reward_of p taken.1
    coinbase ← coinbase_for p miner reward height
    with_state_root copies.1 (
        new_block_with_version c now height tip.hash miner
          (calculate_next_difficulty_with_params blocks p.difficulty) (coinbase ∷ taken.0)
          p.block_version)

  unfoldable pub block_on_tip :
      ℤ → Str → List Block → Option Block → List Transaction → NetworkConfig → Result Block
  block_on_tip now miner blocks none pending p = err err_not_initialized
  block_on_tip now miner blocks (some tip) pending p = block_on now miner blocks tip pending p

  unfoldable pub candidate_block :
      ℤ → Str → List Block → List Transaction → NetworkConfig → Result Block
  candidate_block now miner blocks pending p =
      block_on_tip now miner blocks (last? blocks) pending p

  -- With the bounds of the search, and fuel for it.
  unfoldable pub mine_block_with_context_and_network :
      (ℕ → Bool)
      → ℕ
      → ℕ
      → ℤ
      → Str
      → List Block
      → List Transaction
      → NetworkConfig
      → Option (Result Block)
  mine_block_with_context_and_network cancelled max_nonce fuel now miner blocks pending p =
      elim (candidate_block now miner blocks pending p) [
        | err e ↦ some (err e)
        | ok b ↦ mine_with_context c cancelled max_nonce fuel b
      ]
