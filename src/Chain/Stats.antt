-- ===== src/Chain/Stats.antt =====
-- deskachain/node/internal/chain/stats.go: the figures of a chain.
use des_ka_project.Prelude.{
  ◌≡◌, refl, ◌∙◌, Bool-cases, inl, inr, ℕ, ◌+◌, ◌≤◌, Bool, false, ◌||◌, ◌&&◌, not, List, [], ◌∷◌,
  length, ◌==◌, if◌then◌else◌, ok, err, arith,
}
use des_ka_project.Config.{ConsensusParams, NetworkConfig, localnet}
use des_ka_project.Types.{Transaction}
use des_ka_project.Types.Block.{Block}
use des_ka_project.Types.Crypto.{Crypto}
use des_ka_project.Ledger.{total_mature}
use des_ka_project.Ledger.Apply.{replay_mature_with_profile}
use des_ka_project.Ledger.Supply.{total_supply_with_profile}
use des_ka_project.Chain.Work.{calculate_cumulative_work}

pub record ChainStats : Type 0 where
  pub blocks : ℕ
  pub coinbase_blocks : ℕ
  pub total_transactions : ℕ
  pub coinbase_transactions : ℕ
  pub normal_transactions : ℕ
  pub total_supply : ℕ
  pub circulating_supply : ℕ
  pub cumulative_work : ℕ

-- One transaction, counted by its kind.
abbrev pub count_transaction : Transaction → ChainStats → ChainStats
count_transaction tx s =
    if tx.coinbase
    then record s { coinbase_transactions = s.coinbase_transactions + 1 }
    else record s { normal_transactions = s.normal_transactions + 1 }

unfoldable pub count_transactions : List Transaction → ChainStats → ChainStats
count_transactions [] s = s
count_transactions (tx ∷ txs) s = count_transactions txs (count_transaction tx s)

unfoldable pub has_coinbase : List Transaction → Bool
has_coinbase [] = false
has_coinbase (tx ∷ txs) = tx.coinbase || has_coinbase txs

-- One block: the genesis block does not count as a block with a coinbase.
abbrev pub count_block : Block → ChainStats → ChainStats
count_block b s =
    let with_length = record s {
      total_transactions = s.total_transactions + length b.transactions;
    } in
    let counted = count_transactions b.transactions with_length in
    if not (b.height == 0) && has_coinbase b.transactions
    then record counted { coinbase_blocks = counted.coinbase_blocks + 1 }
    else counted

unfoldable pub count_blocks : List Block → ChainStats → ChainStats
count_blocks [] s = s
count_blocks (b ∷ bs) s = count_blocks bs (count_block b s)

module _ (c : Crypto) where
  -- `CirculatingSupplyWithProfile` of ledger/maturity.go: 0 where the replay fails.
  unfoldable pub circulating_supply_with_profile : List Block → ConsensusParams → NetworkConfig → ℕ
  circulating_supply_with_profile blocks params p =
      elim (replay_mature_with_profile c blocks params p) [ ok l ↦ total_mature l | err _ ↦ 0 ]

  -- The total supply is that of the local network, whatever the profile.
  unfoldable pub calculate_chain_stats : List Block → ConsensusParams → NetworkConfig → ChainStats
  calculate_chain_stats blocks consensus p = count_blocks blocks (record {
    blocks = length blocks;
    coinbase_blocks = 0;
    total_transactions = 0;
    coinbase_transactions = 0;
    normal_transactions = 0;
    total_supply = total_supply_with_profile blocks localnet;
    circulating_supply = circulating_supply_with_profile blocks consensus p;
    cumulative_work = calculate_cumulative_work blocks;
  })

-- What counting some transactions does to the figures.
abbrev Counted : List Transaction → ChainStats → ChainStats → Type 0
Counted txs s s' =
    (s'.coinbase_transactions + s'.normal_transactions
      ≡ s.coinbase_transactions + s.normal_transactions + length txs)
    × (s'.total_transactions ≡ s.total_transactions)
    × (s'.coinbase_blocks ≡ s.coinbase_blocks)
    × (s'.blocks ≡ s.blocks)
    × s.coinbase_transactions + (if has_coinbase txs then 1 else 0) ≤ s'.coinbase_transactions

count_transaction-Counted :
    (tx : Transaction) (s : ChainStats) → Counted (tx ∷ []) s (count_transaction tx s)
unfolding has_coinbase
count_transaction-Counted tx s = elim (Bool-cases tx.coinbase) [
  | inl h ↦ rw h (omega arith, refl, refl, refl, omega arith)
  | inr h ↦ rw h (omega arith, refl, refl, refl, omega arith)
]

count_transactions-Counted :
    (txs : List Transaction) (s : ChainStats) → Counted txs s (count_transactions txs s)
unfolding count_transactions has_coinbase
count_transactions-Counted [] s = (omega arith, refl, refl, refl, omega arith)
count_transactions-Counted (tx ∷ txs) s =
    let (sum, total, blocks, all, most) = count_transactions-Counted txs (count_transaction tx s) in
    let (sum', total', blocks', all', most') = count_transaction-Counted tx s in
    (
      omega (arith, sum, sum'),
      total ∙ total',
      blocks ∙ blocks',
      all ∙ all',
      ground (arith, most, most'),
    )

-- The figures add up.
abbrev pub AddsUp : ChainStats → Type 0
AddsUp s =
    (s.coinbase_transactions + s.normal_transactions ≡ s.total_transactions)
    × s.coinbase_blocks ≤ s.coinbase_transactions

count_block-AddsUp : (b : Block) (s : ChainStats) → AddsUp s → AddsUp (count_block b s)
count_block-AddsUp b s (sum, few) =
    let (sum', total, blocks, all, most) =
      count_transactions-Counted b.transactions
        (record s { total_transactions = s.total_transactions + length b.transactions }) in
    elim (Bool-cases (not (b.height == 0) && has_coinbase b.transactions)) [
      | inl h ↦ rw h (omega (arith, sum, sum', total), ground (arith, few, most, blocks, h))
      | inr h ↦ rw h (omega (arith, sum, sum', total), ground (arith, few, most, blocks))
    ]

count_blocks-AddsUp : (bs : List Block) (s : ChainStats) → AddsUp s → AddsUp (count_blocks bs s)
unfolding count_blocks
count_blocks-AddsUp [] s h = h
count_blocks-AddsUp (b ∷ bs) s h =
    count_blocks-AddsUp bs (count_block b s) (count_block-AddsUp b s h)

-- Of the figures of a chain, the coinbases and the other transactions together are all
-- transactions, and at most as many blocks have a coinbase as there are coinbases.
pub calculate_chain_stats-AddsUp :
    (c : Crypto) (blocks : List Block) (consensus : ConsensusParams) (p : NetworkConfig)
    → AddsUp (calculate_chain_stats c blocks consensus p)
unfolding calculate_chain_stats
calculate_chain_stats-AddsUp c blocks consensus p = count_blocks-AddsUp blocks _ (refl, omega arith)
