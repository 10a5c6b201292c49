-- ===== src/Blockchain/Candidate/Full.antt =====
-- How many transactions a miner puts into a block.
use des_ka_project.Prelude.{
  ℕ, suc, ◌+◌, ◌≤◌, ◌<◌, ◌≡◌, refl, sym, ap, subst, Bool, true, false, List, [], ◌∷◌, Str, Result,
  ok, err, length, arith, inl, inr, ⊤, Result-cases, ltb, leb, ◌==◌, msg, ◌&&◌, last?, none, some,
  Option, map_err,
}
use des_ka_project.Prelude.Int.{ℤ}
use des_ka_project.Prelude.Results.{bind-ok, then-ok, if-cases}
use des_ka_project.Config.{NetworkConfig}
use des_ka_project.Types.{Transaction}
use des_ka_project.Types.Crypto.{Crypto}
use des_ka_project.Types.Block.{Block, block_protocol_version, block_version_canonical}
use des_ka_project.Types.Block.Header.{new_block_with_version}
use des_ka_project.Ledger.{MatureLedger, clone}
use des_ka_project.Ledger.Apply.{
  apply_transaction_at_height, apply_block, replay_mature_with_profile,
}
use des_ka_project.StateRoot.{root_for_ledger}
use des_ka_project.Mempool.Nonces.{select_with_nonces}
use des_ka_project.Arith.{add}
use des_ka_project.Chain.Resources.{validate_transaction_size}
use des_ka_project.Blockchain.Candidate.{
  take_applicable, is_full, put_first, add_fee, choose, with_state_root, reward_of, coinbase_for,
  next_nonces, block_on, block_on_tip, candidate_block,
}

-- With those before them, at most n transactions.
abbrev AtMost : ℕ → ℕ → Result (List Transaction × ℕ) → Type 0
AtMost n count (ok (txs, _)) = count + length txs ≤ n
AtMost n count (err _) = ⊤

put_first-AtMost :
    (n count : ℕ) (tx : Transaction) (r : Result (List Transaction × ℕ))
    → AtMost n (suc count) r
    → AtMost n count (put_first tx r)
put_first-AtMost n count tx (ok (txs, fees)) h = omega arith
put_first-AtMost n count tx (err e) h = tt

choose-AtMost :
    (n count : ℕ) (tx : Transaction) (sized applied : Result ⊤) (fees : Result ℕ) (full : Bool)
    (too_large inapplicable : Result (List Transaction × ℕ))
    (more : ℕ → Result (List Transaction × ℕ))
    → count < n
    → AtMost n count too_large
    → AtMost n count inapplicable
    → ((fees' : ℕ) → full ≡ false → AtMost n (suc count) (more fees'))
    → AtMost n count (choose tx sized applied fees full too_large inapplicable more)
choose-AtMost n count tx (err _) applied fees full too_large inapplicable more h a b k = a
choose-AtMost n count tx (ok _) (err _) fees full too_large inapplicable more h a b k = b
choose-AtMost n count tx (ok _) (ok _) (err e) full too_large inapplicable more h a b k = tt
choose-AtMost n count tx (ok _) (ok _) (ok fees) true too_large inapplicable more h a b k =
    omega arith
choose-AtMost n count tx (ok _) (ok _) (ok fees) false too_large inapplicable more h a b k =
    put_first-AtMost n count tx (more fees) (k fees refl)

below_limit : (n count : ℕ) → 0 < n → (ltb 0 n && leb n (suc count)) ≡ false → suc count < n
below_limit n count h e = ground arith

module _ (c : Crypto) (p : NetworkConfig) (limited : 0 < p.consensus.max_tx_count)
    (height : ℕ) where
  take_applicable-AtMost :
      (count fees : ℕ) (txs : List Transaction) (l : MatureLedger)
      → count < p.consensus.max_tx_count
      → AtMost p.consensus.max_tx_count count (take_applicable c p height count fees txs l)
  unfolding take_applicable
  take_applicable-AtMost count fees [] l h = omega arith
  take_applicable-AtMost count fees (tx ∷ txs) l h =
      let l' = (apply_transaction_at_height c tx height l).1 in
      choose-AtMost p.consensus.max_tx_count count tx (validate_transaction_size c tx p.consensus)
        (apply_transaction_at_height c tx height l).0 (add_fee p tx fees) (is_full p count)
        (take_applicable c p height count fees txs l) (take_applicable c p height count fees txs l')
        (λ fees'. take_applicable c p height (suc count) fees' txs l') h
        (take_applicable-AtMost count fees txs l h) (take_applicable-AtMost count fees txs l' h)
        (λ fees' more.
          take_applicable-AtMost (suc count) fees' txs l'
            (below_limit p.consensus.max_tx_count count limited more))

-- At most one transaction more than n.
abbrev pub OneMore : ℕ → Result Block → Type 0
OneMore n (ok b) = length b.transactions ≤ n + 1
OneMore n (err _) = ⊤

module _ (c : Crypto) where
  with_state_root-transactions :
      (l : MatureLedger) (b b' : Block)
      → with_state_root c l b ≡ ok b'
      → b'.transactions ≡ b.transactions
  unfolding with_state_root
  with_state_root-transactions l b b' h =
      elim (if-cases (block_protocol_version b == block_version_canonical) h) [
        | inl r ↦
            let (applied, r') = then-ok {r = (apply_block c b (clone l).0).0} r in
            let (root, computed, last) =
              bind-ok {r = (root_for_ledger c (apply_block c b (clone l).0).1).0} r' in
            ground arith
        | inr r ↦ ground arith
      ]

  module _ (p : NetworkConfig) (limited : 0 < p.consensus.max_tx_count) (now : ℤ) (miner : Str)
      (blocks : List Block) (pending : List Transaction) where
    block_on-length :
        (tip b : Block)
        → block_on c now miner blocks tip pending p ≡ ok b
        → length b.transactions ≤ p.consensus.max_tx_count + 1
    unfolding block_on new_block_with_version
    block_on-length tip b h =
        let (l, _, h₁) = bind-ok {r = replay_mature_with_profile c blocks p.consensus p} h in
        let (height, _, h₂) =
          bind-ok {r = map_err (msg "block height overflow") (add tip.height 1)} h₁ in
        let (next, _, h₃) = bind-ok {r = next_nonces (clone l).0 pending []} h₂ in
        let (selected, _, h₄) =
          bind-ok {r = select_with_nonces c pending p p.consensus.max_gas_per_block next} h₃ in
        let (taken, found, h₅) =
          bind-ok {r = take_applicable c p height 0 0 selected (clone l).0} h₄ in
        let (reward, _, h₆) = bind-ok {r = reward_of p taken.1} h₅ in
        let (coinbase, _, h₇) = bind-ok {r = coinbase_for c p miner reward height} h₆ in
        let few : AtMost p.consensus.max_tx_count 0 (ok taken) =
          subst (AtMost p.consensus.max_tx_count 0) found
            (take_applicable-AtMost c p limited height 0 0 selected (clone l).0 limited) in
        omega (arith, few, ap length (with_state_root-transactions (clone l).1 _ b h₇))

    block_on_tip-OneMore :
        (tip : Option Block)
        → OneMore p.consensus.max_tx_count (block_on_tip c now miner blocks tip pending p)
    unfolding block_on_tip
    block_on_tip-OneMore none = tt
    block_on_tip-OneMore (some tip) =
        elim (Result-cases (block_on c now miner blocks tip pending p)) [
          | inl (b, e) ↦ subst (OneMore p.consensus.max_tx_count) (sym e) (block_on-length tip b e)
          | inr (f, e) ↦ subst (OneMore p.consensus.max_tx_count) (sym e) tt
        ]

    -- A block that a miner builds has at most one transaction more than the limit on their number,
    -- where there is a limit.
    pub candidate_block-OneMore :
        OneMore p.consensus.max_tx_count (candidate_block c now miner blocks pending p)
    unfolding candidate_block
    candidate_block-OneMore = block_on_tip-OneMore (last? blocks)
