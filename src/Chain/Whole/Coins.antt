-- ===== src/Chain/Whole/Coins.antt =====
-- The supply and the height of an accepted chain: validateChain of
-- deskachain/node/internal/chain/validation.go and TotalSupplyWithProfile of ledger/ledger.go.
use des_ka_project.Prelude.{
  ℕ, suc, ◌+◌, ◌*◌, ◌≡◌, ◌≤◌, ◌<◌, refl, ◌∙◌, ap, sym, Bool, true, false, List, [], ◌∷◌, ◌++◌, All,
  ltb, leb, ◌==◌, if◌then◌else◌, arith, ok, check, msg, not, ◌=s◌, Str, last?, some, none, length,
  length-append,
}
use des_ka_project.Prelude.Int.{ℤ}
use des_ka_project.Prelude.Results.{then-ok}
use des_ka_project.Arith.{max_u64, add_cap, add}
use des_ka_project.Config.{DifficultyParams, ConsensusParams, NetworkConfig, initial_block_reward}
use des_ka_project.Types.{Transaction, tx_version_asset}
use des_ka_project.Types.Crypto.{Crypto}
use des_ka_project.Types.Block.{Block}
use des_ka_project.Types.Block.Header.{calculate_hash}
use des_ka_project.Ledger.Supply.{
  issued, supply_of_transactions, supply_of_blocks, total_supply_with_profile,
}
use des_ka_project.Chain.Genesis.{genesis_block_for_network}
use des_ka_project.Chain.Validation.Payments.{IsPayment}
use des_ka_project.Chain.Validation.Parts.{IsRewarded, reward}
use des_ka_project.Chain.Whole.{is_genesis, validate_links, validate_chain, ValidationResult}
use des_ka_project.Chain.Whole.Accepted.{
  last?-snoc, IsChain, genesis, extend, validate_chain-IsChain,
}

-- A number as the capped sums keep it.
abbrev pub capped : ℕ → ℕ
capped n = if ltb max_u64 n then max_u64 else n

add_cap-capped : (m n : ℕ) → n ≤ max_u64 → add_cap (capped m) n ≡ capped (m + n)
unfolding add_cap add
add_cap-capped m n h = ground arith

-- What each block above genesis adds.
abbrev pub per_block : NetworkConfig → ℕ
per_block p =
    if leb tx_version_asset p.tx_version then p.economic.block_subsidy else initial_block_reward

mul_suc : (m n : ℕ) → (m + 1) * n ≡ m * n + n
mul_suc m n = omega arith

not_zero : (n : ℕ) → 0 < n → (n == 0) ≡ false
not_zero n h = ground arith

per_block-le : (p : NetworkConfig) → p.economic.block_subsidy ≤ max_u64 → per_block p ≤ max_u64
per_block-le p h = ground arith

module _ (p : NetworkConfig) where
  supply-payments :
      (total : ℕ) (txs : List Transaction)
      → All (IsPayment p) txs
      → supply_of_transactions p total txs ≡ total
  supply-payments total [] ok_all = refl
  supply-payments total (tx ∷ txs) (payment, ok_all) =
      ap (λ b. supply_of_transactions p (if b then add_cap total (issued p tx) else total) txs)
        payment.not_coinbase
      ∙ supply-payments total txs ok_all

  supply-snoc :
      (total : ℕ) (bs : List Block) (b : Block)
      → supply_of_blocks p total (bs ++ b ∷ []) ≡ (
          if b.height == 0
          then supply_of_blocks p total bs
          else supply_of_transactions p (supply_of_blocks p total bs) b.transactions)
  supply-snoc total [] b = refl
  supply-snoc total (x ∷ bs) b =
      supply-snoc (if x.height == 0 then total else supply_of_transactions p total x.transactions)
        bs b

  issued-reward :
      (tx : Transaction) (fees : ℕ) → tx.amount ≡ reward p fees → issued p tx ≡ per_block p
  issued-reward tx fees h = ground arith

  -- A block with a rewarded coinbase adds its share.
  supply-rewarded :
      (c : Crypto) (block_json : Block → Str) (now : ℤ) (total : ℕ) (txs : List Transaction)
      → IsRewarded c block_json now p txs
      → supply_of_transactions p total txs ≡ add_cap total (per_block p)
  supply-rewarded c block_json now total txs r =
      ap (supply_of_transactions p total) r.paid.first_others
      ∙ ap
          (λ b.
            supply_of_transactions p (if b then add_cap total (issued p r.paid.first) else total)
              r.paid.others)
          r.paid.is_coinbase.coinbase
      ∙ supply-payments (add_cap total (issued p r.paid.first)) r.paid.others r.paid.payments
      ∙ ap (add_cap total) (issued-reward r.paid.first r.fees r.amount)

height-genesis : (c : Crypto) (p : NetworkConfig) → (genesis_block_for_network c p).height ≡ 0
unfolding genesis_block_for_network
height-genesis c p = refl

is_genesis-height :
    (c : Crypto) (p : NetworkConfig) (g : Block) → is_genesis c g p ≡ true → g.height ≡ 0
is_genesis-height c p g h = ground (arith, height-genesis c p)

module _ (c : Crypto) (block_json : Block → Str) (now : ℤ) (params : DifficultyParams)
    (consensus : ConsensusParams) (p : NetworkConfig) where
  -- The tip of a chain, its height and the coins brought into being up to it.
  record HasTip (bs : List Block) : Type 0 where
    tip : Block
    is_tip : last? bs ≡ some tip
    blocks : length bs ≡ tip.height + 1
    supply : supply_of_blocks p 0 bs ≡ capped (tip.height * per_block p)

  IsChain-HasTip :
      {bs : List Block} {seen : List Str}
      → p.economic.block_subsidy ≤ max_u64
      → IsChain c block_json now params consensus p bs seen
      → HasTip bs
  IsChain-HasTip small (genesis {g} is_first hashed) =
      let ground_level = is_genesis-height c p g is_first in
      record { tip = g; is_tip = refl; blocks = omega (arith, ground_level); supply = ground arith }
  IsChain-HasTip small (extend {prior} {seen} {prev} {b} chain at_tip linked high valid fresh) =
      let before = IsChain-HasTip small chain in
      let same : before.tip ≡ prev = cc (before.is_tip, at_tip) in
      let up : b.height ≡ before.tip.height + 1 =
        high ∙ ap (λ (k : Block). k.height + 1) (sym same) in
      let above : 0 < b.height = omega (arith, up) in
      let total = supply_of_blocks p 0 prior in
      let sum : b.height * per_block p ≡ before.tip.height * per_block p + per_block p =
        ap (λ n. n * per_block p) up ∙ mul_suc before.tip.height (per_block p) in
      let blocks : length (prior ++ b ∷ []) ≡ b.height + 1 =
        omega (arith, length-append prior (b ∷ []), before.blocks, up) in
      let share =
        add_cap-capped (before.tip.height * per_block p) (per_block p) (per_block-le p small) in
      let supply : supply_of_blocks p 0 (prior ++ b ∷ []) ≡ capped (b.height * per_block p) =
        supply-snoc p 0 prior b
        ∙ ap (λ (z : Bool). if z then total else supply_of_transactions p total b.transactions)
            (not_zero b.height above)
        ∙ supply-rewarded p c block_json now total b.transactions (valid.rewarded above)
        ∙ ap (λ n. add_cap n (per_block p)) before.supply
        ∙ share
        ∙ ap capped (sym sum) in
      record { tip = b; is_tip = last?-snoc prior b; blocks = blocks; supply = supply }

  ok_result :
      (h b s : ℕ) (r : ValidationResult)
      → ok (record { height = h; blocks = b; total_supply = s }) ≡ ok r
      → (r.height ≡ h) × (r.blocks ≡ b) × (r.total_supply ≡ s)
  ok_result h b s r e = ground arith

  abbrev tip_height : Block → List Block → ℕ
  tip_height g bs = elim (last? bs) [ none ↦ g.height | some tip ↦ tip.height ]

  tip_height-last? :
      (g : Block) (bs : List Block) (tip : Block)
      → last? (g ∷ bs) ≡ some tip
      → tip_height g bs ≡ tip.height
  tip_height-last? g [] tip h = cc (h)
  tip_height-last? g (b ∷ bs) tip h = ap (λ o. elim o [ none ↦ g.height | some k ↦ k.height ]) h

  validate_chain-result :
      (g : Block) (bs : List Block) (r : ValidationResult)
      → validate_chain c block_json now params consensus p (g ∷ bs) ≡ ok r
      → (r.height ≡ tip_height g bs)
        × (r.blocks ≡ suc (length bs))
        × (r.total_supply ≡ supply_of_blocks p 0 (g ∷ bs))
  unfolding validate_chain total_supply_with_profile
  validate_chain-result g bs r h =
      let (_, h₁) =
        then-ok {r = check (not (is_genesis c g p)) (msg "genesis block is not deterministic")} h in
      let (_, h₂) =
        then-ok {r = check (not (g.hash =s calculate_hash c g)) (msg "block 0 hash mismatch")} h₁ in
      let (_, h₃) =
        then-ok {r = validate_links c block_json now params consensus p (g ∷ []) g [] bs} h₂ in
      ok_result (tip_height g bs) (suc (length bs)) (supply_of_blocks p 0 (g ∷ bs)) r h₃

  -- Of an accepted chain, on a network whose block subsidy is a uint64: the height reported is the
  -- number of blocks less one, and the supply reported is, capped at the largest uint64, the
  -- height times what a block brings into being, the subsidy on a network with assets and the
  -- initial block reward on an older one.
  pub validate_chain-total_supply :
      (bs : List Block) (r : ValidationResult)
      → p.economic.block_subsidy ≤ max_u64
      → validate_chain c block_json now params consensus p bs ≡ ok r
      → (r.blocks ≡ r.height + 1) × (r.total_supply ≡ capped (r.height * per_block p))
  validate_chain-total_supply [] r small h =
      let (seen, chain) = validate_chain-IsChain c block_json now params consensus p [] r h in
      let top = IsChain-HasTip small chain in
      let absurd : ⊥ = omega (arith, top.blocks) in elim absurd [ ]
  validate_chain-total_supply (g ∷ bs) r small h =
      let (seen, chain) = validate_chain-IsChain c block_json now params consensus p (g ∷ bs) r h in
      let top = IsChain-HasTip small chain in
      let (height, blocks, supply) = validate_chain-result g bs r h in
      let high : r.height ≡ top.tip.height = height ∙ tip_height-last? g bs top.tip top.is_tip in
      (
        omega (arith, blocks, high, top.blocks),
        supply ∙ top.supply ∙ ap (λ n. capped (n * per_block p)) (sym high),
      )
