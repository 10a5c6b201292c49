-- ===== src/Chain/Whole/Accepted.antt =====
-- The chains that deskachain/node/internal/chain/validation.go accepts, as those that grow from the
-- genesis block by one valid block at a time.
use mathlib.Core.List.{append_assoc, append-nil}
use des_ka_project.Prelude.{
  ℕ, ◌+◌, ◌≡◌, refl, ◌∙◌, sym, subst, true, false, not, List, [], ◌∷◌, ◌++◌, ◌=s◌, is_empty, ◌==◌,
  arith, msg, Result, ok, err, ⊤, check, map_err, Str, last?, some,
}
use des_ka_project.Prelude.Int.{ℤ}
use des_ka_project.Prelude.Results.{
  check-ok, check-not-ok, check-equal-ok, check-same-ok, then-ok, bind-ok, map_err-ok,
}
use des_ka_project.Arith.{add}
use des_ka_project.Config.{DifficultyParams, ConsensusParams, NetworkConfig}
use des_ka_project.Types.{Transaction}
use des_ka_project.Types.Crypto.{Crypto}
use des_ka_project.Types.Block.{Block}
use des_ka_project.Types.Block.Header.{calculate_hash}
use des_ka_project.Mempool.{mem}
use des_ka_project.Chain.Validation.{validate_block, validate_next_block_with_network}
use des_ka_project.Chain.Validation.Sound.{IsValidBlock, validate_block-IsValidBlock}
use des_ka_project.Chain.Whole.{
  is_genesis, see_transactions, block_error, validate_links, validate_chain, ValidationResult,
}

-- Transactions with ids that are not seen before, and the ids seen afterwards.
abbrev pub Fresh : List Str → List Transaction → Type 0
Fresh seen [] = ⊤
Fresh seen (tx ∷ txs) =
    (is_empty tx.id ≡ false) × (mem tx.id seen ≡ false) × Fresh (tx.id ∷ seen) txs

abbrev pub see : List Str → List Transaction → List Str
see seen [] = seen
see seen (tx ∷ txs) = see (tx.id ∷ seen) txs

see_transactions-Fresh :
    (seen : List Str) (txs : List Transaction) (seen' : List Str)
    → see_transactions seen txs ≡ ok seen'
    → Fresh seen txs × (seen' ≡ see seen txs)
unfolding see_transactions
see_transactions-Fresh seen [] seen' h = ground arith
see_transactions-Fresh seen (tx ∷ txs) seen' h =
    let (a, h₁) = then-ok {r = check (is_empty tx.id) (msg "block empty tx id")} h in
    let (b, h₂) = then-ok {r = check (mem tx.id seen) (msg "block duplicate tx id")} h₁ in
    let (fresh, same) = see_transactions-Fresh (tx.id ∷ seen) txs seen' h₂ in
    (
      (
        check-ok (is_empty tx.id) (msg "block empty tx id") a,
        check-ok (mem tx.id seen) (msg "block duplicate tx id") b,
        fresh,
      ),
      same,
    )

block_error-ok : (r : Result ⊤) → block_error r ≡ ok tt → r ≡ ok tt
block_error-ok (ok _) h = refl
block_error-ok (err e) h = ground arith

add_one : (a n : ℕ) → add a 1 ≡ ok n → n ≡ a + 1
unfolding add
add_one a n h = ground arith

pub last?-snoc : (bs : List Block) (b : Block) → last? (bs ++ b ∷ []) ≡ some b
last?-snoc [] b = refl
last?-snoc (x ∷ []) b = refl
last?-snoc (x ∷ y ∷ bs) b = last?-snoc (y ∷ bs) b

module _ (c : Crypto) (block_json : Block → Str) (now : ℤ) (params : DifficultyParams)
    (consensus : ConsensusParams) (p : NetworkConfig) where
  -- The chains, with the ids of the transactions behind the genesis block.
  pub data IsChain : List Block → List Str → Type 0 where
    genesis :
        {g : Block} → is_genesis c g p ≡ true → g.hash ≡ calculate_hash c g → IsChain (g ∷ []) []
    extend :
        {prior : List Block} {seen : List Str} {prev b : Block}
        → IsChain prior seen
        → last? prior ≡ some prev
        → b.previous_hash ≡ prev.hash
        → b.height ≡ prev.height + 1
        → IsValidBlock c block_json now params consensus p prior b
        → Fresh seen b.transactions
        → IsChain (prior ++ b ∷ []) (see seen b.transactions)

  validate_links-IsChain :
      (prior : List Block) (prev : Block) (seen : List Str) (bs : List Block)
      → IsChain prior seen
      → last? prior ≡ some prev
      → validate_links c block_json now params consensus p prior prev seen bs ≡ ok tt
      → (seen' : List Str) × IsChain (prior ++ bs) seen'
  unfolding validate_links
  validate_links-IsChain prior prev seen [] chain tip h =
      (seen, subst (λ bs. IsChain bs seen) (sym (append-nil prior)) chain)
  validate_links-IsChain prior prev seen (b ∷ bs) chain tip h =
      let linked = msg "block previous_hash mismatch" in
      let (a, h₁) = then-ok {r = check (not (b.previous_hash =s prev.hash)) linked} h in
      let (height, e, h₂) =
        bind-ok {r = map_err (msg "block height overflow") (add prev.height 1)} h₁ in
      let (d, h₃) =
        then-ok {r = check (not (b.height == height)) (msg "block height mismatch")} h₂ in
      let (v, h₄) =
        then-ok {r = block_error (validate_block c block_json now b prior params consensus p)} h₃ in
      let (seen', s, h₅) = bind-ok {r = see_transactions seen b.transactions} h₄ in
      let same = check-same-ok b.previous_hash prev.hash linked a in
      let high = check-equal-ok b.height height (msg "block height mismatch") d in
      let up =
        add_one prev.height height
          (map_err-ok (msg "block height overflow") (add prev.height 1) e) in
      let (fresh, seen_same) = see_transactions-Fresh seen b.transactions seen' s in
      let chain' =
        extend chain tip same (high ∙ up)
          (validate_block-IsValidBlock c block_json now params consensus p prior b
            (block_error-ok (validate_block c block_json now b prior params consensus p) v))
          fresh in
      let step = subst (IsChain (prior ++ b ∷ [])) (sym seen_same) chain' in
      let (seen_all, whole) =
        validate_links-IsChain (prior ++ b ∷ []) b seen' bs step (last?-snoc prior b) h₅ in
      (seen_all, subst (λ bs'. IsChain bs' seen_all) (append_assoc prior (b ∷ []) bs) whole)

  -- A chain that passes the check grows from the genesis block by one valid block at a time: each
  -- names its parent's hash, is one higher, is valid on the blocks before it, and has transactions
  -- with new ids.
  pub validate_chain-IsChain :
      (bs : List Block) (r : ValidationResult)
      → validate_chain c block_json now params consensus p bs ≡ ok r
      → (seen : List Str) × IsChain bs seen
  unfolding validate_chain
  validate_chain-IsChain [] r h = ground arith
  validate_chain-IsChain (g ∷ bs) r h =
      let not_genesis = msg "genesis block is not deterministic" in
      let (a, h₁) = then-ok {r = check (not (is_genesis c g p)) not_genesis} h in
      let (b, h₂) =
        then-ok {r = check (not (g.hash =s calculate_hash c g)) (msg "block 0 hash mismatch")} h₁ in
      let (links, h₃) =
        then-ok {r = validate_links c block_json now params consensus p (g ∷ []) g [] bs} h₂ in
      let is_first = check-not-ok (is_genesis c g p) not_genesis a in
      let hashed = check-same-ok g.hash (calculate_hash c g) (msg "block 0 hash mismatch") b in
      validate_links-IsChain (g ∷ []) g [] bs (genesis is_first hashed) refl links

  -- A block that passes the check for the next block, with transactions of new ids, extends a
  -- valid chain whose last block is the tip.
  pub validate_next_block_with_network-IsChain :
      (b tip : Block) (prior : List Block) (seen : List Str)
      → IsChain prior seen
      → last? prior ≡ some tip
      → Fresh seen b.transactions
      → validate_next_block_with_network c block_json now b tip prior params consensus p ≡ ok tt
      → IsChain (prior ++ b ∷ []) (see seen b.transactions)
  unfolding validate_next_block_with_network
  validate_next_block_with_network-IsChain b tip prior seen chain is_tip fresh h =
      let (height, e, h₁) =
        bind-ok {r = map_err (msg "block height overflow") (add tip.height 1)} h in
      let (a, h₂) =
        then-ok {r = check (not (b.height == height)) (msg "invalid block height")} h₁ in
      let linked = msg "previous hash does not match tip" in
      let (d, v) = then-ok {r = check (not (b.previous_hash =s tip.hash)) linked} h₂ in
      let high = check-equal-ok b.height height (msg "invalid block height") a in
      let same = check-same-ok b.previous_hash tip.hash linked d in
      let up =
        add_one tip.height height (map_err-ok (msg "block height overflow") (add tip.height 1) e) in
      extend chain is_tip same (high ∙ up)
        (validate_block-IsValidBlock c block_json now params consensus p prior b v) fresh
