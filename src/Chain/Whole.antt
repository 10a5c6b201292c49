-- ===== src/Chain/Whole.antt =====
-- The check of a whole chain: validateChain of deskachain/node/internal/chain/validation.go.
pub mod Accepted
pub mod Coins
pub mod Premine
use des_ka_project.Prelude.{
  ℕ, Bool, not, ◌&&◌, List, [], ◌∷◌, ◌++◌, none, some, Str, codes, ◌=s◌, is_empty, has_prefix, ◌==◌,
  if◌then◌else◌, length, last?, Error, msg, wrap, Result, ok, err, ⊤, check, map_err,
}
use des_ka_project.Prelude.Int.{ℤ, ltb_ℤ}
use des_ka_project.Prelude.Results.{◌>>=◌, ◌>>◌}
use des_ka_project.Prelude.Errors.{error_text}
use des_ka_project.Arith.{add}
use des_ka_project.Config.{DifficultyParams, ConsensusParams, NetworkConfig}
use des_ka_project.Types.{Transaction}
use des_ka_project.Types.Crypto.{Crypto}
use des_ka_project.Types.Block.{Block}
use des_ka_project.Types.Block.Header.{calculate_hash}
use des_ka_project.Mempool.{mem}
use des_ka_project.Ledger.Supply.{total_supply_with_profile}
use des_ka_project.Chain.Genesis.{genesis_block_for_network}
use des_ka_project.Chain.Validation.{validate_block}

pub record ValidationResult : Type 0 where
  pub height : ℕ
  pub blocks : ℕ
  pub total_supply : ℕ

-- The ids of the transactions, added to those seen.
unfoldable pub see_transactions : List Str → List Transaction → Result (List Str)
see_transactions seen [] = ok seen
see_transactions seen (tx ∷ txs) = do
  check (is_empty tx.id) (msg "block empty tx id")
  check (mem tx.id seen) (msg "block duplicate tx id")
  see_transactions (tx.id ∷ seen) txs

-- An error of the difficulty keeps its text, another one is wrapped.
abbrev pub block_error : Result ⊤ → Result ⊤
block_error (ok _) = ok tt
block_error (err e) =
    if has_prefix (error_text e) (codes "invalid difficulty at height")
    then err e
    else err (wrap "block" e)

module _ (c : Crypto) where
  abbrev pub is_genesis : Block → NetworkConfig → Bool
  is_genesis b p =
      let genesis = genesis_block_for_network c p in
      b.hash =s genesis.hash
      && b.height == genesis.height
      && b.previous_hash =s genesis.previous_hash
      && not (ltb_ℤ b.timestamp genesis.timestamp)
      && not (ltb_ℤ genesis.timestamp b.timestamp)
      && b.merkle_root =s genesis.merkle_root
      && b.genesis_marker =s genesis.genesis_marker

  module _ (block_json : Block → Str) (now : ℤ) (params : DifficultyParams)
      (consensus : ConsensusParams) (p : NetworkConfig) where
    -- The blocks behind `prev`, the last of `prior`.
    unfoldable pub validate_links : List Block → Block → List Str → List Block → Result ⊤
    validate_links prior prev seen [] = ok tt
    validate_links prior prev seen (b ∷ bs) = do
      check (not (b.previous_hash =s prev.hash)) (msg "block previous_hash mismatch")
      expected_height ← map_err (msg "block height overflow") (add prev.height 1)
      check (not (b.height == expected_height)) (msg "block height mismatch")
      block_error (validate_block c block_json now b prior params consensus p)
      seen' ← see_transactions seen b.transactions
      validate_links (prior ++ b ∷ []) b seen' bs

    unfoldable pub validate_chain : List Block → Result ValidationResult
    validate_chain [] = err (msg "chain is empty")
    validate_chain (g ∷ bs) = do
      check (not (is_genesis g p)) (msg "genesis block is not deterministic")
      check (not (g.hash =s calculate_hash c g)) (msg "block 0 hash mismatch")
      validate_links (g ∷ []) g [] bs
      ok (record {
        height = elim (last? bs) [ none ↦ g.height | some tip ↦ tip.height ];
        blocks = length (g ∷ bs);
        total_supply = total_supply_with_profile (g ∷ bs) p;
      })

  unfoldable pub validate_chain_with_network :
      (Block → Str) → ℤ → List Block → NetworkConfig → Result ValidationResult
  validate_chain_with_network block_json now blocks p =
      validate_chain block_json now p.difficulty p.consensus p blocks
