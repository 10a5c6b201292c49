-- ===== src/Chain/Whole/Premine.antt =====
-- The transactions of the genesis block are not covered by the check of a chain.
use des_ka_project.Prelude.{◌≡◌, refl, true, List, [], ◌∷◌, ◌=s◌, ok, arith, Str}
use des_ka_project.Prelude.Int.{ℤ}
use des_ka_project.Config.{DifficultyParams, ConsensusParams, NetworkConfig}
use des_ka_project.Types.{Transaction}
use des_ka_project.Types.Crypto.{Crypto}
use des_ka_project.Types.Block.{Block, block_protocol_version}
use des_ka_project.Types.Block.Header.{
  calculate_hash, header_bytes_with_nonce, canonical_header_bytes_with_nonce,
}
use des_ka_project.Ledger.Supply.{total_supply_with_profile}
use des_ka_project.Chain.Genesis.{genesis_block_for_network}
use des_ka_project.Chain.Whole.{validate_chain, validate_links, is_genesis}

module _ (c : Crypto) (p : NetworkConfig) where
  abbrev pub with_transactions : List Transaction → Block
  with_transactions txs = record (genesis_block_for_network c p) { transactions = txs }

  =s-refl : (s : Str) → s =s s ≡ true
  =s-refl s = ground arith

  hash-with_transactions :
      (txs : List Transaction)
      → (with_transactions txs).hash ≡ calculate_hash c (with_transactions txs)
  unfolding genesis_block_for_network calculate_hash header_bytes_with_nonce
      canonical_header_bytes_with_nonce block_protocol_version
  hash-with_transactions txs = refl

  is_genesis-genesis : is_genesis c (genesis_block_for_network c p) p ≡ true
  is_genesis-genesis = ground (arith, =s-refl (genesis_block_for_network c p).hash)

  no_supply :
      (txs : List Transaction) → total_supply_with_profile (with_transactions txs ∷ []) p ≡ 0
  unfolding total_supply_with_profile genesis_block_for_network
  no_supply txs = refl

  height-genesis : (genesis_block_for_network c p).height ≡ 0
  unfolding genesis_block_for_network
  height-genesis = refl

  module _ (block_json : Block → Str) (now : ℤ) (params : DifficultyParams)
      (consensus : ConsensusParams) where
    -- The check of a chain accepts the genesis block of the network with any transactions in it,
    -- and reports no supply for them: they are neither hashed nor compared.
    pub validate_chain-with_transactions :
        (txs : List Transaction)
        → validate_chain c block_json now params consensus p (with_transactions txs ∷ [])
          ≡ ok (record { height = 0; blocks = 1; total_supply = 0 })
    unfolding validate_chain validate_links
    validate_chain-with_transactions txs =
        let is_first : is_genesis c (with_transactions txs) p ≡ true = is_genesis-genesis in
        ground (
          arith,
          is_first,
          hash-with_transactions txs,
          no_supply txs,
          height-genesis,
          =s-refl (genesis_block_for_network c p).hash,
        )
