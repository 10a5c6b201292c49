-- ===== src/Blockchain/Grows.antt =====
-- Only a valid chain is written: AddBlockWithNetwork of
-- deskachain/node/internal/chain/blockchain.go and the chains that grow by valid blocks.
use des_ka_project.Prelude.{◌≡◌, List, [], ◌∷◌, ◌++◌, Str, ok, ◌⊎◌, inl, inr}
use des_ka_project.Prelude.Int.{ℤ}
use des_ka_project.Config.{NetworkConfig}
use des_ka_project.Types.Crypto.{Crypto}
use des_ka_project.Types.Block.{Block}
use des_ka_project.Chain.Whole.Accepted.{
  IsChain, Fresh, see, validate_next_block_with_network-IsChain,
}
use des_ka_project.Snapshot.{Snapshot}
use des_ka_project.Blockchain.{Store, add_block_with_network}
use des_ka_project.Blockchain.Atomic.{Refused, after_reads, read-Outcome}

module _ (c : Crypto) {S : Type 0} (store : Store S) (block_json : Block → Str) (now : ℤ)
    (p : NetworkConfig) (b : Block) (s : S) where
  abbrev pub Accepted : List Block → List Str → Type 0
  Accepted = IsChain c block_json now p.difficulty p.consensus p

  -- Adding a block whose transactions have new ids, to any store from which a valid chain is read,
  -- either ends with one write of the block, with which the chain read is a valid chain again, or
  -- returns an error, and the store has only been read.
  pub add_block_with_network-IsChain :
      (blocks : List Block) (seen : List Str)
      → (store.blocks s).0 ≡ ok blocks
      → Accepted blocks seen
      → Fresh seen b.transactions
      → ((n : Snapshot) × (add_block_with_network c store block_json now b p s
            ≡ store.save_block_and_state b n (after_reads c store block_json now p b s))
          × Accepted (blocks ++ b ∷ []) (see seen b.transactions))
        ⊎ Refused c store block_json now p b s (add_block_with_network c store block_json now b p s)
  add_block_with_network-IsChain blocks seen read valid fresh =
      elim (read-Outcome c store block_json now p b s blocks read) [
        | inl saved ↦ inl (
          saved.snapshot,
          saved.written,
          validate_next_block_with_network-IsChain c block_json now p.difficulty p.consensus p b
              saved.tip blocks seen valid saved.is_tip fresh saved.valid,
        )
        | inr refused ↦ inr refused
      ]
