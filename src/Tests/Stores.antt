-- ===== src/Tests/Stores.antt =====
-- A store in memory, and the adding of a block to it.
use des_ka_project.Prelude.{
  ◌≡◌, refl, ◌⊎◌, true, false, List, [], ◌∷◌, ◌++◌, Result, ok, err, msg, last?, none, some, arith,
}
use des_ka_project.Prelude.Int.{pos}
use des_ka_project.Config.{localnet}
use des_ka_project.Types.Block.{Block}
use des_ka_project.Blockchain.{Store, add_block_with_network}
use des_ka_project.Blockchain.Atomic.{Saved, Refused, add_block_with_network-Outcome}
use des_ka_project.Blockchain.Grows.{Accepted, add_block_with_network-IsChain}
use des_ka_project.Chain.Whole.Accepted.{see}
use des_ka_project.Blockchain.Candidate.{candidate_block}
use des_ka_project.Blockchain.Candidate.Full.{OneMore, candidate_block-OneMore}
use des_ka_project.Blockchain.Queries.Answers.{
  Indexed, NotIndexed, FromIndex, FromBlocks, asset_queries_lem,
}
use des_ka_project.Blockchain.Audit.{validate_state_with_network}
use des_ka_project.Blockchain.Audit.Sound.{ReadOnly, Post, Right, validate_state_with_network-Right}
use des_ka_project.Snapshot.{Snapshot, snapshot_for_blocks}
use des_ka_project.Tests.Data.{alice, gold, toy, transfer_tx}
use des_ka_project.Tests.Validation.{
  zero_hash, net, block_json, clock, genesis_block, first_block, runs, start,
}

abbrev last_block : List Block → Result Block
last_block bs = elim (last? bs) [ none ↦ err (msg "chain is not initialized") | some b ↦ ok b ]

-- The blocks, and no stored state.
abbrev memory : Store (List Block)
memory = record {
  is_state_store = true;
  is_query_store = false;
  is_block_state_store = true;
  has_chain = λ bs. (ok true, bs);
  blocks = λ bs. (ok bs, bs);
  tip = λ bs. (last_block bs, bs);
  get_block_by_height = λ height bs. (last_block bs, bs);
  load_state = λ bs. (err (msg "state not found"), bs);
  save_state = λ snapshot bs. (ok tt, bs);
  save_block_and_state = λ b snapshot bs. (ok tt, bs ++ b ∷ []);
  replace_from_height_and_state = λ from blocks snapshot bs. (err (msg "not supported"), bs);
  validate_chain_state_consistency = λ bs. (ok tt, bs);
  get_state_metadata = λ bs. (err (msg "state not found"), bs);
  get_state_account = λ address bs. (err (msg "state not found"), bs);
  get_state_stakes_for_address = λ address bs. (err (msg "state not found"), bs);
  validate_state_indexes = λ bs. (ok tt, bs);
  is_asset_query_store = false;
  get_state_asset = λ id bs. (err (msg "state not found"), bs);
  get_state_asset_balance = λ address id bs. (err (msg "state not found"), bs);
  get_state_asset_balances_for_address = λ address bs. (err (msg "state not found"), bs);
}

add_block_with_network-Outcome_example :
    ((blocks : List Block) × (ok (genesis_block ∷ []) ≡ ok blocks)
      × Saved zero_hash memory block_json clock net first_block (genesis_block ∷ []) blocks (
          add_block_with_network zero_hash memory block_json clock first_block net
            (genesis_block ∷ [])))
    ⊎ Refused zero_hash memory block_json clock net first_block (genesis_block ∷ []) (
        add_block_with_network zero_hash memory block_json clock first_block net
          (genesis_block ∷ []))
add_block_with_network-Outcome_example =
    add_block_with_network-Outcome zero_hash memory block_json clock net first_block
      (genesis_block ∷ [])

add_block_with_network-IsChain_example :
    ((n : Snapshot) × (add_block_with_network zero_hash memory block_json clock first_block net
          (genesis_block ∷ [])
        ≡ (ok tt, genesis_block ∷ first_block ∷ []))
      × Accepted zero_hash memory block_json clock net first_block
          (genesis_block ∷ [])
          (genesis_block ∷ first_block ∷ [])
          (see [] first_block.transactions))
    ⊎ Refused zero_hash memory block_json clock net first_block (genesis_block ∷ []) (
        add_block_with_network zero_hash memory block_json clock first_block net
          (genesis_block ∷ []))
add_block_with_network-IsChain_example =
    add_block_with_network-IsChain zero_hash memory block_json clock net first_block
      (genesis_block ∷ []) (genesis_block ∷ []) [] refl start (refl, runs.4, tt)

candidate_block-OneMore_example :
    OneMore 2000
      (candidate_block toy (pos 1717300000) alice (genesis_block ∷ []) (transfer_tx ∷ []) localnet)
unfolding localnet
candidate_block-OneMore_example =
    candidate_block-OneMore toy localnet (omega arith) (pos 1717300000) alice (genesis_block ∷ [])
      (transfer_tx ∷ [])

-- A store with an index of a state that is not the tip's.
abbrev behind : Store (List Block)
behind = record memory {
  is_asset_query_store = true;
  get_state_metadata = λ bs. (ok (3, 9, []), bs);
  get_state_asset_balance = λ address id bs. (ok 17, bs);
}

asset_queries_lem_example :
    (Indexed behind (genesis_block ∷ []) genesis_block (genesis_block ∷ []) refl refl refl true
      × FromIndex behind
          (genesis_block ∷ [])
          genesis_block
          (genesis_block ∷ [])
          refl
          refl
          refl
          toy
          alice
          gold
          localnet)
    ⊎ (NotIndexed behind (genesis_block ∷ []) genesis_block (genesis_block ∷ []) refl refl refl true
        × FromBlocks behind
            (genesis_block ∷ [])
            genesis_block
            (genesis_block ∷ [])
            refl
            refl
            refl
            toy
            alice
            gold
            localnet)
asset_queries_lem_example =
    asset_queries_lem behind (genesis_block ∷ []) genesis_block (genesis_block ∷ []) refl refl refl
      toy alice gold localnet

-- A store with the snapshot of its blocks.
abbrev stored : Store (List Block)
stored = record memory {
  is_query_store = true;
  load_state = λ bs. (snapshot_for_blocks toy bs localnet.consensus localnet, bs);
}

stored-ReadOnly : ReadOnly stored
stored-ReadOnly = record { tip_keeps = λ s. refl; indexes_keep = λ s. refl; load_keeps = λ s. refl }

validate_state_with_network-Right_example :
    Post
      (Right toy stored stored-ReadOnly localnet (genesis_block ∷ []))
      (validate_state_with_network toy stored localnet (genesis_block ∷ []))
validate_state_with_network-Right_example =
    validate_state_with_network-Right toy stored stored-ReadOnly localnet (genesis_block ∷ [])
