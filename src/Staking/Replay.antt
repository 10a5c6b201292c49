-- ===== src/Staking/Replay.antt =====
-- Stakes of a chain, and the stakes that waiting transactions unlock: Replay and PendingUnlockIDs of
-- deskachain/node/internal/staking/staking.go.
use des_ka_project.Prelude.{
  ◌&&◌, List, [], ◌∷◌, Str, ◌=s◌, if◌then◌else◌, last?, none, some, Result, ok, err, ⊤, Proc, pure,
  ◌>>◌,
}
use des_ka_project.Prelude.Dict.{Dict, insert}
use des_ka_project.Config.{StakingParams}
use des_ka_project.Types.{Transaction, tx_type, tx_type_stake_unlock}
use des_ka_project.Types.Block.{Block}
use des_ka_project.Staking.{State, new_state, apply_block, refresh_released}

unfoldable pub stakes_of_blocks : List Block → Proc State ⊤
stakes_of_blocks [] = pure tt
stakes_of_blocks (b ∷ bs) = do apply_block b.height b.transactions; stakes_of_blocks bs

abbrev released_at_tip : List Block → State → State
released_at_tip bs s = elim (last? bs) [ none ↦ s | some tip ↦ refresh_released tip.height s ]

-- `Replay`
unfoldable pub replay_stakes : List Block → StakingParams → Result State
replay_stakes bs params =
    let (r, s) = stakes_of_blocks bs (new_state params) in
    elim r [ ok _ ↦ ok (released_at_tip bs s) | err e ↦ err e ]

abbrev unlock_ids : Dict ⊤ → List Transaction → Str → Dict ⊤
unlock_ids out [] address = out
unlock_ids out (tx ∷ txs) address =
    let with_id = unlock_ids (insert tx.stake_id tt out) txs address in
    let without = unlock_ids out txs address in
    if tx_type tx =s tx_type_stake_unlock && tx.from =s address then with_id else without

-- `PendingUnlockIDs`: a set, as a map to nothing.
unfoldable pub pending_unlock_ids : List Transaction → Str → Dict ⊤
pending_unlock_ids txs address = unlock_ids [] txs address
