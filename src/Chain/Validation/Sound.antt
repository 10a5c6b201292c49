-- ===== src/Chain/Validation/Sound.antt =====
-- What a block is that deskachain/node/internal/chain/validation.go accepts.
use des_ka_project.Prelude.{
  ◌≡◌, ◌<◌, ap, sym, ◌∙◌, not, List, ◌=s◌, ltb, ◌==◌, if◌then◌else◌, arith, msg, ok, check,
  wrap_err, Str, is_empty, lt→ltb,
}
use des_ka_project.Prelude.Int.{ℤ}
use des_ka_project.Prelude.Results.{check-same-ok, then-ok, bind-ok, when-ok, wrap_err-ok}
use des_ka_project.Config.{DifficultyParams, ConsensusParams, NetworkConfig}
use des_ka_project.Types.Crypto.{Crypto}
use des_ka_project.Types.Block.{
  Block, block_protocol_version, block_version_canonical, validate_block_version,
  calculate_merkle_root,
}
use des_ka_project.Types.Block.Header.{calculate_hash}
use des_ka_project.Ledger.{MatureLedger, clone}
use des_ka_project.Ledger.Apply.{apply_block, replay_mature_with_profile}
use des_ka_project.StateRoot.{root_for_ledger}
use des_ka_project.Chain.Resources.{validate_block_resources}
use des_ka_project.Chain.Validation.{
  check_transactions, check_reward, check_position, apply_checked, validate_state_root,
  validate_block,
}
use des_ka_project.Chain.Validation.Parts.{
  FitsLimits, IsPlaced, IsRewarded, validate_block_resources-ok, check_position-ok, check_reward-ok,
}

module _ (c : Crypto) (block_json : Block → Str) (now : ℤ) where
  -- The block gives the state that its state root names.
  pub record IsCommitted (b : Block) (pre_block : MatureLedger) : Type 0 where
    pub applied : (apply_block c b (clone pre_block).0).0 ≡ ok tt
    pub state_root : (root_for_ledger c (apply_block c b (clone pre_block).0).1).0 ≡ ok b.state_root

  validate_state_root-ok :
      (b : Block) (pre_block : MatureLedger)
      → validate_state_root c b pre_block ≡ ok tt
      → IsCommitted b pre_block
  unfolding validate_state_root
  validate_state_root-ok b pre_block h =
      let run = apply_block c b (clone pre_block).0 in
      let root = root_for_ledger c run.1 in
      let (a, h₁) = then-ok {r = wrap_err "state root replay failed" run.0} h in
      let (expected, e, h₂) = bind-ok {r = wrap_err "state root calculation failed" root.0} h₁ in
      let (f, g) =
        then-ok {r = check (is_empty b.state_root) (msg "canonical block state root is empty")}
          h₂ in
      let is_root = check-same-ok b.state_root expected (msg "state root mismatch") g in
      record {
        applied = wrap_err-ok "state root replay failed" run.0 a;
        state_root = wrap_err-ok "state root calculation failed" root.0 e ∙ ap ok (sym is_root);
      }

  -- A block that may follow the blocks of `prior`.
  pub record IsValidBlock (params : DifficultyParams) (consensus : ConsensusParams)
      (p : NetworkConfig) (prior : List Block) (b : Block) : Type 0 where
    pub version : validate_block_version (block_protocol_version b) p.block_version ≡ ok tt
    pub hash : b.hash ≡ calculate_hash c b
    pub merkle_root : b.merkle_root ≡ calculate_merkle_root c b.transactions
    pub limits : FitsLimits c block_json now p b
    pub placed : 0 < b.height → IsPlaced c block_json now params p prior b
    pub rewarded : 0 < b.height → IsRewarded c block_json now p b.transactions
    pub before : MatureLedger
    pub replayed : replay_mature_with_profile c prior consensus p ≡ ok before
    pub executes : (apply_checked c b.height b.transactions (clone before).1).0 ≡ ok tt
    pub committed :
        block_protocol_version b ≡ block_version_canonical → IsCommitted b (clone before).0

  pub validate_block-IsValidBlock :
      (params : DifficultyParams) (consensus : ConsensusParams) (p : NetworkConfig)
      (prior : List Block) (b : Block)
      → validate_block c block_json now b prior params consensus p ≡ ok tt
      → IsValidBlock params consensus p prior b
  unfolding validate_block
  validate_block-IsValidBlock params consensus p prior b h =
      let above = ltb 0 b.height in
      let (v, h₁) =
        then-ok {r = validate_block_version (block_protocol_version b) p.block_version} h in
      let (a, h₂) =
        then-ok {r = check (not (b.hash =s calculate_hash c b)) (msg "block hash mismatch")} h₁ in
      let (d, h₃) =
        then-ok
          {r = check (not (b.merkle_root =s calculate_merkle_root c b.transactions))
            (msg "merkle root mismatch")}
          h₂ in
      let (limits, h₄) = then-ok {r = validate_block_resources c block_json b p.consensus p} h₃ in
      let (placed, h₅) =
        then-ok {r = if above then check_position c now b prior params p else ok tt} h₄ in
      let (tally, t, h₆) = bind-ok {r = check_transactions c p 0 b.transactions (0, 0)} h₅ in
      let (rewarded, h₇) =
        then-ok {r = if above then check_reward c p tally b.transactions else ok tt} h₆ in
      let (l, e, h₈) = bind-ok {r = replay_mature_with_profile c prior consensus p} h₇ in
      let (executes, committed) =
        then-ok {r = (apply_checked c b.height b.transactions (clone l).1).0} h₈ in
      let hashed = check-same-ok b.hash (calculate_hash c b) (msg "block hash mismatch") a in
      let merkle =
        check-same-ok b.merkle_root (calculate_merkle_root c b.transactions)
          (msg "merkle root mismatch") d in
      record {
        version = v;
        hash = hashed;
        merkle_root = merkle;
        limits = validate_block_resources-ok c block_json now b p limits;
        placed = λ up.
            check_position-ok c block_json now params p prior b
              (when-ok placed (lt→ltb 0 b.height up));
        rewarded = λ up.
            check_reward-ok c block_json now p b.transactions tally t
              (when-ok rewarded (lt→ltb 0 b.height up));
        before = l;
        replayed = e;
        executes = executes;
        committed = λ canonical. validate_state_root-ok b (clone l).0 (
            when-ok {b = block_protocol_version b == block_version_canonical} committed
              (ground arith));
      }
