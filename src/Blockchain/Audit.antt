-- ===== src/Blockchain/Audit.antt =====
-- The check of the stored state against the stored blocks: ValidateStateWithNetwork of
-- deskachain/node/internal/chain/blockchain.go.
pub mod Sound
use des_ka_project.Prelude.{
  ℕ, Bool, true, false, not, List, [], Str, if◌then◌else◌, Option, none, some, Error, msg, Result,
  ok, err, ⊤, Proc, pure, fail_if, ◌>>=◌, ◌>>◌, length,
}
use des_ka_project.Config.{NetworkConfig}
use des_ka_project.Types.Crypto.{Crypto}
use des_ka_project.Types.Block.{Block}
use des_ka_project.Snapshot.{Snapshot, snapshot_for_blocks}
use des_ka_project.Snapshot.Equivalent.{equivalent}
use des_ka_project.Blockchain.{Store, attempt}
use des_ka_project.Blockchain.Queries.{or_local}

-- The text of an error is the error.
pub record StateValidationResult : Type 0 where
  pub valid : Bool
  pub height : ℕ
  pub state_root : Str
  pub accounts : ℕ
  pub stakes : ℕ
  pub pending_coinbases : ℕ
  pub error : Option Error

-- A result and the error that is returned with it.
abbrev pub Verdict : Type 0
Verdict = StateValidationResult × Option Error

abbrev pub broken_indexes : Block → Error → Verdict
broken_indexes tip e = (
  record {
    valid = false;
    height = tip.height;
    state_root = [];
    accounts = 0;
    stakes = 0;
    pending_coinbases = 0;
    error = some e;
  },
  some e,
)

abbrev pub mismatch : Error
mismatch = msg "state snapshot does not match canonical chain"

-- What the comparison says.
abbrev pub verdict_of : Snapshot → Bool → Verdict
verdict_of persisted valid =
    let error = if valid then none else some mismatch in
    (
      record {
        valid = valid;
        height = persisted.height;
        state_root = persisted.state_root;
        accounts = length persisted.accounts;
        stakes = length persisted.stakes;
        pending_coinbases = length persisted.coinbases;
        error = error;
      },
      error,
    )

-- The stored snapshot beside the one that the blocks give.
abbrev pub judge : Block → Snapshot → Result Snapshot → Verdict
judge tip persisted (err e) = (
  record {
    valid = false;
    height = tip.height;
    state_root = persisted.state_root;
    accounts = 0;
    stakes = 0;
    pending_coinbases = 0;
    error = none;
  },
  some e,
)
judge tip persisted (ok expected) = verdict_of persisted (equivalent persisted expected)

module _ (c : Crypto) {S : Type 0} (store : Store S) (p : NetworkConfig) where
  abbrev pub compare_blocks : Block → Snapshot → List Block → Proc S Verdict
  compare_blocks tip persisted blocks =
      pure (judge tip persisted (snapshot_for_blocks c blocks (or_local p).consensus (or_local p)))

  abbrev pub compare_state : Block → Snapshot → Proc S Verdict
  compare_state tip persisted = store.blocks >>= compare_blocks tip persisted

  abbrev pub compare_stored : Block → Result ⊤ → Proc S Verdict
  compare_stored tip (err e) = pure (broken_indexes tip e)
  compare_stored tip (ok _) = store.load_state >>= compare_state tip

  abbrev pub check_stored : Block → Proc S Verdict
  check_stored tip =
      fail_if (not store.is_query_store) (msg "state query store is not available")
      >> (attempt c store store.validate_state_indexes >>= compare_stored tip)

  unfoldable pub validate_state_with_network : Proc S Verdict
  validate_state_with_network =
      fail_if (not store.is_state_store) (msg "state store is not available")
      >> (store.tip >>= check_stored)
