-- ===== src/Tests/Legacy.antt =====
-- A replay of the ledger without maturity: a coinbase, and a transfer with a fee.
use des_ka_project.Prelude.{ℕ, ◌+◌, ◌≡◌, refl, true, [], ◌∷◌, List, Str, codes, ok, str_discrete}
use des_ka_project.Prelude.Int.{pos}
use des_ka_project.Config.{localnet}
use des_ka_project.Arith.{add, sub}
use des_ka_project.Types.{Transaction, coinbase_sender, tx_type_coinbase}
use des_ka_project.Types.Block.{Block}
use des_ka_project.Ledger.Legacy.{Accounts, legacy_replay}
use des_ka_project.Ledger.Legacy.Balance.{total, burned_in, minted_in, legacy_replay-total}
use des_ka_project.Tests.Data.{alice, bob, toy, transfer_tx}

abbrev reward_tx : Transaction
reward_tx = record transfer_tx {
  from = coinbase_sender;
  to = alice;
  amount = 100;
  fee = 0;
  coinbase = true;
  type = tx_type_coinbase;
}

abbrev paid_block : Block
paid_block = record {
  version = 0;
  height = 1;
  previous_hash = [];
  timestamp = pos 1;
  nonce = 0;
  difficulty = 4;
  miner_address = alice;
  transactions = reward_tx ∷ transfer_tx ∷ [];
  merkle_root = [];
  state_root = [];
  hash = [];
  genesis_marker = [];
}

abbrev after : Accounts
after = (alice, record { balance = 68; nonce = 1 }) ∷ (bob, record { balance = 30; nonce = 0 }) ∷ []

replayed : legacy_replay toy (paid_block ∷ []) ≡ ok after
unfolding des_ka_project.Prelude.str_discrete des_ka_project.Arith.sub des_ka_project.Arith.add_cap
    des_ka_project.Config.localnet des_ka_project.Types.validate_transaction_version
    des_ka_project.Types.Codec.write_canonical_uint64
    des_ka_project.Types.Codec.write_canonical_string
    des_ka_project.Types.Codec.canonical_signing_bytes_with_chain_id
    des_ka_project.Types.Envelope.signing_bytes_with_chain_id
    des_ka_project.Types.Envelope.calculate_id_for_chain_id
    des_ka_project.Ledger.Legacy.legacy_check_form des_ka_project.Ledger.Legacy.legacy_check_account
    des_ka_project.Ledger.Legacy.legacy_validate_transaction des_ka_project.Ledger.Legacy.move_money
    des_ka_project.Ledger.Legacy.legacy_apply_transaction
    des_ka_project.Ledger.Legacy.legacy_apply_coinbase des_ka_project.Ledger.Legacy.apply_entries
    des_ka_project.Ledger.Legacy.apply_legacy_block des_ka_project.Ledger.Legacy.replay_from
    des_ka_project.Ledger.Legacy.legacy_replay
replayed = refl

legacy_replay-total_example :
    total after + burned_in toy (paid_block ∷ []) ≡ minted_in toy (paid_block ∷ [])
legacy_replay-total_example = legacy_replay-total toy (paid_block ∷ []) after replayed
