-- ===== src/Tests/Selections.antt =====
-- Amounts, admission and selection on concrete data.
use des_ka_project.Prelude.{
  false, some, ℕ, ◌≡◌, refl, [], ◌∷◌, List, codes, str_discrete, ok, arith,
}
use des_ka_project.Prelude.Dict.{Dict, lookup, insert}
use des_ka_project.Prelude.Results.{◌>>=◌}
use des_ka_project.Config.{NetworkConfig, localnet}
use des_ka_project.Types.{validate_transaction_version, Transaction}
use des_ka_project.Types.Codec
use des_ka_project.Types.Envelope.{validate_asset_envelope, validate_fee_payer_authorization}
use des_ka_project.Fees.{gas_used, minimum_fee, validate}
use des_ka_project.Amount.{format_units, parse_units}
use des_ka_project.Amount.RoundTrip.{parse_units-format_units}
use des_ka_project.Mempool.{Candidate}
use des_ka_project.Mempool.Admission.{
  gas_of, higher_priority, check_asset_form, AdmissionPolicy, admit,
}
use des_ka_project.Mempool.Admission.Accepted.{Outcome, admit-Outcome}
use des_ka_project.Mempool.Nonces.{
  all_ready, best_head, by_sender, select_with_nonces, select_heads,
}
use des_ka_project.Mempool.Nonces.Consecutive.{
  Consecutive, of_sender, select_with_nonces-Consecutive,
}
use des_ka_project.Mempool.Nonces.Gas.{Fits, select_with_nonces-Fits}
use des_ka_project.Mempool.Nonces.Rounds.{select_heads_fuel}
use des_ka_project.Mempool.Nonces.Senders.{IsGrouped, insert-IsGrouped, empty-IsGrouped}
use des_ka_project.Tests.Data.{alice, bob, toy, transfer_tx}

parse_units-format_units_example :
    (format_units 150000 8 >>= λ text. parse_units text 8) ≡ ok 150000
parse_units-format_units_example =
    parse_units-format_units 150000 8 (omega arith) (omega arith) (omega arith)

abbrev second_tx : Transaction
second_tx = record transfer_tx { id = codes "t2"; nonce = 2; fee = 9 }

abbrev late_tx : Transaction
late_tx = record transfer_tx { id = codes "t4"; nonce = 4; fee = 90 }

abbrev bob_tx : Transaction
bob_tx = record transfer_tx {
  id = codes "u7";
  nonce = 7;
  fee = 5;
  from = bob;
  to = alice;
  public_key = bob;
}

-- Two senders, out of order, with a gap behind alice's second nonce.
abbrev waiting : List Transaction
waiting = late_tx ∷ second_tx ∷ bob_tx ∷ transfer_tx ∷ []

abbrev next_nonces : Dict ℕ
next_nonces = (alice, 1) ∷ (bob, 7) ∷ []

abbrev chosen : List Transaction
chosen = bob_tx ∷ transfer_tx ∷ second_tx ∷ []

known : lookup alice next_nonces ≡ some 1
unfolding str_discrete
known = refl

selected : select_with_nonces toy waiting localnet 200000 next_nonces ≡ ok chosen
unfolding str_discrete all_ready best_head select_heads by_sender select_with_nonces gas_used
    minimum_fee validate validate_transaction_version validate_asset_envelope
    validate_fee_payer_authorization Codec.write_bool Codec.write_canonical_uint64
    Codec.write_canonical_int64 Codec.write_canonical_string Codec.write_canonical_header
    Codec.canonical_signing_bytes_with_chain_id gas_of higher_priority check_asset_form localnet
selected = refl

select_with_nonces-Consecutive_example : Consecutive 1 (of_sender alice chosen)
select_with_nonces-Consecutive_example =
    select_with_nonces-Consecutive toy waiting localnet 200000 next_nonces alice 1 chosen known
      selected

select_with_nonces-Fits_example : Fits localnet 200000 0 chosen
select_with_nonces-Fits_example =
    select_with_nonces-Fits toy waiting localnet 200000 next_nonces chosen (omega arith)
      (omega arith) selected

abbrev policy : AdmissionPolicy
policy = record { profile = localnet; max_txs = 10; max_gas = 1000 }

admit-Outcome_example :
    Outcome policy second_tx
      (transfer_tx ∷ bob_tx ∷ [])
      (admit toy second_tx policy (transfer_tx ∷ bob_tx ∷ []))
admit-Outcome_example = admit-Outcome toy second_tx policy (transfer_tx ∷ bob_tx ∷ [])

-- Two lists, of one and of two candidates.
abbrev lists : Dict (List Candidate)
lists =
    (alice, record { tx = transfer_tx; gas = 0 } ∷ record { tx = second_tx; gas = 0 } ∷ [])
    ∷ (bob, record { tx = bob_tx; gas = 0 } ∷ [])
    ∷ []

abbrev free : NetworkConfig
free = record localnet { fee = record localnet.fee { enabled = false } }

exempt : (tx : Transaction) → gas_of free tx ≡ ok 0
unfolding gas_of gas_used
exempt tx = ground arith

lists-IsGrouped : IsGrouped free lists
unfolding str_discrete
lists-IsGrouped =
    insert-IsGrouped free bob (record { tx = bob_tx; gas = 0 } ∷ [])
      (insert alice (record { tx = transfer_tx; gas = 0 } ∷ record { tx = second_tx; gas = 0 } ∷ [])
        [])
      ((refl, exempt bob_tx), tt)
      (insert-IsGrouped free alice
        (record { tx = transfer_tx; gas = 0 } ∷ record { tx = second_tx; gas = 0 } ∷ []) []
        ((refl, exempt transfer_tx), ((refl, exempt second_tx), tt)) (empty-IsGrouped free))

select_heads_fuel_example : select_heads 3 50 0 lists ≡ select_heads 9 50 0 lists
select_heads_fuel_example =
    select_heads_fuel free 3 9 50 0 lists lists-IsGrouped (omega arith) (omega arith)
