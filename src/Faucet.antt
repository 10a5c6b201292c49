-- ===== src/Faucet.antt =====
-- deskachain/node/internal/faucet/state.go: what the faucet has given to each address. The file and
-- its JSON are parameters, and so are the day and the time that the clock gives; the lock admits one
-- call at a time.
pub mod Stored
use des_ka_project.Prelude.{
  ℕ, ◌+◌, ◌%◌, Bool, true, false, not, List, [], ◌∷◌, ◌++◌, Str, ◌=s◌, is_empty, if◌then◌else◌,
  Option, none, some, Result, ok, err, ⊤, Proc, pure, lift, wrap_err, ◌>>=◌,
}
use des_ka_project.Prelude.Dict.{Dict, get, insert}

pub record AddressState : Type 0 where
  pub last_request_time : Str
  pub total_amount_requested : ℕ
  pub day : Str
  pub daily_amount_requested : ℕ
  pub pending_tx_ids : List Str

-- `State`: the requests of each address.
abbrev pub Requests : Type 0
Requests = Dict AddressState

abbrev pub no_requests : AddressState
no_requests = record {
  last_request_time = [];
  total_amount_requested = 0;
  day = [];
  daily_amount_requested = 0;
  pending_tx_ids = [];
}

-- The file, with no content where there is none, and its JSON.
pub record Files (F : Type 0) : Type 0 where
  pub read_file : Proc F (Option Str)
  pub write_file : Str → Proc F ⊤
  pub marshal : Requests → Str
  pub unmarshal : Str → Result Requests

unfoldable pub append_unique : List Str → Str → List Str
append_unique [] value = value ∷ []
append_unique (x ∷ xs) value =
    let rest = append_unique xs value in if x =s value then x ∷ xs else x ∷ rest

-- Another day starts at 0.
abbrev pub on_day : Str → AddressState → AddressState
on_day day e = if e.day =s day then e else record e { day = day; daily_amount_requested = 0 }

-- One request more; the sums wrap around.
abbrev pub add_request : Str → ℕ → Str → Str → AddressState → AddressState
add_request tx_id amount day time e =
    let today = on_day day e in
    record today {
      last_request_time = time;
      total_amount_requested = (today.total_amount_requested + amount) % 18446744073709551616;
      daily_amount_requested = (today.daily_amount_requested + amount) % 18446744073709551616;
      pending_tx_ids = append_unique today.pending_tx_ids tx_id;
    }

module _ {F : Type 0} (files : Files F) where
  abbrev pub parse_requests : Option Str → Result Requests
  parse_requests none = ok []
  parse_requests (some raw) =
      if is_empty raw
      then ok []
      else wrap_err "failed to load faucet state: invalid json" (files.unmarshal raw)

  -- `Load`
  unfoldable pub load_requests : Proc F Requests
  load_requests = files.read_file >>= λ raw. lift (parse_requests raw)

  abbrev pub save_requests : Requests → Proc F ⊤
  save_requests requests = files.write_file (files.marshal requests)

  -- `Record`
  unfoldable pub record_request : Str → Str → ℕ → Str → Str → Proc F ⊤
  record_request address tx_id amount day time = load_requests >>= λ requests. save_requests (
      insert address (add_request tx_id amount day time (get no_requests address requests))
        requests)
