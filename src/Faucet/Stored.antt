-- ===== src/Faucet/Stored.antt =====
-- What is in the file of the faucet after a request (deskachain/node/internal/faucet/state.go).
use des_ka_project.Prelude.{
  bind-read, ◌≡◌, refl, sym, subst, ap, ◌∙◌, ℕ, false, Str, ◌=s◌, is_empty, if◌then◌else◌, Option,
  some, Result, ok, err,
}
use des_ka_project.Prelude.Dict.{get, insert, get-insert}
use des_ka_project.Faucet.{
  Requests, Files, no_requests, add_request, parse_requests, load_requests, save_requests,
  record_request,
}

-- Reading changes no file, what is written is read, and JSON is read back.
pub record KeepsFile {F : Type 0} (files : Files F) : Type 0 where
  pub read_keeps : (f : F) → (files.read_file f).1 ≡ f
  pub written :
      (raw : Str) (f : F)
      → (files.write_file raw f).0 ≡ ok tt
      → (files.read_file (files.write_file raw f).1).0 ≡ ok (some raw)
  pub not_empty : (r : Requests) → is_empty (files.marshal r) ≡ false
  pub read_back : (r : Requests) → files.unmarshal (files.marshal r) ≡ ok r

module _ {F : Type 0} (files : Files F) (keeps : KeepsFile files) where
  continue_lift :
      (r : Result (Option Str)) (f : F)
      → (elim r as (λ _. Result Requests × F) [
        | ok raw ↦ (parse_requests files raw, f)
        | err e ↦ (err e, f)
      ]).1
        ≡ f
  continue_lift (ok raw) f = refl
  continue_lift (err e) f = refl

  load_requests_keeps : (f : F) → (load_requests files f).1 ≡ f
  unfolding load_requests
  load_requests_keeps f =
      continue_lift (files.read_file f).0 (files.read_file f).1 ∙ keeps.read_keeps f

  parse_requests-marshal : (r : Requests) → parse_requests files (some (files.marshal r)) ≡ ok r
  parse_requests-marshal r = rw (keeps.not_empty r, keeps.read_back r) refl

  load_requests_written :
      (r : Requests) (f : F)
      → (files.write_file (files.marshal r) f).0 ≡ ok tt
      → (load_requests files (files.write_file (files.marshal r) f).1).0 ≡ ok r
  unfolding load_requests
  load_requests_written r f h =
      let after = (files.write_file (files.marshal r) f).1 in
      ap
        (λ t.
          (elim t as (λ _. Result Requests × F) [
            | ok raw ↦ (parse_requests files raw, (files.read_file after).1)
            | err e ↦ (err e, (files.read_file after).1)
          ]).0)
        (keeps.written (files.marshal r) f h)
      ∙ parse_requests-marshal r

  -- The requests with one more for an address.
  abbrev pub with_request : Str → Str → ℕ → Str → Str → Requests → Requests
  with_request address tx_id amount day time requests =
      insert address (add_request tx_id amount day time (get no_requests address requests)) requests

  -- A file that can be loaded, and a request that is recorded in it without an error: afterwards
  -- the file can be loaded, the request is in the entry of its address, and the entries of all
  -- other addresses are as before.
  pub record_request-load_requests :
      (address tx_id : Str) (amount : ℕ) (day time : Str) (requests : Requests) (f : F)
      → (load_requests files f).0 ≡ ok requests
      → (record_request files address tx_id amount day time f).0 ≡ ok tt
      → (requests' : Requests) × ((load_requests files
            (record_request files address tx_id amount day time f).1).0
          ≡ ok requests')
        × ((other : Str)
            → get no_requests other requests' ≡ (
                if other =s address
                then add_request tx_id amount day time (get no_requests address requests)
                else get no_requests other requests))
  unfolding record_request
  record_request-load_requests address tx_id amount day time requests f loaded recorded =
      let next = with_request address tx_id amount day time requests in
      let step : record_request files address tx_id amount day time f ≡ save_requests files next f =
        bind-read (load_requests files)
          (λ r. save_requests files (with_request address tx_id amount day time r)) f requests
          (cc (loaded, load_requests_keeps f)) in
      (
        next,
        subst (λ r. (load_requests files r.1).0 ≡ ok next) (sym step)
            (load_requests_written next f (subst (λ r. r.0 ≡ ok tt) step recorded)),
        λ other.
            get-insert no_requests address other
              (add_request tx_id amount day time (get no_requests address requests)) requests,
      )
