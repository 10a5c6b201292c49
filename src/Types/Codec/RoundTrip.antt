-- ===== src/Types/Codec/RoundTrip.antt =====
-- A canonical encoding is decoded to the transaction that it encodes.
use mathlib.Core.List.{append_assoc, append-nil}
use des_ka_project.Prelude.{
  ℕ, ◌<◌, ◌≡◌, ap, sym, ◌∙◌, inl, inr, Bool-cases, Bool, true, false, [], ◌∷◌, ◌++◌, Str, arith, ok,
  ◌==◌, if◌then◌else◌,
}
use des_ka_project.Types.{Transaction, protocol_version, tx_type, tx_version_asset}
use des_ka_project.Types.Codec.{
  canonical_bytes, canonical_bytes_v3, write_canonical_header, write_bool, write_canonical_string,
  write_canonical_uint32,
}
use des_ka_project.Types.Codec.Decode.{
  empty_transaction, decode_canonical_transaction, decode_canonical_transaction_v3,
  decode_canonical_transaction_v2, decode_from, read_byte, read_canonical_string, read_uint32,
}
use des_ka_project.Types.Codec.Fields.{read_uint32-write, read_canonical_string-write}
use des_ka_project.Types.Codec.Layout.{
  Fits, IsEncodable, fields_v2, fields_v3, with_fields_v2, with_fields_v3,
  decode_canonical_transaction_v2-fields, decode_canonical_transaction_v3-fields,
}

-- What a decoded transaction looks like: the header in its effective form, and of a transaction
-- that is not of version 3 the fields of the first versions only.
unfoldable pub canonical_form : Transaction → Transaction
canonical_form tx =
    let base = record empty_transaction {
      version = protocol_version tx;
      type = tx_type tx;
      coinbase = tx.coinbase;
    } in
    if protocol_version tx == tx_version_asset
    then with_fields_v3 base tx
    else with_fields_v2 base tx

header-append :
    (v : ℕ) (t : Str) (c : Bool) (rest : Str)
    → write_canonical_header v t c ++ rest
      ≡ 1 ∷ (write_canonical_uint32 v ++ (write_canonical_string t ++ (write_bool c ++ rest)))
unfolding write_canonical_header
header-append v t c rest = ap (◌∷◌ 1) (
    append_assoc (write_canonical_uint32 v) (write_canonical_string t ++ write_bool c) rest
    ∙ ap (◌++◌ (write_canonical_uint32 v))
        (append_assoc (write_canonical_string t) (write_bool c) rest))

-- The header is read back, and the decoder goes on by the version.
decode_from-header :
    (v : ℕ) (t : Str) (c : Bool) (rest : Str)
    → v < 4294967296
    → 0 < v
    → Fits t
    → decode_from (write_canonical_header v t c ++ rest) ≡ (
        let base = record empty_transaction { version = v; type = t; coinbase = c } in
        if v == tx_version_asset
        then decode_canonical_transaction_v3 base rest
        else decode_canonical_transaction_v2 base rest)
unfolding decode_from read_byte write_bool
decode_from-header v t true rest h p f = rw (header-append v t true rest) (
    ground (
      arith,
      read_uint32-write v (write_canonical_string t ++ (1 ∷ rest)) h,
      read_canonical_string-write t (1 ∷ rest) f,
    ))
decode_from-header v t false rest h p f = rw (header-append v t false rest) (
    ground (
      arith,
      read_uint32-write v (write_canonical_string t ++ (0 ∷ rest)) h,
      read_canonical_string-write t (0 ∷ rest) f,
    ))

abbrev encoding : Transaction → Str → Str
encoding tx last =
    write_canonical_header (protocol_version tx) (tx_type tx) tx.coinbase
    ++ (if protocol_version tx == tx_version_asset then fields_v3 tx last else fields_v2 tx last)

canonical_bytes-encoding :
    (tx : Transaction) → canonical_bytes tx ≡ ok (encoding tx (write_canonical_string tx.stake_id))
unfolding canonical_bytes canonical_bytes_v3 protocol_version
canonical_bytes-encoding tx = ground arith

protocol_version_bounds :
    (tx : Transaction)
    → tx.version < 4294967296
    → (0 < protocol_version tx) × (protocol_version tx < 4294967296)
unfolding protocol_version
protocol_version_bounds tx h = ground arith

decode-encoding :
    (tx : Transaction) (last : Str)
    → IsEncodable tx
    → read_canonical_string last ≡ (ok tx.stake_id, [])
    → decode_canonical_transaction (encoding tx last) ≡ ok (canonical_form tx)
unfolding decode_canonical_transaction canonical_form
decode-encoding tx last e h =
    let bounds = protocol_version_bounds tx e.version in
    let base = record empty_transaction {
      version = protocol_version tx;
      type = tx_type tx;
      coinbase = tx.coinbase;
    } in
    ground (
      arith,
      decode_from-header (protocol_version tx) (tx_type tx) tx.coinbase
          (if protocol_version tx == tx_version_asset then fields_v3 tx last else fields_v2 tx last)
          bounds.1 bounds.0 e.type,
      decode_canonical_transaction_v3-fields base tx last e h,
      decode_canonical_transaction_v2-fields base tx last e h,
    )

-- A transaction whose fields fit their Go types, with texts of at most a megabyte, has canonical
-- bytes, and decoding them gives the transaction in its canonical form.
pub decode-canonical_bytes :
    (tx : Transaction)
    → IsEncodable tx
    → (raw : Str) × (canonical_bytes tx ≡ ok raw)
      × (decode_canonical_transaction raw ≡ ok (canonical_form tx))
decode-canonical_bytes tx e =
    let last = write_canonical_string tx.stake_id in
    let h = read_canonical_string-write tx.stake_id [] e.stake_id in
    (
      encoding tx last,
      canonical_bytes-encoding tx,
      decode-encoding tx last e (ground (arith, append-nil last, h)),
    )

encoding-append : (tx : Transaction) (a b : Str) → encoding tx (a ++ b) ≡ encoding tx a ++ b
encoding-append tx a b = elim (Bool-cases (protocol_version tx == tx_version_asset)) [
  | inl e ↦ rw e (simp (append_assoc, append-nil))
  | inr e ↦ rw e (simp (append_assoc, append-nil))
]

-- For an encodable transaction whose last field, the stake id, is empty, the canonical bytes
-- without their last three still decode to the same transaction.
pub decode_truncated :
    (tx : Transaction)
    → IsEncodable tx
    → tx.stake_id ≡ []
    → (raw : Str) × (canonical_bytes tx ≡ ok (raw ++ 0 ∷ 0 ∷ 0 ∷ []))
      × (decode_canonical_transaction raw ≡ ok (canonical_form tx))
unfolding read_canonical_string read_uint32 write_canonical_string write_canonical_uint32
decode_truncated tx e h = (
  encoding tx (0 ∷ []),
  canonical_bytes-encoding tx
      ∙ (ap (λ (i : Str). ok (encoding tx (write_canonical_string i))) h
          ∙ ap ok (encoding-append tx (0 ∷ []) (0 ∷ 0 ∷ 0 ∷ []))),
  decode-encoding tx (0 ∷ []) e (ap (λ (i : Str). (ok i, [])) (sym h)),
)
