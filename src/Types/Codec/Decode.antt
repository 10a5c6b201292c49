-- ===== src/Types/Codec/Decode.antt =====
-- The readers and the decoder of deskachain/node/internal/types/transaction_codec.go.
use des_ka_project.Prelude.{
  ℕ, zero, suc, ◌+◌, ◌*◌, Bool, false, not, [], ◌∷◌, Str, ltb, ◌==◌, if◌then◌else◌, length, Error,
  wrap, Result, ok, err, ⊤, Proc, pure, gets, ◌>>=◌, ◌>>◌, fail_if,
}
use des_ka_project.Prelude.Int.{ℤ, pos}
use des_ka_project.Types.{Transaction, tx_version_asset}
use des_ka_project.Types.Codec.{
  canonical_tx_codec_version, max_canonical_field_bytes, err_invalid_canonical_tx, to_int64,
}

-- The zero value of `Transaction`.
abbrev pub empty_transaction : Transaction
empty_transaction = record {
  version = 0;
  id = [];
  from = [];
  to = [];
  amount = 0;
  fee = 0;
  nonce = 0;
  timestamp = pos 0;
  signature = [];
  public_key = [];
  coinbase = false;
  type = [];
  stake_id = [];
  asset_id = [];
  fee_payer = [];
  fee_payer_public_key = [];
  fee_payer_signature = [];
  asset_name = [];
  asset_symbol = [];
  asset_decimals = 0;
  asset_max_supply = 0;
  asset_mintable = false;
  asset_burnable = false;
  asset_pausable = false;
  asset_permissioned = false;
}

-- `Reader.Read` into a zeroed buffer of n bytes: the buffer, and the bytes left.
unfoldable pub fill : ℕ → Str → Str × Str
fill zero s = ([], s)
fill (suc n) [] = let (raw, rest) = fill n [] in (0 ∷ raw, rest)
fill (suc n) (b ∷ s) = let (raw, rest) = fill n s in (b ∷ raw, rest)

-- `binary.BigEndian`
unfoldable pub big_endian : ℕ → Str → ℕ
big_endian acc [] = acc
big_endian acc (b ∷ raw) = big_endian (acc * 256 + b) raw

abbrev err_eof : Error
err_eof = wrap "EOF" err_invalid_canonical_tx

unfoldable pub read_byte : Proc Str ℕ
read_byte [] = (err err_eof, [])
read_byte (b ∷ s) = (ok b, s)

unfoldable pub read_uint32 : Proc Str ℕ
unfolding fill big_endian
read_uint32 [] = (err err_eof, [])
read_uint32 (b ∷ s) = let (raw, rest) = fill 4 (b ∷ s) in (ok (big_endian 0 raw), rest)

unfoldable pub read_uint64 : Proc Str ℕ
unfolding fill big_endian
read_uint64 [] = (err err_eof, [])
read_uint64 (b ∷ s) = let (raw, rest) = fill 8 (b ∷ s) in (ok (big_endian 0 raw), rest)

unfoldable pub read_int64 : Proc Str ℤ
read_int64 = do value ← read_uint64; pure (to_int64 value)

unfoldable pub read_byte_bool : Proc Str Bool
unfolding read_byte
read_byte_bool = do
  value ← read_byte
  fail_if (ltb 1 value) (wrap "invalid bool" err_invalid_canonical_tx)
  pure (value == 1)

abbrev take_field : ℕ → Proc Str Str
take_field n s = let (raw, rest) = fill n s in (ok raw, rest)

unfoldable pub read_canonical_string : Proc Str Str
read_canonical_string = do
  n ← read_uint32
  fail_if (ltb max_canonical_field_bytes n) (wrap "field too large" err_invalid_canonical_tx)
  left ← gets length
  fail_if (ltb left n) (wrap "truncated field" err_invalid_canonical_tx)
  take_field n

abbrev no_trailing_bytes : Proc Str ⊤
no_trailing_bytes = do
  left ← gets length
  fail_if (not (left == 0)) (wrap "trailing bytes" err_invalid_canonical_tx)

-- `decodeCanonicalTransactionV3`
unfoldable pub decode_canonical_transaction_v3 : Transaction → Proc Str Transaction
decode_canonical_transaction_v3 tx = do
  id ← read_canonical_string
  from ← read_canonical_string
  to ← read_canonical_string
  asset_id ← read_canonical_string
  amount ← read_uint64
  fee ← read_uint64
  nonce ← read_uint64
  timestamp ← read_int64
  signature ← read_canonical_string
  public_key ← read_canonical_string
  fee_payer ← read_canonical_string
  fee_payer_public_key ← read_canonical_string
  fee_payer_signature ← read_canonical_string
  asset_name ← read_canonical_string
  asset_symbol ← read_canonical_string
  asset_decimals ← read_byte
  asset_max_supply ← read_uint64
  asset_mintable ← read_byte_bool
  asset_burnable ← read_byte_bool
  asset_pausable ← read_byte_bool
  asset_permissioned ← read_byte_bool
  stake_id ← read_canonical_string
  no_trailing_bytes
  pure (record tx {
    id = id;
    from = from;
    to = to;
    amount = amount;
    fee = fee;
    nonce = nonce;
    timestamp = timestamp;
    signature = signature;
    public_key = public_key;
    stake_id = stake_id;
    asset_id = asset_id;
    fee_payer = fee_payer;
    fee_payer_public_key = fee_payer_public_key;
    fee_payer_signature = fee_payer_signature;
    asset_name = asset_name;
    asset_symbol = asset_symbol;
    asset_decimals = asset_decimals;
    asset_max_supply = asset_max_supply;
    asset_mintable = asset_mintable;
    asset_burnable = asset_burnable;
    asset_pausable = asset_pausable;
    asset_permissioned = asset_permissioned;
  })

-- The fields of versions 1 and 2.
unfoldable pub decode_canonical_transaction_v2 : Transaction → Proc Str Transaction
decode_canonical_transaction_v2 tx = do
  id ← read_canonical_string
  from ← read_canonical_string
  to ← read_canonical_string
  amount ← read_uint64
  fee ← read_uint64
  nonce ← read_uint64
  timestamp ← read_int64
  signature ← read_canonical_string
  public_key ← read_canonical_string
  stake_id ← read_canonical_string
  no_trailing_bytes
  pure (record tx {
    id = id;
    from = from;
    to = to;
    amount = amount;
    fee = fee;
    nonce = nonce;
    timestamp = timestamp;
    signature = signature;
    public_key = public_key;
    stake_id = stake_id;
  })

-- The decoder after its reader is made.
unfoldable pub decode_from : Proc Str Transaction
decode_from = do
  codec ← read_byte
  fail_if (not (codec == canonical_tx_codec_version))
      (wrap "unsupported codec version" err_invalid_canonical_tx)
  version ← read_uint32
  fail_if (version == 0) (wrap "invalid protocol version" err_invalid_canonical_tx)
  tx_type ← read_canonical_string
  coinbase ← read_byte
  fail_if (ltb 1 coinbase) (wrap "invalid coinbase flag" err_invalid_canonical_tx)
  let tx = record empty_transaction { version = version; type = tx_type; coinbase = coinbase == 1 }
  (if version == tx_version_asset
      then decode_canonical_transaction_v3 tx
      else decode_canonical_transaction_v2 tx)

unfoldable pub decode_canonical_transaction : Str → Result Transaction
decode_canonical_transaction raw = (decode_from raw).0
