-- ===== src/Types/Block/Header.antt =====
-- The bytes that a block's hash covers: HeaderBytesWithNonce and CalculateHash of
-- deskachain/node/internal/types/block.go, and the canonical header of block_codec.go.
use des_ka_project.Prelude.{
  ℕ, Str, codes, List, [], ◌∷◌, ◌++◌, ◌==◌, not, if◌then◌else◌, Error, msg, wrap, Result, ok, err,
}
use des_ka_project.Prelude.Int.{ℤ}
use des_ka_project.Prelude.Decimal.{format_uint, format_int}
use des_ka_project.Types.{Transaction}
use des_ka_project.Types.Crypto.{Crypto}
use des_ka_project.Types.Codec.{
  concat, write_canonical_uint32, write_canonical_uint64, write_canonical_int64,
  write_canonical_string,
}
use des_ka_project.Types.Block.{
  Block, block_protocol_version, block_version_legacy, block_version_canonical,
  calculate_merkle_root,
}

abbrev pub canonical_block_codec_version : ℕ
canonical_block_codec_version = 1

abbrev pub canonical_block_header_domain : Str
canonical_block_header_domain = codes "IndoChain/block-header/v2"

abbrev pub err_invalid_canonical_block_header : Error
err_invalid_canonical_block_header = msg "invalid canonical block header"

-- The fields of the canonical header, after its version byte.
abbrev pub header_fields : Block → ℕ → Str
header_fields b nonce = concat (
    write_canonical_string canonical_block_header_domain
    ∷ write_canonical_uint64 b.height
    ∷ write_canonical_string b.previous_hash
    ∷ write_canonical_int64 b.timestamp
    ∷ write_canonical_uint64 nonce
    ∷ write_canonical_uint32 b.difficulty
    ∷ write_canonical_string b.miner_address
    ∷ write_canonical_string b.merkle_root
    ∷ write_canonical_string b.state_root
    ∷ write_canonical_string b.genesis_marker
    ∷ [])

unfoldable pub canonical_header_bytes_with_nonce : Block → ℕ → Result Str
canonical_header_bytes_with_nonce b nonce =
    if not (block_protocol_version b == block_version_canonical)
    then err (wrap "canonical header requires block version 2" err_invalid_canonical_block_header)
    else ok (
        canonical_block_codec_version
        ∷ (write_canonical_uint32 (block_protocol_version b) ++ header_fields b nonce))

-- `strings.Join`
abbrev join : Str → List Str → Str
join sep [] = []
join sep (x ∷ []) = x
join sep (x ∷ y ∷ xs) = x ++ (sep ++ join sep (y ∷ xs))

-- `raw, _ := ...` is nil on an error.
abbrev raw_or_nil : Result Str → Str
raw_or_nil (ok raw) = raw
raw_or_nil (err _) = []

unfoldable pub header_bytes_with_nonce : Block → ℕ → Str
header_bytes_with_nonce b nonce =
    if block_protocol_version b == block_version_canonical
    then raw_or_nil (canonical_header_bytes_with_nonce b nonce)
    else join (codes "|") (
        format_uint b.height
        ∷ b.previous_hash
        ∷ format_int b.timestamp
        ∷ format_uint nonce
        ∷ format_uint b.difficulty
        ∷ b.miner_address
        ∷ b.merkle_root
        ∷ b.genesis_marker
        ∷ [])

module _ (c : Crypto) where
  unfoldable pub calculate_hash : Block → Str
  calculate_hash b = c.double_sha256_hex (header_bytes_with_nonce b b.nonce)

  -- `now` is the clock that the constructor reads.
  unfoldable pub new_block_with_version : ℤ → ℕ → Str → Str → ℕ → List Transaction → ℕ → Block
  new_block_with_version now height previous_hash miner_address difficulty transactions version =
      record {
        version = if version == block_version_legacy then 0 else version;
        height = height;
        previous_hash = previous_hash;
        timestamp = now;
        nonce = 0;
        difficulty = difficulty;
        miner_address = miner_address;
        transactions = transactions;
        merkle_root = calculate_merkle_root c transactions;
        state_root = [];
        hash = [];
        genesis_marker = [];
      }
