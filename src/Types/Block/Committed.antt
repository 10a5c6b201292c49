-- ===== src/Types/Block/Committed.antt =====
-- What the canonical header of deskachain/node/internal/types/block_codec.go commits to.
use des_ka_project.Prelude.{ℕ, ◌<◌, ◌≤◌, ◌≡◌, ap, sym, ◌∙◌, Str, ◌++◌, ok, length, arith}
use des_ka_project.Prelude.Int.{ℤ}
use des_ka_project.Types.Codec.{
  max_canonical_field_bytes, write_canonical_uint32, write_canonical_uint64, write_canonical_int64,
  write_canonical_string,
}
use des_ka_project.Types.Codec.Decode.{read_uint32, read_uint64, read_int64, read_canonical_string}
use des_ka_project.Types.Codec.Fields.{
  IsInt64, read_uint32-write, read_uint64-write, read_int64-write, read_canonical_string-write,
}
use des_ka_project.Types.Codec.Layout.{Fits}
use des_ka_project.Types.Block.{Block}
use des_ka_project.Types.Block.Header.{
  canonical_header_bytes_with_nonce, canonical_block_header_domain, header_fields,
}

uint32_inj :
    (v v' : ℕ) (rest rest' : Str)
    → v < 4294967296
    → v' < 4294967296
    → write_canonical_uint32 v ++ rest ≡ write_canonical_uint32 v' ++ rest'
    → (v ≡ v') × (rest ≡ rest')
uint32_inj v v' rest rest' h h' e =
    let read =
      sym (read_uint32-write v rest h) ∙ ap read_uint32 e ∙ read_uint32-write v' rest' h' in
    ground arith

uint64_inj :
    (v v' : ℕ) (rest rest' : Str)
    → v < 18446744073709551616
    → v' < 18446744073709551616
    → write_canonical_uint64 v ++ rest ≡ write_canonical_uint64 v' ++ rest'
    → (v ≡ v') × (rest ≡ rest')
uint64_inj v v' rest rest' h h' e =
    let read =
      sym (read_uint64-write v rest h) ∙ ap read_uint64 e ∙ read_uint64-write v' rest' h' in
    ground arith

int64_inj :
    (z z' : ℤ) (rest rest' : Str)
    → IsInt64 z
    → IsInt64 z'
    → write_canonical_int64 z ++ rest ≡ write_canonical_int64 z' ++ rest'
    → (z ≡ z') × (rest ≡ rest')
int64_inj z z' rest rest' h h' e =
    let read = sym (read_int64-write z rest h) ∙ ap read_int64 e ∙ read_int64-write z' rest' h' in
    ground arith

string_inj :
    (s s' rest rest' : Str)
    → length s ≤ max_canonical_field_bytes
    → length s' ≤ max_canonical_field_bytes
    → write_canonical_string s ++ rest ≡ write_canonical_string s' ++ rest'
    → (s ≡ s') × (rest ≡ rest')
string_inj s s' rest rest' h h' e =
    let read =
      sym (read_canonical_string-write s rest h)
      ∙ ap read_canonical_string e
      ∙ read_canonical_string-write s' rest' h' in
    ground arith

-- The Go types of the header's fields, and no text longer than the transaction codec accepts.
pub record IsHeader (b : Block) : Type 0 where
  pub height : b.height < 18446744073709551616
  pub previous_hash : Fits b.previous_hash
  pub timestamp : IsInt64 b.timestamp
  pub difficulty : b.difficulty < 4294967296
  pub miner_address : Fits b.miner_address
  pub merkle_root : Fits b.merkle_root
  pub state_root : Fits b.state_root
  pub genesis_marker : Fits b.genesis_marker

-- Two blocks that differ in their transactions, the stored nonce and the stored hash at most.
pub record SameHeader (b b' : Block) : Type 0 where
  pub height : b.height ≡ b'.height
  pub previous_hash : b.previous_hash ≡ b'.previous_hash
  pub timestamp : b.timestamp ≡ b'.timestamp
  pub difficulty : b.difficulty ≡ b'.difficulty
  pub miner_address : b.miner_address ≡ b'.miner_address
  pub merkle_root : b.merkle_root ≡ b'.merkle_root
  pub state_root : b.state_root ≡ b'.state_root
  pub genesis_marker : b.genesis_marker ≡ b'.genesis_marker

header_fields_inj :
    (b b' : Block) (n n' : ℕ)
    → IsHeader b
    → IsHeader b'
    → n < 18446744073709551616
    → n' < 18446744073709551616
    → header_fields b n ≡ header_fields b' n'
    → SameHeader b b' × (n ≡ n')
header_fields_inj b b' n n' k k' h h' e =
    let (_, e₁) =
      string_inj canonical_block_header_domain canonical_block_header_domain _ _ (omega arith)
        (omega arith) e in
    let (height, e₂) = uint64_inj b.height b'.height _ _ k.height k'.height e₁ in
    let (previous_hash, e₃) =
      string_inj b.previous_hash b'.previous_hash _ _ k.previous_hash k'.previous_hash e₂ in
    let (timestamp, e₄) = int64_inj b.timestamp b'.timestamp _ _ k.timestamp k'.timestamp e₃ in
    let (nonce, e₅) = uint64_inj n n' _ _ h h' e₄ in
    let (difficulty, e₆) =
      uint32_inj b.difficulty b'.difficulty _ _ k.difficulty k'.difficulty e₅ in
    let (miner_address, e₇) =
      string_inj b.miner_address b'.miner_address _ _ k.miner_address k'.miner_address e₆ in
    let (merkle_root, e₈) =
      string_inj b.merkle_root b'.merkle_root _ _ k.merkle_root k'.merkle_root e₇ in
    let (state_root, e₉) =
      string_inj b.state_root b'.state_root _ _ k.state_root k'.state_root e₈ in
    let (genesis_marker, _) =
      string_inj b.genesis_marker b'.genesis_marker _ _ k.genesis_marker k'.genesis_marker e₉ in
    (
      record {
        height = height;
        previous_hash = previous_hash;
        timestamp = timestamp;
        difficulty = difficulty;
        miner_address = miner_address;
        merkle_root = merkle_root;
        state_root = state_root;
        genesis_marker = genesis_marker;
      },
      nonce,
    )

header_fields-ok :
    (b b' : Block) (n n' : ℕ) (raw : Str)
    → canonical_header_bytes_with_nonce b n ≡ ok raw
    → canonical_header_bytes_with_nonce b' n' ≡ ok raw
    → header_fields b n ≡ header_fields b' n'
unfolding canonical_header_bytes_with_nonce write_canonical_uint32
header_fields-ok b b' n n' raw e e' = ground arith

-- Two blocks whose fields are in the range of their Go types, with no text over a mebibyte, that
-- have the same canonical header bytes, each at a 64-bit nonce, agree in the nonce, the height,
-- the previous hash, the timestamp, the difficulty, the miner, the Merkle root, the state root and
-- the genesis marker.
pub canonical_header_bytes_with_nonce_inj :
    (b b' : Block) (n n' : ℕ) (raw : Str)
    → IsHeader b
    → IsHeader b'
    → n < 18446744073709551616
    → n' < 18446744073709551616
    → canonical_header_bytes_with_nonce b n ≡ ok raw
    → canonical_header_bytes_with_nonce b' n' ≡ ok raw
    → SameHeader b b' × (n ≡ n')
canonical_header_bytes_with_nonce_inj b b' n n' raw k k' h h' e e' =
    header_fields_inj b b' n n' k k' h h' (header_fields-ok b b' n n' raw e e')
