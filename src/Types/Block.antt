-- ===== src/Types/Block.antt =====
-- deskachain/node/internal/types/block.go: the block, its version check and the Merkle root of its
-- transactions.
pub mod Merkle
pub mod Header
pub mod Committed
use des_ka_project.Prelude.{
  ℕ, zero, suc, ◌+◌, Bool, true, false, not, List, [], ◌∷◌, ◌++◌, map, Str, is_empty, ltb, ◌==◌,
  if◌then◌else◌, length, Error, msg, Result, ok, err, ⊤, check, ◌then_check◌,
}
use des_ka_project.Prelude.Int.{ℤ}
use des_ka_project.Types.{Transaction}
use des_ka_project.Types.Crypto.{Crypto}
use des_ka_project.Types.Envelope.{calculate_id}

abbrev pub block_version_legacy : ℕ
block_version_legacy = 1

abbrev pub block_version_canonical : ℕ
block_version_canonical = 2

pub record Block : Type 0 where
  pub version : ℕ
  pub height : ℕ
  pub previous_hash : Str
  pub timestamp : ℤ
  pub nonce : ℕ
  pub difficulty : ℕ
  pub miner_address : Str
  pub transactions : List Transaction
  pub merkle_root : Str
  pub state_root : Str
  pub hash : Str
  pub genesis_marker : Str

abbrev version_or_legacy : ℕ → ℕ
version_or_legacy v = if v == 0 then block_version_legacy else v

-- `Block.ProtocolVersion`
unfoldable pub block_protocol_version : Block → ℕ
block_protocol_version b = version_or_legacy b.version

unfoldable pub validate_block_version : ℕ → ℕ → Result ⊤
validate_block_version version active_version =
    check (ltb block_version_canonical (version_or_legacy version))
      (msg "unsupported block version")
    then_check check (not (version_or_legacy version == version_or_legacy active_version))
        (msg "block version is not active on this network")

module _ (c : Crypto) where
  -- One level of the tree: neighbours are hashed together, a last odd one with itself.
  unfoldable pub next_level : List Str → List Str
  next_level [] = []
  next_level (a ∷ []) = c.double_sha256_hex (a ++ a) ∷ []
  next_level (a ∷ b ∷ level) = c.double_sha256_hex (a ++ b) ∷ next_level level

  -- The loop over the levels, on fuel: a level shrinks, so its length is fuel enough.
  unfoldable pub reduce_levels : ℕ → List Str → List Str
  reduce_levels fuel [] = []
  reduce_levels fuel (a ∷ []) = a ∷ []
  reduce_levels zero (a ∷ b ∷ level) = a ∷ b ∷ level
  reduce_levels (suc fuel) (a ∷ b ∷ level) = reduce_levels fuel (next_level (a ∷ b ∷ level))

  abbrev head_or : Str → List Str → Str
  head_or d [] = d
  head_or d (a ∷ level) = a

  abbrev leaf : Transaction → Str
  leaf tx = if is_empty tx.id then calculate_id c tx else tx.id

  unfoldable pub calculate_merkle_root : List Transaction → Str
  unfolding reduce_levels
  calculate_merkle_root txs =
      let level = map leaf txs in
      head_or (c.double_sha256_hex []) (reduce_levels (length level) level)
