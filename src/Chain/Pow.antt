-- ===== src/Chain/Pow.antt =====
-- Proof of work: MineWithContext and ValidateProofOfWork of deskachain/node/internal/chain/pow.go.
-- The context is the function `cancelled` of the nonce at which it is asked; the progress callback
-- changes no state and is left out. The loop is on fuel and may run out of it.
pub mod Search
use des_ka_project.Prelude.{
  ℕ, zero, suc, ◌+◌, ◌%◌, Bool, ◌&&◌, Str, ◌=s◌, has_prefix, [], ◌∷◌, Option, none, some, ltb, ◌==◌,
  if◌then◌else◌, Error, msg, Result, ok, err,
}
use des_ka_project.Types.Crypto.{Crypto}
use des_ka_project.Types.Block.{Block}
use des_ka_project.Types.Block.Header.{header_bytes_with_nonce, calculate_hash}

abbrev pub err_max_nonce_reached : Error
err_max_nonce_reached = msg "max nonce reached"

abbrev pub err_cancelled : Error
err_cancelled = msg "mining cancelled"

-- `strings.Repeat("0", n)`
abbrev pub zeros : ℕ → Str
zeros zero = []
zeros (suc n) = 48 ∷ zeros n

module _ (c : Crypto) where
  abbrev pub hash_with_nonce : Block → ℕ → Str
  hash_with_nonce b nonce = c.double_sha256_hex (header_bytes_with_nonce b nonce)

  -- The body of the loop; the nonce of the block is the loop's variable.
  unfoldable pub mine_from : (ℕ → Bool) → ℕ → ℕ → Block → ℕ → Option (Result Block)
  mine_from cancelled max_nonce zero b nonce = none
  mine_from cancelled max_nonce (suc fuel) b nonce =
      let next = mine_from cancelled max_nonce fuel b ((nonce + 1) % 18446744073709551616) in
      if nonce % 10000 == 0 && cancelled nonce
      then some (err err_cancelled)
      else if ltb 0 max_nonce && ltb max_nonce nonce
      then some (err err_max_nonce_reached)
      else if has_prefix (hash_with_nonce b nonce) (zeros b.difficulty)
      then some (ok (record b { nonce = nonce; hash = hash_with_nonce b nonce }))
      else next

  unfoldable pub mine_with_context : (ℕ → Bool) → ℕ → ℕ → Block → Option (Result Block)
  mine_with_context cancelled max_nonce fuel b = mine_from cancelled max_nonce fuel b b.nonce

  unfoldable pub validate_proof_of_work : Block → Bool
  validate_proof_of_work b = has_prefix b.hash (zeros b.difficulty) && b.hash =s calculate_hash c b
