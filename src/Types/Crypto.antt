-- ===== src/Types/Crypto.antt =====
-- What the ledger asks of the packages crypto and address, and of Go's JSON encoder: the interface
-- that transaction checks are written against. Hashes, signatures and JSON come from libraries;
-- addresses are given by Address.Network, on hashes that are parameters.
use des_ka_project.Prelude.{ℕ, Bool, Str, Result, ⊤}
use des_ka_project.Prelude.Int.{ℤ}
use des_ka_project.Config.{NetworkConfig}
use des_ka_project.Types.{Transaction}

-- What a paymaster signs.
pub record FeePayerPayload : Type 0 where
  pub domain : Str
  pub chain_id : ℕ
  pub tx_id : Str
  pub from : Str
  pub to : Str
  pub amount : ℕ
  pub fee : ℕ
  pub nonce : ℕ
  pub timestamp : ℤ
  pub type : Str
  pub asset_id : Str
  pub fee_payer : Str

pub record Crypto : Type 0 where
  -- `DoubleSHA256Hex`
  pub double_sha256_hex : Str → Str
  -- `VerifyHex` of a public key, a signature and the signed bytes
  pub verify_hex : Str → Str → Str → Bool
  -- `AddressFromPublicKeyForNetwork`
  pub address_from_public_key : Str → NetworkConfig → Result Str
  -- `ValidateAddressForNetwork`
  pub validate_address : Str → NetworkConfig → Result ⊤
  -- `json.Marshal`
  pub transaction_json : Transaction → Str
  pub fee_payer_json : FeePayerPayload → Str
