-- ===== src/Address/Network.antt =====
-- The addresses of a network: deskachain/node/internal/address/address.go, the checksum of base58.go,
-- and crypto/address.go. SHA-256, RIPEMD-160 and the decoding of hexadecimal text are parameters.
use des_ka_project.Prelude.{
  ℕ, zero, suc, ◌-◌, Bool, true, false, not, ◌&&◌, ◌||◌, [], ◌∷◌, ◌++◌, Str, codes, ◌=s◌, is_empty,
  has_prefix, ltb, leb, ◌==◌, if◌then◌else◌, length, msg, Result, ok, ⊤, check, wrap_err,
}
use des_ka_project.Prelude.Results.{◌>>=◌, ◌>>◌}
use des_ka_project.Config.{NetworkConfig}
use des_ka_project.Asset.{to_lower}
use des_ka_project.Types.Crypto.{Crypto}
use des_ka_project.Address.{nth, base58_encode, base58_decode}

-- `s[:n]` and `s[n:]`
abbrev pub take : ℕ → Str → Str
take zero s = []
take (suc n) [] = []
take (suc n) (c ∷ s) = c ∷ take n s

abbrev pub drop : ℕ → Str → Str
drop zero s = s
drop (suc n) [] = []
drop (suc n) (c ∷ s) = drop n s

abbrev pub legacy_dev_prefix : Str
legacy_dev_prefix = codes "iND1"

pub record AddressPayload : Type 0 where
  pub version : ℕ
  pub pub_key_hash : Str
  pub legacy : Bool

abbrev is_lower_hex : Str → Bool
is_lower_hex [] = true
is_lower_hex (c ∷ s) = (leb 48 c && leb c 57 || leb 97 c && leb c 102) && is_lower_hex s

unfoldable pub is_legacy_dev_address : Str → Bool
is_legacy_dev_address addr =
    has_prefix addr legacy_dev_prefix && length addr == 44 && is_lower_hex (drop 4 addr)

abbrev pub legacy_payload : NetworkConfig → Result AddressPayload
legacy_payload p = do
  check (not p.legacy_address_allowed) (msg "unsupported legacy address")
  ok (record { version = 0; pub_key_hash = []; legacy = true })

module _ (sha256 : Str → Str) where
  unfoldable pub checksum : Str → Str
  checksum payload = take 4 (sha256 (sha256 payload))

  unfoldable pub base58_check_encode : Str → Str
  base58_check_encode payload = base58_encode (payload ++ checksum payload)

  -- The decoded bytes, without the checksum at their end.
  unfoldable pub check_raw : Str → Result Str
  check_raw raw =
      let payload = take (length raw - 4) raw in
      let got = drop (length raw - 4) raw in
      check (ltb (length raw) 5) (msg "payload too short")
      >> (check (not (got =s checksum payload)) (msg "checksum mismatch") >> ok payload)

  unfoldable pub base58_check_decode : Str → Result Str
  base58_check_decode encoded = do raw ← base58_decode encoded; check_raw raw

module _ (sha256 ripemd160 : Str → Str) where
  unfoldable pub hash160 : Str → Str
  hash160 pub_key = ripemd160 (sha256 pub_key)

  unfoldable pub encode_address : Str → NetworkConfig → Result Str
  encode_address pub_key p = do
    check (is_empty pub_key) (msg "public key is required")
    ok (p.address_prefix ++ base58_check_encode sha256 (p.address_version ∷ hash160 pub_key))

  unfoldable pub decode_network_address : Str → NetworkConfig → Result AddressPayload
  decode_network_address addr p = do
    check (not (has_prefix addr p.address_prefix)) (msg "wrong address prefix")
    check
        (has_prefix (to_lower addr) (to_lower p.address_prefix)
          && not (has_prefix addr p.address_prefix))
        (msg "wrong address prefix")
    payload ← base58_check_decode sha256 (drop (length p.address_prefix) addr)
    check (not (length payload == 21)) (msg "payload length is invalid")
    check (not (nth 0 payload == p.address_version)) (msg "wrong network version")
    ok (record { version = nth 0 payload; pub_key_hash = drop 1 payload; legacy = false })

  unfoldable pub decode_address : Str → NetworkConfig → Result AddressPayload
  decode_address addr p =
      if is_legacy_dev_address addr then legacy_payload p else decode_network_address addr p

  -- `ValidateAddressForNetwork` of the package crypto
  unfoldable pub validate_address_for_network : Str → NetworkConfig → Result ⊤
  validate_address_for_network addr p = do
    payload ← wrap_err "invalid address" (decode_address addr p)
    ok tt

  module _ (decode_hex : Str → Result Str) where
    unfoldable pub address_from_public_key_for_network : Str → NetworkConfig → Result Str
    address_from_public_key_for_network public_key_hex p = do
      raw ← decode_hex public_key_hex
      encode_address raw p

    -- The interface of the ledger, with these addresses.
    abbrev pub with_addresses : Crypto → Crypto
    with_addresses c = record c {
      address_from_public_key = address_from_public_key_for_network;
      validate_address = validate_address_for_network;
    }
