-- ===== src/Tests/Addresses.antt =====
-- An address of the local network, with stand-ins for the hashes.
use des_ka_project.Prelude.{◌+◌, ◌%◌, ◌≡◌, refl, false, Str, codes, length, ◌<◌, ◌⊎◌, ok, arith}
use des_ka_project.Config.{localnet}
use des_ka_project.Address.{base58_encode, repeat}
use des_ka_project.Address.Network.{
  encode_address, is_legacy_dev_address, base58_check_encode, checksum, decode_address, hash160,
  AddressPayload,
}
use des_ka_project.Address.Accepted.{LegacyAddress, NetworkAddress, decode_address-NetworkAddress}
use des_ka_project.Address.Encoded.{decode_address-encode_address, IsBytes}
use des_ka_project.Tests.Data.{alice}

abbrev sha256 : Str → Str
sha256 s = repeat 32 (length s % 256)

abbrev ripemd160 : Str → Str
ripemd160 s = repeat 20 (7 + length s % 16)

abbrev address_of_alice : Str
address_of_alice = codes "iNDD5nFgspqgExJFLXP8prT1EfEqxAGtH7LBZ"

made : encode_address sha256 ripemd160 alice localnet ≡ ok address_of_alice
unfolding encode_address localnet base58_check_encode hash160 checksum base58_encode
made = refl

not_legacy : is_legacy_dev_address address_of_alice ≡ false
unfolding is_legacy_dev_address
not_legacy = refl

byte_version : localnet.address_version < 256
unfolding localnet
byte_version = omega arith

sha256-IsBytes : (s : Str) → IsBytes (sha256 s)
sha256-IsBytes s = omega arith

ripemd160-IsBytes : (s : Str) → IsBytes (ripemd160 s)
ripemd160-IsBytes s = omega arith

decode_address-encode_address_example :
    decode_address sha256 ripemd160 address_of_alice localnet
    ≡ ok (record {
      version = localnet.address_version;
      pub_key_hash = hash160 sha256 ripemd160 alice;
      legacy = false;
    })
decode_address-encode_address_example =
    decode_address-encode_address sha256 ripemd160 alice localnet address_of_alice sha256-IsBytes
      (λ s. refl) ripemd160-IsBytes (λ s. refl) byte_version made not_legacy

abbrev read_of_alice : AddressPayload
read_of_alice = record {
  version = localnet.address_version;
  pub_key_hash = hash160 sha256 ripemd160 alice;
  legacy = false;
}

reads_alice : decode_address sha256 ripemd160 address_of_alice localnet ≡ ok read_of_alice
reads_alice =
    decode_address-encode_address sha256 ripemd160 alice localnet address_of_alice sha256-IsBytes
      (λ s. refl) ripemd160-IsBytes (λ s. refl) byte_version made not_legacy

decode_address-NetworkAddress_example :
    LegacyAddress sha256 ripemd160 address_of_alice localnet read_of_alice
    ⊎ NetworkAddress sha256 ripemd160 address_of_alice localnet read_of_alice
decode_address-NetworkAddress_example =
    decode_address-NetworkAddress sha256 ripemd160 address_of_alice localnet read_of_alice
      reads_alice
