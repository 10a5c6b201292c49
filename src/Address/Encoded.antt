-- ===== src/Address/Encoded.antt =====
-- An address that deskachain/node/internal/address/address.go makes of a public key is read back.
use des_ka_project.Prelude.{
  ℕ, zero, suc, ◌-◌, ◌≤◌, ◌<◌, ◌≡◌, refl, ap, ◌∙◌, Bool, true, false, not, ◌&&◌, [], ◌∷◌, ◌++◌, Str,
  All, has_prefix, ◌==◌, if◌then◌else◌, length, length-append, arith, msg, Result, ok, check,
}
use des_ka_project.Prelude.Results.{◌>>=◌, ◌>>◌}
use des_ka_project.Config.{NetworkConfig}
use des_ka_project.Asset.{to_lower}
use des_ka_project.Address.{nth}
use des_ka_project.Address.Base58.{base58_decode-base58_encode}
use des_ka_project.Address.Network.{
  take, drop, check_raw, checksum, hash160, base58_check_encode, base58_check_decode,
  encode_address, decode_network_address, decode_address, is_legacy_dev_address, AddressPayload,
  legacy_payload,
}

abbrev pub IsBytes : Str → Type 0
IsBytes = All (λ b. b < 256)

take-length : (s t : Str) → take (length s) (s ++ t) ≡ s
take-length [] t = refl
take-length (c ∷ s) t = ap (◌∷◌ c) (take-length s t)

drop-length : (s t : Str) → drop (length s) (s ++ t) ≡ t
drop-length [] t = refl
drop-length (c ∷ s) t = drop-length s t

has_prefix-append : (s t : Str) → has_prefix (s ++ t) s ≡ true
has_prefix-append [] t = refl
has_prefix-append (c ∷ s) t = ground (arith, has_prefix-append s t)

IsBytes-append : (s t : Str) → IsBytes s → IsBytes t → IsBytes (s ++ t)
IsBytes-append [] t h k = k
IsBytes-append (c ∷ s) t (small, h) k = (small, IsBytes-append s t h k)

IsBytes-take : (n : ℕ) (s : Str) → IsBytes s → IsBytes (take n s)
IsBytes-take zero s h = tt
IsBytes-take (suc n) [] h = tt
IsBytes-take (suc n) (c ∷ s) (small, h) = (small, IsBytes-take n s h)

length-take : (n : ℕ) (s : Str) → n ≤ length s → length (take n s) ≡ n
length-take zero s h = refl
length-take (suc n) [] h = omega arith
length-take (suc n) (c ∷ s) h = ap suc (length-take n s (omega arith))

has_prefix-cases :
    (s t : Str) → has_prefix (to_lower (s ++ t)) (to_lower s) && not (has_prefix (s ++ t) s) ≡ false
has_prefix-cases s t = ground (arith, has_prefix-append s t)

module _ (sha256 : Str → Str) where
  check_raw-ok :
      (raw payload : Str)
      → 5 ≤ length raw
      → take (length raw - 4) raw ≡ payload
      → drop (length raw - 4) raw ≡ checksum sha256 payload
      → check_raw sha256 raw ≡ ok payload
  unfolding check_raw
  check_raw-ok raw payload h t d = ground arith

  module _ (bytes : (s : Str) → IsBytes (sha256 s))
      (size : (s : Str) → length (sha256 s) ≡ 32) where
    length-checksum : (payload : Str) → length (checksum sha256 payload) ≡ 4
    unfolding checksum
    length-checksum payload =
        length-take 4 (sha256 (sha256 payload)) (omega (arith, size (sha256 payload)))

    checksum-IsBytes : (payload : Str) → IsBytes (checksum sha256 payload)
    unfolding checksum
    checksum-IsBytes payload = IsBytes-take 4 (sha256 (sha256 payload)) (bytes (sha256 payload))

    -- Where SHA-256 gives 32 bytes, decoding the text with a checksum of some bytes, at least one,
    -- gives the bytes back.
    pub base58_check_decode-base58_check_encode :
        (payload : Str)
        → IsBytes payload
        → 1 ≤ length payload
        → base58_check_decode sha256 (base58_check_encode sha256 payload) ≡ ok payload
    unfolding base58_check_decode base58_check_encode
    base58_check_decode-base58_check_encode payload h some_byte =
        let sum = checksum sha256 payload in
        let raw = payload ++ sum in
        let four = length-checksum payload in
        let whole = length-append payload sum in
        let cut : length raw - 4 ≡ length payload = omega (arith, four, whole) in
        ap (λ r. r >>= check_raw sha256)
          (base58_decode-base58_encode raw
            (IsBytes-append payload sum h (checksum-IsBytes payload)))
        ∙ check_raw-ok raw payload (omega (arith, four, whole, some_byte))
            (ap (λ n. take n raw) cut ∙ take-length payload sum)
            (ap (λ n. drop n raw) cut ∙ drop-length payload sum)

module _ (sha256 ripemd160 : Str → Str) where
  -- The payload of the address of a key.
  abbrev payload_of : Str → NetworkConfig → Str
  payload_of pub_key p = p.address_version ∷ hash160 sha256 ripemd160 pub_key

  abbrev read_payload : NetworkConfig → Str → Result AddressPayload
  read_payload p payload =
      check (not (length payload == 21)) (msg "payload length is invalid")
      >> (check (not (nth 0 payload == p.address_version)) (msg "wrong network version")
          >> ok (record { version = nth 0 payload; pub_key_hash = drop 1 payload; legacy = false }))

  read_payload-ok :
      (p : NetworkConfig) (hash : Str)
      → length hash ≡ 20
      → read_payload p (p.address_version ∷ hash)
        ≡ ok (record { version = p.address_version; pub_key_hash = hash; legacy = false })
  read_payload-ok p hash h = ground arith

  decode_network_address-prefix :
      (p : NetworkConfig) (text : Str)
      → decode_network_address sha256 ripemd160 (p.address_prefix ++ text) p
        ≡ (base58_check_decode sha256 text >>= read_payload p)
  unfolding decode_network_address
  decode_network_address-prefix p text =
      rw
        (
          has_prefix-cases p.address_prefix text,
          has_prefix-append p.address_prefix text,
          drop-length p.address_prefix text,
        )
        refl

  encode_address-ok :
      (pub_key : Str) (p : NetworkConfig) (addr : Str)
      → encode_address sha256 ripemd160 pub_key p ≡ ok addr
      → addr ≡ p.address_prefix ++ base58_check_encode sha256 (payload_of pub_key p)
  unfolding encode_address
  encode_address-ok pub_key p addr h = ground arith

  -- Where SHA-256 gives 32 bytes and RIPEMD-160 gives 20, on a network whose address version is a
  -- byte, the address made of a public key, unless it looks like a legacy address, is read back as
  -- the version of the network and the hash of the key.
  pub decode_address-encode_address :
      (pub_key : Str) (p : NetworkConfig) (addr : Str)
      → ((s : Str) → IsBytes (sha256 s))
      → ((s : Str) → length (sha256 s) ≡ 32)
      → ((s : Str) → IsBytes (ripemd160 s))
      → ((s : Str) → length (ripemd160 s) ≡ 20)
      → p.address_version < 256
      → encode_address sha256 ripemd160 pub_key p ≡ ok addr
      → is_legacy_dev_address addr ≡ false
      → decode_address sha256 ripemd160 addr p
        ≡ ok (record {
          version = p.address_version;
          pub_key_hash = hash160 sha256 ripemd160 pub_key;
          legacy = false;
        })
  unfolding decode_address hash160
  decode_address-encode_address pub_key p addr bytes size hash_bytes hash_size small h not_legacy =
      let hash = ripemd160 (sha256 pub_key) in
      let payload = p.address_version ∷ hash in
      let text = base58_check_encode sha256 payload in
      let made = encode_address-ok pub_key p addr h in
      ap
        (λ (b : Bool).
          if b then legacy_payload p else decode_network_address sha256 ripemd160 addr p)
        not_legacy
      ∙ ap (λ s. decode_network_address sha256 ripemd160 s p) made
      ∙ decode_network_address-prefix p text
      ∙ ap (λ r. r >>= read_payload p)
          (base58_check_decode-base58_check_encode sha256 bytes size payload
            (small, hash_bytes (sha256 pub_key)) (omega arith))
      ∙ read_payload-ok p hash (hash_size (sha256 pub_key))
