-- ===== src/Address/Accepted.antt =====
-- What an address looks like that DecodeAddress of deskachain/node/internal/address/address.go reads.
use des_ka_project.Prelude.{
  ℕ, zero, suc, ◌-◌, ◌≡◌, refl, sym, ap, subst, ◌∙◌, true, false, not, ◌&&◌, ltb, [], ◌∷◌, ◌++◌,
  Str, ◌=s◌, =s→eq, has_prefix, ◌==◌, if◌then◌else◌, length, arith, msg, ok, err, check, ◌⊎◌, inl,
  inr, Bool-cases,
}
use des_ka_project.Prelude.Results.{◌>>◌, then-ok, bind-ok, check-not-ok}
use des_ka_project.Config.{NetworkConfig}
use des_ka_project.Asset.{to_lower}
use des_ka_project.Address.{nth, base58_decode}
use des_ka_project.Address.Network.{
  take, drop, check_raw, checksum, base58_check_decode, decode_network_address, decode_address,
  is_legacy_dev_address, legacy_dev_prefix, legacy_payload, AddressPayload,
}

ok_inj : {A : Type 0} {x y : A} → ok x ≡ ok y → x ≡ y
ok_inj {x = x} h = ap (λ r. elim r [ ok a ↦ a | err e ↦ x ]) h

take-drop : (n : ℕ) (s : Str) → s ≡ take n s ++ drop n s
take-drop zero s = refl
take-drop (suc n) [] = refl
take-drop (suc n) (c ∷ s) = ap (◌∷◌ c) (take-drop n s)

has_prefix-drop : (s t : Str) → has_prefix s t ≡ true → s ≡ t ++ drop (length t) s
has_prefix-drop s [] h = refl
has_prefix-drop [] (c ∷ t) h = ground arith
has_prefix-drop (d ∷ s) (c ∷ t) h = ground (arith, has_prefix-drop s t)

-- The first byte and the rest.
nth-drop : (s : Str) (n : ℕ) → length s ≡ suc n → (s ≡ nth 0 s ∷ drop 1 s) × (length (drop 1 s) ≡ n)
nth-drop [] n h = ground arith
nth-drop (c ∷ s) n h = (refl, omega arith)

module _ (sha256 ripemd160 : Str → Str) where
  check_raw-checksum :
      (raw payload : Str)
      → check_raw sha256 raw ≡ ok payload
      → raw ≡ payload ++ checksum sha256 payload
  unfolding check_raw
  check_raw-checksum raw payload h =
      let front = take (length raw - 4) raw in
      let got = drop (length raw - 4) raw in
      let (long, h₁) = then-ok {r = check (ltb (length raw) 5) (msg "payload too short")} h in
      let (matches, h₂) =
        then-ok {r = check (not (got =s checksum sha256 front)) (msg "checksum mismatch")} h₁ in
      let same : front ≡ payload = ground arith in
      let sum : got ≡ checksum sha256 front =
        =s→eq (check-not-ok (got =s checksum sha256 front) (msg "checksum mismatch") matches) in
      subst (λ t. raw ≡ t ++ checksum sha256 t) same
        (take-drop (length raw - 4) raw ∙ ap (◌++◌ front) sum)

  base58_check_decode-checksum :
      (text payload : Str)
      → base58_check_decode sha256 text ≡ ok payload
      → base58_decode text ≡ ok (payload ++ checksum sha256 payload)
  unfolding base58_check_decode
  base58_check_decode-checksum text payload h =
      let (raw, decoded, checked) = bind-ok {r = base58_decode text} h in
      decoded ∙ ap ok (check_raw-checksum raw payload checked)

  -- The text of an address on the network: the prefix, and the base58 text of the version, a hash of
  -- 20 bytes and their checksum, with what is read from it.
  pub record NetworkAddress (addr : Str) (p : NetworkConfig) (read : AddressPayload) : Type 0 where
    pub body : Str
    pub hash : Str
    pub prefixed : addr ≡ p.address_prefix ++ body
    pub encoded :
        base58_decode body
        ≡ ok (p.address_version ∷ hash ++ checksum sha256 (p.address_version ∷ hash))
    pub hash_size : length hash ≡ 20
    pub read_version : read.version ≡ p.address_version
    pub read_hash : read.pub_key_hash ≡ hash
    pub read_legacy : read.legacy ≡ false

  -- What the checks of the decoded payload establish.
  module _ (addr body payload : Str) (p : NetworkConfig)
      (prefixed : addr ≡ p.address_prefix ++ body)
      (encoded : base58_decode body ≡ ok (payload ++ checksum sha256 payload)) where
    payload-NetworkAddress :
        length payload ≡ 21
        → nth 0 payload ≡ p.address_version
        → NetworkAddress addr p
            (record { version = nth 0 payload; pub_key_hash = drop 1 payload; legacy = false })
    payload-NetworkAddress size first =
        let (parts, rest) = nth-drop payload 20 size in
        let whole : payload ≡ p.address_version ∷ drop 1 payload =
          parts ∙ ap (λ v. v ∷ drop 1 payload) first in
        record {
          body = body;
          hash = drop 1 payload;
          prefixed = prefixed;
          encoded = subst (λ t. base58_decode body ≡ ok (t ++ checksum sha256 t)) whole encoded;
          hash_size = rest;
          read_version = first;
          read_hash = refl;
          read_legacy = refl;
        }

    read_payload-NetworkAddress :
        (read : AddressPayload)
        → (check (not (length payload == 21)) (msg "payload length is invalid")
            >> (check (not (nth 0 payload == p.address_version)) (msg "wrong network version")
                >> ok (record {
                  version = nth 0 payload;
                  pub_key_hash = drop 1 payload;
                  legacy = false;
                })))
          ≡ ok read
        → NetworkAddress addr p read
    read_payload-NetworkAddress read h =
        let (sized, h₁) =
          then-ok {r = check (not (length payload == 21)) (msg "payload length is invalid")} h in
        let (version, h₂) =
          then-ok
            {r = check (not (nth 0 payload == p.address_version)) (msg "wrong network version")}
            h₁ in
        subst (NetworkAddress addr p) (ok_inj h₂)
          (payload-NetworkAddress (ground (arith, sized)) (ground (arith, version)))

  decode_network_address-NetworkAddress :
      (addr : Str) (p : NetworkConfig) (read : AddressPayload)
      → decode_network_address sha256 ripemd160 addr p ≡ ok read
      → NetworkAddress addr p read
  unfolding decode_network_address
  decode_network_address-NetworkAddress addr p read h =
      let body = drop (length p.address_prefix) addr in
      let (starts, h₁) =
        then-ok {r = check (not (has_prefix addr p.address_prefix)) (msg "wrong address prefix")}
          h in
      let (cased, h₂) =
        then-ok
          {r = check
            (has_prefix (to_lower addr) (to_lower p.address_prefix)
              && not (has_prefix addr p.address_prefix))
            (msg "wrong address prefix")}
          h₁ in
      let (payload, decoded, h₃) = bind-ok {r = base58_check_decode sha256 body} h₂ in
      read_payload-NetworkAddress addr body payload p
        (has_prefix-drop addr p.address_prefix
          (check-not-ok (has_prefix addr p.address_prefix) (msg "wrong address prefix") starts))
        (base58_check_decode-checksum body payload decoded) read h₃

  -- The text of an older address, read as one of no network.
  abbrev pub LegacyAddress : Str → NetworkConfig → AddressPayload → Type 0
  LegacyAddress addr p read =
      (has_prefix addr legacy_dev_prefix ≡ true)
      × (length addr ≡ 44)
      × (p.legacy_address_allowed ≡ true)
      × (read ≡ record { version = 0; pub_key_hash = []; legacy = true })

  -- A text that is read as an address on a network is an older address, with its prefix and 44
  -- characters long, on a network that allows these, or it is the prefix of the network and the
  -- base58 text of the network's version, a hash of 20 bytes and the checksum of both, and this
  -- version and hash are what is read.
  pub decode_address-NetworkAddress :
      (addr : Str) (p : NetworkConfig) (read : AddressPayload)
      → decode_address sha256 ripemd160 addr p ≡ ok read
      → LegacyAddress addr p read ⊎ NetworkAddress addr p read
  unfolding decode_address is_legacy_dev_address
  decode_address-NetworkAddress addr p read h = elim (Bool-cases (is_legacy_dev_address addr)) [
    | inl old ↦
        let (allowed, same) =
          then-ok {r = check (not p.legacy_address_allowed) (msg "unsupported legacy address")} (
            subst
              (λ t.
                (if t then legacy_payload p else decode_network_address sha256 ripemd160 addr p)
                ≡ ok read)
              old h) in
        inl (
          ground (arith, old),
          ground (arith, old),
          check-not-ok p.legacy_address_allowed (msg "unsupported legacy address") allowed,
          sym (ok_inj same),
        )
    | inr new ↦ inr (
        decode_network_address-NetworkAddress addr p read (
          subst
            (λ t.
              (if t then legacy_payload p else decode_network_address sha256 ripemd160 addr p)
              ≡ ok read)
            new h))
  ]
