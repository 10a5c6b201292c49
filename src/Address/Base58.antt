-- ===== src/Address/Base58.antt =====
-- The round trip of base58 (deskachain/node/internal/address/base58.go).
use des_ka_project.Prelude.{
  ℕ, zero, suc, ◌+◌, ◌*◌, ◌<◌, ◌≡◌, refl, ap, ◌∙◌, Bool, true, false, not, List, [], ◌∷◌, ◌++◌, map,
  All, Str, ◌==◌, if◌then◌else◌, arith, Option, none, some, Result, ok, err, msg, Bool-cases, inl,
  inr, ◌&&◌, ◌||◌,
}
use des_ka_project.Prelude.Results.{◌>>=◌}
use des_ka_project.Address.{
  alphabet, index_from, from_radix, to_radix, leading, repeat, char, base58_encode, decode_value,
  base58_decode,
}
use des_ka_project.Address.Radix.{
  split58, shrink58, from_radix-to_radix, digits-Leads, to_radix-All, digits256-leading, Leads,
}

module _ (test : ℕ → Bool) where
  abbrev all_below : ℕ → Bool
  all_below zero = true
  all_below (suc n) = test n && all_below n

  all_below-lt : (n d : ℕ) → all_below n ≡ true → d < n → test d ≡ true
  all_below-lt zero d h l = ground arith
  all_below-lt (suc n) d h l = elim (Bool-cases (d == n)) [
    | inl same ↦
        let e : d ≡ n = ground arith in let here : test n ≡ true = ground arith in ap test e ∙ here
    | inr other ↦ all_below-lt n d (ground arith) (ground arith)
  ]

-- The character of a digit is the one at its index, and is 1 for the digit 0 only.
abbrev is_indexed : ℕ → Bool
is_indexed d = elim (index_from 0 (char d) alphabet) [ none ↦ false | some i ↦ i == d ]

abbrev is_other : ℕ → Bool
is_other d = d == 0 || not (char d == 49)

all_indexed : all_below is_indexed 58 ≡ true
all_indexed = refl

all_other : all_below is_other 58 ≡ true
all_other = refl

found_index : (o : Option ℕ) (d : ℕ) → elim o [ none ↦ false | some i ↦ i == d ] ≡ true → o ≡ some d
found_index none d h = ground arith
found_index (some i) d h = let e : i ≡ d = ground arith in ap some e

other_char : (z o : Bool) → z || not o ≡ true → z ≡ false → o ≡ false
other_char z o h k = ground arith

not_zero : (d : ℕ) → 0 < d → (d == 0) ≡ false
not_zero d p = ground arith

char-index : (d : ℕ) → d < 58 → index_from 0 (char d) alphabet ≡ some d
char-index d h =
    let found = all_below-lt is_indexed 58 d all_indexed h in
    found_index (index_from 0 (char d) alphabet) d found

first_char : (d : ℕ) → d < 58 → 0 < d → (char d == 49) ≡ false
first_char d h p =
    let other = all_below-lt is_other 58 d all_other h in
    other_char (d == 0) (char d == 49) other (not_zero d p)

-- The decoder reads the value of the digits.
decode_value-char :
    (x : ℕ) (ds : List ℕ)
    → All (λ d. d < 58) ds
    → decode_value x (map char ds) ≡ ok (from_radix 58 x ds)
unfolding decode_value
decode_value-char x [] h = refl
decode_value-char x (d ∷ ds) (small, h) =
    ap
      (λ o. elim o as (λ _. Result ℕ) [
        | none ↦ err (msg "invalid base58 character")
        | some index ↦ decode_value (x * 58 + index) (map char ds)
      ])
      (char-index d small)
    ∙ decode_value-char (x * 58 + d) ds h

-- Characters 1 in front count for nothing.
decode_value-repeat : (n : ℕ) (s : Str) → decode_value 0 (repeat n 49 ++ s) ≡ decode_value 0 s
unfolding decode_value
decode_value-repeat zero s = refl
decode_value-repeat (suc n) s = decode_value-repeat n s

leading-repeat : (n : ℕ) (s : Str) → leading 49 s ≡ 0 → leading 49 (repeat n 49 ++ s) ≡ n
leading-repeat zero s h = h
leading-repeat (suc n) s h = ap suc (leading-repeat n s h)

leading-char :
    (ds : List ℕ)
    → All (λ d. d < 58) ds
    → Leads 58 split58 shrink58 ds
    → leading 49 (map char ds) ≡ 0
leading-char [] h p = refl
leading-char (d ∷ ds) (small, h) p =
    ap (λ (b : Bool). if b then suc (leading 49 (map char ds)) else 0) (first_char d small p)

module _ (x : ℕ) where
  digits58-All : All (λ d. d < 58) (to_radix 58 x x [])
  digits58-All = to_radix-All 58 split58 shrink58 (λ y. omega arith) x x [] tt

  value58 : decode_value 0 (map char (to_radix 58 x x [])) ≡ ok x
  value58 =
      decode_value-char 0 (to_radix 58 x x []) digits58-All
      ∙ ap ok (from_radix-to_radix 58 split58 shrink58 x x [] (omega arith))

leading58 : (x : ℕ) → leading 49 (map char (to_radix 58 x x [])) ≡ 0
leading58 zero = refl
leading58 (suc x) =
    leading-char (to_radix 58 (suc x) (suc x) []) (digits58-All (suc x))
      (digits-Leads 58 split58 shrink58 (suc x) (suc x) [] (omega arith) (omega arith))

abbrev with_zeros : ℕ → Result ℕ → Result Str
with_zeros n (ok x) = ok (repeat n 0 ++ to_radix 256 x x [])
with_zeros n (err e) = err e

base58_decode-with_zeros :
    (s : Str) → base58_decode s ≡ with_zeros (leading 49 s) (decode_value 0 s)
unfolding base58_decode
base58_decode-with_zeros s =
    elim (decode_value 0 s)
      as (λ r.
        (r >>= λ x. ok (repeat (leading 49 s) 0 ++ to_radix 256 x x []))
        ≡ with_zeros (leading 49 s) r) [ ok x ↦ refl | err e ↦ refl ]

-- Decoding the base58 text of any bytes gives the bytes back.
pub base58_decode-base58_encode :
    (input : Str) → All (λ b. b < 256) input → base58_decode (base58_encode input) ≡ ok input
unfolding base58_encode
base58_decode-base58_encode input h =
    let x = from_radix 256 0 input in
    let text = map char (to_radix 58 x x []) in
    base58_decode-with_zeros (repeat (leading 0 input) 49 ++ text)
    ∙ ap (λ n. with_zeros n (decode_value 0 (repeat (leading 0 input) 49 ++ text)))
        (leading-repeat (leading 0 input) text (leading58 x))
    ∙ ap (with_zeros (leading 0 input)) (decode_value-repeat (leading 0 input) text ∙ value58 x)
    ∙ ap ok (digits256-leading input h)
