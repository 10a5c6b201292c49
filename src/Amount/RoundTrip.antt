-- ===== src/Amount/RoundTrip.antt =====
-- An amount that is written out is read back.
use mathlib.Core.List.{append-nil}
use native.Mathlib.Nat.{
  div-add-mod', div-mul-le_self, div-le_self, le-div_iff_mul-le, mod-lt, mod-le,
}
use des_ka_project.Prelude.{
  ℕ, zero, suc, ◌+◌, ◌-◌, ◌*◌, ◌/◌, ◌%◌, ◌≤◌, ◌<◌, ◌≡◌, refl, sym, ap, subst, ◌∙◌, false, [], ◌∷◌,
  ◌++◌, Str, is_empty, ◌==◌, length, replicate, length-append, All, arith, ok,
}
use des_ka_project.Prelude.Results.{◌>>=◌}
use des_ka_project.Prelude.Decimal.{format_uint, parse_uint, split_on}
use des_ka_project.Prelude.Decimal.Digits.{
  IsDigit, pow10, pow10_pos, pow10_mono, decimal, parse_uint-decimal, decimal-digits,
  digits-IsDigit, length-digits, digits_nonempty, decimal-replicate,
}
use des_ka_project.Asset.{is_space}
use des_ka_project.Amount.{
  units_per_whole, pad_right, pad_left, add_fraction, parse_parts, parse_units, format_units,
  trim_right,
}
use des_ka_project.Amount.Text.{
  Without, NoSpace, All-append, trim_space-NoSpace, split_on-append, split_on_whole, All-trim_right,
  length-trim_right, trim_right-Without, trim_right-append, trim_right-append_nil,
  pad_right-trim_right,
}

pow10_20 : pow10 20 ≡ 100000000000000000000
unfolding pow10
pow10_20 = refl

pow10_19 : pow10 19 ≡ 10000000000000000000
unfolding pow10
pow10_19 = refl

units_per_whole-pow10 : (d : ℕ) → d ≤ 19 → units_per_whole d ≡ pow10 d
unfolding units_per_whole pow10
units_per_whole-pow10 zero h = refl
units_per_whole-pow10 (suc d) h =
    omega (arith, units_per_whole-pow10 d, pow10_mono (suc d) 19 h, pow10_19)

-- What a printed number is.
format_uint-IsDigit : (n : ℕ) → All IsDigit (format_uint n)
unfolding format_uint
format_uint-IsDigit n = digits-IsDigit 20 n [] tt

format_uint_nonempty : (n : ℕ) → is_empty (format_uint n) ≡ false
unfolding format_uint
format_uint_nonempty n = digits_nonempty 19 n []

decimal-format_uint : (n : ℕ) → n ≤ 18446744073709551615 → decimal 0 (format_uint n) ≡ n
unfolding format_uint decimal
decimal-format_uint n h = decimal-digits 20 n [] (omega (arith, pow10_20))

parse_uint-format_uint : (n : ℕ) → n ≤ 18446744073709551615 → parse_uint (format_uint n) ≡ ok n
parse_uint-format_uint n h =
    parse_uint-decimal (format_uint n) (format_uint_nonempty n) (format_uint-IsDigit n)
      (omega (arith, decimal-format_uint n h))
    ∙ ap ok (decimal-format_uint n h)

replicate-IsDigit : (k : ℕ) → All IsDigit (replicate k 48)
replicate-IsDigit zero = tt
replicate-IsDigit (suc k) = ((omega arith, omega arith), replicate-IsDigit k)

length-replicate : (k : ℕ) → length (replicate {A = ℕ} k 48) ≡ k
length-replicate zero = refl
length-replicate (suc k) = omega (arith, length-replicate k)

-- A fraction is written with all its decimals.
module _ (d n : ℕ) (fits : n < pow10 d) (some_decimals : 0 < d)
    (small : n ≤ 18446744073709551615) where
  length-pad_left : length (pad_left d n) ≡ d
  unfolding format_uint
  length-pad_left = omega (
    arith,
    length-append {0} (replicate (d - length (format_uint n)) 48) (format_uint n),
    length-replicate (d - length (format_uint n)),
    length-digits 20 n d [] fits some_decimals,
  )

  pad_left-IsDigit : All IsDigit (pad_left d n)
  pad_left-IsDigit =
      All-append IsDigit (replicate (d - length (format_uint n)) 48) (format_uint n)
        (replicate-IsDigit (d - length (format_uint n))) (format_uint-IsDigit n)

  decimal-pad_left : decimal 0 (pad_left d n) ≡ n
  decimal-pad_left =
      decimal-replicate (d - length (format_uint n)) (format_uint n) ∙ decimal-format_uint n small

whole_fits : (u p : ℕ) → 0 < p → u ≤ 18446744073709551615 → u / p ≤ 18446744073709551615 / p
whole_fits u p h k = (le-div_iff_mul-le h).1 (omega (arith, div-mul-le_self u p))

add_fraction_lem :
    (d total n : ℕ) (w f : Str)
    → length f ≤ d
    → parse_uint (pad_right d f) ≡ ok n
    → total + n ≤ 18446744073709551615
    → add_fraction d total (w ∷ f ∷ []) ≡ ok (total + n)
unfolding add_fraction
add_fraction_lem d total n w f l e h = rw e (ground arith)

module _ (u d p : ℕ) (scale : units_per_whole d ≡ p) (pos : 0 < p) (some_units : 0 < u)
    (small : u ≤ 18446744073709551615) where
  -- The units behind the point, and none of them.
  parse_parts_fraction :
      (w f : Str)
      → is_empty w ≡ false
      → parse_uint w ≡ ok (u / p)
      → length f ≤ d
      → parse_uint (pad_right d f) ≡ ok (u % p)
      → parse_parts d (w ∷ f ∷ []) ≡ ok u
  unfolding parse_parts
  parse_parts_fraction w f e ew l ef =
      rw (e, ew, scale)
        (ground (
          arith,
          whole_fits u p,
          div-add-mod' u p,
          add_fraction_lem d (u / p * p) (u % p) w f l ef,
        ))

  parse_parts_whole :
      (w : Str)
      → is_empty w ≡ false
      → parse_uint w ≡ ok (u / p)
      → u % p ≡ 0
      → parse_parts d (w ∷ []) ≡ ok u
  unfolding parse_parts add_fraction
  parse_parts_whole w e ew z = rw (e, ew, scale) (ground (arith, whole_fits u p, div-add-mod' u p))

digit-no-point : (s : Str) → All IsDigit s → Without b'.' s
digit-no-point [] h = h
digit-no-point (c ∷ s) (p, h) = (ground arith, digit-no-point s h)

digit-no-space : (s : Str) → All IsDigit s → NoSpace s
digit-no-space [] h = h
digit-no-space (c ∷ s) (p, h) = (ground arith, digit-no-space s h)

nonempty : (s : Str) → 0 < length s → is_empty s ≡ false
nonempty [] h = ground arith
nonempty (c ∷ s) h = refl

parse_units-split :
    (c d : ℕ) (s : Str)
    → 48 ≤ c
    → NoSpace (c ∷ s)
    → parse_units (c ∷ s) d ≡ parse_parts d (split_on b'.' (c ∷ s))
unfolding parse_units
parse_units-split c d s p h = rw (trim_space-NoSpace (c ∷ s) h) (ground arith)

parse_units_whole :
    (d : ℕ) (w : Str)
    → is_empty w ≡ false
    → All IsDigit w
    → parse_units w d ≡ parse_parts d (w ∷ [])
parse_units_whole d [] e h = ground arith
parse_units_whole d (c ∷ w) e h =
    parse_units-split c d w h.0.0 (digit-no-space (c ∷ w) h)
    ∙ ap (parse_parts d) (split_on_whole b'.' (c ∷ w) (digit-no-point (c ∷ w) h))

parse_units_fraction :
    (d : ℕ) (w f : Str)
    → is_empty w ≡ false
    → All IsDigit w
    → All IsDigit f
    → parse_units (w ++ (b'.' ∷ f)) d ≡ parse_parts d (w ∷ f ∷ [])
parse_units_fraction d [] f e h k = ground arith
parse_units_fraction d (c ∷ w) f e h k =
    parse_units-split c d (w ++ (b'.' ∷ f)) h.0.0 (
      All-append (λ x. is_space x ≡ false) (c ∷ w) (b'.' ∷ f) (digit-no-space (c ∷ w) h)
        (refl, digit-no-space f k))
    ∙ ap (parse_parts d) (
        split_on-append b'.' (c ∷ w) f (digit-no-point (c ∷ w) h)
        ∙ ap (λ t. (c ∷ w) ∷ t) (split_on_whole b'.' f (digit-no-point f k)))

-- The text of an amount, trimmed: the whole, and the fraction behind a point where it is not zero.
trim_zeros : (w f : Str) → trim_right b'0' (w ++ (b'.' ∷ f)) ≡ w ++ (b'.' ∷ trim_right b'0' f)
trim_zeros w f =
    trim_right-append b'0' w (b'.' ∷ f) (ground arith) ∙ ap (λ t. w ++ t) (ground arith)

trim_point_only : (w : Str) → All IsDigit w → trim_right b'.' (w ++ (b'.' ∷ [])) ≡ w
trim_point_only w h =
    trim_right-append_nil b'.' w (b'.' ∷ []) refl ∙ trim_right-Without b'.' w (digit-no-point w h)

trim_point :
    (w : Str) (c : ℕ) (f : Str)
    → All IsDigit (c ∷ f)
    → trim_right b'.' (w ++ (b'.' ∷ c ∷ f)) ≡ w ++ (b'.' ∷ c ∷ f)
trim_point w c f h =
    let same = trim_right-Without b'.' (c ∷ f) (digit-no-point (c ∷ f) h) in
    trim_right-append b'.' w (b'.' ∷ c ∷ f) (ground (arith, same))
    ∙ ap (λ t. w ++ t) (ground (arith, same))

module _ (u d : ℕ) (some_units : 0 < u) (small : u ≤ 18446744073709551615) (some_decimals : 0 < d)
    (few : d ≤ 19) where
  abbrev whole : Str
  whole = format_uint (u / pow10 d)

  abbrev fraction : Str
  fraction = pad_left d (u % pow10 d)

  scale : units_per_whole d ≡ pow10 d
  scale = units_per_whole-pow10 d few

  whole_small : u / pow10 d ≤ 18446744073709551615
  whole_small = omega (arith, div-le_self u (pow10 d))

  rest_small : u % pow10 d ≤ 18446744073709551615
  rest_small = omega (arith, mod-le u (pow10 d))

  rest_fits : u % pow10 d < pow10 d
  rest_fits = mod-lt u (pow10_pos d)

  padded : pad_right d (trim_right b'0' fraction) ≡ fraction
  padded =
      ap (λ n. pad_right n (trim_right b'0' fraction))
        (sym (length-pad_left d (u % pow10 d) rest_fits some_decimals rest_small))
      ∙ pad_right-trim_right fraction

  fraction_nonempty : is_empty fraction ≡ false
  fraction_nonempty = nonempty fraction (
      omega
        (arith, length-pad_left d (u % pow10 d) rest_fits some_decimals rest_small, some_decimals))

  fraction-IsDigit : All IsDigit fraction
  fraction-IsDigit = pad_left-IsDigit d (u % pow10 d) rest_fits some_decimals rest_small

  decimal-fraction : decimal 0 fraction ≡ u % pow10 d
  decimal-fraction = decimal-pad_left d (u % pow10 d) rest_fits some_decimals rest_small

  reparse_fraction : parse_uint (pad_right d (trim_right b'0' fraction)) ≡ ok (u % pow10 d)
  reparse_fraction =
      ap parse_uint padded
      ∙ parse_uint-decimal fraction fraction_nonempty fraction-IsDigit
          (omega (arith, decimal-fraction, rest_small))
      ∙ ap ok decimal-fraction

  no_rest : trim_right b'0' fraction ≡ [] → u % pow10 d ≡ 0
  unfolding decimal
  no_rest e =
      sym decimal-fraction
      ∙ ap (decimal 0) (sym padded ∙ ap (pad_right d) e ∙ sym (append-nil (replicate (d - 0) 48)))
      ∙ decimal-replicate (d - 0) []

  -- What is read back, for either form of the fraction.
  read_back :
      (t : Str)
      → trim_right b'0' fraction ≡ t
      → parse_units (trim_right b'.' (whole ++ (b'.' ∷ t))) d ≡ ok u
  read_back [] e =
      ap (λ text. parse_units text d) (trim_point_only whole (format_uint-IsDigit (u / pow10 d)))
      ∙ parse_units_whole d whole (format_uint_nonempty (u / pow10 d))
          (format_uint-IsDigit (u / pow10 d))
      ∙ parse_parts_whole u d (pow10 d) scale (pow10_pos d) some_units small whole
          (format_uint_nonempty (u / pow10 d)) (parse_uint-format_uint (u / pow10 d) whole_small)
          (no_rest e)
  read_back (c ∷ t) e =
      let shown : All IsDigit (c ∷ t) =
        subst (All IsDigit) e (All-trim_right IsDigit b'0' fraction fraction-IsDigit) in
      ap (λ text. parse_units text d) (trim_point whole c t shown)
      ∙ parse_units_fraction d whole (c ∷ t) (format_uint_nonempty (u / pow10 d))
          (format_uint-IsDigit (u / pow10 d)) shown
      ∙ parse_parts_fraction u d (pow10 d) scale (pow10_pos d) some_units small whole (c ∷ t)
          (format_uint_nonempty (u / pow10 d)) (parse_uint-format_uint (u / pow10 d) whole_small)
          (omega (
            arith,
            ap length e,
            length-trim_right b'0' fraction,
            length-pad_left d (u % pow10 d) rest_fits some_decimals rest_small,
          ))
          (ap (λ f. parse_uint (pad_right d f)) (sym e) ∙ reparse_fraction)

  with_decimals : (format_units u d >>= λ text. parse_units text d) ≡ ok u
  unfolding format_units
  with_decimals =
      let tested : (d == 0) ≡ false = ground arith in
      let divides : (pow10 d == 0) ≡ false = ground (arith, pow10_pos d) in
      rw (scale, tested, divides)
        (ap (λ text. parse_units (trim_right b'.' text) d) (trim_zeros whole fraction)
          ∙ read_back (trim_right b'0' fraction) refl)

-- An amount of units that is positive and fits in 64 bits is read back from its text, at any
-- number of decimals up to 19.
pub parse_units-format_units :
    (u d : ℕ)
    → 0 < u
    → u ≤ 18446744073709551615
    → d ≤ 19
    → (format_units u d >>= λ text. parse_units text d) ≡ ok u
unfolding format_units units_per_whole
parse_units-format_units u zero p h few =
    parse_units_whole 0 (format_uint u) (format_uint_nonempty u) (format_uint-IsDigit u)
    ∙ parse_parts_whole u 0 1 refl (omega arith) p h (format_uint u) (format_uint_nonempty u)
        (parse_uint-format_uint u h ∙ ap ok (omega arith)) (omega arith)
parse_units-format_units u (suc d) p h few = with_decimals u (suc d) p h (omega arith) few
