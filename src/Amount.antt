-- ===== src/Amount.antt =====
-- deskachain/node/internal/amount/amount.go: amounts as people write them, and as integer units. The
-- division by the units of a whole is by zero from 64 decimals on, since 10^64 is a multiple of 2^64:
-- Go panics there, and the model gives an error.
pub mod Text
pub mod RoundTrip
use des_ka_project.Prelude.{
  ℕ, zero, suc, ◌+◌, ◌-◌, ◌*◌, ◌/◌, ◌%◌, ◌&&◌, List, [], ◌∷◌, ◌++◌, Str, codes, is_empty,
  has_prefix, ltb, ◌==◌, if◌then◌else◌, length, replicate, msg, Result, ok, err, check,
}
use des_ka_project.Prelude.Results.{◌>>=◌, ◌>>◌}
use des_ka_project.Prelude.Decimal.{format_uint, parse_uint, split_on}
use des_ka_project.Arith.{max_u64}
use des_ka_project.Asset.{trim_space}

-- `decimals` rounds of `unitsPerWhole *= 10`, modulo 2^64.
unfoldable pub units_per_whole : ℕ → ℕ
units_per_whole zero = 1
units_per_whole (suc d) = units_per_whole d * 10 % 18446744073709551616

abbrev pub whole_part : List Str → Str
whole_part [] = codes "0"
whole_part (w ∷ _) = if is_empty w then codes "0" else w

abbrev pub pad_right : ℕ → Str → Str
pad_right width s = s ++ replicate (width - length s) 48

unfoldable pub add_fraction : ℕ → ℕ → List Str → Result ℕ
add_fraction decimals total (_ ∷ fraction ∷ []) = do
  check (ltb decimals (length fraction)) (msg "amount has more decimals")
  units ← parse_uint (pad_right decimals fraction)
  check (ltb (max_u64 - total) units) (msg "amount overflows uint64")
  ok (total + units)
add_fraction decimals total _ = ok total

unfoldable pub parse_parts : ℕ → List Str → Result ℕ
parse_parts decimals parts = do
  check (ltb 2 (length parts)) (msg "invalid decimal amount")
  whole ← parse_uint (whole_part parts)
  check (units_per_whole decimals == 0) (msg "runtime error: integer divide by zero")
  check (ltb (max_u64 / units_per_whole decimals) whole) (msg "amount overflows uint64")
  total ← add_fraction decimals (whole * units_per_whole decimals) parts
  check (total == 0) (msg "amount must be greater than zero")
  ok total

unfoldable pub parse_units : Str → ℕ → Result ℕ
parse_units value decimals =
    let trimmed = trim_space value in
    check (is_empty trimmed) (msg "amount is required")
    >> (check (has_prefix trimmed (codes "-")) (msg "amount cannot be negative")
        >> parse_parts decimals (split_on b'.' trimmed))

-- `strings.TrimRight` of one byte
abbrev pub trim_right : ℕ → Str → Str
trim_right d [] = []
trim_right d (c ∷ s) = let rest = trim_right d s in if is_empty rest && c == d then [] else c ∷ rest

-- `%0*d`
abbrev pub pad_left : ℕ → ℕ → Str
pad_left width n = let digits = format_uint n in replicate (width - length digits) 48 ++ digits

unfoldable pub format_units : ℕ → ℕ → Result Str
format_units units decimals =
    let scale = units_per_whole decimals in
    let value = format_uint (units / scale) ++ (b'.' ∷ pad_left decimals (units % scale)) in
    if decimals == 0
    then ok (format_uint units)
    else if scale == 0
    then err (msg "runtime error: integer divide by zero")
    else ok (trim_right b'.' (trim_right b'0' value))

-- `Parse` and `Format`, for the native currency.
unfoldable pub parse_amount : Str → Result ℕ
unfolding parse_units
parse_amount value = parse_units value 8

unfoldable pub format_amount : ℕ → Result Str
unfolding format_units
format_amount units = format_units units 8
