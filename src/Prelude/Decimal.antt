-- ===== src/Prelude/Decimal.antt =====
-- Numbers in decimal, as `strconv.FormatUint` and `strconv.FormatInt` print a 64-bit integer, which
-- has at most 20 digits, and as `strconv.ParseUint` reads one.
pub mod Digits
use Prim.Native.Nat.{ℕ, zero, suc, ◌+◌, ◌*◌, ◌-◌, ◌/◌, ◌%◌}
use mathlib.Core.List.{List, [], ◌∷◌}
use des_ka_project.Prelude.Tests.{ltb, ◌==◌, if◌then◌else◌}
use mathlib.Core.Bool.{◌||◌}
use des_ka_project.Prelude.Exec.{msg, Result, ok, err}
use des_ka_project.Prelude.Strings.{Str}
use des_ka_project.Prelude.Int.{ℤ, pos, negsuc}

-- The digits of n before those of `acc`.
abbrev pub digits : ℕ → ℕ → Str → Str
digits zero n acc = acc
digits (suc fuel) n acc =
    let rest = digits fuel (n / 10) ((48 + n % 10) ∷ acc) in
    if ltb n 10 then (48 + n) ∷ acc else rest

unfoldable pub format_uint : ℕ → Str
format_uint n = digits 20 n []

unfoldable pub format_int : ℤ → Str
unfolding format_uint
format_int (pos n) = format_uint n
format_int (negsuc n) = 45 ∷ format_uint (suc n)

abbrev pub parse_from : ℕ → Str → Result ℕ
parse_from n [] = ok n
parse_from n (c ∷ s) =
    let rest = parse_from (n * 10 + (c - 48)) s in
    if ltb c 48 || ltb 57 c
    then err (msg "invalid syntax")
    else if ltb 18446744073709551615 (n * 10 + (c - 48))
    then err (msg "value out of range")
    else rest

unfoldable pub parse_uint : Str → Result ℕ
parse_uint [] = err (msg "invalid syntax")
parse_uint (c ∷ s) = parse_from 0 (c ∷ s)

-- `strings.Split` by one byte
abbrev pub in_front : ℕ → List Str → List Str
in_front c [] = (c ∷ []) ∷ []
in_front c (p ∷ ps) = (c ∷ p) ∷ ps

unfoldable pub split_on : ℕ → Str → List Str
split_on d [] = [] ∷ []
split_on d (c ∷ s) = let rest = split_on d s in if c == d then [] ∷ rest else in_front c rest
