-- ===== src/Arith.antt =====
-- deskachain/node/internal/arith/uint64.go: checked arithmetic on uint64.
use des_ka_project.Prelude.{ℕ, ◌+◌, ◌-◌, ltb, if◌then◌else◌, Error, msg, Result, ok, err}

-- `^uint64(0)`
abbrev pub max_u64 : ℕ
max_u64 = 18446744073709551615

abbrev pub err_overflow : Error
err_overflow = msg "uint64 overflow"

abbrev pub err_underflow : Error
err_underflow = msg "uint64 underflow"

unfoldable pub add : ℕ → ℕ → Result ℕ
add a b = if ltb (max_u64 - a) b then err err_overflow else ok (a + b)

unfoldable pub sub : ℕ → ℕ → Result ℕ
sub a b = if ltb a b then err err_underflow else ok (a - b)

abbrev value_or_max : Result ℕ → ℕ
value_or_max (ok v) = v
value_or_max (err _) = max_u64

unfoldable pub add_cap : ℕ → ℕ → ℕ
unfolding add
add_cap a b = value_or_max (add a b)
