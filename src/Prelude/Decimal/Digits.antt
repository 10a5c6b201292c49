-- ===== src/Prelude/Decimal/Digits.antt =====
-- The digits of a number, and their value.
use Prim.Native.Nat.{ℕ, zero, suc, ◌+◌, ◌-◌, ◌*◌, ◌/◌, ◌%◌, ◌≤◌, ◌<◌}
use mathlib.Core.Path.{◌≡◌, refl}
use mathlib.Core.Bool.{false}
use mathlib.Core.List.{[], ◌∷◌, ◌++◌}
use native.Mathlib.Omega.{arith}
use des_ka_project.Prelude.Lists.{length, replicate, All}
use des_ka_project.Prelude.Exec.{ok}
use des_ka_project.Prelude.Strings.{Str, is_empty}
use des_ka_project.Prelude.Decimal.{digits, parse_from, parse_uint}

abbrev pub IsDigit : ℕ → Type 0
IsDigit c = (48 ≤ c) × (c ≤ 57)

unfoldable pub pow10 : ℕ → ℕ
pow10 zero = 1
pow10 (suc n) = 10 * pow10 n

pub pow10_pos : (n : ℕ) → 1 ≤ pow10 n
unfolding pow10
pow10_pos zero = omega arith
pow10_pos (suc n) = omega (arith, pow10_pos n)

pub pow10_mono : (n m : ℕ) → n ≤ m → pow10 n ≤ pow10 m
unfolding pow10
pow10_mono zero m h = pow10_pos m
pow10_mono (suc n) zero h = absurd (omega arith)
pow10_mono (suc n) (suc m) h = omega (arith, pow10_mono n m)

-- The value of digits behind the number a.
unfoldable pub decimal : ℕ → Str → ℕ
decimal a [] = a
decimal a (c ∷ s) = decimal (a * 10 + (c - 48)) s

pub le-decimal : (a : ℕ) (s : Str) → a ≤ decimal a s
unfolding decimal
le-decimal a [] = omega arith
le-decimal a (c ∷ s) = omega (arith, le-decimal (a * 10 + (c - 48)) s)

pub parse_from-decimal :
    (a : ℕ) (s : Str)
    → All IsDigit s
    → decimal a s ≤ 18446744073709551615
    → parse_from a s ≡ ok (decimal a s)
unfolding decimal
parse_from-decimal a [] h k = refl
parse_from-decimal a (c ∷ s) (d, h) k =
    ground (arith, le-decimal (a * 10 + (c - 48)) s, parse_from-decimal (a * 10 + (c - 48)) s h k)

pub parse_uint-decimal :
    (s : Str)
    → is_empty s ≡ false
    → All IsDigit s
    → decimal 0 s ≤ 18446744073709551615
    → parse_uint s ≡ ok (decimal 0 s)
unfolding parse_uint
parse_uint-decimal [] e h k = ground arith
parse_uint-decimal (c ∷ s) e h k = parse_from-decimal 0 (c ∷ s) h k

pub decimal-digits :
    (fuel n : ℕ) (acc : Str) → n < pow10 fuel → decimal 0 (digits fuel n acc) ≡ decimal n acc
unfolding decimal pow10
decimal-digits zero n acc h = ground arith
decimal-digits (suc fuel) n acc h =
    ground (arith, decimal-digits fuel (n / 10) ((48 + n % 10) ∷ acc))

pub digits-IsDigit : (fuel n : ℕ) (acc : Str) → All IsDigit acc → All IsDigit (digits fuel n acc)
digits-IsDigit zero n acc h = h
digits-IsDigit (suc fuel) n acc h =
    ground (arith, digits-IsDigit fuel (n / 10) ((48 + n % 10) ∷ acc))

-- There are at most as many digits as the power of ten above the number says.
pub length-digits :
    (fuel n d : ℕ) (acc : Str) → n < pow10 d → 0 < d → length (digits fuel n acc) ≤ d + length acc
unfolding pow10
length-digits zero n d acc h p = omega arith
length-digits (suc fuel) n zero acc h p = absurd (omega arith)
length-digits (suc fuel) n (suc zero) acc h p = ground arith
length-digits (suc fuel) n (suc (suc d)) acc h p =
    ground (arith, length-digits fuel (n / 10) (suc d) ((48 + n % 10) ∷ acc))

digits_nonempty_acc : (fuel n c : ℕ) (acc : Str) → is_empty (digits fuel n (c ∷ acc)) ≡ false
digits_nonempty_acc zero n c acc = refl
digits_nonempty_acc (suc fuel) n c acc =
    ground (arith, digits_nonempty_acc fuel (n / 10) (48 + n % 10) (c ∷ acc))

pub digits_nonempty : (fuel n : ℕ) (acc : Str) → is_empty (digits (suc fuel) n acc) ≡ false
digits_nonempty fuel n acc = ground (arith, digits_nonempty_acc fuel (n / 10) (48 + n % 10) acc)

-- Zeros in front do not count.
pub decimal-replicate : (k : ℕ) (s : Str) → decimal 0 (replicate k 48 ++ s) ≡ decimal 0 s
unfolding decimal
decimal-replicate zero s = refl
decimal-replicate (suc k) s = decimal-replicate k s
