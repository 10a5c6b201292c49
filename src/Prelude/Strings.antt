-- ===== src/Prelude/Strings.antt =====
-- A Go string is a list of bytes. Equality is decided with its proof in the branch.
use Prim.Native.Nat.{ℕ}
use Prim.Native.Char.{code}
use Prim.Native.String.{String}
use mathlib.Core.Path.{◌≡◌}
use mathlib.Core.Bool.{Bool, true, false, ◌&&◌}
use mathlib.Core.List.{List, [], ◌∷◌}
use native.Mathlib.Omega.{arith}
use native.Mathlib.Decide.{ℕ_discrete}
use des_ka_project.Prelude.Tests.{◌==◌}

abbrev pub Str : Type 0
Str = List ℕ

-- The bytes of a text literal in ASCII.
abbrev pub codes : String → Str
codes String.[] = []
codes (String.◌∷◌ c s) = code c ∷ codes s

unfoldable pub str_discrete : Discrete Str
unfolding ℕ_discrete
str_discrete = hlevel ℕ_discrete

infix 50 ◌=s◌
abbrev pub ◌=s◌ : Str → Str → Bool
a =s b = elim (str_discrete a b) [ yes _ ↦ true | no _ ↦ false ]

abbrev pub is_empty : Str → Bool
is_empty [] = true
is_empty (c ∷ s) = false

pub =s→eq : {a b : Str} → (a =s b) ≡ true → a ≡ b
=s→eq h = ground arith

-- `strings.HasPrefix`
abbrev pub has_prefix : Str → Str → Bool
has_prefix s [] = true
has_prefix [] (d ∷ p) = false
has_prefix (c ∷ s) (d ∷ p) = c == d && has_prefix s p
