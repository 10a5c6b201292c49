-- ===== src/Prelude/Dict.antt =====
-- A Go map with string keys, as an association list. Writes replace in place, new keys go last.
use Prim.Native.Nat.{ℕ, ◌+◌}
use mathlib.Core.Path.{◌≡◌, refl}
use mathlib.Core.List.{List, [], ◌∷◌}
use mathlib.Core.Option.{Option, none, some}
use native.Mathlib.Omega.{arith}
use des_ka_project.Prelude.Tests.{if◌then◌else◌}
use des_ka_project.Prelude.Strings.{Str, ◌=s◌}

abbrev pub Dict {ℓ} : Type ℓ → Type ℓ
Dict V = List (Str × V)

module _ {ℓ} {V : Type ℓ} where
  abbrev pub lookup : Str → Dict V → Option V
  lookup k [] = none
  lookup k ((j, v) ∷ d) = if k =s j then some v else lookup k d

  -- `d[k]` where a missing key reads as the zero value `z`
  abbrev pub get : V → Str → Dict V → V
  get z k [] = z
  get z k ((j, v) ∷ d) = if k =s j then v else get z k d

  abbrev pub insert : Str → V → Dict V → Dict V
  insert k v [] = (k, v) ∷ []
  insert k v ((j, w) ∷ d) = if k =s j then (k, v) ∷ d else (j, w) ∷ insert k v d

  pub lookup-insert :
      (k j : Str) (v : V) (d : Dict V)
      → lookup j (insert k v d) ≡ (if j =s k then some v else lookup j d)
  lookup-insert k j v [] = refl
  lookup-insert k j v ((i, w) ∷ d) = ground (arith, lookup-insert k j v d)

  pub get-insert :
      (z : V) (k j : Str) (v : V) (d : Dict V)
      → get z j (insert k v d) ≡ (if j =s k then v else get z j d)
  get-insert z k j v [] = refl
  get-insert z k j v ((i, w) ∷ d) = ground (arith, get-insert z k j v d)

  -- The sum of a measure over the entries.
  abbrev pub sum : (V → ℕ) → Dict V → ℕ
  sum f [] = 0
  sum f ((j, v) ∷ d) = f v + sum f d

  pub sum-insert :
      (f : V → ℕ) (z : V) (k : Str) (v : V) (d : Dict V)
      → f z ≡ 0
      → sum f (insert k v d) + f (get z k d) ≡ sum f d + f v
  sum-insert f z k v [] h = omega arith
  sum-insert f z k v ((i, w) ∷ d) h = ground (arith, sum-insert f z k v d h)
