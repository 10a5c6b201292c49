-- ===== src/Prelude/Exec.antt =====
-- Go's `error` values, and methods that mutate an object and may return an error. What was
-- written before the error stays written, so the state comes back beside it.
use Prim.Native.String.{String}
use mathlib.Core.Path.{◌≡◌, refl}
use mathlib.Core.Logic.{◌⊎◌, inl, inr}
use mathlib.Core.Bool.{Bool, true, false}
use des_ka_project.Prelude.Tests.{if◌then◌else◌}

-- `errors.New`, and `fmt.Errorf` with `%w`. A message has no formatted arguments.
pub data Error : Type 0 where
  msg : String → Error
  wrap : String → Error → Error

pub data Result {ℓ} (A : Type ℓ) : Type ℓ where
  ok : A → Result A
  err : Error → Result A

abbrev pub ⊤ : Type 0
⊤ = Unit

abbrev pub Proc : Type 0 → Type 0 → Type 0
Proc S A = S → Result A × S

module _ {S A : Type 0} where
  abbrev pub pure : A → Proc S A
  pure a s = (ok a, s)

  abbrev pub fail : Error → Proc S A
  fail e s = (err e, s)

  abbrev pub lift : Result A → Proc S A
  lift r s = (r, s)

  abbrev pub gets : (S → A) → Proc S A
  gets f s = (ok (f s), s)

infixl 5 ◌>>=◌ ◌>>◌
abbrev pub ◌>>=◌ : {S A B : Type 0} → Proc S A → (A → Proc S B) → Proc S B
◌>>=◌ m f s = let (r, s') = m s in elim r [ ok a ↦ f a s' | err e ↦ (err e, s') ]

abbrev pub ◌>>◌ : {S B : Type 0} → Proc S ⊤ → Proc S B → Proc S B
m >> k = m >>= λ _. k

-- `if c { return e }`
abbrev pub fail_if : {S : Type 0} → Bool → Error → Proc S ⊤
fail_if c e s = (if c then err e else ok tt, s)

abbrev pub modify : {S : Type 0} → (S → S) → Proc S ⊤
modify f s = (ok tt, f s)

-- `fmt.Errorf("context: %w", err)`
abbrev pub wrap_err {ℓ} : {A : Type ℓ} → String → Result A → Result A
wrap_err c (ok a) = ok a
wrap_err c (err e) = err (wrap c e)

-- An error replaced by another one.
abbrev pub map_err {ℓ} : {A : Type ℓ} → Error → Result A → Result A
map_err e' (ok a) = ok a
map_err e' (err e) = err e'

-- The same for a method.
abbrev pub wrapping : {S A : Type 0} → String → Proc S A → Proc S A
wrapping c m s = let (r, s') = m s in (wrap_err c r, s')

-- A check that reads no state.
abbrev pub check : Bool → Error → Result ⊤
check c e = if c then err e else ok tt

infixl 5 ◌then_check◌
abbrev pub ◌then_check◌ {ℓ} : {A : Type ℓ} → Result ⊤ → Result A → Result A
ok _ then_check r = r
err e then_check r = err e

abbrev pub is_ok {ℓ} : {A : Type ℓ} → Result A → Bool
is_ok (ok _) = true
is_ok (err _) = false

pub Result-cases {ℓ} :
    {A : Type ℓ} (r : Result A) → ((a : A) × (r ≡ ok a)) ⊎ ((e : Error) × (r ≡ err e))
Result-cases (ok a) = inl (a, refl)
Result-cases (err e) = inr (e, refl)
