-- ===== src/Prelude/Results.antt =====
-- Steps that may return an error and change no state, for do blocks.
use Prim.Native.Nat.{ℕ}
use Prim.Native.String.{String}
use mathlib.Core.Logic.{◌⊎◌, inl, inr}
use mathlib.Core.Path.{◌≡◌, refl}
use mathlib.Core.Bool.{Bool, true, false, not}
use native.Mathlib.Omega.{arith}
use des_ka_project.Prelude.Tests.{◌==◌, if◌then◌else◌}
use des_ka_project.Prelude.Strings.{Str, ◌=s◌, =s→eq}
use des_ka_project.Prelude.Exec.{Error, Result, ok, err, ⊤, check, wrap_err, map_err}

infixl 5 ◌>>=◌ ◌>>◌
abbrev pub ◌>>=◌ {ℓ κ} : {A : Type ℓ} {B : Type κ} → Result A → (A → Result B) → Result B
ok a >>= f = f a
err e >>= f = err e

abbrev pub ◌>>◌ {κ} : {B : Type κ} → Result ⊤ → Result B → Result B
ok _ >> r = r
err e >> r = err e

-- What is known of the steps when the whole succeeds.
pub check-ok : (b : Bool) (e : Error) → check b e ≡ ok tt → b ≡ false
check-ok true e h = ground arith
check-ok false e h = refl

pub check-not-ok : (b : Bool) (e : Error) → check (not b) e ≡ ok tt → b ≡ true
check-not-ok true e h = refl
check-not-ok false e h = ground arith

-- `if a != b { return e }`
pub check-equal-ok : (a b : ℕ) (e : Error) → check (not (a == b)) e ≡ ok tt → a ≡ b
check-equal-ok a b e h = let same = check-not-ok (a == b) e h in ground arith

pub check-same-ok : (a b : Str) (e : Error) → check (not (a =s b)) e ≡ ok tt → a ≡ b
check-same-ok a b e h = =s→eq (check-not-ok (a =s b) e h)

pub then-ok {κ} :
    {B : Type κ} {r : Result ⊤} {k : Result B} {x : B} → (r >> k) ≡ ok x → (r ≡ ok tt) × (k ≡ ok x)
then-ok {r = ok _} h = (refl, h)
then-ok {r = err e} h = ground arith

pub bind-ok {ℓ κ} :
    {A : Type ℓ} {B : Type κ} {r : Result A} {f : A → Result B} {x : B}
    → (r >>= f) ≡ ok x
    → (a : A) × (r ≡ ok a) × (f a ≡ ok x)
bind-ok {r = ok a} h = (a, refl, h)
bind-ok {r = err e} h = ground arith

pub when-ok : {b : Bool} {r : Result ⊤} → (if b then r else ok tt) ≡ ok tt → b ≡ true → r ≡ ok tt
when-ok {b = true} h t = h
when-ok {b = false} h t = ground arith

pub if-cases : {A : Type 0} (b : Bool) {x y v : A} → (if b then x else y) ≡ v → (x ≡ v) ⊎ (y ≡ v)
if-cases true h = inl h
if-cases false h = inr h

pub wrap_err-ok {ℓ} :
    {A : Type ℓ} (s : String) (r : Result A) {a : A} → wrap_err s r ≡ ok a → r ≡ ok a
wrap_err-ok s (ok a) h = h
wrap_err-ok s (err e) h = ground arith

pub map_err-ok {ℓ} : {A : Type ℓ} (e : Error) (r : Result A) {a : A} → map_err e r ≡ ok a → r ≡ ok a
map_err-ok e (ok a) h = h
map_err-ok e (err _) h = ground arith
