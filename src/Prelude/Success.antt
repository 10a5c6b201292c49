-- ===== src/Prelude/Success.antt =====
-- What holds of the state when a method succeeds, and the rules for the steps of a method.
use mathlib.Core.Path.{◌≡◌, refl, ap}
use mathlib.Core.Bool.{Bool, true, false}
use des_ka_project.Prelude.Tests.{if◌then◌else◌}
use des_ka_project.Prelude.Exec.{Result, ok, err, Proc, ◌>>=◌, is_ok}

abbrev pub Ensures : {S A : Type 0} → (S → Type 0) → Proc S A → S → Type 0
Ensures P m s = is_ok (m s).0 ≡ true → P (m s).1

module _ {S A B : Type 0} (Q P : S → Type 0) (f : A → Proc S B) where
  continue-Ensures :
      (r : Result A) (s : S)
      → (is_ok r ≡ true → Q s)
      → ((a : A) (s' : S) → Q s' → Ensures P (f a) s')
      → is_ok (elim r as (λ _. Result B × S) [ ok a ↦ f a s | err e ↦ (err e, s) ]).0 ≡ true
      → P (elim r as (λ _. Result B × S) [ ok a ↦ f a s | err e ↦ (err e, s) ]).1
  continue-Ensures (ok a) s first second h = second a s (first refl) h
  continue-Ensures (err e) s first second h = cc

  -- One step after another.
  pub bind-Ensures :
      (m : Proc S A) (s : S)
      → Ensures Q m s
      → ((a : A) (s' : S) → Q s' → Ensures P (f a) s')
      → Ensures P (m >>= f) s
  bind-Ensures m s first second = continue-Ensures (m s).0 (m s).1 first second

module _ {S A : Type 0} (P : S → Type 0) (s : S) where
  -- A branch.
  pub if-Ensures :
      (b : Bool) (m n : Proc S A)
      → (b ≡ true → Ensures P m s)
      → (b ≡ false → Ensures P n s)
      → Ensures P (if b then m else n) s
  if-Ensures true m n f g = f refl
  if-Ensures false m n f g = g refl

-- A read that succeeds and changes nothing.
pub bind-read :
    {S A B : Type 0} (m : Proc S A) (f : A → Proc S B) (s : S) (a : A)
    → m s ≡ (ok a, s)
    → (m >>= f) s ≡ f a s
bind-read m f s a e = ap (λ r. elim r.0 [ ok x ↦ f x r.1 | err e' ↦ (err e', r.1) ]) e
