-- ===== src/Address/Radix.antt =====
-- Digits in a base, as deskachain/node/internal/address/base58.go writes and reads them.
use mathlib.Core.List.{append-nil}
use des_ka_project.Prelude.{
  ℕ, zero, suc, ◌+◌, ◌*◌, ◌/◌, ◌%◌, ◌≤◌, ◌<◌, ◌≡◌, refl, ap, sym, ◌∙◌, List, [], ◌∷◌, ◌++◌, All,
  arith,
}
use des_ka_project.Address.{from_radix, to_radix, leading, repeat}

leading-suc : (d : ℕ) (ds : List ℕ) → leading 0 (suc d ∷ ds) ≡ 0
leading-suc d ds = ground arith

module _ (b : ℕ) (split : (x : ℕ) → x / b * b + x % b ≡ x) (shrink : (x : ℕ) → suc x / b ≤ x) where
  -- The digits of a number are read back.
  pub from_radix-to_radix :
      (fuel x : ℕ) (acc : List ℕ)
      → x ≤ fuel
      → from_radix b 0 (to_radix b fuel x acc) ≡ from_radix b x acc
  from_radix-to_radix fuel zero acc h = refl
  from_radix-to_radix zero (suc x) acc h = omega arith
  from_radix-to_radix (suc fuel) (suc x) acc h =
      from_radix-to_radix fuel (suc x / b) (suc x % b ∷ acc) (omega (arith, shrink x, h))
      ∙ ap (λ n. from_radix b n acc) (split (suc x))

  -- More fuel than the number makes no difference.
  to_radix_fuel :
      (f g x : ℕ) (acc : List ℕ) → x ≤ f → x ≤ g → to_radix b f x acc ≡ to_radix b g x acc
  to_radix_fuel f g zero acc h k = refl
  to_radix_fuel zero g (suc x) acc h k = ground arith
  to_radix_fuel (suc f) zero (suc x) acc h k = ground arith
  to_radix_fuel (suc f) (suc g) (suc x) acc h k =
      to_radix_fuel f g (suc x / b) (suc x % b ∷ acc) (omega (arith, shrink x, h))
        (omega (arith, shrink x, k))

  abbrev digits : ℕ → List ℕ → List ℕ
  digits x acc = to_radix b x x acc

  -- One step: a positive number of which the last digit is d.
  digits-step :
      (x d a : ℕ) (acc : List ℕ) → 0 < x → x / b ≡ a → x % b ≡ d → digits x acc ≡ digits a (d ∷ acc)
  digits-step zero d a acc p q r = ground arith
  digits-step (suc x) d a acc p q r =
      to_radix_fuel x (suc x / b) (suc x / b) (suc x % b ∷ acc) (shrink x) (omega arith)
      ∙ ap (λ n. digits n (suc x % b ∷ acc)) q
      ∙ ap (λ n. digits a (n ∷ acc)) r

  module _ (quot : (a d : ℕ) → d < b → (a * b + d) / b ≡ a)
      (last : (a d : ℕ) → d < b → (a * b + d) % b ≡ d)
      (grow : (a d : ℕ) → 0 < a → 0 < a * b + d) where
    -- A number whose digits are known is split into them.
    digits-from_radix :
        (a : ℕ) (ds acc : List ℕ)
        → 0 < a
        → All (λ d. d < b) ds
        → digits (from_radix b a ds) acc ≡ digits a (ds ++ acc)
    digits-from_radix a [] acc p h = refl
    digits-from_radix a (d ∷ ds) acc p (small, h) =
        digits-from_radix (a * b + d) ds acc (grow a d p) h
        ∙ digits-step (a * b + d) d a (ds ++ acc) (grow a d p) (quot a d small) (last a d small)

    -- Zeros in front do not count.
    pub digits-leading :
        (ds : List ℕ)
        → All (λ d. d < b) ds
        → repeat (leading 0 ds) 0 ++ digits (from_radix b 0 ds) [] ≡ ds
    digits-leading [] h = refl
    digits-leading (zero ∷ ds) (small, h) =
        let e : 0 * b + 0 ≡ 0 = omega arith in
        ap (λ n. 0 ∷ (repeat (leading 0 ds) 0 ++ digits (from_radix b n ds) [])) e
        ∙ ap (◌∷◌ 0) (digits-leading ds h)
    digits-leading (suc d ∷ ds) (small, h) =
        let e : 0 * b + suc d ≡ suc d = omega arith in
        ap (λ n. repeat n 0 ++ digits (from_radix b (0 * b + suc d) ds) []) (leading-suc d ds)
        ∙ ap (λ n. digits (from_radix b n ds) []) e
        ∙ digits-from_radix (suc d) ds [] (omega arith) h
        ∙ digits-step (suc d) (suc d) 0 (ds ++ []) (omega arith)
            (ap (λ n. n / b) (sym e) ∙ quot 0 (suc d) small)
            (ap (λ n. n % b) (sym e) ∙ last 0 (suc d) small)
        ∙ ap (◌∷◌ (suc d)) (append-nil ds)

  -- The first digit of a positive number is not zero.
  abbrev pub Leads : List ℕ → Type 0
  Leads [] = ⊥
  Leads (d ∷ ds) = 0 < d

  Leads-step :
      (fuel q r : ℕ) (acc : List ℕ)
      → (0 < q → Leads (to_radix b fuel q (r ∷ acc)))
      → (q ≡ 0 → 0 < r)
      → Leads (to_radix b fuel q (r ∷ acc))
  Leads-step fuel zero r acc more last = last refl
  Leads-step fuel (suc q) r acc more last = more (omega arith)

  pub digits-Leads : (fuel x : ℕ) (acc : List ℕ) → 0 < x → x ≤ fuel → Leads (to_radix b fuel x acc)
  digits-Leads fuel zero acc p h = ground arith
  digits-Leads zero (suc x) acc p h = ground arith
  digits-Leads (suc fuel) (suc x) acc p h =
      Leads-step fuel (suc x / b) (suc x % b) acc
        (λ more. digits-Leads fuel (suc x / b) (suc x % b ∷ acc) more (omega (arith, shrink x, h)))
        (λ none_left.
          let e : 0 * b + suc x % b ≡ suc x =
            ap (λ n. n * b + suc x % b) (sym none_left) ∙ split (suc x) in
          omega (arith, e))

  module _ (bound : (x : ℕ) → x % b < b) where
    pub to_radix-All :
        (fuel x : ℕ) (acc : List ℕ)
        → All (λ d. d < b) acc
        → All (λ d. d < b) (to_radix b fuel x acc)
    to_radix-All fuel zero acc h = h
    to_radix-All zero (suc x) acc h = h
    to_radix-All (suc fuel) (suc x) acc h =
        to_radix-All fuel (suc x / b) (suc x % b ∷ acc) (bound (suc x), h)

-- The two bases.

pub split58 : (x : ℕ) → x / 58 * 58 + x % 58 ≡ x
split58 x = omega arith

pub shrink58 : (x : ℕ) → suc x / 58 ≤ x
shrink58 x = omega arith

split256 : (x : ℕ) → x / 256 * 256 + x % 256 ≡ x
split256 x = omega arith

shrink256 : (x : ℕ) → suc x / 256 ≤ x
shrink256 x = omega arith

pub digits256-leading :
    (ds : List ℕ)
    → All (λ d. d < 256) ds
    → repeat (leading 0 ds) 0 ++ to_radix 256 (from_radix 256 0 ds) (from_radix 256 0 ds) [] ≡ ds
digits256-leading =
    digits-leading 256 split256 shrink256 (λ a d h. omega (arith, h)) (λ a d h. omega (arith, h))
      (λ a d h. omega (arith, h))
