-- ===== src/Prelude/Sorting.antt =====
-- `sort.Slice`, as insertion sort: the result is the same for every sorting method where the order
-- tells the entries apart. Strings are compared byte by byte, as Go's `<` does.
use mathlib.Core.Path.{◌≡◌, refl, sym, ◌∙◌}
use mathlib.Core.Logic.{◌≢◌, inl, inr}
use mathlib.Core.Bool.{Bool, true, false, not, ◌&&◌, ◌||◌}
use mathlib.Core.List.{List, [], ◌∷◌, Pairwise, rel_of_Pairwise-cons, mem-cons_self}
use mathlib.Core.List.Permᴰ
use mathlib.Core.List.Permᴰ.{Permᴰ, nil, cons, swap, trans}
use mathlib.Core.List.Pairwise
use native.Mathlib.Omega.{arith}
use des_ka_project.Prelude.Tests.{ltb, ◌==◌, Bool-cases, if◌then◌else◌}
use des_ka_project.Prelude.Strings.{Str, ◌=s◌}

abbrev pub str_ltb : Str → Str → Bool
str_ltb s [] = false
str_ltb [] (d ∷ t) = true
str_ltb (c ∷ s) (d ∷ t) = ltb c d || c == d && str_ltb s t

pub str_ltb_asym : (s t : Str) → str_ltb s t ≡ true → str_ltb t s ≡ false
str_ltb_asym s [] h = ground arith
str_ltb_asym [] (d ∷ t) h = refl
str_ltb_asym (c ∷ s) (d ∷ t) h = ground (arith, str_ltb_asym s t)

pub str_ltb_trans : (s t u : Str) → str_ltb s t ≡ true → str_ltb t u ≡ true → str_ltb s u ≡ true
str_ltb_trans s t [] h k = ground arith
str_ltb_trans s [] (e ∷ u) h k = ground arith
str_ltb_trans [] (d ∷ t) (e ∷ u) h k = refl
str_ltb_trans (c ∷ s) (d ∷ t) (e ∷ u) h k = ground (arith, str_ltb_trans s t u)

pub str_ltb_total : (s t : Str) → str_ltb s t ≡ false → str_ltb t s ≡ false → s ≡ t
str_ltb_total [] [] h k = refl
str_ltb_total [] (d ∷ t) h k = ground arith
str_ltb_total (c ∷ s) [] h k = ground arith
str_ltb_total (c ∷ s) (d ∷ t) h k = ground (arith, str_ltb_total s t)

-- Two keys, compared in turn: `if a != b { return a < b }; return c < d`.
abbrev pub pair_ltb : Str × Str → Str × Str → Bool
pair_ltb (a, c) (b, d) = if not (a =s b) then str_ltb a b else str_ltb c d

module _ {A : Type 0} (less : A → A → Bool) where
  abbrev pub insert_sorted : A → List A → List A
  insert_sorted x [] = x ∷ []
  insert_sorted x (y ∷ ys) =
      let rest = insert_sorted x ys in if less x y then x ∷ y ∷ ys else y ∷ rest

  abbrev pub sort : List A → List A
  sort [] = []
  sort (x ∷ xs) = insert_sorted x (sort xs)

  insert_sorted-Permᴰ : (x : A) (l : List A) → Permᴰ (x ∷ l) (insert_sorted x l)
  insert_sorted-Permᴰ x [] = Permᴰ.refl (x ∷ [])
  insert_sorted-Permᴰ x (y ∷ ys) =
      let further = trans (swap refl refl) (cons refl (insert_sorted-Permᴰ x ys)) in
      elim (Bool-cases (less x y)) [ inl h ↦ rw h (Permᴰ.refl (x ∷ y ∷ ys)) | inr h ↦ rw h further ]

  pub sort-Permᴰ_self : (l : List A) → Permᴰ l (sort l)
  sort-Permᴰ_self [] = nil
  sort-Permᴰ_self (x ∷ l) = trans (cons refl (sort-Permᴰ_self l)) (insert_sorted-Permᴰ x (sort l))

  -- The order tells the two apart.
  abbrev pub Apart : A → A → Type 0
  Apart x y = less x y ≡ not (less y x)

  Apart-prop : (x y : A) → IsProp (Apart x y)
  Apart-prop x y = hlevel

  pub Apart-sym : (x y : A) → Apart x y → Apart y x
  Apart-sym x y h = ground arith

  module _ (less_trans : (x y z : A) → less x y ≡ true → less y z ≡ true → less x z ≡ true) where
    insert_sorted_swap :
        (x y : A) (l : List A)
        → less x y ≡ true
        → less y x ≡ false
        → insert_sorted x (insert_sorted y l) ≡ insert_sorted y (insert_sorted x l)
    insert_sorted_swap x y [] h k = ground arith
    insert_sorted_swap x y (z ∷ l) h k =
        ground (arith, less_trans x y z h, insert_sorted_swap x y l h k)

    Apart-swap :
        (x y : A) (l : List A)
        → Apart x y
        → insert_sorted x (insert_sorted y l) ≡ insert_sorted y (insert_sorted x l)
    Apart-swap x y l h = elim (Bool-cases (less x y)) [
      | inl below ↦ insert_sorted_swap x y l below (ground arith)
      | inr above ↦ sym (insert_sorted_swap y x l (ground arith) above)
    ]

    -- Two orders of the same entries are sorted alike.
    pub sort-Permᴰ : {l l' : List A} → Permᴰ l l' → Pairwise Apart l → sort l ≡ sort l'
    sort-Permᴰ nil apart = refl
    sort-Permᴰ (cons e p) apart = cc (e, sort-Permᴰ p (Pairwise.of_cons apart))
    sort-Permᴰ (swap {a = a} {b = b} {l = l} e e') apart =
        cc (e, e', Apart-swap a b (sort l) (rel_of_Pairwise-cons apart mem-cons_self))
    sort-Permᴰ (trans p q) apart =
        sort-Permᴰ p apart ∙ sort-Permᴰ q (Permᴰ.pairwise Apart-prop Apart-sym p apart)

-- Entries with different keys are told apart.
module _ {A : Type 0} (key : A → Str) where
  abbrev pub by_key : A → A → Bool
  by_key x y = str_ltb (key x) (key y)

  pub by_key-Apart : (x y : A) → key x ≢ key y → Apart by_key x y
  by_key-Apart x y h = ground (arith, str_ltb_asym (key x) (key y), str_ltb_total (key x) (key y))

pub pair_ltb_trans :
    (x y z : Str × Str) → pair_ltb x y ≡ true → pair_ltb y z ≡ true → pair_ltb x z ≡ true
pair_ltb_trans (a, b) (c, d) (e, f) h k =
    ground (arith, str_ltb_trans a c e, str_ltb_trans b d f, str_ltb_asym a c, str_ltb_asym c e)

pair_ltb-Apart : (x y : Str × Str) → x ≢ y → Apart pair_ltb x y
pair_ltb-Apart (a, b) (c, d) h =
    ground (arith, str_ltb_asym a c, str_ltb_total a c, str_ltb_asym b d, str_ltb_total b d)

module _ {A : Type 0} (key : A → Str × Str) where
  abbrev pub by_keys : A → A → Bool
  by_keys x y = pair_ltb (key x) (key y)

  pub by_keys-Apart : (x y : A) → key x ≢ key y → Apart by_keys x y
  by_keys-Apart x y h = pair_ltb-Apart (key x) (key y) h
