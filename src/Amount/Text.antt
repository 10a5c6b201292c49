-- ===== src/Amount/Text.antt =====
-- What trimming, padding and splitting do to the text of an amount.
use mathlib.Core.List.{reverse, reverse-append, reverse-reverse}
use des_ka_project.Prelude.{
  ℕ, ◌≤◌, ◌≡◌, ◌&&◌, refl, false, [], ◌∷◌, ◌++◌, Str, is_empty, ◌==◌, length, All, arith,
  Bool-cases, inl, inr,
}
use des_ka_project.Prelude.Decimal.{split_on}
use des_ka_project.Asset.{is_space, trim_left, trim_space}
use des_ka_project.Amount.{trim_right, pad_right}

-- The byte does not occur.
abbrev pub Without : ℕ → Str → Type 0
Without d s = All (λ c. (c == d) ≡ false) s

abbrev pub NoSpace : Str → Type 0
NoSpace s = All (λ c. is_space c ≡ false) s

pub All-append {κ} : (P : ℕ → Type κ) (s t : Str) → All P s → All P t → All P (s ++ t)
All-append P [] t h k = k
All-append P (c ∷ s) t (p, h) k = (p, All-append P s t h k)

All-reverse : (s : Str) → NoSpace s → NoSpace (reverse s)
All-reverse [] h = h
All-reverse (c ∷ s) (p, h) =
    rw (reverse-append (c ∷ []) s)
      (All-append (λ c. is_space c ≡ false) (reverse s) (c ∷ []) (All-reverse s h) (p, tt))

trim_left-NoSpace : (s : Str) → NoSpace s → trim_left s ≡ s
unfolding trim_left
trim_left-NoSpace [] h = refl
trim_left-NoSpace (c ∷ s) (p, h) = rw p

pub trim_space-NoSpace : (s : Str) → NoSpace s → trim_space s ≡ s
unfolding trim_space
trim_space-NoSpace s h =
    rw (trim_left-NoSpace s h, trim_left-NoSpace (reverse s) (All-reverse s h)) (reverse-reverse s)

pub split_on-append : (d : ℕ) (s t : Str) → Without d s → split_on d (s ++ d ∷ t) ≡ s ∷ split_on d t
unfolding split_on
split_on-append d [] t h = ground arith
split_on-append d (c ∷ s) t (p, h) = ground (arith, split_on-append d s t h)

pub split_on_whole : (d : ℕ) (s : Str) → Without d s → split_on d s ≡ s ∷ []
unfolding split_on
split_on_whole d [] h = refl
split_on_whole d (c ∷ s) (p, h) = ground (arith, split_on_whole d s h)

pub All-trim_right : (P : ℕ → Type 0) (d : ℕ) (s : Str) → All P s → All P (trim_right d s)
All-trim_right P d [] h = h
All-trim_right P d (c ∷ s) (p, h) = elim (Bool-cases (is_empty (trim_right d s) && c == d)) [
  | inl e ↦ rw e tt
  | inr e ↦ rw e (p, All-trim_right P d s h)
]

pub length-trim_right : (d : ℕ) (s : Str) → length (trim_right d s) ≤ length s
length-trim_right d [] = omega arith
length-trim_right d (c ∷ s) = ground (arith, length-trim_right d s)

pub trim_right-Without : (d : ℕ) (s : Str) → Without d s → trim_right d s ≡ s
trim_right-Without d [] h = refl
trim_right-Without d (c ∷ s) (p, h) = ground (arith, trim_right-Without d s h)

pub is_empty-append : (s t : Str) → is_empty t ≡ false → is_empty (s ++ t) ≡ false
is_empty-append [] t h = h
is_empty-append (c ∷ s) t h = refl

pub trim_right-append :
    (d : ℕ) (s t : Str)
    → is_empty (trim_right d t) ≡ false
    → trim_right d (s ++ t) ≡ s ++ trim_right d t
trim_right-append d [] t h = refl
trim_right-append d (c ∷ s) t h =
    ground (arith, trim_right-append d s t h, is_empty-append s (trim_right d t) h)

pub trim_right-append_nil :
    (d : ℕ) (s t : Str) → trim_right d t ≡ [] → trim_right d (s ++ t) ≡ trim_right d s
trim_right-append_nil d [] t h = h
trim_right-append_nil d (c ∷ s) t h = ground (arith, trim_right-append_nil d s t h)

-- What was trimmed is padded again.
pub pad_right-trim_right : (s : Str) → pad_right (length s) (trim_right 48 s) ≡ s
pad_right-trim_right [] = refl
pad_right-trim_right (c ∷ s) = ground (arith, pad_right-trim_right s)
