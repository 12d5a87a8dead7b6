-- ===== src/Base/TextOrder.antt =====
-- The order of texts by code points is a total order.
use Prim.Native.Nat.{ℕ}
use mathlib.Core.Path.{◌≡◌, refl, ap}
use mathlib.Core.Logic.{◌⊎◌, inl, inr}
use mathlib.Core.Bool.{Bool, true, false, not}
use mathlib.Core.List.{List, [], ◌∷◌}
use native.Mathlib.Omega.{arith}
use approvo.Base.Tests.{Bool-cases}
use approvo.Base.Text.{String, codes, le_codes, le_text}
use approvo.Base.Utf8.{codes-injective}

pub le_codes_refl : (xs : List ℕ) → le_codes xs xs ≡ true
le_codes_refl [] = refl
le_codes_refl (x ∷ xs) = ground (arith, le_codes_refl xs)

pub le_codes_total : (xs ys : List ℕ) → le_codes xs ys ≡ false → le_codes ys xs ≡ true
le_codes_total [] ys h = cc
le_codes_total (x ∷ xs) [] h = refl
le_codes_total (x ∷ xs) (y ∷ ys) h = ground (arith, le_codes_total xs ys)

pub le_codes_trans :
    (xs ys zs : List ℕ) → le_codes xs ys ≡ true → le_codes ys zs ≡ true → le_codes xs zs ≡ true
le_codes_trans [] ys zs h k = refl
le_codes_trans (x ∷ xs) [] zs h k = cc
le_codes_trans (x ∷ xs) (y ∷ ys) [] h k = cc
le_codes_trans (x ∷ xs) (y ∷ ys) (z ∷ zs) h k = ground (arith, le_codes_trans xs ys zs)

le_codes_antisym : (xs ys : List ℕ) → le_codes xs ys ≡ true → le_codes ys xs ≡ true → xs ≡ ys
le_codes_antisym [] [] h k = refl
le_codes_antisym [] (y ∷ ys) h k = cc
le_codes_antisym (x ∷ xs) [] h k = cc
le_codes_antisym (x ∷ xs) (y ∷ ys) h k = ground (arith, le_codes_antisym xs ys)

-- `a < b` on texts
abbrev pub lt_text : String → String → Bool
lt_text a b = not (le_text b a)

pub lt_text_irrefl : (a : String) → lt_text a a ≡ false
lt_text_irrefl a = ap not (le_codes_refl (codes a))

pub lt_text_trans : (a b c : String) → lt_text a b ≡ true → lt_text b c ≡ true → lt_text a c ≡ true
lt_text_trans a b c h k = elim (Bool-cases (le_text c a)) [
  | inr less ↦ ap not less
  | inl more ↦
      let ab = le_codes_total (codes b) (codes a) (ground (arith, h)) in
      let cb = le_codes_trans (codes c) (codes a) (codes b) more ab in
      absurd (ground (arith, cb, k))
]

-- One of two texts comes first, or they are the same.
pub lt_text_cases :
    (a b : String)
    → (a ≡ b)
      ⊎ (((lt_text a b ≡ true) × (lt_text b a ≡ false))
          ⊎ ((lt_text a b ≡ false) × (lt_text b a ≡ true)))
lt_text_cases a b = elim (Bool-cases (le_text a b)) [
  | inr greater ↦ inr (inr (ap not (le_codes_total (codes a) (codes b) greater), ap not greater))
  | inl at_most ↦ elim (Bool-cases (le_text b a)) [
    | inr less ↦ inr (inl (ap not less, ap not at_most))
    | inl both ↦ inl (codes-injective a b (le_codes_antisym (codes a) (codes b) at_most both))
  ]
]
