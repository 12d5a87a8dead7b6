-- ===== src/Base/Dicts.antt =====
-- Python's `dict` with texts as keys, as the list of its items in order of insertion.
use mathlib.Core.Path.{◌≡◌, refl, sym, ap, subst, ◌∙◌}
use mathlib.Core.Logic.{◌⊎◌, inl, inr}
use mathlib.Core.Bool.{Bool, true, false}
use mathlib.Core.List.{List, [], ◌∷◌, map}
use mathlib.Core.Option.{Option, none, some}
use native.Mathlib.Omega.{arith}
use approvo.Base.Tests.{if◌then◌else◌, Bool-cases, some_inj}
use approvo.Base.Lists.{All, any, keep}
use approvo.Base.Text.{String, str_eq, eq_iff, contains}

abbrev pub Dict {ℓ} : Type ℓ → Type ℓ
Dict V = List (String × V)

-- `d in xs` as a proposition with its place.
abbrev pub In : {A : Type 0} → A → List A → Type 0
In a [] = ⊥
In a (x ∷ xs) = (a ≡ x) ⊎ In a xs

module _ {ℓ} {V : Type ℓ} where
  -- `d.get(k)`
  unfoldable pub lookup : String → Dict V → Option V
  lookup k [] = none
  lookup k ((j, v) ∷ d) = if str_eq j k then some v else lookup k d

  -- `d[k] = v`: an old key keeps its place
  unfoldable pub insert : String → V → Dict V → Dict V
  insert k v [] = (k, v) ∷ []
  insert k v ((j, w) ∷ d) =
      let rest = insert k v d in if str_eq j k then (k, v) ∷ d else (j, w) ∷ rest

  -- `d.pop(k, None)`
  unfoldable pub erase : String → Dict V → Dict V
  erase k [] = []
  erase k ((j, w) ∷ d) = let rest = erase k d in if str_eq j k then rest else (j, w) ∷ rest

  pub lookup-insert :
      (k j : String) (v : V) (d : Dict V)
      → lookup j (insert k v d) ≡ (if str_eq k j then some v else lookup j d)
  unfolding lookup insert
  lookup-insert k j v [] = refl
  lookup-insert k j v ((i, w) ∷ d) =
      ground (arith, eq_iff k j, eq_iff i k, eq_iff i j, lookup-insert k j v d)

  pub lookup-erase :
      (k j : String) (d : Dict V) → lookup j (erase k d) ≡ (if str_eq k j then none else lookup j d)
  unfolding lookup erase
  lookup-erase k j [] = ground arith
  lookup-erase k j ((i, w) ∷ d) =
      ground (arith, eq_iff i k, eq_iff i j, eq_iff k j, lookup-erase k j d)

  abbrev pub key : String × V → String
  key e = e.0

  -- No key stands twice.
  abbrev pub IsDict : Dict V → Type 0
  IsDict [] = Unit
  IsDict (e ∷ d) = (contains (map key d) e.0 ≡ false) × IsDict d

  contains-insert :
      (k j : String) (v : V) (d : Dict V)
      → str_eq j k ≡ false
      → contains (map key (insert k v d)) j ≡ contains (map key d) j
  unfolding insert
  contains-insert k j v [] h = ground (arith, eq_iff k j, eq_iff j k)
  contains-insert k j v ((i, w) ∷ d) h =
      ground (arith, eq_iff i k, eq_iff i j, eq_iff k j, eq_iff j k, contains-insert k j v d h)

  pub insert-IsDict : (k : String) (v : V) (d : Dict V) → IsDict d → IsDict (insert k v d)
  unfolding insert
  insert-IsDict k v [] h = (refl, tt)
  insert-IsDict k v ((i, w) ∷ d) h = elim (Bool-cases (str_eq i k)) [
    | inl same ↦ let e : i ≡ k = (eq_iff i k).0 same in rw same (ground arith)
    | inr other ↦ rw other (contains-insert k i v d other ∙ h.0, insert-IsDict k v d h.1)
  ]

  pub insert-All :
      (P : String × V → Type 0) (k : String) (v : V) (d : Dict V)
      → P (k, v)
      → All P d
      → All P (insert k v d)
  unfolding insert
  insert-All P k v [] p h = (p, tt)
  insert-All P k v (e ∷ d) p h = elim (Bool-cases (str_eq e.0 k)) [
    | inl same ↦ rw same (p, h.1)
    | inr other ↦ rw other (h.0, insert-All P k v d p h.1)
  ]

  pub lookup-All :
      (P : String × V → Type 0) (k : String) (d : Dict V) {v : V}
      → lookup k d ≡ some v
      → All P d
      → P (k, v)
  unfolding lookup
  lookup-All P k [] e h = cc
  lookup-All P k ((j, w) ∷ d) e h = elim (Bool-cases (str_eq j k)) [
    | inl same ↦
        subst P
          (ap (λ i. (i, w)) ((eq_iff j k).0 same) ∙ ap (λ x. (k, x)) (some_inj (rw same at e))) h.0
    | inr other ↦ lookup-All P k d (rw other at e) h.1
  ]

module _ {A : Type 0} where
  pub All-In : (P : A → Type 0) (a : A) (l : List A) → All P l → In a l → P a
  All-In P a [] h i = absurd i
  All-In P a (b ∷ l) h (inl here) = subst P (sym here) h.0
  All-In P a (b ∷ l) h (inr there) = All-In P a l h.1 there

  pub In-of_keep : (p : A → Bool) (a : A) (xs : List A) → In a (keep p xs) → In a xs × (p a ≡ true)
  In-of_keep p a [] i = absurd i
  In-of_keep p a (x ∷ xs) i = elim (Bool-cases (p x)) [
    | inr dropped ↦ let (there, passes) = In-of_keep p a xs (rw dropped at i) in (inr there, passes)
    | inl kept ↦ elim (rw kept at i) [
      | inl here ↦ (inl here, ap p here ∙ kept)
      | inr later ↦ let (there, passes) = In-of_keep p a xs later in (inr there, passes)
    ]
  ]

  pub In-keep : (p : A → Bool) (a : A) (xs : List A) → In a xs → p a ≡ true → In a (keep p xs)
  In-keep p a [] i h = absurd i
  In-keep p a (x ∷ xs) i h = elim (Bool-cases (p x)) [
    | inl kept ↦ rw kept (elim i [ inl here ↦ inl here | inr there ↦ inr (In-keep p a xs there h) ])
    | inr dropped ↦ rw dropped (elim i [
      | inl here ↦ absurd (ground (arith, dropped, ap p here, h))
      | inr there ↦ In-keep p a xs there h
    ])
  ]

  pub any-In : (p : A → Bool) (xs : List A) → any p xs ≡ true → (a : A) × In a xs × (p a ≡ true)
  any-In p [] h = cc
  any-In p (x ∷ xs) h = elim (Bool-cases (p x)) [
    | inl here ↦ (x, inl refl, here)
    | inr not_here ↦ let (a, i, y) = any-In p xs (rw not_here at h) in (a, inr i, y)
  ]

  pub In-any : (p : A → Bool) (a : A) (xs : List A) → In a xs → p a ≡ true → any p xs ≡ true
  In-any p a [] i h = absurd i
  In-any p a (x ∷ xs) (inl here) h = rw (sym here, h) refl
  In-any p a (x ∷ xs) (inr there) h = let rest = In-any p a xs there h in ground (arith, rest)
