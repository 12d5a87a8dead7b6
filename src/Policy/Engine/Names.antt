-- ===== src/Policy/Engine/Names.antt =====
-- The approvers that `evaluate` (src/approvo/policy/engine.py) lists: those of one verdict, and their sorted list.
use approvo.Base.{
  suc, String, str_eq, eq_iff, le_text, contains, ◌≡◌, refl, sym, ap, ◌∙◌, inl, inr, true, false,
  ◌||◌, Bool-cases, some, List, [], ◌∷◌, map, All, In, Dict, IsDict, key, lookup, some_inj, length,
  arith,
}
use approvo.Models.Decision.{Decision}
use approvo.Policy.Engine.{insert_sorted, sorted_names, with_verdict}

abbrev pub NoRepeat : List String → Type 0
NoRepeat [] = Unit
NoRepeat (a ∷ l) = (contains l a ≡ false) × NoRepeat l

-- `a` has an entry with the given property and verdict.
abbrev pub Voted : (String × Decision → Type 0) → String → String → Type 0
Voted P verdict a = (d : Decision) × P (a, d) × (d.verdict ≡ verdict)

pub with_verdict-All :
    (P : String × Decision → Type 0) (v : String) (l : Dict Decision)
    → All P l
    → All (Voted P v) (with_verdict v l)
unfolding with_verdict
with_verdict-All P v [] h = tt
with_verdict-All P v ((a, d) ∷ l) h = elim (Bool-cases (str_eq d.verdict v)) [
  | inl same ↦ rw same ((d, h.0, (eq_iff d.verdict v).0 same), with_verdict-All P v l h.1)
  | inr other ↦ rw other (with_verdict-All P v l h.1)
]

contains-with_verdict :
    (v a : String) (l : Dict Decision)
    → contains (map key l) a ≡ false
    → contains (with_verdict v l) a ≡ false
unfolding with_verdict
contains-with_verdict v a [] h = refl
contains-with_verdict v a ((b, d) ∷ l) h = ground (arith, contains-with_verdict v a l)

pub with_verdict-NoRepeat :
    (v : String) (l : Dict Decision) → IsDict l → NoRepeat (with_verdict v l)
unfolding with_verdict
with_verdict-NoRepeat v [] h = tt
with_verdict-NoRepeat v ((a, d) ∷ l) h = elim (Bool-cases (str_eq d.verdict v)) [
  | inl same ↦ rw same (contains-with_verdict v a l h.0, with_verdict-NoRepeat v l h.1)
  | inr other ↦ rw other (with_verdict-NoRepeat v l h.1)
]

pub with_verdict_complete :
    (v a : String) (l : Dict Decision) {d : Decision}
    → lookup a l ≡ some d
    → d.verdict ≡ v
    → In a (with_verdict v l)
unfolding with_verdict lookup
with_verdict_complete v a [] e h = cc
with_verdict_complete v a ((b, c) ∷ l) {d} e h = elim (Bool-cases (str_eq b a)) [
  | inl here ↦
      let found : c ≡ d = some_inj (rw here at e) in
      let same : str_eq c.verdict v ≡ true =
        (eq_iff c.verdict v).1 (ap (λ (x : Decision). x.verdict) found ∙ h) in
      rw same (inl (sym ((eq_iff b a).0 here)))
  | inr there ↦ elim (Bool-cases (str_eq c.verdict v)) [
    | inl same ↦ rw same (inr (with_verdict_complete v a l (rw there at e) h))
    | inr other ↦ rw other (with_verdict_complete v a l (rw there at e) h)
  ]
]

insert_sorted-All :
    (P : String → Type 0) (a : String) (l : List String) → P a → All P l → All P (insert_sorted a l)
unfolding insert_sorted
insert_sorted-All P a [] p h = (p, tt)
insert_sorted-All P a (b ∷ l) p h = elim (Bool-cases (le_text a b)) [
  | inl first ↦ rw first (p, h)
  | inr later ↦ rw later (h.0, insert_sorted-All P a l p h.1)
]

pub sorted_names-All : (P : String → Type 0) (l : List String) → All P l → All P (sorted_names l)
unfolding sorted_names
sorted_names-All P [] h = tt
sorted_names-All P (a ∷ l) h = insert_sorted-All P a (sorted_names l) h.0 (sorted_names-All P l h.1)

length-insert_sorted : (a : String) (l : List String) → length (insert_sorted a l) ≡ suc (length l)
unfolding insert_sorted
length-insert_sorted a [] = refl
length-insert_sorted a (b ∷ l) = ground (arith, length-insert_sorted a l)

pub length-sorted_names : (l : List String) → length (sorted_names l) ≡ length l
unfolding sorted_names
length-sorted_names [] = refl
length-sorted_names (a ∷ l) =
    length-insert_sorted a (sorted_names l) ∙ ap suc (length-sorted_names l)

contains-insert_sorted :
    (a x : String) (l : List String) → contains (insert_sorted a l) x ≡ (str_eq a x || contains l x)
unfolding insert_sorted
contains-insert_sorted a x [] = refl
contains-insert_sorted a x (b ∷ l) = ground (arith, contains-insert_sorted a x l)

pub contains-sorted_names :
    (x : String) (l : List String) → contains (sorted_names l) x ≡ contains l x
unfolding sorted_names
contains-sorted_names x [] = refl
contains-sorted_names x (a ∷ l) =
    contains-insert_sorted a x (sorted_names l)
    ∙ ap (λ b. str_eq a x || b) (contains-sorted_names x l)

insert_sorted-NoRepeat :
    (a : String) (l : List String)
    → contains l a ≡ false
    → NoRepeat l
    → NoRepeat (insert_sorted a l)
unfolding insert_sorted
insert_sorted-NoRepeat a [] h n = (refl, tt)
insert_sorted-NoRepeat a (b ∷ l) h n = elim (Bool-cases (le_text a b)) [
  | inl first ↦ rw first (h, n)
  | inr later ↦ rw later (
    ground (arith, contains-insert_sorted a b l, eq_iff a b, eq_iff b a),
    insert_sorted-NoRepeat a l (ground arith) n.1,
  )
]

pub sorted_names-NoRepeat : (l : List String) → NoRepeat l → NoRepeat (sorted_names l)
unfolding sorted_names
sorted_names-NoRepeat [] n = tt
sorted_names-NoRepeat (a ∷ l) n =
    insert_sorted-NoRepeat a (sorted_names l) (contains-sorted_names a l ∙ n.0)
      (sorted_names-NoRepeat l n.1)

pub contains→In : (a : String) (l : List String) → contains l a ≡ true → In a l
contains→In a [] h = cc
contains→In a (b ∷ l) h = elim (Bool-cases (str_eq b a)) [
  | inl here ↦ inl (sym ((eq_iff b a).0 here))
  | inr there ↦ inr (contains→In a l (rw there at h))
]

pub In→contains : (a : String) (l : List String) → In a l → contains l a ≡ true
In→contains a [] i = absurd i
In→contains a (b ∷ l) (inl here) = ground (arith, eq_iff b a)
In→contains a (b ∷ l) (inr there) = ground (arith, In→contains a l there)
