-- ===== src/Example/Mongo/Projections/Found.antt =====
-- The document under an id, after one is replaced or added.
use approvo.Base.{
  String, str_eq, eq_iff, eq_refl, ◌≡◌, refl, sym, ap, ◌∙◌, inl, inr, Bool, true, false, ◌&&◌, ◌||◌,
  Bool-cases, Option, none, some, some_inj, List, [], ◌∷◌, ◌++◌, map, any, if◌then◌else◌, arith,
}
use approvo.Example.Mongo.{first}
use approvo.Example.Mongo.Projections.{ViewDoc}
use approvo.Example.Mongo.Projections.Order.{HasIds}

abbrev pub under : String → List ViewDoc → Option ViewDoc
under i ds = first (λ (d : ViewDoc). str_eq d.id i) ds

abbrev taken : String → List ViewDoc → Bool
taken i ds = any (λ (d : ViewDoc). str_eq d.id i) ds

abbrev pub set : ViewDoc → List ViewDoc → List ViewDoc
set d ds = map (λ (e : ViewDoc). if str_eq e.id d.id then d else e) ds

pub under-set :
    (i : String) (d : ViewDoc) (ds : List ViewDoc)
    → str_eq d.id i ≡ false
    → under i (set d ds) ≡ under i ds
under-set i d [] other = refl
under-set i d (e ∷ ds) other =
    let rest = under-set i d ds other in
    ground (arith, eq_iff e.id d.id, eq_iff e.id i, eq_iff d.id i, rest, other)

pub under-set_own :
    (d : ViewDoc) (ds : List ViewDoc) → taken d.id ds ≡ true → under d.id (set d ds) ≡ some d
under-set_own d [] h = cc
under-set_own d (e ∷ ds) h = elim (Bool-cases (str_eq e.id d.id)) [
  | inl here ↦ rw here (rw (eq_refl d.id) refl)
  | inr later ↦ rw later (rw later (under-set_own d ds (rw later at h)))
]

pub under-append :
    (i : String) (ds : List ViewDoc) (d : ViewDoc)
    → str_eq d.id i ≡ false
    → under i (ds ++ d ∷ []) ≡ under i ds
under-append i [] d other = rw other refl
under-append i (e ∷ ds) d other =
    let rest = under-append i ds d other in ap (λ o. if str_eq e.id i then some e else o) rest

pub under-append_own :
    (ds : List ViewDoc) (d : ViewDoc) → taken d.id ds ≡ false → under d.id (ds ++ d ∷ []) ≡ some d
under-append_own [] d free = rw (eq_refl d.id) refl
under-append_own (e ∷ ds) d free = elim (Bool-cases (str_eq e.id d.id)) [
  | inl here ↦ absurd (ground (arith, here, free))
  | inr later ↦ rw later (under-append_own ds d (rw later at free))
]

pub taken-under : (i : String) (ds : List ViewDoc) → under i ds ≡ none → taken i ds ≡ false
taken-under i [] h = refl
taken-under i (d ∷ ds) h = let rest = taken-under i ds in ground (arith, h, rest)

pub under-taken :
    (i : String) (ds : List ViewDoc) {d : ViewDoc} → under i ds ≡ some d → taken i ds ≡ true
under-taken i [] h = cc
under-taken i (e ∷ ds) h = elim (Bool-cases (str_eq e.id i)) [
  | inl here ↦ rw here refl
  | inr later ↦ rw later (under-taken i ds (rw later at h))
]

pub no_match :
    (i : String) (cond : ViewDoc → Bool) (ds : List ViewDoc)
    → taken i ds ≡ false
    → any (λ (d : ViewDoc). str_eq d.id i && cond d) ds ≡ false
no_match i cond [] h = refl
no_match i cond (d ∷ ds) h = let rest = no_match i cond ds in ground (arith, h, rest)

-- With one document under the id, the condition is asked of that one.
pub match_one :
    (i : String) (cond : ViewDoc → Bool) (ds : List ViewDoc) (d : ViewDoc)
    → HasIds ds
    → under i ds ≡ some d
    → any (λ (e : ViewDoc). str_eq e.id i && cond e) ds ≡ cond d
match_one i cond [] d ids h = cc
match_one i cond (e ∷ ds) d ids h = elim (Bool-cases (str_eq e.id i)) [
  | inr later ↦ rw later (match_one i cond ds d ids.1 (rw later at h))
  | inl here ↦
      let same : e ≡ d = some_inj (rw here at h) in
      let none_else =
        no_match i cond ds (ap (λ j. taken j ds) (sym ((eq_iff e.id i).0 here)) ∙ ids.0) in
      rw (here, none_else) (or_false (cond e) ∙ ap cond same)
]
  where
    or_false : (b : Bool) → (b || false) ≡ b
    or_false true = refl
    or_false false = refl
