-- ===== src/Example/Mongo/Projections/Order.antt =====
-- The order of a listing in examples/vehicle-release-approvals/app/mongo_stores.py: by creation time, and by id at the same time.
use approvo.Base.{
  String, str_eq, eq_iff, lt_text, lt_text_irrefl, lt_text_trans, lt_text_cases, ◌≡◌, ◌≢◌, refl,
  sym, ap, ◌∙◌, ◌⊎◌, inl, inr, Bool, true, false, not, ◌&&◌, ◌||◌, Bool-cases, List, [], ◌∷◌, any,
  arith,
}
use approvo.Example.Mongo.{Apart, AllApart}
use approvo.Example.Mongo.Sorting.{IsStrict}
use approvo.Example.Mongo.Projections.{ViewDoc, by_age}

-- The order on a time and an id.
abbrev before_place : String → String → String → String → Bool
before_place s a t b = lt_text s t || (str_eq s t && lt_text a b)

ne_of : (s t : String) → (lt_text s t ≡ true) → str_eq s t ≡ false
ne_of s t h = elim (Bool-cases (str_eq s t)) [
  | inr other ↦ other
  | inl same ↦ absurd (ground (arith, h, ap (lt_text s) ((eq_iff s t).0 same), lt_text_irrefl s))
]

lt_text_asym : (s t : String) → lt_text s t ≡ true → lt_text t s ≡ false
lt_text_asym s t h = elim (Bool-cases (lt_text t s)) [
  | inr no_less ↦ no_less
  | inl less ↦ absurd (ground (arith, lt_text_trans s t s h less, lt_text_irrefl s))
]

earlier : (s a t b : String) → lt_text s t ≡ true → before_place s a t b ≡ true
earlier s a t b h = rw h refl

same_time : (s a t b : String) → s ≡ t → before_place s a t b ≡ lt_text a b
same_time s a t b e = rw (ap (lt_text s) (sym e) ∙ lt_text_irrefl s, (eq_iff s t).1 e) refl

later_time : (s a t b : String) → lt_text t s ≡ true → before_place s a t b ≡ false
later_time s a t b h = rw (lt_text_asym t s h, str_eq_sym s t ∙ ne_of t s h) refl
  where
    str_eq_sym : (x y : String) → str_eq x y ≡ str_eq y x
    str_eq_sym x y = ground (arith, eq_iff x y, eq_iff y x)

before_cases :
    (s a t b : String)
    → before_place s a t b ≡ true
    → (lt_text s t ≡ true) ⊎ ((s ≡ t) × (lt_text a b ≡ true))
before_cases s a t b h = elim (lt_text_cases s t) [
  | inl same ↦ inr (same, sym (same_time s a t b same) ∙ h)
  | inr (inl (st, ts)) ↦ inl st
  | inr (inr (st, ts)) ↦ absurd (ground (arith, later_time s a t b ts, h))
]

place_irrefl : (s a : String) → before_place s a s a ≡ false
place_irrefl s a = same_time s a s a refl ∙ lt_text_irrefl a

place_asym : (s a t b : String) → before_place s a t b ≡ true → before_place t b s a ≡ false
place_asym s a t b h = elim (before_cases s a t b h) [
  | inl st ↦ later_time t b s a st
  | inr (same, ab) ↦ same_time t b s a (sym same) ∙ lt_text_asym a b ab
]

place_trans :
    (s a t b u c : String)
    → before_place s a t b ≡ true
    → before_place t b u c ≡ true
    → before_place s a u c ≡ true
place_trans s a t b u c h k = elim (before_cases s a t b h) [
  | inl st ↦ elim (before_cases t b u c k) [
    | inl tu ↦ earlier s a u c (lt_text_trans s t u st tu)
    | inr (same, bc) ↦ earlier s a u c (ap (lt_text s) (sym same) ∙ st)
  ]
  | inr (same, ab) ↦ elim (before_cases t b u c k) [
    | inl tu ↦ earlier s a u c (ap (λ x. lt_text x u) same ∙ tu)
    | inr (same', bc) ↦ same_time s a u c (same ∙ same') ∙ lt_text_trans a b c ab bc
  ]
]

place_apart : (s a t b : String) → a ≢ b → before_place s a t b ≡ not (before_place t b s a)
place_apart s a t b differ = elim (lt_text_cases s t) [
  | inl same ↦ elim (lt_text_cases a b) [
    | inl clash ↦ absurd (differ clash)
    | inr (inl (ab, ba)) ↦
        same_time s a t b same ∙ ab ∙ ap not (sym (same_time t b s a (sym same) ∙ ba))
    | inr (inr (ab, ba)) ↦
        same_time s a t b same ∙ ab ∙ ap not (sym (same_time t b s a (sym same) ∙ ba))
  ]
  | inr (inl (st, ts)) ↦ earlier s a t b st ∙ ap not (sym (later_time t b s a st))
  | inr (inr (st, ts)) ↦ later_time s a t b ts ∙ ap not (sym (earlier t b s a ts))
]

pub by_age-IsStrict : IsStrict by_age
by_age-IsStrict = record {
  irrefl = λ d. place_irrefl d.view.created_at d.id;
  asym = λ d e. place_asym d.view.created_at d.id e.view.created_at e.id;
  trans = λ d e f. place_trans d.view.created_at d.id e.view.created_at e.id f.view.created_at f.id;
}

-- No two documents have the same id.
abbrev pub HasIds : List ViewDoc → Type 0
HasIds [] = Unit
HasIds (d ∷ ds) = (any (λ (e : ViewDoc). str_eq e.id d.id) ds ≡ false) × HasIds ds

HasIds-Apart :
    (d : ViewDoc) (ds : List ViewDoc)
    → any (λ (e : ViewDoc). str_eq e.id d.id) ds ≡ false
    → Apart by_age d ds
HasIds-Apart d [] h = tt
HasIds-Apart d (e ∷ es) h = (
  place_apart d.view.created_at d.id e.view.created_at e.id
      (λ clash. ground (arith, h, (eq_iff e.id d.id).1 (sym clash))),
  HasIds-Apart d es (ground (arith, h)),
)

-- Then the order tells all apart.
pub HasIds-AllApart : (ds : List ViewDoc) → HasIds ds → AllApart by_age ds
HasIds-AllApart [] h = tt
HasIds-AllApart (d ∷ ds) h = (HasIds-Apart d ds h.0, HasIds-AllApart ds h.1)
