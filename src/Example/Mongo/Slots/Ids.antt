-- ===== src/Example/Mongo/Slots/Ids.antt =====
-- The documents of keys, and the ids that examples/vehicle-release-approvals/app/mongo_stores.py gives them.
use approvo.Base.{
  String, append_text, str_eq, eq_iff, ◌≡◌, refl, sym, ap, ◌∙◌, inl, inr, true, false, not,
  Bool-cases, Option, none, some, List, [], ◌∷◌, ◌++◌, map, keep, any, if◌then◌else◌, arith,
}
use text.Mathlib.TextLemmas.{append_cancel_left, append_assoc}
use approvo.Store.Reservations.{Slot}
use approvo.Example.Mongo.{first}
use approvo.Example.Mongo.Slots.{SlotDoc, scoped_id}

-- The first document under an id.
abbrev pub under : String → List SlotDoc → Option SlotDoc
under i ds = first (λ (d : SlotDoc). str_eq d.id i) ds

pub under-any :
    (i : String) (ds : List SlotDoc)
    → under i ds ≡ none
    → any (λ (d : SlotDoc). str_eq d.id i) ds ≡ false
under-any i [] h = refl
under-any i (d ∷ ds) h = let rest = under-any i ds in ground (arith, h, rest)

pub any-under :
    (i : String) (ds : List SlotDoc) {d : SlotDoc}
    → under i ds ≡ some d
    → any (λ (e : SlotDoc). str_eq e.id i) ds ≡ true
any-under i [] h = cc
any-under i (e ∷ ds) h = elim (Bool-cases (str_eq e.id i)) [
  | inl here ↦ rw here refl
  | inr later ↦ let rest = any-under i ds (rw later at h) in rw later rest
]

abbrev pub or_last : Option SlotDoc → Option SlotDoc → Option SlotDoc
or_last (some d) o = some d
or_last none o = o

pub under-append :
    (i : String) (ds : List SlotDoc) (d : SlotDoc)
    → under i (ds ++ d ∷ []) ≡ or_last (under i ds) (if str_eq d.id i then some d else none)
under-append i [] d = refl
under-append i (e ∷ ds) d =
    let rest = under-append i ds d in
    elim (Bool-cases (str_eq e.id i)) [ inl here ↦ rw here refl | inr later ↦ rw later rest ]

pub under-keep :
    (i j : String) (ds : List SlotDoc)
    → under j (keep (λ (d : SlotDoc). not (str_eq d.id i)) ds)
      ≡ (if str_eq i j then none else under j ds)
under-keep i j [] = ground arith
under-keep i j (d ∷ ds) =
    let rest = under-keep i j ds in ground (arith, eq_iff d.id i, eq_iff d.id j, eq_iff i j, rest)

abbrev pub with_response : String → SlotDoc → SlotDoc
with_response response d = record d { response = some response }

abbrev pub change : (SlotDoc → SlotDoc) → Option SlotDoc → Option SlotDoc
change f none = none
change f (some d) = some (f d)

pub under-map :
    (i j response : String) (ds : List SlotDoc)
    → under j (map (λ (d : SlotDoc). if str_eq d.id i then with_response response d else d) ds)
      ≡ (if str_eq i j then change (with_response response) (under j ds) else under j ds)
under-map i j response [] = ground arith
under-map i j response (d ∷ ds) =
    let rest = under-map i j response ds in
    ground (arith, eq_iff d.id i, eq_iff d.id j, eq_iff i j, rest)

abbrev pub slot_of : Option SlotDoc → Option Slot
slot_of none = none
slot_of (some d) = some (record { fingerprint = d.fingerprint; response = d.response })

scoped_id-injective : (log_id k j : String) → scoped_id log_id k ≡ scoped_id log_id j → k ≡ j
unfolding scoped_id
scoped_id-injective log_id k j e = append_cancel_left ":" _ _ (append_cancel_left log_id _ _ e)

-- Ids of one log are told apart as their keys are.
pub scoped_id-test :
    (log_id k j : String) → str_eq (scoped_id log_id k) (scoped_id log_id j) ≡ str_eq k j
scoped_id-test log_id k j = elim (Bool-cases (str_eq k j)) [
  | inl same ↦ (eq_iff _ _).1 (ap (scoped_id log_id) ((eq_iff k j).0 same)) ∙ sym same
  | inr other ↦ elim (Bool-cases (str_eq (scoped_id log_id k) (scoped_id log_id j))) [
    | inr differ ↦ differ ∙ sym other
    | inl clash ↦ absurd (
        ground
          (arith, other, (eq_iff k j).1 (scoped_id-injective log_id k j ((eq_iff _ _).0 clash))))
  ]
]

-- The ids do not tell logs apart whose names and keys continue one another: a key of one log can have the id of a key of another.
pub scoped_id-shared :
    (log_id rest key : String)
    → scoped_id log_id (append_text rest (append_text ":" key))
      ≡ scoped_id (append_text log_id (append_text ":" rest)) key
unfolding scoped_id
scoped_id-shared log_id rest key =
    ap (append_text log_id) (sym (append_assoc ":" rest (append_text ":" key)))
    ∙ sym (append_assoc log_id (append_text ":" rest) (append_text ":" key))
