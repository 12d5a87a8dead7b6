-- ===== src/Policy/Engine/Latest.antt =====
-- One voice per approver: the dictionary `latest` of `evaluate` (src/approvo/policy/engine.py).
use approvo.Base.{
  String, str_eq, eq_refl, codes, le_codes_refl, le_codes_total, le_codes_trans, le_text, ◌≡◌, sym,
  ◌⊎◌, inl, inr, true, Bool-cases, some, List, [], ◌∷◌, All, All-weaken, In, Dict, IsDict, lookup,
  insert, lookup-insert, insert-IsDict, insert-All, subst,
}
use approvo.Models.Decision.{Decision}
use approvo.Policy.Engine.{insert_decision, sort_decisions, latest_from, latest_of}

-- `d.decided_at <= e.decided_at`, as texts
abbrev pub NotLater : Decision → Decision → Type 0
NotLater d e = le_text d.decided_at e.decided_at ≡ true

abbrev IsSorted : List Decision → Type 0
IsSorted [] = Unit
IsSorted (d ∷ ds) = All (NotLater d) ds × IsSorted ds

module _ (e : Decision) (P : Decision → Type 0) where
  insert_decision-All : (ds : List Decision) → P e → All P ds → All P (insert_decision e ds)
  unfolding insert_decision
  insert_decision-All [] p h = (p, tt)
  insert_decision-All (d ∷ ds) p h = elim (Bool-cases (le_text e.decided_at d.decided_at)) [
    | inl first ↦ rw first (p, h)
    | inr later ↦ rw later (h.0, insert_decision-All ds p h.1)
  ]

insert_decision-IsSorted :
    (e : Decision) (ds : List Decision) → IsSorted ds → IsSorted (insert_decision e ds)
unfolding insert_decision
insert_decision-IsSorted e [] s = (tt, tt)
insert_decision-IsSorted e (d ∷ ds) s = elim (Bool-cases (le_text e.decided_at d.decided_at)) [
  | inl first ↦ rw first (
    (
      first,
      All-weaken (NotLater d) (NotLater e) ds
          (λ x h.
            le_codes_trans (codes e.decided_at) (codes d.decided_at) (codes x.decided_at) first h)
          s.0,
    ),
    s,
  )
  | inr later ↦ rw later (
    insert_decision-All e (NotLater d) ds
        (le_codes_total (codes e.decided_at) (codes d.decided_at) later) s.0,
    insert_decision-IsSorted e ds s.1,
  )
]

sort_decisions-IsSorted : (ds : List Decision) → IsSorted (sort_decisions ds)
unfolding sort_decisions
sort_decisions-IsSorted [] = tt
sort_decisions-IsSorted (d ∷ ds) =
    insert_decision-IsSorted d (sort_decisions ds) (sort_decisions-IsSorted ds)

sort_decisions-All :
    (P : Decision → Type 0) (ds : List Decision) → All P ds → All P (sort_decisions ds)
unfolding sort_decisions
sort_decisions-All P [] h = tt
sort_decisions-All P (d ∷ ds) h =
    insert_decision-All d P (sort_decisions ds) h.0 (sort_decisions-All P ds h.1)

In-insert_decision :
    (d e : Decision) (ds : List Decision) → (d ≡ e) ⊎ In d ds → In d (insert_decision e ds)
unfolding insert_decision
In-insert_decision d e [] (inl h) = inl h
In-insert_decision d e [] (inr h) = absurd h
In-insert_decision d e (x ∷ ds) h = elim (Bool-cases (le_text e.decided_at x.decided_at)) [
  | inl first ↦ rw first h
  | inr later ↦ rw later (elim h [
    | inl same ↦ inr (In-insert_decision d e ds (inl same))
    | inr there ↦ elim there [
      | inl here ↦ inl here
      | inr rest ↦ inr (In-insert_decision d e ds (inr rest))
    ]
  ])
]

In-sort_decisions : (d : Decision) (ds : List Decision) → In d ds → In d (sort_decisions ds)
unfolding sort_decisions
In-sort_decisions d [] i = absurd i
In-sort_decisions d (x ∷ ds) (inl here) = In-insert_decision d x (sort_decisions ds) (inl here)
In-sort_decisions d (x ∷ ds) (inr there) =
    In-insert_decision d x (sort_decisions ds) (inr (In-sort_decisions d ds there))

latest_from-IsDict : (l : Dict Decision) (ds : List Decision) → IsDict l → IsDict (latest_from l ds)
unfolding latest_from
latest_from-IsDict l [] h = h
latest_from-IsDict l (d ∷ ds) h =
    latest_from-IsDict (insert d.approver_id d l) ds (insert-IsDict d.approver_id d l h)

latest_from-All :
    (P : String × Decision → Type 0) (l : Dict Decision) (ds : List Decision)
    → All (λ d. P (d.approver_id, d)) ds
    → All P l
    → All P (latest_from l ds)
unfolding latest_from
latest_from-All P l [] h k = k
latest_from-All P l (d ∷ ds) h k =
    latest_from-All P (insert d.approver_id d l) ds h.1 (insert-All P d.approver_id d l h.0 k)

-- An entry stays, or is replaced by one of the decisions that follow.
latest_from-keeps :
    (Q : Decision → Type 0) (a : String) (l : Dict Decision) (ds : List Decision) (d : Decision)
    → lookup a l ≡ some d
    → Q d
    → All Q ds
    → (e : Decision) × (lookup a (latest_from l ds) ≡ some e) × Q e
unfolding latest_from
latest_from-keeps Q a l [] d h q qs = (d, h, q)
latest_from-keeps Q a l (x ∷ ds) d h q qs = elim (Bool-cases (str_eq x.approver_id a)) [
  | inl same ↦
      latest_from-keeps Q a (insert x.approver_id x l) ds x
        (rw (lookup-insert x.approver_id a x l, same)) qs.0 qs.1
  | inr other ↦
      latest_from-keeps Q a (insert x.approver_id x l) ds d
        (rw (lookup-insert x.approver_id a x l, other) h) q qs.1
]

latest_from-last :
    (l : Dict Decision) (ds : List Decision) (d : Decision)
    → IsSorted ds
    → In d ds
    → (e : Decision) × (lookup d.approver_id (latest_from l ds) ≡ some e) × NotLater d e
unfolding latest_from
latest_from-last l [] d s i = absurd i
latest_from-last l (x ∷ ds) d s (inr there) =
    latest_from-last (insert x.approver_id x l) ds d s.1 there
latest_from-last l (x ∷ ds) d s (inl here) =
    subst
      (λ y.
        (e : Decision) × (lookup y.approver_id (latest_from (insert x.approver_id x l) ds) ≡ some e)
        × NotLater y e)
      (sym here)
      (latest_from-keeps (NotLater x) x.approver_id (insert x.approver_id x l) ds x
        (rw (lookup-insert x.approver_id x.approver_id x l, eq_refl x.approver_id))
        (le_codes_refl (codes x.decided_at)) s.0)

-- No approver has two entries.
pub latest_of-IsDict : (ds : List Decision) → IsDict (latest_of ds)
unfolding latest_of
latest_of-IsDict ds = latest_from-IsDict [] (sort_decisions ds) tt

-- What holds of every counted decision under its approver holds of every entry.
pub latest_of-All :
    (P : String × Decision → Type 0) (ds : List Decision)
    → All (λ d. P (d.approver_id, d)) ds
    → All P (latest_of ds)
unfolding latest_of
latest_of-All P ds h =
    latest_from-All P [] (sort_decisions ds) (sort_decisions-All (λ d. P (d.approver_id, d)) ds h)
      tt

-- Every counted decision has an entry under its approver, and the entry's time is, as a text, not before its own.
pub latest_of-last :
    (ds : List Decision) (d : Decision)
    → In d ds
    → (e : Decision) × (lookup d.approver_id (latest_of ds) ≡ some e) × NotLater d e
unfolding latest_of
latest_of-last ds d i =
    latest_from-last [] (sort_decisions ds) d (sort_decisions-IsSorted ds)
      (In-sort_decisions d ds i)
