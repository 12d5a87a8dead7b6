-- ===== src/Policy/Engine/Outcome.antt =====
-- The four ends of `evaluate` (src/approvo/policy/engine.py).
use approvo.Base.{
  String, ◌≡◌, refl, sym, ap, ◌∙◌, inl, inr, Bool, true, false, ◌&&◌, Bool-cases, List, [], ◌∷◌,
  All, In, length, all, Dict, ltb, leb, arith,
}
use approvo.Result.{Result, ok, >>=-eq-ok, ok-injective}
use approvo.Models.Request.{ApprovalRequest}
use approvo.Models.Decision.{Decision}
use approvo.Policy.Model.{Policy}
use approvo.Policy.Engine.{
  pending, approved, rejected, expired, PolicyResult, Reason, Identities, holds_role, any_holder,
  roles_satisfied, sorted_names, with_verdict, conclude,
}
use approvo.Policy.Engine.Names.{contains-sorted_names, contains→In, In→contains}

-- One of the four results that follow the loop.
pub data Concluded (policy : Policy) (identities : Identities) (closed : Result Bool)
    (latest : Dict Decision) (r : PolicyResult) : Type 0 where
  by_reject :
      r.status ≡ rejected
      → policy.reject_is_terminal ≡ true
      → ltb 0 (length (with_verdict "reject" latest)) ≡ true
      → r.satisfied_by ≡ sorted_names (with_verdict "reject" latest)
      → Concluded policy identities closed latest r
  by_threshold :
      r.status ≡ approved
      → (policy.reject_is_terminal && ltb 0 (length (with_verdict "reject" latest))) ≡ false
      → leb policy.threshold (length (with_verdict "approve" latest)) ≡ true
      → roles_satisfied (with_verdict "approve" latest) policy identities ≡ true
      → r.satisfied_by ≡ sorted_names (with_verdict "approve" latest)
      → Concluded policy identities closed latest r
  by_time :
      r.status ≡ expired
      → closed ≡ ok true
      → (leb policy.threshold (length (with_verdict "approve" latest))
          && roles_satisfied (with_verdict "approve" latest) policy identities)
        ≡ false
      → Concluded policy identities closed latest r
  undecided :
      r.status ≡ pending
      → closed ≡ ok false
      → (leb policy.threshold (length (with_verdict "approve" latest))
          && roles_satisfied (with_verdict "approve" latest) policy identities)
        ≡ false
      → Concluded policy identities closed latest r

pub conclude-Concluded :
    (request : ApprovalRequest) (policy : Policy) (identities : Identities) (closed : Result Bool)
    (latest : Dict Decision) (reasons : List Reason) {r : PolicyResult}
    → conclude request policy identities closed latest reasons ≡ ok r
    → Concluded policy identities closed latest r
unfolding conclude
conclude-Concluded request policy identities closed latest reasons {r} h =
    elim (Bool-cases (policy.reject_is_terminal && ltb 0 (length (with_verdict "reject" latest)))) [
      | inl stop ↦
          let same = ok-injective (rw stop at h) in
          by_reject (sym (ap (λ (x : PolicyResult). x.status) same)) (ground (arith, stop))
            (ground (arith, stop)) (sym (ap (λ (x : PolicyResult). x.satisfied_by) same))
      | inr go ↦
          elim (Bool-cases (
            leb policy.threshold (length (with_verdict "approve" latest))
            && roles_satisfied (with_verdict "approve" latest) policy identities)) [
              | inl met ↦
                  let same = ok-injective (rw (go, met) at h) in
                  by_threshold (sym (ap (λ (x : PolicyResult). x.status) same)) go
                    (ground (arith, met)) (ground (arith, met))
                    (sym (ap (λ (x : PolicyResult). x.satisfied_by) same))
              | inr unmet ↦
                  let (is_closed, tested, made) = >>=-eq-ok closed _ (rw (go, unmet) at h) in
                  elim (Bool-cases is_closed) [
                    | inl late ↦
                        let same = ok-injective (rw late at made) in
                        by_time (sym (ap (λ (x : PolicyResult). x.status) same))
                          (tested ∙ ap ok late) unmet
                    | inr early ↦
                        let same = ok-injective (rw early at made) in
                        undecided (sym (ap (λ (x : PolicyResult). x.status) same))
                          (tested ∙ ap ok early) unmet
                  ]
            ]
    ]

pub empty-In : (a : String) (l : List String) → ltb 0 (length l) ≡ false → In a l → ⊥
empty-In a [] h i = i
empty-In a (b ∷ l) h i = ground arith

any_holder-In :
    (identities : Identities) (required : String) (l : List String)
    → any_holder identities required l ≡ true
    → (a : String) × In a l × (holds_role identities required a ≡ true)
any_holder-In identities required [] h = cc
any_holder-In identities required (a ∷ l) h = elim (Bool-cases (holds_role identities required a)) [
  | inl held ↦ (a, inl refl, held)
  | inr unheld ↦
      let (b, i, y) = any_holder-In identities required l (rw unheld at h) in (b, inr i, y)
]

In-sorted_names : (a : String) (l : List String) → In a l → In a (sorted_names l)
In-sorted_names a l i =
    contains→In a (sorted_names l) (contains-sorted_names a l ∙ In→contains a l i)

-- Each required role is held by one of the names.
abbrev pub Held : Identities → List String → List String → Type 0
Held identities names roles =
    All (λ required. (a : String) × In a names × (holds_role identities required a ≡ true)) roles

all-Held :
    (identities : Identities) (l : List String) (roles : List String)
    → all (λ required. any_holder identities required l) roles ≡ true
    → Held identities (sorted_names l) roles
all-Held identities l [] h = tt
all-Held identities l (required ∷ roles) h =
    let (a, i, y) = any_holder-In identities required l (ground arith) in
    ((a, In-sorted_names a l i, y), all-Held identities l roles (ground arith))

pub roles_satisfied-Held :
    (l : List String) (policy : Policy) (identities : Identities)
    → roles_satisfied l policy identities ≡ true
    → Held identities (sorted_names l) policy.require_distinct_roles
unfolding roles_satisfied
roles_satisfied-Held l policy identities h = all-Held identities l policy.require_distinct_roles h
