-- ===== src/Projection/Eligible.antt =====
-- `eligible_approvers` (src/approvo/projection.py) against `_eligible` (src/approvo/policy/engine.py).
use approvo.Base.{
  String, str_eq, eq_iff, contains, ◌≡◌, ◌≢◌, refl, sym, ap, ◌∙◌, inl, inr, true, false, ◌||◌,
  Bool-cases, Option, none, some, [], ◌∷◌, map, All, In, IsDict, key, lookup, arith,
}
use approvo.Models.Request.{Identity, ApprovalRequest}
use approvo.Policy.Model.{Policy}
use approvo.Policy.Engine.{Identities, any_role, eligible}
use approvo.Policy.Engine.Names.{contains-sorted_names, contains→In, In→contains}
use approvo.Projection.{may_vote, voters, eligible_approvers}

-- Every identity of the roster stands under its own id, and no id stands twice.
abbrev pub IsRoster : Identities → Type 0
IsRoster people = IsDict people × All (λ (e : String × Identity). e.1.id ≡ e.0) people

module _ (request : ApprovalRequest) (policy : Policy) where
  -- What the roster says of a name that is listed.
  Listed : Identities → String → Type 0
  Listed people a =
      (ident : Identity) × (lookup a people ≡ some ident)
      × (ident.id ≡ a)
      × (may_vote request policy ident ≡ true)
      × (contains (map key people) a ≡ true)

  voters-Listed :
      (people : Identities) (a : String)
      → IsRoster people
      → In a (voters request policy people)
      → Listed people a
  unfolding Listed lookup
  voters-Listed [] a r i = absurd i
  voters-Listed ((k, ident) ∷ people) a ((fresh, distinct), (own, owns)) i =
      let later : In a (voters request policy people) → Listed ((k, ident) ∷ people) a = λ there.
        let (found, at_a, same, may, known) = voters-Listed people a (distinct, owns) there in
        elim (Bool-cases (str_eq k a)) [
          | inl clash ↦ absurd (ground (arith, fresh, known, (eq_iff k a).0 clash))
          | inr other ↦ (found, rw other at_a, same, may, rw other known)
        ] in
      elim (Bool-cases (may_vote request policy ident)) [
        | inr skipped ↦ later (rw skipped at i)
        | inl taken ↦ elim (rw taken at i) [
          | inl here ↦
              let same : str_eq k a ≡ true = (eq_iff k a).1 (sym (here ∙ own)) in
              (ident, rw same refl, sym here, taken, rw same refl)
          | inr there ↦ later there
        ]
      ]

  -- In a roster whose identities stand under their own ids, every name that `eligible_approvers` lists is eligible for the engine, and is
  -- not the requester where duties are separated.
  pub eligible_approvers-eligible :
      (people : Identities) (a : String)
      → IsRoster people
      → In a (eligible_approvers request policy people)
      → (eligible a policy people ≡ true)
        × (policy.separation_of_duties ≡ true → a ≢ request.requested_by)
  unfolding eligible_approvers Listed eligible
  eligible_approvers-eligible people a r i =
      let listed =
        contains→In a (voters request policy people)
          (sym (contains-sorted_names a (voters request policy people)) ∙ In→contains a _ i) in
      let (ident, found, same, may, known) = voters-Listed people a r listed in
      let allowed : (contains policy.allowed_approvers ident.id || any_role policy ident.roles)
          ≡ true =
        ground (arith, may) in
      (
        ap
              (λ (o : Option Identity).
                contains policy.allowed_approvers a
                || (elim o [ none ↦ false | some x ↦ any_role policy x.roles ]))
              found
            ∙ ap (λ b. contains policy.allowed_approvers b || any_role policy ident.roles)
                (sym same)
            ∙ allowed,
        λ sod requester.
            ground (arith, may, sod, (eq_iff ident.id request.requested_by).1 (same ∙ requester)),
      )
