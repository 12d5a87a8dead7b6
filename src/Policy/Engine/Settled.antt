-- ===== src/Policy/Engine/Settled.antt =====
-- `evaluate` (src/approvo/policy/engine.py) on decisions that suffice.
use approvo.Base.{
  All-In, lookup-All, suc, ◌≤◌, String, str_eq, eq_iff, contains, Bytes, ◌≡◌, refl, sym, ap, ◌∙◌,
  inl, inr, true, false, Bool-cases, Option, List, [], ◌∷◌, All, All-weaken, In, length, all, subst,
  if◌then◌else◌, arith,
}
use approvo.Result.{ok}
use approvo.Clock.{Datetime}
use approvo.Models.Request.{ApprovalRequest}
use approvo.Models.Decision.{Decision}
use approvo.Policy.Model.{Policy}
use approvo.Policy.Engine.{
  approved, PolicyResult, Identities, holds_role, any_holder, roles_satisfied, with_verdict,
  latest_of, evaluate,
}
use approvo.Policy.Engine.Latest.{latest_of-last}
use approvo.Policy.Engine.Names.{NoRepeat, Voted, with_verdict-All, with_verdict_complete}
use approvo.Policy.Engine.Outcome.{by_reject, by_threshold, by_time, undecided, Held}
use approvo.Policy.Engine.Approved.{
  Valid, Backed, Opened, evaluate-Opened, Entered, latest-Entered, Valid-counted,
}

without : String → List String → List String
without a [] = []
without a (b ∷ l) = let rest = without a l in if str_eq b a then l else b ∷ rest

length-without : (a : String) (l : List String) → In a l → suc (length (without a l)) ≡ length l
unfolding without
length-without a [] i = absurd i
length-without a (b ∷ l) (inl here) = ground (arith, eq_iff b a)
length-without a (b ∷ l) (inr there) = ground (arith, length-without a l there)

In-without : (a b : String) (l : List String) → str_eq b a ≡ false → In b l → In b (without a l)
unfolding without
In-without a b [] other i = absurd i
In-without a b (c ∷ l) other i = elim (Bool-cases (str_eq c a)) [
  | inl first ↦
      rw first (elim i [ inl here ↦ ground (arith, eq_iff b a, eq_iff c a) | inr there ↦ there ])
  | inr later ↦
      rw later (elim i [ inl here ↦ inl here | inr there ↦ inr (In-without a b l other there) ])
]

All-without :
    (a : String) (xs ys : List String)
    → contains xs a ≡ false
    → All (λ b. In b ys) xs
    → All (λ b. In b (without a ys)) xs
All-without a [] ys h p = tt
All-without a (b ∷ xs) ys h p =
    (In-without a b ys (ground arith) p.0, All-without a xs ys (ground arith) p.1)

-- Different names that all stand in a list are no more than its members.
length-NoRepeat :
    (xs ys : List String) → NoRepeat xs → All (λ a. In a ys) xs → length xs ≤ length ys
length-NoRepeat [] ys n p = omega arith
length-NoRepeat (a ∷ xs) ys n p = omega (
  arith,
  length-without a ys p.0,
  length-NoRepeat xs (without a ys) n.1 (All-without a xs ys n.0 p.1),
)

In-any_holder :
    (identities : Identities) (required a : String) (l : List String)
    → In a l
    → holds_role identities required a ≡ true
    → any_holder identities required l ≡ true
In-any_holder identities required a [] i h = absurd i
In-any_holder identities required a (b ∷ l) (inl here) h = rw (sym here, h) refl
In-any_holder identities required a (b ∷ l) (inr there) h =
    let rest = In-any_holder identities required a l there h in ground (arith, rest)

Held-all :
    (identities : Identities) (names l roles : List String)
    → All (λ a. In a l) names
    → Held identities names roles
    → all (λ required. any_holder identities required l) roles ≡ true
Held-all identities names l [] sub h = refl
Held-all identities names l (required ∷ roles) sub ((a, i, y), h) =
    rw (In-any_holder identities required a l (All-In (λ b. In b l) a names sub i) y)
      (Held-all identities names l roles sub h)

module _ (sha256 : Bytes → Bytes) (parse : String → Option Datetime) (request : ApprovalRequest)
    (decisions : List Decision) (policy : Policy) (identities : Identities) where
  module _ (at_time : String) {r : PolicyResult}
      (o : Opened sha256 parse request decisions policy identities at_time r)
      (unanimous : (d : Decision)
        → Valid sha256 parse request decisions policy identities d
        → d.verdict ≡ "approve") where
    none_reject : with_verdict "reject" (latest_of o.counted) ≡ []
    none_reject = go (with_verdict "reject" (latest_of o.counted)) (
        with_verdict-All (Entered sha256 parse request decisions policy identities) "reject"
          (latest_of o.counted)
          (latest-Entered sha256 parse request decisions policy identities at_time o))
      where
        go :
            (l : List String)
            → All (Voted (Entered sha256 parse request decisions policy identities) "reject") l
            → l ≡ []
        go [] h = refl
        go (a ∷ l) ((d, entered, says), h) =
            absurd (differ ((eq_iff "reject" "approve").1 (sym says ∙ unanimous d entered.1)))
          where
            differ : str_eq "reject" "approve" ≡ true → ⊥
            differ e = cc

    Backed-In :
        (a : String)
        → Backed sha256 parse request decisions policy identities "approve" a
        → In a (with_verdict "approve" (latest_of o.counted))
    Backed-In a b =
        let (e, found, later) = latest_of-last o.counted b.decision (
          Valid-counted sha256 parse request decisions policy identities at_time o b.decision
            b.valid) in
        let entered =
          lookup-All (Entered sha256 parse request decisions policy identities)
            b.decision.approver_id (latest_of o.counted) found
            (latest-Entered sha256 parse request decisions policy identities at_time o) in
        subst (λ x. In x (with_verdict "approve" (latest_of o.counted))) b.by
          (with_verdict_complete "approve" b.decision.approver_id (latest_of o.counted) found
            (unanimous e entered.1))

  -- If `evaluate` returns, every valid decision is an approval, there are at least `threshold` different names that each made one,
  -- and each required role is held by one of these names, then the status is `approved`.
  pub evaluate_complete :
      (at_time : String) (names : List String) {r : PolicyResult}
      → evaluate sha256 parse request decisions policy identities at_time ≡ ok r
      → ((d : Decision)
          → Valid sha256 parse request decisions policy identities d
          → d.verdict ≡ "approve")
      → policy.threshold ≤ length names
      → NoRepeat names
      → All (Backed sha256 parse request decisions policy identities "approve") names
      → Held identities names policy.require_distinct_roles
      → r.status ≡ approved
  unfolding roles_satisfied
  evaluate_complete at_time names {r} h unanimous enough distinct backed held =
      let o = evaluate-Opened sha256 parse request decisions policy identities at_time h in
      let listed =
        All-weaken _ (λ a. In a (with_verdict "approve" (latest_of o.counted))) names
          (Backed-In at_time o unanimous) backed in
      let bound =
        length-NoRepeat names (with_verdict "approve" (latest_of o.counted)) distinct listed in
      let roles =
        Held-all identities names (with_verdict "approve" (latest_of o.counted))
          policy.require_distinct_roles listed held in
      let silent = none_reject at_time o unanimous in
      elim o.concluded [
        | by_threshold s _ _ _ _ ↦ s
        | by_reject _ _ several _ ↦ absurd (ground (arith, several, ap length silent))
        | by_time _ _ unmet ↦ absurd (ground (arith, unmet, enough, bound, roles))
        | undecided _ _ unmet ↦ absurd (ground (arith, unmet, enough, bound, roles))
      ]
