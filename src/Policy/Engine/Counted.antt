-- ===== src/Policy/Engine/Counted.antt =====
-- Which decisions the loop of `evaluate` (src/approvo/policy/engine.py) counts.
use approvo.Base.{
  String, eq_iff, ◌≡◌, ◌≢◌, refl, sym, inl, inr, true, false, Option, none, some, List, [], ◌∷◌,
  All, All-weaken, In, subst, arith,
}
use approvo.Result.{ok, >>=-eq-ok, ok-injective, Result-cases}
use approvo.Clock.{Datetime, before_time, parse_rfc3339}
use approvo.Models.Request.{ApprovalRequest}
use approvo.Models.Decision.{Decision}
use approvo.Policy.Model.{Policy}
use approvo.Policy.Engine.{Reason, Identities, eligible, judge, tally, count_decisions}

module _ (parse : String → Option Datetime) where
  -- What makes a decision count: it is bound to this request, its approver is allowed and is not the requester where duties are separated,
  -- and it was made before the deadline.
  pub record Counts (request : ApprovalRequest) (policy : Policy) (identities : Identities)
      (deadline : Datetime) (context : String) (d : Decision) : Type 0 where
    pub bound : d.context_digest ≡ context
    pub allowed : eligible d.approver_id policy identities ≡ true
    pub other_person : policy.separation_of_duties ≡ true → d.approver_id ≢ request.requested_by
    pub decided : Datetime
    pub parsed : parse_rfc3339 parse d.decided_at ≡ ok decided
    pub in_time : before_time deadline decided ≡ ok false

module _ (parse : String → Option Datetime) (request : ApprovalRequest) (policy : Policy)
    (identities : Identities) (deadline : Datetime) (context : String) where
  judge-Counts :
      (d : Decision)
      → judge parse request policy identities deadline context d ≡ ok none
      → Counts parse request policy identities deadline context d
  unfolding judge
  judge-Counts d h = elim (Result-cases (parse_rfc3339 parse d.decided_at)) [
    | inr (x, unread) ↦ absurd (ground arith)
    | inl (t, read) ↦ record {
      bound = (eq_iff d.context_digest context).0 (ground arith);
      allowed = ground arith;
      other_person = λ sod same. ground (arith, eq_iff d.approver_id request.requested_by);
      decided = t;
      parsed = read;
      in_time = ground arith;
    }
  ]

  Counts-judge :
      (d : Decision)
      → Counts parse request policy identities deadline context d
      → judge parse request policy identities deadline context d ≡ ok none
  unfolding judge
  Counts-judge d c = ground (
    arith,
    c.parsed,
    c.in_time,
    c.other_person,
    eq_iff d.context_digest context,
    eq_iff d.approver_id request.requested_by,
  )

  abbrev Counted : List Decision → Decision → Type 0
  Counted ds d = Counts parse request policy identities deadline context d × In d ds

  tally_sound :
      (d : Decision) (ds : List Decision) (verdict : Option Reason)
      (rest : List Decision × List Reason)
      → judge parse request policy identities deadline context d ≡ ok verdict
      → All (Counted ds) rest.0
      → All (Counted (d ∷ ds)) (tally d verdict rest).0
  unfolding tally
  tally_sound d ds none (c, rs) j p = (
    (judge-Counts d j, inl refl),
    All-weaken (Counted ds) (Counted (d ∷ ds)) c (λ e h. (h.0, inr h.1)) p,
  )
  tally_sound d ds (some r) (c, rs) j p =
      All-weaken (Counted ds) (Counted (d ∷ ds)) c (λ e h. (h.0, inr h.1)) p

  -- Every decision that the loop counts is one of the given decisions and meets the conditions.
  pub count_decisions_sound :
      (ds : List Decision) {t : List Decision × List Reason}
      → count_decisions parse request policy identities deadline context ds ≡ ok t
      → All (Counted ds) t.0
  unfolding count_decisions
  count_decisions_sound [] h = subst (λ t. All (Counted []) t.0) (ok-injective h) tt
  count_decisions_sound (d ∷ ds) h =
      let (verdict, judged, h') =
        >>=-eq-ok (judge parse request policy identities deadline context d) _ h in
      let (rest, counted, made) =
        >>=-eq-ok (count_decisions parse request policy identities deadline context ds) _ h' in
      subst (λ t. All (Counted (d ∷ ds)) t.0) (ok-injective made)
        (tally_sound d ds verdict rest judged (count_decisions_sound ds counted))

  tally-here :
      (d : Decision) (verdict : Option Reason) (rest : List Decision × List Reason)
      → judge parse request policy identities deadline context d ≡ ok verdict
      → Counts parse request policy identities deadline context d
      → In d (tally d verdict rest).0
  unfolding tally
  tally-here d none (c, rs) j k = inl refl
  tally-here d (some r) (c, rs) j k = cc (Counts-judge d k)

  tally-there :
      (d e : Decision) (verdict : Option Reason) (rest : List Decision × List Reason)
      → In e rest.0
      → In e (tally d verdict rest).0
  unfolding tally
  tally-there d e none (c, rs) i = inr i
  tally-there d e (some r) (c, rs) i = i

  -- Every given decision that meets the conditions is counted.
  pub count_decisions_complete :
      (ds : List Decision) (e : Decision) {t : List Decision × List Reason}
      → count_decisions parse request policy identities deadline context ds ≡ ok t
      → In e ds
      → Counts parse request policy identities deadline context e
      → In e t.0
  unfolding count_decisions
  count_decisions_complete [] e h i k = absurd i
  count_decisions_complete (d ∷ ds) e h i k =
      let (verdict, judged, h') =
        >>=-eq-ok (judge parse request policy identities deadline context d) _ h in
      let (rest, counted, made) =
        >>=-eq-ok (count_decisions parse request policy identities deadline context ds) _ h' in
      subst (λ t. In e t.0) (ok-injective made)
        (elim i [
          | inl same ↦
              subst (λ x. In x (tally d verdict rest).0) (sym same)
                (tally-here d verdict rest judged
                  (subst (Counts parse request policy identities deadline context) same k))
          | inr there ↦ tally-there d e verdict rest (count_decisions_complete ds e counted there k)
        ])
