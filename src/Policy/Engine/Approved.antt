-- ===== src/Policy/Engine/Approved.antt =====
-- `evaluate` (src/approvo/policy/engine.py) when it approves or rejects, and the decisions it was given.
use approvo.Base.{
  lookup-All, ◌≤◌, String, Bytes, ◌≡◌, ◌≢◌, refl, sym, ap, ◌∙◌, true, false, Option, List, All,
  All-weaken, In, length, subst, ltb, arith,
}
use approvo.Result.{ok, >>=-eq-ok, ok-injective}
use approvo.Clock.{Datetime, before_time, parse_rfc3339}
use approvo.Models.Request.{ApprovalRequest, context_digest}
use approvo.Models.Decision.{Decision}
use approvo.Policy.Model.{Policy}
use approvo.Policy.Engine.{
  approved, rejected, PolicyResult, Reason, Identities, sorted_names, with_verdict, latest_of,
  deadline_of, count_decisions, evaluate,
}
use approvo.Policy.Engine.Counted.{Counts, count_decisions_sound, count_decisions_complete}
use approvo.Policy.Engine.Latest.{NotLater, latest_of-IsDict, latest_of-All, latest_of-last}
use approvo.Policy.Engine.Names.{
  NoRepeat, Voted, with_verdict-All, with_verdict-NoRepeat, with_verdict_complete, sorted_names-All,
  sorted_names-NoRepeat, length-sorted_names,
}
use approvo.Policy.Engine.Outcome.{
  Concluded, by_reject, by_threshold, by_time, undecided, conclude-Concluded, empty-In, Held,
  roles_satisfied-Held,
}

module _ (sha256 : Bytes → Bytes) (parse : String → Option Datetime) (request : ApprovalRequest)
    (decisions : List Decision) (policy : Policy) (identities : Identities) where
  -- The decision counts, for the deadline and the digest that `evaluate` computes.
  pub record Valid (d : Decision) : Type 0 where
    pub given : In d decisions
    pub deadline : Datetime
    pub closes : deadline_of parse request policy ≡ ok deadline
    pub context : String
    pub digest : context_digest sha256 request ≡ ok context
    pub counts : Counts parse request policy identities deadline context d

  -- `a` made a valid decision with the verdict.
  pub record Backed (verdict a : String) : Type 0 where
    pub decision : Decision
    pub valid : Valid decision
    pub by : decision.approver_id ≡ a
    pub says : decision.verdict ≡ verdict

  -- The approver made a valid decision that is no rejection and is, by the text of its time, not before this one.
  pub record Superseded (d : Decision) : Type 0 where
    pub decision : Decision
    pub valid : Valid decision
    pub by : decision.approver_id ≡ d.approver_id
    pub says : decision.verdict ≢ "reject"
    pub later : NotLater d decision

  pub record Approval (r : PolicyResult) : Type 0 where
    pub enough : policy.threshold ≤ length r.satisfied_by
    pub distinct : NoRepeat r.satisfied_by
    pub backed : All (Backed "approve") r.satisfied_by
    pub roles : Held identities r.satisfied_by policy.require_distinct_roles
    pub unopposed :
        policy.reject_is_terminal ≡ true
        → (d : Decision) → Valid d
        → d.verdict ≡ "reject"
        → Superseded d

  -- What `evaluate` computed on the way.
  pub record Opened (at_time : String) (r : PolicyResult) : Type 0 where
    pub now : Datetime
    pub read : parse_rfc3339 parse at_time ≡ ok now
    pub deadline : Datetime
    pub closes : deadline_of parse request policy ≡ ok deadline
    pub context : String
    pub digest : context_digest sha256 request ≡ ok context
    pub counted : List Decision
    pub ignored : List Reason
    pub tallied :
        count_decisions parse request policy identities deadline context decisions
        ≡ ok (counted, ignored)
    pub concluded : Concluded policy identities (before_time deadline now) (latest_of counted) r

  pub evaluate-Opened :
      (at_time : String) {r : PolicyResult}
      → evaluate sha256 parse request decisions policy identities at_time ≡ ok r
      → Opened at_time r
  unfolding evaluate
  evaluate-Opened at_time {r} h =
      let (now, read, h1) = >>=-eq-ok (parse_rfc3339 parse at_time) _ h in
      let (deadline, closes, h2) = >>=-eq-ok (deadline_of parse request policy) _ h1 in
      let (context, digest, h3) = >>=-eq-ok (context_digest sha256 request) _ h2 in
      let (counted, tallied, h4) =
        >>=-eq-ok (count_decisions parse request policy identities deadline context decisions) _
          h3 in
      record {
        now = now;
        read = read;
        deadline = deadline;
        closes = closes;
        context = context;
        digest = digest;
        counted = counted.0;
        ignored = counted.1;
        tallied = tallied;
        concluded =
            conclude-Concluded request policy identities (before_time deadline now)
              (latest_of counted.0) counted.1 h4;
      }

  abbrev pub Entered : String × Decision → Type 0
  Entered e = (e.1.approver_id ≡ e.0) × Valid e.1

  module _ (at_time : String) {r : PolicyResult} (o : Opened at_time r) where
    pub latest-Entered : All Entered (latest_of o.counted)
    latest-Entered = latest_of-All Entered o.counted (
        All-weaken _ (λ d. Entered (d.approver_id, d)) o.counted
          (λ d h. (
            refl,
            record {
              given = h.1;
              deadline = o.deadline;
              closes = o.closes;
              context = o.context;
              digest = o.digest;
              counts = h.0;
            },
          ))
          (count_decisions_sound parse request policy identities o.deadline o.context decisions
            o.tallied))

    names-Backed :
        (v : String) → All (Backed v) (sorted_names (with_verdict v (latest_of o.counted)))
    names-Backed v = sorted_names-All (Backed v) (with_verdict v (latest_of o.counted)) (
        All-weaken (Voted Entered v) (Backed v) _
          (λ a h.
            let (d, entered, says) = h in
            record { decision = d; valid = entered.1; by = entered.0; says = says })
          (with_verdict-All Entered v (latest_of o.counted) latest-Entered))

    names-NoRepeat : (v : String) → NoRepeat (sorted_names (with_verdict v (latest_of o.counted)))
    names-NoRepeat v =
        sorted_names-NoRepeat (with_verdict v (latest_of o.counted))
          (with_verdict-NoRepeat v (latest_of o.counted) (latest_of-IsDict o.counted))

    pub Valid-counted : (d : Decision) → Valid d → In d o.counted
    Valid-counted d v =
        let same_deadline : v.deadline ≡ o.deadline = ok-injective (sym v.closes ∙ o.closes) in
        let same_context : v.context ≡ o.context = ok-injective (sym v.digest ∙ o.digest) in
        count_decisions_complete parse request policy identities o.deadline o.context decisions d
          o.tallied v.given
          (subst (λ t. Counts parse request policy identities t o.context d) same_deadline
            (subst (λ c. Counts parse request policy identities v.deadline c d) same_context
              v.counts))

    unopposed-Superseded :
        ltb 0 (length (with_verdict "reject" (latest_of o.counted))) ≡ false
        → (d : Decision) → Valid d
        → Superseded d
    unopposed-Superseded none_left d v =
        let (e, found, later) = latest_of-last o.counted d (Valid-counted d v) in
        let entered = lookup-All Entered d.approver_id (latest_of o.counted) found latest-Entered in
        record {
          decision = e;
          valid = entered.1;
          by = entered.0;
          later = later;
          says = λ says.
              empty-In d.approver_id _ none_left
                (with_verdict_complete "reject" d.approver_id (latest_of o.counted) found says);
        }

  -- If `evaluate` returns `approved`, then at least `threshold` different approvers are listed, each made a valid decision to
  -- approve (given, bound to the request, by an eligible person who is not the requester where duties are separated, before the
  -- deadline), each required role is held by one of them, and where rejections are terminal, the approver of every valid
  -- rejection also made a valid decision of another verdict whose text of time is not less.
  pub evaluate-approved :
      (at_time : String) {r : PolicyResult}
      → evaluate sha256 parse request decisions policy identities at_time ≡ ok r
      → r.status ≡ approved
      → Approval r
  evaluate-approved at_time {r} h s =
      let o = evaluate-Opened at_time h in
      elim o.concluded [
        | by_reject t _ _ _ ↦ cc
        | by_time t _ _ ↦ cc
        | undecided t _ _ ↦ cc
        | by_threshold _ unstopped met roles listed ↦ record {
          enough = ground (
            arith,
            ap length listed,
            length-sorted_names (with_verdict "approve" (latest_of o.counted)),
            met,
          );
          distinct = subst NoRepeat (sym listed) (names-NoRepeat at_time o "approve");
          backed = subst (All (Backed "approve")) (sym listed) (names-Backed at_time o "approve");
          roles =
              subst (λ names. Held identities names policy.require_distinct_roles) (sym listed)
                (roles_satisfied-Held _ policy identities roles);
          unopposed = λ terminal d v says.
              unopposed-Superseded at_time o (ground (arith, unstopped, terminal)) d v;
        }
      ]

  -- If `evaluate` returns `rejected`, then the policy makes rejections terminal, at least one name is listed, no name twice, and
  -- each of them made a valid decision to reject.
  pub evaluate-rejected :
      (at_time : String) {r : PolicyResult}
      → evaluate sha256 parse request decisions policy identities at_time ≡ ok r
      → r.status ≡ rejected
      → (policy.reject_is_terminal ≡ true)
        × (1 ≤ length r.satisfied_by)
        × NoRepeat r.satisfied_by
        × All (Backed "reject") r.satisfied_by
  evaluate-rejected at_time {r} h s =
      let o = evaluate-Opened at_time h in
      elim o.concluded [
        | by_threshold t _ _ _ _ ↦ cc
        | by_time t _ _ ↦ cc
        | undecided t _ _ ↦ cc
        | by_reject _ terminal several listed ↦ (
          terminal,
          ground (
            arith,
            ap length listed,
            length-sorted_names (with_verdict "reject" (latest_of o.counted)),
            several,
          ),
          subst NoRepeat (sym listed) (names-NoRepeat at_time o "reject"),
          subst (All (Backed "reject")) (sym listed) (names-Backed at_time o "reject"),
        )
      ]
