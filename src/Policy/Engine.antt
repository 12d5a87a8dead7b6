-- ===== src/Policy/Engine.antt =====
-- `evaluate` of src/approvo/policy/engine.py: from the request, the decisions and the policy to a status. The lines of the trace
-- are values of `Reason`, worded in Wording.
pub mod Counted
pub mod Latest
pub mod Names
pub mod Outcome
pub mod Approved
pub mod Settled
pub mod Window
pub mod Wording
use approvo.Base.{
  ℕ, ◌*◌, String, append_text, str_eq, le_text, contains, Bytes, Bool, true, false, not, ◌&&◌, ◌||◌,
  Option, none, some, List, [], ◌∷◌, ◌++◌, map, ltb, leb, if◌then◌else◌, length, all, keep, Dict,
  lookup, insert, key,
}
use approvo.Result.{Result, ok, err, ◌>>=◌}
use approvo.Clock.{Datetime, before_time, add_delta, parse_rfc3339}
use approvo.Models.Request.{Identity, ApprovalRequest, context_digest}
use approvo.Models.Decision.{Decision}
use approvo.Policy.Model.{Policy}

pub data Status : Type 0 where
  pending approved rejected expired : Status

pub data Reason : Type 0 where
  other_body not_allowed requester too_late : String → Reason
  rejected_by : List String → Reason
  threshold_met : ℕ → List String → Reason
  window_closed : String → Reason
  approvals : ℕ → ℕ → List String → Reason

pub record PolicyResult : Type 0 where
  pub status : Status
  pub satisfied_by : List String
  pub reasons : List Reason

abbrev pub Identities : Type 0
Identities = Dict Identity

-- `any(f"role:{r}" in policy.allowed_approvers for r in ident.roles)`
abbrev pub any_role : Policy → List String → Bool
any_role policy [] = false
any_role policy (r ∷ rs) =
    contains policy.allowed_approvers (append_text "role:" r) || any_role policy rs

unfoldable pub eligible : String → Policy → Identities → Bool
eligible approver_id policy identities =
    contains policy.allowed_approvers approver_id || (elim (lookup approver_id identities) [
      | none ↦ false
      | some ident ↦ any_role policy ident.roles
    ])

-- `a in identities and required in identities[a].roles`
abbrev pub holds_role : Identities → String → String → Bool
holds_role identities required a = elim (lookup a identities) [
  | none ↦ false
  | some ident ↦ contains ident.roles required
]

abbrev pub any_holder : Identities → String → List String → Bool
any_holder identities required [] = false
any_holder identities required (a ∷ as') =
    holds_role identities required a || any_holder identities required as'

unfoldable pub roles_satisfied : List String → Policy → Identities → Bool
roles_satisfied approver_ids policy identities =
    all (λ required. any_holder identities required approver_ids) policy.require_distinct_roles

-- Python's `min(s, t)`
unfoldable pub earlier : Datetime → Datetime → Result Datetime
earlier s t = do sooner ← before_time t s; ok (if sooner then t else s)

-- `sorted(names)`
unfoldable pub insert_sorted : String → List String → List String
insert_sorted a [] = a ∷ []
insert_sorted a (b ∷ bs) =
    let rest = insert_sorted a bs in if le_text a b then a ∷ b ∷ bs else b ∷ rest

unfoldable pub sorted_names : List String → List String
unfolding insert_sorted
sorted_names [] = []
sorted_names (a ∷ l) = insert_sorted a (sorted_names l)

-- `sorted(counted, key=lambda d: d.decided_at)`, which is stable
unfoldable pub insert_decision : Decision → List Decision → List Decision
insert_decision d [] = d ∷ []
insert_decision d (e ∷ es) =
    let rest = insert_decision d es in
    if le_text d.decided_at e.decided_at then d ∷ e ∷ es else e ∷ rest

unfoldable pub sort_decisions : List Decision → List Decision
unfolding insert_decision
sort_decisions [] = []
sort_decisions (d ∷ ds) = insert_decision d (sort_decisions ds)

-- `for d in ...: latest[d.approver_id] = d`
unfoldable pub latest_from : Dict Decision → List Decision → Dict Decision
latest_from latest [] = latest
latest_from latest (d ∷ ds) = latest_from (insert d.approver_id d latest) ds

unfoldable pub latest_of : List Decision → Dict Decision
unfolding sort_decisions latest_from
latest_of counted = latest_from [] (sort_decisions counted)

-- `[a for a, d in latest.items() if d.verdict == verdict]`
unfoldable pub with_verdict : String → Dict Decision → List String
with_verdict verdict [] = []
with_verdict verdict ((a, d) ∷ latest) =
    let rest = with_verdict verdict latest in if str_eq d.verdict verdict then a ∷ rest else rest

-- One turn of the loop: what it adds to `counted` and to `reasons`.
unfoldable pub tally :
    Decision → Option Reason → List Decision × List Reason → List Decision × List Reason
tally d none (counted, reasons) = (d ∷ counted, reasons)
tally d (some r) (counted, reasons) = (counted, r ∷ reasons)

-- What follows the loop: the status from the latest decision of each approver. `closed` is the test
-- `now > deadline`, which is made only where it is reached.
unfoldable pub conclude :
    ApprovalRequest
    → Policy
    → Identities
    → Result Bool
    → Dict Decision
    → List Reason
    → Result PolicyResult
conclude request policy identities closed latest reasons =
    let rejecters = with_verdict "reject" latest in
    let approvers = with_verdict "approve" latest in
    let roles_ok = roles_satisfied approvers policy identities in
    if policy.reject_is_terminal && ltb 0 (length rejecters)
    then ok (record {
      status = rejected;
      satisfied_by = sorted_names rejecters;
      reasons = reasons ++ rejected_by (sorted_names rejecters) ∷ [];
    })
    else if leb policy.threshold (length approvers) && roles_ok
    then ok (record {
      status = approved;
      satisfied_by = sorted_names approvers;
      reasons = reasons ++ threshold_met policy.threshold (sorted_names approvers) ∷ [];
    })
    else do
      is_closed ← closed
      ok (
          if is_closed
          then record {
            status = expired;
            satisfied_by = sorted_names approvers;
            reasons = reasons ++ window_closed request.not_valid_after ∷ [];
          }
          else record {
            status = pending;
            satisfied_by = sorted_names approvers;
            reasons =
                reasons
                ++ approvals (length approvers) policy.threshold
                    (if roles_ok then [] else policy.require_distinct_roles)
                  ∷ [];
          })

module _ (parse : String → Option Datetime) where
  unfoldable pub deadline_of : ApprovalRequest → Policy → Result Datetime
  unfolding earlier
  deadline_of request policy = do
    closes ← parse_rfc3339 parse request.not_valid_after
    created ← parse_rfc3339 parse request.created_at
    aged ← add_delta created (policy.max_age_seconds * 1000000)
    earlier closes aged

  -- The tests of the loop on one decision, in their order; `none` if it counts.
  unfoldable pub judge :
      ApprovalRequest → Policy → Identities → Datetime → String → Decision → Result (Option Reason)
  judge request policy identities deadline context d =
      if not (str_eq d.context_digest context)
      then ok (some (other_body d.approver_id))
      else if not (eligible d.approver_id policy identities)
      then ok (some (not_allowed d.approver_id))
      else if policy.separation_of_duties && str_eq d.approver_id request.requested_by
      then ok (some (requester d.approver_id))
      else do
        decided ← parse_rfc3339 parse d.decided_at
        late ← before_time deadline decided
        ok (if late then some (too_late d.approver_id) else none)

  unfoldable pub count_decisions :
      ApprovalRequest
      → Policy
      → Identities
      → Datetime
      → String
      → List Decision
      → Result (List Decision × List Reason)
  unfolding tally
  count_decisions request policy identities deadline context [] = ok ([], [])
  count_decisions request policy identities deadline context (d ∷ ds) = do
    verdict ← judge request policy identities deadline context d
    rest ← count_decisions request policy identities deadline context ds
    ok (tally d verdict rest)

module _ (sha256 : Bytes → Bytes) (parse : String → Option Datetime) where
  unfoldable pub evaluate :
      ApprovalRequest → List Decision → Policy → Identities → String → Result PolicyResult
  unfolding deadline_of count_decisions conclude
  evaluate request decisions policy identities at_time = do
    now ← parse_rfc3339 parse at_time
    deadline ← deadline_of parse request policy
    context ← context_digest sha256 request
    counted ← count_decisions parse request policy identities deadline context decisions
    conclude request policy identities (before_time deadline now) (latest_of counted.0) counted.1
