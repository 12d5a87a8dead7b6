-- ===== src/Projection.antt =====
-- src/approvo/projection.py: the view of a request that a screen shows.
pub mod Eligible
use approvo.Base.{
  ℕ, String, str_eq, contains, Bytes, Bool, true, false, not, ◌&&◌, ◌||◌, List, [], ◌∷◌, map, keep,
  length, if◌then◌else◌,
}
use approvo.Result.{Result, ok, ◌>>=◌}
use approvo.Models.Request.{Identity, ApprovalRequest}
use approvo.Models.Request
use approvo.Models.Decision.{Decision}
use approvo.Models.Views.{RequestView}
use approvo.Policy.Model.{Policy}
use approvo.Policy.Engine.{
  Status, pending, approved, rejected, expired, Identities, any_role, sorted_names,
}
use approvo.Policy.Engine.Wording.{status_text}
use approvo.Service.Status.{StatusRecord}

-- Whether the loop of `eligible_approvers` takes an identity.
abbrev pub may_vote : ApprovalRequest → Policy → Identity → Bool
may_vote request policy ident =
    not (policy.separation_of_duties && str_eq ident.id request.requested_by)
    && (contains policy.allowed_approvers ident.id || any_role policy ident.roles)

-- The loop, over `identities.values()`.
abbrev pub voters : ApprovalRequest → Policy → Identities → List String
voters request policy [] = []
voters request policy ((k, ident) ∷ people) =
    let rest = voters request policy people in
    if may_vote request policy ident then ident.id ∷ rest else rest

unfoldable pub eligible_approvers : ApprovalRequest → Policy → Identities → List String
eligible_approvers request policy identities = sorted_names (voters request policy identities)

abbrev decided_by : List Decision → List String
decided_by ds = map (λ (d : Decision). d.approver_id) ds

abbrev shown_approvals : Status → List String → ℕ
shown_approvals rejected names = 0
shown_approvals s names = length names

-- `a for a in eligible if a not in decided`, while the request is pending
abbrev shown_pending : Status → List String → List String → List String
shown_pending pending eligible decided = keep (λ a. not (contains decided a)) eligible
shown_pending s eligible decided = []

module _ (sha256 : Bytes → Bytes) where
  unfoldable pub build_view : StatusRecord → Policy → Identities → ℕ → String → Result RequestView
  unfolding eligible_approvers
  build_view r policy identities last_seq updated_at = do
    id ← Request.request_id sha256 r.request
    ok (record {
      request_id = id;
      kind = r.request.kind;
      status = status_text r.policy_result.status;
      requested_by = r.request.requested_by;
      policy_id = r.request.policy_id;
      subject = r.request.subject;
      created_at = r.request.created_at;
      not_valid_after = r.request.not_valid_after;
      updated_at = updated_at;
      approvals = shown_approvals r.policy_result.status r.policy_result.satisfied_by;
      threshold = policy.threshold;
      approvers = r.policy_result.satisfied_by;
      pending_for =
          shown_pending r.policy_result.status (eligible_approvers r.request policy identities)
            (decided_by r.decisions);
      last_seq = last_seq;
    })
