-- ===== src/Models/Views.antt =====
-- `RequestView` and `DecisionChallenge` of src/approvo/models.py: what a front end is shown and what an approver's client signs.
use approvo.Base.{ℕ, pos, String, ◌≡◌, Option, none, List, [], ◌∷◌, arith}
use approvo.Result.{Result, ok, ◌>>=◌}
use approvo.Json.{Value, int, str, dict, str_list, Fields, fields}
use approvo.Json.Read.{required, optional, as_text, as_nat, as_dict, as_texts, as_texts-str_list}

pub record RequestView : Type 0 where
  pub request_id : String
  pub kind : String
  pub status : String
  pub requested_by : String
  pub policy_id : String
  pub subject : Fields
  pub created_at : String
  pub not_valid_after : String
  pub updated_at : String
  pub approvals : ℕ
  pub threshold : ℕ
  pub approvers : List String
  pub pending_for : List String
  pub last_seq : ℕ

unfoldable pub view_dict : RequestView → Value
view_dict v = dict (
    fields (
      ("request_id", str v.request_id)
      ∷ ("kind", str v.kind)
      ∷ ("status", str v.status)
      ∷ ("requested_by", str v.requested_by)
      ∷ ("policy_id", str v.policy_id)
      ∷ ("subject", dict v.subject)
      ∷ ("created_at", str v.created_at)
      ∷ ("not_valid_after", str v.not_valid_after)
      ∷ ("updated_at", str v.updated_at)
      ∷ ("approvals", int (pos v.approvals))
      ∷ ("threshold", int (pos v.threshold))
      ∷ ("approvers", str_list v.approvers)
      ∷ ("pending_for", str_list v.pending_for)
      ∷ ("last_seq", int (pos v.last_seq))
      ∷ []))

unfoldable pub read_view : Value → Result RequestView
read_view v = do
  d ← as_dict v
  request_id ← required as_text "request_id" d
  kind ← required as_text "kind" d
  status ← required as_text "status" d
  requested_by ← required as_text "requested_by" d
  policy_id ← required as_text "policy_id" d
  subject ← required as_dict "subject" d
  created_at ← required as_text "created_at" d
  not_valid_after ← required as_text "not_valid_after" d
  updated_at ← required as_text "updated_at" d
  approvals ← required as_nat "approvals" d
  threshold ← required as_nat "threshold" d
  approvers ← optional as_texts "approvers" [] d
  pending_for ← optional as_texts "pending_for" [] d
  last_seq ← optional as_nat "last_seq" 0 d
  ok (record {
    request_id = request_id;
    kind = kind;
    status = status;
    requested_by = requested_by;
    policy_id = policy_id;
    subject = subject;
    created_at = created_at;
    not_valid_after = not_valid_after;
    updated_at = updated_at;
    approvals = approvals;
    threshold = threshold;
    approvers = approvers;
    pending_for = pending_for;
    last_seq = last_seq;
  })

-- A view that `RequestView.to_dict` has written is read back by `RequestView.from_dict` as it was.
pub view_round_trip : (v : RequestView) → read_view (view_dict v) ≡ ok v
unfolding view_dict read_view
view_round_trip v = rw (as_texts-str_list v.approvers, as_texts-str_list v.pending_for)

-- Filters of a query; an empty status filter stands for None too, which the stores take alike.
pub record RequestQuery : Type 0 where
  pub status : List String
  pub kind : Option String
  pub requested_by : Option String
  pub awaiting : Option String
  pub subject_match : Option (List (String × Value))
  pub limit : ℕ
  pub cursor : Option String

-- `RequestQuery()`
abbrev pub default_query : RequestQuery
default_query = record {
  status = [];
  kind = none;
  requested_by = none;
  awaiting = none;
  subject_match = none;
  limit = 50;
  cursor = none;
}

pub record Page : Type 0 where
  pub items : List RequestView
  pub next_cursor : Option String

pub record DecisionChallenge : Type 0 where
  pub request_id : String
  pub approver_id : String
  pub verdict : String
  pub payload_type : String
  pub payload_b64 : String
  pub pae_b64 : String
  pub decided_at : String
  pub expires_at : String
  pub idempotency_key : String

unfoldable pub challenge_dict : DecisionChallenge → Value
challenge_dict c = dict (
    fields (
      ("request_id", str c.request_id)
      ∷ ("approver_id", str c.approver_id)
      ∷ ("verdict", str c.verdict)
      ∷ ("payload_type", str c.payload_type)
      ∷ ("payload_b64", str c.payload_b64)
      ∷ ("pae_b64", str c.pae_b64)
      ∷ ("decided_at", str c.decided_at)
      ∷ ("expires_at", str c.expires_at)
      ∷ ("idempotency_key", str c.idempotency_key)
      ∷ []))

unfoldable pub read_challenge : Value → Result DecisionChallenge
read_challenge v = do
  d ← as_dict v
  request_id ← required as_text "request_id" d
  approver_id ← required as_text "approver_id" d
  verdict ← required as_text "verdict" d
  payload_type ← required as_text "payload_type" d
  payload_b64 ← required as_text "payload_b64" d
  pae_b64 ← required as_text "pae_b64" d
  decided_at ← required as_text "decided_at" d
  expires_at ← required as_text "expires_at" d
  idempotency_key ← required as_text "idempotency_key" d
  ok (record {
    request_id = request_id;
    approver_id = approver_id;
    verdict = verdict;
    payload_type = payload_type;
    payload_b64 = payload_b64;
    pae_b64 = pae_b64;
    decided_at = decided_at;
    expires_at = expires_at;
    idempotency_key = idempotency_key;
  })

-- A challenge that `DecisionChallenge.to_dict` has written is read back by `DecisionChallenge.from_dict` as it was.
pub challenge_round_trip : (c : DecisionChallenge) → read_challenge (challenge_dict c) ≡ ok c
unfolding challenge_dict read_challenge
challenge_round_trip c = ground arith
