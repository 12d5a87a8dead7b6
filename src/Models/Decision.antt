-- ===== src/Models/Decision.antt =====
-- `Decision` of src/approvo/models.py.
use approvo.Base.{String, ◌≡◌, Option, none, some, List, [], ◌∷◌, arith}
use approvo.Result.{Result, ok, ◌>>=◌}
use approvo.Json.{Value, str, dict, Fields, fields}
use approvo.Json.Read.{required, optional, as_text, as_dict, as_opt_dict}

abbrev pub decision_payload_type : String
decision_payload_type = "application/vnd.approvo.decision+json"

abbrev pub decision_schema : String
decision_schema = "approvo/decision/v1"

pub record Decision : Type 0 where
  pub request_id : String
  pub context_digest : String
  pub verdict : String
  pub approver_id : String
  pub decided_at : String
  pub comment : String
  pub idempotency_key : String
  pub authn : Option Fields
  pub schema : String

-- `if self.authn is not None: d["authn"] = self.authn`
abbrev pub authn_pairs : Option Fields → List (String × Value)
authn_pairs none = []
authn_pairs (some fs) = ("authn", dict fs) ∷ []

unfoldable pub to_dict : Decision → Value
to_dict d = dict (
    fields (
      ("schema", str d.schema)
      ∷ ("request_id", str d.request_id)
      ∷ ("context_digest", str d.context_digest)
      ∷ ("verdict", str d.verdict)
      ∷ ("approver_id", str d.approver_id)
      ∷ ("decided_at", str d.decided_at)
      ∷ ("comment", str d.comment)
      ∷ ("idempotency_key", str d.idempotency_key)
      ∷ authn_pairs d.authn))

unfoldable pub from_dict : Value → Result Decision
from_dict v = do
  d ← as_dict v
  request_id ← required as_text "request_id" d
  context_digest ← required as_text "context_digest" d
  verdict ← required as_text "verdict" d
  approver_id ← required as_text "approver_id" d
  decided_at ← required as_text "decided_at" d
  comment ← optional as_text "comment" "" d
  idempotency_key ← optional as_text "idempotency_key" "" d
  authn ← optional as_opt_dict "authn" none d
  schema ← optional as_text "schema" decision_schema d
  ok (record {
    request_id = request_id;
    context_digest = context_digest;
    verdict = verdict;
    approver_id = approver_id;
    decided_at = decided_at;
    comment = comment;
    idempotency_key = idempotency_key;
    authn = authn;
    schema = schema;
  })

-- Reading back what `to_dict` has written gives the decision again, with or without `authn`.
pub decision_round_trip : (d : Decision) → from_dict (to_dict d) ≡ ok d
unfolding to_dict from_dict
decision_round_trip d = ground arith
