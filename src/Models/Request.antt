-- ===== src/Models/Request.antt =====
-- `Identity` and `ApprovalRequest` of src/approvo/models.py.
use approvo.Base.{String, Bytes, ◌≡◌, List, [], ◌∷◌, ◌++◌, arith}
use approvo.Result.{Result, ok, ◌>>=◌}
use approvo.Json.{Value, str, dict, Fields, fields}
use approvo.Json.Read.{required, optional, as_text, as_dict}
use approvo.Hash.{canonical_hash}

pub record Identity : Type 0 where
  pub id : String
  pub roles : List String

abbrev pub request_schema : String
request_schema = "approvo/request/v1"

pub record ApprovalRequest : Type 0 where
  pub kind : String
  pub subject : Fields
  pub requested_by : String
  pub policy_id : String
  pub policy_digest : String
  pub created_at : String
  pub not_valid_after : String
  pub nonce : String
  pub schema : String

-- The pairs of `identity_dict()`.
abbrev pub identity_pairs : ApprovalRequest → List (String × Value)
identity_pairs r =
    ("schema", str r.schema)
    ∷ ("kind", str r.kind)
    ∷ ("subject", dict r.subject)
    ∷ ("requested_by", str r.requested_by)
    ∷ ("policy_id", str r.policy_id)
    ∷ ("policy_digest", str r.policy_digest)
    ∷ ("not_valid_after", str r.not_valid_after)
    ∷ ("nonce", str r.nonce)
    ∷ []

abbrev pub identity_dict : ApprovalRequest → Value
identity_dict r = dict (fields (identity_pairs r))

-- What decisions bind to: the identity and the time of creation.
abbrev pub context_dict : ApprovalRequest → Value
context_dict r = dict (fields (identity_pairs r ++ ("created_at", str r.created_at) ∷ []))

unfoldable pub from_dict : Value → Result ApprovalRequest
from_dict v = do
  d ← as_dict v
  kind ← required as_text "kind" d
  subject ← required as_dict "subject" d
  requested_by ← required as_text "requested_by" d
  policy_id ← required as_text "policy_id" d
  policy_digest ← required as_text "policy_digest" d
  created_at ← required as_text "created_at" d
  not_valid_after ← required as_text "not_valid_after" d
  nonce ← optional as_text "nonce" "" d
  schema ← optional as_text "schema" request_schema d
  ok (record {
    kind = kind;
    subject = subject;
    requested_by = requested_by;
    policy_id = policy_id;
    policy_digest = policy_digest;
    created_at = created_at;
    not_valid_after = not_valid_after;
    nonce = nonce;
    schema = schema;
  })

module _ (sha256 : Bytes → Bytes) where
  unfoldable pub request_id : ApprovalRequest → Result String
  request_id r = canonical_hash sha256 (identity_dict r)

  unfoldable pub context_digest : ApprovalRequest → Result String
  context_digest r = canonical_hash sha256 (context_dict r)

  unfoldable pub to_dict : ApprovalRequest → Result Value
  to_dict r = do
    id ← request_id r
    ok (
        dict (
          fields
            (identity_pairs r ++ ("created_at", str r.created_at) ∷ ("request_id", str id) ∷ [])))

  -- Reading back what `to_dict` has written gives the request again.
  pub request_round_trip : (r : ApprovalRequest) {v : Value} → to_dict r ≡ ok v → from_dict v ≡ ok r
  unfolding to_dict from_dict
  request_round_trip r {v} h = ground arith
