-- ===== src/Service/Decide.antt =====
-- The calls of src/approvo/service.py that sign: `submit_decision` with a signer, `prepare_decision` for a client that signs, and
-- `checkpoint`. A signer is its key id and what it signs bytes with; there is no signing service here.
pub mod Publish
use approvo.Base.{
  ℕ, String, is_empty, append_text, Bytes, Option, none, some, List, [], ◌∷◌, if◌then◌else◌,
}
use approvo.Result.{Result, ok, err, signature_invalid}
use approvo.Result
use approvo.Json.{Value, str, list, Fields, fields}
use approvo.Json.Read.{as_dict, dict_list}
use approvo.Json.Canonical.{canonical_bytes}
use approvo.Clock.{Datetime, add_delta, parse_rfc3339, to_rfc3339}
use approvo.Models.Request.{ApprovalRequest, context_digest}
use approvo.Models.Decision.{decision_payload_type, Decision, decision_schema}
use approvo.Models.Decision
use approvo.Models.Checkpoint.{Checkpoint}
use approvo.Models.Checkpoint
use approvo.Models.Views.{DecisionChallenge}
use approvo.Crypto.Envelope.{pae, wrap}
use approvo.Checkpoint.{build_checkpoint, sign_checkpoint}
use approvo.Store.Events.{leaf_hashes, latest_checkpoint}
use approvo.Service.Monad.{Draft, Service, Call, pure, raise, lift, now, ◌>>=◌}
use approvo.Service.Append.{append_event}
use approvo.Service.Status.{StatusRecord, require_request}
use approvo.Service.Submit.{reads, submit_signed_decision}

abbrev pub Signer : Type 0
Signer = String × (Bytes → Bytes)

-- `idempotency_key or f"{request_id}:{approver_id}:{verdict}"`
abbrev pub key_or_default : String → String → String → String → String
key_or_default key request_id approver_id verdict =
    if is_empty key
    then append_text request_id
        (append_text ":" (append_text approver_id (append_text ":" verdict)))
    else key

abbrev pub decision_of :
    String → String → String → String → String → String → String → Option Fields → Decision
decision_of request_id context approver_id verdict decided_at comment key authn = record {
  request_id = request_id;
  context_digest = context;
  verdict = verdict;
  approver_id = approver_id;
  decided_at = decided_at;
  comment = comment;
  idempotency_key = key_or_default key request_id approver_id verdict;
  authn = authn;
  schema = decision_schema;
}

-- `envelope_from_challenge`
unfoldable pub envelope_from_challenge : DecisionChallenge → List Fields → Fields
envelope_from_challenge c signatures = fields (
    ("payloadType", str c.payload_type)
    ∷ ("payload", str c.payload_b64)
    ∷ ("signatures", dict_list signatures)
    ∷ [])

module _ (service : Service) where
  abbrev signed_envelope : Decision → Option Signer → Result Fields
  signed_envelope d none = err signature_invalid
  signed_envelope d (some signer) =
      wrap service.outside (Decision.to_dict d) decision_payload_type (signer ∷ [])

  unfoldable pub submit_decision :
      String → String → String → Option Signer → String → String → Option Fields → Call StatusRecord
  submit_decision request_id approver_id verdict signer comment key authn = do
    request ← reads (λ events. require_request events request_id)
    decided_at ← now service
    context ← lift (context_digest service.outside.sha256 request)
    envelope ← lift (
        signed_envelope
          (decision_of request_id context approver_id verdict decided_at comment key authn) signer)
    submit_signed_decision service envelope

  module _ (strftime : Datetime → String) (challenge_ttl : ℕ) where
    -- `to_rfc3339(parse_rfc3339(decided_at) + self.challenge_ttl)`
    abbrev expiry : String → Result String
    expiry decided_at = Result.◌>>=◌ (parse_rfc3339 service.outside.parse decided_at) λ decided.
        Result.◌>>=◌ (add_delta decided challenge_ttl) λ end. ok (to_rfc3339 strftime end)

    unfoldable pub prepare_decision :
        String → String → String → String → String → Call DecisionChallenge
    prepare_decision request_id approver_id verdict comment key = do
      request ← reads (λ events. require_request events request_id)
      decided_at ← now service
      context ← lift (context_digest service.outside.sha256 request)
      let d = decision_of request_id context approver_id verdict decided_at comment key none
      body ← lift (canonical_bytes (Decision.to_dict d))
      expires_at ← lift (expiry decided_at)
      pure (record {
        request_id = request_id;
        approver_id = approver_id;
        verdict = verdict;
        payload_type = decision_payload_type;
        payload_b64 = service.outside.b64encode body;
        pae_b64 = service.outside.b64encode (pae decision_payload_type body);
        decided_at = decided_at;
        expires_at = expires_at;
        idempotency_key = d.idempotency_key;
      })

  abbrev draft_checkpoint : Checkpoint → Fields → Draft
  draft_checkpoint cp payload = record {
    event_type = "checkpoint.published";
    payload = payload;
    at_time = cp.published_at;
    request_id = none;
  }

  abbrev signed_checkpoint : Checkpoint → Option Signer → Result Checkpoint
  signed_checkpoint cp none = err signature_invalid
  signed_checkpoint cp (some signer) = sign_checkpoint service.outside cp signer.0 signer.1

  -- `checkpoint`, with the log's signer
  unfoldable pub publish_checkpoint : Option Signer → Call Checkpoint
  publish_checkpoint log_signer = do
    leaves ← reads (λ events. ok (leaf_hashes none events))
    previous ← reads latest_checkpoint
    at_time ← now service
    cp ← lift (
        signed_checkpoint
          (build_checkpoint service.outside.sha256 leaves service.log_id at_time previous)
          log_signer)
    payload ← lift (as_dict (Checkpoint.to_dict cp))
    entry ← append_event service (draft_checkpoint cp payload)
    pure cp
