-- ===== src/Service/Submit.antt =====
-- The calls of src/approvo/service.py that change the log: requests and decisions. The service has no projection store here, as by default.
pub mod Keeps
pub mod Guarded
use approvo.Base.{
  String, str_eq, is_empty, append_text, Bool, true, false, not, ◌||◌, Option, none, some, List, [],
  ◌∷◌, if◌then◌else◌,
}
use approvo.Result.{
  Error, Result, ok, err, or_raise, signature_invalid, challenge_expired, key_error, value_error,
  type_error,
}
use approvo.Result
use approvo.Json.{Value, str, dict, Fields, fields}
use approvo.Json.Read.{as_dict}
use approvo.Hash.{canonical_hash}
use approvo.Clock.{before_time, add_delta, parse_rfc3339}
use approvo.Models.Request.{ApprovalRequest, request_schema, context_digest, request_id}
use approvo.Models.Request
use approvo.Models.Decision.{Decision}
use approvo.Models.Decision
use approvo.Policy.Model.{digest, get, validate_subject}
use approvo.Policy.Engine.{Status, pending, approved, rejected, expired}
use approvo.Policy.Engine.Wording.{status_text, result_dict}
use approvo.Store.Events.{EventStore}
use approvo.Store.Reservations.{Reservation, Reservations, reserve, complete, release}
use approvo.Service.Monad.{Draft, Service, State, Call, pure, raise, lift, now, ◌>>=◌}
use approvo.Service.Append.{append_event}
use approvo.Service.Status.{
  StatusRecord, load_request, require_request, authorized, read_decision, recompute, get_status,
}

-- A read of the log.
unfoldable pub reads : {A : Type 0} → (EventStore → Result A) → Call A
reads f s = (f s.events, s)

abbrev pub or_blank : Option String → String
or_blank none = ""
or_blank (some given) = given

-- `except (KeyError, ValueError, TypeError) as e: raise SignatureInvalid`
abbrev malformed : Error → Error
malformed key_error = signature_invalid
malformed value_error = signature_invalid
malformed type_error = signature_invalid
malformed e = e

abbrev pub well_formed : Result Decision → Result Decision
well_formed (ok d) = ok d
well_formed (err e) = err (malformed e)

-- `decision.idempotency_key or f"{request_id}:{approver_id}:{verdict}"`
abbrev pub idempotency_key_of : Decision → String
idempotency_key_of d =
    if is_empty d.idempotency_key
    then append_text d.request_id
        (append_text ":" (append_text d.approver_id (append_text ":" d.verdict)))
    else d.idempotency_key

abbrev pub is_pending : Status → Bool
is_pending pending = true
is_pending s = false

module _ (service : Service) where
  abbrev draft_request : ApprovalRequest → String → Fields → Draft
  draft_request request id payload = record {
    event_type = "request.created";
    payload = payload;
    at_time = request.created_at;
    request_id = some id;
  }

  -- The new request is appended unless it is there already.
  abbrev open_request : ApprovalRequest → String → Option ApprovalRequest → Call ApprovalRequest
  open_request request id (some existing) = pure existing
  open_request request id none = do
    written ← lift (Request.to_dict service.outside.sha256 request)
    payload ← lift (as_dict written)
    entry ← append_event service (draft_request request id payload)
    pure request

  unfoldable pub create_request :
      String → Fields → String → String → String → Option String → Call ApprovalRequest
  create_request kind subject requested_by policy_id not_valid_after given_nonce = do
    policy ← lift (get service.policy_store policy_id)
    valid ← lift (validate_subject policy subject)
    pinned ← lift (digest service.outside.sha256 policy)
    created_at ← now service
    let request : ApprovalRequest = record {
      kind = kind;
      subject = subject;
      requested_by = requested_by;
      policy_id = policy_id;
      policy_digest = pinned;
      created_at = created_at;
      not_valid_after = not_valid_after;
      nonce = or_blank given_nonce;
      schema = request_schema;
    }
    id ← lift (request_id service.outside.sha256 request)
    existing ← reads (λ events. load_request events id)
    open_request request id existing

  abbrev draft_status : ApprovalRequest → String → String → StatusRecord → Draft
  draft_status request id at_time r = record {
    event_type = "status.changed";
    payload = fields (
        ("request_id", str id)
        ∷ ("status", str (status_text r.policy_result.status))
        ∷ ("policy_result", result_dict service.list_repr r.policy_result)
        ∷ []);
    at_time = at_time;
    request_id = some id;
  }

  -- The `if record.status != "pending"` of `_record_decision`.
  abbrev record_status : ApprovalRequest → StatusRecord → Bool → Call (Unit {0})
  record_status request r true = pure tt
  record_status request r false = do
    id ← lift (request_id service.outside.sha256 request)
    at_time ← now service
    entry ← append_event service (draft_status request id at_time r)
    pure tt

  abbrev draft_decision : Decision → Fields → Draft
  draft_decision d envelope = record {
    event_type = "decision.recorded";
    payload = envelope;
    at_time = d.decided_at;
    request_id = some d.request_id;
  }

  unfoldable pub record_decision : ApprovalRequest → Decision → Fields → Call StatusRecord
  record_decision request d envelope = do
    entry ← append_event service (draft_decision d envelope)
    at_time ← now service
    r ← reads (λ events. recompute service events request at_time)
    changed ← record_status request r (is_pending r.policy_result.status)
    projected_at ← now service
    pure r

  -- The decision of an envelope, for a request that is in the log and that it is bound to.
  unfoldable pub bound_decision : Fields → EventStore → Result (ApprovalRequest × Decision)
  bound_decision envelope events = Result.◌>>=◌ (well_formed (read_decision service envelope)) λ d.
      Result.◌>>=◌ (require_request events d.request_id) λ request.
        Result.◌>>=◌ (context_digest service.outside.sha256 request) λ context.
          if str_eq d.context_digest context then ok (request, d) else err signature_invalid

  abbrev pub not_after : Error → Bool → Result (Unit {0})
  not_after e true = err e
  not_after e false = ok tt

  -- The two tests against the clock and against the end of the window.
  unfoldable pub in_window : ApprovalRequest → Decision → String → Result (Unit {0})
  in_window request d at_time =
      Result.◌>>=◌ (parse_rfc3339 service.outside.parse d.decided_at) λ decided.
        Result.◌>>=◌ (parse_rfc3339 service.outside.parse at_time) λ present.
          Result.◌>>=◌ (add_delta present service.max_clock_skew) λ limit.
            Result.◌>>=◌ (before_time limit decided) λ future.
              Result.◌>>=◌ (not_after signature_invalid future) λ _.
                Result.◌>>=◌ (parse_rfc3339 service.outside.parse request.not_valid_after) λ closes.
                  Result.◌>>=◌ (add_delta closes service.max_clock_skew) λ last.
                    Result.◌>>=◌ (before_time last decided) λ late. not_after challenge_expired late

  abbrev pub must_be_true : Bool → Result (Unit {0})
  must_be_true true = ok tt
  must_be_true false = err signature_invalid

  unfoldable pub signed_by_approver : Fields → Decision → Result (Unit {0})
  signed_by_approver envelope d = Result.◌>>=◌ (authorized service envelope d) must_be_true

  abbrev pub set_slots : Result Reservations → Call (Unit {0})
  set_slots (ok slots) s = (ok tt, record s { slots = slots })
  set_slots (err e) s = (err e, s)

  -- The winner's work: on an exception the key is released, otherwise the response is stored.
  abbrev settle : String → Decision → Result StatusRecord → Call StatusRecord
  settle key d (err e) s = (err e, record s { slots = release key s.slots })
  settle key d (ok r) s =
      (do done ← (λ t. set_slots (complete key d.request_id t.slots) t); pure r) s

  abbrev as_winner : String → ApprovalRequest → Decision → Fields → Call StatusRecord
  as_winner key request d envelope s =
      let (r, t) = record_decision request d envelope s in settle key d r t

  abbrev after_reserve :
      String
      → ApprovalRequest
      → Decision
      → Fields
      → Result (Reservation × Reservations)
      → Call StatusRecord
  after_reserve key request d envelope (err e) s = (err e, s)
  after_reserve key request d envelope (ok (reservation, slots)) s =
      let t : State = record s { slots = slots } in
      if reservation.won then as_winner key request d envelope t else (elim reservation.response [
        | none ↦ get_status service d.request_id t
        | some id ↦ get_status service id t
      ])

  unfoldable pub submit_signed_decision : Fields → Call StatusRecord
  submit_signed_decision envelope = do
    bound ← reads (bound_decision envelope)
    at_time ← now service
    timely ← lift (in_window bound.0 bound.1 at_time)
    signed ← lift (signed_by_approver envelope bound.1)
    fingerprint ← lift (canonical_hash service.outside.sha256 (Decision.to_dict bound.1))
    if not service.has_idempotency then record_decision bound.0 bound.1 envelope else (λ s.
        after_reserve (idempotency_key_of bound.1) bound.0 bound.1 envelope
          (reserve (idempotency_key_of bound.1) fingerprint s.slots) s)
