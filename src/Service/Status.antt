-- ===== src/Service/Status.antt =====
-- The reads of src/approvo/service.py that a gate relies on: a request's events are replayed and its policy is evaluated again.
pub mod Gate
use approvo.Base.{
  String, str_eq, Bool, true, false, not, ◌||◌, Option, none, some, List, [], ◌∷◌, Dict, lookup,
  if◌then◌else◌,
}
use approvo.Result.{Result, ok, err, or_raise, request_not_found, policy_mismatch}
use approvo.Json.{dict, Fields}
use approvo.Models.Request.{ApprovalRequest, context_digest}
use approvo.Models.Request
use approvo.Models.Decision.{Decision}
use approvo.Models.Decision
use approvo.Models.Entry.{LedgerEntry}
use approvo.Policy.Model.{Policy, digest, get}
use approvo.Policy.Engine.{PolicyResult, Identities, evaluate}
use approvo.Crypto.Envelope.{unwrap_payload}
use approvo.Crypto.Verifier.{decision_authorized}
use approvo.Store.Events.{EventStore, events_for_request}
use approvo.Service.Monad.{Service, State, Call, now}
use approvo.Result.{◌>>=◌}

-- `Record`: the status is that of `policy_result`.
pub record StatusRecord : Type 0 where
  pub request : ApprovalRequest
  pub decisions : List Decision
  pub policy_result : PolicyResult

-- `not self.identities or approver_id in self.identities`
abbrev has_identity : Identities → String → Bool
has_identity [] id = true
has_identity (i ∷ is') id = elim (lookup id (i ∷ is')) [ none ↦ false | some ident ↦ true ]

abbrev first_created : List LedgerEntry → Result (Option ApprovalRequest)
first_created [] = ok none
first_created (e ∷ es) =
    if str_eq e.event_type "request.created"
    then (do r ← Request.from_dict (dict e.payload); ok (some r))
    else first_created es

unfoldable pub load_request : EventStore → String → Result (Option ApprovalRequest)
load_request events request_id = do es ← events_for_request request_id events; first_created es

unfoldable pub require_request : EventStore → String → Result ApprovalRequest
unfolding load_request
require_request events request_id = do
  found ← load_request events request_id
  or_raise found request_not_found

module _ (service : Service) where
  abbrev pub identity_known : String → Bool
  identity_known approver_id = has_identity service.identities approver_id

  unfoldable pub authorized : Fields → Decision → Result Bool
  authorized envelope d =
      decision_authorized service.outside envelope d.approver_id service.log_id service.key_dir
        d.decided_at (identity_known d.approver_id)

  abbrev pub read_decision : Fields → Result Decision
  read_decision envelope = do
    payload ← unwrap_payload service.outside envelope
    Decision.from_dict payload

  -- The loop of `_decisions_for`.
  unfoldable pub authorized_decisions : List LedgerEntry → Result (List Decision)
  unfolding authorized
  authorized_decisions [] = ok []
  authorized_decisions (e ∷ es) =
      if not (str_eq e.event_type "decision.recorded") then authorized_decisions es else do
        d ← read_decision e.payload
        passes ← authorized e.payload d
        rest ← authorized_decisions es
        ok (if passes then d ∷ rest else rest)

  unfoldable pub decisions_for : EventStore → ApprovalRequest → Result (List Decision)
  unfolding authorized_decisions
  decisions_for events request = do
    id ← Request.request_id service.outside.sha256 request
    es ← events_for_request id events
    authorized_decisions es

  unfoldable pub recompute : EventStore → ApprovalRequest → String → Result StatusRecord
  unfolding decisions_for
  recompute events request at_time = do
    policy ← get service.policy_store request.policy_id
    pinned ← digest service.outside.sha256 policy
    if not (str_eq pinned request.policy_digest) then err policy_mismatch else do
      decisions ← decisions_for events request
      result ←
          evaluate service.outside.sha256 service.outside.parse request decisions policy
            service.identities at_time
      ok (record { request = request; decisions = decisions; policy_result = result })

  abbrev pub status_of : Result ApprovalRequest → Call StatusRecord
  status_of (err e) s = (err e, s)
  status_of (ok request) s =
      (recompute s.events request (service.clock s.readings), (now service s).1)

  -- `get_status`, which reads the clock once the request is found.
  unfoldable pub get_status : String → Call StatusRecord
  unfolding require_request recompute
  get_status request_id s = status_of (require_request s.events request_id) s
