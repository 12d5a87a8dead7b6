-- ===== src/Tests/Gate.antt =====
-- An approved request, read back from a log of three entries.
use approvo.Base.{
  ℕ, String, codes, lookup, insert, hex, from_hex, utf8, ◌==◌, ◌≡◌, refl, none, some, Dict, List,
  [], ◌∷◌, get_or, if◌then◌else◌,
}
use approvo.Result.{Result, ok}
use approvo.Json.{Value, null, str, dict, list, nil, cons, Fields, end, fields}
use approvo.Json.Canonical.{canonical_bytes}
use approvo.Hash.{canonical_hash}
use approvo.Clock.{parse_rfc3339, before_time, add_delta}
use approvo.Models.Request.{ApprovalRequest, context_digest, request_id}
use approvo.Models.Request
use approvo.Models.Decision.{Decision}
use approvo.Models.Decision
use approvo.Models.Entry.{LedgerEntry}
use approvo.Policy.Model.{digest, get}
use approvo.Policy.Engine.{
  approved, pending, PolicyResult, evaluate, judge, eligible, with_verdict, latest_of,
  roles_satisfied,
}
use approvo.Crypto.Outside.{Outside}
use approvo.Crypto.Keys.{valid_at, scoped_to}
use approvo.Crypto.Envelope.{signable_bytes, unwrap_payload}
use approvo.Crypto.Verifier.{checks_out, authorizes, decision_authorized}
use approvo.Store.Events.{EventStore, empty_store, append, events_for_request}
use approvo.Store.Events.Index.{IsIndexed, append-IsIndexed}
use approvo.Service.Monad.{Service, State}
use approvo.Service.Status.{StatusRecord, authorized, get_status}
use approvo.Service.Status.Gate.{Gate, get_status-approved}
use approvo.Models.Views.{RequestView}
use approvo.Store.Projections.{ProjectionStore, memory_projections}
use approvo.Service.Views.{rebuild_projections}
use approvo.Tests.Data.{
  view, toy_digest, request, policy, vote, key, outside, service, blank, ok_or,
}

abbrev pinned : ApprovalRequest
pinned = record request { policy_digest = ok_or (digest toy_digest policy) "" }

abbrev id : String
id = ok_or (request_id toy_digest pinned) ""

abbrev context : String
context = ok_or (context_digest toy_digest pinned) ""

-- The payload "b" is bob's decision, and any other is eve's.
abbrev gate_outside : Outside
gate_outside = record outside {
  b64decode = λ s. some (codes s);
  loads = λ bs. some (
      Decision.to_dict
        (vote context (if get_or bs 0 0 == 98 then "bob" else "eve") "approve" "ii"));
}

abbrev gate_service : Service
gate_service = record service {
  outside = gate_outside;
  key_dir =
      ("kb", record key { keyid = "kb" })
      ∷ ("ke", record key { keyid = "ke"; owner_id = "eve" })
      ∷ [];
}

abbrev signed_by : String → String → Fields
signed_by payload keyid = fields (
    ("payloadType", str "t")
    ∷ ("payload", str payload)
    ∷ ("signatures", list (cons (dict (fields (("keyid", str keyid) ∷ ("sig", str "s") ∷ []))) nil))
    ∷ [])

abbrev fields_of : Value → Fields
fields_of (dict fs) = fs
fields_of v = end

abbrev entry : ℕ → String → Fields → LedgerEntry
entry n event_type payload = record blank {
  seq = n;
  event_type = event_type;
  request_id = some id;
  payload = payload;
}

abbrev created : LedgerEntry
created = entry 0 "request.created" (fields_of (ok_or (Request.to_dict toy_digest pinned) null))

abbrev bob_voted : LedgerEntry
bob_voted = entry 1 "decision.recorded" (signed_by "b" "kb")

abbrev eve_voted : LedgerEntry
eve_voted = entry 2 "decision.recorded" (signed_by "e" "ke")

abbrev store : List LedgerEntry → EventStore → EventStore
store [] events = events
store (e ∷ es) events = store es (ok_or (append e events) events)

abbrev state : State
state = record {
  events = store (created ∷ bob_voted ∷ eve_voted ∷ []) empty_store;
  slots = [];
  readings = 0;
  attempts = 0;
}

state-IsIndexed : IsIndexed state.events
unfolding append lookup insert
state-IsIndexed =
    append-IsIndexed eve_voted (store (created ∷ bob_voted ∷ []) empty_store)
      (append-IsIndexed bob_voted (store (created ∷ []) empty_store)
        (append-IsIndexed created empty_store (record { numbered = tt; indexed = λ i. refl }) refl)
        refl)
      refl

abbrev no_result : PolicyResult
no_result = record { status = pending; satisfied_by = []; reasons = [] }

abbrev no_record : StatusRecord
no_record = record { request = pinned; decisions = []; policy_result = no_result }

abbrev read : StatusRecord
read = ok_or (get_status gate_service id state).0 no_record

abbrev after : State
after = (get_status gate_service id state).1

was_read : get_status gate_service id state ≡ (ok read, after)
unfolding get_status events_for_request lookup append request_id canonical_hash canonical_bytes hex
    digest insert Request.from_dict Request.to_dict get unwrap_payload Decision.from_dict
    Decision.to_dict decision_authorized signable_bytes from_hex add_delta before_time parse_rfc3339
    scoped_to valid_at authorizes checks_out context_digest eligible evaluate judge latest_of
    roles_satisfied with_verdict authorized utf8
was_read = refl

is_approved : read.policy_result.status ≡ approved
unfolding get_status events_for_request lookup append request_id canonical_hash canonical_bytes hex
    digest insert Request.from_dict Request.to_dict get unwrap_payload Decision.from_dict
    Decision.to_dict decision_authorized signable_bytes from_hex add_delta before_time parse_rfc3339
    scoped_to valid_at authorizes checks_out context_digest eligible evaluate judge latest_of
    roles_satisfied with_verdict authorized utf8
is_approved = refl

get_status-approved_example :
    Gate gate_service state read × (after.events ≡ state.events) × (after.slots ≡ state.slots)
get_status-approved_example =
    get_status-approved gate_service id state after state-IsIndexed was_read is_approved

abbrev views : ProjectionStore
views = memory_projections (λ q shown. ok (record { items = []; next_cursor = none }))

-- A view of another time, which is dropped.
abbrev rebuilt : Result ℕ × Dict RequestView
rebuilt = rebuild_projections gate_service views 1 state.events 0 (("old", view) ∷ [])
