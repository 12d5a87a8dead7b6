-- ===== src/Service/Submit/Keeps.antt =====
-- The calls that write (src/approvo/service.py) and the log.
use approvo.Base.{
  String, Bool, true, false, not, Option, none, some, ◌≡◌, refl, if◌then◌else◌, Bool-cases, inl,
  inr,
}
use approvo.Result.{Result, ok, err}
use approvo.Json.{Fields}
use approvo.Models.Request.{ApprovalRequest}
use approvo.Models.Decision.{Decision}
use approvo.Store.Events.{EventStore}
use approvo.Store.Reservations.{Reservation, Reservations, reserve, complete}
use approvo.Service.Monad.{Draft, Service, State, Call, pure, lift, now, continue_with, ◌>>=◌}
use approvo.Service.Append.{append_event, sha}
use approvo.Service.Append.Log.{IsSound, Extends, Extends-refl, Extends-trans, append_event-Ends}
use approvo.Service.Status.{StatusRecord, require_request, status_of, get_status}
use approvo.Service.Submit.{
  reads, open_request, create_request, record_status, record_decision, set_slots, settle,
  after_reserve, idempotency_key_of, submit_signed_decision,
}

module _ (service : Service) where
  abbrev pub Kept : {A : Type 0} → State → Result A × State → Type 0
  Kept s out = IsSound (sha service) out.1.events × Extends s.events out.1.events

  -- From a sound log, the call ends, whether it returns or raises, with a sound log that has every old entry in its place.
  pub record Keeps {A : Type 0} (m : Call A) : Type 0 where
    pub kept : (s : State) → IsSound (sha service) s.events → Kept s (m s)

  pub bind :
      {A B : Type 0} {m : Call A} {k : A → Call B}
      → Keeps m
      → ((a : A) → Keeps (k a))
      → Keeps (m >>= k)
  unfolding ◌>>=◌
  bind {A} {B} {m} {k} km kk = record { kept = λ s p. go s (m s) (km.kept s p) }
    where
      go : (s : State) (out : Result A × State) → Kept s out → Kept s (continue_with k out)
      go s (ok a, t) (q, longer) =
          let (q', longer') = (kk a).kept t q in
          (q', Extends-trans s.events t.events (k a t).1.events longer longer')
      go s (err e, t) (q, longer) = (q, longer)

  pub appends : (d : Draft) → Keeps (append_event service d)
  appends d = record {
    kept = λ s p. let end = append_event-Ends service d s p in (end.sound, end.grown);
  }

  pub lifts : {A : Type 0} {r : Result A} → Keeps (lift r)
  lifts = record { kept = λ s p. (p, Extends-refl s.events) }

  pub reads-Keeps : {A : Type 0} (f : EventStore → Result A) → Keeps (reads f)
  unfolding reads
  reads-Keeps f = record { kept = λ s p. (p, Extends-refl s.events) }

  pub now-Keeps : Keeps (now service)
  now-Keeps = record { kept = λ s p. (p, Extends-refl s.events) }

  pub pure-Keeps : {A : Type 0} {a : A} → Keeps (pure a)
  pure-Keeps = record { kept = λ s p. (p, Extends-refl s.events) }

  if_Keeps : {A : Type 0} (b : Bool) {m k : Call A} → Keeps m → Keeps k → Keeps (if b then m else k)
  if_Keeps true km kk = km
  if_Keeps false km kk = kk

  open_request-Keeps :
      (request : ApprovalRequest) (id : String) (o : Option ApprovalRequest)
      → Keeps (open_request service request id o)
  open_request-Keeps request id (some existing) = pure-Keeps
  open_request-Keeps request id none =
      bind lifts λ written. bind lifts λ payload. bind (appends _) λ entry. pure-Keeps

  create_request-Keeps :
      (kind : String) (subject : Fields) (requested_by policy_id not_valid_after : String)
      (given_nonce : Option String)
      → Keeps
          (create_request service kind subject requested_by policy_id not_valid_after given_nonce)
  unfolding create_request
  create_request-Keeps kind subject requested_by policy_id not_valid_after given_nonce =
      bind lifts λ policy. bind lifts λ valid. bind lifts λ pinned. bind now-Keeps λ created_at.
        bind lifts λ id. bind (reads-Keeps _) λ existing. open_request-Keeps _ id existing

  record_status-Keeps :
      (request : ApprovalRequest) (r : StatusRecord) (b : Bool)
      → Keeps (record_status service request r b)
  record_status-Keeps request r true = pure-Keeps
  record_status-Keeps request r false =
      bind lifts λ id. bind now-Keeps λ at_time. bind (appends _) λ entry. pure-Keeps

  record_decision-Keeps :
      (request : ApprovalRequest) (d : Decision) (envelope : Fields)
      → Keeps (record_decision service request d envelope)
  unfolding record_decision
  record_decision-Keeps request d envelope = bind (appends _) λ entry. bind now-Keeps λ at_time.
      bind (reads-Keeps _) λ r.
        bind (record_status-Keeps request r _) λ changed. bind now-Keeps λ projected_at. pure-Keeps

  settle-Kept :
      (key : String) (d : Decision) (s : State) (out : Result StatusRecord × State)
      → Kept s out
      → Kept s (settle service key d out.0 out.1)
  unfolding ◌>>=◌
  settle-Kept key d s (err e, t) q = q
  settle-Kept key d s (ok r, t) q = go (complete key d.request_id t.slots)
    where
      go :
          (slots : Result Reservations)
          → Kept s (continue_with (λ done. pure r) (set_slots service slots t))
      go (ok slots) = q
      go (err e) = q

  status_of-Kept :
      (s t : State) (r : Result ApprovalRequest)
      → t.events ≡ s.events
      → IsSound (sha service) s.events
      → Kept s (status_of service r t)
  status_of-Kept s t (err e) same p = rw same (p, Extends-refl s.events)
  status_of-Kept s t (ok request) same p = rw same (p, Extends-refl s.events)

  get_status-Kept :
      (id : String) (s t : State)
      → t.events ≡ s.events
      → IsSound (sha service) s.events
      → Kept s (get_status service id t)
  unfolding get_status
  get_status-Kept id s t same p = status_of-Kept s t (require_request t.events id) same p

  after_reserve-Keeps :
      (key : String) (request : ApprovalRequest) (d : Decision) (envelope : Fields) (s : State)
      (r : Result (Reservation × Reservations))
      → IsSound (sha service) s.events
      → Kept s (after_reserve service key request d envelope r s)
  after_reserve-Keeps key request d envelope s (err e) p = (p, Extends-refl s.events)
  after_reserve-Keeps key request d envelope s (ok (reservation, slots)) p =
      let t : State = record s { slots = slots } in
      elim (Bool-cases reservation.won) [
        | inl wins ↦ rw wins (
            settle-Kept key d s (record_decision service request d envelope t)
              ((record_decision-Keeps request d envelope).kept t p))
        | inr loses ↦ rw loses (go reservation.response)
      ]
    where
      go :
          (o : Option String)
          → Kept {A = StatusRecord} s (elim o [
            | none ↦ get_status service d.request_id (record s { slots = slots })
            | some id ↦ get_status service id (record s { slots = slots })
          ])
      go none = get_status-Kept d.request_id s (record s { slots = slots }) refl p
      go (some id) = get_status-Kept id s (record s { slots = slots }) refl p

  pub submit-Keeps : (envelope : Fields) → Keeps (submit_signed_decision service envelope)
  unfolding submit_signed_decision
  submit-Keeps envelope = bind (reads-Keeps _) λ bound. bind now-Keeps λ at_time.
      bind lifts λ timely. bind lifts λ signed. bind lifts λ fingerprint.
        if_Keeps (not service.has_idempotency) (record_decision-Keeps bound.0 bound.1 envelope)
          (record {
            kept = λ s p.
                after_reserve-Keeps (idempotency_key_of bound.1) bound.0 bound.1 envelope s
                  (reserve (idempotency_key_of bound.1) fingerprint s.slots) p;
          })

  -- Creating a request on a log that is a chain and indexed leaves such a log with every old entry in its place, whether the call
  -- returns or raises and whatever other callers append at its attempts.
  pub create_request-IsSound :
      (kind : String) (subject : Fields) (requested_by policy_id not_valid_after : String)
      (given_nonce : Option String) (s : State)
      → IsSound (sha service) s.events
      → Kept s
          (create_request service kind subject requested_by policy_id not_valid_after given_nonce s)
  create_request-IsSound kind subject requested_by policy_id not_valid_after given_nonce s p =
      (create_request-Keeps kind subject requested_by policy_id not_valid_after given_nonce).kept s
        p

  -- Submitting a signed decision on a log that is a chain and indexed, with or without an idempotency store, leaves such a log with every
  -- old entry in its place, whether the call returns or raises and whatever other callers append at its attempts.
  pub submit-IsSound :
      (envelope : Fields) (s : State)
      → IsSound (sha service) s.events
      → Kept s (submit_signed_decision service envelope s)
  submit-IsSound envelope s p = (submit-Keeps envelope).kept s p
