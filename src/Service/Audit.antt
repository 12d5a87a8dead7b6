-- ===== src/Service/Audit.antt =====
-- `verify` of src/approvo/service.py: every integrity check, reported and not raised. A line of the report has a topic in place of its text.
pub mod Clean
use approvo.Base.{
  ℕ, zero, suc, ◌≤◌, ℤ, pos, negsuc, String, str_eq, is_empty, Bool, true, false, not, ◌&&◌, ◌||◌,
  Option, none, some, List, [], ◌∷◌, ◌++◌, all, keep, ltb, if◌then◌else◌,
}
use approvo.Result.{Result, ok, err, unknown_policy, policy_mismatch, verification_failed, ◌>>=◌}
use approvo.Json.{Value, null, str, Fields, get_field}
use approvo.Hash.{zero_hash}
use approvo.Models.Request.{ApprovalRequest, context_digest}
use approvo.Models.Decision.{Decision}
use approvo.Models.Entry.{LedgerEntry}
use approvo.Models.Checkpoint.{Checkpoint}
use approvo.Chain.{verify_segment, before}
use approvo.Merkle.{merkle_root}
use approvo.Policy.Engine.{Status, pending, approved, rejected, expired}
use approvo.Policy.Engine.Wording.{status_text}
use approvo.Crypto.Verifier.{verify_envelope}
use approvo.Checkpoint.{verify_checkpoint, verify_consistency}
use approvo.Store.Events.{
  EventStore, get_by_seq, scan, leaf_hashes, latest_checkpoint, events_for_request,
}
use approvo.Service.Monad.{Service}
use approvo.Service.Status.{StatusRecord, load_request, read_decision, authorized, recompute}

pub data Topic : Type 0 where
  hash_chain checkpoint_signature checkpoint_root pinned_checkpoint : Topic
  unknown_request bound_to_request carries_signature : Decision → Topic
  not_checked changed_policy reproducible : String → Topic

pub record Check : Type 0 where
  pub passed : Bool
  pub topic : Topic

pub record VerificationReport : Type 0 where
  pub checks : List Check
  pub verified_from_seq : ℕ
  pub verified_to_seq : ℕ

-- `VerificationReport.ok`
abbrev pub report_ok : VerificationReport → Bool
report_ok r = all (λ (c : Check). c.passed) r.checks

-- `VerificationReport.failures`
abbrev pub failures : VerificationReport → List Check
failures r = keep (λ (c : Check). not c.passed) r.checks

unfoldable pub raise_for_failures : VerificationReport → Result (Unit {0})
raise_for_failures r = if not (report_ok r) then err verification_failed else ok tt

abbrev check : Bool → Topic → Check
check passed topic = record { passed = passed; topic = topic }

abbrev pub is_ok : {A : Type 0} → Result A → Bool
is_ok (ok a) = true
is_ok (err e) = false

-- What the loop over the segment has collected when it ends: the decisions, the requests, and whether every decision could be read.
pub record Walk : Type 0 where
  pub decisions_seen : List (Fields × Decision)
  pub request_ids : List String
  pub all_read : Bool

abbrev add_request : Option String → Walk → Walk
add_request none w = w
add_request (some id) w = if is_empty id then w else record w { request_ids = id ∷ w.request_ids }

abbrev add_decision : Fields → Result Decision → Walk → Walk
add_decision envelope (ok d) w = record w { decisions_seen = (envelope, d) ∷ w.decisions_seen }
add_decision envelope (err e) w = record { decisions_seen = []; request_ids = []; all_read = false }

-- `first.prev_hash if first else ZERO_HASH`
abbrev pub expected_prev : Option LedgerEntry → String
expected_prev none = zero_hash
expected_prev (some first) = first.prev_hash

-- `max(last_seq, from_seq)`
abbrev last_seq_of : ℕ → ℤ → ℕ
last_seq_of from_seq (pos n) = if ltb from_seq n then n else from_seq
last_seq_of from_seq (negsuc n) = from_seq

-- The last `status` of the request's status entries.
abbrev status_or : Option Value → Option Value → Option Value
status_or (some null) earlier = none
status_or found earlier = found

abbrev last_status : List LedgerEntry → Option Value → Option Value
last_status [] status = status
last_status (e ∷ es) status = last_status es (
    if str_eq e.event_type "status.changed"
    then status_or (get_field "status" e.payload) status
    else status)

unfoldable pub last_recorded_status : EventStore → String → Result (Option Value)
last_recorded_status events id = do es ← events_for_request id events; ok (last_status es none)

abbrev same_status : Option Value → Status → Bool
same_status none s = true
same_status (some (str t)) s = str_eq t (status_text s)
same_status (some v) s = false

abbrev is_expired : Status → Bool
is_expired expired = true
is_expired s = false

module _ (service : Service) where
  abbrev walk : List LedgerEntry → Walk
  walk [] = record { decisions_seen = []; request_ids = []; all_read = true }
  walk (e ∷ es) =
      let rest = walk es in
      if str_eq e.event_type "decision.recorded"
      then add_decision e.payload (read_decision service e.payload) rest
      else if str_eq e.event_type "request.created"
      then add_request e.request_id rest
      else rest

  abbrev segment_result : List LedgerEntry → ℕ → String → Bool → Result (ℤ × String)
  segment_result es from_seq prev true = verify_segment service.outside.sha256 es from_seq prev
  segment_result es from_seq prev false = err verification_failed

  abbrev end_of : ℕ → Result (ℤ × String) → ℤ
  end_of from_seq (ok r) = r.0
  end_of from_seq (err e) = before from_seq

  abbrev published_checks : EventStore → Option Checkpoint → List Check
  published_checks events none = []
  published_checks events (some cp) =
      check (is_ok (verify_checkpoint service.outside cp service.key_dir)) checkpoint_signature
      ∷ check
          (str_eq (merkle_root service.outside.sha256 (leaf_hashes (some cp.tree_size) events))
            cp.root_hash)
          checkpoint_root
      ∷ []

  abbrev pinned_result : EventStore → Checkpoint → Result (Unit {0})
  pinned_result events cp = do
    signers ← verify_checkpoint service.outside cp service.key_dir
    verify_consistency service.outside.sha256 cp (leaf_hashes (some cp.tree_size) events)

  abbrev pinned_checks : EventStore → Option Checkpoint → List Check
  pinned_checks events none = []
  pinned_checks events (some cp) = check (is_ok (pinned_result events cp)) pinned_checkpoint ∷ []

  abbrev checks_on : Fields → Decision → Option ApprovalRequest → Result (List Check)
  checks_on envelope d none = ok (check false (unknown_request d) ∷ [])
  checks_on envelope d (some request) = do
    context ← context_digest service.outside.sha256 request
    signers ← verify_envelope service.outside envelope service.key_dir d.decided_at
    passes ← authorized service envelope d
    ok (
        check (str_eq d.context_digest context) (bound_to_request d)
        ∷ check passes (carries_signature d)
        ∷ [])

  unfoldable pub decision_checks : EventStore → List (Fields × Decision) → Result (List Check)
  decision_checks events [] = ok []
  decision_checks events ((envelope, d) ∷ seen) = do
    request ← load_request events d.request_id
    here ← checks_on envelope d request
    rest ← decision_checks events seen
    ok (here ++ rest)

  abbrev status_check : EventStore → String → Result StatusRecord → Result (List Check)
  status_check events id (err unknown_policy) = ok (check true (not_checked id) ∷ [])
  status_check events id (err policy_mismatch) = ok (check false (changed_policy id) ∷ [])
  status_check events id (err e) = err e
  status_check events id (ok r) = do
    recorded ← last_recorded_status events id
    ok (
        check (same_status recorded r.policy_result.status || is_expired r.policy_result.status)
          (reproducible id)
        ∷ [])

  abbrev check_status : EventStore → String → String → Option ApprovalRequest → Result (List Check)
  check_status events id at_time none = ok []
  check_status events id at_time (some request) =
      status_check events id (recompute service events request at_time)

  unfoldable pub status_checks : EventStore → String → List String → Result (List Check)
  unfolding last_recorded_status
  status_checks events at_time [] = ok []
  status_checks events at_time (id ∷ ids) = do
    request ← load_request events id
    here ← check_status events id at_time request
    rest ← status_checks events at_time ids
    ok (here ++ rest)

  -- `verify`, with the reading of the clock
  unfoldable pub verify :
      EventStore → Option Checkpoint → ℕ → Option ℕ → String → Result VerificationReport
  unfolding decision_checks status_checks
  verify events trusted from_seq limit at_time = do
    let es = scan from_seq limit events
    let w = walk es
    let segment = segment_result es from_seq (expected_prev (get_by_seq from_seq events)) w.all_read
    published ← latest_checkpoint events
    on_decisions ← decision_checks events w.decisions_seen
    on_statuses ← status_checks events at_time w.request_ids
    ok (record {
      checks =
          check (is_ok segment) hash_chain
          ∷ (published_checks events published
              ++ pinned_checks events trusted
              ++ on_decisions
              ++ on_statuses);
      verified_from_seq = from_seq;
      verified_to_seq = last_seq_of from_seq (end_of from_seq segment);
    })
