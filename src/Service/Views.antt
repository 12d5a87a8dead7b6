-- ===== src/Service/Views.antt =====
-- The read model of src/approvo/service.py: `_project`, `get_view`, `query` and `rebuild_projections`. Batches have no negative size.
pub mod Steps
pub mod Shown
pub mod Rebuilt
use approvo.Base.{
  ℕ, zero, suc, ◌+◌, ◌==◌, String, str_eq, is_empty, ltb, Bool, true, false, Option, none, some,
  List, [], ◌∷◌, length, take, drop, if◌then◌else◌,
}
use approvo.Result.{Error, Result, ok, err, value_error, ◌>>=◌}
use approvo.Models.Request.{ApprovalRequest}
use approvo.Models.Entry.{LedgerEntry}
use approvo.Models.Views.{RequestView, RequestQuery, default_query, Page}
use approvo.Policy.Model.{get}
use approvo.Projection.{build_view}
use approvo.Store.Events.{EventStore, events_for_request, scan}
use approvo.Store.Projections.{ProjectionStore}
use approvo.Service.Monad.{Service}
use approvo.Service.Status.{StatusRecord, load_request, recompute}

-- `max((e.seq for e in entries), default=0)`
abbrev pub max_seq : List LedgerEntry → ℕ
max_seq [] = 0
max_seq (e ∷ es) = let rest = max_seq es in if ltb rest e.seq then e.seq else rest

abbrev with_id : Option String → List String → List String
with_id none ids = ids
with_id (some id) ids = if is_empty id then ids else id ∷ ids

-- The requests of a scan, in order.
unfoldable pub created_ids : List LedgerEntry → List String
created_ids [] = []
created_ids (e ∷ es) =
    let rest = created_ids es in
    if str_eq e.event_type "request.created" then with_id e.request_id rest else rest

-- `request_ids[i : i + batch_size]` for each `i` of the range
unfoldable pub batches : ℕ → ℕ → List String → List (List String)
batches zero size ids = []
batches (suc fuel) size [] = []
batches (suc fuel) size (id ∷ ids) = take size (id ∷ ids) ∷ batches fuel size (drop size (id ∷ ids))

module _ (service : Service) (p : ProjectionStore) where
  open p use {Views}

  -- `record or await self._recompute(...)`
  abbrev record_or :
      EventStore → ApprovalRequest → String → Option StatusRecord → Result StatusRecord
  record_or events request at_time (some r) = ok r
  record_or events request at_time none = recompute service events request at_time

  -- The view that `_project` stores.
  unfoldable pub view_of :
      EventStore → ApprovalRequest → String → ℕ → Option StatusRecord → Result RequestView
  view_of events request at_time last_seq given = do
    r ← record_or events request at_time given
    policy ← get service.policy_store request.policy_id
    build_view service.outside.sha256 r policy service.identities last_seq at_time

  abbrev pub stored : Result RequestView → Views → Result (Unit {0}) × Views
  stored (err e) s = (err e, s)
  stored (ok v) s = (ok tt, p.upsert v s)

  unfoldable pub project :
      EventStore
      → ApprovalRequest
      → String
      → ℕ
      → Option StatusRecord
      → Views
      → Result (Unit {0}) × Views
  project events request at_time last_seq given s =
      if p.is_null then (ok tt, s) else stored (view_of events request at_time last_seq given) s

  -- The service's `get_view`.
  abbrev view_at : String → Views → Option RequestView
  view_at request_id s = p.get_view request_id s

  -- The service's `query`.
  abbrev query_views : Option RequestQuery → Views → Result Page
  query_views none s = p.query default_query s
  query_views (some q) s = p.query q s

  module _ (events : EventStore) (at_time : String) where
    abbrev pub one_more : ℕ → Result (Unit {0}) × Views → Result ℕ × Views
    one_more n (ok t, s) = (ok (n + 1), s)
    one_more n (err e, s) = (err e, s)

    abbrev pub with_entries :
        ApprovalRequest → ℕ → Views → Result (List LedgerEntry) → Result ℕ × Views
    with_entries request n s (err e) = (err e, s)
    with_entries request n s (ok es) =
        one_more n (project events request at_time (max_seq es) none s)

    abbrev pub with_request :
        String → ℕ → Views → Result (Option ApprovalRequest) → Result ℕ × Views
    with_request id n s (err e) = (err e, s)
    with_request id n s (ok none) = (ok n, s)
    with_request id n s (ok (some request)) =
        with_entries request n s (events_for_request id events)

    -- One round of the inner loop, with the count so far.
    unfoldable pub rebuild_one : String → ℕ → Views → Result ℕ × Views
    rebuild_one id n s = with_request id n s (load_request events id)

    abbrev pub go_on : (ℕ → Views → Result ℕ × Views) → Result ℕ × Views → Result ℕ × Views
    go_on next (ok n, s) = next n s
    go_on next (err e, s) = (err e, s)

    unfoldable pub rebuild_ids : List String → ℕ → Views → Result ℕ × Views
    rebuild_ids [] n s = (ok n, s)
    rebuild_ids (id ∷ ids) n s = go_on (rebuild_ids ids) (rebuild_one id n s)

    unfoldable pub rebuild_batches : List (List String) → ℕ → Views → Result ℕ × Views
    rebuild_batches [] n s = (ok n, s)
    rebuild_batches (b ∷ bs) n s = go_on (rebuild_batches bs) (rebuild_ids b n s)

  abbrev pub requests_in : EventStore → List String
  requests_in events = created_ids (scan 0 none events)

  -- A range does not take steps of 0.
  unfoldable pub rebuild_projections : ℕ → EventStore → ℕ → Views → Result ℕ × Views
  rebuild_projections batch_size events reading views =
      let ids = requests_in events in
      if batch_size == 0
      then (err value_error, p.clear views)
      else rebuild_batches events (service.clock reading) (batches (length ids) batch_size ids) 0
          (p.clear views)
