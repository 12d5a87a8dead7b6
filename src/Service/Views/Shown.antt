-- ===== src/Service/Views/Shown.antt =====
-- What a view that `rebuild_projections` (src/approvo/service.py) stores shows of its request.
use approvo.Base.{
  ℕ, ◌≤◌, String, ltb, ◌≡◌, refl, sym, ap, ◌∙◌, subst, ◌⊎◌, inl, inr, Bool-cases, none, some,
  some_inj, List, [], ◌∷◌, All, All-weaken, In, arith,
}
use approvo.Result.{ok, ok-injective, >>=-eq-ok}
use approvo.Models.Request.{ApprovalRequest}
use approvo.Models.Request
use approvo.Models.Entry.{LedgerEntry}
use approvo.Models.Views.{RequestView}
use approvo.Policy.Model.{Policy, get}
use approvo.Projection.{build_view}
use approvo.Store.Events.{EventStore, events_for_request}
use approvo.Store.Projections.{ProjectionStore}
use approvo.Service.Monad.{Service}
use approvo.Service.Status.{StatusRecord, load_request, recompute}
use approvo.Service.Views.{max_seq, view_of}
use approvo.Service.Views.Steps.{IsCurrent}

max_seq-greatest : (es : List LedgerEntry) → All (λ (e : LedgerEntry). e.seq ≤ max_seq es) es
max_seq-greatest [] = tt
max_seq-greatest (e ∷ es) = elim (Bool-cases (ltb (max_seq es) e.seq)) [
  | inl less ↦ (
    ground (arith, less),
    All-weaken _ _ es (λ x h. ground (arith, h, less)) (max_seq-greatest es),
  )
  | inr more ↦ (
    ground (arith, more),
    All-weaken _ _ es (λ x h. ground (arith, h, more)) (max_seq-greatest es),
  )
]

-- The number is that of one of the entries, or 0 where there are none.
abbrev pub IsReached : ℕ → List LedgerEntry → Type 0
IsReached n es = ((es ≡ []) × (n ≡ 0)) ⊎ ((e : LedgerEntry) × In e es × (e.seq ≡ n))

max_seq-IsReached : (es : List LedgerEntry) → IsReached (max_seq es) es
max_seq-IsReached [] = inl (refl, refl)
max_seq-IsReached (e ∷ es) = elim (Bool-cases (ltb (max_seq es) e.seq)) [
  | inl less ↦ inr (e, inl refl, ground (arith, less))
  | inr more ↦ elim (max_seq-IsReached es) [
    | inl (none_more, zero) ↦ inr (e, inl refl, ground (arith, more, zero))
    | inr (x, among, same) ↦ inr (x, inr among, ground (arith, more, same))
  ]
]

module _ (service : Service) (events : EventStore) (at_time : String) where
  -- The view is what `build_view` makes of the request's status, evaluated again at the time, and of the greatest number among the entries of the request.
  pub record Shows (id : String) (request : ApprovalRequest) (v : RequestView) : Type 0 where
    pub status : StatusRecord
    pub policy : Policy
    pub entries : List LedgerEntry
    pub evaluated : recompute service events request at_time ≡ ok status
    pub pinned : get service.policy_store request.policy_id ≡ ok policy
    pub made :
        build_view service.outside.sha256 status policy service.identities v.last_seq at_time ≡ ok v
    pub of_request : events_for_request id events ≡ ok entries
    pub greatest : All (λ (e : LedgerEntry). e.seq ≤ v.last_seq) entries
    pub reached : IsReached v.last_seq entries

  build_view-last_seq :
      (r : StatusRecord) (policy : Policy) (last_seq : ℕ) {v : RequestView}
      → build_view service.outside.sha256 r policy service.identities last_seq at_time ≡ ok v
      → last_seq ≡ v.last_seq
  unfolding build_view
  build_view-last_seq r policy last_seq h =
      let (id, _, made) = >>=-eq-ok (Request.request_id service.outside.sha256 r.request) _ h in
      ap (λ (v : RequestView). v.last_seq) (ok-injective made)

  pub current-Shows :
      (p : ProjectionStore) (id : String) (request : ApprovalRequest) (v : RequestView)
      → load_request events id ≡ ok (some request)
      → IsCurrent service p events at_time id v
      → Shows id request v
  unfolding view_of
  current-Shows p id request v logged c =
      let same : c.request ≡ request = some_inj (ok-injective (sym c.logged ∙ logged)) in
      let made =
        subst (λ x. view_of service p events x at_time (max_seq c.entries) none ≡ ok v) same
          c.made in
      let (r, found, h1) = >>=-eq-ok (recompute service events request at_time) _ made in
      let (policy, kept, h2) = >>=-eq-ok (get service.policy_store request.policy_id) _ h1 in
      let last = build_view-last_seq r policy (max_seq c.entries) h2 in
      record {
        status = r;
        policy = policy;
        entries = c.entries;
        evaluated = found;
        pinned = kept;
        made =
            subst
              (λ n. build_view service.outside.sha256 r policy service.identities n at_time ≡ ok v)
              last h2;
        of_request = c.of_request;
        greatest =
            subst (λ n. All (λ (e : LedgerEntry). e.seq ≤ n) c.entries) last
              (max_seq-greatest c.entries);
        reached = subst (λ n. IsReached n c.entries) last (max_seq-IsReached c.entries);
      }
