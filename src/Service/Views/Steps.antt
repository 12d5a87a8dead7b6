-- ===== src/Service/Views/Steps.antt =====
-- What one round of `rebuild_projections` (src/approvo/service.py) does to the store of views.
use approvo.Base.{
  ℕ, String, str_eq, eq_iff, ltb, ◌≡◌, refl, sym, ap, ◌∙◌, subst, ◌⊎◌, inl, inr, Bool-cases, Option,
  none, some, some_inj, List, if◌then◌else◌, arith,
}
use approvo.Result.{Result, ok, err, ok-injective, >>=-eq-ok}
use approvo.Models.Request.{ApprovalRequest}
use approvo.Models.Request
use approvo.Models.Entry.{LedgerEntry}
use approvo.Models.Views.{RequestView}
use approvo.Policy.Model.{get, digest}
use approvo.Policy.Engine.{evaluate}
use approvo.Projection.{build_view}
use approvo.Store.Events.{EventStore, events_for_request}
use approvo.Store.Projections.{ProjectionStore, IsProjection, newer_of}
use approvo.Service.Monad.{Service}
use approvo.Service.Status.{StatusRecord, load_request, decisions_for, recompute}
use approvo.Service.Views.{
  max_seq, view_of, stored, project, one_more, with_entries, with_request, rebuild_one,
}

newer_of-cases :
    (o : Option RequestView) (w v : RequestView) → newer_of o w ≡ v → (o ≡ some v) ⊎ (w ≡ v)
newer_of-cases none w v h = inr h
newer_of-cases (some x) w v h = elim (Bool-cases (ltb w.last_seq x.last_seq)) [
  | inl stale ↦ inl (ap some (ground (arith, stale, h)))
  | inr fresh ↦ inr (ground (arith, fresh, h))
]

module _ (service : Service) where
  -- The request is created under the id that its content has.
  abbrev pub IsNamed : EventStore → String → Type 0
  IsNamed events id =
      (request : ApprovalRequest)
      → load_request events id ≡ ok (some request)
      → Request.request_id service.outside.sha256 request ≡ ok id

  recompute-request :
      (events : EventStore) (request : ApprovalRequest) (at_time : String) {r : StatusRecord}
      → recompute service events request at_time ≡ ok r
      → r.request ≡ request
  unfolding recompute
  recompute-request events request at_time h =
      let (policy, _, h1) = >>=-eq-ok (get service.policy_store request.policy_id) _ h in
      let (pinned, _, h2) = >>=-eq-ok (digest service.outside.sha256 policy) _ h1 in
      elim (Bool-cases (str_eq pinned request.policy_digest)) [
        | inr other ↦ absurd (ground (arith, other, h2))
        | inl same ↦
            let (ds, _, h3) = >>=-eq-ok (decisions_for service events request) _ (rw same at h2) in
            let (result, _, h4) =
              >>=-eq-ok
                (evaluate service.outside.sha256 service.outside.parse request ds policy
                  service.identities at_time)
                _ h3 in
            ap (λ (r : StatusRecord). r.request) (sym (ok-injective h4))
      ]

  module _ (p : ProjectionStore) (events : EventStore) (at_time : String) where
    open p use {Views}

    view_of-request_id :
        (request : ApprovalRequest) (last_seq : ℕ) {v : RequestView} {id : String}
        → view_of service p events request at_time last_seq none ≡ ok v
        → Request.request_id service.outside.sha256 request ≡ ok id
        → v.request_id ≡ id
    unfolding view_of build_view
    view_of-request_id request last_seq h k =
        let (r, found, h1) = >>=-eq-ok (recompute service events request at_time) _ h in
        let (policy, _, h2) = >>=-eq-ok (get service.policy_store request.policy_id) _ h1 in
        let (own, named, h3) =
          >>=-eq-ok (Request.request_id service.outside.sha256 r.request) _ h2 in
        ap (λ (v : RequestView). v.request_id) (sym (ok-injective h3))
        ∙ ok-injective (
            sym named
            ∙ ap (Request.request_id service.outside.sha256)
                (recompute-request events request at_time found)
            ∙ k)

    -- The view is made of the request that the log has under the id.
    pub record IsCurrent (id : String) (v : RequestView) : Type 0 where
      pub request : ApprovalRequest
      pub logged : load_request events id ≡ ok (some request)
      pub entries : List LedgerEntry
      pub of_request : events_for_request id events ≡ ok entries
      pub made : view_of service p events request at_time (max_seq entries) none ≡ ok v

    abbrev pub Has : String → Views → Type 0
    Has id s = (v : RequestView) × (p.get_view id s ≡ some v)

    abbrev pub AllCurrent : Views → Type 0
    AllCurrent s = (id : String) (v : RequestView) → p.get_view id s ≡ some v → IsCurrent id v

    module _ (proj : IsProjection p) where
      project_lem :
          (request : ApprovalRequest) (last_seq : ℕ) (s : Views)
          → project service p events request at_time last_seq none s
            ≡ stored service p (view_of service p events request at_time last_seq none) s
      unfolding project
      project_lem request last_seq s =
          ap
            (λ b.
              if b
              then (ok tt, s)
              else stored service p (view_of service p events request at_time last_seq none) s)
            proj.keeps

      -- A round changes nothing, or stores one view that is current.
      abbrev Stepped : Views → Views → Type 0
      Stepped s t = (t ≡ s) ⊎ ((w : RequestView) × IsCurrent w.request_id w × (t ≡ p.upsert w s))

      rebuild_one-Stepped :
          (id : String) (n : ℕ) (s : Views)
          → IsNamed events id
          → Stepped s (rebuild_one service p events at_time id n s).1
      unfolding rebuild_one
      rebuild_one-Stepped id n s named = by_request (load_request events id) refl
        where
          by_request :
              (r : Result (Option ApprovalRequest))
              → load_request events id ≡ r
              → Stepped s (with_request service p events at_time id n s r).1
          by_request (err e) h = inl refl
          by_request (ok none) h = inl refl
          by_request (ok (some request)) h = by_entries (events_for_request id events) refl
            where
              by_entries :
                  (r : Result (List LedgerEntry))
                  → events_for_request id events ≡ r
                  → Stepped s (with_entries service p events at_time request n s r).1
              by_entries (err e) g = inl refl
              by_entries (ok es) g =
                  subst (λ out. Stepped s (one_more service p events at_time n out).1)
                    (sym (project_lem request (max_seq es) s))
                    (by_view (view_of service p events request at_time (max_seq es) none) refl)
                where
                  by_view :
                      (r : Result RequestView)
                      → view_of service p events request at_time (max_seq es) none ≡ r
                      → Stepped s (one_more service p events at_time n (stored service p r s)).1
                  by_view (err e) f = inl refl
                  by_view (ok w) f =
                      let current : IsCurrent id w = record {
                        request = request;
                        logged = h;
                        entries = es;
                        of_request = g;
                        made = f;
                      } in
                      let same = view_of-request_id request (max_seq es) f (named request h) in
                      inr (w, subst (λ i. IsCurrent i w) (sym same) current, refl)

      upsert-AllCurrent :
          (w : RequestView) (s : Views)
          → IsCurrent w.request_id w
          → AllCurrent s
          → AllCurrent (p.upsert w s)
      upsert-AllCurrent w s current all id v h = elim (Bool-cases (str_eq w.request_id id)) [
        | inr other ↦ all id v (sym (proj.upserted w id s ∙ rw other refl) ∙ h)
        | inl same ↦
            let newer : some (newer_of (p.get_view id s) w) ≡ some v =
              sym (proj.upserted w id s ∙ rw same refl) ∙ h in
            elim (newer_of-cases (p.get_view id s) w v (some_inj newer)) [
              | inl old ↦ all id v old
              | inr new ↦
                  subst (IsCurrent id) new
                    (subst (λ i. IsCurrent i w) ((eq_iff w.request_id id).0 same) current)
            ]
      ]

      upsert-Has : (w : RequestView) (id : String) (s : Views) → Has id s → Has id (p.upsert w s)
      upsert-Has w id s (v, h) = elim (Bool-cases (str_eq w.request_id id)) [
        | inr other ↦ (v, proj.upserted w id s ∙ rw other h)
        | inl same ↦ (newer_of (p.get_view id s) w, proj.upserted w id s ∙ rw same refl)
      ]

      pub rebuild_one-AllCurrent :
          (id : String) (n : ℕ) (s : Views)
          → IsNamed events id
          → AllCurrent s
          → AllCurrent (rebuild_one service p events at_time id n s).1
      rebuild_one-AllCurrent id n s named all = elim (rebuild_one-Stepped id n s named) [
        | inl same ↦ subst AllCurrent (sym same) all
        | inr (w, current, after) ↦ subst AllCurrent (sym after) (upsert-AllCurrent w s current all)
      ]

      pub rebuild_one-Has :
          (other id : String) (n : ℕ) (s : Views)
          → IsNamed events id
          → Has other s
          → Has other (rebuild_one service p events at_time id n s).1
      rebuild_one-Has other id n s named has = elim (rebuild_one-Stepped id n s named) [
        | inl same ↦ subst (Has other) (sym same) has
        | inr (w, current, after) ↦ subst (Has other) (sym after) (upsert-Has w other s has)
      ]

      pub rebuild_one-own :
          (id own : String) (request : ApprovalRequest) (n m : ℕ) (s t : Views)
          → rebuild_one service p events at_time id n s ≡ (ok m, t)
          → load_request events id ≡ ok (some request)
          → Request.request_id service.outside.sha256 request ≡ ok own
          → Has own t
      unfolding rebuild_one
      rebuild_one-own id own request n m s t done logged named =
          by_entries (events_for_request id events)
            (sym (ap (λ r. with_request service p events at_time id n s r) logged) ∙ done)
        where
          by_entries :
              (r : Result (List LedgerEntry))
              → with_entries service p events at_time request n s r ≡ (ok m, t)
              → Has own t
          by_entries (err e) h = cc
          by_entries (ok es) h =
              by_view (view_of service p events request at_time (max_seq es) none) refl (
                sym (ap (one_more service p events at_time n) (project_lem request (max_seq es) s))
                ∙ h)
            where
              by_view :
                  (r : Result RequestView)
                  → view_of service p events request at_time (max_seq es) none ≡ r
                  → one_more service p events at_time n (stored service p r s) ≡ (ok m, t)
                  → Has own t
              by_view (err e) f g = cc
              by_view (ok w) f g = subst (Has own) (ap (λ x. x.1) g) (
                newer_of (p.get_view own s) w,
                proj.upserted w own s
                    ∙ rw
                        ((eq_iff w.request_id own).1
                          (view_of-request_id request (max_seq es) f named))
                        refl,
              )
