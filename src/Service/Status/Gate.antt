-- ===== src/Service/Status/Gate.antt =====
-- What a deploy gate may conclude from `get_status` of src/approvo/service.py.
use approvo.Base.{
  String, str_eq, eq_iff, ◌≡◌, refl, sym, ap, ◌∙◌, inl, inr, Bool, true, Bool-cases, List, [], ◌∷◌,
  All, All-weaken, In, keep, subst, arith,
}
use approvo.Result.{Error, Result, ok, err, >>=-eq-ok, ok-injective, Result-cases}
use approvo.Models.Request.{ApprovalRequest, request_id}
use approvo.Models.Decision.{Decision}
use approvo.Models.Entry.{LedgerEntry}
use approvo.Policy.Model.{Policy, digest, get}
use approvo.Policy.Engine.{approved, evaluate}
use approvo.Policy.Engine.Approved.{Approval, evaluate-approved}
use approvo.Store.Events.{events_for_request}
use approvo.Store.Events.Index.{IsIndexed, is_for, events_for_request-keep}
use approvo.Service.Monad.{Service, State, now}
use approvo.Service.Status.{
  StatusRecord, require_request, authorized, read_decision, authorized_decisions, decisions_for,
  recompute, status_of, get_status,
}

keep-In :
    (p : LedgerEntry → Bool) (es : List LedgerEntry) (e : LedgerEntry)
    → In e (keep p es)
    → In e es × (p e ≡ true)
keep-In p [] e i = absurd i
keep-In p (x ∷ es) e i = elim (Bool-cases (p x)) [
  | inr dropped ↦ let (there, passes) = keep-In p es e (rw dropped at i) in (inr there, passes)
  | inl kept ↦ elim (rw kept at i) [
    | inl here ↦ (inl here, ap p here ∙ kept)
    | inr later ↦ let (there, passes) = keep-In p es e later in (inr there, passes)
  ]
]

module _ (service : Service) where
  -- The decision stands in an entry of the list, whose envelope carries a signature that authorizes it.
  pub record Recorded (es : List LedgerEntry) (d : Decision) : Type 0 where
    pub entry : LedgerEntry
    pub among : In entry es
    pub kind : entry.event_type ≡ "decision.recorded"
    pub reads : read_decision service entry.payload ≡ ok d
    pub passes : authorized service entry.payload d ≡ ok true

  authorized_decisions-Recorded :
      (es : List LedgerEntry) {ds : List Decision}
      → authorized_decisions service es ≡ ok ds
      → All (Recorded es) ds
  unfolding authorized_decisions
  authorized_decisions-Recorded [] h = subst (All (Recorded [])) (ok-injective h) tt
  authorized_decisions-Recorded (e ∷ es) {ds} h =
      let later : (ds : List Decision)
          → authorized_decisions service es ≡ ok ds
          → All (Recorded (e ∷ es)) ds =
        λ ds k.
          All-weaken (Recorded es) (Recorded (e ∷ es)) ds
            (λ d r. record {
              entry = r.entry;
              among = inr r.among;
              kind = r.kind;
              reads = r.reads;
              passes = r.passes;
            })
            (authorized_decisions-Recorded es k) in
      elim (Bool-cases (str_eq e.event_type "decision.recorded")) [
        | inr other ↦ later ds (rw other at h)
        | inl kind ↦
            let (d, reads, h1) = >>=-eq-ok (read_decision service e.payload) _ (rw kind at h) in
            let (passes, tested, h2) = >>=-eq-ok (authorized service e.payload d) _ h1 in
            let (rest, more, made) = >>=-eq-ok (authorized_decisions service es) _ h2 in
            elim (Bool-cases passes) [
              | inr refused ↦
                  subst (All (Recorded (e ∷ es))) (ok-injective (rw refused at made))
                    (later rest more)
              | inl accepted ↦
                  subst (All (Recorded (e ∷ es))) (ok-injective (rw accepted at made)) (
                    record {
                      entry = e;
                      among = inl refl;
                      kind = (eq_iff e.event_type "decision.recorded").0 kind;
                      reads = reads;
                      passes = tested ∙ ap ok accepted;
                    },
                    later rest more,
                  )
            ]
      ]

  -- The evidence behind an approved status.
  pub record Gate (s : State) (r : StatusRecord) : Type 0 where
    pub policy : Policy
    pub known : get service.policy_store r.request.policy_id ≡ ok policy
    pub pinned : digest service.outside.sha256 policy ≡ ok r.request.policy_digest
    pub recorded : All (Recorded s.events.entries) r.decisions
    pub approval :
        Approval service.outside.sha256 service.outside.parse r.request r.decisions policy
          service.identities r.policy_result

  recompute-Gate :
      (s : State) (request : ApprovalRequest) (at_time : String) {r : StatusRecord}
      → IsIndexed s.events
      → recompute service s.events request at_time ≡ ok r
      → r.policy_result.status ≡ approved
      → Gate s r
  unfolding recompute decisions_for
  recompute-Gate s request at_time {r} w h is_approved =
      let (policy, known, h1) = >>=-eq-ok (get service.policy_store request.policy_id) _ h in
      let (pinned, computed, h2) = >>=-eq-ok (digest service.outside.sha256 policy) _ h1 in
      elim (Bool-cases (str_eq pinned request.policy_digest)) [
        | inr changed ↦ absurd (ground (arith, changed, h2))
        | inl same ↦
            let (decisions, found, h3) =
              >>=-eq-ok (decisions_for service s.events request) _ (rw same at h2) in
            let (id, named, found1) =
              >>=-eq-ok (request_id service.outside.sha256 request) _ found in
            let (es, events, found2) = >>=-eq-ok (events_for_request id s.events) _ found1 in
            let (result, evaluated, made) =
              >>=-eq-ok
                (evaluate service.outside.sha256 service.outside.parse request decisions policy
                  service.identities at_time)
                _ h3 in
            let kept : es ≡ keep (is_for id) s.events.entries =
              ok-injective (sym events ∙ events_for_request-keep s.events id w) in
            let from_log : All (Recorded s.events.entries) decisions =
              All-weaken (Recorded es) (Recorded s.events.entries) decisions
                (λ d p. record {
                  entry = p.entry;
                  among =
                      (keep-In (is_for id) s.events.entries p.entry
                        (subst (In p.entry) kept p.among)).0;
                  kind = p.kind;
                  reads = p.reads;
                  passes = p.passes;
                })
                (authorized_decisions-Recorded es found2) in
            let final : StatusRecord = record {
              request = request;
              decisions = decisions;
              policy_result = result;
            } in
            let same_record : final ≡ r = ok-injective made in
            subst (Gate s) same_record (record {
              policy = policy;
              known = known;
              pinned = computed ∙ ap ok ((eq_iff pinned request.policy_digest).0 same);
              recorded = from_log;
              approval =
                  evaluate-approved service.outside.sha256 service.outside.parse request decisions
                    policy service.identities at_time evaluated
                    (ap (λ (x : StatusRecord). x.policy_result.status) same_record ∙ is_approved);
            })
      ]

  -- On an indexed log: if `get_status` returns a record whose status is `approved`, the policy in force is the one the request has
  -- pinned by its digest, each decision it was evaluated on stands in the log in an envelope that is signed for its approver, and
  -- these decisions make an approval under the policy. Reading changes neither the log nor the reservations.
  pub get_status-approved :
      (id : String) (s t : State) {r : StatusRecord}
      → IsIndexed s.events
      → get_status service id s ≡ (ok r, t)
      → r.policy_result.status ≡ approved
      → Gate s r × (t.events ≡ s.events) × (t.slots ≡ s.slots)
  unfolding get_status
  get_status-approved id s t {r} w h is_approved =
      elim (Result-cases (require_request s.events id)) [
        | inr (x, missing) ↦ absurd (
            differ x (
              ap (λ (y : Result StatusRecord × State). y.0)
                (ap (λ q. status_of service q s) (sym missing) ∙ h)))
        | inl (request, found) ↦
            let h' : (
              recompute service s.events request (service.clock s.readings),
              (now service s).1,
            )
                ≡ (ok r, t) =
              ap (λ q. status_of service q s) (sym found) ∙ h in
            let after : (now service s).1 ≡ t = ap (λ (x : Result StatusRecord × State). x.1) h' in
            (
              recompute-Gate s request (service.clock s.readings) w
                  (ap (λ (x : Result StatusRecord × State). x.0) h') is_approved,
              sym (ap (λ (x : State). x.events) after),
              sym (ap (λ (x : State). x.slots) after),
            )
      ]
    where
      differ : (x : Error) → err x ≡ ok r → ⊥
      differ x e = cc
