-- ===== src/Service/Submit/Guarded.antt =====
-- `submit_signed_decision` of src/approvo/service.py: what it tests before it writes.
use approvo.Base.{
  ℕ, ◌+◌, ◌≤◌, ◌≡◌, refl, sym, ap, ◌∙◌, subst, ◌⊎◌, inl, inr, String, str_eq, eq_iff, Bool, true,
  false, Bool-cases, Option, none, some, ltb, arith,
}
use approvo.Result.{
  Error, Result, ok, err, or_raise-eq-ok, >>=-eq-ok, ok-injective, challenge_expired,
  signature_invalid, request_not_found,
}
use approvo.Clock.{Datetime, instant, less, max_wall, before_time, add_delta, parse_rfc3339}
use approvo.Json.{Fields}
use approvo.Models.Request.{ApprovalRequest, context_digest}
use approvo.Models.Decision.{Decision}
use approvo.Service.Monad.{Service, State, Call, now, continue_with, ◌>>=◌}
use approvo.Service.Status.{authorized, load_request, require_request, read_decision}
use approvo.Service.Submit.{
  reads, well_formed, bound_decision, not_after, in_window, must_be_true, signed_by_approver,
  submit_signed_decision,
}

signed-authorized :
    (service : Service) (envelope : Fields) (d : Decision) {u : Unit {0}}
    → signed_by_approver service envelope d ≡ ok u
    → authorized service envelope d ≡ ok true
unfolding signed_by_approver
signed-authorized service envelope d h =
    let (b, tested, passed) = >>=-eq-ok (authorized service envelope d) _ h in
    tested ∙ ap ok (go b passed)
  where
    go : (b : Bool) {u : Unit {0}} → must_be_true service b ≡ ok u → b ≡ true
    go true h = refl
    go false h = cc

-- The first time is at most `skew` microseconds after the second, and both are naive or both are aware.
abbrev pub Within : ℕ → Datetime → Datetime → Type 0
Within skew t limit = Upto t.offset limit.offset
  where
    Upto : Option ℕ → Option ℕ → Type 0
    Upto none none = t.wall ≤ limit.wall + skew
    Upto (some o) (some p) = instant t.wall o ≤ instant limit.wall p + skew
    Upto a b = ⊥

less-Within :
    (skew a b : ℕ) (o p : Option ℕ)
    → less (b + skew) p a o ≡ ok false
    → Within skew (record { wall = a; offset = o }) (record { wall = b; offset = p })
less-Within skew a b none none h = ground arith
less-Within skew a b (some o) (some p) h = ground arith
less-Within skew a b none (some p) h = cc
less-Within skew a b (some o) none h = cc

add_delta-Within :
    (skew : ℕ) (t limit : Datetime) {last : Datetime}
    → add_delta limit skew ≡ ok last
    → before_time last t ≡ ok false
    → Within skew t limit
unfolding add_delta before_time
add_delta-Within skew t limit h k = elim (Bool-cases (ltb max_wall (limit.wall + skew))) [
  | inl over ↦ cc
  | inr fits ↦ less-Within skew t.wall limit.wall t.offset limit.offset (
      ap (λ (x : Datetime). less x.wall x.offset t.wall t.offset)
        (ok-injective (sym (rw fits refl) ∙ h))
      ∙ k)
]

not_after-eq-ok :
    (service : Service) (e : Error) (b : Bool) {u : Unit {0}}
    → not_after service e b ≡ ok u
    → b ≡ false
not_after-eq-ok service e false h = refl
not_after-eq-ok service e true h = cc

well_formed-eq-ok : (r : Result Decision) {d : Decision} → well_formed r ≡ ok d → r ≡ ok d
well_formed-eq-ok (ok d) h = h
well_formed-eq-ok (err e) h = cc

module _ (service : Service) (envelope : Fields) (s : State) where
  -- The envelope carries a decision that names a request of the log and has the request's context digest. The decision was made at most
  -- `max_clock_skew` after the reading of the clock and at most that long after the end of the request's window, and is signed for its
  -- approver.
  pub record Accepted : Type 0 where
    pub decision : Decision
    pub request : ApprovalRequest
    pub read : read_decision service envelope ≡ ok decision
    pub logged : load_request s.events decision.request_id ≡ ok (some request)
    pub bound : context_digest service.outside.sha256 request ≡ ok decision.context_digest
    pub decided : Datetime
    pub present : Datetime
    pub closes : Datetime
    pub decided_at : parse_rfc3339 service.outside.parse decision.decided_at ≡ ok decided
    pub clock_reads : parse_rfc3339 service.outside.parse (service.clock s.readings) ≡ ok present
    pub closes_at : parse_rfc3339 service.outside.parse request.not_valid_after ≡ ok closes
    pub not_future : Within service.max_clock_skew decided present
    pub not_late : Within service.max_clock_skew decided closes
    pub signed : authorized service envelope decision ≡ ok true

  -- The call raises and leaves the log and the reservations as they were.
  abbrev pub Rejects : {A : Type 0} → Result A × State → Type 0
  Rejects out =
      (out.1.events ≡ s.events) × (out.1.slots ≡ s.slots) × ((e : Error) × (out.0 ≡ err e))

  step :
      {A B : Type 0} (P : Type 0) (r : Result A) (k : A → Call B) (t : State)
      → t.events ≡ s.events
      → t.slots ≡ s.slots
      → ((a : A) → r ≡ ok a → P ⊎ Rejects (k a t))
      → P ⊎ Rejects (continue_with k (r, t))
  step P (ok a) k t same same' f = f a refl
  step P (err e) k t same same' f = inr (same, same', (e, refl))

  abbrev Bound : ApprovalRequest → Decision → Type 0
  Bound request d =
      (read_decision service envelope ≡ ok d)
      × (load_request s.events d.request_id ≡ ok (some request))
      × (context_digest service.outside.sha256 request ≡ ok d.context_digest)

  bound_decision-Bound :
      {request : ApprovalRequest} {d : Decision}
      → bound_decision service envelope s.events ≡ ok (request, d)
      → Bound request d
  unfolding bound_decision require_request
  bound_decision-Bound h =
      let (d, read, h1) = >>=-eq-ok (well_formed (read_decision service envelope)) _ h in
      let (request, found, h2) = >>=-eq-ok (require_request s.events d.request_id) _ h1 in
      let (o, loaded, present) = >>=-eq-ok (load_request s.events d.request_id) _ found in
      let (context, digest, h3) = >>=-eq-ok (context_digest service.outside.sha256 request) _ h2 in
      elim (Bool-cases (str_eq d.context_digest context)) [
        | inr other ↦ absurd (ground (arith, other, h3))
        | inl same ↦
            let made = ok-injective (sym (rw same refl) ∙ h3) in
            subst (λ (x : ApprovalRequest × Decision). Bound x.0 x.1) made
              (
                well_formed-eq-ok (read_decision service envelope) read,
                loaded ∙ ap ok (or_raise-eq-ok o request_not_found present),
                digest ∙ ap ok (sym ((eq_iff d.context_digest context).0 same)),
              )
      ]

  abbrev Timely : ApprovalRequest → Decision → String → Type 0
  Timely request d at_time =
      (decided present closes : Datetime) × (parse_rfc3339 service.outside.parse d.decided_at
        ≡ ok decided)
      × (parse_rfc3339 service.outside.parse at_time ≡ ok present)
      × (parse_rfc3339 service.outside.parse request.not_valid_after ≡ ok closes)
      × Within service.max_clock_skew decided present
      × Within service.max_clock_skew decided closes

  in_window-Timely :
      (request : ApprovalRequest) (d : Decision) (at_time : String) {u : Unit {0}}
      → in_window service request d at_time ≡ ok u
      → Timely request d at_time
  unfolding in_window
  in_window-Timely request d at_time h =
      let (decided, decided_at, h1) =
        >>=-eq-ok (parse_rfc3339 service.outside.parse d.decided_at) _ h in
      let (present, reads, h2) = >>=-eq-ok (parse_rfc3339 service.outside.parse at_time) _ h1 in
      let (limit, grown, h3) = >>=-eq-ok (add_delta present service.max_clock_skew) _ h2 in
      let (future, tested, h4) = >>=-eq-ok (before_time limit decided) _ h3 in
      let (_, passed, h5) = >>=-eq-ok (not_after service signature_invalid future) _ h4 in
      let (closes, ends, h6) =
        >>=-eq-ok (parse_rfc3339 service.outside.parse request.not_valid_after) _ h5 in
      let (last, grown', h7) = >>=-eq-ok (add_delta closes service.max_clock_skew) _ h6 in
      let (late, tested', h8) = >>=-eq-ok (before_time last decided) _ h7 in
      let early = not_after-eq-ok service signature_invalid future passed in
      let open_still = not_after-eq-ok service challenge_expired late h8 in
      (
        decided,
        present,
        closes,
        decided_at,
        reads,
        ends,
        add_delta-Within service.max_clock_skew decided present grown (tested ∙ ap ok early),
        add_delta-Within service.max_clock_skew decided closes grown' (tested' ∙ ap ok open_still),
      )

  -- `submit_signed_decision` raises and changes neither the log nor the reservations, unless the envelope carries a decision that names a
  -- request of the log and has its context digest, that was made at most `max_clock_skew` after the reading of the clock and at most that
  -- long after the end of the request's window, and that is signed for its approver.
  pub submit-Accepted : Accepted ⊎ Rejects (submit_signed_decision service envelope s)
  unfolding submit_signed_decision ◌>>=◌ reads
  submit-Accepted =
      let t : State = (now service s).1 in
      step Accepted (bound_decision service envelope s.events) _ s refl refl λ bound is_bound.
        step Accepted (in_window service bound.0 bound.1 (service.clock s.readings)) _ t refl refl
          λ timely in_time.
            step Accepted (signed_by_approver service envelope bound.1) _ t refl refl
              λ signed is_signed.
                let (read, logged, same) = bound_decision-Bound is_bound in
                let (
                  decided, present, closes, decided_at, clock_reads, closes_at, not_future,
                  not_late,
                ) =
                  in_window-Timely bound.0 bound.1 (service.clock s.readings) in_time in
                inl (record {
                  decision = bound.1;
                  request = bound.0;
                  read = read;
                  logged = logged;
                  bound = same;
                  decided = decided;
                  present = present;
                  closes = closes;
                  decided_at = decided_at;
                  clock_reads = clock_reads;
                  closes_at = closes_at;
                  not_future = not_future;
                  not_late = not_late;
                  signed = signed-authorized service envelope bound.1 is_signed;
                })
