-- ===== src/Policy/Engine/Window.antt =====
-- `evaluate` (src/approvo/policy/engine.py) and the time of the call.
use approvo.Base.{
  ℕ, ◌*◌, some, none, arith, String, Bytes, ◌≡◌, refl, sym, ap, ◌∙◌, ◌⊎◌, inl, inr, Bool, true,
  false, ◌&&◌, Bool-cases, Option, List, Dict, length, ltb, leb,
}
use approvo.Result.{Result, ok, >>=-eq-ok, ok-injective}
use approvo.Clock.{add_delta, less, Datetime, before_time, parse_rfc3339}
use approvo.Models.Request.{ApprovalRequest, context_digest}
use approvo.Models.Decision.{Decision}
use approvo.Policy.Model.{Policy}
use approvo.Policy.Engine.{
  pending, approved, rejected, expired, PolicyResult, Reason, Identities, roles_satisfied, earlier,
  with_verdict, latest_of, deadline_of, count_decisions, conclude, evaluate,
}
use approvo.Policy.Engine.Outcome.{by_reject, by_threshold, by_time, undecided}
use approvo.Policy.Engine.Approved.{evaluate-Opened}

conclude-closed :
    (request : ApprovalRequest) (policy : Policy) (identities : Identities)
    (closed other : Result Bool) (latest : Dict Decision) (reasons : List Reason) {r : PolicyResult}
    → conclude request policy identities closed latest reasons ≡ ok r
    → (r.status ≡ approved) ⊎ (r.status ≡ rejected)
    → conclude request policy identities other latest reasons ≡ ok r
unfolding conclude
conclude-closed request policy identities closed other latest reasons {r} h s =
    elim (Bool-cases (policy.reject_is_terminal && ltb 0 (length (with_verdict "reject" latest)))) [
      | inl stop ↦ rw stop (rw stop at h)
      | inr go ↦
          elim (Bool-cases (
            leb policy.threshold (length (with_verdict "approve" latest))
            && roles_satisfied (with_verdict "approve" latest) policy identities)) [
              | inl met ↦ rw (go, met) (rw (go, met) at h)
              | inr unmet ↦
                  let (is_closed, tested, made) = >>=-eq-ok closed _ (rw (go, unmet) at h) in
                  elim (Bool-cases is_closed) [
                    | inl late ↦
                        let t =
                          ap (λ (x : PolicyResult). x.status) (ok-injective (rw late at made)) in
                        absurd (elim s [ inl a ↦ cc | inr a ↦ cc ])
                    | inr early ↦
                        let t =
                          ap (λ (x : PolicyResult). x.status) (ok-injective (rw early at made)) in
                        absurd (elim s [ inl a ↦ cc | inr a ↦ cc ])
                  ]
            ]
    ]

deadline_of_lem :
    (parse : String → Option Datetime) (request : ApprovalRequest) (policy : Policy)
    {closes created aged : Datetime}
    → parse_rfc3339 parse request.not_valid_after ≡ ok closes
    → parse_rfc3339 parse request.created_at ≡ ok created
    → add_delta created (policy.max_age_seconds * 1000000) ≡ ok aged
    → deadline_of parse request policy ≡ earlier closes aged
unfolding deadline_of
deadline_of_lem parse request policy ends made grown = rw ends (rw made (rw grown refl))

-- What is after the earlier of two times is after one of them.
earlier-late :
    (s t now : Datetime) {deadline : Datetime}
    → earlier s t ≡ ok deadline
    → before_time deadline now ≡ ok true
    → (before_time s now ≡ ok true) ⊎ (before_time t now ≡ ok true)
unfolding earlier
earlier-late s t now h late =
    let (sooner, _, made) = >>=-eq-ok (before_time t s) _ h in
    elim (Bool-cases sooner) [
      | inl less_b ↦ inr (rw (ok-injective (rw less_b at made)) late)
      | inr not_b ↦ inl (rw (ok-injective (rw not_b at made)) late)
    ]

after_less :
    (a b c : ℕ) (o p q : Option ℕ)
    → less b p a o ≡ ok true
    → less b p c q ≡ ok false
    → less a o c q ≡ ok false
after_less a b c none none none h k = ground arith
after_less a b c (some o) (some p) (some q) h k = ground arith
after_less a b c none none (some q) h k = cc
after_less a b c none (some p) q h k = cc
after_less a b c (some o) none q h k = cc
after_less a b c (some o) (some p) none h k = cc

after_not_less :
    (a b c : ℕ) (o p q : Option ℕ)
    → less a o b p ≡ ok false
    → less b p c q ≡ ok false
    → less a o c q ≡ ok false
after_not_less a b c none none none h k = ground arith
after_not_less a b c (some o) (some p) (some q) h k = ground arith
after_not_less a b c none none (some q) h k = cc
after_not_less a b c none (some p) q h k = cc
after_not_less a b c (some o) none q h k = cc
after_not_less a b c (some o) (some p) none h k = cc

-- What is not after the earlier of two times is after neither.
earlier-early :
    (s t now : Datetime) {deadline : Datetime}
    → earlier s t ≡ ok deadline
    → before_time deadline now ≡ ok false
    → (before_time s now ≡ ok false) × (before_time t now ≡ ok false)
unfolding earlier before_time
earlier-early s t now {deadline} h early =
    let (sooner, tested, made) = >>=-eq-ok (before_time t s) _ h in
    elim (Bool-cases sooner) [
      | inl less_b ↦
          let late_t : before_time t now ≡ ok false = rw (ok-injective (rw less_b at made)) early in
          (
            after_less s.wall t.wall now.wall s.offset t.offset now.offset (tested ∙ ap ok less_b)
                late_t,
            late_t,
          )
      | inr not_b ↦
          let late_s : before_time s now ≡ ok false = rw (ok-injective (rw not_b at made)) early in
          (
            late_s,
            after_not_less t.wall s.wall now.wall t.offset s.offset now.offset
                (tested ∙ ap ok not_b) late_s,
          )
    ]

module _ (sha256 : Bytes → Bytes) (parse : String → Option Datetime) (request : ApprovalRequest)
    (decisions : List Decision) (policy : Policy) (identities : Identities) where
  -- A result `approved` or `rejected` is the same, reasons included, at every other time that can be read.
  pub evaluate-any_time :
      (at_time other : String) {r : PolicyResult} {now : Datetime}
      → evaluate sha256 parse request decisions policy identities at_time ≡ ok r
      → (r.status ≡ approved) ⊎ (r.status ≡ rejected)
      → parse_rfc3339 parse other ≡ ok now
      → evaluate sha256 parse request decisions policy identities other ≡ ok r
  unfolding evaluate
  evaluate-any_time at_time other {r} {now} h s read =
      let (_, _, h1) = >>=-eq-ok (parse_rfc3339 parse at_time) _ h in
      let (deadline, closes, h2) = >>=-eq-ok (deadline_of parse request policy) _ h1 in
      let (context, digest, h3) = >>=-eq-ok (context_digest sha256 request) _ h2 in
      let (counted, tallied, h4) =
        >>=-eq-ok (count_decisions parse request policy identities deadline context decisions) _
          h3 in
      rw (read, closes, digest, tallied)
        (conclude-closed request policy identities _ (before_time deadline now)
          (latest_of counted.0) counted.1 h4 s)

  -- If `evaluate` returns `expired`, the end of the request's window or its creation plus the policy's greatest age is before the time of
  -- the call; if it returns `pending`, neither of the two is.
  pub evaluate-window :
      (at_time : String) {r : PolicyResult} {now closes created aged : Datetime}
      → evaluate sha256 parse request decisions policy identities at_time ≡ ok r
      → parse_rfc3339 parse at_time ≡ ok now
      → parse_rfc3339 parse request.not_valid_after ≡ ok closes
      → parse_rfc3339 parse request.created_at ≡ ok created
      → add_delta created (policy.max_age_seconds * 1000000) ≡ ok aged
      → (r.status ≡ expired → (before_time closes now ≡ ok true) ⊎ (before_time aged now ≡ ok true))
        × (r.status ≡ pending
            → (before_time closes now ≡ ok false) × (before_time aged now ≡ ok false))
  evaluate-window at_time {r} {now} {closes} {created} {aged} h read ends made grown =
      let o = evaluate-Opened sha256 parse request decisions policy identities at_time h in
      let same_now : o.now ≡ now = ok-injective (sym o.read ∙ read) in
      let first : earlier closes aged ≡ ok o.deadline =
        sym (deadline_of_lem parse request policy ends made grown) ∙ o.closes in
      elim o.concluded [
        | by_reject t _ _ _ ↦ (λ s. cc, λ s. cc)
        | by_threshold t _ _ _ _ ↦ (λ s. cc, λ s. cc)
        | by_time t late _ ↦
            (λ s. earlier-late closes aged now first (rw (sym same_now) late), λ s. cc)
        | undecided t early _ ↦
            (λ s. cc, λ s. earlier-early closes aged now first (rw (sym same_now) early))
      ]
