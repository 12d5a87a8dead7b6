-- ===== src/Tests/Votes.antt =====
-- Examples on the evaluation of a policy.
use approvo.Base.{
  ℕ, ◌⊎◌, String, str_eq, eq_iff, lookup, insert, hex, ◌≤◌, ◌≡◌, ◌≢◌, refl, ap, inl, inr, true,
  false, some, List, [], ◌∷◌, All, In, length, arith,
}
use approvo.Result.{ok}
use approvo.Json.Canonical.{canonical_bytes}
use approvo.Hash.{canonical_hash}
use approvo.Clock.{Datetime, before_time, add_delta, parse_rfc3339}
use approvo.Models.Request.{context_digest}
use approvo.Models.Decision.{Decision}
use approvo.Policy.Engine.{
  sorted_names, PolicyResult, pending, approved, rejected, expired, evaluate, eligible, judge,
  deadline_of, latest_of, with_verdict, roles_satisfied,
}
use approvo.Policy.Engine.Approved.{Approval, Valid, Backed, evaluate-approved, evaluate-rejected}
use approvo.Policy.Engine.Names.{NoRepeat}
use approvo.Policy.Engine.Window.{evaluate-any_time, evaluate-window}
use approvo.Policy.Engine.Counted.{Counts}
use approvo.Policy.Engine.Settled.{evaluate_complete}
use approvo.Projection.{eligible_approvers}
use approvo.Projection.Eligible.{eligible_approvers-eligible}
use approvo.Tests.Data.{toy_digest, toy_parse, request, policy, people, vote, ok_or}

abbrev context : String
context = ok_or (context_digest toy_digest request) ""

-- Bob changes his mind, the requester votes too, and eve is late the first time.
abbrev votes : List Decision
votes =
    vote context "bob" "reject" "i"
    ∷ vote context "ann" "reject" "i"
    ∷ vote context "eve" "reject" "iiiiiii"
    ∷ vote context "eve" "approve" "iii"
    ∷ vote context "bob" "approve" "ii"
    ∷ []

abbrev nothing : PolicyResult
nothing = record { status = pending; satisfied_by = []; reasons = [] }

abbrev result : PolicyResult
result = ok_or (evaluate toy_digest toy_parse request votes policy people "iiii") nothing

abbrev refusal : PolicyResult
refusal =
    ok_or
      (evaluate toy_digest toy_parse request (vote context "bob" "reject" "i" ∷ []) policy people
        "iiii")
      nothing

evaluated : evaluate toy_digest toy_parse request votes policy people "iiii" ≡ ok result
unfolding evaluate parse_rfc3339 add_delta before_time context_digest canonical_hash canonical_bytes
    judge hex eligible lookup with_verdict latest_of insert roles_satisfied
evaluated = refl

is_approved : result.status ≡ approved
unfolding evaluate parse_rfc3339 add_delta before_time context_digest canonical_hash canonical_bytes
    judge hex eligible lookup with_verdict latest_of insert roles_satisfied
is_approved = refl

evaluate-approved_example : Approval toy_digest toy_parse request votes policy people result
evaluate-approved_example =
    evaluate-approved toy_digest toy_parse request votes policy people "iiii" evaluated is_approved

abbrev bad_vote : List Decision
bad_vote = vote context "bob" "reject" "i" ∷ []

refused : evaluate toy_digest toy_parse request bad_vote policy people "iiii" ≡ ok refusal
unfolding evaluate parse_rfc3339 add_delta before_time context_digest canonical_hash canonical_bytes
    judge hex eligible lookup with_verdict latest_of insert roles_satisfied
refused = refl

is_rejected : refusal.status ≡ rejected
unfolding evaluate parse_rfc3339 add_delta before_time context_digest canonical_hash canonical_bytes
    judge hex eligible lookup with_verdict latest_of insert roles_satisfied
is_rejected = refl

evaluate-rejected_example :
    (policy.reject_is_terminal ≡ true)
    × (1 ≤ length refusal.satisfied_by)
    × NoRepeat refusal.satisfied_by
    × All (Backed toy_digest toy_parse request bad_vote policy people "reject") refusal.satisfied_by
evaluate-rejected_example =
    evaluate-rejected toy_digest toy_parse request bad_vote policy people "iiii" refused is_rejected

evaluate-any_time_example :
    evaluate toy_digest toy_parse request votes policy people "iiiiiiiiii" ≡ ok result
unfolding parse_rfc3339
evaluate-any_time_example =
    evaluate-any_time toy_digest toy_parse request votes policy people "iiii" "iiiiiiiiii" evaluated
      (inl is_approved) refl

abbrev unvoted : PolicyResult
unvoted = ok_or (evaluate toy_digest toy_parse request [] policy people "iiiiiiiiii") nothing

none_voted : evaluate toy_digest toy_parse request [] policy people "iiiiiiiiii" ≡ ok unvoted
unfolding evaluate parse_rfc3339 add_delta before_time context_digest canonical_hash canonical_bytes
    judge hex eligible lookup with_verdict latest_of insert roles_satisfied
none_voted = refl

abbrev late_time : Datetime
late_time = record { wall = 10; offset = some 86400000000 }

abbrev at_wall : ℕ → Datetime
at_wall n = record { wall = n; offset = some 86400000000 }

abbrev deadline : Datetime
deadline = at_wall 6

deadline_is : deadline_of toy_parse request policy ≡ ok deadline
unfolding deadline_of parse_rfc3339 add_delta before_time
deadline_is = refl

evaluate-window_example :
    (unvoted.status ≡ expired
      → (before_time (at_wall 6) late_time ≡ ok true)
        ⊎ (before_time (at_wall 60000001) late_time ≡ ok true))
    × (unvoted.status ≡ pending
        → (before_time (at_wall 6) late_time ≡ ok false)
          × (before_time (at_wall 60000001) late_time ≡ ok false))
unfolding parse_rfc3339 add_delta
evaluate-window_example =
    evaluate-window toy_digest toy_parse request [] policy people "iiiiiiiiii" none_voted refl refl
      refl refl

abbrev both : List Decision
both = vote context "bob" "approve" "i" ∷ vote context "eve" "approve" "i" ∷ []

abbrev accepted : PolicyResult
accepted = ok_or (evaluate toy_digest toy_parse request both policy people "iiii") nothing

both_counted : evaluate toy_digest toy_parse request both policy people "iiii" ≡ ok accepted
unfolding evaluate parse_rfc3339 add_delta before_time context_digest canonical_hash canonical_bytes
    judge hex eligible lookup with_verdict latest_of insert roles_satisfied
both_counted = refl

both_approve :
    (d : Decision) → Valid toy_digest toy_parse request both policy people d → d.verdict ≡ "approve"
both_approve d v = elim v.given [
  | inl e ↦ ap (λ (x : Decision). x.verdict) e
  | inr i ↦ elim i [ inl e ↦ ap (λ (x : Decision). x.verdict) e | inr j ↦ absurd j ]
]

context_is : context_digest toy_digest request ≡ ok context
unfolding context_digest canonical_hash canonical_bytes
context_is = refl

abbrev now_voted : Datetime
now_voted = record { wall = 1; offset = some 86400000000 }

counts :
    (who : String)
    → eligible who policy people ≡ true
    → who ≢ "ann"
    → Counts toy_parse request policy people deadline context (vote context who "approve" "i")
unfolding parse_rfc3339 before_time
counts who may other = record {
  bound = refl;
  allowed = may;
  other_person = λ sod. other;
  decided = now_voted;
  parsed = refl;
  in_time = refl;
}

bob_may : Counts toy_parse request policy people deadline context (vote context "bob" "approve" "i")
unfolding eligible
bob_may = counts "bob" refl (λ e. different ((eq_iff "bob" "ann").1 e))
  where
    different : str_eq "bob" "ann" ≡ true → ⊥
    different e = cc

eve_may : Counts toy_parse request policy people deadline context (vote context "eve" "approve" "i")
unfolding eligible lookup
eve_may = counts "eve" refl (λ e. different ((eq_iff "eve" "ann").1 e))
  where
    different : str_eq "eve" "ann" ≡ true → ⊥
    different e = cc

bob_backs : Backed toy_digest toy_parse request both policy people "approve" "bob"
bob_backs = record {
  decision = vote context "bob" "approve" "i";
  valid = record {
    given = inl refl;
    deadline = deadline;
    closes = deadline_is;
    context = context;
    digest = context_is;
    counts = bob_may;
  };
  by = refl;
  says = refl;
}

eve_backs : Backed toy_digest toy_parse request both policy people "approve" "eve"
eve_backs = record {
  decision = vote context "eve" "approve" "i";
  valid = record {
    given = inr (inl refl);
    deadline = deadline;
    closes = deadline_is;
    context = context;
    digest = context_is;
    counts = eve_may;
  };
  by = refl;
  says = refl;
}

evaluate_complete_example : accepted.status ≡ approved
unfolding lookup
evaluate_complete_example =
    evaluate_complete toy_digest toy_parse request both policy people "iiii" ("bob" ∷ "eve" ∷ [])
      both_counted both_approve (omega arith) (refl, (refl, tt)) (bob_backs, (eve_backs, tt))
      (("eve", inr (inl refl), refl), tt)

eve_listed : In "eve" (eligible_approvers request policy people)
unfolding eligible_approvers sorted_names
eve_listed = inr (inl refl)

eligible_approvers-eligible_example :
    (eligible "eve" policy people ≡ true) × (true ≡ true → ◌≢◌ {A = String} "eve" "ann")
eligible_approvers-eligible_example =
    eligible_approvers-eligible request policy people "eve"
      ((refl, (refl, (refl, tt))), (refl, (refl, (refl, tt)))) eve_listed
