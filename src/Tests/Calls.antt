-- ===== src/Tests/Calls.antt =====
-- Examples on the stores and the calls of the service.
use approvo.Base.{◌≡◌, refl, ◌⊎◌, Option, none, some, arith, [], ◌∷◌, keep, lookup, insert}
use approvo.Result.{ok}
use approvo.Json.{end}
use approvo.Models.Entry.{LedgerEntry}
use approvo.Store.Events.{EventStore, empty_store, append, events_for_request}
use approvo.Store.Events.Index.{IsIndexed, append-IsIndexed, events_for_request-keep, is_for}
use approvo.Service.Append.{append_event}
use approvo.Service.Monad.{State}
use approvo.Json.Canonical.{canonical_bytes}
use approvo.Chain.{next_entry}
use approvo.Service.Append.Quiet.{append_event-Returns}
use approvo.Service.Append.Log.{IsSound, Ends, append_event-Ends}
use approvo.Service.Submit.{create_request, submit_signed_decision}
use approvo.Service.Submit.Keeps.{Kept, create_request-IsSound, submit-IsSound}
use approvo.Service.Submit.Guarded.{Accepted, Rejects, submit-Accepted}
use approvo.Service.Decide.{publish_checkpoint}
use approvo.Service.Decide.Publish.{publish_checkpoint-IsSound}
use approvo.Service.Audit.{VerificationReport, verify}
use approvo.Service.Audit.Clean.{verify-IsChain}
use approvo.Chain.{verify_segment}
use approvo.Chain.Verify.{IsChain}
use approvo.Hash.{zero_hash, canonical_hash}
use approvo.Store.Events.{latest_checkpoint}
use approvo.Tests.Data.{ok_or, toy_digest, service, start, draft, envelope, blank}

empty-IsIndexed : IsIndexed empty_store
unfolding lookup
empty-IsIndexed = record { numbered = tt; indexed = λ id. refl }

start-IsSound : IsSound toy_digest start.events
start-IsSound = record { chained = tt; indexed = empty-IsIndexed }

append_event-Ends_example :
    Ends toy_digest draft start
      (append_event service draft start).0
      (append_event service draft start).1
append_event-Ends_example = append_event-Ends service draft start start-IsSound

create_request-IsSound_example :
    Kept service start (create_request service "release" end "ann" "p" "iiiiii" none start)
create_request-IsSound_example =
    create_request-IsSound service "release" end "ann" "p" "iiiiii" none start start-IsSound

submit-IsSound_example : Kept service start (submit_signed_decision service envelope start)
submit-IsSound_example = submit-IsSound service envelope start start-IsSound

submit-Accepted_example :
    Accepted service envelope start
    ⊎ Rejects service envelope start (submit_signed_decision service envelope start)
submit-Accepted_example = submit-Accepted service envelope start

abbrev first : LedgerEntry
first = record blank { request_id = some "r" }

abbrev one : EventStore
one = record { entries = first ∷ []; by_request = ("r", 0 ∷ []) ∷ [] }

one-IsIndexed : IsIndexed one
unfolding append lookup insert
one-IsIndexed = append-IsIndexed first empty_store empty-IsIndexed refl

events_for_request-keep_example : events_for_request "r" one ≡ ok (keep (is_for "r") (first ∷ []))
events_for_request-keep_example = events_for_request-keep one "r" one-IsIndexed

publish_checkpoint-IsSound_example :
    Kept service start (publish_checkpoint service (some ("k", λ bs. bs)) start)
publish_checkpoint-IsSound_example =
    publish_checkpoint-IsSound service (some ("k", λ bs. bs)) start start-IsSound

abbrev no_report : VerificationReport
no_report = record { checks = []; verified_from_seq = 0; verified_to_seq = 0 }

abbrev report : VerificationReport
report = ok_or (verify service empty_store none 0 none "ii") no_report

was_verified : verify service empty_store none 0 none "ii" ≡ ok report
unfolding verify latest_checkpoint
was_verified = refl

verify-IsChain_example : IsChain toy_digest 0 zero_hash []
unfolding verify latest_checkpoint verify_segment
verify-IsChain_example = verify-IsChain service empty_store none 0 none "ii" was_verified refl

-- The draft of another caller comes first; the second attempt is left alone.
draft-seals :
    (prev : Option LedgerEntry)
    → (e : LedgerEntry) × (next_entry toy_digest prev draft.event_type draft.payload draft.at_time
          draft.request_id
        ≡ ok e)
unfolding next_entry canonical_bytes canonical_hash
draft-seals none = (_, refl)
draft-seals (some prev) = (_, refl)

append_event-Returns_example :
    (e : LedgerEntry) × (t : State) × (append_event service draft start ≡ (ok e, t))
append_event-Returns_example =
    append_event-Returns service draft draft-seals 1 start start-IsSound (omega arith) refl
