-- ===== src/Service/Audit/Clean.antt =====
-- What a report of `verify` (src/approvo/service.py) without failures shows.
use approvo.Base.{ℕ, ℤ, String, ◌≡◌, refl, ap, ◌∙◌, Bool, true, false, &&-eq-true, Option, List}
use approvo.Result.{Result, ok, err, >>=-eq-ok, ok-injective}
use approvo.Models.Entry.{LedgerEntry}
use approvo.Models.Checkpoint.{Checkpoint}
use approvo.Chain.{verify_segment}
use approvo.Chain.Verify.{IsChain, verify_segment_sound}
use approvo.Store.Events.{EventStore, get_by_seq, scan, latest_checkpoint}
use approvo.Service.Monad.{Service}
use approvo.Service.Audit.{
  VerificationReport, report_ok, is_ok, expected_prev, walk, segment_result, decision_checks,
  status_checks, verify,
}

module _ (service : Service) where
  segment-IsChain :
      (es : List LedgerEntry) (n : ℕ) (p : String) (b : Bool)
      → is_ok (segment_result service es n p b) ≡ true
      → IsChain service.outside.sha256 n p es
  segment-IsChain es n p false h = cc
  segment-IsChain es n p true h = go (verify_segment service.outside.sha256 es n p) refl h
    where
      go :
          (r : Result (ℤ × String))
          → verify_segment service.outside.sha256 es n p ≡ r
          → is_ok r ≡ true
          → IsChain service.outside.sha256 n p es
      go (ok r) e passes = (verify_segment_sound service.outside.sha256 es n p e).0
      go (err x) e passes = cc

  -- If `verify` reports no failure, the entries it was asked for are a chain from their first number, each with the hash of its own content;
  -- the chain starts from whatever hash the first of them points to.
  pub verify-IsChain :
      (events : EventStore) (trusted : Option Checkpoint) (from_seq : ℕ) (limit : Option ℕ)
      (at_time : String) {r : VerificationReport}
      → verify service events trusted from_seq limit at_time ≡ ok r
      → report_ok r ≡ true
      → IsChain service.outside.sha256 from_seq
          (expected_prev (get_by_seq from_seq events))
          (scan from_seq limit events)
  unfolding verify
  verify-IsChain events trusted from_seq limit at_time {r} h clean =
      let es = scan from_seq limit events in
      let (published, _, h1) = >>=-eq-ok (latest_checkpoint events) _ h in
      let (on_decisions, _, h2) =
        >>=-eq-ok (decision_checks service events (walk service es).decisions_seen) _ h1 in
      let (on_statuses, _, made) =
        >>=-eq-ok (status_checks service events at_time (walk service es).request_ids) _ h2 in
      segment-IsChain es from_seq (expected_prev (get_by_seq from_seq events))
        (walk service es).all_read (&&-eq-true _ _ (ap report_ok (ok-injective made) ∙ clean)).0
