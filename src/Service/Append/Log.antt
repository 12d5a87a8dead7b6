-- ===== src/Service/Append/Log.antt =====
-- What `_append` of src/approvo/service.py does to the log, whatever other callers append meanwhile.
use approvo.Base.{
  ℕ, zero, suc, ◌+◌, Bytes, ◌≡◌, refl, sym, ap, ◌∙◌, inl, inr, Bool-cases, List, [], ◌∷◌, ◌++◌,
  append_assoc, length, get_last?, subst, ◌==◌, arith,
}
use approvo.Result.{
  Error, Result, ok, err, ok-injective, Result-cases, >>=-eq-ok, ledger_conflict,
  concurrency_exhausted,
}
use approvo.Hash.{zero_hash, canonical_hash}
use approvo.Models.Entry.{LedgerEntry}
use approvo.Chain.{next_entry}
use approvo.Chain.Verify.{IsChain, append-next_entry, after_chain}
use approvo.Store.Events.{EventStore, head, append}
use approvo.Store.Events.Index.{IsIndexed, append-IsIndexed}
use approvo.Service.Monad.{Draft, Service, State, Call}
use approvo.Service.Append.{
  seal, try_append, run_others, log_at_head, log_at_append, finish, append_loop, append_event,
  after_conflict, sha,
}

-- The log is a chain from the start, and its index agrees with it.
pub record IsSound (sha256 : Bytes → Bytes) (events : EventStore) : Type 0 where
  pub chained : IsChain sha256 0 zero_hash events.entries
  pub indexed : IsIndexed events

-- The second log is the first with more entries behind it.
abbrev pub Extends : EventStore → EventStore → Type 0
Extends old new = (more : List LedgerEntry) × (new.entries ≡ old.entries ++ more)

append_nil : (es : List LedgerEntry) → es ++ [] ≡ es
append_nil [] = refl
append_nil (e ∷ es) = ap (λ l. e ∷ l) (append_nil es)

pub Extends-refl : (s : EventStore) → Extends s s
Extends-refl s = ([], sym (append_nil s.entries))

pub Extends-trans : (r s t : EventStore) → Extends r s → Extends s t → Extends r t
Extends-trans r s t (xs, e) (ys, f) =
    (xs ++ ys, f ∙ ap (λ l. l ++ ys) e ∙ append_assoc r.entries xs ys)

same_length : (es more : List LedgerEntry) → length (es ++ more) ≡ length es → more ≡ []
same_length [] [] h = refl
same_length [] (m ∷ more) h = absurd (ground arith)
same_length (e ∷ es) more h = same_length es more (ground (arith, h))

append-entries :
    (e : LedgerEntry) (old : EventStore) {new : EventStore}
    → append e old ≡ ok new
    → (e.seq ≡ length old.entries) × (new.entries ≡ old.entries ++ e ∷ [])
unfolding append
append-entries e old {new} h = elim (Bool-cases (e.seq == length old.entries)) [
  | inr taken ↦ absurd (ground (arith, taken, h))
  | inl next ↦
      (ground (arith, next), ap (λ (s : EventStore). s.entries) (sym (ok-injective (rw next at h))))
]

module _ (sha256 : Bytes → Bytes) where
  pub seal-seq :
      (es : List LedgerEntry) (d : Draft) {e : LedgerEntry}
      → IsChain sha256 0 zero_hash es
      → seal sha256 (get_last? es) d ≡ ok e
      → e.seq ≡ length es
  unfolding next_entry
  seal-seq es d {e} c h =
      let (hash, hashed, made) = >>=-eq-ok (canonical_hash sha256 _) _ h in
      ap (λ (x : LedgerEntry). x.seq) (sym (ok-injective made)) ∙ (after_chain sha256 es c).0

  -- An entry that was sealed against the head of a log is appended to that log or, if others came first, refused.
  append-IsSound :
      (d : Draft) (e : LedgerEntry) (seen old : EventStore) {new : EventStore}
      → IsSound sha256 seen
      → IsSound sha256 old
      → Extends seen old
      → seal sha256 (head seen) d ≡ ok e
      → append e old ≡ ok new
      → IsSound sha256 new
        × (new.entries ≡ old.entries ++ e ∷ [])
        × (seal sha256 (head old) d ≡ ok e)
  append-IsSound d e seen old {new} s t (more, grown) sealed h =
      let (next, after) = append-entries e old h in
      let no_more : more ≡ [] =
        same_length seen.entries more
          (sym (ap length grown) ∙ sym next ∙ seal-seq seen.entries d s.chained sealed) in
      let same : old.entries ≡ seen.entries =
        grown ∙ ap (λ l. seen.entries ++ l) no_more ∙ append_nil seen.entries in
      let sealed_here : seal sha256 (head old) d ≡ ok e =
        ap (λ es. seal sha256 (get_last? es) d) same ∙ sealed in
      (
        record {
          chained = subst (IsChain sha256 0 zero_hash) (sym after) (
              append-next_entry sha256 old.entries d.event_type d.payload d.at_time d.request_id
                t.chained sealed_here);
          indexed = append-IsIndexed e old t.indexed h;
        },
        after,
        sealed_here,
      )

  try_append-IsSound :
      (d : Draft) (old : EventStore) (r : Result LedgerEntry)
      → seal sha256 (head old) d ≡ r
      → IsSound sha256 old
      → IsSound sha256 (try_append old r) × Extends old (try_append old r)
  try_append-IsSound d old (err x) h s = (s, Extends-refl old)
  try_append-IsSound d old (ok e) h s = elim (Result-cases (append e old)) [
    | inl (new, appended) ↦
        let (sound, after, _) = append-IsSound d e old old s s (Extends-refl old) h appended in
        rw appended (sound, (e ∷ [], after))
    | inr (x, refused) ↦ rw refused (s, Extends-refl old)
  ]

  pub run_others-IsSound :
      (ds : List Draft) (old : EventStore)
      → IsSound sha256 old
      → IsSound sha256 (run_others sha256 ds old) × Extends old (run_others sha256 ds old)
  unfolding run_others
  run_others-IsSound [] old s = (s, Extends-refl old)
  run_others-IsSound (d ∷ ds) old s =
      let mid = try_append old (seal sha256 (head old) d) in
      let (sound, longer) = try_append-IsSound d old (seal sha256 (head old) d) refl s in
      let (sound', longer') = run_others-IsSound ds mid sound in
      (sound', Extends-trans old mid (run_others sha256 ds mid) longer longer')

-- How a call of `_append` ends: the log is sound and has only grown, and an entry that is returned is its last one, sealed against the
-- entries before it, and made of what was asked for.
pub record Ends (sha256 : Bytes → Bytes) (d : Draft) (s : State) (r : Result LedgerEntry)
    (t : State) : Type 0 where
  pub sound : IsSound sha256 t.events
  pub grown : Extends s.events t.events
  pub last :
      (e : LedgerEntry)
      → r ≡ ok e
      → (old : EventStore) × Extends s.events old
        × (t.events.entries ≡ old.entries ++ e ∷ [])
        × (seal sha256 (head old) d ≡ ok e)

module _ (service : Service) where
  abbrev EndsCall : Draft → State → Result LedgerEntry × State → Type 0
  EndsCall d s out = Ends (sha service) d s out.0 out.1

  failed :
      (d : Draft) (s : State) (x : Error) (t : State)
      → IsSound (sha service) t.events
      → Extends s.events t.events
      → EndsCall d s (err x, t)
  failed d s x t sound grown = record { sound = sound; grown = grown; last = λ e h. cc }

  finish-EndsCall :
      (n : ℕ) (retry : Call LedgerEntry) (d : Draft) (s : State) (e : LedgerEntry)
      (seen : EventStore) (mid : State) (r : Result EventStore)
      → append e mid.events ≡ r
      → IsSound (sha service) seen
      → IsSound (sha service) mid.events
      → Extends seen mid.events
      → Extends s.events mid.events
      → seal (sha service) (head seen) d ≡ ok e
      → EndsCall d s (retry mid)
      → EndsCall d s (finish n retry e r mid)
  finish-EndsCall n retry d s e seen mid (ok new) h p q grown since sealed again =
      let (sound, after, here) =
        append-IsSound (sha service) d e seen mid.events p q grown sealed h in
      record {
        sound = sound;
        grown = Extends-trans s.events mid.events new since (e ∷ [], after);
        last = λ x same.
            subst
              (λ y.
                (old : EventStore) × Extends s.events old
                × (new.entries ≡ old.entries ++ y ∷ [])
                × (seal (sha service) (head old) d ≡ ok y))
              (ok-injective same) (mid.events, since, after, here);
      }
  finish-EndsCall n retry d s e seen mid (err x) h p q grown since sealed again = conflict n x
    where
      conflict : (n : ℕ) (x : Error) → EndsCall d s (after_conflict n retry x mid)
      conflict zero ledger_conflict = failed d s concurrency_exhausted mid q since
      conflict (suc n) ledger_conflict = again
      conflict zero x = failed d s x mid q since
      conflict (suc n) x = failed d s x mid q since

  append_loop-EndsCall :
      (n : ℕ) (d : Draft) (s : State)
      → IsSound (sha service) s.events
      → EndsCall d s (append_loop service n d s)
  unfolding append_loop
  append_loop-EndsCall zero d s p = failed d s _ s p (Extends-refl s.events)
  append_loop-EndsCall (suc n) d s p =
      let (at_head, grown) =
        run_others-IsSound (sha service) (service.early s.attempts) s.events p in
      let (at_append, grown') =
        run_others-IsSound (sha service) (service.late s.attempts) (log_at_head service s)
          at_head in
      let since =
        Extends-trans s.events (log_at_head service s) (log_at_append service s) grown grown' in
      let mid : State = record s { events = log_at_append service s; attempts = s.attempts + 1 } in
      let again = append_loop-EndsCall n d mid at_append in
      let again' : EndsCall d s (append_loop service n d mid) = record {
        sound = again.sound;
        grown =
            Extends-trans s.events mid.events (append_loop service n d mid).1.events since
              again.grown;
        last = λ e h.
            let (old, longer, after, sealed) = again.last e h in
            (old, Extends-trans s.events mid.events old since longer, after, sealed);
      } in
      elim (Result-cases (seal (sha service) (head (log_at_head service s)) d)) [
        | inr (x, refused) ↦
            rw refused (failed d s x (record s { events = log_at_head service s }) at_head grown)
        | inl (e, sealed) ↦ rw sealed (
            finish-EndsCall n (append_loop service n d) d s e (log_at_head service s) mid
              (append e (log_at_append service s)) refl at_head at_append grown' since sealed
              again')
      ]

  -- On a log that is a chain and indexed, a call of `_append`, however it ends and whatever other callers append at any of its attempts,
  -- leaves such a log with all old entries in place; if it returns an entry, that entry is the last of the log, the one that
  -- `next_entry` makes of the draft against the entries before it.
  pub append_event-Ends :
      (d : Draft) (s : State)
      → IsSound (sha service) s.events
      → Ends (sha service) d s (append_event service d s).0 (append_event service d s).1
  unfolding append_event
  append_event-Ends d s p = append_loop-EndsCall service.append_attempts d s p
