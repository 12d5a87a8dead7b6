-- ===== src/Service/Append/Quiet.antt =====
-- When `_append` of src/approvo/service.py succeeds although other callers append too.
use approvo.Base.{
  true, ℕ, zero, suc, ◌+◌, ◌<◌, ◌≡◌, refl, sym, ap, ◌∙◌, Option, Bytes, [], ◌∷◌, ◌++◌, length, ◌==◌,
  subst, arith,
}
use approvo.Result.{Error, Result, ok, err, ledger_conflict}
use approvo.Models.Entry.{LedgerEntry}
use approvo.Store.Events.{EventStore, head, append, index_entry}
use approvo.Service.Monad.{Draft, Service, State}
use approvo.Service.Append.{
  seal, run_others, log_at_head, log_at_append, finish, append_loop, append_event, after_conflict,
  sha,
}
use approvo.Service.Append.Log.{IsSound, run_others-IsSound, seal-seq}

append_refused :
    (e : LedgerEntry) (store : EventStore) {x : Error}
    → append e store ≡ err x
    → x ≡ ledger_conflict
unfolding append
append_refused e store h = ground arith

append_next :
    (e : LedgerEntry) (store : EventStore)
    → e.seq ≡ length store.entries
    → append e store
      ≡ ok (record {
        entries = store.entries ++ e ∷ [];
        by_request = index_entry e store.by_request;
      })
unfolding append
append_next e store h = rw (==→true e.seq (length store.entries) h) refl
  where
    ==→true : (a b : ℕ) → a ≡ b → (a == b) ≡ true
    ==→true a b h = ground arith

module _ (sha256 : Bytes → Bytes) where
  run_others_nil : (store : EventStore) → run_others sha256 [] store ≡ store
  unfolding run_others
  run_others_nil store = refl

module _ (service : Service) (d : Draft)
    (seals : (prev : Option LedgerEntry)
      → (e : LedgerEntry) × (seal (sha service) prev d ≡ ok e)) where
  -- A call that returns an entry.
  abbrev pub Returns : Result LedgerEntry × State → Type 0
  Returns out = (e : LedgerEntry) × (t : State) × (out ≡ (ok e, t))

  -- The state in which the attempt has taken its turn.
  abbrev mid : State → State
  mid s = record s { events = log_at_append service s; attempts = s.attempts + 1 }

  retried :
      (n k : ℕ) (x : Error) (s : State)
      → k < n
      → x ≡ ledger_conflict
      → Returns (append_loop service n d s)
      → Returns (after_conflict n (append_loop service n d) x s)
  retried zero k x s inside conflict again = absurd (omega arith)
  retried (suc m) k x s inside conflict again =
      subst (λ y. Returns (after_conflict (suc m) (append_loop service (suc m) d) y s))
        (sym conflict) again

  -- An attempt during which nobody else appends.
  undisturbed :
      (n : ℕ) (s : State) (e : LedgerEntry)
      → IsSound (sha service) (log_at_head service s)
      → service.late s.attempts ≡ []
      → seal (sha service) (head (log_at_head service s)) d ≡ ok e
      → Returns (finish n (append_loop service n d) e (append e (log_at_append service s)) (mid s))
  undisturbed n s e sound quiet sealed =
      let same : log_at_append service s ≡ log_at_head service s =
        ap (λ ds. run_others (sha service) ds (log_at_head service s)) quiet
        ∙ run_others_nil (sha service) (log_at_head service s) in
      let next = seal-seq (sha service) (log_at_head service s).entries d sound.chained sealed in
      let appended = ap (append e) same ∙ append_next e (log_at_head service s) next in
      let after : EventStore = record {
        entries = (log_at_head service s).entries ++ e ∷ [];
        by_request = index_entry e (log_at_head service s).by_request;
      } in
      rw appended (e, record (mid s) { events = after }, refl)

  one_more :
      (n k : ℕ) (s : State) (e : LedgerEntry)
      → IsSound (sha service) (log_at_head service s)
      → seal (sha service) (head (log_at_head service s)) d ≡ ok e
      → k < suc n
      → service.late (s.attempts + k) ≡ []
      → ((j : ℕ) → k ≡ suc j → Returns (append_loop service n d (mid s)))
      → (r : Result EventStore) → append e (log_at_append service s) ≡ r
      → Returns (finish n (append_loop service n d) e r (mid s))
  one_more n zero s e sound sealed inside quiet again r appended =
      subst (λ o. Returns (finish n (append_loop service n d) e o (mid s))) appended
        (undisturbed n s e sound (ap service.late (omega arith) ∙ quiet) sealed)
  one_more n (suc j) s e sound sealed inside quiet again (ok after) appended =
      (e, record (mid s) { events = after }, refl)
  one_more n (suc j) s e sound sealed inside quiet again (err x) appended =
      retried n j x (mid s) (omega arith) (append_refused e (log_at_append service s) appended)
        (again j refl)

  append_loop-Returns :
      (n k : ℕ) (s : State)
      → IsSound (sha service) s.events
      → k < n
      → service.late (s.attempts + k) ≡ []
      → Returns (append_loop service n d s)
  unfolding append_loop
  append_loop-Returns zero k s sound inside quiet = absurd (omega arith)
  append_loop-Returns (suc n) k s sound inside quiet =
      let at_head =
        (run_others-IsSound (sha service) (service.early s.attempts) s.events sound).0 in
      let at_append =
        (run_others-IsSound (sha service) (service.late s.attempts) (log_at_head service s)
          at_head).0 in
      let (e, sealed) = seals (head (log_at_head service s)) in
      rw sealed (
        one_more n k s e at_head sealed inside quiet
          (λ j after_first.
            append_loop-Returns n j (mid s) at_append (omega arith)
              (ap service.late (omega arith) ∙ quiet))
          (append e (log_at_append service s)) refl)

  -- Let the draft be one that can be sealed behind any entry, and the log be sound. If, at one of the attempts that `_append` has, no other
  -- caller appends between the reading of the head and the append, then the call returns an entry, whatever the others append at every
  -- other time.
  pub append_event-Returns :
      (k : ℕ) (s : State)
      → IsSound (sha service) s.events
      → k < service.append_attempts
      → service.late (s.attempts + k) ≡ []
      → Returns (append_event service d s)
  unfolding append_event
  append_event-Returns k s sound inside quiet =
      append_loop-Returns service.append_attempts k s sound inside quiet
