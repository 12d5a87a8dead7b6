-- ===== src/Service/Append.antt =====
-- `_append` of src/approvo/service.py: optimistic concurrency against the live head.
pub mod Log
pub mod Quiet
use approvo.Base.{ℕ, zero, suc, ◌+◌, Option, none, some, Bytes, List, [], ◌∷◌}
use approvo.Result.{Error, Result, ok, err, ledger_conflict, concurrency_exhausted, assertion_error}
use approvo.Models.Entry.{LedgerEntry}
use approvo.Chain.{next_entry}
use approvo.Store.Events.{EventStore, head, append}
use approvo.Service.Monad.{Draft, Service, State, Call}

abbrev pub stored : EventStore → Result EventStore → EventStore
stored before_it (ok after) = after
stored before_it (err e) = before_it

abbrev pub try_append : EventStore → Result LedgerEntry → EventStore
try_append events (ok e) = stored events (append e events)
try_append events (err x) = events

abbrev pub after_conflict : ℕ → Call LedgerEntry → Error → Call LedgerEntry
after_conflict zero retry ledger_conflict s = (err concurrency_exhausted, s)
after_conflict (suc n) retry ledger_conflict s = retry s
after_conflict n retry e s = (err e, s)

abbrev pub finish : ℕ → Call LedgerEntry → LedgerEntry → Result EventStore → Call LedgerEntry
finish n retry e (ok after) s = (ok e, record s { events = after })
finish n retry e (err x) s = after_conflict n retry x s

module _ (sha256 : Bytes → Bytes) where
  abbrev pub seal : Option LedgerEntry → Draft → Result LedgerEntry
  seal prev d = next_entry sha256 prev d.event_type d.payload d.at_time d.request_id

  -- What other callers append, each against the head that it finds.
  unfoldable pub run_others : List Draft → EventStore → EventStore
  run_others [] events = events
  run_others (d ∷ ds) events = run_others ds (try_append events (seal (head events) d))

module _ (service : Service) where
  abbrev pub sha : Bytes → Bytes
  sha = service.outside.sha256

  -- The log at the moment at which the attempt reads the head, and at that at which it appends.
  abbrev pub log_at_head : State → EventStore
  log_at_head s = run_others sha (service.early s.attempts) s.events

  abbrev pub log_at_append : State → EventStore
  log_at_append s = run_others sha (service.late s.attempts) (log_at_head s)

  abbrev pub attempt : ℕ → Call LedgerEntry → Result LedgerEntry → Call LedgerEntry
  attempt n retry (err x) s = (err x, record s { events = log_at_head s })
  attempt n retry (ok e) s =
      finish n retry e (append e (log_at_append s))
        (record s { events = log_at_append s; attempts = s.attempts + 1 })

  -- `n` attempts are left.
  unfoldable pub append_loop : ℕ → Draft → Call LedgerEntry
  unfolding run_others
  append_loop zero d s = (err assertion_error, s)
  append_loop (suc n) d s = attempt n (append_loop n d) (seal sha (head (log_at_head s)) d) s

  unfoldable pub append_event : Draft → Call LedgerEntry
  unfolding append_loop
  append_event d = append_loop service.append_attempts d
