-- ===== src/Store/Events.antt =====
-- `MemoryEventStore` of tests/memory_stores.py: the entries in order, and an index of their numbers by request.
pub mod Index
use approvo.Base.{
  ℕ, ◌+◌, String, str_eq, is_empty, Bool, true, false, ◌&&◌, not, Option, none, some, List, [], ◌∷◌,
  ◌++◌, map, length, get_elem?, get_last?, take, drop, keep, Dict, lookup, insert, if◌then◌else◌,
  ◌==◌,
}
use Prim.Native.Nat.{min}
use approvo.Result.{Result, ok, err, or_raise, ledger_conflict, index_error, ◌>>=◌}
use approvo.Json.{dict}
use approvo.Models.Entry.{LedgerEntry}
use approvo.Models.Checkpoint.{Checkpoint, from_dict}

pub record EventStore : Type 0 where
  pub entries : List LedgerEntry
  pub by_request : Dict (List ℕ)

abbrev pub empty_store : EventStore
empty_store = record { entries = []; by_request = [] }

abbrev pub or_empty : Option (List ℕ) → List ℕ
or_empty none = []
or_empty (some ns) = ns

-- `self._by_request.get(request_id, ())`
abbrev pub numbers_of : String → Dict (List ℕ) → List ℕ
numbers_of request_id index = or_empty (lookup request_id index)

-- `if entry.request_id: self._by_request.setdefault(entry.request_id, []).append(entry.seq)`
abbrev pub index_under : Option String → ℕ → Dict (List ℕ) → Dict (List ℕ)
index_under none seq index = index
index_under (some id) seq index =
    if is_empty id then index else insert id (numbers_of id index ++ seq ∷ []) index

abbrev pub index_entry : LedgerEntry → Dict (List ℕ) → Dict (List ℕ)
index_entry e index = index_under e.request_id e.seq index

abbrev pub head : EventStore → Option LedgerEntry
head store = get_last? store.entries

unfoldable pub append : LedgerEntry → EventStore → Result EventStore
append e store =
    if not (e.seq == length store.entries)
    then err ledger_conflict
    else ok
        (record { entries = store.entries ++ e ∷ []; by_request = index_entry e store.by_request })

abbrev pub index_all : List LedgerEntry → Dict (List ℕ) → Dict (List ℕ)
index_all [] index = index
index_all (e ∷ es) index = index_all es (index_entry e index)

-- `from_entries`, without any check
abbrev pub from_entries : List LedgerEntry → EventStore
from_entries es = record { entries = es; by_request = index_all es [] }

abbrev pub get_by_seq : ℕ → EventStore → Option LedgerEntry
get_by_seq seq store = get_elem? store.entries seq

-- `[entries[s] for s in ns]`
abbrev pub pick : List LedgerEntry → List ℕ → Result (List LedgerEntry)
pick es [] = ok []
pick es (n ∷ ns) = do e ← or_raise (get_elem? es n) index_error; rest ← pick es ns; ok (e ∷ rest)

unfoldable pub events_for_request : String → EventStore → Result (List LedgerEntry)
events_for_request request_id store = pick store.entries (numbers_of request_id store.by_request)

-- `entries[start:stop]`
abbrev pub scan : ℕ → Option ℕ → EventStore → List LedgerEntry
scan start none store = drop start store.entries
scan start (some limit) store =
    drop start (take (min (start + limit) (length store.entries)) store.entries)

abbrev hash_of : LedgerEntry → String
hash_of e = e.entry_hash

abbrev pub leaf_hashes : Option ℕ → EventStore → List String
leaf_hashes none store = map hash_of store.entries
leaf_hashes (some up_to) store = take up_to (map hash_of store.entries)

-- The last entry that published a checkpoint.
abbrev pub last_published : List LedgerEntry → Option LedgerEntry
last_published [] = none
last_published (e ∷ es) = elim (last_published es) [
  | some found ↦ some found
  | none ↦ if str_eq e.event_type "checkpoint.published" then some e else none
]

unfoldable pub latest_checkpoint : EventStore → Result (Option Checkpoint)
latest_checkpoint store = elim (last_published store.entries) [
  | none ↦ ok none
  | some e ↦ do cp ← from_dict (dict e.payload); ok (some cp)
]
