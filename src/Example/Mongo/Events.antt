-- ===== src/Example/Mongo/Events.antt =====
-- `MongoEventStore` of examples/vehicle-release-approvals/app/mongo_stores.py.
pub mod Ids
pub mod Numbered
pub mod Lists
pub mod Reads
pub mod Refines
use approvo.Base.{
  ℕ, String, codes, str_eq, ltb, leb, Bool, true, false, ◌&&◌, Option, none, some, List, [], ◌∷◌,
  map, Bytes, append_text, if◌then◌else◌,
}
use approvo.Result.{Result, ok, or_raise, ledger_conflict, ◌>>=◌}
use approvo.Json.{dict, Fields}
use approvo.Example.Mongo.Numbers.{decimal_text}
use approvo.Models.Entry.{LedgerEntry}
use approvo.Models.Checkpoint.{Checkpoint, from_dict}
use approvo.Example.Mongo.{MongoDb}
use approvo.Example.Mongo.Cursor.{head?}

-- A document of the ledger collection: the fields of `core_dict` beside `_id`, `log_id` and `entry_hash`.
pub record EventDoc : Type 0 where
  pub id : String
  pub log_id : String
  pub seq : ℕ
  pub recorded_at : String
  pub prev_hash : String
  pub event_type : String
  pub request_id : Option String
  pub payload : Fields
  pub entry_hash : String

abbrev pub id_of : EventDoc → String
id_of d = d.id

unfoldable pub doc_id : String → ℕ → String
doc_id log_id seq = append_text log_id (append_text ":" (decimal_text seq))

-- The document that `append` builds.
abbrev pub document : String → LedgerEntry → EventDoc
document log_id e = record {
  id = doc_id log_id e.seq;
  log_id = log_id;
  seq = e.seq;
  recorded_at = e.recorded_at;
  prev_hash = e.prev_hash;
  event_type = e.event_type;
  request_id = e.request_id;
  payload = e.payload;
  entry_hash = e.entry_hash;
}

abbrev pub to_entry : EventDoc → LedgerEntry
to_entry d = record {
  seq = d.seq;
  recorded_at = d.recorded_at;
  prev_hash = d.prev_hash;
  event_type = d.event_type;
  request_id = d.request_id;
  payload = d.payload;
  entry_hash = d.entry_hash;
}

-- `{"log_id": self.log_id}`
abbrev pub of_log : String → EventDoc → Bool
of_log log_id d = str_eq d.log_id log_id

abbrev pub by_seq : EventDoc → EventDoc → Bool
by_seq d e = ltb d.seq e.seq

abbrev pub by_seq_descending : EventDoc → EventDoc → Bool
by_seq_descending d e = ltb e.seq d.seq

-- `{"request_id": request_id}`
abbrev pub requested : String → EventDoc → Bool
requested id d = elim d.request_id [ none ↦ false | some i ↦ str_eq i id ]

abbrev pub entry_of : Option EventDoc → Option LedgerEntry
entry_of none = none
entry_of (some d) = some (to_entry d)

abbrev pub hash_of : EventDoc → String
hash_of d = d.entry_hash

-- `cursor.limit(limit)` if a limit is given
abbrev pub limit_of : Option ℕ → ℕ
limit_of none = 0
limit_of (some limit) = limit

abbrev pub below : Option ℕ → EventDoc → Bool
below none d = true
below (some n) d = ltb d.seq n

abbrev pub checkpoint_in : Option EventDoc → Result (Option Checkpoint)
checkpoint_in none = ok none
checkpoint_in (some d) = do cp ← from_dict (dict d.payload); ok (some cp)

module _ (db : MongoDb EventDoc id_of) (log_id : String) where
  open db use {Collection, insert_one, find_one, find}

  unfoldable pub mongo_head : Collection → Option LedgerEntry
  mongo_head c = entry_of (head? (find (of_log log_id) by_seq_descending 1 c))

  -- A `DuplicateKeyError` becomes a `LedgerConflict`.
  unfoldable pub mongo_append : LedgerEntry → Collection → Result Collection
  mongo_append e c = or_raise (insert_one (document log_id e) c) ledger_conflict

  unfoldable pub mongo_get_by_seq : ℕ → Collection → Option LedgerEntry
  mongo_get_by_seq seq c = entry_of (find_one (doc_id log_id seq) c)

  unfoldable pub mongo_events_for_request : String → Collection → List LedgerEntry
  mongo_events_for_request request_id c =
      map to_entry (find (λ d. of_log log_id d && requested request_id d) by_seq 0 c)

  unfoldable pub mongo_scan : ℕ → Option ℕ → Collection → List LedgerEntry
  mongo_scan start limit c =
      map to_entry (find (λ d. of_log log_id d && leb start d.seq) by_seq (limit_of limit) c)

  unfoldable pub mongo_leaf_hashes : Option ℕ → Collection → List String
  mongo_leaf_hashes up_to c = map hash_of (find (λ d. of_log log_id d && below up_to d) by_seq 0 c)

  unfoldable pub mongo_latest_checkpoint : Collection → Result (Option Checkpoint)
  mongo_latest_checkpoint c = checkpoint_in (
      head? (
        find (λ d. of_log log_id d && str_eq d.event_type "checkpoint.published") by_seq_descending
          1 c))
