-- ===== src/Models/Entry.antt =====
-- `LedgerEntry` of src/approvo/models.py.
use approvo.Base.{ℕ, pos, String, Bytes, ◌≡◌, Option, none, List, [], ◌∷◌, ◌++◌, arith}
use approvo.Result.{Result, ok, ◌>>=◌}
use approvo.Json.{Value, int, str, dict, opt_str, Fields, fields}
use approvo.Json.Read.{required, optional, as_text, as_nat, as_dict, as_opt_text}
use approvo.Hash.{canonical_hash}

pub record LedgerEntry : Type 0 where
  pub seq : ℕ
  pub recorded_at : String
  pub prev_hash : String
  pub event_type : String
  pub request_id : Option String
  pub payload : Fields
  pub entry_hash : String

abbrev pub core_pairs : LedgerEntry → List (String × Value)
core_pairs e =
    ("seq", int (pos e.seq))
    ∷ ("recorded_at", str e.recorded_at)
    ∷ ("prev_hash", str e.prev_hash)
    ∷ ("event_type", str e.event_type)
    ∷ ("request_id", opt_str e.request_id)
    ∷ ("payload", dict e.payload)
    ∷ []

abbrev pub core_dict : LedgerEntry → Value
core_dict e = dict (fields (core_pairs e))

unfoldable pub to_dict : LedgerEntry → Value
to_dict e = dict (fields (core_pairs e ++ ("entry_hash", str e.entry_hash) ∷ []))

unfoldable pub from_dict : Value → Result LedgerEntry
from_dict v = do
  d ← as_dict v
  seq ← required as_nat "seq" d
  recorded_at ← required as_text "recorded_at" d
  prev_hash ← required as_text "prev_hash" d
  event_type ← required as_text "event_type" d
  request_id ← optional as_opt_text "request_id" none d
  payload ← required as_dict "payload" d
  entry_hash ← optional as_text "entry_hash" "" d
  ok (record {
    seq = seq;
    recorded_at = recorded_at;
    prev_hash = prev_hash;
    event_type = event_type;
    request_id = request_id;
    payload = payload;
    entry_hash = entry_hash;
  })

-- Reading back what `to_dict` has written gives the entry again.
pub entry_round_trip : (e : LedgerEntry) → from_dict (to_dict e) ≡ ok e
unfolding to_dict from_dict
entry_round_trip e = ground arith

module _ (sha256 : Bytes → Bytes) where
  -- The entry with its hash filled in.
  unfoldable pub sealed : LedgerEntry → Result LedgerEntry
  sealed e = do h ← canonical_hash sha256 (core_dict e); ok (record e { entry_hash = h })
