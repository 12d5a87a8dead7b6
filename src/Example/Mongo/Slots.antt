-- ===== src/Example/Mongo/Slots.antt =====
-- `MongoIdempotencyStore` of examples/vehicle-release-approvals/app/mongo_stores.py.
pub mod Ids
pub mod Changes
pub mod Refines
use approvo.Base.{String, append_text, str_eq, Bool, true, false, Option, none, some, if◌then◌else◌}
use approvo.Result.{Result, ok, err, idempotency_conflict, type_error}
use approvo.Store.Reservations.{Reservation}
use approvo.Example.Mongo.{MongoDb}

pub record SlotDoc : Type 0 where
  pub id : String
  pub fingerprint : String
  pub response : Option String

abbrev pub slot_id : SlotDoc → String
slot_id d = d.id

-- `_doc_id`
unfoldable pub scoped_id : String → String → String
scoped_id log_id key = append_text log_id (append_text ":" key)

module _ (db : MongoDb SlotDoc slot_id) (log_id : String) where
  open db use {Collection, documents, insert_one, find_one, update_one, delete_one}

  abbrev fresh_slot : String → String → SlotDoc
  fresh_slot key fingerprint = record {
    id = scoped_id log_id key;
    fingerprint = fingerprint;
    response = none;
  }

  -- The `except DuplicateKeyError`; a slot that is gone by then cannot be subscripted.
  abbrev pub existing : String → Collection → Option SlotDoc → Result (Reservation × Collection)
  existing fingerprint c none = err type_error
  existing fingerprint c (some d) =
      if str_eq d.fingerprint fingerprint
      then ok (record { won = false; fingerprint = fingerprint; response = d.response }, c)
      else err idempotency_conflict

  abbrev pub inserted :
      String → String → Collection → Option Collection → Result (Reservation × Collection)
  inserted key fingerprint c (some after) =
      ok (record { won = true; fingerprint = fingerprint; response = none }, after)
  inserted key fingerprint c none = existing fingerprint c (find_one (scoped_id log_id key) c)

  unfoldable pub mongo_reserve : String → String → Collection → Result (Reservation × Collection)
  mongo_reserve key fingerprint c =
      inserted key fingerprint c (insert_one (fresh_slot key fingerprint) c)

  unfoldable pub mongo_complete : String → String → Collection → Collection
  mongo_complete key response c =
      update_one (scoped_id log_id key) (λ d. record d { response = some response }) c

  unfoldable pub mongo_release : String → Collection → Collection
  mongo_release key c = delete_one (scoped_id log_id key) c
