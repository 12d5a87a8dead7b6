-- ===== src/Example/Mongo/Slots/Changes.antt =====
-- What it is for documents of MongoDB to hold the reservations of a log, and how `complete` and `release` of
-- examples/vehicle-release-approvals/app/mongo_stores.py keep it.
use approvo.Base.{
  String, str_eq, eq_iff, ◌≡◌, refl, sym, ap, ◌∙◌, Bool, true, false, Option, none, some, some_inj,
  lookup, lookup-insert, lookup-erase, if◌then◌else◌,
}
use approvo.Result.{Result, ok, err, key_error}
use approvo.Store.Reservations.{Slot, Reservation, Reservations, complete, release}
use approvo.Example.Mongo.{MongoDb}
use approvo.Example.Mongo.Slots.Ids.{
  under, under-keep, with_response, change, under-map, slot_of, scoped_id-test,
}
use approvo.Example.Mongo.Slots.{SlotDoc, slot_id, scoped_id, mongo_complete, mongo_release}

module _ (db : MongoDb SlotDoc slot_id) (log_id : String) where
  open db use {
    Collection, documents, insert_one, insert_one_taken, insert_one_free, find_one, find_one_lem,
    update_one_lem, delete_one_lem,
  }

  -- Under each key of the log the collection has what the dictionary has.
  pub record Represents (c : Collection) (slots : Reservations) : Type 0 where
    pub same :
        (key : String) → slot_of (under (scoped_id log_id key) (documents c)) ≡ lookup key slots

  -- Both answer a reservation alike and represent the same slots again, or both raise the same exception.
  abbrev pub Agree :
      Result (Reservation × Collection) → Result (Reservation × Reservations) → Type 0
  Agree (ok (a, c)) (ok (b, slots)) = (a ≡ b) × Represents c slots
  Agree (err x) (err y) = x ≡ y
  Agree r s = ⊥

  -- A completion of a key that is there; of a missing one, which is a `KeyError` in memory, MongoDB takes no notice.
  abbrev pub Completes : Collection → Reservations → Result Reservations → Type 0
  Completes c slots (ok after) = Represents c after
  Completes c slots (err x) = (x ≡ key_error) × Represents c slots

  pub release-Represents :
      (c : Collection) (slots : Reservations) (key : String)
      → Represents c slots
      → Represents (mongo_release db log_id key c) (release key slots)
  unfolding mongo_release
  release-Represents c slots key r = record {
    same = λ j.
        ap (λ ds. slot_of (under (scoped_id log_id j) ds)) (delete_one_lem (scoped_id log_id key) c)
        ∙ ap slot_of (under-keep (scoped_id log_id key) (scoped_id log_id j) (documents c))
        ∙ ap (λ b. slot_of (if b then none else under (scoped_id log_id j) (documents c)))
            (scoped_id-test log_id key j)
        ∙ erased (str_eq key j) (under (scoped_id log_id j) (documents c))
        ∙ ap (λ o. if str_eq key j then none else o) (r.same j)
        ∙ sym (lookup-erase key j slots);
  }
    where
      erased :
          (b : Bool) (o : Option SlotDoc)
          → slot_of (if b then none else o) ≡ (if b then none else slot_of o)
      erased true o = refl
      erased false o = refl

  pub complete-Completes :
      (c : Collection) (slots : Reservations) (key response : String)
      → Represents c slots
      → Completes (mongo_complete db log_id key response c) slots (complete key response slots)
  unfolding mongo_complete complete
  complete-Completes c slots key response r = by_slot (lookup key slots) refl
    where
      after : Collection
      after = mongo_complete db log_id key response c

      now_under :
          (j : String)
          → under (scoped_id log_id j) (documents after) ≡ (
              if str_eq key j
              then change (with_response response) (under (scoped_id log_id j) (documents c))
              else under (scoped_id log_id j) (documents c))
      now_under j =
          ap (under (scoped_id log_id j))
            (update_one_lem (scoped_id log_id key) (with_response response) c)
          ∙ under-map (scoped_id log_id key) (scoped_id log_id j) response (documents c)
          ∙ ap
              (λ b.
                if b
                then change (with_response response) (under (scoped_id log_id j) (documents c))
                else under (scoped_id log_id j) (documents c))
              (scoped_id-test log_id key j)

      missing :
          (j : String) (o : Option SlotDoc)
          → slot_of o ≡ lookup j slots
          → lookup key slots ≡ none
          → (b : Bool) → str_eq key j ≡ b
          → slot_of (if b then change (with_response response) o else o) ≡ lookup j slots
      missing j o h none_there false e = h
      missing j none h none_there true e = h
      missing j (some d) h none_there true e = cc (ap (λ k. lookup k slots) ((eq_iff key j).0 e))

      present :
          (j : String) (slot : Slot) (o : Option SlotDoc)
          → slot_of o ≡ lookup j slots
          → lookup key slots ≡ some slot
          → (b : Bool) → str_eq key j ≡ b
          → slot_of (if b then change (with_response response) o else o)
            ≡ (if b then some (record slot { response = some response }) else lookup j slots)
      present j slot o h there false e = h
      present j slot none h there true e = cc (ap (λ k. lookup k slots) ((eq_iff key j).0 e))
      present j slot (some d) h there true e =
          ap (λ (s : Slot). some (record s { response = some response }))
            (some_inj (h ∙ ap (λ k. lookup k slots) (sym ((eq_iff key j).0 e)) ∙ there))

      by_slot :
          (o : Option Slot)
          → lookup key slots ≡ o
          → Completes after slots (complete key response slots)
      by_slot none e = rw e (
        refl,
        record {
          same = λ j.
              ap slot_of (now_under j)
              ∙ missing j (under (scoped_id log_id j) (documents c)) (r.same j) e (str_eq key j)
                  refl;
        },
      )
      by_slot (some slot) e = rw e (record {
        same = λ j.
            ap slot_of (now_under j)
            ∙ present j slot (under (scoped_id log_id j) (documents c)) (r.same j) e (str_eq key j)
                refl
            ∙ sym (lookup-insert key j (record slot { response = some response }) slots);
      })
