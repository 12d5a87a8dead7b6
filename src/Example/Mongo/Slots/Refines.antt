-- ===== src/Example/Mongo/Slots/Refines.antt =====
-- `MongoIdempotencyStore` (examples/vehicle-release-approvals/app/mongo_stores.py) against the reservations of src/tests/memory_stores.py.
use approvo.Base.{
  String, str_eq, eq_iff, ◌≡◌, refl, sym, ap, ◌∙◌, inl, inr, Bool, true, false, Bool-cases, Option,
  none, some, Option-cases, some_inj, subst, lookup, lookup-insert, if◌then◌else◌,
}
use approvo.Result.{ok, err, idempotency_conflict}
use approvo.Store.Reservations.{Slot, Reservations, reserve, complete, release}
use approvo.Example.Mongo.{MongoDb}
use approvo.Example.Mongo.Slots.Ids.{
  under, under-any, any-under, or_last, under-append, slot_of, scoped_id-test,
}
use approvo.Example.Mongo.Slots.{
  SlotDoc, slot_id, scoped_id, existing, mongo_reserve, mongo_complete, mongo_release,
}
use approvo.Example.Mongo.Slots.Changes.{
  Represents, Agree, Completes, release-Represents, complete-Completes,
}

module _ (db : MongoDb SlotDoc slot_id) (log_id : String) where
  open db use {
    Collection, documents, insert_one, insert_one_taken, insert_one_free, find_one, find_one_lem,
    update_one_lem, delete_one_lem,
  }

  reserve-fresh :
      (c : Collection) (slots : Reservations) (key fingerprint : String)
      → Represents db log_id c slots
      → lookup key slots ≡ none
      → Agree db log_id (mongo_reserve db log_id key fingerprint c) (reserve key fingerprint slots)
  unfolding mongo_reserve reserve
  reserve-fresh c slots key fingerprint r free =
      let i = scoped_id log_id key in
      let d : SlotDoc = record { id = i; fingerprint = fingerprint; response = none } in
      let none_there =
        under-any i (documents c) (no_doc (under i (documents c)) (r.same key ∙ free)) in
      let (after, accepted, more) = insert_one_free d c none_there in
      rw (accepted, free)
        (
          refl,
          record {
            same = λ j.
                ap (λ ds. slot_of (under (scoped_id log_id j) ds)) more
                ∙ ap slot_of (under-append (scoped_id log_id j) (documents c) d)
                ∙ ap
                    (λ b. slot_of (
                      or_last (under (scoped_id log_id j) (documents c))
                        (if b then some d else none)))
                    (scoped_id-test log_id key j)
                ∙ last_slot j d (under (scoped_id log_id j) (documents c)) (r.same j) (str_eq key j)
                    refl
                ∙ sym (
                    lookup-insert key j (record { fingerprint = fingerprint; response = none })
                      slots);
          },
        )
    where
      no_doc : (o : Option SlotDoc) → slot_of o ≡ none → o ≡ none
      no_doc none h = refl
      no_doc (some d) h = cc

      last_slot :
          (j : String) (d : SlotDoc) (o : Option SlotDoc)
          → slot_of o ≡ lookup j slots
          → (b : Bool) → str_eq key j ≡ b
          → slot_of (or_last o (if b then some d else none))
            ≡ (if b then slot_of (some d) else lookup j slots)
      last_slot j d none h true e = refl
      last_slot j d none h false e = h
      last_slot j d (some x) h false e = h
      last_slot j d (some x) h true e =
          absurd (some_none (h ∙ ap (λ k. lookup k slots) (sym ((eq_iff key j).0 e)) ∙ free))
        where
          some_none : {s : Slot} → ◌≡◌ {A = Option Slot} (some s) none → ⊥
          some_none x = cc

  reserve-taken :
      (c : Collection) (slots : Reservations) (key fingerprint : String) (slot : Slot)
      → Represents db log_id c slots
      → lookup key slots ≡ some slot
      → Agree db log_id (mongo_reserve db log_id key fingerprint c) (reserve key fingerprint slots)
  unfolding mongo_reserve reserve
  reserve-taken c slots key fingerprint slot r taken =
      let i = scoped_id log_id key in
      let (d, there, held) = some_doc (under i (documents c)) (r.same key ∙ taken) in
      let refused =
        insert_one_taken (record { id = i; fingerprint = fingerprint; response = none }) c
          (any-under i (documents c) there) in
      rw (refused, taken)
        (subst
          (λ o. Agree db log_id (existing db log_id fingerprint c o) (
            if str_eq slot.fingerprint fingerprint
            then ok
                (record { won = false; fingerprint = fingerprint; response = slot.response }, slots)
            else err idempotency_conflict))
          (sym (find_one_lem i c ∙ there)) (by_test d slot held))
    where
      some_doc :
          (o : Option SlotDoc)
          → slot_of o ≡ some slot
          → (d : SlotDoc) × (o ≡ some d) × (slot_of (some d) ≡ some slot)
      some_doc none h = cc
      some_doc (some d) h = (d, refl, h)

      by_test :
          (d : SlotDoc) (s : Slot)
          → slot_of (some d) ≡ some s
          → Agree db log_id (existing db log_id fingerprint c (some d)) (
              if str_eq s.fingerprint fingerprint
              then ok
                  (record { won = false; fingerprint = fingerprint; response = s.response }, slots)
              else err idempotency_conflict)
      by_test d s h =
          subst
            (λ (t : Slot). Agree db log_id (existing db log_id fingerprint c (some d)) (
              if str_eq t.fingerprint fingerprint
              then ok
                  (record { won = false; fingerprint = fingerprint; response = t.response }, slots)
              else err idempotency_conflict))
            (some_inj h)
            (elim (Bool-cases (str_eq d.fingerprint fingerprint)) [
              | inl same ↦ rw same (refl, r)
              | inr other ↦ rw other refl
            ])

  reserve-Agree :
      (c : Collection) (slots : Reservations) (key fingerprint : String)
      → Represents db log_id c slots
      → Agree db log_id (mongo_reserve db log_id key fingerprint c) (reserve key fingerprint slots)
  reserve-Agree c slots key fingerprint r = elim (Option-cases (lookup key slots)) [
    | inl free ↦ reserve-fresh c slots key fingerprint r free
    | inr (slot, taken) ↦ reserve-taken c slots key fingerprint slot r taken
  ]

  -- Let the collection represent the reservations of a log. Then a reservation over MongoDB and one in memory return the same and represent
  -- the same slots again, or raise the same exception; releasing a key leaves representations of the same slots; and so does completing
  -- a key that is there, while for a missing key, which is a `KeyError` in memory, MongoDB returns and changes nothing.
  pub mongo_slots-Agree :
      (c : Collection) (slots : Reservations) (key fingerprint response : String)
      → Represents db log_id c slots
      → Agree db log_id (mongo_reserve db log_id key fingerprint c) (reserve key fingerprint slots)
        × Represents db log_id (mongo_release db log_id key c) (release key slots)
        × Completes db log_id
            (mongo_complete db log_id key response c)
            slots
            (complete key response slots)
  mongo_slots-Agree c slots key fingerprint response r = (
    reserve-Agree c slots key fingerprint r,
    release-Represents db log_id c slots key r,
    complete-Completes db log_id c slots key response r,
  )
