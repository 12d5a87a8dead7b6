-- ===== src/Example/Mongo/Events/Refines.antt =====
-- `append` of `MongoEventStore` (examples/vehicle-release-approvals/app/mongo_stores.py) against the store of src/tests/memory_stores.py.
use approvo.Base.{
  map-append, ◌≤◌, ◌<◌, String, str_eq, eq_iff, eq_refl, ◌≡◌, refl, sym, ap, ◌∙◌, subst, inl, inr,
  Bool, true, false, Bool-cases, List, [], ◌∷◌, ◌++◌, map, length, length-map, keep, All,
  All-append, All-In, In-any, any-In, In-keep, In-of_keep, any, ◌==◌, arith,
}
use approvo.Result.{Result, ok, err}
use approvo.Models.Entry.{LedgerEntry}
use approvo.Store.Events.{EventStore, append, index_entry}
use approvo.Example.Mongo.{MongoDb}
use approvo.Example.Mongo.Events.{EventDoc, id_of, doc_id, document, to_entry, of_log, mongo_append}
use approvo.Example.Mongo.Events.Ids.{doc_id-injective}
use approvo.Example.Mongo.Events.Numbered.{Numbered, Numbered-append, Numbered-In, In-lt}

keep-append :
    (p : EventDoc → Bool) (ds : List EventDoc) (d : EventDoc)
    → p d ≡ true
    → keep p (ds ++ d ∷ []) ≡ keep p ds ++ d ∷ []
keep-append p [] d h = rw h refl
keep-append p (e ∷ ds) d h =
    let rest = keep-append p ds d h in
    elim (Bool-cases (p e)) [
      | inl kept ↦ rw kept (ap (λ l. e ∷ l) rest)
      | inr dropped ↦ rw dropped rest
    ]

module _ (db : MongoDb EventDoc id_of) (log_id : String) where
  open db use {Collection, documents, insert_one, insert_one_taken, insert_one_free}

  -- The documents of the log.
  abbrev pub of_this_log : Collection → List EventDoc
  of_this_log c = keep (of_log log_id) (documents c)

  -- The collection, which other logs may share, holds the entries of the store: one document for each under the id of its number, in order.
  pub record Represents (c : Collection) (store : EventStore) : Type 0 where
    pub same : map to_entry (of_this_log c) ≡ store.entries
    pub numbered : Numbered 0 (of_this_log c)
    pub named : All (λ (d : EventDoc). d.id ≡ doc_id d.log_id d.seq) (documents c)

  -- Both stores accept, and represent the same log again, or both raise the same exception.
  abbrev pub Agree : Result Collection → Result EventStore → Type 0
  Agree (ok c) (ok store) = Represents c store
  Agree (err x) (err y) = x ≡ y
  Agree r s = ⊥

  same_length :
      (c : Collection) (store : EventStore)
      → Represents c store
      → length (of_this_log c) ≡ length store.entries
  same_length c store r = sym (length-map to_entry (of_this_log c)) ∙ ap length r.same

  taken_id :
      (c : Collection) (store : EventStore) (e : LedgerEntry)
      → Represents c store
      → e.seq < length store.entries
      → any (λ (d : EventDoc). str_eq d.id (doc_id log_id e.seq)) (documents c) ≡ true
  taken_id c store e r h =
      let (d, there, at) =
        Numbered-In 0 e.seq (of_this_log c) r.numbered (omega arith)
          (omega (arith, h, same_length c store r)) in
      let (stored, ours) = In-of_keep (of_log log_id) d (documents c) there in
      let id_is : d.id ≡ doc_id log_id e.seq =
        All-In (λ (x : EventDoc). x.id ≡ doc_id x.log_id x.seq) d (documents c) r.named stored
        ∙ ap (λ l. doc_id l d.seq) ((eq_iff d.log_id log_id).0 ours)
        ∙ ap (doc_id log_id) at in
      In-any (λ (x : EventDoc). str_eq x.id (doc_id log_id e.seq)) d (documents c) stored
        ((eq_iff d.id _).1 id_is)

  free_id :
      (c : Collection) (store : EventStore) (e : LedgerEntry)
      → Represents c store
      → e.seq ≡ length store.entries
      → any (λ (d : EventDoc). str_eq d.id (doc_id log_id e.seq)) (documents c) ≡ false
  free_id c store e r h =
      elim (Bool-cases (any (λ (d : EventDoc). str_eq d.id (doc_id log_id e.seq)) (documents c))) [
        | inr free ↦ free
        | inl taken ↦
            let (d, stored, clash) = any-In _ (documents c) taken in
            let ids =
              sym (
                All-In (λ (x : EventDoc). x.id ≡ doc_id x.log_id x.seq) d (documents c) r.named
                  stored)
              ∙ (eq_iff d.id (doc_id log_id e.seq)).0 clash in
            let (logs, numbers) = doc_id-injective d.log_id log_id d.seq e.seq ids in
            let inside =
              In-lt 0 d (of_this_log c) r.numbered (
                In-keep (of_log log_id) d (documents c) stored ((eq_iff d.log_id log_id).1 logs)) in
            absurd (omega (arith, inside, numbers, h, same_length c store r))
      ]

  grown :
      (c after : Collection) (store : EventStore) (e : LedgerEntry)
      → Represents c store
      → e.seq ≡ length store.entries
      → documents after ≡ documents c ++ document log_id e ∷ []
      → Represents after (record {
        entries = store.entries ++ e ∷ [];
        by_request = index_entry e store.by_request;
      })
  grown c after store e r h more =
      let ours : of_this_log after ≡ of_this_log c ++ document log_id e ∷ [] =
        ap (keep (of_log log_id)) more
        ∙ keep-append (of_log log_id) (documents c) (document log_id e) (eq_refl log_id) in
      record {
        same =
            ap (map to_entry) ours
            ∙ map-append to_entry (of_this_log c) (document log_id e ∷ [])
            ∙ ap (λ es. es ++ e ∷ []) r.same;
        numbered = subst (Numbered 0) (sym ours) (
            Numbered-append 0 (of_this_log c) (document log_id e)
              (omega (arith, h, same_length c store r)) r.numbered);
        named =
            subst (All (λ (x : EventDoc). x.id ≡ doc_id x.log_id x.seq)) (sym more)
              (All-append _ (documents c) (document log_id e ∷ []) r.named (refl, tt));
      }

  -- Let the collection represent the store of a log, and let the entry's number not lie beyond the end of the log, as no number does that
  -- was taken from a head of the log. Then `append` over MongoDB and `append` in memory both accept the entry, and the collection represents
  -- the store again, or both raise the same exception.
  pub mongo_append-Agree :
      (c : Collection) (store : EventStore) (e : LedgerEntry)
      → Represents c store
      → e.seq ≤ length store.entries
      → Agree (mongo_append db log_id e c) (append e store)
  unfolding mongo_append append
  mongo_append-Agree c store e r h = elim (Bool-cases (e.seq == length store.entries)) [
    | inr other ↦
        let refused =
          insert_one_taken (document log_id e) c
            (taken_id c store e r (ground (arith, other, h))) in
        rw other (rw refused refl)
    | inl next ↦
        let at_end : e.seq ≡ length store.entries = ground (arith, next) in
        let (after, accepted, more) =
          insert_one_free (document log_id e) c (free_id c store e r at_end) in
        rw next (rw accepted (grown c after store e r at_end more))
  ]
