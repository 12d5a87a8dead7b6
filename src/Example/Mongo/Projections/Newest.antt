-- ===== src/Example/Mongo/Projections/Newest.antt =====
-- `upsert` and `get` of `MongoProjectionStore` in examples/vehicle-release-approvals/app/mongo_stores.py against the protocol of
-- src/approvo/stores/base.py.
use approvo.Base.{
  ℕ, String, str_eq, eq_iff, ltb, leb, ◌≡◌, refl, sym, ap, subst, ◌∙◌, inl, inr, Bool, true, false,
  ◌&&◌, Bool-cases, Option, none, some, Option-cases, [], ◌∷◌, ◌++◌, any, if◌then◌else◌, arith,
}
use approvo.Json.{Value, Fields}
use approvo.Models.Views.{RequestView}
use approvo.Store.Projections.{newer_of}
use approvo.Example.Mongo.{MongoDb}
use approvo.Example.Mongo.Slots.{scoped_id}
use approvo.Example.Mongo.Slots.Ids.{scoped_id-test}
use approvo.Example.Mongo.Projections.{
  ViewDoc, view_id, view_doc, Tokens, or_same, shown, mongo_upsert, mongo_get,
}
use approvo.Example.Mongo.Projections.Order.{HasIds}
use approvo.Example.Mongo.Projections.Found.{
  under, set, under-set, under-set_own, under-append, under-append_own, taken-under, under-taken,
  no_match, match_one,
}

module _ (db : MongoDb ViewDoc view_id) (tokens : Tokens)
    (subject_is : Fields → String × Value → Bool) (log_id : String) (v : RequestView) where
  open db use {
    Collection, documents, find_one, find_one_lem, upsert_one, upsert_one_matched,
    upsert_one_unmatched, insert_one, insert_one_taken, insert_one_free,
  }

  abbrev doc : ViewDoc
  doc = view_doc log_id v

  abbrev may_replace : ViewDoc → Bool
  may_replace d = leb d.view.last_seq v.last_seq

  abbrev upserted : Collection → Collection
  upserted c = or_same db tokens subject_is log_id c (upsert_one may_replace doc c)

  abbrev matched : Collection → Bool
  matched c = any (λ (e : ViewDoc). str_eq e.id doc.id && may_replace e) (documents c)

  or_same_some :
      (c : Collection) {after : Collection}
      → upsert_one may_replace doc c ≡ some after
      → documents (upserted c) ≡ documents after
  or_same_some c h = ap (λ o. documents (or_same db tokens subject_is log_id c o)) h

  -- A document that may be replaced is, and one that may not stays.
  upsert_known :
      (c : Collection) (d : ViewDoc)
      → HasIds (documents c)
      → under doc.id (documents c) ≡ some d
      → documents (upserted c) ≡ (if may_replace d then set doc (documents c) else documents c)
  upsert_known c d ids known =
      let one = match_one doc.id may_replace (documents c) d ids known in
      elim (Bool-cases (may_replace d)) [
        | inl newer ↦
            let (after, done, changed) = upsert_one_matched may_replace doc c (one ∙ newer) in
            rw newer (or_same_some c done ∙ changed)
        | inr stale ↦
            let refused =
              upsert_one_unmatched may_replace doc c (one ∙ stale)
              ∙ insert_one_taken doc c (under-taken doc.id (documents c) known) in
            rw stale (ap (λ o. documents (or_same db tokens subject_is log_id c o)) refused)
      ]

  upsert_fresh :
      (c : Collection)
      → under doc.id (documents c) ≡ none
      → documents (upserted c) ≡ documents c ++ doc ∷ []
  upsert_fresh c fresh =
      let free = taken-under doc.id (documents c) fresh in
      let (after, done, more) = insert_one_free doc c free in
      or_same_some c (
        upsert_one_unmatched may_replace doc c (no_match doc.id may_replace (documents c) free)
        ∙ done)
      ∙ more

  abbrev get_at : String → Collection → Option RequestView
  get_at = mongo_get db tokens subject_is log_id

  mongo_get_lem :
      (id : String) (c : Collection)
      → get_at id c ≡ shown db tokens subject_is log_id (under (scoped_id log_id id) (documents c))
  unfolding mongo_get
  mongo_get_lem id c = ap (shown db tokens subject_is log_id) (find_one_lem (scoped_id log_id id) c)

  upserted-own :
      (c : Collection)
      → HasIds (documents c)
      → get_at v.request_id (upserted c) ≡ some (newer_of (get_at v.request_id c) v)
  upserted-own c ids =
      let after = mongo_get_lem v.request_id (upserted c) in
      let before = mongo_get_lem v.request_id c in
      let show = shown db tokens subject_is log_id in
      elim (Option-cases (under doc.id (documents c))) [
        | inl fresh ↦
            after
            ∙ ap (λ ds. show (under doc.id ds)) (upsert_fresh c fresh)
            ∙ ap show (under-append_own (documents c) doc (taken-under doc.id (documents c) fresh))
            ∙ ap (λ o. some (newer_of o v)) (sym (before ∙ ap show fresh))
        | inr (d, known) ↦
            let stays : show
                  (under doc.id (if may_replace d then set doc (documents c) else documents c))
                ≡ some (newer_of (some d.view) v) =
              elim (Bool-cases (may_replace d)) [
                | inl newer ↦
                    rw (newer, replaces d.view.last_seq newer)
                      (ap show
                        (under-set_own doc (documents c) (under-taken doc.id (documents c) known)))
                | inr stale ↦ rw (stale, keeps d.view.last_seq stale) (ap show known)
              ] in
            after
            ∙ ap (λ ds. show (under doc.id ds)) (upsert_known c d ids known)
            ∙ stays
            ∙ ap (λ o. some (newer_of o v)) (sym (before ∙ ap show known))
      ]
    where
      replaces : (n : ℕ) → leb n v.last_seq ≡ true → ltb v.last_seq n ≡ false
      replaces n h = ground arith

      keeps : (n : ℕ) → leb n v.last_seq ≡ false → ltb v.last_seq n ≡ true
      keeps n h = ground arith

  upserted-other :
      (id : String) (c : Collection)
      → HasIds (documents c)
      → str_eq v.request_id id ≡ false
      → get_at id (upserted c) ≡ get_at id c
  upserted-other id c ids other =
      let i = scoped_id log_id id in
      let apart : str_eq doc.id i ≡ false = scoped_id-test log_id v.request_id id ∙ other in
      let unchanged : under i (documents (upserted c)) ≡ under i (documents c) =
        elim (Option-cases (under doc.id (documents c))) [
          | inl fresh ↦ ap (under i) (upsert_fresh c fresh) ∙ under-append i (documents c) doc apart
          | inr (d, known) ↦
              ap (under i) (upsert_known c d ids known) ∙ elim (Bool-cases (may_replace d)) [
                | inl newer ↦ rw newer (under-set i doc (documents c) apart)
                | inr stale ↦ rw stale refl
              ]
        ] in
      mongo_get_lem id (upserted c)
      ∙ ap (shown db tokens subject_is log_id) unchanged
      ∙ sym (mongo_get_lem id c)

  -- In a collection without two documents of one id: after `upsert` of a view, `get` of its request gives the view, unless the view that
  -- was there before has a greater `last_seq`, which then stays; and `get` of every other request of the log gives what it gave before.
  pub mongo_upsert-newer_of :
      (id : String) (c : Collection)
      → HasIds (documents c)
      → mongo_get db tokens subject_is log_id id (mongo_upsert db tokens subject_is log_id v c) ≡ (
          if str_eq v.request_id id
          then some (newer_of (mongo_get db tokens subject_is log_id id c) v)
          else mongo_get db tokens subject_is log_id id c)
  unfolding mongo_upsert
  mongo_upsert-newer_of id c ids = elim (Bool-cases (str_eq v.request_id id)) [
    | inr other ↦ rw other (upserted-other id c ids other)
    | inl same ↦ rw same (
        subst (λ i. get_at i (upserted c) ≡ some (newer_of (get_at i c) v))
          ((eq_iff v.request_id id).0 same) (upserted-own c ids))
  ]
