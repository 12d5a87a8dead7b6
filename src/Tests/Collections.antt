-- ===== src/Tests/Collections.antt =====
-- A MongoDB collection as a list of documents.
use approvo.Base.{
  String, str_eq, refl, ap, Bool, ◌&&◌, not, Option, none, some, List, [], ◌∷◌, ◌++◌, map, keep,
  any, if◌then◌else◌,
}
use approvo.Example.Mongo.{MongoDb, first, sort_by, up_to}

module _ {Doc : Type 0} (id_of : Doc → String) where
  abbrev has_id : String → Doc → Bool
  has_id i e = str_eq (id_of e) i

  abbrev list_insert : Doc → List Doc → Option (List Doc)
  list_insert d c = if any (has_id (id_of d)) c then none else some (c ++ d ∷ [])

  abbrev list_upsert : (Doc → Bool) → Doc → List Doc → Option (List Doc)
  list_upsert cond d c =
      if any (λ e. has_id (id_of d) e && cond e) c
      then some (map (λ e. if has_id (id_of d) e then d else e) c)
      else list_insert d c

  abbrev pub list_db : MongoDb Doc id_of
  list_db = record {
    Collection = List Doc;
    documents = λ c. c;
    insert_one = list_insert;
    find_one = λ i c. first (has_id i) c;
    find = λ filter before n c. up_to n (sort_by before (keep filter c));
    upsert_one = list_upsert;
    update_one = λ i f c. map (λ e. if has_id i e then f e else e) c;
    delete_one = λ i c. keep (λ e. not (has_id i e)) c;
    delete_many = λ filter c. keep (λ e. not (filter e)) c;
    insert_one_taken = λ d c h. ap (λ b. if b then none else some (c ++ d ∷ [])) h;
    insert_one_free =
        λ d c h. (c ++ d ∷ [], ap (λ b. if b then none else some (c ++ d ∷ [])) h, refl);
    find_one_lem = λ i c. refl;
    find_lem = λ filter before n c h. refl;
    upsert_one_matched = λ cond d c h. (
      map (λ e. if has_id (id_of d) e then d else e) c,
      ap
          (λ b.
            if b then some (map (λ e. if has_id (id_of d) e then d else e) c) else list_insert d c)
          h,
      refl,
    );
    upsert_one_unmatched = λ cond d c h.
        ap
          (λ b.
            if b then some (map (λ e. if has_id (id_of d) e then d else e) c) else list_insert d c)
          h;
    update_one_lem = λ i f c. refl;
    delete_one_lem = λ i c. refl;
    delete_many_lem = λ filter c. refl;
  }
