-- ===== src/Example/Mongo.antt =====
-- What examples/vehicle-release-approvals/app/mongo_stores.py uses of a MongoDB collection, with what MongoDB documents of it: `_id` is
-- unique, a cursor is filtered, sorted and limited, and a limit of 0 is no limit. How a cursor orders documents that its sort does
-- not tell apart is left open.
pub mod Numbers
pub mod Cursor
pub mod Sorting
pub mod Events
pub mod Slots
pub mod Projections
use approvo.Base.{
  ℕ, zero, suc, String, str_eq, ◌≡◌, Bool, true, false, ◌&&◌, not, Option, none, some, List, [],
  ◌∷◌, ◌++◌, map, keep, any, take, if◌then◌else◌,
}

module _ {Doc : Type 0} where
  abbrev pub first : (Doc → Bool) → List Doc → Option Doc
  first p [] = none
  first p (d ∷ ds) = let later = first p ds in if p d then some d else later

  abbrev pub insert_by : (Doc → Doc → Bool) → Doc → List Doc → List Doc
  insert_by before d [] = d ∷ []
  insert_by before d (e ∷ es) =
      let rest = insert_by before d es in if before d e then d ∷ e ∷ es else e ∷ rest

  abbrev pub sort_by : (Doc → Doc → Bool) → List Doc → List Doc
  sort_by before [] = []
  sort_by before (d ∷ ds) = insert_by before d (sort_by before ds)

  abbrev pub up_to : ℕ → List Doc → List Doc
  up_to zero ds = ds
  up_to (suc n) ds = take (suc n) ds

  -- The order tells each two documents of the list apart.
  abbrev pub Apart : (Doc → Doc → Bool) → Doc → List Doc → Type 0
  Apart before d [] = Unit
  Apart before d (e ∷ es) = ((before d e ≡ not (before e d))) × Apart before d es

  abbrev pub AllApart : (Doc → Doc → Bool) → List Doc → Type 0
  AllApart before [] = Unit
  AllApart before (d ∷ ds) = Apart before d ds × AllApart before ds

-- `documents` lists a collection in the order of insertion; the program does not see it.
pub record MongoDb (Doc : Type 0) (id_of : Doc → String) : Type 1 where
  pub Collection : Type 0
  pub documents : Collection → List Doc
  -- `insert_one`: none stands for a `DuplicateKeyError`
  pub insert_one : Doc → Collection → Option Collection
  -- `find_one({"_id": i})`
  pub find_one : String → Collection → Option Doc
  -- `find(filter).sort(...).limit(n)`
  pub find : (Doc → Bool) → (Doc → Doc → Bool) → ℕ → Collection → List Doc
  -- `update_one({"_id": i, ...}, {"$set": d}, upsert=True)` where `d` sets every field
  pub upsert_one : (Doc → Bool) → Doc → Collection → Option Collection
  -- `update_one({"_id": i}, {"$set": ...})`
  pub update_one : String → (Doc → Doc) → Collection → Collection
  -- `delete_one({"_id": i})`
  pub delete_one : String → Collection → Collection
  -- `delete_many(filter)`
  pub delete_many : (Doc → Bool) → Collection → Collection
  pub insert_one_taken :
      (d : Doc) (c : Collection)
      → any (λ e. str_eq (id_of e) (id_of d)) (documents c) ≡ true
      → insert_one d c ≡ none
  pub insert_one_free :
      (d : Doc) (c : Collection)
      → any (λ e. str_eq (id_of e) (id_of d)) (documents c) ≡ false
      → (grown : Collection) × (insert_one d c ≡ some grown)
        × (documents grown ≡ documents c ++ d ∷ [])
  pub find_one_lem :
      (i : String) (c : Collection) → find_one i c ≡ first (λ e. str_eq (id_of e) i) (documents c)
  pub find_lem :
      (filter : Doc → Bool) (before : Doc → Doc → Bool) (n : ℕ) (c : Collection)
      → AllApart before (keep filter (documents c))
      → find filter before n c ≡ up_to n (sort_by before (keep filter (documents c)))
  pub upsert_one_matched :
      (cond : Doc → Bool) (d : Doc) (c : Collection)
      → any (λ e. str_eq (id_of e) (id_of d) && cond e) (documents c) ≡ true
      → (changed : Collection) × (upsert_one cond d c ≡ some changed)
        × (documents changed ≡ map (λ e. if str_eq (id_of e) (id_of d) then d else e) (documents c))
  pub upsert_one_unmatched :
      (cond : Doc → Bool) (d : Doc) (c : Collection)
      → any (λ e. str_eq (id_of e) (id_of d) && cond e) (documents c) ≡ false
      → upsert_one cond d c ≡ insert_one d c
  pub update_one_lem :
      (i : String) (f : Doc → Doc) (c : Collection)
      → documents (update_one i f c)
        ≡ map (λ e. if str_eq (id_of e) i then f e else e) (documents c)
  pub delete_one_lem :
      (i : String) (c : Collection)
      → documents (delete_one i c) ≡ keep (λ e. not (str_eq (id_of e) i)) (documents c)
  pub delete_many_lem :
      (filter : Doc → Bool) (c : Collection)
      → documents (delete_many filter c) ≡ keep (λ e. not (filter e)) (documents c)
