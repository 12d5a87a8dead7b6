-- ===== src/Example/Mongo/Projections.antt =====
-- `MongoProjectionStore` of examples/vehicle-release-approvals/app/mongo_stores.py. A document has the fields of the view that it was made
-- of, beside `_id` and `log_id`.
pub mod Order
pub mod Cut
pub mod Found
pub mod Newest
pub mod Pages
use approvo.Base.{
  ℕ, ◌+◌, String, append_text, str_eq, contains, is_empty, lt_text, ltb, leb, Bool, true, false,
  ◌&&◌, ◌||◌, not, Option, none, some, List, [], ◌∷◌, map, take, length, get_last?, if◌then◌else◌,
}
use approvo.Result.{Result, ok, err, or_raise, index_error, ◌>>=◌}
use approvo.Json.{Value, Fields}
use approvo.Models.Views.{RequestView, RequestQuery, Page}
use approvo.Example.Mongo.{MongoDb}
use approvo.Example.Mongo.Slots.{scoped_id}

pub record ViewDoc : Type 0 where
  pub id : String
  pub log_id : String
  pub view : RequestView

abbrev pub view_id : ViewDoc → String
view_id d = d.id

-- `_to_view`
abbrev pub to_view : ViewDoc → RequestView
to_view d = d.view

-- The document that `upsert` sets.
abbrev pub view_doc : String → RequestView → ViewDoc
view_doc log_id v = record { id = scoped_id log_id v.request_id; log_id = log_id; view = v }

-- `("created_at", ASCENDING), ("_id", ASCENDING)`
abbrev pub by_age : ViewDoc → ViewDoc → Bool
by_age d e =
    lt_text d.view.created_at e.view.created_at
    || (str_eq d.view.created_at e.view.created_at && lt_text d.id e.id)

-- The place of a document in that order, which a cursor of a page holds.
abbrev pub place : ViewDoc → String × String
place d = (d.view.created_at, d.id)

-- `{"$or": [...]}`
abbrev pub is_after : String × String → ViewDoc → Bool
is_after (created_at, id) d =
    lt_text created_at d.view.created_at || (str_eq created_at d.view.created_at && lt_text id d.id)

abbrev pub equals : Option String → String → Bool
equals none s = true
equals (some t) s = str_eq s t

abbrev pub one_of : List String → String → Bool
one_of [] s = true
one_of (t ∷ ts) s = contains (t ∷ ts) s

abbrev pub awaits : Option String → List String → Bool
awaits none names = true
awaits (some name) names = contains names name

-- How a page's cursor is written and read: base64 over JSON.
pub record Tokens : Type 0 where
  pub encode : String × String → String
  pub decode : String → Result (String × String)

-- `subject_is` is MongoDB's test of a field of the subject against a value.
module _ (db : MongoDb ViewDoc view_id) (tokens : Tokens)
    (subject_is : Fields → String × Value → Bool) (log_id : String) where
  open db use {Collection, find_one, find, upsert_one, delete_many}

  abbrev pub or_same : Collection → Option Collection → Collection
  or_same c none = c
  or_same c (some after) = after

  -- A `DuplicateKeyError` is passed over.
  unfoldable pub mongo_upsert : RequestView → Collection → Collection
  mongo_upsert v c =
      or_same c (upsert_one (λ d. leb d.view.last_seq v.last_seq) (view_doc log_id v) c)

  abbrev pub shown : Option ViewDoc → Option RequestView
  shown none = none
  shown (some d) = some (to_view d)

  unfoldable pub mongo_get : String → Collection → Option RequestView
  mongo_get request_id c = shown (find_one (scoped_id log_id request_id) c)

  abbrev pub subject_matches : Option (List (String × Value)) → Fields → Bool
  subject_matches none subject = true
  subject_matches (some []) subject = true
  subject_matches (some (m ∷ ms)) subject =
      subject_is subject m && subject_matches (some ms) subject

  -- `mongo_query`, without the cursor
  abbrev pub matches : RequestQuery → ViewDoc → Bool
  matches q d =
      str_eq d.log_id log_id
      && (one_of q.status d.view.status
          && (equals q.kind d.view.kind
              && (equals q.requested_by d.view.requested_by
                  && (awaits q.awaiting d.view.pending_for
                      && subject_matches q.subject_match d.view.subject))))

  abbrev pub after_cursor : Option (String × String) → ViewDoc → Bool
  after_cursor none d = true
  after_cursor (some p) d = is_after p d

  -- `if query.cursor`
  abbrev pub read_cursor : Option String → Result (Option (String × String))
  read_cursor none = ok none
  read_cursor (some token) =
      if is_empty token then ok none else do p ← tokens.decode token; ok (some p)

  -- `docs[-1]`, and the token of its place
  abbrev token_of : Option ViewDoc → Result String
  token_of none = err index_error
  token_of (some d) = ok (tokens.encode (place d))

  abbrev pub page_of : ℕ → List ViewDoc → Result Page
  page_of limit docs =
      if ltb limit (length docs)
      then (do
        token ← token_of (get_last? (take limit docs))
        ok (record { items = map to_view (take limit docs); next_cursor = some token }))
      else ok (record { items = map to_view docs; next_cursor = none })

  unfoldable pub mongo_query : RequestQuery → Collection → Result Page
  mongo_query q c = do
    start ← read_cursor q.cursor
    page_of q.limit (find (λ d. matches q d && after_cursor start d) by_age (q.limit + 1) c)

  unfoldable pub mongo_clear : Collection → Collection
  mongo_clear c = delete_many (λ d. str_eq d.log_id log_id) c
