-- ===== src/Tests/Mongo.antt =====
-- Examples on the stores of examples/vehicle-release-approvals/app/mongo_stores.py.
use approvo.Base.{
  ℕ, String, append_text, partition, partition-append, Lacks, is_empty, lookup, insert, ◌≡◌, refl,
  ap, ◌∙◌, Option, none, some, List, [], ◌∷◌, true, false, arith,
}
use Prim.Native.String.append
use approvo.Result.{Result, ok, err, index_error}
use approvo.Models.Entry.{LedgerEntry}
use approvo.Models.Views.{RequestView, default_query}
use approvo.Store.Events.{
  EventStore, empty_store, head, append, get_by_seq, events_for_request, scan, leaf_hashes,
  latest_checkpoint,
}
use approvo.Store.Events.Index.{IsIndexed, append-IsIndexed}
use approvo.Store.Reservations.{Reservations, reserve, complete, release}
use approvo.Example.Mongo.Events.{
  EventDoc, id_of, document, mongo_head, mongo_append, mongo_get_by_seq, mongo_events_for_request,
  mongo_scan, mongo_leaf_hashes, mongo_latest_checkpoint,
}
use approvo.Example.Mongo.Events.Refines as Log
use approvo.Example.Mongo.Events.Refines.{mongo_append-Agree}
use approvo.Example.Mongo.Events.Reads.{mongo_reads-eq}
use approvo.Example.Mongo.Slots.{
  SlotDoc, slot_id, scoped_id, mongo_reserve, mongo_complete, mongo_release,
}
use approvo.Example.Mongo.Slots.Changes as Keys
use approvo.Example.Mongo.Slots.Refines.{mongo_slots-Agree}
use approvo.Example.Mongo.Projections.{ViewDoc, view_id, view_doc, mongo_upsert, mongo_get, Tokens}
use approvo.Example.Mongo.Projections.Newest.{mongo_upsert-newer_of}
use approvo.Example.Mongo.Projections.Pages.{read_pages, HoldsPlace, read_pages-listing}
use approvo.Tests.Data.{blank, view}
use approvo.Tests.Collections.{list_db}

abbrev entry : ℕ → LedgerEntry
entry n = record blank { seq = n; request_id = some "r" }

-- Two logs share the collection.
abbrev ledger : List EventDoc
ledger = document "other" (entry 0) ∷ document "mine" (entry 0) ∷ []

abbrev one : EventStore
one = record { entries = entry 0 ∷ []; by_request = ("r", 0 ∷ []) ∷ [] }

nothing-IsIndexed : IsIndexed empty_store
unfolding lookup
nothing-IsIndexed = record { numbered = tt; indexed = λ id. refl }

one-IsIndexed : IsIndexed one
unfolding append lookup insert
one-IsIndexed = append-IsIndexed (entry 0) empty_store nothing-IsIndexed refl

ledger-Represents : Log.Represents (list_db id_of) "mine" ledger one
ledger-Represents = record { same = refl; numbered = (refl, tt); named = (refl, (refl, tt)) }

mongo_append-Agree_example :
    Log.Agree
      (list_db id_of)
      "mine"
      (mongo_append (list_db id_of) "mine" (entry 1) ledger)
      (append (entry 1) one)
mongo_append-Agree_example =
    mongo_append-Agree (list_db id_of) "mine" ledger one (entry 1) ledger-Represents (omega arith)

mongo_reads-eq_example :
    (mongo_head (list_db id_of) "mine" ledger ≡ head one)
    × (mongo_get_by_seq (list_db id_of) "mine" 0 ledger ≡ get_by_seq 0 one)
    × (ok (mongo_events_for_request (list_db id_of) "mine" "r" ledger) ≡ events_for_request "r" one)
    × (mongo_scan (list_db id_of) "mine" 0 none ledger ≡ scan 0 none one)
    × (mongo_scan (list_db id_of) "mine" 0 (some 3) ledger ≡ scan 0 (some 3) one)
    × (mongo_leaf_hashes (list_db id_of) "mine" none ledger ≡ leaf_hashes none one)
    × (mongo_leaf_hashes (list_db id_of) "mine" (some 0) ledger ≡ leaf_hashes (some 0) one)
    × (mongo_latest_checkpoint (list_db id_of) "mine" ledger ≡ latest_checkpoint one)
    × (mongo_scan (list_db id_of) "mine" 0 (some 0) ledger ≡ scan 0 none one)
mongo_reads-eq_example =
    mongo_reads-eq (list_db id_of) "mine" ledger one ledger-Represents 0 0 2 "r" refl one-IsIndexed

-- A slot that is held.
abbrev slots : List SlotDoc
slots = record { id = scoped_id "mine" "key"; fingerprint = "f"; response = none } ∷ []

abbrev held : Reservations
held = ("key", record { fingerprint = "f"; response = none }) ∷ []

slots-Represents : Keys.Represents (list_db slot_id) "mine" slots held
unfolding mongo_reserve reserve scoped_id lookup insert
slots-Represents =
    (mongo_slots-Agree (list_db slot_id) "mine" [] [] "key" "f" ""
      (record { same = λ k. refl })).0.1

mongo_slots-Agree_example :
    Keys.Agree
      (list_db slot_id)
      "mine"
      (mongo_reserve (list_db slot_id) "mine" "key" "f" slots)
      (reserve "key" "f" held)
    × Keys.Represents
        (list_db slot_id)
        "mine"
        (mongo_release (list_db slot_id) "mine" "key" slots)
        (release "key" held)
    × Keys.Completes
        (list_db slot_id)
        "mine"
        (mongo_complete (list_db slot_id) "mine" "key" "done" slots)
        held
        (complete "key" "done" held)
mongo_slots-Agree_example =
    mongo_slots-Agree (list_db slot_id) "mine" slots held "key" "f" "done" slots-Represents

-- A token with as many marks as the time has letters, which tell the time from the id.
abbrev marks : String → String
marks String.[] = ""
marks (String.◌∷◌ c s) = String.◌∷◌ "1" (marks s)

marks-Lacks : (s : String) → Lacks b':' (marks s)
marks-Lacks String.[] = tt
marks-Lacks (String.◌∷◌ c s) = (refl, marks-Lacks s)

abbrev first_letter : String → String × String → String × String
first_letter s (a, b) = (append_text s a, b)

abbrev cut_at : String → String → String × String
cut_at String.[] s = ("", s)
cut_at (String.◌∷◌ m ms) String.[] = ("", "")
cut_at (String.◌∷◌ m ms) (String.◌∷◌ c s) = (String.◌∷◌ c (cut_at ms s).0, (cut_at ms s).1)

abbrev cut_token : Option (String × String) → Result (String × String)
cut_token none = err index_error
cut_token (some (ms, s)) = ok (cut_at ms s)

abbrev tokens : Tokens
tokens = record {
  encode = λ p. append_text (marks p.0) (append_text ":" (append_text p.0 p.1));
  decode = λ s. cut_token (partition ":" s);
}

cut_at-marks : (a b : String) → cut_at (marks a) (append_text a b) ≡ (a, b)
cut_at-marks String.[] b = ap (λ s. ("", s)) (append.nil b)
cut_at-marks (String.◌∷◌ c a) b =
    ap (cut_at (marks (String.◌∷◌ c a))) (append.cons c a b)
    ∙ ap (λ (p : String × String). (String.◌∷◌ c p.0, p.1)) (cut_at-marks a b)

token_is_text : (a s : String) → is_empty (append_text (marks a) (append_text ":" s)) ≡ false
token_is_text String.[] s = ap is_empty (append.nil (append_text ":" s) ∙ append.cons ":" "" s)
token_is_text (String.◌∷◌ c a) s = ap is_empty (append.cons "1" (marks a) (append_text ":" s))

tokens-HoldsPlace :
    (p : String × String) → HoldsPlace (list_db view_id) tokens (λ f m. true) "mine" p
tokens-HoldsPlace p = (
  token_is_text p.0 (append_text p.0 p.1),
  ap cut_token (partition-append ":" "" (marks p.0) (append_text p.0 p.1) (marks-Lacks p.0))
      ∙ ap ok (cut_at-marks p.0 p.1),
)

-- Three views, one of them of another log.
abbrev later : RequestView
later = record view { request_id = "s"; created_at = "ii" }

abbrev views : List ViewDoc
views = view_doc "mine" later ∷ view_doc "other" view ∷ view_doc "mine" view ∷ []

read_pages-listing_example :
    read_pages
      (list_db view_id)
      tokens
      (λ f m. true)
      "mine"
      3
      (record default_query { limit = 1 })
      views
    ≡ ok (view ∷ later ∷ [])
unfolding scoped_id
read_pages-listing_example =
    read_pages-listing (list_db view_id) tokens (λ f m. true) "mine" views
      (refl, (refl, (refl, tt))) tokens-HoldsPlace 3 (record default_query { limit = 1 }) refl
      (omega arith) (omega arith)

-- An update that comes too late.
abbrev stale : RequestView
stale = record view { status = "pending"; last_seq = 2 }

mongo_upsert-newer_of_example :
    mongo_get
      (list_db view_id)
      tokens
      (λ f m. true)
      "mine"
      "r"
      (mongo_upsert (list_db view_id) tokens (λ f m. true) "mine" stale views)
    ≡ some view
unfolding scoped_id mongo_get
mongo_upsert-newer_of_example =
    mongo_upsert-newer_of (list_db view_id) tokens (λ f m. true) "mine" stale "r" views
      (refl, (refl, (refl, tt)))
