-- ===== src/Example/Mongo/Events/Reads.antt =====
-- The reads of `MongoEventStore` (examples/vehicle-release-approvals/app/mongo_stores.py) against those of src/tests/memory_stores.py.
use approvo.Base.{
  keep-true, ℕ, suc, ◌+◌, String, is_empty, ◌≡◌, refl, sym, ap, ◌∙◌, Bool, true, false, ◌&&◌,
  Option, none, some, List, map, length, keep, take, drop, get_elem?, get_last?, subst, leb, ltb,
  ◌==◌, arith,
}
use Prim.Native.Nat.{min}
use approvo.Result.{Result, ok, ◌>>=◌}
use approvo.Json.{dict}
use approvo.Models.Entry.{LedgerEntry}
use approvo.Models.Checkpoint.{Checkpoint, from_dict}
use approvo.Store.Events.{
  EventStore, head, get_by_seq, events_for_request, scan, leaf_hashes, latest_checkpoint,
  last_published,
}
use approvo.Store.Events.Index.{is_for, IsIndexed, events_for_request-keep}
use approvo.Example.Mongo.{MongoDb, first, sort_by, up_to}
use approvo.Example.Mongo.Cursor.{
  keep-&&, head?, Sorted, Sorted-keep, Sorted-AllApart, Sorted-AllApart-after, sort_by-Sorted,
  head_sort_by, head_take,
}
use approvo.Example.Mongo.Events.{
  EventDoc, id_of, doc_id, to_entry, entry_of, of_log, by_seq, by_seq_descending, requested,
  hash_of, checkpoint_in, mongo_head, mongo_get_by_seq, mongo_events_for_request, mongo_scan,
  mongo_leaf_hashes, mongo_latest_checkpoint,
}
use approvo.Example.Mongo.Events.Numbered.{Numbered-Sorted, first-Numbered, keep-take, keep-drop}
use approvo.Example.Mongo.Events.Refines.{Represents, of_this_log}
use approvo.Example.Mongo.Events.Lists.{
  entry_of-get_elem?, entry_of-get_last?, map-take, map-drop, drop-take, map-keep, is_published,
  last_published_lem, by_id, map-hash_of, map_hashes_take,
}

module _ (db : MongoDb EventDoc id_of) (log_id : String) where
  open db use {Collection, documents, find, find_lem, find_one, find_one_lem}

  module _ (c : Collection) (store : EventStore) (r : Represents db log_id c store) where
    abbrev ds : List EventDoc
    ds = of_this_log db log_id c

    ds-Sorted : Sorted by_seq ds
    ds-Sorted = Numbered-Sorted 0 ds r.numbered

    -- A cursor over the log's documents, in order.
    find_in_order :
        (q : EventDoc → Bool) (n : ℕ)
        → find (λ d. of_log log_id d && q d) by_seq n c ≡ up_to n (keep q ds)
    find_in_order q n =
        let split = keep-&& (of_log log_id) q (documents c) in
        let sorted = subst (Sorted by_seq) (sym split) (Sorted-keep by_seq q ds ds-Sorted) in
        find_lem (λ d. of_log log_id d && q d) by_seq n c (Sorted-AllApart by_seq _ sorted)
        ∙ ap (up_to n) (sort_by-Sorted by_seq _ sorted ∙ split)

    -- The first of a cursor in the reverse order.
    find_last :
        (p : EventDoc → Bool)
        → Sorted by_seq (keep p (documents c))
        → head? (find p by_seq_descending 1 c) ≡ get_last? (keep p (documents c))
    find_last p sorted =
        ap head? (find_lem p by_seq_descending 1 c (Sorted-AllApart-after by_seq _ sorted))
        ∙ head_take 0 (sort_by by_seq_descending (keep p (documents c)))
        ∙ head_sort_by by_seq (keep p (documents c)) sorted

    mongo_head_lem : mongo_head db log_id c ≡ head store
    unfolding mongo_head
    mongo_head_lem =
        ap entry_of (find_last (of_log log_id) ds-Sorted)
        ∙ entry_of-get_last? ds
        ∙ ap get_last? r.same

    mongo_get_by_seq_lem : (seq : ℕ) → mongo_get_by_seq db log_id seq c ≡ get_by_seq seq store
    unfolding mongo_get_by_seq
    mongo_get_by_seq_lem seq =
        ap entry_of (
          find_one_lem (doc_id log_id seq) c
          ∙ by_id log_id seq (documents c) r.named
          ∙ ap (λ k. first (λ (d : EventDoc). d.seq == k) ds) (omega arith)
          ∙ first-Numbered 0 seq ds r.numbered)
        ∙ entry_of-get_elem? seq ds
        ∙ ap (λ es. get_elem? es seq) r.same

    mongo_events_for_request_lem :
        (id : String)
        → is_empty id ≡ false
        → mongo_events_for_request db log_id id c ≡ keep (is_for id) store.entries
    unfolding mongo_events_for_request
    mongo_events_for_request_lem id named =
        ap (map to_entry) (find_in_order (requested id) 0)
        ∙ map-keep id ds named
        ∙ ap (keep (is_for id)) r.same

    at_zero : (start : ℕ) → keep (λ (d : EventDoc). leb start d.seq) ds ≡ drop start ds
    at_zero start =
        ap (λ k. keep (λ (d : EventDoc). leb k d.seq) ds) (omega arith)
        ∙ keep-drop 0 start ds r.numbered

    mongo_scan_lem : (start : ℕ) → mongo_scan db log_id start none c ≡ scan start none store
    unfolding mongo_scan
    mongo_scan_lem start =
        ap (map to_entry) (find_in_order (λ d. leb start d.seq) 0 ∙ at_zero start)
        ∙ map-drop start ds
        ∙ ap (drop start) r.same

    mongo_scan_limited :
        (start limit : ℕ)
        → mongo_scan db log_id start (some (suc limit)) c ≡ scan start (some (suc limit)) store
    unfolding mongo_scan
    mongo_scan_limited start limit =
        ap (map to_entry)
          (find_in_order (λ d. leb start d.seq) (suc limit) ∙ ap (take (suc limit)) (at_zero start))
        ∙ map-take (suc limit) (drop start ds)
        ∙ ap (take (suc limit)) (map-drop start ds ∙ ap (drop start) r.same)
        ∙ sym (
            drop-take (min (start + suc limit) (length store.entries)) start (suc limit)
              store.entries refl)

    -- A limit of 0 reads everything in MongoDB, and nothing in memory.
    mongo_scan_zero : (start : ℕ) → mongo_scan db log_id start (some 0) c ≡ drop start store.entries
    unfolding mongo_scan
    mongo_scan_zero start =
        ap (map to_entry) (find_in_order (λ d. leb start d.seq) 0 ∙ at_zero start)
        ∙ map-drop start ds
        ∙ ap (drop start) r.same

    mongo_leaf_hashes_all : mongo_leaf_hashes db log_id none c ≡ leaf_hashes none store
    unfolding mongo_leaf_hashes
    mongo_leaf_hashes_all =
        ap (map hash_of) (find_in_order (λ d. true) 0 ∙ keep-true ds)
        ∙ map-hash_of ds
        ∙ ap (map (λ (e : LedgerEntry). e.entry_hash)) r.same

    mongo_leaf_hashes_below :
        (n : ℕ) → mongo_leaf_hashes db log_id (some n) c ≡ leaf_hashes (some n) store
    unfolding mongo_leaf_hashes
    mongo_leaf_hashes_below n =
        let kept : keep (λ (d : EventDoc). ltb d.seq n) ds ≡ take n ds =
          ap (λ k. keep (λ (d : EventDoc). ltb d.seq k) ds) (omega arith)
          ∙ keep-take 0 n ds r.numbered in
        ap (map hash_of) (find_in_order (λ d. ltb d.seq n) 0 ∙ kept)
        ∙ map-hash_of (take n ds)
        ∙ ap (map (λ (e : LedgerEntry). e.entry_hash)) (map-take n ds ∙ ap (take n) r.same)
        ∙ map_hashes_take n store.entries

    abbrev read_published : Option LedgerEntry → Result (Option Checkpoint)
    read_published o = elim o [
      | none ↦ ok none
      | some e ↦ do cp ← from_dict (dict e.payload); ok (some cp)
    ]

    checkpoint_in_lem : (o : Option EventDoc) → checkpoint_in o ≡ read_published (entry_of o)
    checkpoint_in_lem none = refl
    checkpoint_in_lem (some d) = refl

    mongo_latest_checkpoint_lem : mongo_latest_checkpoint db log_id c ≡ latest_checkpoint store
    unfolding mongo_latest_checkpoint latest_checkpoint
    mongo_latest_checkpoint_lem =
        let split = keep-&& (of_log log_id) is_published (documents c) in
        let sorted =
          subst (Sorted by_seq) (sym split) (Sorted-keep by_seq is_published ds ds-Sorted) in
        ap checkpoint_in
          (find_last (λ d. of_log log_id d && is_published d) sorted ∙ ap get_last? split)
        ∙ checkpoint_in_lem (get_last? (keep is_published ds))
        ∙ ap read_published (last_published_lem ds ∙ ap last_published r.same)

    -- Where the collection represents a store whose index agrees with its entries, every read over MongoDB gives what the read in memory
    -- gives: the head, an entry by its number, the events of a request with a proper id, a scan with no limit or a positive one, the leaf
    -- hashes with a bound or without, and the latest checkpoint. A scan with the limit 0, which reads nothing in memory, reads all
    -- entries from the start over MongoDB.
    pub mongo_reads-eq :
        (seq start limit : ℕ) (id : String)
        → is_empty id ≡ false
        → IsIndexed store
        → (mongo_head db log_id c ≡ head store)
          × (mongo_get_by_seq db log_id seq c ≡ get_by_seq seq store)
          × (ok (mongo_events_for_request db log_id id c) ≡ events_for_request id store)
          × (mongo_scan db log_id start none c ≡ scan start none store)
          × (mongo_scan db log_id start (some (suc limit)) c ≡ scan start (some (suc limit)) store)
          × (mongo_leaf_hashes db log_id none c ≡ leaf_hashes none store)
          × (mongo_leaf_hashes db log_id (some seq) c ≡ leaf_hashes (some seq) store)
          × (mongo_latest_checkpoint db log_id c ≡ latest_checkpoint store)
          × (mongo_scan db log_id start (some 0) c ≡ scan start none store)
    mongo_reads-eq seq start limit id named indexed = (
      mongo_head_lem,
      mongo_get_by_seq_lem seq,
      ap ok (mongo_events_for_request_lem id named)
          ∙ sym (events_for_request-keep store id indexed),
      mongo_scan_lem start,
      mongo_scan_limited start limit,
      mongo_leaf_hashes_all,
      mongo_leaf_hashes_below seq,
      mongo_latest_checkpoint_lem,
      mongo_scan_zero start,
    )
