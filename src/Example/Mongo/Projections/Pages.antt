-- ===== src/Example/Mongo/Projections/Pages.antt =====
-- Reading a listing page by page, as `test_pagination_covers_every_item_exactly_once` of src/approvo/testing.py does, over the store of
-- examples/vehicle-release-approvals/app/mongo_stores.py.
use approvo.Base.{
  map-append, keep-true, ℕ, zero, suc, ◌+◌, ◌≤◌, ◌<◌, String, is_empty, ltb, lt→ltb, ◌≡◌, refl, sym,
  ap, ◌∙◌, subst, inl, inr, Bool, false, ◌&&◌, Option, none, some, List, [], ◌∷◌, ◌++◌,
  append_assoc, map, take, length, length-take, keep, get_last?-append, arith,
}
use approvo.Result.{Result, ok, err, assertion_error, ◌>>=◌}
use approvo.Json.{Value, Fields}
use approvo.Models.Views.{RequestView, RequestQuery, Page}
use approvo.Example.Mongo.{MongoDb, sort_by, up_to, AllApart}
use approvo.Example.Mongo.Cursor.{keep-&&, Sorted}
use approvo.Example.Mongo.Sorting.{AllApart-keep, sort_by-AllApart, keep-sort_by, keep_after}
use approvo.Example.Mongo.Projections.{
  ViewDoc, view_id, to_view, by_age, place, Tokens, matches, after_cursor, read_cursor, page_of,
  mongo_query,
}
use approvo.Example.Mongo.Projections.Order.{by_age-IsStrict, HasIds, HasIds-AllApart}
use approvo.Example.Mongo.Projections.Cut.{length-sort_by, take_short, take-take, cut, leb_cases}

module _ (db : MongoDb ViewDoc view_id) (tokens : Tokens)
    (subject_is : Fields → String × Value → Bool) (log_id : String) where
  open db use {Collection, documents, find, find_lem}

  abbrev pages_after : (String → Result (List RequestView)) → Page → Result (List RequestView)
  pages_after more page = elim page.next_cursor [
    | none ↦ ok page.items
    | some token ↦ do rest ← more token; ok (page.items ++ rest)
  ]

  -- The loop of the test, with the number of pages that it allows.
  unfoldable pub read_pages : ℕ → RequestQuery → Collection → Result (List RequestView)
  read_pages zero q c = err assertion_error
  read_pages (suc pages) q c = do
    page ← mongo_query db tokens subject_is log_id q c
    pages_after (λ token. read_pages pages (record q { cursor = some token }) c) page

  -- The documents that match, in the order of the listing.
  abbrev pub listing : RequestQuery → Collection → List ViewDoc
  listing q c = sort_by by_age (keep (matches db tokens subject_is log_id q) (documents c))

  -- A token that is not empty, and is read as the place it was made of.
  abbrev pub HoldsPlace : String × String → Type 0
  HoldsPlace p = (is_empty (tokens.encode p) ≡ false) × (tokens.decode (tokens.encode p) ≡ ok p)

  module _ (c : Collection) (has_ids : HasIds (documents c))
      (holds : (p : String × String) → HoldsPlace p) where
    matching_apart :
        (q : RequestQuery)
        → AllApart by_age (keep (matches db tokens subject_is log_id q) (documents c))
    matching_apart q =
        AllApart-keep by_age (matches db tokens subject_is log_id q) (documents c)
          (HasIds-AllApart (documents c) has_ids)

    -- What a page is cut from: the listing behind the cursor.
    find_rest :
        (q : RequestQuery) (start : Option (String × String))
        → find
            (λ d.
              matches db tokens subject_is log_id q d
              && after_cursor db tokens subject_is log_id start d)
            by_age
            (q.limit + 1)
            c
          ≡ take (suc q.limit) (keep (after_cursor db tokens subject_is log_id start) (listing q c))
    find_rest q start =
        let m = matches db tokens subject_is log_id q in
        let a = after_cursor db tokens subject_is log_id start in
        let split = keep-&& m a (documents c) in
        let apart = AllApart-keep by_age a (keep m (documents c)) (matching_apart q) in
        find_lem (λ d. m d && a d) by_age (q.limit + 1) c
          (subst (AllApart by_age) (sym split) apart)
        ∙ ap (λ n. up_to n (sort_by by_age (keep (λ d. m d && a d) (documents c))))
            {x = q.limit + 1} {y = suc q.limit} (omega arith)
        ∙ ap (λ ds. take (suc q.limit) (sort_by by_age ds)) split
        ∙ ap (take (suc q.limit))
            (sym (keep-sort_by by_age by_age-IsStrict a (keep m (documents c)) (matching_apart q)))

    read_token :
        (p : String × String)
        → read_cursor db tokens subject_is log_id (some (tokens.encode p)) ≡ ok (some p)
    read_token p = rw (holds p).0 (ap (λ r. r >>= λ x. ok (some x)) (holds p).1)

    -- A page that holds all that is left.
    last_page :
        (limit : ℕ) (ds : List ViewDoc)
        → length ds ≤ limit
        → page_of db tokens subject_is log_id limit (take (suc limit) ds)
          ≡ ok (record { items = map to_view ds; next_cursor = none })
    last_page limit ds h =
        ap (page_of db tokens subject_is log_id limit) (take_short (suc limit) ds (omega arith))
        ∙ rw (not_less limit (length ds) h) refl
      where
        not_less : (a b : ℕ) → b ≤ a → ltb a b ≡ false
        not_less a b h = ground arith

    -- A page with more to come.
    full_page :
        (limit : ℕ) (ds : List ViewDoc) (limited : 0 < limit) (longer : limit < length ds)
        → page_of db tokens subject_is log_id limit (take (suc limit) ds)
          ≡ ok (record {
            items =
                map to_view
                  ((cut limit ds limited longer).front ++ (cut limit ds limited longer).last ∷ []);
            next_cursor = some (tokens.encode (place (cut limit ds limited longer).last));
          })
    full_page limit ds limited longer =
        let k = cut limit ds limited longer in
        let taken = take-take limit ds ∙ k.taken in
        rw
          (
            lt→ltb limit (length (take (suc limit) ds))
                (omega (arith, longer, length-take (suc limit) ds)),
            taken,
            get_last?-append k.front k.last,
          )
          refl

    query_from :
        (q : RequestQuery) (start : Option (String × String)) (rest : List ViewDoc)
        → read_cursor db tokens subject_is log_id q.cursor ≡ ok start
        → keep (after_cursor db tokens subject_is log_id start) (listing q c) ≡ rest
        → mongo_query db tokens subject_is log_id q c
          ≡ page_of db tokens subject_is log_id q.limit (take (suc q.limit) rest)
    unfolding mongo_query
    query_from q start rest at left =
        ap
          (λ r. r >>= λ s. page_of db tokens subject_is log_id q.limit (
            find
              (λ d.
                matches db tokens subject_is log_id q d
                && after_cursor db tokens subject_is log_id s d)
              by_age (q.limit + 1) c))
          at
        ∙ ap (page_of db tokens subject_is log_id q.limit)
            (find_rest q start ∙ ap (take (suc q.limit)) left)

    -- From a cursor behind the documents that were read.
    read_from :
        (pages : ℕ) (q : RequestQuery) (start : Option (String × String)) (read rest : List ViewDoc)
        → read_cursor db tokens subject_is log_id q.cursor ≡ ok start
        → 0 < q.limit
        → keep (after_cursor db tokens subject_is log_id start) (listing q c) ≡ rest
        → listing q c ≡ read ++ rest
        → length rest < pages
        → read_pages pages q c ≡ ok (map to_view rest)
    unfolding read_pages
    read_from zero q start read rest at limited left behind enough = absurd (omega arith)
    read_from (suc pages) q start read rest at limited left behind enough =
        let more : String → Result (List RequestView) =
          λ token. read_pages pages (record q { cursor = some token }) c in
        let found = query_from q start rest at left in
        elim (leb_cases (length rest) q.limit) [
          | inl fits ↦ ap (λ r. r >>= pages_after more) (found ∙ last_page q.limit rest fits)
          | inr longer ↦
              let k = cut q.limit rest limited longer in
              let whole =
                behind
                ∙ ap (λ l. read ++ l) k.whole
                ∙ sym (append_assoc read k.front (k.last ∷ k.back)) in
              let sorted =
                subst (Sorted by_age) whole
                  (sort_by-AllApart by_age by_age-IsStrict _ (matching_apart q)) in
              let left' =
                ap (keep (by_age k.last)) whole
                ∙ keep_after by_age by_age-IsStrict (read ++ k.front) k.last k.back sorted in
              let rest' =
                read_from pages (record q { cursor = some (tokens.encode (place k.last)) })
                  (some (place k.last)) ((read ++ k.front) ++ k.last ∷ []) k.back
                  (read_token (place k.last)) limited left'
                  (whole ∙ sym (append_assoc (read ++ k.front) (k.last ∷ []) k.back))
                  (omega (arith, k.shorter, enough)) in
              ap (λ r. r >>= pages_after more) (found ∙ full_page q.limit rest limited longer)
              ∙ ap (λ r. r >>= λ later. ok (map to_view (k.front ++ k.last ∷ []) ++ later)) rest'
              ∙ ap ok (
                  sym (map-append to_view (k.front ++ k.last ∷ []) k.back)
                  ∙ ap (map to_view) (append_assoc k.front (k.last ∷ []) k.back ∙ sym k.whole))
        ]

    -- Reading a listing from its start, with a limit that is not 0 and tokens that are read as they were written, ends: as many pages
    -- as there are matching documents, and one more, are enough, and what was read is every view that matches, once, in the order of
    -- creation, when no two documents of the collection have the same id.
    pub read_pages-listing :
        (pages : ℕ) (q : RequestQuery)
        → q.cursor ≡ none
        → 0 < q.limit
        → length (keep (matches db tokens subject_is log_id q) (documents c)) < pages
        → read_pages pages q c ≡ ok (map to_view (listing q c))
    read_pages-listing pages q fresh limited enough =
        read_from pages q none [] (listing q c) (ap (read_cursor db tokens subject_is log_id) fresh)
          limited (keep-true (listing q c)) refl
          (subst (λ n. n < pages)
            (sym (length-sort_by (keep (matches db tokens subject_is log_id q) (documents c))))
            enough)
