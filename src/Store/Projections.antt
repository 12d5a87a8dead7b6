-- ===== src/Store/Projections.antt =====
-- The store of views: the protocol and `NullProjectionStore` of src/approvo/stores/base.py, and the store of src/tests/memory_stores.py
-- without its `query`.
use approvo.Base.{
  String, str_eq, ltb, ◌≡◌, refl, ◌∙◌, Bool, true, false, inl, inr, Bool-cases, Option, none, some,
  [], Dict, lookup, insert, lookup-insert, eq_iff, eq_refl, subst, if◌then◌else◌,
}
use approvo.Result.{Result, ok}
use approvo.Models.Views.{RequestView, RequestQuery, Page}

-- `is_null` is whether the store is an instance of `NullProjectionStore`.
pub record ProjectionStore : Type 1 where
  pub Views : Type 0
  pub is_null : Bool
  pub upsert : RequestView → Views → Views
  pub get_view : String → Views → Option RequestView
  pub query : RequestQuery → Views → Result Page
  pub clear : Views → Views

abbrev pub null_projections : ProjectionStore
null_projections = record {
  Views = Unit {0};
  is_null = true;
  upsert = λ v s. s;
  get_view = λ id s. none;
  query = λ q s. ok (record { items = []; next_cursor = none });
  clear = λ s. s;
}

abbrev pub newer_of : Option RequestView → RequestView → RequestView
newer_of none v = v
newer_of (some w) v = if ltb v.last_seq w.last_seq then w else v

-- What base.py asks of a store that keeps views: `clear` drops all, and `upsert` changes the view of its request only, and never for one
-- with a smaller `last_seq`.
pub record IsProjection (p : ProjectionStore) : Type 0 where
  pub keeps : p.is_null ≡ false
  pub cleared : (id : String) (s : p.Views) → p.get_view id (p.clear s) ≡ none
  pub upserted :
      (v : RequestView) (id : String) (s : p.Views)
      → p.get_view id (p.upsert v s)
        ≡ (if str_eq v.request_id id then some (newer_of (p.get_view id s) v) else p.get_view id s)

abbrev is_stale : Option RequestView → RequestView → Bool
is_stale none v = false
is_stale (some current) v = ltb v.last_seq current.last_seq

unfoldable pub upsert : RequestView → Dict RequestView → Dict RequestView
upsert v views =
    if is_stale (lookup v.request_id views) v then views else insert v.request_id v views

abbrev pub memory_projections : (RequestQuery → Dict RequestView → Result Page) → ProjectionStore
memory_projections query = record {
  Views = Dict RequestView;
  is_null = false;
  upsert = upsert;
  get_view = λ id views. lookup id views;
  query = query;
  clear = λ views. [];
}

lookup-upsert :
    (v : RequestView) (id : String) (views : Dict RequestView)
    → lookup id (upsert v views)
      ≡ (if str_eq v.request_id id then some (newer_of (lookup id views) v) else lookup id views)
unfolding upsert
lookup-upsert v id views = elim (Bool-cases (str_eq v.request_id id)) [
  | inr other ↦ elim (Bool-cases (is_stale (lookup v.request_id views) v)) [
    | inl stale ↦ rw (stale, other) refl
    | inr fresh ↦ rw (fresh, other) (lookup-insert v.request_id id v views ∙ rw other refl)
  ]
  | inl same ↦
      let e = (eq_iff v.request_id id).0 same in
      rw same (
        subst (λ i. lookup i (upsert v views) ≡ some (newer_of (lookup i views) v)) e
          (at_own (lookup v.request_id views) refl))
]
  where
    at_own :
        (o : Option RequestView)
        → lookup v.request_id views ≡ o
        → lookup v.request_id (if is_stale o v then views else insert v.request_id v views)
          ≡ some (newer_of o v)
    at_own none h = lookup-insert v.request_id v.request_id v views ∙ rw (eq_refl v.request_id) refl
    at_own (some w) h = elim (Bool-cases (ltb v.last_seq w.last_seq)) [
      | inl stale ↦ rw stale h
      | inr fresh ↦
          rw fresh
            (lookup-insert v.request_id v.request_id v views ∙ rw (eq_refl v.request_id) refl)
    ]

pub memory_projections-IsProjection :
    (query : RequestQuery → Dict RequestView → Result Page)
    → IsProjection (memory_projections query)
unfolding lookup
memory_projections-IsProjection query = record {
  keeps = refl;
  cleared = λ id s. refl;
  upserted = lookup-upsert;
}
