-- ===== src/Store/Events/Index.antt =====
-- The index of `MemoryEventStore` (tests/memory_stores.py) and its entries.
use approvo.Base.{
  ℕ, zero, suc, String, str_eq, eq_iff, is_empty, ◌≡◌, refl, sym, ap, ◌∙◌, inl, inr, Bool, false,
  ◌&&◌, not, Bool-cases, Option, none, some, List, [], ◌∷◌, ◌++◌, map, length, get_elem?, keep, All,
  All-append, All-weaken, Dict, lookup-insert, subst, if◌then◌else◌, ◌==◌, arith,
}
use approvo.Result.{ok, ok-injective}
use approvo.Models.Entry.{LedgerEntry}
use approvo.Store.Events.{
  EventStore, or_empty, numbers_of, index_under, append, pick, events_for_request,
}

abbrev under : Option String → String → Bool
under none id = false
under (some i) id = str_eq i id && not (is_empty i)

-- The entry is one of the request's; the empty text is no request.
abbrev pub is_for : String → LedgerEntry → Bool
is_for id e = under e.request_id id

abbrev seq_of : LedgerEntry → ℕ
seq_of e = e.seq

-- Each entry stands at the place of its number, and the index gives each request's numbers in order.
pub record IsIndexed (store : EventStore) : Type 0 where
  pub numbered : All (λ (e : LedgerEntry). get_elem? store.entries e.seq ≡ some e) store.entries
  pub indexed :
      (id : String) → numbers_of id store.by_request ≡ map seq_of (keep (is_for id) store.entries)

get_elem?-append :
    (es : List LedgerEntry) (e : LedgerEntry) (i : ℕ) {x : LedgerEntry}
    → get_elem? es i ≡ some x
    → get_elem? (es ++ e ∷ []) i ≡ some x
get_elem?-append [] e i h = cc
get_elem?-append (y ∷ es) e zero h = h
get_elem?-append (y ∷ es) e (suc i) h = get_elem?-append es e i h

get_elem?-last :
    (es : List LedgerEntry) (e : LedgerEntry) → get_elem? (es ++ e ∷ []) (length es) ≡ some e
get_elem?-last [] e = refl
get_elem?-last (y ∷ es) e = get_elem?-last es e

numbers_of-index_under :
    (o : Option String) (n : ℕ) (index : Dict (List ℕ)) (id : String)
    → numbers_of id (index_under o n index)
      ≡ (if under o id then numbers_of id index ++ n ∷ [] else numbers_of id index)
numbers_of-index_under none n index id = refl
numbers_of-index_under (some i) n index id = elim (Bool-cases (is_empty i)) [
  | inl empty ↦ ground (arith, empty)
  | inr named ↦
      let found = ap or_empty (lookup-insert i id (numbers_of i index ++ n ∷ []) index) in
      elim (Bool-cases (str_eq i id)) [
        | inl same ↦
            rw (named, same)
              (found ∙ rw same (ap (λ k. numbers_of k index ++ n ∷ []) ((eq_iff i id).0 same)))
        | inr other ↦ rw (named, other) (found ∙ rw other refl)
      ]
]

keep-append :
    (id : String) (es : List LedgerEntry) (e : LedgerEntry)
    → map seq_of (keep (is_for id) (es ++ e ∷ [])) ≡ (
        if is_for id e
        then map seq_of (keep (is_for id) es) ++ e.seq ∷ []
        else map seq_of (keep (is_for id) es))
keep-append id [] e = ground arith
keep-append id (x ∷ es) e = let rest = keep-append id es e in ground (arith, rest)

-- On a store whose entries stand at the places of their numbers and whose index lists each request's numbers in order, `append`, when it
-- accepts an entry, leaves such a store, whatever the entry is.
pub append-IsIndexed :
    (e : LedgerEntry) (store : EventStore) {after : EventStore}
    → IsIndexed store
    → append e store ≡ ok after
    → IsIndexed after
unfolding append
append-IsIndexed e store {after} w h = elim (Bool-cases (e.seq == length store.entries)) [
  | inr taken ↦ absurd (ground (arith, taken, h))
  | inl next ↦
      let at_end : e.seq ≡ length store.entries = ground (arith, next) in
      subst IsIndexed (ok-injective (rw next at h)) (record {
        numbered =
            All-append _ store.entries (e ∷ [])
              (All-weaken _ _ store.entries (λ x p. get_elem?-append store.entries e x.seq p)
                w.numbered)
              (
                ap (get_elem? (store.entries ++ e ∷ [])) at_end ∙ get_elem?-last store.entries e,
                tt,
              );
        indexed = λ id.
            numbers_of-index_under e.request_id e.seq store.by_request id
            ∙ ap (λ ns. if is_for id e then ns ++ e.seq ∷ [] else ns) (w.indexed id)
            ∙ sym (keep-append id store.entries e);
      })
]

pick-keep :
    (p : LedgerEntry → Bool) (all_entries es : List LedgerEntry)
    → All (λ (e : LedgerEntry). get_elem? all_entries e.seq ≡ some e) es
    → pick all_entries (map seq_of (keep p es)) ≡ ok (keep p es)
pick-keep p all_entries [] h = refl
pick-keep p all_entries (e ∷ es) h = elim (Bool-cases (p e)) [
  | inl kept ↦ rw (kept, h.0, pick-keep p all_entries es h.1) refl
  | inr dropped ↦ rw dropped (pick-keep p all_entries es h.1)
]

-- On a store whose entries stand at the places of their numbers and whose index lists each request's numbers in order, `events_for_request`
-- never fails, and returns exactly the entries of the request, in their order.
pub events_for_request-keep :
    (store : EventStore) (id : String)
    → IsIndexed store
    → events_for_request id store ≡ ok (keep (is_for id) store.entries)
unfolding events_for_request
events_for_request-keep store id w =
    ap (pick store.entries) (w.indexed id)
    ∙ pick-keep (is_for id) store.entries store.entries w.numbered
