-- ===== src/Example/Mongo/Events/Lists.antt =====
-- Lists of documents and of the entries that they hold, for examples/vehicle-release-approvals/app/mongo_stores.py.
use approvo.Base.{
  ℕ, zero, suc, ◌+◌, String, str_eq, eq_iff, is_empty, ◌≡◌, refl, sym, ap, ◌∙◌, inl, inr, Bool,
  true, false, not, ◌&&◌, Bool-cases, Option, none, some, List, [], ◌∷◌, map, length, keep, take,
  drop, get_elem?, get_last?, All, ◌==◌, if◌then◌else◌, arith,
}
use Prim.Native.Nat.{min}
use approvo.Models.Entry.{LedgerEntry}
use approvo.Store.Events.{last_published}
use approvo.Store.Events.Index.{is_for}
use approvo.Example.Mongo.{first}
use approvo.Example.Mongo.Events.{EventDoc, doc_id, to_entry, entry_of, of_log, requested, hash_of}
use approvo.Example.Mongo.Events.Ids.{doc_id-injective}

pub entry_of-get_elem? :
    (n : ℕ) (ds : List EventDoc) → entry_of (get_elem? ds n) ≡ get_elem? (map to_entry ds) n
entry_of-get_elem? n [] = refl
entry_of-get_elem? zero (d ∷ ds) = refl
entry_of-get_elem? (suc n) (d ∷ ds) = entry_of-get_elem? n ds

or_last :
    (d : EventDoc) (o : Option EventDoc) (p : Option LedgerEntry)
    → entry_of o ≡ p
    → entry_of (elim o [ none ↦ some d | some y ↦ some y ])
      ≡ (elim p [ none ↦ some (to_entry d) | some y ↦ some y ])
or_last d none none h = refl
or_last d none (some y) h = cc
or_last d (some x) none h = cc
or_last d (some x) (some y) h = h

pub entry_of-get_last? :
    (ds : List EventDoc) → entry_of (get_last? ds) ≡ get_last? (map to_entry ds)
entry_of-get_last? [] = refl
entry_of-get_last? (d ∷ ds) =
    or_last d (get_last? ds) (get_last? (map to_entry ds)) (entry_of-get_last? ds)

pub map-take : (n : ℕ) (ds : List EventDoc) → map to_entry (take n ds) ≡ take n (map to_entry ds)
map-take zero ds = refl
map-take (suc n) [] = refl
map-take (suc n) (d ∷ ds) = ap (λ l. to_entry d ∷ l) (map-take n ds)

pub map-drop : (n : ℕ) (ds : List EventDoc) → map to_entry (drop n ds) ≡ drop n (map to_entry ds)
map-drop zero ds = refl
map-drop (suc n) [] = refl
map-drop (suc n) (d ∷ ds) = map-drop n ds

take-min : (k l : ℕ) (es : List LedgerEntry) → k ≡ min l (length es) → take k es ≡ take l es
take-min zero zero es h = refl
take-min zero (suc l) [] h = refl
take-min zero (suc l) (e ∷ es) h = absurd (omega (arith, h))
take-min (suc k) zero es h = absurd (omega (arith, h))
take-min (suc k) (suc l) [] h = absurd (omega (arith, h))
take-min (suc k) (suc l) (e ∷ es) h = ap (λ t. e ∷ t) (take-min k l es (omega (arith, h)))

pub drop-take :
    (k s l : ℕ) (es : List LedgerEntry)
    → k ≡ min (s + l) (length es)
    → drop s (take k es) ≡ take l (drop s es)
drop-take k zero l es h = take-min k l es (omega (arith, h))
drop-take zero (suc s) zero [] h = refl
drop-take zero (suc s) (suc l) [] h = refl
drop-take (suc k) (suc s) l [] h = absurd (omega (arith, h))
drop-take zero (suc s) l (e ∷ es) h = absurd (omega (arith, h))
drop-take (suc k) (suc s) l (e ∷ es) h = drop-take k s l es (omega (arith, h))

-- The filter and the index agree on which request an entry is for; the index leaves out the empty text.
requested-is_for :
    (id : String) (e : LedgerEntry) (o : Option String)
    → is_empty id ≡ false
    → (elim o [ none ↦ false | some i ↦ str_eq i id ]) ≡ is_for id (record e { request_id = o })
requested-is_for id e none h = refl
requested-is_for id e (some i) h = elim (Bool-cases (str_eq i id)) [
  | inr other ↦ rw other refl
  | inl same ↦ rw same (sym (ap not (ap is_empty ((eq_iff i id).0 same) ∙ h)))
]

pub map-keep :
    (id : String) (ds : List EventDoc)
    → is_empty id ≡ false
    → map to_entry (keep (requested id) ds) ≡ keep (is_for id) (map to_entry ds)
map-keep id [] h = refl
map-keep id (d ∷ ds) h =
    let rest = map-keep id ds h in
    let same : requested id d ≡ is_for id (to_entry d) =
      requested-is_for id (to_entry d) d.request_id h in
    elim (Bool-cases (requested id d)) [
      | inl kept ↦ rw (kept, sym same ∙ kept) (ap (λ l. to_entry d ∷ l) rest)
      | inr dropped ↦ rw (dropped, sym same ∙ dropped) rest
    ]

abbrev pub is_published : EventDoc → Bool
is_published d = str_eq d.event_type "checkpoint.published"

unchanged : (o : Option LedgerEntry) → (elim o [ none ↦ none | some found ↦ some found ]) ≡ o
unchanged none = refl
unchanged (some e) = refl

pub last_published_lem :
    (ds : List EventDoc)
    → entry_of (get_last? (keep is_published ds)) ≡ last_published (map to_entry ds)
last_published_lem [] = refl
last_published_lem (d ∷ ds) =
    let ks = keep is_published ds in
    let later = last_published (map to_entry ds) in
    let left : Bool → Option LedgerEntry = λ b. entry_of (get_last? (if b then d ∷ ks else ks)) in
    let right : Bool → Option LedgerEntry =
      λ b. elim later [ some found ↦ some found | none ↦ if b then some (to_entry d) else none ] in
    elim (Bool-cases (is_published d)) [
      | inl here ↦
          ap left here
          ∙ or_last d (get_last? ks) later (last_published_lem ds)
          ∙ sym (ap right here)
      | inr other ↦
          ap left other ∙ last_published_lem ds ∙ sym (unchanged later) ∙ sym (ap right other)
    ]

same_tests : (a b : Bool) → (a ≡ true → b ≡ true) → (b ≡ true → a ≡ true) → a ≡ b
same_tests true b h k = sym (h refl)
same_tests false true h k = k refl
same_tests false false h k = refl

module _ (log_id : String) (seq : ℕ) where
  id_test :
      (d : EventDoc)
      → d.id ≡ doc_id d.log_id d.seq
      → str_eq d.id (doc_id log_id seq) ≡ (of_log log_id d && d.seq == seq)
  id_test d named =
      same_tests _ _
        (λ same.
          let (logs, numbers) =
            doc_id-injective d.log_id log_id d.seq seq
              (sym named ∙ (eq_iff d.id (doc_id log_id seq)).0 same) in
          rw ((eq_iff d.log_id log_id).1 logs) (ground (arith, numbers)))
        (λ both.
          let ours : str_eq d.log_id log_id ≡ true = ground (arith, both) in
          let at : d.seq ≡ seq = ground (arith, both) in
          (eq_iff d.id (doc_id log_id seq)).1 (
            named
            ∙ ap (λ l. doc_id l d.seq) ((eq_iff d.log_id log_id).0 ours)
            ∙ ap (doc_id log_id) at))

  pub by_id :
      (l : List EventDoc)
      → All (λ (d : EventDoc). d.id ≡ doc_id d.log_id d.seq) l
      → first (λ (d : EventDoc). str_eq d.id (doc_id log_id seq)) l
        ≡ first (λ (d : EventDoc). d.seq == seq) (keep (of_log log_id) l)
  by_id [] h = refl
  by_id (d ∷ l) h =
      let rest = by_id l h.1 in
      let test = id_test d h.0 in
      elim (Bool-cases (of_log log_id d)) [
        | inl ours ↦ rw ours (
            ap
              (λ b.
                if b then some d else first (λ (x : EventDoc). str_eq x.id (doc_id log_id seq)) l)
              (test ∙ ap (λ b. b && d.seq == seq) ours)
            ∙ ap (λ o. if d.seq == seq then some d else o) rest)
        | inr other ↦ rw other (
            ap
              (λ b.
                if b then some d else first (λ (x : EventDoc). str_eq x.id (doc_id log_id seq)) l)
              (test ∙ ap (λ b. b && d.seq == seq) other)
            ∙ rest)
      ]

pub map-hash_of :
    (l : List EventDoc) → map hash_of l ≡ map (λ (e : LedgerEntry). e.entry_hash) (map to_entry l)
map-hash_of [] = refl
map-hash_of (d ∷ l) = ap (λ t. d.entry_hash ∷ t) (map-hash_of l)

pub map_hashes_take :
    (n : ℕ) (es : List LedgerEntry)
    → map (λ (e : LedgerEntry). e.entry_hash) (take n es)
      ≡ take n (map (λ (e : LedgerEntry). e.entry_hash) es)
map_hashes_take zero es = refl
map_hashes_take (suc n) [] = refl
map_hashes_take (suc n) (e ∷ es) = ap (λ t. e.entry_hash ∷ t) (map_hashes_take n es)
