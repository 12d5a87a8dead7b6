-- ===== src/Example/Mongo/Sorting.antt =====
-- Documents sorted by a strict order that tells them apart.
use approvo.Base.{
  ◌≡◌, refl, sym, ap, ◌∙◌, Bool, true, false, not, Bool-cases, inl, inr, List, [], ◌∷◌, ◌++◌, keep,
  if◌then◌else◌, arith,
}
use approvo.Example.Mongo.{insert_by, sort_by, Apart, AllApart}
use approvo.Example.Mongo.Cursor.{Leads, Sorted}

pub record IsStrict {Doc : Type 0} (before : Doc → Doc → Bool) : Type 0 where
  pub irrefl : (d : Doc) → before d d ≡ false
  pub asym : (d e : Doc) → before d e ≡ true → before e d ≡ false
  pub trans : (d e f : Doc) → before d e ≡ true → before e f ≡ true → before d f ≡ true

module _ {Doc : Type 0} (before : Doc → Doc → Bool) where
  Apart-keep :
      (q : Doc → Bool) (d : Doc) (ds : List Doc) → Apart before d ds → Apart before d (keep q ds)
  Apart-keep q d [] h = tt
  Apart-keep q d (e ∷ es) h = elim (Bool-cases (q e)) [
    | inl kept ↦ rw kept (h.0, Apart-keep q d es h.1)
    | inr dropped ↦ rw dropped (Apart-keep q d es h.1)
  ]

  pub AllApart-keep :
      (q : Doc → Bool) (ds : List Doc) → AllApart before ds → AllApart before (keep q ds)
  AllApart-keep q [] h = tt
  AllApart-keep q (d ∷ ds) h = elim (Bool-cases (q d)) [
    | inl kept ↦ rw kept (Apart-keep q d ds h.0, AllApart-keep q ds h.1)
    | inr dropped ↦ rw dropped (AllApart-keep q ds h.1)
  ]

  Apart-insert_by :
      (d e : Doc) (es : List Doc)
      → before d e ≡ not (before e d)
      → Apart before d es
      → Apart before d (insert_by before e es)
  Apart-insert_by d e [] p h = (p, tt)
  Apart-insert_by d e (f ∷ es) p h = elim (Bool-cases (before e f)) [
    | inl earlier ↦ rw earlier (p, h)
    | inr later ↦ rw later (h.0, Apart-insert_by d e es p h.1)
  ]

  Apart-sort_by : (d : Doc) (ds : List Doc) → Apart before d ds → Apart before d (sort_by before ds)
  Apart-sort_by d [] h = tt
  Apart-sort_by d (e ∷ es) h = Apart-insert_by d e (sort_by before es) h.0 (Apart-sort_by d es h.1)

  Leads-insert :
      (d e : Doc) (es : List Doc)
      → (before d e ≡ true) × (before e d ≡ false)
      → Leads before d es
      → Leads before d (insert_by before e es)
  Leads-insert d e [] p h = (p, tt)
  Leads-insert d e (f ∷ es) p h = elim (Bool-cases (before e f)) [
    | inl earlier ↦ rw earlier (p, h)
    | inr later ↦ rw later (h.0, Leads-insert d e es p h.1)
  ]

  module _ (strict : IsStrict before) where
    Leads-trans :
        (d e : Doc) (es : List Doc) → before d e ≡ true → Leads before e es → Leads before d es
    Leads-trans d e [] p h = tt
    Leads-trans d e (f ∷ es) p h =
        let df = strict.trans d e f p h.0.0 in ((df, strict.asym d f df), Leads-trans d e es p h.1)

    insert_by-Sorted :
        (d : Doc) (ds : List Doc)
        → Apart before d ds
        → Sorted before ds
        → Sorted before (insert_by before d ds)
    insert_by-Sorted d [] a h = (tt, tt)
    insert_by-Sorted d (e ∷ es) a h = elim (Bool-cases (before d e)) [
      | inl earlier ↦
          rw earlier (((earlier, strict.asym d e earlier), Leads-trans d e es earlier h.0), h)
      | inr later ↦
          let ed : before e d ≡ true = ground (arith, later, a.0) in
          rw later (Leads-insert e d es (ed, later) h.0, insert_by-Sorted d es a.1 h.1)
    ]

    pub sort_by-AllApart : (ds : List Doc) → AllApart before ds → Sorted before (sort_by before ds)
    sort_by-AllApart [] h = tt
    sort_by-AllApart (d ∷ ds) h =
        insert_by-Sorted d (sort_by before ds) (Apart-sort_by d ds h.0) (sort_by-AllApart ds h.1)

    insert_first : (d : Doc) (ds : List Doc) → Leads before d ds → insert_by before d ds ≡ d ∷ ds
    insert_first d [] h = refl
    insert_first d (e ∷ es) h = rw h.0.0 refl

    Leads-kept :
        (q : Doc → Bool) (d : Doc) (ds : List Doc) → Leads before d ds → Leads before d (keep q ds)
    Leads-kept q d [] h = tt
    Leads-kept q d (e ∷ es) h = elim (Bool-cases (q e)) [
      | inl kept ↦ rw kept (h.0, Leads-kept q d es h.1)
      | inr dropped ↦ rw dropped (Leads-kept q d es h.1)
    ]

    keep-insert_by :
        (q : Doc → Bool) (d : Doc) (ds : List Doc)
        → Sorted before ds
        → keep q (insert_by before d ds)
          ≡ (if q d then insert_by before d (keep q ds) else keep q ds)
    keep-insert_by q d [] h = refl
    keep-insert_by q d (e ∷ es) h = elim (Bool-cases (before d e)) [
      | inl earlier ↦ elim (Bool-cases (q d)) [
        | inr out ↦ rw (earlier, out) refl
        | inl kept ↦ elim (Bool-cases (q e)) [
          | inl kept_e ↦ rw (earlier, kept, kept_e) (rw earlier refl)
          | inr out_e ↦
              rw (earlier, kept, out_e)
                (sym
                  (insert_first d (keep q es) (Leads-kept q d es (Leads-trans d e es earlier h.0))))
        ]
      ]
      | inr later ↦
          let rest = keep-insert_by q d es h.1 in
          let by : Bool → List Doc = λ b. if b then insert_by before d (keep q es) else keep q es in
          elim (Bool-cases (q d)) [
            | inr out ↦ rw (later, out) (ap (λ l. if q e then e ∷ l else l) (rest ∙ ap by out))
            | inl kept ↦ elim (Bool-cases (q e)) [
              | inl kept_e ↦
                  rw (later, kept, kept_e) (rw later (ap (λ l. e ∷ l) (rest ∙ ap by kept)))
              | inr out_e ↦ rw (later, kept, out_e) (rest ∙ ap by kept)
            ]
          ]
    ]

    -- A filter and the sort can change places.
    pub keep-sort_by :
        (q : Doc → Bool) (ds : List Doc)
        → AllApart before ds
        → keep q (sort_by before ds) ≡ sort_by before (keep q ds)
    keep-sort_by q [] h = refl
    keep-sort_by q (d ∷ ds) h =
        let rest = keep-sort_by q ds h.1 in
        keep-insert_by q d (sort_by before ds) (sort_by-AllApart ds h.1)
        ∙ ap (λ l. if q d then insert_by before d l else l) rest
        ∙ outside (q d)
      where
        outside :
            (b : Bool)
            → (if b
                then insert_by before d (sort_by before (keep q ds))
                else sort_by before (keep q ds))
              ≡ sort_by before (if b then d ∷ keep q ds else keep q ds)
        outside true = refl
        outside false = refl

    Leads-mid :
        (x l : Doc) (as' bs : List Doc) → Leads before x (as' ++ l ∷ bs) → before l x ≡ false
    Leads-mid x l [] bs h = h.0.1
    Leads-mid x l (a ∷ as') bs h = Leads-mid x l as' bs h.1

    keep_all : (l : Doc) (bs : List Doc) → Leads before l bs → keep (before l) bs ≡ bs
    keep_all l [] h = refl
    keep_all l (b ∷ bs) h = rw h.0.0 (ap (λ t. b ∷ t) (keep_all l bs h.1))

    -- What comes after a document of a sorted list is what stands behind it.
    pub keep_after :
        (front : List Doc) (l : Doc) (back : List Doc)
        → Sorted before (front ++ l ∷ back)
        → keep (before l) (front ++ l ∷ back) ≡ back
    keep_after [] l back h = rw (strict.irrefl l) (keep_all l back h.0)
    keep_after (x ∷ front) l back h =
        rw (Leads-mid x l front back h.0) (keep_after front l back h.1)
