-- ===== src/Example/Mongo/Cursor.antt =====
-- Cursors over documents that stand in the order that is asked for, or in its reverse.
use approvo.Base.{
  ℕ, suc, ◌≡◌, refl, sym, ap, ◌∙◌, Bool, true, false, ◌&&◌, Bool-cases, inl, inr, Option, none,
  some, List, [], ◌∷◌, ◌++◌, keep, take, get_last?, if◌then◌else◌, arith,
}
use approvo.Example.Mongo.{insert_by, sort_by, Apart, AllApart}

module _ {Doc : Type 0} where
  pub keep-&& : (p q : Doc → Bool) (ds : List Doc) → keep (λ d. p d && q d) ds ≡ keep q (keep p ds)
  keep-&& p q [] = refl
  keep-&& p q (d ∷ ds) =
      let rest = keep-&& p q ds in
      elim (Bool-cases (p d)) [
        | inl passes ↦ rw passes (ap (λ l. if q d then d ∷ l else l) rest)
        | inr fails ↦ rw fails rest
      ]

  abbrev pub head? : List Doc → Option Doc
  head? [] = none
  head? (d ∷ ds) = some d

  module _ (before : Doc → Doc → Bool) where
    -- The document stands before each of the list.
    abbrev pub Leads : Doc → List Doc → Type 0
    Leads d [] = Unit
    Leads d (e ∷ es) = ((before d e ≡ true) × (before e d ≡ false)) × Leads d es

    abbrev pub Sorted : List Doc → Type 0
    Sorted [] = Unit
    Sorted (d ∷ ds) = Leads d ds × Sorted ds

    Leads-keep : (p : Doc → Bool) (d : Doc) (ds : List Doc) → Leads d ds → Leads d (keep p ds)
    Leads-keep p d [] h = tt
    Leads-keep p d (e ∷ es) h = elim (Bool-cases (p e)) [
      | inl kept ↦ rw kept (h.0, Leads-keep p d es h.1)
      | inr dropped ↦ rw dropped (Leads-keep p d es h.1)
    ]

    pub Sorted-keep : (p : Doc → Bool) (ds : List Doc) → Sorted ds → Sorted (keep p ds)
    Sorted-keep p [] h = tt
    Sorted-keep p (d ∷ ds) h = elim (Bool-cases (p d)) [
      | inl kept ↦ rw kept (Leads-keep p d ds h.0, Sorted-keep p ds h.1)
      | inr dropped ↦ rw dropped (Sorted-keep p ds h.1)
    ]

    Leads-Apart : (d : Doc) (ds : List Doc) → Leads d ds → Apart before d ds
    Leads-Apart d [] h = tt
    Leads-Apart d (e ∷ es) h = (ground (arith, h), Leads-Apart d es h.1)

    pub Sorted-AllApart : (ds : List Doc) → Sorted ds → AllApart before ds
    Sorted-AllApart [] h = tt
    Sorted-AllApart (d ∷ ds) h = (Leads-Apart d ds h.0, Sorted-AllApart ds h.1)

    insert_by-Leads : (d : Doc) (ds : List Doc) → Leads d ds → insert_by before d ds ≡ d ∷ ds
    insert_by-Leads d [] h = refl
    insert_by-Leads d (e ∷ es) h = rw h.0.0 refl

    pub sort_by-Sorted : (ds : List Doc) → Sorted ds → sort_by before ds ≡ ds
    sort_by-Sorted [] h = refl
    sort_by-Sorted (d ∷ ds) h =
        ap (insert_by before d) (sort_by-Sorted ds h.1) ∙ insert_by-Leads d ds h.0

    abbrev pub after : Doc → Doc → Bool
    after d e = before e d

    Leads-Apart-after : (d : Doc) (ds : List Doc) → Leads d ds → Apart after d ds
    Leads-Apart-after d [] h = tt
    Leads-Apart-after d (e ∷ es) h = (ground (arith, h), Leads-Apart-after d es h.1)

    pub Sorted-AllApart-after : (ds : List Doc) → Sorted ds → AllApart after ds
    Sorted-AllApart-after [] h = tt
    Sorted-AllApart-after (d ∷ ds) h = (Leads-Apart-after d ds h.0, Sorted-AllApart-after ds h.1)

    Leads-insert_by :
        (d e : Doc) (es : List Doc)
        → (before d e ≡ true) × (before e d ≡ false)
        → Leads d es
        → Leads d (insert_by after e es)
    Leads-insert_by d e [] p h = (p, tt)
    Leads-insert_by d e (f ∷ es) p h = elim (Bool-cases (before f e)) [
      | inl earlier ↦ rw earlier (p, h)
      | inr later ↦ rw later (h.0, Leads-insert_by d e es p h.1)
    ]

    Leads-sort_by : (d : Doc) (ds : List Doc) → Leads d ds → Leads d (sort_by after ds)
    Leads-sort_by d [] h = tt
    Leads-sort_by d (e ∷ es) h = Leads-insert_by d e (sort_by after es) h.0 (Leads-sort_by d es h.1)

    insert_last : (d : Doc) (ds : List Doc) → Leads d ds → insert_by after d ds ≡ ds ++ d ∷ []
    insert_last d [] h = refl
    insert_last d (e ∷ es) h = rw h.0.1 (ap (λ l. e ∷ l) (insert_last d es h.1))

    abbrev or_some : Doc → Option Doc → Option Doc
    or_some d none = some d
    or_some d (some e) = some e

    head_of_snoc : (d : Doc) (ds : List Doc) → head? (ds ++ d ∷ []) ≡ or_some d (head? ds)
    head_of_snoc d [] = refl
    head_of_snoc d (e ∷ es) = refl

    get_last?_lem : (d : Doc) (ds : List Doc) → get_last? (d ∷ ds) ≡ or_some d (get_last? ds)
    get_last?_lem d ds = by_last (get_last? ds)
      where
        by_last : (o : Option Doc) → (elim o [ none ↦ some d | some y ↦ some y ]) ≡ or_some d o
        by_last none = refl
        by_last (some y) = refl

    -- In the reverse order the last document comes first.
    pub head_sort_by : (ds : List Doc) → Sorted ds → head? (sort_by after ds) ≡ get_last? ds
    head_sort_by [] h = refl
    head_sort_by (d ∷ ds) h =
        ap head? (insert_last d (sort_by after ds) (Leads-sort_by d ds h.0))
        ∙ head_of_snoc d (sort_by after ds)
        ∙ ap (or_some d) (head_sort_by ds h.1)
        ∙ sym (get_last?_lem d ds)

  pub head_take : (n : ℕ) (ds : List Doc) → head? (take (suc n) ds) ≡ head? ds
  head_take n [] = refl
  head_take n (d ∷ ds) = refl
