-- ===== src/Example/Mongo/Projections/Cut.antt =====
-- The documents of a page, and what a cursor behind them leaves.
use approvo.Base.{
  ℕ, zero, suc, ◌≤◌, ◌<◌, leb, ◌⊎◌, ◌≡◌, refl, ap, ◌∙◌, inl, inr, Bool-cases, List, [], ◌∷◌, ◌++◌,
  take, length, arith,
}
use approvo.Example.Mongo.{insert_by, sort_by}
use approvo.Example.Mongo.Projections.{ViewDoc, by_age}

length-insert_by :
    (d : ViewDoc) (ds : List ViewDoc) → length (insert_by by_age d ds) ≡ suc (length ds)
length-insert_by d [] = refl
length-insert_by d (e ∷ es) =
    let rest = length-insert_by d es in
    elim (Bool-cases (by_age d e)) [
      | inl earlier ↦ rw earlier refl
      | inr later ↦ rw later (ap suc rest)
    ]

pub length-sort_by : (ds : List ViewDoc) → length (sort_by by_age ds) ≡ length ds
length-sort_by [] = refl
length-sort_by (d ∷ ds) = length-insert_by d (sort_by by_age ds) ∙ ap suc (length-sort_by ds)

pub take_short : (n : ℕ) (ds : List ViewDoc) → length ds ≤ n → take n ds ≡ ds
take_short zero [] h = refl
take_short zero (d ∷ ds) h = absurd (omega arith)
take_short (suc n) [] h = refl
take_short (suc n) (d ∷ ds) h = ap (λ l. d ∷ l) (take_short n ds (omega arith))

pub take-take : (n : ℕ) (ds : List ViewDoc) → take n (take (suc n) ds) ≡ take n ds
take-take zero ds = refl
take-take (suc n) [] = refl
take-take (suc n) (d ∷ ds) = ap (λ l. d ∷ l) (take-take n ds)

-- A page that is not the last: its documents, the last of them, and what is left.
pub record Cut (n : ℕ) (ds : List ViewDoc) : Type 0 where
  pub front : List ViewDoc
  pub last : ViewDoc
  pub back : List ViewDoc
  pub whole : ds ≡ front ++ last ∷ back
  pub taken : take n ds ≡ front ++ last ∷ []
  pub shorter : length back < length ds

cut_suc : (n : ℕ) (ds : List ViewDoc) → suc n < length ds → Cut (suc n) ds
cut_suc n [] h = absurd (omega arith)
cut_suc zero (d ∷ ds) h = record {
  front = [];
  last = d;
  back = ds;
  whole = refl;
  taken = refl;
  shorter = omega arith;
}
cut_suc (suc n) (d ∷ ds) h =
    let c = cut_suc n ds (omega arith) in
    record {
      front = d ∷ c.front;
      last = c.last;
      back = c.back;
      whole = ap (λ l. d ∷ l) c.whole;
      taken = ap (λ l. d ∷ l) c.taken;
      shorter = omega (arith, c.shorter);
    }

pub cut : (limit : ℕ) (ds : List ViewDoc) → 0 < limit → limit < length ds → Cut limit ds
cut zero ds limited longer = absurd (omega arith)
cut (suc n) ds limited longer = cut_suc n ds longer

pub leb_cases : (a b : ℕ) → (a ≤ b) ⊎ (b < a)
leb_cases a b = elim (Bool-cases (leb a b)) [
  | inl fits ↦ inl (ground arith)
  | inr longer ↦ inr (ground arith)
]
