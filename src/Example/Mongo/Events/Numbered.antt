-- ===== src/Example/Mongo/Events/Numbered.antt =====
-- Documents of one log in the order of their numbers.
use approvo.Base.{
  ℕ, zero, suc, ◌+◌, ◌≤◌, ◌<◌, ◌≡◌, refl, ap, ◌∙◌, inl, inr, true, false, Bool-cases, List, [], ◌∷◌,
  ◌++◌, length, keep, take, drop, get_elem?, In, ltb, leb, ◌==◌, arith,
}
use approvo.Example.Mongo.{first}
use approvo.Example.Mongo.Cursor.{Leads, Sorted}
use approvo.Example.Mongo.Events.{EventDoc, by_seq}

-- The numbers go up by one from the given one.
abbrev pub Numbered : ℕ → List EventDoc → Type 0
Numbered i [] = Unit
Numbered i (d ∷ ds) = (d.seq ≡ i) × Numbered (suc i) ds

Numbered-Leads :
    (d : EventDoc) (j : ℕ) (ds : List EventDoc) → d.seq < j → Numbered j ds → Leads by_seq d ds
Numbered-Leads d j [] h n = tt
Numbered-Leads d j (e ∷ es) h n = (
  (ground (arith, h, n.0), ground (arith, h, n.0)),
  Numbered-Leads d (suc j) es (omega arith) n.1,
)

pub Numbered-Sorted : (i : ℕ) (ds : List EventDoc) → Numbered i ds → Sorted by_seq ds
Numbered-Sorted i [] n = tt
Numbered-Sorted i (d ∷ ds) n =
    (Numbered-Leads d (suc i) ds (omega (arith, n.0)) n.1, Numbered-Sorted (suc i) ds n.1)

pub Numbered-append :
    (i : ℕ) (ds : List EventDoc) (d : EventDoc)
    → d.seq ≡ i + length ds
    → Numbered i ds
    → Numbered i (ds ++ d ∷ [])
Numbered-append i [] d h n = (omega (arith, h), tt)
Numbered-append i (e ∷ es) d h n = (n.0, Numbered-append (suc i) es d (omega (arith, h)) n.1)

-- Each number up to the last has its document.
pub Numbered-In :
    (i n : ℕ) (ds : List EventDoc)
    → Numbered i ds
    → i ≤ n
    → n < i + length ds
    → (d : EventDoc) × In d ds × (d.seq ≡ n)
Numbered-In i n [] h p q = absurd (omega arith)
Numbered-In i n (d ∷ ds) h p q = elim (Bool-cases (n == i)) [
  | inl here ↦ (d, inl refl, h.0 ∙ ground (arith, here))
  | inr later ↦
      let (e, there, same) =
        Numbered-In (suc i) n ds h.1 (ground (arith, later, p)) (omega arith) in
      (e, inr there, same)
]

pub In-lt :
    (i : ℕ) (d : EventDoc) (ds : List EventDoc) → Numbered i ds → In d ds → d.seq < i + length ds
In-lt i d [] h m = absurd m
In-lt i d (e ∷ es) h (inl here) =
    let same = ap (λ (x : EventDoc). x.seq) here in omega (arith, same, h.0)
In-lt i d (e ∷ es) h (inr there) = omega (arith, In-lt (suc i) d es h.1 there)

pub first-Numbered :
    (i n : ℕ) (ds : List EventDoc)
    → Numbered i ds
    → first (λ (d : EventDoc). d.seq == i + n) ds ≡ get_elem? ds n
first-Numbered i n [] h = refl
first-Numbered i zero (d ∷ ds) h =
    let found : (d.seq == i + 0) ≡ true = ground (arith, h.0) in rw found refl
first-Numbered i (suc n) (d ∷ ds) h =
    let passed : (d.seq == i + suc n) ≡ false = ground (arith, h.0) in
    let e : i + suc n ≡ suc i + n = omega arith in
    rw passed
      (ap (λ k. first (λ (x : EventDoc). x.seq == k) ds) e ∙ first-Numbered (suc i) n ds h.1)

keep_none :
    (i n : ℕ) (ds : List EventDoc)
    → Numbered i ds
    → n ≤ i
    → keep (λ (d : EventDoc). ltb d.seq n) ds ≡ []
keep_none i n [] h p = refl
keep_none i n (d ∷ ds) h p =
    let above : ltb d.seq n ≡ false = ground (arith, h.0, p) in
    rw above (keep_none (suc i) n ds h.1 (omega arith))

pub keep-take :
    (i n : ℕ) (ds : List EventDoc)
    → Numbered i ds
    → keep (λ (d : EventDoc). ltb d.seq (i + n)) ds ≡ take n ds
keep-take i zero ds h = keep_none i (i + 0) ds h (omega arith)
keep-take i (suc n) [] h = refl
keep-take i (suc n) (d ∷ ds) h =
    let inside : ltb d.seq (i + suc n) ≡ true = ground (arith, h.0) in
    let e : i + suc n ≡ suc i + n = omega arith in
    rw inside (
      ap (λ l. d ∷ l)
        (ap (λ k. keep (λ (x : EventDoc). ltb x.seq k) ds) e ∙ keep-take (suc i) n ds h.1))

keep_every :
    (i n : ℕ) (ds : List EventDoc)
    → Numbered i ds
    → n ≤ i
    → keep (λ (d : EventDoc). leb n d.seq) ds ≡ ds
keep_every i n [] h p = refl
keep_every i n (d ∷ ds) h p =
    let above : leb n d.seq ≡ true = ground (arith, h.0, p) in
    rw above (ap (λ l. d ∷ l) (keep_every (suc i) n ds h.1 (omega arith)))

pub keep-drop :
    (i n : ℕ) (ds : List EventDoc)
    → Numbered i ds
    → keep (λ (d : EventDoc). leb (i + n) d.seq) ds ≡ drop n ds
keep-drop i zero ds h = keep_every i (i + 0) ds h (omega arith)
keep-drop i (suc n) [] h = refl
keep-drop i (suc n) (d ∷ ds) h =
    let below : leb (i + suc n) d.seq ≡ false = ground (arith, h.0) in
    let e : i + suc n ≡ suc i + n = omega arith in
    rw below (ap (λ k. keep (λ (x : EventDoc). leb k x.seq) ds) e ∙ keep-drop (suc i) n ds h.1)
