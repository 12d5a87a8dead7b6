-- ===== src/Example/Mongo/Events/Ids.antt =====
-- The `_id` of a ledger document in examples/vehicle-release-approvals/app/mongo_stores.py.
use approvo.Base.{
  ℕ, zero, suc, ◌/◌, String, codes, codes-append, codes-injective, append_text, ◌≡◌, ◌≢◌, refl, sym,
  ap, ◌∙◌, inl, inr, Bool-cases, List, [], ◌∷◌, ◌++◌, drop, get_or, ltb, All, All-append, subst,
  arith,
}
use mathlib.Core.Path.{ap₂}
use approvo.Json.Canonical.{decimal_fuel, decimal}
use approvo.Json.Atoms.{decimal-injective}
use approvo.Example.Mongo.Numbers.{decimal_text, codes-decimal_text}
use approvo.Example.Mongo.Events.{doc_id}

abbrev NoColon : ℕ → Type 0
NoColon c = c ≢ b':'

decimal_fuel-NoColon : (fuel n : ℕ) → All NoColon (decimal_fuel fuel n)
unfolding decimal_fuel
decimal_fuel-NoColon zero n = tt
decimal_fuel-NoColon (suc fuel) n = elim (Bool-cases (ltb n 10)) [
  | inl small ↦ rw small ((λ e. ground (arith, e, small)), tt)
  | inr large ↦ rw large (
      All-append NoColon (decimal_fuel fuel (n / 10)) (_ ∷ []) (decimal_fuel-NoColon fuel (n / 10))
        ((λ e. omega (arith, e)), tt))
]

decimal-NoColon : (n : ℕ) → All NoColon (decimal n)
unfolding decimal
decimal-NoColon n = decimal_fuel-NoColon (suc n) n

colon_inside : (ys s : List ℕ) → All NoColon (ys ++ b':' ∷ s) → ⊥
colon_inside [] s h = h.0 refl
colon_inside (y ∷ ys) s h = colon_inside ys s h.1

-- What stands after the last colon is determined, and what stands before it.
cut_last :
    (xs ys r s : List ℕ)
    → All NoColon r
    → All NoColon s
    → xs ++ b':' ∷ r ≡ ys ++ b':' ∷ s
    → (xs ≡ ys) × (r ≡ s)
cut_last [] [] r s p q e = (refl, ap (drop 1) e)
cut_last [] (y ∷ ys) r s p q e = absurd (colon_inside ys s (subst (All NoColon) (ap (drop 1) e) p))
cut_last (x ∷ xs) [] r s p q e =
    absurd (colon_inside xs r (subst (All NoColon) (sym (ap (drop 1) e)) q))
cut_last (x ∷ xs) (y ∷ ys) r s p q e =
    let (rest, after) = cut_last xs ys r s p q (ap (drop 1) e) in
    (ap₂ (λ a l. a ∷ l) (ap (λ l. get_or l 0 0) e) rest, after)

doc_id-codes :
    (log_id : String) (seq : ℕ) → codes (doc_id log_id seq) ≡ codes log_id ++ b':' ∷ decimal seq
unfolding doc_id
doc_id-codes log_id seq =
    codes-append log_id (append_text ":" (decimal_text seq))
    ∙ ap (λ l. codes log_id ++ l)
        (codes-append ":" (decimal_text seq) ∙ ap (λ l. b':' ∷ l) (codes-decimal_text seq))

-- Documents of different logs, or of different numbers, have different ids, whatever texts the log ids are.
pub doc_id-injective : (l m : String) (s t : ℕ) → doc_id l s ≡ doc_id m t → (l ≡ m) × (s ≡ t)
doc_id-injective l m s t e =
    let (logs, numbers) =
      cut_last (codes l) (codes m) (decimal s) (decimal t) (decimal-NoColon s) (decimal-NoColon t)
        (sym (doc_id-codes l s) ∙ ap codes e ∙ doc_id-codes m t) in
    (codes-injective l m logs, decimal-injective s t numbers)
