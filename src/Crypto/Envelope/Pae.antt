-- ===== src/Crypto/Envelope/Pae.antt =====
-- Reading back the pre-authentication encoding of src/approvo/crypto/envelope.py.
use approvo.Base.{
  ℕ, zero, suc, ◌/◌, String, codes, codes-injective, Bytes, utf8, utf8_code, utf8_codes, utf8_first,
  utf8_first-utf8_code, ◌≡◌, ◌≢◌, refl, sym, ap, ◌∙◌, List, [], ◌∷◌, ◌++◌, append_assoc,
  append_cancel_left, length, drop, get_or, All, All-append, ltb, inl, inr, Bool-cases, arith,
}
use approvo.Json.Canonical.{decimal_fuel, decimal}
use approvo.Json.Atoms.{decimal-injective}
use approvo.Crypto.Envelope.{pae}
use mathlib.Core.Path.{ap₂}

abbrev NoSpace : ℕ → Type 0
NoSpace b = b ≢ 0x20

decimal_fuel-NoSpace : (fuel n : ℕ) → All NoSpace (decimal_fuel fuel n)
unfolding decimal_fuel
decimal_fuel-NoSpace zero n = tt
decimal_fuel-NoSpace (suc fuel) n = elim (Bool-cases (ltb n 10)) [
  | inl small ↦ rw small ((λ e. omega (arith, e)), tt)
  | inr large ↦ rw large (
      All-append NoSpace (decimal_fuel fuel (n / 10)) (_ ∷ []) (decimal_fuel-NoSpace fuel (n / 10))
        ((λ e. omega (arith, e)), tt))
]

-- What stands before the first space is determined.
space-cut :
    (xs ys r s : Bytes)
    → All NoSpace xs
    → All NoSpace ys
    → xs ++ 0x20 ∷ r ≡ ys ++ 0x20 ∷ s
    → (xs ≡ ys) × (r ≡ s)
space-cut [] [] r s p q e = (refl, ap (drop 1) e)
space-cut [] (y ∷ ys) r s p q e = absurd (q.0 (sym (ap (λ l. get_or l 0 0) e)))
space-cut (x ∷ xs) [] r s p q e = absurd (p.0 (ap (λ l. get_or l 0 0) e))
space-cut (x ∷ xs) (y ∷ ys) r s p q e =
    let (rest, after) = space-cut xs ys r s p.1 q.1 (ap (drop 1) e) in
    (ap₂ (λ a l. a ∷ l) (ap (λ l. get_or l 0 0) e) rest, after)

decimal-cut :
    (m n : ℕ) (r s : Bytes) → decimal m ++ 0x20 ∷ r ≡ decimal n ++ 0x20 ∷ s → (m ≡ n) × (r ≡ s)
decimal-cut m n r s e =
    let no_space : (k : ℕ) → All NoSpace (decimal k) =
      λ k. unfold decimal in decimal_fuel-NoSpace (suc k) k in
    let (same, after) = space-cut (decimal m) (decimal n) r s (no_space m) (no_space n) e in
    (decimal-injective m n same, after)

-- A given number of characters can be read from the front of their UTF-8 bytes.
utf8_codes-cut :
    (cs ds : List ℕ) (r s : Bytes)
    → length cs ≡ length ds
    → utf8_codes cs ++ r ≡ utf8_codes ds ++ s
    → (cs ≡ ds) × (r ≡ s)
unfolding utf8_codes
utf8_codes-cut [] [] r s n e = (refl, e)
utf8_codes-cut [] (d ∷ ds) r s n e = absurd (omega (arith, n))
utf8_codes-cut (c ∷ cs) [] r s n e = absurd (omega (arith, n))
utf8_codes-cut (c ∷ cs) (d ∷ ds) r s n e =
    let x = utf8_codes cs ++ r in
    let y = utf8_codes ds ++ s in
    let e' : utf8_code c ++ x ≡ utf8_code d ++ y =
      sym (append_assoc (utf8_code c) (utf8_codes cs) r)
      ∙ e
      ∙ append_assoc (utf8_code d) (utf8_codes ds) s in
    let heads : c ≡ d =
      sym (utf8_first-utf8_code c x) ∙ ap utf8_first e' ∙ utf8_first-utf8_code d y in
    let tails : x ≡ y =
      append_cancel_left (utf8_code c) x y (e' ∙ ap (λ k. utf8_code k ++ y) (sym heads)) in
    let (rest, after) = utf8_codes-cut cs ds r s (omega (arith, n)) tails in
    (ap₂ (λ a l. a ∷ l) heads rest, after)

-- Two pairs of a payload type and a payload with the same encoding are the same pair: a signature over the encoding
-- cannot be taken for one of another type or another payload.
pub pae-injective : (t u : String) (p q : Bytes) → pae t p ≡ pae u q → (t ≡ u) × (p ≡ q)
unfolding pae utf8
pae-injective t u p q e =
    let tail_of : Bytes → Bytes = λ b. 0x20 ∷ (decimal (length b) ++ (0x20 ∷ b)) in
    let (n, after) =
      decimal-cut (length (codes t)) (length (codes u)) (utf8 t ++ tail_of p) (utf8 u ++ tail_of q)
        (ap (drop 7) e) in
    let (same, rest) = utf8_codes-cut (codes t) (codes u) (tail_of p) (tail_of q) n after in
    let (_, payload) = decimal-cut (length p) (length q) p q (ap (drop 1) rest) in
    (codes-injective t u same, payload)
