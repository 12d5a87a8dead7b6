-- ===== src/Chain/Segments.antt =====
-- Verifying a long ledger page by page with `verify_segment` of src/approvo/chain.py.
use approvo.Base.{
  ℕ, zero, suc, ◌+◌, ℤ, pos, String, Bytes, ◌≡◌, refl, subst, ap, List, [], ◌∷◌, ◌++◌, length,
  arith, sym, ◌↔◌,
}
use approvo.Result.{ok, err, seq_gap}
use approvo.Models.Entry.{LedgerEntry}
use approvo.Chain.{before, verify_from, verify_segment}
use approvo.Chain.Verify.{end_hash, IsChain, verify_segment_sound, verify_segment_iff}

pub before_injective : (m n : ℕ) → before m ≡ before n → m ≡ n
before_injective zero zero h = refl
before_injective zero (suc n) h = cc
before_injective (suc m) zero h = cc
before_injective (suc m) (suc n) h = cc

module _ (sha256 : Bytes → Bytes) where
  IsChain-split :
      (xs ys : List LedgerEntry) (n : ℕ) (p : String)
      → IsChain sha256 n p (xs ++ ys)
        ↔ (IsChain sha256 n p xs × IsChain sha256 (n + length xs) (end_hash p xs) ys)
  IsChain-split [] ys n p =
      let e : n ≡ n + 0 = omega arith in
      (
        λ c. (tt, subst (λ k. IsChain sha256 k p ys) e c),
        λ c. subst (λ k. IsChain sha256 k p ys) (sym e) c.1,
      )
  IsChain-split (x ∷ xs) ys n p =
      let e : suc n + length xs ≡ n + suc (length xs) = omega arith in
      let (to, from) = IsChain-split xs ys (suc n) x.entry_hash in
      (
        λ c.
            let (here, there) = to c.3 in
            (
              (c.0, c.1, c.2, here),
              subst (λ k. IsChain sha256 k (end_hash x.entry_hash xs) ys) e there,
            ),
        λ c. (
          c.0.0,
          c.0.1,
          c.0.2,
          from (c.0.3, subst (λ k. IsChain sha256 k (end_hash x.entry_hash xs) ys) (sym e) c.1),
        ),
      )

  -- Where the first page of a ledger is accepted, the whole ledger is accepted exactly when the rest is from the number after the
  -- last one of the first page and from its last hash.
  pub verify_segment-append :
      (xs ys : List LedgerEntry) (n : ℕ) (p : String) (s : ℕ) (h : String)
      → verify_segment sha256 xs n p ≡ ok (before s, h)
      → (verify_segment sha256 (xs ++ ys) n p
          ≡ ok (before (n + length (xs ++ ys)), end_hash p (xs ++ ys)))
        ↔ (verify_segment sha256 ys s h ≡ ok (before (s + length ys), end_hash h ys))
  verify_segment-append xs ys n p s h first =
      let (c, r) = verify_segment_sound sha256 xs n p first in
      let s_eq : s ≡ n + length xs =
        before_injective s (n + length xs) (ap (λ (t : ℤ × String). t.0) r) in
      let h_eq : h ≡ end_hash p xs = ap (λ (t : ℤ × String). t.1) r in
      let (to, from) = IsChain-split xs ys n p in
      let whole = verify_segment_iff sha256 (xs ++ ys) n p _ in
      let rest = verify_segment_iff sha256 ys s h _ in
      (
        λ v. rest.1 (rw (s_eq, h_eq) (to (whole.0 v).0).1, refl),
        λ v. whole.1 (from (c, rw (← s_eq, ← h_eq) (rest.0 v).0), refl),
      )

  -- Where a ledger in two pages that are not empty is accepted as a whole and its first page on its own, the second page is refused
  -- with a gap if the number and the hash that the first call has returned are passed on as they are.
  pub verify_segment_same_seq :
      (e : LedgerEntry) (xs ys : List LedgerEntry) (y : LedgerEntry) (n : ℕ) (p : String) (s : ℕ)
      (h : String) {r : ℤ × String}
      → verify_segment sha256 ((e ∷ xs) ++ y ∷ ys) n p ≡ ok r
      → verify_segment sha256 (e ∷ xs) n p ≡ ok (pos s, h)
      → verify_segment sha256 (y ∷ ys) s h ≡ err seq_gap
  unfolding verify_segment verify_from
  verify_segment_same_seq e xs ys y n p s h all_ok first =
      let (c, _) = verify_segment_sound sha256 ((e ∷ xs) ++ y ∷ ys) n p all_ok in
      let (_, last) = verify_segment_sound sha256 (e ∷ xs) n p first in
      let next_seq = ((IsChain-split (e ∷ xs) (y ∷ ys) n p).0 c).1.0 in
      let one_less =
        before_injective (suc s) (n + length (e ∷ xs)) (ap (λ (t : ℤ × String). t.0) last) in
      ground arith
