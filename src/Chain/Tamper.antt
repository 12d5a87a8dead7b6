-- ===== src/Chain/Tamper.antt =====
-- Two logs that `verify_segment` of src/approvo/chain.py takes to the same end.
use approvo.Base.{
  ℕ, suc, ◌+◌, ℤ, String, Bytes, Collision, ◌≡◌, ◌⊎◌, inl, inr, ap, sym, ◌∙◌, List, [], ◌∷◌, length,
  arith,
}
use approvo.Result.{ok}
use approvo.Hash.{sha256_hex, canonical_hash, canonical_hash-Collision}
use approvo.Models.Entry.{LedgerEntry, core_dict}
use approvo.Models.Binding.{SameContent, core_dict-SameContent}
use approvo.Chain.{verify_segment}
use approvo.Chain.Verify.{end_hash, IsChain, verify_segment_sound}
use approvo.Chain.Segments.{before_injective}

-- The two entries agree in every hashed field and in their hash, at every position.
abbrev pub SameEntries : List LedgerEntry → List LedgerEntry → Type 0
SameEntries [] [] = Unit
SameEntries (e ∷ es) (f ∷ fs) = SameContent e f × (e.entry_hash ≡ f.entry_hash) × SameEntries es fs
SameEntries _ _ = ⊥

module _ (sha256 : Bytes → Bytes) where
  same_hash :
      (e f : LedgerEntry) {h : String}
      → canonical_hash sha256 (core_dict e) ≡ ok h
      → canonical_hash sha256 (core_dict f) ≡ ok h
      → SameContent e f ⊎ Collision (sha256_hex sha256)
  same_hash e f p q = elim (canonical_hash-Collision sha256 (core_dict e) (core_dict f) p q) [
    | inl (bs, pe, pf) ↦ inl (core_dict-SameContent e f pe pf)
    | inr c ↦ inr c
  ]

  chains_agree :
      (es fs : List LedgerEntry) (m n : ℕ) (p q : String)
      → IsChain sha256 m p es
      → IsChain sha256 n q fs
      → length es ≡ length fs
      → end_hash p es ≡ end_hash q fs
      → (SameEntries es fs × (p ≡ q)) ⊎ Collision (sha256_hex sha256)
  chains_agree [] [] m n p q c d l h = inl (tt, h)
  chains_agree [] (f ∷ fs) m n p q c d l h = absurd (omega arith)
  chains_agree (e ∷ es) [] m n p q c d l h = absurd (omega arith)
  chains_agree (e ∷ es) (f ∷ fs) m n p q c d l h =
      elim (chains_agree es fs (suc m) (suc n) e.entry_hash f.entry_hash c.3 d.3 (omega arith) h) [
        | inr found ↦ inr found
        | inl (rest, hash) ↦ elim (same_hash e f c.2 (d.2 ∙ ap ok (sym hash))) [
          | inr found ↦ inr found
          | inl same ↦ inl ((same, hash, rest), sym c.1 ∙ same.prev_hash_eq ∙ d.1)
        ]
      ]

  -- Two runs of entries from the same number that `verify_segment` accepts with the same result,
  -- whatever hash each started from, started from the same hash and agree entry by entry in every field, unless
  -- the two show a collision of SHA-256.
  pub verify_segment-tamper :
      (es fs : List LedgerEntry) (n : ℕ) (p q : String) {r : ℤ × String}
      → verify_segment sha256 es n p ≡ ok r
      → verify_segment sha256 fs n q ≡ ok r
      → (SameEntries es fs × (p ≡ q)) ⊎ Collision (sha256_hex sha256)
  verify_segment-tamper es fs n p q ve vf =
      let (c, r) = verify_segment_sound sha256 es n p ve in
      let (d, s) = verify_segment_sound sha256 fs n q vf in
      let same = sym r ∙ s in
      let l : n + length es ≡ n + length fs =
        before_injective (n + length es) (n + length fs) (ap (λ (t : ℤ × String). t.0) same) in
      chains_agree es fs n n p q c d (omega arith) (ap (λ (t : ℤ × String). t.1) same)
