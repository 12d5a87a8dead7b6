-- ===== src/Chain/Verify.antt =====
-- `verify_segment` of src/approvo/chain.py against what a chain is, and the entries that `next_entry` seals.
use approvo.Base.{
  ℕ, suc, ◌+◌, ℤ, pos, String, eq_iff, eq_refl, Bytes, ◌≡◌, inl, inr, refl, subst, Option-cases,
  get_last?-cons, ◌↔◌, ◌∙◌, sym, ap, Option, some, List, [], ◌∷◌, ◌++◌, length, get_last?, arith,
}
use approvo.Result.{ok, >>=-eq-ok, ok-injective, Result-cases}
use approvo.Json.{Fields}
use approvo.Hash.{zero_hash, canonical_hash}
use approvo.Models.Entry.{LedgerEntry, core_dict}
use approvo.Chain.{seq_after, hash_after, before, next_entry, verify_from, verify_segment}

-- The hash that the entry after `es` must point to.
abbrev pub end_hash : String → List LedgerEntry → String
end_hash p [] = p
end_hash p (e ∷ es) = end_hash e.entry_hash es

module _ (sha256 : Bytes → Bytes) where
  -- A run of entries that is numbered from `n` without gaps, each pointing to the one before it and
  -- carrying the hash of its own content.
  abbrev pub IsChain : ℕ → String → List LedgerEntry → Type 0
  IsChain n p [] = Unit
  IsChain n p (e ∷ es) =
      (e.seq ≡ n)
      × (e.prev_hash ≡ p)
      × (canonical_hash sha256 (core_dict e) ≡ ok e.entry_hash)
      × IsChain (suc n) e.entry_hash es

  verify_from-IsChain :
      (es : List LedgerEntry) (n : ℕ) (p : String) (l : ℤ) (h : String) {r : ℤ × String}
      → verify_from sha256 es n p l h ≡ ok r
      → IsChain n p es
  unfolding verify_from
  verify_from-IsChain [] n p l h ok_r = tt
  verify_from-IsChain (e ∷ es) n p l h {r} ok_r =
      elim (Result-cases (canonical_hash sha256 (core_dict e))) [
        | inr (x, failed) ↦ ground (arith, eq_iff e.prev_hash p)
        | inl (x, hashed) ↦ ground (
          arith,
          eq_iff e.prev_hash p,
          eq_iff e.entry_hash x,
          verify_from-IsChain es (e.seq + 1) e.entry_hash (pos e.seq) e.entry_hash {r = r},
        )
      ]

  verify_from_accepts :
      (es : List LedgerEntry) (n : ℕ) (p : String)
      → IsChain n p es
      → verify_from sha256 es n p (before n) p ≡ ok (before (n + length es), end_hash p es)
  unfolding verify_from
  verify_from_accepts [] n p c = ground arith
  verify_from_accepts (e ∷ es) n p c = ground (
    arith,
    eq_iff e.prev_hash p,
    eq_refl e.entry_hash,
    verify_from_accepts es (suc n) e.entry_hash,
  )

  -- Whatever `verify_segment` accepts is a chain, and what it returns is its end.
  pub verify_segment_sound :
      (es : List LedgerEntry) (n : ℕ) (p : String) {r : ℤ × String}
      → verify_segment sha256 es n p ≡ ok r
      → IsChain n p es × (r ≡ (before (n + length es), end_hash p es))
  unfolding verify_segment
  verify_segment_sound es n p h =
      let c = verify_from-IsChain es n p (before n) p h in
      (c, ok-injective (sym h ∙ verify_from_accepts es n p c))

  -- `verify_segment` returns a result exactly if the entries are a chain from the given number and hash, and the result is the number of
  -- the last entry and its hash; whatever else the entries are, it raises.
  pub verify_segment_iff :
      (es : List LedgerEntry) (n : ℕ) (p : String) (r : ℤ × String)
      → (verify_segment sha256 es n p ≡ ok r)
        ↔ (IsChain n p es × (r ≡ (before (n + length es), end_hash p es)))
  unfolding verify_segment
  verify_segment_iff es n p r =
      (verify_segment_sound es n p, λ c. verify_from_accepts es n p c.0 ∙ ap ok (sym c.1))

  IsChain-append :
      (es : List LedgerEntry) (e : LedgerEntry) (n : ℕ) (p : String)
      → IsChain n p es
      → e.seq ≡ n + length es
      → e.prev_hash ≡ end_hash p es
      → canonical_hash sha256 (core_dict e) ≡ ok e.entry_hash
      → IsChain n p (es ++ e ∷ [])
  IsChain-append [] e n p c s h k = ground arith
  IsChain-append (f ∷ es) e n p c s h k =
      (c.0, c.1, c.2, IsChain-append es e (suc n) f.entry_hash c.3 (omega arith) h k)

  -- In a chain from the start of a log, the last entry has the number and the hash that
  -- `next_entry` reads off it.
  head_of_chain :
      (es : List LedgerEntry) (n : ℕ) (p : String) {e : LedgerEntry}
      → IsChain n p es
      → get_last? es ≡ some e
      → (e.seq + 1 ≡ n + length es) × (e.entry_hash ≡ end_hash p es)
  head_of_chain [] n p c h = cc
  head_of_chain (f ∷ []) n p c h = ground arith
  head_of_chain (f ∷ g ∷ es) n p {e} c h =
      ground (arith, head_of_chain (g ∷ es) (suc n) f.entry_hash {e = e} c.3)

  pub after_chain :
      (es : List LedgerEntry)
      → IsChain 0 zero_hash es
      → (seq_after (get_last? es) ≡ length es) × (hash_after (get_last? es) ≡ end_hash zero_hash es)
  after_chain [] c = (refl, refl)
  after_chain (f ∷ es) c = elim (Option-cases (get_last? (f ∷ es))) [
    | inl none_left ↦ absurd (get_last?-cons f es none_left)
    | inr (e, last) ↦
        let (s, h) = head_of_chain (f ∷ es) 0 zero_hash c last in rw last (omega (arith, s), h)
  ]

  -- Sealing the entry after the head of a log that is a chain gives a longer chain, for every kind
  -- of event, payload, time and request.
  pub append-next_entry :
      (es : List LedgerEntry) (event_type : String) (payload : Fields) (at_time : String)
      (request_id : Option String) {e : LedgerEntry}
      → IsChain 0 zero_hash es
      → next_entry sha256 (get_last? es) event_type payload at_time request_id ≡ ok e
      → IsChain 0 zero_hash (es ++ e ∷ [])
  unfolding next_entry
  append-next_entry es event_type payload at_time request_id {e} c h =
      let (hash, hashed, made) = >>=-eq-ok (canonical_hash sha256 _) _ h in
      let (s, p) = after_chain es c in
      subst (λ x. IsChain 0 zero_hash (es ++ x ∷ [])) (ok-injective made)
        (IsChain-append es _ 0 zero_hash c (omega (arith, s)) p hashed)
