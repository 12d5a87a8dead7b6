-- ===== src/Hash.antt =====
-- `canonical_hash` of src/approvo/canonical.py. SHA-256 itself is a parameter.
use approvo.Base.{
  String, append_text, Bytes, Bytes-discrete, Collision, hex, ◌≡◌, ◌∙◌, sym, ◌⊎◌, inl, inr,
}
use approvo.Result.{Result, ok, ◌>>=◌, >>=-eq-ok, ok-injective}
use approvo.Json.{Value}
use approvo.Json.Canonical.{canonical_bytes}
use text.Mathlib.TextLemmas.{append_cancel_left}

-- "sha256:" and 64 zeros
abbrev pub zero_hash : String
zero_hash = "sha256:0000000000000000000000000000000000000000000000000000000000000000"

module _ (sha256 : Bytes → Bytes) where
  -- `hashlib.sha256(data).hexdigest()`
  abbrev pub sha256_hex : Bytes → String
  sha256_hex data' = hex (sha256 data')

  unfoldable pub canonical_hash : Value → Result String
  canonical_hash v = do bs ← canonical_bytes v; ok (append_text "sha256:" (sha256_hex bs))

  -- One hash for two values means one canonical form, or a collision that is at hand.
  pub canonical_hash-Collision :
      (v w : Value) {h : String}
      → canonical_hash v ≡ ok h
      → canonical_hash w ≡ ok h
      → ((bs : Bytes) × (canonical_bytes v ≡ ok bs) × (canonical_bytes w ≡ ok bs))
        ⊎ Collision sha256_hex
  unfolding canonical_hash
  canonical_hash-Collision v w p q =
      let (bs, eb, hb) = >>=-eq-ok (canonical_bytes v) _ p in
      let (cs, ec, hc) = >>=-eq-ok (canonical_bytes w) _ q in
      let same : sha256_hex bs ≡ sha256_hex cs =
        append_cancel_left "sha256:" _ _ (ok-injective (hb ∙ sym hc)) in
      elim (Bytes-discrete bs cs) [ yes e ↦ inl (bs, eb, rw e ec) | no ne ↦ inr (bs, cs, ne, same) ]
