-- ===== src/Crypto/SigningService/Asked.antt =====
-- The ways in which one look into a cache of src/approvo/crypto/signing.py can end.
use approvo.Base.{
  ℕ, ◌+◌, ◌<◌, String, ltb, ltb→lt, ◌≡◌, refl, inl, inr, Bool-cases, Option, none, some, lookup,
  insert, arith,
}
use approvo.Result.{Error, Result, ok, err}
use approvo.Crypto.Signers.{PublicKeyMaterial, Signer}
use approvo.Crypto.SigningService.{
  SigningService, Caches, Held, Lookup, hit_or_fetch, cached, fetched, one_more, signer_at,
  public_key,
}

module _ {V : Type 0} (clock : ℕ → ℕ) (ttl : ℕ) (get : String → ℕ → Result V)
    (cache : Caches → Held V) where
  -- The answer was kept, the provider failed, or it gave a value that is kept with the last reading of the clock.
  pub data Asked (ref : String) (s : Caches) (out : Result V × Caches) : Type 0 where
    hit :
        (t : ℕ) (v : V)
        → lookup ref (cache s) ≡ some (t, v)
        → clock s.readings < t + ttl
        → out.0 ≡ ok v
        → cache out.1 ≡ cache s
        → out.1.calls ≡ s.calls
        → Asked ref s out
    failed : (e : Error) → out.0 ≡ err e → cache out.1 ≡ cache s → Asked ref s out
    got :
        (v : V) (n : ℕ)
        → get ref s.calls ≡ ok v
        → out.0 ≡ ok v
        → cache out.1 ≡ insert ref (clock n, v) (cache s)
        → out.1.readings ≡ n + 1
        → out.1.calls ≡ s.calls + 1
        → Asked ref s out

  module _ (ref : String) (s : Caches) (out : Result V × Caches) where
    abbrev Ends : Lookup V → Type 0
    Ends l =
        (out.0 ≡ l.answer)
        × (cache out.1 ≡ l.held)
        × (out.1.readings ≡ s.readings + l.read)
        × (out.1.calls ≡ s.calls + l.called)

    missed :
        (r : Result V)
        → get ref s.calls ≡ r
        → Ends (fetched clock ttl ref r (cache s) s.readings r)
        → Asked ref s out
    missed (ok v) gave (a, h, r, c) = got v s.readings gave a h r c
    missed (err e) gave (a, h, r, c) = failed e a h

    outlived :
        (r : Result V)
        → get ref s.calls ≡ r
        → Ends (
            one_more clock ttl ref r
              (cache s)
              (fetched clock ttl ref r (cache s) (s.readings + 1) r))
        → Asked ref s out
    outlived (ok v) gave (a, h, r, c) = got v (s.readings + 1) gave a h (omega (arith, r)) c
    outlived (err e) gave (a, h, r, c) = failed e a h

    looked :
        (o : Option (ℕ × V))
        → lookup ref (cache s) ≡ o
        → Ends (hit_or_fetch clock ttl ref (get ref s.calls) (cache s) s.readings o)
        → Asked ref s out
    looked none found ends = missed (get ref s.calls) refl ends
    looked (some (t, v)) found ends = elim (Bool-cases (ltb (clock s.readings) (t + ttl))) [
      | inl recent ↦
          let (a, h, r, c) = rw recent at ends in
          hit t v found (ltb→lt (clock s.readings) (t + ttl) recent) a h (omega (arith, c))
      | inr stale ↦ outlived (get ref s.calls) refl (rw stale at ends)
    ]

module _ (service : SigningService) where
  abbrev pub gives_signer : String → ℕ → Result Signer
  gives_signer ref n = (service.provider n).get_signer ref

  abbrev pub gives_public : String → ℕ → Result PublicKeyMaterial
  gives_public ref n = (service.provider n).get_public_key ref

  abbrev pub signers_of : Caches → Held Signer
  signers_of s = s.signer_cache

  abbrev pub publics_of : Caches → Held PublicKeyMaterial
  publics_of s = s.pub_cache

  pub signer_at-Asked :
      (ref : String) (s : Caches)
      → Asked service.clock service.signer_ttl gives_signer signers_of ref s
          (signer_at service ref s)
  unfolding signer_at cached
  signer_at-Asked ref s =
      looked service.clock service.signer_ttl gives_signer signers_of ref s
        (signer_at service ref s) (lookup ref s.signer_cache) refl (refl, refl, refl, refl)

  pub public_key-Asked :
      (ref : String) (s : Caches)
      → Asked service.clock service.pubkey_ttl gives_public publics_of ref s
          (public_key service ref s)
  unfolding public_key cached
  public_key-Asked ref s =
      looked service.clock service.pubkey_ttl gives_public publics_of ref s
        (public_key service ref s) (lookup ref s.pub_cache) refl (refl, refl, refl, refl)
