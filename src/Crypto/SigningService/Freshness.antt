-- ===== src/Crypto/SigningService/Freshness.antt =====
-- How old what the caches of src/approvo/crypto/signing.py hold can be.
use approvo.Base.{
  ℕ, ◌+◌, ◌<◌, ◌≤◌, String, ltb, ltb→lt, ◌≡◌, refl, ◌∙◌, ◌⊎◌, inl, inr, Bool-cases, Option, none,
  some, All, All-weaken, lookup, insert-All, lookup-All, subst, arith,
}
use approvo.Result.{Result, ok, err, ok-injective}
use approvo.Crypto.Signers.{PublicKeyMaterial, Signer}
use approvo.Crypto.SigningService.{
  SigningService, Caches, no_caches, Held, Lookup, fetched, one_more, hit_or_fetch, cached,
  look_up_signer, signer_at, look_up_public, public_key,
}

module _ {V : Type 0} (clock : ℕ → ℕ) (get : String → ℕ → Result V) where
  -- An earlier call of the provider gave the value, and an earlier reading of the clock the time.
  abbrev pub Obtained : ℕ → ℕ → String × (ℕ × V) → Type 0
  Obtained calls readings (ref, (t, v)) =
      ((n : ℕ) × (n < calls) × (get ref n ≡ ok v)) × ((r : ℕ) × (r < readings) × (clock r ≡ t))

  Obtained-later :
      (c d m n : ℕ) (e : String × (ℕ × V)) → c ≤ d → m ≤ n → Obtained c m e → Obtained d n e
  Obtained-later c d m n (ref, (t, v)) p q ((i, before, gave), (r, earlier, read)) =
      ((i, omega arith, gave), (r, omega arith, read))

  -- A value comes from the provider now, or was kept less than the lifetime ago.
  abbrev pub Recent : ℕ → String → ℕ → ℕ → V → Type 0
  Recent ttl ref calls readings v =
      (get ref calls ≡ ok v)
      ⊎ ((t : ℕ) × Obtained calls readings (ref, (t, v)) × (clock readings < t + ttl))

  module _ (ttl : ℕ) (ref : String) (held : Held V) (calls readings : ℕ) where
    -- The cache holds what was obtained, and the answer is recent.
    abbrev pub Good : Lookup V → Type 0
    Good l =
        All (Obtained (calls + l.called) (readings + l.read)) l.held
        × ((v : V) → l.answer ≡ ok v → Recent ttl ref calls readings v)

    later_held :
        (d n : ℕ)
        → calls ≤ d
        → readings ≤ n
        → All (Obtained calls readings) held
        → All (Obtained d n) held
    later_held d n p q h =
        All-weaken (Obtained calls readings) (Obtained d n) held
          (λ e. Obtained-later calls d readings n e p q) h

    -- A fetch with the reading of the clock after `first`.
    fetched-Good :
        (first d n : ℕ) (r : Result V)
        → get ref calls ≡ r
        → calls < d
        → readings ≤ first
        → first < n
        → All (Obtained calls readings) held
        → All (Obtained d n) (fetched clock ttl ref r held first r).held
          × ((v : V)
              → (fetched clock ttl ref r held first r).answer ≡ ok v
              → Recent ttl ref calls readings v)
    fetched-Good first d n (err x) e p q f h =
        (later_held d n (omega arith) (omega arith) h, λ v g. cc)
    fetched-Good first d n (ok w) e p q f h = (
      insert-All (Obtained d n) ref (clock first, w) held ((calls, p, e), (first, f, refl))
          (later_held d n (omega arith) (omega arith) h),
      λ v g. inl (e ∙ g),
    )

    fetch_now :
        (r : Result V)
        → get ref calls ≡ r
        → All (Obtained calls readings) held
        → Good (fetched clock ttl ref r held readings r)
    fetch_now (err x) e h =
        (later_held (calls + 1) (readings + 0) (omega arith) (omega arith) h, λ v g. cc)
    fetch_now (ok w) e h =
        fetched-Good readings (calls + 1) (readings + 1) (ok w) e (omega arith) (omega arith)
          (omega arith) h

    fetch_after :
        (r : Result V)
        → get ref calls ≡ r
        → All (Obtained calls readings) held
        → Good (one_more clock ttl ref r held (fetched clock ttl ref r held (readings + 1) r))
    fetch_after (err x) e h =
        (later_held (calls + 1) (readings + (0 + 1)) (omega arith) (omega arith) h, λ v g. cc)
    fetch_after (ok w) e h =
        fetched-Good (readings + 1) (calls + 1) (readings + (1 + 1)) (ok w) e (omega arith)
          (omega arith) (omega arith) h

    hit-Good :
        (r : Result V) (o : Option (ℕ × V))
        → get ref calls ≡ r
        → lookup ref held ≡ o
        → All (Obtained calls readings) held
        → Good (hit_or_fetch clock ttl ref r held readings o)
    hit-Good r none e f h = fetch_now r e h
    hit-Good r (some (t, w)) e f h = elim (Bool-cases (ltb (clock readings) (t + ttl))) [
      | inr stale ↦ rw stale (fetch_after r e h)
      | inl in_time ↦ rw in_time (
        later_held (calls + 0) (readings + 1) (omega arith) (omega arith) h,
        λ v answered. inr (
          t,
          subst (λ x. Obtained calls readings (ref, (t, x))) (ok-injective answered)
              (lookup-All (Obtained calls readings) ref held f h),
          ltb→lt (clock readings) (t + ttl) in_time,
        ),
      )
    ]

    pub cached-Good :
        All (Obtained calls readings) held
        → Good (cached clock ttl ref (get ref calls) held readings)
    unfolding cached
    cached-Good h = hit-Good (get ref calls) (lookup ref held) refl refl h

module _ (service : SigningService) where
  abbrev gives_signer : String → ℕ → Result Signer
  gives_signer ref n = (service.provider n).get_signer ref

  abbrev gives_public : String → ℕ → Result PublicKeyMaterial
  gives_public ref n = (service.provider n).get_public_key ref

  -- What the caches hold was obtained.
  pub record IsFresh (s : Caches) : Type 0 where
    pub signers : All (Obtained service.clock gives_signer s.calls s.readings) s.signer_cache
    pub publics : All (Obtained service.clock gives_public s.calls s.readings) s.pub_cache

  pub no_caches-IsFresh : IsFresh no_caches
  no_caches-IsFresh = record { signers = tt; publics = tt }

  abbrev pub RecentSigner : String → Caches → Signer → Type 0
  RecentSigner ref s v =
      Recent service.clock gives_signer service.signer_ttl ref s.calls s.readings v

  abbrev pub RecentPublic : String → Caches → PublicKeyMaterial → Type 0
  RecentPublic ref s v =
      Recent service.clock gives_public service.pubkey_ttl ref s.calls s.readings v

  pub signer_at-IsFresh :
      (ref : String) (s : Caches)
      → IsFresh s
      → IsFresh (signer_at service ref s).1
        × ((v : Signer) → (signer_at service ref s).0 ≡ ok v → RecentSigner ref s v)
  unfolding signer_at
  signer_at-IsFresh ref s h =
      let l = look_up_signer service ref s in
      let good =
        cached-Good service.clock gives_signer service.signer_ttl ref s.signer_cache s.calls
          s.readings h.signers in
      (
        record {
          signers = good.0;
          publics =
              later_held service.clock gives_public service.pubkey_ttl ref s.pub_cache s.calls
                s.readings (s.calls + l.called) (s.readings + l.read) (omega arith) (omega arith)
                h.publics;
        },
        good.1,
      )

  pub public_key-IsFresh :
      (ref : String) (s : Caches)
      → IsFresh s
      → IsFresh (public_key service ref s).1
        × ((v : PublicKeyMaterial) → (public_key service ref s).0 ≡ ok v → RecentPublic ref s v)
  unfolding public_key
  public_key-IsFresh ref s h =
      let l = look_up_public service ref s in
      let good =
        cached-Good service.clock gives_public service.pubkey_ttl ref s.pub_cache s.calls s.readings
          h.publics in
      (
        record {
          publics = good.0;
          signers =
              later_held service.clock gives_signer service.signer_ttl ref s.signer_cache s.calls
                s.readings (s.calls + l.called) (s.readings + l.read) (omega arith) (omega arith)
                h.signers;
        },
        good.1,
      )
