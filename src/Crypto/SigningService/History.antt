-- ===== src/Crypto/SigningService/History.antt =====
-- Where what the caches of src/approvo/crypto/signing.py hold comes from, over the calls of a service.
use approvo.Base.{
  ℕ, ◌+◌, ◌<◌, String, ◌≡◌, refl, sym, ap, ◌∙◌, subst, ◌⊎◌, inl, inr, List, [], ◌∷◌, ◌++◌,
  append-nil, append_assoc, All, All-append, All-weaken, insert-All, lookup-All,
}
use approvo.Result.{Result, ok, ok-injective}
use approvo.Crypto.Signers.{PublicKeyMaterial, Signer}
use approvo.Crypto.SigningService.{
  SigningService, Caches, no_caches, Held, signer_at, public_key, invalidate,
}
use approvo.Crypto.SigningService.Asked.{
  Asked, hit, failed, got, gives_signer, gives_public, signers_of, publics_of, signer_at-Asked,
  public_key-Asked,
}

-- What a caller can do that touches the caches.
pub data Use : Type 0 where
  ask_signer ask_public : String → Use
  forget : Use

abbrev pub use_one : SigningService → Use → Caches → Caches
use_one service (ask_signer ref) s = (signer_at service ref s).1
use_one service (ask_public ref) s = (public_key service ref s).1
use_one service forget s = invalidate s

unfoldable pub use_caches : SigningService → List Use → Caches → Caches
use_caches service [] s = s
use_caches service (u ∷ uses) s = use_caches service uses (use_one service u s)

abbrev Keeps : Use → Type 0
Keeps forget = ⊥
Keeps u = Unit {0}

use_caches-snoc :
    (service : SigningService) (uses : List Use) (u : Use) (s : Caches)
    → use_caches service (uses ++ u ∷ []) s ≡ use_one service u (use_caches service uses s)
unfolding use_caches
use_caches-snoc service [] u s = refl
use_caches-snoc service (x ∷ uses) u s = use_caches-snoc service uses u (use_one service x s)

module _ (service : SigningService) {V : Type 0} (get : String → ℕ → Result V)
    (ask : String → Use) where
  abbrev pub after : List Use → Caches
  after uses = use_caches service uses no_caches

  -- One of the calls asked the provider for the reference and got the value, `t` is its last reading of the clock, and the caches were not
  -- cleared after it.
  pub record FetchedIn (uses : List Use) (ref : String) (t : ℕ) (v : V) : Type 0 where
    pub past : List Use
    pub rest : List Use
    pub split : uses ≡ past ++ ask ref ∷ rest
    pub gave : get ref (after past).calls ≡ ok v
    pub asked : (use_one service (ask ref) (after past)).calls ≡ (after past).calls + 1
    pub reading : ℕ
    pub last : (use_one service (ask ref) (after past)).readings ≡ reading + 1
    pub stamped : service.clock reading ≡ t
    pub kept : All Keeps rest

  -- The provider is asked in this call and gives the value, or is not asked, since the value was fetched in an earlier call, less than the
  -- lifetime before this call's reading of the clock.
  abbrev pub RecentIn : ℕ → List Use → String → V → Type 0
  RecentIn ttl uses ref v =
      ((get ref (after uses).calls ≡ ok v)
        × ((use_one service (ask ref) (after uses)).calls ≡ (after uses).calls + 1))
      ⊎ ((t : ℕ) × FetchedIn uses ref t v
          × (service.clock (after uses).readings < t + ttl)
          × ((use_one service (ask ref) (after uses)).calls ≡ (after uses).calls))

  abbrev HeldIn : List Use → String × (ℕ × V) → Type 0
  HeldIn uses (ref, (t, v)) = FetchedIn uses ref t v

  FetchedIn-later :
      (uses : List Use) (u : Use) (e : String × (ℕ × V))
      → Keeps u
      → HeldIn uses e
      → HeldIn (uses ++ u ∷ []) e
  FetchedIn-later uses u (ref, (t, v)) keeps f = record {
    past = f.past;
    rest = f.rest ++ u ∷ [];
    split = ap (λ l. l ++ u ∷ []) f.split ∙ append_assoc f.past (ask ref ∷ f.rest) (u ∷ []);
    gave = f.gave;
    asked = f.asked;
    reading = f.reading;
    last = f.last;
    stamped = f.stamped;
    kept = All-append Keeps f.rest (u ∷ []) f.kept (keeps, tt);
  }

  -- A cache of the service, and what touches it.
  pub record IsCache (ttl : ℕ) (cache : Caches → Held V)
      (call : String → Caches → Result V × Caches) : Type 0 where
    pub empty : cache no_caches ≡ []
    pub runs : (ref : String) (s : Caches) → use_one service (ask ref) s ≡ (call ref s).1
    pub asks : (ref : String) → Keeps (ask ref)
    pub answers : (ref : String) (s : Caches) → Asked service.clock ttl get cache ref s (call ref s)
    pub others :
        (u : Use) (s : Caches)
        → ((ref : String) × (u ≡ ask ref))
          ⊎ ((Keeps u × (cache (use_one service u s) ≡ cache s))
              ⊎ (cache (use_one service u s) ≡ []))

  module _ (ttl : ℕ) (cache : Caches → Held V) (call : String → Caches → Result V × Caches)
      (is_cache : IsCache ttl cache call) where
    abbrev AllFetched : List Use → Held V → Type 0
    AllFetched uses held = All (HeldIn uses) held

    grown :
        (uses : List Use) (u : Use) (held : Held V)
        → Keeps u
        → AllFetched uses held
        → AllFetched (uses ++ u ∷ []) held
    grown uses u held keeps h =
        All-weaken (HeldIn uses) (HeldIn (uses ++ u ∷ [])) held
          (λ e f. FetchedIn-later uses u e keeps f) h

    asked-AllFetched :
        (uses : List Use) (ref : String)
        → AllFetched uses (cache (after uses))
        → AllFetched (uses ++ ask ref ∷ []) (cache (call ref (after uses)).1)
    asked-AllFetched uses ref h =
        let s = after uses in
        let more = grown uses (ask ref) (cache s) (is_cache.asks ref) h in
        elim (is_cache.answers ref s) [
          | hit t v _ _ _ same _ ↦ subst (AllFetched (uses ++ ask ref ∷ [])) (sym same) more
          | failed e _ same ↦ subst (AllFetched (uses ++ ask ref ∷ [])) (sym same) more
          | got v n gave _ stored read called ↦
              let new : FetchedIn (uses ++ ask ref ∷ []) ref (service.clock n) v = record {
                past = uses;
                rest = [];
                split = refl;
                gave = gave;
                asked = ap (λ (x : Caches). x.calls) (is_cache.runs ref s) ∙ called;
                reading = n;
                last = ap (λ (x : Caches). x.readings) (is_cache.runs ref s) ∙ read;
                stamped = refl;
                kept = tt;
              } in
              subst (AllFetched (uses ++ ask ref ∷ [])) (sym stored) (
                insert-All (HeldIn (uses ++ ask ref ∷ [])) ref (service.clock n, v) (cache s) new
                  more)
        ]

    one-AllFetched :
        (uses : List Use) (u : Use)
        → AllFetched uses (cache (after uses))
        → AllFetched (uses ++ u ∷ []) (cache (after (uses ++ u ∷ [])))
    one-AllFetched uses u h =
        subst (λ x. AllFetched (uses ++ u ∷ []) (cache x))
          (sym (use_caches-snoc service uses u no_caches))
          (elim (is_cache.others u (after uses)) [
            | inl (ref, same) ↦
                subst (λ x. AllFetched (uses ++ x ∷ []) (cache (use_one service x (after uses))))
                  (sym same)
                  (subst (λ x. AllFetched (uses ++ ask ref ∷ []) (cache x))
                    (sym (is_cache.runs ref (after uses))) (asked-AllFetched uses ref h))
            | inr (inl (keeps, same)) ↦
                subst (AllFetched (uses ++ u ∷ [])) (sym same)
                  (grown uses u (cache (after uses)) keeps h)
            | inr (inr cleared) ↦ subst (AllFetched (uses ++ u ∷ [])) (sym cleared) tt
          ])

    onward :
        (past uses : List Use)
        → AllFetched past (cache (after past))
        → AllFetched (past ++ uses) (cache (after (past ++ uses)))
    onward past [] h = subst (λ l. AllFetched l (cache (after l))) (sym (append-nil past)) h
    onward past (u ∷ uses) h =
        subst (λ l. AllFetched l (cache (after l))) (append_assoc past (u ∷ []) uses)
          (onward (past ++ u ∷ []) uses (one-AllFetched past u h))

    call-RecentIn :
        (uses : List Use) (ref : String) (v : V)
        → (call ref (after uses)).0 ≡ ok v
        → RecentIn ttl uses ref v
    unfolding use_caches
    call-RecentIn uses ref v h =
        let s = after uses in
        let calls = ap (λ (x : Caches). x.calls) (is_cache.runs ref s) in
        let held = onward [] uses (subst (AllFetched []) (sym is_cache.empty) tt) in
        elim (is_cache.answers ref s) [
          | hit t w found recent answered _ same ↦
              let own = lookup-All (HeldIn uses) ref (cache s) found held in
              inr (
                t,
                subst (FetchedIn uses ref t) (ok-injective (sym answered ∙ h)) own,
                recent,
                calls ∙ same,
              )
          | failed e answered _ ↦ cc
          | got w n gave answered _ _ called ↦ inl (gave ∙ sym answered ∙ h, calls ∙ called)
        ]

module _ (service : SigningService) where
  signers-IsCache :
      IsCache service
        (gives_signer service)
        ask_signer
        service.signer_ttl
        (signers_of service)
        (signer_at service)
  unfolding public_key
  signers-IsCache = record {
    empty = refl;
    runs = λ ref s. refl;
    asks = λ ref. tt;
    answers = signer_at-Asked service;
    others = by_use;
  }
    where
      by_use :
          (u : Use) (s : Caches)
          → ((ref : String) × (u ≡ ask_signer ref))
            ⊎ ((Keeps u × ((use_one service u s).signer_cache ≡ s.signer_cache))
                ⊎ ((use_one service u s).signer_cache ≡ []))
      by_use (ask_signer ref) s = inl (ref, refl)
      by_use (ask_public ref) s = inr (inl (tt, refl))
      by_use forget s = inr (inr refl)

  publics-IsCache :
      IsCache service
        (gives_public service)
        ask_public
        service.pubkey_ttl
        (publics_of service)
        (public_key service)
  unfolding signer_at
  publics-IsCache = record {
    empty = refl;
    runs = λ ref s. refl;
    asks = λ ref. tt;
    answers = public_key-Asked service;
    others = by_use;
  }
    where
      by_use :
          (u : Use) (s : Caches)
          → ((ref : String) × (u ≡ ask_public ref))
            ⊎ ((Keeps u × ((use_one service u s).pub_cache ≡ s.pub_cache))
                ⊎ ((use_one service u s).pub_cache ≡ []))
      by_use (ask_public ref) s = inl (ref, refl)
      by_use (ask_signer ref) s = inr (inl (tt, refl))
      by_use forget s = inr (inr refl)

  -- Let a service start with empty caches and answer any calls for signers, for public keys and for clearing the caches. A signer that it
  -- then returns for a reference is what the provider gives when it is asked in this call, or it is returned without asking: then an
  -- earlier call for the reference asked the provider and got it, the caches were not cleared since, and the clock now reads less than
  -- `signer_ttl` after the last reading of that earlier call.
  pub signer_at-RecentIn :
      (uses : List Use) (ref : String) (v : Signer)
      → (signer_at service ref (use_caches service uses no_caches)).0 ≡ ok v
      → RecentIn service (gives_signer service) ask_signer service.signer_ttl uses ref v
  signer_at-RecentIn uses ref v h =
      call-RecentIn service (gives_signer service) ask_signer service.signer_ttl
        (signers_of service) (signer_at service) signers-IsCache uses ref v h

  -- The same for the public keys that `public_key` returns and `pubkey_ttl`.
  pub public_key-RecentIn :
      (uses : List Use) (ref : String) (m : PublicKeyMaterial)
      → (public_key service ref (use_caches service uses no_caches)).0 ≡ ok m
      → RecentIn service (gives_public service) ask_public service.pubkey_ttl uses ref m
  public_key-RecentIn uses ref m h =
      call-RecentIn service (gives_public service) ask_public service.pubkey_ttl
        (publics_of service) (public_key service) publics-IsCache uses ref m h
