-- ===== src/Crypto/SigningService/Trusted.antt =====
-- What src/approvo/crypto/signing.py signs is what verifiers accept that trust the keys which it publishes.
use approvo.Base.{
  ℕ, ◌<◌, String, Bytes, ◌≡◌, refl, sym, ap, ◌∙◌, subst, inl, inr, true, some, List, [], ◌∷◌, All,
  lookup,
}
use approvo.Result.{Result, ok, err, ok-injective}
use approvo.Json.{Fields}
use approvo.Models.Decision.{Decision, decision_payload_type}
use approvo.Models.Decision
use approvo.Crypto.Algorithms.{Verify}
use approvo.Crypto.Keys.{KeyRef, directory, valid_at, scoped_to}
use approvo.Crypto.Envelope.{pae}
use approvo.Crypto.Verifier.{decision_authorized}
use approvo.Crypto.Signers.{PublicKeyMaterial, Signer, to_key_ref}
use approvo.Crypto.Wrapping.{wrap_async}
use approvo.Crypto.Resolver.{SigningContext, resolve}
use approvo.Crypto.KeyProvider.{KeyProvider}
use approvo.Crypto.KeyProvider.Consistent.{IsConsistent}
use approvo.Crypto.SigningService.{
  SigningService, Caches, Call, continue_with, TrustSpec, signer_at, signer_for, public_key,
  sign_decision, trust, key_of_spec,
}
use approvo.Crypto.SigningService.Accepted.{
  one_signature, wrap_async-Wrapped, env-authorized, material-checks_out,
}
use approvo.Crypto.SigningService.Freshness.{IsFresh, signer_at-IsFresh, public_key-IsFresh}

-- The provider does not change, its signers sign under schemes that are registered, and the verifier of the scheme accepts what they sign;
-- and base64 decodes what it has encoded.
pub record IsReliable (service : SigningService) (p : KeyProvider) : Type 0 where
  pub steady : (n : ℕ) → service.provider n ≡ p
  pub consistent : IsConsistent service.outside.sha256 p
  pub correct :
      (ref : String) (v : Signer) (message sig : Bytes)
      → p.get_signer ref ≡ ok v
      → v.sign message ≡ ok sig
      → (verify : Verify) × (lookup v.public_material.scheme service.outside.schemes ≡ some verify)
        × (verify v.public_material.public sig message ≡ true)
  pub of_bytes :
      (ref : String) (v : Signer)
      → p.get_signer ref ≡ ok v
      → All (λ b. b < 256) v.public_material.public
  pub decodes : (bs : Bytes) → service.outside.b64decode (service.outside.b64encode bs) ≡ some bs

module _ (service : SigningService) (p : KeyProvider) (r : IsReliable service p) where
  signer_at-steady :
      (ref : String) (s : Caches) (v : Signer)
      → IsFresh service s
      → (signer_at service ref s).0 ≡ ok v
      → p.get_signer ref ≡ ok v
  signer_at-steady ref s v fresh h = elim ((signer_at-IsFresh service ref s fresh).1 v h) [
    | inl gave ↦ ap (λ (q : KeyProvider). q.get_signer ref) (sym (r.steady s.calls)) ∙ gave
    | inr (t, ((n, before, gave), read), near) ↦
        ap (λ (q : KeyProvider). q.get_signer ref) (sym (r.steady n)) ∙ gave
  ]

  public_key-steady :
      (ref : String) (s : Caches) (m : PublicKeyMaterial)
      → IsFresh service s
      → (public_key service ref s).0 ≡ ok m
      → p.get_public_key ref ≡ ok m
  public_key-steady ref s m fresh h = elim ((public_key-IsFresh service ref s fresh).1 m h) [
    | inl gave ↦ ap (λ (q : KeyProvider). q.get_public_key ref) (sym (r.steady s.calls)) ∙ gave
    | inr (t, ((n, before, gave), read), near) ↦
        ap (λ (q : KeyProvider). q.get_public_key ref) (sym (r.steady n)) ∙ gave
  ]

continue_with-eq-ok :
    {A B : Type 0} (out : Result A × Caches) (k : A → Call B) {b : B} {t : Caches}
    → continue_with k out ≡ (ok b, t)
    → (a : A) × (out.0 ≡ ok a) × (k a out.1 ≡ (ok b, t))
continue_with-eq-ok (ok a, u) k h = (a, refl, h)
continue_with-eq-ok (err e, u) k h = cc

pair_inj : {A : Type 0} {x y : Result A × Caches} → x ≡ y → (x.0 ≡ y.0) × (x.1 ≡ y.1)
pair_inj e = (ap (λ p. p.0) e, ap (λ p. p.1) e)

module _ (service : SigningService) where
  trust_one :
      (spec : TrustSpec) (s : Caches) {keys : List KeyRef} {mid : Caches}
      → trust service (spec ∷ []) s ≡ (ok keys, mid)
      → (m : PublicKeyMaterial) × ((public_key service spec.key_ref s).0 ≡ ok m)
        × (keys ≡ key_of_spec service spec m ∷ [])
        × (mid ≡ (public_key service spec.key_ref s).1)
  unfolding trust
  trust_one spec s h =
      let (m, gave, h1) = continue_with-eq-ok (public_key service spec.key_ref s) _ h in
      let (same, at_end) = pair_inj h1 in (m, gave, sym (ok-injective same), sym at_end)

  sign_one :
      (d : Decision) (ctx : SigningContext) (ref : String) (s : Caches) {envelope : Fields}
      {end : Caches}
      → resolve service.resolver ctx ≡ ok ref
      → sign_decision service d ctx s ≡ (ok envelope, end)
      → (v : Signer) × ((signer_at service ref s).0 ≡ ok v)
        × (wrap_async service.outside (Decision.to_dict d) decision_payload_type (v ∷ [])
            ≡ ok envelope)
  unfolding sign_decision signer_for
  sign_one d ctx ref s resolved h =
      let (v, gave, h1) =
        continue_with-eq-ok (continue_with (signer_at service) (resolve service.resolver ctx, s)) _
          h in
      let e = sym (ap (λ o. (continue_with (signer_at service) (o, s)).0) resolved) in
      (v, e ∙ gave, (pair_inj h1).0)

-- Let the provider behind a signing service stay as it is, publish the keys of the signers that it hands out, and hand out signers whose
-- signatures verify. A decision that the service signs with a key which it has published by `trust` as a decision issuer's is then
-- authorized, for the approver that it names, by a verifier whose directory holds that key, at any time at which the key is valid, in any
-- log that it is scoped to, for a known approver; whatever the caches of the service hold from earlier calls.
pub sign_decision-authorized :
    (service : SigningService) (p : KeyProvider) (s : Caches) (spec : TrustSpec) (d : Decision)
    (ctx : SigningContext) (at_time log_id : String) {keys : List KeyRef} {mid end : Caches}
    {envelope : Fields}
    → IsReliable service p
    → IsFresh service s
    → resolve service.resolver ctx ≡ ok spec.key_ref
    → spec.key_use ≡ "decision_issuer"
    → trust service (spec ∷ []) s ≡ (ok keys, mid)
    → sign_decision service d ctx mid ≡ (ok envelope, end)
    → All
        (λ (k : KeyRef).
          (valid_at service.outside.parse k at_time ≡ ok true) × (scoped_to k log_id ≡ true))
        keys
    → decision_authorized service.outside envelope d.approver_id log_id
        (directory keys)
        at_time
        true
      ≡ ok true
unfolding to_key_ref
sign_decision-authorized service p s spec d ctx at_time log_id {keys} {mid} {end} {envelope} r fresh
      resolved issuer published signed usable =
    let out = service.outside in
    let ref = spec.key_ref in
    let (m, gave_m, keys_are, mid_is) = trust_one service spec s published in
    let fresh_mid =
      subst (IsFresh service) (sym mid_is) (public_key-IsFresh service ref s fresh).0 in
    let (v, gave_v, wrapped) = sign_one service d ctx ref mid resolved signed in
    let has_v = signer_at-steady service p r ref mid v fresh_mid gave_v in
    let (publishes, labelled) = r.consistent.publishes ref v has_v in
    let same_m =
      ok-injective (sym (public_key-steady service p r ref s m fresh gave_m) ∙ publishes) in
    let w = wrap_async-Wrapped out (Decision.to_dict d) decision_payload_type v wrapped in
    let message = pae decision_payload_type w.body in
    let (verify, known, verifies) = r.correct ref v message w.sig has_v w.signed in
    let key = key_of_spec service spec v.public_material in
    let keys_are' = keys_are ∙ ap (λ x. key_of_spec service spec x ∷ []) same_m in
    let usable' = subst (All Usable) keys_are' usable in
    let env_is =
      w.made ∙ ap (λ k. one_signature out decision_payload_type w.body k w.sig) labelled.0 in
    let result =
      env-authorized out decision_payload_type w.body key w.sig at_time log_id d.approver_id
        r.decodes usable'.0.0 issuer usable'.0.1
        (material-checks_out service spec v.public_material message w.sig verify
          (r.of_bytes ref v has_v) known (r.decodes w.sig) verifies) in
    subst
      (λ ks.
        decision_authorized out envelope d.approver_id log_id (directory ks) at_time true ≡ ok true)
      (sym keys_are')
      (subst
        (λ e.
          decision_authorized out e d.approver_id log_id (directory (key ∷ [])) at_time true
          ≡ ok true)
        (sym env_is) result)
  where
    Usable : KeyRef → Type 0
    Usable k = (valid_at service.outside.parse k at_time ≡ ok true) × (scoped_to k log_id ≡ true)
