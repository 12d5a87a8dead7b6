-- ===== src/Crypto/SigningService/Accepted.antt =====
-- An envelope with one signature, as src/approvo/crypto/envelope.py wraps it, and what src/approvo/crypto/verifier.py makes of it.
use approvo.Base.{
  ◌<◌, String, eq_refl, Bytes, from_hex-hex, ◌≡◌, refl, sym, ap, ◌∙◌, inr, true, some, List, [],
  ◌∷◌, All, lookup, insert,
}
use approvo.Result.{Result, ok, err, ok-injective}
use approvo.Result
use approvo.Json.{Value, str, dict, Fields, fields}
use approvo.Json.Read.{dict_list}
use approvo.Json.Canonical.{canonical_bytes}
use approvo.Crypto.Outside.{Outside}
use approvo.Crypto.Algorithms.{Verify}
use approvo.Crypto.Keys.{KeyRef, KeyDirectory, directory, extend, get_key, valid_at, scoped_to}
use approvo.Crypto.Envelope.{pae, decode, signable_bytes}
use approvo.Crypto.Verifier.{
  verified_as, checks_out, signature_counts, verified_from, verified_signatures, authorizes,
  decision_authorized,
}
use approvo.Crypto.Verifier.Authorized.{MaySign-authorizes}
use approvo.Crypto.Signers.{sign_with, PublicKeyMaterial, Signer, to_key_ref}
use approvo.Crypto.Wrapping.{wrap_async, sign_all, signature_of}
use approvo.Crypto.SigningService.{SigningService, TrustSpec, key_of_spec}

abbrev envelope_of : Outside → String → Bytes → List Fields → Fields
envelope_of outside payload_type body signatures = fields (
    ("payloadType", str payload_type)
    ∷ ("payload", str (outside.b64encode body))
    ∷ ("signatures", dict_list signatures)
    ∷ [])

abbrev pub one_signature : Outside → String → Bytes → String → Bytes → Fields
one_signature outside payload_type body keyid sig =
    envelope_of outside payload_type body (signature_of outside (sig, keyid) ∷ [])

-- The envelope of one signer, in its parts.
pub record Wrapped (outside : Outside) (payload : Value) (payload_type : String) (v : Signer)
    (env : Fields) : Type 0 where
  pub body : Bytes
  pub sig : Bytes
  pub written : canonical_bytes payload ≡ ok body
  pub signed : v.sign (pae payload_type body) ≡ ok sig
  pub made : env ≡ one_signature outside payload_type body v.key_id sig

pub wrap_async-Wrapped :
    (outside : Outside) (payload : Value) (payload_type : String) (v : Signer) {env : Fields}
    → wrap_async outside payload payload_type (v ∷ []) ≡ ok env
    → Wrapped outside payload payload_type v env
unfolding wrap_async sign_all sign_with
wrap_async-Wrapped outside payload payload_type v h =
    let (body, written, h1) = Result.>>=-eq-ok (canonical_bytes payload) _ h in
    let (signatures, signing, h2) =
      Result.>>=-eq-ok (sign_all outside (pae payload_type body) (v ∷ [])) _ h1 in
    let (signed, one, h3) = Result.>>=-eq-ok (sign_with v (pae payload_type body)) _ signing in
    let (sig, gave, h4) = Result.>>=-eq-ok (v.sign (pae payload_type body)) _ one in
    record {
      body = body;
      sig = sig;
      written = written;
      signed = gave;
      made =
          sym (ok-injective h2)
          ∙ ap (envelope_of outside payload_type body) (
              sym (ok-injective h3)
              ∙ ap (λ (x : Bytes × String). signature_of outside x ∷ []) (sym (ok-injective h4)));
    }

module _ (outside : Outside) (payload_type : String) (body : Bytes) (key : KeyRef) (sig : Bytes)
    (at_time log_id approver_id : String)
    (decodes : (bs : Bytes) → outside.b64decode (outside.b64encode bs) ≡ some bs)
    (valid : valid_at outside.parse key at_time ≡ ok true)
    (issuer : key.key_use ≡ "decision_issuer") (scoped : scoped_to key log_id ≡ true) where
  abbrev env : Fields
  env = one_signature outside payload_type body key.keyid sig

  env-signable_bytes : signable_bytes outside env ≡ ok (pae payload_type body)
  unfolding signable_bytes decode
  env-signable_bytes = rw (decodes body) refl

  abbrev one_key : KeyDirectory
  one_key = directory (key ∷ [])

  one_key-get_key : get_key one_key key.keyid ≡ some key
  unfolding extend insert lookup
  one_key-get_key = rw (eq_refl key.keyid) refl

  module _
      (checks : checks_out outside key
          (signature_of outside (sig, key.keyid))
          (pae payload_type body)
        ≡ true) where
    env-signature_counts :
        signature_counts outside one_key at_time
          (pae payload_type body)
          (dict (signature_of outside (sig, key.keyid)))
        ≡ ok (some key)
    unfolding signature_counts
    env-signature_counts = rw one_key-get_key (rw valid (rw checks refl))

    env-verified_from :
        verified_from outside one_key at_time
          (pae payload_type body)
          []
          (dict (signature_of outside (sig, key.keyid)) ∷ [])
        ≡ ok (verified_as key ∷ [])
    unfolding verified_from
    env-verified_from = rw env-signature_counts refl

    env-authorizes : authorizes approver_id log_id one_key true (verified_as key) ≡ true
    env-authorizes =
        MaySign-authorizes approver_id log_id one_key true key one_key-get_key
          (inr (issuer, refl, scoped))

    pub env-authorized :
        decision_authorized outside env approver_id log_id one_key at_time true ≡ ok true
    unfolding decision_authorized verified_signatures
    env-authorized = rw env-signable_bytes (rw env-verified_from (rw env-authorizes refl))

-- The key as `to_key_ref` writes it is read back by the verifier.
pub material-checks_out :
    (service : SigningService) (spec : TrustSpec) (m : PublicKeyMaterial) (message sig : Bytes)
    (verify : Verify)
    → All (λ b. b < 256) m.public
    → lookup m.scheme service.outside.schemes ≡ some verify
    → service.outside.b64decode (service.outside.b64encode sig) ≡ some sig
    → verify m.public sig message ≡ true
    → checks_out service.outside
        (key_of_spec service spec m)
        (signature_of service.outside (sig, (key_of_spec service spec m).keyid))
        message
      ≡ true
unfolding checks_out to_key_ref
material-checks_out service spec m message sig verify bytes known decodes verifies =
    rw (known, checks_out) (rw (from_hex-hex m.public bytes) (rw decodes verifies))
