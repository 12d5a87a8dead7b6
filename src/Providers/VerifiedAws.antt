-- ===== src/Providers/VerifiedAws.antt =====
-- Signatures that src/approvo/providers/awskms.py has made in AWS KMS, and the registry of schemes that verifies them.
use approvo.Base.{
  String, Bytes, ◌≡◌, refl, sym, ap, ◌∙◌, subst, inl, inr, true, List, [], ◌∷◌, In, All, lookup,
  lookup-All,
}
use approvo.Result.{ok, or_raise, or_raise-eq-ok, >>=-eq-ok, ok-injective}
use approvo.Crypto.Outside.{Outside}
use approvo.Crypto.Algorithms.{Verify, registry, get_scheme}
use approvo.Crypto.Signers.{Signer, remote_signer}
use approvo.Providers.Aws.{AwsKms, AwsKey, keyspec_map, aws_key_id, aws_describe, aws_signer}
use approvo.Providers.Verified.{shipped, Accepts}

module _ (ed p256 p384 pss pkcs1 : Verify) where
  -- A key spec of AWS KMS, a signing algorithm that it offers for such a key, and what verifies the signatures.
  abbrev KeyAlgorithm : Type 0
  KeyAlgorithm = String × (String × Verify)

  abbrev key_algorithms : List KeyAlgorithm
  key_algorithms =
      ("ECC_NIST_P256", ("ECDSA_SHA_256", p256))
      ∷ ("ECC_NIST_P384", ("ECDSA_SHA_384", p384))
      ∷ ("RSA_2048", ("RSASSA_PSS_SHA_256", pss))
      ∷ ("RSA_3072", ("RSASSA_PSS_SHA_256", pss))
      ∷ ("RSA_4096", ("RSASSA_PSS_SHA_256", pss))
      ∷ []

  -- What AWS KMS documents: a key keeps its spec and its public key, and a signature by one of the algorithms for the spec verifies.
  pub record AwsSignsAsDocumented (kms later : AwsKms) : Type 0 where
    pub signs :
        (key_id spec algorithm : String) (verify : Verify) (spki message sig : Bytes)
        → In (spec, (algorithm, verify)) key_algorithms
        → kms.get_public_key key_id ≡ ok (spec, spki)
        → later.sign key_id message algorithm ≡ ok sig
        → verify spki sig message ≡ true

  -- A row of `keyspec_map` is a documented one.
  abbrev Row : String × (String × String) → Type 0
  Row (spec, (scheme, algorithm)) =
      (verify : Verify) × In (spec, (algorithm, verify)) key_algorithms
      × (get_scheme (shipped ed p256 p384 pss pkcs1) scheme ≡ ok verify)

  keyspec_map-Row : All Row keyspec_map
  unfolding keyspec_map registry get_scheme lookup
  keyspec_map-Row = (
    (p256, inl refl, refl),
    (
      (p384, inr (inl refl), refl),
      (
        (pss, inr (inr (inl refl)), refl),
        (
          (pss, inr (inr (inr (inl refl))), refl),
          ((pss, inr (inr (inr (inr (inl refl)))), refl), tt),
        ),
      ),
    ),
  )

  -- Let AWS KMS sign as it documents, also when a signature is asked for after the signer was made. Every signature that a signer of the
  -- provider returns is accepted by the verifier that the registry has for the signer's scheme, with the signer's public key.
  pub aws_signer-Accepts :
      (kms later : AwsKms) (outside : Outside) (ref : String) (s : Signer) (message sig : Bytes)
      → AwsSignsAsDocumented kms later
      → aws_signer kms later outside ref ≡ ok s
      → s.sign message ≡ ok sig
      → Accepts ed p256 p384 pss pkcs1 s message sig
  unfolding aws_signer aws_describe remote_signer
  aws_signer-Accepts kms later outside ref s message sig honest h signed =
      let (key, described, h1) = >>=-eq-ok (aws_describe kms ref) _ h in
      let (key_id, named, h2) = >>=-eq-ok (aws_key_id ref) _ h1 in
      let made = ok-injective h2 in
      let (key_id', named', d1) = >>=-eq-ok (aws_key_id ref) _ described in
      let same_id : key_id' ≡ key_id = ok-injective (sym named' ∙ named) in
      let (resp, answered, d2) = >>=-eq-ok (kms.get_public_key key_id') _ d1 in
      let (known, listed, d3) = >>=-eq-ok (or_raise (lookup resp.0 keyspec_map) _) _ d2 in
      let is_key = ok-injective d3 in
      let (verify, offered, has) =
        lookup-All Row resp.0 keyspec_map (or_raise-eq-ok _ _ listed) keyspec_map-Row in
      let asked : later.sign key_id message known.1 ≡ ok sig =
        ap (λ (k : AwsKey). later.sign key_id message k.signing_algo) is_key
        ∙ ap (λ (x : Signer). x.sign message) made
        ∙ signed in
      let accepts =
        honest.signs key_id resp.0 known.1 verify resp.1 message sig offered
          (ap kms.get_public_key (sym same_id) ∙ answered) asked in
      subst (λ x. Accepts ed p256 p384 pss pkcs1 x message sig) made
        (
          verify,
          ap (λ (k : AwsKey). get_scheme (shipped ed p256 p384 pss pkcs1) k.scheme) (sym is_key)
              ∙ has,
          ap (λ (k : AwsKey). verify k.spki sig message) (sym is_key) ∙ accepts,
        )
