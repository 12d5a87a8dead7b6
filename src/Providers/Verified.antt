-- ===== src/Providers/Verified.antt =====
-- Signatures that src/approvo/providers/gcpkms.py has made in Cloud KMS, and the registry of schemes that verifies them.
use approvo.Base.{
  ◌<◌, String, str_eq, Bytes, from_hex-hex, ◌≡◌, refl, sym, ap, ◌∙◌, subst, ◌⊎◌, inl, inr, true,
  false, if◌then◌else◌, Option, none, some, List, [], ◌∷◌, In, All, lookup, lookup-All,
}
use approvo.Result.{ok, or_raise, or_raise-eq-ok, value_error, >>=-eq-ok, ok-injective}
use approvo.Crypto.Outside.{Outside}
use approvo.Crypto.Algorithms.{Verify, Registry, ed25519, registry, get_scheme}
use approvo.Crypto.Signers.{Signer, remote_signer}
use approvo.Providers.Gcp.{
  GcpKms, GcpKey, whole, digested, algo_map, gcp_name, gcp_describe, hex_bytes, sign_request,
  gcp_signer,
}

module _ (ed p256 p384 pss pkcs1 : Verify) where
  abbrev pub shipped : Registry
  shipped = registry ed p256 p384 pss pkcs1

  -- An algorithm of Cloud KMS that signs a digest, the digest, and what verifies its signatures.
  abbrev DigestAlgorithm : Type 0
  DigestAlgorithm = String × (String × Verify)

  abbrev pub digest_algorithms : List DigestAlgorithm
  digest_algorithms =
      ("EC_SIGN_P256_SHA256", ("sha256", p256))
      ∷ ("EC_SIGN_P384_SHA384", ("sha384", p384))
      ∷ ("RSA_SIGN_PSS_2048_SHA256", ("sha256", pss))
      ∷ ("RSA_SIGN_PSS_3072_SHA256", ("sha256", pss))
      ∷ ("RSA_SIGN_PSS_4096_SHA256", ("sha256", pss))
      ∷ ("RSA_SIGN_PKCS1_2048_SHA256", ("sha256", pkcs1))
      ∷ ("RSA_SIGN_PKCS1_3072_SHA256", ("sha256", pkcs1))
      ∷ ("RSA_SIGN_PKCS1_4096_SHA256", ("sha256", pkcs1))
      ∷ []

  -- What Cloud KMS documents: a version of a key keeps its algorithm and its public key, an Ed25519 key signs a whole message, and a key of
  -- another algorithm signs the digest of a message that its algorithm names. A signature verifies with the public key of the version.
  pub record SignsAsDocumented (kms later : GcpKms) : Type 0 where
    pub signs_whole :
        (name pem : String) (raw message sig : Bytes)
        → kms.get_public_key name ≡ ok ("EC_SIGN_ED25519", pem)
        → kms.raw_of_pem pem ≡ ok raw
        → later.asymmetric_sign name (whole message) ≡ ok sig
        → ed raw sig message ≡ true
    pub signs_digest :
        (name algorithm pem digest : String) (verify : Verify) (spki message sig : Bytes)
        → In (algorithm, (digest, verify)) digest_algorithms
        → kms.get_public_key name ≡ ok (algorithm, pem)
        → kms.spki_of_pem pem ≡ ok spki
        → later.asymmetric_sign name (digested digest (kms.digest_of digest message)) ≡ ok sig
        → verify spki sig message ≡ true
    pub raw_bytes :
        (pem : String) (raw : Bytes) → kms.raw_of_pem pem ≡ ok raw → All (λ b. b < 256) raw
    pub spki_bytes :
        (pem : String) (spki : Bytes) → kms.spki_of_pem pem ≡ ok spki → All (λ b. b < 256) spki

  -- A row of `algo_map` is the documented one.
  abbrev Row : String × (String × Option String) → Type 0
  Row (algorithm, (scheme, digest)) =
      ((algorithm ≡ "EC_SIGN_ED25519") × (scheme ≡ ed25519) × (digest ≡ none))
      ⊎ ((name : String) × (verify : Verify) × (digest ≡ some name)
          × In (algorithm, (name, verify)) digest_algorithms
          × (str_eq scheme ed25519 ≡ false)
          × (get_scheme shipped scheme ≡ ok verify))

  algo_map-Row : All Row algo_map
  unfolding algo_map registry get_scheme lookup
  algo_map-Row = (
    inr ("sha256", p256, refl, inl refl, refl, refl),
    (
      inr ("sha384", p384, refl, inr (inl refl), refl, refl),
      (
        inl (refl, refl, refl),
        (
          inr ("sha256", pss, refl, inr (inr (inl refl)), refl, refl),
          (
            inr ("sha256", pss, refl, inr (inr (inr (inl refl))), refl, refl),
            (
              inr ("sha256", pss, refl, inr (inr (inr (inr (inl refl)))), refl, refl),
              (
                inr ("sha256", pkcs1, refl, inr (inr (inr (inr (inr (inl refl))))), refl, refl),
                (
                  inr (
                    "sha256",
                    pkcs1,
                    refl,
                    inr (inr (inr (inr (inr (inr (inl refl)))))),
                    refl,
                    refl,
                  ),
                  (
                    inr (
                      "sha256",
                      pkcs1,
                      refl,
                      inr (inr (inr (inr (inr (inr (inr (inl refl))))))),
                      refl,
                      refl,
                    ),
                    tt,
                  ),
                ),
              ),
            ),
          ),
        ),
      ),
    ),
  )

  -- The registry has a verifier for the signer's scheme, which accepts the signature with the signer's public key.
  abbrev pub Accepts : Signer → Bytes → Bytes → Type 0
  Accepts s message sig =
      (verify : Verify) × (get_scheme shipped s.algorithm ≡ ok verify)
      × (verify s.public_material.public sig message ≡ true)

  module _ (kms later : GcpKms) (honest : SignsAsDocumented kms later) where
    abbrev Checks : String → Bytes → Bytes → Bytes → Type 0
    Checks scheme public message sig =
        (verify : Verify) × (get_scheme shipped scheme ≡ ok verify)
        × (verify public sig message ≡ true)

    documented_signature :
        (name pem : String) (known : String × Option String) (algorithm : String)
        (public message sig : Bytes)
        → Row (algorithm, known)
        → kms.get_public_key name ≡ ok (algorithm, pem)
        → (if str_eq known.0 ed25519 then kms.raw_of_pem pem else kms.spki_of_pem pem) ≡ ok public
        → later.asymmetric_sign name (sign_request kms known.1 message) ≡ ok sig
        → All (λ b. b < 256) public × Checks known.0 public message sig
    unfolding registry get_scheme lookup
    documented_signature name pem (scheme, digest) algorithm public message sig
          (inl (is_ed, named, whole_message)) described read signed =
        let raw : kms.raw_of_pem pem ≡ ok public = rw named at read in
        (
          honest.raw_bytes pem public raw,
          (
            ed,
            rw named refl,
            honest.signs_whole name pem public message sig (rw is_ed at described) raw
                (rw whole_message at signed),
          ),
        )
    documented_signature name pem (scheme, digest) algorithm public message sig
          (inr (digest_name, verify, given, listed, other, has)) described read signed =
        let spki : kms.spki_of_pem pem ≡ ok public = rw other at read in
        (
          honest.spki_bytes pem public spki,
          (
            verify,
            has,
            honest.signs_digest name algorithm pem digest_name verify public message sig listed
                described spki (rw given at signed),
          ),
        )

  -- Let Cloud KMS sign as it documents, also when a signature is asked for after the signer was made. Every signature that a signer of the
  -- provider returns is accepted by the verifier that the registry has for the signer's scheme, with the signer's public key.
  pub gcp_signer-Accepts :
      (kms later : GcpKms) (outside : Outside) (ref : String) (s : Signer) (message sig : Bytes)
      → SignsAsDocumented kms later
      → gcp_signer kms later outside ref ≡ ok s
      → s.sign message ≡ ok sig
      → Accepts s message sig
  unfolding gcp_signer gcp_describe remote_signer
  gcp_signer-Accepts kms later outside ref s message sig honest h signed =
      let (name, named, h1) = >>=-eq-ok (gcp_name ref) _ h in
      let (key, described, h2) = >>=-eq-ok (gcp_describe kms ref) _ h1 in
      let (public, read, h3) = >>=-eq-ok (hex_bytes key.public_hex) _ h2 in
      let made = ok-injective h3 in
      let (name', named', d1) = >>=-eq-ok (gcp_name ref) _ described in
      let same_name : name' ≡ name = ok-injective (sym named' ∙ named) in
      let (resp, answered, d2) = >>=-eq-ok (kms.get_public_key name') _ d1 in
      let (known, listed, d3) = >>=-eq-ok (or_raise (lookup resp.0 algo_map) _) _ d2 in
      let (bytes, converted, d4) =
        >>=-eq-ok (if str_eq known.0 ed25519 then kms.raw_of_pem resp.1 else kms.spki_of_pem resp.1)
          _ d3 in
      let is_key = ok-injective d4 in
      let asked : later.asymmetric_sign name (sign_request kms known.1 message) ≡ ok sig =
        ap (λ (k : GcpKey). later.asymmetric_sign name (sign_request kms k.digest message)) is_key
        ∙ ap (λ (x : Signer). x.sign message) made
        ∙ signed in
      let row = lookup-All Row resp.0 algo_map (or_raise-eq-ok _ _ listed) algo_map-Row in
      let (small, (verify, has, accepts)) =
        documented_signature kms later honest name resp.1 known resp.0 bytes message sig row
          (ap kms.get_public_key (sym same_name) ∙ answered) converted asked in
      let same_bytes : bytes ≡ public = ok-injective (
        sym (ap (λ o. or_raise o value_error) (from_hex-hex bytes small))
        ∙ ap (λ (k : GcpKey). hex_bytes k.public_hex) is_key
        ∙ read) in
      subst (λ x. Accepts x message sig) made
        (
          verify,
          ap (λ (k : GcpKey). get_scheme shipped k.scheme) (sym is_key) ∙ has,
          ap (λ b. verify b sig message) (sym same_bytes) ∙ accepts,
        )
