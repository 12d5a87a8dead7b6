-- ===== src/Providers/VerifiedVault.antt =====
-- Signatures that src/approvo/providers/vault.py has made in Vault, and the registry of schemes that verifies them.
use approvo.Base.{
  String, str_eq, Bytes, ◌≡◌, refl, sym, ap, ◌∙◌, subst, inl, inr, Bool, true, false, if◌then◌else◌,
  Option, none, some, List, [], ◌∷◌, In, All, lookup, lookup-All,
}
use approvo.Result.{ok, or_raise, or_raise-eq-ok, value_error, >>=-eq-ok, ok-injective}
use approvo.Crypto.Outside.{Outside}
use approvo.Crypto.Algorithms.{Verify, ed25519, registry, get_scheme}
use approvo.Crypto.Signers.{Signer, remote_signer}
use approvo.Providers.Vault.{
  Transit, TransitKey, SignArguments, VaultKey, type_map, vault_parts, third_part, vault_describe,
  vault_sign, vault_signer,
}
use approvo.Providers.Verified.{shipped, Accepts}

module _ (ed p256 p384 pss pkcs1 : Verify) where
  -- A type of key in Vault, whether its public key is taken as raw bytes, the hash algorithm to sign with, and what verifies the signatures.
  abbrev KeyType : Type 0
  KeyType = String × (Bool × (Option String × Verify))

  abbrev key_types : List KeyType
  key_types =
      ("ed25519", (true, (none, ed)))
      ∷ ("ecdsa-p256", (false, (some "sha2-256", p256)))
      ∷ ("ecdsa-p384", (false, (some "sha2-384", p384)))
      ∷ ("rsa-2048", (false, (some "sha2-256", pss)))
      ∷ ("rsa-3072", (false, (some "sha2-256", pss)))
      ∷ ("rsa-4096", (false, (some "sha2-256", pss)))
      ∷ []

  -- What Vault documents, as long as the key gets no newer version: the third part of what `sign_data` answers, between colons, is base64
  -- of a signature that verifies with the public key of the latest version. What is written in base64 is read back.
  pub record VaultSignsAsDocumented (outside : Outside) (vault later : Transit) : Type 0 where
    pub signs :
        (arguments : SignArguments) (answer : TransitKey) (pem field : String) (raw : Bool)
        (verify : Verify) (public message : Bytes)
        → In (answer.key_type, (raw, (arguments.hash_algorithm, verify))) key_types
        → vault.read_key arguments.name arguments.mount_point ≡ ok answer
        → lookup answer.latest_version answer.pems ≡ some pem
        → (if raw then vault.raw_of_pem pem else vault.spki_of_pem pem) ≡ ok public
        → later.sign_data arguments (outside.b64encode message) ≡ ok field
        → (sig : Bytes) × (third_part field ≡ ok (outside.b64encode sig))
          × (verify public sig message ≡ true)
    pub decodes : (bs : Bytes) → outside.b64decode (outside.b64encode bs) ≡ some bs

  -- A row of `type_map` is a documented one.
  abbrev Row : String × (String × Option String) → Type 0
  Row (key_type, (scheme, hash_algo)) =
      (raw : Bool) × (verify : Verify) × In (key_type, (raw, (hash_algo, verify))) key_types
      × (str_eq scheme ed25519 ≡ raw)
      × (get_scheme (shipped ed p256 p384 pss pkcs1) scheme ≡ ok verify)

  type_map-Row : All Row type_map
  unfolding type_map registry get_scheme lookup
  type_map-Row = (
    (true, ed, inl refl, refl, refl),
    (
      (false, p256, inr (inl refl), refl, refl),
      (
        (false, p384, inr (inr (inl refl)), refl, refl),
        (
          (false, pss, inr (inr (inr (inl refl))), refl, refl),
          (
            (false, pss, inr (inr (inr (inr (inl refl)))), refl, refl),
            ((false, pss, inr (inr (inr (inr (inr (inl refl))))), refl, refl), tt),
          ),
        ),
      ),
    ),
  )

  -- Let Vault sign as it documents, and let the key have no newer version when the signature is asked for than when the signer was made.
  -- Every signature that a signer of the provider returns is accepted by the verifier that the registry has for the signer's scheme, with
  -- the signer's public key.
  pub vault_signer-Accepts :
      (vault later : Transit) (outside : Outside) (ref : String) (s : Signer) (message sig : Bytes)
      → VaultSignsAsDocumented outside vault later
      → vault_signer vault later outside ref ≡ ok s
      → s.sign message ≡ ok sig
      → Accepts ed p256 p384 pss pkcs1 s message sig
  unfolding vault_signer vault_describe vault_sign remote_signer
  vault_signer-Accepts vault later outside ref s message sig honest h signed =
      let (parts, named, h1) = >>=-eq-ok (vault_parts ref) _ h in
      let (key, described, h2) = >>=-eq-ok (vault_describe vault ref) _ h1 in
      let made = ok-injective h2 in
      let (parts', named', d1) = >>=-eq-ok (vault_parts ref) _ described in
      let same_parts : parts' ≡ parts = ok-injective (sym named' ∙ named) in
      let (answer, answered, d2) = >>=-eq-ok (vault.read_key parts'.1 parts'.0) _ d1 in
      let (known, listed, d3) = >>=-eq-ok (or_raise (lookup answer.key_type type_map) _) _ d2 in
      let (pem, latest, d4) =
        >>=-eq-ok (or_raise (lookup answer.latest_version answer.pems) _) _ d3 in
      let (public, converted, d5) =
        >>=-eq-ok (if str_eq known.0 ed25519 then vault.raw_of_pem pem else vault.spki_of_pem pem) _
          d4 in
      let is_key = ok-injective d5 in
      let (raw, verify, offered, is_raw, has) =
        lookup-All Row answer.key_type type_map (or_raise-eq-ok _ _ listed) type_map-Row in
      let arguments : SignArguments = record {
        name = parts.1;
        mount_point = parts.0;
        hash_algorithm = known.1;
      } in
      let asked : vault_sign later outside parts.0 parts.1 known.1 message ≡ ok sig =
        ap (λ (k : VaultKey). vault_sign later outside parts.0 parts.1 k.hash_algo message) is_key
        ∙ ap (λ (x : Signer). x.sign message) made
        ∙ signed in
      let (field, given, s1) =
        >>=-eq-ok (later.sign_data arguments (outside.b64encode message)) _ asked in
      let (encoded, third, s2) = >>=-eq-ok (third_part field) _ s1 in
      let (found, written, accepts) =
        honest.signs arguments answer pem field raw verify public message offered
          (ap (λ (p : String × String). vault.read_key p.1 p.0) (sym same_parts) ∙ answered)
          (or_raise-eq-ok _ _ latest)
          (ap (λ b. if b then vault.raw_of_pem pem else vault.spki_of_pem pem) (sym is_raw)
            ∙ converted)
          given in
      let same_sig : found ≡ sig = ok-injective (
        sym (ap (λ o. or_raise o value_error) (honest.decodes found))
        ∙ ap (λ t. or_raise (outside.b64decode t) value_error) (ok-injective (sym written ∙ third))
        ∙ s2) in
      subst (λ x. Accepts ed p256 p384 pss pkcs1 x message sig) made
        (
          verify,
          ap (λ (k : VaultKey). get_scheme (shipped ed p256 p384 pss pkcs1) k.scheme) (sym is_key)
              ∙ has,
          ap (λ (k : VaultKey). verify k.public sig message) (sym is_key)
              ∙ ap (λ b. verify public b message) (sym same_sig)
              ∙ accepts,
        )
