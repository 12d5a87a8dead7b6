-- ===== src/Providers/Gcp.antt =====
-- src/approvo/providers/gcpkms.py.
use approvo.Base.{
  ℕ, String, str_eq, Bytes, hex, from_hex, starts_with, Option, none, some, [], ◌∷◌, Dict, lookup,
  if◌then◌else◌,
}
use approvo.Result.{
  Result, ok, err, or_raise, key_provider_error, value_error, not_implemented, ◌>>=◌,
}
use approvo.Crypto.Outside.{Outside}
use approvo.Crypto.Algorithms.{
  ed25519, ecdsa_p256_sha256, ecdsa_p384_sha384, rsa_pss_sha256, rsa_pkcs1_sha256,
}
use approvo.Crypto.Signers.{PublicKeyMaterial, Signer, remote_signer}
use approvo.Crypto.KeyRefs.{parse_key_ref}
use approvo.Crypto.KeyProvider.{KeyProvider, base_self_test}

-- What is to be signed, as the client is asked: the message, or a digest under its name.
pub data SignRequest : Type 0 where
  whole : Bytes → SignRequest
  digested : String → Bytes → SignRequest

-- A client of Cloud KMS: the name of the algorithm and the PEM of a key, and a signature by a key. `spki_of_pem` and `raw_of_pem` are
-- what `cryptography` makes of a PEM; `digest_of` is `hashlib.new(name, data).digest()`.
pub record GcpKms : Type 0 where
  pub get_public_key : String → Result (String × String)
  pub asymmetric_sign : String → SignRequest → Result Bytes
  pub spki_of_pem : String → Result Bytes
  pub raw_of_pem : String → Result Bytes
  pub digest_of : String → Bytes → Bytes

-- `_ALGO_MAP`: scheme, and the name of the digest or none
unfoldable pub algo_map : Dict (String × Option String)
algo_map =
    ("EC_SIGN_P256_SHA256", (ecdsa_p256_sha256, some "sha256"))
    ∷ ("EC_SIGN_P384_SHA384", (ecdsa_p384_sha384, some "sha384"))
    ∷ ("EC_SIGN_ED25519", (ed25519, none))
    ∷ ("RSA_SIGN_PSS_2048_SHA256", (rsa_pss_sha256, some "sha256"))
    ∷ ("RSA_SIGN_PSS_3072_SHA256", (rsa_pss_sha256, some "sha256"))
    ∷ ("RSA_SIGN_PSS_4096_SHA256", (rsa_pss_sha256, some "sha256"))
    ∷ ("RSA_SIGN_PKCS1_2048_SHA256", (rsa_pkcs1_sha256, some "sha256"))
    ∷ ("RSA_SIGN_PKCS1_3072_SHA256", (rsa_pkcs1_sha256, some "sha256"))
    ∷ ("RSA_SIGN_PKCS1_4096_SHA256", (rsa_pkcs1_sha256, some "sha256"))
    ∷ []

pub record GcpKey : Type 0 where
  pub scheme : String
  pub digest : Option String
  pub public_hex : String

-- `_name`
unfoldable pub gcp_name : String → Result String
gcp_name key_ref = do
  parsed ← parse_key_ref key_ref
  if starts_with "projects/" parsed.1 then ok parsed.1 else err key_provider_error

abbrev pub hex_bytes : String → Result Bytes
hex_bytes public_hex = or_raise (from_hex public_hex) value_error

-- `kms` is the service as the call finds it, and `later` as a signer finds it when it is asked to sign.
module _ (kms : GcpKms) where
  unfoldable pub gcp_describe : String → Result GcpKey
  gcp_describe key_ref = do
    name ← gcp_name key_ref
    resp ← kms.get_public_key name
    known ← or_raise (lookup resp.0 algo_map) key_provider_error
    public ← if str_eq known.0 ed25519 then kms.raw_of_pem resp.1 else kms.spki_of_pem resp.1
    ok (record { scheme = known.0; digest = known.1; public_hex = hex public })

  unfoldable pub gcp_public_key : String → Result PublicKeyMaterial
  gcp_public_key key_ref = do
    key ← gcp_describe key_ref
    public ← hex_bytes key.public_hex
    ok (record { scheme = key.scheme; public = public })

  abbrev pub sign_request : Option String → Bytes → SignRequest
  sign_request none message = whole message
  sign_request (some digest) message = digested digest (kms.digest_of digest message)

  unfoldable pub gcp_signer : GcpKms → Outside → String → Result Signer
  gcp_signer later outside key_ref = do
    name ← gcp_name key_ref
    key ← gcp_describe key_ref
    public ← hex_bytes key.public_hex
    ok (
        remote_signer outside.sha256 key.scheme public
          (λ message. later.asymmetric_sign name (sign_request key.digest message)))

  unfoldable pub gcp_provider : GcpKms → Outside → Bytes → ℕ → KeyProvider
  gcp_provider later outside random identity = record {
    identity = identity;
    schemes = "gcpkms" ∷ [];
    get_signer = gcp_signer later outside;
    get_public_key = gcp_public_key;
    list_keys = err not_implemented;
    self_test = base_self_test outside random (gcp_signer later outside);
  }
