-- ===== src/Providers/Aws.antt =====
-- src/approvo/providers/awskms.py.
use approvo.Base.{ℕ, String, is_empty, Bytes, [], ◌∷◌, Dict, lookup, if◌then◌else◌}
use approvo.Result.{Result, ok, err, or_raise, key_provider_error, not_implemented, ◌>>=◌}
use approvo.Crypto.Outside.{Outside}
use approvo.Crypto.Algorithms.{ecdsa_p256_sha256, ecdsa_p384_sha384, rsa_pss_sha256}
use approvo.Crypto.Signers.{PublicKeyMaterial, Signer, remote_signer}
use approvo.Crypto.KeyRefs.{parse_key_ref}
use approvo.Crypto.KeyProvider.{KeyProvider, base_self_test}

-- A client of AWS KMS: `KeySpec` and `PublicKey` of a key id, and a signature of a message by a key id with a signing algorithm.
pub record AwsKms : Type 0 where
  pub get_public_key : String → Result (String × Bytes)
  pub sign : String → Bytes → String → Result Bytes

-- `_KEYSPEC_MAP`: scheme and signing algorithm
unfoldable pub keyspec_map : Dict (String × String)
keyspec_map =
    ("ECC_NIST_P256", (ecdsa_p256_sha256, "ECDSA_SHA_256"))
    ∷ ("ECC_NIST_P384", (ecdsa_p384_sha384, "ECDSA_SHA_384"))
    ∷ ("RSA_2048", (rsa_pss_sha256, "RSASSA_PSS_SHA_256"))
    ∷ ("RSA_3072", (rsa_pss_sha256, "RSASSA_PSS_SHA_256"))
    ∷ ("RSA_4096", (rsa_pss_sha256, "RSASSA_PSS_SHA_256"))
    ∷ []

pub record AwsKey : Type 0 where
  pub scheme : String
  pub signing_algo : String
  pub spki : Bytes

-- `_key_id`
unfoldable pub aws_key_id : String → Result String
aws_key_id key_ref = do
  parsed ← parse_key_ref key_ref
  if is_empty parsed.1 then err key_provider_error else ok parsed.1

-- `kms` is the service as the call finds it, and `later` as a signer finds it when it is asked to sign.
module _ (kms : AwsKms) where
  unfoldable pub aws_describe : String → Result AwsKey
  aws_describe key_ref = do
    key_id ← aws_key_id key_ref
    resp ← kms.get_public_key key_id
    known ← or_raise (lookup resp.0 keyspec_map) key_provider_error
    ok (record { scheme = known.0; signing_algo = known.1; spki = resp.1 })

  unfoldable pub aws_public_key : String → Result PublicKeyMaterial
  aws_public_key key_ref = do
    key ← aws_describe key_ref
    ok (record { scheme = key.scheme; public = key.spki })

  unfoldable pub aws_signer : AwsKms → Outside → String → Result Signer
  aws_signer later outside key_ref = do
    key ← aws_describe key_ref
    key_id ← aws_key_id key_ref
    ok (
        remote_signer outside.sha256 key.scheme key.spki
          (λ message. later.sign key_id message key.signing_algo))

  unfoldable pub aws_provider : AwsKms → Outside → Bytes → ℕ → KeyProvider
  aws_provider later outside random identity = record {
    identity = identity;
    schemes = "awskms" ∷ [];
    get_signer = aws_signer later outside;
    get_public_key = aws_public_key;
    list_keys = err not_implemented;
    self_test = base_self_test outside random (aws_signer later outside);
  }
