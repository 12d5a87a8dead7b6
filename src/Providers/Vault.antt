-- ===== src/Providers/Vault.antt =====
-- src/approvo/providers/vault.py.
use approvo.Base.{
  ℕ, String, str_eq, is_empty, Bytes, partition, Option, none, some, [], ◌∷◌, Dict, lookup,
  if◌then◌else◌,
}
use approvo.Result.{
  Result, ok, err, or_raise, key_provider_error, key_error, index_error, value_error,
  not_implemented, ◌>>=◌,
}
use approvo.Crypto.Outside.{Outside}
use approvo.Crypto.Algorithms.{ed25519, ecdsa_p256_sha256, ecdsa_p384_sha384, rsa_pss_sha256}
use approvo.Crypto.Signers.{PublicKeyMaterial, Signer, remote_signer}
use approvo.Crypto.KeyRefs.{parse_key_ref}
use approvo.Crypto.KeyProvider.{KeyProvider, base_self_test}

-- What `read_key` answers: the type, the latest version as `str` writes it, and the PEM under each version.
pub record TransitKey : Type 0 where
  pub key_type : String
  pub latest_version : String
  pub pems : Dict String

-- The arguments of `sign_data` beside the message: the hash algorithm, where one is given, with `prehashed=False`.
pub record SignArguments : Type 0 where
  pub name : String
  pub mount_point : String
  pub hash_algorithm : Option String

-- A client of Vault's transit engine; the message comes in base64, and the signature as "vault:v1:<base64>".
pub record Transit : Type 0 where
  pub read_key : String → String → Result TransitKey
  pub sign_data : SignArguments → String → Result String
  pub spki_of_pem : String → Result Bytes
  pub raw_of_pem : String → Result Bytes

-- `_TYPE_MAP`: scheme, and the hash algorithm or none
unfoldable pub type_map : Dict (String × Option String)
type_map =
    ("ed25519", (ed25519, none))
    ∷ ("ecdsa-p256", (ecdsa_p256_sha256, some "sha2-256"))
    ∷ ("ecdsa-p384", (ecdsa_p384_sha384, some "sha2-384"))
    ∷ ("rsa-2048", (rsa_pss_sha256, some "sha2-256"))
    ∷ ("rsa-3072", (rsa_pss_sha256, some "sha2-256"))
    ∷ ("rsa-4096", (rsa_pss_sha256, some "sha2-256"))
    ∷ []

pub record VaultKey : Type 0 where
  pub scheme : String
  pub hash_algo : Option String
  pub public : Bytes

-- A mount and a name, split at the first slash; without a slash the name is empty.
abbrev mount_and_name : Option (String × String) → Result (String × String)
mount_and_name none = err key_provider_error
mount_and_name (some (mount, name)) =
    if is_empty name then err key_provider_error else ok (mount, name)

-- `_parts`
unfoldable pub vault_parts : String → Result (String × String)
vault_parts key_ref = do parsed ← parse_key_ref key_ref; mount_and_name (partition "/" parsed.1)

-- `field.split(":", 2)[2]`
unfoldable pub third_part : String → Result String
third_part field = do
  first ← or_raise (partition ":" field) index_error
  second ← or_raise (partition ":" first.1) index_error
  ok second.1

-- `_raw_sign` of `get_signer`, for the service as it is by then.
unfoldable pub vault_sign :
    Transit → Outside → String → String → Option String → Bytes → Result Bytes
unfolding third_part
vault_sign later outside mount name hash_algo message = do
  field ←
      later.sign_data (record { name = name; mount_point = mount; hash_algorithm = hash_algo })
        (outside.b64encode message)
  encoded ← third_part field
  or_raise (outside.b64decode encoded) value_error

-- `vault` is the service as the call finds it, and `later` as a signer finds it when it is asked to sign: a key can have a newer version
-- by then.
module _ (vault : Transit) where
  unfoldable pub vault_describe : String → Result VaultKey
  vault_describe key_ref = do
    parts ← vault_parts key_ref
    answer ← vault.read_key parts.1 parts.0
    known ← or_raise (lookup answer.key_type type_map) key_provider_error
    pem ← or_raise (lookup answer.latest_version answer.pems) key_error
    public ← if str_eq known.0 ed25519 then vault.raw_of_pem pem else vault.spki_of_pem pem
    ok (record { scheme = known.0; hash_algo = known.1; public = public })

  unfoldable pub vault_public_key : String → Result PublicKeyMaterial
  vault_public_key key_ref = do
    key ← vault_describe key_ref
    ok (record { scheme = key.scheme; public = key.public })

  unfoldable pub vault_signer : Transit → Outside → String → Result Signer
  vault_signer later outside key_ref = do
    parts ← vault_parts key_ref
    key ← vault_describe key_ref
    ok (
        remote_signer outside.sha256 key.scheme key.public
          (vault_sign later outside parts.0 parts.1 key.hash_algo))

  unfoldable pub vault_provider : Transit → Outside → Bytes → ℕ → KeyProvider
  vault_provider later outside random identity = record {
    identity = identity;
    schemes = "vault" ∷ [];
    get_signer = vault_signer later outside;
    get_public_key = vault_public_key;
    list_keys = err not_implemented;
    self_test = base_self_test outside random (vault_signer later outside);
  }
