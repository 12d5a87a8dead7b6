-- ===== src/Crypto/KeyProvider.antt =====
-- src/approvo/crypto/keyprovider.py: the protocol of providers and the local ones.
pub mod Composite
pub mod Consistent
pub mod Ensure
use approvo.Base.{
  ℕ, String, append_text, str_eq, codes, is_empty, Bytes, hex, from_hex_codes, trim, starts_with,
  Bool, true, false, Option, none, some, List, [], ◌∷◌, map, Dict, lookup, insert, if◌then◌else◌,
}
use approvo.Result.{
  Error, Result, ok, err, or_raise, key_provider_error, value_error, os_error, not_implemented,
  ◌>>=◌,
}
use approvo.Crypto.Outside.{Outside}
use approvo.Crypto.Signers.{
  PublicKeyMaterial, Signer, Ed25519, Ed25519Signer, sign_with, from_private_bytes, ed25519_signer,
}
use approvo.Crypto.KeyRefs.{parse_key_ref}

pub record KeyDescriptor : Type 0 where
  pub key_ref : String
  pub public : PublicKeyMaterial
  pub label : Option String

-- The protocol, with the number of the object: Python tells providers apart by their identity.
pub record KeyProvider : Type 0 where
  pub identity : ℕ
  pub schemes : List String
  pub get_signer : String → Result Signer
  pub get_public_key : String → Result PublicKeyMaterial
  pub list_keys : Result (List KeyDescriptor)
  pub self_test : String → Result (Unit {0})

abbrev passes_or_fails : Bool → Result (Unit {0})
passes_or_fails true = ok tt
passes_or_fails false = err key_provider_error

-- The `try` of `self_test`: every exception becomes a `KeyProviderError`.
abbrev pub check_nonce : Outside → PublicKeyMaterial → Bytes → Bytes → Result (Unit {0})
check_nonce outside pub_key nonce sig = elim (lookup pub_key.scheme outside.schemes) [
  | none ↦ err key_provider_error
  | some verify ↦ passes_or_fails (verify pub_key.public sig nonce)
]

unfoldable pub base_self_test :
    Outside → Bytes → (String → Result Signer) → String → Result (Unit {0})
base_self_test outside random get_signer key_ref = do
  signer ← get_signer key_ref
  signed ← sign_with signer random
  check_nonce outside signer.public_material random signed.0

-- `(await self.get_signer(key_ref)).public_material()`
abbrev pub public_of_signer : (String → Result Signer) → String → Result PublicKeyMaterial
public_of_signer get_signer key_ref = do signer ← get_signer key_ref; ok signer.public_material

-- Where a key file lies: at an absolute path, or under the provider's root.
pub data Place : Type 0 where
  absolute under_root : String → Place

abbrev pub same_place : Place → Place → Bool
same_place (absolute p) (absolute q) = str_eq p q
same_place (under_root p) (under_root q) = str_eq p q
same_place p q = false

-- The files that exist, and what reading one gives or raises.
abbrev pub Files : Type 0
Files = Place → Option (Result String)

-- `_path`
unfoldable pub place_of : Bool → String → Result Place
place_of has_root key_ref = do
  parsed ← parse_key_ref key_ref
  if starts_with "/" parsed.1
      then ok (absolute parsed.1)
      else if has_root
      then ok (under_root (append_text parsed.1 ".key"))
      else err key_provider_error

-- `bytes.fromhex(text.strip())`
abbrev pub hex_seed : String → Result Bytes
hex_seed text = or_raise (from_hex_codes (trim (codes text))) value_error

-- `except (ValueError, OSError) as e: raise KeyProviderError`
abbrev pub load_failure : Error → Error
load_failure value_error = key_provider_error
load_failure os_error = key_provider_error
load_failure e = e

abbrev pub loaded : Result Ed25519Signer → Result Ed25519Signer
loaded (ok s) = ok s
loaded (err e) = err (load_failure e)

-- `InMemoryKeyProvider._get`
unfoldable pub memory_get : Dict Ed25519Signer → String → Result Ed25519Signer
memory_get keys key_ref = do
  parsed ← parse_key_ref key_ref
  or_raise (lookup parsed.1 keys) key_provider_error

abbrev non_empty : Option String → Result String
non_empty none = err key_provider_error
non_empty (some raw) = if is_empty raw then err key_provider_error else ok raw

-- `EnvKeyProvider._seed`
unfoldable pub env_seed : Dict String → String → Result Bytes
env_seed environ key_ref = do
  parsed ← parse_key_ref key_ref
  raw ← non_empty (lookup parsed.1 environ)
  or_raise (from_hex_codes (trim (codes raw))) key_provider_error

-- `Ed25519Signer.from_file`, of a file that exists
unfoldable pub from_file : Ed25519 → Result String → Result Ed25519Signer
from_file ed content = do text ← content; seed ← hex_seed text; from_private_bytes ed seed

module _ (outside : Outside) (ed : Ed25519) where
  abbrev as_signer : Ed25519Signer → Signer
  as_signer s = ed25519_signer outside.sha256 ed s

  abbrev pub memory_signer : Dict Ed25519Signer → String → Result Signer
  memory_signer keys key_ref = do s ← memory_get keys key_ref; ok (as_signer s)

  abbrev memory_descriptor : String × Ed25519Signer → KeyDescriptor
  memory_descriptor (name, s) = record {
    key_ref = append_text "memory://" name;
    public = (as_signer s).public_material;
    label = some name;
  }

  -- `LocalFileKeyProvider.get_signer`
  unfoldable pub file_signer : Bool → Files → String → Result Signer
  file_signer has_root files key_ref = do
    place ← place_of has_root key_ref
    content ← or_raise (files place) key_provider_error
    s ← loaded (from_file ed content)
    ok (as_signer s)

  -- `EnvKeyProvider.get_signer`
  unfoldable pub env_signer : Dict String → String → Result Signer
  env_signer environ key_ref = do
    seed ← env_seed environ key_ref
    s ← from_private_bytes ed seed
    ok (as_signer s)

  module _ (random : Bytes) (identity : ℕ) where
    unfoldable pub in_memory_provider : Dict Ed25519Signer → KeyProvider
    in_memory_provider keys = record {
      identity = identity;
      schemes = "memory" ∷ [];
      get_signer = memory_signer keys;
      get_public_key = public_of_signer (memory_signer keys);
      list_keys = ok (map memory_descriptor keys);
      self_test = base_self_test outside random (memory_signer keys);
    }

    unfoldable pub file_provider : Bool → Files → KeyProvider
    file_provider has_root files = record {
      identity = identity;
      schemes = "file" ∷ [];
      get_signer = file_signer has_root files;
      get_public_key = public_of_signer (file_signer has_root files);
      list_keys = err not_implemented;
      self_test = base_self_test outside random (file_signer has_root files);
    }

    unfoldable pub env_provider : Dict String → KeyProvider
    env_provider environ = record {
      identity = identity;
      schemes = "env" ∷ [];
      get_signer = env_signer environ;
      get_public_key = public_of_signer (env_signer environ);
      list_keys = err not_implemented;
      self_test = base_self_test outside random (env_signer environ);
    }

-- `add`, and `generate` with a key that was made before; the reference of the key comes with the provider's keys.
unfoldable pub add_signer :
    String → Ed25519Signer → Dict Ed25519Signer → Dict Ed25519Signer × String
add_signer name s keys = (insert name s keys, append_text "memory://" name)

-- `Ed25519Signer.save`
abbrev pub save : Bytes → Place → Files → Files
save seed place files p = if same_place p place then some (ok (hex seed)) else files p

-- `ensure`, with the seed that `generate` would draw
unfoldable pub ensure : Bool → Bytes → String → Files → Result Files
ensure has_root fresh key_ref files = do
  place ← place_of has_root key_ref
  ok (elim (files place) [ none ↦ save fresh place files | some content ↦ files ])
