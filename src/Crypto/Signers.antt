-- ===== src/Crypto/Signers.antt =====
-- src/approvo/crypto/signer.py, and `RemoteSigner` of src/approvo/providers/_common.py. What `cryptography` does with an Ed25519 seed
-- is a parameter; a seed of another length than 32 is refused there.
use approvo.Base.{String, Bytes, hex, Option, none, List}
use approvo.Result.{Result, ok, or_raise, value_error, ◌>>=◌}
use approvo.Crypto.Keys.{KeyRef}
use approvo.Crypto.Algorithms.{ed25519}

pub record PublicKeyMaterial : Type 0 where
  pub scheme : String
  pub public : Bytes

-- The protocol. Signing may fail, as a network call may.
pub record Signer : Type 0 where
  pub algorithm : String
  pub key_id : String
  pub sign : Bytes → Result Bytes
  pub public_material : PublicKeyMaterial

-- `(signature, keyid)`
unfoldable pub sign_with : Signer → Bytes → Result (Bytes × String)
sign_with signer data' = do sig ← signer.sign data'; ok (sig, signer.key_id)

-- `Ed25519PrivateKey.from_private_bytes`, its public bytes, and `sign`
pub record Ed25519 : Type 0 where
  pub public_of : Bytes → Option Bytes
  pub sign : Bytes → Bytes → Bytes

pub record Ed25519Signer : Type 0 where
  pub seed : Bytes
  pub public : Bytes

unfoldable pub from_private_bytes : Ed25519 → Bytes → Result Ed25519Signer
from_private_bytes ed seed = do
  public ← or_raise (ed.public_of seed) value_error
  ok (record { seed = seed; public = public })

module _ (sha256 : Bytes → Bytes) where
  unfoldable pub keyid_for : Bytes → String
  keyid_for public_raw = hex (sha256 public_raw)

  -- `PublicKeyMaterial.keyid`
  abbrev pub material_keyid : PublicKeyMaterial → String
  material_keyid m = keyid_for m.public

  unfoldable pub to_key_ref :
      PublicKeyMaterial → String → String → Option String → String → Option (List String) → KeyRef
  to_key_ref m owner_id not_before not_after key_use log_ids = record {
    keyid = material_keyid m;
    scheme = m.scheme;
    public = hex m.public;
    owner_id = owner_id;
    not_before = not_before;
    not_after = not_after;
    revoked_at = none;
    key_use = key_use;
    log_ids = log_ids;
  }

  unfoldable pub public_key_ref :
      Signer → String → String → Option String → String → Option (List String) → KeyRef
  public_key_ref signer owner_id not_before not_after key_use log_ids =
      to_key_ref signer.public_material owner_id not_before not_after key_use log_ids

  -- An `Ed25519Signer` as a `Signer`.
  unfoldable pub ed25519_signer : Ed25519 → Ed25519Signer → Signer
  ed25519_signer ed s = record {
    algorithm = ed25519;
    key_id = keyid_for s.public;
    sign = λ data'. ok (ed.sign s.seed data');
    public_material = record { scheme = ed25519; public = s.public };
  }

  unfoldable pub remote_signer : String → Bytes → (Bytes → Result Bytes) → Signer
  remote_signer scheme public raw_sign = record {
    algorithm = scheme;
    key_id = keyid_for public;
    sign = raw_sign;
    public_material = record { scheme = scheme; public = public };
  }
