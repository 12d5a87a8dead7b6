-- ===== src/Crypto/Algorithms.antt =====
-- The registry of signature schemes: src/approvo/crypto/algorithms.py. A scheme's callables are those of `cryptography`, of which the
-- model keeps `verify`.
use approvo.Base.{
  String, Bytes, Bool, Option, none, some, List, [], ◌∷◌, map, Dict, key, lookup, insert,
}
use approvo.Result.{Result, or_raise, unsupported_algorithm}
use approvo.Policy.Engine.{sorted_names}

abbrev pub ed25519 : String
ed25519 = "ed25519"

abbrev pub ecdsa_p256_sha256 : String
ecdsa_p256_sha256 = "ecdsa-p256-sha256"

abbrev pub ecdsa_p384_sha384 : String
ecdsa_p384_sha384 = "ecdsa-p384-sha384"

abbrev pub rsa_pss_sha256 : String
rsa_pss_sha256 = "rsa-pss-sha256"

abbrev pub rsa_pkcs1_sha256 : String
rsa_pkcs1_sha256 = "rsa-pkcs1-sha256"

-- Public bytes, signature, message: false where `verify` raises `InvalidSignature` or a `ValueError`.
abbrev pub Verify : Type 0
Verify = Bytes → Bytes → Bytes → Bool

pub record Scheme : Type 0 where
  pub name : String
  pub verify : Verify

abbrev pub Registry : Type 0
Registry = Dict Verify

-- `_REGISTRY` as it stands at first, with the verifiers of the five schemes.
unfoldable pub registry : Verify → Verify → Verify → Verify → Verify → Registry
registry ed p256 p384 pss pkcs1 =
    (ed25519, ed)
    ∷ (ecdsa_p256_sha256, p256)
    ∷ (ecdsa_p384_sha384, p384)
    ∷ (rsa_pss_sha256, pss)
    ∷ (rsa_pkcs1_sha256, pkcs1)
    ∷ []

unfoldable pub get_scheme : Registry → String → Result Verify
get_scheme schemes name = or_raise (lookup name schemes) unsupported_algorithm

unfoldable pub register_scheme : Scheme → Registry → Registry
register_scheme scheme schemes = insert scheme.name scheme.verify schemes

unfoldable pub known_schemes : Registry → List String
known_schemes schemes = sorted_names (map key schemes)

-- The kinds of public keys that `scheme_for_public_key` tells apart; of a curve it asks the name.
pub data PublicKeyKind : Type 0 where
  ed25519_key rsa_key other_key : PublicKeyKind
  curve_key : String → PublicKeyKind

abbrev curves : Dict String
curves = ("secp256r1", ecdsa_p256_sha256) ∷ ("secp384r1", ecdsa_p384_sha384) ∷ []

abbrev or_unknown : Option String → String
or_unknown none = ""
or_unknown (some name) = name

unfoldable pub scheme_for_public_key : PublicKeyKind → String
scheme_for_public_key ed25519_key = ed25519
scheme_for_public_key (curve_key name) = or_unknown (lookup name curves)
scheme_for_public_key rsa_key = rsa_pss_sha256
scheme_for_public_key other_key = ""
