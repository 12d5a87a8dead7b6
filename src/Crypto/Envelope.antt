-- ===== src/Crypto/Envelope.antt =====
-- DSSE envelopes: src/approvo/crypto/envelope.py. An envelope is a dictionary that came as JSON.
pub mod Pae
use approvo.Base.{String, codes, Bytes, utf8, Option, none, some, List, [], ◌∷◌, ◌++◌, length}
use approvo.Result.{Result, ok, or_raise, key_error, value_error, ◌>>=◌}
use approvo.Json.{Value, str, dict, Fields, fields}
use approvo.Json.Read.{required, as_text, dict_list}
use approvo.Json.Canonical.{decimal, canonical_bytes}
use approvo.Crypto.Outside.{Outside}

-- `b"DSSEv1 "`
abbrev pub dsse_prefix : Bytes
dsse_prefix = 0x44 ∷ 0x53 ∷ 0x53 ∷ 0x45 ∷ 0x76 ∷ 0x31 ∷ 0x20 ∷ []

-- The five parts joined by spaces. The length of the type is counted in characters, as `len(payload_type)` does.
unfoldable pub pae : String → Bytes → Bytes
pae payload_type payload =
    dsse_prefix
    ++ (decimal (length (codes payload_type))
        ++ (0x20 ∷ (utf8 payload_type ++ (0x20 ∷ (decimal (length payload) ++ (0x20 ∷ payload))))))

module _ (outside : Outside) where
  -- `_b64d` of a field
  unfoldable pub decode : String → Result Bytes
  decode s = or_raise (outside.b64decode s) value_error

  -- One signature: the key id of a signer and what it signs the bytes with, which does not fail here.
  unfoldable pub signature_entry : Bytes → String × (Bytes → Bytes) → Fields
  signature_entry signable (keyid, sign) =
      fields (("keyid", str keyid) ∷ ("sig", str (outside.b64encode (sign signable))) ∷ [])

  unfoldable pub signature_entries : Bytes → List (String × (Bytes → Bytes)) → List Fields
  unfolding signature_entry
  signature_entries signable [] = []
  signature_entries signable (s ∷ signers) =
      signature_entry signable s ∷ signature_entries signable signers

  -- `wrap`, and `wrap_async` for signers that do not fail
  unfoldable pub wrap : Value → String → List (String × (Bytes → Bytes)) → Result Fields
  unfolding signature_entries pae
  wrap payload payload_type signers = do
    body ← canonical_bytes payload
    ok (
        fields (
          ("payloadType", str payload_type)
          ∷ ("payload", str (outside.b64encode body))
          ∷ ("signatures", dict_list (signature_entries (pae payload_type body) signers))
          ∷ []))

  unfoldable pub unwrap_payload : Fields → Result Value
  unfolding decode
  unwrap_payload envelope = do
    text ← required as_text "payload" envelope
    body ← decode text
    or_raise (outside.loads body) value_error

  unfoldable pub signable_bytes : Fields → Result Bytes
  unfolding decode pae
  signable_bytes envelope = do
    payload_type ← required as_text "payloadType" envelope
    text ← required as_text "payload" envelope
    body ← decode text
    ok (pae payload_type body)
