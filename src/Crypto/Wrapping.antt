-- ===== src/Crypto/Wrapping.antt =====
-- `wrap_async` of src/approvo/crypto/envelope.py: envelopes by signers that may fail.
use approvo.Base.{String, Bytes, List, [], ◌∷◌}
use approvo.Result.{Result, ok, ◌>>=◌}
use approvo.Json.{Value, str, Fields, fields}
use approvo.Json.Read.{dict_list}
use approvo.Json.Canonical.{canonical_bytes}
use approvo.Crypto.Outside.{Outside}
use approvo.Crypto.Envelope.{pae}
use approvo.Crypto.Signers.{Signer, sign_with}

module _ (outside : Outside) where
  abbrev pub signature_of : Bytes × String → Fields
  signature_of (sig, keyid) =
      fields (("keyid", str keyid) ∷ ("sig", str (outside.b64encode sig)) ∷ [])

  -- The loop over the signers.
  unfoldable pub sign_all : Bytes → List Signer → Result (List Fields)
  sign_all signable [] = ok []
  sign_all signable (s ∷ signers) = do
    signed ← sign_with s signable
    rest ← sign_all signable signers
    ok (signature_of signed ∷ rest)

  unfoldable pub wrap_async : Value → String → List Signer → Result Fields
  unfolding sign_all pae
  wrap_async payload payload_type signers = do
    body ← canonical_bytes payload
    signatures ← sign_all (pae payload_type body) signers
    ok (
        fields (
          ("payloadType", str payload_type)
          ∷ ("payload", str (outside.b64encode body))
          ∷ ("signatures", dict_list signatures)
          ∷ []))
