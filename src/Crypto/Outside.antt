-- ===== src/Crypto/Outside.antt =====
-- What src/approvo/crypto calls of other libraries, as one parameter: `datetime.fromisoformat`, base64,
-- `json.loads`, and the signature schemes of `cryptography` under their names, as crypto/algorithms.py registers them.
use approvo.Base.{String, Bytes, Bool, Option, Dict}
use approvo.Json.{Value}
use approvo.Clock.{Datetime}

pub record Outside : Type 0 where
  pub sha256 : Bytes → Bytes
  pub parse : String → Option Datetime
  pub b64encode : Bytes → String
  -- none where `standard_b64decode` raises `binascii.Error`, a `ValueError`
  pub b64decode : String → Option Bytes
  -- none where `json.loads` raises a `ValueError`
  pub loads : Bytes → Option Value
  -- public bytes, signature, message: false where `verify` raises `InvalidSignature` or a `ValueError`
  pub schemes : Dict (Bytes → Bytes → Bytes → Bool)
