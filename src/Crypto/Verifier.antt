-- ===== src/Crypto/Verifier.antt =====
-- src/approvo/crypto/verifier.py: which signatures of an envelope count, and whose decision it is.
pub mod Authority
pub mod Authorized
use approvo.Base.{
  String, str_eq, contains, Bytes, Bool, true, false, ◌&&◌, ◌||◌, not, Option, none, some, List, [],
  ◌∷◌, ◌++◌, lookup, from_hex, any, if◌then◌else◌,
}
use approvo.Result.{Result, ok, err, type_error, attribute_error, ◌>>=◌}
use approvo.Json.{
  Value, str, list, tuple, dict, opaque, Items, nil, cons, Fields, end, field, odd_key, get_field,
}
use approvo.Crypto.Outside.{Outside}
use approvo.Crypto.Keys.{KeyRef, KeyDirectory, get_key, valid_at, scoped_to, public_bytes}
use approvo.Crypto.Envelope.{signable_bytes}

pub record VerifiedSignature : Type 0 where
  pub keyid : String
  pub owner_id : String
  pub key_use : String

abbrev pub verified_as : KeyRef → VerifiedSignature
verified_as key = record { keyid = key.keyid; owner_id = key.owner_id; key_use = key.key_use }

abbrev values_of : Items → List Value
values_of nil = []
values_of (cons v vs) = v ∷ values_of vs

-- An odd key is given as an object without a known type.
abbrev keys_of : Fields → List Value
keys_of end = []
keys_of (field k v fs) = str k ∷ keys_of fs
keys_of (odd_key v fs) = opaque ∷ keys_of fs

abbrev letters_of : String → List Value
letters_of String.[] = []
letters_of (String.◌∷◌ c s) = str (String.◌∷◌ c String.[]) ∷ letters_of s

-- The values that a `for` goes through.
abbrev pub iterate : Value → Result (List Value)
iterate (list vs) = ok (values_of vs)
iterate (tuple vs) = ok (values_of vs)
iterate (dict fs) = ok (keys_of fs)
iterate (str s) = ok (letters_of s)
iterate v = err type_error

-- `envelope.get("signatures", ())`, as the loop goes through it
abbrev pub signatures_of : Fields → Result (List Value)
signatures_of envelope = elim (get_field "signatures" envelope) [
  | none ↦ ok []
  | some v ↦ iterate v
]

-- `key_dir.get(v)`: a list or a dictionary cannot be a key
abbrev pub get_value : KeyDirectory → Value → Result (Option KeyRef)
get_value dir (str s) = ok (get_key dir s)
get_value dir (list vs) = err type_error
get_value dir (dict fs) = err type_error
get_value dir v = ok none

-- `key_dir.get(sig.get("keyid", ""))`
abbrev pub signature_key : KeyDirectory → Fields → Result (Option KeyRef)
signature_key dir sig = elim (get_field "keyid" sig) [
  | none ↦ ok (get_key dir "")
  | some v ↦ get_value dir v
]

abbrev pub as_signature : Value → Result Fields
as_signature (dict fs) = ok fs
as_signature v = err attribute_error

abbrev text_of : Option Value → Option String
text_of (some (str s)) = some s
text_of o = none

-- `for v in ...: if v.owner_id not in result: result.append(v.owner_id)`
unfoldable pub owners_from : List String → List VerifiedSignature → List String
owners_from result [] = result
owners_from result (v ∷ vs) =
    owners_from (if contains result v.owner_id then result else result ++ v.owner_id ∷ []) vs

abbrev pub key_in_scope : KeyDirectory → String → String → Bool
key_in_scope dir log_id keyid = elim (get_key dir keyid) [
  | none ↦ false
  | some key ↦ scoped_to key log_id
]

-- The body of the loop of `decision_authorized`.
unfoldable pub authorizes : String → String → KeyDirectory → Bool → VerifiedSignature → Bool
authorizes approver_id log_id dir known_identity v =
    (str_eq v.key_use "approver" && str_eq v.owner_id approver_id)
    || (str_eq v.key_use "decision_issuer" && known_identity && key_in_scope dir log_id v.keyid)

module _ (outside : Outside) where
  -- The `try` of the loop: true unless one of the caught exceptions is raised.
  unfoldable pub checks_out : KeyRef → Fields → Bytes → Bool
  checks_out key sig signable = elim (lookup key.scheme outside.schemes) [
    | none ↦ false
    | some verify ↦ elim (from_hex key.public) [
      | none ↦ false
      | some raw ↦ elim (text_of (get_field "sig" sig)) [
        | none ↦ false
        | some text ↦ elim (outside.b64decode text) [
          | none ↦ false
          | some signature ↦ verify raw signature signable
        ]
      ]
    ]
  ]

  -- The key of one signature, if the signature counts at the time.
  unfoldable pub signature_counts : KeyDirectory → String → Bytes → Value → Result (Option KeyRef)
  unfolding checks_out
  signature_counts dir at_time signable v = do
    sig ← as_signature v
    found ← signature_key dir sig
    elim found [
      | none ↦ ok none
      | some key ↦ do
        valid ← valid_at outside.parse key at_time
        ok (if valid && checks_out key sig signable then some key else none)
    ]

  -- The loop, from the signatures that are left and the key ids in `seen`.
  unfoldable pub verified_from :
      KeyDirectory → String → Bytes → List String → List Value → Result (List VerifiedSignature)
  unfolding signature_counts
  verified_from dir at_time signable seen [] = ok []
  verified_from dir at_time signable seen (v ∷ vs) = do
    counts ← signature_counts dir at_time signable v
    elim counts [
      | none ↦ verified_from dir at_time signable seen vs
      | some key ↦
          if contains seen key.keyid then verified_from dir at_time signable seen vs else do
            rest ← verified_from dir at_time signable (key.keyid ∷ seen) vs
            ok (verified_as key ∷ rest)
    ]

  unfoldable pub verified_signatures :
      Fields → KeyDirectory → String → Result (List VerifiedSignature)
  unfolding verified_from
  verified_signatures envelope dir at_time = do
    signable ← signable_bytes outside envelope
    sigs ← signatures_of envelope
    verified_from dir at_time signable [] sigs

  unfoldable pub verify_envelope : Fields → KeyDirectory → String → Result (List String)
  unfolding verified_signatures owners_from
  verify_envelope envelope dir at_time = do
    verified ← verified_signatures envelope dir at_time
    ok (owners_from [] verified)

  unfoldable pub decision_authorized :
      Fields → String → String → KeyDirectory → String → Bool → Result Bool
  unfolding verified_signatures authorizes
  decision_authorized envelope approver_id log_id dir at_time known_identity = do
    verified ← verified_signatures envelope dir at_time
    ok (any (authorizes approver_id log_id dir known_identity) verified)
