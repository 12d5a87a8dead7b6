-- ===== src/Checkpoint.antt =====
-- src/approvo/checkpoint.py: signed tree heads.
pub mod Consistency
pub mod Signatures
use approvo.Base.{
  ℕ, String, str_eq, Bytes, Bool, true, false, ◌&&◌, not, Option, none, some, List, [], ◌∷◌, ◌++◌,
  length, take, ltb, if◌then◌else◌,
}
use approvo.Result.{Result, ok, err, checkpoint_unverified, consistency_failure, ◌>>=◌}
use approvo.Json.{Value, str, dict, Fields, fields, put_field}
use approvo.Json.Read.{dict_list}
use approvo.Json.Canonical.{canonical_bytes}
use approvo.Merkle.{merkle_root}
use approvo.Models.Checkpoint.{Checkpoint, checkpoint_schema, signed_dict, signed_pairs, from_dict}
use approvo.Crypto.Outside.{Outside}
use approvo.Crypto.Keys.{KeyRef, KeyDirectory, valid_at, scoped_to}
use approvo.Crypto.Verifier.{signature_key, checks_out}

-- `b"approvo/checkpoint/v1\n"`
abbrev sig_context : Bytes
sig_context =
    0x61 ∷ 0x70 ∷ 0x70 ∷ 0x72 ∷ 0x6f ∷ 0x76 ∷ 0x6f ∷ 0x2f ∷ 0x63 ∷ 0x68 ∷ 0x65 ∷ 0x63 ∷ 0x6b ∷ 0x70
    ∷ 0x6f ∷ 0x69 ∷ 0x6e ∷ 0x74 ∷ 0x2f ∷ 0x76 ∷ 0x31 ∷ 0x0a ∷ []

unfoldable pub signable_bytes : Checkpoint → Result Bytes
signable_bytes cp = do body ← canonical_bytes (signed_dict cp); ok (sig_context ++ body)

abbrev root_of : Option Checkpoint → Option String
root_of none = none
root_of (some prev) = some prev.root_hash

module _ (sha256 : Bytes → Bytes) where
  unfoldable pub build_checkpoint : List String → String → String → Option Checkpoint → Checkpoint
  build_checkpoint leaf_hashes log_id at_time prev = record {
    tree_size = length leaf_hashes;
    root_hash = merkle_root sha256 leaf_hashes;
    published_at = at_time;
    log_id = log_id;
    prev_root_hash = root_of prev;
    signatures = [];
    schema = checkpoint_schema;
  }

  unfoldable pub verify_consistency : Checkpoint → List String → Result (Unit {0})
  verify_consistency trusted prefix_leaf_hashes =
      if ltb (length prefix_leaf_hashes) trusted.tree_size
      then err consistency_failure
      else if str_eq (merkle_root sha256 (take trusted.tree_size prefix_leaf_hashes))
          trusted.root_hash
      then ok tt
      else err consistency_failure

module _ (outside : Outside) where
  abbrev pub signature_fields : String → Bytes → Fields
  signature_fields keyid sig =
      fields (("keyid", str keyid) ∷ ("sig", str (outside.b64encode sig)) ∷ [])

  -- `_append_sig`: the checkpoint is written and read back with one more signature.
  unfoldable pub append_sig : Checkpoint → String → Bytes → Result Checkpoint
  unfolding from_dict
  append_sig cp keyid sig = from_dict (
      dict (
        put_field "signatures" (dict_list (cp.signatures ++ signature_fields keyid sig ∷ []))
          (fields (signed_pairs cp ++ ("signatures", dict_list cp.signatures) ∷ []))))

  -- `sign_checkpoint`, with a key id and what it signs bytes with
  unfoldable pub sign_checkpoint : Checkpoint → String → (Bytes → Bytes) → Result Checkpoint
  unfolding append_sig signable_bytes
  sign_checkpoint cp keyid sign = do
    signable ← signable_bytes cp
    append_sig cp keyid (sign signable)

  -- The key of one signature, if the signature counts for the checkpoint.
  unfoldable pub log_signature : KeyDirectory → Checkpoint → Bytes → Fields → Result (Option KeyRef)
  log_signature dir cp signable sig = do
    found ← signature_key dir sig
    elim found [
      | none ↦ ok none
      | some key ↦ if not (str_eq key.key_use "log") then ok none else do
        valid ← valid_at outside.parse key cp.published_at
        ok (
            if valid && scoped_to key cp.log_id && checks_out outside key sig signable
            then some key
            else none)
    ]

  unfoldable pub log_signers :
      KeyDirectory → Checkpoint → Bytes → List Fields → Result (List String)
  unfolding log_signature
  log_signers dir cp signable [] = ok []
  log_signers dir cp signable (sig ∷ sigs) = do
    counts ← log_signature dir cp signable sig
    rest ← log_signers dir cp signable sigs
    ok (elim counts [ none ↦ rest | some key ↦ key.owner_id ∷ rest ])

  unfoldable pub verify_checkpoint : Checkpoint → KeyDirectory → Result (List String)
  unfolding log_signers
  verify_checkpoint cp dir = do
    signable ← signable_bytes cp
    owners ← log_signers dir cp signable cp.signatures
    elim owners [ [] ↦ err checkpoint_unverified | o ∷ os ↦ ok (o ∷ os) ]
