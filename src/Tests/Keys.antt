-- ===== src/Tests/Keys.antt =====
-- Examples on keys, envelopes and checkpoint signatures.
use approvo.Base.{String, Bytes, from_hex, lookup, ◌≡◌, refl, ◌≤◌, true, none, [], ◌∷◌, All}
use approvo.Result.{ok}
use approvo.Json.Canonical.{canonical_bytes}
use approvo.Clock.{before_time, parse_rfc3339}
use approvo.Models.Checkpoint.{Checkpoint}
use approvo.Crypto.Keys.{KeyRef, KeyDirectory, get_key, valid_at, revoke}
use approvo.Crypto.Keys
use approvo.Crypto.Keys.Validity.{InForce, valid_at_iff}
use approvo.Crypto.Envelope.{signable_bytes}
use approvo.Crypto.Envelope.Pae.{pae-injective}
use approvo.Crypto.Verifier.{decision_authorized, checks_out, authorizes}
use approvo.Crypto.Verifier.Authorized.{Authority, decision_authorized_iff}
use approvo.Checkpoint.{sign_checkpoint, verify_checkpoint}
use approvo.Checkpoint.Signatures.{LogSigned, verify_checkpoint_sound}
use approvo.Tests.Data.{toy_parse, outside, envelope, key, log_key, ok_or}

abbrev some_type : String
some_type = "t"

abbrev some_bytes : Bytes
some_bytes = 1 ∷ 2 ∷ []

pae-injective_example : (some_type ≡ some_type) × (some_bytes ≡ some_bytes)
pae-injective_example = pae-injective some_type some_type some_bytes some_bytes refl

valid_at_iff_example :
    (valid_at toy_parse key "iii" ≡ ok true → InForce toy_parse key "iii")
    × (InForce toy_parse key "iii" → valid_at toy_parse key "iii" ≡ ok true)
valid_at_iff_example = valid_at_iff toy_parse key "iii"

abbrev keys : KeyDirectory
keys = ("k", key) ∷ []

bob_signed : decision_authorized outside envelope "bob" "default" keys "iii" true ≡ ok true
unfolding decision_authorized signable_bytes valid_at checks_out from_hex lookup authorizes
    parse_rfc3339 before_time
bob_signed = refl

decision_authorized_iff_example :
    (true ≡ true → Authority outside envelope "bob" "default" keys "iii" true)
    × (Authority outside envelope "bob" "default" keys "iii" true → true ≡ true)
decision_authorized_iff_example =
    decision_authorized_iff outside envelope "bob" "default" keys "iii" true (refl, tt) bob_signed

abbrev unsigned : Checkpoint
unsigned = record {
  tree_size = 0;
  root_hash = "h";
  published_at = "ii";
  log_id = "default";
  prev_root_hash = none;
  signatures = [];
  schema = "approvo/checkpoint/v1";
}

abbrev signed : Checkpoint
signed = ok_or (sign_checkpoint outside unsigned "k" (λ bs. bs)) unsigned

was_signed : sign_checkpoint outside unsigned "k" (λ bs. bs) ≡ ok signed
unfolding sign_checkpoint canonical_bytes
was_signed = refl

bob_published : verify_checkpoint outside signed (("k", log_key) ∷ []) ≡ ok ("bob" ∷ [])
unfolding sign_checkpoint canonical_bytes verify_checkpoint valid_at checks_out from_hex lookup
    parse_rfc3339 before_time Keys.scoped_to
bob_published = refl

verify_checkpoint_sound_example :
    (1 ≤ 1) × All (LogSigned outside (("k", log_key) ∷ []) signed) ("bob" ∷ [])
verify_checkpoint_sound_example =
    verify_checkpoint_sound outside (("k", log_key) ∷ []) signed bob_published
