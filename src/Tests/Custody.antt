-- ===== src/Tests/Custody.antt =====
-- Examples on the keys behind src/approvo/crypto/signing.py.
use approvo.Base.{
  hex, from_hex, All-In, ◌<◌, String, ◌≡◌, refl, ap, subst, true, false, none, some, List, [], ◌∷◌,
  Dict, lookup, lookup-All, insert, partition, without_prefix, All, arith,
}
use approvo.Result.{Result, ok, ok-injective, or_raise-eq-ok, >>=-eq-ok}
use approvo.Json.{Fields, end}
use approvo.Json.Canonical.{canonical_bytes}
use approvo.Models.Decision.{Decision}
use approvo.Crypto.Outside.{Outside}
use approvo.Crypto.Algorithms.{Verify}
use approvo.Crypto.Keys.{KeyRef, directory, valid_at, scoped_to}
use approvo.Crypto.Verifier.{decision_authorized}
use approvo.Clock.{parse_rfc3339, before_time}
use approvo.Models.Decision
use approvo.Crypto.Wrapping.{wrap_async}
use approvo.Crypto.Signers.{
  sign_with, to_key_ref, Signer, Ed25519, Ed25519Signer, ed25519_signer, remote_signer,
}
use approvo.Crypto.KeyRefs.{parse_key_ref}
use approvo.Crypto.KeyProvider.{
  KeyProvider, Place, absolute, Files, place_of, memory_get, in_memory_provider, env_provider,
  file_signer, ensure,
}
use approvo.Crypto.KeyProvider.Composite.{composite_provider, by_last, composite_provider_routes}
use approvo.Crypto.KeyProvider.Consistent.{local_providers-IsConsistent}
use approvo.Crypto.KeyProvider.Ensure.{ensure-file_signer}
use approvo.Crypto.Resolver.{SigningContext, decision, static_keys, resolve}
use approvo.Crypto.SigningService.{
  SigningService, Caches, no_caches, TrustSpec, signer_at, public_key, sign_decision, trust,
  signer_for,
}
use approvo.Crypto.SigningService.Freshness.{no_caches-IsFresh}
use approvo.Crypto.SigningService.Asked.{gives_signer}
use approvo.Crypto.SigningService.History.{
  forget, ask_signer, ask_public, use_caches, RecentIn, signer_at-RecentIn,
}
use approvo.Crypto.SigningService.Trusted.{IsReliable, sign_decision-authorized}
use approvo.Providers.Gcp.{GcpKms, whole, algo_map, gcp_name, gcp_describe, gcp_signer}
use approvo.Providers.Verified.{digest_algorithms, SignsAsDocumented, Accepts, gcp_signer-Accepts}
use approvo.Tests.Marks.{written, read, read-written}
use approvo.Tests.Data as Data
use approvo.Tests.Data.{vote, ok_or, toy_digest}

abbrev always : Verify
always raw sig message = true

abbrev outside : Outside
outside = record Data.outside {
  b64encode = written;
  b64decode = λ s. some (read s);
  schemes = ("ed25519", always) ∷ [];
}

abbrev ed : Ed25519
ed = record { public_of = λ seed. some seed; sign = λ seed message. seed }

abbrev keys : Dict Ed25519Signer
keys = ("issuer", record { seed = 7 ∷ []; public = 7 ∷ [] }) ∷ []

abbrev memory : KeyProvider
memory = in_memory_provider outside ed (1 ∷ []) 0 keys

abbrev env : KeyProvider
env = env_provider outside ed (1 ∷ []) 1 []

composite_provider_routes_example :
    ((composite_provider 2 (memory ∷ env ∷ [])).get_signer "memory://issuer"
      ≡ by_last (memory ∷ env ∷ []) "memory://issuer" (λ p. p.get_signer "memory://issuer"))
    × ((composite_provider 2 (memory ∷ env ∷ [])).get_public_key "memory://issuer"
        ≡ by_last (memory ∷ env ∷ []) "memory://issuer" (λ p. p.get_public_key "memory://issuer"))
    × ((composite_provider 2 (memory ∷ env ∷ [])).self_test "memory://issuer"
        ≡ by_last (memory ∷ env ∷ []) "memory://issuer" (λ p. p.self_test "memory://issuer"))
composite_provider_routes_example =
    composite_provider_routes 2 (memory ∷ env ∷ []) "memory://issuer"

abbrev key_file : Place
key_file = absolute "/k"

ensure-file_signer_example :
    (after : Files) × (ensure false (7 ∷ []) "file:///k" (λ p. none) ≡ ok after)
    × (file_signer outside ed false after "file:///k"
        ≡ ok (ed25519_signer outside.sha256 ed (record { seed = 7 ∷ []; public = 7 ∷ [] })))
    × (after (absolute "/j") ≡ none)
unfolding place_of parse_key_ref partition without_prefix
ensure-file_signer_example =
    ensure-file_signer outside ed false (7 ∷ []) (7 ∷ []) "file:///k" key_file (absolute "/j")
      (λ p. none) (omega arith, tt) refl refl refl

abbrev signing : SigningService
signing = record {
  outside = outside;
  provider = λ n. memory;
  resolver = static_keys (("decision", "memory://issuer") ∷ []);
  pubkey_ttl = 2;
  signer_ttl = 2;
  clock = λ n. n;
}

abbrev some_signer : Signer
some_signer = ed25519_signer outside.sha256 ed (record { seed = 7 ∷ []; public = 7 ∷ [] })

signer_at-RecentIn_example :
    RecentIn signing
      (gives_signer signing)
      ask_signer
      2
      (forget ∷ ask_signer "memory://issuer" ∷ ask_public "memory://issuer" ∷ [])
      "memory://issuer"
      some_signer
unfolding use_caches signer_at public_key memory_get parse_key_ref lookup insert in_memory_provider
    partition without_prefix
signer_at-RecentIn_example =
    signer_at-RecentIn signing
      (forget ∷ ask_signer "memory://issuer" ∷ ask_public "memory://issuer" ∷ []) "memory://issuer"
      some_signer refl

-- The provider in memory is what the service relies on.
memory-IsReliable : IsReliable signing memory
unfolding in_memory_provider ed25519_signer memory_get lookup
memory-IsReliable = record {
  steady = λ n. refl;
  consistent = (local_providers-IsConsistent outside ed (1 ∷ []) 0 keys false (λ p. none) []).0;
  correct = λ ref v message sig h signed.
      let (s, found, wrapped) = >>=-eq-ok (memory_get keys ref) _ h in
      subst
        (λ (x : Signer).
          (verify : Verify) × (lookup x.public_material.scheme outside.schemes ≡ some verify)
          × (verify x.public_material.public sig message ≡ true))
        (ok-injective wrapped) (always, refl, refl);
  of_bytes = λ ref v h.
      let (s, found, wrapped) = >>=-eq-ok (memory_get keys ref) _ h in
      let (parsed, _, here) = >>=-eq-ok (parse_key_ref ref) _ found in
      subst (λ (x : Signer). All (λ b. b < 256) x.public_material.public) (ok-injective wrapped)
        (lookup-All (λ (e : String × Ed25519Signer). All (λ b. b < 256) e.1.public) parsed.1 keys
          (or_raise-eq-ok _ _ here) ((omega arith, tt), tt));
  decodes = λ bs. ap some (read-written bs);
}

abbrev spec : TrustSpec
spec = record {
  key_ref = "memory://issuer";
  owner_id = "issuer";
  key_use = "decision_issuer";
  not_before = "i";
  not_after = none;
  log_ids = none;
}

abbrev context : SigningContext
context = record {
  log_id = "default";
  purpose = decision;
  kind = none;
  policy_id = none;
  approver_id = none;
}

abbrev bob_approves : Decision
bob_approves = vote "c" "bob" "approve" "ii"

abbrev published : Result (List KeyRef) × Caches
published = trust signing (spec ∷ []) no_caches

abbrev signed : Result Fields × Caches
signed = sign_decision signing bob_approves context published.1

was_published : published ≡ (ok (ok_or published.0 []), published.1)
unfolding trust memory_get parse_key_ref lookup insert in_memory_provider public_key partition
    without_prefix
was_published = refl

sign_decision-authorized_example :
    decision_authorized outside
      (ok_or signed.0 end)
      "bob"
      "default"
      (directory (ok_or published.0 []))
      "iii"
      true
    ≡ ok true
unfolding trust memory_get parse_key_ref lookup insert in_memory_provider public_key signer_at
    sign_decision resolve valid_at signer_for partition without_prefix wrap_async canonical_bytes
    Decision.to_dict sign_with ed25519_signer parse_rfc3339 before_time to_key_ref scoped_to
sign_decision-authorized_example =
    sign_decision-authorized signing memory no_caches spec bob_approves context "iii" "default"
      memory-IsReliable (no_caches-IsFresh signing) refl refl was_published refl ((refl, refl), tt)

abbrev cloud : GcpKms
cloud = record {
  get_public_key = λ name. ok ("EC_SIGN_ED25519", "pem");
  asymmetric_sign = λ name request. ok (9 ∷ []);
  spki_of_pem = λ pem. ok (7 ∷ []);
  raw_of_pem = λ pem. ok (7 ∷ []);
  digest_of = λ name message. message;
}

cloud-SignsAsDocumented : SignsAsDocumented always always always always always cloud cloud
cloud-SignsAsDocumented = record {
  signs_whole = λ name pem raw message sig described read signed. refl;
  signs_digest = λ name algorithm pem digest verify spki message sig listed described read signed.
      ap (λ v. v spki sig message)
        (All-In (λ (e : String × (String × Verify)). e.1.1 ≡ always) (algorithm, (digest, verify))
          (digest_algorithms always always always always always)
          (refl, (refl, (refl, (refl, (refl, (refl, (refl, (refl, tt)))))))) listed);
  raw_bytes = λ pem raw read. subst (All (λ b. b < 256)) (ok-injective read) (omega arith, tt);
  spki_bytes = λ pem spki read. subst (All (λ b. b < 256)) (ok-injective read) (omega arith, tt);
}

abbrev projects_key : String
projects_key = "gcpkms://projects/p"

abbrev cloud_signer : Signer
cloud_signer =
    remote_signer outside.sha256 "ed25519" (7 ∷ [])
      (λ message. cloud.asymmetric_sign "projects/p" (whole message))

gcp_signer-Accepts_example :
    Accepts always always always always always cloud_signer (3 ∷ []) (9 ∷ [])
unfolding gcp_signer gcp_describe gcp_name parse_key_ref partition without_prefix lookup algo_map
    hex from_hex remote_signer
gcp_signer-Accepts_example =
    gcp_signer-Accepts always always always always always cloud cloud outside projects_key
      cloud_signer (3 ∷ []) (9 ∷ []) cloud-SignsAsDocumented refl refl
