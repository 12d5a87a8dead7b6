-- ===== src/Crypto/SigningService.antt =====
-- src/approvo/crypto/signing.py. The clock counts ticks; a difference of two readings is compared with a lifetime in the same unit.
pub mod Freshness
pub mod Asked
pub mod History
pub mod Accepted
pub mod Trusted
use approvo.Base.{
  ℕ, ◌+◌, String, ltb, Bool, true, false, Option, none, some, List, [], ◌∷◌, ◌++◌, map, Dict,
  lookup, insert, if◌then◌else◌,
}
use approvo.Result.{Error, Result, ok, err, type_error, value_error}
use approvo.Result
use approvo.Json.{Fields}
use approvo.Models.Decision.{Decision, decision_payload_type}
use approvo.Models.Decision
use approvo.Models.Checkpoint.{Checkpoint}
use approvo.Checkpoint.{signable_bytes, append_sig}
use approvo.Crypto.Outside.{Outside}
use approvo.Crypto.Keys.{KeyRef}
use approvo.Crypto.Signers.{PublicKeyMaterial, Signer, sign_with, to_key_ref}
use approvo.Crypto.Wrapping.{wrap_async}
use approvo.Crypto.Resolver.{
  SigningContext, SigningPurpose, checkpoint, Resolver, static_keys, resolve,
}
use approvo.Crypto.KeyProvider.{KeyProvider}

pub record TrustSpec : Type 0 where
  pub key_ref : String
  pub owner_id : String
  pub key_use : String
  pub not_before : String
  pub not_after : Option String
  pub log_ids : Option (List String)

abbrev pub Held : Type 0 → Type 0
Held V = Dict (ℕ × V)

-- `provider n` is the provider as its `n`th call finds it, and `clock n` the `n`th reading of the clock.
pub record SigningService : Type 0 where
  pub outside : Outside
  pub provider : ℕ → KeyProvider
  pub resolver : Resolver
  pub pubkey_ttl : ℕ
  pub signer_ttl : ℕ
  pub clock : ℕ → ℕ

pub record Caches : Type 0 where
  pub pub_cache : Held PublicKeyMaterial
  pub signer_cache : Held Signer
  pub readings : ℕ
  pub calls : ℕ

abbrev pub no_caches : Caches
no_caches = record { pub_cache = []; signer_cache = []; readings = 0; calls = 0 }

abbrev pub Call : Type 0 → Type 0
Call A = Caches → Result A × Caches

abbrev pub continue_with : {A B : Type 0} → (A → Call B) → Result A × Caches → Result B × Caches
continue_with k (ok a, t) = k a t
continue_with k (err e, t) = (err e, t)

infixl 5 ◌>>=◌
abbrev pub ◌>>=◌ : {A B : Type 0} → Call A → (A → Call B) → Call B
◌>>=◌ m k s = continue_with k (m s)

abbrev pub lift : {A : Type 0} → Result A → Call A
lift r s = (r, s)

-- A look into a cache: the answer, the cache afterwards, and how often the clock and the provider were asked.
pub record Lookup (V : Type 0) : Type 0 where
  pub answer : Result V
  pub held : Held V
  pub read : ℕ
  pub called : ℕ

module _ {V : Type 0} (clock : ℕ → ℕ) (ttl : ℕ) (key : String) (fetch : Result V)
    (held : Held V) where
  -- What is fetched is kept with the next reading of the clock.
  abbrev pub fetched : ℕ → Result V → Lookup V
  fetched reading (err e) = record { answer = err e; held = held; read = 0; called = 1 }
  fetched reading (ok v) = record {
    answer = ok v;
    held = insert key (clock reading, v) held;
    read = 1;
    called = 1;
  }

  abbrev pub one_more : Lookup V → Lookup V
  one_more l = record l { read = l.read + 1 }

  abbrev pub hit_or_fetch : ℕ → Option (ℕ × V) → Lookup V
  hit_or_fetch reading none = fetched reading fetch
  hit_or_fetch reading (some (t, v)) =
      if ltb (clock reading) (t + ttl)
      then record { answer = ok v; held = held; read = 1; called = 0 }
      else one_more (fetched (reading + 1) fetch)

  unfoldable pub cached : ℕ → Lookup V
  cached reading = hit_or_fetch reading (lookup key held)

module _ (service : SigningService) where
  abbrev pub look_up_signer : String → Caches → Lookup Signer
  look_up_signer ref s =
      cached service.clock service.signer_ttl ref ((service.provider s.calls).get_signer ref)
        s.signer_cache s.readings

  -- `signer_for`, from the reference that the resolver gives
  unfoldable pub signer_at : String → Call Signer
  unfolding cached
  signer_at ref s =
      let l = look_up_signer ref s in
      (
        l.answer,
        record s {
          signer_cache = l.held;
          readings = s.readings + l.read;
          calls = s.calls + l.called;
        },
      )

  unfoldable pub signer_for : SigningContext → Call Signer
  signer_for ctx = do ref ← lift (resolve service.resolver ctx); signer_at ref

  abbrev pub look_up_public : String → Caches → Lookup PublicKeyMaterial
  look_up_public ref s =
      cached service.clock service.pubkey_ttl ref ((service.provider s.calls).get_public_key ref)
        s.pub_cache s.readings

  unfoldable pub public_key : String → Call PublicKeyMaterial
  unfolding cached
  public_key ref s =
      let l = look_up_public ref s in
      (
        l.answer,
        record s { pub_cache = l.held; readings = s.readings + l.read; calls = s.calls + l.called },
      )

  unfoldable pub sign_decision : Decision → SigningContext → Call Fields
  sign_decision d ctx = do
    signer ← signer_for ctx
    lift (wrap_async service.outside (Decision.to_dict d) decision_payload_type (signer ∷ []))

  abbrev checkpoint_context : String → SigningContext
  checkpoint_context log_id = record {
    log_id = log_id;
    purpose = checkpoint;
    kind = none;
    policy_id = none;
    approver_id = none;
  }

  -- `sign_checkpoint_async`
  unfoldable pub sign_checkpoint_with : Checkpoint → Signer → Result Checkpoint
  sign_checkpoint_with cp signer = Result.◌>>=◌ (signable_bytes cp) λ bs.
      Result.◌>>=◌ (sign_with signer bs) λ signed. append_sig service.outside cp signed.1 signed.0

  unfoldable pub sign_checkpoint : Checkpoint → Call Checkpoint
  sign_checkpoint cp = do
    signer ← signer_for (checkpoint_context cp.log_id)
    lift (sign_checkpoint_with cp signer)

  abbrev pub key_of_spec : TrustSpec → PublicKeyMaterial → KeyRef
  key_of_spec spec m =
      to_key_ref service.outside.sha256 m spec.owner_id spec.not_before spec.not_after spec.key_use
        spec.log_ids

  unfoldable pub trust : List TrustSpec → Call (List KeyRef)
  trust [] = lift (ok [])
  trust (spec ∷ specs) = do
    m ← public_key spec.key_ref
    rest ← trust specs
    lift (ok (key_of_spec spec m ∷ rest))

  abbrev spec_for : String → String → String → Option (List String) → Option String → List TrustSpec
  spec_for owner_id key_use not_before log_ids none = []
  spec_for owner_id key_use not_before log_ids (some ref) =
      record {
        key_ref = ref;
        owner_id = owner_id;
        key_use = key_use;
        not_before = not_before;
        not_after = none;
        log_ids = log_ids;
      }
      ∷ []

  unfoldable pub trust_from_static :
      String → String → String → Option (List String) → Call (List KeyRef)
  trust_from_static issuer log_owner not_before log_ids = elim service.resolver [
    | static_keys mapping ↦ trust (
        spec_for issuer "decision_issuer" not_before log_ids (lookup "decision" mapping)
        ++ spec_for log_owner "log" not_before log_ids (lookup "checkpoint" mapping))
    | _ ↦ lift (err type_error)
  ]

  abbrev refs_of : Resolver → Result (List String)
  refs_of (static_keys mapping) = ok (map (λ (e : String × String). e.1) mapping)
  refs_of r = err value_error

  abbrev refs_to_test : Option (List String) → Result (List String)
  refs_to_test (some refs) = ok refs
  refs_to_test none = refs_of service.resolver

  abbrev test_all : List String → Call (Unit {0})
  test_all [] s = (ok tt, s)
  test_all (ref ∷ refs) s =
      continue_with (λ _. test_all refs)
        ((service.provider s.calls).self_test ref, record s { calls = s.calls + 1 })

  unfoldable pub self_test : Option (List String) → Call (Unit {0})
  self_test given = do refs ← lift (refs_to_test given); test_all refs

-- `invalidate`
abbrev pub invalidate : Caches → Caches
invalidate s = record s { pub_cache = []; signer_cache = [] }
