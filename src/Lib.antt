-- ===== src/Lib.antt =====
-- approvo keeps approvals of requests in an append-only log. A request and each signed decision on it are entries of the log; every
-- entry carries the hash of the one before it; a checkpoint signs the Merkle root of the log; the status of a request is never stored
-- but evaluated again from the request's entries under the policy that the request has pinned by its digest.
--
-- The parts, by their paths from the repository's root:
--   approvo/canonical.py: Json (values), Json.Canonical (_check, canonical_bytes), Hash (canonical_hash). Json.Scan, Json.Atoms and
--     Json.Injective hold what the canonical bytes determine; Json.Read is how the converters read dictionaries.
--   approvo/clock.py: Clock.
--   approvo/models.py: Models.Request, Models.Decision, Models.Entry, Models.Checkpoint, Models.Views, with Models.Binding on the bytes of an entry;
--     PolicyResult stands in Policy.Engine and Record, as StatusRecord, in Service.Status.
--   approvo/chain.py: Chain (next_entry, verify_segment), with Chain.Verify, Chain.Segments and Chain.Tamper.
--   approvo/merkle.py: Merkle, with Merkle.Split, Merkle.Proofs, Merkle.Complete, Merkle.Hashed (the inputs that
--     each function hashes), Merkle.Sound and Merkle.Binding.
--   approvo/policy: Policy.Model (model.py) and Policy.Engine (engine.py); the modules below Policy.Engine follow evaluate step by step.
--   approvo/crypto: Crypto.Keys (keys.py), Crypto.Envelope and Crypto.Wrapping (envelope.py), Crypto.Verifier (verifier.py),
--     Crypto.Algorithms (algorithms.py), Crypto.Signers (signer.py), Crypto.KeyRefs and Crypto.KeyProvider (keyprovider.py),
--     Crypto.Resolver (resolver.py), Crypto.SigningService (signing.py, with the histories of its caches in
--     Crypto.SigningService.History). A resolver says which key reference to sign with, a provider
--     gives a signer or a public key for the reference, and the signing service keeps both for a while.
--   approvo/providers: Providers.Aws, Providers.Gcp and Providers.Vault, with remote_signer of Crypto.Signers (_common.py);
--     Providers.Verified, Providers.VerifiedAws and Providers.VerifiedVault are about the signatures.
--   approvo/checkpoint.py: Checkpoint.
--   approvo/stores/base.py, tests/memory_stores.py: Store.Events, Store.Reservations and Store.Projections.
--   approvo/service.py: Service.Monad (configuration, state and calls), Service.Append (_append), Service.Status (the reads),
--     Service.Submit (create_request, submit_signed_decision, _record_decision), Service.Decide (submit_decision, prepare_decision,
--     checkpoint), Service.Audit (verify), Service.Views (_project, get_view, query, rebuild_projections).
--   approvo/projection.py: Projection. approvo/errors.py: the type Error of Result.
--   examples/vehicle-release-approvals/app/mongo_stores.py: Example.Mongo.Events, Example.Mongo.Slots and Example.Mongo.Projections, over a
--     collection of MongoDB (Example.Mongo); approvo/testing.py: the loop over pages, in Example.Mongo.Projections.Pages.
--   Base holds tests, lists, texts, bytes and dictionaries; Result the exceptions as values; Tests examples.
--
-- Conventions. Code of other libraries is a parameter: SHA-256 (sha256), datetime.fromisoformat (parse), base64, json.loads and the
-- signature schemes of cryptography (the record Crypto.Outside), the Ed25519 keys of cryptography, the clients of the key services, and a
-- MongoDB collection with the laws that MongoDB documents (the record Example.Mongo.MongoDb). No theorem assumes that SHA-256 has no
-- collisions: where the code relies on it, the other case of the theorem is a collision, in the theorems on Merkle trees one between two
-- inputs that the code hashes there (CollisionIn). IsDigest says that a digest has 32 bytes, as documented. An exception is an err of Result, with the class but not the message; a call of the
-- service returns its state after a raise too. The converters read each field with the type that the source annotates and give a
-- TypeError for another; Python keeps such a value until it is used. Sequence numbers, thresholds and sizes are natural numbers, so
-- negative ones are not modelled. A dictionary is the list of its items in order of insertion.
--
-- Fuel. Merkle.root_fuel and Merkle.path_fuel run on the number of leaves, which each recursive call makes smaller; the loop that doubles
-- the split runs on the size; decimal digits run on the number plus one. _append runs on its own count of attempts.
--
-- Other callers. Service.early and Service.late give, for each attempt of _append, what other callers append before it reads the head, and
-- between that and its own append; each of them seals against the head it finds, as _append does.
--
-- Time and change. The signing service finds its provider at its nth call as provider n, and its clock at the nth reading as clock n, so
-- keys may be rotated and withdrawn between calls. A client of a key service stands for the answers of one call; the signers of
-- Providers have a second one, later, for the call that signs. Each call over MongoDB is one step; a document that another caller removes between
-- the two steps of a reservation is not modelled beyond the error that the code then gives. Two places of key files are the same if they
-- are written alike; one file under two places is not modelled.
--
-- Not modelled: the calls of _project after a request or a decision (there the service has no projection store, as by default; Service.Views
-- has one, and a rebuild reads the log as it is at its start), a service with a signing service (a signer is given to the calls that sign;
-- the signing service is modelled on its own), the construction of clients and the decoding of PEM, format
-- specifications in the templates of the resolver, the HTTP application in examples/vehicle-release-approvals/app/main.py, the creation
-- of indexes, the tests of approvo/testing.py other than the loop over pages, and the text of messages.
pub mod Base
pub mod Result
pub mod Json
pub mod Hash
pub mod Clock
pub mod Models
pub mod Chain
pub mod Merkle
pub mod Policy
pub mod Providers
pub mod Crypto
pub mod Checkpoint
pub mod Store
pub mod Service
pub mod Projection
pub mod Example
pub mod Tests
