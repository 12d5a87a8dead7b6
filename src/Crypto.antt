-- ===== src/Crypto.antt =====
-- src/approvo/crypto: the key directory (keys.py), DSSE envelopes (envelope.py) and their verification (verifier.py).
pub mod Outside
pub mod Keys
pub mod Envelope
pub mod Verifier
pub mod Algorithms
pub mod Signers
pub mod KeyRefs
pub mod KeyProvider
pub mod Resolver
pub mod Wrapping
pub mod SigningService
