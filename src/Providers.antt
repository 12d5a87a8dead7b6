-- ===== src/Providers.antt =====
-- src/approvo/providers: key providers over key services. The services and their clients are parameters.
pub mod Aws
pub mod Gcp
pub mod Vault
pub mod Verified
pub mod VerifiedAws
pub mod VerifiedVault
