-- ===== src/Crypto/KeyProvider/Consistent.antt =====
-- What the providers of src/approvo/crypto/keyprovider.py promise: the public key that a provider publishes for a reference is that of the
-- signer which it hands out for it.
use approvo.Base.{ℕ, String, Bytes, ◌≡◌, refl, ap, subst, Bool, Dict}
use approvo.Result.{Result, ok, or_raise, key_provider_error, ◌>>=◌, >>=-eq-ok, ok-injective}
use approvo.Crypto.Outside.{Outside}
use approvo.Crypto.Signers.{
  Signer, Ed25519, Ed25519Signer, from_private_bytes, material_keyid, ed25519_signer,
}
use approvo.Crypto.KeyProvider.{
  KeyProvider, Files, loaded, place_of, from_file, env_seed, public_of_signer, in_memory_provider,
  file_provider, env_provider, memory_get, memory_signer, file_signer, env_signer,
}

module _ (sha256 : Bytes → Bytes) where
  -- The signer names the key that it signs with as the key directory will.
  abbrev pub IsLabelled : Signer → Type 0
  IsLabelled s =
      (s.key_id ≡ material_keyid sha256 s.public_material)
      × (s.algorithm ≡ s.public_material.scheme)

  pub record IsConsistent (p : KeyProvider) : Type 0 where
    pub publishes :
        (ref : String) (s : Signer)
        → p.get_signer ref ≡ ok s
        → (p.get_public_key ref ≡ ok s.public_material) × IsLabelled s

module _ (outside : Outside) (ed : Ed25519) where
  ed25519_signer-IsLabelled :
      (s : Ed25519Signer) → IsLabelled outside.sha256 (ed25519_signer outside.sha256 ed s)
  unfolding ed25519_signer
  ed25519_signer-IsLabelled s = (refl, refl)

  -- What an Ed25519 key has been made into.
  Wraps : Signer → Type 0
  Wraps s = (k : Ed25519Signer) × (ed25519_signer outside.sha256 ed k ≡ s)

  Wraps-IsLabelled : (s : Signer) → Wraps s → IsLabelled outside.sha256 s
  unfolding Wraps
  Wraps-IsLabelled s (k, e) = subst (IsLabelled outside.sha256) e (ed25519_signer-IsLabelled k)

  wrap_ok :
      (m : Result Ed25519Signer) (s : Signer)
      → (m >>= λ k. ok (ed25519_signer outside.sha256 ed k)) ≡ ok s
      → Wraps s
  unfolding Wraps
  wrap_ok m s h = let (k, _, made) = >>=-eq-ok m _ h in (k, ok-injective made)

  file_signer-Wraps :
      (has_root : Bool) (files : Files) (ref : String) (s : Signer)
      → file_signer outside ed has_root files ref ≡ ok s
      → Wraps s
  unfolding file_signer
  file_signer-Wraps has_root files ref s h =
      let (place, _, h1) = >>=-eq-ok (place_of has_root ref) _ h in
      let (content, _, h2) = >>=-eq-ok (or_raise (files place) key_provider_error) _ h1 in
      wrap_ok (loaded (from_file ed content)) s h2

  env_signer-Wraps :
      (environ : Dict String) (ref : String) (s : Signer)
      → env_signer outside ed environ ref ≡ ok s
      → Wraps s
  unfolding env_signer
  env_signer-Wraps environ ref s h =
      let (seed, _, h1) = >>=-eq-ok (env_seed environ ref) _ h in
      wrap_ok (from_private_bytes ed seed) s h1

  public_lem :
      (get_signer : String → Result Signer) (ref : String) (s : Signer)
      → get_signer ref ≡ ok s
      → public_of_signer get_signer ref ≡ ok s.public_material
  public_lem get_signer ref s h = ap (λ r. r >>= λ (t : Signer). ok t.public_material) h

  module _ (random : Bytes) (identity : ℕ) where
    -- The three local providers are consistent, whatever keys, files and environment they have.
    pub local_providers-IsConsistent :
        (keys : Dict Ed25519Signer) (has_root : Bool) (files : Files) (environ : Dict String)
        → IsConsistent outside.sha256 (in_memory_provider outside ed random identity keys)
          × IsConsistent outside.sha256 (file_provider outside ed random identity has_root files)
          × IsConsistent outside.sha256 (env_provider outside ed random identity environ)
    unfolding in_memory_provider file_provider env_provider
    local_providers-IsConsistent keys has_root files environ = (
      record {
        publishes = λ ref s h. (
          public_lem (memory_signer outside ed keys) ref s h,
          Wraps-IsLabelled s (wrap_ok (memory_get keys ref) s h),
        );
      },
      record {
        publishes = λ ref s h. (
          public_lem (file_signer outside ed has_root files) ref s h,
          Wraps-IsLabelled s (file_signer-Wraps has_root files ref s h),
        );
      },
      record {
        publishes = λ ref s h. (
          public_lem (env_signer outside ed environ) ref s h,
          Wraps-IsLabelled s (env_signer-Wraps environ ref s h),
        );
      },
    )
