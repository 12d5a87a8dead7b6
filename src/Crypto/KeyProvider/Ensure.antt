-- ===== src/Crypto/KeyProvider/Ensure.antt =====
-- Keys that `ensure` of src/approvo/crypto/keyprovider.py writes to a file.
use approvo.Base.{
  String, Bytes, hex, from_hex, from_hex_codes, from_hex-hex, trim-hex, eq_refl, ◌≡◌, refl, ap, ◌∙◌,
  ◌<◌, Bool, true, none, some, All, if◌then◌else◌,
}
use approvo.Result.{ok, or_raise, value_error}
use approvo.Crypto.Outside.{Outside}
use approvo.Crypto.Signers.{Ed25519, from_private_bytes, ed25519_signer}
use approvo.Crypto.KeyProvider.{
  Place, absolute, under_root, same_place, Files, place_of, hex_seed, from_file, file_signer, save,
  ensure,
}

same_place_refl : (p : Place) → same_place p p ≡ true
same_place_refl (absolute p) = eq_refl p
same_place_refl (under_root p) = eq_refl p

hex_seed-hex : (seed : Bytes) → All (λ b. b < 256) seed → hex_seed (hex seed) ≡ ok seed
unfolding from_hex
hex_seed-hex seed bytes =
    ap (λ cs. or_raise (from_hex_codes cs) value_error) (trim-hex seed)
    ∙ ap (λ o. or_raise o value_error) (from_hex-hex seed bytes)

-- Where the key file of a reference is missing, `ensure` writes one and changes no other file, and the provider then hands out the
-- signer of the seed that was drawn.
pub ensure-file_signer :
    (outside : Outside) (ed : Ed25519) (has_root : Bool) (fresh public : Bytes) (key_ref : String)
    (place other : Place) (before : Files)
    → All (λ b. b < 256) fresh
    → ed.public_of fresh ≡ some public
    → place_of has_root key_ref ≡ ok place
    → before place ≡ none
    → (after : Files) × (ensure has_root fresh key_ref before ≡ ok after)
      × (file_signer outside ed has_root after key_ref
          ≡ ok (ed25519_signer outside.sha256 ed (record { seed = fresh; public = public })))
      × (after other ≡ (if same_place other place then some (ok (hex fresh)) else before other))
unfolding ensure file_signer from_file from_private_bytes
ensure-file_signer outside ed has_root fresh public key_ref place other before bytes known at_place
      missing =
    let after = save fresh place before in
    let written : after place ≡ some (ok (hex fresh)) = rw (same_place_refl place) refl in
    (
      after,
      rw at_place (rw missing refl),
      rw at_place (rw written (rw (hex_seed-hex fresh bytes) (rw known refl))),
      refl,
    )
