-- ===== src/Crypto/KeyRefs.antt =====
-- `parse_key_ref` of src/approvo/crypto/keyprovider.py.
use approvo.Base.{
  String, append_text, partition, partition_sound, partition-append, Lacks, ◌≡◌, ◌↔◌, ap, ◌∙◌,
}
use approvo.Result.{Result, ok, or_raise, or_raise-eq-ok, key_provider_error}

-- The scheme and the rest.
unfoldable pub parse_key_ref : String → Result (String × String)
parse_key_ref key_ref = or_raise (partition "://" key_ref) key_provider_error

-- For a scheme without a colon, a reference is parsed into the scheme and a rest exactly when it is the two joined by "://".
pub parse_key_ref_iff :
    (scheme rest key_ref : String)
    → Lacks b':' scheme
    → (parse_key_ref key_ref ≡ ok (scheme, rest))
      ↔ (key_ref ≡ append_text scheme (append_text "://" rest))
unfolding parse_key_ref
parse_key_ref_iff scheme rest key_ref lacks = (
  λ h. partition_sound "://" key_ref (or_raise-eq-ok _ _ h),
  λ e.
      ap (λ r. or_raise (partition "://" r) key_provider_error) e
      ∙ ap (λ o. or_raise o key_provider_error) (partition-append ":" "//" scheme rest lacks),
)
