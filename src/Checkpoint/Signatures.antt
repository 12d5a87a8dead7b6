-- ===== src/Checkpoint/Signatures.antt =====
-- Signing and verifying a checkpoint: src/approvo/checkpoint.py.
use approvo.Base.{
  ◌≤◌, String, str_eq, eq_iff, Bytes, ◌≡◌, refl, sym, ap, ◌∙◌, inl, inr, Bool-cases, true, ◌&&◌,
  Option-cases, some, some_inj, List, [], ◌∷◌, ◌++◌, All, All-weaken, In, length, subst, arith,
}
use approvo.Result.{ok, err, checkpoint_unverified, >>=-eq-ok, ok-injective}
use approvo.Json.{Fields}
use approvo.Json.Read.{as_dicts-dict_list}
use approvo.Models.Checkpoint.{Checkpoint, from_dict}
use approvo.Crypto.Outside.{Outside}
use approvo.Crypto.Keys.{KeyRef, KeyDirectory, valid_at, scoped_to}
use approvo.Crypto.Verifier.{signature_key, checks_out}
use approvo.Checkpoint.{
  signable_bytes, signature_fields, append_sig, sign_checkpoint, log_signature, log_signers,
  verify_checkpoint,
}

module _ (outside : Outside) where
  append_sig_lem :
      (cp : Checkpoint) (keyid : String) (sig : Bytes)
      → append_sig outside cp keyid sig
        ≡ ok (record cp { signatures = cp.signatures ++ signature_fields outside keyid sig ∷ [] })
  unfolding append_sig from_dict
  append_sig_lem cp keyid sig =
      ground (arith, as_dicts-dict_list (cp.signatures ++ signature_fields outside keyid sig ∷ []))

  -- Signing a checkpoint adds one signature behind the others and changes nothing else, so what was signed before is still what
  -- the signed bytes say.
  pub sign_checkpoint-signable_bytes :
      (cp : Checkpoint) (keyid : String) (sign : Bytes → Bytes) {signed : Checkpoint}
      → sign_checkpoint outside cp keyid sign ≡ ok signed
      → (bs : Bytes) × (signable_bytes cp ≡ ok bs)
        × (signable_bytes signed ≡ ok bs)
        × (signed ≡ record cp {
          signatures = cp.signatures ++ signature_fields outside keyid (sign bs) ∷ [];
        })
  unfolding sign_checkpoint signable_bytes
  sign_checkpoint-signable_bytes cp keyid sign {signed} h =
      let (bs, made, h1) = >>=-eq-ok (signable_bytes cp) _ h in
      let same = ok-injective (sym h1 ∙ append_sig_lem cp keyid (sign bs)) in
      (bs, made, ap signable_bytes same ∙ made, same)

  module _ (dir : KeyDirectory) (cp : Checkpoint) where
    -- The signature is one of the checkpoint's, over its signed bytes, by a log key that is valid when it was published and is scoped to
    -- its log.
    pub record LogSigned (owner : String) : Type 0 where
      pub signable : Bytes
      pub covers : signable_bytes cp ≡ ok signable
      pub sig : Fields
      pub among : In sig cp.signatures
      pub key : KeyRef
      pub named : signature_key dir sig ≡ ok (some key)
      pub is_log_key : key.key_use ≡ "log"
      pub valid : valid_at outside.parse key cp.published_at ≡ ok true
      pub scoped : scoped_to key cp.log_id ≡ true
      pub checks : checks_out outside key sig signable ≡ true
      pub owns : key.owner_id ≡ owner

    record Counted (signable : Bytes) (sig : Fields) (key : KeyRef) : Type 0 where
      pub named : signature_key dir sig ≡ ok (some key)
      pub is_log_key : key.key_use ≡ "log"
      pub valid : valid_at outside.parse key cp.published_at ≡ ok true
      pub scoped : scoped_to key cp.log_id ≡ true
      pub checks : checks_out outside key sig signable ≡ true

    log_signature-Counted :
        (signable : Bytes) (sig : Fields) {key : KeyRef}
        → log_signature outside dir cp signable sig ≡ ok (some key)
        → Counted signable sig key
    unfolding log_signature
    log_signature-Counted signable sig {key} h =
        let (found, named, h1) = >>=-eq-ok (signature_key dir sig) _ h in
        elim (Option-cases found) [
          | inl absent ↦ absurd (ground (arith, absent, h1))
          | inr (k, there) ↦
              let h2 = rw there at h1 in
              elim (Bool-cases (str_eq k.key_use "log")) [
                | inr other ↦ absurd (ground (arith, other, h2))
                | inl log_key ↦
                    let (valid, tested, h3) =
                      >>=-eq-ok (valid_at outside.parse k cp.published_at) _ (rw log_key at h2) in
                    elim (Bool-cases
                      (valid && scoped_to k cp.log_id && checks_out outside k sig signable)) [
                        | inr fails ↦ absurd (ground (arith, fails, h3))
                        | inl passes ↦
                            subst (Counted signable sig) (some_inj (ok-injective (rw passes at h3)))
                              (record {
                                named = named ∙ ap ok there;
                                is_log_key = (eq_iff k.key_use "log").0 log_key;
                                valid = tested ∙ ap ok (ground (arith, passes));
                                scoped = ground (arith, passes);
                                checks = ground (arith, passes);
                              })
                      ]
              ]
        ]

    log_signers_sound :
        (signable : Bytes) (sigs : List Fields) {owners : List String}
        → log_signers outside dir cp signable sigs ≡ ok owners
        → All
            (λ o.
              (sig : Fields) × (key : KeyRef) × In sig sigs
              × Counted signable sig key
              × (key.owner_id ≡ o))
            owners
    unfolding log_signers
    log_signers_sound signable [] h = subst (All _) (ok-injective h) tt
    log_signers_sound signable (sig ∷ sigs) {owners} h =
        let (counts, counted, h1) = >>=-eq-ok (log_signature outside dir cp signable sig) _ h in
        let (rest, more, h2) = >>=-eq-ok (log_signers outside dir cp signable sigs) _ h1 in
        let later =
          All-weaken _
            (λ o.
              (s : Fields) × (key : KeyRef) × In s (sig ∷ sigs)
              × Counted signable s key
              × (key.owner_id ≡ o))
            rest (λ o (s, key, i, c, e). (s, key, inr i, c, e))
            (log_signers_sound signable sigs more) in
        elim (Option-cases counts) [
          | inl skipped ↦ subst (All _) (ok-injective (rw skipped at h2)) later
          | inr (key, there) ↦ subst (All _) (ok-injective (rw there at h2)) (
            (sig, key, inl refl, log_signature-Counted signable sig (counted ∙ ap ok there), refl),
            later,
          )
        ]

    -- If `verify_checkpoint` returns, it returns at least one owner, and each owner it returns has a good signature on the checkpoint by a
    -- log key.
    pub verify_checkpoint_sound :
        {owners : List String}
        → verify_checkpoint outside cp dir ≡ ok owners
        → (1 ≤ length owners) × All LogSigned owners
    unfolding verify_checkpoint
    verify_checkpoint_sound {owners} h =
        let (signable, covers, h1) = >>=-eq-ok (signable_bytes cp) _ h in
        let (found, searched, h2) =
          >>=-eq-ok (log_signers outside dir cp signable cp.signatures) _ h1 in
        let all_signed =
          All-weaken _ LogSigned found
            (λ o (sig, key, i, c, e). record {
              signable = signable;
              covers = covers;
              sig = sig;
              among = i;
              key = key;
              named = c.named;
              is_log_key = c.is_log_key;
              valid = c.valid;
              scoped = c.scoped;
              checks = c.checks;
              owns = e;
            })
            (log_signers_sound signable cp.signatures searched) in
        go found h2 all_signed
      where
        go :
            (found : List String)
            → (elim found [ [] ↦ err checkpoint_unverified | o ∷ os ↦ ok (o ∷ os) ]) ≡ ok owners
            → All LogSigned found
            → (1 ≤ length owners) × All LogSigned owners
        go [] e p = cc
        go (o ∷ os) e p =
            subst (λ l. (1 ≤ length l) × All LogSigned l) (ok-injective e) (omega arith, p)
