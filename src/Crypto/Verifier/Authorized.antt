-- ===== src/Crypto/Verifier/Authorized.antt =====
-- Whose decision `decision_authorized` (src/approvo/crypto/verifier.py) takes an envelope for.
use approvo.Base.{
  String, str_eq, eq_iff, Bytes, ◌≡◌, refl, sym, ap, ◌∙◌, ◌⊎◌, inl, inr, Bool, true, false, ◌&&◌,
  Bool-cases, Option, none, some, List, [], All-In, In, any, any-In, In-any, subst, arith,
}
use approvo.Result.{ok, >>=-eq-ok, ok-injective}
use approvo.Json.{Value, Fields}
use approvo.Crypto.Outside.{Outside}
use approvo.Crypto.Keys.{KeyRef, KeyDirectory, get_key, scoped_to}
use approvo.Crypto.Envelope.{signable_bytes}
use approvo.Crypto.Verifier.{
  verified_as, signatures_of, verified_signatures, key_in_scope, authorizes, decision_authorized,
}
use approvo.Crypto.Verifier.Authority.{
  IsKeyed, Signed, Made, signature_key-keyid, verified_from_sound, verified_from_complete,
}

-- The key is the approver's own, or an issuer's for this log and the approver is known.
abbrev pub MaySign : String → String → Bool → KeyRef → Type 0
MaySign approver_id log_id known key =
    ((key.key_use ≡ "approver") × (key.owner_id ≡ approver_id))
    ⊎ ((key.key_use ≡ "decision_issuer") × (known ≡ true) × (scoped_to key log_id ≡ true))

in_scope :
    (dir : KeyDirectory) (log_id : String) (key : KeyRef)
    → get_key dir key.keyid ≡ some key
    → key_in_scope dir log_id key.keyid ≡ scoped_to key log_id
in_scope dir log_id key there =
    ap (λ (o : Option KeyRef). elim o [ none ↦ false | some k ↦ scoped_to k log_id ]) there

authorizes-MaySign :
    (approver_id log_id : String) (dir : KeyDirectory) (known : Bool) (key : KeyRef)
    → get_key dir key.keyid ≡ some key
    → authorizes approver_id log_id dir known (verified_as key) ≡ true
    → MaySign approver_id log_id known key
unfolding authorizes
authorizes-MaySign approver_id log_id dir known key there h =
    elim (Bool-cases (str_eq key.key_use "approver" && str_eq key.owner_id approver_id)) [
      | inl own ↦ inl (
        (eq_iff key.key_use "approver").0 (ground (arith, own)),
        (eq_iff key.owner_id approver_id).0 (ground (arith, own)),
      )
      | inr not_own ↦
          let issued : (str_eq key.key_use "decision_issuer"
                && known
                && key_in_scope dir log_id key.keyid)
              ≡ true =
            rw not_own at h in
          inr (
            (eq_iff key.key_use "decision_issuer").0 (ground (arith, issued)),
            ground (arith, issued),
            sym (in_scope dir log_id key there) ∙ ground (arith, issued),
          )
    ]

pub MaySign-authorizes :
    (approver_id log_id : String) (dir : KeyDirectory) (known : Bool) (key : KeyRef)
    → get_key dir key.keyid ≡ some key
    → MaySign approver_id log_id known key
    → authorizes approver_id log_id dir known (verified_as key) ≡ true
unfolding authorizes
MaySign-authorizes approver_id log_id dir known key there (inl (own, owner)) =
    rw ((eq_iff key.key_use "approver").1 own, (eq_iff key.owner_id approver_id).1 owner) refl
MaySign-authorizes approver_id log_id dir known key there (inr (issuer, is_known, scoped)) =
    let issued : (str_eq key.key_use "decision_issuer"
          && known
          && key_in_scope dir log_id key.keyid)
        ≡ true =
      rw ((eq_iff key.key_use "decision_issuer").1 issuer, is_known)
        (in_scope dir log_id key there ∙ scoped) in
    ground (arith, issued)

module _ (outside : Outside) (envelope : Fields) (approver_id log_id : String) (dir : KeyDirectory)
    (at_time : String) (known : Bool) where
  -- The envelope carries a signature over its payload by a key that may sign for the approver.
  pub record Authority : Type 0 where
    pub signable : Bytes
    pub signed : signable_bytes outside envelope ≡ ok signable
    pub signatures : List Value
    pub carried : signatures_of envelope ≡ ok signatures
    pub signature : Value
    pub among : In signature signatures
    pub key : KeyRef
    pub good : Signed outside dir at_time signable signature key
    pub may : MaySign approver_id log_id known key

  -- With every key of the directory under its own key id, and where `decision_authorized` returns: it returns `true` exactly if some
  -- signature of the envelope checks out with a key of the directory that is valid at the time, and the key is an approver key of
  -- this approver, or a decision issuer's key scoped to this log while the approver is known.
  pub decision_authorized_iff :
      {b : Bool}
      → IsKeyed dir
      → decision_authorized outside envelope approver_id log_id dir at_time known ≡ ok b
      → (b ≡ true → Authority) × (Authority → b ≡ true)
  unfolding decision_authorized verified_signatures
  decision_authorized_iff {b} keyed h =
      let (verified, h1, made) = >>=-eq-ok (verified_signatures outside envelope dir at_time) _ h in
      let (signable, signed, h2) = >>=-eq-ok (signable_bytes outside envelope) _ h1 in
      let (signatures, carried, h3) = >>=-eq-ok (signatures_of envelope) _ h2 in
      let result : any (authorizes approver_id log_id dir known) verified ≡ b = ok-injective made in
      let sound = verified_from_sound outside dir at_time signable [] signatures h3 in
      (
        λ yes_b.
            let (r, listed, allows) =
              any-In (authorizes approver_id log_id dir known) verified (result ∙ yes_b) in
            let (v, key, among, good, is_key) =
              All-In (Made outside dir at_time signable signatures) r verified sound listed in
            record {
              signable = signable;
              signed = signed;
              signatures = signatures;
              carried = carried;
              signature = v;
              among = among;
              key = key;
              good = good;
              may =
                  authorizes-MaySign approver_id log_id dir known key
                    (signature_key-keyid dir good.sig keyed good.named)
                    (ap (authorizes approver_id log_id dir known) (sym is_key) ∙ allows);
            },
        λ a.
            let same_bytes : a.signable ≡ signable = ok-injective (sym a.signed ∙ signed) in
            let same_list : a.signatures ≡ signatures = ok-injective (sym a.carried ∙ carried) in
            let good =
              subst (λ s. Signed outside dir at_time s a.signature a.key) same_bytes a.good in
            elim (verified_from_complete outside dir at_time signable [] signatures a.signature
              keyed h3 (subst (In a.signature) same_list a.among) good) [
                | inl seen ↦ cc
                | inr listed ↦
                    sym result
                    ∙ In-any (authorizes approver_id log_id dir known) (verified_as a.key) verified
                        listed
                        (MaySign-authorizes approver_id log_id dir known a.key
                          (signature_key-keyid dir a.good.sig keyed a.good.named) a.may)
              ],
      )
