-- ===== src/Crypto/Verifier/Authority.antt =====
-- Which signatures `verified_signatures` (src/approvo/crypto/verifier.py) returns.
use approvo.Base.{
  String, str_eq, eq_iff, contains, Bytes, ◌≡◌, refl, sym, ap, ◌∙◌, ◌⊎◌, inl, inr, true, ◌&&◌,
  Bool-cases, Option-cases, Option, none, some, some_inj, List, [], ◌∷◌, All, All-weaken, In,
  lookup-All, subst, arith,
}
use approvo.Result.{Result, ok, >>=-eq-ok, ok-injective}
use approvo.Json.{Value, str, Fields, get_field}
use approvo.Crypto.Outside.{Outside}
use approvo.Crypto.Keys.{KeyRef, KeyDirectory, get_key, valid_at}
use approvo.Crypto.Verifier.{
  VerifiedSignature, verified_as, get_value, signature_key, as_signature, checks_out,
  signature_counts, verified_from,
}

-- Every key stands under its own key id, as `add`, `extend` and `revoke` leave it.
abbrev pub IsKeyed : KeyDirectory → Type 0
IsKeyed dir = All (λ (e : String × KeyRef). e.1.keyid ≡ e.0) dir

pub signature_key-keyid :
    (dir : KeyDirectory) (sig : Fields) {k : KeyRef}
    → IsKeyed dir
    → signature_key dir sig ≡ ok (some k)
    → get_key dir k.keyid ≡ some k
signature_key-keyid dir sig {k} keyed h = elim (Option-cases (get_field "keyid" sig)) [
  | inl absent ↦ go "" (ok-injective (rw (signature_key, absent) at h))
  | inr (v, there) ↦ by_value v (rw (signature_key, there) at h)
]
  where
    go : (s : String) → get_key dir s ≡ some k → get_key dir k.keyid ≡ some k
    go s found =
        ap (get_key dir) (lookup-All (λ (e : String × KeyRef). e.1.keyid ≡ e.0) s dir found keyed)
        ∙ found

    by_value : (v : Value) → get_value dir v ≡ ok (some k) → get_key dir k.keyid ≡ some k
    by_value (str s) e = go s (ok-injective e)
    by_value v e = cc

module _ (outside : Outside) (dir : KeyDirectory) (at_time : String) where
  -- The signature names a key of the directory that is valid at the time, and checks out with it.
  pub record Signed (signable : Bytes) (v : Value) (key : KeyRef) : Type 0 where
    pub sig : Fields
    pub shape : as_signature v ≡ ok sig
    pub named : signature_key dir sig ≡ ok (some key)
    pub valid : valid_at outside.parse key at_time ≡ ok true
    pub checks : checks_out outside key sig signable ≡ true

  signature_counts-Signed :
      (signable : Bytes) (v : Value) {key : KeyRef}
      → signature_counts outside dir at_time signable v ≡ ok (some key)
      → Signed signable v key
  unfolding signature_counts
  signature_counts-Signed signable v {key} h =
      let (sig, shape, h1) = >>=-eq-ok (as_signature v) _ h in
      let (found, named, h2) = >>=-eq-ok (signature_key dir sig) _ h1 in
      elim (Option-cases found) [
        | inl absent ↦ absurd (ground (arith, absent, h2))
        | inr (k, there) ↦
            let (valid, tested, h3) =
              >>=-eq-ok (valid_at outside.parse k at_time) _ (rw there at h2) in
            elim (Bool-cases (valid && checks_out outside k sig signable)) [
              | inr fails ↦ absurd (ground (arith, fails, h3))
              | inl passes ↦
                  let same : k ≡ key = some_inj (ok-injective (rw passes at h3)) in
                  subst (Signed signable v) same (record {
                    sig = sig;
                    shape = shape;
                    named = named ∙ ap ok there;
                    valid = tested ∙ ap ok (ground (arith, passes));
                    checks = ground (arith, passes);
                  })
            ]
      ]

  Signed-signature_counts :
      (signable : Bytes) (v : Value) {key : KeyRef}
      → Signed signable v key
      → signature_counts outside dir at_time signable v ≡ ok (some key)
  unfolding signature_counts
  Signed-signature_counts signable v s = rw (s.shape, s.named, s.valid, s.checks) refl

  -- The record is made from a key of a signature in the list.
  abbrev pub Made : Bytes → List Value → VerifiedSignature → Type 0
  Made signable vs r =
      (v : Value) × (key : KeyRef) × In v vs × Signed signable v key × (r ≡ verified_as key)

  Made-there :
      (signable : Bytes) (v : Value) (vs : List Value) (r : VerifiedSignature)
      → Made signable vs r
      → Made signable (v ∷ vs) r
  Made-there signable v vs r (w, key, i, s, e) = (w, key, inr i, s, e)

  pub verified_from_sound :
      (signable : Bytes) (seen : List String) (vs : List Value) {out : List VerifiedSignature}
      → verified_from outside dir at_time signable seen vs ≡ ok out
      → All (Made signable vs) out
  unfolding verified_from
  verified_from_sound signable seen [] h = subst (All (Made signable [])) (ok-injective h) tt
  verified_from_sound signable seen (v ∷ vs) {out} h =
      let (counts, counted, h1) = >>=-eq-ok (signature_counts outside dir at_time signable v) _ h in
      let later : (seen' : List String) (o : List VerifiedSignature)
          → verified_from outside dir at_time signable seen' vs ≡ ok o
          → All (Made signable (v ∷ vs)) o =
        λ seen' o e.
          All-weaken (Made signable vs) (Made signable (v ∷ vs)) o (Made-there signable v vs)
            (verified_from_sound signable seen' vs e) in
      elim (Option-cases counts) [
        | inl skipped ↦ later seen out (rw skipped at h1)
        | inr (key, counts_key) ↦
            let h2 = rw counts_key at h1 in
            elim (Bool-cases (contains seen key.keyid)) [
              | inl again ↦ later seen out (rw again at h2)
              | inr fresh ↦
                  let (rest, more, made) =
                    >>=-eq-ok (verified_from outside dir at_time signable (key.keyid ∷ seen) vs) _
                      (rw fresh at h2) in
                  subst (All (Made signable (v ∷ vs))) (ok-injective made) (
                    (
                      v,
                      key,
                      inl refl,
                      signature_counts-Signed signable v (counted ∙ ap ok counts_key),
                      refl,
                    ),
                    later (key.keyid ∷ seen) rest more,
                  )
            ]
      ]

  same_key :
      (signable : Bytes) (v w : Value) {k l : KeyRef}
      → IsKeyed dir
      → Signed signable v k
      → Signed signable w l
      → k.keyid ≡ l.keyid
      → k ≡ l
  same_key signable v w keyed s t e = some_inj (
      sym (signature_key-keyid dir s.sig keyed s.named)
      ∙ ap (get_key dir) e
      ∙ signature_key-keyid dir t.sig keyed t.named)

  pub verified_from_complete :
      (signable : Bytes) (seen : List String) (vs : List Value) (w : Value) {key : KeyRef}
      {out : List VerifiedSignature}
      → IsKeyed dir
      → verified_from outside dir at_time signable seen vs ≡ ok out
      → In w vs
      → Signed signable w key
      → (contains seen key.keyid ≡ true) ⊎ In (verified_as key) out
  unfolding verified_from
  verified_from_complete signable seen [] w keyed h i s = absurd i
  verified_from_complete signable seen (v ∷ vs) w {key} {out} keyed h i s =
      let (counts, counted, h1) = >>=-eq-ok (signature_counts outside dir at_time signable v) _ h in
      elim (Option-cases counts) [
        | inl skipped ↦ elim i [
          | inl here ↦
              let now = Signed-signature_counts signable w s in
              absurd (
                differ (
                  sym (counted ∙ ap ok skipped)
                  ∙ ap (signature_counts outside dir at_time signable) (sym here)
                  ∙ now))
          | inr there ↦ verified_from_complete signable seen vs w keyed (rw skipped at h1) there s
        ]
        | inr (k, counts_key) ↦
            let h2 = rw counts_key at h1 in
            let s' = signature_counts-Signed signable v (counted ∙ ap ok counts_key) in
            let here_same : w ≡ v → k ≡ key = λ e. some_inj (
              ok-injective (
                sym (counted ∙ ap ok counts_key)
                ∙ ap (signature_counts outside dir at_time signable) (sym e)
                ∙ Signed-signature_counts signable w s)) in
            elim (Bool-cases (contains seen k.keyid)) [
              | inl again ↦ elim i [
                | inl here ↦
                    inl (ap (λ (x : KeyRef). contains seen x.keyid) (sym (here_same here)) ∙ again)
                | inr there ↦
                    verified_from_complete signable seen vs w keyed (rw again at h2) there s
              ]
              | inr fresh ↦
                  let (rest, more, made) =
                    >>=-eq-ok (verified_from outside dir at_time signable (k.keyid ∷ seen) vs) _
                      (rw fresh at h2) in
                  elim i [
                    | inl here ↦ inr (
                        subst (In (verified_as key)) (ok-injective made)
                          (inl (ap verified_as (sym (here_same here)))))
                    | inr there ↦
                        elim (verified_from_complete signable (k.keyid ∷ seen) vs w keyed more there
                          s) [
                            | inr listed ↦
                                inr (subst (In (verified_as key)) (ok-injective made) (inr listed))
                            | inl known ↦ elim (Bool-cases (str_eq k.keyid key.keyid)) [
                              | inl equal ↦ inr (
                                  subst (In (verified_as key)) (ok-injective made) (
                                    inl (
                                      ap verified_as (
                                        sym (
                                          same_key signable v w keyed s' s
                                            ((eq_iff k.keyid key.keyid).0 equal))))))
                              | inr other ↦ inl (rw other at known)
                            ]
                          ]
                  ]
            ]
      ]
    where
      differ : {k : KeyRef} → ◌≡◌ {A = Result (Option KeyRef)} (ok none) (ok (some k)) → ⊥
      differ e = cc
