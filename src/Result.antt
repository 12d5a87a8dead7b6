-- ===== src/Result.antt =====
-- The exceptions that the program raises (src/approvo/errors.py, and the built-in ones that it meets),
-- and the monad of code that may raise. Texts of messages are not modelled.
use approvo.Base.{◌≡◌, ◌⊎◌, inl, inr, refl, Bool, true, false, Option, none, some}

pub data Error : Type 0 where
  request_not_found unknown_policy policy_mismatch subject_constraint_violation : Error
  idempotency_conflict challenge_expired signature_invalid : Error
  ledger_conflict concurrency_exhausted : Error
  key_provider_error key_resolution_error unsupported_algorithm : Error
  chain_broken entry_hash_mismatch seq_gap checkpoint_unverified consistency_failure : Error
  verification_failed key_not_authorized key_expired_or_revoked separation_of_duties_violation :
      Error
  request_expired store_error signing_error ledger_tampered approvo_error : Error
  not_canonicalizable key_error value_error type_error attribute_error index_error assertion_error
        overflow_error os_error not_implemented duplicate_key :
      Error

pub data Result {ℓ} (A : Type ℓ) : Type ℓ where
  err : Error → Result A
  ok : A → Result A

-- `if x is None: raise e`
abbrev pub or_raise {ℓ} : {A : Type ℓ} → Option A → Error → Result A
or_raise none e = err e
or_raise (some a) e = ok a

pub or_raise-eq-ok {ℓ} :
    {A : Type ℓ} (o : Option A) (e : Error) {a : A} → or_raise o e ≡ ok a → o ≡ some a
or_raise-eq-ok none e h = cc
or_raise-eq-ok (some b) e h = cc

infixl 5 ◌>>=◌
abbrev pub ◌>>=◌ {ℓ κ} : {A : Type ℓ} {B : Type κ} → Result A → (A → Result B) → Result B
err e >>= next = err e
ok a >>= next = next a

-- `if not test: raise e`
abbrev pub guard : Bool → Error → Result (Unit {0})
guard false e = err e
guard true e = ok tt

infixl 5 ◌>>◌
abbrev pub ◌>>◌ {ℓ} : {B : Type ℓ} → Result (Unit {0}) → Result B → Result B
test >> rest = test >>= λ _. rest

-- A chain that succeeds has succeeded at its first link.
pub >>=-eq-ok {ℓ κ} :
    {A : Type ℓ} {B : Type κ} (first : Result A) (next : A → Result B) {end : B}
    → (first >>= next) ≡ ok end
    → (made : A) × (first ≡ ok made) × (next made ≡ ok end)
>>=-eq-ok (err e) next chained = cc
>>=-eq-ok (ok made) next chained = (made, refl, chained)

pub ok-injective {ℓ} : {A : Type ℓ} {a b : A} → ok a ≡ ok b → a ≡ b
ok-injective h = cc

pub Result-cases {ℓ} :
    {A : Type ℓ} (m : Result A) → ((a : A) × (m ≡ ok a)) ⊎ ((e : Error) × (m ≡ err e))
Result-cases (ok a) = inl (a, refl)
Result-cases (err e) = inr (e, refl)
