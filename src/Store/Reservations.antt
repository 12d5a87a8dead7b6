-- ===== src/Store/Reservations.antt =====
-- `MemoryIdempotencyStore` of tests/memory_stores.py.
use approvo.Base.{
  String, str_eq, eq_iff, eq_refl, ◌≡◌, ◌≢◌, refl, ap, ◌∙◌, Bool, true, false, Option, none, some,
  Dict, lookup, lookup-insert, lookup-erase, insert, erase, if◌then◌else◌, arith,
}
use approvo.Result.{Result, ok, err, or_raise, idempotency_conflict, key_error, ◌>>=◌}

-- The response of a decision is `{"request_id": ...}`; its one text is kept.
pub record Slot : Type 0 where
  pub fingerprint : String
  pub response : Option String

pub record Reservation : Type 0 where
  pub won : Bool
  pub fingerprint : String
  pub response : Option String

abbrev pub Reservations : Type 0
Reservations = Dict Slot

abbrev answer : String → String → Reservations → Option Slot → Result (Reservation × Reservations)
answer key fingerprint slots none = ok (
  record { won = true; fingerprint = fingerprint; response = none },
  insert key (record { fingerprint = fingerprint; response = none }) slots,
)
answer key fingerprint slots (some slot) =
    if str_eq slot.fingerprint fingerprint
    then ok (record { won = false; fingerprint = fingerprint; response = slot.response }, slots)
    else err idempotency_conflict

unfoldable pub reserve : String → String → Reservations → Result (Reservation × Reservations)
reserve key fingerprint slots = answer key fingerprint slots (lookup key slots)

unfoldable pub complete : String → String → Reservations → Result Reservations
complete key response slots = do
  slot ← or_raise (lookup key slots) key_error
  ok (insert key (record slot { response = some response }) slots)

abbrev pub release : String → Reservations → Reservations
release key slots = erase key slots

-- After one caller has won a key: a second caller with the same fingerprint loses, with no response until the winner has completed and
-- with the winner's response from then on; one with another fingerprint is refused; and once the key is released it can be won again.
pub reserve-once :
    (key fingerprint other response : String) (slots : Reservations)
    → lookup key slots ≡ none
    → (won done : Reservations) × (reserve key fingerprint slots
        ≡ ok (record { won = true; fingerprint = fingerprint; response = none }, won))
      × (reserve key fingerprint won
          ≡ ok (record { won = false; fingerprint = fingerprint; response = none }, won))
      × (complete key response won ≡ ok done)
      × (reserve key fingerprint done
          ≡ ok (record { won = false; fingerprint = fingerprint; response = some response }, done))
      × (fingerprint ≢ other → reserve key other won ≡ err idempotency_conflict)
      × (lookup key (release key won) ≡ none)
unfolding reserve complete
reserve-once key fingerprint other response slots free =
    let slot : Slot = record { fingerprint = fingerprint; response = none } in
    let closed : Slot = record { fingerprint = fingerprint; response = some response } in
    let won = insert key slot slots in
    let done = insert key closed won in
    let self = eq_refl key in
    let found : lookup key won ≡ some slot = lookup-insert key key slot slots ∙ rw self refl in
    let found_again : lookup key done ≡ some closed =
      lookup-insert key key closed won ∙ rw self refl in
    (
      won,
      done,
      ap (answer key fingerprint slots) free,
      ap (answer key fingerprint won) found ∙ rw (eq_refl fingerprint) refl,
      ap
          (λ o. or_raise o key_error >>= λ (s : Slot).
            ok (insert key (record s { response = some response }) won))
          found,
      ap (answer key fingerprint done) found_again ∙ rw (eq_refl fingerprint) refl,
      λ differ. ap (answer key other won) found ∙ ground (arith, eq_iff fingerprint other, differ),
      lookup-erase key key won ∙ rw self refl,
    )
