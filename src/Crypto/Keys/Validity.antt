-- ===== src/Crypto/Keys/Validity.antt =====
-- `KeyRef.valid_at` and `KeyDirectory.revoke` of src/approvo/crypto/keys.py.
use approvo.Base.{
  String, str_eq, ◌≡◌, refl, ap, ◌∙◌, inl, inr, Bool-cases, true, false, Option, none, some,
  lookup-insert, insert, if◌then◌else◌, arith,
}
use approvo.Result.{ok, >>=-eq-ok}
use approvo.Clock.{Datetime, before_time, parse_rfc3339}
use approvo.Json.{str, dict, put_field}
use approvo.Crypto.Keys.{
  KeyRef, key_fields, from_dict, as_opt_texts-opt_list, is_past, is_reached, valid_at, KeyDirectory,
  get_key, revoke,
}

change-key :
    (k : KeyRef) (revoked_at : String)
    → from_dict (dict (put_field "revoked_at" (str revoked_at) (key_fields k)))
      ≡ ok (record k { revoked_at = some revoked_at })
unfolding from_dict
change-key k revoked_at = ground (arith, as_opt_texts-opt_list k.log_ids)

-- Revoking a key that is in the directory succeeds; its entry then has the given time of revocation and is otherwise unchanged,
-- and so is every other entry.
pub revoke-get_key :
    (dir : KeyDirectory) (keyid revoked_at : String) {k : KeyRef}
    → get_key dir keyid ≡ some k
    → (after : KeyDirectory) × (revoke keyid revoked_at dir ≡ ok after)
      × ((other : String)
          → get_key after other ≡ (
              if str_eq keyid other
              then some (record k { revoked_at = some revoked_at })
              else get_key dir other))
unfolding revoke
revoke-get_key dir keyid revoked_at {k} found = (
  insert keyid (record k { revoked_at = some revoked_at }) dir,
  rw (found, change-key k revoked_at) refl,
  λ other. lookup-insert keyid other (record k { revoked_at = some revoked_at }) dir,
)

module _ (parse : String → Option Datetime) where
  -- The end of a window, where there is one, is read and is not before the time.
  abbrev pub NotPast : Option String → Datetime → Type 0
  NotPast none t = Unit
  NotPast (some limit) t =
      (end : Datetime) × (parse_rfc3339 parse limit ≡ ok end) × (before_time end t ≡ ok false)

  -- The time is before a revocation, where there is one.
  abbrev pub NotRevoked : Option String → Datetime → Type 0
  NotRevoked none t = Unit
  NotRevoked (some limit) t =
      (end : Datetime) × (parse_rfc3339 parse limit ≡ ok end) × (before_time t end ≡ ok true)

  -- The key's window at a time, bounds included, and before its revocation.
  pub record InForce (k : KeyRef) (at_time : String) : Type 0 where
    pub time : Datetime
    pub read : parse_rfc3339 parse at_time ≡ ok time
    pub start : Datetime
    pub start_read : parse_rfc3339 parse k.not_before ≡ ok start
    pub started : before_time time start ≡ ok false
    pub not_past : NotPast k.not_after time
    pub not_revoked : NotRevoked k.revoked_at time

  is_past-NotPast : (o : Option String) (t : Datetime) → is_past parse o t ≡ ok false → NotPast o t
  unfolding is_past
  is_past-NotPast none t h = tt
  is_past-NotPast (some limit) t h = >>=-eq-ok (parse_rfc3339 parse limit) _ h

  NotPast-is_past : (o : Option String) (t : Datetime) → NotPast o t → is_past parse o t ≡ ok false
  unfolding is_past
  NotPast-is_past none t h = refl
  NotPast-is_past (some limit) t (end, read, early) = rw read early

  is_reached-NotRevoked :
      (o : Option String) (t : Datetime) → is_reached parse o t ≡ ok false → NotRevoked o t
  unfolding is_reached
  is_reached-NotRevoked none t h = tt
  is_reached-NotRevoked (some limit) t h =
      let (end, read, h1) = >>=-eq-ok (parse_rfc3339 parse limit) _ h in
      let (early, tested, h2) = >>=-eq-ok (before_time t end) _ h1 in
      elim (Bool-cases early) [
        | inl yes_early ↦ (end, read, tested ∙ ap ok yes_early)
        | inr late ↦ cc
      ]

  NotRevoked-is_reached :
      (o : Option String) (t : Datetime) → NotRevoked o t → is_reached parse o t ≡ ok false
  unfolding is_reached
  NotRevoked-is_reached none t h = refl
  NotRevoked-is_reached (some limit) t (end, read, early) = rw (read, early) refl

  valid_at-InForce :
      (k : KeyRef) (at_time : String) → valid_at parse k at_time ≡ ok true → InForce k at_time
  unfolding valid_at
  valid_at-InForce k at_time h =
      let (t, read, h1) = >>=-eq-ok (parse_rfc3339 parse at_time) _ h in
      let (start, start_read, h2) = >>=-eq-ok (parse_rfc3339 parse k.not_before) _ h1 in
      let (early, early_tested, h3) = >>=-eq-ok (before_time t start) _ h2 in
      elim (Bool-cases early) [
        | inl too_early ↦ absurd (ground (arith, too_early, h3))
        | inr started ↦
            let (past, past_tested, h4) =
              >>=-eq-ok (is_past parse k.not_after t) _ (rw started at h3) in
            elim (Bool-cases past) [
              | inl too_late ↦ absurd (ground (arith, too_late, h4))
              | inr open_still ↦
                  let (revoked, revoked_tested, h5) =
                    >>=-eq-ok (is_reached parse k.revoked_at t) _ (rw open_still at h4) in
                  record {
                    time = t;
                    read = read;
                    start = start;
                    start_read = start_read;
                    started = early_tested ∙ ap ok started;
                    not_past = is_past-NotPast k.not_after t (past_tested ∙ ap ok open_still);
                    not_revoked =
                        is_reached-NotRevoked k.revoked_at t
                          (revoked_tested ∙ ap ok (ground (arith, h5)));
                  }
            ]
      ]

  -- `valid_at` answers yes exactly if the time and the limits that the key has can be read, the time is neither before
  -- `not_before` nor after `not_after`, and it is before `revoked_at`.
  pub valid_at_iff :
      (k : KeyRef) (at_time : String)
      → (valid_at parse k at_time ≡ ok true → InForce k at_time)
        × (InForce k at_time → valid_at parse k at_time ≡ ok true)
  unfolding valid_at
  valid_at_iff k at_time = (
    valid_at-InForce k at_time,
    λ f.
        rw
          (
            f.read,
            f.start_read,
            f.started,
            NotPast-is_past k.not_after f.time f.not_past,
            NotRevoked-is_reached k.revoked_at f.time f.not_revoked,
          )
          refl,
  )
