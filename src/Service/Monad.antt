-- ===== src/Service/Monad.antt =====
-- One call of the service of src/approvo/service.py: what it is configured with, what it reads and changes, and calls in sequence. The state
-- comes back after a raise too, since what was appended stays in the log.
use approvo.Base.{ℕ, ◌+◌, String, Bool, Option, List, Dict}
use approvo.Result.{Error, Result, ok, err}
use approvo.Json.{Fields}
use approvo.Models.Request.{Identity}
use approvo.Policy.Model.{PolicyStore}
use approvo.Crypto.Outside.{Outside}
use approvo.Crypto.Keys.{KeyDirectory}
use approvo.Store.Events.{EventStore}
use approvo.Store.Reservations.{Reservations}

-- What `_append` is asked to seal.
pub record Draft : Type 0 where
  pub event_type : String
  pub payload : Fields
  pub at_time : String
  pub request_id : Option String

-- `clock n` is the `n`th reading of the clock. `early n` and `late n` are what other callers append to the log before the `n`th attempt
-- reads the head, and between that and its own append.
pub record Service : Type 0 where
  pub outside : Outside
  pub log_id : String
  pub key_dir : KeyDirectory
  pub identities : Dict Identity
  pub policy_store : PolicyStore
  pub has_idempotency : Bool
  pub append_attempts : ℕ
  pub max_clock_skew : ℕ
  pub list_repr : List String → String
  pub clock : ℕ → String
  pub early : ℕ → List Draft
  pub late : ℕ → List Draft

pub record State : Type 0 where
  pub events : EventStore
  pub slots : Reservations
  pub readings : ℕ
  pub attempts : ℕ

abbrev pub Call : Type 0 → Type 0
Call A = State → Result A × State

module _ {A : Type 0} where
  abbrev pub pure : A → Call A
  pure a s = (ok a, s)

  abbrev pub raise : Error → Call A
  raise e s = (err e, s)

  abbrev pub lift : Result A → Call A
  lift r s = (r, s)

abbrev pub continue_with : {A B : Type 0} → (A → Call B) → Result A × State → Result B × State
continue_with k (ok a, t) = k a t
continue_with k (err e, t) = (err e, t)

infixl 5 ◌>>=◌
unfoldable pub ◌>>=◌ : {A B : Type 0} → Call A → (A → Call B) → Call B
◌>>=◌ m k s = continue_with k (m s)

-- `self.clock.now()`
abbrev pub now : Service → Call String
now service s = (ok (service.clock s.readings), record s { readings = s.readings + 1 })
