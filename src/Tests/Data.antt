-- ===== src/Tests/Data.antt =====
-- Small stand-ins for the libraries that src/approvo calls, and data to run the model on.
use approvo.Base.{
  zero, suc, ◌%◌, String, codes, Bytes, true, Option, none, some, List, [], ◌∷◌, length, refl,
  arith,
}
use approvo.Result.{Result, ok, err}
use approvo.Json.{str, dict, list, nil, cons, Fields, end, fields}
use approvo.Clock.{Datetime}
use approvo.Merkle.Complete.{IsDigest}
use approvo.Crypto.Outside.{Outside}
use approvo.Crypto.Keys.{KeyRef}
use approvo.Models.Request.{Identity, ApprovalRequest}
use approvo.Models.Decision.{Decision}
use approvo.Models.Views.{RequestView}
use approvo.Models.Entry.{LedgerEntry}
use approvo.Policy.Model.{Policy}
use approvo.Store.Events.{empty_store}
use approvo.Service.Monad.{Draft, Service, State}

-- A digest that tells lengths apart.
abbrev pub toy_digest : Bytes → Bytes
toy_digest bs =
    length bs % 256
    ∷ 1
    ∷ 2
    ∷ 3
    ∷ 4
    ∷ 5
    ∷ 6
    ∷ 7
    ∷ 8
    ∷ 9
    ∷ 10
    ∷ 11
    ∷ 12
    ∷ 13
    ∷ 14
    ∷ 15
    ∷ 16
    ∷ 17
    ∷ 18
    ∷ 19
    ∷ 20
    ∷ 21
    ∷ 22
    ∷ 23
    ∷ 24
    ∷ 25
    ∷ 26
    ∷ 27
    ∷ 28
    ∷ 29
    ∷ 30
    ∷ 31
    ∷ []

pub toy_digest-IsDigest : IsDigest toy_digest
toy_digest-IsDigest = record { size = λ x. refl; bytes = λ x. ground arith }

-- A time is written with as many letters as it has microseconds.
abbrev pub toy_parse : String → Option Datetime
toy_parse s = some (record { wall = length (codes s); offset = some 86400000000 })

abbrev pub request : ApprovalRequest
request = record {
  kind = "release";
  subject = fields (("version", str "1.2") ∷ []);
  requested_by = "ann";
  policy_id = "p";
  policy_digest = "d";
  created_at = "i";
  not_valid_after = "iiiiii";
  nonce = "";
  schema = "approvo/request/v1";
}

abbrev pub policy : Policy
policy = record {
  id = "p";
  kind = "release";
  allowed_approvers = "bob" ∷ "role:safety" ∷ [];
  threshold = 2;
  require_distinct_roles = "safety" ∷ [];
  separation_of_duties = true;
  reject_is_terminal = true;
  max_age_seconds = 60;
  required_subject_fields = [];
  schema = "approvo/policy/v1";
}

abbrev pub people : List (String × Identity)
people =
    ("ann", record { id = "ann"; roles = "dev" ∷ [] })
    ∷ ("bob", record { id = "bob"; roles = "dev" ∷ [] })
    ∷ ("eve", record { id = "eve"; roles = "safety" ∷ [] })
    ∷ []

abbrev pub vote : String → String → String → String → Decision
vote context who verdict decided_at = record {
  request_id = "r";
  context_digest = context;
  verdict = verdict;
  approver_id = who;
  decided_at = decided_at;
  comment = "";
  idempotency_key = "";
  authn = none;
  schema = "approvo/decision/v1";
}

abbrev pub key : KeyRef
key = record {
  keyid = "k";
  scheme = "toy";
  public = "00";
  owner_id = "bob";
  not_before = "i";
  not_after = some "iiiiii";
  revoked_at = none;
  key_use = "approver";
  log_ids = none;
}

abbrev pub log_key : KeyRef
log_key = record key { key_use = "log" }

abbrev pub outside : Outside
outside = record {
  sha256 = toy_digest;
  parse = toy_parse;
  b64encode = λ bs. "";
  b64decode = λ s. some [];
  loads = λ bs. none;
  schemes = ("toy", λ raw sig msg. true) ∷ [];
}

abbrev pub envelope : Fields
envelope = fields (
    ("payloadType", str "t")
    ∷ ("payload", str "")
    ∷ ("signatures", list (cons (dict (fields (("keyid", str "k") ∷ ("sig", str "") ∷ []))) nil))
    ∷ [])

abbrev pub draft : Draft
draft = record { event_type = "note"; payload = end; at_time = "i"; request_id = some "r" }

-- Another caller is faster at the first attempt.
abbrev pub service : Service
service = record {
  outside = outside;
  log_id = "default";
  key_dir = ("k", key) ∷ [];
  identities = people;
  policy_store = ("p", policy) ∷ [];
  has_idempotency = true;
  append_attempts = 8;
  max_clock_skew = 0;
  list_repr = λ names. "";
  clock = λ n. "ii";
  early = λ n. [];
  late = λ n. elim n [ zero ↦ draft ∷ [] | suc m ↦ [] ];
}

abbrev pub start : State
start = record { events = empty_store; slots = []; readings = 0; attempts = 0 }

abbrev pub blank : LedgerEntry
blank = record {
  seq = 0;
  recorded_at = "";
  prev_hash = "";
  event_type = "";
  request_id = none;
  payload = end;
  entry_hash = "";
}

abbrev pub ok_or : {A : Type 0} → Result A → A → A
ok_or (ok a) b = a
ok_or (err e) b = b

abbrev pub view : RequestView
view = record {
  request_id = "r";
  kind = "release";
  status = "approved";
  requested_by = "ann";
  policy_id = "p";
  subject = end;
  created_at = "i";
  not_valid_after = "ii";
  updated_at = "i";
  approvals = 2;
  threshold = 2;
  approvers = "bob" ∷ "eve" ∷ [];
  pending_for = [];
  last_seq = 3;
}
