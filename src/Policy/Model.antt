-- ===== src/Policy/Model.antt =====
-- `Policy` and `InMemoryPolicyStore` of src/approvo/policy/model.py.
use approvo.Base.{
  ℕ, pos, String, Bytes, ◌≡◌, Bool, true, false, not, none, some, List, [], ◌∷◌, keep, Dict, lookup,
  insert,
}
use approvo.Result.{Result, ok, err, or_raise, unknown_policy, subject_constraint_violation, ◌>>=◌}
use approvo.Json.{Value, bool, int, str, dict, str_list, Fields, fields, get_field}
use approvo.Json.Read.{
  required, optional, as_text, as_nat, as_bool, as_dict, as_texts, as_texts-str_list,
}
use approvo.Hash.{canonical_hash}

abbrev policy_schema : String
policy_schema = "approvo/policy/v1"

pub record Policy : Type 0 where
  pub id : String
  pub kind : String
  pub allowed_approvers : List String
  pub threshold : ℕ
  pub require_distinct_roles : List String
  pub separation_of_duties : Bool
  pub reject_is_terminal : Bool
  pub max_age_seconds : ℕ
  pub required_subject_fields : List String
  pub schema : String

unfoldable pub to_dict : Policy → Value
to_dict p = dict (
    fields (
      ("schema", str p.schema)
      ∷ ("id", str p.id)
      ∷ ("kind", str p.kind)
      ∷ ("allowed_approvers", str_list p.allowed_approvers)
      ∷ ("threshold", int (pos p.threshold))
      ∷ ("require_distinct_roles", str_list p.require_distinct_roles)
      ∷ ("separation_of_duties", bool p.separation_of_duties)
      ∷ ("reject_is_terminal", bool p.reject_is_terminal)
      ∷ ("max_age_seconds", int (pos p.max_age_seconds))
      ∷ ("required_subject_fields", str_list p.required_subject_fields)
      ∷ []))

-- Seven days.
abbrev default_max_age : ℕ
default_max_age = 604800

unfoldable pub from_dict : Value → Result Policy
from_dict v = do
  d ← as_dict v
  id ← required as_text "id" d
  kind ← required as_text "kind" d
  allowed_approvers ← required as_texts "allowed_approvers" d
  threshold ← required as_nat "threshold" d
  require_distinct_roles ← optional as_texts "require_distinct_roles" [] d
  separation_of_duties ← optional as_bool "separation_of_duties" true d
  reject_is_terminal ← optional as_bool "reject_is_terminal" true d
  max_age_seconds ← optional as_nat "max_age_seconds" default_max_age d
  required_subject_fields ← optional as_texts "required_subject_fields" [] d
  schema ← optional as_text "schema" policy_schema d
  ok (record {
    id = id;
    kind = kind;
    allowed_approvers = allowed_approvers;
    threshold = threshold;
    require_distinct_roles = require_distinct_roles;
    separation_of_duties = separation_of_duties;
    reject_is_terminal = reject_is_terminal;
    max_age_seconds = max_age_seconds;
    required_subject_fields = required_subject_fields;
    schema = schema;
  })

-- Reading back what `to_dict` has written gives the policy again.
pub policy_round_trip : (p : Policy) → from_dict (to_dict p) ≡ ok p
unfolding to_dict from_dict
policy_round_trip p = rw (
  as_texts-str_list p.allowed_approvers,
  as_texts-str_list p.require_distinct_roles,
  as_texts-str_list p.required_subject_fields,
)

abbrev has_field : Fields → String → Bool
has_field d k = elim (get_field k d) [ none ↦ false | some v ↦ true ]

-- `[f for f in self.required_subject_fields if f not in subject]`
abbrev pub missing_fields : Policy → Fields → List String
missing_fields p subject = keep (λ f. not (has_field subject f)) p.required_subject_fields

unfoldable pub validate_subject : Policy → Fields → Result (Unit {0})
validate_subject p subject = elim (missing_fields p subject) [
  | [] ↦ ok tt
  | f ∷ fs ↦ err subject_constraint_violation
]

module _ (sha256 : Bytes → Bytes) where
  unfoldable pub digest : Policy → Result String
  unfolding to_dict
  digest p = canonical_hash sha256 (to_dict p)

abbrev pub PolicyStore : Type 0
PolicyStore = Dict Policy

abbrev pub add : Policy → PolicyStore → PolicyStore
add p store = insert p.id p store

unfoldable pub get : PolicyStore → String → Result Policy
get store policy_id = or_raise (lookup policy_id store) unknown_policy
