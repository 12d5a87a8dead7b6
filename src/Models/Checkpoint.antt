-- ===== src/Models/Checkpoint.antt =====
-- `Checkpoint` of src/approvo/models.py.
use approvo.Base.{ℕ, pos, String, ◌≡◌, Option, none, List, [], ◌∷◌, ◌++◌, arith}
use approvo.Result.{Result, ok, ◌>>=◌}
use approvo.Json.{Value, int, str, dict, opt_str, Fields, fields}
use approvo.Json.Read.{
  required, optional, as_text, as_nat, as_dict, as_opt_text, as_dicts, dict_list,
  as_dicts-dict_list,
}

abbrev pub checkpoint_schema : String
checkpoint_schema = "approvo/checkpoint/v1"

pub record Checkpoint : Type 0 where
  pub tree_size : ℕ
  pub root_hash : String
  pub published_at : String
  pub log_id : String
  pub prev_root_hash : Option String
  pub signatures : List Fields
  pub schema : String

abbrev pub signed_pairs : Checkpoint → List (String × Value)
signed_pairs c =
    ("schema", str c.schema)
    ∷ ("log_id", str c.log_id)
    ∷ ("tree_size", int (pos c.tree_size))
    ∷ ("root_hash", str c.root_hash)
    ∷ ("published_at", str c.published_at)
    ∷ ("prev_root_hash", opt_str c.prev_root_hash)
    ∷ []

-- What the log key signs: everything except the signatures.
abbrev pub signed_dict : Checkpoint → Value
signed_dict c = dict (fields (signed_pairs c))

unfoldable pub to_dict : Checkpoint → Value
to_dict c = dict (fields (signed_pairs c ++ ("signatures", dict_list c.signatures) ∷ []))

unfoldable pub from_dict : Value → Result Checkpoint
from_dict v = do
  d ← as_dict v
  tree_size ← required as_nat "tree_size" d
  root_hash ← required as_text "root_hash" d
  published_at ← required as_text "published_at" d
  log_id ← optional as_text "log_id" "default" d
  prev_root_hash ← optional as_opt_text "prev_root_hash" none d
  signatures ← optional as_dicts "signatures" [] d
  schema ← optional as_text "schema" checkpoint_schema d
  ok (record {
    tree_size = tree_size;
    root_hash = root_hash;
    published_at = published_at;
    log_id = log_id;
    prev_root_hash = prev_root_hash;
    signatures = signatures;
    schema = schema;
  })

-- Reading back what `to_dict` has written gives the checkpoint again, its signatures in order.
pub checkpoint_round_trip : (c : Checkpoint) → from_dict (to_dict c) ≡ ok c
unfolding to_dict from_dict
checkpoint_round_trip c = ground (arith, as_dicts-dict_list c.signatures)
