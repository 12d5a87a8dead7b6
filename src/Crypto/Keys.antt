-- ===== src/Crypto/Keys.antt =====
-- `KeyRef` and `KeyDirectory` of src/approvo/crypto/keys.py.
pub mod Validity
use approvo.Base.{
  String, str_eq, contains, Bytes, from_hex, ◌≡◌, refl, ap, Bool, true, false, not, Option, none,
  some, List, [], ◌∷◌, map, keep, Dict, lookup, insert, if◌then◌else◌, arith,
}
use approvo.Result.{Result, ok, err, or_raise, key_error, value_error, type_error, ◌>>=◌}
use approvo.Json.{Value, null, str, list, dict, str_list, opt_str, items, Fields, fields, put_field}
use approvo.Json.Read.{
  required, optional, as_text, as_dict, as_opt_text, as_texts, as_texts-str_list, as_dicts,
  dict_list,
}
use approvo.Clock.{Datetime, before_time, parse_rfc3339}

pub record KeyRef : Type 0 where
  pub keyid : String
  pub scheme : String
  pub public : String
  pub owner_id : String
  pub not_before : String
  pub not_after : Option String
  pub revoked_at : Option String
  pub key_use : String
  pub log_ids : Option (List String)

abbrev opt_list : Option (List String) → Value
opt_list none = null
opt_list (some ids) = str_list ids

abbrev as_opt_texts : Value → Result (Option (List String))
as_opt_texts null = ok none
as_opt_texts v = do ids ← as_texts v; ok (some ids)

abbrev pub key_fields : KeyRef → Fields
key_fields k = fields (
    ("keyid", str k.keyid)
    ∷ ("scheme", str k.scheme)
    ∷ ("public", str k.public)
    ∷ ("owner_id", str k.owner_id)
    ∷ ("not_before", str k.not_before)
    ∷ ("not_after", opt_str k.not_after)
    ∷ ("revoked_at", opt_str k.revoked_at)
    ∷ ("key_use", str k.key_use)
    ∷ ("log_ids", opt_list k.log_ids)
    ∷ [])

unfoldable pub to_dict : KeyRef → Value
to_dict k = dict (key_fields k)

unfoldable pub from_dict : Value → Result KeyRef
from_dict v = do
  d ← as_dict v
  keyid ← required as_text "keyid" d
  scheme ← optional as_text "scheme" "ed25519" d
  public ← required as_text "public" d
  owner_id ← required as_text "owner_id" d
  not_before ← required as_text "not_before" d
  not_after ← optional as_opt_text "not_after" none d
  revoked_at ← optional as_opt_text "revoked_at" none d
  key_use ← optional as_text "key_use" "approver" d
  log_ids ← optional as_opt_texts "log_ids" none d
  ok (record {
    keyid = keyid;
    scheme = scheme;
    public = public;
    owner_id = owner_id;
    not_before = not_before;
    not_after = not_after;
    revoked_at = revoked_at;
    key_use = key_use;
    log_ids = log_ids;
  })

-- `bytes.fromhex(self.public)`
unfoldable pub public_bytes : KeyRef → Result Bytes
public_bytes k = or_raise (from_hex k.public) value_error

unfoldable pub scoped_to : KeyRef → String → Bool
scoped_to k log_id = elim k.log_ids [ none ↦ true | some ids ↦ contains ids log_id ]

module _ (parse : String → Option Datetime) where
  -- `limit is not None and t > parse_rfc3339(limit)`
  unfoldable pub is_past : Option String → Datetime → Result Bool
  is_past none t = ok false
  is_past (some limit) t = do end ← parse_rfc3339 parse limit; before_time end t

  -- `limit is not None and t >= parse_rfc3339(limit)`
  unfoldable pub is_reached : Option String → Datetime → Result Bool
  is_reached none t = ok false
  is_reached (some limit) t = do
    end ← parse_rfc3339 parse limit
    early ← before_time t end
    ok (not early)

  unfoldable pub valid_at : KeyRef → String → Result Bool
  unfolding is_past is_reached
  valid_at k at_time = do
    t ← parse_rfc3339 parse at_time
    start ← parse_rfc3339 parse k.not_before
    early ← before_time t start
    if early then ok false else do
      past ← is_past k.not_after t
      if past then ok false else do revoked ← is_reached k.revoked_at t; ok (not revoked)

abbrev pub KeyDirectory : Type 0
KeyDirectory = Dict KeyRef

-- `add`, and the body of the loop of `extend`
abbrev pub add_key : KeyRef → KeyDirectory → KeyDirectory
add_key k dir = insert k.keyid k dir

unfoldable pub extend : List KeyRef → KeyDirectory → KeyDirectory
extend [] dir = dir
extend (k ∷ ks) dir = extend ks (add_key k dir)

-- `KeyDirectory(keys)`
abbrev pub directory : List KeyRef → KeyDirectory
directory ks = extend ks []

abbrev pub get_key : KeyDirectory → String → Option KeyRef
get_key dir keyid = lookup keyid dir

unfoldable pub revoke : String → String → KeyDirectory → Result KeyDirectory
unfolding from_dict
revoke keyid revoked_at dir = do
  key ← or_raise (get_key dir keyid) key_error
  changed ← from_dict (dict (put_field "revoked_at" (str revoked_at) (key_fields key)))
  ok (insert keyid changed dir)

-- `all`
abbrev pub all_keys : KeyDirectory → List KeyRef
all_keys dir = map (λ (e : String × KeyRef). e.1) dir

abbrev pub by_use : String → KeyDirectory → List KeyRef
by_use key_use dir = keep (λ (k : KeyRef). str_eq k.key_use key_use) (all_keys dir)

pub as_opt_texts-opt_list : (ids : Option (List String)) → as_opt_texts (opt_list ids) ≡ ok ids
as_opt_texts-opt_list none = refl
as_opt_texts-opt_list (some ids) = ap (λ m. m >>= λ names. ok (some names)) (as_texts-str_list ids)

-- Reading back what `KeyRef.to_dict` has written gives the key again.
pub key_round_trip : (k : KeyRef) → from_dict (to_dict k) ≡ ok k
unfolding to_dict from_dict
key_round_trip k = ground (arith, as_opt_texts-opt_list k.log_ids)
