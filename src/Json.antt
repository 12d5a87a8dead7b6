-- ===== src/Json.antt =====
-- Values as `json` and the converters of src/approvo/models.py pass them, and the operations
-- on dictionaries that the program uses.
pub mod Canonical
pub mod Read
pub mod Scan
pub mod Atoms
pub mod Injective
use approvo.Base.{
  ℕ, ℤ, String, str_eq, ◌≡◌, Bool, Option, none, some, List, [], ◌∷◌, map, if◌then◌else◌,
}

-- `float` stands for any floating-point number and `opaque` for an object of any other type;
-- `odd_key` is an entry of a dictionary whose key is no text.
mutual
  pub data Value : Type 0 where
    null : Value
    bool : Bool → Value
    int : ℤ → Value
    float : ℕ → Value
    str : String → Value
    list : Items → Value
    tuple : Items → Value
    dict : Fields → Value
    opaque : Value

  pub data Items : Type 0 where
    nil : Items
    cons : Value → Items → Items

  pub data Fields : Type 0 where
    end : Fields
    field : String → Value → Fields → Fields
    odd_key : Value → Fields → Fields

-- `d.get(k)`
abbrev pub get_field : String → Fields → Option Value
get_field k end = none
get_field k (field j v fs) = if str_eq j k then some v else get_field k fs
get_field k (odd_key v fs) = get_field k fs

-- `{**d, "k": v}`
abbrev pub put_field : String → Value → Fields → Fields
put_field k v end = field k v end
put_field k v (field j w fs) =
    let rest = put_field k v fs in if str_eq j k then field k v fs else field j w rest
put_field k v (odd_key w fs) = odd_key w (put_field k v fs)

-- A literal `{"k": v, ...}` whose keys are distinct, and `{**d, "k": v, ...}` for new keys.
abbrev pub fields : List (String × Value) → Fields
fields [] = end
fields ((k, v) ∷ kvs) = field k v (fields kvs)

abbrev pub items : List Value → Items
items [] = nil
items (v ∷ vs) = cons v (items vs)

-- `list(names)` for a tuple of texts
abbrev pub str_list : List String → Value
str_list names = list (items (map str names))

abbrev pub opt_str : Option String → Value
opt_str none = null
opt_str (some s) = str s
