-- ===== src/Json/Read.antt =====
-- How the converters `from_dict` of src/approvo/models.py read a dictionary. The fields of the model have
-- the types that the source annotates; a value of another type is a `TypeError` here, while
-- Python keeps it until it is used.
use approvo.Base.{ℕ, pos, String, ◌≡◌, refl, Bool, Option, none, some, List, [], ◌∷◌}
use approvo.Result.{Result, ok, err, type_error, key_error, ◌>>=◌}
use approvo.Json.{
  Value, null, bool, int, str, list, tuple, dict, Items, nil, cons, Fields, get_field, str_list,
  items,
}
use mathlib.Core.List.{map}

abbrev pub as_text : Value → Result String
as_text (str s) = ok s
as_text v = err type_error

abbrev pub as_nat : Value → Result ℕ
as_nat (int (pos n)) = ok n
as_nat v = err type_error

abbrev pub as_bool : Value → Result Bool
as_bool (bool b) = ok b
as_bool v = err type_error

abbrev pub as_dict : Value → Result Fields
as_dict (dict fs) = ok fs
as_dict v = err type_error

abbrev pub as_opt_text : Value → Result (Option String)
as_opt_text null = ok none
as_opt_text (str s) = ok (some s)
as_opt_text v = err type_error

abbrev pub as_opt_dict : Value → Result (Option Fields)
as_opt_dict null = ok none
as_opt_dict (dict fs) = ok (some fs)
as_opt_dict v = err type_error

abbrev pub texts_of : Items → Result (List String)
texts_of nil = ok []
texts_of (cons v vs) = do s ← as_text v; ss ← texts_of vs; ok (s ∷ ss)

-- `tuple(v)`
abbrev pub as_texts : Value → Result (List String)
as_texts (list vs) = texts_of vs
as_texts (tuple vs) = texts_of vs
as_texts v = err type_error

abbrev pub dicts_of : Items → Result (List Fields)
dicts_of nil = ok []
dicts_of (cons v vs) = do d ← as_dict v; ds ← dicts_of vs; ok (d ∷ ds)

abbrev pub as_dicts : Value → Result (List Fields)
as_dicts (list vs) = dicts_of vs
as_dicts (tuple vs) = dicts_of vs
as_dicts v = err type_error

-- `list(dicts)` for a tuple of dictionaries
abbrev pub dict_list : List Fields → Value
dict_list ds = list (items (map dict ds))

module _ {A : Type 0} (convert : Value → Result A) where
  -- `d[k]`
  abbrev pub required : String → Fields → Result A
  required k fs = elim (get_field k fs) [ none ↦ err key_error | some v ↦ convert v ]

  -- `d.get(k, default)`
  abbrev pub optional : String → A → Fields → Result A
  optional k default fs = elim (get_field k fs) [ none ↦ ok default | some v ↦ convert v ]

pub texts_of-items : (names : List String) → texts_of (items (map str names)) ≡ ok names
texts_of-items [] = refl
texts_of-items (s ∷ names) = rw (texts_of-items names) refl

pub as_texts-str_list : (names : List String) → as_texts (str_list names) ≡ ok names
as_texts-str_list names = texts_of-items names

dicts_of-items : (ds : List Fields) → dicts_of (items (map dict ds)) ≡ ok ds
dicts_of-items [] = refl
dicts_of-items (d ∷ ds) = rw (dicts_of-items ds) refl

pub as_dicts-dict_list : (ds : List Fields) → as_dicts (dict_list ds) ≡ ok ds
as_dicts-dict_list ds = dicts_of-items ds
