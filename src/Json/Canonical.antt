-- ===== src/Json/Canonical.antt =====
-- src/approvo/canonical.py: which values may be serialized, and their canonical bytes. `json.dumps` is
-- written out for the arguments of the call: sorted keys, compact separators, no ASCII escapes.
use approvo.Base.{
  ℕ, zero, suc, ◌+◌, ◌-◌, ◌/◌, ◌%◌, ℤ, pos, negsuc, String, codes, le_text, Bytes, utf8_code, ◌≡◌,
  refl, true, false, List, [], ◌∷◌, ◌++◌, ltb, ◌==◌, if◌then◌else◌,
}
use approvo.Result.{Result, ok, err, not_canonicalizable, ◌>>◌}
use approvo.Json.{
  Value, null, bool, int, float, str, list, tuple, dict, opaque, Items, nil, cons, Fields, end,
  field, odd_key,
}

-- `_check`, which raises at the first value that has no canonical form
unfoldable mutual
  pub check_value : Value → Result (Unit {0})
  check_value null = ok tt
  check_value (bool b) = ok tt
  check_value (int n) = ok tt
  check_value (float n) = err not_canonicalizable
  check_value (str s) = ok tt
  check_value (list vs) = check_items vs
  check_value (tuple vs) = check_items vs
  check_value (dict fs) = check_fields fs
  check_value opaque = err not_canonicalizable

  pub check_items : Items → Result (Unit {0})
  check_items nil = ok tt
  check_items (cons v vs) = check_value v >> check_items vs

  pub check_fields : Fields → Result (Unit {0})
  check_fields end = ok tt
  check_fields (field k v fs) = check_value v >> check_fields fs
  check_fields (odd_key v fs) = err not_canonicalizable

-- Decimal digits; the fuel is the number itself plus one.
unfoldable pub decimal_fuel : ℕ → ℕ → Bytes
decimal_fuel zero n = []
decimal_fuel (suc fuel) n =
    let rest = decimal_fuel fuel (n / 10) in
    if ltb n 10 then (b'0' + n) ∷ [] else rest ++ (b'0' + n % 10) ∷ []

unfoldable pub decimal : ℕ → Bytes
unfolding decimal_fuel
decimal n = decimal_fuel (suc n) n

unfoldable pub integer : ℤ → Bytes
unfolding decimal
integer (pos n) = decimal n
integer (negsuc n) = b'-' ∷ decimal (suc n)

abbrev pub hex_digit : ℕ → ℕ
hex_digit d = if ltb d 10 then b'0' + d else b'a' + (d - 10)

-- One character of a text, escaped where JSON asks for it.
unfoldable pub escaped : ℕ → Bytes
unfolding utf8_code
escaped c =
    if c == b'"'
    then codes "\\\""
    else if c == 0x5c
    then codes "\\\\"
    else if c == 0x0a
    then codes "\\n"
    else if c == 0x0d
    then codes "\\r"
    else if c == 0x09
    then codes "\\t"
    else if c == 0x0c
    then codes "\\f"
    else if c == 0x08
    then codes "\\b"
    else if ltb c 0x20
    then codes "\\u00" ++ hex_digit (c / 16) ∷ hex_digit (c % 16) ∷ []
    else utf8_code c

unfoldable pub escape_all : List ℕ → Bytes
unfolding escaped
escape_all [] = []
escape_all (c ∷ cs) = escaped c ++ escape_all cs

unfoldable pub quoted : String → Bytes
unfolding escape_all
quoted s = b'"' ∷ (escape_all (codes s) ++ b'"' ∷ [])

-- The items of a dictionary in the order of their keys.
unfoldable pub insert_entry : String × Bytes → List (String × Bytes) → List (String × Bytes)
insert_entry e [] = e ∷ []
insert_entry e (f ∷ es) =
    let rest = insert_entry e es in if le_text e.0 f.0 then e ∷ f ∷ es else f ∷ rest

unfoldable pub sort_entries : List (String × Bytes) → List (String × Bytes)
unfolding insert_entry
sort_entries [] = []
sort_entries (e ∷ es) = insert_entry e (sort_entries es)

unfoldable pub entry_bytes : String × Bytes → Bytes
unfolding quoted
entry_bytes e = quoted e.0 ++ b':' ∷ e.1

unfoldable pub comma_entries : List (String × Bytes) → Bytes
unfolding entry_bytes
comma_entries [] = []
comma_entries (e ∷ es) = b',' ∷ (entry_bytes e ++ comma_entries es)

unfoldable pub join_entries : List (String × Bytes) → Bytes
unfolding comma_entries
join_entries [] = []
join_entries (e ∷ es) = entry_bytes e ++ comma_entries es

-- `json.dumps`. What `_check` refuses has no case of its own: it is never reached.
unfoldable mutual
  unfolding integer quoted sort_entries join_entries

  pub dumps : Value → Bytes
  dumps null = codes "null"
  dumps (bool true) = codes "true"
  dumps (bool false) = codes "false"
  dumps (int n) = integer n
  dumps (float n) = []
  dumps (str s) = quoted s
  dumps (list vs) = b'[' ∷ (dumps_first vs ++ b']' ∷ [])
  dumps (tuple vs) = b'[' ∷ (dumps_first vs ++ b']' ∷ [])
  dumps (dict fs) = b'{' ∷ (join_entries (sort_entries (entries fs)) ++ b'}' ∷ [])
  dumps opaque = []

  pub dumps_first : Items → Bytes
  dumps_first nil = []
  dumps_first (cons v vs) = dumps v ++ dumps_rest vs

  pub dumps_rest : Items → Bytes
  dumps_rest nil = []
  dumps_rest (cons v vs) = b',' ∷ (dumps v ++ dumps_rest vs)

  pub entries : Fields → List (String × Bytes)
  entries end = []
  entries (field k v fs) = (k, dumps v) ∷ entries fs
  entries (odd_key v fs) = entries fs

unfoldable pub canonical_bytes : Value → Result Bytes
unfolding check_value dumps
canonical_bytes v = do check_value v; ok (dumps v)

canonical_example :
    canonical_bytes (
      dict (
        field "b"
          (list (cons (int (pos 120)) (cons (bool true) nil)))
          (field "a" (str "x\"\n") end)))
    ≡ ok (codes "{\"a\":\"x\\\"\\n\",\"b\":[120,true]}")
unfolding canonical_bytes
canonical_example = refl
