-- ===== src/Clock.antt =====
-- Times as src/approvo/clock.py reads them. `datetime.fromisoformat` is a parameter, `parse`; the rest of
-- `datetime` that the program uses is written out: order, and addition with its overflow.
use approvo.Base.{
  zero, suc, append_text, codes, length, ℕ, ◌+◌, ◌-◌, String, Bool, Option, none, some, ltb,
  if◌then◌else◌,
}
use approvo.Result.{Result, ok, err, or_raise, value_error, type_error, overflow_error}

-- The local time in microseconds since the first of January of the year 1, and the offset from UTC plus one day, in
-- microseconds, or none for a naive time.
pub record Datetime : Type 0 where
  pub wall : ℕ
  pub offset : Option ℕ

-- `datetime.max`: the last microsecond of the year 9999
abbrev pub max_wall : ℕ
max_wall = 315537897599999999

abbrev two_days : ℕ
two_days = 172800000000

-- The time in UTC, plus one day.
abbrev pub instant : ℕ → ℕ → ℕ
instant wall offset = wall + (two_days - offset)

abbrev pub less : ℕ → Option ℕ → ℕ → Option ℕ → Result Bool
less a none b none = ok (ltb a b)
less a (some o) b (some p) = ok (ltb (instant a o) (instant b p))
less a _ b _ = err type_error

-- `s < t`, which is a `TypeError` between a naive and an aware time
unfoldable pub before_time : Datetime → Datetime → Result Bool
before_time s t = less s.wall s.offset t.wall t.offset

-- `t + delta`
unfoldable pub add_delta : Datetime → ℕ → Result Datetime
add_delta t delta =
    if ltb max_wall (t.wall + delta)
    then err overflow_error
    else ok (record t { wall = t.wall + delta })

module _ (parse : String → Option Datetime) where
  unfoldable pub parse_rfc3339 : String → Result Datetime
  parse_rfc3339 s = or_raise (parse s) value_error

-- `s[:n]`
abbrev text_take : ℕ → String → String
text_take zero s = ""
text_take (suc n) String.[] = ""
text_take (suc n) (String.◌∷◌ c s) = String.◌∷◌ c (text_take n s)

-- `strftime` is the text of the time in UTC with six digits of the second's fraction, of which three are cut off.
unfoldable pub to_rfc3339 : (Datetime → String) → Datetime → String
to_rfc3339 strftime t = append_text (text_take (length (codes (strftime t)) - 3) (strftime t)) "Z"
