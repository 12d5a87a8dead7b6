-- ===== src/Example/Mongo/Numbers.antt =====
-- `str(n)` of a number, as an f-string writes it.
use approvo.Base.{
  ℕ, zero, suc, ◌+◌, ◌/◌, ◌%◌, ◌<◌, String, append_text, codes, codes-append, hex_char, holds_to,
  holds_to_sound, ltb, ◌==◌, ==→eq, ◌≡◌, refl, ap, ◌∙◌, true, Bool-cases, inl, inr, [], ◌∷◌, ◌++◌,
  if◌then◌else◌, arith,
}
use Prim.Native.Char.{code}
use mathlib.Core.Path.{ap₂}
use approvo.Json.Canonical.{decimal_fuel, decimal}

abbrev digit_text : ℕ → String
digit_text d = String.◌∷◌ (hex_char d) ""

unfoldable pub decimal_text_fuel : ℕ → ℕ → String
unfolding hex_char
decimal_text_fuel zero n = ""
decimal_text_fuel (suc fuel) n =
    let rest = decimal_text_fuel fuel (n / 10) in
    if ltb n 10 then digit_text n else append_text rest (digit_text (n % 10))

unfoldable pub decimal_text : ℕ → String
unfolding decimal_text_fuel
decimal_text n = decimal_text_fuel (suc n) n

digit_table : holds_to (λ d. code (hex_char d) == b'0' + d) 10 ≡ true
unfolding holds_to hex_char
digit_table = refl

digit_code : (d : ℕ) → d < 10 → code (hex_char d) ≡ b'0' + d
digit_code d h =
    ==→eq (code (hex_char d)) (b'0' + d)
      (holds_to_sound (λ k. code (hex_char k) == b'0' + k) 10 d h digit_table)

digit_codes : (d : ℕ) → d < 10 → codes (digit_text d) ≡ (b'0' + d) ∷ []
digit_codes d h = ap (λ c. c ∷ []) (digit_code d h)

codes-decimal_text_fuel : (fuel n : ℕ) → codes (decimal_text_fuel fuel n) ≡ decimal_fuel fuel n
unfolding decimal_text_fuel decimal_fuel
codes-decimal_text_fuel zero n = refl
codes-decimal_text_fuel (suc fuel) n = elim (Bool-cases (ltb n 10)) [
  | inl small ↦ rw small (digit_codes n (ground (arith, small)))
  | inr large ↦ rw large (
      codes-append (decimal_text_fuel fuel (n / 10)) (digit_text (n % 10))
      ∙ ap₂ (λ a b. a ++ b) (codes-decimal_text_fuel fuel (n / 10))
          (digit_codes (n % 10) (omega arith)))
]

-- The text has the decimal digits.
pub codes-decimal_text : (n : ℕ) → codes (decimal_text n) ≡ decimal n
unfolding decimal_text decimal
codes-decimal_text n = codes-decimal_text_fuel (suc n) n
