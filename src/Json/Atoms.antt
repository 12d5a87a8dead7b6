-- ===== src/Json/Atoms.antt =====
-- Reading texts and numbers back from their canonical bytes (src/approvo/canonical.py). The readers
-- are devices of the proofs.
use approvo.Base.{
  ℕ, zero, suc, ◌+◌, ◌-◌, ◌*◌, ◌/◌, ◌%◌, ◌<◌, String, codes, Bytes, utf8_code, utf8_first,
  utf8_first-utf8_code, codes-injective, ◌≡◌, refl, ap, ◌∙◌, sym, List, [], ◌∷◌, ◌++◌, append_assoc,
  append_cancel_left, ltb, ◌==◌, if◌then◌else◌, Bool-cases, inl, inr, arith, get_or, drop, subst,
}
use approvo.Json.Canonical.{decimal_fuel, decimal, escaped, escape_all, quoted}
use mathlib.Core.Path.{ap₂}
use native.Mathlib.Decide.{dec_lt}

-- The byte at a position behind the first, less an offset.
abbrev byte : Bytes → ℕ → ℕ
byte bs i = get_or bs i 0

-- The character that an escape or a UTF-8 sequence stands for.
abbrev letter : ℕ → ℕ
letter c =
    if c == b'n'
    then 0x0a
    else if c == b'r'
    then 0x0d
    else if c == b't'
    then 0x09
    else if c == b'f'
    then 0x0c
    else if c == b'b'
    then 0x08
    else c

abbrev hex_value : ℕ → ℕ
hex_value c = if ltb c b'a' then c - b'0' else c - b'a' + 10

first_code : Bytes → ℕ
first_code bs =
    let a = byte bs 0 in
    if a == 0x5c
    then (if byte bs 1 == b'u'
        then hex_value (byte bs 4) * 16 + hex_value (byte bs 5)
        else letter (byte bs 1))
    else utf8_first bs

first_code-low : (c : ℕ) (r : Bytes) → c < 0x80 → first_code (escaped c ++ r) ≡ c
unfolding first_code utf8_first escaped
first_code-low c r h = ground arith

first_code-high :
    (c : ℕ) (r : Bytes) → 0x7f < c → first_code (utf8_code c ++ r) ≡ utf8_first (utf8_code c ++ r)
unfolding first_code utf8_code
first_code-high c r h = ground arith

first_code-utf8_code : (c : ℕ) (r : Bytes) → 0x7f < c → first_code (utf8_code c ++ r) ≡ c
first_code-utf8_code c r h = first_code-high c r h ∙ utf8_first-utf8_code c r

escaped-high : (c : ℕ) → 0x7f < c → escaped c ≡ utf8_code c
unfolding escaped
escaped-high c h = ground arith

first_code-escaped : (c : ℕ) (r : Bytes) → first_code (escaped c ++ r) ≡ c
first_code-escaped c r = elim (dec_lt c 0x80) [
  | yes low ↦ first_code-low c r low
  | no not_low ↦ rw (escaped-high c (omega arith)) (first_code-utf8_code c r (omega arith))
]

first_code_quote : (s : Bytes) → first_code (b'"' ∷ s) ≡ b'"'
unfolding first_code utf8_first
first_code_quote s = refl

quote_escaped : (r s : Bytes) → escaped b'"' ++ r ≡ b'"' ∷ s → ⊥
unfolding escaped
quote_escaped r s e = cc

escaped-ne-quote : (c : ℕ) (r s : Bytes) → escaped c ++ r ≡ b'"' ∷ s → ⊥
escaped-ne-quote c r s e =
    let same : c ≡ b'"' = sym (first_code-escaped c r) ∙ ap first_code e ∙ first_code_quote s in
    quote_escaped r s (subst (λ k. escaped k ++ r ≡ b'"' ∷ s) same e)

-- Equal escaped texts up to the closing quote are equal texts.
escape_all-cut :
    (cs ds : List ℕ) (r s : Bytes)
    → escape_all cs ++ b'"' ∷ r ≡ escape_all ds ++ b'"' ∷ s
    → (cs ≡ ds) × (r ≡ s)
unfolding escape_all
escape_all-cut [] [] r s e = (refl, append_cancel_left (b'"' ∷ []) r s e)
escape_all-cut [] (d ∷ ds) r s e = absurd (
    escaped-ne-quote d (escape_all ds ++ b'"' ∷ s) r
      (sym (e ∙ append_assoc (escaped d) (escape_all ds) (b'"' ∷ s))))
escape_all-cut (c ∷ cs) [] r s e = absurd (
    escaped-ne-quote c (escape_all cs ++ b'"' ∷ r) s
      (sym (append_assoc (escaped c) (escape_all cs) (b'"' ∷ r)) ∙ e))
escape_all-cut (c ∷ cs) (d ∷ ds) r s e =
    let x = escape_all cs ++ b'"' ∷ r in
    let y = escape_all ds ++ b'"' ∷ s in
    let e' : escaped c ++ x ≡ escaped d ++ y =
      sym (append_assoc (escaped c) (escape_all cs) (b'"' ∷ r))
      ∙ e
      ∙ append_assoc (escaped d) (escape_all ds) (b'"' ∷ s) in
    let heads : c ≡ d = sym (first_code-escaped c x) ∙ ap first_code e' ∙ first_code-escaped d y in
    let tails : x ≡ y =
      append_cancel_left (escaped c) x y (e' ∙ ap (λ k. escaped k ++ y) (sym heads)) in
    let (rest, after) = escape_all-cut cs ds r s tails in (ap₂ (λ a l. a ∷ l) heads rest, after)

-- A quoted text can be read back, whatever follows it.
pub quoted-cut : (s t : String) (r u : Bytes) → quoted s ++ r ≡ quoted t ++ u → (s ≡ t) × (r ≡ u)
unfolding quoted
quoted-cut s t r u e =
    let e' : escape_all (codes s) ++ b'"' ∷ r ≡ escape_all (codes t) ++ b'"' ∷ u =
      sym (append_assoc (escape_all (codes s)) (b'"' ∷ []) r)
      ∙ ap (drop 1) e
      ∙ append_assoc (escape_all (codes t)) (b'"' ∷ []) u in
    let (same, rest) = escape_all-cut (codes s) (codes t) r u e' in (codes-injective s t same, rest)

pub quoted-injective : (s t : String) → quoted s ≡ quoted t → s ≡ t
quoted-injective s t e = (quoted-cut s t [] [] (ap (λ b. b ++ []) e)).0

value_from : ℕ → Bytes → ℕ
value_from acc [] = acc
value_from acc (d ∷ ds) = value_from (acc * 10 + (d - b'0')) ds

value_from-append :
    (acc : ℕ) (xs : Bytes) (d : ℕ)
    → value_from acc (xs ++ d ∷ []) ≡ value_from acc xs * 10 + (d - b'0')
unfolding value_from
value_from-append acc [] d = refl
value_from-append acc (x ∷ xs) d = value_from-append (acc * 10 + (x - b'0')) xs d

value_from-decimal_fuel : (fuel n : ℕ) → n < fuel → value_from 0 (decimal_fuel fuel n) ≡ n
unfolding value_from decimal_fuel
value_from-decimal_fuel zero n h = elim h [ ]
value_from-decimal_fuel (suc fuel) n h = elim (Bool-cases (ltb n 10)) [
  | inl small ↦ rw small (omega arith)
  | inr large ↦
      rw
        (
          large,
          value_from-append 0 (decimal_fuel fuel (n / 10)) (b'0' + n % 10),
          value_from-decimal_fuel fuel (n / 10) (ground arith),
        )
        (omega arith)
]

pub decimal-injective : (m n : ℕ) → decimal m ≡ decimal n → m ≡ n
unfolding decimal
decimal-injective m n e =
    sym (value_from-decimal_fuel (suc m) m (omega arith))
    ∙ ap (value_from 0) e
    ∙ value_from-decimal_fuel (suc n) n (omega arith)
