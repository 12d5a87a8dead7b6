-- ===== src/Base/Utf8.antt =====
-- UTF-8, and reading a text back from its bytes.
use Prim.Native.Nat.{ℕ, ◌+◌, ◌-◌, ◌*◌, ◌/◌, ◌%◌, ◌<◌}
use Prim.Native.String.{String}
use mathlib.Core.Path.{◌≡◌, refl, sym, ap, ap₂, ◌∙◌}
use mathlib.Core.List.{List, [], ◌∷◌, ◌++◌, append_cancel_left}
use native.Mathlib.Decide.{dec_lt}
use native.Mathlib.Omega.{arith}
use text.Mathlib.TextEquality.{Char-path}
use approvo.Base.Tests.{ltb, if◌then◌else◌}
use approvo.Base.Lists.{get_or, drop}
use approvo.Base.Text.{codes}
use approvo.Base.Encoding.{Bytes}

-- One code point in UTF-8.
unfoldable pub utf8_code : ℕ → Bytes
utf8_code c =
    if ltb c 0x80
    then c ∷ []
    else if ltb c 0x800
    then (0xc0 + c / 0x40) ∷ (0x80 + c % 0x40) ∷ []
    else if ltb c 0x10000
    then (0xe0 + c / 0x1000) ∷ (0x80 + c / 0x40 % 0x40) ∷ (0x80 + c % 0x40) ∷ []
    else (0xf0 + c / 0x40000)
      ∷ (0x80 + c / 0x1000 % 0x40)
      ∷ (0x80 + c / 0x40 % 0x40)
      ∷ (0x80 + c % 0x40)
      ∷ []

unfoldable pub utf8_codes : List ℕ → Bytes
unfolding utf8_code
utf8_codes [] = []
utf8_codes (c ∷ cs) = utf8_code c ++ utf8_codes cs

-- `text.encode("utf-8")`
unfoldable pub utf8 : String → Bytes
unfolding utf8_codes
utf8 s = utf8_codes (codes s)

-- The code point that a sequence of bytes begins with.
unfoldable pub utf8_first : Bytes → ℕ
utf8_first bs =
    let a = get_or bs 0 0 in
    let b = get_or bs 1 0 - 0x80 in
    let c = get_or bs 2 0 - 0x80 in
    let d = get_or bs 3 0 - 0x80 in
    if ltb a 0x80
    then a
    else if ltb a 0xe0
    then (a - 0xc0) * 0x40 + b
    else if ltb a 0xf0
    then (a - 0xe0) * 0x1000 + b * 0x40 + c
    else (a - 0xf0) * 0x40000 + b * 0x1000 + c * 0x40 + d

utf8_first-one : (c : ℕ) (r : Bytes) → c < 0x80 → utf8_first (utf8_code c ++ r) ≡ c
unfolding utf8_first utf8_code
utf8_first-one c r h = ground arith

utf8_first-two : (c : ℕ) (r : Bytes) → 0x7f < c → c < 0x800 → utf8_first (utf8_code c ++ r) ≡ c
unfolding utf8_first utf8_code
utf8_first-two c r h k = ground arith

utf8_first-three : (c : ℕ) (r : Bytes) → 0x7ff < c → c < 0x10000 → utf8_first (utf8_code c ++ r) ≡ c
unfolding utf8_first utf8_code
utf8_first-three c r h k = ground arith

utf8_first-four : (c : ℕ) (r : Bytes) → 0xffff < c → utf8_first (utf8_code c ++ r) ≡ c
unfolding utf8_first utf8_code
utf8_first-four c r h = ground arith

pub utf8_first-utf8_code : (c : ℕ) (r : Bytes) → utf8_first (utf8_code c ++ r) ≡ c
utf8_first-utf8_code c r = elim (dec_lt c 0x80) [
  | yes one ↦ utf8_first-one c r one
  | no not_one ↦ elim (dec_lt c 0x800) [
    | yes two ↦ utf8_first-two c r (omega arith) two
    | no not_two ↦ elim (dec_lt c 0x10000) [
      | yes three ↦ utf8_first-three c r (omega arith) three
      | no not_three ↦ utf8_first-four c r (omega arith)
    ]
  ]
]

utf8_code-ne-nil : (c : ℕ) (r : Bytes) → utf8_code c ++ r ≡ [] → ⊥
unfolding utf8_code
utf8_code-ne-nil c r e = ground arith

utf8_codes-injective : (cs ds : List ℕ) → utf8_codes cs ≡ utf8_codes ds → cs ≡ ds
unfolding utf8_codes
utf8_codes-injective [] [] e = refl
utf8_codes-injective [] (d ∷ ds) e = absurd (utf8_code-ne-nil d (utf8_codes ds) (sym e))
utf8_codes-injective (c ∷ cs) [] e = absurd (utf8_code-ne-nil c (utf8_codes cs) e)
utf8_codes-injective (c ∷ cs) (d ∷ ds) e =
    let heads : c ≡ d =
      sym (utf8_first-utf8_code c (utf8_codes cs))
      ∙ ap utf8_first e
      ∙ utf8_first-utf8_code d (utf8_codes ds) in
    let tails : utf8_codes cs ≡ utf8_codes ds =
      append_cancel_left (utf8_code c) (utf8_codes cs) (utf8_codes ds)
        (e ∙ ap (λ k. utf8_code k ++ utf8_codes ds) (sym heads)) in
    ap₂ (λ a l. a ∷ l) heads (utf8_codes-injective cs ds tails)

pub codes-injective : (s t : String) → codes s ≡ codes t → s ≡ t
codes-injective String.[] String.[] e = refl
codes-injective String.[] (String.◌∷◌ d t) e = cc
codes-injective (String.◌∷◌ c s) String.[] e = cc
codes-injective (String.◌∷◌ c s) (String.◌∷◌ d t) e =
    ap₂ String.◌∷◌ (Char-path c d (ap (λ l. get_or l 0 0) e)) (codes-injective s t (ap (drop 1) e))

-- Texts with the same UTF-8 bytes are the same text.
pub utf8-injective : (s t : String) → utf8 s ≡ utf8 t → s ≡ t
unfolding utf8
utf8-injective s t e = codes-injective s t (utf8_codes-injective (codes s) (codes t) e)
