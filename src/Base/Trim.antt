-- ===== src/Base/Trim.antt =====
-- `text.strip()`, on code points.
use Prim.Native.Nat.{ℕ, ◌/◌, ◌%◌}
use Prim.Native.Char.{Char, code}
use mathlib.Core.Path.{◌≡◌, refl}
use mathlib.Core.Bool.{Bool, true, false, ◌&&◌, ◌||◌}
use mathlib.Core.List.{List, [], ◌∷◌}
use approvo.Base.Tests.{leb, ◌==◌, if◌then◌else◌}
use approvo.Base.Lists.{All}
use approvo.Base.Text.{codes}
use approvo.Base.Encoding.{Bytes, hex_char, hex}

-- `str.isspace` of one character
unfoldable pub is_white : ℕ → Bool
is_white c =
    (leb 0x09 c && leb c 0x0d)
    || (leb 0x1c c && leb c 0x20)
    || c == 0x85
    || c == 0xa0
    || c == 0x1680
    || (leb 0x2000 c && leb c 0x200a)
    || c == 0x2028
    || c == 0x2029
    || c == 0x202f
    || c == 0x205f
    || c == 0x3000

unfoldable pub trim_start : List ℕ → List ℕ
trim_start [] = []
trim_start (c ∷ cs) = let rest = trim_start cs in if is_white c then rest else c ∷ cs

abbrev pub keep_unless_white : ℕ → List ℕ → List ℕ
keep_unless_white c [] = if is_white c then [] else c ∷ []
keep_unless_white c (d ∷ ds) = c ∷ d ∷ ds

unfoldable pub trim_end : List ℕ → List ℕ
trim_end [] = []
trim_end (c ∷ cs) = keep_unless_white c (trim_end cs)

unfoldable pub trim : List ℕ → List ℕ
unfolding is_white trim_start trim_end
trim cs = trim_end (trim_start cs)

abbrev NotWhite : ℕ → Type 0
NotWhite c = is_white c ≡ false

trim_end_lem : (cs : List ℕ) → All NotWhite cs → trim_end cs ≡ cs
unfolding trim_end
trim_end_lem [] h = refl
trim_end_lem (c ∷ []) h = rw h.0 refl
trim_end_lem (c ∷ d ∷ cs) h = rw (trim_end_lem (d ∷ cs) h.1) refl

trim_start_lem : (cs : List ℕ) → All NotWhite cs → trim_start cs ≡ cs
unfolding trim_start
trim_start_lem [] h = refl
trim_start_lem (c ∷ cs) h = rw h.0 refl

pub trim_lem : (cs : List ℕ) → All NotWhite cs → trim cs ≡ cs
unfolding trim
trim_lem cs h = rw (trim_start_lem cs h) (trim_end_lem cs h)

either :
    (b : Bool) (x y : Char)
    → NotWhite (code x)
    → NotWhite (code y)
    → NotWhite (code (if b then x else y))
either true x y p q = p
either false x y p q = q

hex_char-NotWhite : (d : ℕ) → NotWhite (code (hex_char d))
unfolding hex_char is_white
hex_char-NotWhite d = either (d == 0) _ _ refl (
    either (d == 1) _ _ refl (
      either (d == 2) _ _ refl (
        either (d == 3) _ _ refl (
          either (d == 4) _ _ refl (
            either (d == 5) _ _ refl (
              either (d == 6) _ _ refl (
                either (d == 7) _ _ refl (
                  either (d == 8) _ _ refl (
                    either (d == 9) _ _ refl (
                      either (d == 10) _ _ refl (
                        either (d == 11) _ _ refl (
                          either (d == 12) _ _ refl
                            (either (d == 13) _ _ refl (either (d == 14) _ _ refl refl))))))))))))))

hex-NotWhite : (bs : Bytes) → All NotWhite (codes (hex bs))
unfolding hex
hex-NotWhite [] = tt
hex-NotWhite (b ∷ bs) = (hex_char-NotWhite (b / 16), (hex_char-NotWhite (b % 16), hex-NotWhite bs))

-- Hexadecimal digits stay.
pub trim-hex : (bs : Bytes) → trim (codes (hex bs)) ≡ codes (hex bs)
trim-hex bs = trim_lem (codes (hex bs)) (hex-NotWhite bs)
