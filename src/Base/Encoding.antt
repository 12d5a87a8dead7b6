-- ===== src/Base/Encoding.antt =====
-- Bytes as lists of numbers: hexadecimal, and what a collision of a hash function is.
use Prim.Native.Nat.{ℕ, zero, suc, ◌+◌, ◌-◌, ◌*◌, ◌/◌, ◌%◌, ◌<◌}
use Prim.Native.Char.{Char, code}
use Prim.Native.String.{String}
use mathlib.Core.Path.{◌≡◌, refl, ap}
use mathlib.Core.Logic.{◌≢◌}
use mathlib.Core.Bool.{Bool, true, false, not, ◌&&◌, ◌||◌}
use mathlib.Core.List.{List, [], ◌∷◌}
use mathlib.Core.Option.{Option, none, some}
use native.Mathlib.Decide.{ℕ_discrete}
use native.Mathlib.Omega.{arith}
use approvo.Base.Tests.{ltb, leb, ◌==◌, ==→eq, &&-eq-true, not-eq-true, if◌then◌else◌}
use approvo.Base.Lists.{All}
use approvo.Base.Text.{codes}

abbrev pub Bytes : Type 0
Bytes = List ℕ

pub Bytes-discrete : Discrete Bytes
Bytes-discrete = hlevel ℕ_discrete

-- Two inputs that a function does not tell apart.
abbrev pub Collision {ℓ} : {B : Type ℓ} → (Bytes → B) → Type ℓ
Collision f = (x : Bytes) × (y : Bytes) × (x ≢ y) × (f x ≡ f y)

-- A collision between two inputs, one of each kind.
abbrev pub CollisionIn : (Bytes → Bytes) → (Bytes → Type 0) → (Bytes → Type 0) → Type 0
CollisionIn f P Q = (x : Bytes) × (y : Bytes) × P x × Q y × (x ≢ y) × (f x ≡ f y)

unfoldable pub hex_char : ℕ → Char
hex_char d =
    if d == 0
    then "0"
    else if d == 1
    then "1"
    else if d == 2
    then "2"
    else if d == 3
    then "3"
    else if d == 4
    then "4"
    else if d == 5
    then "5"
    else if d == 6
    then "6"
    else if d == 7
    then "7"
    else if d == 8
    then "8"
    else if d == 9
    then "9"
    else if d == 10
    then "a"
    else if d == 11
    then "b"
    else if d == 12
    then "c"
    else if d == 13
    then "d"
    else if d == 14
    then "e"
    else "f"

-- `data.hex()`
unfoldable pub hex : Bytes → String
unfolding hex_char
hex [] = ""
hex (b ∷ bs) = String.◌∷◌ (hex_char (b / 16)) (String.◌∷◌ (hex_char (b % 16)) (hex bs))

-- The value of a hexadecimal digit in either case, and 16 for any other character.
abbrev pub hex_digit_value : ℕ → ℕ
hex_digit_value c =
    if leb b'0' c && leb c b'9'
    then c - b'0'
    else if leb b'a' c && leb c b'f'
    then c - b'a' + 10
    else if leb b'A' c && leb c b'F'
    then c - b'A' + 10
    else 16

-- ASCII white space, which `bytes.fromhex` skips between bytes.
abbrev pub is_space : ℕ → Bool
is_space c = c == 0x20 || (leb 0x09 c && leb c 0x0d)

unfoldable pub add_byte : ℕ → ℕ → Option Bytes → Option Bytes
add_byte c d none = none
add_byte c d (some bs) =
    if ltb (hex_digit_value c) 16 && ltb (hex_digit_value d) 16
    then some ((hex_digit_value c * 16 + hex_digit_value d) ∷ bs)
    else none

unfoldable pub from_hex_codes : List ℕ → Option Bytes
unfolding add_byte
from_hex_codes [] = some []
from_hex_codes (c ∷ []) = if is_space c then some [] else none
from_hex_codes (c ∷ d ∷ cs) =
    let skipped = from_hex_codes (d ∷ cs) in
    let rest = from_hex_codes cs in if is_space c then skipped else add_byte c d rest

-- `bytes.fromhex(text)`; `none` stands for its `ValueError`.
unfoldable pub from_hex : String → Option Bytes
unfolding from_hex_codes
from_hex s = from_hex_codes (codes s)

unfoldable pub holds_to : (ℕ → Bool) → ℕ → Bool
holds_to test zero = true
holds_to test (suc top) = holds_to test top && test top

pub holds_to_sound :
    (test : ℕ → Bool) (top d : ℕ) → d < top → holds_to test top ≡ true → test d ≡ true
unfolding holds_to
holds_to_sound test zero d inside all_hold = absurd (omega arith)
holds_to_sound test (suc top) d inside all_hold = ground (arith, holds_to_sound test top d)

-- Every digit is read back, and is no white space.
abbrev reads_back : ℕ → Bool
reads_back d = hex_digit_value (code (hex_char d)) == d && not (is_space (code (hex_char d)))

hex_char_table : holds_to reads_back 16 ≡ true
unfolding holds_to hex_char
hex_char_table = refl

hex_char_lem :
    (d : ℕ)
    → d < 16
    → (hex_digit_value (code (hex_char d)) ≡ d) × (is_space (code (hex_char d)) ≡ false)
hex_char_lem d h =
    let t : reads_back d ≡ true = holds_to_sound reads_back 16 d h hex_char_table in
    let (value, space) = &&-eq-true _ _ t in (==→eq _ d value, not-eq-true _ space)

add_byte_lem :
    (c d b : ℕ) (bs : Bytes)
    → hex_digit_value c ≡ b / 16
    → hex_digit_value d ≡ b % 16
    → b < 256
    → add_byte c d (some bs) ≡ some (b ∷ bs)
unfolding add_byte
add_byte_lem c d b bs p q h = rw (p, q) (ground arith)

-- What `hex` writes for bytes, `bytes.fromhex` reads back.
pub from_hex-hex : (bs : Bytes) → All (λ b. b < 256) bs → from_hex (hex bs) ≡ some bs
unfolding from_hex hex
from_hex-hex [] h = refl
from_hex-hex (b ∷ bs) h =
    let (high, space) = hex_char_lem (b / 16) (omega arith) in
    let (low, _) = hex_char_lem (b % 16) (omega arith) in
    rw (space, from_hex-hex bs h.1)
      (add_byte_lem (code (hex_char (b / 16))) (code (hex_char (b % 16))) b bs high low h.0)

pub hex-injective :
    (xs ys : Bytes) → All (λ b. b < 256) xs → All (λ b. b < 256) ys → hex xs ≡ hex ys → xs ≡ ys
hex-injective xs ys p q e = cc (from_hex-hex xs p, from_hex-hex ys q, ap from_hex e)

-- `text.removeprefix(prefix)`, on code points
unfoldable pub strip : List ℕ → List ℕ → Option (List ℕ)
strip [] s = some s
strip (p ∷ ps) [] = none
strip (p ∷ ps) (c ∷ cs) = let rest = strip ps cs in if c == p then rest else none

-- `a == b` on bytes
unfoldable pub bytes_eq : Bytes → Bytes → Bool
bytes_eq [] [] = true
bytes_eq [] (y ∷ ys) = false
bytes_eq (x ∷ xs) [] = false
bytes_eq (x ∷ xs) (y ∷ ys) = x == y && bytes_eq xs ys

pub bytes_eq_sound : (xs ys : Bytes) → bytes_eq xs ys ≡ true → xs ≡ ys
unfolding bytes_eq
bytes_eq_sound [] [] h = refl
bytes_eq_sound [] (y ∷ ys) h = cc
bytes_eq_sound (x ∷ xs) [] h = cc
bytes_eq_sound (x ∷ xs) (y ∷ ys) h = ground (arith, bytes_eq_sound xs ys)

pub bytes_eq_refl : (xs : Bytes) → bytes_eq xs xs ≡ true
unfolding bytes_eq
bytes_eq_refl [] = refl
bytes_eq_refl (x ∷ xs) = ground (arith, bytes_eq_refl xs)
