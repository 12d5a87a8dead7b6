-- ===== src/Tests/Marks.antt =====
-- An encoding of bytes that stands for base64 in the examples.
use approvo.Base.{ℕ, zero, suc, ◌==◌, String, Bytes, ◌≡◌, refl, ap, [], ◌∷◌, if◌then◌else◌}
use Prim.Native.Char.{code}

-- A byte is written as so many marks, and a colon.
abbrev marks : ℕ → String → String
marks zero s = s
marks (suc n) s = String.◌∷◌ "1" (marks n s)

abbrev pub written : Bytes → String
written [] = ""
written (b ∷ bs) = marks b (String.◌∷◌ ":" (written bs))

abbrev bump : Bytes → Bytes
bump [] = []
bump (b ∷ bs) = suc b ∷ bs

abbrev pub read : String → Bytes
read String.[] = []
read (String.◌∷◌ c s) = let rest = read s in if code c == b':' then 0 ∷ rest else bump rest

read-marks : (n : ℕ) (s : String) (bs : Bytes) → read s ≡ 0 ∷ bs → read (marks n s) ≡ n ∷ bs
read-marks zero s bs h = h
read-marks (suc n) s bs h = ap bump (read-marks n s bs h)

pub read-written : (bs : Bytes) → read (written bs) ≡ bs
read-written [] = refl
read-written (b ∷ bs) = read-marks b _ bs (ap (λ rest. 0 ∷ rest) (read-written bs))
