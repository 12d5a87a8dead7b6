-- ===== src/Json/Scan.antt =====
-- Where a canonical value ends. The scanner is a device of the proofs: it walks bytes that
-- `json.dumps` (as src/approvo/canonical.py calls it) has written, and stops behind one value.
use approvo.Base.{
  ℕ, zero, suc, ◌+◌, ◌<◌, String, codes, Bytes, ◌≡◌, refl, ap, ◌∙◌, sym, true, false, ◌||◌, List,
  [], ◌∷◌, ◌++◌, append_assoc, ltb, ◌==◌, ltb→lt, le_text, Bool-cases, ◌/◌, ◌%◌, inl, inr,
  append_cancel_right, arith, pos, negsuc, ℤ,
}
use approvo.Json.{
  Value, null, bool, int, float, str, list, tuple, dict, opaque, Items, nil, cons, Fields, end,
  field, odd_key,
}
use approvo.Json.Canonical.{
  decimal_fuel, integer, escaped, escape_all, quoted, insert_entry, sort_entries, entry_bytes,
  comma_entries, join_entries, dumps, entries, dumps_first, dumps_rest,
}

-- `out` is outside a text, `text` inside one, `skip` behind a backslash.
pub data Mode : Type 0 where
  out text skip : Mode

-- What is left when, outside every text and bracket, a comma or a closing bracket comes.
pub scan : Mode → ℕ → Bytes → Bytes
scan m d [] = []
scan skip d (c ∷ cs) = scan text d cs
scan text d (c ∷ cs) = elim (c == b'"') [
  | true ↦ scan out d cs
  | false ↦ elim (c == 0x5c) [ true ↦ scan skip d cs | false ↦ scan text d cs ]
]
scan out d (c ∷ cs) = elim (c == b'"') [
  | true ↦ scan text d cs
  | false ↦ elim (c == b'[' || c == b'{') [
    | true ↦ scan out (suc d) cs
    | false ↦ elim (c == b']' || c == b'}') [
      | true ↦ elim d [ zero ↦ c ∷ cs | suc k ↦ scan out k cs ]
      | false ↦ elim (c == b',') [
        | true ↦ elim d [ zero ↦ c ∷ cs | suc k ↦ scan out (suc k) cs ]
        | false ↦ scan out d cs
      ]
    ]
  ]
]

scan-escaped : (c d : ℕ) (r : Bytes) → scan text d (escaped c ++ r) ≡ scan text d r
unfolding scan escaped
scan-escaped c d r = ground arith

scan-escape_all :
    (cs : List ℕ) (d : ℕ) (r : Bytes) → scan text d (escape_all cs ++ r) ≡ scan text d r
unfolding escape_all
scan-escape_all [] d r = refl
scan-escape_all (c ∷ cs) d r =
    rw (append_assoc (escaped c) (escape_all cs) r)
      (scan-escaped c d (escape_all cs ++ r) ∙ scan-escape_all cs d r)

scan-quoted : (s : String) (d : ℕ) (r : Bytes) → scan out d (quoted s ++ r) ≡ scan out d r
unfolding scan quoted
scan-quoted s d r =
    rw (append_assoc (escape_all (codes s)) (b'"' ∷ []) r) (scan-escape_all (codes s) d (b'"' ∷ r))

scan-digit : (n d : ℕ) (r : Bytes) → n < 10 → scan out d ((b'0' + n) ∷ r) ≡ scan out d r
unfolding scan
scan-digit n d r h = ground arith

-- Bytes that the scanner passes at every depth, and those that it passes within a bracket.
abbrev pub Passes : Bytes → Type 0
Passes bs = (d : ℕ) (r : Bytes) → scan out d (bs ++ r) ≡ scan out d r

abbrev Inner : Bytes → Type 0
Inner bs = (d : ℕ) (r : Bytes) → scan out (suc d) (bs ++ r) ≡ scan out (suc d) r

Passes-append : (xs ys : Bytes) → Passes xs → Passes ys → Passes (xs ++ ys)
Passes-append xs ys p q d r = rw (append_assoc xs ys r) (p d (ys ++ r) ∙ q d r)

Inner-append : (xs ys : Bytes) → Inner xs → Inner ys → Inner (xs ++ ys)
Inner-append xs ys p q d r = rw (append_assoc xs ys r) (p d (ys ++ r) ∙ q d r)

Inner-comma : (bs : Bytes) → Inner bs → Inner (b',' ∷ bs)
unfolding scan
Inner-comma bs p d r = p d r

Inner-colon : (bs : Bytes) → Inner bs → Inner (b':' ∷ bs)
unfolding scan
Inner-colon bs p d r = p d r

Passes-brackets : (bs : Bytes) → Inner bs → Passes (b'[' ∷ (bs ++ b']' ∷ []))
unfolding scan
Passes-brackets bs p d r = rw (append_assoc bs (b']' ∷ []) r) (p d (b']' ∷ r))

Passes-braces : (bs : Bytes) → Inner bs → Passes (b'{' ∷ (bs ++ b'}' ∷ []))
unfolding scan
Passes-braces bs p d r = rw (append_assoc bs (b'}' ∷ []) r) (p d (b'}' ∷ r))

Passes-decimal_fuel : (fuel n : ℕ) → Passes (decimal_fuel fuel n)
unfolding decimal_fuel
Passes-decimal_fuel zero n d r = refl
Passes-decimal_fuel (suc fuel) n d r = elim (Bool-cases (ltb n 10)) [
  | inl small ↦ rw small (scan-digit n d r (ltb→lt n 10 small))
  | inr large ↦ rw large (
      Passes-append (decimal_fuel fuel (n / 10)) ((b'0' + n % 10) ∷ [])
        (Passes-decimal_fuel fuel (n / 10)) (λ d r. scan-digit (n % 10) d r (omega arith)) d r)
]

Passes-integer : (n : ℤ) → Passes (integer n)
unfolding scan integer
Passes-integer (pos n) d r = Passes-decimal_fuel (suc n) n d r
Passes-integer (negsuc n) d r = Passes-decimal_fuel (suc (suc n)) (suc n) d r

-- Every value that stands beside a key is passed.
abbrev pub AllPass : List (String × Bytes) → Type 0
AllPass [] = Unit
AllPass (e ∷ es) = Passes e.1 × AllPass es

AllPass-insert_entry :
    (e : String × Bytes) (es : List (String × Bytes))
    → Passes e.1
    → AllPass es
    → AllPass (insert_entry e es)
unfolding insert_entry
AllPass-insert_entry e [] p ps = (p, tt)
AllPass-insert_entry e (f ∷ es) p ps = elim (Bool-cases (le_text e.0 f.0)) [
  | inl le ↦ rw le (p, ps)
  | inr gt ↦ rw gt (ps.0, AllPass-insert_entry e es p ps.1)
]

pub AllPass-sort_entries : (es : List (String × Bytes)) → AllPass es → AllPass (sort_entries es)
unfolding sort_entries
AllPass-sort_entries [] ps = tt
AllPass-sort_entries (e ∷ es) ps =
    AllPass-insert_entry e (sort_entries es) ps.0 (AllPass-sort_entries es ps.1)

Passes-entry_bytes : (e : String × Bytes) → Passes e.1 → Passes (entry_bytes e)
unfolding entry_bytes
Passes-entry_bytes e p =
    Passes-append (quoted e.0) (b':' ∷ e.1) (scan-quoted e.0) (unfold scan in p)

Inner-comma_entries : (es : List (String × Bytes)) → AllPass es → Inner (comma_entries es)
unfolding comma_entries
Inner-comma_entries [] ps = λ d r. refl
Inner-comma_entries (e ∷ es) ps = Inner-comma (entry_bytes e ++ comma_entries es) (
    Inner-append (entry_bytes e) (comma_entries es) (λ d. Passes-entry_bytes e ps.0 (suc d))
      (Inner-comma_entries es ps.1))

Inner-join_entries : (es : List (String × Bytes)) → AllPass es → Inner (join_entries es)
unfolding join_entries
Inner-join_entries [] ps = λ d r. refl
Inner-join_entries (e ∷ es) ps =
    Inner-append (entry_bytes e) (comma_entries es) (λ d. Passes-entry_bytes e ps.0 (suc d))
      (Inner-comma_entries es ps.1)

mutual
  unfolding dumps scan

  pub Passes-dumps : (v : Value) → Passes (dumps v)
  Passes-dumps null = λ d r. refl
  Passes-dumps (bool true) = λ d r. refl
  Passes-dumps (bool false) = λ d r. refl
  Passes-dumps (int n) = Passes-integer n
  Passes-dumps (float n) = λ d r. refl
  Passes-dumps (str s) = scan-quoted s
  Passes-dumps (list vs) = Passes-brackets (dumps_first vs) (Inner-dumps_first vs)
  Passes-dumps (tuple vs) = Passes-brackets (dumps_first vs) (Inner-dumps_first vs)
  Passes-dumps (dict fs) = Passes-braces (join_entries (sort_entries (entries fs))) (
      Inner-join_entries (sort_entries (entries fs))
        (AllPass-sort_entries (entries fs) (AllPass-entries fs)))
  Passes-dumps opaque = λ d r. refl

  Inner-dumps_first : (vs : Items) → Inner (dumps_first vs)
  Inner-dumps_first nil = λ d r. refl
  Inner-dumps_first (cons v vs) =
      Inner-append (dumps v) (dumps_rest vs) (λ d. Passes-dumps v (suc d)) (Inner-dumps_rest vs)

  Inner-dumps_rest : (vs : Items) → Inner (dumps_rest vs)
  Inner-dumps_rest nil = λ d r. refl
  Inner-dumps_rest (cons v vs) =
      Inner-comma (dumps v ++ dumps_rest vs)
        (Inner-append (dumps v) (dumps_rest vs) (λ d. Passes-dumps v (suc d)) (Inner-dumps_rest vs))

  pub AllPass-entries : (fs : Fields) → AllPass (entries fs)
  AllPass-entries end = tt
  AllPass-entries (field k v fs) = (Passes-dumps v, AllPass-entries fs)
  AllPass-entries (odd_key v fs) = AllPass-entries fs

-- What may follow a value: the end, a comma or a closing bracket.
abbrev pub Ends : Bytes → Type 0
Ends [] = Unit
Ends (c ∷ cs) = (c == b',' || (c == b']' || c == b'}')) ≡ true

scan-Ends : (r : Bytes) → Ends r → scan out 0 r ≡ r
unfolding scan
scan-Ends [] h = refl
scan-Ends (c ∷ cs) h = ground arith

-- What the scanner passes ends in one place only: it is no proper beginning of another such value.
pub Passes-cut :
    (xs ys r s : Bytes)
    → Passes xs
    → Passes ys
    → Ends r
    → Ends s
    → xs ++ r ≡ ys ++ s
    → (xs ≡ ys) × (r ≡ s)
Passes-cut xs ys r s px py hr hs e =
    let rest : r ≡ s =
      sym (px 0 r ∙ scan-Ends r hr) ∙ ap (scan out 0) e ∙ (py 0 s ∙ scan-Ends s hs) in
    (append_cancel_right xs ys s (ap (λ t. xs ++ t) (sym rest) ∙ e), rest)
